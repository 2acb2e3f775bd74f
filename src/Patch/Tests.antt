-- ===== src/Patch/Tests.antt =====
-- A plan on two files, with transforms that put a byte in front.
use prolog_forge.Prelude.{
  ℕ, none, ◌≡◌, refl, inl, [], ◌∷◌, ◌++◌, nat_eq, list_eq, list_beq, Str, bytes, length, Map,
  map_get, map_insert, btree_insert, str_le, map_keys, In, filter_map, ok, err,
}
use prolog_forge.Commit.Apply.{Target, select_targets}
use prolog_forge.Validate.Stages.{ends_with}
use prolog_forge.Patch.Ops
use prolog_forge.Patch.Ops.{PatchPlan, labelled}
use prolog_forge.Patch.Plan.{
  Transforms, apply_plan, apply_ops, apply_op, each_path, store_result, paths_in_scope, filter,
  add_count,
}
use prolog_forge.Patch.Preview.{FilePatch, preview, list_files}
use prolog_forge.Patch.Preview.Exact.{preview_covers_commit}
use prolog_forge.Patch.Preview.Keeps.{Keeps}
use prolog_forge.Patch.Resolver.{
  Server, Resolver, one_shot, apply_answer, resolve_at, resolve, resolve_with, with_resolver,
}
use prolog_forge.Patch.Resolver.Keeps.{apply_plan-Keeps}
use prolog_forge.Rename.Workspace.{
  WorkspaceEdit, apply_workspace_edit, apply_edits, flatten, uri_to_relative, strip_prefix,
}

abbrev transforms : Transforms
transforms = record {
  rename = λ src old_name new_name. ok (new_name ++ src, 2);
  add_derive = λ src type_name derives. ok (src, 0);
  remove_derive = λ src type_name derives. err (bytes "refused");
  inline_function = λ files function filter. ok ([], []);
  extract_function = λ src start_line end_line new_name params. ok (src, 0);
  change_signature = λ files function new_params filter. ok ([], []);
  move_item = λ files kind name from_file to_file filter. ok ([], []);
  resolve = λ files decl_file line character new_name. ok files;
}

abbrev files : Map Str Str
files = (bytes "a.rs", bytes "x") ∷ (bytes "b.md", bytes "y") ∷ []

abbrev plan : PatchPlan
plan = record {
  ops =
      Ops.rename_function (bytes "f") (bytes "g") []
      ∷ Ops.remove_derive_from_struct (bytes "T") [] []
      ∷ [];
  label = bytes "rename";
}

abbrev render : Str → Str → Str → Str
render path before after = path

abbrev changed : FilePatch
changed = record {
  path = bytes "a.rs";
  before_len = 1;
  after_len = 2;
  replacements = 2;
  diff = bytes "a.rs";
}

previewed : (preview transforms render plan files).files ≡ changed ∷ []
unfolding preview list_files apply_ops apply_op each_path store_result paths_in_scope filter
    add_count ends_with map_keys map_get btree_insert str_le list_beq
previewed = refl

abbrev target : Target
target = record { rel = bytes "a.rs"; before = bytes "x"; new_content = bytes "gx" }

targeted : In target (select_targets (apply_plan transforms plan files).0 files)
unfolding select_targets apply_plan apply_ops apply_op each_path store_result paths_in_scope filter
    add_count ends_with map_keys map_get btree_insert str_le filter_map list_beq
targeted = inl refl

preview_covers_commit_example :
    (f : FilePatch) × In f (preview transforms render plan files).files
    × (f.path ≡ target.rel)
    × (f.before_len ≡ length target.before)
    × (f.after_len ≡ length target.new_content)
preview_covers_commit_example = preview_covers_commit transforms render plan files target targeted

-- A server that answers every rename with an edit of `a.rs`.
abbrev edit : WorkspaceEdit
edit = record {
  changes =
      (
        bytes "file:///r/a.rs",
        record {
          range = record {
            start = record { line = 0; character = 0 };
            stop = record { line = 0; character = 1 };
          };
          new_text = bytes "z";
        }
            ∷ [],
      )
      ∷ [];
  document_changes = [];
}

abbrev server : Server
server = record {
  materialize = λ files. ok (bytes "/r");
  spawn = λ root. none;
  rename = λ root decl_file line character new_name. record { edit = ok edit; attempts = [] };
  to_string = λ e. [];
}

abbrev typed : PatchPlan
typed = record {
  ops = Ops.rename_function_typed (bytes "a.rs") 0 0 (bytes "z") (bytes "x") ∷ [];
  label = bytes "typed";
}

abbrev at_each : Map Str Str → Str → ℕ → ℕ → Str → Resolver
at_each _ decl_file line character new_name = one_shot server

resolved :
    (apply_plan (with_resolver at_each transforms) typed files).0
    ≡ (bytes "a.rs", bytes "z") ∷ (bytes "b.md", bytes "y") ∷ []
unfolding apply_plan apply_ops apply_op with_resolver resolve_with resolve resolve_at apply_answer
    apply_workspace_edit apply_edits flatten uri_to_relative strip_prefix map_get map_insert
    list_beq
resolved = refl

apply_plan-Keeps_example : Keeps files (apply_plan (with_resolver at_each transforms) typed files).0
apply_plan-Keeps_example = apply_plan-Keeps transforms at_each typed files
