-- ===== src/Patch/Plan.antt =====
-- The planner, crates/aa-patch/src/plan.rs. The transforms of the other files, the resolver of typed
-- renames and the renderer of diffs are an interface; a message is its parts.
use prolog_forge.Prelude.{
  ℕ, ◌+◌, List, [], ◌∷◌, ◌++◌, Option, none, some, Bool, false, not, ◌==◌, nat_eq, list_eq, eqb,
  elem, Str, bytes, get_or, Map, map_get, btree_insert, map_keys, contains_key, if◌then◌else◌,
  Result, ok, err,
}
use prolog_forge.Rename.Edits.{TypedRenameError, unavailable}
use prolog_forge.Validate.Stages.{ends_with}
use prolog_forge.Patch.Ops
use prolog_forge.Patch.Ops.{ItemKind, ExtractParam, ParamReorder, PatchOp, PatchPlan}

pub data ErrorText : Type 0 where
  message : Str → ErrorText
  not_available : Str → ErrorText
  typed_rename : TypedRenameError → ErrorText
  not_in_scope : Str → ErrorText

pub record PreviewError : Type 0 where
  pub file : Str
  pub text : ErrorText

abbrev pub FileResult : Type 0
FileResult = Result {0, 0} Str (Str × ℕ)

abbrev pub FilesResult : Type 0
FilesResult = Result {0, 0} Str (Map Str Str × Map Str ℕ)

pub record Transforms : Type 0 where
  pub rename : Str → Str → Str → FileResult
  pub add_derive : Str → Str → List Str → FileResult
  pub remove_derive : Str → Str → List Str → FileResult
  pub inline_function : Map Str Str → Str → List Str → FilesResult
  pub extract_function : Str → ℕ → ℕ → Str → List ExtractParam → FileResult
  pub change_signature : Map Str Str → Str → List ParamReorder → List Str → FilesResult
  pub move_item : Map Str Str → ItemKind → Str → Str → Str → List Str → FilesResult
  pub resolve : Map Str Str → Str → ℕ → ℕ → Str → Result {0, 0} TypedRenameError (Map Str Str)

-- What `apply_op` mutates; both maps are in the order of their paths when the given one is.
pub record Working : Type 0 where
  pub files : Map Str Str
  pub replacements : Map Str ℕ
  pub errors : List PreviewError

unfoldable pub filter : (Str → Bool) → List Str → List Str
filter p [] = []
filter p (x ∷ xs) = let rest = filter p xs in if p x then x ∷ rest else rest

unfoldable pub paths_in_scope : List Str → Map Str Str → List Str
unfolding filter ends_with
paths_in_scope [] working = filter (λ p. ends_with p (bytes ".rs")) (map_keys working)
paths_in_scope (f ∷ fs) working = filter (λ p. contains_key p working) (f ∷ fs)

unfoldable pub add_count : Str → ℕ → Map Str ℕ → Map Str ℕ
add_count path n counts = btree_insert path (get_or (map_get path counts) 0 + n) counts

unfoldable pub push_error : Str → ErrorText → Working → Working
push_error file text w = record w { errors = w.errors ++ record { file = file; text = text } ∷ [] }

-- What is done with a transform's result for one file.
unfoldable pub store_result : Str → FileResult → Working → Working
unfolding add_count push_error
store_result path (err msg) w = push_error path (message msg) w
store_result path (ok (new_src, n)) w = if eqb n 0 then w else record w {
  files = btree_insert path new_src w.files;
  replacements = add_count path n w.replacements;
}

unfoldable pub each_path : (Str → FileResult) → List Str → Working → Working
unfolding store_result
each_path f [] w = w
each_path f (p ∷ ps) w = each_path f ps (store_result p (f (get_or (map_get p w.files) [])) w)

unfoldable pub insert_all : Map Str Str → Map Str Str → Map Str Str
insert_all [] working = working
insert_all ((p, src) ∷ new_files) working = insert_all new_files (btree_insert p src working)

unfoldable pub add_counts : Map Str ℕ → Map Str ℕ → Map Str ℕ
unfolding add_count
add_counts [] counts = counts
add_counts ((p, n) ∷ per_file) counts = add_counts per_file (add_count p n counts)

-- What is done with the result of a transform of the whole map; an error is for the file `at`.
unfoldable pub store_files : Str → FilesResult → Working → Working
unfolding insert_all add_counts push_error
store_files at (err msg) w = push_error at (message msg) w
store_files at (ok (new_files, per_file)) w = record w {
  files = insert_all new_files w.files;
  replacements = add_counts per_file w.replacements;
}

-- `working.get(rel) == Some(content)`.
has_content : Option Str → Str → Bool
has_content none content = false
has_content (some c) content = c == content

unfoldable pub count_changed : Map Str Str → Map Str Str → Map Str ℕ → Map Str ℕ
unfolding add_count has_content
count_changed [] working counts = counts
count_changed ((rel, content) ∷ new_files) working counts =
    count_changed new_files working
      (if has_content (map_get rel working) content then counts else add_count rel 1 counts)

unfoldable pub store_typed : Str → Result {0, 0} TypedRenameError (Map Str Str) → Working → Working
unfolding push_error count_changed
store_typed decl_file (ok new_files) w = record w {
  files = new_files;
  replacements = count_changed new_files w.files w.replacements;
}
store_typed decl_file (err (unavailable msg)) w = push_error decl_file (not_available msg) w
store_typed decl_file (err e) w = push_error decl_file (typed_rename e) w

-- `files.first().cloned().unwrap_or_default()`.
unfoldable pub first_or_empty : List Str → Str
first_or_empty [] = []
first_or_empty (f ∷ fs) = f

unfoldable pub out_of_scope : Str → List Str → Bool
out_of_scope source_file [] = false
out_of_scope source_file (f ∷ fs) = not (elem source_file (f ∷ fs))

unfoldable pub extract_from : Str → (Str → FileResult) → Option Str → Working → Working
unfolding push_error store_result
extract_from source_file f none w = push_error source_file (not_in_scope source_file) w
extract_from source_file f (some src) w = store_result source_file (f src) w

module _ (t : Transforms) where
  unfoldable pub apply_op : PatchOp → Working → Working
  unfolding paths_in_scope each_path store_files store_typed first_or_empty out_of_scope
      extract_from
  apply_op (Ops.rename_function old_name new_name files) w =
      each_path (λ src. t.rename src old_name new_name) (paths_in_scope files w.files) w
  apply_op (Ops.rename_function_typed decl_file decl_line decl_character new_name old_name) w =
      store_typed decl_file (t.resolve w.files decl_file decl_line decl_character new_name) w
  apply_op (Ops.add_derive_to_struct type_name derives files) w =
      each_path (λ src. t.add_derive src type_name derives) (paths_in_scope files w.files) w
  apply_op (Ops.remove_derive_from_struct type_name derives files) w =
      each_path (λ src. t.remove_derive src type_name derives) (paths_in_scope files w.files) w
  apply_op (Ops.inline_function function files) w =
      store_files (first_or_empty files) (t.inline_function w.files function files) w
  apply_op (Ops.extract_function source_file start_line end_line new_name params files) w =
      if out_of_scope source_file files
      then w
      else extract_from source_file
          (λ src. t.extract_function src start_line end_line new_name params)
          (map_get source_file w.files) w
  apply_op (Ops.change_signature function new_params files) w =
      store_files (first_or_empty files) (t.change_signature w.files function new_params files) w
  apply_op (Ops.move_item item_kind item_name from_file to_file files) w =
      store_files from_file (t.move_item w.files item_kind item_name from_file to_file files) w

  unfoldable pub apply_ops : List PatchOp → Working → Working
  unfolding apply_op
  apply_ops [] w = w
  apply_ops (op ∷ ops) w = apply_ops ops (apply_op op w)

  unfoldable pub apply_plan : PatchPlan → Map Str Str → Map Str Str × List PreviewError
  unfolding apply_ops
  apply_plan plan files =
      let w = apply_ops plan.ops (record { files = files; replacements = []; errors = [] }) in
      (w.files, w.errors)
