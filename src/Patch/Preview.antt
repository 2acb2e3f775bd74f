-- ===== src/Patch/Preview.antt =====
-- The preview of a plan, crates/aa-patch/src/plan.rs.
pub mod Exact
pub mod Keeps
use prolog_forge.Prelude.{
  ℕ, ◌+◌, List, [], ◌∷◌, ◌++◌, ◌==◌, nat_eq, list_eq, Str, length, get_or, Map, map_get,
  if◌then◌else◌,
}
use prolog_forge.Patch.Ops.{PatchPlan}
use prolog_forge.Patch.Plan.{PreviewError, Transforms, Working, apply_ops}

pub record FilePatch : Type 0 where
  pub path : Str
  pub before_len : ℕ
  pub after_len : ℕ
  pub replacements : ℕ
  pub diff : Str

pub record PatchPreview : Type 0 where
  pub files : List FilePatch
  pub total_replacements : ℕ
  pub errors : List PreviewError

module _ (t : Transforms) (render_unified_diff : Str → Str → Str → Str) where
  file_patch : Str → Str → Str → ℕ → FilePatch
  file_patch path original new_content replacements = record {
    path = path;
    before_len = length original;
    after_len = length new_content;
    replacements = replacements;
    diff = render_unified_diff path original new_content;
  }

  add_file : FilePatch → PatchPreview → PatchPreview
  add_file f result = record result {
    files = result.files ++ f ∷ [];
    total_replacements = result.total_replacements + f.replacements;
  }

  -- The loop over the working files.
  unfoldable pub list_files : Map Str Str → Map Str ℕ → Map Str Str → PatchPreview → PatchPreview
  unfolding add_file file_patch
  list_files files counts [] result = result
  list_files files counts ((path, new_content) ∷ working) result =
      let original = get_or (map_get path files) [] in
      let f = file_patch path original new_content (get_or (map_get path counts) 0) in
      list_files files counts working
        (if new_content == original then result else add_file f result)

  unfoldable pub preview : PatchPlan → Map Str Str → PatchPreview
  unfolding list_files
  preview plan files =
      let w = apply_ops t plan.ops (record { files = files; replacements = []; errors = [] }) in
      record (list_files files w.replacements w.files
        (record { files = []; total_replacements = 0; errors = [] })) { errors = w.errors }
