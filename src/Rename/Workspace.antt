-- ===== src/Rename/Workspace.antt =====
-- Edits on a file map: `WorkspaceEdit::flatten` of crates/aa-ra-client/src/types.rs and
-- `apply_workspace_edit` of crates/aa-patch/src/typed_rename.rs. A JSON value of `documentChanges` is what
-- `flatten` looks up in it. Paths are normal: `Path::strip_prefix` takes off the root and a slash.
pub mod Flatten
pub mod Files
use prolog_forge.Prelude.{
  ℕ, ◌≡◌, List, [], ◌∷◌, ◌++◌, Option, none, some, Bool, true, false, ◌==◌, nat_eq, list_eq, get_or,
  Str, bytes, Map, map_get, map_insert, filter_map, if◌then◌else◌, Result, ok, err,
}
use prolog_forge.Rename.Edits.{TextEdit, TypedRenameError, unknown_edit_target, apply_text_edits}

pub record RawChange : Type 0 where
  pub has_kind : Bool
  pub text_document_uri : Option Str
  -- Each element, and whether it reads as a `TextEdit`.
  pub edits : Option (List (Option TextEdit))

pub record WorkspaceEdit : Type 0 where
  pub changes : Map Str (List TextEdit)
  pub document_changes : List RawChange

nonempty_edits : Str → List TextEdit → Option (Str × List TextEdit)
nonempty_edits uri [] = none
nonempty_edits uri (e ∷ es) = some (uri, e ∷ es)

read_edits : Str → Option (List (Option TextEdit)) → Option (Str × List TextEdit)
unfolding nonempty_edits filter_map
read_edits uri none = none
read_edits uri (some arr) = nonempty_edits uri (filter_map (λ e. e) arr)

read_document : Option Str → Option (List (Option TextEdit)) → Option (Str × List TextEdit)
unfolding read_edits
read_document none edits = none
read_document (some uri) edits = read_edits uri edits

-- The document and the edits of an entry that `flatten` does not skip.
unfoldable pub document_edits : RawChange → Option (Str × List TextEdit)
unfolding read_document
document_edits raw = if raw.has_kind then none else read_document raw.text_document_uri raw.edits

-- `out.entry(uri).or_default().extend(edits)`.
unfoldable pub extend_entry :
    Str → List TextEdit → Map Str (List TextEdit) → Map Str (List TextEdit)
extend_entry uri edits out = map_insert uri (get_or (map_get uri out) [] ++ edits) out

unfoldable pub add_change :
    Option (Str × List TextEdit) → Map Str (List TextEdit) → Map Str (List TextEdit)
unfolding extend_entry
add_change none out = out
add_change (some (uri, edits)) out = extend_entry uri edits out

unfoldable pub flatten_from : List RawChange → Map Str (List TextEdit) → Map Str (List TextEdit)
unfolding add_change document_edits
flatten_from [] out = out
flatten_from (raw ∷ raws) out = flatten_from raws (add_change (document_edits raw) out)

unfoldable pub flatten : WorkspaceEdit → Map Str (List TextEdit)
unfolding flatten_from
flatten w = flatten_from w.document_changes w.changes

-- `str::strip_prefix`, its prefix first.
unfoldable pub strip_prefix : Str → Str → Option Str
strip_prefix [] s = some s
strip_prefix (p ∷ ps) [] = none
strip_prefix (p ∷ ps) (c ∷ cs) = let rest = strip_prefix ps cs in if p == c then rest else none

unfoldable pub strip_root : Str → Option Str → Option Str
unfolding strip_prefix
strip_root root none = none
strip_root root (some path) =
    if path == root then some [] else strip_prefix (root ++ bytes "/") path

unfoldable pub uri_to_relative : Str → Str → Option Str
unfolding strip_root
uri_to_relative uri root = strip_root root (strip_prefix (bytes "file://") uri)

unfoldable pub edit_file :
    Str → List TextEdit → Option Str → Map Str Str → Result TypedRenameError (Map Str Str)
unfolding apply_text_edits
edit_file rel edits none files = err (unknown_edit_target rel)
edit_file rel edits (some source) files = elim (apply_text_edits source edits) [
  | err e ↦ err e
  | ok new ↦ ok (map_insert rel new files)
]

unfoldable pub edit_document :
    Str → List TextEdit → Option Str → Map Str Str → Result TypedRenameError (Map Str Str)
unfolding edit_file
edit_document uri edits none files = err (unknown_edit_target uri)
edit_document uri edits (some rel) files = edit_file rel edits (map_get rel files) files

unfoldable pub apply_edits :
    List (Str × List TextEdit) → Str → Map Str Str → Result TypedRenameError (Map Str Str)
unfolding edit_document uri_to_relative
apply_edits [] root files = ok files
apply_edits ((uri, edits) ∷ more) root files =
    elim (edit_document uri edits (uri_to_relative uri root) files) [
      | err e ↦ err e
      | ok files' ↦ apply_edits more root files'
    ]

unfoldable pub apply_workspace_edit :
    Map Str Str → WorkspaceEdit → Str → Result TypedRenameError (Map Str Str)
unfolding apply_edits flatten
apply_workspace_edit files w root = apply_edits (flatten w) root files
