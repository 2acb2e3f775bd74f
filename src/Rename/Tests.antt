-- ===== src/Rename/Tests.antt =====
-- Renames on small texts.
use prolog_forge.Prelude.{
  ℕ, ◌≡◌, refl, List, [], ◌∷◌, String, some, true, false, nat_eq, list_eq, list_beq, Str, bytes,
  Map, map_get, map_insert, filter_map, is_distinct, elem, In, ok,
}
use prolog_forge.Rename.Edits.{
  TextEdit, ByteEdit, line_starts, linecol_to_byte, to_byte_edits, has_overlap, sort_by_start,
  splice_sorted, splice_back, replace_range, apply_text_edits, walk, is_ascii, is_continuation,
  len_utf16,
}
use prolog_forge.Rename.Position.{Placed}
use prolog_forge.Rename.Position.Linecol.{linecol_to_byte-Placed}
use prolog_forge.Rename.Splice.{weave, apply_text_edits_weaves}
use prolog_forge.Rename.Workspace.{
  WorkspaceEdit, document_edits, flatten, flatten_from, add_change, extend_entry, strip_prefix,
  uri_to_relative, apply_edits, apply_workspace_edit,
}
use prolog_forge.Rename.Workspace.Files.{targets_of, Renamed, apply_workspace_edit_renames}
use prolog_forge.Rename.Pool
use prolog_forge.Rename.Pool.Copies.{pool_agrees, pool_drops_document_changes}

abbrev edit : ℕ → ℕ → ℕ → String → TextEdit
edit line a b text = record {
  range = record {
    start = record { line = line; character = a };
    stop = record { line = line; character = b };
  };
  new_text = bytes text;
}

abbrev source : Str
source = bytes "ab\ncd"

abbrev edits : List TextEdit
edits = edit 1 0 1 "X" ∷ edit 0 1 2 "YY" ∷ []

edited : apply_text_edits source edits ≡ ok (bytes "aYY\nXd")
unfolding apply_text_edits to_byte_edits line_starts linecol_to_byte is_ascii sort_by_start
    splice_sorted splice_back has_overlap replace_range walk
edited = refl

abbrev Woven : Str → List TextEdit → Str → Type 0
Woven text changes out =
    (es : List ByteEdit) × (to_byte_edits (line_starts text) text changes ≡ ok es)
    × (out ≡ weave 0 (sort_by_start es) text)

apply_text_edits_weaves_example : Woven source edits (bytes "aYY\nXd")
apply_text_edits_weaves_example = apply_text_edits_weaves source (bytes "aYY\nXd") edits edited

-- `a`, a newline, and a character of four bytes and two code units before `b`.
abbrev wide_text : Str
wide_text = 97 ∷ 10 ∷ 240 ∷ 159 ∷ 166 ∷ 128 ∷ 98 ∷ []

wide_placed : linecol_to_byte (line_starts wide_text) wide_text 1 2 ≡ some 6
unfolding linecol_to_byte line_starts is_ascii walk is_continuation len_utf16
wide_placed = refl

linecol_to_byte-Placed_example :
    Placed wide_text 1 2 (linecol_to_byte (line_starts wide_text) wide_text 1 2)
linecol_to_byte-Placed_example = linecol_to_byte-Placed wide_text 1 2

position_found : linecol_to_byte (line_starts source) source 1 1 ≡ some 4
unfolding line_starts linecol_to_byte is_ascii
position_found = refl

-- A letter of two bytes.
wide_position : linecol_to_byte (0 ∷ []) (195 ∷ 169 ∷ b'a' ∷ []) 0 1 ≡ some 2
unfolding linecol_to_byte is_ascii walk
wide_position = refl

abbrev root : Str
root = bytes "/r"

-- What rust-analyzer sends: all edits in `documentChanges`.
abbrev newer_form : WorkspaceEdit
newer_form = record {
  changes = [];
  document_changes =
      record {
        has_kind = false;
        text_document_uri = some (bytes "file:///r/a");
        edits = some (some (edit 0 1 2 "YY") ∷ []);
      }
      ∷ [];
}

abbrev older_form : WorkspaceEdit
older_form = record {
  changes = (bytes "file:///r/a", edit 0 1 2 "YY" ∷ []) ∷ [];
  document_changes = [];
}

abbrev files : Map Str Str
files = (bytes "a", source) ∷ (bytes "b", source) ∷ []

abbrev renamed : Map Str Str
renamed = (bytes "a", bytes "aYY\ncd") ∷ (bytes "b", source) ∷ []

one_shot_applies : apply_workspace_edit files newer_form root ≡ ok renamed
unfolding apply_workspace_edit apply_edits flatten flatten_from add_change extend_entry
    document_edits uri_to_relative strip_prefix filter_map map_get map_insert list_beq
    apply_text_edits to_byte_edits line_starts linecol_to_byte is_ascii sort_by_start splice_sorted
    splice_back has_overlap replace_range
one_shot_applies = refl

-- The session pool leaves the files as they are.
pool_skips : Pool.apply_workspace_edit files newer_form root ≡ ok files
unfolding Pool.apply_workspace_edit
pool_skips = refl

targets_distinct : is_distinct (targets_of root (flatten newer_form)) ≡ true
unfolding is_distinct elem flatten flatten_from add_change extend_entry document_edits
    uri_to_relative strip_prefix filter_map map_get map_insert list_beq
targets_distinct = refl

apply_workspace_edit_renames_example :
    ((uri : Str) (es : List TextEdit)
      → In (uri, es) (flatten newer_form)
      → Renamed root uri es files renamed)
    × ((q : Str)
        → elem q (targets_of root (flatten newer_form)) ≡ false
        → map_get q renamed ≡ map_get q files)
apply_workspace_edit_renames_example =
    apply_workspace_edit_renames files renamed newer_form root targets_distinct one_shot_applies

pool_drops_document_changes_example :
    Pool.apply_workspace_edit files newer_form root
    ≡ apply_workspace_edit files (record newer_form { document_changes = [] }) root
pool_drops_document_changes_example = pool_drops_document_changes files newer_form root

pool_agrees_example :
    Pool.apply_workspace_edit files older_form root ≡ apply_workspace_edit files older_form root
pool_agrees_example = pool_agrees files older_form root tt
