-- ===== src/Rename/Pool.antt =====
-- The copies of the edit functions in crates/aa-core/src/ra_pool.rs, which the session pool uses.
pub mod Copies
use prolog_forge.Prelude.{
  ℕ, suc, ◌+◌, ◌≡◌, List, [], ◌∷◌, ◌++◌, Option, none, some, Bool, true, false, not, ◌&&◌, ◌||◌,
  ◌==◌, nat_eq, list_eq, ltb, leb, get_or, Str, bytes, length, get_elem?, take, drop, slice,
  if◌then◌else◌, Result, ok, err, Map, map_get, map_insert,
}
use prolog_forge.Rename.Edits.{
  Position, Range, TextEdit, InvalidReason, start_out_of_range, end_out_of_range,
  end_precedes_start, overlapping_edits, TypedRenameError, invalid_edit, unknown_edit_target,
  ByteEdit, is_ascii, is_continuation, len_utf16, sort_by_start, replace_range,
}
use prolog_forge.Rename.Workspace.{WorkspaceEdit, strip_prefix}

line_starts_from : ℕ → Str → List ℕ
line_starts_from i [] = []
line_starts_from i (b ∷ bs) =
    let rest = line_starts_from (suc i) bs in if b == b'\n' then suc i ∷ rest else rest

line_starts : Str → List ℕ
unfolding line_starts_from
line_starts src = 0 ∷ line_starts_from 0 src

-- The loop over `char_indices`: `i` is the byte's index, `cu` the code units passed. The last result is
-- for the end of the line.
walk : ℕ → ℕ → ℕ → Str → Option ℕ
unfolding is_continuation len_utf16
walk character i cu [] = if leb character cu then some i else none
walk character i cu (b ∷ bs) =
    let rest = walk character (suc i) cu bs in
    let next = walk character (suc i) (cu + len_utf16 b) bs in
    if is_continuation b then rest else if leb character cu then some i else next

column_to_byte : ℕ → ℕ → Str → ℕ → Option ℕ
unfolding walk is_ascii
column_to_byte line_start line_end line_text character =
    if is_ascii line_text
    then if ltb line_end (line_start + character) then none else some (line_start + character)
    else walk character line_start 0 line_text

line_to_byte : Option ℕ → List ℕ → Str → ℕ → ℕ → Option ℕ
unfolding column_to_byte
line_to_byte none starts src line character = none
line_to_byte (some line_start) starts src line character =
    let line_end = get_or (get_elem? starts (suc line)) (length src) in
    column_to_byte line_start line_end (slice line_start line_end src) character

linecol_to_byte : List ℕ → Str → ℕ → ℕ → Option ℕ
unfolding line_to_byte
linecol_to_byte starts src line character =
    line_to_byte (get_elem? starts line) starts src line character

ordered_edit : TextEdit → ℕ → ℕ → Result TypedRenameError ByteEdit
ordered_edit e a b =
    if ltb b a
    then err (invalid_edit e.range end_precedes_start)
    else ok (record { start = a; stop = b; text = e.new_text })

stop_to_byte : TextEdit → ℕ → Option ℕ → Result TypedRenameError ByteEdit
unfolding ordered_edit
stop_to_byte e a none = err (invalid_edit e.range end_out_of_range)
stop_to_byte e a (some b) = ordered_edit e a b

start_to_byte : TextEdit → Option ℕ → Option ℕ → Result TypedRenameError ByteEdit
unfolding stop_to_byte
start_to_byte e none stop = err (invalid_edit e.range start_out_of_range)
start_to_byte e (some a) stop = stop_to_byte e a stop

to_byte_edit : List ℕ → Str → TextEdit → Result TypedRenameError ByteEdit
unfolding start_to_byte linecol_to_byte
to_byte_edit starts src e =
    start_to_byte e (linecol_to_byte starts src e.range.start.line e.range.start.character)
      (linecol_to_byte starts src e.range.stop.line e.range.stop.character)

to_byte_edits : List ℕ → Str → List TextEdit → Result TypedRenameError (List ByteEdit)
unfolding to_byte_edit
to_byte_edits starts src [] = ok []
to_byte_edits starts src (e ∷ es) =
    let rest = to_byte_edits starts src es in
    elim (to_byte_edit starts src e) [
      | err x ↦ err x
      | ok b ↦ elim rest [ err x ↦ err x | ok bs ↦ ok (b ∷ bs) ]
    ]

-- The test over `windows(2)`.
has_overlap : List ByteEdit → Bool
has_overlap [] = false
has_overlap (e ∷ []) = false
has_overlap (e ∷ f ∷ fs) = ltb f.start e.stop || has_overlap (f ∷ fs)

-- The splices from the last edit to the first.
splice_back : List ByteEdit → Str → Str
unfolding replace_range
splice_back [] src = src
splice_back (e ∷ es) src = replace_range e.start e.stop e.text (splice_back es src)

abbrev origin : Range
origin = record {
  start = record { line = 0; character = 0 };
  stop = record { line = 0; character = 0 };
}

splice_sorted : List ByteEdit → Str → Result TypedRenameError Str
unfolding splice_back has_overlap
splice_sorted es source =
    if has_overlap es
    then err (invalid_edit origin overlapping_edits)
    else ok (splice_back es source)

unfoldable pub apply_text_edits : Str → List TextEdit → Result TypedRenameError Str
unfolding to_byte_edits splice_sorted sort_by_start line_starts
apply_text_edits source edits = elim (to_byte_edits (line_starts source) source edits) [
  | err x ↦ err x
  | ok es ↦ splice_sorted (sort_by_start es) source
]

strip_root : Str → Option Str → Option Str
unfolding strip_prefix
strip_root root none = none
strip_root root (some path) =
    if path == root then some [] else strip_prefix (root ++ bytes "/") path

uri_to_relative : Str → Str → Option Str
unfolding strip_root
uri_to_relative uri root = strip_root root (strip_prefix (bytes "file://") uri)

edit_file : Str → List TextEdit → Option Str → Map Str Str → Result TypedRenameError (Map Str Str)
unfolding apply_text_edits
edit_file rel edits none files = err (unknown_edit_target rel)
edit_file rel edits (some source) files = elim (apply_text_edits source edits) [
  | err e ↦ err e
  | ok new ↦ ok (map_insert rel new files)
]

edit_document :
    Str → List TextEdit → Option Str → Map Str Str → Result TypedRenameError (Map Str Str)
unfolding edit_file
edit_document uri edits none files = err (unknown_edit_target uri)
edit_document uri edits (some rel) files = edit_file rel edits (map_get rel files) files

apply_edits : List (Str × List TextEdit) → Str → Map Str Str → Result TypedRenameError (Map Str Str)
unfolding edit_document uri_to_relative
apply_edits [] root files = ok files
apply_edits ((uri, edits) ∷ more) root files =
    elim (edit_document uri edits (uri_to_relative uri root) files) [
      | err e ↦ err e
      | ok files' ↦ apply_edits more root files'
    ]

unfoldable pub apply_workspace_edit :
    Map Str Str → WorkspaceEdit → Str → Result TypedRenameError (Map Str Str)
unfolding apply_edits
apply_workspace_edit files w root = apply_edits w.changes root files
