-- ===== src/Rename/Edits.antt =====
-- Text edits on one file: `apply_text_edits`, `line_starts` and `linecol_to_byte` of
-- crates/aa-patch/src/typed_rename.rs. A text is its UTF-8 bytes.
use prolog_forge.Prelude.{
  ℕ, suc, ◌+◌, List, [], ◌∷◌, ◌++◌, Option, none, some, Bool, true, false, ◌&&◌, ◌||◌, ◌==◌, nat_eq,
  ltb, leb, get_or, Str, length, get_elem?, take, drop, slice, if◌then◌else◌, Result, ok, err,
}

pub record Position : Type 0 where
  pub line : ℕ
  pub character : ℕ

pub record Range : Type 0 where
  pub start : Position
  pub stop : Position

pub record TextEdit : Type 0 where
  pub range : Range
  pub new_text : Str

pub data InvalidReason : Type 0 where
  start_out_of_range end_out_of_range end_precedes_start overlapping_edits : InvalidReason

pub data TypedRenameError : Type 0 where
  unavailable client io_error missing_decl_file unknown_edit_target : Str → TypedRenameError
  invalid_edit : Range → InvalidReason → TypedRenameError

unfoldable pub line_starts_from : ℕ → Str → List ℕ
line_starts_from i [] = []
line_starts_from i (b ∷ bs) =
    let rest = line_starts_from (suc i) bs in if b == b'\n' then suc i ∷ rest else rest

unfoldable pub line_starts : Str → List ℕ
unfolding line_starts_from
line_starts src = 0 ∷ line_starts_from 0 src

unfoldable pub is_ascii : Str → Bool
is_ascii [] = true
is_ascii (b ∷ bs) = ltb b 128 && is_ascii bs

-- A byte that continues a character.
unfoldable pub is_continuation : ℕ → Bool
is_continuation b = leb 128 b && ltb b 192

-- `len_utf16` of the character that the byte starts.
unfoldable pub len_utf16 : ℕ → ℕ
len_utf16 b = if ltb b 240 then 1 else 2

-- The loop over `char_indices`: `i` is the byte's index, `cu` the code units passed. The last result is
-- for the end of the line.
unfoldable pub walk : ℕ → ℕ → ℕ → Str → Option ℕ
unfolding is_continuation len_utf16
walk character i cu [] = if leb character cu then some i else none
walk character i cu (b ∷ bs) =
    let rest = walk character (suc i) cu bs in
    let next = walk character (suc i) (cu + len_utf16 b) bs in
    if is_continuation b then rest else if leb character cu then some i else next

unfoldable pub column_to_byte : ℕ → ℕ → Str → ℕ → Option ℕ
unfolding walk is_ascii
column_to_byte line_start line_end line_text character =
    if is_ascii line_text
    then if ltb line_end (line_start + character) then none else some (line_start + character)
    else walk character line_start 0 line_text

unfoldable pub line_to_byte : Option ℕ → List ℕ → Str → ℕ → ℕ → Option ℕ
unfolding column_to_byte
line_to_byte none starts src line character = none
line_to_byte (some line_start) starts src line character =
    let line_end = get_or (get_elem? starts (suc line)) (length src) in
    column_to_byte line_start line_end (slice line_start line_end src) character

unfoldable pub linecol_to_byte : List ℕ → Str → ℕ → ℕ → Option ℕ
unfolding line_to_byte
linecol_to_byte starts src line character =
    line_to_byte (get_elem? starts line) starts src line character

pub record ByteEdit : Type 0 where
  pub start : ℕ
  pub stop : ℕ
  pub text : Str

unfoldable pub ordered_edit : TextEdit → ℕ → ℕ → Result TypedRenameError ByteEdit
ordered_edit e a b =
    if ltb b a
    then err (invalid_edit e.range end_precedes_start)
    else ok (record { start = a; stop = b; text = e.new_text })

unfoldable pub stop_to_byte : TextEdit → ℕ → Option ℕ → Result TypedRenameError ByteEdit
unfolding ordered_edit
stop_to_byte e a none = err (invalid_edit e.range end_out_of_range)
stop_to_byte e a (some b) = ordered_edit e a b

unfoldable pub start_to_byte : TextEdit → Option ℕ → Option ℕ → Result TypedRenameError ByteEdit
unfolding stop_to_byte
start_to_byte e none stop = err (invalid_edit e.range start_out_of_range)
start_to_byte e (some a) stop = stop_to_byte e a stop

unfoldable pub to_byte_edit : List ℕ → Str → TextEdit → Result TypedRenameError ByteEdit
unfolding start_to_byte linecol_to_byte
to_byte_edit starts src e =
    start_to_byte e (linecol_to_byte starts src e.range.start.line e.range.start.character)
      (linecol_to_byte starts src e.range.stop.line e.range.stop.character)

unfoldable pub to_byte_edits :
    List ℕ → Str → List TextEdit → Result TypedRenameError (List ByteEdit)
unfolding to_byte_edit
to_byte_edits starts src [] = ok []
to_byte_edits starts src (e ∷ es) =
    let rest = to_byte_edits starts src es in
    elim (to_byte_edit starts src e) [
      | err x ↦ err x
      | ok b ↦ elim rest [ err x ↦ err x | ok bs ↦ ok (b ∷ bs) ]
    ]

unfoldable pub insert_by_start : ByteEdit → List ByteEdit → List ByteEdit
insert_by_start e [] = e ∷ []
insert_by_start e (f ∷ fs) =
    let rest = insert_by_start e fs in if leb e.start f.start then e ∷ f ∷ fs else f ∷ rest

-- `sort_by_key` on the start, which is stable.
unfoldable pub sort_by_start : List ByteEdit → List ByteEdit
unfolding insert_by_start
sort_by_start [] = []
sort_by_start (e ∷ es) = insert_by_start e (sort_by_start es)

-- The test over `windows(2)`.
unfoldable pub has_overlap : List ByteEdit → Bool
has_overlap [] = false
has_overlap (e ∷ []) = false
has_overlap (e ∷ f ∷ fs) = ltb f.start e.stop || has_overlap (f ∷ fs)

-- `String::replace_range`.
unfoldable pub replace_range : ℕ → ℕ → Str → Str → Str
replace_range a b text out = take a out ++ (text ++ drop b out)

-- The splices from the last edit to the first.
unfoldable pub splice_back : List ByteEdit → Str → Str
unfolding replace_range
splice_back [] src = src
splice_back (e ∷ es) src = replace_range e.start e.stop e.text (splice_back es src)

abbrev origin : Range
origin = record {
  start = record { line = 0; character = 0 };
  stop = record { line = 0; character = 0 };
}

unfoldable pub splice_sorted : List ByteEdit → Str → Result TypedRenameError Str
unfolding splice_back has_overlap
splice_sorted es source =
    if has_overlap es
    then err (invalid_edit origin overlapping_edits)
    else ok (splice_back es source)

unfoldable pub apply_text_edits : Str → List TextEdit → Result TypedRenameError Str
unfolding to_byte_edits splice_sorted sort_by_start line_starts
apply_text_edits source edits = elim (to_byte_edits (line_starts source) source edits) [
  | err x ↦ err x
  | ok es ↦ splice_sorted (sort_by_start es) source
]
