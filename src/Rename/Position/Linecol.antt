-- ===== src/Rename/Position/Linecol.antt =====
-- `linecol_to_byte` of crates/aa-patch/src/typed_rename.rs, against what a position names.
use prolog_forge.Prelude.{
  ℕ, suc, ◌+◌, ◌≡◌, ap, ◌∙◌, some, Str, length, get_elem?, get_or, slice, inl, inr, arith,
}
use prolog_forge.Rename.Edits
use prolog_forge.Rename.Edits.{line_starts, linecol_to_byte}
use prolog_forge.Rename.Position.{Placed, no_line, on_line}
use prolog_forge.Rename.Position.Lines.{line_lem, slice_line}
use prolog_forge.Rename.Position.Columns.{column_to_byte-Reaches}

-- For every text and every position, `linecol_to_byte` finds the byte that the position names, on a line
-- of ASCII and on any other: the end of the shortest run of whole characters of its line with at least so
-- many UTF-16 code units. Where it finds none, the text has too few lines, or the line, its newline
-- included, has fewer code units.
pub linecol_to_byte-Placed :
    (src : Str) (line character : ℕ)
    → Placed src line character (linecol_to_byte (line_starts src) src line character)
unfolding linecol_to_byte line_starts Edits.line_to_byte
linecol_to_byte-Placed src line character = elim (line_lem (length src) 0 src line (omega arith)) [
  | inr (past, absent) ↦ rw absent (no_line past)
  | inl l ↦
      let stop = get_or (get_elem? (line_starts src) (suc line)) (length src) in
      let start : get_elem? (line_starts src) line ≡ some (length l.before) =
        l.start ∙ ap some (omega arith) in
      let end : stop ≡ length l.before + length l.line = l.stop ∙ omega arith in
      let text : slice (length l.before) stop src ≡ l.line =
        ap (slice (length l.before) stop) l.whole ∙ slice_line stop l.before l.line l.after end in
      let reaches = column_to_byte-Reaches (length l.before) stop character l.line end in
      rw (start, text) (on_line l.before l.line l.after l.is_line reaches)
]
