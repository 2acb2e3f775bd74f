-- ===== src/Rename/Bounds.antt =====
-- The byte offsets that `linecol_to_byte` of crates/aa-patch/src/typed_rename.rs computes,
-- against the lines.
use prolog_forge.Prelude.{
  ℕ, zero, suc, ◌+◌, ◌-◌, ◌≤◌, ◌≡◌, subst, List, [], ◌∷◌, some, arith, Str, length, take, slice,
  get_elem?, get_or, length-take, length-drop, leb, ltb, ◌==◌, nat_eq, Option-cases, Bool-cases, ok,
  Result-cases, inl, inr, All,
}
use prolog_forge.Rename.Edits
use prolog_forge.Rename.Edits.{
  line_starts, linecol_to_byte, walk, is_ascii, is_continuation, ByteEdit, TextEdit,
  TypedRenameError, to_byte_edit, to_byte_edits,
}

-- Ascending numbers from `lo` to `n`.
abbrev Ascends : ℕ → ℕ → List ℕ → Type 0
Ascends n lo [] = lo ≤ n
Ascends n lo (x ∷ xs) = (lo ≤ x) × Ascends n x xs

starts_ascend :
    (n i lo : ℕ) (bs : Str)
    → n ≡ i + length bs
    → lo ≤ i
    → Ascends n lo (Edits.line_starts_from i bs)
unfolding Edits.line_starts_from
starts_ascend n i lo [] e h = omega arith
starts_ascend n i lo (b ∷ bs) e h = elim (Bool-cases (b == b'\n')) [
  | inl newline ↦
      rw newline (omega arith, starts_ascend n (suc i) (suc i) bs (omega arith) (omega arith))
  | inr other ↦ rw other (starts_ascend n (suc i) lo bs (omega arith) (omega arith))
]

Ascends-le : (n lo : ℕ) (xs : List ℕ) → Ascends n lo xs → lo ≤ n
Ascends-le n lo [] h = h
Ascends-le n lo (x ∷ xs) (h, rest) = omega (arith, Ascends-le n x xs rest)

Ascends-get_elem :
    (n lo : ℕ) (xs : List ℕ) (k x : ℕ)
    → Ascends n lo xs
    → get_elem? xs k ≡ some x
    → (x ≤ get_or (get_elem? xs (suc k)) n) × (get_or (get_elem? xs (suc k)) n ≤ n)
Ascends-get_elem n lo [] k x h e = cc
Ascends-get_elem n lo (y ∷ []) zero x (h, rest) e =
    let same : y ≡ x = cc in (omega arith, omega arith)
Ascends-get_elem n lo (y ∷ z ∷ xs) zero x (h, (k, rest)) e =
    let same : y ≡ x = cc in (omega arith, Ascends-le n z xs rest)
Ascends-get_elem n lo (y ∷ xs) (suc k) x (h, rest) e = Ascends-get_elem n y xs k x rest e

walk_bound :
    (character i cu off : ℕ) (bs : Str)
    → walk character i cu bs ≡ some off
    → (i ≤ off) × (off ≤ i + length bs)
unfolding walk
walk_bound character i cu off [] h = ground arith
walk_bound character i cu off (b ∷ bs) h = elim (Bool-cases (is_continuation b)) [
  | inl inside ↦
      let (l, u) = walk_bound character (suc i) cu off bs (rw (inside, walk) at h) in
      (omega arith, omega arith)
  | inr starts ↦ elim (Bool-cases (leb character cu)) [
    | inl there ↦ let same : some i ≡ some off = rw (starts, there, walk) at h in ground arith
    | inr before ↦
        let (l, u) =
          walk_bound character (suc i) (cu + Edits.len_utf16 b) off bs
            (rw (starts, before, walk) at h) in
        (omega arith, omega arith)
  ]
]

length-slice : (a b : ℕ) (src : Str) → b ≤ length src → length (slice a b src) ≡ b - a
length-slice a b src h = omega (arith, length-drop a (take b src), length-take b src h)

column_bound :
    (src : Str) (line_start line_end character off : ℕ)
    → line_start ≤ line_end
    → line_end ≤ length src
    → Edits.column_to_byte line_start line_end (slice line_start line_end src) character ≡ some off
    → (line_start ≤ off) × (off ≤ line_end)
unfolding Edits.column_to_byte
column_bound src line_start line_end character off h k e =
    let text = slice line_start line_end src in
    elim (Bool-cases (is_ascii text)) [
      | inl ascii ↦ elim (Bool-cases (ltb line_end (line_start + character))) [
        | inl far ↦ absurd (cc (rw (ascii, far, Edits.column_to_byte) at e))
        | inr near ↦
            let same : some (line_start + character) ≡ some off =
              rw (ascii, near, Edits.column_to_byte) at e in
            ground arith
      ]
      | inr wide ↦
          let (l, u) =
            walk_bound character line_start 0 off text (rw (wide, Edits.column_to_byte) at e) in
          (l, omega (arith, length-slice line_start line_end src k))
    ]

-- The end of a line: the start of the next one, or the end of the text.
abbrev pub line_end_of : Str → ℕ → ℕ
line_end_of src line = get_or (get_elem? (line_starts src) (suc line)) (length src)

starts_in : (src : Str) → Ascends (length src) 0 (line_starts src)
unfolding line_starts
starts_in src = (omega arith, starts_ascend (length src) 0 0 src (omega arith) (omega arith))

-- An offset that `linecol_to_byte` computes lies between the start and the end of its line, and the end
-- of a line within the text.
pub linecol_to_byte_within :
    (src : Str) (line character off : ℕ)
    → linecol_to_byte (line_starts src) src line character ≡ some off
    → (line_start : ℕ) × (get_elem? (line_starts src) line ≡ some line_start)
      × (line_start ≤ off)
      × (off ≤ line_end_of src line)
      × (line_end_of src line ≤ length src)
unfolding linecol_to_byte Edits.line_to_byte
linecol_to_byte_within src line character off h =
    elim (Option-cases (get_elem? (line_starts src) line)) [
      | inl missing ↦ absurd (cc (rw (missing, linecol_to_byte, Edits.line_to_byte) at h))
      | inr (line_start, there) ↦
          let (after, within) =
            Ascends-get_elem (length src) 0 (line_starts src) line line_start (starts_in src)
              there in
          let h' = rw (there, linecol_to_byte, Edits.line_to_byte) at h in
          let (l, u) =
            column_bound src line_start (line_end_of src line) character off after within h' in
          (line_start, there, l, u, within)
    ]

-- A byte edit that stays in the text.
abbrev pub Fits : ℕ → ByteEdit → Type 0
Fits n e = (e.start ≤ e.stop) × (e.stop ≤ n)

pub to_byte_edit-Fits :
    (src : Str) (t : TextEdit) (e : ByteEdit)
    → to_byte_edit (line_starts src) src t ≡ ok e
    → Fits (length src) e
unfolding to_byte_edit Edits.start_to_byte Edits.stop_to_byte Edits.ordered_edit
to_byte_edit-Fits src t e h =
    let starts = line_starts src in
    let start = linecol_to_byte starts src t.range.start.line t.range.start.character in
    let stop = linecol_to_byte starts src t.range.stop.line t.range.stop.character in
    elim (Option-cases start) [
      | inl missing ↦ absurd (cc (rw (missing, to_byte_edit) at h))
      | inr (a, from) ↦ elim (Option-cases stop) [
        | inl missing ↦ absurd (cc (rw (from, missing, to_byte_edit) at h))
        | inr (b, upto) ↦
            let (line_start, there, l, u, v) =
              linecol_to_byte_within src t.range.stop.line t.range.stop.character b upto in
            elim (Bool-cases (ltb b a)) [
              | inl turned ↦ absurd (cc (rw (from, upto, to_byte_edit, turned) at h))
              | inr ordered ↦
                  let r : ByteEdit = record { start = a; stop = b; text = t.new_text } in
                  let same : ok r ≡ ok e = rw (from, upto, to_byte_edit, ordered) at h in
                  let made : r ≡ e = cc in
                  subst (Fits (length src)) made (ground arith, omega arith)
            ]
      ]
    ]

pub to_byte_edits-Fits :
    (src : Str) (ts : List TextEdit) (es : List ByteEdit)
    → to_byte_edits (line_starts src) src ts ≡ ok es
    → All (Fits (length src)) es
unfolding to_byte_edits
to_byte_edits-Fits src [] [] h = tt
to_byte_edits-Fits src [] (e ∷ es) h = cc
to_byte_edits-Fits src (t ∷ ts) es h = elim (Result-cases (to_byte_edit (line_starts src) src t)) [
  | inr (x, failed) ↦ absurd (cc (rw (failed, to_byte_edits) at h))
  | inl (b, made) ↦ elim (Result-cases (to_byte_edits (line_starts src) src ts)) [
    | inr (x, failed) ↦ absurd (cc (rw (made, failed, to_byte_edits) at h))
    | inl (bs, rest) ↦
        let whole : ok (b ∷ bs) ≡ ok es = rw (made, rest, to_byte_edits) at h in
        let same : b ∷ bs ≡ es = cc in
        subst (All (Fits (length src))) same
          (to_byte_edit-Fits src t b made, to_byte_edits-Fits src ts bs rest)
  ]
]
