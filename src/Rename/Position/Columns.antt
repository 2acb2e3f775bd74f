-- ===== src/Rename/Position/Columns.antt =====
-- The columns of a line: the walk over the UTF-16 code units and the short cut for ASCII in
-- `linecol_to_byte` of crates/aa-patch/src/typed_rename.rs.
use prolog_forge.Prelude.{
  ℕ, suc, ◌+◌, ◌-◌, ◌<◌, ◌≤◌, ◌≡◌, ◌≢◌, refl, ap, ◌∙◌, subst, [], ◌∷◌, ◌++◌, Option, none, some,
  true, false, Str, length, leb, ltb, Bool-cases, if◌then◌else◌, inl, inr, arith,
}
use prolog_forge.Rename.Edits
use prolog_forge.Rename.Edits.{walk, is_ascii, is_continuation, len_utf16}
use prolog_forge.Rename.Position.{starts_char, code_units, units, Reaches}

inside_lem :
    (b : ℕ) (bs : Str)
    → is_continuation b ≡ true
    → (code_units b ≡ 0) × (starts_char (b ∷ bs) ≡ false)
unfolding is_continuation code_units
inside_lem b bs h = (ground arith, ground arith)

starting_lem :
    (b : ℕ) (bs : Str)
    → is_continuation b ≡ false
    → (code_units b ≡ len_utf16 b) × (starts_char (b ∷ bs) ≡ true)
unfolding is_continuation code_units len_utf16
starting_lem b bs h = (ground arith, ground arith)

here-Reaches :
    (character i cu : ℕ) (line : Str)
    → starts_char line ≡ true
    → character ≤ cu
    → Reaches character i cu line (some i)
unfolding units
here-Reaches character i cu line starts h =
    ([], line, refl, omega arith, starts, omega arith, λ u' w e ne. absurd (nothing u' w e ne))
  where
    nothing : (u' w : Str) → [] ≡ u' ++ w → w ≢ [] → ⊥
    nothing [] [] e ne = ne refl
    nothing [] (c ∷ w) e ne = cc
    nothing (c ∷ u') w e ne = cc

inside-Reaches :
    (character i cu b : ℕ) (bs : Str) (o : Option ℕ)
    → is_continuation b ≡ true
    → Reaches character (suc i) cu bs o
    → Reaches character i cu (b ∷ bs) o
unfolding units
inside-Reaches character i cu b bs none inside h = omega (arith, h, (inside_lem b bs inside).0)
inside-Reaches character i cu b bs (some j) inside (u, v, e, k, starts, enough, shorter) = (
  b ∷ u,
  v,
  ap (λ s. b ∷ s) e,
  omega arith,
  starts,
  omega (arith, enough, (inside_lem b u inside).0),
  go,
)
  where
    go :
        (u' w : Str)
        → b ∷ u ≡ u' ++ w
        → w ≢ []
        → starts_char (w ++ v) ≡ true
        → cu + units u' < character
    go [] [] e ne s = absurd (ne refl)
    go [] (c ∷ w) e ne s =
        let same : b ≡ c = cc in
        let inside' : is_continuation c ≡ true = rw same at inside in
        absurd (cc ((inside_lem c (w ++ v) inside').1, s))
    go (c ∷ u') w e ne s =
        let same : b ≡ c = cc in
        let inside' : is_continuation c ≡ true = rw same at inside in
        let rest : u ≡ u' ++ w = cc in
        omega (arith, shorter u' w rest ne s, (inside_lem c u' inside').0)

after-Reaches :
    (character i cu b : ℕ) (bs : Str) (o : Option ℕ)
    → is_continuation b ≡ false
    → cu < character
    → Reaches character (suc i) (cu + len_utf16 b) bs o
    → Reaches character i cu (b ∷ bs) o
unfolding units
after-Reaches character i cu b bs none starting before h =
    omega (arith, h, (starting_lem b bs starting).0)
after-Reaches character i cu b bs (some j) starting before (u, v, e, k, starts, enough, shorter) = (
  b ∷ u,
  v,
  ap (λ s. b ∷ s) e,
  omega arith,
  starts,
  omega (arith, enough, (starting_lem b u starting).0),
  go,
)
  where
    go :
        (u' w : Str)
        → b ∷ u ≡ u' ++ w
        → w ≢ []
        → starts_char (w ++ v) ≡ true
        → cu + units u' < character
    go [] w e ne s = omega arith
    go (c ∷ u') w e ne s =
        let same : b ≡ c = cc in
        let starting' : is_continuation c ≡ false = rw same at starting in
        let rest : u ≡ u' ++ w = cc in
        let h : cu + len_utf16 c + units u' < character =
          subst (λ x. cu + len_utf16 x + units u' < character) same (shorter u' w rest ne s) in
        omega (arith, h, (starting_lem c u' starting').0)

pub walk-Reaches :
    (character i cu : ℕ) (line : Str) → Reaches character i cu line (walk character i cu line)
unfolding walk units
walk-Reaches character i cu [] = elim (Bool-cases (leb character cu)) [
  | inl there ↦ rw there (here-Reaches character i cu [] refl (ground arith))
  | inr before ↦ rw before (ground arith)
]
walk-Reaches character i cu (b ∷ bs) = elim (Bool-cases (is_continuation b)) [
  | inl inside ↦ rw inside (
      inside-Reaches character i cu b bs (walk character (suc i) cu bs) inside
        (walk-Reaches character (suc i) cu bs))
  | inr starting ↦ elim (Bool-cases (leb character cu)) [
    | inl there ↦
        rw (starting, there)
          (here-Reaches character i cu (b ∷ bs) (starting_lem b bs starting).1 (ground arith))
    | inr before ↦
        rw (starting, before)
          (after-Reaches character i cu b bs (walk character (suc i) (cu + len_utf16 b) bs) starting
            (ground arith) (walk-Reaches character (suc i) (cu + len_utf16 b) bs))
  ]
]

-- On a line of ASCII the walk is an addition.
ascii_walk :
    (character i cu : ℕ) (line : Str)
    → is_ascii line ≡ true
    → cu ≤ character
    → walk character i cu line
      ≡ (if ltb (cu + length line) character then none else some (i + (character - cu)))
unfolding walk is_ascii
ascii_walk character i cu [] h le = ground arith
ascii_walk character i cu (b ∷ bs) h le =
    let plain : is_continuation b ≡ false = unfold is_continuation in ground arith in
    let one : len_utf16 b ≡ 1 = unfold len_utf16 in ground arith in
    elim (Bool-cases (leb character cu)) [
      | inl there ↦
          let fits : ltb (cu + length (b ∷ bs)) character ≡ false = ground arith in
          let here : i ≡ i + (character - cu) = ground arith in
          rw (plain, there, fits) (ap some here)
      | inr before ↦
          let more : cu + 1 + length bs ≡ cu + length (b ∷ bs) = omega arith in
          let moved : suc i + (character - (cu + 1)) ≡ i + (character - cu) = ground arith in
          let rest = ascii_walk character (suc i) (cu + 1) bs (ground arith) (ground arith) in
          rw (plain, before, one)
            (rest
              ∙ ap (λ k. if ltb k character then none else some (suc i + (character - (cu + 1))))
                  more
              ∙ ap (λ k. if ltb (cu + length (b ∷ bs)) character then none else some k) moved)
    ]

-- `column_to_byte` reaches the character on a line that starts at byte `start` and ends at `stop`, by the
-- short cut and by the walk.
pub column_to_byte-Reaches :
    (start stop character : ℕ) (line : Str)
    → stop ≡ start + length line
    → Reaches character start 0 line (Edits.column_to_byte start stop line character)
unfolding Edits.column_to_byte
column_to_byte-Reaches start stop character line e = elim (Bool-cases (is_ascii line)) [
  | inr wide ↦ rw wide (walk-Reaches character start 0 line)
  | inl plain ↦
      let walked = ascii_walk character start 0 line plain (omega arith) in
      let same : walk character start 0 line
          ≡ (if ltb stop (start + character) then none else some (start + character)) =
        walked ∙ elim (Bool-cases (ltb (0 + length line) character)) [
          | inl past ↦
              let past' : ltb stop (start + character) ≡ true = ground arith in
              rw (past, past') refl
          | inr within ↦
              let within' : ltb stop (start + character) ≡ false = ground arith in
              rw (within, within') (ap some (omega arith))
        ] in
      rw plain (subst (Reaches character start 0 line) same (walk-Reaches character start 0 line))
]
