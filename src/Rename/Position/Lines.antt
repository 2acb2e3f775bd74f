-- ===== src/Rename/Position/Lines.antt =====
-- The starts of the lines that `line_starts` of crates/aa-patch/src/typed_rename.rs lists.
use prolog_forge.Prelude.{
  ℕ, zero, suc, ◌+◌, ◌<◌, ◌⊎◌, ◌≡◌, refl, ap, List, [], ◌∷◌, ◌++◌, none, some, true, false, ◌==◌,
  nat_eq, Str, length, get_elem?, get_or, take, subst, slice, take-append, take-length, ◌∙◌,
  Bool-cases, inl, inr, arith,
}
use prolog_forge.Rename.Edits
use prolog_forge.Rename.Position.{
  newlines, LineOf, last_line, line_break, on_first, past_break, past_byte,
}

-- The starts of the lines of a text that starts at byte `i`.
abbrev pub starts_at : ℕ → Str → List ℕ
starts_at i src = i ∷ Edits.line_starts_from i src

starts_at-break :
    (i b : ℕ) (bs : Str) → (b == b'\n') ≡ true → starts_at i (b ∷ bs) ≡ i ∷ starts_at (suc i) bs
unfolding Edits.line_starts_from
starts_at-break i b bs newline = rw newline refl

starts_at-byte :
    (i b : ℕ) (bs : Str)
    → (b == b'\n') ≡ false
    → Edits.line_starts_from i (b ∷ bs) ≡ Edits.line_starts_from (suc i) bs
unfolding Edits.line_starts_from
starts_at-byte i b bs other = rw other refl

-- A line of a text that ends at byte `total`, with its start and its end by `line_starts`.
pub record Listed (total i : ℕ) (src : Str) (n : ℕ) : Type 0 where
  pub before : Str
  pub line : Str
  pub after : Str
  pub is_line : LineOf src n before line after
  pub whole : src ≡ before ++ (line ++ after)
  pub start : get_elem? (starts_at i src) n ≡ some (i + length before)
  pub stop : get_or (get_elem? (starts_at i src) (suc n)) total ≡ i + (length before + length line)

abbrev pub Unlisted : ℕ → Str → ℕ → Type 0
Unlisted i src n = (newlines src < n) × (get_elem? (starts_at i src) n ≡ none)

break_first : (total i b : ℕ) (bs : Str) → (b == b'\n') ≡ true → Listed total i (b ∷ bs) 0
break_first total i b bs newline = record {
  before = [];
  line = b ∷ [];
  after = bs;
  is_line = line_break newline;
  whole = refl;
  start = ap some (omega arith);
  stop = rw (starts_at-break i b bs newline) (omega arith);
}

break_later :
    (total i b : ℕ) (bs : Str) (n : ℕ)
    → (b == b'\n') ≡ true
    → Listed total (suc i) bs n
    → Listed total i (b ∷ bs) (suc n)
break_later total i b bs n newline l = record {
  before = b ∷ l.before;
  line = l.line;
  after = l.after;
  is_line = past_break newline l.is_line;
  whole = ap (λ s. b ∷ s) l.whole;
  start = rw (starts_at-break i b bs newline) (l.start ∙ ap some (omega arith));
  stop = rw (starts_at-break i b bs newline) (l.stop ∙ omega arith);
}

LineOf-first : {src before line after : Str} → LineOf src 0 before line after → before ≡ []
LineOf-first last_line = refl
LineOf-first (line_break e) = refl
LineOf-first (on_first e l) = refl

byte_first :
    (total i b : ℕ) (bs : Str)
    → (b == b'\n') ≡ false
    → Listed total (suc i) bs 0
    → Listed total i (b ∷ bs) 0
byte_first total i b bs other l =
    let nothing = LineOf-first l.is_line in
    let line' : LineOf bs 0 [] l.line l.after = rw nothing at l.is_line in
    let none_before : length l.before ≡ 0 = ap length nothing in
    record {
      before = [];
      line = b ∷ l.line;
      after = l.after;
      is_line = on_first other line';
      whole = ap (λ s. b ∷ s) (l.whole ∙ ap (λ s. s ++ (l.line ++ l.after)) nothing);
      start = ap some (omega arith);
      stop = rw (starts_at-byte i b bs other) (l.stop ∙ omega (arith, none_before));
    }

byte_later :
    (total i b : ℕ) (bs : Str) (n : ℕ)
    → (b == b'\n') ≡ false
    → Listed total (suc i) bs (suc n)
    → Listed total i (b ∷ bs) (suc n)
byte_later total i b bs n other l = record {
  before = b ∷ l.before;
  line = l.line;
  after = l.after;
  is_line = past_byte other l.is_line;
  whole = ap (λ s. b ∷ s) l.whole;
  start = rw (starts_at-byte i b bs other) (l.start ∙ ap some (omega arith));
  stop = rw (starts_at-byte i b bs other) (l.stop ∙ omega arith);
}

-- Every line of the text is listed, and nothing is past the last one.
pub line_lem :
    (total i : ℕ) (src : Str) (n : ℕ)
    → total ≡ i + length src
    → Listed total i src n ⊎ Unlisted i src n
unfolding Edits.line_starts_from newlines
line_lem total i [] zero e = inl (record {
  before = [];
  line = [];
  after = [];
  is_line = last_line;
  whole = refl;
  start = ap some (omega arith);
  stop = omega arith;
})
line_lem total i [] (suc n) e = inr (omega arith, refl)
line_lem total i (b ∷ bs) zero e = elim (Bool-cases (b == b'\n')) [
  | inl newline ↦ inl (break_first total i b bs newline)
  | inr other ↦ elim (line_lem total (suc i) bs zero (omega arith)) [
    | inl l ↦ inl (byte_first total i b bs other l)
    | inr (past, absent) ↦ absurd (omega arith)
  ]
]
line_lem total i (b ∷ bs) (suc n) e = elim (Bool-cases (b == b'\n')) [
  | inl newline ↦ elim (line_lem total (suc i) bs n (omega arith)) [
    | inl l ↦ inl (break_later total i b bs n newline l)
    | inr (past, absent) ↦ inr (rw newline (omega arith, absent))
  ]
  | inr other ↦ elim (line_lem total (suc i) bs (suc n) (omega arith)) [
    | inl l ↦ inl (byte_later total i b bs n other l)
    | inr (past, absent) ↦ inr (rw other (past, absent))
  ]
]

pub slice_line :
    (n : ℕ) (before line after : Str)
    → n ≡ length before + length line
    → slice (length before) n (before ++ (line ++ after)) ≡ line
slice_line n [] line after e =
    let same : length line ≡ n = omega arith in
    subst (λ k. take k (line ++ after) ≡ line) same
      (take-append (length line) line after (omega arith) ∙ take-length line)
slice_line zero (b ∷ before) line after e = absurd (omega arith)
slice_line (suc n) (b ∷ before) line after e = slice_line n before line after (omega arith)
