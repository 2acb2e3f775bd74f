-- ===== src/Rename/Position.antt =====
-- What a position of the language server protocol names in a text: a line and a number of UTF-16 code
-- units on it. This is the meaning that `linecol_to_byte` of crates/aa-patch/src/typed_rename.rs is
-- held against.
pub mod Lines
pub mod Columns
pub mod Linecol
use prolog_forge.Prelude.{
  ℕ, zero, suc, ◌+◌, ◌<◌, ◌≤◌, ◌≡◌, ◌≢◌, List, [], ◌∷◌, ◌++◌, Option, none, some, Bool, true, false,
  not, ◌==◌, nat_eq, ltb, leb, ◌||◌, Str, length, if◌then◌else◌,
}

unfoldable pub newlines : Str → ℕ
newlines [] = 0
newlines (b ∷ bs) = let rest = newlines bs in if b == b'\n' then suc rest else rest

-- The line of the text with the index: what stands before it, the line with its newline, and the rest.
pub data LineOf : Str → ℕ → Str → Str → Str → Type 0 where
  last_line : LineOf [] 0 [] [] []
  line_break : {b : ℕ} {bs : Str} → (b == b'\n') ≡ true → LineOf (b ∷ bs) 0 [] (b ∷ []) bs
  on_first :
      {b : ℕ} {bs line after : Str}
      → (b == b'\n') ≡ false
      → LineOf bs 0 [] line after
      → LineOf (b ∷ bs) 0 [] (b ∷ line) after
  past_break :
      {b n : ℕ} {bs before line after : Str}
      → (b == b'\n') ≡ true
      → LineOf bs n before line after
      → LineOf (b ∷ bs) (suc n) (b ∷ before) line after
  past_byte :
      {b n : ℕ} {bs before line after : Str}
      → (b == b'\n') ≡ false
      → LineOf bs (suc n) before line after
      → LineOf (b ∷ bs) (suc n) (b ∷ before) line after

-- Of UTF-8: a byte above 127 that is below 192 continues a character.
abbrev pub starts_char : Str → Bool
starts_char [] = true
starts_char (b ∷ bs) = ltb b 128 || leb 192 b

-- The UTF-16 code units of the character that a byte of UTF-8 starts: a character of four bytes has two,
-- any other has one, and none starts at a byte that continues one.
unfoldable pub code_units : ℕ → ℕ
code_units b = if ltb b 128 then 1 else if ltb b 192 then 0 else if ltb b 240 then 1 else 2

unfoldable pub units : Str → ℕ
unfolding code_units
units [] = 0
units (b ∷ bs) = code_units b + units bs

-- On a line that starts at byte `i` with `cu` code units passed: the byte after the shortest run of whole
-- characters with which at least `character` units are passed, or none when the line has fewer.
abbrev pub Reaches : ℕ → ℕ → ℕ → Str → Option ℕ → Type 0
Reaches character i cu line none = cu + units line < character
Reaches character i cu line (some j) =
    (u : Str) × (v : Str) × (line ≡ u ++ v)
    × (j ≡ i + length u)
    × (starts_char v ≡ true)
    × (character ≤ cu + units u)
    × ((u' w : Str)
        → u ≡ u' ++ w
        → w ≢ []
        → starts_char (w ++ v) ≡ true
        → cu + units u' < character)

-- The byte that a position names, or none when it names none.
pub data Placed (src : Str) (line character : ℕ) : Option ℕ → Type 0 where
  no_line : newlines src < line → Placed src line character none
  on_line :
      (before text after : Str) {o : Option ℕ}
      → LineOf src line before text after
      → Reaches character (length before) 0 text o
      → Placed src line character o
