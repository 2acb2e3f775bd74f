-- ===== src/Rules/Parser/Scanned.antt =====
-- What the functions that read one token take from a printed text.
use prolog_forge.Prelude.{
  ℕ, zero, suc, [], ◌∷◌, ◌++◌, Bool, true, false, not, ◌&&◌, ◌||◌, ◌≡◌, refl, eqb, Str, length, ok,
  arith,
}
use prolog_forge.Rules.Ast.{Term, const, var}
use prolog_forge.Rules.Lexer.{
  Pos, at, moved, bump_at, peek_at, skip_trivia, trivia_loop, starts_space, is_comment,
  is_ascii_whitespace, eat, eat_found, scan, cons_scanned, is_ident_byte, is_ascii_digit,
  is_ascii_lowercase, is_ascii_uppercase,
}
use prolog_forge.Rules.Parser.{
  ident_scanned, ident_lower_at, parse_ident_any, parse_ident_lower, cons_quoted, quoted_loop,
  parse_quoted, parse_term, term_at, as_const, as_var,
}
use prolog_forge.Rules.Print.{all_ident, is_name, starts_var, closes, is_writable, put_term}

-- A byte that starts no trivia.
unfoldable pub is_plain : ℕ → Bool
is_plain b = not (is_ascii_whitespace b) && not (eqb b b'%') && not (eqb b b'/')

unfoldable pub is_plain_text : Str → Bool
is_plain_text [] = true
is_plain_text (b ∷ s) = is_plain b

trivia_loop-plain :
    (n : ℕ) (rest : Str) (here : Pos)
    → is_plain_text rest ≡ true
    → trivia_loop n (at rest here) ≡ at rest here
unfolding trivia_loop is_plain_text is_plain starts_space is_comment peek_at
trivia_loop-plain zero rest here h = refl
trivia_loop-plain (suc n) [] here h = refl
trivia_loop-plain (suc n) (b ∷ rest) here h = ground arith

pub skip_trivia-plain :
    (rest : Str) (here : Pos)
    → is_plain_text rest ≡ true
    → skip_trivia (at rest here) ≡ at rest here
unfolding skip_trivia
skip_trivia-plain rest here h = trivia_loop-plain (length rest) rest here h

pub skip_trivia-space :
    (b : ℕ) (rest : Str) (here : Pos)
    → is_ascii_whitespace b ≡ true
    → is_plain_text rest ≡ true
    → skip_trivia (at (b ∷ rest) here) ≡ at rest (moved b here)
unfolding skip_trivia trivia_loop starts_space bump_at
skip_trivia-space b rest here space h =
    rw (space, trivia_loop) (trivia_loop-plain (length rest) rest (moved b here) h)

pub eat_lem :
    (c : ℕ) (rest : Str) (here : Pos) → eat c (at (c ∷ rest) here) ≡ ok (tt, at rest (moved c here))
unfolding eat eat_found peek_at bump_at
eat_lem c rest here = ground arith

-- The scan of a name stops at a byte that is not of a name.
unfoldable pub stops : Str → Bool
stops [] = true
stops (b ∷ s) = not (is_ident_byte b)

scan_lem :
    (s rest : Str) (here : Pos)
    → all_ident s ≡ true
    → stops rest ≡ true
    → (there : Pos) × (scan is_ident_byte (s ++ rest) here ≡ (s, at rest there))
unfolding scan all_ident stops cons_scanned
scan_lem [] [] here h k = (here, refl)
scan_lem [] (b ∷ rest) here h k = (here, ground arith)
scan_lem (b ∷ s) rest here h k =
    let (there, same) = scan_lem s rest (moved b here) (ground arith) k in
    let passes : is_ident_byte b ≡ true = ground arith in
    (there, rw (passes, same, scan, cons_scanned) refl)

quoted_loop_lem :
    (escaped : Bool) (s rest : Str) (here : Pos)
    → closes escaped s ≡ true
    → (there : Pos) × (quoted_loop escaped (s ++ (b'"' ∷ rest)) here ≡ ok (s, at rest there))
unfolding quoted_loop closes cons_quoted
quoted_loop_lem true [] rest here h = cc
quoted_loop_lem false [] rest here h = (moved b'"' here, refl)
quoted_loop_lem escaped (b ∷ s) rest here h =
    let (there, same) =
      quoted_loop_lem (not escaped && eqb b b'\\') s rest (moved b here) (ground arith) in
    let inside : (not escaped && eqb b b'"') ≡ false = ground arith in
    (there, rw (inside, same, cons_quoted) refl)

ident_any_lem :
    (s rest : Str) (here : Pos) (start : ℕ → Bool)
    → is_name start s ≡ true
    → ((b : ℕ) → start b ≡ true → is_ident_byte b ≡ true)
    → stops rest ≡ true
    → (there : Pos) × (parse_ident_any (at (s ++ rest) here) ≡ ok (s, at rest there))
unfolding parse_ident_any is_name ident_scanned
ident_any_lem [] rest here start h starts k = cc
ident_any_lem (b ∷ s) rest here start h starts k =
    let named : all_ident (b ∷ s) ≡ true = unfold all_ident in ground (arith, starts b) in
    let (there, same) = scan_lem (b ∷ s) rest here named k in (there, rw (same, ident_scanned) refl)

pub ident_lower_lem :
    (s rest : Str) (here : Pos)
    → is_name is_ascii_lowercase s ≡ true
    → stops rest ≡ true
    → (there : Pos) × (parse_ident_lower (at (s ++ rest) here) ≡ ok (s, at rest there))
unfolding parse_ident_lower ident_lower_at peek_at is_name is_ident_byte
ident_lower_lem [] rest here h k = cc
ident_lower_lem (b ∷ s) rest here h k =
    let (there, same) =
      ident_any_lem (b ∷ s) rest here is_ascii_lowercase h (λ c low. ground arith) k in
    let low : is_ascii_lowercase b ≡ true = ground arith in
    (there, rw (low, same, ident_lower_at) refl)

var_lem :
    (v rest : Str) (here : Pos)
    → is_name starts_var v ≡ true
    → stops rest ≡ true
    → (there : Pos) × (parse_term (at (v ++ rest) here) ≡ ok (var v, at rest there))
unfolding parse_term term_at peek_at as_var is_name starts_var is_ident_byte is_ascii_digit
    is_ascii_uppercase
var_lem [] rest here h k = cc
var_lem (b ∷ v) rest here h k =
    let (there, same) = ident_any_lem (b ∷ v) rest here starts_var h (λ c upper. ground arith) k in
    let upper : (is_ascii_uppercase b || eqb b b'_') ≡ true = ground arith in
    let no_quote : eqb b b'"' ≡ false = ground arith in
    let no_number : (is_ascii_digit b || eqb b b'-') ≡ false = ground arith in
    (there, rw (no_quote, no_number, upper, same, as_var) refl)

pub parse_term_lem :
    (t : Term) (rest : Str) (here : Pos)
    → is_writable t ≡ true
    → stops rest ≡ true
    → (there : Pos) × (parse_term (at (put_term t rest) here) ≡ ok (t, at rest there))
unfolding parse_term term_at put_term is_writable peek_at parse_quoted as_const
parse_term_lem (const c) rest here h k =
    let (there, same) = quoted_loop_lem false c rest (moved b'"' here) h in
    (there, rw (eat_lem b'"' (c ++ (b'"' ∷ rest)) here, same, as_const) refl)
parse_term_lem (var v) rest here h k = var_lem v rest here h k
