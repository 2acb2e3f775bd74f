-- ===== src/Rules/Parser/Atoms.antt =====
-- The parser on a printed atom.
use prolog_forge.Prelude.{
  ℕ, suc, ◌≤◌, [], ◌∷◌, true, ◌≡◌, refl, Str, length, length-append, ok, arith,
}
use prolog_forge.Rules.Ast.{Atom}
use prolog_forge.Rules.Lexer.{
  Pos, at, moved, skip_trivia, is_ascii_whitespace, is_ascii_lowercase, is_ident_byte,
  is_ascii_uppercase, is_ascii_digit,
}
use prolog_forge.Rules.Parser.{parse_atom}
use prolog_forge.Rules.Parser.Scanned.{
  is_plain, is_plain_text, stops, skip_trivia-plain, eat_lem, ident_lower_lem,
}
use prolog_forge.Rules.Parser.Args.{name_plain, length-put_args, put_args_plain, parse_args_lem}
use prolog_forge.Rules.Print.{is_name, IsWritableAtom, put_args, put_atom}

pub put_atom_plain :
    (a : Atom) (rest : Str) → IsWritableAtom a → is_plain_text (put_atom a rest) ≡ true
unfolding put_atom
put_atom_plain a rest (name, args) =
    name_plain is_ascii_lowercase a.predicate (b'(' ∷ put_args a.args rest)
      (λ b k. unfold is_plain is_ascii_whitespace is_ascii_lowercase in ground arith) name

length-name : (s : Str) → is_name is_ascii_lowercase s ≡ true → 1 ≤ length s
unfolding is_name
length-name [] h = cc
length-name (b ∷ s) h = omega arith

pub length-put_atom :
    (a : Atom) (rest : Str) → IsWritableAtom a → suc (length rest) ≤ length (put_atom a rest)
unfolding put_atom
length-put_atom a rest (name, args) = omega (
  arith,
  length-append a.predicate (b'(' ∷ put_args a.args rest),
  length-put_args a.args rest args,
)

pub parse_atom_lem :
    (n : ℕ) (a : Atom) (rest : Str) (here : Pos)
    → IsWritableAtom a
    → length (put_atom a rest) ≤ suc n
    → (there : Pos) × (parse_atom n (at (put_atom a rest) here) ≡ ok (a, at rest there))
unfolding parse_atom put_atom
parse_atom_lem n a rest here (name, args) le =
    let inside = put_args a.args rest in
    let (h₁, ident) =
      ident_lower_lem a.predicate (b'(' ∷ inside) here name
        (unfold stops is_ident_byte is_ascii_digit is_ascii_lowercase is_ascii_uppercase in refl) in
    let still : skip_trivia (at (b'(' ∷ inside) h₁) ≡ at (b'(' ∷ inside) h₁ =
      skip_trivia-plain (b'(' ∷ inside) h₁
        (unfold is_plain_text is_plain is_ascii_whitespace in refl) in
    let h₂ = moved b'(' h₁ in
    let still₂ : skip_trivia (at inside h₂) ≡ at inside h₂ =
      skip_trivia-plain inside h₂ (put_args_plain a.args rest args) in
    let (h₃, list) =
      parse_args_lem n a.args rest h₂ args
        (omega (arith, length-append a.predicate (b'(' ∷ inside), length-name a.predicate name)) in
    (
      moved b')' h₃,
      rw (ident, still, eat_lem b'(' inside h₁, still₂, list, eat_lem b')' rest h₃) refl,
    )
