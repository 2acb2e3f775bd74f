-- ===== src/Rules/Parser/Idents.antt =====
-- How far the functions that read names and quoted texts go.
use prolog_forge.Prelude.{
  ℕ, suc, [], ◌∷◌, ◌++◌, Bool, false, not, ◌&&◌, Bool-cases, Option-cases, ◌≡◌, ap, inl, inr, eqb,
  Str, length, length-append, ok, err, arith,
}
use prolog_forge.Rules.Lexer.{
  Pos, Parser, Parsed, parse_error, out_of_fuel, at, moved, peek, eat, scan, is_ident_byte,
  is_ascii_lowercase,
}
use prolog_forge.Rules.Parser.{
  ident_scanned, ident_lower_at, cons_quoted, parse_ident_any, parse_ident_lower, quoted_loop,
  parse_quoted,
}
use prolog_forge.Rules.Parser.Reads.{advance, Reaches-refl, Reads, Reads-bind, Reads-if}
use prolog_forge.Rules.Parser.Tokens.{fail-Reads, eat-Reads, scan-Reaches, Reaches-cons}

ident_scanned-Reads :
    (n : ℕ) (p : Parser) (r : Str × Parser)
    → (p.rest ≡ r.0 ++ r.1.rest)
    → (r.1.at_pos ≡ advance r.0 p.at_pos)
    → Reads 1 n p (ident_scanned p r)
unfolding ident_scanned
ident_scanned-Reads n p ([], q) text place = fail-Reads _ 1 n p _
ident_scanned-Reads n p (b ∷ s, q) text place =
    ((b ∷ s, text, place), omega (arith, ap length text, length-append s q.rest))

pub parse_ident_any-Reads : (n : ℕ) (p : Parser) → Reads 1 n p (parse_ident_any p)
unfolding parse_ident_any
parse_ident_any-Reads n p =
    let (text, place) = scan-Reaches is_ident_byte p.rest p.at_pos in
    ident_scanned-Reads n p (scan is_ident_byte p.rest p.at_pos) text place

pub parse_ident_lower-Reads : (n : ℕ) (p : Parser) → Reads 1 n p (parse_ident_lower p)
unfolding parse_ident_lower
parse_ident_lower-Reads n p = elim (Option-cases (peek p)) [
  | inl end ↦ rw (end, ident_lower_at) (fail-Reads _ 1 n p _)
  | inr (b, there) ↦
      rw (there, ident_lower_at)
        (Reads-if 1 n p (is_ascii_lowercase b) _ _ (parse_ident_any-Reads n p)
          (fail-Reads _ 1 n p _))
]

cons_quoted-Reads :
    (n b : ℕ) (rest : Str) (here : Pos) (r : Parsed Str)
    → Reads 1 n (at rest (moved b here)) r
    → Reads 1 n (at (b ∷ rest) here) (cons_quoted b r)
unfolding cons_quoted
cons_quoted-Reads n b rest here (ok (s, q)) (reach, on) =
    (Reaches-cons b rest here q reach, omega arith)
cons_quoted-Reads n b rest here (err (parse_error e)) (q, reach, line, col) =
    (q, Reaches-cons b rest here q reach, line, col)
cons_quoted-Reads n b rest here (err out_of_fuel) h = omega arith

quoted_loop-Reads :
    (n : ℕ) (escaped : Bool) (rest : Str) (here : Pos)
    → Reads 1 n (at rest here) (quoted_loop escaped rest here)
unfolding quoted_loop
quoted_loop-Reads n escaped [] here = fail-Reads _ 1 n (at [] here) _
quoted_loop-Reads n escaped (b ∷ rest) here = elim (Bool-cases (not escaped && eqb b b'"')) [
  | inl end ↦
      rw end (Reaches-cons b rest here (at rest (moved b here)) (Reaches-refl _), omega arith)
  | inr more ↦ rw more (
      cons_quoted-Reads n b rest here _
        (quoted_loop-Reads n (not escaped && eqb b b'\\') rest (moved b here)))
]

pub parse_quoted-Reads : (n : ℕ) (p : Parser) → Reads 1 n p (parse_quoted p)
unfolding parse_quoted
parse_quoted-Reads n p =
    Reads-bind 1 (suc n) 1 n 1 n p (eat b'"' p) _ (omega arith) (omega arith) (omega arith)
      (eat-Reads n b'"' p) (λ u q. quoted_loop-Reads n false q.rest q.at_pos)
