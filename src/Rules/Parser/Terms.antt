-- ===== src/Rules/Parser/Terms.antt =====
-- How far the functions that read terms go.
use prolog_forge.Prelude.{
  ℕ, zero, suc, List, [], ◌∷◌, ◌++◌, Option, none, some, ◌||◌, Bool-cases, Option-cases, ◌≡◌, refl,
  ap, inl, inr, eqb, Str, length, length-append, ok, ◌>>=◌, arith,
}
use prolog_forge.Rules.Ast.{Term}
use prolog_forge.Rules.Lexer.{
  Pos, Parser, Parsed, moved, bump, peek, skip_trivia, message_found, is_ascii_digit,
  is_ascii_lowercase, is_ascii_uppercase,
}
use prolog_forge.Rules.Parser.{
  scan_number, number_scanned, as_const, as_var, term_at, parse_number, parse_term, args_loop,
  next_at, next_round,
}
use prolog_forge.Rules.Parser.Reads.{
  advance, Reaches-refl, Reads, Reads-bind, Reads-if, Reads-weaken,
}
use prolog_forge.Rules.Parser.Tokens.{fail-Reads, Reads-skip, Reads-bump, scan-Reaches}
use prolog_forge.Rules.Parser.Idents.{parse_ident_any-Reads, parse_quoted-Reads}

scan_number-Reaches :
    (rest : Str) (here : Pos)
    → (rest ≡ (scan_number rest here).0 ++ (scan_number rest here).1.rest)
      × ((scan_number rest here).1.at_pos ≡ advance (scan_number rest here).0 here)
unfolding scan_number advance
scan_number-Reaches [] here = (refl, refl)
scan_number-Reaches (b ∷ rest) here = elim (Bool-cases (eqb b b'-')) [
  | inl sign ↦
      let (text, place) = scan-Reaches is_ascii_digit rest (moved b here) in
      rw (sign, scan_number, advance) (ap (λ t. b ∷ t) text, place)
  | inr digits ↦ rw (digits, scan_number) (scan-Reaches is_ascii_digit (b ∷ rest) here)
]

number_scanned-Reads :
    (n : ℕ) (p : Parser) (r : Str × Parser)
    → (p.rest ≡ r.0 ++ r.1.rest)
    → (r.1.at_pos ≡ advance r.0 p.at_pos)
    → Reads 1 n p (number_scanned p r)
unfolding number_scanned
number_scanned-Reads n p ([], q) text place = fail-Reads _ 1 n p _
number_scanned-Reads n p (b ∷ s, q) text place =
    ((b ∷ s, text, place), omega (arith, ap length text, length-append s q.rest))

parse_number-Reads : (n : ℕ) (p : Parser) → Reads 1 n p (parse_number p)
unfolding parse_number
parse_number-Reads n p =
    let (text, place) = scan_number-Reaches p.rest p.at_pos in
    number_scanned-Reads n p (scan_number p.rest p.at_pos) text place

module _ (n : ℕ) (p : Parser) (r : Parsed Str) where
  as_const-Reads : Reads 1 n p r → Reads 1 n p (r >>= as_const)
  unfolding as_const
  as_const-Reads h =
      Reads-bind 1 n 0 n 1 n p r as_const (omega arith) (omega arith) (omega arith) h
        (λ s q. (Reaches-refl q, omega arith))

  as_var-Reads : Reads 1 n p r → Reads 1 n p (r >>= as_var)
  unfolding as_var
  as_var-Reads h =
      Reads-bind 1 n 0 n 1 n p r as_var (omega arith) (omega arith) (omega arith) h
        (λ s q. (Reaches-refl q, omega arith))

term_at-Reads : (n : ℕ) (p : Parser) (o : Option ℕ) → Reads 1 n p (term_at p o)
unfolding term_at
term_at-Reads n p none = fail-Reads _ 1 n p _
term_at-Reads n p (some b) =
    Reads-if 1 n p (eqb b b'"') _ _ (as_const-Reads n p _ (parse_quoted-Reads n p)) (
      Reads-if 1 n p (is_ascii_digit b || eqb b b'-') _ _
        (as_const-Reads n p _ (parse_number-Reads n p))
        (Reads-if 1 n p (is_ascii_uppercase b || eqb b b'_') _ _
          (as_var-Reads n p _ (parse_ident_any-Reads n p))
          (Reads-if 1 n p (is_ascii_lowercase b) _ _
            (as_const-Reads n p _ (parse_ident_any-Reads n p)) (fail-Reads _ 1 n p _))))

pub parse_term-Reads : (n : ℕ) (p : Parser) → Reads 1 n p (parse_term p)
unfolding parse_term
parse_term-Reads n p = term_at-Reads n p (peek p)

pub next_round-Reads :
    {A : Type 0} (n closing : ℕ) (more : Parser → Parsed A) (done : Parsed A)
    (expected at_eof : Str) (q : Parser)
    → ((r : Parser) → Reads 0 n r (more r))
    → Reads 0 (suc n) q done
    → Reads 0 (suc n) q (next_round (next_at closing (peek q)) more done expected at_eof q)
unfolding next_at next_round
next_round-Reads {A} n closing more done expected at_eof q goes_on ends =
    elim (Option-cases (peek q)) [
      | inl end ↦ rw (end, next_at, next_round) (fail-Reads A 0 (suc n) q at_eof)
      | inr (b, there) ↦ elim (Bool-cases (eqb b b',')) [
        | inl same ↦
            rw (there, same, next_at, next_round)
              (Reads-weaken 1 0 (suc n) q _ (omega arith) (
                Reads-bump 0 n q b _ there (
                  Reads-skip 0 n (bump q) (more (skip_trivia (bump q)))
                    (goes_on (skip_trivia (bump q))))))
        | inr no_comma ↦ elim (Bool-cases (eqb b closing)) [
          | inl end ↦ rw (there, no_comma, end, next_at, next_round) ends
          | inr wrong ↦
              rw (there, no_comma, wrong, next_at, next_round)
                (fail-Reads A 0 (suc n) q (message_found expected b))
        ]
      ]
    ]

pub args_loop-Reads : (n : ℕ) (args : List Term) (p : Parser) → Reads 0 n p (args_loop n args p)
unfolding args_loop
args_loop-Reads zero args p = omega arith
args_loop-Reads (suc n) args p =
    let q = skip_trivia p in
    Reads-skip 0 (suc n) p _ (
      next_round-Reads n b')' _ (ok (args, q)) _ _ q
        (λ r.
          Reads-bind 1 n 0 n 0 n r (parse_term r) _ (omega arith) (omega arith) (omega arith)
            (parse_term-Reads n r) (λ t u. args_loop-Reads n (args ++ t ∷ []) u))
        (Reaches-refl q, omega arith))
