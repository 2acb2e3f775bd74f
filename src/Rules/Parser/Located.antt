-- ===== src/Rules/Parser/Located.antt =====
-- The end of the parser on every text, and the place that an error names.
use prolog_forge.Prelude.{
  ℕ, zero, suc, ◌+◌, ◌≤◌, [], ◌∷◌, ◌++◌, false, ◌||◌, ◌≡◌, ◌≢◌, Option-cases, refl, ap, subst, inl,
  inr, eqb, nat_eq, elem, if◌then◌else◌, Str, length, Result, ok, err, ◌>>=◌, arith,
}
use prolog_forge.Rules.Ast.{Rule, Program}
use prolog_forge.Rules.Lexer.{
  Pos, Parser, Parsed, ParseError, Failure, parse_error, out_of_fuel, peek, skip_trivia, new, moved,
}
use prolog_forge.Rules.Parser.{parse_clause, file_clause, program_loop, parse, empty_program}
use prolog_forge.Rules.Parser.Reads.{advance, Reaches, Reaches-trans, Reaches-le, Reads}
use prolog_forge.Rules.Parser.Tokens.{skip_trivia-Reaches}
use prolog_forge.Rules.Parser.Clauses.{parse_clause-Reads}

-- How many lines a text ends, and the line that it leaves open.
unfoldable pub newlines : Str → ℕ
newlines [] = 0
newlines (b ∷ s) = newlines s + (if eqb b b'\n' then 1 else 0)

unfoldable pub last_line : Str → Str
last_line [] = []
last_line (b ∷ s) = let rest = last_line s in if eqb b b'\n' || elem b'\n' s then rest else b ∷ s

length-last_line : (s : Str) → elem b'\n' s ≡ false → length (last_line s) ≡ length s
unfolding last_line elem
length-last_line [] h = refl
length-last_line (b ∷ s) h = ground (arith, h)

advance-line : (s : Str) (here : Pos) → (advance s here).line ≡ here.line + newlines s
unfolding advance newlines moved
advance-line [] here = omega arith
advance-line (b ∷ s) here = ground (arith, advance-line s (moved b here))

advance-col :
    (s : Str) (here : Pos)
    → (advance s here).col
      ≡ (if elem b'\n' s then 1 + length (last_line s) else here.col + length s)
unfolding advance last_line moved elem
advance-col [] here = omega arith
advance-col (b ∷ s) here = ground (arith, advance-col s (moved b here), length-last_line s)

abbrev Ends : ℕ → Parser → Result Failure Program → Type 0
Ends n p (ok program) = Unit
Ends n p (err (parse_error e)) =
    (q : Parser) × Reaches p q × (e.line ≡ q.at_pos.line) × (e.col ≡ q.at_pos.col)
Ends n p (err out_of_fuel) = n ≤ length p.rest

Ends-after :
    (n : ℕ) (p q : Parser) (r : Result Failure Program) → Reaches p q → Ends n q r → Ends n p r
Ends-after n p q (ok program) way h = tt
Ends-after n p q (err (parse_error e)) way (t, reach, line, col) =
    (t, Reaches-trans p q t way reach, line, col)
Ends-after n p q (err out_of_fuel) way h = omega (arith, Reaches-le p q way)

Ends-bind :
    (n : ℕ) (p : Parser) (r : Parsed Rule) (next : Rule × Parser → Result Failure Program)
    → Reads 1 (suc n) p r
    → ((v : Rule) (q : Parser) → Ends n q (next (v, q)))
    → Ends (suc n) p (r >>= next)
Ends-bind n p (ok (v, q)) next (reach, on) h = from (next (v, q)) (h v q)
  where
    from : (r : Result Failure Program) → Ends n q r → Ends (suc n) p r
    from (ok program) k = tt
    from (err (parse_error e)) (t, way, line, col) = (t, Reaches-trans p q t reach way, line, col)
    from (err out_of_fuel) k = omega arith
Ends-bind n p (err (parse_error e)) next h then' = h
Ends-bind n p (err out_of_fuel) next h then' = h

program_loop-Ends : (n : ℕ) (program : Program) (p : Parser) → Ends n p (program_loop n program p)
unfolding program_loop
program_loop-Ends zero program p = omega arith
program_loop-Ends (suc n) program p = elim (Option-cases (peek p)) [
  | inl end ↦ rw (end, program_loop) tt
  | inr (b, there) ↦
      rw (there, program_loop)
        (Ends-bind n p (parse_clause n p) _ (parse_clause-Reads n p) (λ r q.
          Ends-after n q (skip_trivia q) _ (skip_trivia-Reaches q)
            (program_loop-Ends n (file_clause r program) (skip_trivia q))))
]

parse-Ends : (src : Str) → Ends (suc (length src)) (new src) (parse src)
unfolding parse
parse-Ends src =
    Ends-after (suc (length src)) (new src) (skip_trivia (new src)) _
      (skip_trivia-Reaches (new src))
      (program_loop-Ends (suc (length src)) empty_program (skip_trivia (new src)))

-- The fuel of the parser is enough: on every text it ends with a program or with an error of the text.
pub parse_ends : (src : Str) → parse src ≢ err out_of_fuel
parse_ends src stuck =
    let on : suc (length src) ≤ length src =
      subst (Ends (suc (length src)) (new src)) stuck (parse-Ends src) in
    absurd (omega arith)

-- A parse error names a place of the text: its line is one more than the line ends before that place,
-- and its column one more than the bytes that follow the last of them.
pub parse_error_located :
    (src : Str) (e : ParseError)
    → parse src ≡ err (parse_error e)
    → (before : Str) × (after : Str) × (src ≡ before ++ after)
      × (e.line ≡ suc (newlines before))
      × (e.col ≡ suc (length (last_line before)))
parse_error_located src e failed =
    let start : Pos = (new src).at_pos in
    let (q, (before, text, place), line, col) =
      subst (Ends (suc (length src)) (new src)) failed (parse-Ends src) in
    let at_line : q.at_pos.line ≡ (advance before start).line = ap (λ (h : Pos). h.line) place in
    let at_col : q.at_pos.col ≡ (advance before start).col = ap (λ (h : Pos). h.col) place in
    (
      before,
      q.rest,
      text,
      omega (arith, advance-line before start),
      ground (arith, advance-col before start, length-last_line before),
    )
