-- ===== src/Rules/Parser/Clauses.antt =====
-- How far the functions that read atoms, clauses and programs go.
use prolog_forge.Prelude.{ℕ, zero, suc, ◌+◌, ◌≤◌, List, [], ◌∷◌, ◌++◌, ok, ◌>>=◌, arith}
use prolog_forge.Rules.Ast.{Atom}
use prolog_forge.Rules.Lexer.{Parser, Parsed, bump, skip_trivia, eat}
use prolog_forge.Rules.Parser.{
  parse_ident_lower, parse_term, parse_args, parse_atom, body_loop, clause_rest, parse_clause,
}
use prolog_forge.Rules.Parser.Reads.{Reaches-refl, Reads, Reads-bind, Reads-if, Reaches-le}
use prolog_forge.Rules.Parser.Tokens.{Reads-skip, eat-Reads, bump-Reaches}
use prolog_forge.Rules.Parser.Idents.{parse_ident_lower-Reads}
use prolog_forge.Rules.Parser.Terms.{parse_term-Reads, args_loop-Reads, next_round-Reads}

module _ {A B : Type 0} where
  -- A part that never runs out of fuel and takes a byte, then one on fuel.
  pub Reads-then :
      (m n N : ℕ) (p : Parser) (r : Parsed A) (next : A × Parser → Parsed B)
      → N ≤ m + n
      → Reads m N p r
      → ((v : A) (q : Parser) → Reads 0 n q (next (v, q)))
      → Reads m N p (r >>= next)
  Reads-then m n N p r next le h then' =
      Reads-bind m N 0 n m N p r next (omega arith) (omega arith) (omega arith) h then'

parse_args-Reads : (n : ℕ) (p : Parser) → Reads 0 n p (parse_args n p)
unfolding parse_args
parse_args-Reads n p =
    Reads-if 0 n p _ (ok ([], p)) _ (Reaches-refl p, omega arith)
      (Reads-bind 1 n 0 n 0 n p (parse_term p) _ (omega arith) (omega arith) (omega arith)
        (parse_term-Reads n p) (λ t q. args_loop-Reads n (t ∷ []) q))

eaten-Reads :
    {A : Type 0} (n c : ℕ) (p : Parser) (next : Unit × Parser → Parsed A)
    → ((q : Parser) → Reads 0 n q (next (tt, q)))
    → Reads 0 n p (eat c p >>= next)
eaten-Reads n c p next h =
    Reads-bind 1 (suc n) 0 n 0 n p (eat c p) next (omega arith) (omega arith) (omega arith)
      (eat-Reads n c p) (λ u q. h q)

parse_atom-Reads : (n : ℕ) (p : Parser) → Reads 1 (suc n) p (parse_atom n p)
unfolding parse_atom
parse_atom-Reads n p =
    Reads-then 1 n (suc n) p (parse_ident_lower p) _ (omega arith)
      (parse_ident_lower-Reads (suc n) p)
      (λ name q. Reads-skip 0 n q _ (
        eaten-Reads n b'(' (skip_trivia q) _ (λ r. Reads-skip 0 n r _ (
          Reads-then 0 n n (skip_trivia r) (parse_args n (skip_trivia r)) _ (omega arith)
            (parse_args-Reads n (skip_trivia r))
            (λ args t. eaten-Reads n b')' t _ (λ u. (Reaches-refl u, omega arith)))))))

body_loop-Reads : (n : ℕ) (body : List Atom) (p : Parser) → Reads 0 n p (body_loop n body p)
unfolding body_loop
body_loop-Reads zero body p = omega arith
body_loop-Reads (suc n) body p =
    let q = skip_trivia p in
    Reads-skip 0 (suc n) p _ (
      next_round-Reads n b'.' _ (ok (body, bump q)) _ _ q
        (λ r.
          Reads-bind 1 (suc n) 0 n 0 n r (parse_atom n r) _ (omega arith) (omega arith)
            (omega arith) (parse_atom-Reads n r) (λ a u. body_loop-Reads n (body ++ a ∷ []) u))
        (bump-Reaches q, omega (arith, Reaches-le q (bump q) (bump-Reaches q))))

clause_rest-Reads : (n : ℕ) (head : Atom) (p : Parser) → Reads 0 n p (clause_rest n head p)
unfolding clause_rest
clause_rest-Reads n head p = eaten-Reads n b':' p _ (λ q. eaten-Reads n b'-' q _ (λ r.
    Reads-skip 0 n r _ (
      Reads-bind 1 (suc n) 0 n 0 n (skip_trivia r) (parse_atom n (skip_trivia r)) _ (omega arith)
        (omega arith) (omega arith) (parse_atom-Reads n (skip_trivia r))
        (λ a t.
          Reads-then 0 n n t (body_loop n (a ∷ []) t) _ (omega arith) (body_loop-Reads n (a ∷ []) t)
            (λ body u. (Reaches-refl u, omega arith))))))

pub parse_clause-Reads : (n : ℕ) (p : Parser) → Reads 1 (suc n) p (parse_clause n p)
unfolding parse_clause
parse_clause-Reads n p =
    Reads-then 1 n (suc n) p (parse_atom n p) _ (omega arith) (parse_atom-Reads n p) (λ head q.
      let r = skip_trivia q in
      Reads-skip 0 n q _ (
        Reads-if 0 n r _ (ok (_, bump r)) _
          (bump-Reaches r, omega (arith, Reaches-le r (bump r) (bump-Reaches r)))
          (clause_rest-Reads n head r)))
