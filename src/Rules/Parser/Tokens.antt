-- ===== src/Rules/Parser/Tokens.antt =====
-- How far the functions that read one token go.
use prolog_forge.Prelude.{
  ℕ, zero, suc, ◌+◌, ◌≤◌, [], ◌∷◌, ◌++◌, some, Bool, false, Bool-cases, Option-cases, ◌≡◌, refl, ap,
  inl, inr, eqb, Str, length, ok, arith,
}
use prolog_forge.Rules.Lexer.{
  Pos, Parser, Parsed, at, moved, bump, bump_at, peek, peek_at, fail, line_comment_at, is_comment,
  skip_line_comment, starts_space, trivia_loop, skip_trivia, eat, scan, cons_scanned,
}
use prolog_forge.Rules.Parser.Reads.{
  advance, Reaches, Reaches-refl, Reaches-trans, Reaches-le, Reads, Reads-after,
}

pub bump-Reaches : (p : Parser) → Reaches p (bump p)
unfolding bump_at advance
bump-Reaches p = from p.rest p.at_pos
  where
    from : (rest : Str) (here : Pos) → Reaches (at rest here) (bump_at rest here)
    from [] here = ([], refl, refl)
    from (b ∷ rest) here = (b ∷ [], refl, refl)

pub Reaches-cons :
    (b : ℕ) (rest : Str) (here : Pos) (q : Parser)
    → Reaches (at rest (moved b here)) q
    → Reaches (at (b ∷ rest) here) q
unfolding advance
Reaches-cons b rest here q (s, text, place) = (b ∷ s, ap (λ t. b ∷ t) text, place)

line_comment-Reaches :
    (rest : Str) (here : Pos) → Reaches (at rest here) (line_comment_at rest here)
unfolding line_comment_at advance
line_comment-Reaches [] here = ([], refl, refl)
line_comment-Reaches (b ∷ rest) here = elim (Bool-cases (eqb b b'\n')) [
  | inl end ↦ rw end (b ∷ [], refl, refl)
  | inr more ↦ rw more (Reaches-cons b rest here _ (line_comment-Reaches rest (moved b here)))
]

trivia-Reaches : (n : ℕ) (p : Parser) → Reaches p (trivia_loop n p)
unfolding trivia_loop
trivia-Reaches zero p = Reaches-refl p
trivia-Reaches (suc n) p = elim (Bool-cases (starts_space p.rest)) [
  | inl space ↦
      rw (space, trivia_loop)
        (Reaches-trans p (bump p) _ (bump-Reaches p) (trivia-Reaches n (bump p)))
  | inr no_space ↦ elim (Bool-cases (is_comment p.rest)) [
    | inl comment ↦
        let q = skip_line_comment p in
        rw (no_space, comment, trivia_loop)
          (Reaches-trans p q _ (line_comment-Reaches p.rest p.at_pos) (trivia-Reaches n q))
    | inr other ↦ rw (no_space, other, trivia_loop) (Reaches-refl p)
  ]
]

pub skip_trivia-Reaches : (p : Parser) → Reaches p (skip_trivia p)
unfolding skip_trivia
skip_trivia-Reaches p = trivia-Reaches (length p.rest) p

length-bump :
    (rest : Str) (here : Pos) (b : ℕ)
    → peek_at rest ≡ some b
    → 1 + length (bump_at rest here).rest ≤ length rest
unfolding peek_at bump_at
length-bump [] here b there = cc
length-bump (c ∷ rest) here b there = omega arith

pub fail-Reads :
    (A : Type 0) (m n : ℕ) (p : Parser) (message : Str) → Reads m n p (fail {A = A} p message)
unfolding fail
fail-Reads A m n p message = (p, Reaches-refl p, refl, refl)

module _ {A : Type 0} where
  -- Trivia goes before the function.
  pub Reads-skip :
      (m n : ℕ) (p : Parser) (r : Parsed A) → Reads m n (skip_trivia p) r → Reads m n p r
  Reads-skip m n p r h =
      Reads-after 0 m n m n p (skip_trivia p) r (skip_trivia-Reaches p)
        (omega (arith, Reaches-le p (skip_trivia p) (skip_trivia-Reaches p))) (omega arith)
        (omega arith) h

  -- So does a byte that is there.
  pub Reads-bump :
      (m n : ℕ) (p : Parser) (b : ℕ) (r : Parsed A)
      → peek p ≡ some b
      → Reads m n (bump p) r
      → Reads (suc m) (suc n) p r
  Reads-bump m n p b r there h =
      Reads-after 1 m n (suc m) (suc n) p (bump p) r (bump-Reaches p)
        (length-bump p.rest p.at_pos b there) (omega arith) (omega arith) h

pub eat-Reads : (n : ℕ) (c : ℕ) (p : Parser) → Reads 1 (suc n) p (eat c p)
unfolding eat
eat-Reads n c p = elim (Option-cases (peek p)) [
  | inl end ↦ rw (end, eat) (fail-Reads _ 1 (suc n) p _)
  | inr (b, there) ↦ elim (Bool-cases (eqb b c)) [
    | inl same ↦
        rw (there, same, eat)
          (Reads-bump 0 n p b (ok (tt, bump p)) there (Reaches-refl (bump p), omega arith))
    | inr other ↦ rw (there, other, eat) (fail-Reads _ 1 (suc n) p _)
  ]
]

-- What a scan takes and where it leaves the position.
pub scan-Reaches :
    (test : ℕ → Bool) (rest : Str) (here : Pos)
    → (rest ≡ (scan test rest here).0 ++ (scan test rest here).1.rest)
      × ((scan test rest here).1.at_pos ≡ advance (scan test rest here).0 here)
unfolding scan cons_scanned advance
scan-Reaches test [] here = (refl, refl)
scan-Reaches test (b ∷ rest) here = elim (Bool-cases (test b)) [
  | inl passes ↦
      let (text, place) = scan-Reaches test rest (moved b here) in
      rw (passes, scan, cons_scanned, advance) (ap (λ t. b ∷ t) text, place)
  | inr ends ↦ rw (ends, scan) (refl, refl)
]

line_comment-shorter :
    (b : ℕ) (rest : Str) (here : Pos) → length (line_comment_at (b ∷ rest) here).rest ≤ length rest
unfolding line_comment_at
line_comment-shorter b rest here = elim (Bool-cases (eqb b b'\n')) [
  | inl end ↦ rw (end, line_comment_at) (omega arith)
  | inr more ↦
      rw (more, line_comment_at)
        (omega (
          arith,
          Reaches-le (at rest (moved b here)) (line_comment_at rest (moved b here))
              (line_comment-Reaches rest (moved b here)),
        ))
]

-- What is left starts no trivia.
abbrev Stops : Parser → Type 0
Stops q = (starts_space q.rest ≡ false) × (is_comment q.rest ≡ false)

trivia_loop-Stops :
    (n : ℕ) (rest : Str) (here : Pos) → length rest ≤ n → Stops (trivia_loop n (at rest here))
unfolding trivia_loop starts_space is_comment bump_at
trivia_loop-Stops zero [] here le = (refl, refl)
trivia_loop-Stops zero (b ∷ rest) here le = absurd (omega arith)
trivia_loop-Stops (suc n) [] here le = (refl, refl)
trivia_loop-Stops (suc n) (b ∷ rest) here le = elim (Bool-cases (starts_space (b ∷ rest))) [
  | inl space ↦ rw (space, trivia_loop) (trivia_loop-Stops n rest (moved b here) (omega arith))
  | inr no_space ↦ elim (Bool-cases (is_comment (b ∷ rest))) [
    | inl comment ↦
        let q = line_comment_at (b ∷ rest) here in
        rw (no_space, comment, trivia_loop)
          (trivia_loop-Stops n q.rest q.at_pos (omega (arith, line_comment-shorter b rest here)))
    | inr other ↦ rw (no_space, other, trivia_loop) (no_space, other)
  ]
]

-- The fuel of `skip_trivia` is enough: no trivia is left at its end.
pub skip_trivia-Stops : (p : Parser) → Stops (skip_trivia p)
unfolding skip_trivia
skip_trivia-Stops p = trivia_loop-Stops (length p.rest) p.rest p.at_pos (omega arith)
