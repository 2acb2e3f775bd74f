-- ===== src/Rules/Parser/Reads.antt =====
-- How far a function of the parser goes: what it consumed, and where that leaves the position.
use prolog_forge.Prelude.{
  ℕ, ◌+◌, ◌≤◌, [], ◌∷◌, ◌++◌, Bool, true, false, ◌≡◌, refl, ap, if◌then◌else◌, Str, length,
  length-append, append_assoc, ok, err, ◌>>=◌, arith,
}
use prolog_forge.Rules.Lexer.{Pos, Parser, Parsed, parse_error, out_of_fuel, moved}

-- The position after some bytes.
unfoldable pub advance : Str → Pos → Pos
advance [] here = here
advance (b ∷ s) here = advance s (moved b here)

pub advance-append : (s t : Str) (here : Pos) → advance (s ++ t) here ≡ advance t (advance s here)
unfolding advance
advance-append [] t here = refl
advance-append (b ∷ s) t here = advance-append s t (moved b here)

-- `q` is `p` after some of its bytes.
abbrev pub Reaches : Parser → Parser → Type 0
Reaches p q = (used : Str) × (p.rest ≡ used ++ q.rest) × (q.at_pos ≡ advance used p.at_pos)

pub Reaches-refl : (p : Parser) → Reaches p p
unfolding advance
Reaches-refl p = ([], refl, refl)

pub Reaches-trans : (p q r : Parser) → Reaches p q → Reaches q r → Reaches p r
Reaches-trans p q r (s, text, place) (t, text', place') = (
  s ++ t,
  rw (append_assoc s t r.rest, ← text') text,
  rw (advance-append s t p.at_pos, ← place) place',
)

pub Reaches-le : (p q : Parser) → Reaches p q → length q.rest ≤ length p.rest
Reaches-le p q (s, text, place) = omega (arith, ap length text, length-append s q.rest)

-- A result of a function that started at `p`: a success is at least `m` bytes on, an error carries the
-- line and the column of a position on the way, and the fuel runs out only on `n` bytes or more.
abbrev pub Reads : {A : Type 0} → ℕ → ℕ → Parser → Parsed A → Type 0
Reads m n p (ok (v, q)) = Reaches p q × (m + length q.rest ≤ length p.rest)
Reads m n p (err (parse_error e)) =
    (q : Parser) × Reaches p q × (e.line ≡ q.at_pos.line) × (e.col ≡ q.at_pos.col)
Reads m n p (err out_of_fuel) = n ≤ length p.rest

module _ {A : Type 0} where
  -- The function starts at `q`, some bytes after `p`.
  pub Reads-after :
      (d m n M N : ℕ) (p q : Parser) (r : Parsed A)
      → Reaches p q
      → d + length q.rest ≤ length p.rest
      → M ≤ d + m
      → N ≤ d + n
      → Reads m n q r
      → Reads M N p r
  Reads-after d m n M N p q (ok (v, t)) way far le le' (reach, on) =
      (Reaches-trans p q t way reach, omega arith)
  Reads-after d m n M N p q (err (parse_error e)) way far le le' (t, reach, line, col) =
      (t, Reaches-trans p q t way reach, line, col)
  Reads-after d m n M N p q (err out_of_fuel) way far le le' on = omega arith

  pub Reads-weaken : (m k n : ℕ) (p : Parser) (r : Parsed A) → k ≤ m → Reads m n p r → Reads k n p r
  Reads-weaken m k n p (ok (v, q)) le (reach, on) = (reach, omega arith)
  Reads-weaken m k n p (err (parse_error e)) le h = h
  Reads-weaken m k n p (err out_of_fuel) le h = h

  pub Reads-if :
      (m n : ℕ) (p : Parser) (test : Bool) (r t : Parsed A)
      → Reads m n p r
      → Reads m n p t
      → Reads m n p (if test then r else t)
  Reads-if m n p true r t h k = h
  Reads-if m n p false r t h k = k

module _ {A B : Type 0} where
  pub Reads-bind :
      (m n k l M N : ℕ) (p : Parser) (r : Parsed A) (next : A × Parser → Parsed B)
      → M ≤ m + k
      → N ≤ n
      → N ≤ m + l
      → Reads m n p r
      → ((v : A) (q : Parser) → Reads k l q (next (v, q)))
      → Reads M N p (r >>= next)
  Reads-bind m n k l M N p (ok (v, q)) next le le₁ le₂ (reach, on) then' =
      Reads-after m k l M N p q (next (v, q)) reach on le le₂ (then' v q)
  Reads-bind m n k l M N p (err (parse_error e)) next le le₁ le₂ h then' = h
  Reads-bind m n k l M N p (err out_of_fuel) next le le₁ le₂ h then' = omega arith
