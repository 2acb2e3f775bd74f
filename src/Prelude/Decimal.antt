-- ===== src/Prelude/Decimal.antt =====
-- Decimal numbers: `to_string` and `parse` of a `usize`.
use Prim.Native.Nat.{ℕ, zero, suc, ◌+◌, ◌-◌, ◌*◌, ◌/◌, ◌%◌, ◌^◌, ◌<◌}
use mathlib.Core.Path.{◌≡◌, refl, ap}
use mathlib.Core.Logic.{inl, inr}
use mathlib.Core.Bool.{Bool, true, false, ◌&&◌}
use mathlib.Core.Option.{Option, none, some}
use mathlib.Core.List.{[], ◌∷◌, ◌++◌}
use native.Mathlib.Omega.{arith}
use prolog_forge.Prelude.Tests.{if◌then◌else◌, ltb, leb, eqb, Bool-cases}
use prolog_forge.Prelude.Equality.{Str}

-- The digits of a number below `10 ^ fuel`.
unfoldable pub digits : ℕ → ℕ → Str
digits zero n = []
digits (suc fuel) n =
    let before = digits fuel (n / 10) in
    if ltb n 10 then (48 + n) ∷ [] else before ++ (48 + n % 10) ∷ []

-- `to_string`; a number has at most as many digits as it is large.
unfoldable pub to_decimal : ℕ → Str
to_decimal n = digits (suc n) n

unfoldable pub is_digit : ℕ → Bool
is_digit b = leb 48 b && leb b 57

unfoldable pub all_digits : Str → Bool
all_digits [] = true
all_digits (b ∷ s) = is_digit b && all_digits s

unfoldable pub value_from : ℕ → Str → ℕ
value_from n [] = n
value_from n (b ∷ s) = value_from (n * 10 + (b - 48)) s

unsigned : Str → Option ℕ
unsigned [] = none
unsigned (b ∷ s) =
    if all_digits (b ∷ s) && ltb (value_from 0 (b ∷ s)) (2 ^ 64)
    then some (value_from 0 (b ∷ s))
    else none

-- `parse::<usize>`: a sign `+` may stand first.
unfoldable pub parse_usize : Str → Option ℕ
unfolding unsigned
parse_usize [] = none
parse_usize (b ∷ s) = if eqb b 43 then unsigned s else unsigned (b ∷ s)

value_from-concat :
    (n b : ℕ) (s : Str) → value_from n (s ++ b ∷ []) ≡ value_from n s * 10 + (b - 48)
unfolding value_from
value_from-concat n b [] = refl
value_from-concat n b (c ∷ s) = value_from-concat (n * 10 + (c - 48)) b s

all_digits-concat :
    (b : ℕ) (s : Str) → all_digits s ≡ true → is_digit b ≡ true → all_digits (s ++ b ∷ []) ≡ true
unfolding all_digits
all_digits-concat b [] h k = ground arith
all_digits-concat b (c ∷ s) h k = ground (arith, all_digits-concat b s)

value-digits : (fuel n : ℕ) → n < fuel → value_from 0 (digits fuel n) ≡ n
unfolding digits value_from
value-digits zero n h = absurd (omega arith)
value-digits (suc fuel) n h = elim (Bool-cases (ltb n 10)) [
  | inl small ↦ rw (small, digits) (ground arith)
  | inr large ↦
      let rest = value-digits fuel (n / 10) (ground (arith, large)) in
      rw (large, digits, value_from-concat 0 (48 + n % 10) (digits fuel (n / 10)), rest)
        (omega arith)
]

all_digits-digits : (fuel n : ℕ) → all_digits (digits fuel n) ≡ true
unfolding digits all_digits
all_digits-digits zero n = refl
all_digits-digits (suc fuel) n = elim (Bool-cases (ltb n 10)) [
  | inl small ↦ rw (small, digits) (unfold is_digit in ground arith)
  | inr large ↦
      rw (large, digits)
        (all_digits-concat (48 + n % 10) (digits fuel (n / 10)) (all_digits-digits fuel (n / 10))
          (unfold is_digit in ground arith))
]

concat_open : (b : ℕ) (s : Str) → (c : ℕ) × (t : Str) × (s ++ b ∷ [] ≡ c ∷ t)
concat_open b [] = (b, [], refl)
concat_open b (c ∷ s) = (c, s ++ b ∷ [], refl)

digits_open : (fuel n : ℕ) → (c : ℕ) × (t : Str) × (digits (suc fuel) n ≡ c ∷ t)
unfolding digits
digits_open fuel n = elim (Bool-cases (ltb n 10)) [
  | inl small ↦ rw (small, digits) (48 + n, [], refl)
  | inr large ↦ rw (large, digits) (concat_open (48 + n % 10) (digits fuel (n / 10)))
]

unsigned_lem :
    (c : ℕ) (t : Str) (n : ℕ)
    → n < 2 ^ 64
    → value_from 0 (c ∷ t) ≡ n
    → all_digits (c ∷ t) ≡ true
    → parse_usize (c ∷ t) ≡ some n
unfolding parse_usize unsigned
unsigned_lem c t n h value all =
    let first : eqb c 43 ≡ false = unfold all_digits is_digit in ground (arith, all) in
    let small : ltb (value_from 0 (c ∷ t)) (2 ^ 64) ≡ true = rw value (ground (arith, h)) in
    rw (first, parse_usize, unsigned, all, small) (ap some value)

-- A number is read back from its digits.
pub parse_usize-to_decimal : (n : ℕ) → n < 2 ^ 64 → parse_usize (to_decimal n) ≡ some n
unfolding to_decimal
parse_usize-to_decimal n h =
    let (c, t, open₁) = digits_open n n in
    rw open₁ (
      unsigned_lem c t n h (rw open₁ at (value-digits (suc n) n (omega arith)))
        (rw open₁ at (all_digits-digits (suc n) n)))

pub to_decimal-digits : (n : ℕ) → all_digits (to_decimal n) ≡ true
unfolding to_decimal
to_decimal-digits n = all_digits-digits (suc n) n
