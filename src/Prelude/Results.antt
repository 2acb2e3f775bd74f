-- ===== src/Prelude/Results.antt =====
-- `Result` of Rust: its two cases, `?` as a bind, and what a successful bind says of its parts.
use mathlib.Core.Path.{◌≡◌, refl}
use mathlib.Core.Logic.{◌⊎◌, inl, inr}

pub data Result {ℓ κ} (Failure : Type ℓ) (Value : Type κ) : Type (ℓ ⊔ κ) where
  ok : Value → Result Failure Value
  err : Failure → Result Failure Value

module _ {ℓ κ} {F : Type ℓ} {V : Type κ} where
  pub Result-cases : (r : Result F V) → ((v : V) × (r ≡ ok v)) ⊎ ((e : F) × (r ≡ err e))
  Result-cases (ok v) = inl (v, refl)
  Result-cases (err e) = inr (e, refl)

module _ {ℓ κ μ} {F : Type ℓ} {V : Type κ} {W : Type μ} where
  infixl 5 ◌>>=◌
  abbrev pub ◌>>=◌ : Result F V → (V → Result F W) → Result F W
  (err failure) >>= next = err failure
  (ok value) >>= next = next value

  module _ {w : W} where
    pub >>=-eq-ok :
        (r : Result F V) (next : V → Result F W)
        → (r >>= next) ≡ ok w
        → (v : V) × (r ≡ ok v) × (next v ≡ ok w)
    >>=-eq-ok (err failure) next worked = cc
    >>=-eq-ok (ok value) next worked = (value, refl, worked)
