-- ===== src/Prelude/Maps.antt =====
-- A Rust map (`HashMap`, `IndexMap`) as an association list in insertion order. A `HashMap` has no
-- order that a program may rely on; this one is the order of the first insertions.
use mathlib.Core.Path.{◌≡◌, refl, subst}
use mathlib.Core.Logic.{inl, inr}
use mathlib.Core.Bool.{Bool}
use mathlib.Core.Option.{Option, none, some}
use mathlib.Core.List.{List, [], ◌∷◌}
use native.Mathlib.Omega.{arith}
use prolog_forge.Prelude.Tests.{if◌then◌else◌, Bool-cases, is_some}
use prolog_forge.Prelude.Equality.{PartialEq, ◌==◌, ==_iff}

abbrev pub Map {ℓ κ} : Type ℓ → Type κ → Type (ℓ ⊔ κ)
Map K V = List (K × V)

module _ {ℓ κ} {K : Type ℓ} {V : Type κ} ⦃e : PartialEq K⦄ where
  unfoldable pub map_get : K → Map K V → Option V
  map_get k [] = none
  map_get k ((j, v) ∷ m) = if j == k then some v else map_get k m

  -- An insertion over a key that is there keeps its place.
  unfoldable pub map_insert : K → V → Map K V → Map K V
  map_insert k v [] = (k, v) ∷ []
  map_insert k v ((j, w) ∷ m) = if j == k then (j, v) ∷ m else (j, w) ∷ map_insert k v m

  unfoldable pub map_remove : K → Map K V → Map K V
  map_remove k [] = []
  map_remove k ((j, w) ∷ m) = let rest = map_remove k m in if j == k then rest else (j, w) ∷ rest

  abbrev pub contains_key : K → Map K V → Bool
  contains_key k m = is_some (map_get k m)

  pub map_get-map_insert :
      (j k : K) (v : V) (m : Map K V)
      → map_get j (map_insert k v m) ≡ (if k == j then some v else map_get j m)
  unfolding map_get map_insert
  map_get-map_insert j k v [] = refl
  map_get-map_insert j k v ((i, w) ∷ m) =
      ground (arith, ==_iff k j, ==_iff i k, ==_iff i j, map_get-map_insert j k v m)

  pub map_get-map_remove :
      (j k : K) (m : Map K V) → map_get j (map_remove k m) ≡ (if k == j then none else map_get j m)
  unfolding map_get map_remove
  map_get-map_remove j k [] = ground arith
  map_get-map_remove j k ((i, w) ∷ m) =
      ground (arith, ==_iff k j, ==_iff i k, ==_iff i j, map_get-map_remove j k m)

module _ {ℓ κ} {K : Type ℓ} {V : Type κ} where
  unfoldable pub map_keys : Map K V → List K
  map_keys [] = []
  map_keys ((k, v) ∷ m) = k ∷ map_keys m

  unfoldable pub map_values : Map K V → List V
  map_values [] = []
  map_values ((k, v) ∷ m) = v ∷ map_values m

-- A property of every entry.
abbrev pub AllEntries {ℓ κ} : {K : Type ℓ} {V : Type κ} → (K → V → Type 0) → Map K V → Type 0
AllEntries P [] = Unit
AllEntries P ((k, v) ∷ m) = P k v × AllEntries P m

-- `m` has every binding of `b`.
abbrev pub Extends {ℓ κ} :
    {K : Type ℓ} {V : Type κ} ⦃e : PartialEq K⦄ → Map K V → Map K V → Type (ℓ ⊔ κ)
Extends {K} {V} m b = (k : K) (v : V) → map_get k b ≡ some v → map_get k m ≡ some v

module _ {ℓ κ} {K : Type ℓ} {V : Type κ} ⦃e : PartialEq K⦄ (P : K → V → Type 0) where
  pub AllEntries-map_insert :
      (k : K) (v : V) (m : Map K V) → P k v → AllEntries P m → AllEntries P (map_insert k v m)
  unfolding map_insert
  AllEntries-map_insert k v [] h all = (h, tt)
  AllEntries-map_insert k v ((j, w) ∷ m) h all = elim (Bool-cases (j == k)) [
    | inl same ↦ rw same (rw ((==_iff j k).0 same) h, all.1)
    | inr other ↦ rw other (all.0, AllEntries-map_insert k v m h all.1)
  ]

  pub AllEntries-map_get :
      (k : K) (v : V) (m : Map K V) → AllEntries P m → map_get k m ≡ some v → P k v
  unfolding map_get
  AllEntries-map_get k v [] all h = cc
  AllEntries-map_get k v ((j, w) ∷ m) all h = elim (Bool-cases (j == k)) [
    | inl same ↦
        let e₁ : j ≡ k = (==_iff j k).0 same in
        let e₂ : w ≡ v = ground arith in subst (λ x. P x v) e₁ (subst (λ x. P j x) e₂ all.0)
    | inr other ↦ AllEntries-map_get k v m all.1 (rw other at h)
  ]
