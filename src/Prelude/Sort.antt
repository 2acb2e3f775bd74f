-- ===== src/Prelude/Sort.antt =====
-- `sort_by`, which is stable, and the lexicographic order of byte strings and of lists of them.
use mathlib.Core.Path.{◌≡◌, refl}
use mathlib.Core.Logic.{◌⊎◌, inl, inr}
use mathlib.Core.Bool.{Bool, true, false, ◌&&◌, ◌||◌}
use mathlib.Core.List.{List, [], ◌∷◌}
use mathlib.Core.Option.{some}
use native.Mathlib.Omega.{arith}
use prolog_forge.Prelude.Tests.{if◌then◌else◌, ltb, eqb, Bool-cases}
use prolog_forge.Prelude.Equality.{Str, nat_eq, list_eq, ◌==◌, ==_iff}
use prolog_forge.Prelude.Lists.{In}
use prolog_forge.Prelude.Maps.{Map, map_get}

module _ {A : Type 0} (le : A → A → Bool) where
  unfoldable pub insert_sorted : A → List A → List A
  insert_sorted x [] = x ∷ []
  insert_sorted x (y ∷ ys) =
      let rest = insert_sorted x ys in if le x y then x ∷ y ∷ ys else y ∷ rest

  unfoldable pub sort_by : List A → List A
  sort_by [] = []
  sort_by (x ∷ xs) = insert_sorted x (sort_by xs)

  In-insert_sorted : (a x : A) (ys : List A) → In a (insert_sorted x ys) → (a ≡ x) ⊎ In a ys
  unfolding insert_sorted
  In-insert_sorted a x [] m = m
  In-insert_sorted a x (y ∷ ys) m = elim (Bool-cases (le x y)) [
    | inl lower ↦ rw (lower, insert_sorted) at m
    | inr higher ↦ split (In-insert_sorted a x ys) (rw (higher, insert_sorted) at m)
  ]
    where
      split :
          (In a (insert_sorted x ys) → (a ≡ x) ⊎ In a ys)
          → (a ≡ y) ⊎ In a (insert_sorted x ys)
          → (a ≡ x) ⊎ In a (y ∷ ys)
      split ih (inl same) = inr (inl same)
      split ih (inr n) = elim (ih n) [ inl same ↦ inl same | inr old ↦ inr (inr old) ]

  pub In-sort_by : (a : A) (xs : List A) → In a (sort_by xs) → In a xs
  unfolding sort_by
  In-sort_by a [] m = m
  In-sort_by a (x ∷ xs) m = elim (In-insert_sorted a x (sort_by xs) m) [
    | inl same ↦ inl same
    | inr old ↦ inr (In-sort_by a xs old)
  ]

  In-insert_sorted_old : (a x : A) (ys : List A) → (a ≡ x) ⊎ In a ys → In a (insert_sorted x ys)
  unfolding insert_sorted
  In-insert_sorted_old a x [] m = m
  In-insert_sorted_old a x (y ∷ ys) m = elim (Bool-cases (le x y)) [
    | inl lower ↦ rw (lower, insert_sorted) m
    | inr higher ↦ rw (higher, insert_sorted) (split (In-insert_sorted_old a x ys) m)
  ]
    where
      split :
          ((a ≡ x) ⊎ In a ys → In a (insert_sorted x ys))
          → (a ≡ x) ⊎ In a (y ∷ ys)
          → (a ≡ y) ⊎ In a (insert_sorted x ys)
      split ih (inl same) = inr (ih (inl same))
      split ih (inr (inl same)) = inl same
      split ih (inr (inr n)) = inr (ih (inr n))

  pub In-sort_by_of : (a : A) (xs : List A) → In a xs → In a (sort_by xs)
  unfolding sort_by
  In-sort_by_of a [] m = m
  In-sort_by_of a (x ∷ xs) (inl same) = In-insert_sorted_old a x (sort_by xs) (inl same)
  In-sort_by_of a (x ∷ xs) (inr m) =
      In-insert_sorted_old a x (sort_by xs) (inr (In-sort_by_of a xs m))

-- `str::cmp` and the `cmp` of vectors of texts, as the test that the first is not greater.
unfoldable pub str_le : Str → Str → Bool
str_le [] t = true
str_le (b ∷ s) [] = false
str_le (b ∷ s) (c ∷ t) = ltb b c || (eqb b c && str_le s t)

-- `insert` of a `BTreeMap` by its texts, as an association list in their order.
unfoldable pub btree_insert {ℓ} : {V : Type ℓ} → Str → V → Map Str V → Map Str V
btree_insert k v [] = (k, v) ∷ []
btree_insert k v ((j, w) ∷ m) =
    let rest = btree_insert k v m in
    if j == k then (j, v) ∷ m else if str_le k j then (k, v) ∷ (j, w) ∷ m else (j, w) ∷ rest

pub map_get-btree_insert {ℓ} :
    {V : Type ℓ} (j k : Str) (v : V) (m : Map Str V)
    → map_get j (btree_insert k v m) ≡ (if k == j then some v else map_get j m)
unfolding map_get btree_insert
map_get-btree_insert j k v [] = refl
map_get-btree_insert j k v ((i, w) ∷ m) =
    ground (arith, ==_iff k j, ==_iff i k, ==_iff i j, map_get-btree_insert j k v m)

unfoldable pub strs_le : List Str → List Str → Bool
unfolding str_le
strs_le [] t = true
strs_le (a ∷ s) [] = false
strs_le (a ∷ s) (b ∷ t) = if a == b then strs_le s t else str_le a b
