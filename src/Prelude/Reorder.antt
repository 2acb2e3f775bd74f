-- ===== src/Prelude/Reorder.antt =====
-- Lists with the same elements, each as often, in another order.
use mathlib.Core.Path.{◌≡◌, refl, ap, ◌∙◌}
use mathlib.Core.Logic.{inl, inr}
use mathlib.Core.Bool.{false, ◌||◌}
use mathlib.Core.Option.{Option}
use mathlib.Core.List.{List, [], ◌∷◌, ◌++◌, map}
use native.Mathlib.Omega.{arith}
use prolog_forge.Prelude.Tests.{Bool-cases, Option-cases}
use prolog_forge.Prelude.Equality.{Str, nat_eq, list_eq, ◌==◌, ==_iff}
use prolog_forge.Prelude.Lists.{length, In, elem, is_distinct, filter_map}
use prolog_forge.Prelude.Maps.{Map, map_keys}
use prolog_forge.Prelude.Sort.{str_le, btree_insert}

pub data Reordered {A : Type 0} : List A → List A → Type 0 where
  empty : Reordered [] []
  keep : (x : A) {xs ys : List A} → Reordered xs ys → Reordered (x ∷ xs) (x ∷ ys)
  swap : (x y : A) (xs : List A) → Reordered (x ∷ y ∷ xs) (y ∷ x ∷ xs)
  chain :
      {xs : List A} (ys : List A) {zs : List A}
      → Reordered xs ys
      → Reordered ys zs
      → Reordered xs zs

module _ {A : Type 0} where
  pub Reordered-same : (xs : List A) → Reordered xs xs
  Reordered-same [] = empty
  Reordered-same (x ∷ xs) = keep x (Reordered-same xs)

  pub Reordered-back : {xs ys : List A} → Reordered xs ys → Reordered ys xs
  Reordered-back empty = empty
  Reordered-back (keep x r) = keep x (Reordered-back r)
  Reordered-back (swap x y xs) = swap y x xs
  Reordered-back (chain ys r s) = chain ys (Reordered-back s) (Reordered-back r)

  pub Reordered-In : {xs ys : List A} (a : A) → Reordered xs ys → In a xs → In a ys
  Reordered-In a empty m = m
  Reordered-In a (keep x r) (inl same) = inl same
  Reordered-In a (keep x r) (inr m) = inr (Reordered-In a r m)
  Reordered-In a (swap x y xs) (inl same) = inr (inl same)
  Reordered-In a (swap x y xs) (inr (inl same)) = inl same
  Reordered-In a (swap x y xs) (inr (inr m)) = inr (inr m)
  Reordered-In a (chain ys r s) m = Reordered-In a s (Reordered-In a r m)

  pub Reordered-length : {xs ys : List A} → Reordered xs ys → length xs ≡ length ys
  Reordered-length empty = refl
  Reordered-length (keep x r) = omega (arith, Reordered-length r)
  Reordered-length (swap x y xs) = refl
  Reordered-length (chain ys r s) = Reordered-length r ∙ Reordered-length s

  pub Reordered-middle : (x : A) (xs ys : List A) → Reordered (xs ++ x ∷ ys) (x ∷ (xs ++ ys))
  Reordered-middle x [] ys = Reordered-same (x ∷ ys)
  Reordered-middle x (y ∷ xs) ys =
      chain (y ∷ x ∷ (xs ++ ys)) (keep y (Reordered-middle x xs ys)) (swap y x (xs ++ ys))

  pub Reordered-append :
      (xs : List A) {ys zs : List A} → Reordered ys zs → Reordered (xs ++ ys) (xs ++ zs)
  Reordered-append [] r = r
  Reordered-append (x ∷ xs) r = keep x (Reordered-append xs r)

module _ {A B : Type 0} where
  pub Reordered-map :
      (f : A → B) {xs ys : List A} → Reordered xs ys → Reordered (map f xs) (map f ys)
  Reordered-map f empty = empty
  Reordered-map f (keep x r) = keep (f x) (Reordered-map f r)
  Reordered-map f (swap x y xs) = swap (f x) (f y) (map f xs)
  Reordered-map f (chain ys r s) = chain (map f ys) (Reordered-map f r) (Reordered-map f s)

  pub Reordered-filter_map :
      (f : A → Option B) {xs ys : List A}
      → Reordered xs ys
      → Reordered (filter_map f xs) (filter_map f ys)
  unfolding filter_map
  Reordered-filter_map f empty = empty
  Reordered-filter_map f (keep x r) = elim (Option-cases (f x)) [
    | inl out ↦ rw (out, filter_map) (Reordered-filter_map f r)
    | inr (b, in') ↦ rw (in', filter_map) (keep b (Reordered-filter_map f r))
  ]
  Reordered-filter_map f (swap x y xs) = elim (Option-cases (f x)) [
    | inl out ↦ rw (out, filter_map) (Reordered-same (filter_map f (y ∷ xs)))
    | inr (b, in') ↦ elim (Option-cases (f y)) [
      | inl out ↦ rw (in', out, filter_map) (Reordered-same (b ∷ filter_map f xs))
      | inr (c, too) ↦ rw (in', too, filter_map) (swap b c (filter_map f xs))
    ]
  ]
  Reordered-filter_map f (chain ys r s) =
      chain (filter_map f ys) (Reordered-filter_map f r) (Reordered-filter_map f s)

pub Reordered-elem : {xs ys : List Str} (a : Str) → Reordered xs ys → elem a xs ≡ elem a ys
unfolding elem
Reordered-elem a empty = refl
Reordered-elem a (keep x r) = ap (λ b. x == a || b) (Reordered-elem a r)
Reordered-elem a (swap x y xs) = ground arith
Reordered-elem a (chain ys r s) = Reordered-elem a r ∙ Reordered-elem a s

pub Reordered-is_distinct : {xs ys : List Str} → Reordered xs ys → is_distinct xs ≡ is_distinct ys
unfolding is_distinct elem
Reordered-is_distinct empty = refl
Reordered-is_distinct (keep x r) = rw (Reordered-elem x r, Reordered-is_distinct r) refl
Reordered-is_distinct (swap x y xs) = ground (arith, ==_iff x y, ==_iff y x)
Reordered-is_distinct (chain ys r s) = Reordered-is_distinct r ∙ Reordered-is_distinct s

-- A key that is new to the map comes to some place of it.
pub Reordered-btree_insert :
    {V : Type 0} (k : Str) (v : V) (m : Map Str V)
    → elem k (map_keys m) ≡ false
    → Reordered (btree_insert k v m) ((k, v) ∷ m)
unfolding btree_insert map_keys elem
Reordered-btree_insert k v [] h = keep (k, v) empty
Reordered-btree_insert k v ((j, w) ∷ m) h =
    let other : (j == k) ≡ false = ground arith in
    elim (Bool-cases (str_le k j)) [
      | inl before ↦ rw (other, before) (Reordered-same ((k, v) ∷ (j, w) ∷ m))
      | inr later ↦
          rw (other, later)
            (chain ((j, w) ∷ (k, v) ∷ m) (keep (j, w) (Reordered-btree_insert k v m (ground arith)))
              (swap (j, w) (k, v) m))
    ]
