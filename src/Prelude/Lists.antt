-- ===== src/Prelude/Lists.antt =====
-- Lists measured by native numbers, membership, and the tests on lists that the crates use.
use Prim.Native.Nat.{ℕ, zero, suc, ◌+◌}
use mathlib.Core.Path.{◌≡◌, refl, sym, ap, subst, ◌∙◌}
use mathlib.Core.Logic.{◌⊎◌, inl, inr}
use mathlib.Core.Bool.{Bool, true, false, not, ◌&&◌, ◌||◌}
use mathlib.Core.Option.{Option, none, some}
use mathlib.Core.List.{List, [], ◌∷◌, ◌++◌, map}
use native.Mathlib.Omega.{arith}
use prolog_forge.Prelude.Tests.{if◌then◌else◌, Bool-cases}
use prolog_forge.Prelude.Equality.{PartialEq, ◌==◌, ==_iff}

module _ {ℓ} {A : Type ℓ} where
  abbrev pub length : List A → ℕ
  length [] = 0
  length (x ∷ xs) = suc (length xs)

  pub length-append : (xs ys : List A) → length (xs ++ ys) ≡ length xs + length ys
  length-append [] ys = omega arith
  length-append (x ∷ xs) ys = omega (arith, length-append xs ys)

-- Membership with its position kept.
abbrev pub In : {A : Type 0} → A → List A → Type 0
In a [] = ⊥
In a (x ∷ xs) = (a ≡ x) ⊎ In a xs

module _ {A : Type 0} where
  pub In-append_left : (a : A) (xs ys : List A) → In a xs → In a (xs ++ ys)
  In-append_left a (x ∷ xs) ys (inl e) = inl e
  In-append_left a (x ∷ xs) ys (inr m) = inr (In-append_left a xs ys m)
  In-append_left a [] ys m = elim m [ ]

  pub In-append_right : (a : A) (xs ys : List A) → In a ys → In a (xs ++ ys)
  In-append_right a [] ys m = m
  In-append_right a (x ∷ xs) ys m = inr (In-append_right a xs ys m)

  pub In-append : (a : A) (xs ys : List A) → In a (xs ++ ys) → In a xs ⊎ In a ys
  In-append a [] ys m = inr m
  In-append a (x ∷ xs) ys (inl e) = inl (inl e)
  In-append a (x ∷ xs) ys (inr m) = elim (In-append a xs ys m) [
    | inl l ↦ inl (inr l)
    | inr r ↦ inr r
  ]

module _ {ℓ} {A : Type ℓ} ⦃e : PartialEq A⦄ where
  unfoldable pub elem : A → List A → Bool
  elem a [] = false
  elem a (x ∷ xs) = x == a || elem a xs

  -- `insert` of an `IndexSet`: what is there stays, what is new goes to the end.
  unfoldable pub set_insert : A → List A → List A
  set_insert a xs = if elem a xs then xs else xs ++ a ∷ []

  pub elem-append : (a : A) (xs ys : List A) → elem a (xs ++ ys) ≡ (elem a xs || elem a ys)
  unfolding elem
  elem-append a [] ys = refl
  elem-append a (x ∷ xs) ys = ground (arith, elem-append a xs ys)

  pub elem-set_insert : (a b : A) (xs : List A) → elem a (set_insert b xs) ≡ (b == a || elem a xs)
  unfolding set_insert elem
  elem-set_insert a b xs = ground (arith, elem-append a xs (b ∷ []), ==_iff b a)

  -- Each element of the list stands once.
  unfoldable pub is_distinct : List A → Bool
  is_distinct [] = true
  is_distinct (x ∷ xs) = not (elem x xs) && is_distinct xs

module _ {A : Type 0} ⦃e : PartialEq A⦄ where
  pub elem→In : (a : A) (xs : List A) → elem a xs ≡ true → In a xs
  unfolding elem
  elem→In a [] h = cc
  elem→In a (x ∷ xs) h = elim (Bool-cases (x == a)) [
    | inl p ↦ inl (sym ((==_iff x a).0 p))
    | inr p ↦ inr (elem→In a xs (rw p at h))
  ]

  pub In→elem : (a : A) (xs : List A) → In a xs → elem a xs ≡ true
  unfolding elem
  In→elem a [] m = elim m [ ]
  In→elem a (x ∷ xs) (inl p) = ground (arith, ==_iff x a)
  In→elem a (x ∷ xs) (inr m) = ground (arith, In→elem a xs m)

module _ {ℓ} {A : Type ℓ} ⦃e : PartialEq A⦄ where
  pub is_distinct-concat :
      (a : A) (xs : List A)
      → is_distinct xs ≡ true
      → elem a xs ≡ false
      → is_distinct (xs ++ a ∷ []) ≡ true
  unfolding is_distinct elem
  is_distinct-concat a [] h k = refl
  is_distinct-concat a (x ∷ xs) h k =
      ground (arith, is_distinct-concat a xs, elem-append x xs (a ∷ []), ==_iff x a, ==_iff a x)

  pub is_distinct-set_insert :
      (a : A) (xs : List A) → is_distinct xs ≡ true → is_distinct (set_insert a xs) ≡ true
  unfolding set_insert
  is_distinct-set_insert a xs h = ground (arith, is_distinct-concat a xs)

  pub length-set_insert :
      (a : A) (xs : List A) → length (set_insert a xs) ≡ length xs + (if elem a xs then 0 else 1)
  unfolding set_insert
  length-set_insert a xs = ground (arith, length-append xs (a ∷ []))

cons_some {ℓ} : {A : Type ℓ} → Option A → List A → List A
cons_some none xs = xs
cons_some (some x) xs = x ∷ xs

unfoldable pub filter_map {ℓ κ} : {A : Type ℓ} {B : Type κ} → (A → Option B) → List A → List B
unfolding cons_some
filter_map f [] = []
filter_map f (x ∷ xs) = cons_some (f x) (filter_map f xs)

module _ {A B : Type 0} (f : A → Option B) where
  In-cons_some :
      (b : B) (o : Option B) (xs : List B) → In b (cons_some o xs) → (o ≡ some b) ⊎ In b xs
  unfolding cons_some
  In-cons_some b none xs m = inr m
  In-cons_some b (some c) xs (inl e) = inl (ap some (sym e))
  In-cons_some b (some c) xs (inr m) = inr m

  In-cons_some_here : (b : B) (o : Option B) (xs : List B) → o ≡ some b → In b (cons_some o xs)
  unfolding cons_some
  In-cons_some_here b none xs e = cc
  In-cons_some_here b (some c) xs e = inl (cc)

  In-cons_some_there : (b : B) (o : Option B) (xs : List B) → In b xs → In b (cons_some o xs)
  unfolding cons_some
  In-cons_some_there b none xs m = m
  In-cons_some_there b (some c) xs m = inr m

  pub In-filter_map :
      (b : B) (xs : List A) → In b (filter_map f xs) → (a : A) × In a xs × (f a ≡ some b)
  unfolding filter_map
  In-filter_map b [] m = elim m [ ]
  In-filter_map b (x ∷ xs) m = elim (In-cons_some b (f x) (filter_map f xs) m) [
    | inl e ↦ (x, inl refl, e)
    | inr r ↦ let (a, h, e) = In-filter_map b xs r in (a, inr h, e)
  ]

  pub In-filter_map_of :
      (a : A) (b : B) (xs : List A) → In a xs → f a ≡ some b → In b (filter_map f xs)
  unfolding filter_map
  In-filter_map_of a b [] m e = elim m [ ]
  In-filter_map_of a b (x ∷ xs) (inl same) e =
      In-cons_some_here b (f x) (filter_map f xs) (ap f (sym same) ∙ e)
  In-filter_map_of a b (x ∷ xs) (inr r) e =
      In-cons_some_there b (f x) (filter_map f xs) (In-filter_map_of a b xs r e)

-- A property of every element.
abbrev pub All {ℓ} : {A : Type ℓ} → (A → Type 0) → List A → Type 0
All P [] = Unit
All P (x ∷ xs) = P x × All P xs

pub All-In : {A : Type 0} (P : A → Type 0) (xs : List A) → ((a : A) → In a xs → P a) → All P xs
All-In P [] h = tt
All-In P (x ∷ xs) h = (h x (inl refl), All-In P xs (λ a m. h a (inr m)))

pub All-append :
    {A : Type 0} (P : A → Type 0) (xs ys : List A) → All P xs → All P ys → All P (xs ++ ys)
All-append P [] ys h k = k
All-append P (x ∷ xs) ys (h, hs) k = (h, All-append P xs ys hs k)

pub In-All : {A : Type 0} (P : A → Type 0) (a : A) (xs : List A) → All P xs → In a xs → P a
In-All P a [] h m = elim m [ ]
In-All P a (x ∷ xs) h (inl same) = subst P (sym same) h.0
In-All P a (x ∷ xs) h (inr m) = In-All P a xs h.1 m

abbrev pub get_elem? {ℓ} : {A : Type ℓ} → List A → ℕ → Option A
get_elem? [] i = none
get_elem? (x ∷ xs) zero = some x
get_elem? (x ∷ xs) (suc i) = get_elem? xs i

pub In-map : {A B : Type 0} (f : A → B) (a : A) (xs : List A) → In a xs → In (f a) (map f xs)
In-map f a [] m = elim m [ ]
In-map f a (x ∷ xs) (inl same) = inl (ap f same)
In-map f a (x ∷ xs) (inr m) = inr (In-map f a xs m)
