-- ===== src/Graph/Match.antt =====
-- `unify` of crates/aa-graph/src/lib.rs, against the instances of a pattern.
use prolog_forge.Prelude.{
  List, [], ◌∷◌, Option, some, ◌≡◌, refl, sym, ◌∙◌, arith, ==_iff, nat_eq, list_eq, Str, length,
  map_get, map_insert, map_get-map_insert, AllEntries, Extends, AllEntries-map_insert,
  AllEntries-map_get, Option-cases, inl, inr,
}
use prolog_forge.Graph.Unify.{Term, atom, var, Binding, unify_term, unify_args, unify}

-- The atom that a term stands for under a binding.
abbrev pub subst_term : Binding → Term → Option Str
subst_term b (atom x) = some x
subst_term b (var v) = map_get v b

-- Under the binding, the terms stand for the atoms, one by one.
abbrev pub Instance : Binding → List Term → List Str → Type 0
Instance b [] [] = Unit
Instance b (t ∷ ts) (a ∷ as') = (subst_term b t ≡ some a) × Instance b ts as'
Instance b _ _ = ⊥

-- Each entry of the second binding holds in the first.
abbrev pub Agrees : Binding → Binding → Type 0
Agrees σ b = AllEntries (λ k v. map_get k σ ≡ some v) b

pub subst_term-Extends :
    (t : Term) (b b' : Binding) (a : Str)
    → Extends b' b
    → subst_term b t ≡ some a
    → subst_term b' t ≡ some a
subst_term-Extends (atom x) b b' a ext h = h
subst_term-Extends (var v) b b' a ext h = ext v a h

pub Instance-Extends :
    (ts : List Term) (as' : List Str) (b b' : Binding)
    → Extends b' b
    → Instance b ts as'
    → Instance b' ts as'
Instance-Extends [] [] b b' ext h = tt
Instance-Extends (t ∷ ts) (a ∷ as') b b' ext h =
    (subst_term-Extends t b b' a ext h.0, Instance-Extends ts as' b b' ext h.1)
Instance-Extends [] (a ∷ as') b b' ext h = h
Instance-Extends (t ∷ ts) [] b b' ext h = h

unify_term_sound :
    (t : Term) (a : Str) (b b' : Binding)
    → unify_term t a b ≡ some b'
    → Extends b' b × (subst_term b' t ≡ some a)
unfolding unify_term
unify_term_sound (atom x) a b b' h = (λ k v e. ground arith, ground (arith, ==_iff x a))
unify_term_sound (var n) a b b' h = elim (Option-cases (map_get n b)) [
  | inl fresh ↦
      let e : b' ≡ map_insert n a b = ground arith in
      (
        λ k v g. rw e (ground (arith, map_get-map_insert k n a b, ==_iff n k)),
        rw e (ground (arith, map_get-map_insert n n a b, ==_iff n n)),
      )
  | inr (prev, known) ↦ (λ k v e. ground arith, ground (arith, ==_iff prev a))
]

unify_args_sound :
    (ts : List Term) (as' : List Str) (b b' : Binding)
    → unify_args ts as' b ≡ some b'
    → Extends b' b × (length ts ≡ length as' → Instance b' ts as')
unfolding unify_args
unify_args_sound [] [] b b' h = (λ k v e. ground arith, λ _. tt)
unify_args_sound [] (a ∷ as') b b' h = (λ k v e. ground arith, λ e. absurd (omega arith))
unify_args_sound (t ∷ ts) [] b b' h = (λ k v e. ground arith, λ e. absurd (omega arith))
unify_args_sound (t ∷ ts) (a ∷ as') b b' h = elim (Option-cases (unify_term t a b)) [
  | inl none_yet ↦ absurd (cc)
  | inr (b₁, step) ↦
      let first = unify_term_sound t a b b₁ step in
      let rest = unify_args_sound ts as' b₁ b' (ground arith) in
      (
        λ k v e. rest.0 k v (first.0 k v e),
        λ e. (subst_term-Extends t b₁ b' a rest.0 first.1, rest.1 (omega arith)),
      )
]

unify_term_complete :
    (t : Term) (a : Str) (b σ : Binding)
    → Agrees σ b
    → subst_term σ t ≡ some a
    → (b' : Binding) × (unify_term t a b ≡ some b') × Agrees σ b'
unfolding unify_term
unify_term_complete (atom x) a b σ ag h = (b, ground (arith, ==_iff x a), ag)
unify_term_complete (var n) a b σ ag h = elim (Option-cases (map_get n b)) [
  | inl fresh ↦ (
    map_insert n a b,
    ground arith,
    AllEntries-map_insert (λ k v. map_get k σ ≡ some v) n a b h ag,
  )
  | inr (prev, known) ↦
      let same : some prev ≡ some a =
        sym (AllEntries-map_get (λ k v. map_get k σ ≡ some v) n prev b ag known) ∙ h in
      (b, ground (arith, ==_iff prev a), ag)
]

unify_args_complete :
    (ts : List Term) (as' : List Str) (b σ : Binding)
    → Agrees σ b
    → Instance σ ts as'
    → (b' : Binding) × (unify_args ts as' b ≡ some b') × Agrees σ b'
unfolding unify_args
unify_args_complete [] [] b σ ag h = (b, refl, ag)
unify_args_complete [] (a ∷ as') b σ ag h = absurd h
unify_args_complete (t ∷ ts) [] b σ ag h = absurd h
unify_args_complete (t ∷ ts) (a ∷ as') b σ ag h =
    let (b₁, step, ag₁) = unify_term_complete t a b σ ag h.0 in
    let (b', rest, ag') = unify_args_complete ts as' b₁ σ ag₁ h.1 in (b', ground arith, ag')

length-Instance :
    (ts : List Term) (as' : List Str) (σ : Binding) → Instance σ ts as' → length ts ≡ length as'
length-Instance [] [] σ h = refl
length-Instance [] (a ∷ as') σ h = absurd h
length-Instance (t ∷ ts) [] σ h = absurd h
length-Instance (t ∷ ts) (a ∷ as') σ h = omega (arith, length-Instance ts as' σ h.1)

-- What `unify` returns is a matching binding.
pub unify_sound :
    (ts : List Term) (as' : List Str) (b : Binding) → unify ts as' ≡ some b → Instance b ts as'
unfolding unify
unify_sound ts as' b h = (unify_args_sound ts as' [] b (ground arith)).1 (ground arith)

-- Where some binding matches, `unify` returns one, and with no entry but that binding's.
pub unify_complete :
    (ts : List Term) (as' : List Str) (σ : Binding)
    → Instance σ ts as'
    → (b : Binding) × (unify ts as' ≡ some b) × Agrees σ b
unfolding unify
unify_complete ts as' σ h =
    let (b, step, ag) = unify_args_complete ts as' [] σ tt h in
    (b, ground (arith, length-Instance ts as' σ h), ag)
