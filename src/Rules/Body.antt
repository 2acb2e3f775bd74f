-- ===== src/Rules/Body.antt =====
-- `solve_body` of crates/aa-rules/src/eval.rs, one atom of the body at a time.
use prolog_forge.Prelude.{
  List, [], ◌∷◌, Option, some, ◌≡◌, refl, sym, ◌∙◌, arith, ==_iff, ==_self, nat_eq, list_eq, Str,
  map_get, map_insert, map_get-map_insert, Extends, AllEntries-map_insert, AllEntries-map_get,
  Option-cases, inl, inr, In,
}
use prolog_forge.Graph.Fact.{Fact, fact_eq}
use prolog_forge.Graph.Store.{GraphStore, facts_of}
use prolog_forge.Graph.Unify.{Binding}
use prolog_forge.Graph.Match.{Agrees, Instance}
use prolog_forge.Rules.Ast.{Term, const, var, Atom}
use prolog_forge.Rules.Eval.{merge, merge_entry, to_pattern_args}

-- The atom that a rule's term stands for.
abbrev pub term_value : Binding → Term → Option Str
term_value σ (const c) = some c
term_value σ (var v) = map_get v σ

abbrev pub ArgsHold : Binding → List Term → List Str → Type 0
ArgsHold σ [] [] = Unit
ArgsHold σ (t ∷ ts) (a ∷ as') = (term_value σ t ≡ some a) × ArgsHold σ ts as'
ArgsHold σ _ _ = ⊥

-- Under the binding, some fact of the store has the atom's predicate and arguments.
abbrev pub AtomHolds : GraphStore → Binding → Atom → Type 0
AtomHolds s σ a = (f : Fact) × In f (facts_of s a.predicate) × ArgsHold σ a.args f.args

abbrev pub Satisfies : GraphStore → Binding → List Atom → Type 0
Satisfies s σ [] = Unit
Satisfies s σ (a ∷ body) = AtomHolds s σ a × Satisfies s σ body

pub Extends-trans : (a b c : Binding) → Extends b a → Extends c b → Extends c a
Extends-trans a b c ab bc k v h = bc k v (ab k v h)

pub ArgsHold-Extends :
    (ts : List Term) (as' : List Str) (b b' : Binding)
    → Extends b' b
    → ArgsHold b ts as'
    → ArgsHold b' ts as'
ArgsHold-Extends [] [] b b' ext h = tt
ArgsHold-Extends (const c ∷ ts) (a ∷ as') b b' ext h = (h.0, ArgsHold-Extends ts as' b b' ext h.1)
ArgsHold-Extends (var v ∷ ts) (a ∷ as') b b' ext h =
    (ext v a h.0, ArgsHold-Extends ts as' b b' ext h.1)
ArgsHold-Extends [] (a ∷ as') b b' ext h = h
ArgsHold-Extends (t ∷ ts) [] b b' ext h = h

pub Satisfies-Extends :
    (s : GraphStore) (body : List Atom) (b b' : Binding)
    → Extends b' b
    → Satisfies s b body
    → Satisfies s b' body
Satisfies-Extends s [] b b' ext h = tt
Satisfies-Extends s (a ∷ body) b b' ext h =
    let (f, m, args) = h.0 in
    ((f, m, ArgsHold-Extends a.args f.args b b' ext args), Satisfies-Extends s body b b' ext h.1)

merge_entry_sound :
    (k v : Str) (out out₁ : Binding)
    → merge_entry (map_get k out) k v out ≡ some out₁
    → Extends out₁ out × (map_get k out₁ ≡ some v)
unfolding merge_entry
merge_entry_sound k v out out₁ h = elim (Option-cases (map_get k out)) [
  | inl fresh ↦
      let e : out₁ ≡ map_insert k v out = ground arith in
      (
        λ j w g. rw e (ground (arith, map_get-map_insert j k v out, ==_iff k j)),
        rw e (ground (arith, map_get-map_insert k k v out, ==_self k)),
      )
  | inr (prev, known) ↦ (λ j w e. ground arith, ground (arith, ==_iff prev v))
]

-- A successful merge has the entries of both.
pub merge_sound :
    (add out out' : Binding) → merge out add ≡ some out' → Extends out' out × Extends out' add
unfolding merge map_get
merge_sound [] out out' h = (λ k v e. ground arith, λ k v e. cc)
merge_sound ((k, v) ∷ add) out out' h = elim (Option-cases (merge_entry (map_get k out) k v out)) [
  | inl none_yet ↦ absurd (cc)
  | inr (out₁, step) ↦
      let rest = merge_sound add out₁ out' (ground arith) in
      let first = merge_entry_sound k v out out₁ step in
      (
        Extends-trans out out₁ out' first.0 rest.0,
        λ j w e. ground (arith, ==_iff k j, rest.1 j w, rest.0 k v first.1),
      )
]

pub merge_complete :
    (add out σ : Binding)
    → Agrees σ out
    → Agrees σ add
    → (out' : Binding) × (merge out add ≡ some out') × Agrees σ out'
unfolding merge merge_entry
merge_complete [] out σ ho ha = (out, refl, ho)
merge_complete ((k, v) ∷ add) out σ ho ha = elim (Option-cases (map_get k out)) [
  | inl fresh ↦
      let (out', step, h) =
        merge_complete add (map_insert k v out) σ
          (AllEntries-map_insert (λ k v. map_get k σ ≡ some v) k v out ha.0 ho) ha.1 in
      (out', ground arith, h)
  | inr (prev, known) ↦
      let same : some prev ≡ some v =
        sym (AllEntries-map_get (λ k v. map_get k σ ≡ some v) k prev out ho known) ∙ ha.0 in
      let (out', step, h) = merge_complete add out σ ho ha.1 in
      (out', ground (arith, ==_iff prev v), h)
]

-- The pattern under a binding, read back under a larger one, is the atom under that.
pub pattern-Instance :
    (ts : List Term) (as' : List Str) (b σ : Binding)
    → Extends σ b
    → ArgsHold σ ts as'
    → Instance σ (to_pattern_args ts b) as'
unfolding to_pattern_args
pattern-Instance [] [] b σ ext h = tt
pattern-Instance (const c ∷ ts) (a ∷ as') b σ ext h = (h.0, pattern-Instance ts as' b σ ext h.1)
pattern-Instance (var v ∷ ts) (a ∷ as') b σ ext h = elim (Option-cases (map_get v b)) [
  | inl fresh ↦ rw fresh (h.0, pattern-Instance ts as' b σ ext h.1)
  | inr (val, known) ↦ rw known (sym (ext v val known) ∙ h.0, pattern-Instance ts as' b σ ext h.1)
]
pattern-Instance [] (a ∷ as') b σ ext h = h
pattern-Instance (const c ∷ ts) [] b σ ext h = h
pattern-Instance (var v ∷ ts) [] b σ ext h = h

pub pattern-ArgsHold :
    (ts : List Term) (as' : List Str) (b m b' : Binding)
    → Extends b' b
    → Extends b' m
    → Instance m (to_pattern_args ts b) as'
    → ArgsHold b' ts as'
unfolding to_pattern_args
pattern-ArgsHold [] [] b m b' eb em h = tt
pattern-ArgsHold (const c ∷ ts) (a ∷ as') b m b' eb em h =
    (h.0, pattern-ArgsHold ts as' b m b' eb em h.1)
pattern-ArgsHold (var v ∷ ts) (a ∷ as') b m b' eb em h = elim (Option-cases (map_get v b)) [
  | inl fresh ↦ let h' = rw fresh at h in (em v a h'.0, pattern-ArgsHold ts as' b m b' eb em h'.1)
  | inr (val, known) ↦
      let h' = rw known at h in (eb v val known ∙ h'.0, pattern-ArgsHold ts as' b m b' eb em h'.1)
]
pattern-ArgsHold [] (a ∷ as') b m b' eb em h = h
pattern-ArgsHold (const c ∷ ts) [] b m b' eb em h = h
pattern-ArgsHold (var v ∷ ts) [] b m b' eb em h = h
