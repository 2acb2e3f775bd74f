-- ===== src/Rules/Model.antt =====
-- The meaning of a Datalog program, apart from the evaluator: the facts that follow from a store by
-- the rules.
use prolog_forge.Prelude.{
  List, [], ◌∷◌, true, ◌≡◌, refl, nat_eq, list_eq, Str, map_get, In, Option-cases, inl, inr, ok,
  >>=-eq-ok,
}
use prolog_forge.Graph.Fact.{Fact, FactLayer}
use prolog_forge.Graph.Store.{GraphStore, contains}
use prolog_forge.Graph.Unify.{Binding}
use prolog_forge.Rules.Ast.{Term, const, var, Atom, Rule}
use prolog_forge.Rules.Eval.{instantiate_args, instantiate_head, bound_or_err}
use prolog_forge.Rules.Body.{ArgsHold}

-- `f` is the head under the binding, as an inferred fact.
abbrev pub IsHead : Binding → Atom → Fact → Type 0
IsHead σ head f =
    (f.predicate ≡ head.predicate) × (f.layer ≡ FactLayer.inferred) × ArgsHold σ head.args f.args

mutual
  -- A fact follows if it is given, or if it is the head of a rule under a binding under which each
  -- atom of the body is a fact that follows, of whatever layer.
  pub data Derives (rules : List Rule) (base : GraphStore) : Fact → Type 0 where
    given : (f : Fact) → contains base f ≡ true → Derives rules base f
    fired :
        (r : Rule) (σ : Binding) (f : Fact)
        → In r rules
        → DerivesBody rules base σ r.body
        → IsHead σ r.head f
        → Derives rules base f

  pub data DerivesBody (rules : List Rule) (base : GraphStore) : Binding → List Atom → Type 0 where
    done : (σ : Binding) → DerivesBody rules base σ []
    holds :
        (σ : Binding) (a : Atom) (body : List Atom) (g : Fact)
        → g.predicate ≡ a.predicate
        → ArgsHold σ a.args g.args
        → Derives rules base g
        → DerivesBody rules base σ body
        → DerivesBody rules base σ (a ∷ body)

-- The arguments under a binding are one list.
pub ArgsHold-unique :
    (ts : List Term) (σ : Binding) (as' bs : List Str)
    → ArgsHold σ ts as'
    → ArgsHold σ ts bs
    → as' ≡ bs
ArgsHold-unique [] σ [] [] h k = refl
ArgsHold-unique [] σ [] (b ∷ bs) h k = absurd k
ArgsHold-unique [] σ (a ∷ as') bs h k = absurd h
ArgsHold-unique (const c ∷ ts) σ [] bs h k = absurd h
ArgsHold-unique (var v ∷ ts) σ [] bs h k = absurd h
ArgsHold-unique (const c ∷ ts) σ (a ∷ as') [] h k = absurd k
ArgsHold-unique (var v ∷ ts) σ (a ∷ as') [] h k = absurd k
ArgsHold-unique (const c ∷ ts) σ (a ∷ as') (b ∷ bs) h k =
    cc (h.0, k.0, ArgsHold-unique ts σ as' bs h.1 k.1)
ArgsHold-unique (var v ∷ ts) σ (a ∷ as') (b ∷ bs) h k =
    cc (h.0, k.0, ArgsHold-unique ts σ as' bs h.1 k.1)

instantiate_args_sound :
    (ts : List Term) (b : Binding) (args : List Str)
    → instantiate_args ts b ≡ ok args
    → ArgsHold b ts args
unfolding instantiate_args
instantiate_args_sound [] b [] h = tt
instantiate_args_sound [] b (a ∷ args) h = cc
instantiate_args_sound (const c ∷ ts) b args h =
    let (rest, e, k) = >>=-eq-ok (instantiate_args ts b) (λ rest. ok (c ∷ rest)) h in
    let same : args ≡ c ∷ rest = cc in rw same (refl, instantiate_args_sound ts b rest e)
instantiate_args_sound (var v ∷ ts) b args h = elim (Option-cases (map_get v b)) [
  | inl unbound ↦ absurd (cc (rw (unbound, bound_or_err) at h))
  | inr (val, bound) ↦
      let h' = rw (bound, bound_or_err) at h in
      let (rest, e, k) = >>=-eq-ok (instantiate_args ts b) (λ rest. ok (val ∷ rest)) h' in
      let same : args ≡ val ∷ rest = cc in rw same (bound, instantiate_args_sound ts b rest e)
]

pub instantiate_head_sound :
    (head : Atom) (b : Binding) (f : Fact) → instantiate_head head b ≡ ok f → IsHead b head f
unfolding instantiate_head
instantiate_head_sound head b f h =
    let (args, e, k) =
      >>=-eq-ok (instantiate_args head.args b)
        (λ args.
          ok (record { predicate = head.predicate; args = args; layer = FactLayer.inferred }))
        h in
    let same : f ≡ record { predicate = head.predicate; args = args; layer = FactLayer.inferred } =
      cc in
    rw same (refl, refl, instantiate_args_sound head.args b args e)
