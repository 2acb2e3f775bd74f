-- ===== src/Rules/Least.antt =====
-- The store of `evaluate`, crates/aa-rules/src/eval.rs, against the facts that follow by the
-- rules.
use prolog_forge.Prelude.{
  ℕ, List, [], some, true, ◌≡◌, ◌↔◌, sym, ◌∙◌, ap, subst, arith, elem, elem→In, In, inl, inr, ok,
  nat_eq, list_eq, map_get, Extends, AllEntries-map_get,
}
use prolog_forge.Graph.Fact.{Fact, fact_eq}
use prolog_forge.Graph.Store.{GraphStore, contains, facts_of}
use prolog_forge.Graph.Insert.{IsValid, contains-eq-elem}
use prolog_forge.Graph.Unify.{Binding}
use prolog_forge.Rules.Ast.{Atom, Rule}
use prolog_forge.Rules.Eval.{
  EvalStats, fire_rules, evaluate, no_stats, solve_body, instantiate_head,
}
use prolog_forge.Rules.Body.{Satisfies, ArgsHold-Extends}
use prolog_forge.Rules.Solve.{solve_body_complete}
use prolog_forge.Rules.Model.{
  Derives, DerivesBody, given, fired, done, holds, IsHead, instantiate_head_sound, ArgsHold-unique,
}
use prolog_forge.Rules.Fire.{fire_rules_complete}
use prolog_forge.Rules.Batch.{insert_batch_mono}
use prolog_forge.Rules.Loop.{Outcome, loop_induction, loop_saturated}
use prolog_forge.Rules.Sound.{evaluate_sound}

-- In a store to which a further round adds nothing, every head under a binding that satisfies the body
-- is that of a listed binding.
pub listed-head :
    (rules : List Rule) (t : GraphStore)
    → fire_rules rules t [] ≡ ok []
    → (r : Rule) (σ : Binding) (f : Fact) → In r rules
    → Satisfies t σ r.body
    → IsHead σ r.head f
    → (b : Binding) × In b (solve_body r.body t)
      × (instantiate_head r.head b ≡ ok f)
      × (contains t f ≡ true)
unfolding elem
listed-head rules t closed r σ f mem sat (same, layer, args) =
    let (b, listed, ag) = solve_body_complete r.body t σ sat in
    let (g, made, place) = fire_rules_complete rules t [] [] r b closed mem listed in
    let (same', layer', args') = instantiate_head_sound r.head b g made in
    let ext : Extends σ b = λ k v e. AllEntries-map_get (λ k v. map_get k σ ≡ some v) k v b ag e in
    let eq : f.args ≡ g.args =
      ArgsHold-unique r.head.args σ f.args g.args args
        (ArgsHold-Extends r.head.args g.args b σ ext args') in
    let whole : g ≡ f = ground arith in
    (
      b,
      listed,
      made ∙ ap ok whole,
      elim place [
        | inl old ↦ subst (λ x. contains t x ≡ true) whole old
        | inr new ↦ absurd (cc new)
      ],
    )

module _ (rules : List Rule) (base t : GraphStore) (closed : fire_rules rules t [] ≡ ok [])
    (grows : (f : Fact) → contains base f ≡ true → contains t f ≡ true) where
  mutual
    pub Derives-contained : (f : Fact) → Derives rules base f → contains t f ≡ true
    Derives-contained f (given _ h) = grows f h
    Derives-contained f (fired r σ _ mem body head) =
        (listed-head rules t closed r σ f mem (DerivesBody-Satisfies σ r.body body) head).3

    pub DerivesBody-Satisfies :
        (σ : Binding) (body : List Atom) → DerivesBody rules base σ body → Satisfies t σ body
    DerivesBody-Satisfies σ _ (done _) = tt
    DerivesBody-Satisfies σ _ (holds _ a body g same args d rest) =
        let there : elem g (facts_of t a.predicate) ≡ true =
          subst (λ q. elem g (facts_of t q) ≡ true) same
            (sym (contains-eq-elem t g) ∙ Derives-contained g d) in
        ((g, elem→In g (facts_of t a.predicate) there, args), DerivesBody-Satisfies σ body rest)

-- No run loses a fact.
pub evaluate_mono :
    (fuel : ℕ) (rules : List Rule) (s : GraphStore) (o : Outcome) (f : Fact)
    → evaluate fuel rules s ≡ some o
    → contains s f ≡ true
    → contains o.1 f ≡ true
unfolding evaluate
evaluate_mono fuel rules s o f h m =
    loop_induction rules (λ t. contains t f ≡ true)
      (λ t stats batch p _. insert_batch_mono batch stats t f p) fuel no_stats s o m h

-- After a run that succeeds, a further round adds nothing.
pub evaluate_closed :
    (fuel : ℕ) (rules : List Rule) (s t : GraphStore) (stats : EvalStats)
    → evaluate fuel rules s ≡ some (ok stats, t)
    → fire_rules rules t [] ≡ ok []
unfolding evaluate
evaluate_closed fuel rules s t stats h = loop_saturated rules fuel no_stats stats s t h

pub evaluate_body :
    (fuel : ℕ) (rules : List Rule) (s t : GraphStore) (stats : EvalStats)
    → evaluate fuel rules s ≡ some (ok stats, t)
    → (σ : Binding) (body : List Atom) → DerivesBody rules s σ body
    → Satisfies t σ body
evaluate_body fuel rules s t stats h =
    DerivesBody-Satisfies rules s t (evaluate_closed fuel rules s t stats h)
      (λ g. evaluate_mono fuel rules s (ok stats, t) g h)

-- After a run that succeeds, the store holds exactly the facts that follow from the valid store at
-- the start by the rules.
pub evaluate_least :
    (fuel : ℕ) (rules : List Rule) (s t : GraphStore) (stats : EvalStats) (f : Fact)
    → IsValid s
    → evaluate fuel rules s ≡ some (ok stats, t)
    → (contains t f ≡ true) ↔ Derives rules s f
evaluate_least fuel rules s t stats f v h = (
  (evaluate_sound fuel rules s (ok stats, t) v h).1 f,
  Derives-contained rules s t (evaluate_closed fuel rules s t stats h)
      (λ g. evaluate_mono fuel rules s (ok stats, t) g h) f,
)
