-- ===== src/Rules/Loop.antt =====
-- The loop of `evaluate`, crates/aa-rules/src/eval.rs: its rounds, an induction rule over them, and
-- what holds when it ends without an error.
use prolog_forge.Prelude.{
  ℕ, zero, suc, List, [], ◌∷◌, none, some, ◌≡◌, refl, sym, ◌∙◌, subst, inl, inr, Result, ok, err,
  Result-cases,
}
use prolog_forge.Graph.Fact.{Fact}
use prolog_forge.Graph.Store.{GraphStore}
use prolog_forge.Rules.Ast.{Rule}
use prolog_forge.Rules.Eval.{
  EvalStats, EvalError, fire_rules, insert_batch, evaluate_loop, next_round,
}

abbrev pub Outcome : Type 0
Outcome = Result EvalError EvalStats × GraphStore

module _ (rules : List Rule) (fuel : ℕ) (stats : EvalStats) (s : GraphStore) where
  pub round_error :
      (e : EvalError)
      → fire_rules rules s [] ≡ err e
      → evaluate_loop (suc fuel) rules stats s ≡ some (err e, s)
  unfolding evaluate_loop
  round_error e h = rw (h, evaluate_loop)

  pub round_done :
      fire_rules rules s [] ≡ ok []
      → evaluate_loop (suc fuel) rules stats s ≡ some (ok (next_round stats), s)
  unfolding evaluate_loop
  round_done h = rw (h, evaluate_loop)

  module _ (f : Fact) (fs : List Fact) (fired : fire_rules rules s [] ≡ ok (f ∷ fs)) where
    abbrev after_batch : Outcome
    after_batch = insert_batch (f ∷ fs) (next_round stats) s

    pub round_refused :
        (e : EvalError)
        → after_batch.0 ≡ err e
        → evaluate_loop (suc fuel) rules stats s ≡ some (err e, after_batch.1)
    unfolding evaluate_loop
    round_refused e h = rw (fired, h, evaluate_loop)

    pub round_next :
        (stats' : EvalStats)
        → after_batch.0 ≡ ok stats'
        → evaluate_loop (suc fuel) rules stats s ≡ evaluate_loop fuel rules stats' after_batch.1
    unfolding evaluate_loop
    round_next stats' h = rw (fired, h, evaluate_loop)

pub no_fuel :
    (rules : List Rule) (stats : EvalStats) (s : GraphStore)
    → evaluate_loop zero rules stats s ≡ none
unfolding evaluate_loop
no_fuel rules stats s = refl

-- What one round does, by the result of its two halves.
pub data Round (rules : List Rule) (fuel : ℕ) (stats : EvalStats) (s : GraphStore) : Type 0 where
  failed :
      (e : EvalError)
      → evaluate_loop (suc fuel) rules stats s ≡ some (err e, s)
      → Round rules fuel stats s
  saturated :
      fire_rules rules s [] ≡ ok []
      → evaluate_loop (suc fuel) rules stats s ≡ some (ok (next_round stats), s)
      → Round rules fuel stats s
  refused :
      (f : Fact) (fs : List Fact) (e : EvalError)
      → fire_rules rules s [] ≡ ok (f ∷ fs)
      → evaluate_loop (suc fuel) rules stats s
        ≡ some (err e, (insert_batch (f ∷ fs) (next_round stats) s).1)
      → Round rules fuel stats s
  next :
      (f : Fact) (fs : List Fact) (stats' : EvalStats)
      → fire_rules rules s [] ≡ ok (f ∷ fs)
      → (insert_batch (f ∷ fs) (next_round stats) s).0 ≡ ok stats'
      → evaluate_loop (suc fuel) rules stats s
        ≡ evaluate_loop fuel rules stats' (insert_batch (f ∷ fs) (next_round stats) s).1
      → Round rules fuel stats s

module _ (rules : List Rule) (fuel : ℕ) (stats : EvalStats) (s : GraphStore) where
  round_batch : (batch : List Fact) → fire_rules rules s [] ≡ ok batch → Round rules fuel stats s
  round_batch [] fired = saturated fired (round_done rules fuel stats s fired)
  round_batch (f ∷ fs) fired = elim (Result-cases (insert_batch (f ∷ fs) (next_round stats) s).0) [
    | inl (stats', h) ↦ next f fs stats' fired h (round_next rules fuel stats s f fs fired stats' h)
    | inr (e, h) ↦ refused f fs e fired (round_refused rules fuel stats s f fs fired e h)
  ]

  pub round : Round rules fuel stats s
  round = elim (Result-cases (fire_rules rules s [])) [
    | inl (batch, fired) ↦ round_batch batch fired
    | inr (e, h) ↦ failed e (round_error rules fuel stats s e h)
  ]

-- A property of the store that a round keeps holds of the store at the end, whatever the outcome.
pub loop_induction :
    (rules : List Rule) (P : GraphStore → Type 0)
    (keep : (s : GraphStore) (stats : EvalStats) (batch : List Fact)
      → P s
      → fire_rules rules s [] ≡ ok batch
      → P (insert_batch batch stats s).1)
    (fuel : ℕ) (stats : EvalStats) (s : GraphStore) (o : Outcome)
    → P s
    → evaluate_loop fuel rules stats s ≡ some o
    → P o.1
loop_induction rules P keep zero stats s o p h = absurd (cc (no_fuel rules stats s))
loop_induction rules P keep (suc fuel) stats s o p h = elim (round rules fuel stats s) [
  | failed e ends ↦ let same : s ≡ o.1 = cc in subst P same p
  | saturated fired ends ↦ let same : s ≡ o.1 = cc in subst P same p
  | refused f fs e fired ends ↦
      let same : (insert_batch (f ∷ fs) (next_round stats) s).1 ≡ o.1 = cc in
      subst P same (keep s (next_round stats) (f ∷ fs) p fired)
  | next f fs stats' fired done ends ↦
      loop_induction rules P keep fuel stats' (insert_batch (f ∷ fs) (next_round stats) s).1 o
        (keep s (next_round stats) (f ∷ fs) p fired) (sym ends ∙ h)
]

-- When the loop ends without an error, a further round adds nothing.
pub loop_saturated :
    (rules : List Rule) (fuel : ℕ) (stats stats' : EvalStats) (s s' : GraphStore)
    → evaluate_loop fuel rules stats s ≡ some (ok stats', s')
    → fire_rules rules s' [] ≡ ok []
loop_saturated rules zero stats stats' s s' h = absurd (cc (no_fuel rules stats s))
loop_saturated rules (suc fuel) stats stats' s s' h = elim (round rules fuel stats s) [
  | failed e ends ↦ absurd (cc)
  | saturated fired ends ↦
      let same : s ≡ s' = cc in subst (λ t. fire_rules rules t [] ≡ ok []) same fired
  | refused f fs e fired ends ↦ absurd (cc)
  | next f fs stats₁ fired done ends ↦
      loop_saturated rules fuel stats₁ stats' (insert_batch (f ∷ fs) (next_round stats) s).1 s'
        (sym ends ∙ h)
]
