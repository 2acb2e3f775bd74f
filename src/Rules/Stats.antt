-- ===== src/Rules/Stats.antt =====
-- `EvalStats` of crates/aa-rules/src/eval.rs, against the growth of the store.
use prolog_forge.Prelude.{
  ℕ, zero, suc, ◌+◌, List, [], ◌∷◌, some, ◌≡◌, refl, sym, ◌∙◌, arith, inl, inr, ok,
}
use prolog_forge.Graph.Fact.{Fact}
use prolog_forge.Graph.Store.{GraphStore, insert, total}
use prolog_forge.Graph.Counts.{total-insert}
use prolog_forge.Rules.Ast.{Rule}
use prolog_forge.Rules.Eval.{
  EvalStats, add_derived, insert_batch, evaluate_loop, evaluate, no_stats, next_round,
}
use prolog_forge.Rules.Batch.{insert-result, insert_batch_ok, insert_batch_err}
use prolog_forge.Rules.Loop.{failed, saturated, refused, next, round, no_fuel}

insert_batch_nil : (stats : EvalStats) (s : GraphStore) → insert_batch [] stats s ≡ (ok stats, s)
unfolding insert_batch
insert_batch_nil stats s = refl

derived_insert_batch :
    (fs : List Fact) (stats stats' : EvalStats) (s : GraphStore)
    → (insert_batch fs stats s).0 ≡ ok stats'
    → total (insert_batch fs stats s).1 + stats.derived ≡ total s + stats'.derived
unfolding add_derived
derived_insert_batch [] stats stats' s h =
    let same : stats ≡ stats' = cc (insert_batch_nil stats s) in rw (insert_batch_nil stats s, same)
derived_insert_batch (f ∷ fs) stats stats' s h = elim (insert-result f s) [
  | inl (b, done) ↦
      let rest =
        derived_insert_batch fs (add_derived b stats) stats' (insert f s).1
          (rw (insert_batch_ok f fs stats s b done) at h) in
      rw (insert_batch_ok f fs stats s b done) (ground (arith, rest, total-insert f s b done))
  | inr (e, refusal, same) ↦ absurd (cc (rw (insert_batch_err f fs stats s e refusal) at h))
]

derived_loop :
    (fuel : ℕ) (rules : List Rule) (stats stats' : EvalStats) (s t : GraphStore)
    → evaluate_loop fuel rules stats s ≡ some (ok stats', t)
    → total t + stats.derived ≡ total s + stats'.derived
derived_loop zero rules stats stats' s t h = absurd (cc (no_fuel rules stats s))
derived_loop (suc fuel) rules stats stats' s t h = elim (round rules fuel stats s) [
  | failed e ends ↦ absurd (cc)
  | saturated fired ends ↦
      let same : s ≡ t = cc in let same' : next_round stats ≡ stats' = cc in rw (← same, ← same')
  | refused f fs e fired ends ↦ absurd (cc)
  | next f fs stats₁ fired done ends ↦ omega (
    arith,
    derived_insert_batch (f ∷ fs) (next_round stats) stats₁ s done,
    derived_loop fuel rules stats₁ stats' (insert_batch (f ∷ fs) (next_round stats) s).1 t
        (sym ends ∙ h),
  )
]

-- After a run that succeeds, `derived` is by how much the store has grown.
pub evaluate_derived :
    (fuel : ℕ) (rules : List Rule) (s t : GraphStore) (stats : EvalStats)
    → evaluate fuel rules s ≡ some (ok stats, t)
    → total t ≡ total s + stats.derived
unfolding evaluate
evaluate_derived fuel rules s t stats h =
    omega (arith, derived_loop fuel rules no_stats stats s t h)
