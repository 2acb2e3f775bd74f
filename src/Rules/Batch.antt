-- ===== src/Rules/Batch.antt =====
-- The second half of a round of `evaluate`, crates/aa-rules/src/eval.rs: the batch goes into the store,
-- until an insertion is refused.
use prolog_forge.Prelude.{
  List, [], ◌∷◌, Bool, true, ◌≡◌, arith, ◌==◌, ==_iff, elem, Bool-cases, ◌⊎◌, inl, inr, ok, err,
  not, length,
}
use prolog_forge.Graph.Fact.{Fact, fact_eq}
use prolog_forge.Graph.Store.{GraphStore, GraphError, arity_mismatch, contains, insert}
use prolog_forge.Graph.Insert.{
  IsValid, insert-IsValid, contains-insert, contains-insert_mono, insert-Inserted, refused, filed,
}
use prolog_forge.Rules.Eval.{EvalStats, insert_batch, add_derived, graph}

-- The two cases of one round of the insertion loop.
pub insert_batch_ok :
    (f : Fact) (fs : List Fact) (stats : EvalStats) (s : GraphStore) (b : Bool)
    → (insert f s).0 ≡ ok b
    → insert_batch (f ∷ fs) stats s ≡ insert_batch fs (add_derived b stats) (insert f s).1
unfolding insert_batch
insert_batch_ok f fs stats s b h = rw (h, insert_batch)

pub insert_batch_err :
    (f : Fact) (fs : List Fact) (stats : EvalStats) (s : GraphStore) (e : GraphError)
    → (insert f s).0 ≡ err e
    → insert_batch (f ∷ fs) stats s ≡ (err (graph e), (insert f s).1)
unfolding insert_batch
insert_batch_err f fs stats s e h = rw (h, insert_batch)

-- The result of an insertion, split.
pub insert-result :
    (f : Fact) (s : GraphStore)
    → ((b : Bool) × ((insert f s).0 ≡ ok b))
      ⊎ ((e : GraphError) × ((insert f s).0 ≡ err e) × ((insert f s).1 ≡ s))
insert-result f s = elim (insert-Inserted f s) [
  | refused k known ne r ↦ inr (arity_mismatch f.predicate k (length f.args), cc r, cc r)
  | filed fits r after ↦ inl (not (contains s f), r)
]

-- Whatever the outcome, the store has then only facts it had and facts of the batch.
pub insert_batch_sound :
    (fs : List Fact) (stats : EvalStats) (s : GraphStore) (g : Fact)
    → contains (insert_batch fs stats s).1 g ≡ true
    → (contains s g ≡ true) ⊎ (elem g fs ≡ true)
unfolding elem
insert_batch_sound [] stats s g h = inl (unfold insert_batch in h)
insert_batch_sound (f ∷ fs) stats s g h = elim (insert-result f s) [
  | inl (b, done) ↦
      elim (insert_batch_sound fs (add_derived b stats) (insert f s).1 g
        (rw (insert_batch_ok f fs stats s b done) at h)) [
          | inl before ↦ elim (Bool-cases (f == g)) [
            | inl same ↦ inr (rw same)
            | inr other ↦ inl (ground (arith, contains-insert f g s b done))
          ]
          | inr later ↦ inr (ground arith)
        ]
  | inr (e, failed, same) ↦ inl (rw same at (rw (insert_batch_err f fs stats s e failed) at h))
]

pub insert_batch-IsValid :
    (fs : List Fact) (stats : EvalStats) (s : GraphStore)
    → IsValid s
    → IsValid (insert_batch fs stats s).1
insert_batch-IsValid [] stats s v = unfold insert_batch in v
insert_batch-IsValid (f ∷ fs) stats s v = elim (insert-result f s) [
  | inl (b, done) ↦
      rw (insert_batch_ok f fs stats s b done)
        (insert_batch-IsValid fs (add_derived b stats) (insert f s).1 (insert-IsValid f s v))
  | inr (e, failed, same) ↦ rw (insert_batch_err f fs stats s e failed) (insert-IsValid f s v)
]

-- The insertions lose no fact.
pub insert_batch_mono :
    (fs : List Fact) (stats : EvalStats) (s : GraphStore) (g : Fact)
    → contains s g ≡ true
    → contains (insert_batch fs stats s).1 g ≡ true
insert_batch_mono [] stats s g h = unfold insert_batch in h
insert_batch_mono (f ∷ fs) stats s g h = elim (insert-result f s) [
  | inl (b, done) ↦
      rw (insert_batch_ok f fs stats s b done)
        (insert_batch_mono fs (add_derived b stats) (insert f s).1 g (contains-insert_mono f g s h))
  | inr (e, failed, same) ↦
      rw (insert_batch_err f fs stats s e failed) (contains-insert_mono f g s h)
]

-- Without an error the first fact of the batch is in.
pub insert_batch_first :
    (f : Fact) (fs : List Fact) (stats stats' : EvalStats) (s : GraphStore)
    → (insert_batch (f ∷ fs) stats s).0 ≡ ok stats'
    → contains (insert_batch (f ∷ fs) stats s).1 f ≡ true
insert_batch_first f fs stats stats' s h = elim (insert-result f s) [
  | inl (b, done) ↦ rw (insert_batch_ok f fs stats s b done) (
      insert_batch_mono fs (add_derived b stats) (insert f s).1 f
        (ground (arith, contains-insert f f s b done, ==_iff f f)))
  | inr (e, failed, same) ↦ absurd (cc (rw (insert_batch_err f fs stats s e failed) at h))
]
