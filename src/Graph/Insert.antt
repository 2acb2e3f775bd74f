-- ===== src/Graph/Insert.antt =====
-- `GraphStore::insert` of crates/aa-graph/src/lib.rs: what it adds, when it refuses, and the
-- invariant of the store.
use prolog_forge.Prelude.{
  ℕ, [], none, some, Bool, true, not, ◌||◌, ◌≡◌, ◌≢◌, refl, arith, ◌==◌, ==_iff, nat_eq, list_eq,
  Str, length, elem, set_insert, is_distinct, is_distinct-set_insert, elem-set_insert, map_get,
  map_insert, map_get-map_insert, get_or, if◌then◌else◌, Result, ok, err, Bool-cases, Option-cases,
  inl, inr,
}
use prolog_forge.Graph.Fact.{Fact, fact_eq}
use prolog_forge.Graph.Store.{
  GraphStore, GraphError, arity_mismatch, insert, contains, facts_of, add_to_bucket, new,
}

-- What every insertion keeps: the facts of a bucket have its predicate and the recorded arity, and
-- stand once.
pub record IsValid (s : GraphStore) : Type 0 where
  pub filed : (p : Str) (f : Fact) → elem f (facts_of s p) ≡ true → f.predicate ≡ p
  pub arity_fits :
      (p : Str) (f : Fact)
      → elem f (facts_of s p) ≡ true
      → map_get p s.arities ≡ some (length f.args)
  pub distinct : (p : Str) → is_distinct (facts_of s p) ≡ true

pub contains-eq-elem : (s : GraphStore) (f : Fact) → contains s f ≡ elem f (facts_of s f.predicate)
unfolding contains facts_of elem
contains-eq-elem s f = ground arith

pub insert_refused :
    (f : Fact) (s : GraphStore) (k : ℕ)
    → map_get f.predicate s.arities ≡ some k
    → k ≢ length f.args
    → insert f s ≡ (err (arity_mismatch f.predicate k (length f.args)), s)
unfolding insert
insert_refused f s k h ne = ground arith

pub insert_accepted_old :
    (f : Fact) (s : GraphStore)
    → map_get f.predicate s.arities ≡ some (length f.args)
    → insert f s ≡ add_to_bucket f s
unfolding insert
insert_accepted_old f s h = ground arith

pub insert_accepted_new :
    (f : Fact) (s : GraphStore)
    → map_get f.predicate s.arities ≡ none
    → insert f s
      ≡ add_to_bucket f (record s { arities = map_insert f.predicate (length f.args) s.arities })
unfolding insert
insert_accepted_new f s h = ground arith

facts_of-add :
    (f : Fact) (s : GraphStore) (p : Str)
    → facts_of (add_to_bucket f s).1 p
      ≡ (if f.predicate == p then set_insert f (facts_of s p) else facts_of s p)
unfolding add_to_bucket facts_of
facts_of-add f s p = ground (
  arith,
  map_get-map_insert p f.predicate (set_insert f (get_or (map_get f.predicate s.buckets) []))
      s.buckets,
  ==_iff f.predicate p,
)

-- The store after an insertion that the arity allows: the fact is filed, and its arity recorded.
abbrev After : Fact → GraphStore → GraphStore → Type 0
After f s s' =
    ((p : Str)
      → facts_of s' p ≡ (if f.predicate == p then set_insert f (facts_of s p) else facts_of s p))
    × ((p : Str)
        → map_get p s'.arities
          ≡ (if f.predicate == p then some (length f.args) else map_get p s.arities))

-- The two outcomes of `insert`: a fact whose arity differs from the recorded one is refused and
-- changes nothing; any other is filed, and the result says whether it is new.
pub data Inserted (f : Fact) (s : GraphStore) (r : Result GraphError Bool × GraphStore)
    : Type 0 where
  refused :
      (k : ℕ)
      → map_get f.predicate s.arities ≡ some k
      → k ≢ length f.args
      → r ≡ (err (arity_mismatch f.predicate k (length f.args)), s)
      → Inserted f s r
  filed :
      ((k : ℕ) → map_get f.predicate s.arities ≡ some k → k ≡ length f.args)
      → r.0 ≡ ok (not (contains s f))
      → After f s r.1
      → Inserted f s r

add-result : (f : Fact) (s : GraphStore) → (add_to_bucket f s).0 ≡ ok (not (contains s f))
unfolding add_to_bucket contains elem
add-result f s = ground arith

-- Every insertion has one of the two outcomes: it is refused for its arity and changes nothing, or it
-- files the fact and tells whether it is new.
pub insert-Inserted : (f : Fact) (s : GraphStore) → Inserted f s (insert f s)
insert-Inserted f s = elim (Option-cases (map_get f.predicate s.arities)) [
  | inl none_yet ↦
      let s' : GraphStore = record s {
        arities = map_insert f.predicate (length f.args) s.arities;
      } in
      rw (insert_accepted_new f s none_yet) (
        filed (λ k e. cc) (unfold contains in add-result f s')
          (
            unfold facts_of in facts_of-add f s',
            unfold add_to_bucket in λ p. map_get-map_insert p f.predicate (length f.args) s.arities,
          ))
  | inr (k, known) ↦ elim (Bool-cases (k == length f.args)) [
    | inl fits ↦
        let known' : map_get f.predicate s.arities ≡ some (length f.args) = ground arith in
        rw (insert_accepted_old f s known') (
          filed (λ j e. ground arith) (add-result f s)
            (facts_of-add f s, unfold add_to_bucket in λ p. ground (arith, ==_iff f.predicate p)))
    | inr differs ↦
        let ne : k ≢ length f.args = ground arith in
        refused k known ne (insert_refused f s k known ne)
  ]
]

-- A successful insertion adds the fact and nothing else.
pub contains-insert :
    (f g : Fact) (s : GraphStore) (b : Bool)
    → (insert f s).0 ≡ ok b
    → contains (insert f s).1 g ≡ (f == g || contains s g)
contains-insert f g s b h = elim (insert-Inserted f s) [
  | refused k e ne r ↦ absurd (cc (r, h))
  | filed fits r after ↦
      rw (contains-eq-elem (insert f s).1 g, contains-eq-elem s g, after.0 g.predicate)
        (ground (
          arith,
          elem-set_insert g f (facts_of s g.predicate),
          ==_iff f g,
          ==_iff f.predicate g.predicate,
        ))
]

-- No insertion, refused or not, loses a fact.
pub contains-insert_mono :
    (f g : Fact) (s : GraphStore) → contains s g ≡ true → contains (insert f s).1 g ≡ true
contains-insert_mono f g s h = elim (insert-Inserted f s) [
  | refused k e ne r ↦ rw r h
  | filed fits r after ↦ ground (arith, contains-insert f g s (not (contains s f)) r)
]

-- Every insertion keeps the invariant.
pub insert-IsValid : (f : Fact) (s : GraphStore) → IsValid s → IsValid (insert f s).1
insert-IsValid f s v = elim (insert-Inserted f s) [
  | refused k e ne r ↦ rw r v
  | filed fits r after ↦ record {
    filed = λ p g m. ground (
      arith,
      after.0 p,
      v.filed p g,
      elem-set_insert g f (facts_of s p),
      ==_iff f g,
      ==_iff f.predicate p,
    );
    arity_fits = λ p g m. ground (
      arith,
      after.0 p,
      after.1 p,
      v.arity_fits p g,
      fits (length g.args),
      elem-set_insert g f (facts_of s p),
      ==_iff f g,
      ==_iff f.predicate p,
    );
    distinct =
        λ p. ground (arith, after.0 p, v.distinct p, is_distinct-set_insert f (facts_of s p));
  }
]

-- The empty store has no fact.
pub new-IsValid : IsValid new
unfolding new facts_of elem map_get is_distinct
new-IsValid = record { filed = λ p f m. cc; arity_fits = λ p f m. cc; distinct = λ p. refl }
