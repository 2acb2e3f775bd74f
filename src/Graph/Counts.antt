-- ===== src/Graph/Counts.antt =====
-- `total` and `all_facts` of crates/aa-graph/src/lib.rs, and how an insertion moves them.
use prolog_forge.Prelude.{
  ◌+◌, List, [], ◌∷◌, Bool, not, ◌≡◌, refl, arith, nat_eq, list_eq, Str, length, length-append,
  length-set_insert, set_insert, Map, map_get, map_insert, map_values, get_or, if◌then◌else◌, ok,
}
use prolog_forge.Graph.Fact.{Fact, fact_eq}
use prolog_forge.Graph.Store.{
  GraphStore, insert, contains, facts_of, total, sum_lengths, all_facts, flatten,
}
use prolog_forge.Graph.Insert.{refused, filed, insert-Inserted, contains-eq-elem}

length-flatten : (bs : List (List Fact)) → length (flatten bs) ≡ sum_lengths bs
unfolding flatten sum_lengths
length-flatten [] = refl
length-flatten (b ∷ bs) = ground (arith, length-append b (flatten bs), length-flatten bs)

pub total-eq-length : (s : GraphStore) → total s ≡ length (all_facts s)
unfolding total all_facts
total-eq-length s = omega (arith, length-flatten (map_values s.buckets))

sum_lengths-map_insert :
    (p : Str) (b : List Fact) (m : Map Str (List Fact))
    → sum_lengths (map_values (map_insert p b m)) + length (get_or (map_get p m) [])
      ≡ sum_lengths (map_values m) + length b
unfolding sum_lengths map_values map_insert map_get
sum_lengths-map_insert p b [] = omega arith
sum_lengths-map_insert p b ((q, c) ∷ m) = ground (arith, sum_lengths-map_insert p b m)

insert_buckets :
    (f : Fact) (s : GraphStore) (b : Bool)
    → (insert f s).0 ≡ ok b
    → (insert f s).1.buckets
      ≡ map_insert f.predicate (set_insert f (facts_of s f.predicate)) s.buckets
unfolding insert facts_of
insert_buckets f s b h = ground arith

-- A successful insertion moves the total by one exactly when it says that the fact is new.
pub total-insert :
    (f : Fact) (s : GraphStore) (b : Bool)
    → (insert f s).0 ≡ ok b
    → (b ≡ not (contains s f)) × (total (insert f s).1 ≡ total s + (if b then 1 else 0))
total-insert f s b h = elim (insert-Inserted f s) [
  | refused k e ne r ↦ absurd (cc (r, h))
  | filed fits r after ↦ (
    cc,
    unfold total facts_of in
        ground (
          arith,
          contains-eq-elem s f,
          insert_buckets f s b h,
          length-set_insert f (facts_of s f.predicate),
          sum_lengths-map_insert f.predicate (set_insert f (facts_of s f.predicate)) s.buckets,
        ),
  )
]
