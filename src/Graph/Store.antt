-- ===== src/Graph/Store.antt =====
-- `GraphStore` of crates/aa-graph/src/lib.rs: the facts of each predicate, and its arity.
use prolog_forge.Prelude.{
  ℕ, ◌+◌, List, [], ◌∷◌, ◌++◌, Option, none, some, Bool, false, ◌==◌, nat_eq, list_eq, Str, length,
  elem, set_insert, Map, map_get, map_insert, map_keys, map_values, get_or, if◌then◌else◌, Result,
  ok, err, not,
}
use prolog_forge.Graph.Fact
use prolog_forge.Graph.Fact.{Fact, FactLayer, layer_eq, fact_eq}

pub data GraphError : Type 0 where
  arity_mismatch : (pred : Str) (expected got : ℕ) → GraphError

pub record GraphStore : Type 0 where
  pub buckets : Map Str (List Fact)
  pub arities : Map Str ℕ

unfoldable pub new : GraphStore
new = record { buckets = []; arities = [] }

-- The end of `insert`, when the arity fits: `or_default`, then the insertion into the `IndexSet`,
-- which returns whether the fact is new.
unfoldable pub add_to_bucket : Fact → GraphStore → Result GraphError Bool × GraphStore
add_to_bucket f s =
    let bucket = get_or (map_get f.predicate s.buckets) [] in
    (
      ok (not (elem f bucket)),
      record s { buckets = map_insert f.predicate (set_insert f bucket) s.buckets },
    )

unfoldable pub insert_at : Option ℕ → Fact → GraphStore → Result GraphError Bool × GraphStore
insert_at (some k) f s =
    if k == Fact.arity f
    then add_to_bucket f s
    else (err (arity_mismatch f.predicate k (Fact.arity f)), s)
insert_at none f s =
    add_to_bucket f (record s { arities = map_insert f.predicate (Fact.arity f) s.arities })

unfoldable pub insert : Fact → GraphStore → Result GraphError Bool × GraphStore
unfolding insert_at add_to_bucket Fact.arity
insert f s = insert_at (map_get f.predicate s.arities) f s

unfoldable pub facts_of : GraphStore → Str → List Fact
facts_of s p = get_or (map_get p s.buckets) []

contains_in : Option (List Fact) → Fact → Bool
contains_in none f = false
contains_in (some b) f = elem f b

unfoldable pub contains : GraphStore → Fact → Bool
unfolding contains_in
contains s f = contains_in (map_get f.predicate s.buckets) f

unfoldable pub flatten : List (List Fact) → List Fact
flatten [] = []
flatten (b ∷ bs) = b ++ flatten bs

unfoldable pub all_facts : GraphStore → List Fact
unfolding flatten
all_facts s = flatten (map_values s.buckets)

unfoldable pub sum_lengths : List (List Fact) → ℕ
sum_lengths [] = 0
sum_lengths (b ∷ bs) = length b + sum_lengths bs

unfoldable pub total : GraphStore → ℕ
unfolding sum_lengths
total s = sum_lengths (map_values s.buckets)

unfoldable pub count_in : FactLayer → List Fact → ℕ
count_in l [] = 0
count_in l (f ∷ fs) = (if f.layer == l then 1 else 0) + count_in l fs

unfoldable pub count_layer : FactLayer → GraphStore → ℕ
unfolding count_in
count_layer l s = count_in l (all_facts s)

unfoldable pub arity : GraphStore → Str → Option ℕ
arity s p = map_get p s.arities

unfoldable pub predicates : GraphStore → List Str
predicates s = map_keys s.buckets
