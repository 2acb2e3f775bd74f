-- ===== src/Graph/Tests.antt =====
-- The knowledge graph on small inputs.
use prolog_forge.Prelude.{
  List, [], ◌∷◌, none, some, true, false, ◌≡◌, refl, nat_eq, list_eq, list_beq, bytes, map_get,
  map_insert, elem, set_insert, ok, err,
}
use prolog_forge.Graph.Fact.{Fact, FactLayer, fact_eq, fact_beq, layer_beq}
use prolog_forge.Graph.Store.{GraphStore, new, insert, arity_mismatch}
use prolog_forge.Graph.Insert.{Inserted, insert-Inserted}
use prolog_forge.Graph.Unify.{Term, atom, var, Binding, unify}
use prolog_forge.Graph.Match.{Instance}

abbrev alice_bob : Fact
alice_bob = record {
  predicate = bytes "parent";
  args = bytes "alice" ∷ bytes "bob" ∷ [];
  layer = FactLayer.observed;
}

abbrev bob_carol : Fact
bob_carol = record {
  predicate = bytes "parent";
  args = bytes "bob" ∷ bytes "carol" ∷ [];
  layer = FactLayer.observed;
}

abbrev one_arg : Fact
one_arg = record { predicate = bytes "parent"; args = bytes "a" ∷ []; layer = FactLayer.observed }

abbrev family : GraphStore
family = (insert bob_carol (insert alice_bob new).1).1

insert_twice : (insert alice_bob family).0 ≡ ok false
unfolding insert new map_get map_insert set_insert elem list_beq fact_beq layer_beq
insert_twice = refl

insert_mismatch : (insert one_arg family).0 ≡ err (arity_mismatch (bytes "parent") 2 1)
unfolding insert new map_get map_insert set_insert elem list_beq fact_beq layer_beq
insert_mismatch = refl

insert-Inserted_example : Inserted one_arg family (insert one_arg family)
insert-Inserted_example = insert-Inserted one_arg family

insert_fresh : (insert bob_carol (insert alice_bob new).1).0 ≡ ok true
unfolding insert new map_get map_insert set_insert elem list_beq fact_beq layer_beq
insert_fresh = refl

abbrev pattern_terms : List Term
pattern_terms = var (bytes "X") ∷ atom (bytes "bob") ∷ []

abbrev x_alice : Binding
x_alice = (bytes "X", bytes "alice") ∷ []

unify_runs : unify pattern_terms alice_bob.args ≡ some x_alice
unfolding unify map_get map_insert list_beq
unify_runs = refl

unify_repeated : unify (var (bytes "X") ∷ var (bytes "X") ∷ []) alice_bob.args ≡ none
unfolding unify map_get map_insert list_beq
unify_repeated = refl

x_is_alice : Instance x_alice pattern_terms alice_bob.args
unfolding map_get list_beq
x_is_alice = (refl, (refl, tt))
