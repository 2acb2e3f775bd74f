-- ===== src/Graph/Unify.antt =====
-- `Term`, `Pattern` and `unify` of crates/aa-graph/src/lib.rs.
use prolog_forge.Prelude.{
  List, [], ◌∷◌, Option, none, some, ◌==◌, nat_eq, list_eq, Str, length, Map, map_get, map_insert,
  filter_map, if◌then◌else◌,
}
use prolog_forge.Graph.Fact.{Fact}
use prolog_forge.Graph.Store.{GraphStore, facts_of}

pub data Term : Type 0 where
  atom : Str → Term
  var : Str → Term

pub record Pattern : Type 0 where
  pub predicate : Str
  pub args : List Term

abbrev pub Binding : Type 0
Binding = Map Str Str

-- One round of the loop of `unify`.
unfoldable pub bind_var : Option Str → Str → Str → Binding → Option Binding
bind_var (some prev) name a bind = if prev == a then some bind else none
bind_var none name a bind = some (map_insert name a bind)

unfoldable pub unify_term : Term → Str → Binding → Option Binding
unfolding bind_var
unify_term (atom x) a bind = if x == a then some bind else none
unify_term (var name) a bind = bind_var (map_get name bind) name a bind

-- The loop over the zipped lists, from the bindings so far.
unfoldable pub unify_args : List Term → List Str → Binding → Option Binding
unify_args (t ∷ ts) (a ∷ as') bind = elim (unify_term t a bind) [
  | none ↦ none
  | some bind' ↦ unify_args ts as' bind'
]
unify_args _ _ bind = some bind

unfoldable pub unify : List Term → List Str → Option Binding
unfolding unify_args unify_term
unify pattern args = if length pattern == length args then unify_args pattern args [] else none

unfoldable pub matches : Pattern → GraphStore → List Binding
unfolding filter_map unify facts_of
matches p s = filter_map (λ (f : Fact). unify p.args f.args) (facts_of s p.predicate)
