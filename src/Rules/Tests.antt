-- ===== src/Rules/Tests.antt =====
-- The Datalog engine on a small program: `ancestor(X, Y) :- parent(X, Y).`
use prolog_forge.Prelude.{
  ◌<◌, List, [], ◌∷◌, some, true, false, ◌≡◌, ◌↔◌, refl, arith, nat_eq, list_eq, list_beq, bytes,
  length, map_get, map_insert, map_values, elem, set_insert, filter_map, In, inl, ok, err,
}
use prolog_forge.Graph.Fact.{Fact, FactLayer, fact_eq, fact_beq, layer_beq}
use prolog_forge.Graph.Store.{GraphStore, new, insert, contains, all_facts}
use prolog_forge.Graph.Insert.{IsValid, insert-IsValid, new-IsValid}
use prolog_forge.Graph.Unify.{Binding, matches}
use prolog_forge.Graph.Match.{Agrees}
use prolog_forge.Rules.Ast.{Term, var, Rule}
use prolog_forge.Rules.Eval.{
  EvalStats, evaluate, solve_body, unbound_head_var, to_pattern_with_binding, instantiate_head,
}
use prolog_forge.Rules.Body.{Satisfies}
use prolog_forge.Rules.Solve.{solve_body_exact}
use prolog_forge.Rules.Model.{Derives}
use prolog_forge.Rules.Loop.{Outcome}
use prolog_forge.Rules.Sound.{evaluate_sound}
use prolog_forge.Rules.Least.{evaluate_least}
use prolog_forge.Rules.Base.{universe, candidates}
use prolog_forge.Rules.Terminates.{evaluate_total}
use prolog_forge.Rules.Trace.{Derivation, trace_derivations}
use prolog_forge.Rules.Trace.Attribution.{trace_attributes}

abbrev parent_ab : Fact
parent_ab = record {
  predicate = bytes "parent";
  args = bytes "a" ∷ bytes "b" ∷ [];
  layer = FactLayer.observed;
}

abbrev ancestor_ab : Fact
ancestor_ab = record {
  predicate = bytes "ancestor";
  args = bytes "a" ∷ bytes "b" ∷ [];
  layer = FactLayer.inferred;
}

abbrev xy : List Term
xy = var (bytes "X") ∷ var (bytes "Y") ∷ []

abbrev direct : Rule
direct = record {
  head = record { predicate = bytes "ancestor"; args = xy };
  body = record { predicate = bytes "parent"; args = xy } ∷ [];
}

-- `bad(Z) :- parent(X, Y).`
abbrev unbound : Rule
unbound = record {
  head = record { predicate = bytes "bad"; args = var (bytes "Z") ∷ [] };
  body = record { predicate = bytes "parent"; args = xy } ∷ [];
}

abbrev base : GraphStore
base = record {
  buckets = (bytes "parent", parent_ab ∷ []) ∷ [];
  arities = (bytes "parent", 2) ∷ [];
}

abbrev saturated : GraphStore
saturated = record {
  buckets = (bytes "parent", parent_ab ∷ []) ∷ (bytes "ancestor", ancestor_ab ∷ []) ∷ [];
  arities = (bytes "parent", 2) ∷ (bytes "ancestor", 2) ∷ [];
}

abbrev one_derived : EvalStats
one_derived = record { derived = 1; iterations = 2 }

insert-base : (insert parent_ab new).1 ≡ base
unfolding insert new map_get map_insert set_insert elem list_beq
insert-base = refl

base-IsValid : IsValid base
base-IsValid = rw insert-base at (insert-IsValid parent_ab new new-IsValid)

evaluate_runs : evaluate 5 (direct ∷ []) base ≡ some (ok one_derived, saturated)
unfolding evaluate solve_body matches to_pattern_with_binding instantiate_head insert contains
    filter_map map_get map_insert set_insert elem list_beq fact_beq layer_beq
evaluate_runs = refl

evaluate-unbound : evaluate 5 (unbound ∷ []) base ≡ some (err (unbound_head_var (bytes "Z")), base)
unfolding evaluate solve_body matches to_pattern_with_binding instantiate_head insert contains
    filter_map map_get map_insert set_insert elem list_beq fact_beq layer_beq
evaluate-unbound = refl

solve_body_exact_example :
    ((b : Binding) → In b (solve_body direct.body base) → Satisfies base b direct.body)
    × ((σ : Binding)
        → Satisfies base σ direct.body
        → (b : Binding) × In b (solve_body direct.body base) × Agrees σ b)
solve_body_exact_example = solve_body_exact direct.body base

evaluate_sound_example :
    IsValid saturated × ((f : Fact) → contains saturated f ≡ true → Derives (direct ∷ []) base f)
evaluate_sound_example =
    evaluate_sound 5 (direct ∷ []) base (ok one_derived, saturated) base-IsValid evaluate_runs

evaluate_least_example :
    (contains saturated ancestor_ab ≡ true) ↔ Derives (direct ∷ []) base ancestor_ab
evaluate_least_example =
    evaluate_least 5 (direct ∷ []) base saturated one_derived ancestor_ab base-IsValid evaluate_runs

few_candidates : length (candidates (universe (direct ∷ []) base) (direct ∷ [])) < 10
unfolding candidates universe all_facts map_values
few_candidates = omega arith

evaluate_total_example : (o : Outcome) × (evaluate 10 (direct ∷ []) base ≡ some o)
evaluate_total_example = evaluate_total 10 (direct ∷ []) base base-IsValid few_candidates

abbrev derivation_ab : Derivation
derivation_ab = record {
  rule_index = 0;
  head_name = bytes "ancestor";
  head = ancestor_ab;
  premises = parent_ab ∷ [];
}

trace_runs : In derivation_ab (trace_derivations (direct ∷ []) saturated)
unfolding trace_derivations matches filter_map map_get map_insert list_beq
trace_runs = inl refl

ancestor_new : contains base ancestor_ab ≡ false
unfolding contains map_get list_beq
ancestor_new = refl

ancestor_there : contains saturated ancestor_ab ≡ true
unfolding contains map_get list_beq elem fact_beq layer_beq
ancestor_there = refl

trace_attributes_example :
    (d : Derivation) × In d (trace_derivations (direct ∷ []) saturated) × (d.head ≡ ancestor_ab)
trace_attributes_example =
    trace_attributes 5 (direct ∷ []) base saturated one_derived ancestor_ab base-IsValid
      evaluate_runs ancestor_new ancestor_there
