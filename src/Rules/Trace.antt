-- ===== src/Rules/Trace.antt =====
-- The tracer, crates/aa-rules/src/trace.rs, which has its own copies of the functions that join a body
-- against the store.
pub mod Copies
pub mod Attribution
use prolog_forge.Prelude.{
  ℕ, zero, suc, ◌+◌, List, [], ◌∷◌, ◌++◌, Option, none, some, Bool, true, false, ◌==◌, nat_eq,
  list_eq, Str, bytes, Map, map_get, map_insert, filter_map, if◌then◌else◌, map,
}
use prolog_forge.Graph.Fact.{Fact, FactLayer}
use prolog_forge.Graph.Store.{GraphStore}
use prolog_forge.Graph.Unify as GraphUnify
use prolog_forge.Graph.Unify.{Binding, Pattern, matches}
use prolog_forge.Rules.Ast.{Term, const, var, Atom, Rule}

pub record Derivation : Type 0 where
  pub rule_index : ℕ
  pub head_name : Str
  pub head : Fact
  pub premises : List Fact

merge_entry : Option Str → Str → Str → Binding → Option Binding
merge_entry (some prev) k v out = if prev == v then some out else none
merge_entry none k v out = some (map_insert k v out)

merge : Binding → Binding → Option Binding
unfolding merge_entry
merge out [] = some out
merge out ((k, v) ∷ add) = elim (merge_entry (map_get k out) k v out) [
  | none ↦ none
  | some out' ↦ merge out' add
]

bound_or_var : Option Str → Str → GraphUnify.Term
bound_or_var (some val) v = GraphUnify.atom val
bound_or_var none v = GraphUnify.var v

to_pattern_args : List Term → Binding → List GraphUnify.Term
unfolding bound_or_var
to_pattern_args [] b = []
to_pattern_args (const c ∷ ts) b = GraphUnify.atom c ∷ to_pattern_args ts b
to_pattern_args (var v ∷ ts) b = bound_or_var (map_get v b) v ∷ to_pattern_args ts b

to_pattern_with_binding : Atom → Binding → Pattern
unfolding to_pattern_args
to_pattern_with_binding a b = record { predicate = a.predicate; args = to_pattern_args a.args b }

extend_all : Atom → GraphStore → List Binding → List Binding
unfolding merge filter_map to_pattern_with_binding
extend_all a s [] = []
extend_all a s (b ∷ bs) =
    filter_map (merge b) (matches (to_pattern_with_binding a b) s) ++ extend_all a s bs

solve_from : List Binding → List Atom → GraphStore → List Binding
unfolding extend_all
solve_from bindings [] s = bindings
solve_from bindings (a ∷ body) s = solve_from (extend_all a s bindings) body s

pub solve_body : List Atom → GraphStore → List Binding
unfolding solve_from
solve_body body s = solve_from ([] ∷ []) body s

-- The loop over the head's terms; `none` stands for `Err(())`.
instantiate_args : List Term → Binding → Option (List Str)
instantiate_args [] b = some []
instantiate_args (const c ∷ ts) b = elim (instantiate_args ts b) [
  | none ↦ none
  | some rest ↦ some (c ∷ rest)
]
instantiate_args (var v ∷ ts) b =
    let rest = instantiate_args ts b in
    elim (map_get v b) [
      | none ↦ none
      | some val ↦ elim rest [ none ↦ none | some vals ↦ some (val ∷ vals) ]
    ]

pub instantiate_head : Atom → Binding → Option Fact
unfolding instantiate_args
instantiate_head head b = elim (instantiate_args head.args b) [
  | none ↦ none
  | some args ↦
      some (record { predicate = head.predicate; args = args; layer = FactLayer.inferred })
]

-- `unwrap_or_else(|| format!("?{v}"))`.
value_or_mark : Str → Option Str → Str
value_or_mark v (some val) = val
value_or_mark v none = bytes "?" ++ v

body_args : List Term → Binding → List Str
unfolding value_or_mark
body_args [] b = []
body_args (const c ∷ ts) b = c ∷ body_args ts b
body_args (var v ∷ ts) b = value_or_mark v (map_get v b) ∷ body_args ts b

pub instantiate_body_atom : Atom → Binding → Fact
unfolding body_args
instantiate_body_atom a b = record {
  predicate = a.predicate;
  args = body_args a.args b;
  layer = FactLayer.observed;
}

abbrev premises_of : List Atom → Binding → List Fact
premises_of body b = map (λ a. instantiate_body_atom a b) body

-- The body of the two loops: a binding whose head has an unbound variable is skipped.
trace_one : ℕ → Rule → Binding → Option Derivation
trace_one idx rule b = elim (instantiate_head rule.head b) [
  | none ↦ none
  | some head ↦ some (record {
    rule_index = idx;
    head_name = rule.head.predicate;
    head = head;
    premises = premises_of rule.body b;
  })
]

trace_from : ℕ → List Rule → GraphStore → List Derivation
unfolding trace_one instantiate_head instantiate_body_atom solve_body
trace_from idx [] s = []
trace_from idx (rule ∷ rules) s =
    filter_map (trace_one idx rule) (solve_body rule.body s) ++ trace_from (suc idx) rules s

unfoldable pub trace_derivations : List Rule → GraphStore → List Derivation
unfolding trace_from
trace_derivations rules s = trace_from 0 rules s
