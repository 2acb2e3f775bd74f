-- ===== src/Rules/Eval.antt =====
-- The naive fixpoint of crates/aa-rules/src/eval.rs. The loop of `evaluate` takes fuel.
use prolog_forge.Prelude.{
  ℕ, zero, suc, ◌+◌, List, [], ◌∷◌, ◌++◌, Option, none, some, Bool, not, ◌&&◌, ◌==◌, nat_eq,
  list_eq, Str, elem, map_get, map_insert, filter_map, if◌then◌else◌, Result, ok, err, ◌>>=◌,
}
use prolog_forge.Graph.Fact.{Fact, FactLayer, fact_eq}
use prolog_forge.Graph.Store.{GraphStore, GraphError, contains, insert}
use prolog_forge.Graph.Unify as GraphUnify
use prolog_forge.Graph.Unify.{Binding, Pattern, matches}
use prolog_forge.Rules.Ast.{Term, const, var, Atom, Rule}

pub record EvalStats : Type 0 where
  pub derived : ℕ
  pub iterations : ℕ

pub data EvalError : Type 0 where
  unbound_head_var : Str → EvalError
  graph : GraphError → EvalError

-- `merge`: the entries of `add` one by one, over a clone of `base`.
unfoldable pub merge_entry : Option Str → Str → Str → Binding → Option Binding
merge_entry (some prev) k v out = if prev == v then some out else none
merge_entry none k v out = some (map_insert k v out)

unfoldable pub merge : Binding → Binding → Option Binding
unfolding merge_entry
merge out [] = some out
merge out ((k, v) ∷ add) = elim (merge_entry (map_get k out) k v out) [
  | none ↦ none
  | some out' ↦ merge out' add
]

unfoldable pub bound_or_var : Option Str → Str → GraphUnify.Term
bound_or_var (some val) v = GraphUnify.atom val
bound_or_var none v = GraphUnify.var v

unfoldable pub to_pattern_args : List Term → Binding → List GraphUnify.Term
unfolding bound_or_var
to_pattern_args [] b = []
to_pattern_args (const c ∷ ts) b = GraphUnify.atom c ∷ to_pattern_args ts b
to_pattern_args (var v ∷ ts) b = bound_or_var (map_get v b) v ∷ to_pattern_args ts b

unfoldable pub to_pattern_with_binding : Atom → Binding → Pattern
unfolding to_pattern_args
to_pattern_with_binding a b = record { predicate = a.predicate; args = to_pattern_args a.args b }

-- The two inner loops of `solve_body`: the matches of one binding, and the bindings of one atom.
unfoldable pub merge_all : Binding → List Binding → List Binding
unfolding merge filter_map
merge_all b ms = filter_map (merge b) ms

unfoldable pub extend_all : Atom → GraphStore → List Binding → List Binding
unfolding merge_all
extend_all a s [] = []
extend_all a s (b ∷ bs) = merge_all b (matches (to_pattern_with_binding a b) s) ++ extend_all a s bs

unfoldable pub solve_from : List Binding → List Atom → GraphStore → List Binding
unfolding extend_all
solve_from bindings [] s = bindings
solve_from bindings (a ∷ body) s = solve_from (extend_all a s bindings) body s

unfoldable pub solve_body : List Atom → GraphStore → List Binding
unfolding solve_from
solve_body body s = solve_from ([] ∷ []) body s

unfoldable pub bound_or_err : Str → Option Str → Result EvalError Str
bound_or_err v (some val) = ok val
bound_or_err v none = err (unbound_head_var v)

-- `collect` of the results stops at the first error.
unfoldable pub instantiate_args : List Term → Binding → Result EvalError (List Str)
unfolding bound_or_err
instantiate_args [] b = ok []
instantiate_args (const c ∷ ts) b = do rest ← instantiate_args ts b; ok (c ∷ rest)
instantiate_args (var v ∷ ts) b = do
  val ← bound_or_err v (map_get v b)
  rest ← instantiate_args ts b
  ok (val ∷ rest)

unfoldable pub instantiate_head : Atom → Binding → Result EvalError Fact
unfolding instantiate_args
instantiate_head head b = do
  args ← instantiate_args head.args b
  ok (record { predicate = head.predicate; args = args; layer = FactLayer.inferred })

-- `if !store.contains(&fact) && !batch.contains(&fact) { batch.push(fact) }`.
unfoldable pub push_new : GraphStore → Fact → List Fact → List Fact
push_new s fact batch =
    if not (contains s fact) && not (elem fact batch) then batch ++ fact ∷ [] else batch

-- One rule's part of a round, and the round over all rules.
unfoldable pub fire_bindings :
    Atom → GraphStore → List Binding → List Fact → Result EvalError (List Fact)
unfolding push_new
fire_bindings head s [] batch = ok batch
fire_bindings head s (b ∷ bs) batch = do
  fact ← instantiate_head head b
  fire_bindings head s bs (push_new s fact batch)

unfoldable pub fire_rules : List Rule → GraphStore → List Fact → Result EvalError (List Fact)
unfolding fire_bindings
fire_rules [] s batch = ok batch
fire_rules (r ∷ rs) s batch = do
  batch' ← fire_bindings r.head s (solve_body r.body s) batch
  fire_rules rs s batch'

-- `for f in batch { if store.insert(f)? { derived += 1 } }`: what was inserted before an error stays.
unfoldable pub add_derived : Bool → EvalStats → EvalStats
add_derived new stats = if new then record stats { derived = stats.derived + 1 } else stats

unfoldable pub insert_batch :
    List Fact → EvalStats → GraphStore → Result EvalError EvalStats × GraphStore
unfolding add_derived
insert_batch [] stats s = (ok stats, s)
insert_batch (f ∷ fs) stats s =
    let (r, s') = insert f s in
    elim r [ ok new ↦ insert_batch fs (add_derived new stats) s' | err e ↦ (err (graph e), s') ]

abbrev pub next_round : EvalStats → EvalStats
next_round stats = record stats { iterations = stats.iterations + 1 }

-- `none` is a run out of fuel.
unfoldable pub evaluate_loop :
    ℕ → List Rule → EvalStats → GraphStore → Option (Result EvalError EvalStats × GraphStore)
unfolding fire_rules insert_batch
evaluate_loop zero rules stats s = none
evaluate_loop (suc fuel) rules stats s = elim (fire_rules rules s []) [
  | err e ↦ some (err e, s)
  | ok [] ↦ some (ok (next_round stats), s)
  | ok (f ∷ fs) ↦
      let (r, s') = insert_batch (f ∷ fs) (next_round stats) s in
      elim r [ err e ↦ some (err e, s') | ok stats' ↦ evaluate_loop fuel rules stats' s' ]
]

abbrev pub no_stats : EvalStats
no_stats = record { derived = 0; iterations = 0 }

unfoldable pub evaluate :
    ℕ → List Rule → GraphStore → Option (Result EvalError EvalStats × GraphStore)
unfolding evaluate_loop
evaluate fuel rules s = evaluate_loop fuel rules no_stats s
