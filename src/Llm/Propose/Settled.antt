-- ===== src/Llm/Propose/Settled.antt =====
-- One turn of the loop over the proposals.
use prolog_forge.Prelude.{
  List, [], ◌∷◌, none, some, Bool, true, false, ◌||◌, ◌==◌, ==_iff, nat_eq, list_eq, Bool-cases,
  Option-cases, ◌≡◌, ◌≢◌, ◌⊎◌, inl, inr, refl, ap, subst, Str, bytes, elem, elem-set_insert, In,
  Result, ok, err, arith,
}
use prolog_forge.Graph.Fact.{Fact, fact_eq}
use prolog_forge.Graph.Store.{GraphStore, GraphError, insert, facts_of, contains}
use prolog_forge.Graph.Insert.{refused, filed, insert-Inserted, contains-insert}
use prolog_forge.Llm.Propose.{
  Proposal, ProposalOutcome, entity_predicates, first_id, collect_ids, collect_predicates,
  known_entity_ids, unknown_arg, unknown_message, resolve, starts_lowercase, outcome_of,
  candidate_fact, inserted, settle_resolved, settle, graph_message,
}

-- An id of the graph: the first argument of a fact of an entity predicate.
abbrev pub IsEntity : GraphStore → Str → Type 0
IsEntity graph id =
    (p : Str) × (f : Fact) × (rest : List Str) × In p entity_predicates
    × In f (facts_of graph p)
    × (f.args ≡ id ∷ rest)

first_id-new :
    (args set : List Str) (id : Str)
    → elem id (first_id args set) ≡ true
    → (elem id set ≡ true) ⊎ ((rest : List Str) × (args ≡ id ∷ rest))
unfolding first_id
first_id-new [] set id m = inl m
first_id-new (a ∷ args) set id m = elim (Bool-cases (a == id)) [
  | inl same ↦ inr (args, ap (λ b. b ∷ args) ((==_iff a id).0 same))
  | inr other ↦ inl (ground (arith, elem-set_insert id a set))
]

collect_ids-new :
    (fs : List Fact) (set : List Str) (id : Str)
    → elem id (collect_ids fs set) ≡ true
    → (elem id set ≡ true) ⊎ ((f : Fact) × (rest : List Str) × In f fs × (f.args ≡ id ∷ rest))
unfolding collect_ids
collect_ids-new [] set id m = inl m
collect_ids-new (f ∷ fs) set id m = elim (collect_ids-new fs (first_id f.args set) id m) [
  | inr (g, rest, there, args) ↦ inr (g, rest, inr there, args)
  | inl old ↦ elim (first_id-new f.args set id old) [
    | inl older ↦ inl older
    | inr (rest, args) ↦ inr (f, rest, inl refl, args)
  ]
]

collect_predicates-new :
    (ps : List Str) (graph : GraphStore) (set : List Str) (id : Str)
    → elem id (collect_predicates ps graph set) ≡ true
    → (elem id set ≡ true)
      ⊎ ((p : Str) × (f : Fact) × (rest : List Str) × In p ps
          × In f (facts_of graph p)
          × (f.args ≡ id ∷ rest))
unfolding collect_predicates
collect_predicates-new [] graph set id m = inl m
collect_predicates-new (p ∷ ps) graph set id m =
    elim (collect_predicates-new ps graph (collect_ids (facts_of graph p) set) id m) [
      | inr (q, f, rest, there, stored, args) ↦ inr (q, f, rest, inr there, stored, args)
      | inl old ↦ elim (collect_ids-new (facts_of graph p) set id old) [
        | inl older ↦ inl older
        | inr (f, rest, stored, args) ↦ inr (p, f, rest, inl refl, stored, args)
      ]
    ]

pub known_entity_ids-IsEntity :
    (graph : GraphStore) (id : Str) → elem id (known_entity_ids graph) ≡ true → IsEntity graph id
unfolding known_entity_ids
known_entity_ids-IsEntity graph id m =
    elim (collect_predicates-new entity_predicates graph [] id m) [
      | inl h ↦ unfold elem in cc h
      | inr h ↦ h
    ]

unknown_arg-none :
    (known args : List Str)
    → unknown_arg known args ≡ none
    → (a : Str) → In a args
    → elem a known ≡ true
unfolding unknown_arg
unknown_arg-none known [] h a m = elim m [ ]
unknown_arg-none known (b ∷ args) h a (inl same) = rw same (ground (arith, h))
unknown_arg-none known (b ∷ args) h a (inr m) = unknown_arg-none known args (ground (arith, h)) a m

-- What `resolve` lets pass.
abbrev pub IsKnown : List Str → List Str → Type 0
IsKnown known args = (args ≢ []) × ((a : Str) → In a args → elem a known ≡ true)

resolve-IsKnown : (c : Proposal) (known : List Str) → resolve c known ≡ ok tt → IsKnown known c.args
unfolding resolve unknown_message
resolve-IsKnown c known h = elim (Bool-cases (c.args == [])) [
  | inl empty ↦ let e : Result.err (bytes "empty args") ≡ ok tt = rw empty at h in cc
  | inr some_args ↦ elim (Bool-cases (starts_lowercase c.predicate)) [
    | inr upper ↦
        let e : Result.err (bytes "predicate must be a lowercase identifier") ≡ ok tt =
          rw (some_args, upper) at h in
        cc
    | inl lower ↦ elim (Option-cases (unknown_arg known c.args)) [
      | inl all ↦ (
        (λ empty. ground (arith, ==_iff c.args [], some_args, empty)),
        unknown_arg-none known c.args all,
      )
      | inr (a, found) ↦
          let e : unknown_message (some a) ≡ ok tt = rw (some_args, lower, found) at h in cc
    ]
  ]
]

-- A turn accepts a known proposal and files its fact, or rejects it and leaves the graph.
pub data Settled (known : List Str) (c : Proposal) (graph : GraphStore) (o : ProposalOutcome)
    (after : GraphStore) : Type 0 where
  accepts :
      o ≡ outcome_of c true none
      → IsKnown known c.args
      → ((f : Fact) → contains after f ≡ (candidate_fact c == f || contains graph f))
      → Settled known c graph o after
  rejects :
      (reason : Str)
      → o ≡ outcome_of c false (some reason)
      → after ≡ graph
      → Settled known c graph o after

insert_failed : (f : Fact) (s t : GraphStore) (e : GraphError) → insert f s ≡ (err e, t) → t ≡ s
insert_failed f s t e h = elim (insert-Inserted f s) [
  | refused k known ne r ↦ cc
  | filed fits r after ↦ cc
]

inserted-Settled :
    (known : List Str) (c : Proposal) (graph : GraphStore) (r : Result GraphError Bool × GraphStore)
    → insert (candidate_fact c) graph ≡ r
    → IsKnown known c.args
    → Settled known c graph (inserted c r).0 (inserted c r).1
unfolding inserted
inserted-Settled known c graph (err e, t) h k =
    rejects (graph_message e) refl (insert_failed (candidate_fact c) graph t e h)
inserted-Settled known c graph (ok new, t) h k = accepts refl k (λ f.
    subst (λ (x : GraphStore). contains x f ≡ (candidate_fact c == f || contains graph f))
      (ap (λ r. r.1) h) (contains-insert (candidate_fact c) f graph new (ap (λ r. r.0) h)))

pub settle-Settled :
    (known : List Str) (c : Proposal) (graph : GraphStore)
    → Settled known c graph (settle known c graph).0 (settle known c graph).1
unfolding settle settle_resolved
settle-Settled known c graph = from (resolve c known) refl
  where
    from :
        (r : Result Str (Unit {0}))
        → resolve c known ≡ r
        → Settled known c graph (settle_resolved c r graph).0 (settle_resolved c r graph).1
    from (ok u) h =
        inserted-Settled known c graph (insert (candidate_fact c) graph) refl
          (resolve-IsKnown c known h)
    from (err reason) h = rejects reason refl refl
