-- ===== src/Llm/Propose/Grounded.antt =====
-- What a run of the proposer adds to the graph.
use prolog_forge.Prelude.{
  ℕ, ◌+◌, List, [], ◌∷◌, ◌++◌, none, some, Bool, true, false, ◌||◌, ◌==◌, ==_iff, ==_self, nat_eq,
  list_eq, ◌≡◌, ◌≢◌, ◌⊎◌, inl, inr, refl, sym, ap, subst, ◌∙◌, Bool-cases, Str, elem, In, In-append,
  In-append_left, In-append_right, length, length-append, if◌then◌else◌, Result, ok, err, arith,
}
use prolog_forge.Graph.Fact.{Fact, candidate, fact_eq}
use prolog_forge.Graph.Store.{GraphStore, contains}
use prolog_forge.Llm.Provider.{LlmResponse, LlmError, Provider, ResponseCache, Hasher}
use prolog_forge.Llm.Propose.{
  Proposal, ProposalOutcome, ProposeRequest, ProposeResult, Reader, known_entity_ids, outcome_of,
  candidate_fact, settle, count_outcome, settle_all, empty_result, settle_read, propose_fetched,
  fetch, request_of, propose,
}
use prolog_forge.Llm.Propose.Settled.{
  IsEntity, IsKnown, known_entity_ids-IsEntity, Settled, accepts, rejects, settle-Settled,
}

-- The fact that an outcome is about.
abbrev pub fact_of : ProposalOutcome → Fact
fact_of o = record { predicate = o.predicate; args = o.args; layer = candidate }

unfoldable pub accepted_in : List ProposalOutcome → ℕ
accepted_in [] = 0
accepted_in (o ∷ os) = (if o.accepted then 1 else 0) + accepted_in os

accepted_in-append :
    (os ps : List ProposalOutcome) → accepted_in (os ++ ps) ≡ accepted_in os + accepted_in ps
unfolding accepted_in
accepted_in-append [] ps = omega arith
accepted_in-append (o ∷ os) ps = omega (arith, accepted_in-append os ps)

-- What an accepted proposal makes of a fact: its ids are known.
abbrev pub IsAdded : List Str → List ProposalOutcome → Fact → Type 0
IsAdded known outcomes f =
    (f.args ≢ [])
    × ((a : Str) → In a f.args → elem a known ≡ true)
    × ((o : ProposalOutcome) × In o outcomes × (o.accepted ≡ true) × (fact_of o ≡ f))

older :
    (known : List Str) (os : List ProposalOutcome) (p : ProposalOutcome) (f : Fact) (P : Type 0)
    → P ⊎ IsAdded known os f
    → P ⊎ IsAdded known (os ++ p ∷ []) f
older known os p f P (inl h) = inl h
older known os p f P (inr (some_args, all_known, (o, there, yes', same))) =
    inr (some_args, all_known, (o, In-append_left o os (p ∷ []) there, yes', same))

-- The result `r` and the graph `after` of a run over `before`, which knows the ids `known`.
pub record IsGrounded (known : List Str) (before : GraphStore) (r : ProposeResult)
    (after : GraphStore) : Type 0 where
  -- A fact is new only as an accepted proposal about known ids.
  pub added :
      (f : Fact) → contains after f ≡ true → (contains before f ≡ true) ⊎ IsAdded known r.outcomes f
  pub kept : (f : Fact) → contains before f ≡ true → contains after f ≡ true
  -- Every accepted proposal is in the graph.
  pub stored :
      (o : ProposalOutcome)
      → In o r.outcomes
      → o.accepted ≡ true
      → contains after (fact_of o) ≡ true
  pub counted : r.accepted ≡ accepted_in r.outcomes
  pub counted_all : r.accepted + r.rejected ≡ length r.outcomes

module _ (known : List Str) (before : GraphStore) where
  accepted_turn :
      (c : Proposal) (r : ProposeResult) (graph after : GraphStore)
      → IsGrounded known before r graph
      → IsKnown known c.args
      → ((f : Fact) → contains after f ≡ (candidate_fact c == f || contains graph f))
      → IsGrounded known before (count_outcome (outcome_of c true none) r) after
  unfolding count_outcome accepted_in
  accepted_turn c r graph after g (some_args, all_known) adds = record {
    added = λ f m. elim (Bool-cases (candidate_fact c == f)) [
      | inl same ↦
          let e : candidate_fact c ≡ f = (==_iff (candidate_fact c) f).0 same in
          inr (
            (λ empty. some_args (ap (λ (x : Fact). x.args) e ∙ empty)),
            (λ a there. all_known a (subst (λ (x : Fact). In a x.args) (sym e) there)),
            (outcome_of c true none, In-append_right _ r.outcomes _ (inl refl), refl, e),
          )
      | inr other ↦
          older known r.outcomes (outcome_of c true none) f _
            (g.added f (ground (arith, adds f, other, m)))
    ];
    kept = λ f m. ground (arith, adds f, g.kept f m);
    stored = λ o m yes'. elim (In-append o r.outcomes (outcome_of c true none ∷ []) m) [
      | inl old ↦ ground (arith, adds (fact_of o), g.stored o old yes')
      | inr now ↦ elim now [
        | inl same ↦ rw same (ground (arith, adds (candidate_fact c), ==_self (candidate_fact c)))
        | inr none' ↦ elim none' [ ]
      ]
    ];
    counted =
        ground (arith, accepted_in-append r.outcomes (outcome_of c true none ∷ []), g.counted);
    counted_all =
        omega (arith, length-append r.outcomes (outcome_of c true none ∷ []), g.counted_all);
  }

  rejected_turn :
      (c : Proposal) (reason : Str) (r : ProposeResult) (graph : GraphStore)
      → IsGrounded known before r graph
      → IsGrounded known before (count_outcome (outcome_of c false (some reason)) r) graph
  unfolding count_outcome accepted_in
  rejected_turn c reason r graph g =
      let o : ProposalOutcome = outcome_of c false (some reason) in
      record {
        added = λ f m. older known r.outcomes o f _ (g.added f m);
        kept = g.kept;
        stored = λ p m yes'. elim (In-append p r.outcomes (o ∷ []) m) [
          | inl old ↦ g.stored p old yes'
          | inr now ↦ elim now [
            | inl same ↦
                let e : false ≡ true = sym (ap (λ (x : ProposalOutcome). x.accepted) same) ∙ yes' in
                cc
            | inr none' ↦ elim none' [ ]
          ]
        ];
        counted = ground (arith, accepted_in-append r.outcomes (o ∷ []), g.counted);
        counted_all = omega (arith, length-append r.outcomes (o ∷ []), g.counted_all);
      }

  turn-IsGrounded :
      (c : Proposal) (r : ProposeResult) (graph after : GraphStore) (o : ProposalOutcome)
      → IsGrounded known before r graph
      → Settled known c graph o after
      → IsGrounded known before (count_outcome o r) after
  turn-IsGrounded c r graph after o g (accepts same known_args adds) =
      subst (λ p. IsGrounded known before (count_outcome p r) after) (sym same)
        (accepted_turn c r graph after g known_args adds)
  turn-IsGrounded c r graph after o g (rejects reason same unchanged) =
      rw (unchanged, same) (rejected_turn c reason r graph g)

  settle_all-IsGrounded :
      (cs : List Proposal) (r : ProposeResult) (graph : GraphStore)
      → IsGrounded known before r graph
      → IsGrounded known before (settle_all known cs r graph).0 (settle_all known cs r graph).1
  unfolding settle_all
  settle_all-IsGrounded [] r graph g = g
  settle_all-IsGrounded (c ∷ cs) r graph g =
      let (o, after) = settle known c graph in
      settle_all-IsGrounded cs (count_outcome o r) after
        (turn-IsGrounded c r graph after o g (settle-Settled known c graph))

  first-IsGrounded :
      (raw : LlmResponse) (hit : Bool) → IsGrounded known before (empty_result raw hit) before
  unfolding accepted_in
  first-IsGrounded raw hit = record {
    added = λ f m. inl m;
    kept = λ f m. m;
    stored = λ o m yes'. elim m [ ];
    counted = refl;
    counted_all = omega arith;
  }

-- What the graph is after a run, by its result.
abbrev pub Meets : GraphStore → Result LlmError ProposeResult → GraphStore → Type 0
Meets before (ok r) after =
    IsGrounded (known_entity_ids before) before r after
    × ((id : Str) → elem id (known_entity_ids before) ≡ true → IsEntity before id)
Meets before (err e) after = after ≡ before

propose_fetched-Meets :
    (read : Reader) (before : GraphStore)
    (got : Result LlmError (LlmResponse × Bool) × ResponseCache)
    → let r = propose_fetched read before got in Meets before r.0 r.1.0
unfolding propose_fetched settle_read
propose_fetched-Meets read before (err e, cache) = refl
propose_fetched-Meets read before (ok (raw, hit), cache) = from (read raw.text)
  where
    from :
        (r : Result Str (List Proposal))
        → Meets before (settle_read raw hit r before).0 (settle_read raw hit r before).1
    from (err e) = refl
    from (ok cs) = (
      settle_all-IsGrounded (known_entity_ids before) before cs (empty_result raw hit) before
          (first-IsGrounded (known_entity_ids before) before raw hit),
      known_entity_ids-IsEntity before,
    )

-- A failed run leaves the graph. A successful one keeps every fact and adds only accepted proposals, at
-- the candidate layer, with at least one argument and with every argument an id that the graph had before
-- as the first argument of an entity fact; every accepted proposal is in the graph afterwards, and the
-- two counters count the outcomes.
pub propose-Meets :
    (hash : Hasher) (read : Reader) (provider : Provider) (req : ProposeRequest)
    (graph : GraphStore) (cache : ResponseCache)
    → let r = propose hash read provider req graph cache in Meets graph r.0 r.1.0
unfolding propose
propose-Meets hash read provider req graph cache =
    propose_fetched-Meets read graph (fetch hash provider (request_of req graph) cache)
