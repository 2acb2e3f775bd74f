-- ===== src/Llm/Context/Exact.antt =====
-- The selection below its limit: exactly the trusted facts around the anchor.
use prolog_forge.Prelude.{
  ℕ, zero, suc, ◌+◌, ◌≤◌, ◌<◌, List, [], ◌∷◌, true, ==_self, ◌≡◌, ◌⊎◌, ◌↔◌, refl, inl, inr, nat_eq,
  list_eq, Str, length, elem, In, elem→In, In-All, sort_by, In-sort_by_of, arith,
}
use prolog_forge.Graph.Fact.{Fact, fact_eq}
use prolog_forge.Graph.Store.{GraphStore, all_facts}
use prolog_forge.Llm.Context.{
  is_trusted, fact_le, Walk, Flow, going, returned, and_then, visit_ids, go_on, hop_loop, facts_out,
  start, k_hop,
}
use prolog_forge.Llm.Context.Linked.{Linked, here, over, IsAround, k_hop-Around}
use prolog_forge.Llm.Context.Bounded.{Room, hop_loop-Room}
use prolog_forge.Llm.Context.Steps.{Later, IsClosed, Leaves, HasAll, visit_ids-Leaves}

module _ (graph : GraphStore) (anchor_id : Str) (hops max_facts : ℕ) where
  abbrev facts : List Fact
  facts = sort_by fact_le (all_facts graph)

  -- What holds before round `k`.
  record Round (k : ℕ) (w : Walk) : Type 0 where
    closed : IsClosed w
    seen : (a : Str) → elem a w.seen_ids ≡ true → (elem a w.next ≡ true) ⊎ HasAll facts a w
    near : (j : ℕ) (a : Str) → j ≤ k → Linked graph anchor_id j a → elem a w.seen_ids ≡ true
    done : (j : ℕ) (a : Str) → j < k → Linked graph anchor_id j a → HasAll facts a w

  abbrev round_start : Walk → Walk
  round_start w = record { next = []; seen_ids = w.seen_ids; out = w.out }

  Round-seen :
      (k : ℕ) (w v : Walk)
      → Round k w
      → Later (round_start w) v
      → ((a : Str) → In a w.next → HasAll facts a v)
      → (a : Str) → elem a w.seen_ids ≡ true
      → HasAll facts a v
  Round-seen k w v round later visited a m = elim (round.seen a m) [
    | inl frontier ↦ visited a (elem→In a w.next frontier)
    | inr before ↦ λ f there h. later.out_grows f (before f there h)
  ]

  reached :
      (v : Walk) (f : Fact) (id a : Str)
      → IsClosed v
      → HasAll facts id v
      → In f (all_facts graph)
      → is_trusted f.layer ≡ true
      → elem id f.args ≡ true
      → In a f.args
      → elem a v.seen_ids ≡ true
  reached v f id a closed has there trusts mentions m =
      closed f a (has f (In-sort_by_of fact_le f (all_facts graph) there) (trusts, mentions)) m

  Round-next :
      (k : ℕ) (w v : Walk)
      → Round k w
      → Later (round_start w) v
      → (IsClosed (round_start w) → IsClosed v)
      → ((a : Str) → In a w.next → HasAll facts a v)
      → Round (suc k) v
  Round-next k w v round later closed visited = record {
    closed = closed round.closed;
    seen = λ a m. elim (later.fresh_next a m) [
      | inl old ↦ inr (Round-seen k w v round later visited a old)
      | inr new ↦ inl new
    ];
    near = near';
    done = done';
  }
    where
      done' : (j : ℕ) (a : Str) → j < suc k → Linked graph anchor_id j a → HasAll facts a v
      done' j a le linked =
          Round-seen k w v round later visited a (round.near j a (omega arith) linked)

      near' : (j : ℕ) (a : Str) → j ≤ suc k → Linked graph anchor_id j a → elem a v.seen_ids ≡ true
      near' j a le here = later.seen_grows anchor_id (round.near 0 anchor_id (omega arith) here)
      near' j a le (over i f id b linked there trusts mentions m) =
          reached v f id b (closed round.closed) (done' i id (omega arith) linked) there trusts
            mentions m

  -- With no frontier left every linked id is seen, and nothing is left to visit.
  settled :
      (k : ℕ) (v : Walk) (a : Str)
      → Round k v
      → v.next ≡ []
      → elem a v.seen_ids ≡ true
      → HasAll facts a v
  settled k v a round empty m = elim (round.seen a m) [
    | inl frontier ↦ unfold elem in cc (empty, frontier)
    | inr has ↦ has
  ]

  all_seen :
      (k j : ℕ) (v : Walk) (a : Str)
      → Round k v
      → v.next ≡ []
      → Linked graph anchor_id j a
      → elem a v.seen_ids ≡ true
  all_seen k j v a round empty here = round.near 0 anchor_id (omega arith) here
  all_seen k j v a round empty (over i f id b linked there trusts mentions m) =
      reached v f id b round.closed
        (settled k v id round empty (all_seen k i v id round empty linked)) there trusts mentions m

  abbrev Whole : Flow → Type 0
  Whole (going v) = (f : Fact) → IsAround graph anchor_id hops f → elem f v.out ≡ true
  Whole (returned out) = Unit

  going-Whole :
      (v : Walk)
      → ((j : ℕ) (a : Str) → j ≤ hops → Linked graph anchor_id j a → HasAll facts a v)
      → Whole (going v)
  going-Whole v has f (there, trusts, (k, id, le, linked, mentions)) =
      has k id le linked f (In-sort_by_of fact_le f (all_facts graph) there) (trusts, mentions)

  go_on-Whole :
      (k : ℕ) (ids : List Str) (v : Walk) (more : Walk → Flow)
      → v.next ≡ ids
      → Round k v
      → Whole (more v)
      → Whole (go_on ids v more)
  unfolding go_on
  go_on-Whole k [] v more empty round h =
      going-Whole v
        (λ j a le linked. settled k v a round empty (all_seen k j v a round empty linked))
  go_on-Whole k (id ∷ ids) v more same round h = h

  hop_loop-Whole :
      (rounds k : ℕ) (w : Walk)
      → rounds + k ≡ suc hops
      → Round k w
      → Whole (hop_loop rounds max_facts facts w)
  unfolding hop_loop and_then
  hop_loop-Whole zero k w sum round =
      going-Whole w (λ j a le linked. round.done j a (omega arith) linked)
  hop_loop-Whole (suc rounds) k w sum round =
      after (visit_ids max_facts facts w.next (round_start w))
        (visit_ids-Leaves max_facts facts w.next (round_start w))
        (λ v next. hop_loop-Whole rounds (suc k) v (omega arith) next)
    where
      after :
          (flow : Flow)
          → Leaves (round_start w) (λ v. (a : Str) → In a w.next → HasAll facts a v) flow
          → ((v : Walk) → Round (suc k) v → Whole (hop_loop rounds max_facts facts v))
          → Whole (and_then flow (λ v. go_on v.next v (hop_loop rounds max_facts facts)))
      after (returned out) h more = tt
      after (going v) (later, closed, visited) more =
          let next = Round-next k w v round later closed visited in
          go_on-Whole (suc k) v.next v (hop_loop rounds max_facts facts) refl next (more v next)

  first_round : Round 0 (start anchor_id)
  unfolding elem
  first_round = record {
    closed = λ f a m there. cc;
    seen = λ a m. inl m;
    near = λ j a le linked. near j a le linked;
    done = λ j a lt linked. absurd (omega arith);
  }
    where
      near : (j : ℕ) (a : Str) → j ≤ 0 → Linked graph anchor_id j a → elem a (anchor_id ∷ []) ≡ true
      near j a le here = ground (arith, ==_self anchor_id)
      near j a le (over i f id b linked there trusts mentions m) = absurd (omega arith)

-- When fewer facts than the limit are selected, they are exactly the trusted facts of the graph around
-- the anchor: those that mention an id which at most `hops` links lead to.
pub k_hop_exact :
    (graph : GraphStore) (max_facts : ℕ) (anchor_id : Str) (hops : ℕ) (f : Fact)
    → length (k_hop graph max_facts anchor_id hops) < max_facts
    → (elem f (k_hop graph max_facts anchor_id hops) ≡ true) ↔ IsAround graph anchor_id hops f
unfolding k_hop facts_out
k_hop_exact graph max_facts anchor_id hops f fewer =
    let loop =
      hop_loop (suc hops) max_facts (facts graph anchor_id hops max_facts) (start anchor_id) in
    (
      (λ m.
          In-All (IsAround graph anchor_id hops) f (facts_out loop)
            (k_hop-Around graph anchor_id hops max_facts) (elem→In f (facts_out loop) m)),
      λ around.
          from loop (hop_loop-Room max_facts graph anchor_id hops (omega arith))
            (hop_loop-Whole graph anchor_id hops max_facts (suc hops) 0 (start anchor_id)
              (omega arith) (first_round graph anchor_id hops max_facts))
            fewer around,
    )
  where
    from :
        (flow : Flow)
        → Room max_facts flow
        → Whole graph anchor_id hops max_facts flow
        → length (facts_out flow) < max_facts
        → IsAround graph anchor_id hops f
        → elem f (facts_out flow) ≡ true
    from (going v) room whole few around = whole f around
    from (returned out) room whole few around = absurd (omega arith)
