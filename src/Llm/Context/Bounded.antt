-- ===== src/Llm/Context/Bounded.antt =====
-- How many facts are selected.
use prolog_forge.Prelude.{
  ℕ, suc, ◌≤◌, ◌<◌, List, [], ◌∷◌, ◌++◌, Bool, true, false, not, ◌&&◌, Bool-cases, ◌≡◌, refl, inl,
  inr, nat_eq, list_eq, All-In, Str, leb, length, length-append, elem, In, sort_by, In-sort_by_of,
  if_true, if_false, ◌∙◌, arith,
}
use prolog_forge.Graph.Fact.{Fact, fact_eq}
use prolog_forge.Graph.Store.{GraphStore, all_facts}
use prolog_forge.Llm.Context.Rule.{hop_loop_ends}
use prolog_forge.Llm.Context.{
  is_trusted, fact_le, Walk, Flow, going, returned, and_then, note_id, note_ids, take_fact,
  visit_fact, visit_facts, visit_ids, hop_loop, facts_out, start, k_hop,
}

note_id-out : (a : Str) (w : Walk) → (note_id a w).out ≡ w.out
unfolding note_id
note_id-out a w = elim (Bool-cases (elem a w.seen_ids)) [
  | inl seen ↦ rw (seen, note_id) refl
  | inr new ↦ rw (new, note_id) refl
]

pub note_ids-out : (as' : List Str) (w : Walk) → (note_ids as' w).out ≡ w.out
unfolding note_ids
note_ids-out [] w = refl
note_ids-out (a ∷ as') w = note_ids-out as' (note_id a w) ∙ note_id-out a w

-- The test of `visit_fact`.
abbrev pub fits : Str → Fact → Walk → Bool
fits id f w = is_trusted f.layer && (elem id f.args && not (elem f w.out))

module _ (max_facts : ℕ) (id : Str) (f : Fact) (w : Walk) where
  pub visit_fact_taken : fits id f w ≡ true → visit_fact max_facts id f w ≡ take_fact max_facts f w
  unfolding visit_fact
  visit_fact_taken h = if_true (fits id f w) _ _ h

  pub visit_fact_skipped : fits id f w ≡ false → visit_fact max_facts id f w ≡ going w
  unfolding visit_fact
  visit_fact_skipped h = if_false (fits id f w) _ _ h

module _ (max_facts : ℕ) where
  -- The walk goes on below the limit and returns at it.
  abbrev pub Room : Flow → Type 0
  Room (going w) = length w.out < max_facts
  Room (returned out) = length out ≡ max_facts

  take_fact-Room : (f : Fact) (w : Walk) → length w.out < max_facts → Room (take_fact max_facts f w)
  unfolding take_fact
  take_fact-Room f w room =
      let out = w.out ++ f ∷ [] in
      let v : Walk = record { next = w.next; seen_ids = w.seen_ids; out = out } in
      elim (Bool-cases (leb max_facts (length out))) [
        | inl full ↦ rw (full, take_fact) (ground (arith, length-append w.out (f ∷ [])))
        | inr more ↦ rw (more, take_fact, note_ids-out f.args v) (ground (arith, more))
      ]

  visit_fact-Room :
      (id : Str) (f : Fact) (w : Walk)
      → length w.out < max_facts
      → Room (visit_fact max_facts id f w)
  unfolding visit_fact
  visit_fact-Room id f w room =
      elim (Bool-cases (is_trusted f.layer && (elem id f.args && not (elem f w.out)))) [
        | inl taken ↦ rw (taken, visit_fact) (take_fact-Room f w room)
        | inr skipped ↦ rw (skipped, visit_fact) room
      ]

  pub hop_loop-Room :
      (graph : GraphStore) (anchor_id : Str) (hops : ℕ)
      → 1 ≤ max_facts
      → Room (hop_loop (suc hops) max_facts (sort_by fact_le (all_facts graph)) (start anchor_id))
  hop_loop-Room graph anchor_id hops positive =
      hop_loop_ends max_facts hops (sort_by fact_le (all_facts graph)) (λ k id. Unit {0})
        (λ k w. length w.out < max_facts) Room (suc hops) 0 (start anchor_id)
        (λ k id f w le linked m room. visit_fact-Room id f w room)
        (λ k w room. (All-In _ w.next (λ a m. tt), room)) (λ k w room. room) (omega arith) (tt, tt)
        (omega arith) (omega arith)

  Room-le : (flow : Flow) → Room flow → length (facts_out flow) ≤ max_facts
  unfolding facts_out
  Room-le (going w) room = omega arith
  Room-le (returned out) room = omega arith

-- With a limit of nothing the first fact that fits is still taken.
take_fact_zero : (f : Fact) (w : Walk) → w.out ≡ [] → take_fact 0 f w ≡ returned (f ∷ [])
unfolding take_fact
take_fact_zero f w empty = rw (empty, take_fact) refl

visit_facts_zero :
    (id : Str) (fs : List Fact) (f : Fact) (w : Walk)
    → In f fs
    → is_trusted f.layer ≡ true
    → elem id f.args ≡ true
    → w.out ≡ []
    → (g : Fact) × (visit_facts 0 id fs w ≡ returned (g ∷ []))
unfolding visit_facts and_then
visit_facts_zero id [] f w m trusts mentions empty = elim m [ ]
visit_facts_zero id (g ∷ fs) f w m trusts mentions empty = elim (Bool-cases (fits id g w)) [
  | inl taken ↦ (g, rw (visit_fact_taken 0 id g w taken, take_fact_zero g w empty, and_then) refl)
  | inr skipped ↦ elim m [
    | inl same ↦
        let fresh : elem f w.out ≡ false = unfold elem in rw empty refl in
        absurd (ground (arith, same, skipped))
    | inr later ↦
        let (h, found) = visit_facts_zero id fs f w later trusts mentions empty in
        (h, rw (visit_fact_skipped 0 id g w skipped, and_then) found)
  ]
]

-- With a limit of one or more, at most that many facts are selected.
pub k_hop_bound :
    (graph : GraphStore) (max_facts : ℕ) (anchor_id : Str) (hops : ℕ)
    → 1 ≤ max_facts
    → length (k_hop graph max_facts anchor_id hops) ≤ max_facts
unfolding k_hop
k_hop_bound graph max_facts anchor_id hops positive =
    Room-le max_facts _ (hop_loop-Room max_facts graph anchor_id hops positive)

-- With a limit of nothing one fact is selected all the same, when the graph has a trusted fact that
-- mentions the anchor.
pub k_hop_zero :
    (graph : GraphStore) (anchor_id : Str) (hops : ℕ) (f : Fact)
    → In f (all_facts graph)
    → is_trusted f.layer ≡ true
    → elem anchor_id f.args ≡ true
    → length (k_hop graph 0 anchor_id hops) ≡ 1
unfolding k_hop hop_loop visit_ids and_then facts_out
k_hop_zero graph anchor_id hops f there trusts mentions =
    let (g, found) =
      visit_facts_zero anchor_id (sort_by fact_le (all_facts graph)) f
        (record { next = []; seen_ids = anchor_id ∷ []; out = [] })
        (In-sort_by_of fact_le f (all_facts graph) there) trusts mentions refl in
    rw (found, hop_loop, visit_ids, and_then) refl
