-- ===== src/Llm/Context/Rule.antt =====
-- The rule for the loops of the selection: what every visit of a fact keeps holds at the end.
use prolog_forge.Prelude.{
  ℕ, zero, suc, ◌+◌, ◌≤◌, List, [], ◌∷◌, inl, inr, refl, Str, In, All, arith,
}
use prolog_forge.Graph.Fact.{Fact}
use prolog_forge.Llm.Context.{
  Walk, Flow, going, returned, and_then, visit_fact, visit_facts, visit_ids, go_on, hop_loop,
}

-- `P k` holds within round `k`, in which the ids of the frontier have `F k`; `Q` is of the end.
module _ (max_facts hops : ℕ) (facts : List Fact) (F : ℕ → Str → Type 0) (P : ℕ → Walk → Type 0)
    (Q : Flow → Type 0) where
  abbrev pub Keeps : ℕ → Flow → Type 0
  Keeps k (going w) = P k w
  Keeps k (returned out) = Q (returned out)

  -- A visit keeps `P` or returns with `Q`.
  abbrev pub VisitKeeps : Type 0
  VisitKeeps =
      (k : ℕ) (id : Str) (f : Fact) (w : Walk)
      → k ≤ hops
      → F k id
      → In f facts
      → P k w
      → Keeps k (visit_fact max_facts id f w)

  -- The next round starts with what the last one left.
  abbrev pub TurnKeeps : Type 0
  TurnKeeps =
      (k : ℕ) (w : Walk)
      → P k w
      → All (F (suc k)) w.next
        × P (suc k) (record { next = []; seen_ids = w.seen_ids; out = w.out })

  abbrev pub Ends : Type 0
  Ends = (k : ℕ) (w : Walk) → P k w → Q (going w)

  Keeps-and_then :
      (k : ℕ) (flow : Flow) (next : Walk → Flow)
      → Keeps k flow
      → ((w : Walk) → P k w → Keeps k (next w))
      → Keeps k (and_then flow next)
  unfolding and_then
  Keeps-and_then k (going w) next h step = step w h
  Keeps-and_then k (returned out) next h step = h

  visit_facts-Keeps :
      (k : ℕ) (id : Str) (fs : List Fact) (w : Walk)
      → VisitKeeps
      → k ≤ hops
      → F k id
      → ((f : Fact) → In f fs → In f facts)
      → P k w
      → Keeps k (visit_facts max_facts id fs w)
  unfolding visit_facts
  visit_facts-Keeps k id [] w visit le linked all h = h
  visit_facts-Keeps k id (f ∷ fs) w visit le linked all h =
      Keeps-and_then k (visit_fact max_facts id f w) _
        (visit k id f w le linked (all f (inl refl)) h)
        (λ v kept. visit_facts-Keeps k id fs v visit le linked (λ g m. all g (inr m)) kept)

  visit_ids-Keeps :
      (k : ℕ) (ids : List Str) (w : Walk)
      → VisitKeeps
      → k ≤ hops
      → All (F k) ids
      → P k w
      → Keeps k (visit_ids max_facts facts ids w)
  unfolding visit_ids
  visit_ids-Keeps k [] w visit le hs h = h
  visit_ids-Keeps k (id ∷ ids) w visit le (linked, hs) h =
      Keeps-and_then k (visit_facts max_facts id facts w) _
        (visit_facts-Keeps k id facts w visit le linked (λ f m. m) h)
        (λ v kept. visit_ids-Keeps k ids v visit le hs kept)

  round_ends :
      (k : ℕ) (flow : Flow) (next : Walk → Flow)
      → Keeps k flow
      → ((w : Walk) → P k w → Q (next w))
      → Q (and_then flow next)
  unfolding and_then
  round_ends k (going w) next h step = step w h
  round_ends k (returned out) next h step = h

  go_on_ends :
      (ids : List Str) (w : Walk) (more : Walk → Flow)
      → Q (going w)
      → Q (more w)
      → Q (go_on ids w more)
  unfolding go_on
  go_on_ends [] w more h k = h
  go_on_ends (id ∷ ids) w more h k = k

  pub hop_loop_ends :
      (rounds k : ℕ) (w : Walk)
      → VisitKeeps
      → TurnKeeps
      → Ends
      → rounds + k ≤ suc hops
      → All (F k) w.next
      → P k (record { next = []; seen_ids = w.seen_ids; out = w.out })
      → Q (going w)
      → Q (hop_loop rounds max_facts facts w)
  unfolding hop_loop
  hop_loop_ends zero k w visit turn ends le hs h end = end
  hop_loop_ends (suc rounds) k w visit turn ends le hs h end =
      let round : Walk = record { next = []; seen_ids = w.seen_ids; out = w.out } in
      round_ends k (visit_ids max_facts facts w.next round) _
        (visit_ids-Keeps k w.next round visit (omega arith) hs h)
        (λ v kept.
          let (hs', h') = turn k v kept in
          go_on_ends v.next v (hop_loop rounds max_facts facts) (ends k v kept)
            (hop_loop_ends rounds (suc k) v visit turn ends (omega arith) hs' h' (ends k v kept)))
