-- ===== src/Llm/Context/Linked.antt =====
-- The links from an anchor to the facts around it, and that every selected fact has one.
use prolog_forge.Prelude.{
  ℕ, suc, ◌≤◌, List, [], ◌∷◌, ◌++◌, true, not, ◌&&◌, Bool-cases, ◌≡◌, inl, inr, nat_eq, list_eq,
  Str, leb, length, elem, In, All, All-append, All-In, In-sort_by, sort_by, arith,
}
use prolog_forge.Graph.Fact.{Fact, fact_eq}
use prolog_forge.Graph.Store.{GraphStore, all_facts}
use prolog_forge.Llm.Context.Rule.{hop_loop_ends}
use prolog_forge.Llm.Context.{
  is_trusted, fact_le, Walk, Flow, going, returned, note_id, note_ids, take_fact, visit_fact,
  facts_out, start, k_hop,
}

-- An id that `k` facts link to the anchor: each is trusted and mentions two neighbours of the chain.
pub data Linked (graph : GraphStore) (anchor_id : Str) : ℕ → Str → Type 0 where
  here : Linked graph anchor_id 0 anchor_id
  over :
      (k : ℕ) (f : Fact) (id a : Str)
      → Linked graph anchor_id k id
      → In f (all_facts graph)
      → is_trusted f.layer ≡ true
      → elem id f.args ≡ true
      → In a f.args
      → Linked graph anchor_id (suc k) a

-- A trusted fact of the graph that mentions an id at most `hops` links away.
abbrev pub IsAround : GraphStore → Str → ℕ → Fact → Type 0
IsAround graph anchor_id hops f =
    In f (all_facts graph)
    × (is_trusted f.layer ≡ true)
    × ((k : ℕ) × (id : Str) × (k ≤ hops) × Linked graph anchor_id k id × (elem id f.args ≡ true))

module _ (graph : GraphStore) (anchor_id : Str) (hops : ℕ) where
  abbrev Fits : ℕ → Walk → Type 0
  Fits k w = All (Linked graph anchor_id k) w.next × All (IsAround graph anchor_id hops) w.out

  abbrev FlowFits : ℕ → Flow → Type 0
  FlowFits k (going w) = Fits k w
  FlowFits k (returned out) = All (IsAround graph anchor_id hops) out

  note_id-Fits :
      (k : ℕ) (a : Str) (w : Walk) → Linked graph anchor_id k a → Fits k w → Fits k (note_id a w)
  unfolding note_id
  note_id-Fits k a w h (next, out) = elim (Bool-cases (elem a w.seen_ids)) [
    | inl seen ↦ rw (seen, note_id) (next, out)
    | inr new ↦ rw (new, note_id) (All-append _ w.next (a ∷ []) next (h, tt), out)
  ]

  note_ids-Fits :
      (k : ℕ) (as' : List Str) (w : Walk)
      → All (Linked graph anchor_id k) as'
      → Fits k w
      → Fits k (note_ids as' w)
  unfolding note_ids
  note_ids-Fits k [] w h fits = fits
  note_ids-Fits k (a ∷ as') w (h, hs) fits =
      note_ids-Fits k as' (note_id a w) hs (note_id-Fits k a w h fits)

  take_fact-Fits :
      (max_facts k : ℕ) (f : Fact) (w : Walk)
      → All (Linked graph anchor_id k) f.args
      → IsAround graph anchor_id hops f
      → Fits k w
      → FlowFits k (take_fact max_facts f w)
  unfolding take_fact
  take_fact-Fits max_facts k f w args around (next, out) =
      let out' = All-append (IsAround graph anchor_id hops) w.out (f ∷ []) out (around, tt) in
      elim (Bool-cases (leb max_facts (length (w.out ++ f ∷ [])))) [
        | inl full ↦ rw (full, take_fact) out'
        | inr room ↦ rw (room, take_fact) (note_ids-Fits k f.args _ args (next, out'))
      ]

  visit_fact-Fits :
      (max_facts k : ℕ) (id : Str) (f : Fact) (w : Walk)
      → k ≤ hops
      → Linked graph anchor_id k id
      → In f (all_facts graph)
      → Fits (suc k) w
      → FlowFits (suc k) (visit_fact max_facts id f w)
  unfolding visit_fact
  visit_fact-Fits max_facts k id f w le linked there fits =
      elim (Bool-cases (is_trusted f.layer && (elem id f.args && not (elem f w.out)))) [
        | inr skipped ↦ rw (skipped, visit_fact) fits
        | inl taken ↦
            let trusts : is_trusted f.layer ≡ true = ground arith in
            let mentions : elem id f.args ≡ true = ground arith in
            rw (taken, visit_fact)
              (take_fact-Fits max_facts (suc k) f w
                (All-In _ f.args (λ a m. over k f id a linked there trusts mentions m))
                (there, trusts, (k, id, le, linked, mentions)) fits)
      ]

  pub k_hop-Around :
      (max_facts : ℕ) → All (IsAround graph anchor_id hops) (k_hop graph max_facts anchor_id hops)
  unfolding k_hop facts_out
  k_hop-Around max_facts =
      let facts = sort_by fact_le (all_facts graph) in
      hop_loop_ends max_facts hops facts (Linked graph anchor_id) (λ k w. Fits (suc k) w)
        (λ flow. All (IsAround graph anchor_id hops) (facts_out flow)) (suc hops) 0
        (start anchor_id)
        (λ k id f w le linked m fits.
          visit_fact-Fits max_facts k id f w le linked (In-sort_by fact_le f (all_facts graph) m)
            fits)
        (λ k w fits. (fits.0, (tt, fits.1))) (λ k w fits. fits.1) (omega arith) (here, tt) (tt, tt)
        tt
