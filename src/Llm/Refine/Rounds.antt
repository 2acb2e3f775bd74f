-- ===== src/Llm/Refine/Rounds.antt =====
-- The rounds of a refinement and what its result says of them.
use prolog_forge.Prelude.{
  ℕ, zero, suc, ◌+◌, ◌≤◌, List, [], ◌∷◌, ◌++◌, Bool, true, false, ◌≡◌, ◌⊎◌, inl, inr, refl, sym, ap,
  subst, ◌∙◌, Str, length, length-append, All, All-append, Result, ok, err, arith,
}
use prolog_forge.Graph.Fact.{Fact}
use prolog_forge.Graph.Store.{GraphStore}
use prolog_forge.Llm.Provider.{LlmResponse, LlmError, Provider, ResponseCache, Hasher}
use prolog_forge.Llm.Propose.{Proposal, ProposalOutcome, Reader, known_entity_ids, fetch}
use prolog_forge.Llm.Refine.Counted.{Counts, tally_all-Counts, start_round-Counts}
use prolog_forge.Llm.Refine.{
  RefineRequest, RoundSummary, RefineResult, Tally, Refined, tally_all, start_round, end_round,
  conclude, settle_round, run_round, refine_loop, empty_result, rounds_cap, request_of, refine,
}

unfoldable pub sum_accepted : List RoundSummary → ℕ
sum_accepted [] = 0
sum_accepted (s ∷ ss) = s.accepted + sum_accepted ss

unfoldable pub sum_rejected : List RoundSummary → ℕ
sum_rejected [] = 0
sum_rejected (s ∷ ss) = s.rejected + sum_rejected ss

sum_accepted-append :
    (xs ys : List RoundSummary) → sum_accepted (xs ++ ys) ≡ sum_accepted xs + sum_accepted ys
unfolding sum_accepted
sum_accepted-append [] ys = omega arith
sum_accepted-append (x ∷ xs) ys = omega (arith, sum_accepted-append xs ys)

sum_rejected-append :
    (xs ys : List RoundSummary) → sum_rejected (xs ++ ys) ≡ sum_rejected xs + sum_rejected ys
unfolding sum_rejected
sum_rejected-append [] ys = omega arith
sum_rejected-append (x ∷ xs) ys = omega (arith, sum_rejected-append xs ys)

-- The counters of a result are the sums over its rounds.
abbrev pub Sums : RefineResult → Type 0
Sums r =
    (r.final_accepted ≡ sum_accepted r.rounds_summary)
    × (r.final_rejected ≡ sum_rejected r.rounds_summary)
    × (length r.outcomes ≡ r.final_accepted + r.final_rejected)

-- Before a round: `round` rounds are over, and each of them had rejections.
abbrev Before : ℕ → RefineResult → Type 0
Before round r =
    (length r.rounds_summary ≡ round)
    × (r.converged ≡ false)
    × All (λ s. 1 ≤ s.rejected) r.rounds_summary
    × Sums r

-- How a refinement with at most `most` rounds ends.
abbrev pub EndsWithin : ℕ → RefineResult → Type 0
EndsWithin most r =
    (1 ≤ r.rounds)
    × (r.rounds ≤ most)
    × (length r.rounds_summary ≡ r.rounds)
    × Sums r
    × ((earlier : List RoundSummary) × (last : RoundSummary) × (r.rounds_summary
          ≡ earlier ++ last ∷ [])
        × All (λ s. 1 ≤ s.rejected) earlier
        × (((r.converged ≡ true) × (last.rejected ≡ 0))
            ⊎ ((r.converged ≡ false) × (1 ≤ last.rejected) × (r.rounds ≡ most))))

-- The result of a round, with its summary at the end.
round_Sums :
    (raw : LlmResponse) (r : RefineResult) (t : Tally)
    → Sums r
    → Counts r t
    → Sums (end_round raw t)
unfolding end_round sum_accepted sum_rejected
round_Sums raw r t (acc, rej, os) c =
    let listed = c.same_rounds in
    (
      rw (c.accepted_so_far, listed, sum_accepted-append r.rounds_summary (t.summary ∷ []))
          (omega (arith, acc)),
      rw (c.rejected_so_far, listed, sum_rejected-append r.rounds_summary (t.summary ∷ []))
          (omega (arith, rej)),
      omega (arith, c.outcomes_so_far, c.accepted_so_far, c.rejected_so_far, os),
    )

abbrev pub ResultEnds : ℕ → Refined → Type 0
ResultEnds most (ok r, rest) = EndsWithin most r
ResultEnds most (err e, rest) = Unit

end_round-split :
    (raw : LlmResponse) (r : RefineResult) (t : Tally)
    → Counts r t
    → (end_round raw t).rounds_summary ≡ r.rounds_summary ++ t.summary ∷ []
unfolding end_round
end_round-split raw r t c = ap (λ l. l ++ t.summary ∷ []) c.same_rounds

-- The end of a round that had no rejection, and of one that had some.
conclude-Ends :
    (most round : ℕ) (raw : LlmResponse) (r : RefineResult) (t : Tally) (new : List ProposalOutcome)
    (graph : GraphStore) (cache : ResponseCache) (more : GraphStore → ResponseCache → Refined)
    → suc round ≤ most
    → Before round r
    → Counts r t
    → t.new_rejections ≡ new
    → (Before (suc round) (end_round raw t) → ResultEnds most (more graph cache))
    → ResultEnds most (conclude (suc round) new (end_round raw t) graph cache more)
unfolding conclude
conclude-Ends most round raw r t [] graph cache more le (len, conv, hadall, sums) c same go =
    let split = end_round-split raw r t c in
    (
      omega arith,
      le,
      omega (arith, ap length split, length-append r.rounds_summary (t.summary ∷ [])),
      round_Sums raw r t sums c,
      (
        r.rounds_summary,
        t.summary,
        split,
        hadall,
        inl (refl, omega (arith, c.carried, ap length same)),
      ),
    )
conclude-Ends most round raw r t (o ∷ os) graph cache more le (len, conv, hadall, sums) c same go =
    let split = end_round-split raw r t c in
    let some_rejected : 1 ≤ t.summary.rejected = omega (arith, c.carried, ap length same) in
    go (
      omega (arith, ap length split, length-append r.rounds_summary (t.summary ∷ [])),
      unfold end_round in (c.same_converged ∙ conv),
      rw split (
          All-append (λ s. 1 ≤ s.rejected) r.rounds_summary (t.summary ∷ []) hadall
            (some_rejected, tt)),
      round_Sums raw r t sums c,
    )

-- The last of a list with an element.
last_split :
    (P : RoundSummary → Type 0) (x : RoundSummary) (xs : List RoundSummary)
    → All P (x ∷ xs)
    → (earlier : List RoundSummary) × (last : RoundSummary) × (x ∷ xs ≡ earlier ++ last ∷ [])
      × All P earlier
      × P last
last_split P x [] (h, hs) = ([], x, refl, tt, h)
last_split P x (y ∷ xs) (h, hs) =
    let (earlier, last, split, all, at_last) = last_split P y xs hs in
    (x ∷ earlier, last, ap (λ l. x ∷ l) split, (h, all), at_last)

out_of_rounds :
    (most : ℕ) (r : RefineResult)
    → 1 ≤ most
    → Before most r
    → EndsWithin most (record r { rounds = most })
out_of_rounds most r positive (len, conv, hadall, sums) = from r.rounds_summary refl hadall
  where
    from :
        (xs : List RoundSummary)
        → r.rounds_summary ≡ xs
        → All (λ s. 1 ≤ s.rejected) xs
        → EndsWithin most (record r { rounds = most })
    from [] same all = absurd (omega (arith, ap length same))
    from (x ∷ xs) same all =
        let (earlier, last, split, h, at_last) = last_split (λ s. 1 ≤ s.rejected) x xs all in
        (
          positive,
          omega arith,
          len,
          sums,
          (earlier, last, same ∙ split, h, inr (conv, at_last, refl)),
        )

run_round-Ends :
    (most round : ℕ) (read : Reader) (r : RefineResult) (graph : GraphStore)
    (got : Result LlmError (LlmResponse × Bool) × ResponseCache)
    (loop : List ProposalOutcome → RefineResult → GraphStore → ResponseCache → Refined)
    → suc round ≤ most
    → Before round r
    → ((new : List ProposalOutcome) (r' : RefineResult) (after : GraphStore) (c : ResponseCache)
        → Before (suc round) r'
        → ResultEnds most (loop new r' after c))
    → ResultEnds most (
        run_round read
          (suc round)
          r
          graph
          got
          (λ new r' after c. conclude (suc round) new r' after c (loop new r')))
unfolding run_round settle_round
run_round-Ends most round read r graph (err e, cache) loop le before goes_on = tt
run_round-Ends most round read r graph (ok (raw, hit), cache) loop le before goes_on =
    from (read raw.text)
  where
    next : List ProposalOutcome → RefineResult → GraphStore → ResponseCache → Refined
    next new r' after c = conclude (suc round) new r' after c (loop new r')

    from :
        (p : Result Str (List Proposal))
        → ResultEnds most (settle_round (suc round) raw hit r graph cache p next)
    from (err e) = tt
    from (ok cs) =
        let first = start_round (suc round) raw hit r in
        let known = known_entity_ids graph in
        let (t, after) = tally_all known cs first graph in
        conclude-Ends most round raw r t t.new_rejections after cache
          (loop t.new_rejections (end_round raw t)) le before
          (tally_all-Counts known cs r first graph (start_round-Counts (suc round) raw hit r)) refl
          (λ b. goes_on t.new_rejections (end_round raw t) after cache b)

module _ (hash : Hasher) (read : Reader) (provider : Provider) (req : RefineRequest)
    (facts : List Fact) (most : ℕ) where
  refine_loop-Ends :
      (left round : ℕ) (carried : List ProposalOutcome) (r : RefineResult) (graph : GraphStore)
      (cache : ResponseCache)
      → round + left ≡ most
      → 1 ≤ most
      → Before round r
      → ResultEnds most (refine_loop hash read provider req facts left round carried r graph cache)
  unfolding refine_loop
  refine_loop-Ends zero round carried r graph cache sum positive before =
      let last : round ≡ most = omega arith in
      subst (λ (n : ℕ). EndsWithin most (record r { rounds = n })) (sym last)
        (out_of_rounds most r positive (subst (λ (n : ℕ). Before n r) last before))
  refine_loop-Ends (suc left) round carried r graph cache sum positive before =
      run_round-Ends most round read r graph
        (fetch hash provider (request_of req facts carried) cache)
        (λ new r'. refine_loop hash read provider req facts left (suc round) (carried ++ new) r')
        (omega arith) before
        (λ new r' after c b.
          refine_loop-Ends left (suc round) (carried ++ new) r' after c (omega arith) positive b)

-- A refinement that succeeds runs at least one round and at most as many as asked for, one where none is
-- asked for. Each of its rounds but the last had rejections; it converged in the last when that had
-- none, and otherwise used all its rounds. The counters are the sums over the rounds, and the outcomes
-- are as many.
pub refine_rounds :
    (hash : Hasher) (read : Reader) (provider : Provider) (req : RefineRequest) (graph : GraphStore)
    (cache : ResponseCache)
    → ResultEnds (rounds_cap req.max_rounds) (refine hash read provider req graph cache)
unfolding refine sum_accepted sum_rejected
refine_rounds hash read provider req graph cache =
    let most = rounds_cap req.max_rounds in
    refine_loop-Ends hash read provider req _ most most 0 _ empty_result graph cache (omega arith)
      (positive req.max_rounds) (refl, refl, tt, (refl, refl, refl))
  where
    positive : (n : ℕ) → 1 ≤ rounds_cap n
    positive zero = unfold rounds_cap in omega arith
    positive (suc n) = unfold rounds_cap in omega arith
