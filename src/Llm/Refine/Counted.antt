-- ===== src/Llm/Refine/Counted.antt =====
-- The counters within one round of a refinement.
use prolog_forge.Prelude.{ℕ, ◌+◌, List, [], ◌∷◌, Bool, ◌≡◌, refl, Str, length, length-append, arith}
use prolog_forge.Graph.Store.{GraphStore}
use prolog_forge.Llm.Provider.{LlmResponse}
use prolog_forge.Llm.Propose.{Proposal, ProposalOutcome, settle}
use prolog_forge.Llm.Refine.{RefineResult, Tally, tally_outcome, tally_all, start_round}

-- A tally within the round that started from `r`.
pub record Counts (r : RefineResult) (t : Tally) : Type 0 where
  pub same_rounds : t.result.rounds_summary ≡ r.rounds_summary
  pub same_converged : t.result.converged ≡ r.converged
  pub accepted_so_far : t.result.final_accepted ≡ r.final_accepted + t.summary.accepted
  pub rejected_so_far : t.result.final_rejected ≡ r.final_rejected + t.summary.rejected
  pub carried : t.summary.rejected ≡ length t.new_rejections
  pub outcomes_so_far :
      length t.result.outcomes ≡ length r.outcomes + t.summary.accepted + t.summary.rejected

tally_outcome-Counts :
    (r : RefineResult) (o : ProposalOutcome) (t : Tally) → Counts r t → Counts r (tally_outcome o t)
unfolding tally_outcome
tally_outcome-Counts r o t c = record {
  same_rounds = c.same_rounds;
  same_converged = c.same_converged;
  accepted_so_far = omega (arith, c.accepted_so_far);
  rejected_so_far = omega (arith, c.rejected_so_far);
  carried = ground (arith, c.carried, length-append t.new_rejections (o ∷ []));
  outcomes_so_far = ground (arith, c.outcomes_so_far, length-append t.result.outcomes (o ∷ []));
}

pub tally_all-Counts :
    (known : List Str) (cs : List Proposal) (r : RefineResult) (t : Tally) (graph : GraphStore)
    → Counts r t
    → Counts r (tally_all known cs t graph).0
unfolding tally_all
tally_all-Counts known [] r t graph c = c
tally_all-Counts known (p ∷ cs) r t graph c =
    let (o, next) = settle known p graph in
    tally_all-Counts known cs r (tally_outcome o t) next (tally_outcome-Counts r o t c)

pub start_round-Counts :
    (round : ℕ) (raw : LlmResponse) (hit : Bool) (r : RefineResult)
    → Counts r (start_round round raw hit r)
unfolding start_round
start_round-Counts round raw hit r = record {
  same_rounds = refl;
  same_converged = refl;
  accepted_so_far = omega arith;
  rejected_so_far = omega arith;
  carried = refl;
  outcomes_so_far = omega arith;
}
