-- ===== src/Llm/Refine.antt =====
-- The refinement loop, crates/aa-llm/src/refine.rs. Its `known_entity_ids` and `resolve` are those of the
-- proposer, word for word. The loop runs on the rounds that are left.
pub mod Counted
pub mod Rounds
use prolog_forge.Prelude.{
  ℕ, zero, suc, ◌+◌, ◌-◌, ◌^◌, min, List, [], ◌∷◌, ◌++◌, Option, none, some, Bool, true, false, Str,
  bytes, map, if◌then◌else◌, Result, ok, err,
}
use prolog_forge.Graph.Fact.{Fact}
use prolog_forge.Graph.Store.{GraphStore}
use prolog_forge.Llm.Context.{k_hop}
use prolog_forge.Llm.Prompt.{build_refine, refine_v1, RejectionLine, DiagnosticLine}
use prolog_forge.Llm.Provider.{
  LlmRequest, LlmResponse, LlmError, invalid_response, Provider, ResponseCache, Hasher,
}
use prolog_forge.Llm.Propose.{Proposal, ProposalOutcome, Reader, known_entity_ids, settle, fetch}

pub record RefineRequest : Type 0 where
  pub intent : Str
  pub anchor_id : Str
  pub hops : ℕ
  pub max_facts : ℕ
  pub max_rounds : ℕ
  pub max_tokens : ℕ
  pub temperature : ℕ
  pub prior_outcomes : List ProposalOutcome
  pub prior_diagnostics : List DiagnosticLine

pub record RoundSummary : Type 0 where
  pub round : ℕ
  pub accepted : ℕ
  pub rejected : ℕ
  pub cache_hit : Bool
  pub tokens_in : ℕ
  pub tokens_out : ℕ

pub record RefineResult : Type 0 where
  pub rounds : ℕ
  pub converged : Bool
  pub final_accepted : ℕ
  pub final_rejected : ℕ
  pub tokens_in_total : ℕ
  pub tokens_out_total : ℕ
  pub outcomes : List ProposalOutcome
  pub rounds_summary : List RoundSummary

unfoldable pub rejections : List ProposalOutcome → List ProposalOutcome
rejections [] = []
rejections (o ∷ os) = if o.accepted then rejections os else o ∷ rejections os

reason_or_empty : Option Str → Str
reason_or_empty none = []
reason_or_empty (some reason) = reason

unfoldable pub rejection_line : ProposalOutcome → RejectionLine
unfolding reason_or_empty
rejection_line o = record {
  predicate = o.predicate;
  args = o.args;
  reason = reason_or_empty o.rejection_reason;
}

unfoldable pub request_of : RefineRequest → List Fact → List ProposalOutcome → LlmRequest
request_of req facts carried =
    let (system, user) =
      build_refine refine_v1 req.intent facts (map rejection_line carried) req.prior_diagnostics in
    record {
      system = system;
      user = user;
      schema_id = bytes "refine.v1";
      max_tokens = req.max_tokens;
      temperature = req.temperature;
    }

-- What the loop over the candidates of a round changes besides the graph.
pub record Tally : Type 0 where
  pub summary : RoundSummary
  pub result : RefineResult
  pub new_rejections : List ProposalOutcome

unfoldable pub tally_outcome : ProposalOutcome → Tally → Tally
tally_outcome o t =
    let one : ℕ = if o.accepted then 1 else 0 in
    let other : ℕ = if o.accepted then 0 else 1 in
    record {
      summary = record t.summary {
        accepted = t.summary.accepted + one;
        rejected = t.summary.rejected + other;
      };
      result = record t.result {
        final_accepted = t.result.final_accepted + one;
        final_rejected = t.result.final_rejected + other;
        outcomes = t.result.outcomes ++ o ∷ [];
      };
      new_rejections = if o.accepted then t.new_rejections else t.new_rejections ++ o ∷ [];
    }

unfoldable pub tally_all : List Str → List Proposal → Tally → GraphStore → Tally × GraphStore
tally_all known [] t graph = (t, graph)
tally_all known (c ∷ cs) t graph =
    let (o, next) = settle known c graph in tally_all known cs (tally_outcome o t) next

-- `saturating_add` of a `u32`.
unfoldable pub saturating_add : ℕ → ℕ → ℕ
saturating_add a b = min (a + b) (2 ^ 32 - 1)

unfoldable pub start_round : ℕ → LlmResponse → Bool → RefineResult → Tally
start_round round raw hit result = record {
  summary = record {
    round = round;
    accepted = 0;
    rejected = 0;
    cache_hit = hit;
    tokens_in = raw.tokens_in;
    tokens_out = raw.tokens_out;
  };
  result = result;
  new_rejections = [];
}

unfoldable pub end_round : LlmResponse → Tally → RefineResult
end_round raw t = record t.result {
  tokens_in_total = saturating_add t.result.tokens_in_total raw.tokens_in;
  tokens_out_total = saturating_add t.result.tokens_out_total raw.tokens_out;
  rounds_summary = t.result.rounds_summary ++ t.summary ∷ [];
}

abbrev pub Refined : Type 0
Refined = Result LlmError RefineResult × (GraphStore × ResponseCache)

-- The end of a round: the loop is done, or goes on with the rejections.
unfoldable pub conclude :
    ℕ
    → List ProposalOutcome
    → RefineResult
    → GraphStore
    → ResponseCache
    → (GraphStore → ResponseCache → Refined)
    → Refined
conclude round [] result graph cache more =
    (ok (record result { converged = true; rounds = round }), (graph, cache))
conclude round (o ∷ os) result graph cache more = more graph cache

-- How a round goes on: the rejections, the result, the graph and the cache that it leaves.
abbrev pub Next : Type 0
Next = List ProposalOutcome → RefineResult → GraphStore → ResponseCache → Refined

unfoldable pub settle_round :
    ℕ
    → LlmResponse
    → Bool
    → RefineResult
    → GraphStore
    → ResponseCache
    → Result Str (List Proposal)
    → Next
    → Refined
settle_round round raw hit result graph cache (err e) next =
    (err (invalid_response (bytes "refine schema mismatch: " ++ e)), (graph, cache))
settle_round round raw hit result graph cache (ok cs) next =
    let (t, after) =
      tally_all (known_entity_ids graph) cs (start_round round raw hit result) graph in
    next t.new_rejections (end_round raw t) after cache

unfoldable pub run_round :
    Reader
    → ℕ
    → RefineResult
    → GraphStore
    → Result LlmError (LlmResponse × Bool) × ResponseCache
    → Next
    → Refined
unfolding settle_round
run_round read round result graph (err e, cache) next = (err e, (graph, cache))
run_round read round result graph (ok (raw, hit), cache) next =
    settle_round round raw hit result graph cache (read raw.text) next

module _ (hash : Hasher) (read : Reader) (provider : Provider) (req : RefineRequest)
    (facts : List Fact) where
  unfoldable pub refine_loop :
      ℕ → ℕ → List ProposalOutcome → RefineResult → GraphStore → ResponseCache → Refined
  unfolding run_round conclude
  refine_loop zero round carried result graph cache =
      (ok (record result { rounds = round }), (graph, cache))
  refine_loop (suc left) round carried result graph cache =
      run_round read (suc round) result graph
        (fetch hash provider (request_of req facts carried) cache)
        (λ new r after c.
          conclude (suc round) new r after c (refine_loop left (suc round) (carried ++ new) r))

abbrev pub empty_result : RefineResult
empty_result = record {
  rounds = 0;
  converged = false;
  final_accepted = 0;
  final_rejected = 0;
  tokens_in_total = 0;
  tokens_out_total = 0;
  outcomes = [];
  rounds_summary = [];
}

-- `max(1)`.
unfoldable pub rounds_cap : ℕ → ℕ
rounds_cap zero = 1
rounds_cap (suc n) = suc n

unfoldable pub refine :
    Hasher → Reader → Provider → RefineRequest → GraphStore → ResponseCache → Refined
refine hash read provider req graph cache =
    refine_loop hash read provider req (k_hop graph req.max_facts req.anchor_id req.hops)
      (rounds_cap req.max_rounds) 0 (rejections req.prior_outcomes) empty_result graph cache
