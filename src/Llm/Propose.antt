-- ===== src/Llm/Propose.antt =====
-- The proposer, crates/aa-llm/src/propose.rs. The JSON reader is an argument: it gives the proposals of a
-- text or the message of its error.
pub mod Settled
pub mod Grounded
pub mod Cached
use prolog_forge.Prelude.{
  ℕ, zero, suc, ◌+◌, List, [], ◌∷◌, ◌++◌, Option, none, some, Bool, true, false, not, ◌&&◌, ◌||◌,
  ◌==◌, nat_eq, list_eq, Str, bytes, leb, elem, set_insert, if◌then◌else◌, Result, ok, err,
  to_decimal,
}
use prolog_forge.Graph.Fact.{Fact, candidate}
use prolog_forge.Graph.Store.{GraphStore, GraphError, arity_mismatch, insert, facts_of}
use prolog_forge.Llm.Context.{k_hop}
use prolog_forge.Llm.Prompt.{build, propose_v1}
use prolog_forge.Llm.Provider.{
  LlmRequest, LlmResponse, LlmError, invalid_response, Provider, ResponseCache, Hasher, get, put,
}

pub record ProposeRequest : Type 0 where
  pub intent : Str
  pub anchor_id : Str
  pub hops : ℕ
  pub max_facts : ℕ
  pub max_tokens : ℕ
  pub temperature : ℕ

pub record ProposalOutcome : Type 0 where
  pub predicate : Str
  pub args : List Str
  pub justification : Str
  pub accepted : Bool
  pub rejection_reason : Option Str

pub record ProposeResult : Type 0 where
  pub accepted : ℕ
  pub rejected : ℕ
  pub cache_hit : Bool
  pub tokens_in : ℕ
  pub tokens_out : ℕ
  pub outcomes : List ProposalOutcome

pub record Proposal : Type 0 where
  pub predicate : Str
  pub args : List Str
  pub justification : Str

abbrev pub Reader : Type 0
Reader = Str → Result Str (List Proposal)

abbrev pub entity_predicates : List Str
entity_predicates =
    bytes "module"
    ∷ bytes "package"
    ∷ bytes "file"
    ∷ bytes "function"
    ∷ bytes "type_def"
    ∷ bytes "trait_def"
    ∷ bytes "struct_def"
    ∷ bytes "field"
    ∷ bytes "variable"
    ∷ bytes "macro_def"
    ∷ []

unfoldable pub first_id : List Str → List Str → List Str
first_id [] set = set
first_id (id ∷ args) set = set_insert id set

unfoldable pub collect_ids : List Fact → List Str → List Str
collect_ids [] set = set
collect_ids (f ∷ fs) set = collect_ids fs (first_id f.args set)

unfoldable pub collect_predicates : List Str → GraphStore → List Str → List Str
collect_predicates [] graph set = set
collect_predicates (p ∷ ps) graph set =
    collect_predicates ps graph (collect_ids (facts_of graph p) set)

unfoldable pub known_entity_ids : GraphStore → List Str
known_entity_ids graph = collect_predicates entity_predicates graph []

-- The first character of a name, which a byte below 128 stands for.
starts_lowercase : Str → Bool
starts_lowercase [] = false
starts_lowercase (b ∷ s) = leb b'a' b && leb b b'z'

unfoldable pub unknown_arg : List Str → List Str → Option Str
unknown_arg known [] = none
unknown_arg known (a ∷ as') =
    let rest = unknown_arg known as' in if elem a known then rest else some a

unknown_message : Option Str → Result Str (Unit {0})
unknown_message none = ok tt
unknown_message (some a) = err (bytes "unknown identifier `" ++ (a ++ bytes "` (hallucination)"))

unfoldable pub resolve : Proposal → List Str → Result Str (Unit {0})
unfolding starts_lowercase unknown_message
resolve c known =
    if c.args == []
    then err (bytes "empty args")
    else if not (starts_lowercase c.predicate)
    then err (bytes "predicate must be a lowercase identifier")
    else unknown_message (unknown_arg known c.args)

abbrev pub outcome_of : Proposal → Bool → Option Str → ProposalOutcome
outcome_of c accepted reason = record {
  predicate = c.predicate;
  args = c.args;
  justification = c.justification;
  accepted = accepted;
  rejection_reason = reason;
}

unfoldable pub graph_message : GraphError → Str
graph_message (arity_mismatch pred expected got) =
    bytes "arity mismatch for predicate `"
    ++ (pred
        ++ (bytes "`: expected " ++ (to_decimal expected ++ (bytes ", got " ++ to_decimal got))))

abbrev pub candidate_fact : Proposal → Fact
candidate_fact c = record { predicate = c.predicate; args = c.args; layer = candidate }

inserted : Proposal → Result GraphError Bool × GraphStore → ProposalOutcome × GraphStore
inserted c (ok new, graph) = (outcome_of c true none, graph)
inserted c (err e, graph) = (outcome_of c false (some (graph_message e)), graph)

-- One turn of the loop: the outcome of a proposal and the graph after it.
settle_resolved : Proposal → Result Str (Unit {0}) → GraphStore → ProposalOutcome × GraphStore
unfolding inserted
settle_resolved c (ok u) graph = inserted c (insert (candidate_fact c) graph)
settle_resolved c (err reason) graph = (outcome_of c false (some reason), graph)

unfoldable pub settle : List Str → Proposal → GraphStore → ProposalOutcome × GraphStore
unfolding settle_resolved
settle known c graph = settle_resolved c (resolve c known) graph

unfoldable pub count_outcome : ProposalOutcome → ProposeResult → ProposeResult
count_outcome o r = record {
  accepted = r.accepted + (if o.accepted then 1 else 0);
  rejected = r.rejected + (if o.accepted then 0 else 1);
  cache_hit = r.cache_hit;
  tokens_in = r.tokens_in;
  tokens_out = r.tokens_out;
  outcomes = r.outcomes ++ o ∷ [];
}

unfoldable pub settle_all :
    List Str → List Proposal → ProposeResult → GraphStore → ProposeResult × GraphStore
settle_all known [] r graph = (r, graph)
settle_all known (c ∷ cs) r graph =
    let (o, next) = settle known c graph in settle_all known cs (count_outcome o r) next

unfoldable pub request_of : ProposeRequest → GraphStore → LlmRequest
request_of req graph =
    let facts = k_hop graph req.max_facts req.anchor_id req.hops in
    let (system, user) = build propose_v1 req.intent facts in
    record {
      system = system;
      user = user;
      schema_id = bytes "propose.v1";
      max_tokens = req.max_tokens;
      temperature = req.temperature;
    }

abbrev pub empty_result : LlmResponse → Bool → ProposeResult
empty_result raw cache_hit = record {
  accepted = 0;
  rejected = 0;
  cache_hit = cache_hit;
  tokens_in = raw.tokens_in;
  tokens_out = raw.tokens_out;
  outcomes = [];
}

unfoldable pub settle_read :
    LlmResponse
    → Bool
    → Result Str (List Proposal)
    → GraphStore
    → Result LlmError ProposeResult × GraphStore
settle_read raw hit (err e) graph = (err (invalid_response (bytes "schema mismatch: " ++ e)), graph)
settle_read raw hit (ok proposals) graph =
    let (r, after) = settle_all (known_entity_ids graph) proposals (empty_result raw hit) graph in
    (ok r, after)

module _ (hash : Hasher) (provider : Provider) where
  -- The reply of the cache or of the provider, whether it was cached, and the cache after it.
  unfoldable pub fetched :
      LlmRequest
      → ResponseCache
      → Option LlmResponse
      → Result LlmError LlmResponse
      → Result LlmError (LlmResponse × Bool) × ResponseCache
  fetched req cache (some hit) reply = (ok (hit, true), cache)
  fetched req cache none (err e) = (err e, cache)
  fetched req cache none (ok r) = (ok (r, false), put hash provider.name req r cache)

  unfoldable pub fetch :
      LlmRequest → ResponseCache → Result LlmError (LlmResponse × Bool) × ResponseCache
  unfolding fetched
  fetch req cache = fetched req cache (get hash provider.name req cache) (provider.complete req)

unfoldable pub propose_fetched :
    Reader
    → GraphStore
    → Result LlmError (LlmResponse × Bool) × ResponseCache
    → Result LlmError ProposeResult × (GraphStore × ResponseCache)
unfolding settle_read
propose_fetched read graph (err e, cache) = (err e, (graph, cache))
propose_fetched read graph (ok (raw, hit), cache) =
    let (r, after) = settle_read raw hit (read raw.text) graph in (r, (after, cache))

module _ (hash : Hasher) (read : Reader) (provider : Provider) where
  -- The result, and the graph and the cache after it.
  unfoldable pub propose :
      ProposeRequest
      → GraphStore
      → ResponseCache
      → Result LlmError ProposeResult × (GraphStore × ResponseCache)
  unfolding propose_fetched
  propose req graph cache =
      propose_fetched read graph (fetch hash provider (request_of req graph) cache)
