-- ===== src/Llm/Tests.antt =====
-- The language model pipeline on small inputs.
use prolog_forge.Prelude.{
  inl, list_beq, map_values, sort_by, insert_sorted, set_insert, arith, ◌↔◌, ◌+◌, ◌≤◌, [], ◌∷◌,
  true, false, ◌≡◌, refl, nat_eq, list_eq, map_get, bytes, length, elem, ok, err,
}
use prolog_forge.Graph.Fact.{fact_beq, layer_beq, Fact, fact_eq, observed_fact}
use prolog_forge.Graph.Store.{flatten, GraphStore, all_facts}
use prolog_forge.Llm.Context.{
  k_hop, is_trusted, hop_loop, facts_out, go_on, visit_ids, visit_facts, visit_fact, take_fact,
  and_then, note_ids, note_id, fact_le,
}
use prolog_forge.Llm.Context.Linked.{IsAround}
use prolog_forge.Llm.Context.Bounded.{k_hop_bound, k_hop_zero}
use prolog_forge.Llm.Context.Exact.{k_hop_exact}
use prolog_forge.Llm.Provider.{LlmResponse, unavailable, Provider, Hasher, get}
use prolog_forge.Llm.Propose.{ProposeRequest, Reader, fetch, request_of, settle_read, propose}
use prolog_forge.Llm.Propose.Grounded.{Meets, propose-Meets}
use prolog_forge.Llm.Propose.Cached.{propose_cached}
use prolog_forge.Llm.Refine.{RefineRequest, refine, rounds_cap}
use prolog_forge.Llm.Refine.Rounds.{ResultEnds, refine_rounds}

abbrev graph : GraphStore
graph = record {
  arities = (bytes "function", 2) ∷ [];
  buckets =
      (bytes "function", observed_fact (bytes "function") (bytes "id_a" ∷ bytes "a" ∷ []) ∷ [])
      ∷ [];
}

abbrev hash : Hasher
hash provider system user schema tokens temperature = length user + tokens

abbrev read : Reader
read text = ok (
    record { predicate = bytes "pure"; args = bytes "id_a" ∷ []; justification = text }
    ∷ record { predicate = bytes "pure"; args = bytes "id_x" ∷ []; justification = text }
    ∷ [])

abbrev provider : Provider
provider = record {
  name = bytes "mock";
  complete = λ req.
      ok (record { text = bytes "t"; tokens_in = 1; tokens_out = 1; provider = bytes "mock" });
}

abbrev down : Provider
down = record { name = bytes "mock"; complete = λ req. err (unavailable []) }

abbrev req : ProposeRequest
req = record {
  intent = bytes "purity";
  anchor_id = bytes "id_a";
  hops = 1;
  max_facts = 8;
  max_tokens = 9;
  temperature = 0;
}

k_hop_bound_example : length (k_hop graph 2 (bytes "id_a") 1) ≤ 2
k_hop_bound_example = k_hop_bound graph 2 (bytes "id_a") 1 (omega arith)

abbrev function_a : Fact
function_a = observed_fact (bytes "function") (bytes "id_a" ∷ bytes "a" ∷ [])

k_hop_zero_example : length (k_hop graph 0 (bytes "id_a") 1) ≡ 1
unfolding all_facts flatten map_values is_trusted elem list_beq observed_fact
k_hop_zero_example = k_hop_zero graph (bytes "id_a") 1 function_a (inl refl) refl refl

selected : length (k_hop graph 8 (bytes "id_a") 1) ≡ 1
unfolding k_hop is_trusted hop_loop facts_out go_on visit_ids visit_facts visit_fact take_fact
    and_then note_ids note_id fact_le all_facts flatten map_values sort_by insert_sorted elem
    list_beq set_insert observed_fact fact_beq layer_beq
selected = refl

k_hop_exact_example :
    (elem function_a (k_hop graph 8 (bytes "id_a") 1) ≡ true)
    ↔ IsAround graph (bytes "id_a") 1 function_a
k_hop_exact_example = k_hop_exact graph 8 (bytes "id_a") 1 function_a (omega (arith, selected))

propose-Meets_example :
    Meets graph
      (propose hash read provider req graph []).0
      (propose hash read provider req graph []).1.0
propose-Meets_example = propose-Meets hash read provider req graph []

refine_req : RefineRequest
refine_req = record {
  intent = bytes "purity";
  anchor_id = bytes "id_a";
  hops = 1;
  max_facts = 8;
  max_rounds = 2;
  max_tokens = 9;
  temperature = 0;
  prior_outcomes = [];
  prior_diagnostics = [];
}

refine_rounds_example :
    ResultEnds (rounds_cap refine_req.max_rounds) (refine hash read provider refine_req graph [])
refine_rounds_example = refine_rounds hash read provider refine_req graph []

abbrev raw : LlmResponse
raw = record { text = bytes "t"; tokens_in = 1; tokens_out = 1; provider = bytes "mock" }

propose_cached_example :
    let kept = (fetch hash provider (request_of req graph) []).1 in
    let answer = settle_read raw true (read raw.text) graph in
    propose hash read down req graph kept ≡ (answer.0, (answer.1, kept))
unfolding fetch get map_get
propose_cached_example =
    propose_cached hash read provider down req req graph graph [] raw false refl refl refl
