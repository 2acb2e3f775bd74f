-- ===== src/Explain/Tests.antt =====
-- The explanation of a small plan.
use prolog_forge.Prelude.{[], ◌∷◌, none, true, false, ◌≡◌, refl, nat_eq, list_eq, list_beq, bytes}
use prolog_forge.Graph.Fact.{observed_fact}
use prolog_forge.Graph.Store.{GraphStore}
use prolog_forge.Explain.{
  ExplainInput, rejected, build, synth_verdict, verdict_of_stages, any_failed, failing_stages,
  has_semantic_stage,
}
use prolog_forge.Explain.Counted.{IsFaithful}
use prolog_forge.Explain.Cited.{build-IsFaithful}
use prolog_forge.Explain.Verdicts.{Justifies, build-Justifies}

abbrev graph : GraphStore
graph = record {
  arities = (bytes "function", 2) ∷ [];
  buckets =
      (bytes "function", observed_fact (bytes "function") (bytes "id_a" ∷ bytes "a" ∷ []) ∷ [])
      ∷ [];
}

abbrev input : ExplainInput
input = record {
  plan_label = bytes "plan";
  anchors = bytes "id_a" ∷ [];
  graph = graph;
  rules = [];
  candidate_outcomes =
      record {
        predicate = bytes "pure";
        args = bytes "id_a" ∷ [];
        justification = [];
        accepted = true;
        rejection_reason = none;
        round = none;
      }
      ∷ [];
  validation_stages =
      record { name = bytes "syntactic"; ok = true; diagnostics = [] }
      ∷ record { name = bytes "rules"; ok = false; diagnostics = [] }
      ∷ [];
  commit_id = none;
  rejection_reason = none;
}

verdict : (build input).verdict ≡ rejected (bytes "validation failed") (bytes "rules" ∷ [])
unfolding build synth_verdict verdict_of_stages any_failed failing_stages has_semantic_stage
    list_beq
verdict = refl

build-Justifies_example : Justifies input (build input).verdict
build-Justifies_example = build-Justifies input

build-IsFaithful_example :
    IsFaithful input.anchors
      (record { evidence = (build input).evidence; stats = (build input).stats })
build-IsFaithful_example = build-IsFaithful input
