-- ===== src/Explain.antt =====
-- The explanations, crates/aa-explain/src/model.rs and builder.rs.
pub mod Verdicts
pub mod Counted
pub mod Cited
mod Tests
use prolog_forge.Prelude.{
  ℕ, zero, suc, ◌+◌, List, [], ◌∷◌, ◌++◌, Option, none, some, Bool, true, false, not, ◌&&◌, ◌||◌,
  ◌==◌, nat_eq, list_eq, Str, bytes, length, elem, map, if◌then◌else◌, to_decimal,
}
use prolog_forge.Graph.Fact.{Fact, FactLayer, observed, inferred, candidate, validated, constraint}
use prolog_forge.Graph.Store.{GraphStore, all_facts}
use prolog_forge.Rules.Ast.{Rule}
use prolog_forge.Rules.Trace.{Derivation, trace_derivations}
use prolog_forge.Llm.Prompt.{join, em_dash}

pub data Verdict : Type 0 where
  accepted : Option Str → List Str → Verdict
  rejected : Str → List Str → Verdict
  not_proven : Str → Verdict

pub record PremiseFact : Type 0 where
  pub predicate : Str
  pub args : List Str
  pub layer : FactLayer

pub record CandidateRef : Type 0 where
  pub predicate : Str
  pub args : List Str
  pub justification : Str
  pub accepted : Bool
  pub rejection_reason : Option Str
  pub round : Option ℕ

pub record StageDiagnostic : Type 0 where
  pub severity : Str
  pub file : Option Str
  pub message : Str

pub data EvidenceNode : Type 0 where
  observed_node : Str → List Str → Str → EvidenceNode
  inferred_node : Str → List Str → EvidenceNode
  rule_activation : ℕ → PremiseFact → List PremiseFact → EvidenceNode
  candidate_node : CandidateRef → EvidenceNode
  stage_node : Str → Bool → List StageDiagnostic → EvidenceNode

pub record ExplanationStats : Type 0 where
  pub anchors : ℕ
  pub observed_cited : ℕ
  pub inferred_cited : ℕ
  pub rule_activations : ℕ
  pub candidates_considered : ℕ
  pub stages_run : ℕ

pub record Explanation : Type 0 where
  pub plan_label : Str
  pub anchors : List Str
  pub verdict : Verdict
  pub evidence : List EvidenceNode
  pub stats : ExplanationStats
  pub summary : Str

pub record ValidationStageRef : Type 0 where
  pub name : Str
  pub ok : Bool
  pub diagnostics : List StageDiagnostic

pub record ExplainInput : Type 0 where
  pub plan_label : Str
  pub anchors : List Str
  pub graph : GraphStore
  pub rules : List Rule
  pub candidate_outcomes : List CandidateRef
  pub validation_stages : List ValidationStageRef
  pub commit_id : Option Str
  pub rejection_reason : Option Str

unfoldable pub any_anchor : List Str → List Str → Bool
any_anchor anchors [] = false
any_anchor anchors (a ∷ args) = elem a anchors || any_anchor anchors args

unfoldable pub touches_anchor : Fact → List Str → Bool
unfolding any_anchor
touches_anchor f anchors = any_anchor anchors f.args

-- Whether the first argument is an anchor, or a later one.
role_for : Fact → List Str → Str
role_for f anchors = role f.args
  where
    role : List Str → Str
    role [] = bytes "unknown"
    role (a ∷ args) =
        if elem a anchors
        then bytes "anchor"
        else if any_anchor anchors args
        then bytes "neighbor"
        else bytes "unknown"

abbrev pub to_premise : Fact → PremiseFact
to_premise f = record { predicate = f.predicate; args = f.args; layer = f.layer }

-- What the loops of `build` change.
pub record Draft : Type 0 where
  pub evidence : List EvidenceNode
  pub stats : ExplanationStats

unfoldable pub cite_observed : Fact → Str → Draft → Draft
cite_observed f role d = record {
  evidence = d.evidence ++ observed_node f.predicate f.args role ∷ [];
  stats = record d.stats { observed_cited = d.stats.observed_cited + 1 };
}

unfoldable pub cite_inferred : Fact → Draft → Draft
cite_inferred f d = record {
  evidence = d.evidence ++ inferred_node f.predicate f.args ∷ [];
  stats = record d.stats { inferred_cited = d.stats.inferred_cited + 1 };
}

unfoldable pub cite_layer : List Str → FactLayer → Fact → Draft → Draft
unfolding cite_observed cite_inferred role_for
cite_layer anchors observed f d = cite_observed f (role_for f anchors) d
cite_layer anchors inferred f d = cite_inferred f d
cite_layer anchors candidate f d = d
cite_layer anchors validated f d = cite_observed f (bytes "validated") d
cite_layer anchors constraint f d = cite_observed f (bytes "constraint") d

unfoldable pub cite_fact : List Str → Fact → Draft → Draft
unfolding cite_layer
cite_fact anchors f d = if touches_anchor f anchors then cite_layer anchors f.layer f d else d

unfoldable pub cite_facts : List Str → List Fact → Draft → Draft
cite_facts anchors [] d = d
cite_facts anchors (f ∷ fs) d = cite_facts anchors fs (cite_fact anchors f d)

unfoldable pub cite_candidate : List Str → CandidateRef → Draft → Draft
cite_candidate anchors c d =
    if any_anchor anchors c.args
    then record {
      evidence = d.evidence ++ candidate_node c ∷ [];
      stats = record d.stats { candidates_considered = d.stats.candidates_considered + 1 };
    }
    else d

unfoldable pub cite_candidates : List Str → List CandidateRef → Draft → Draft
cite_candidates anchors [] d = d
cite_candidates anchors (c ∷ cs) d = cite_candidates anchors cs (cite_candidate anchors c d)

unfoldable pub any_touches : List Str → List Fact → Bool
any_touches anchors [] = false
any_touches anchors (p ∷ ps) = touches_anchor p anchors || any_touches anchors ps

unfoldable pub cite_derivation : List Str → Derivation → Draft → Draft
unfolding any_touches
cite_derivation anchors v d =
    if not (touches_anchor v.head anchors) && not (any_touches anchors v.premises)
    then d
    else record {
      evidence =
          d.evidence
          ++ rule_activation v.rule_index (to_premise v.head) (map to_premise v.premises) ∷ [];
      stats = record d.stats { rule_activations = d.stats.rule_activations + 1 };
    }

unfoldable pub cite_derivations : List Str → List Derivation → Draft → Draft
cite_derivations anchors [] d = d
cite_derivations anchors (v ∷ vs) d = cite_derivations anchors vs (cite_derivation anchors v d)

unfoldable pub cite_stage : ValidationStageRef → Draft → Draft
cite_stage s d = record {
  evidence = d.evidence ++ stage_node s.name s.ok s.diagnostics ∷ [];
  stats = record d.stats { stages_run = d.stats.stages_run + 1 };
}

unfoldable pub cite_stages : List ValidationStageRef → Draft → Draft
cite_stages [] d = d
cite_stages (s ∷ ss) d = cite_stages ss (cite_stage s d)

unfoldable pub failing_stages : List ValidationStageRef → List Str
failing_stages [] = []
failing_stages (s ∷ ss) = if s.ok then failing_stages ss else s.name ∷ failing_stages ss

unfoldable pub any_failed : List ValidationStageRef → Bool
any_failed [] = false
any_failed (s ∷ ss) = not s.ok || any_failed ss

unfoldable pub has_semantic_stage : List ValidationStageRef → Bool
has_semantic_stage [] = false
has_semantic_stage (s ∷ ss) = not (s.name == bytes "syntactic") || has_semantic_stage ss

notes_for : Option Str → List Str
notes_for none = bytes "plan is a preview; no commit recorded" ∷ []
notes_for (some id) = bytes "commit recorded to journal" ∷ []

unfoldable pub verdict_of_stages : ExplainInput → Verdict
unfolding notes_for
verdict_of_stages input =
    if any_failed input.validation_stages
    then rejected (bytes "validation failed") (failing_stages input.validation_stages)
    else if not (has_semantic_stage input.validation_stages)
    then not_proven (bytes "syntactic validation only; no rule / type / behavioral evidence")
    else accepted input.commit_id (notes_for input.commit_id)

unfoldable pub synth_verdict : Option Str → ExplainInput → Verdict
synth_verdict none input = verdict_of_stages input
synth_verdict (some reason) input = rejected reason (failing_stages input.validation_stages)

summary_head : Verdict → Str
summary_head (accepted none notes) = bytes "accepted (preview)"
summary_head (accepted (some id) notes) = bytes "accepted (" ++ (id ++ bytes ")")
summary_head (rejected reason []) = bytes "rejected"
summary_head (rejected reason (s ∷ ss)) =
    bytes "rejected by [" ++ (join (bytes ", ") (s ∷ ss) ++ bytes "]")
summary_head (not_proven reason) = bytes "not proven"

-- A middle dot between spaces.
dot : Str
dot = 32 ∷ 194 ∷ 183 ∷ 32 ∷ []

unfoldable pub summarize : Verdict → ExplanationStats → Str → Str
unfolding summary_head dot
summarize verdict stats label =
    label
    ++ (bytes ": "
        ++ (summary_head verdict
            ++ (bytes " "
                ++ (em_dash
                    ++ (bytes " "
                        ++ (to_decimal stats.observed_cited
                            ++ (bytes " observed"
                                ++ (dot
                                    ++ (to_decimal stats.inferred_cited
                                        ++ (bytes " inferred"
                                            ++ (dot
                                                ++ (to_decimal stats.rule_activations
                                                    ++ (bytes " rule(s)"
                                                        ++ (dot
                                                            ++ (to_decimal
                                                            stats.candidates_considered
                                                            ++ (bytes " candidate(s)"
                                                            ++ (dot
                                                            ++ (to_decimal stats.stages_run
                                                            ++ bytes " stage(s)"))))))))))))))))))

abbrev pub empty_draft : ℕ → Draft
empty_draft anchors = record {
  evidence = [];
  stats = record {
    anchors = anchors;
    observed_cited = 0;
    inferred_cited = 0;
    rule_activations = 0;
    candidates_considered = 0;
    stages_run = 0;
  };
}

-- The traced activations; with no rules the tracer is not run.
unfoldable pub derivations_of : List Rule → GraphStore → List Derivation
derivations_of [] graph = []
derivations_of (r ∷ rules) graph = trace_derivations (r ∷ rules) graph

unfoldable pub draft_of : ExplainInput → Draft
unfolding derivations_of
draft_of input =
    let facts =
      cite_facts input.anchors (all_facts input.graph) (empty_draft (length input.anchors)) in
    let candidates = cite_candidates input.anchors input.candidate_outcomes facts in
    let activations =
      cite_derivations input.anchors (derivations_of input.rules input.graph) candidates in
    cite_stages input.validation_stages activations

unfoldable pub build : ExplainInput → Explanation
build input =
    let d = draft_of input in
    let verdict = synth_verdict input.rejection_reason input in
    record {
      plan_label = input.plan_label;
      anchors = input.anchors;
      verdict = verdict;
      evidence = d.evidence;
      stats = d.stats;
      summary = summarize verdict d.stats input.plan_label;
    }
