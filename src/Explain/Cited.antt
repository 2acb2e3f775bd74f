-- ===== src/Explain/Cited.antt =====
-- What the evidence of an explanation cites.
use prolog_forge.Prelude.{
  List, [], ◌∷◌, true, not, ◌&&◌, ◌||◌, ◌≡◌, refl, ap, inl, inr, Bool-cases, nat_eq, list_eq, Str,
  bytes, length, map, arith,
}
use prolog_forge.Graph.Fact.{Fact, FactLayer, observed, inferred, candidate, validated, constraint}
use prolog_forge.Graph.Store.{all_facts}
use prolog_forge.Rules.Trace.{Derivation}
use prolog_forge.Explain.{
  observed_node, inferred_node, rule_activation, candidate_node, stage_node, to_premise,
  CandidateRef, ValidationStageRef, role_for, Draft, ExplainInput, any_anchor, touches_anchor,
  cite_observed, cite_inferred, cite_layer, cite_fact, cite_facts, cite_candidate, cite_candidates,
  any_touches, cite_derivation, cite_derivations, cite_stage, cite_stages, empty_draft,
  derivations_of, draft_of, build,
}
use prolog_forge.Explain.Counted.{
  premises_touch, observed_count, inferred_count, activation_count, candidate_count, stage_count,
  count_by, IsFaithful, push-IsFaithful,
}

module _ (anchors : List Str) where
  cite_layer-IsFaithful :
      (layer : FactLayer) (f : Fact) (d : Draft)
      → touches_anchor f anchors ≡ true
      → IsFaithful anchors d
      → IsFaithful anchors (cite_layer anchors layer f d)
  unfolding cite_layer cite_observed cite_inferred touches_anchor observed_count inferred_count
      activation_count candidate_count stage_count
  cite_layer-IsFaithful observed f d touches h =
      push-IsFaithful anchors (observed_node f.predicate f.args (role_for f anchors)) d _ touches
        (omega arith) h
  cite_layer-IsFaithful inferred f d touches h =
      push-IsFaithful anchors (inferred_node f.predicate f.args) d _ touches (omega arith) h
  cite_layer-IsFaithful candidate f d touches h = h
  cite_layer-IsFaithful validated f d touches h =
      push-IsFaithful anchors (observed_node f.predicate f.args (bytes "validated")) d _ touches
        (omega arith) h
  cite_layer-IsFaithful constraint f d touches h =
      push-IsFaithful anchors (observed_node f.predicate f.args (bytes "constraint")) d _ touches
        (omega arith) h

  cite_facts-IsFaithful :
      (fs : List Fact) (d : Draft)
      → IsFaithful anchors d
      → IsFaithful anchors (cite_facts anchors fs d)
  unfolding cite_facts
  cite_facts-IsFaithful [] d h = h
  cite_facts-IsFaithful (f ∷ fs) d h = cite_facts-IsFaithful fs (cite_fact anchors f d) (one f d h)
    where
      one :
          (f : Fact) (d : Draft) → IsFaithful anchors d → IsFaithful anchors (cite_fact anchors f d)
      one f d h = elim (Bool-cases (touches_anchor f anchors)) [
        | inl touches ↦
            unfold cite_fact in
            rw (touches, cite_fact) (cite_layer-IsFaithful f.layer f d touches h)
        | inr other ↦ unfold cite_fact in rw (other, cite_fact) h
      ]

  cite_candidate-IsFaithful :
      (c : CandidateRef) (d : Draft)
      → IsFaithful anchors d
      → IsFaithful anchors (cite_candidate anchors c d)
  unfolding cite_candidate observed_count inferred_count activation_count candidate_count
      stage_count
  cite_candidate-IsFaithful c d h = elim (Bool-cases (any_anchor anchors c.args)) [
    | inl touches ↦
        rw (touches, cite_candidate)
          (push-IsFaithful anchors (candidate_node c) d _ touches (omega arith) h)
    | inr other ↦ rw (other, cite_candidate) h
  ]

  cite_candidates-IsFaithful :
      (cs : List CandidateRef) (d : Draft)
      → IsFaithful anchors d
      → IsFaithful anchors (cite_candidates anchors cs d)
  unfolding cite_candidates
  cite_candidates-IsFaithful [] d h = h
  cite_candidates-IsFaithful (c ∷ cs) d h =
      cite_candidates-IsFaithful cs (cite_candidate anchors c d) (cite_candidate-IsFaithful c d h)

  premises_touch-map :
      (ps : List Fact) → premises_touch anchors (map to_premise ps) ≡ any_touches anchors ps
  unfolding premises_touch any_touches touches_anchor
  premises_touch-map [] = refl
  premises_touch-map (p ∷ ps) = ap (λ b. any_anchor anchors p.args || b) (premises_touch-map ps)

  cite_derivation-IsFaithful :
      (v : Derivation) (d : Draft)
      → IsFaithful anchors d
      → IsFaithful anchors (cite_derivation anchors v d)
  unfolding cite_derivation observed_count inferred_count activation_count candidate_count
      stage_count
  cite_derivation-IsFaithful v d h =
      elim (Bool-cases
        (not (touches_anchor v.head anchors) && not (any_touches anchors v.premises))) [
          | inl other ↦ rw (other, cite_derivation) h
          | inr touches ↦
              let about : (any_anchor anchors v.head.args
                    || premises_touch anchors (map to_premise v.premises))
                  ≡ true =
                unfold touches_anchor in ground (arith, premises_touch-map v.premises, touches) in
              rw (touches, cite_derivation)
                (push-IsFaithful anchors
                  (rule_activation v.rule_index (to_premise v.head) (map to_premise v.premises)) d _
                  about (omega arith) h)
        ]

  cite_derivations-IsFaithful :
      (vs : List Derivation) (d : Draft)
      → IsFaithful anchors d
      → IsFaithful anchors (cite_derivations anchors vs d)
  unfolding cite_derivations
  cite_derivations-IsFaithful [] d h = h
  cite_derivations-IsFaithful (v ∷ vs) d h =
      cite_derivations-IsFaithful vs (cite_derivation anchors v d)
        (cite_derivation-IsFaithful v d h)

  cite_stages-IsFaithful :
      (ss : List ValidationStageRef) (d : Draft)
      → IsFaithful anchors d
      → IsFaithful anchors (cite_stages ss d)
  unfolding cite_stages cite_stage observed_count inferred_count activation_count candidate_count
      stage_count
  cite_stages-IsFaithful [] d h = h
  cite_stages-IsFaithful (s ∷ ss) d h =
      cite_stages-IsFaithful ss (cite_stage s d)
        (push-IsFaithful anchors (stage_node s.name s.ok s.diagnostics) d _ tt (omega arith) h)

-- The evidence of an explanation other than the stages is about the anchors: a fact or a candidate with
-- an anchor among its arguments, or a rule activation whose head or a premise has one. Its statistics
-- are the numbers of the nodes of each kind.
pub build-IsFaithful :
    (input : ExplainInput)
    → IsFaithful input.anchors
        (record { evidence = (build input).evidence; stats = (build input).stats })
unfolding build draft_of count_by
build-IsFaithful input =
    let anchors = input.anchors in
    cite_stages-IsFaithful anchors input.validation_stages _ (
      cite_derivations-IsFaithful anchors (derivations_of input.rules input.graph) _ (
        cite_candidates-IsFaithful anchors input.candidate_outcomes _ (
          cite_facts-IsFaithful anchors (all_facts input.graph) (empty_draft (length anchors))
            (record {
              relevant = tt;
              observed_counted = refl;
              inferred_counted = refl;
              activations_counted = refl;
              candidates_counted = refl;
              stages_counted = refl;
            }))))
