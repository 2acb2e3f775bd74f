-- ===== src/Explain/Counted.antt =====
-- What the evidence of an explanation is about, and its counts.
use prolog_forge.Prelude.{
  ℕ, ◌+◌, List, [], ◌∷◌, ◌++◌, Bool, true, false, ◌||◌, ◌≡◌, nat_eq, list_eq, Str, All, All-append,
  arith,
}
use prolog_forge.Explain.{
  EvidenceNode, observed_node, inferred_node, rule_activation, candidate_node, stage_node,
  PremiseFact, ExplanationStats, Draft, any_anchor,
}

unfoldable pub premises_touch : List Str → List PremiseFact → Bool
premises_touch anchors [] = false
premises_touch anchors (p ∷ ps) = any_anchor anchors p.args || premises_touch anchors ps

-- A node is about an anchor; an activation by its head or by a premise, and a stage is about the plan.
abbrev pub IsRelevant : List Str → EvidenceNode → Type 0
IsRelevant anchors (observed_node predicate args role) = any_anchor anchors args ≡ true
IsRelevant anchors (inferred_node predicate args) = any_anchor anchors args ≡ true
IsRelevant anchors (rule_activation rule_index head premises) =
    (any_anchor anchors head.args || premises_touch anchors premises) ≡ true
IsRelevant anchors (candidate_node c) = any_anchor anchors c.args ≡ true
IsRelevant anchors (stage_node name ok diagnostics) = Unit

-- How many nodes of each kind there are.
unfoldable pub observed_count : EvidenceNode → ℕ
observed_count (observed_node predicate args role) = 1
observed_count other = 0

unfoldable pub inferred_count : EvidenceNode → ℕ
inferred_count (inferred_node predicate args) = 1
inferred_count other = 0

unfoldable pub activation_count : EvidenceNode → ℕ
activation_count (rule_activation rule_index head premises) = 1
activation_count other = 0

unfoldable pub candidate_count : EvidenceNode → ℕ
candidate_count (candidate_node c) = 1
candidate_count other = 0

unfoldable pub stage_count : EvidenceNode → ℕ
stage_count (stage_node name ok diagnostics) = 1
stage_count other = 0

unfoldable pub count_by : (EvidenceNode → ℕ) → List EvidenceNode → ℕ
count_by weigh [] = 0
count_by weigh (n ∷ ns) = weigh n + count_by weigh ns

count_by-append :
    (weigh : EvidenceNode → ℕ) (xs ys : List EvidenceNode)
    → count_by weigh (xs ++ ys) ≡ count_by weigh xs + count_by weigh ys
unfolding count_by
count_by-append weigh [] ys = omega arith
count_by-append weigh (n ∷ xs) ys = omega (arith, count_by-append weigh xs ys)

-- The evidence is about the anchors, and the statistics count it.
pub record IsFaithful (anchors : List Str) (d : Draft) : Type 0 where
  pub relevant : All (IsRelevant anchors) d.evidence
  pub observed_counted : d.stats.observed_cited ≡ count_by observed_count d.evidence
  pub inferred_counted : d.stats.inferred_cited ≡ count_by inferred_count d.evidence
  pub activations_counted : d.stats.rule_activations ≡ count_by activation_count d.evidence
  pub candidates_counted : d.stats.candidates_considered ≡ count_by candidate_count d.evidence
  pub stages_counted : d.stats.stages_run ≡ count_by stage_count d.evidence

-- The statistics count one more node.
abbrev Counts : EvidenceNode → ExplanationStats → ExplanationStats → Type 0
Counts n before after =
    (after.observed_cited ≡ before.observed_cited + observed_count n)
    × (after.inferred_cited ≡ before.inferred_cited + inferred_count n)
    × (after.rule_activations ≡ before.rule_activations + activation_count n)
    × (after.candidates_considered ≡ before.candidates_considered + candidate_count n)
    × (after.stages_run ≡ before.stages_run + stage_count n)

module _ (anchors : List Str) where
  pub push-IsFaithful :
      (n : EvidenceNode) (d : Draft) (after : ExplanationStats)
      → IsRelevant anchors n
      → Counts n d.stats after
      → IsFaithful anchors d
      → IsFaithful anchors (record { evidence = d.evidence ++ n ∷ []; stats = after })
  unfolding count_by
  push-IsFaithful n d after about (o, i, a, c, s) h =
      let ns : List EvidenceNode = n ∷ [] in
      record {
        relevant = All-append (IsRelevant anchors) d.evidence ns h.relevant (about, tt);
        observed_counted =
            omega (arith, o, h.observed_counted, count_by-append observed_count d.evidence ns);
        inferred_counted =
            omega (arith, i, h.inferred_counted, count_by-append inferred_count d.evidence ns);
        activations_counted =
            omega (arith, a, h.activations_counted, count_by-append activation_count d.evidence ns);
        candidates_counted =
            omega (arith, c, h.candidates_counted, count_by-append candidate_count d.evidence ns);
        stages_counted =
            omega (arith, s, h.stages_counted, count_by-append stage_count d.evidence ns);
      }
