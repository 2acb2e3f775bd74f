-- ===== src/Explain/Verdicts.antt =====
-- What a verdict stands for.
use prolog_forge.Prelude.{
  List, [], ◌∷◌, Option, none, some, true, false, ◌==◌, ==_iff, nat_eq, list_eq, ◌≡◌, ◌≢◌, ◌⊎◌, inl,
  inr, refl, sym, subst, if_true, if_false, Bool-cases, Str, bytes, All, In, arith,
}
use prolog_forge.Explain.{
  Verdict, accepted, rejected, not_proven, ValidationStageRef, ExplainInput, any_failed,
  failing_stages, has_semantic_stage, verdict_of_stages, synth_verdict, build,
}

-- The names of the stages that failed, in their order, and nothing else.
pub data Failing : List ValidationStageRef → List Str → Type 0 where
  no_stages : Failing [] []
  passed :
      (s : ValidationStageRef) (ss : List ValidationStageRef) (names : List Str)
      → s.ok ≡ true
      → Failing ss names
      → Failing (s ∷ ss) names
  failed :
      (s : ValidationStageRef) (ss : List ValidationStageRef) (names : List Str)
      → s.ok ≡ false
      → Failing ss names
      → Failing (s ∷ ss) (s.name ∷ names)

failing_stages-Failing : (ss : List ValidationStageRef) → Failing ss (failing_stages ss)
unfolding failing_stages
failing_stages-Failing [] = no_stages
failing_stages-Failing (s ∷ ss) = elim (Bool-cases s.ok) [
  | inl fine ↦
      subst (Failing (s ∷ ss))
        (sym (if_true s.ok (failing_stages ss) (s.name ∷ failing_stages ss) fine))
        (passed s ss (failing_stages ss) fine (failing_stages-Failing ss))
  | inr bad ↦
      subst (Failing (s ∷ ss))
        (sym (if_false s.ok (failing_stages ss) (s.name ∷ failing_stages ss) bad))
        (failed s ss (failing_stages ss) bad (failing_stages-Failing ss))
]

-- What stands behind each verdict.
abbrev pub Justifies : ExplainInput → Verdict → Type 0
Justifies input (accepted commit_id notes) =
    (input.rejection_reason ≡ none)
    × All (λ s. s.ok ≡ true) input.validation_stages
    × ((s : ValidationStageRef) × In s input.validation_stages × (s.name ≢ bytes "syntactic"))
    × (commit_id ≡ input.commit_id)
Justifies input (rejected reason names) =
    Failing input.validation_stages names
    × ((input.rejection_reason ≡ some reason)
        ⊎ ((input.rejection_reason ≡ none)
            × ((s : ValidationStageRef) × In s input.validation_stages × (s.ok ≡ false))))
Justifies input (not_proven reason) =
    (input.rejection_reason ≡ none)
    × All (λ s. (s.ok ≡ true) × (s.name ≡ bytes "syntactic")) input.validation_stages

none_failed : (ss : List ValidationStageRef) → any_failed ss ≡ false → All (λ s. s.ok ≡ true) ss
unfolding any_failed
none_failed [] h = tt
none_failed (s ∷ ss) h = (ground arith, none_failed ss (ground arith))

some_failed :
    (ss : List ValidationStageRef)
    → any_failed ss ≡ true
    → (s : ValidationStageRef) × In s ss × (s.ok ≡ false)
unfolding any_failed
some_failed [] h = cc
some_failed (s ∷ ss) h = elim (Bool-cases s.ok) [
  | inr bad ↦ (s, inl refl, bad)
  | inl fine ↦ let (t, there, bad) = some_failed ss (ground (arith, h, fine)) in (t, inr there, bad)
]

some_semantic :
    (ss : List ValidationStageRef)
    → has_semantic_stage ss ≡ true
    → (s : ValidationStageRef) × In s ss × (s.name ≢ bytes "syntactic")
unfolding has_semantic_stage
some_semantic [] h = cc
some_semantic (s ∷ ss) h = elim (Bool-cases (s.name == bytes "syntactic")) [
  | inr other ↦
      (s, inl refl, λ same. ground (arith, ==_iff s.name (bytes "syntactic"), other, same))
  | inl same ↦
      let (t, there, semantic) = some_semantic ss (ground (arith, h, same)) in
      (t, inr there, semantic)
]

syntactic-All :
    (ss : List ValidationStageRef)
    → has_semantic_stage ss ≡ false
    → any_failed ss ≡ false
    → All (λ s. (s.ok ≡ true) × (s.name ≡ bytes "syntactic")) ss
unfolding has_semantic_stage any_failed
syntactic-All [] h k = tt
syntactic-All (s ∷ ss) h k = (
  (ground (arith, k), (==_iff s.name (bytes "syntactic")).0 (ground (arith, h))),
  syntactic-All ss (ground (arith, h)) (ground (arith, k)),
)

verdict_of_stages-Justifies :
    (input : ExplainInput)
    → input.rejection_reason ≡ none
    → Justifies input (verdict_of_stages input)
unfolding verdict_of_stages
verdict_of_stages-Justifies input free =
    let ss = input.validation_stages in
    elim (Bool-cases (any_failed ss)) [
      | inl bad ↦
          rw (bad, verdict_of_stages) (failing_stages-Failing ss, inr (free, some_failed ss bad))
      | inr fine ↦ elim (Bool-cases (has_semantic_stage ss)) [
        | inl semantic ↦
            rw (fine, semantic, verdict_of_stages)
              (free, none_failed ss fine, some_semantic ss semantic, refl)
        | inr none' ↦ rw (fine, none', verdict_of_stages) (free, syntactic-All ss none' fine)
      ]
    ]

synth_verdict-Justifies :
    (input : ExplainInput) (o : Option Str)
    → input.rejection_reason ≡ o
    → Justifies input (synth_verdict o input)
unfolding synth_verdict
synth_verdict-Justifies input none free = verdict_of_stages-Justifies input free
synth_verdict-Justifies input (some reason) given =
    (failing_stages-Failing input.validation_stages, inl given)

-- The verdict of an explanation: accepted when nothing was rejected, every stage passed and one of them is
-- more than the syntactic one; not proven when all of that holds but there is only the syntactic one;
-- and rejected, with the failing stages in their order, when the plan was rejected or a stage failed.
pub build-Justifies : (input : ExplainInput) → Justifies input (build input).verdict
unfolding build
build-Justifies input = synth_verdict-Justifies input input.rejection_reason refl
