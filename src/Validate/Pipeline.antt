-- ===== src/Validate/Pipeline.antt =====
-- The pipeline, crates/aa-validate/src/pipeline.rs.
use prolog_forge.Prelude.{
  ◌≡◌, ◌↔◌, refl, sym, ap, ◌∙◌, List, [], ◌∷◌, ◌++◌, append_assoc, append-nil, map, Bool, true,
  false, All, Bool-cases, inl, inr, if_true, if_false, if◌then◌else◌,
}
use prolog_forge.Validate.Stage.{ValidationContext, StageReport, ValidationStage}

pub record ValidationReport : Type 0 where
  pub ok : Bool
  pub stages : List StageReport

pub record Pipeline : Type 0 where
  pub stages : List ValidationStage
  pub fail_fast : Bool

-- `Pipeline::custom`.
unfoldable pub custom : List ValidationStage → Pipeline
custom stages = record { stages = stages; fail_fast = true }

add_report : StageReport → ValidationReport → ValidationReport
add_report r report = record {
  ok = if r.ok then report.ok else false;
  stages = report.stages ++ r ∷ [];
}

-- The loop of `run` over the stages that are left.
run_from : Bool → List ValidationStage → ValidationContext → ValidationReport → ValidationReport
unfolding add_report
run_from fail_fast [] ctx report = report
run_from fail_fast (stage ∷ stages) ctx report =
    let r = stage.validate ctx in
    let next = add_report r report in
    let rest = run_from fail_fast stages ctx next in
    if r.ok then rest else if fail_fast then next else rest

unfoldable pub run : Pipeline → ValidationContext → ValidationReport
unfolding run_from
run p ctx = run_from p.fail_fast p.stages ctx (record { ok = true; stages = [] })

-- The reports of a run among those that all the stages would make: all of them, or, when the run stops at
-- the first failure, those up to that one.
pub data Reports (fail_fast : Bool) : List StageReport → List StageReport → Type 0 where
  done : Reports fail_fast [] []
  passes :
      {r : StageReport} {all reports : List StageReport}
      → r.ok ≡ true
      → Reports fail_fast all reports
      → Reports fail_fast (r ∷ all) (r ∷ reports)
  goes_on :
      {r : StageReport} {all reports : List StageReport}
      → r.ok ≡ false
      → fail_fast ≡ false
      → Reports fail_fast all reports
      → Reports fail_fast (r ∷ all) (r ∷ reports)
  stops :
      {r : StageReport} {all : List StageReport}
      → r.ok ≡ false
      → fail_fast ≡ true
      → Reports fail_fast (r ∷ all) (r ∷ [])

abbrev pub all_reports : List ValidationStage → ValidationContext → List StageReport
all_reports stages ctx = map (λ stage. stage.validate ctx) stages

abbrev pub AllPass : List ValidationStage → ValidationContext → Type 0
AllPass stages ctx = All (λ (stage : ValidationStage). (stage.validate ctx).ok ≡ true) stages

module _ (fail_fast : Bool) (stage : ValidationStage) (stages : List ValidationStage)
    (ctx : ValidationContext) (report : ValidationReport) where
  abbrev own : StageReport
  own = stage.validate ctx

  abbrev rest_run : ValidationReport
  rest_run = run_from fail_fast stages ctx (add_report own report)

  step_passed : own.ok ≡ true → run_from fail_fast (stage ∷ stages) ctx report ≡ rest_run
  unfolding run_from
  step_passed h = if_true own.ok rest_run (if fail_fast then add_report own report else rest_run) h

  step_stopped :
      own.ok ≡ false
      → fail_fast ≡ true
      → run_from fail_fast (stage ∷ stages) ctx report ≡ add_report own report
  unfolding run_from
  step_stopped h k =
      if_false own.ok rest_run (if fail_fast then add_report own report else rest_run) h
      ∙ if_true fail_fast (add_report own report) rest_run k

  step_failed :
      own.ok ≡ false → fail_fast ≡ false → run_from fail_fast (stage ∷ stages) ctx report ≡ rest_run
  unfolding run_from
  step_failed h k =
      if_false own.ok rest_run (if fail_fast then add_report own report else rest_run) h
      ∙ if_false fail_fast (add_report own report) rest_run k

add_report-passed :
    (r : StageReport) (report : ValidationReport)
    → r.ok ≡ true
    → (add_report r report).ok ≡ report.ok
unfolding add_report
add_report-passed r report h = if_true r.ok report.ok false h

add_report-failed :
    (r : StageReport) (report : ValidationReport) → r.ok ≡ false → (add_report r report).ok ≡ false
unfolding add_report
add_report-failed r report h = if_false r.ok report.ok false h

run_from-ok :
    (fail_fast : Bool) (stages : List ValidationStage) (ctx : ValidationContext)
    (report : ValidationReport)
    → ((run_from fail_fast stages ctx report).ok ≡ true) ↔ ((report.ok ≡ true) × AllPass stages ctx)
unfolding run_from
run_from-ok fail_fast [] ctx report = (λ h. (h, tt), λ h. h.0)
run_from-ok fail_fast (stage ∷ stages) ctx report =
    let r = stage.validate ctx in
    let ih = run_from-ok fail_fast stages ctx (add_report r report) in
    let of_run : (x : ValidationReport)
        → run_from fail_fast (stage ∷ stages) ctx report ≡ x
        → (run_from fail_fast (stage ∷ stages) ctx report).ok ≡ x.ok =
      λ x e. ap (λ (y : ValidationReport). y.ok) e in
    elim (Bool-cases r.ok) [
      | inl good ↦
          let step = of_run _ (step_passed fail_fast stage stages ctx report good) in
          let same = add_report-passed r report good in
          (
            λ h. let k = ih.0 (sym step ∙ h) in (sym same ∙ k.0, (good, k.1)),
            λ h. step ∙ ih.1 (same ∙ h.0, h.1.1),
          )
      | inr bad ↦
          let failed = add_report-failed r report bad in
          (
            λ h. absurd (elim (Bool-cases fail_fast) [
              | inl fast ↦ cc (
                sym (of_run _ (step_stopped fail_fast stage stages ctx report bad fast)) ∙ h,
                failed,
              )
              | inr slow ↦ cc (
                (ih.0 (
                    sym (of_run _ (step_failed fail_fast stage stages ctx report bad slow)) ∙ h)).0,
                failed,
              )
            ]),
            λ h. absurd (cc (h.1.0, bad)),
          )
    ]

-- A run passes exactly when every stage of the pipeline passes.
pub run-ok :
    (p : Pipeline) (ctx : ValidationContext) → ((run p ctx).ok ≡ true) ↔ AllPass p.stages ctx
unfolding run
run-ok p ctx =
    let ih = run_from-ok p.fail_fast p.stages ctx (record { ok = true; stages = [] }) in
    (λ h. (ih.0 h).1, λ h. ih.1 (refl, h))

run_from-Reports :
    (fail_fast : Bool) (stages : List ValidationStage) (ctx : ValidationContext)
    (report : ValidationReport)
    → (reports : List StageReport) × Reports fail_fast (all_reports stages ctx) reports
      × ((run_from fail_fast stages ctx report).stages ≡ report.stages ++ reports)
unfolding run_from add_report
run_from-Reports fail_fast [] ctx report = ([], done, sym (append-nil report.stages))
run_from-Reports fail_fast (stage ∷ stages) ctx report =
    let r = stage.validate ctx in
    let (reports, made, are) = run_from-Reports fail_fast stages ctx (add_report r report) in
    let of_run : (x : ValidationReport)
        → run_from fail_fast (stage ∷ stages) ctx report ≡ x
        → (run_from fail_fast (stage ∷ stages) ctx report).stages ≡ x.stages =
      λ x e. ap (λ (y : ValidationReport). y.stages) e in
    let longer = are ∙ append_assoc report.stages (r ∷ []) reports in
    elim (Bool-cases r.ok) [
      | inl good ↦ (
        r ∷ reports,
        passes good made,
        of_run _ (step_passed fail_fast stage stages ctx report good) ∙ longer,
      )
      | inr bad ↦ elim (Bool-cases fail_fast) [
        | inl fast ↦ (
          r ∷ [],
          stops bad fast,
          of_run _ (step_stopped fail_fast stage stages ctx report bad fast),
        )
        | inr slow ↦ (
          r ∷ reports,
          goes_on bad slow made,
          of_run _ (step_failed fail_fast stage stages ctx report bad slow) ∙ longer,
        )
      ]
    ]

-- A run lists the reports of its stages in their order: of all of them, or, when the pipeline is fail-fast
-- and a stage fails, of those up to the first that fails.
pub run-Reports :
    (p : Pipeline) (ctx : ValidationContext)
    → Reports p.fail_fast (all_reports p.stages ctx) (run p ctx).stages
unfolding run
run-Reports p ctx =
    let (reports, made, are) =
      run_from-Reports p.fail_fast p.stages ctx (record { ok = true; stages = [] }) in
    rw are made
