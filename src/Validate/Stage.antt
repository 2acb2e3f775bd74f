-- ===== src/Validate/Stage.antt =====
-- Stage reports, crates/aa-validate/src/stage.rs.
use prolog_forge.Prelude.{
  ◌≡◌, ◌↔◌, refl, List, [], ◌∷◌, Option, Bool, true, false, not, ◌||◌, arith, Str, Map, All,
}
use prolog_forge.Graph.Store.{GraphError}
use prolog_forge.Rules.Eval.{EvalError}

pub record ValidationContext : Type 0 where
  pub shadow_files : Map Str Str
  pub original_files : Map Str Str

pub data Severity : Type 0 where
  error warning info : Severity

pub data Message : Type 0 where
  syn_parse_error : Str → Message
  graph_insert : GraphError → Message
  shadow_analyze : Str → Message
  rule_engine : EvalError → Message
  violation : List Str → Message

pub record Diagnostic : Type 0 where
  pub severity : Severity
  pub file : Option Str
  pub message : Message

pub record StageReport : Type 0 where
  pub stage : Str
  pub ok : Bool
  pub diagnostics : List Diagnostic

unfoldable pub is_error : Diagnostic → Bool
is_error d = elim d.severity [
  | Severity.error ↦ true
  | Severity.warning ↦ false
  | Severity.info ↦ false
]

unfoldable pub any_error : List Diagnostic → Bool
unfolding is_error
any_error [] = false
any_error (d ∷ ds) = is_error d || any_error ds

-- `StageReport::ok`.
unfoldable pub passed : Str → StageReport
passed stage = record { stage = stage; ok = true; diagnostics = [] }

unfoldable pub with_errors : Str → List Diagnostic → StageReport
unfolding any_error
with_errors stage diagnostics = record {
  stage = stage;
  ok = not (any_error diagnostics);
  diagnostics = diagnostics;
}

-- A stage: its name and its check.
pub record ValidationStage : Type 0 where
  pub name : Str
  pub validate : ValidationContext → StageReport

-- Every diagnostic is an error.
abbrev pub AllErrors : List Diagnostic → Type 0
AllErrors ds = All (λ d. is_error d ≡ true) ds

-- A report of errors alone passes exactly when it has none.
pub with_errors-ok :
    (stage : Str) (ds : List Diagnostic)
    → AllErrors ds
    → ((with_errors stage ds).ok ≡ true) ↔ (ds ≡ [])
unfolding with_errors any_error
with_errors-ok stage [] h = (λ e. refl, λ e. refl)
with_errors-ok stage (d ∷ ds) (h, hs) = (λ e. absurd (ground arith), λ e. absurd (cc))
