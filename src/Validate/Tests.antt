-- ===== src/Validate/Tests.antt =====
-- The validation of a small change.
use prolog_forge.Prelude.{
  ◌<◌, ◌≡◌, ◌↔◌, refl, [], ◌∷◌, Option, none, some, true, arith, nat_eq, list_eq, list_beq, Str,
  bytes, length, map_get, map_insert, map_values, set_insert, elem, Result, ok,
}
use prolog_forge.Graph.Fact.{FactLayer, fact_eq}
use prolog_forge.Graph.Store.{insert, new, all_facts}
use prolog_forge.Rules.Ast.{const, var, Rule}
use prolog_forge.Rules.Base.{candidates, universe}
use prolog_forge.Csm.Model.{CsmFragment, AnalyzerError, EntityKind}
use prolog_forge.Csm.Lower.{lower}
use prolog_forge.Validate.Stage.{
  ValidationContext, StageReport, ValidationStage, with_errors, passed, any_error,
}
use prolog_forge.Validate.Pipeline.{
  Pipeline, run, Reports, AllPass, all_reports, run-ok, run-Reports,
}
use prolog_forge.Validate.Stages.{
  ends_with, syntactic_stage, syntactic_errors, load, load_files, insert_facts, violations,
}

abbrev shadow : ValidationContext
shadow = record {
  shadow_files = (bytes "a.rs", bytes "fn") ∷ (bytes "b.md", bytes "#") ∷ [];
  original_files = [];
}

-- A parser that accepts nothing.
abbrev parse_file : Str → Option Str
parse_file content = some (bytes "unexpected")

abbrev bad_stage : ValidationStage
bad_stage = syntactic_stage parse_file

abbrev good_stage : ValidationStage
good_stage = record { name = bytes "rules"; validate = λ ctx. passed (bytes "rules") }

abbrev pipeline : Pipeline
pipeline = record { stages = good_stage ∷ bad_stage ∷ good_stage ∷ []; fail_fast = true }

stops_early : (run pipeline shadow).stages ≡ passed (bytes "rules") ∷ bad_stage.validate shadow ∷ []
unfolding run syntactic_stage syntactic_errors with_errors any_error passed ends_with list_beq
stops_early = refl

run-ok_example : ((run pipeline shadow).ok ≡ true) ↔ AllPass pipeline.stages shadow
run-ok_example = run-ok pipeline shadow

run-Reports_example : Reports true (all_reports pipeline.stages shadow) (run pipeline shadow).stages
run-Reports_example = run-Reports pipeline shadow

-- An analyzer that finds one function, of the name `forbidden`.
abbrev analyze : Str → Str → Result AnalyzerError CsmFragment
analyze src path = ok (record {
  entities =
      record {
        id = record { id = bytes "f" };
        kind = EntityKind.function;
        name = bytes "forbidden";
        span = none;
      }
      ∷ [];
  relations = [];
  aux_facts = [];
})

-- `violation(F) :- function(F, forbidden).`
abbrev forbid : Rule
forbid = record {
  head = record { predicate = bytes "violation"; args = var (bytes "F") ∷ [] };
  body =
      record {
        predicate = bytes "function";
        args = var (bytes "F") ∷ const (bytes "forbidden") ∷ [];
      }
      ∷ [];
}

abbrev violated : StageReport
violated = with_errors (bytes "rules") (
    violations (
      record { predicate = bytes "violation"; args = bytes "f" ∷ []; layer = FactLayer.inferred }
      ∷ []))

few_candidates :
    length (candidates (universe (forbid ∷ []) (load analyze shadow).0) (forbid ∷ [])) < 10
unfolding candidates universe all_facts map_values load load_files insert_facts lower ends_with
    insert new map_get map_insert set_insert elem list_beq
few_candidates = omega arith
