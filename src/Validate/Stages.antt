-- ===== src/Validate/Stages.antt =====
-- The syntactic stage, crates/aa-validate/src/stages.rs, and the rule stage of
-- crates/aa-core/src/validate_stages.rs. The parser `syn` and the analyzer of crates/aa-lang-rust are
-- parameters. The rule stage takes the evaluator's fuel; `none` is a run out of it.
pub mod Rules
pub mod Syntactic
use prolog_forge.Prelude.{
  ℕ, List, [], ◌∷◌, ◌++◌, map, Option, none, some, Bool, true, false, ◌||◌, ◌==◌, nat_eq, list_eq,
  Str, bytes, Map, Result, ok, err, if◌then◌else◌,
}
use prolog_forge.Graph.Fact.{Fact}
use prolog_forge.Graph.Store.{GraphStore, GraphError, insert, new, facts_of}
use prolog_forge.Rules.Ast.{Rule}
use prolog_forge.Rules.Eval.{EvalStats, EvalError, evaluate}
use prolog_forge.Csm.Model.{CsmFragment, AnalyzerError}
use prolog_forge.Csm.Lower.{lower}
use prolog_forge.Validate.Stage.{
  ValidationContext, Severity, Message, Diagnostic, StageReport, ValidationStage, passed,
  with_errors,
}

-- `str::ends_with`.
unfoldable pub ends_with : Str → Str → Bool
ends_with [] suffix = suffix == []
ends_with (c ∷ cs) suffix = c ∷ cs == suffix || ends_with cs suffix

abbrev pub an_error : Option Str → Message → Diagnostic
an_error file message = record { severity = Severity.error; file = file; message = message }

module _ (parse_file : Str → Option Str) where
  parse_error : Str → Option Str → List Diagnostic → List Diagnostic
  parse_error path none rest = rest
  parse_error path (some e) rest = an_error (some path) (Message.syn_parse_error e) ∷ rest

  unfoldable pub syntactic_errors : Map Str Str → List Diagnostic
  unfolding parse_error
  syntactic_errors [] = []
  syntactic_errors ((path, content) ∷ files) =
      let rest = syntactic_errors files in
      if ends_with path (bytes ".rs") then parse_error path (parse_file content) rest else rest

  -- `parse_file` gives the parser's error, if any.
  unfoldable pub syntactic_stage : ValidationStage
  unfolding syntactic_errors
  syntactic_stage = record {
    name = bytes "syntactic";
    validate = λ ctx. with_errors (bytes "syntactic") (syntactic_errors ctx.shadow_files);
  }

insert_error : Str → Result GraphError Bool → List Diagnostic → List Diagnostic
insert_error path (ok fresh) diags = diags
insert_error path (err e) diags = diags ++ an_error (some path) (Message.graph_insert e) ∷ []

-- The loop over the facts of a file.
unfoldable pub insert_facts :
    Str → List Fact → GraphStore × List Diagnostic → GraphStore × List Diagnostic
unfolding insert_error
insert_facts path [] (graph, diags) = (graph, diags)
insert_facts path (f ∷ fs) (graph, diags) =
    let (r, graph') = insert f graph in insert_facts path fs (graph', insert_error path r diags)

insert_fragment :
    Str
    → Result AnalyzerError CsmFragment
    → GraphStore × List Diagnostic
    → GraphStore × List Diagnostic
unfolding insert_facts
insert_fragment path (ok frag) loaded = insert_facts path (lower frag) loaded
insert_fragment path (err e) (graph, diags) =
    (graph, diags ++ an_error (some path) (Message.shadow_analyze e.message) ∷ [])

abbrev pub violation_predicate : Str
violation_predicate = bytes "violation"

abbrev pub violations : List Fact → List Diagnostic
violations fs = map (λ f. an_error none (Message.violation f.args)) fs

rules_name : Str
rules_name = bytes "rules"

finish_rules :
    List Diagnostic → Option (Result EvalError EvalStats × GraphStore) → Option StageReport
unfolding rules_name
finish_rules diags none = none
finish_rules diags (some (err e, graph)) =
    some (with_errors rules_name (diags ++ an_error none (Message.rule_engine e) ∷ []))
finish_rules diags (some (ok stats, graph)) =
    some (with_errors rules_name (diags ++ violations (facts_of graph violation_predicate)))

module _ (analyze : Str → Str → Result AnalyzerError CsmFragment) where
  unfoldable pub load_files :
      Map Str Str → GraphStore × List Diagnostic → GraphStore × List Diagnostic
  unfolding insert_fragment ends_with
  load_files [] loaded = loaded
  load_files ((path, src) ∷ files) loaded = load_files files (
      if ends_with path (bytes ".rs")
      then insert_fragment path (analyze src path) loaded
      else loaded)

  -- The graph of the shadow files, and the errors met.
  unfoldable pub load : ValidationContext → GraphStore × List Diagnostic
  unfolding load_files
  load ctx = load_files ctx.shadow_files (new, [])

  unfoldable pub rule_validate : ℕ → List Rule → ValidationContext → Option StageReport
  unfolding finish_rules load rules_name
  rule_validate fuel [] ctx = some (passed rules_name)
  rule_validate fuel (rule ∷ rules) ctx =
      let (graph, diags) = load ctx in finish_rules diags (evaluate fuel (rule ∷ rules) graph)
