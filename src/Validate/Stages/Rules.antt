-- ===== src/Validate/Stages/Rules.antt =====
-- The rule stage of crates/aa-core/src/validate_stages.rs, by what the rules derive.
use prolog_forge.Prelude.{
  ℕ, ◌<◌, ◌≡◌, ◌↔◌, refl, sym, ap, ◌∙◌, subst, List, [], ◌∷◌, ◌++◌, some, Bool, true, nat_eq,
  list_eq, Str, bytes, Map, length, Result, ok, err, Bool-cases, inl, inr, if_true, if_false,
  if◌then◌else◌,
}
use prolog_forge.Graph.Fact.{Fact, fact_eq}
use prolog_forge.Graph.Store.{GraphStore, GraphError, insert, new}
use prolog_forge.Graph.Insert.{IsValid, insert-IsValid, new-IsValid}
use prolog_forge.Rules.Ast.{Rule}
use prolog_forge.Rules.Eval.{EvalStats, EvalError, evaluate}
use prolog_forge.Rules.Model.{Derives}
use prolog_forge.Rules.Terminates.{evaluate_total}
use prolog_forge.Rules.Base.{candidates, universe}
use prolog_forge.Csm.Model.{CsmFragment, AnalyzerError}
use prolog_forge.Csm.Lower.{lower}
use prolog_forge.Validate.Stage.{
  ValidationContext, Message, Diagnostic, StageReport, is_error, AllErrors,
}
use prolog_forge.Validate.Stages
use prolog_forge.Validate.Stages.{
  insert_facts, load_files, load, rule_validate, violation_predicate, an_error, ends_with,
}

abbrev Loaded : GraphStore × List Diagnostic → Type 0
Loaded (graph, diags) = IsValid graph × AllErrors diags

AllErrors-concat :
    (ds : List Diagnostic) (d : Diagnostic)
    → AllErrors ds
    → is_error d ≡ true
    → AllErrors (ds ++ d ∷ [])
AllErrors-concat [] d h k = (k, tt)
AllErrors-concat (c ∷ ds) d (h, hs) k = (h, AllErrors-concat ds d hs k)

insert_facts-Loaded :
    (path : Str) (fs : List Fact) (graph : GraphStore) (diags : List Diagnostic)
    → IsValid graph
    → AllErrors diags
    → Loaded (insert_facts path fs (graph, diags))
unfolding insert_facts Stages.insert_error is_error
insert_facts-Loaded path [] graph diags v e = (v, e)
insert_facts-Loaded path (f ∷ fs) graph diags v e =
    insert_facts-Loaded path fs (insert f graph).1
      (Stages.insert_error path (insert f graph).0 diags) (insert-IsValid f graph v)
      (kept (insert f graph).0)
  where
    kept : (r : Result GraphError Bool) → AllErrors (Stages.insert_error path r diags)
    kept (ok fresh) = e
    kept (err x) = AllErrors-concat diags (an_error (some path) (Message.graph_insert x)) e refl

module _ (analyze : Str → Str → Result AnalyzerError CsmFragment) where
  insert_fragment-Loaded :
      (path : Str) (r : Result AnalyzerError CsmFragment) (loaded : GraphStore × List Diagnostic)
      → Loaded loaded
      → Loaded (Stages.insert_fragment path r loaded)
  unfolding Stages.insert_fragment is_error
  insert_fragment-Loaded path (ok frag) (graph, diags) (v, e) =
      insert_facts-Loaded path (lower frag) graph diags v e
  insert_fragment-Loaded path (err x) (graph, diags) (v, e) =
      (v, AllErrors-concat diags (an_error (some path) (Message.shadow_analyze x.message)) e refl)

  load_files-Loaded :
      (files : Map Str Str) (loaded : GraphStore × List Diagnostic)
      → Loaded loaded
      → Loaded (load_files analyze files loaded)
  unfolding load_files
  load_files-Loaded [] loaded h = h
  load_files-Loaded ((path, src) ∷ files) loaded h =
      let added = Stages.insert_fragment path (analyze src path) loaded in
      load_files-Loaded files (if ends_with path (bytes ".rs") then added else loaded)
        (elim (Bool-cases (ends_with path (bytes ".rs"))) [
          | inl rust ↦
              subst Loaded (sym (if_true (ends_with path (bytes ".rs")) added loaded rust))
                (insert_fragment-Loaded path (analyze src path) loaded h)
          | inr other ↦
              subst Loaded (sym (if_false (ends_with path (bytes ".rs")) added loaded other)) h
        ])

  load-Loaded : (ctx : ValidationContext) → Loaded (load analyze ctx)
  unfolding load
  load-Loaded ctx = load_files-Loaded ctx.shadow_files (new, []) (new-IsValid, tt)

-- No fact of the predicate follows.
abbrev pub NoViolation : List Rule → GraphStore → Type 0
NoViolation rules graph = (f : Fact) → f.predicate ≡ violation_predicate → Derives rules graph f → ⊥

module _ (rules : List Rule) (fuel : ℕ) (graph : GraphStore) (diags : List Diagnostic)
    (report : StageReport) (valid : IsValid graph) (errors : AllErrors diags) where
  -- The evaluation succeeds.
  abbrev Succeeds : Type 0
  Succeeds =
      (stats : EvalStats) × (t : GraphStore) × (evaluate fuel rules graph ≡ some (ok stats, t))

  abbrev Verdict : Type 0
  Verdict = (report.ok ≡ true) ↔ ((diags ≡ []) × Succeeds × NoViolation rules graph)

finish_rules_ends :
    (diags : List Diagnostic) (o : Result EvalError EvalStats × GraphStore)
    → (report : StageReport) × (Stages.finish_rules diags (some o) ≡ some report)
unfolding Stages.finish_rules
finish_rules_ends diags (ok stats, t) = (_, refl)
finish_rules_ends diags (err x, t) = (_, refl)

-- With more fuel than there are candidate facts over the shadow files' facts, the rule stage reports.
pub rule_validate_total :
    (analyze : Str → Str → Result AnalyzerError CsmFragment) (fuel : ℕ) (rules : List Rule)
    (ctx : ValidationContext)
    → length (candidates (universe rules (load analyze ctx).0) rules) < fuel
    → (report : StageReport) × (rule_validate analyze fuel rules ctx ≡ some report)
unfolding rule_validate
rule_validate_total analyze fuel [] ctx h = (_, refl)
rule_validate_total analyze fuel (rule ∷ rules) ctx h =
    let (graph, diags) = load analyze ctx in
    let (o, e) = evaluate_total fuel (rule ∷ rules) graph (load-Loaded analyze ctx).0 h in
    let (report, made) = finish_rules_ends diags o in
    (report, ap (Stages.finish_rules diags) e ∙ made)
