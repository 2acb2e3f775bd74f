-- ===== src/Llm/Prompt.antt =====
-- The prompts of the proposer and of the refiner, crates/aa-llm/src/prompt.rs.
use prolog_forge.Prelude.{
  ℕ, zero, suc, List, [], ◌∷◌, ◌++◌, Option, none, some, Bool, true, false, ◌==◌, nat_eq, Str,
  bytes, drop, length, if◌then◌else◌,
}
use prolog_forge.Graph.Fact.{Fact}

-- The character of an em dash.
abbrev pub em_dash : Str
em_dash = 226 ∷ 128 ∷ 148 ∷ []

pub record PromptBuilder : Type 0 where
  pub system_template : Str
  pub user_template : Str

system_propose : Str
system_propose =
    bytes "You are a static-analysis proposer attached to the AYE-AYE neuro-symbolic ru"
    ++ (bytes "ntime. Given a set of observed facts about a codebase and an intent, you ret"
        ++ (bytes "urn *candidate* hypothesis facts that a human reviewer might want to validat"
            ++ (bytes "e. You never invent identifiers that do not appear in the context. Your outp"
                ++ (bytes
                      "ut MUST be valid JSON matching the schema { candidates: [{ predicate: string"
                    ++ (bytes ", args: [string], justification: string }] }.")))))

user_propose : Str
user_propose =
    bytes "Intent: {{intent}}\n\nContext (observed facts):\n{{context}}\nRespond with JSON "
    ++ (bytes "only, no prose.")

system_refine : Str
system_refine =
    bytes "You are a static-analysis *refiner* attached to the AYE-AYE neuro-symbolic r"
    ++ (bytes "untime. A previous round produced candidate facts that were rejected, either"
        ++ (bytes " by the identifier resolver (unknown ids "
            ++ (em_dash
                ++ (bytes
                      " hallucinations) or by downstream validators (rule / type / behavioral diagn"
                    ++ (bytes
                          "ostics). Your job is to produce a *revised* set of candidates that (1) avoid"
                        ++ (bytes
                              "s every identifier previously flagged as a hallucination, (2) addresses ever"
                            ++ (bytes
                                  "y diagnostic that can be addressed by changing the proposal, and (3) never i"
                                ++ (bytes
                                      "nvents new identifiers outside the provided context. Same output schema as t"
                                    ++ (bytes
                                          "he proposer: { candidates: [{ predicate: string, args: [string], justificati"
                                        ++ (bytes "on: string }] }."))))))))))

user_refine : Str
user_refine =
    bytes "Intent: {{intent}}\n\nContext (observed facts):\n{{context}}\nPrior rejections ("
    ++ (bytes "do not repeat these):\n{{rejections}}\nPrior validator diagnostics (address th"
        ++ (bytes "ese if your proposals caused them):\n{{diagnostics}}\nRespond with JSON only, "
            ++ (bytes "no prose.")))

-- `propose_v1` and `refine_v1`.
unfoldable pub propose_v1 : PromptBuilder
unfolding system_propose user_propose
propose_v1 = record { system_template = system_propose; user_template = user_propose }

unfoldable pub refine_v1 : PromptBuilder
unfolding system_refine user_refine
refine_v1 = record { system_template = system_refine; user_template = user_refine }

starts_with : Str → Str → Bool
starts_with [] s = true
starts_with (b ∷ pattern) [] = false
starts_with (b ∷ pattern) (c ∷ s) =
    let rest = starts_with pattern s in if b == c then rest else false

-- `str::replace`: from the left, after a match behind it. `skip` bytes of a match are still to pass.
replace_from : ℕ → Str → Str → Str → Str
unfolding starts_with
replace_from skip pattern by [] = []
replace_from (suc skip) pattern by (b ∷ s) = replace_from skip pattern by s
replace_from zero pattern by (b ∷ s) = elim (starts_with pattern (b ∷ s)) [
  | true ↦ by ++ replace_from (length (drop 1 pattern)) pattern by s
  | false ↦ b ∷ replace_from zero pattern by s
]

unfoldable pub replace : Str → Str → Str → Str
unfolding replace_from
replace s pattern by = replace_from zero pattern by s

-- `join`.
unfoldable pub join : Str → List Str → Str
join sep [] = []
join sep (s ∷ []) = s
join sep (s ∷ t ∷ ts) = s ++ (sep ++ join sep (t ∷ ts))

unfoldable pub render_facts : List Fact → Str
unfolding join
render_facts [] = []
render_facts (f ∷ fs) =
    f.predicate ++ (bytes "(" ++ (join (bytes ", ") f.args ++ (bytes ").\n" ++ render_facts fs)))

pub record RejectionLine : Type 0 where
  pub predicate : Str
  pub args : List Str
  pub reason : Str

pub record DiagnosticLine : Type 0 where
  pub severity : Str
  pub file : Option Str
  pub message : Str

unfoldable pub rejection_lines : List RejectionLine → Str
unfolding join
rejection_lines [] = []
rejection_lines (r ∷ rs) =
    bytes "- "
    ++ (r.predicate
        ++ (bytes "("
            ++ (join (bytes ", ") r.args
                ++ (bytes ") "
                    ++ (em_dash
                        ++ (bytes " " ++ (r.reason ++ (bytes "\n" ++ rejection_lines rs))))))))

unfoldable pub render_rejections : List RejectionLine → Str
unfolding rejection_lines
render_rejections [] = bytes "(none)\n"
render_rejections (r ∷ rs) = rejection_lines (r ∷ rs)

diagnostic_head : Option Str → Str
diagnostic_head none = bytes "] "
diagnostic_head (some file) = bytes "] " ++ (file ++ bytes ": ")

unfoldable pub diagnostic_lines : List DiagnosticLine → Str
unfolding diagnostic_head
diagnostic_lines [] = []
diagnostic_lines (d ∷ ds) =
    bytes "- ["
    ++ (d.severity
        ++ (diagnostic_head d.file ++ (d.message ++ (bytes "\n" ++ diagnostic_lines ds))))

unfoldable pub render_diagnostics : List DiagnosticLine → Str
unfolding diagnostic_lines
render_diagnostics [] = bytes "(none)\n"
render_diagnostics (d ∷ ds) = diagnostic_lines (d ∷ ds)

-- The system text and the user text.
unfoldable pub build : PromptBuilder → Str → List Fact → Str × Str
unfolding replace render_facts
build builder intent facts = (
  builder.system_template,
  replace (replace builder.user_template (bytes "{{intent}}") intent) (bytes "{{context}}")
      (render_facts facts),
)

unfoldable pub build_refine :
    PromptBuilder → Str → List Fact → List RejectionLine → List DiagnosticLine → Str × Str
unfolding replace render_facts render_rejections render_diagnostics
build_refine builder intent facts prior_rejections diagnostics = (
  builder.system_template,
  let user = replace builder.user_template (bytes "{{intent}}") intent in
      let user₁ = replace user (bytes "{{context}}") (render_facts facts) in
      let user₂ = replace user₁ (bytes "{{rejections}}") (render_rejections prior_rejections) in
      replace user₂ (bytes "{{diagnostics}}") (render_diagnostics diagnostics),
)
