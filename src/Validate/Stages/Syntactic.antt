-- ===== src/Validate/Stages/Syntactic.antt =====
-- The syntactic stage of crates/aa-validate/src/stages.rs, by what the parser accepts.
use prolog_forge.Prelude.{
  ◌≡◌, ◌↔◌, refl, [], ◌∷◌, Option, none, true, Str, bytes, Map, AllEntries, Option-cases,
  Bool-cases, inl, inr,
}
use prolog_forge.Validate.Stage.{ValidationContext, with_errors-ok, is_error, AllErrors}
use prolog_forge.Validate.Stages
use prolog_forge.Validate.Stages.{syntactic_errors, syntactic_stage, ends_with, an_error}

module _ (parse_file : Str → Option Str) where
  -- Every Rust file parses.
  abbrev pub AllParse : Map Str Str → Type 0
  AllParse files =
      AllEntries (λ path content. ends_with path (bytes ".rs") ≡ true → parse_file content ≡ none)
        files

  errors-AllErrors : (files : Map Str Str) → AllErrors (syntactic_errors parse_file files)
  unfolding syntactic_errors Stages.parse_error is_error
  errors-AllErrors [] = tt
  errors-AllErrors ((path, content) ∷ files) =
      let rest = errors-AllErrors files in
      elim (Bool-cases (ends_with path (bytes ".rs"))) [
        | inr other ↦ rw other rest
        | inl rust ↦ elim (Option-cases (parse_file content)) [
          | inl parsed ↦ rw (rust, parsed) rest
          | inr (e, failed) ↦ rw (rust, failed) (refl, rest)
        ]
      ]

  errors_none : (files : Map Str Str) → (syntactic_errors parse_file files ≡ []) ↔ AllParse files
  unfolding syntactic_errors Stages.parse_error
  errors_none [] = (λ h. tt, λ h. refl)
  errors_none ((path, content) ∷ files) =
      let ih = errors_none files in
      elim (Bool-cases (ends_with path (bytes ".rs"))) [
        | inr other ↦ rw other (λ h. (λ e. absurd (cc e), ih.0 h), λ h. ih.1 h.1)
        | inl rust ↦ elim (Option-cases (parse_file content)) [
          | inl parsed ↦ rw (rust, parsed) (λ h. (λ e. refl, ih.0 h), λ h. ih.1 h.1)
          | inr (e, failed) ↦ rw (rust, failed) (λ h. absurd (cc h), λ h. absurd (cc (h.0 refl)))
        ]
      ]

  -- The syntactic stage passes exactly when the parser accepts every shadow file whose path ends in `.rs`.
  pub syntactic_stage_exact :
      (ctx : ValidationContext)
      → (((syntactic_stage parse_file).validate ctx).ok ≡ true) ↔ AllParse ctx.shadow_files
  unfolding syntactic_stage
  syntactic_stage_exact ctx =
      let exact =
        with_errors-ok (bytes "syntactic") (syntactic_errors parse_file ctx.shadow_files)
          (errors-AllErrors ctx.shadow_files) in
      let clean = errors_none ctx.shadow_files in
      (λ h. clean.0 (exact.0 h), λ h. exact.1 (clean.1 h))
