-- ===== src/Rules/Sound.antt =====
-- The facts that `evaluate` of crates/aa-rules/src/eval.rs adds, against what follows by the
-- rules.
use prolog_forge.Prelude.{
  ℕ, List, [], ◌∷◌, some, true, false, ◌≡◌, sym, ◌∙◌, subst, Str, elem, In→elem, In, inl, inr, ok,
  nat_eq, list_eq,
}
use prolog_forge.Graph.Fact.{Fact, fact_eq}
use prolog_forge.Graph.Store.{GraphStore, contains, facts_of}
use prolog_forge.Graph.Insert.{IsValid, contains-eq-elem}
use prolog_forge.Graph.Unify.{Binding}
use prolog_forge.Rules.Ast.{Atom, Rule}
use prolog_forge.Rules.Eval.{EvalStats, fire_rules, insert_batch, evaluate, no_stats}
use prolog_forge.Rules.Body.{Satisfies}
use prolog_forge.Rules.Solve.{solve_body_sound}
use prolog_forge.Rules.Model.{
  Derives, DerivesBody, given, fired, done, holds, instantiate_head_sound,
}
use prolog_forge.Rules.Fire.{Activation, fire_rules_sound}
use prolog_forge.Rules.Batch.{insert_batch_sound, insert_batch-IsValid}
use prolog_forge.Rules.Loop.{Outcome, loop_induction}

-- The store is valid, and each of its facts follows from `base`.
pub record IsDerived (rules : List Rule) (base s : GraphStore) : Type 0 where
  pub valid : IsValid s
  pub derived : (f : Fact) → contains s f ≡ true → Derives rules base f

pub contains_filed :
    (s : GraphStore) (v : IsValid s) (p : Str) (f : Fact)
    → In f (facts_of s p)
    → (f.predicate ≡ p) × (contains s f ≡ true)
contains_filed s v p f m =
    let e : elem f (facts_of s p) ≡ true = In→elem f (facts_of s p) m in
    let same : f.predicate ≡ p = v.filed p f e in
    (same, contains-eq-elem s f ∙ subst (λ q. elem f (facts_of s q) ≡ true) (sym same) e)

body-DerivesBody :
    (rules : List Rule) (base s : GraphStore) (d : IsDerived rules base s) (σ : Binding)
    (body : List Atom)
    → Satisfies s σ body
    → DerivesBody rules base σ body
body-DerivesBody rules base s d σ [] sat = done σ
body-DerivesBody rules base s d σ (a ∷ body) sat =
    let (f, m, args) = sat.0 in
    let (same, there) = contains_filed s d.valid a.predicate f m in
    holds σ a body f same args (d.derived f there) (body-DerivesBody rules base s d σ body sat.1)

Activation-Derives :
    (rules : List Rule) (base s : GraphStore) (d : IsDerived rules base s) (f : Fact)
    → Activation rules s f
    → Derives rules base f
Activation-Derives rules base s d f (r, b, mr, mb, made) =
    fired r b f mr (body-DerivesBody rules base s d b r.body (solve_body_sound r.body s b mb))
      (instantiate_head_sound r.head b f made)

round-IsDerived :
    (rules : List Rule) (base s : GraphStore) (stats : EvalStats) (batch : List Fact)
    → IsDerived rules base s
    → fire_rules rules s [] ≡ ok batch
    → IsDerived rules base (insert_batch batch stats s).1
round-IsDerived rules base s stats batch d h = record {
  valid = insert_batch-IsValid batch stats s d.valid;
  derived = λ g m. elim (insert_batch_sound batch stats s g m) [
    | inl old ↦ d.derived g old
    | inr new ↦ elim (fire_rules_sound rules s [] batch g h new) [
      | inl none_yet ↦ absurd (cc (no_member g none_yet))
      | inr (_, act) ↦ Activation-Derives rules base s d g act
    ]
  ];
}
  where
    no_member : (g : Fact) → elem g [] ≡ true → false ≡ true
    no_member g h = unfold elem in h

-- Whatever the outcome and the fuel, the store at the end is valid and holds only facts that follow
-- from the valid store at the start by the rules.
pub evaluate_sound :
    (fuel : ℕ) (rules : List Rule) (s : GraphStore) (o : Outcome)
    → IsValid s
    → evaluate fuel rules s ≡ some o
    → IsValid o.1 × ((f : Fact) → contains o.1 f ≡ true → Derives rules s f)
unfolding evaluate
evaluate_sound fuel rules s o v h =
    let d =
      loop_induction rules (IsDerived rules s)
        (λ t stats batch. round-IsDerived rules s t stats batch) fuel no_stats s o
        (record { valid = v; derived = given }) h in
    (d.valid, d.derived)
