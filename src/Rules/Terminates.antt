-- ===== src/Rules/Terminates.antt =====
-- The end of `evaluate`, crates/aa-rules/src/eval.rs, by the facts that its rounds can add.
use prolog_forge.Prelude.{
  ℕ, zero, suc, ◌<◌, List, [], ◌∷◌, ◌++◌, some, true, ◌≡◌, sym, ◌∙◌, subst, arith, ◌==◌, ==_iff,
  nat_eq, list_eq, Str, length, map_get, map_values, Map, In, In-append_left, In-append_right, All,
  All-In, inl, inr, elem, elem→In, Bool-cases, ok, err, get_or,
}
use prolog_forge.Graph.Fact.{Fact, fact_eq}
use prolog_forge.Graph.Store.{GraphStore, all_facts, facts_of, flatten}
use prolog_forge.Graph.Insert.{IsValid, contains-eq-elem}
use prolog_forge.Rules.Ast.{Rule}
use prolog_forge.Rules.Eval.{
  EvalStats, fire_rules, insert_batch, evaluate_loop, evaluate, no_stats, next_round,
}
use prolog_forge.Rules.Model.{instantiate_head_sound}
use prolog_forge.Rules.Fire.{Activation, fire_rules_sound}
use prolog_forge.Rules.Batch.{
  insert_batch_sound, insert_batch-IsValid, insert_batch_mono, insert_batch_first,
}
use prolog_forge.Rules.Loop.{Outcome, failed, saturated, refused, next, round}
use prolog_forge.Rules.Sound.{contains_filed}
use prolog_forge.Rules.Values.{ArgsIn, solve_body-Bound}
use prolog_forge.Rules.Base.{
  term_consts, rule_consts, fact_atoms, universe, candidates, missing, missing_decreases,
  missing-le-length, args-In, In-candidates,
}

module _ (u : List Str) (rules : List Rule)
    (consts : (r : Rule) → In r rules → All (λ a. In a u) (term_consts r.head.args)) where
  -- The head of an activation is a candidate, over the alphabet.
  Activation-candidates :
      (s : GraphStore) (f : Fact)
      → ArgsIn (λ a. In a u) s
      → Activation rules s f
      → In f (candidates u rules) × All (λ a. In a u) f.args
  Activation-candidates s f args (r, b, mr, mb, made) =
      let (same, layer, holds) = instantiate_head_sound r.head b f made in
      let (all, len) =
        args-In u r.head.args b f.args (consts r mr)
          (solve_body-Bound (λ a. In a u) r.body s b args mb) holds in
      (In-candidates u rules r f mr (ground (arith, same, layer)) len all, all)

  -- The new facts of a round keep the atoms of the store within the alphabet.
  round-ArgsIn :
      (s : GraphStore) (stats : EvalStats) (batch : List Fact)
      → IsValid s
      → ArgsIn (λ a. In a u) s
      → fire_rules rules s [] ≡ ok batch
      → ArgsIn (λ a. In a u) (insert_batch batch stats s).1
  unfolding elem
  round-ArgsIn s stats batch v args fired p f m =
      let there =
        (contains_filed (insert_batch batch stats s).1 (insert_batch-IsValid batch stats s v) p f
          m).1 in
      elim (insert_batch_sound batch stats s f there) [
        | inl old ↦
            args f.predicate f
              (elem→In f (facts_of s f.predicate) (sym (contains-eq-elem s f) ∙ old))
        | inr new ↦ elim (fire_rules_sound rules s [] batch f fired new) [
          | inl none_yet ↦ absurd (cc none_yet)
          | inr (_, act) ↦ (Activation-candidates s f args act).1
        ]
      ]

  loop_total :
      (fuel : ℕ) (stats : EvalStats) (s : GraphStore)
      → IsValid s
      → ArgsIn (λ a. In a u) s
      → missing s (candidates u rules) < fuel
      → (o : Outcome) × (evaluate_loop fuel rules stats s ≡ some o)
  unfolding elem
  loop_total zero stats s v args h = absurd (omega arith)
  loop_total (suc fuel) stats s v args h = elim (round rules fuel stats s) [
    | failed e ends ↦ ((err e, s), ends)
    | saturated fired ends ↦ ((ok (next_round stats), s), ends)
    | refused f fs e fired ends ↦ ((err e, (insert_batch (f ∷ fs) (next_round stats) s).1), ends)
    | next f fs stats' fired done ends ↦
        let s' = (insert_batch (f ∷ fs) (next_round stats) s).1 in
        let first : elem f (f ∷ fs) ≡ true = ground (arith, ==_iff f f) in
        elim (fire_rules_sound rules s [] (f ∷ fs) f fired first) [
          | inl none_yet ↦ absurd (cc none_yet)
          | inr (new, act) ↦
              let fewer : missing s' (candidates u rules) < missing s (candidates u rules) =
                missing_decreases s s' (insert_batch_mono (f ∷ fs) (next_round stats) s) f
                  (candidates u rules) (Activation-candidates s f args act).0 new
                  (insert_batch_first f fs (next_round stats) stats' s done) in
              let (o, e) =
                loop_total fuel stats' s' (insert_batch-IsValid (f ∷ fs) (next_round stats) s v)
                  (round-ArgsIn s (next_round stats) (f ∷ fs) v args fired) (omega arith) in
              (o, ends ∙ e)
        ]
  ]

rule_consts-In :
    (rules : List Rule) (r : Rule) (a : Str)
    → In r rules
    → In a (term_consts r.head.args)
    → In a (rule_consts rules)
unfolding rule_consts
rule_consts-In [] r a m n = elim m [ ]
rule_consts-In (q ∷ rules) r a (inl same) n =
    In-append_left a (term_consts q.head.args) (rule_consts rules)
      (subst (λ (x : Rule). In a (term_consts x.head.args)) same n)
rule_consts-In (q ∷ rules) r a (inr m) n =
    In-append_right a (term_consts q.head.args) (rule_consts rules) (rule_consts-In rules r a m n)

fact_atoms-In : (fs : List Fact) (f : Fact) (a : Str) → In f fs → In a f.args → In a (fact_atoms fs)
unfolding fact_atoms
fact_atoms-In [] f a m n = elim m [ ]
fact_atoms-In (g ∷ fs) f a (inl same) n =
    In-append_left a g.args (fact_atoms fs) (subst (λ (x : Fact). In a x.args) same n)
fact_atoms-In (g ∷ fs) f a (inr m) n =
    In-append_right a g.args (fact_atoms fs) (fact_atoms-In fs f a m n)

bucket-all_facts :
    (m : Map Str (List Fact)) (p : Str) (f : Fact)
    → In f (get_or (map_get p m) [])
    → In f (flatten (map_values m))
unfolding map_get map_values flatten
bucket-all_facts [] p f h = elim h [ ]
bucket-all_facts ((q, b) ∷ m) p f h = elim (Bool-cases (q == p)) [
  | inl same ↦ In-append_left f b (flatten (map_values m)) (rw same at h)
  | inr other ↦
      In-append_right f b (flatten (map_values m)) (bucket-all_facts m p f (rw other at h))
]

-- With more fuel than there are candidate facts, a run over a valid store ends: with its statistics,
-- or with the error that the source returns.
pub evaluate_total :
    (fuel : ℕ) (rules : List Rule) (s : GraphStore)
    → IsValid s
    → length (candidates (universe rules s) rules) < fuel
    → (o : Outcome) × (evaluate fuel rules s ≡ some o)
unfolding evaluate universe
evaluate_total fuel rules s v h =
    let u : List Str = rule_consts rules ++ fact_atoms (all_facts s) in
    loop_total u rules
      (λ r m.
        All-In (λ a. In a u) (term_consts r.head.args)
          (λ a n.
            In-append_left a (rule_consts rules) (fact_atoms (all_facts s))
              (rule_consts-In rules r a m n)))
      fuel no_stats s v
      (λ p f m.
        All-In (λ a. In a u) f.args
          (λ a n. In-append_right a (rule_consts rules) (fact_atoms (all_facts s)) (
            fact_atoms-In (all_facts s) f a
              (unfold all_facts facts_of in bucket-all_facts s.buckets p f m) n)))
      (omega (arith, missing-le-length s (candidates u rules)))
