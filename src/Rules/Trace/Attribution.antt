-- ===== src/Rules/Trace/Attribution.antt =====
-- The reports of crates/aa-rules/src/trace.rs, against the activations of the rules.
use prolog_forge.Prelude.{
  ℕ, suc, ◌+◌, List, [], ◌∷◌, some, true, false, ◌≡◌, refl, sym, ap, subst, arith, nat_eq, list_eq,
  Str, filter_map, get_elem?, In, In-append, In-append_left, In-append_right, In-filter_map,
  In-filter_map_of, ok, inl, inr,
}
use prolog_forge.Graph.Fact.{Fact, observed}
use prolog_forge.Graph.Store.{GraphStore, contains, facts_of}
use prolog_forge.Graph.Insert.{IsValid}
use prolog_forge.Graph.Unify.{Binding}
use prolog_forge.Rules.Ast.{Term, const, var, Atom, Rule}
use prolog_forge.Rules.Eval
use prolog_forge.Rules.Eval.{EvalStats, evaluate, no_stats, fire_rules}
use prolog_forge.Rules.Body.{ArgsHold, Satisfies}
use prolog_forge.Rules.Solve.{solve_body_sound}
use prolog_forge.Rules.Model.{Derives, given, fired}
use prolog_forge.Rules.Least.{evaluate_least, evaluate_closed, evaluate_body, listed-head}
use prolog_forge.Rules.Trace
use prolog_forge.Rules.Trace.{
  Derivation, trace_derivations, instantiate_head, instantiate_body_atom, premises_of, solve_body,
}
use prolog_forge.Rules.Trace.Copies.{solve_body_copy, instantiate_head_copy}

-- The premises are the facts that the body's atoms met, one by one, with their layer set to `observed`.
abbrev pub PremisesHold : GraphStore → List Atom → List Fact → Type 0
PremisesHold s [] [] = Unit
PremisesHold s (a ∷ body) (p ∷ ps) =
    ((f : Fact) × In f (facts_of s a.predicate)
      × (p ≡ record { predicate = a.predicate; args = f.args; layer = observed }))
    × PremisesHold s body ps
PremisesHold s _ _ = ⊥

body_args-ArgsHold :
    (ts : List Term) (b : Binding) (as' : List Str) → ArgsHold b ts as' → Trace.body_args ts b ≡ as'
unfolding Trace.body_args Trace.value_or_mark
body_args-ArgsHold [] b [] h = refl
body_args-ArgsHold [] b (a ∷ as') h = absurd h
body_args-ArgsHold (const c ∷ ts) b [] h = absurd h
body_args-ArgsHold (var v ∷ ts) b [] h = absurd h
body_args-ArgsHold (const c ∷ ts) b (a ∷ as') h =
    ground (arith, h.0, body_args-ArgsHold ts b as' h.1)
body_args-ArgsHold (var v ∷ ts) b (a ∷ as') h =
    rw h.0 (ap (λ r. a ∷ r) (body_args-ArgsHold ts b as' h.1))

premises-PremisesHold :
    (s : GraphStore) (body : List Atom) (b : Binding)
    → Satisfies s b body
    → PremisesHold s body (premises_of body b)
unfolding instantiate_body_atom
premises-PremisesHold s [] b sat = tt
premises-PremisesHold s (a ∷ body) b sat =
    let (f, m, args) = sat.0 in
    ((f, m, rw (body_args-ArgsHold a.args b f.args args)), premises-PremisesHold s body b sat.1)

-- Of the rule at its index, a derivation is an activation.
abbrev pub IsActivation : List Rule → GraphStore → ℕ → Derivation → Type 0
IsActivation rules s i d =
    (r : Rule) × (b : Binding) × (get_elem? rules i ≡ some r)
    × (d.head_name ≡ r.head.predicate)
    × In b (Eval.solve_body r.body s)
    × (Eval.instantiate_head r.head b ≡ ok d.head)
    × PremisesHold s r.body d.premises

head_ok :
    (r : Rule) (b : Binding) (f : Fact)
    → instantiate_head r.head b ≡ some f
    → Eval.instantiate_head r.head b ≡ ok f
head_ok r b f h = ground (arith, instantiate_head_copy r.head b)

trace_one_sound :
    (s : GraphStore) (idx : ℕ) (r : Rule) (b : Binding) (d : Derivation)
    → Trace.trace_one idx r b ≡ some d
    → (instantiate_head r.head b ≡ some d.head)
      × (d.rule_index ≡ idx)
      × (d.head_name ≡ r.head.predicate)
      × (d.premises ≡ premises_of r.body b)
unfolding Trace.trace_one
trace_one_sound s idx r b d h = ground arith

trace_from_sound :
    (rules : List Rule) (s : GraphStore) (idx : ℕ) (d : Derivation)
    → In d (Trace.trace_from idx rules s)
    → (k : ℕ) × (d.rule_index ≡ idx + k) × IsActivation rules s k d
unfolding Trace.trace_from
trace_from_sound [] s idx d m = elim m [ ]
trace_from_sound (r ∷ rules) s idx d m =
    elim (In-append d (filter_map (Trace.trace_one idx r) (solve_body r.body s))
      (Trace.trace_from (suc idx) rules s) m) [
        | inl here ↦
            let (b, listed, made) =
              In-filter_map (Trace.trace_one idx r) d (solve_body r.body s) here in
            let (head, index, name, premises) = trace_one_sound s idx r b d made in
            let listed' : In b (Eval.solve_body r.body s) =
              subst (In b) (solve_body_copy r.body s) listed in
            (
              0,
              omega arith,
              (
                r,
                b,
                refl,
                name,
                listed',
                head_ok r b d.head head,
                rw premises
                    (premises-PremisesHold s r.body b (solve_body_sound r.body s b listed')),
              ),
            )
        | inr later ↦
            let (k, index, act) = trace_from_sound rules s (suc idx) d later in
            (suc k, omega arith, act)
      ]

-- Every derivation that is reported is an activation of the rule at its index: a binding that the
-- evaluator lists for the body, with the evaluator's head, and with the facts met as its premises.
pub trace_derivations_sound :
    (rules : List Rule) (s : GraphStore) (d : Derivation)
    → In d (trace_derivations rules s)
    → IsActivation rules s d.rule_index d
unfolding trace_derivations
trace_derivations_sound rules s d m =
    let (k, index, act) = trace_from_sound rules s 0 d m in
    let same : k ≡ d.rule_index = omega arith in subst (λ i. IsActivation rules s i d) same act

trace_from_complete :
    (rules : List Rule) (s : GraphStore) (idx : ℕ) (r : Rule) (b : Binding) (f : Fact)
    → In r rules
    → In b (solve_body r.body s)
    → instantiate_head r.head b ≡ some f
    → (d : Derivation) × In d (Trace.trace_from idx rules s) × (d.head ≡ f)
unfolding Trace.trace_from Trace.trace_one
trace_from_complete [] s idx r b f m listed made = elim m [ ]
trace_from_complete (q ∷ rules) s idx r b f (inl same) listed made =
    let d : Derivation = record {
      rule_index = idx;
      head_name = q.head.predicate;
      head = f;
      premises = premises_of q.body b;
    } in
    let made' : instantiate_head q.head b ≡ some f =
      subst (λ (x : Rule). instantiate_head x.head b ≡ some f) same made in
    (
      d,
      In-append_left d (filter_map (Trace.trace_one idx q) (solve_body q.body s))
          (Trace.trace_from (suc idx) rules s)
          (In-filter_map_of (Trace.trace_one idx q) b d (solve_body q.body s)
            (subst (λ (x : Rule). In b (solve_body x.body s)) same listed)
            (rw (made', Trace.trace_one))),
      refl,
    )
trace_from_complete (q ∷ rules) s idx r b f (inr m) listed made =
    let (d, mem, e) = trace_from_complete rules s (suc idx) r b f m listed made in
    (
      d,
      In-append_right d (filter_map (Trace.trace_one idx q) (solve_body q.body s))
          (Trace.trace_from (suc idx) rules s) mem,
      e,
    )

-- After a successful run, the tracer reports a derivation for each fact that the run added.
pub trace_attributes :
    (fuel : ℕ) (rules : List Rule) (s t : GraphStore) (stats : EvalStats) (f : Fact)
    → IsValid s
    → evaluate fuel rules s ≡ some (ok stats, t)
    → contains s f ≡ false
    → contains t f ≡ true
    → (d : Derivation) × In d (trace_derivations rules t) × (d.head ≡ f)
unfolding trace_derivations
trace_attributes fuel rules s t stats f v h new there =
    go ((evaluate_least fuel rules s t stats f v h).0 there)
  where
    go : Derives rules s f → (d : Derivation) × In d (Trace.trace_from 0 rules t) × (d.head ≡ f)
    go (given _ old) = absurd (cc (new, old))
    go (fired r σ _ mem body head) =
        let (b, listed, made, _) =
          listed-head rules t (evaluate_closed fuel rules s t stats h) r σ f mem
            (evaluate_body fuel rules s t stats h σ r.body body) head in
        trace_from_complete rules t 0 r b f mem
          (subst (In b) (sym (solve_body_copy r.body t)) listed)
          (rw (instantiate_head_copy r.head b, made))
