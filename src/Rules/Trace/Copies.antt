-- ===== src/Rules/Trace/Copies.antt =====
-- The copies in crates/aa-rules/src/trace.rs, against the originals of eval.rs.
use prolog_forge.Prelude.{
  List, [], ◌∷◌, Option, none, some, ◌≡◌, refl, arith, nat_eq, list_eq, map_get, map_insert, Result,
  ok, err, Option-cases, inl, inr,
}
use mathlib.Core.Path.{fun_ext}
use prolog_forge.Graph.Store.{GraphStore}
use prolog_forge.Graph.Unify.{Binding}
use prolog_forge.Rules.Ast.{Term, const, var, Atom}
use prolog_forge.Rules.Eval
use prolog_forge.Rules.Trace
use prolog_forge.Rules.Trace.{solve_body, instantiate_head}

merge_copy : (add out : Binding) → Trace.merge out add ≡ Eval.merge out add
unfolding Trace.merge Eval.merge Eval.merge_entry
merge_copy [] out = refl
merge_copy ((k, v) ∷ add) out = elim (Option-cases (map_get k out)) [
  | inl fresh ↦ ground (arith, merge_copy add (map_insert k v out))
  | inr (prev, known) ↦ ground (arith, merge_copy add out)
]

pattern_copy :
    (ts : List Term) (b : Binding) → Trace.to_pattern_args ts b ≡ Eval.to_pattern_args ts b
unfolding Trace.to_pattern_args Eval.to_pattern_args Eval.bound_or_var
pattern_copy [] b = refl
pattern_copy (const c ∷ ts) b = cc (pattern_copy ts b)
pattern_copy (var v ∷ ts) b = elim (Option-cases (map_get v b)) [
  | inl fresh ↦ ground (arith, pattern_copy ts b)
  | inr (val, known) ↦ ground (arith, pattern_copy ts b)
]

extend_all_copy :
    (a : Atom) (s : GraphStore) (bs : List Binding)
    → Trace.extend_all a s bs ≡ Eval.extend_all a s bs
unfolding Trace.extend_all Eval.extend_all Eval.merge_all Trace.to_pattern_with_binding
    Eval.to_pattern_with_binding
extend_all_copy a s [] = refl
extend_all_copy a s (b ∷ bs) =
    rw (fun_ext (λ m. merge_copy m b), pattern_copy a.args b, extend_all_copy a s bs)

solve_from_copy :
    (body : List Atom) (s : GraphStore) (bs : List Binding)
    → Trace.solve_from bs body s ≡ Eval.solve_from bs body s
unfolding Trace.solve_from Eval.solve_from
solve_from_copy [] s bs = refl
solve_from_copy (a ∷ body) s bs =
    rw (extend_all_copy a s bs) (solve_from_copy body s (Eval.extend_all a s bs))

-- The tracer joins a body as the evaluator does.
pub solve_body_copy :
    (body : List Atom) (s : GraphStore) → solve_body body s ≡ Eval.solve_body body s
unfolding solve_body Eval.solve_body
solve_body_copy body s = solve_from_copy body s ([] ∷ [])

abbrev pub ok_or_none {ℓ} : {A : Type 0} {E : Type ℓ} → Result E A → Option A
ok_or_none (ok a) = some a
ok_or_none (err e) = none

instantiate_args_copy :
    (ts : List Term) (b : Binding)
    → Trace.instantiate_args ts b ≡ ok_or_none (Eval.instantiate_args ts b)
unfolding Trace.instantiate_args Eval.instantiate_args Eval.bound_or_err
instantiate_args_copy [] b = refl
instantiate_args_copy (const c ∷ ts) b = ground (arith, instantiate_args_copy ts b)
instantiate_args_copy (var v ∷ ts) b = ground (arith, instantiate_args_copy ts b)

-- The tracer's head is the evaluator's, and it fails where that has an error.
pub instantiate_head_copy :
    (head : Atom) (b : Binding)
    → instantiate_head head b ≡ ok_or_none (Eval.instantiate_head head b)
unfolding instantiate_head Eval.instantiate_head
instantiate_head_copy head b = ground (arith, instantiate_args_copy head.args b)
