-- ===== src/Rules/Solve.antt =====
-- `solve_body` of crates/aa-rules/src/eval.rs, against the meaning of a body.
use prolog_forge.Prelude.{
  List, [], ◌∷◌, some, ◌≡◌, refl, nat_eq, list_eq, map_get, Extends, AllEntries-map_get, inl, inr,
  In, In-filter_map, In-filter_map_of, In-append_left, In-append_right, In-append,
}
use prolog_forge.Graph.Fact.{Fact}
use prolog_forge.Graph.Store.{GraphStore, facts_of}
use prolog_forge.Graph.Unify.{Binding, matches, unify}
use prolog_forge.Graph.Match.{Agrees, unify_sound, unify_complete}
use prolog_forge.Rules.Ast.{Atom}
use prolog_forge.Rules.Eval.{
  merge, to_pattern_args, to_pattern_with_binding, merge_all, extend_all, solve_from, solve_body,
}
use prolog_forge.Rules.Body.{
  AtomHolds, Satisfies, Satisfies-Extends, Extends-trans, merge_sound, merge_complete,
  pattern-Instance, pattern-ArgsHold,
}

-- One atom: a binding that is listed extends one of those before, and the atom holds under it.
extend_all_sound :
    (a : Atom) (s : GraphStore) (bs : List Binding) (b' : Binding)
    → In b' (extend_all a s bs)
    → (b : Binding) × In b bs × Extends b' b × AtomHolds s b' a
unfolding extend_all merge_all matches to_pattern_with_binding
extend_all_sound a s [] b' h = elim h [ ]
extend_all_sound a s (b ∷ bs) b' h =
    elim (In-append b' (merge_all b (matches (to_pattern_with_binding a b) s)) (extend_all a s bs)
      h) [
        | inl first ↦
            let (m, mem, merged) =
              In-filter_map (merge b) b' (matches (to_pattern_with_binding a b) s) first in
            let (f, filed, unified) =
              In-filter_map (λ (f : Fact). unify (to_pattern_args a.args b) f.args) m
                (facts_of s a.predicate) mem in
            let (eb, em) = merge_sound m b b' merged in
            (
              b,
              inl refl,
              eb,
              (
                f,
                filed,
                pattern-ArgsHold a.args f.args b m b' eb em
                    (unify_sound (to_pattern_args a.args b) f.args m unified),
              ),
            )
        | inr rest ↦
            let (c, mem, ext, holds) = extend_all_sound a s bs b' rest in (c, inr mem, ext, holds)
      ]

extend_all_complete :
    (a : Atom) (s : GraphStore) (bs : List Binding) (b σ : Binding)
    → In b bs
    → Agrees σ b
    → AtomHolds s σ a
    → (b' : Binding) × In b' (extend_all a s bs) × Agrees σ b'
unfolding extend_all merge_all matches to_pattern_with_binding
extend_all_complete a s [] b σ h ag holds = elim h [ ]
extend_all_complete a s (c ∷ bs) b σ (inl same) ag (f, filed, args) =
    let ag' : Agrees σ c = rw same at ag in
    let ext : Extends σ c = λ k v e. AllEntries-map_get (λ k v. map_get k σ ≡ some v) k v c ag' e in
    let (m, unified, agm) =
      unify_complete (to_pattern_args a.args c) f.args σ
        (pattern-Instance a.args f.args c σ ext args) in
    let (b', merged, ag'') = merge_complete m c σ ag' agm in
    let found =
      In-filter_map_of (λ (f : Fact). unify (to_pattern_args a.args c) f.args) f m
        (facts_of s a.predicate) filed unified in
    (
      b',
      In-append_left b' (merge_all c (matches (to_pattern_with_binding a c) s)) (extend_all a s bs)
          (In-filter_map_of (merge c) m b' (matches (to_pattern_with_binding a c) s) found merged),
      ag'',
    )
extend_all_complete a s (c ∷ bs) b σ (inr later) ag holds =
    let (b', mem, ag') = extend_all_complete a s bs b σ later ag holds in
    (
      b',
      In-append_right b' (merge_all c (matches (to_pattern_with_binding a c) s)) (extend_all a s bs)
          mem,
      ag',
    )

solve_from_sound :
    (body : List Atom) (s : GraphStore) (bs : List Binding) (b' : Binding)
    → In b' (solve_from bs body s)
    → (b : Binding) × In b bs × Extends b' b × Satisfies s b' body
unfolding solve_from
solve_from_sound [] s bs b' h = (b', h, λ k v e. e, tt)
solve_from_sound (a ∷ body) s bs b' h =
    let (b₁, mem₁, ext₁, sat) = solve_from_sound body s (extend_all a s bs) b' h in
    let (b, mem, ext, holds) = extend_all_sound a s bs b₁ mem₁ in
    (
      b,
      mem,
      Extends-trans b b₁ b' ext ext₁,
      ((Satisfies-Extends s (a ∷ []) b₁ b' ext₁ (holds, tt)).0, sat),
    )

solve_from_complete :
    (body : List Atom) (s : GraphStore) (bs : List Binding) (b σ : Binding)
    → In b bs
    → Agrees σ b
    → Satisfies s σ body
    → (b' : Binding) × In b' (solve_from bs body s) × Agrees σ b'
unfolding solve_from
solve_from_complete [] s bs b σ h ag sat = (b, h, ag)
solve_from_complete (a ∷ body) s bs b σ h ag sat =
    let (b₁, mem₁, ag₁) = extend_all_complete a s bs b σ h ag sat.0 in
    solve_from_complete body s (extend_all a s bs) b₁ σ mem₁ ag₁ sat.1

pub solve_body_sound :
    (body : List Atom) (s : GraphStore) (b : Binding)
    → In b (solve_body body s)
    → Satisfies s b body
unfolding solve_body
solve_body_sound body s b h = let (_, _, _, sat) = solve_from_sound body s ([] ∷ []) b h in sat

pub solve_body_complete :
    (body : List Atom) (s : GraphStore) (σ : Binding)
    → Satisfies s σ body
    → (b : Binding) × In b (solve_body body s) × Agrees σ b
unfolding solve_body
solve_body_complete body s σ sat = solve_from_complete body s ([] ∷ []) [] σ (inl refl) tt sat

-- Every listed binding satisfies the body, so it binds each of its variables, and every binding that
-- satisfies the body extends a listed one.
pub solve_body_exact :
    (body : List Atom) (s : GraphStore)
    → ((b : Binding) → In b (solve_body body s) → Satisfies s b body)
      × ((σ : Binding) → Satisfies s σ body → (b : Binding) × In b (solve_body body s) × Agrees σ b)
solve_body_exact body s = (solve_body_sound body s, solve_body_complete body s)
