-- ===== src/Rules/Values.antt =====
-- The atoms that `solve_body` of crates/aa-rules/src/eval.rs binds, by the facts of the store.
use prolog_forge.Prelude.{
  List, [], ◌∷◌, some, ◌≡◌, refl, sym, subst, arith, nat_eq, list_eq, Str, map_get, map_insert,
  AllEntries, AllEntries-map_insert, Option-cases, inl, inr, In, In-append, In-filter_map, All,
}
use prolog_forge.Graph.Fact.{Fact}
use prolog_forge.Graph.Store.{GraphStore, facts_of}
use prolog_forge.Graph.Unify as GraphUnify
use prolog_forge.Graph.Unify.{Binding, matches, unify, unify_args, unify_term}
use prolog_forge.Rules.Ast.{Atom}
use prolog_forge.Rules.Eval.{
  merge, merge_entry, to_pattern_args, to_pattern_with_binding, merge_all, extend_all, solve_from,
  solve_body,
}

-- Every argument of every fact of the store has the property.
abbrev pub ArgsIn : (Str → Type 0) → GraphStore → Type 0
ArgsIn P s = (p : Str) (f : Fact) → In f (facts_of s p) → All P f.args

module _ (P : Str → Type 0) where
  -- Every atom that the binding holds has the property.
  abbrev pub Bound : Binding → Type 0
  Bound b = AllEntries (λ k v. P v) b

  unify_term-Bound :
      (t : GraphUnify.Term) (a : Str) (b b' : Binding)
      → P a
      → Bound b
      → unify_term t a b ≡ some b'
      → Bound b'
  unfolding unify_term
  unify_term-Bound (GraphUnify.atom x) a b b' p h e =
      let same : b ≡ b' = ground arith in subst Bound same h
  unify_term-Bound (GraphUnify.var n) a b b' p h e = elim (Option-cases (map_get n b)) [
    | inl fresh ↦
        let same : map_insert n a b ≡ b' = ground arith in
        subst Bound same (AllEntries-map_insert (λ k v. P v) n a b p h)
    | inr (prev, known) ↦ let same : b ≡ b' = ground arith in subst Bound same h
  ]

  unify_args-Bound :
      (ts : List GraphUnify.Term) (as' : List Str) (b b' : Binding)
      → All P as'
      → Bound b
      → unify_args ts as' b ≡ some b'
      → Bound b'
  unfolding unify_args
  unify_args-Bound [] [] b b' all h e = let same : b ≡ b' = ground arith in subst Bound same h
  unify_args-Bound [] (a ∷ as') b b' all h e =
      let same : b ≡ b' = ground arith in subst Bound same h
  unify_args-Bound (t ∷ ts) [] b b' all h e = let same : b ≡ b' = ground arith in subst Bound same h
  unify_args-Bound (t ∷ ts) (a ∷ as') b b' all h e = elim (Option-cases (unify_term t a b)) [
    | inl failed ↦ absurd (cc)
    | inr (b₁, step) ↦
        unify_args-Bound ts as' b₁ b' all.1 (unify_term-Bound t a b b₁ all.0 h step) (ground arith)
  ]

  unify-Bound :
      (ts : List GraphUnify.Term) (as' : List Str) (b : Binding)
      → All P as'
      → unify ts as' ≡ some b
      → Bound b
  unfolding unify
  unify-Bound ts as' b all e = unify_args-Bound ts as' [] b all tt (ground arith)

  merge-Bound :
      (add out out' : Binding) → Bound out → Bound add → merge out add ≡ some out' → Bound out'
  unfolding merge merge_entry
  merge-Bound [] out out' ho ha e = let same : out ≡ out' = ground arith in subst Bound same ho
  merge-Bound ((k, v) ∷ add) out out' ho ha e = elim (Option-cases (map_get k out)) [
    | inl fresh ↦
        merge-Bound add (map_insert k v out) out'
          (AllEntries-map_insert (λ k v. P v) k v out ha.0 ho) ha.1 (ground arith)
    | inr (prev, known) ↦ merge-Bound add out out' ho ha.1 (ground arith)
  ]

  extend_all-Bound :
      (a : Atom) (s : GraphStore) (bs : List Binding) (b' : Binding)
      → ArgsIn P s
      → ((b : Binding) → In b bs → Bound b)
      → In b' (extend_all a s bs)
      → Bound b'
  unfolding extend_all merge_all matches to_pattern_with_binding
  extend_all-Bound a s [] b' args h m = elim m [ ]
  extend_all-Bound a s (b ∷ bs) b' args h m =
      elim (In-append b' (merge_all b (matches (to_pattern_with_binding a b) s)) (extend_all a s bs)
        m) [
          | inl first ↦
              let (x, mem, merged) =
                In-filter_map (merge b) b' (matches (to_pattern_with_binding a b) s) first in
              let (f, filed, unified) =
                In-filter_map (λ (f : Fact). unify (to_pattern_args a.args b) f.args) x
                  (facts_of s a.predicate) mem in
              merge-Bound x b b' (h b (inl refl))
                (unify-Bound (to_pattern_args a.args b) f.args x (args a.predicate f filed) unified)
                merged
          | inr rest ↦ extend_all-Bound a s bs b' args (λ c mc. h c (inr mc)) rest
        ]

  solve_from-Bound :
      (body : List Atom) (s : GraphStore) (bs : List Binding) (b' : Binding)
      → ArgsIn P s
      → ((b : Binding) → In b bs → Bound b)
      → In b' (solve_from bs body s)
      → Bound b'
  unfolding solve_from
  solve_from-Bound [] s bs b' args h m = h b' m
  solve_from-Bound (a ∷ body) s bs b' args h m =
      solve_from-Bound body s (extend_all a s bs) b' args
        (λ c mc. extend_all-Bound a s bs c args h mc) m

  pub solve_body-Bound :
      (body : List Atom) (s : GraphStore) (b : Binding)
      → ArgsIn P s
      → In b (solve_body body s)
      → Bound b
  unfolding solve_body
  solve_body-Bound body s b args m =
      solve_from-Bound body s ([] ∷ []) b args
        (λ c mc. elim mc [
          | inl same ↦ subst Bound (sym same) tt
          | inr none_left ↦ absurd none_left
        ])
        m
