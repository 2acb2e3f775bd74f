-- ===== src/Impact/Selected.antt =====
-- The selected tests.
use prolog_forge.Prelude.{
  List, [], ◌∷◌, Bool, true, ◌≡◌, ◌↔◌, inl, inr, refl, sym, subst, Bool-cases, nat_eq, list_eq, Str,
  elem, In, Map, get_or, arith,
}
use prolog_forge.Impact.{Catalog, reachable_idents, any_in, select_tests, impacted_test_names}
use prolog_forge.Impact.Walk.{Mentions}
use prolog_forge.Impact.Ends.{reachable_idents-IsClosure}

-- The test mentions an anchor, directly or through functions that it calls.
abbrev pub IsImpacted : Map Str (List Str) → List Str → Str → Type 0
IsImpacted fn_idents anchors test_fn = (a : Str) × In a anchors × Mentions fn_idents test_fn a

any_in-In :
    (anchors set : List Str)
    → any_in anchors set ≡ true
    → (a : Str) × In a anchors × (elem a set ≡ true)
unfolding any_in
any_in-In [] set h = cc
any_in-In (a ∷ anchors) set h = elim (Bool-cases (elem a set)) [
  | inl here ↦ (a, inl refl, here)
  | inr other ↦
      let (b, there, m) = any_in-In anchors set (ground (arith, h, other)) in (b, inr there, m)
]

In-any_in :
    (a : Str) (anchors set : List Str)
    → In a anchors
    → elem a set ≡ true
    → any_in anchors set ≡ true
unfolding any_in
In-any_in a [] set there m = elim there [ ]
In-any_in a (b ∷ anchors) set (inl same) m =
    let e : elem b set ≡ true = subst (λ x. elem x set ≡ true) same m in ground (arith, e)
In-any_in a (b ∷ anchors) set (inr there) m = ground (arith, In-any_in a anchors set there m)

module _ (fn_idents : Map Str (List Str)) (anchors : List Str) where
  abbrev test_of : Str → Bool
  test_of t = any_in anchors (get_or (reachable_idents t fn_idents) [])

  test_of-IsImpacted :
      (t : Str)
      → (test_of t ≡ true → IsImpacted fn_idents anchors t)
        × (IsImpacted fn_idents anchors t → test_of t ≡ true)
  test_of-IsImpacted t =
      let (out, ends, closure) = reachable_idents-IsClosure t fn_idents in
      rw ends (
        (λ h. let (a, there, m) = any_in-In anchors out h in (a, there, (closure a).0 m)),
        λ (a, there, mentions). In-any_in a anchors out there ((closure a).1 mentions),
      )

  select_tests-exact :
      (t : Str) (tests : List Str)
      → (In t (select_tests fn_idents anchors tests) → In t tests × IsImpacted fn_idents anchors t)
        × (In t tests
            → IsImpacted fn_idents anchors t
            → In t (select_tests fn_idents anchors tests))
  unfolding select_tests
  select_tests-exact t [] = ((λ m. elim m [ ]), λ m h. elim m [ ])
  select_tests-exact t (u ∷ tests) =
      let (sound, complete) = select_tests-exact t tests in
      let (from_test, to_test) = test_of-IsImpacted u in
      elim (Bool-cases (test_of u)) [
        | inl hit ↦
            rw (hit, select_tests)
              (
                (λ m. elim m [
                  | inl same ↦
                      (inl same, subst (IsImpacted fn_idents anchors) (sym same) (from_test hit))
                  | inr later ↦ let (there, h) = sound later in (inr there, h)
                ]),
                λ m h. elim m [ inl same ↦ inl same | inr later ↦ inr (complete later h) ],
              )
        | inr miss ↦
            rw (miss, select_tests)
              (
                (λ m. let (there, h) = sound m in (inr there, h)),
                λ m h. elim m [
                  | inl same ↦
                      let e = to_test (subst (IsImpacted fn_idents anchors) same h) in
                      absurd (ground (arith, e, miss))
                  | inr later ↦ complete later h
                ],
              )
      ]

-- Exactly the tests of the catalog that mention an anchor, directly or through functions that they call,
-- are selected; with no anchors none is.
pub select_exact :
    (catalog : Catalog) (anchors : List Str) (t : Str)
    → In t (impacted_test_names catalog anchors)
      ↔ (In t catalog.test_fns × IsImpacted catalog.fn_idents anchors t)
unfolding impacted_test_names
select_exact catalog [] t = ((λ m. elim m [ ]), λ (m, (a, there, h)). elim there [ ])
select_exact catalog (a ∷ anchors) t =
    let (sound, complete) = select_tests-exact catalog.fn_idents (a ∷ anchors) t catalog.test_fns in
    (sound, λ (m, h). complete m h)
