-- ===== src/Impact/Tests.antt =====
-- The selection on a small catalog.
use prolog_forge.Prelude.{
  List, [], ◌∷◌, some, ◌≡◌, ◌↔◌, refl, nat_eq, list_eq, list_beq, bytes, Str, In, elem, set_insert,
  map_get,
}
use prolog_forge.Impact.{
  Catalog, impacted_test_names, select_tests, reachable_idents, reach_loop, note_idents,
  idents_count, any_in,
}
use prolog_forge.Impact.Closure.{IsClosure}
use prolog_forge.Impact.Ends.{reachable_idents-IsClosure}
use prolog_forge.Impact.Selected.{IsImpacted, select_exact}

abbrev catalog : Catalog
catalog = record {
  fn_idents =
      (bytes "t1", bytes "help" ∷ [])
      ∷ (bytes "help", bytes "add" ∷ bytes "t1" ∷ [])
      ∷ (bytes "t2", bytes "sub" ∷ [])
      ∷ [];
  test_fns = bytes "t1" ∷ bytes "t2" ∷ [];
}

selected : impacted_test_names catalog (bytes "add" ∷ []) ≡ bytes "t1" ∷ []
unfolding impacted_test_names select_tests reachable_idents reach_loop note_idents idents_count
    any_in elem set_insert map_get list_beq
selected = refl

reachable_idents-IsClosure_example :
    (out : List Str) × (reachable_idents (bytes "t1") catalog.fn_idents ≡ some out)
    × IsClosure catalog.fn_idents (bytes "t1") out
reachable_idents-IsClosure_example = reachable_idents-IsClosure (bytes "t1") catalog.fn_idents

select_exact_example : In (bytes "t1") (impacted_test_names catalog (bytes "add" ∷ [])) ↔ (
    In (bytes "t1") catalog.test_fns × IsImpacted catalog.fn_idents (bytes "add" ∷ []) (bytes "t1"))
select_exact_example = select_exact catalog (bytes "add" ∷ []) (bytes "t1")
