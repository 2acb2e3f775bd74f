-- ===== src/Impact.antt =====
-- The selection of the tests that a change can reach, crates/aa-core/src/test_impact.rs. The catalog of
-- the functions is an argument: the Rust parser builds it. A `BTreeSet` is a list without duplicates.
-- The worklist loop takes fuel; `none` is a run out of it.
pub mod Walk
pub mod Noted
pub mod Closure
pub mod Ends
pub mod Selected
mod Tests
use prolog_forge.Prelude.{
  ℕ, zero, suc, ◌+◌, List, [], ◌∷◌, ◌++◌, Option, none, some, Bool, true, false, not, ◌&&◌, ◌||◌,
  ◌==◌, nat_eq, list_eq, Str, length, elem, set_insert, Map, map_get, contains_key, if◌then◌else◌,
  get_or,
}

pub record Catalog : Type 0 where
  pub fn_idents : Map Str (List Str)
  pub test_fns : List Str

-- The loop over the identifiers of a function: the queue and the set after it.
unfoldable pub note_idents :
    Map Str (List Str) → List Str → List Str → List Str → List Str → List Str × List Str
note_idents fn_idents visited [] queue out = (queue, out)
note_idents fn_idents visited (ident ∷ idents) queue out =
    note_idents fn_idents visited idents
      (if contains_key ident fn_idents && not (elem ident visited)
        then queue ++ ident ∷ []
        else queue)
      (set_insert ident out)

unfoldable pub reach_loop :
    Map Str (List Str) → ℕ → List Str → List Str → List Str → Option (List Str)
reach_loop fn_idents zero queue visited out = none
reach_loop fn_idents (suc fuel) [] visited out = some out
reach_loop fn_idents (suc fuel) (fn_name ∷ queue) visited out = elim (elem fn_name visited) [
  | true ↦ reach_loop fn_idents fuel queue visited out
  | false ↦
      let visited' = set_insert fn_name visited in
      let (queue', out') =
        note_idents fn_idents visited' (get_or (map_get fn_name fn_idents) []) queue out in
      reach_loop fn_idents fuel queue' visited' out'
]

unfoldable pub idents_count : Map Str (List Str) → ℕ
idents_count [] = 0
idents_count ((name, idents) ∷ m) = length idents + idents_count m

unfoldable pub reachable_idents : Str → Map Str (List Str) → Option (List Str)
unfolding idents_count
reachable_idents start fn_idents =
    reach_loop fn_idents (2 + idents_count fn_idents) (start ∷ []) [] []

unfoldable pub any_in : List Str → List Str → Bool
any_in [] set = false
any_in (a ∷ anchors) set = elem a set || any_in anchors set

unfoldable pub select_tests : Map Str (List Str) → List Str → List Str → List Str
unfolding any_in
select_tests fn_idents anchors [] = []
select_tests fn_idents anchors (test_fn ∷ tests) =
    let rest = select_tests fn_idents anchors tests in
    if any_in anchors (get_or (reachable_idents test_fn fn_idents) []) then test_fn ∷ rest else rest

-- The tests of the catalog are sorted and stand once, so that the set of the selected ones is their list.
unfoldable pub impacted_test_names : Catalog → List Str → List Str
impacted_test_names catalog [] = []
impacted_test_names catalog (a ∷ anchors) =
    select_tests catalog.fn_idents (a ∷ anchors) catalog.test_fns
