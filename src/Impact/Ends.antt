-- ===== src/Impact/Ends.antt =====
-- The end of the worklist loop: the fuel of `reachable_idents` is enough.
use prolog_forge.Prelude.{
  ℕ, zero, suc, ◌+◌, ◌≤◌, ◌<◌, List, [], ◌∷◌, ◌++◌, some, true, false, not, ◌&&◌, ◌==◌, ==_iff, ◌≡◌,
  inl, inr, refl, sym, subst, Bool-cases, nat_eq, list_eq, Str, length, length-append, elem,
  set_insert, elem-set_insert, Map, map_get, contains_key, get_or, if◌then◌else◌, arith,
}
use prolog_forge.Impact.{note_idents, reach_loop, idents_count, reachable_idents}
use prolog_forge.Impact.Walk.{Calls, itself}
use prolog_forge.Impact.Closure.{Inv, IsClosure, reach_loop-IsClosure}

-- The identifiers of the functions that are still to be visited.
weight : List Str → Map Str (List Str) → ℕ
weight visited [] = 0
weight visited ((name, idents) ∷ m) =
    (if elem name visited then 0 else length idents) + weight visited m

weight-anti :
    (f : Str) (visited : List Str) (m : Map Str (List Str))
    → weight (set_insert f visited) m ≤ weight visited m
unfolding weight
weight-anti f visited [] = omega arith
weight-anti f visited ((name, idents) ∷ m) =
    ground (arith, weight-anti f visited m, elem-set_insert name f visited)

weight-visit :
    (f : Str) (visited : List Str) (m : Map Str (List Str))
    → elem f visited ≡ false
    → weight (set_insert f visited) m + length (get_or (map_get f m) []) ≤ weight visited m
unfolding weight map_get
weight-visit f visited [] new = omega arith
weight-visit f visited ((name, idents) ∷ m) new = elim (Bool-cases (name == f)) [
  | inl same ↦
      let e : name ≡ f = (==_iff name f).0 same in
      let fresh : elem name visited ≡ false = rw e new in
      let now : elem name (set_insert f visited) ≡ true =
        ground (arith, elem-set_insert name f visited, ==_iff f name, e) in
      rw (same, fresh, now) (omega (arith, weight-anti f visited m))
  | inr other ↦
      let still : elem name (set_insert f visited) ≡ elem name visited =
        ground (arith, elem-set_insert name f visited, ==_iff f name, ==_iff name f, other) in
      rw (other, still) (omega (arith, weight-visit f visited m new))
]

length-note_idents :
    (fn_idents : Map Str (List Str)) (visited idents queue out : List Str)
    → length (note_idents fn_idents visited idents queue out).0 ≤ length queue + length idents
unfolding note_idents
length-note_idents fn_idents visited [] queue out = omega arith
length-note_idents fn_idents visited (a ∷ idents) queue out =
    elim (Bool-cases (contains_key a fn_idents && not (elem a visited))) [
      | inl pushed ↦
          rw (pushed, note_idents)
            (omega (
              arith,
              length-note_idents fn_idents visited idents (queue ++ a ∷ []) (set_insert a out),
              length-append queue (a ∷ []),
            ))
      | inr skipped ↦
          rw (skipped, note_idents)
            (omega (arith, length-note_idents fn_idents visited idents queue (set_insert a out)))
    ]

reach_loop_ends :
    (fn_idents : Map Str (List Str)) (fuel : ℕ) (queue visited out : List Str)
    → length queue + weight visited fn_idents < fuel
    → (result : List Str) × (reach_loop fn_idents fuel queue visited out ≡ some result)
unfolding reach_loop
reach_loop_ends fn_idents zero queue visited out le = absurd (omega arith)
reach_loop_ends fn_idents (suc fuel) [] visited out le = (out, refl)
reach_loop_ends fn_idents (suc fuel) (f ∷ queue) visited out le =
    elim (Bool-cases (elem f visited)) [
      | inl seen ↦
          rw (seen, reach_loop) (reach_loop_ends fn_idents fuel queue visited out (omega arith))
      | inr new ↦
          let visited' = set_insert f visited in
          let idents = get_or (map_get f fn_idents) [] in
          let r = note_idents fn_idents visited' idents queue out in
          rw (new, reach_loop)
            (reach_loop_ends fn_idents fuel r.0 visited' r.1 (
              omega (
                arith,
                weight-visit f visited fn_idents new,
                length-note_idents fn_idents visited' idents queue out,
              )))
    ]

weight-none : (m : Map Str (List Str)) → weight [] m ≡ idents_count m
unfolding weight idents_count elem
weight-none [] = refl
weight-none ((name, idents) ∷ m) = omega (arith, weight-none m)

start-Inv : (fn_idents : Map Str (List Str)) (start : Str) → Inv fn_idents start (start ∷ []) [] []
unfolding elem
start-Inv fn_idents start = record {
  queue_calls = λ g m. elim m [
    | inl same ↦ subst (Calls fn_idents start) (sym same) itself
    | inr none' ↦ elim none' [ ]
  ];
  out_mentions = λ i m. cc;
  start_met = inr (inl refl);
  closed = λ f i idents m e there. cc;
}

-- The worklist always ends, and its set is the identifiers that the start or a function that it calls,
-- directly or through functions of the catalog, mentions.
pub reachable_idents-IsClosure :
    (start : Str) (fn_idents : Map Str (List Str))
    → (out : List Str) × (reachable_idents start fn_idents ≡ some out)
      × IsClosure fn_idents start out
unfolding reachable_idents
reachable_idents-IsClosure start fn_idents =
    let fuel : ℕ = 2 + idents_count fn_idents in
    let (out, ends) =
      reach_loop_ends fn_idents fuel (start ∷ []) [] [] (omega (arith, weight-none fn_idents)) in
    (
      out,
      ends,
      reach_loop-IsClosure fn_idents start fuel (start ∷ []) [] [] out (start-Inv fn_idents start)
          ends,
    )
