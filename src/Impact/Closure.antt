-- ===== src/Impact/Closure.antt =====
-- What the worklist holds when its loop ends.
use prolog_forge.Prelude.{
  ℕ, zero, suc, List, [], ◌∷◌, some, true, ◌==◌, ==_iff, ==_self, ◌≡◌, ◌⊎◌, ◌↔◌, inl, inr, refl,
  sym, ap, ◌∙◌, subst, Bool-cases, Option-cases, nat_eq, list_eq, Str, elem, set_insert,
  elem-set_insert, In, Map, map_get, contains_key, get_or, arith,
}
use prolog_forge.Impact.{note_idents, reach_loop}
use prolog_forge.Impact.Walk.{Calls, itself, through, Mentions}
use prolog_forge.Impact.Noted.{Noted, note_idents-Noted}

module _ (fn_idents : Map Str (List Str)) (start : Str) where
  pub record Inv (queue visited out : List Str) : Type 0 where
    pub queue_calls : (g : Str) → In g queue → Calls fn_idents start g
    pub out_mentions : (i : Str) → elem i out ≡ true → Mentions fn_idents start i
    pub start_met : (elem start visited ≡ true) ⊎ In start queue
    pub closed :
        (f i : Str) (idents : List Str)
        → elem f visited ≡ true
        → map_get f fn_idents ≡ some idents
        → In i idents
        → (elem i out ≡ true)
          × (contains_key i fn_idents ≡ true → (elem i visited ≡ true) ⊎ In i queue)

  -- A function that was visited before leaves the queue.
  skip-Inv :
      (f : Str) (queue visited out : List Str)
      → elem f visited ≡ true
      → Inv (f ∷ queue) visited out
      → Inv queue visited out
  skip-Inv f queue visited out seen inv = record {
    queue_calls = λ g m. inv.queue_calls g (inr m);
    out_mentions = inv.out_mentions;
    start_met = left start inv.start_met;
    closed = λ g i idents m e there.
        let (noted, queued) = inv.closed g i idents m e there in
        (noted, λ key. left i (queued key));
  }
    where
      left :
          (i : Str)
          → (elem i visited ≡ true) ⊎ In i (f ∷ queue)
          → (elem i visited ≡ true) ⊎ In i queue
      left i (inl m) = inl m
      left i (inr (inl same)) = inl (rw same seen)
      left i (inr (inr m)) = inr m

  -- The identifiers of a function that is visited now.
  abbrev idents_of : Str → List Str
  idents_of f = get_or (map_get f fn_idents) []

  idents_of-some : (f i : Str) → In i (idents_of f) → map_get f fn_idents ≡ some (idents_of f)
  idents_of-some f i m = elim (Option-cases (map_get f fn_idents)) [
    | inl missing ↦ absurd (subst (λ o. In i (get_or o [])) missing m)
    | inr (idents, found) ↦ found ∙ ap (λ o. some (get_or o [])) (sym found)
  ]

  visit-Inv :
      (f : Str) (queue visited out : List Str) (r : List Str × List Str)
      → Noted fn_idents (set_insert f visited) (idents_of f) queue out r
      → Inv (f ∷ queue) visited out
      → Inv r.0 (set_insert f visited) r.1
  visit-Inv f queue visited out r n inv = record {
    queue_calls = λ g m. elim (n.from_queue g m) [
      | inl old ↦ inv.queue_calls g (inr old)
      | inr (there, key) ↦
          through f g (idents_of f) (inv.queue_calls f (inl refl)) (idents_of-some f g there) there
            key
    ];
    out_mentions = λ i m. elim (n.from_out i m) [
      | inl old ↦ inv.out_mentions i old
      | inr there ↦ (f, idents_of f, inv.queue_calls f (inl refl), idents_of-some f i there, there)
    ];
    start_met = moved start inv.start_met;
    closed = λ g i idents m e there. elim (Bool-cases (f == g)) [
      | inl same ↦
          let e₁ : f ≡ g = (==_iff f g).0 same in
          let e₂ : idents ≡ idents_of f =
            ap (λ o. get_or o []) (sym e ∙ ap (λ x. map_get x fn_idents) (sym e₁)) in
          let there' : In i (idents_of f) = subst (In i) e₂ there in
          (n.all_noted i there', λ key. n.all_queued i there' key)
      | inr other ↦
          let (noted, queued) =
            inv.closed g i idents (ground (arith, elem-set_insert g f visited, other, m)) e there in
          (n.out_kept i noted, λ key. moved i (queued key))
    ];
  }
    where
      moved :
          (i : Str)
          → (elem i visited ≡ true) ⊎ In i (f ∷ queue)
          → (elem i (set_insert f visited) ≡ true) ⊎ In i r.0
      moved i (inl m) = inl (ground (arith, elem-set_insert i f visited, m))
      moved i (inr (inl same)) =
          inl (rw same (ground (arith, elem-set_insert f f visited, ==_self f)))
      moved i (inr (inr m)) = inr (n.queue_kept i m)

  -- With an empty queue every called function was visited.
  all_visited :
      (visited out : List Str) (g : Str)
      → Inv [] visited out
      → Calls fn_idents start g
      → elem g visited ≡ true
  all_visited visited out g inv itself = elim inv.start_met [ inl m ↦ m | inr m ↦ elim m [ ] ]
  all_visited visited out g inv (through f h idents calls e there key) =
      let (noted, queued) = inv.closed f h idents (all_visited visited out f inv calls) e there in
      elim (queued key) [ inl m ↦ m | inr m ↦ elim m [ ] ]

  abbrev pub IsClosure : List Str → Type 0
  IsClosure out = (i : Str) → (elem i out ≡ true) ↔ Mentions fn_idents start i

  pub reach_loop-IsClosure :
      (fuel : ℕ) (queue visited out result : List Str)
      → Inv queue visited out
      → reach_loop fn_idents fuel queue visited out ≡ some result
      → IsClosure result
  unfolding reach_loop
  reach_loop-IsClosure zero queue visited out result inv worked = cc
  reach_loop-IsClosure (suc fuel) [] visited out result inv worked =
      let same : out ≡ result = cc in
      subst IsClosure same (λ i. (
        inv.out_mentions i,
        λ (f, idents, calls, e, there).
            (inv.closed f i idents (all_visited visited out f inv calls) e there).0,
      ))
  reach_loop-IsClosure (suc fuel) (f ∷ queue) visited out result inv worked =
      elim (Bool-cases (elem f visited)) [
        | inl seen ↦
            reach_loop-IsClosure fuel queue visited out result
              (skip-Inv f queue visited out seen inv) (rw (seen, reach_loop) at worked)
        | inr new ↦
            let visited' = set_insert f visited in
            let r = note_idents fn_idents visited' (idents_of f) queue out in
            reach_loop-IsClosure fuel r.0 visited' r.1 result
              (visit-Inv f queue visited out r
                (note_idents-Noted fn_idents visited' (idents_of f) queue out) inv)
              (rw (new, reach_loop) at worked)
      ]
