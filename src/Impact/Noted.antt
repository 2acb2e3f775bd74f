-- ===== src/Impact/Noted.antt =====
-- The loop over the identifiers of one function.
use prolog_forge.Prelude.{
  List, [], ◌∷◌, ◌++◌, true, not, ◌&&◌, ◌==◌, ==_iff, ==_self, ◌≡◌, ◌⊎◌, inl, inr, sym, subst,
  Bool-cases, nat_eq, list_eq, Str, elem, set_insert, elem-set_insert, In, In-append,
  In-append_left, In-append_right, Map, contains_key, arith,
}
use prolog_forge.Impact.{note_idents}

module _ (fn_idents : Map Str (List Str)) where
  -- The queue and the set after the identifiers of a function.
  pub record Noted (visited idents queue out : List Str) (r : List Str × List Str) : Type 0 where
    pub from_queue :
        (g : Str) → In g r.0 → In g queue ⊎ (In g idents × (contains_key g fn_idents ≡ true))
    pub queue_kept : (g : Str) → In g queue → In g r.0
    pub from_out : (i : Str) → elem i r.1 ≡ true → (elem i out ≡ true) ⊎ In i idents
    pub out_kept : (i : Str) → elem i out ≡ true → elem i r.1 ≡ true
    pub all_noted : (i : Str) → In i idents → elem i r.1 ≡ true
    pub all_queued :
        (i : Str)
        → In i idents
        → contains_key i fn_idents ≡ true
        → (elem i visited ≡ true) ⊎ In i r.0

  set_insert-elem :
      (i a : Str) (out : List Str)
      → elem i (set_insert a out) ≡ true
      → (elem i out ≡ true) ⊎ (i ≡ a)
  set_insert-elem i a out m = elim (Bool-cases (a == i)) [
    | inl same ↦ inr (sym ((==_iff a i).0 same))
    | inr other ↦ inl (ground (arith, elem-set_insert i a out))
  ]

  pub note_idents-Noted :
      (visited idents queue out : List Str)
      → Noted visited idents queue out (note_idents fn_idents visited idents queue out)
  unfolding note_idents
  note_idents-Noted visited [] queue out = record {
    from_queue = λ g m. inl m;
    queue_kept = λ g m. m;
    from_out = λ i m. inl m;
    out_kept = λ i m. m;
    all_noted = λ i m. elim m [ ];
    all_queued = λ i m k. elim m [ ];
  }
  note_idents-Noted visited (a ∷ idents) queue out =
      elim (Bool-cases (contains_key a fn_idents && not (elem a visited))) [
        | inl pushed ↦
            let n = note_idents-Noted visited idents (queue ++ a ∷ []) (set_insert a out) in
            rw (pushed, note_idents)
              (record {
                from_queue = λ g m. elim (n.from_queue g m) [
                  | inr (later, key) ↦ inr (inr later, key)
                  | inl old ↦ elim (In-append g queue (a ∷ []) old) [
                    | inl older ↦ inl older
                    | inr now ↦ elim now [
                      | inl same ↦ inr (inl same, rw same (ground (arith, pushed)))
                      | inr none' ↦ elim none' [ ]
                    ]
                  ]
                ];
                queue_kept = λ g m. n.queue_kept g (In-append_left g queue (a ∷ []) m);
                from_out = λ i m. out_of i idents (n.from_out i m);
                out_kept = λ i m. n.out_kept i (ground (arith, elem-set_insert i a out));
                all_noted = λ i m. elim m [
                  | inl same ↦
                      n.out_kept i (rw same (ground (arith, elem-set_insert a a out, ==_self a)))
                  | inr later ↦ n.all_noted i later
                ];
                all_queued = λ i m key. elim m [
                  | inl same ↦ inr (n.queue_kept i (In-append_right i queue (a ∷ []) (inl same)))
                  | inr later ↦ n.all_queued i later key
                ];
              })
        | inr skipped ↦
            let n = note_idents-Noted visited idents queue (set_insert a out) in
            rw (skipped, note_idents)
              (record {
                from_queue = λ g m. elim (n.from_queue g m) [
                  | inr (later, key) ↦ inr (inr later, key)
                  | inl old ↦ inl old
                ];
                queue_kept = n.queue_kept;
                from_out = λ i m. out_of i idents (n.from_out i m);
                out_kept = λ i m. n.out_kept i (ground (arith, elem-set_insert i a out));
                all_noted = λ i m. elim m [
                  | inl same ↦
                      n.out_kept i (rw same (ground (arith, elem-set_insert a a out, ==_self a)))
                  | inr later ↦ n.all_noted i later
                ];
                all_queued = λ i m key. elim m [
                  | inl same ↦
                      let key' : contains_key a fn_idents ≡ true =
                        subst (λ x. contains_key x fn_idents ≡ true) same key in
                      inl (rw same (ground (arith, skipped, key')))
                  | inr later ↦ n.all_queued i later key
                ];
              })
      ]
    where
      out_of :
          (i : Str) (rest : List Str)
          → (elem i (set_insert a out) ≡ true) ⊎ In i rest
          → (elem i out ≡ true) ⊎ In i (a ∷ rest)
      out_of i rest (inr later) = inr (inr later)
      out_of i rest (inl old) = elim (set_insert-elem i a out old) [
        | inl older ↦ inl older
        | inr same ↦ inr (inl same)
      ]
