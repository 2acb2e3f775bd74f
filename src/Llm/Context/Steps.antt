-- ===== src/Llm/Context/Steps.antt =====
-- What one visit leaves behind in a walk that goes on.
use prolog_forge.Prelude.{
  ℕ, List, [], ◌∷◌, ◌++◌, true, Bool-cases, ◌≡◌, ◌⊎◌, refl, sym, subst, PartialEq, inl, inr, nat_eq,
  list_eq, ◌==◌, ==_iff, ==_self, Str, leb, length, elem, elem-append, set_insert, elem-set_insert,
  In, arith,
}
use prolog_forge.Graph.Fact.{Fact, fact_eq}
use prolog_forge.Llm.Context.{
  is_trusted, Walk, Flow, going, returned, and_then, note_id, note_ids, take_fact, visit_fact,
  visit_facts, visit_ids,
}
use prolog_forge.Llm.Context.Bounded.{fits, visit_fact_taken, visit_fact_skipped, note_ids-out}

module _ {A : Type 0} ⦃e : PartialEq A⦄ (a : A) (xs : List A) where
  elem-concat_self : elem a (xs ++ a ∷ []) ≡ true
  unfolding elem
  elem-concat_self = ground (arith, elem-append a xs (a ∷ []), ==_self a)

  elem-concat_old : (b : A) → elem a xs ≡ true → elem a (xs ++ b ∷ []) ≡ true
  elem-concat_old b m = ground (arith, elem-append a xs (b ∷ []))

  elem-concat : (b : A) → elem a (xs ++ b ∷ []) ≡ true → (elem a xs ≡ true) ⊎ (b ≡ a)
  unfolding elem
  elem-concat b m = elim (Bool-cases (b == a)) [
    | inl same ↦ inr ((==_iff b a).0 same)
    | inr other ↦ inl (ground (arith, elem-append a xs (b ∷ [])))
  ]

-- `v` comes after `w` in a round: nothing is lost, and a new id is in the next frontier.
pub record Later (w v : Walk) : Type 0 where
  pub out_grows : (f : Fact) → elem f w.out ≡ true → elem f v.out ≡ true
  pub seen_grows : (a : Str) → elem a w.seen_ids ≡ true → elem a v.seen_ids ≡ true
  pub next_grows : (a : Str) → elem a w.next ≡ true → elem a v.next ≡ true
  pub fresh_next :
      (a : Str) → elem a v.seen_ids ≡ true → (elem a w.seen_ids ≡ true) ⊎ (elem a v.next ≡ true)

pub Later-refl : (w : Walk) → Later w w
Later-refl w = record {
  out_grows = λ f m. m;
  seen_grows = λ a m. m;
  next_grows = λ a m. m;
  fresh_next = λ a m. inl m;
}

pub Later-trans : (u w v : Walk) → Later u w → Later w v → Later u v
Later-trans u w v p q = record {
  out_grows = λ f m. q.out_grows f (p.out_grows f m);
  seen_grows = λ a m. q.seen_grows a (p.seen_grows a m);
  next_grows = λ a m. q.next_grows a (p.next_grows a m);
  fresh_next = λ a m. elim (q.fresh_next a m) [
    | inr new ↦ inr new
    | inl old ↦ elim (p.fresh_next a old) [
      | inl older ↦ inl older
      | inr new ↦ inr (q.next_grows a new)
    ]
  ];
}

fresh_id :
    (a b : Str) (w : Walk)
    → elem b (set_insert a w.seen_ids) ≡ true
    → (elem b w.seen_ids ≡ true) ⊎ (elem b (w.next ++ a ∷ []) ≡ true)
unfolding elem
fresh_id a b w m = elim (Bool-cases (a == b)) [
  | inl same ↦ inr (ground (arith, elem-append b w.next (a ∷ []), same))
  | inr other ↦ inl (ground (arith, elem-set_insert b a w.seen_ids))
]

note_id-Later :
    (a : Str) (w : Walk) → Later w (note_id a w) × (elem a (note_id a w).seen_ids ≡ true)
unfolding note_id
note_id-Later a w = elim (Bool-cases (elem a w.seen_ids)) [
  | inl seen ↦ rw (seen, note_id) (Later-refl w, seen)
  | inr new ↦
      rw (new, note_id)
        (
          record {
            out_grows = λ f m. m;
            seen_grows = λ b m. ground (arith, elem-set_insert b a w.seen_ids);
            next_grows = λ b m. ground (arith, elem-append b w.next (a ∷ []));
            fresh_next = λ b m. fresh_id a b w m;
          },
          ground (arith, elem-set_insert a a w.seen_ids, ==_self a),
        )
]

note_ids-Later :
    (as' : List Str) (w : Walk)
    → Later w (note_ids as' w) × ((a : Str) → In a as' → elem a (note_ids as' w).seen_ids ≡ true)
unfolding note_ids
note_ids-Later [] w = (Later-refl w, λ a m. elim m [ ])
note_ids-Later (a ∷ as') w =
    let (first, here) = note_id-Later a w in
    let (rest, there) = note_ids-Later as' (note_id a w) in
    (
      Later-trans w (note_id a w) _ first rest,
      λ b m. elim m [ inl same ↦ rest.seen_grows b (rw same here) | inr later ↦ there b later ],
    )

-- The ids of what is selected are seen.
abbrev pub IsClosed : Walk → Type 0
IsClosed w = (f : Fact) (a : Str) → elem f w.out ≡ true → In a f.args → elem a w.seen_ids ≡ true

abbrev pub Mentions : Str → Fact → Type 0
Mentions id f = (is_trusted f.layer ≡ true) × (elem id f.args ≡ true)

-- A step from `w` that goes on leaves a later walk in which `D` holds.
abbrev pub Leaves : Walk → (Walk → Type 0) → Flow → Type 0
Leaves w D (going v) = Later w v × (IsClosed w → IsClosed v) × D v
Leaves w D (returned out) = Unit

pub Leaves-and_then :
    (w : Walk) (D E G : Walk → Type 0) (flow : Flow) (next : Walk → Flow)
    → Leaves w D flow
    → ((v : Walk) → D v → Leaves v E (next v))
    → ((v u : Walk) → Later v u → D v → E u → G u)
    → Leaves w G (and_then flow next)
unfolding and_then
Leaves-and_then w D E G (returned out) next h step join = tt
Leaves-and_then w D E G (going v) next (later, closed, d) step join = from (next v) (step v d)
  where
    from : (flow : Flow) → Leaves v E flow → Leaves w G flow
    from (returned out) k = tt
    from (going u) (later', closed', e) =
        (Later-trans w v u later later', (λ c. closed' (closed c)), join v u later' d e)

take_fact-Leaves :
    (max_facts : ℕ) (f : Fact) (w : Walk)
    → Leaves w (λ v. elem f v.out ≡ true) (take_fact max_facts f w)
unfolding take_fact
take_fact-Leaves max_facts f w =
    let u : Walk = record { next = w.next; seen_ids = w.seen_ids; out = w.out ++ f ∷ [] } in
    elim (Bool-cases (leb max_facts (length (w.out ++ f ∷ [])))) [
      | inl full ↦ rw (full, take_fact) tt
      | inr room ↦ rw (room, take_fact) (noted u refl refl refl)
    ]
  where
    noted :
        (u : Walk)
        → u.out ≡ w.out ++ f ∷ []
        → u.seen_ids ≡ w.seen_ids
        → u.next ≡ w.next
        → Leaves w (λ v. elem f v.out ≡ true) (going (note_ids f.args u))
    noted u out seen next =
        let (later, args) = note_ids-Later f.args u in
        let kept = note_ids-out f.args u in
        (
          record {
            out_grows = λ g m. later.out_grows g (rw out (elem-concat_old g w.out f m));
            seen_grows = λ a m. later.seen_grows a (rw seen m);
            next_grows = λ a m. later.next_grows a (rw next m);
            fresh_next = λ a m. rw (← seen) (later.fresh_next a m);
          },
          (λ closed g a m there. elim (elem-concat g w.out f (rw (kept, out) at m)) [
            | inl old ↦ later.seen_grows a (rw seen (closed g a old there))
            | inr same ↦ args a (subst (λ h. In a h.args) (sym same) there)
          ]),
          rw (kept, out) (elem-concat_self f w.out),
        )

visit_fact-Leaves :
    (max_facts : ℕ) (id : Str) (f : Fact) (w : Walk)
    → Leaves w (λ v. Mentions id f → elem f v.out ≡ true) (visit_fact max_facts id f w)
visit_fact-Leaves max_facts id f w = elim (Bool-cases (fits id f w)) [
  | inl taken ↦
      rw (visit_fact_taken max_facts id f w taken)
        (from (take_fact max_facts f w) (take_fact-Leaves max_facts f w))
  | inr skipped ↦
      rw (visit_fact_skipped max_facts id f w skipped)
        (Later-refl w, (λ c. c), λ (m : Mentions id f). ground (arith, m.0, m.1, skipped))
]
  where
    from :
        (flow : Flow)
        → Leaves w (λ v. elem f v.out ≡ true) flow
        → Leaves w (λ v. Mentions id f → elem f v.out ≡ true) flow
    from (going v) (later, closed, there) = (later, closed, λ m. there)
    from (returned out) h = tt

-- Every trusted fact of a list that mentions the id is selected.
abbrev pub HasAll : List Fact → Str → Walk → Type 0
HasAll fs id v = (f : Fact) → In f fs → Mentions id f → elem f v.out ≡ true

visit_facts-Leaves :
    (max_facts : ℕ) (id : Str) (fs : List Fact) (w : Walk)
    → Leaves w (HasAll fs id) (visit_facts max_facts id fs w)
unfolding visit_facts
visit_facts-Leaves max_facts id [] w = (Later-refl w, (λ c. c), λ f m h. elim m [ ])
visit_facts-Leaves max_facts id (f ∷ fs) w =
    Leaves-and_then w (λ v. Mentions id f → elem f v.out ≡ true) (HasAll fs id) (HasAll (f ∷ fs) id)
      (visit_fact max_facts id f w) _ (visit_fact-Leaves max_facts id f w)
      (λ v h. visit_facts-Leaves max_facts id fs v)
      (λ v u later first rest g m h. elim m [
        | inl same ↦
            later.out_grows g
              (subst (λ x. elem x v.out ≡ true) (sym same) (first (subst (Mentions id) same h)))
        | inr there ↦ rest g there h
      ])

pub visit_ids-Leaves :
    (max_facts : ℕ) (facts : List Fact) (ids : List Str) (w : Walk)
    → Leaves w (λ v. (id : Str) → In id ids → HasAll facts id v) (visit_ids max_facts facts ids w)
unfolding visit_ids
visit_ids-Leaves max_facts facts [] w = (Later-refl w, (λ c. c), λ id m. elim m [ ])
visit_ids-Leaves max_facts facts (id ∷ ids) w =
    Leaves-and_then w (HasAll facts id) (λ v. (a : Str) → In a ids → HasAll facts a v)
      (λ v. (a : Str) → In a (id ∷ ids) → HasAll facts a v) (visit_facts max_facts id facts w) _
      (visit_facts-Leaves max_facts id facts w) (λ v h. visit_ids-Leaves max_facts facts ids v)
      (λ v u later first rest a m. elim m [
        | inl same ↦
            λ g there h. later.out_grows g (first g there (subst (λ x. Mentions x g) same h))
        | inr there ↦ rest a there
      ])
