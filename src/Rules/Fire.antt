-- ===== src/Rules/Fire.antt =====
-- One round of `evaluate` of crates/aa-rules/src/eval.rs: the batch that the rules fill, and its
-- insertion.
use prolog_forge.Prelude.{
  List, [], ◌∷◌, true, false, not, ◌&&◌, ◌≡◌, refl, sym, ◌∙◌, ap, subst, arith, ==_iff, elem,
  elem-append, In, Bool-cases, ◌⊎◌, inl, inr, ok, >>=-eq-ok,
}
use prolog_forge.Graph.Fact.{Fact, fact_eq}
use prolog_forge.Graph.Store.{GraphStore, contains}
use prolog_forge.Graph.Unify.{Binding}
use prolog_forge.Rules.Ast.{Atom, Rule}
use prolog_forge.Rules.Eval.{instantiate_head, push_new, fire_bindings, fire_rules, solve_body}

-- Where a fact of the batch comes from: it was there, or a rule made it from a binding of its body.
abbrev pub Activation : List Rule → GraphStore → Fact → Type 0
Activation rules s f =
    (r : Rule) × (b : Binding) × In r rules
    × In b (solve_body r.body s)
    × (instantiate_head r.head b ≡ ok f)

elem-push_new :
    (s : GraphStore) (f g : Fact) (batch : List Fact)
    → elem g (push_new s f batch) ≡ true
    → (elem g batch ≡ true) ⊎ ((g ≡ f) × (contains s g ≡ false))
unfolding push_new elem
elem-push_new s f g batch h = elim (Bool-cases (not (contains s f) && not (elem f batch))) [
  | inl new ↦ elim (Bool-cases (elem g batch)) [
    | inl old ↦ inl old
    | inr other ↦
        let same : g ≡ f = ground (arith, elem-append g batch (f ∷ []), ==_iff f g) in
        inr (same, rw same (ground arith))
  ]
  | inr known ↦ inl (ground arith)
]

push_new_mono :
    (s : GraphStore) (f g : Fact) (batch : List Fact)
    → elem g batch ≡ true
    → elem g (push_new s f batch) ≡ true
unfolding push_new
push_new_mono s f g batch h = ground (arith, elem-append g batch (f ∷ []))

push_new_self :
    (s : GraphStore) (f : Fact) (batch : List Fact)
    → (contains s f ≡ true) ⊎ (elem f (push_new s f batch) ≡ true)
unfolding push_new elem
push_new_self s f batch = elim (Bool-cases (contains s f)) [
  | inl old ↦ inl old
  | inr new ↦ inr (ground (arith, elem-append f batch (f ∷ []), ==_iff f f))
]

-- What a round over one rule puts into the batch.
fire_bindings_sound :
    (head : Atom) (s : GraphStore) (bs : List Binding) (batch batch' : List Fact) (g : Fact)
    → fire_bindings head s bs batch ≡ ok batch'
    → elem g batch' ≡ true
    → (elem g batch ≡ true)
      ⊎ ((contains s g ≡ false) × ((b : Binding) × In b bs × (instantiate_head head b ≡ ok g)))
unfolding fire_bindings
fire_bindings_sound head s [] batch batch' g h m = inl (ground arith)
fire_bindings_sound head s (b ∷ bs) batch batch' g h m =
    let (fact, made, rest) =
      >>=-eq-ok (instantiate_head head b) (λ fact. fire_bindings head s bs (push_new s fact batch))
        h in
    elim (fire_bindings_sound head s bs (push_new s fact batch) batch' g rest m) [
      | inl before ↦ elim (elem-push_new s fact g batch before) [
        | inl old ↦ inl old
        | inr (same, new) ↦ inr (new, (b, inl refl, made ∙ ap ok (sym same)))
      ]
      | inr (new, (c, mem, e)) ↦ inr (new, (c, inr mem, e))
    ]

fire_bindings_mono :
    (head : Atom) (s : GraphStore) (bs : List Binding) (batch batch' : List Fact) (g : Fact)
    → fire_bindings head s bs batch ≡ ok batch'
    → elem g batch ≡ true
    → elem g batch' ≡ true
unfolding fire_bindings
fire_bindings_mono head s [] batch batch' g h m = ground arith
fire_bindings_mono head s (b ∷ bs) batch batch' g h m =
    let (fact, made, rest) =
      >>=-eq-ok (instantiate_head head b) (λ fact. fire_bindings head s bs (push_new s fact batch))
        h in
    fire_bindings_mono head s bs (push_new s fact batch) batch' g rest
      (push_new_mono s fact g batch m)

fire_bindings_complete :
    (head : Atom) (s : GraphStore) (bs : List Binding) (batch batch' : List Fact) (b : Binding)
    → fire_bindings head s bs batch ≡ ok batch'
    → In b bs
    → (f : Fact) × (instantiate_head head b ≡ ok f)
      × ((contains s f ≡ true) ⊎ (elem f batch' ≡ true))
unfolding fire_bindings
fire_bindings_complete head s [] batch batch' b h m = elim m [ ]
fire_bindings_complete head s (c ∷ bs) batch batch' b h m =
    let (fact, made, rest) =
      >>=-eq-ok (instantiate_head head c) (λ fact. fire_bindings head s bs (push_new s fact batch))
        h in
    elim m [
      | inl same ↦ (
        fact,
        ap (instantiate_head head) same ∙ made,
        elim (push_new_self s fact batch) [
          | inl old ↦ inl old
          | inr new ↦
              inr (fire_bindings_mono head s bs (push_new s fact batch) batch' fact rest new)
        ],
      )
      | inr later ↦ fire_bindings_complete head s bs (push_new s fact batch) batch' b rest later
    ]

-- Every fact of the batch is new to the store and the head of an activation.
pub fire_rules_sound :
    (rules : List Rule) (s : GraphStore) (batch batch' : List Fact) (g : Fact)
    → fire_rules rules s batch ≡ ok batch'
    → elem g batch' ≡ true
    → (elem g batch ≡ true) ⊎ ((contains s g ≡ false) × Activation rules s g)
unfolding fire_rules
fire_rules_sound [] s batch batch' g h m = inl (ground arith)
fire_rules_sound (r ∷ rules) s batch batch' g h m =
    let (mid, one, rest) =
      >>=-eq-ok (fire_bindings r.head s (solve_body r.body s) batch) (λ mid. fire_rules rules s mid)
        h in
    elim (fire_rules_sound rules s mid batch' g rest m) [
      | inl before ↦
          elim (fire_bindings_sound r.head s (solve_body r.body s) batch mid g one before) [
            | inl old ↦ inl old
            | inr (new, (b, mem, e)) ↦ inr (new, (r, b, inl refl, mem, e))
          ]
      | inr (new, (q, b, mr, mb, e)) ↦ inr (new, (q, b, inr mr, mb, e))
    ]

fire_rules_mono :
    (rules : List Rule) (s : GraphStore) (batch batch' : List Fact) (g : Fact)
    → fire_rules rules s batch ≡ ok batch'
    → elem g batch ≡ true
    → elem g batch' ≡ true
unfolding fire_rules
fire_rules_mono [] s batch batch' g h m = ground arith
fire_rules_mono (r ∷ rules) s batch batch' g h m =
    let (mid, one, rest) =
      >>=-eq-ok (fire_bindings r.head s (solve_body r.body s) batch) (λ mid. fire_rules rules s mid)
        h in
    fire_rules_mono rules s mid batch' g rest
      (fire_bindings_mono r.head s (solve_body r.body s) batch mid g one m)

-- Every activation's head is in the store or in the batch.
pub fire_rules_complete :
    (rules : List Rule) (s : GraphStore) (batch batch' : List Fact) (r : Rule) (b : Binding)
    → fire_rules rules s batch ≡ ok batch'
    → In r rules
    → In b (solve_body r.body s)
    → (f : Fact) × (instantiate_head r.head b ≡ ok f)
      × ((contains s f ≡ true) ⊎ (elem f batch' ≡ true))
unfolding fire_rules
fire_rules_complete [] s batch batch' r b h m n = elim m [ ]
fire_rules_complete (q ∷ rules) s batch batch' r b h m n =
    let (mid, one, rest) =
      >>=-eq-ok (fire_bindings q.head s (solve_body q.body s) batch) (λ mid. fire_rules rules s mid)
        h in
    elim m [
      | inl same ↦
          let n' : In b (solve_body q.body s) =
            subst (λ (x : Rule). In b (solve_body x.body s)) same n in
          let (f, made, where_) =
            fire_bindings_complete q.head s (solve_body q.body s) batch mid b one n' in
          (
            f,
            ap (λ (x : Rule). instantiate_head x.head b) same ∙ made,
            elim where_ [
              | inl old ↦ inl old
              | inr new ↦ inr (fire_rules_mono rules s mid batch' f rest new)
            ],
          )
      | inr later ↦ fire_rules_complete rules s mid batch' r b rest later n
    ]
