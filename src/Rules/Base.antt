-- ===== src/Rules/Base.antt =====
-- The facts that a program can derive from a store: its rules' heads over the atoms of the rules and of
-- the store. Their number bounds the rounds of `evaluate`, crates/aa-rules/src/eval.rs.
use prolog_forge.Prelude.{
  In-map, ℕ, zero, suc, ◌+◌, ◌≤◌, ◌<◌, List, [], ◌∷◌, ◌++◌, true, false, ◌≡◌, refl, sym, ◌∙◌, ap,
  subst, arith, nat_eq, list_eq, Str, length, map, In, In-append_left, In-append_right, All, inl,
  inr, AllEntries, AllEntries-map_get, if◌then◌else◌,
}
use prolog_forge.Graph.Fact.{Fact, FactLayer}
use prolog_forge.Graph.Store.{GraphStore, contains, all_facts}
use prolog_forge.Graph.Unify.{Binding}
use prolog_forge.Rules.Ast.{Term, const, var, Atom, Rule}
use prolog_forge.Rules.Body.{ArgsHold}

pub term_consts : List Term → List Str
term_consts [] = []
term_consts (const c ∷ ts) = c ∷ term_consts ts
term_consts (var v ∷ ts) = term_consts ts

unfoldable pub rule_consts : List Rule → List Str
unfolding term_consts
rule_consts [] = []
rule_consts (r ∷ rules) = term_consts r.head.args ++ rule_consts rules

unfoldable pub fact_atoms : List Fact → List Str
fact_atoms [] = []
fact_atoms (f ∷ fs) = f.args ++ fact_atoms fs

unfoldable pub universe : List Rule → GraphStore → List Str
unfolding rule_consts fact_atoms
universe rules s = rule_consts rules ++ fact_atoms (all_facts s)

-- The lists of a length over an alphabet.
prepend_all : List Str → List (List Str) → List (List Str)
prepend_all [] ts = []
prepend_all (u ∷ us) ts = map (λ t. u ∷ t) ts ++ prepend_all us ts

tuples : List Str → ℕ → List (List Str)
unfolding prepend_all
tuples u zero = [] ∷ []
tuples u (suc n) = prepend_all u (tuples u n)

abbrev pub head_fact : Atom → List Str → Fact
head_fact head args = record { predicate = head.predicate; args = args; layer = FactLayer.inferred }

unfoldable pub candidates : List Str → List Rule → List Fact
unfolding tuples
candidates u [] = []
candidates u (r ∷ rules) =
    map (head_fact r.head) (tuples u (length r.head.args)) ++ candidates u rules

-- How many candidates the store lacks.
unfoldable pub missing : GraphStore → List Fact → ℕ
missing s [] = 0
missing s (c ∷ cs) = (if contains s c then 0 else 1) + missing s cs

pub missing-le-length : (s : GraphStore) (cs : List Fact) → missing s cs ≤ length cs
unfolding missing
missing-le-length s [] = omega arith
missing-le-length s (c ∷ cs) = ground (arith, missing-le-length s cs)

module _ (s t : GraphStore) (grows : (f : Fact) → contains s f ≡ true → contains t f ≡ true) where
  missing_mono : (cs : List Fact) → missing t cs ≤ missing s cs
  unfolding missing
  missing_mono [] = omega arith
  missing_mono (c ∷ cs) = ground (arith, missing_mono cs, grows c)

  -- A candidate that the store gains leaves fewer missing.
  pub missing_decreases :
      (c : Fact) (cs : List Fact)
      → In c cs
      → contains s c ≡ false
      → contains t c ≡ true
      → missing t cs < missing s cs
  unfolding missing
  missing_decreases c [] m old new = elim m [ ]
  missing_decreases c (d ∷ cs) (inl same) old new =
      let old' : contains s d ≡ false = ap (contains s) (sym same) ∙ old in
      let new' : contains t d ≡ true = ap (contains t) (sym same) ∙ new in
      ground (arith, missing_mono cs)
  missing_decreases c (d ∷ cs) (inr m) old new =
      ground (arith, missing_decreases c cs m old new, grows d)

In-prepend_all :
    (u : List Str) (a : Str) (t : List Str) (ts : List (List Str))
    → In a u
    → In t ts
    → In (a ∷ t) (prepend_all u ts)
unfolding prepend_all
In-prepend_all [] a t ts ma mt = elim ma [ ]
In-prepend_all (x ∷ u) a t ts (inl same) mt =
    In-append_left (a ∷ t) (map (λ t. x ∷ t) ts) (prepend_all u ts)
      (subst (λ y. In (y ∷ t) (map (λ t. x ∷ t) ts)) (sym same) (In-map (λ t. x ∷ t) t ts mt))
In-prepend_all (x ∷ u) a t ts (inr ma) mt =
    In-append_right (a ∷ t) (map (λ t. x ∷ t) ts) (prepend_all u ts) (In-prepend_all u a t ts ma mt)

module _ (u : List Str) where
  In-tuples : (as' : List Str) → All (λ a. In a u) as' → In as' (tuples u (length as'))
  unfolding tuples
  In-tuples [] all = inl refl
  In-tuples (a ∷ as') all =
      In-prepend_all u a as' (tuples u (length as')) all.0 (In-tuples as' all.1)

  -- The arguments of a head lie in the alphabet, if its constants and the bound atoms do.
  pub args-In :
      (ts : List Term) (b : Binding) (as' : List Str)
      → All (λ a. In a u) (term_consts ts)
      → AllEntries (λ k v. In v u) b
      → ArgsHold b ts as'
      → All (λ a. In a u) as' × (length as' ≡ length ts)
  unfolding term_consts
  args-In [] b [] cs bound h = (tt, refl)
  args-In [] b (a ∷ as') cs bound h = absurd h
  args-In (const c ∷ ts) b [] cs bound h = absurd h
  args-In (var v ∷ ts) b [] cs bound h = absurd h
  args-In (const c ∷ ts) b (a ∷ as') cs bound h =
      let c_is_a : c ≡ a = cc (h.0) in
      let (rest, len) = args-In ts b as' cs.1 bound h.1 in
      ((subst (λ x. In x u) c_is_a cs.0, rest), ap suc len)
  args-In (var v ∷ ts) b (a ∷ as') cs bound h =
      let (rest, len) = args-In ts b as' cs bound h.1 in
      ((AllEntries-map_get (λ k v. In v u) v a b bound h.0, rest), ap suc len)

  pub In-candidates :
      (rules : List Rule) (r : Rule) (f : Fact)
      → In r rules
      → f ≡ head_fact r.head f.args
      → length f.args ≡ length r.head.args
      → All (λ a. In a u) f.args
      → In f (candidates u rules)
  unfolding candidates
  In-candidates [] r f m e len all = elim m [ ]
  In-candidates (q ∷ rules) r f (inl same) e len all =
      let e' : f ≡ head_fact q.head f.args =
        subst (λ (x : Rule). f ≡ head_fact x.head f.args) same e in
      let len' : length f.args ≡ length q.head.args =
        subst (λ (x : Rule). length f.args ≡ length x.head.args) same len in
      In-append_left f (map (head_fact q.head) (tuples u (length q.head.args))) (candidates u rules)
        (subst (λ x. In x (map (head_fact q.head) (tuples u (length q.head.args)))) (sym e')
          (In-map (head_fact q.head) f.args (tuples u (length q.head.args))
            (subst (λ n. In f.args (tuples u n)) len' (In-tuples f.args all))))
  In-candidates (q ∷ rules) r f (inr m) e len all =
      In-append_right f (map (head_fact q.head) (tuples u (length q.head.args)))
        (candidates u rules) (In-candidates rules r f m e len all)
