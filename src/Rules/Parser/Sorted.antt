-- ===== src/Rules/Parser/Sorted.antt =====
-- The sorting of the clauses of a text into facts and rules.
use prolog_forge.Prelude.{
  ℕ, zero, suc, List, [], ◌∷◌, ◌++◌, none, some, true, false, ◌≡◌, refl, sym, ◌∙◌, append-nil,
  append_assoc, Bool-cases, Option-cases, subst, subst₂, inl, inr, Str, length, All, ok, >>=-eq-ok,
  arith,
}
use prolog_forge.Rules.Ast.{Term, const, var, Atom, Rule, Program, all_const, is_ground_fact}
use prolog_forge.Rules.Lexer.{Parser, peek, skip_trivia, new}
use prolog_forge.Rules.Parser.{parse_clause, file_clause, program_loop, parse, empty_program}

-- Every fact is ground, and no rule is a ground fact.
abbrev pub IsSorted : Program → Type 0
IsSorted program =
    All (λ a. all_const a.args ≡ true) program.facts
    × All (λ r. is_ground_fact r ≡ false) program.rules

-- The clauses that are read one after the other, up to the end of the text.
pub data Clauses : Parser → List Rule → Type 0 where
  at_end : {p : Parser} → peek p ≡ none → Clauses p []
  a_clause :
      (n : ℕ) {b : ℕ} {p q : Parser} {r : Rule} {cs : List Rule}
      → peek p ≡ some b
      → parse_clause n p ≡ ok (r, q)
      → Clauses (skip_trivia q) cs
      → Clauses p (r ∷ cs)

abbrev pub IsConst : Term → Type 0
IsConst t = (c : Str) × (t ≡ const c)

-- A clause with no body and no variable.
abbrev pub IsGround : Rule → Type 0
IsGround r = (r.body ≡ []) × All IsConst r.head.args

-- The clauses sorted, in their order: the heads of those that are ground and have no body, and the others.
pub data Sorts : List Rule → List Atom → List Rule → Type 0 where
  no_clause : Sorts [] [] []
  a_fact :
      {a : Atom} {cs : List Rule} {facts : List Atom} {rules : List Rule}
      → All IsConst a.args
      → Sorts cs facts rules
      → Sorts (record { head = a; body = [] } ∷ cs) (a ∷ facts) rules
  a_rule :
      {r : Rule} {cs : List Rule} {facts : List Atom} {rules : List Rule}
      → ¬ IsGround r
      → Sorts cs facts rules
      → Sorts (r ∷ cs) facts (r ∷ rules)

all_const-IsConst : (ts : List Term) → all_const ts ≡ true → All IsConst ts
unfolding all_const
all_const-IsConst [] h = tt
all_const-IsConst (const c ∷ ts) h = ((c, refl), all_const-IsConst ts h)
all_const-IsConst (var v ∷ ts) h = cc

IsConst-all_const : (ts : List Term) → All IsConst ts → all_const ts ≡ true
unfolding all_const
IsConst-all_const [] h = refl
IsConst-all_const (const c ∷ ts) (h, hs) = IsConst-all_const ts hs
IsConst-all_const (var v ∷ ts) ((c, e), hs) = cc

is_ground_fact-cases :
    (a : Atom) (body : List Atom)
    → is_ground_fact (record { head = a; body = body }) ≡ true
    → (body ≡ []) × All IsConst a.args
unfolding is_ground_fact
is_ground_fact-cases a [] h = (refl, all_const-IsConst a.args h)
is_ground_fact-cases a (b ∷ body) h = cc

a_ground_fact :
    (r : Rule) {cs : List Rule} {facts : List Atom} {rules : List Rule}
    → is_ground_fact r ≡ true
    → Sorts cs facts rules
    → Sorts (r ∷ cs) (r.head ∷ facts) rules
a_ground_fact r {cs} {facts} {rules} h rest =
    let (bare, consts) = is_ground_fact-cases r.head r.body h in
    subst
      (λ (body : List Atom).
        Sorts (record { head = r.head; body = body } ∷ cs) (r.head ∷ facts) rules)
      (sym bare) (a_fact consts rest)

IsGround-is_ground_fact :
    (a : Atom) (body : List Atom)
    → IsGround (record { head = a; body = body })
    → is_ground_fact (record { head = a; body = body }) ≡ true
unfolding is_ground_fact
IsGround-is_ground_fact a [] (bare, consts) = IsConst-all_const a.args consts
IsGround-is_ground_fact a (b ∷ body) (bare, consts) = cc

not-IsGround : (r : Rule) → is_ground_fact r ≡ false → ¬ IsGround r
not-IsGround r h ground' = cc (IsGround-is_ground_fact r.head r.body ground', h)

-- The facts and the rules that the clauses add to a program.
abbrev Adds : List Rule → Program → Program → Type 0
Adds cs before after =
    (facts : List Atom) × (rules : List Rule) × Sorts cs facts rules
    × (after.facts ≡ before.facts ++ facts)
    × (after.rules ≡ before.rules ++ rules)

file_clause-Adds :
    (r : Rule) (cs : List Rule) (program out : Program)
    → Adds cs (file_clause r program) out
    → Adds (r ∷ cs) program out
unfolding file_clause
file_clause-Adds r cs program out added = elim (Bool-cases (is_ground_fact r)) [
  | inl fact ↦
      let (facts, rules, sorts, f, g) = rw fact at added in
      (
        r.head ∷ facts,
        rules,
        a_ground_fact r fact sorts,
        f ∙ append_assoc program.facts (r.head ∷ []) facts,
        g,
      )
  | inr rule ↦
      let (facts, rules, sorts, f, g) = rw rule at added in
      (
        facts,
        r ∷ rules,
        a_rule (not-IsGround r rule) sorts,
        f,
        g ∙ append_assoc program.rules (r ∷ []) rules,
      )
]

program_loop-Adds :
    (n : ℕ) (program out : Program) (p : Parser)
    → program_loop n program p ≡ ok out
    → (cs : List Rule) × Clauses p cs × Adds cs program out
unfolding program_loop
program_loop-Adds zero program out p worked = cc
program_loop-Adds (suc n) program out p worked = elim (Option-cases (peek p)) [
  | inl end ↦
      let same : program ≡ out = ground arith in
      let nothing : Adds [] program program =
        ([], [], no_clause, sym (append-nil program.facts), sym (append-nil program.rules)) in
      ([], at_end end, subst (Adds [] program) same nothing)
  | inr (b, there) ↦
      let ((r, q), clause, rest) =
        >>=-eq-ok (parse_clause n p) _ (rw (there, program_loop) at worked) in
      let (cs, read, added) =
        program_loop-Adds n (file_clause r program) out (skip_trivia q) rest in
      (r ∷ cs, a_clause n there clause read, file_clause-Adds r cs program out added)
]

-- The program that the parser returns is made of the clauses that it reads, up to the end of the text:
-- those that have no body and no variable are its facts, and all others, bodies included, its rules, both
-- in their order.
pub parse-Sorts :
    (src : Str) (program : Program)
    → parse src ≡ ok program
    → (cs : List Rule) × Clauses (skip_trivia (new src)) cs × Sorts cs program.facts program.rules
unfolding parse
parse-Sorts src program worked =
    let (cs, read, (facts, rules, sorts, f, g)) =
      program_loop-Adds (suc (length src)) empty_program program (skip_trivia (new src)) worked in
    (cs, read, subst₂ (Sorts cs) (sym f) (sym g) sorts)
