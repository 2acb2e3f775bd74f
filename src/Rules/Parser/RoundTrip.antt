-- ===== src/Rules/Parser/RoundTrip.antt =====
-- The parser on a printed program.
use prolog_forge.Prelude.{
  ℕ, zero, suc, ◌≤◌, List, [], ◌∷◌, ◌++◌, some, true, false, ◌≡◌, refl, ap, Str, length, All,
  append_assoc, append-nil, map, ok, ◌∙◌, arith,
}
use prolog_forge.Rules.Ast.{Atom, Rule, Program, is_ground_fact, all_const, is_empty}
use prolog_forge.Rules.Lexer.{Pos, at, new, moved, peek_at, skip_trivia, is_ascii_whitespace}
use prolog_forge.Rules.Parser.{file_clause, program_loop, parse, empty_program}
use prolog_forge.Rules.Parser.Sorted.{IsSorted}
use prolog_forge.Rules.Parser.Scanned.{is_plain_text, skip_trivia-plain, skip_trivia-space}
use prolog_forge.Rules.Parser.Atoms.{put_atom_plain}
use prolog_forge.Rules.Parser.Bodies.{parse_clause_lem, length-put_rule}
use prolog_forge.Rules.Print.{
  IsWritableAtom, IsWritableRule, IsWritable, put_rule, put_body, fact_rule, put_facts, put_rules,
  print,
}

file_all : List Rule → Program → Program
file_all [] program = program
file_all (r ∷ rs) program = file_all rs (file_clause r program)

put_rules_plain : (rs : List Rule) → All IsWritableRule rs → is_plain_text (put_rules rs) ≡ true
unfolding put_rules put_rule
put_rules_plain [] h = unfold is_plain_text in refl
put_rules_plain (r ∷ rs) ((head, body), hs) =
    put_atom_plain r.head (put_body r.body (put_rules rs)) head

put_rule_open :
    (r : Rule) (rest : Str) → IsWritableRule r → (b : ℕ) × (s : Str) × (put_rule r rest ≡ b ∷ s)
put_rule_open r rest h = from (put_rule r rest) (omega (arith, length-put_rule r rest h))
  where
    from : (text : Str) → 1 ≤ length text → (b : ℕ) × (s : Str) × (text ≡ b ∷ s)
    from [] le = absurd (omega arith)
    from (b ∷ s) le = (b, s, refl)

program_loop_lem :
    (n : ℕ) (rs : List Rule) (program : Program) (here : Pos)
    → All IsWritableRule rs
    → suc (length (put_rules rs)) ≤ n
    → program_loop n program (at (put_rules rs) here) ≡ ok (file_all rs program)
unfolding program_loop put_rules file_all peek_at
program_loop_lem zero rs program here h le = absurd (omega arith)
program_loop_lem (suc n) [] program here h le = refl
program_loop_lem (suc n) (r ∷ rs) program here (h, hs) le =
    let rest = put_rules rs in
    let (b, s, text) = put_rule_open r rest h in
    let starts : peek_at (put_rule r rest) ≡ some b = ap peek_at text in
    let (mid, one) = parse_clause_lem n r rest here h (omega arith) in
    let next : skip_trivia (at (b'\n' ∷ rest) mid) ≡ at rest (moved b'\n' mid) =
      skip_trivia-space b'\n' rest mid (unfold is_ascii_whitespace in refl)
        (put_rules_plain rs hs) in
    let loop =
      program_loop_lem n rs (file_clause r program) (moved b'\n' mid) hs
        (omega (arith, length-put_rule r rest h)) in
    rw (starts, program_loop, one, next) loop

file_all_rules :
    (rs : List Rule) (program : Program)
    → All (λ r. is_ground_fact r ≡ false) rs
    → file_all rs program ≡ record { rules = program.rules ++ rs; facts = program.facts }
unfolding file_all file_clause
file_all_rules [] program h = rw (append-nil program.rules) refl
file_all_rules (r ∷ rs) program (h, hs) = rw h (
    file_all_rules rs (record { rules = program.rules ++ r ∷ []; facts = program.facts }) hs
    ∙ ap (λ l. record { rules = l; facts = program.facts })
        (append_assoc program.rules (r ∷ []) rs))

file_fact :
    (a : Atom) (program : Program)
    → all_const a.args ≡ true
    → file_clause (fact_rule a) program
      ≡ record { rules = program.rules; facts = program.facts ++ a ∷ [] }
unfolding file_clause is_ground_fact is_empty
file_fact a program h = rw h refl

file_all_facts :
    (fs : List Atom) (rs : List Rule) (program : Program)
    → All (λ a. all_const a.args ≡ true) fs
    → file_all (map fact_rule fs ++ rs) program
      ≡ file_all rs (record { rules = program.rules; facts = program.facts ++ fs })
unfolding file_all
file_all_facts [] rs program h = rw (append-nil program.facts) refl
file_all_facts (a ∷ fs) rs program (h, hs) =
    let next : Program = record { rules = program.rules; facts = program.facts ++ a ∷ [] } in
    let step : file_clause (fact_rule a) program ≡ next = file_fact a program h in
    rw (step, file_all)
      (file_all_facts fs rs (record { rules = program.rules; facts = program.facts ++ a ∷ [] }) hs
        ∙ ap (λ l. file_all rs (record { rules = program.rules; facts = l }))
            (append_assoc program.facts (a ∷ []) fs))

put_facts_lem :
    (fs : List Atom) (rs : List Rule)
    → put_facts fs (put_rules rs) ≡ put_rules (map fact_rule fs ++ rs)
unfolding put_facts put_rules
put_facts_lem [] rs = refl
put_facts_lem (a ∷ fs) rs = ap (put_rule (fact_rule a)) (put_facts_lem fs rs)

writable-All :
    (fs : List Atom) (rs : List Rule)
    → All IsWritableAtom fs
    → All IsWritableRule rs
    → All IsWritableRule (map fact_rule fs ++ rs)
writable-All [] rs h k = k
writable-All (a ∷ fs) rs (h, hs) k = ((h, tt), writable-All fs rs hs k)

-- The parser reads back a printed program, the facts and the rules in their order, when its facts are
-- ground, none of its rules is a ground fact, its names are in the syntax, and each constant is a text
-- that a closing quote ends (no quote without a backslash before it, no backslash open at the end).
pub parse-print :
    (program : Program) → IsSorted program → IsWritable program → parse (print program) ≡ ok program
unfolding parse print
parse-print program (ground_facts, no_facts) (facts, rules) =
    let fs = program.facts in
    let rs = program.rules in
    let all = map fact_rule fs ++ rs in
    let writable = writable-All fs rs facts rules in
    let text : put_facts fs (put_rules rs) ≡ put_rules all = put_facts_lem fs rs in
    let start : skip_trivia (new (put_rules all)) ≡ new (put_rules all) =
      skip_trivia-plain (put_rules all) (new []).at_pos (put_rules_plain all writable) in
    rw
      (
        text,
        start,
        program_loop_lem (suc (length (put_rules all))) all empty_program (new []).at_pos writable
            (omega arith),
        file_all_facts fs rs empty_program ground_facts,
        file_all_rules rs (record { rules = []; facts = fs }) no_facts,
      )
      refl
