-- ===== src/Rules/Print.antt =====
-- A printer of programs in the syntax that crates/aa-rules/src/parser.rs reads. Each function writes
-- before a text that follows.
use prolog_forge.Prelude.{
  ℕ, List, [], ◌∷◌, ◌++◌, Bool, true, false, not, ◌&&◌, ◌||◌, eqb, Str, All, ◌≡◌,
}
use prolog_forge.Rules.Ast.{Term, const, var, Atom, Rule, Program}
use prolog_forge.Rules.Lexer.{is_ident_byte, is_ascii_lowercase, is_ascii_uppercase}

-- The conditions on the names and on the constants: a name is in the syntax, and a constant between
-- quotes ends at the second of them.
unfoldable pub all_ident : Str → Bool
all_ident [] = true
all_ident (b ∷ s) = is_ident_byte b && all_ident s

unfoldable pub is_name : (ℕ → Bool) → Str → Bool
is_name start [] = false
is_name start (b ∷ s) = start b && all_ident s

unfoldable pub starts_var : ℕ → Bool
starts_var b = is_ascii_uppercase b || eqb b b'_'

unfoldable pub closes : Bool → Str → Bool
closes escaped [] = not escaped
closes escaped (b ∷ s) = not (not escaped && eqb b b'"') && closes (not escaped && eqb b b'\\') s

unfoldable pub is_writable : Term → Bool
is_writable (const c) = closes false c
is_writable (var v) = is_name starts_var v

abbrev pub IsWritableAtom : Atom → Type 0
IsWritableAtom a =
    (is_name is_ascii_lowercase a.predicate ≡ true) × All (λ t. is_writable t ≡ true) a.args

abbrev pub IsWritableRule : Rule → Type 0
IsWritableRule r = IsWritableAtom r.head × All IsWritableAtom r.body

abbrev pub IsWritable : Program → Type 0
IsWritable program = All IsWritableAtom program.facts × All IsWritableRule program.rules

unfoldable pub put_term : Term → Str → Str
put_term (const c) after = b'"' ∷ (c ++ (b'"' ∷ after))
put_term (var v) after = v ++ after

-- The elements after the first, each behind a comma and a space.
unfoldable pub put_terms : List Term → Str → Str
put_terms [] after = after
put_terms (t ∷ ts) after = b',' ∷ b' ' ∷ put_term t (put_terms ts after)

unfoldable pub put_args : List Term → Str → Str
put_args [] after = b')' ∷ after
put_args (t ∷ ts) after = put_term t (put_terms ts (b')' ∷ after))

unfoldable pub put_atom : Atom → Str → Str
put_atom a after = a.predicate ++ (b'(' ∷ put_args a.args after)

unfoldable pub put_atoms : List Atom → Str → Str
put_atoms [] after = after
put_atoms (a ∷ as') after = b',' ∷ b' ' ∷ put_atom a (put_atoms as' after)

unfoldable pub put_body : List Atom → Str → Str
put_body [] after = b'.' ∷ b'\n' ∷ after
put_body (a ∷ as') after =
    b' ' ∷ b':' ∷ b'-' ∷ b' ' ∷ put_atom a (put_atoms as' (b'.' ∷ b'\n' ∷ after))

unfoldable pub put_rule : Rule → Str → Str
put_rule r after = put_atom r.head (put_body r.body after)

abbrev pub fact_rule : Atom → Rule
fact_rule a = record { head = a; body = [] }

unfoldable pub put_facts : List Atom → Str → Str
put_facts [] after = after
put_facts (a ∷ as') after = put_rule (fact_rule a) (put_facts as' after)

unfoldable pub put_rules : List Rule → Str
put_rules [] = []
put_rules (r ∷ rs) = put_rule r (put_rules rs)

-- The facts, one to a line, then the rules.
unfoldable pub print : Program → Str
print program = put_facts program.facts (put_rules program.rules)
