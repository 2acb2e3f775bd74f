-- ===== src/Rules/Parser/Tests.antt =====
-- The parser on small texts.
use prolog_forge.Prelude.{List, ℕ, suc, [], ◌∷◌, ◌++◌, ◌≡◌, ◌≢◌, refl, bytes, Str, length, ok, err}
use prolog_forge.Rules.Ast.{
  const, var, Atom, Rule, Program, is_ground_fact, is_empty, all_const, is_const,
}
use prolog_forge.Rules.Lexer.{
  new, peek_at, moved, bump_at, fail, is_ascii_whitespace, is_ascii_digit, is_ascii_uppercase,
  is_ascii_lowercase, is_ident_byte, as_char, message_found, line_comment_at, is_comment,
  starts_space, trivia_loop, skip_trivia, eat_found, eat, cons_scanned, scan, parse_error,
  out_of_fuel,
}
use prolog_forge.Rules.Parser.{
  parse, program_loop, file_clause, parse_clause, clause_rest, body_loop, parse_atom, parse_args,
  args_loop, next_round, next_at, parse_term, term_at, as_var, as_const, parse_number,
  number_scanned, scan_number, parse_quoted, quoted_loop, cons_quoted, parse_ident_lower,
  ident_lower_at, parse_ident_any, ident_scanned,
}
use prolog_forge.Rules.Parser.Located.{newlines, last_line, parse_ends, parse_error_located}
use prolog_forge.Rules.Parser.Sorted.{Clauses, Sorts, parse-Sorts}
use prolog_forge.Rules.Parser.RoundTrip.{parse-print}
use prolog_forge.Rules.Print.{print, is_name, is_writable, all_ident, starts_var, closes}

abbrev parent_fact : Atom
parent_fact = record {
  predicate = bytes "parent";
  args = const (bytes "ann") ∷ const (bytes "bob") ∷ [];
}

abbrev atom_of : Str → Str → Atom
atom_of p x = record { predicate = p; args = var x ∷ [] }

abbrev family : Program
family = record {
  rules =
      record {
        head = atom_of (bytes "q") (bytes "X");
        body = atom_of (bytes "p") (bytes "X") ∷ atom_of (bytes "r") (bytes "X") ∷ [];
      }
      ∷ [];
  facts = parent_fact ∷ [];
}

abbrev family_text : Str
family_text = bytes "% who\nparent(ann, \"bob\"). q(X):-p(X) , r(X)."

parsed : parse family_text ≡ ok family
unfolding parse program_loop file_clause parse_clause clause_rest body_loop parse_atom parse_args
    args_loop next_round next_at parse_term term_at as_var as_const parse_number number_scanned
    scan_number parse_quoted quoted_loop cons_quoted parse_ident_lower ident_lower_at
    parse_ident_any ident_scanned peek_at moved bump_at fail is_ascii_whitespace is_ascii_digit
    is_ascii_uppercase is_ascii_lowercase is_ident_byte as_char message_found line_comment_at
    is_comment starts_space trivia_loop skip_trivia eat_found eat cons_scanned scan is_ground_fact
    is_empty all_const is_const
parsed = refl

misplaced :
    parse (bytes "p(a).\n q b")
    ≡ err (parse_error (record { line = 2; col = 4; message = bytes "expected `(`, found `b`" }))
unfolding parse program_loop file_clause parse_clause clause_rest body_loop parse_atom parse_args
    args_loop next_round next_at parse_term term_at as_var as_const parse_number number_scanned
    scan_number parse_quoted quoted_loop cons_quoted parse_ident_lower ident_lower_at
    parse_ident_any ident_scanned peek_at moved bump_at fail is_ascii_whitespace is_ascii_digit
    is_ascii_uppercase is_ascii_lowercase is_ident_byte as_char message_found line_comment_at
    is_comment starts_space trivia_loop skip_trivia eat_found eat cons_scanned scan is_ground_fact
    is_empty all_const is_const
misplaced = refl

parse_ends_example : parse (bytes "p(a).\n q b") ≢ err out_of_fuel
parse_ends_example = parse_ends (bytes "p(a).\n q b")

abbrev wrong_text : Str
wrong_text = bytes "p(a).\n q b"

parse_error_located_example :
    (before : Str) × (after : Str) × (wrong_text ≡ before ++ after)
    × (◌≡◌ {A = ℕ} 2 (suc (newlines before)))
    × (◌≡◌ {A = ℕ} 4 (suc (length (last_line before))))
parse_error_located_example =
    parse_error_located wrong_text
      (record { line = 2; col = 4; message = bytes "expected `(`, found `b`" }) misplaced

parse-Sorts_example :
    (cs : List Rule) × Clauses (skip_trivia (new family_text)) cs
    × Sorts cs family.facts family.rules
parse-Sorts_example = parse-Sorts family_text family parsed

parse-print_example : parse (print family) ≡ ok family
unfolding all_const is_const is_ground_fact is_empty is_name is_writable all_ident starts_var closes
    is_ident_byte is_ascii_digit is_ascii_lowercase is_ascii_uppercase
parse-print_example =
    parse-print family ((refl, tt), (refl, tt))
      (
        (((refl, (refl, (refl, tt))), tt)),
        ((((refl, (refl, tt)), ((refl, (refl, tt)), ((refl, (refl, tt)), tt)))), tt),
      )
