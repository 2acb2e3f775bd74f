-- ===== src/Rules/Parser.antt =====
-- The recursive-descent parser of crates/aa-rules/src/parser.rs, from terms to programs. Its loops
-- take fuel; `parse` gives each more than the number of bytes.
pub mod Reads
pub mod Tokens
pub mod Idents
pub mod Terms
pub mod Clauses
pub mod Located
pub mod Sorted
pub mod Scanned
pub mod Args
pub mod Atoms
pub mod Bodies
pub mod RoundTrip
mod Tests
use prolog_forge.Prelude.{
  ℕ, zero, suc, List, [], ◌∷◌, ◌++◌, Option, none, some, Bool, true, false, not, ◌&&◌, ◌||◌, eqb,
  if◌then◌else◌, Str, bytes, length, Result, ok, err, ◌>>=◌,
}
use prolog_forge.Rules.Ast.{Term, const, var, Atom, Rule, Program, is_ground_fact}
use prolog_forge.Rules.Lexer.{
  Pos, Parser, Parsed, Failure, out_of_fuel, at, new, peek, peek_at, bump, moved, fail, scan, eat,
  skip_trivia, is_ident_byte, is_ascii_digit, is_ascii_lowercase, is_ascii_uppercase, message_found,
  cons_scanned, as_char,
}

unfoldable pub ident_scanned : Parser → Str × Parser → Parsed Str
ident_scanned p ([], q) = fail p (bytes "expected identifier")
ident_scanned p (b ∷ s, q) = ok (b ∷ s, q)

unfoldable pub parse_ident_any : Parser → Parsed Str
unfolding ident_scanned
parse_ident_any p = ident_scanned p (scan is_ident_byte p.rest p.at_pos)

unfoldable pub ident_lower_at : Parser → Option ℕ → Parsed Str
ident_lower_at p none = fail p (bytes "expected predicate name, found EOF")
ident_lower_at p (some b) =
    if is_ascii_lowercase b
    then parse_ident_any p
    else fail p (message_found (bytes "expected predicate name") b)

unfoldable pub parse_ident_lower : Parser → Parsed Str
unfolding ident_lower_at
parse_ident_lower p = ident_lower_at p (peek p)

unfoldable pub cons_quoted : ℕ → Parsed Str → Parsed Str
cons_quoted b (err e) = err e
cons_quoted b (ok (s, p)) = ok (b ∷ s, p)

-- The loop of `parse_quoted`; `escaped` when the byte before is a backslash that is not itself taken.
unfoldable pub quoted_loop : Bool → Str → Pos → Parsed Str
unfolding cons_quoted
quoted_loop escaped [] here = fail (at [] here) (bytes "unterminated string literal")
quoted_loop escaped (b ∷ rest) here =
    let more = cons_quoted b (quoted_loop (not escaped && eqb b b'\\') rest (moved b here)) in
    if not escaped && eqb b b'"' then ok ([], at rest (moved b here)) else more

unfoldable pub parse_quoted : Parser → Parsed Str
parse_quoted p = eat b'"' p >>= λ (u, q). quoted_loop false q.rest q.at_pos

unfoldable pub number_scanned : Parser → Str × Parser → Parsed Str
number_scanned p ([], q) = fail p (bytes "expected number")
number_scanned p (b ∷ s, q) = ok (b ∷ s, q)

-- The sign first, then the digits.
unfoldable pub scan_number : Str → Pos → Str × Parser
unfolding cons_scanned
scan_number [] here = ([], at [] here)
scan_number (b ∷ rest) here =
    if eqb b b'-'
    then cons_scanned b (scan is_ascii_digit rest (moved b here))
    else scan is_ascii_digit (b ∷ rest) here

unfoldable pub parse_number : Parser → Parsed Str
unfolding number_scanned scan_number
parse_number p = number_scanned p (scan_number p.rest p.at_pos)

unfoldable pub as_const : Str × Parser → Parsed Term
as_const (s, p) = ok (const s, p)

unfoldable pub as_var : Str × Parser → Parsed Term
as_var (s, p) = ok (var s, p)

unfoldable pub term_at : Parser → Option ℕ → Parsed Term
unfolding as_const as_var
term_at p none = fail p (bytes "unexpected EOF in term")
term_at p (some b) =
    if eqb b b'"'
    then parse_quoted p >>= as_const
    else if is_ascii_digit b || eqb b b'-'
    then parse_number p >>= as_const
    else if is_ascii_uppercase b || eqb b b'_'
    then parse_ident_any p >>= as_var
    else if is_ascii_lowercase b
    then parse_ident_any p >>= as_const
    else fail p (bytes "unexpected character `" ++ (as_char b ++ bytes "` in term"))

unfoldable pub parse_term : Parser → Parsed Term
unfolding term_at
parse_term p = term_at p (peek p)

-- What stands after an element of a list that `close` ends: the next element, the end, or an error.
pub data Next : Type 0 where
  comma close : Next
  other : ℕ → Next
  eof : Next

unfoldable pub next_at : ℕ → Option ℕ → Next
next_at closing none = eof
next_at closing (some b) = if eqb b b',' then comma else if eqb b closing then close else other b

-- The round of a loop at `q`: the next element, the end, or an error.
unfoldable pub next_round :
    {A : Type 0} → Next → (Parser → Parsed A) → Parsed A → Str → Str → Parser → Parsed A
next_round comma more done expected at_eof q = more (skip_trivia (bump q))
next_round close more done expected at_eof q = done
next_round (other b) more done expected at_eof q = fail q (message_found expected b)
next_round eof more done expected at_eof q = fail q at_eof

unfoldable pub args_loop : ℕ → List Term → Parser → Parsed (List Term)
unfolding next_at next_round
args_loop zero args p = err out_of_fuel
args_loop (suc n) args p =
    let q = skip_trivia p in
    next_round (next_at b')' (peek q))
      (λ (r : Parser). parse_term r >>= λ (t, u). args_loop n (args ++ t ∷ []) u) (ok (args, q))
      (bytes "expected `,` or `)`") (bytes "unexpected EOF in atom args") q

unfoldable pub parse_args : ℕ → Parser → Parsed (List Term)
parse_args n p =
    let closed : Bool = elim (peek p) [ none ↦ false | some b ↦ eqb b b')' ] in
    if closed then ok ([], p) else parse_term p >>= λ (t, q). args_loop n (t ∷ []) q

unfoldable pub parse_atom : ℕ → Parser → Parsed Atom
parse_atom n p = parse_ident_lower p >>= λ (name, q). eat b'(' (skip_trivia q) >>= λ (open₁, r).
    parse_args n (skip_trivia r) >>= λ (args, t).
    eat b')' t >>= λ (shut, u). ok (record { predicate = name; args = args }, u)

unfoldable pub body_loop : ℕ → List Atom → Parser → Parsed (List Atom)
unfolding next_at next_round
body_loop zero body p = err out_of_fuel
body_loop (suc n) body p =
    let q = skip_trivia p in
    next_round (next_at b'.' (peek q))
      (λ (r : Parser). parse_atom n r >>= λ (a, u). body_loop n (body ++ a ∷ []) u)
      (ok (body, bump q)) (bytes "expected `,` or `.`") (bytes "unexpected EOF in clause body") q

unfoldable pub clause_rest : ℕ → Atom → Parser → Parsed Rule
clause_rest n head p = eat b':' p >>= λ (colon, q). eat b'-' q >>= λ (dash, r).
    parse_atom n (skip_trivia r) >>= λ (a, t).
    body_loop n (a ∷ []) t >>= λ (body, u). ok (record { head = head; body = body }, u)

unfoldable pub parse_clause : ℕ → Parser → Parsed Rule
unfolding clause_rest
parse_clause n p = parse_atom n p >>= λ (head, q).
    let r = skip_trivia q in
    let dot : Bool = elim (peek r) [ none ↦ false | some b ↦ eqb b b'.' ] in
    if dot then ok (record { head = head; body = [] }, bump r) else clause_rest n head r

-- A clause goes to the facts when it is a ground fact, to the rules otherwise.
unfoldable pub file_clause : Rule → Program → Program
file_clause r program =
    if is_ground_fact r
    then record { rules = program.rules; facts = program.facts ++ r.head ∷ [] }
    else record { rules = program.rules ++ r ∷ []; facts = program.facts }

unfoldable pub program_loop : ℕ → Program → Parser → Result Failure Program
program_loop zero program p = err out_of_fuel
program_loop (suc n) program p = elim (peek p) [
  | none ↦ ok program
  | some b ↦ parse_clause n p >>= λ (r, q). program_loop n (file_clause r program) (skip_trivia q)
]

abbrev pub empty_program : Program
empty_program = record { rules = []; facts = [] }

unfoldable pub parse : Str → Result Failure Program
parse src = program_loop (suc (length src)) empty_program (skip_trivia (new src))
