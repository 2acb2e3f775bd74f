-- ===== src/Rules/Lexer.antt =====
-- The reading position of crates/aa-rules/src/parser.rs and the functions on it that read one token.
-- `src` and `pos` are the bytes from `pos` on; the line and the column are those of the next byte.
use prolog_forge.Prelude.{
  ℕ, zero, suc, ◌+◌, ◌/◌, ◌%◌, [], ◌∷◌, ◌++◌, Option, none, some, Bool, true, false, ◌&&◌, ◌||◌,
  eqb, leb, ltb, if◌then◌else◌, Str, bytes, length, Result, ok, err,
}

pub record Pos : Type 0 where
  pub line : ℕ
  pub col : ℕ

pub record Parser : Type 0 where
  pub rest : Str
  pub at_pos : Pos

pub record ParseError : Type 0 where
  pub line : ℕ
  pub col : ℕ
  pub message : Str

-- Running out of fuel is kept apart from the errors of the source.
pub data Failure : Type 0 where
  parse_error : ParseError → Failure
  out_of_fuel : Failure

abbrev pub Parsed : Type 0 → Type 0
Parsed A = Result Failure (A × Parser)

abbrev pub at : Str → Pos → Parser
at rest here = record { rest = rest; at_pos = here }

abbrev pub new : Str → Parser
new src = at src (record { line = 1; col = 1 })

unfoldable pub peek_at : Str → Option ℕ
peek_at [] = none
peek_at (b ∷ rest) = some b

abbrev pub peek : Parser → Option ℕ
peek p = peek_at p.rest

unfoldable pub moved : ℕ → Pos → Pos
moved b here =
    if eqb b b'\n'
    then record { line = here.line + 1; col = 1 }
    else record { line = here.line; col = here.col + 1 }

unfoldable pub bump_at : Str → Pos → Parser
bump_at [] here = at [] here
bump_at (b ∷ rest) here = at rest (moved b here)

abbrev pub bump : Parser → Parser
bump p = bump_at p.rest p.at_pos

-- `err`.
unfoldable pub fail : {A : Type 0} → Parser → Str → Parsed A
fail p message =
    err (parse_error (record { line = p.at_pos.line; col = p.at_pos.col; message = message }))

unfoldable pub is_ascii_whitespace : ℕ → Bool
is_ascii_whitespace b = eqb b b' ' || eqb b b'\t' || eqb b b'\n' || eqb b 12 || eqb b b'\r'

unfoldable pub is_ascii_digit : ℕ → Bool
is_ascii_digit b = leb b'0' b && leb b b'9'

unfoldable pub is_ascii_uppercase : ℕ → Bool
is_ascii_uppercase b = leb b'A' b && leb b b'Z'

unfoldable pub is_ascii_lowercase : ℕ → Bool
is_ascii_lowercase b = leb b'a' b && leb b b'z'

unfoldable pub is_ident_byte : ℕ → Bool
is_ident_byte b = is_ascii_uppercase b || is_ascii_lowercase b || is_ascii_digit b || eqb b b'_'

-- `b as char`, in UTF-8.
unfoldable pub as_char : ℕ → Str
as_char b = if ltb b 128 then b ∷ [] else (192 + b / 64) ∷ (128 + b % 64) ∷ []

-- "expected `c`, found".
unfoldable pub message_found : Str → ℕ → Str
unfolding as_char
message_found expected b = expected ++ (bytes ", found `" ++ (as_char b ++ bytes "`"))

unfoldable pub line_comment_at : Str → Pos → Parser
line_comment_at [] here = at [] here
line_comment_at (b ∷ rest) here =
    let more = line_comment_at rest (moved b here) in
    if eqb b b'\n' then at rest (moved b here) else more

abbrev pub skip_line_comment : Parser → Parser
skip_line_comment p = line_comment_at p.rest p.at_pos

-- A `%`, or a `/` with another after it.
unfoldable pub is_comment : Str → Bool
unfolding peek_at
is_comment [] = false
is_comment (b ∷ rest) =
    eqb b b'%' || (eqb b b'/' && elim (peek_at rest) [ none ↦ false | some c ↦ eqb c b'/' ])

unfoldable pub starts_space : Str → Bool
starts_space [] = false
starts_space (b ∷ rest) = is_ascii_whitespace b

unfoldable pub trivia_loop : ℕ → Parser → Parser
unfolding is_comment starts_space
trivia_loop zero p = p
trivia_loop (suc n) p = elim (starts_space p.rest) [
  | true ↦ trivia_loop n (bump p)
  | false ↦ elim (is_comment p.rest) [ true ↦ trivia_loop n (skip_line_comment p) | false ↦ p ]
]

-- Each round takes a byte at least, so the number of bytes is fuel enough.
unfoldable pub skip_trivia : Parser → Parser
skip_trivia p = trivia_loop (length p.rest) p

unfoldable pub eat_found : ℕ → Parser → Option ℕ → Parsed (Unit {0})
eat_found c p none = fail p (bytes "expected `" ++ (as_char c ++ bytes "`, found EOF"))
eat_found c p (some b) =
    if eqb b c
    then ok (tt, bump p)
    else fail p (message_found (bytes "expected `" ++ (as_char c ++ bytes "`")) b)

unfoldable pub eat : ℕ → Parser → Parsed (Unit {0})
unfolding eat_found
eat c p = eat_found c p (peek p)

unfoldable pub cons_scanned : ℕ → Str × Parser → Str × Parser
cons_scanned b (s, p) = (b ∷ s, p)

-- The longest run of bytes that pass the test, `src[start..pos]` of a `while let` loop.
unfoldable pub scan : (ℕ → Bool) → Str → Pos → Str × Parser
unfolding cons_scanned
scan test [] here = ([], at [] here)
scan test (b ∷ rest) here =
    let more = cons_scanned b (scan test rest (moved b here)) in
    if test b then more else ([], at (b ∷ rest) here)
