-- ===== src/Rules/Parser/Args.antt =====
-- The parser on the printed arguments of an atom.
use prolog_forge.Prelude.{
  ℕ, zero, suc, ◌≤◌, List, [], ◌∷◌, ◌++◌, some, Bool, true, false, ◌≡◌, refl, ap, eqb, Str, length,
  length-append, All, append_assoc, append-nil, ok, ◌∙◌, arith,
}
use prolog_forge.Rules.Ast.{Term, const, var}
use prolog_forge.Rules.Lexer.{
  Pos, at, moved, bump_at, peek_at, skip_trivia, is_ascii_whitespace, is_ascii_lowercase,
  is_ascii_uppercase, is_ident_byte, is_ascii_digit,
}
use prolog_forge.Rules.Parser.{next_at, next_round, args_loop, parse_args}
use prolog_forge.Rules.Parser.Scanned.{
  is_plain, is_plain_text, stops, skip_trivia-plain, skip_trivia-space, parse_term_lem,
}
use prolog_forge.Rules.Print.{is_name, starts_var, is_writable, put_term, put_terms, put_args}

pub name_plain :
    (start : ℕ → Bool) (s rest : Str)
    → ((b : ℕ) → start b ≡ true → is_plain b ≡ true)
    → is_name start s ≡ true
    → is_plain_text (s ++ rest) ≡ true
unfolding is_name is_plain_text
name_plain start [] rest plain h = cc
name_plain start (b ∷ s) rest plain h = plain b (ground arith)

pub put_term_plain :
    (t : Term) (rest : Str) → is_writable t ≡ true → is_plain_text (put_term t rest) ≡ true
unfolding put_term is_writable
put_term_plain (const c) rest h = unfold is_plain_text is_plain is_ascii_whitespace in refl
put_term_plain (var v) rest h =
    name_plain starts_var v rest
      (λ b k. unfold starts_var is_plain is_ascii_whitespace is_ascii_uppercase in ground arith) h

pub length-put_term :
    (t : Term) (rest : Str) → is_writable t ≡ true → suc (length rest) ≤ length (put_term t rest)
unfolding put_term is_writable is_name
length-put_term (const c) rest h = omega (arith, length-append c (b'"' ∷ rest))
length-put_term (var []) rest h = cc
length-put_term (var (b ∷ v)) rest h = omega (arith, length-append v rest)

-- The elements after the first stop a name and start no trivia.
pub put_terms-stops : (ts : List Term) (rest : Str) → stops (put_terms ts (b')' ∷ rest)) ≡ true
unfolding put_terms stops is_ident_byte is_ascii_digit is_ascii_lowercase is_ascii_uppercase
put_terms-stops [] rest = refl
put_terms-stops (t ∷ ts) rest = refl

pub args_loop_lem :
    (n : ℕ) (args ts : List Term) (rest : Str) (here : Pos)
    → All (λ t. is_writable t ≡ true) ts
    → length (put_terms ts (b')' ∷ rest)) ≤ n
    → (there : Pos) × (args_loop n args (at (put_terms ts (b')' ∷ rest)) here)
        ≡ ok (args ++ ts, at (b')' ∷ rest) there))
unfolding args_loop put_terms next_at next_round peek_at bump_at
args_loop_lem zero args [] rest here h le = absurd (omega arith)
args_loop_lem zero args (t ∷ ts) rest here h le = absurd (omega arith)
args_loop_lem (suc n) args [] rest here h le =
    let still : skip_trivia (at (b')' ∷ rest) here) ≡ at (b')' ∷ rest) here =
      skip_trivia-plain (b')' ∷ rest) here
        (unfold is_plain_text is_plain is_ascii_whitespace in refl) in
    (here, rw (still, append-nil args, next_at, next_round) refl)
args_loop_lem (suc n) args (t ∷ ts) rest here (h, hs) le =
    let more = put_terms ts (b')' ∷ rest) in
    let text = put_term t more in
    let still : skip_trivia (at (b',' ∷ b' ' ∷ text) here) ≡ at (b',' ∷ b' ' ∷ text) here =
      skip_trivia-plain (b',' ∷ b' ' ∷ text) here
        (unfold is_plain_text is_plain is_ascii_whitespace in refl) in
    let next : skip_trivia (at (b' ' ∷ text) (moved b',' here))
        ≡ at text (moved b' ' (moved b',' here)) =
      skip_trivia-space b' ' text (moved b',' here) (unfold is_ascii_whitespace in refl)
        (put_term_plain t more h) in
    let (mid, one) =
      parse_term_lem t more (moved b' ' (moved b',' here)) h (put_terms-stops ts rest) in
    let (there, loop) =
      args_loop_lem n (args ++ t ∷ []) ts rest mid hs (omega (arith, length-put_term t more h)) in
    (
      there,
      rw (still, next, one, next_at, next_round, bump_at)
          (loop ∙ ap (λ l. ok (l, at (b')' ∷ rest) there)) (append_assoc args (t ∷ []) ts)),
    )

length-put_terms :
    (ts : List Term) (rest : Str)
    → All (λ t. is_writable t ≡ true) ts
    → length rest ≤ length (put_terms ts rest)
unfolding put_terms
length-put_terms [] rest h = omega arith
length-put_terms (t ∷ ts) rest (h, hs) =
    omega (arith, length-put_term t (put_terms ts rest) h, length-put_terms ts rest hs)

pub length-put_args :
    (ts : List Term) (rest : Str)
    → All (λ t. is_writable t ≡ true) ts
    → suc (length rest) ≤ length (put_args ts rest)
unfolding put_args
length-put_args [] rest h = omega arith
length-put_args (t ∷ ts) rest (h, hs) =
    omega (
      arith,
      length-put_term t (put_terms ts (b')' ∷ rest)) h,
      length-put_terms ts (b')' ∷ rest) hs,
    )

pub put_args_plain :
    (ts : List Term) (rest : Str)
    → All (λ t. is_writable t ≡ true) ts
    → is_plain_text (put_args ts rest) ≡ true
unfolding put_args
put_args_plain [] rest h = unfold is_plain_text is_plain is_ascii_whitespace in refl
put_args_plain (t ∷ ts) rest (h, hs) = put_term_plain t (put_terms ts (b')' ∷ rest)) h

writable_open :
    (t : Term) (rest : Str)
    → is_writable t ≡ true
    → (b : ℕ) × (s : Str) × (put_term t rest ≡ b ∷ s) × (eqb b b')' ≡ false)
unfolding put_term is_writable is_name starts_var is_ascii_uppercase
writable_open (const c) rest h = (b'"', c ++ (b'"' ∷ rest), refl, refl)
writable_open (var []) rest h = cc
writable_open (var (b ∷ v)) rest h = (b, v ++ rest, refl, ground arith)

pub parse_args_lem :
    (n : ℕ) (ts : List Term) (rest : Str) (here : Pos)
    → All (λ t. is_writable t ≡ true) ts
    → length (put_args ts rest) ≤ n
    → (there : Pos) × (parse_args n (at (put_args ts rest) here) ≡ ok (ts, at (b')' ∷ rest) there))
unfolding parse_args put_args peek_at
parse_args_lem n [] rest here h le = (here, refl)
parse_args_lem n (t ∷ ts) rest here (h, hs) le =
    let more = put_terms ts (b')' ∷ rest) in
    let (b, s, text, no_end) = writable_open t more h in
    let (mid, one) = parse_term_lem t more here h (put_terms-stops ts rest) in
    let (there, loop) =
      args_loop_lem n (t ∷ []) ts rest mid hs (omega (arith, length-put_term t more h)) in
    let starts : peek_at (put_term t more) ≡ some b = ap peek_at text in
    (there, rw (starts, no_end, one) loop)
