-- ===== src/Rules/Parser/Bodies.antt =====
-- The parser on a printed clause.
use prolog_forge.Prelude.{
  ℕ, zero, suc, ◌+◌, ◌≤◌, List, [], ◌∷◌, ◌++◌, ◌≡◌, refl, ap, Str, length, All, append_assoc,
  append-nil, ok, ◌∙◌, arith,
}
use prolog_forge.Rules.Ast.{Atom, Rule}
use prolog_forge.Rules.Lexer.{Pos, at, moved, bump_at, peek_at, skip_trivia, is_ascii_whitespace}
use prolog_forge.Rules.Parser.{next_at, next_round, body_loop, clause_rest, parse_clause}
use prolog_forge.Rules.Parser.Scanned.{
  is_plain, is_plain_text, skip_trivia-plain, skip_trivia-space, eat_lem,
}
use prolog_forge.Rules.Parser.Atoms.{put_atom_plain, length-put_atom, parse_atom_lem}
use prolog_forge.Rules.Print.{
  IsWritableAtom, IsWritableRule, put_atom, put_atoms, put_body, put_rule,
}

abbrev ends : Str → Str
ends rest = b'.' ∷ b'\n' ∷ rest

body_loop_lem :
    (n : ℕ) (body as' : List Atom) (rest : Str) (here : Pos)
    → All IsWritableAtom as'
    → length (put_atoms as' (ends rest)) ≤ n
    → (there : Pos) × (body_loop n body (at (put_atoms as' (ends rest)) here)
        ≡ ok (body ++ as', at (b'\n' ∷ rest) there))
unfolding body_loop put_atoms next_at next_round peek_at bump_at
body_loop_lem zero body [] rest here h le = absurd (omega arith)
body_loop_lem zero body (a ∷ as') rest here h le = absurd (omega arith)
body_loop_lem (suc n) body [] rest here h le =
    let still : skip_trivia (at (ends rest) here) ≡ at (ends rest) here =
      skip_trivia-plain (ends rest) here
        (unfold is_plain_text is_plain is_ascii_whitespace in refl) in
    (moved b'.' here, rw (still, append-nil body, next_at, next_round, bump_at) refl)
body_loop_lem (suc n) body (a ∷ as') rest here (h, hs) le =
    let more = put_atoms as' (ends rest) in
    let text = put_atom a more in
    let still : skip_trivia (at (b',' ∷ b' ' ∷ text) here) ≡ at (b',' ∷ b' ' ∷ text) here =
      skip_trivia-plain (b',' ∷ b' ' ∷ text) here
        (unfold is_plain_text is_plain is_ascii_whitespace in refl) in
    let next : skip_trivia (at (b' ' ∷ text) (moved b',' here))
        ≡ at text (moved b' ' (moved b',' here)) =
      skip_trivia-space b' ' text (moved b',' here) (unfold is_ascii_whitespace in refl)
        (put_atom_plain a more h) in
    let (mid, one) = parse_atom_lem n a more (moved b' ' (moved b',' here)) h (omega arith) in
    let (there, loop) =
      body_loop_lem n (body ++ a ∷ []) as' rest mid hs (omega (arith, length-put_atom a more h)) in
    (
      there,
      rw (still, next, one, next_at, next_round, bump_at)
          (loop ∙ ap (λ l. ok (l, at (b'\n' ∷ rest) there)) (append_assoc body (a ∷ []) as')),
    )

clause_rest_lem :
    (n : ℕ) (head a : Atom) (as' : List Atom) (rest : Str) (here : Pos)
    → IsWritableAtom a
    → All IsWritableAtom as'
    → length (put_atom a (put_atoms as' (ends rest))) ≤ suc n
    → (there : Pos) × (clause_rest n head
          (at (b':' ∷ b'-' ∷ b' ' ∷ put_atom a (put_atoms as' (ends rest))) here)
        ≡ ok (record { head = head; body = a ∷ as' }, at (b'\n' ∷ rest) there))
unfolding clause_rest
clause_rest_lem n head a as' rest here h hs le =
    let more = put_atoms as' (ends rest) in
    let text = put_atom a more in
    let h₁ = moved b'-' (moved b':' here) in
    let next : skip_trivia (at (b' ' ∷ text) h₁) ≡ at text (moved b' ' h₁) =
      skip_trivia-space b' ' text h₁ (unfold is_ascii_whitespace in refl)
        (put_atom_plain a more h) in
    let (mid, one) = parse_atom_lem n a more (moved b' ' h₁) h le in
    let (there, loop) =
      body_loop_lem n (a ∷ []) as' rest mid hs (omega (arith, length-put_atom a more h)) in
    (
      there,
      rw
          (
            eat_lem b':' (b'-' ∷ b' ' ∷ text) here,
            eat_lem b'-' (b' ' ∷ text) (moved b':' here),
            next,
            one,
            loop,
          )
          refl,
    )

abbrev rule_of : Atom → List Atom → Rule
rule_of head atoms = record { head = head; body = atoms }

split_lem :
    (n : ℕ) (head : Atom) (atoms : List Atom) (rest : Str) (here : Pos)
    → IsWritableAtom head
    → All IsWritableAtom atoms
    → length (put_atom head (put_body atoms rest)) ≤ suc n
    → (there : Pos) × (parse_clause n (at (put_atom head (put_body atoms rest)) here)
        ≡ ok (rule_of head atoms, at (b'\n' ∷ rest) there))
unfolding parse_clause put_body peek_at bump_at
split_lem n head [] rest here h hs le =
    let (mid, one) = parse_atom_lem n head (ends rest) here h le in
    let still : skip_trivia (at (ends rest) mid) ≡ at (ends rest) mid =
      skip_trivia-plain (ends rest) mid
        (unfold is_plain_text is_plain is_ascii_whitespace in refl) in
    (moved b'.' mid, rw (one, still, bump_at) refl)
split_lem n head (a ∷ as') rest here h (k, ks) le =
    let text = b':' ∷ b'-' ∷ b' ' ∷ put_atom a (put_atoms as' (ends rest)) in
    let (mid, one) = parse_atom_lem n head (b' ' ∷ text) here h le in
    let next : skip_trivia (at (b' ' ∷ text) mid) ≡ at text (moved b' ' mid) =
      skip_trivia-space b' ' text mid (unfold is_ascii_whitespace in refl)
        (unfold is_plain_text is_plain is_ascii_whitespace in refl) in
    let (there, tail) =
      clause_rest_lem n head a as' rest (moved b' ' mid) k ks
        (omega (arith, length-put_atom head (b' ' ∷ text) h)) in
    (there, rw (one, next) tail)

pub parse_clause_lem :
    (n : ℕ) (r : Rule) (rest : Str) (here : Pos)
    → IsWritableRule r
    → length (put_rule r rest) ≤ suc n
    → (there : Pos) × (parse_clause n (at (put_rule r rest) here) ≡ ok (r, at (b'\n' ∷ rest) there))
unfolding put_rule
parse_clause_lem n r rest here (head, body) le = split_lem n r.head r.body rest here head body le

length-put_atoms :
    (as' : List Atom) (rest : Str)
    → All IsWritableAtom as'
    → length rest ≤ length (put_atoms as' rest)
unfolding put_atoms
length-put_atoms [] rest h = omega arith
length-put_atoms (a ∷ as') rest (h, hs) =
    omega (arith, length-put_atom a (put_atoms as' rest) h, length-put_atoms as' rest hs)

length-put_body :
    (atoms : List Atom) (rest : Str)
    → All IsWritableAtom atoms
    → suc (length rest) ≤ length (put_body atoms rest)
unfolding put_body
length-put_body [] rest h = omega arith
length-put_body (a ∷ as') rest (h, hs) =
    omega
      (arith, length-put_atom a (put_atoms as' (ends rest)) h, length-put_atoms as' (ends rest) hs)

pub length-put_rule :
    (r : Rule) (rest : Str) → IsWritableRule r → 2 + length rest ≤ length (put_rule r rest)
unfolding put_rule
length-put_rule r rest (head, body) =
    omega
      (arith, length-put_atom r.head (put_body r.body rest) head, length-put_body r.body rest body)
