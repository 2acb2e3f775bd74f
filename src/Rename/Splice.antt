-- ===== src/Rename/Splice.antt =====
-- The splices of `apply_text_edits` from the last to the first, against one walk from the left.
use prolog_forge.Prelude.{
  ℕ, ◌≤◌, ◌≡◌, refl, sym, ap, ◌∙◌, subst, List, [], ◌∷◌, ◌++◌, false, arith, Str, length, take,
  drop, slice, length-take, take-take, take-append, drop-append, leb, ok, Result-cases, Bool-cases,
  inl, inr, All,
}
use prolog_forge.Rename.Bounds.{Fits, to_byte_edits-Fits}
use prolog_forge.Rename.Edits.{
  ByteEdit, TextEdit, splice_back, has_overlap, replace_range, sort_by_start, insert_by_start,
  splice_sorted, apply_text_edits, to_byte_edits, line_starts,
}

-- The text from a position on, its edits made from left to right.
unfoldable pub weave : ℕ → List ByteEdit → Str → Str
weave pos [] src = drop pos src
weave pos (e ∷ es) src = slice pos e.start src ++ (e.text ++ weave e.stop es src)

-- The edits follow each other from the position on and end within `n` bytes.
abbrev pub Chain : ℕ → ℕ → List ByteEdit → Type 0
Chain n pos [] = pos ≤ n
Chain n pos (e ∷ es) = (pos ≤ e.start) × (e.start ≤ e.stop) × Chain n e.stop es

Chain-le : (n pos : ℕ) (es : List ByteEdit) → Chain n pos es → pos ≤ n
Chain-le n pos [] h = h
Chain-le n pos (e ∷ es) (h, k, rest) = omega (arith, Chain-le n e.stop es rest)

splice_lem :
    (src : Str) (pos : ℕ) (es : List ByteEdit)
    → Chain (length src) pos es
    → (take pos (splice_back es src) ≡ take pos src)
      × (drop pos (splice_back es src) ≡ weave pos es src)
unfolding splice_back replace_range weave
splice_lem src pos [] h = (refl, refl)
splice_lem src pos (e ∷ es) (h, k, rest) =
    let out = splice_back es src in
    let (front, back) = splice_lem src e.stop es rest in
    let fits = Chain-le (length src) e.stop es rest in
    let kept : take e.start out ≡ take e.start src =
      sym (take-take e.start e.stop out k)
      ∙ ap (λ ys. take e.start ys) front
      ∙ take-take e.start e.stop src k in
    let long : length (take e.start src) ≡ e.start = length-take e.start src (omega arith) in
    let within : pos ≤ length (take e.start src) = omega arith in
    let whole : replace_range e.start e.stop e.text out
        ≡ take e.start src ++ (e.text ++ weave e.stop es src) =
      rw (kept, back, replace_range) refl in
    let tail = e.text ++ weave e.stop es src in
    (
      ap (take pos) whole
          ∙ take-append pos (take e.start src) tail within
          ∙ take-take pos e.start src h,
      ap (drop pos) whole ∙ drop-append pos (take e.start src) tail within,
    )

no_overlap-Chain :
    (n pos : ℕ) (es : List ByteEdit)
    → pos ≤ n
    → ((e : ByteEdit) (fs : List ByteEdit) → es ≡ e ∷ fs → pos ≤ e.start)
    → has_overlap es ≡ false
    → All (λ e. (e.start ≤ e.stop) × (e.stop ≤ n)) es
    → Chain n pos es
unfolding has_overlap
no_overlap-Chain n pos [] h k o a = h
no_overlap-Chain n pos (e ∷ []) h k o a = (k e [] refl, a.0.0, a.0.1)
no_overlap-Chain n pos (e ∷ f ∷ fs) h k o (a, later) = (
  k e (f ∷ fs) refl,
  a.0,
  no_overlap-Chain n e.stop (f ∷ fs) a.1
      (λ g gs same.
        let head : f ≡ g = cc in subst (λ (x : ByteEdit). e.stop ≤ x.start) head (ground arith))
      (ground arith) later,
)

insert_by_start-All :
    (P : ByteEdit → Type 0) (e : ByteEdit) (fs : List ByteEdit)
    → P e
    → All P fs
    → All P (insert_by_start e fs)
unfolding insert_by_start
insert_by_start-All P e [] h k = (h, tt)
insert_by_start-All P e (f ∷ fs) h (k, ks) = elim (Bool-cases (leb e.start f.start)) [
  | inl early ↦ rw (early, insert_by_start) (h, (k, ks))
  | inr late ↦ rw (late, insert_by_start) (k, insert_by_start-All P e fs h ks)
]

sort_by_start-All :
    (P : ByteEdit → Type 0) (es : List ByteEdit) → All P es → All P (sort_by_start es)
unfolding sort_by_start
sort_by_start-All P [] h = tt
sort_by_start-All P (e ∷ es) (h, hs) =
    insert_by_start-All P e (sort_by_start es) h (sort_by_start-All P es hs)

-- When `apply_text_edits` succeeds, its result is the text with the edits, sorted by start, made from
-- left to right: each edit's text stands in place of its range, and what is between the ranges is kept.
pub apply_text_edits_weaves :
    (source out : Str) (edits : List TextEdit)
    → apply_text_edits source edits ≡ ok out
    → (es : List ByteEdit) × (to_byte_edits (line_starts source) source edits ≡ ok es)
      × (out ≡ weave 0 (sort_by_start es) source)
unfolding apply_text_edits splice_sorted
apply_text_edits_weaves source out edits h =
    elim (Result-cases (to_byte_edits (line_starts source) source edits)) [
      | inr (x, failed) ↦ absurd (cc (rw (failed, apply_text_edits) at h))
      | inl (es, made) ↦
          let sorted = sort_by_start es in
          elim (Bool-cases (has_overlap sorted)) [
            | inl clash ↦ absurd (cc (rw (made, apply_text_edits, clash) at h))
            | inr apart ↦
                let done : ok (splice_back sorted source) ≡ ok out =
                  rw (made, apply_text_edits, apart) at h in
                let fits =
                  sort_by_start-All (Fits (length source)) es
                    (to_byte_edits-Fits source edits es made) in
                let chain =
                  no_overlap-Chain (length source) 0 sorted (omega arith) (λ e fs same. omega arith)
                    apart fits in
                let same : splice_back sorted source ≡ out = cc in
                (es, made, sym same ∙ (splice_lem source 0 sorted chain).1)
          ]
    ]
