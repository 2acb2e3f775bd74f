-- ===== src/Commit/TestCodec.antt =====
-- A writer and reader of journal entries for the tests: each text after its length.
use prolog_forge.Prelude.{
  ℕ, zero, suc, ◌≡◌, refl, sym, ap, ◌∙◌, List, [], ◌∷◌, ◌++◌, Option, none, some, Str, length, take,
  drop,
}
use prolog_forge.Commit.Journal.{CommitFile, CommitEntry, Codec}
use prolog_forge.Commit.Journal.Stored.{Decodes}

put : Str → Str → Str
put s rest = length s ∷ (s ++ rest)

got : Str → Str × Str
got [] = ([], [])
got (n ∷ xs) = (take n xs, drop n xs)

take_all : (s rest : Str) → take (length s) (s ++ rest) ≡ s
take_all [] rest = refl
take_all (c ∷ s) rest = ap (λ r. c ∷ r) (take_all s rest)

drop_all : (s rest : Str) → drop (length s) (s ++ rest) ≡ rest
drop_all [] rest = refl
drop_all (c ∷ s) rest = drop_all s rest

put_files : List CommitFile → Str → Str
unfolding put
put_files [] rest = rest
put_files (f ∷ fs) rest = put f.path (put f.before (put f.after (put_files fs rest)))

got_files : ℕ → Str → List CommitFile × Str
unfolding got
got_files zero xs = ([], xs)
got_files (suc n) xs =
    let (path, xs₁) = got xs in
    let (before, xs₂) = got xs₁ in
    let (after, xs₃) = got xs₂ in
    let (fs, xs₄) = got_files n xs₃ in
    (record { path = path; before = before; after = after } ∷ fs, xs₄)

got_files-put_files :
    (fs : List CommitFile) (rest : Str) → got_files (length fs) (put_files fs rest) ≡ (fs, rest)
unfolding got_files put_files got put
got_files-put_files [] rest = refl
got_files-put_files (f ∷ fs) rest =
    rw
      (
        take_all f.path (put f.before (put f.after (put_files fs rest))),
        drop_all f.path (put f.before (put f.after (put_files fs rest))),
        take_all f.before (put f.after (put_files fs rest)),
        drop_all f.before (put f.after (put_files fs rest)),
        take_all f.after (put_files fs rest),
        drop_all f.after (put_files fs rest),
        got_files-put_files fs rest,
      )
      refl

put_texts : List Str → Str → Str
unfolding put
put_texts [] rest = rest
put_texts (s ∷ ss) rest = put s (put_texts ss rest)

got_texts : ℕ → Str → List Str × Str
unfolding got
got_texts zero xs = ([], xs)
got_texts (suc n) xs = let (s, xs₁) = got xs in let (ss, xs₂) = got_texts n xs₁ in (s ∷ ss, xs₂)

got_texts-put_texts :
    (ss : List Str) (rest : Str) → got_texts (length ss) (put_texts ss rest) ≡ (ss, rest)
unfolding got_texts put_texts got put
got_texts-put_texts [] rest = refl
got_texts-put_texts (s ∷ ss) rest =
    rw (take_all s (put_texts ss rest), drop_all s (put_texts ss rest), got_texts-put_texts ss rest)
      refl

put_profile : Option Str → Str
put_profile none = []
put_profile (some s) = 1 ∷ s

got_profile : Str → Option Str
got_profile [] = none
got_profile (n ∷ s) = some s

got_profile-put_profile : (o : Option Str) → got_profile (put_profile o) ≡ o
unfolding got_profile put_profile
got_profile-put_profile none = refl
got_profile-put_profile (some s) = refl

encoded : CommitEntry → Str
unfolding put put_files put_texts put_profile
encoded e =
    e.schema
    ∷ e.timestamp_unix
    ∷ e.total_replacements
    ∷ length e.files
    ∷ length e.ops_summary
    ∷ put e.commit_id (
        put e.label
          (put_files e.files (put_texts e.ops_summary (put_profile e.validation_profile))))

decoded : Str → Option CommitEntry
unfolding got got_files got_texts got_profile
decoded (schema ∷ now ∷ total ∷ files ∷ ops ∷ xs) =
    let (commit_id, xs₁) = got xs in
    let (label, xs₂) = got xs₁ in
    let (fs, xs₃) = got_files files xs₂ in
    let (ss, xs₄) = got_texts ops xs₃ in
    some (record {
      schema = schema;
      commit_id = commit_id;
      timestamp_unix = now;
      label = label;
      files = fs;
      ops_summary = ss;
      validation_profile = got_profile xs₄;
      total_replacements = total;
    })
decoded _ = none

unfoldable pub codec : Codec
unfolding encoded decoded
codec = record { encode = λ e. some (encoded e); decode = decoded }

decoded-encoded : (e : CommitEntry) → decoded (encoded e) ≡ some e
unfolding decoded encoded got put
decoded-encoded e =
    let profile = put_profile e.validation_profile in
    rw
      (
        take_all e.commit_id (put e.label (put_files e.files (put_texts e.ops_summary profile))),
        drop_all e.commit_id (put e.label (put_files e.files (put_texts e.ops_summary profile))),
        take_all e.label (put_files e.files (put_texts e.ops_summary profile)),
        drop_all e.label (put_files e.files (put_texts e.ops_summary profile)),
        got_files-put_files e.files (put_texts e.ops_summary profile),
        got_texts-put_texts e.ops_summary profile,
        got_profile-put_profile e.validation_profile,
      )
      refl

pub codec-Decodes : Decodes codec
unfolding codec
codec-Decodes entry content h =
    let same : encoded entry ≡ content = cc in ap decoded (sym same) ∙ decoded-encoded entry
