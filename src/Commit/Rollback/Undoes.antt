-- ===== src/Commit/Rollback/Undoes.antt =====
-- The rollback, crates/aa-core/src/rollback.rs, of the entry of a commit, step by step.
use prolog_forge.Prelude.{
  ◌≡◌, refl, sym, ap, ◌∙◌, subst, List, [], ◌∷◌, none, some, Bool, true, false, ◌==◌, nat_eq,
  list_eq, Str, Map, map_get, arith, ==_iff, inl, inr, Option-cases, Bool-cases, In, In-map,
  In→elem, elem→In, elem, is_distinct, map, filter_map, ok, Reordered-In,
}
use prolog_forge.Commit.Disk.{Disk, join, read_file}
use prolog_forge.Commit.Apply.{
  Env, Target, ApplyOutcome, apply_transactional, select_targets, target_from, tmp_for,
}
use prolog_forge.Commit.Apply.Backups.{temps, paths}
use prolog_forge.Commit.Apply.Success.{Apart}
use prolog_forge.Commit.Apply.Total.{AllFine, apply_succeeds}
use prolog_forge.Commit.Journal
use prolog_forge.Commit.Journal.{
  CommitFile, CommitEntry, JournalError, Codec, JournalEnv, entry_path, tmp_path, commit_files,
  file_from, new_entry_with_stats, new_entry,
}
use prolog_forge.Commit.Journal.Stored.{delete_ok}
use prolog_forge.Commit.Rollback.{
  RollbackOutcome, rollback, restore_entry, finish, preflight_files, preflight_file, shadow_from,
  original_from,
}
use prolog_forge.Commit.Rollback.Undo.{undo_target, undo_targets, file_paths, Changed}
use prolog_forge.Commit.Rollback.Restores.{RolledBack, rollback_restores}

abbrev pub to_file : Target → CommitFile
to_file t = record { path = t.rel; before = t.before; after = t.new_content }

-- The entry of a commit lists the commit's targets.
pub commit_files_lem :
    (shadow original : Map Str Str)
    → commit_files shadow original ≡ map to_file (select_targets shadow original)
unfolding commit_files select_targets filter_map file_from target_from
commit_files_lem [] original = refl
commit_files_lem ((rel, c) ∷ shadow) original =
    let rest = commit_files_lem shadow original in
    elim (Option-cases (map_get rel original)) [
      | inl missing ↦ rw missing rest
      | inr (before, found) ↦ elim (Bool-cases (before == c)) [
        | inl same ↦ rw (found, same) rest
        | inr other ↦
            rw (found, other)
              (ap (λ fs. record { path = rel; before = before; after = c } ∷ fs) rest)
      ]
    ]

is_distinct-map :
    (f : Str → Str) (xs : List Str) → is_distinct (map f xs) ≡ true → is_distinct xs ≡ true
unfolding is_distinct
is_distinct-map f [] h = refl
is_distinct-map f (x ∷ xs) h = elim (Bool-cases (elem x xs)) [
  | inl there ↦
      let moved = In→elem (f x) (map f xs) (In-map f x xs (elem→In x xs there)) in
      absurd (ground arith)
  | inr out ↦ ground (arith, is_distinct-map f xs)
]

map-map :
    {A B C : Type 0} (g : B → C) (f : A → B) (xs : List A)
    → map g (map f xs) ≡ map (λ x. g (f x)) xs
map-map g f [] = refl
map-map g f (x ∷ xs) = ap (λ ys. g (f x) ∷ ys) (map-map g f xs)

pub In-map_of :
    {A B : Type 0} (f : A → B) (b : B) (xs : List A)
    → In b (map f xs)
    → (a : A) × In a xs × (b ≡ f a)
In-map_of f b [] m = elim m [ ]
In-map_of f b (x ∷ xs) (inl same) = (x, inl refl, same)
In-map_of f b (x ∷ xs) (inr m) = let (a, k, e) = In-map_of f b xs m in (a, inr k, e)

pub undone_paths :
    (root : Str) (ts : List Target) → paths root (map undo_target (map to_file ts)) ≡ paths root ts
undone_paths root [] = refl
undone_paths root (t ∷ ts) = ap (λ ps. join root t.rel ∷ ps) (undone_paths root ts)

pub undone_temps :
    (root nonce : Str) (ts : List Target)
    → temps root nonce (map undo_target (map to_file ts)) ≡ temps root nonce ts
undone_temps root nonce ts =
    sym (map-map _ _ (map undo_target (map to_file ts)))
    ∙ ap (map (λ p. tmp_for p nonce)) (undone_paths root ts)
    ∙ map-map _ _ ts

joined_paths :
    (root : Str) (ts : List Target) → map (join root) (file_paths (map to_file ts)) ≡ paths root ts
joined_paths root [] = refl
joined_paths root (t ∷ ts) = ap (λ ps. join root t.rel ∷ ps) (joined_paths root ts)

preflight_files_pass :
    (denied : Str → Bool) (root : Str) (fs : List CommitFile) (d : Disk)
    → ((p : Str) → denied p ≡ false)
    → ((f : CommitFile) → In f fs → map_get (join root f.path) d ≡ some f.after)
    → preflight_files denied root fs d ≡ none
unfolding preflight_files preflight_file read_file
preflight_files_pass denied root [] d reads h = refl
preflight_files_pass denied root (f ∷ fs) d reads h =
    let same : (f.after == f.after) ≡ true = ground (arith, ==_iff f.after f.after) in
    let p = join root f.path in
    let found : read_file (denied p) p d ≡ some f.after = ground (arith, reads p, h f (inl refl)) in
    rw (found, preflight_files, same)
      (preflight_files_pass denied root fs d reads (λ g m. h g (inr m)))

module _ (codec : Codec) (env : Env) (journal_env : JournalEnv) (denied : Str → Bool)
    (root nonce : Str) (entry : CommitEntry) (commit_id : Str) (d d₁ : Disk)
    (done : ApplyOutcome) where
  rollback_runs :
      Journal.read codec journal_env root commit_id d ≡ ok entry
      → preflight_files denied root entry.files d ≡ none
      → apply_transactional env root nonce
          (shadow_from entry.files [])
          (original_from entry.files [])
          d
        ≡ (ok done, d₁)
      → journal_env.remove ≡ false
      → (out : RollbackOutcome) × (d₂ : Disk) × (rollback codec env journal_env denied root nonce
            commit_id d
          ≡ (ok out, d₂))
  unfolding rollback restore_entry finish
  rollback_runs found fits ran removes =
      let gone = delete_ok codec journal_env root commit_id d₁ removes in
      (
        record {
          commit_id = entry.commit_id;
          files_restored = done.files_written;
          label = entry.label;
        },
        (Journal.delete codec journal_env root commit_id d₁).1,
        rw (found, fits, ran, gone, rollback, restore_entry, finish) refl,
      )

-- The rollback of an entry whose files are a commit's targets, each with the new contents on the disk,
-- succeeds and keeps its promises.
pub rollback_undoes :
    (codec : Codec) (env : Env) (journal_env : JournalEnv) (denied : Str → Bool) (root nonce : Str)
    (entry : CommitEntry) (commit_id : Str) (ts : List Target) (d : Disk)
    → entry.files ≡ map to_file ts
    → Journal.read codec journal_env root commit_id d ≡ ok entry
    → is_distinct (paths root ts) ≡ true
    → Changed (map to_file ts)
    → Apart env root nonce [] d ts ts
    → elem (entry_path root commit_id) (paths root ts) ≡ false
    → AllFine env
    → ((p : Str) → denied p ≡ false)
    → journal_env.remove ≡ false
    → ((f : CommitFile) → In f (map to_file ts) → map_get (join root f.path) d ≡ some f.after)
    → (answer : RollbackOutcome) × (d' : Disk) × (rollback codec env journal_env denied root nonce
          commit_id d
        ≡ (ok answer, d'))
      × RolledBack codec journal_env root nonce entry commit_id d d' answer
rollback_undoes codec env journal_env denied root nonce entry commit_id ts d files found different
      changed apart outside good open_files removes has_after =
    let fs = map to_file ts in
    let distinct : is_distinct (file_paths fs) ≡ true =
      is_distinct-map (join root) (file_paths fs) (rw (joined_paths root ts) different) in
    let same_targets = undo_targets fs distinct changed in
    let (done, d', applied) =
      apply_succeeds env root nonce (shadow_from fs []) (original_from fs []) d good (λ t m.
        let (f, k, same) = In-map_of undo_target t fs (Reordered-In t same_targets m) in
        subst (λ (u : Target). map_get (join root u.rel) d ≡ some u.before) (sym same)
          (has_after f k)) in
    let fits : preflight_files denied root entry.files d ≡ none =
      ap (λ gs. preflight_files denied root gs d) files
      ∙ preflight_files_pass denied root fs d open_files has_after in
    let applied' : apply_transactional env root nonce (shadow_from entry.files [])
          (original_from entry.files []) d
        ≡ (ok done, d') =
      ap (λ gs. apply_transactional env root nonce (shadow_from gs []) (original_from gs []) d)
        files
      ∙ applied in
    let (answer, d₂, rolled) =
      rollback_runs codec env journal_env denied root nonce entry commit_id d d' done found fits
        applied' removes in
    let outside' : elem (entry_path root commit_id) (paths root (map undo_target fs)) ≡ false =
      rw (undone_paths root ts) outside in
    let different' : is_distinct (paths root (map undo_target fs)) ≡ true =
      rw (undone_paths root ts) different in
    let apart' : Apart env root nonce [] d (map undo_target fs) (map undo_target fs) =
      λ q k. rw (undone_temps root nonce ts) (apart q (rw (undone_paths root ts) at k)) in
    (
      answer,
      d₂,
      rolled,
      rollback_restores codec env journal_env denied root nonce entry commit_id d d₂ answer found
          (ap (λ gs. is_distinct (file_paths gs)) files ∙ distinct)
          (subst Changed (sym files) changed)
          (ap (λ gs. is_distinct (paths root (map undo_target gs))) files ∙ different')
          (subst (λ gs. Apart env root nonce [] d (map undo_target gs) (map undo_target gs))
            (sym files) apart')
          (ap (λ gs. elem (entry_path root commit_id) (paths root (map undo_target gs))) files
            ∙ outside')
          rolled,
    )
