-- ===== src/Commit/UndoTests.antt =====
-- The rollback of a commit on a disk of two files.
use prolog_forge.Prelude.{
  [], ◌∷◌, none, true, false, ◌==◌, ◌≡◌, ◌≢◌, refl, sym, ◌∙◌, ap, subst, nat_eq, list_eq, list_beq,
  Str, bytes, map_get, map_insert, btree_insert, str_le, map_remove, Result, ok, err, inl, inr,
  elem, elem→In, is_distinct, filter_map,
}
use prolog_forge.Commit.Disk.{Disk, fine, write_file, rename_file, remove_file, read_file, join}
use prolog_forge.Commit.Apply.{
  ApplyStep, apply_transactional, apply_targets, select_targets, target_from, preflight_all,
  take_backups, write_loop, rollback, restore_all, collect_map, tmp_for,
}
use prolog_forge.Commit.Apply.Backups.{temps, paths}
use prolog_forge.Commit.Apply.Success.{Apart}
use prolog_forge.Commit.Journal
use prolog_forge.Commit.Journal.{
  CommitFile, CommitEntry, JournalEnv, entry_path, tmp_path, commit_files, new_entry_with_stats,
  schema_version, journal_dir,
}
use prolog_forge.Commit.Rollback
use prolog_forge.Commit.Rollback.{
  RollbackError, RollbackOutcome, shadow_from, original_from, preflight_files,
}
use prolog_forge.Commit.Rollback.Undo.{undo_target, file_paths, Changed}
use prolog_forge.Commit.Rollback.Restores.{RolledBack, rollback_restores}
use prolog_forge.Commit.Rollback.Refuses.{rollback_failed_restores}
use prolog_forge.Commit.Rollback.RoundTrip.{apply_rollback}
use prolog_forge.Commit.TestCodec.{codec, codec-Decodes}
use prolog_forge.Commit.Tests.{
  all_fine, root, nonce, disk, original, shadow, done_run, done_outcome, first, second,
  done_run_lem, targets_distinct, targets_lem, targets_apart, is_fine,
}

abbrev journal_env : JournalEnv
journal_env = record {
  create_dir = false;
  write = fine;
  rename = false;
  read = λ p. false;
  remove = false;
}

abbrev entry : CommitEntry
entry = new_entry_with_stats 7 nonce (bytes "label") (commit_files shadow original) [] none 2

abbrev stored_disk : Disk
stored_disk = (Journal.write codec journal_env root entry done_run.1).1

stored_lem : Journal.write codec journal_env root entry done_run.1 ≡ (ok tt, stored_disk)
unfolding Journal.write codec write_file rename_file map_get map_insert map_remove
    new_entry_with_stats entry_path tmp_path journal_dir join list_beq apply_transactional read_file
    tmp_for
stored_lem = refl

abbrev next_nonce : Str
next_nonce = bytes "m"

next_apart :
    (q : Str)
    → elem q (paths root (first ∷ second ∷ [])) ≡ true
    → elem q (temps root next_nonce (first ∷ second ∷ [])) ≡ false
unfolding join tmp_for list_beq elem
next_apart q h = elim (elem→In q (paths root (first ∷ second ∷ [])) h) [
  | inl same ↦
      subst (λ p. elem p (temps root next_nonce (first ∷ second ∷ [])) ≡ false) (sym same) refl
  | inr (inl same) ↦
      subst (λ p. elem p (temps root next_nonce (first ∷ second ∷ [])) ≡ false) (sym same) refl
  | inr (inr nowhere) ↦ absurd nowhere
]

entry_outside : elem (entry_path root nonce) (paths root (first ∷ second ∷ [])) ≡ false
unfolding entry_path journal_dir join list_beq elem
entry_outside = refl

tmp_outside : elem (tmp_path root nonce) (paths root (first ∷ second ∷ [])) ≡ false
unfolding entry_path tmp_path journal_dir join list_beq elem
tmp_outside = refl

apply_rollback_example :
    (done : RollbackOutcome) × (d₃ : Disk) × (Rollback.rollback codec all_fine journal_env
        (λ p. false)
        root
        next_nonce
        nonce
        stored_disk
      ≡ (ok done, d₃))
    × ((q : Str)
        → elem q (temps root nonce (select_targets shadow original)) ≡ false
        → elem q (temps root next_nonce (select_targets shadow original)) ≡ false
        → (entry_path root nonce == q) ≡ false
        → (tmp_path root nonce == q) ≡ false
        → map_get q d₃ ≡ map_get q disk)
apply_rollback_example =
    apply_rollback codec all_fine all_fine journal_env (λ p. false) root nonce next_nonce shadow
      original 7 (bytes "label") [] none 2 disk done_run.1 stored_disk done_outcome codec-Decodes
      targets_distinct
      (subst (λ ts. Apart all_fine root nonce [] disk ts ts) (sym targets_lem) targets_apart)
      (subst (λ ts. Apart all_fine root next_nonce [] disk ts ts) (sym targets_lem) next_apart)
      (subst (λ ts. elem (entry_path root nonce) (paths root ts) ≡ false) (sym targets_lem)
        entry_outside)
      (subst (λ ts. elem (tmp_path root nonce) (paths root ts) ≡ false) (sym targets_lem)
        tmp_outside)
      is_fine (λ p. refl) refl refl done_run_lem stored_lem

abbrev one_file : CommitFile
one_file = record { path = bytes "a"; before = bytes "1"; after = bytes "one" }

abbrev one_entry : CommitEntry
one_entry = new_entry_with_stats 7 nonce (bytes "label") (one_file ∷ []) [] none 1

abbrev one_disk : Disk
one_disk = (Journal.write codec journal_env root one_entry ((bytes "/r/a", bytes "one") ∷ [])).1

one_read : Journal.read codec journal_env root nonce one_disk ≡ ok one_entry
unfolding Journal.read Journal.write codec write_file rename_file map_get map_insert map_remove
    new_entry_with_stats entry_path tmp_path journal_dir join list_beq
one_read = refl

abbrev undone : RollbackOutcome
undone = record { commit_id = nonce; files_restored = 1; label = bytes "label" }

abbrev undone_disk : Disk
undone_disk =
    (Rollback.rollback codec all_fine journal_env (λ p. false) root next_nonce nonce one_disk).1

undone_lem :
    Rollback.rollback codec all_fine journal_env (λ p. false) root next_nonce nonce one_disk
    ≡ (ok undone, undone_disk)
unfolding Rollback.rollback Rollback.restore_entry Rollback.finish preflight_files shadow_from
    original_from btree_insert str_le Journal.read Journal.write Journal.delete codec write_file
    rename_file remove_file read_file map_get map_insert map_remove new_entry_with_stats entry_path
    tmp_path journal_dir join list_beq apply_transactional apply_targets select_targets target_from
    preflight_all take_backups write_loop rollback restore_all collect_map tmp_for filter_map
undone_lem = refl

one_file-Changed : Changed (one_file ∷ [])
unfolding list_beq
one_file-Changed f (inl same) e =
    let differ : bytes "1" ≢ bytes "one" = λ x. absurd (cc (ap (λ s. s == bytes "1") x)) in
    differ
      (ap (λ (g : CommitFile). g.before) (sym same) ∙ e ∙ ap (λ (g : CommitFile). g.after) same)
one_file-Changed f (inr nowhere) e = absurd nowhere

one_apart :
    (q : Str)
    → elem q (paths root (undo_target one_file ∷ [])) ≡ true
    → elem q (temps root next_nonce (undo_target one_file ∷ [])) ≡ false
unfolding join tmp_for list_beq elem
one_apart q h = elim (elem→In q (paths root (undo_target one_file ∷ [])) h) [
  | inl same ↦
      subst (λ p. elem p (temps root next_nonce (undo_target one_file ∷ [])) ≡ false) (sym same)
        refl
  | inr nowhere ↦ absurd nowhere
]

one_outside : elem (entry_path root nonce) (paths root (undo_target one_file ∷ [])) ≡ false
unfolding entry_path journal_dir join list_beq elem
one_outside = refl

one_distinct : is_distinct (file_paths (one_file ∷ [])) ≡ true
unfolding is_distinct elem
one_distinct = refl

one_different : is_distinct (paths root (undo_target one_file ∷ [])) ≡ true
unfolding is_distinct elem
one_different = refl

rollback_restores_example :
    RolledBack codec journal_env root next_nonce one_entry nonce one_disk undone_disk undone
unfolding new_entry_with_stats
rollback_restores_example =
    rollback_restores codec all_fine journal_env (λ p. false) root next_nonce one_entry nonce
      one_disk undone_disk undone one_read one_distinct one_file-Changed one_different one_apart
      one_outside undone_lem

-- The file has changed since the commit.
abbrev drifted_disk : Disk
drifted_disk = (Journal.write codec journal_env root one_entry ((bytes "/r/a", bytes "two") ∷ [])).1

drifted_read : Journal.read codec journal_env root nonce drifted_disk ≡ ok one_entry
unfolding Journal.read Journal.write codec write_file rename_file map_get map_insert map_remove
    new_entry_with_stats entry_path tmp_path journal_dir join list_beq
drifted_read = refl

abbrev drifted_run : Result RollbackError RollbackOutcome × Disk
drifted_run =
    Rollback.rollback codec all_fine journal_env (λ p. false) root next_nonce nonce drifted_disk

drifted_lem : drifted_run ≡ (err (Rollback.preflight ApplyStep.changed (bytes "a")), drifted_run.1)
unfolding Rollback.rollback Rollback.restore_entry preflight_files Journal.read Journal.write codec
    write_file rename_file read_file map_get map_insert map_remove new_entry_with_stats entry_path
    tmp_path journal_dir join list_beq
drifted_lem = refl

drifted_other :
    elem (bytes "/r/a") (
      temps root next_nonce
        (select_targets (shadow_from (one_file ∷ []) []) (original_from (one_file ∷ []) [])))
    ≡ false
unfolding select_targets target_from shadow_from original_from btree_insert str_le tmp_for join
    map_get filter_map list_beq elem
drifted_other = refl

rollback_failed_restores_example :
    map_get (bytes "/r/a") drifted_run.1 ≡ map_get (bytes "/r/a") drifted_disk
unfolding new_entry_with_stats
rollback_failed_restores_example =
    rollback_failed_restores codec all_fine journal_env (λ p. false) root next_nonce one_entry nonce
      drifted_disk drifted_run.1 (Rollback.preflight ApplyStep.changed (bytes "a")) (bytes "/r/a")
      drifted_read refl (λ p. refl) drifted_lem drifted_other
