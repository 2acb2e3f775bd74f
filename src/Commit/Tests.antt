-- ===== src/Commit/Tests.antt =====
-- Commits on a disk of two files.
use prolog_forge.Prelude.{
  [], ◌∷◌, some, true, false, ◌==◌, ◌≡◌, refl, sym, subst, nat_eq, list_eq, list_beq, Str, bytes,
  Map, map_get, map_insert, map_remove, Result, ok, err, inl, inr, elem, elem→In, is_distinct,
  filter_map,
}
use prolog_forge.Commit.Disk.{Disk, fine, write_file, rename_file, remove_file, read_file, join}
use prolog_forge.Commit.Apply.{
  Env, Target, ApplyError, rolled_back, RollbackStep, ApplyOutcome, apply_transactional,
  apply_targets, select_targets, preflight_all, take_backups, write_loop, rollback, restore_all,
  collect_map, tmp_for,
}
use prolog_forge.Commit.Apply.Backups.{temps, paths}
use prolog_forge.Commit.Apply.Failure.{apply_failed_restores}
use prolog_forge.Commit.Apply.Success.{Apart}
use prolog_forge.Commit.Apply.Commits.{Committed, apply_commits}
use prolog_forge.Commit.Apply.Total.{AllFine, Fresh, apply_succeeds}

abbrev pub all_fine : Env
all_fine = record {
  preflight_read = λ p. false;
  backup_read = λ p. false;
  temp_write = λ p. fine;
  rename = λ p. false;
  remove = λ p. false;
  restore = λ p. fine;
}

abbrev pub root : Str
root = bytes "/r"

abbrev pub nonce : Str
nonce = bytes "n"

-- The system refuses the rename onto the second file.
abbrev second_refused : Env
second_refused = record {
  preflight_read = λ p. false;
  backup_read = λ p. false;
  temp_write = λ p. fine;
  rename = λ p. p == bytes "/r/b.aa-tmp-n";
  remove = λ p. false;
  restore = λ p. fine;
}

abbrev pub disk : Disk
disk = (bytes "/r/a", bytes "1") ∷ (bytes "/r/b", bytes "2") ∷ (bytes "/r/c", bytes "3") ∷ []

abbrev pub original : Map Str Str
original = (bytes "a", bytes "1") ∷ (bytes "b", bytes "2") ∷ (bytes "c", bytes "3") ∷ []

abbrev pub shadow : Map Str Str
shadow = (bytes "a", bytes "one") ∷ (bytes "b", bytes "two") ∷ (bytes "c", bytes "3") ∷ []

abbrev failed_run : Result ApplyError ApplyOutcome × Disk
failed_run = apply_transactional second_refused root nonce shadow original disk

failed_run_lem : failed_run ≡ (err (rolled_back RollbackStep.rename (bytes "b")), failed_run.1)
unfolding apply_transactional apply_targets select_targets preflight_all take_backups write_loop
    rollback restore_all collect_map tmp_for write_file rename_file remove_file read_file join
    map_get map_insert map_remove filter_map list_beq
failed_run_lem = refl

other_path : elem (bytes "/r/a") (temps root nonce (select_targets shadow original)) ≡ false
unfolding select_targets tmp_for join map_get filter_map list_beq elem
other_path = refl

apply_failed_restores_example : map_get (bytes "/r/a") failed_run.1 ≡ map_get (bytes "/r/a") disk
apply_failed_restores_example =
    apply_failed_restores second_refused root nonce shadow original disk failed_run.1
      (rolled_back RollbackStep.rename (bytes "b")) (bytes "/r/a") (λ p. refl) failed_run_lem
      other_path

abbrev pub first : Target
first = record { rel = bytes "a"; before = bytes "1"; new_content = bytes "one" }

abbrev pub second : Target
second = record { rel = bytes "b"; before = bytes "2"; new_content = bytes "two" }

pub targets_lem : select_targets shadow original ≡ first ∷ second ∷ []
unfolding select_targets map_get filter_map list_beq
targets_lem = refl

files_as_planned : Fresh root disk (first ∷ second ∷ [])
unfolding join map_get list_beq
files_as_planned t (inl same) =
    subst (λ (x : Target). map_get (join root x.rel) disk ≡ some x.before) (sym same) refl
files_as_planned t (inr (inl same)) =
    subst (λ (x : Target). map_get (join root x.rel) disk ≡ some x.before) (sym same) refl
files_as_planned t (inr (inr nowhere)) = absurd nowhere

pub is_fine : AllFine all_fine
is_fine = record {
  preflight_reads = λ p. refl;
  backup_reads = λ p. refl;
  temp_writes = λ p. refl;
  renames = λ p. refl;
}

apply_succeeds_example :
    (out : ApplyOutcome) × (d' : Disk) × (apply_transactional all_fine root nonce shadow original
        disk
      ≡ (ok out, d'))
apply_succeeds_example =
    apply_succeeds all_fine root nonce shadow original disk is_fine
      (subst (λ ts. Fresh root disk ts) (sym targets_lem) files_as_planned)

abbrev pub done_run : Result ApplyError ApplyOutcome × Disk
done_run = apply_transactional all_fine root nonce shadow original disk

abbrev pub done_outcome : ApplyOutcome
done_outcome = record { commit_id = nonce; files_written = 2; bytes_written = 6 }

pub done_run_lem : done_run ≡ (ok done_outcome, done_run.1)
unfolding apply_transactional apply_targets select_targets preflight_all take_backups write_loop
    rollback restore_all collect_map tmp_for write_file rename_file remove_file read_file join
    map_get map_insert map_remove filter_map list_beq
done_run_lem = refl

pub targets_distinct : is_distinct (paths root (select_targets shadow original)) ≡ true
unfolding select_targets join map_get filter_map list_beq is_distinct elem
targets_distinct = refl

pub targets_apart :
    (q : Str)
    → elem q (paths root (first ∷ second ∷ [])) ≡ true
    → elem q (temps root nonce (first ∷ second ∷ [])) ≡ false
unfolding join tmp_for list_beq elem
targets_apart q h = elim (elem→In q (paths root (first ∷ second ∷ [])) h) [
  | inl same ↦ subst (λ p. elem p (temps root nonce (first ∷ second ∷ [])) ≡ false) (sym same) refl
  | inr (inl same) ↦
      subst (λ p. elem p (temps root nonce (first ∷ second ∷ [])) ≡ false) (sym same) refl
  | inr (inr nowhere) ↦ absurd nowhere
]

apply_commits_example :
    Committed root nonce (select_targets shadow original) disk done_run.1 done_outcome
apply_commits_example =
    apply_commits all_fine root nonce shadow original disk done_run.1 done_outcome targets_distinct
      (subst (λ ts. Apart all_fine root nonce [] disk ts ts) (sym targets_lem) targets_apart)
      done_run_lem
