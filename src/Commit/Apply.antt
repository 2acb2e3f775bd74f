-- ===== src/Commit/Apply.antt =====
-- The transactional apply, crates/aa-core/src/apply.rs. The commit id, which the code takes from the
-- clock, and the outcomes of the file operations are arguments. Texts in errors are left out: an error
-- names its step and its file.
pub mod Steps
pub mod Backups
pub mod Failure
pub mod Success
pub mod Commits
pub mod Total
use prolog_forge.Prelude.{
  ℕ, ◌+◌, List, [], ◌∷◌, ◌++◌, Option, none, some, Bool, true, false, ◌==◌, nat_eq, list_eq, Str,
  bytes, length, Map, map_get, map_insert, filter_map, if◌then◌else◌, Result, ok, err,
}
use prolog_forge.Commit.Disk.{
  Disk, WriteOutcome, write_file, rename_file, remove_file, read_file, join,
}

pub data ApplyStep : Type 0 where
  reading changed : ApplyStep

pub data RollbackStep : Type 0 where
  temp_write rename : RollbackStep

pub data ApplyError : Type 0 where
  preflight : ApplyStep → Str → ApplyError
  io : Str → ApplyError
  rolled_back : RollbackStep → Str → ApplyError

pub record ApplyOutcome : Type 0 where
  pub commit_id : Str
  pub files_written : ℕ
  pub bytes_written : ℕ

-- What the system does with each call, by the path that the call is about.
pub record Env : Type 0 where
  pub preflight_read : Str → Bool
  pub backup_read : Str → Bool
  pub temp_write : Str → WriteOutcome
  pub rename : Str → Bool
  pub remove : Str → Bool
  pub restore : Str → WriteOutcome

pub record Target : Type 0 where
  pub rel : Str
  pub before : Str
  pub new_content : Str

unfoldable pub target_from : Option Str → Str → Str → Option Target
target_from none rel new_content = none
target_from (some before) rel new_content =
    if before == new_content
    then none
    else some (record { rel = rel; before = before; new_content = new_content })

-- The files that change, in the order of the shadow map.
unfoldable pub select_targets : Map Str Str → Map Str Str → List Target
unfolding target_from filter_map
select_targets shadow original =
    filter_map (λ (e : Str × Str). target_from (map_get e.0 original) e.0 e.1) shadow

-- `file_name` with a suffix, beside the file. The path is taken to end in a file name.
unfoldable pub tmp_for : Str → Str → Str
tmp_for target nonce = target ++ bytes ".aa-tmp-" ++ nonce

-- The lookup map of `rollback`: of two entries for a path the later one counts.
unfoldable pub collect_map : List (Str × Str) → Map Str Str → Map Str Str
collect_map [] m = m
collect_map ((p, c) ∷ rest) m = collect_map rest (map_insert p c m)

module _ (env : Env) (root : Str) where
  preflight_one : Target → Option Str → Option ApplyError
  preflight_one t none = some (preflight reading t.rel)
  preflight_one t (some on_disk) =
      if on_disk == t.before then none else some (preflight changed t.rel)

  -- `none`: every target has on disk the contents that the plan was made for.
  unfoldable pub preflight_all : List Target → Disk → Option ApplyError
  unfolding preflight_one
  preflight_all [] d = none
  preflight_all (t ∷ ts) d =
      let rest = preflight_all ts d in
      let p = join root t.rel in
      elim (preflight_one t (read_file (env.preflight_read p) p d)) [
        | some e ↦ some e
        | none ↦ rest
      ]

  unfoldable pub take_backups : List Target → Disk → Result ApplyError (List (Str × Str))
  take_backups [] d = ok []
  take_backups (t ∷ ts) d =
      let p = join root t.rel in
      let rest = take_backups ts d in
      elim (read_file (env.backup_read p) p d) [
        | none ↦ err (io t.rel)
        | some content ↦ elim rest [ ok backups ↦ ok ((p, content) ∷ backups) | err e ↦ err e ]
      ]

  restore_one : Str → Option Str → Disk → Disk
  restore_one p none d = d
  restore_one p (some content) d = (write_file (env.restore p) p content d).1

  unfoldable pub restore_all : List Str → Map Str Str → Disk → Disk
  unfolding restore_one
  restore_all [] lookup d = d
  restore_all (p ∷ written) lookup d =
      restore_all written lookup (restore_one p (map_get p lookup) d)

  -- `rollback`.
  unfoldable pub rollback : List Str → List (Str × Str) → Disk → Disk
  unfolding collect_map restore_all
  rollback written backups d = restore_all written (collect_map backups []) d

  -- The write loop over the targets and their backups. It carries the paths and bytes written so far.
  unfoldable pub write_loop :
      Str
      → List (Str × Str)
      → List Target
      → List (Str × Str)
      → List Str
      → ℕ
      → Disk
      → Result ApplyError (List Str × ℕ) × Disk
  unfolding rollback
  write_loop nonce backups (t ∷ ts) ((target_path, backup) ∷ zipped) written total d =
      let tmp = tmp_for target_path nonce in
      let (wrote, d₁) = write_file (env.temp_write tmp) tmp t.new_content d in
      let (renamed, d₂) = rename_file (env.rename tmp) tmp target_path d₁ in
      let rest =
        write_loop nonce backups ts zipped (written ++ target_path ∷ [])
          (total + length t.new_content) d₂ in
      elim wrote [
        | false ↦ (
          err (rolled_back temp_write t.rel),
          remove_file (env.remove tmp) tmp (rollback written backups d₁),
        )
        | true ↦ elim renamed [
          | false ↦ (
            err (rolled_back rename t.rel),
            rollback written backups (remove_file (env.remove tmp) tmp d₂),
          )
          | true ↦ rest
        ]
      ]
  write_loop nonce backups _ _ written total d = (ok (written, total), d)

  finish : Str → Result ApplyError (List Str × ℕ) × Disk → Result ApplyError ApplyOutcome × Disk
  finish commit_id (err e, d) = (err e, d)
  finish commit_id (ok (written, total), d) = (
    ok (record { commit_id = commit_id; files_written = length written; bytes_written = total }),
    d,
  )

  -- The commit from the selected targets on.
  unfoldable pub apply_targets : Str → List Target → Disk → Result ApplyError ApplyOutcome × Disk
  unfolding preflight_all take_backups write_loop finish
  apply_targets commit_id targets d = elim (preflight_all targets d) [
    | some e ↦ (err e, d)
    | none ↦ elim (take_backups targets d) [
      | err e ↦ (err e, d)
      | ok backups ↦ finish commit_id (write_loop commit_id backups targets backups [] 0 d)
    ]
  ]

  unfoldable pub apply_transactional :
      Str → Map Str Str → Map Str Str → Disk → Result ApplyError ApplyOutcome × Disk
  unfolding select_targets apply_targets
  apply_transactional commit_id shadow original d =
      apply_targets commit_id (select_targets shadow original) d
