-- ===== src/Commit/Rollback.antt =====
-- The rollback of a commit, crates/aa-core/src/rollback.rs. The new commit id and the outcomes of the file
-- calls are arguments.
pub mod Undo
pub mod Restores
pub mod Undoes
pub mod RoundTrip
pub mod Refuses
use prolog_forge.Prelude.{
  ℕ, List, [], ◌∷◌, Option, none, some, Bool, true, false, ◌==◌, nat_eq, list_eq, Str, Map,
  btree_insert, if◌then◌else◌, Result, ok, err,
}
use prolog_forge.Commit.Disk.{Disk, read_file, join}
use prolog_forge.Commit.Apply.{
  Env, ApplyStep, reading, changed, ApplyError, ApplyOutcome, apply_transactional,
}
use prolog_forge.Commit.Journal
use prolog_forge.Commit.Journal.{CommitFile, CommitEntry, JournalError, Codec, JournalEnv}

pub data RollbackError : Type 0 where
  journal : JournalError → RollbackError
  preflight : ApplyStep → Str → RollbackError
  apply : ApplyError → RollbackError
  io : RollbackError

pub record RollbackOutcome : Type 0 where
  pub commit_id : Str
  pub files_restored : ℕ
  pub label : Str

unfoldable pub preflight_file : CommitFile → Option Str → Option RollbackError
preflight_file f none = some (preflight reading f.path)
preflight_file f (some on_disk) =
    if on_disk == f.after then none else some (preflight changed f.path)

-- `none`: every file has on disk what the commit wrote.
unfoldable pub preflight_files : (Str → Bool) → Str → List CommitFile → Disk → Option RollbackError
unfolding preflight_file
preflight_files denied root [] d = none
preflight_files denied root (f ∷ fs) d =
    let rest = preflight_files denied root fs d in
    let p = join root f.path in
    elim (preflight_file f (read_file (denied p) p d)) [ some e ↦ some e | none ↦ rest ]

unfoldable pub shadow_from : List CommitFile → Map Str Str → Map Str Str
shadow_from [] m = m
shadow_from (f ∷ fs) m = shadow_from fs (btree_insert f.path f.before m)

unfoldable pub original_from : List CommitFile → Map Str Str → Map Str Str
original_from [] m = m
original_from (f ∷ fs) m = original_from fs (btree_insert f.path f.after m)

module _ (codec : Codec) (env : Env) (journal_env : JournalEnv) (denied : Str → Bool)
    (root nonce : Str) where
  unfoldable pub finish :
      CommitEntry
      → Str
      → Result ApplyError ApplyOutcome × Disk
      → Result RollbackError RollbackOutcome × Disk
  finish entry commit_id (err e, d) = (err (apply e), d)
  finish entry commit_id (ok out, d) =
      let (deleted, d') = Journal.delete codec journal_env root commit_id d in
      elim deleted [
        | err e ↦ (err (journal e), d')
        | ok done ↦ (
          ok (record {
            commit_id = entry.commit_id;
            files_restored = out.files_written;
            label = entry.label;
          }),
          d',
        )
      ]

  unfoldable pub restore_entry :
      CommitEntry → Str → Disk → Result RollbackError RollbackOutcome × Disk
  unfolding finish preflight_files shadow_from original_from
  restore_entry entry commit_id d = elim (preflight_files denied root entry.files d) [
    | some e ↦ (err e, d)
    | none ↦ finish entry commit_id (
        apply_transactional env root nonce (shadow_from entry.files [])
          (original_from entry.files []) d)
  ]

  unfoldable pub rollback : Str → Disk → Result RollbackError RollbackOutcome × Disk
  unfolding restore_entry
  rollback commit_id d = elim (Journal.read codec journal_env root commit_id d) [
    | err e ↦ (err (journal e), d)
    | ok entry ↦ restore_entry entry commit_id d
  ]
