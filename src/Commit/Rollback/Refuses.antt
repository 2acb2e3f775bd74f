-- ===== src/Commit/Rollback/Refuses.antt =====
-- A rollback of crates/aa-core/src/rollback.rs that fails.
use prolog_forge.Prelude.{
  ◌≡◌, sym, ap, [], Bool, false, nat_eq, list_eq, Str, map_get, Option-cases, inl, inr, elem,
  Result, ok, err,
}
use prolog_forge.Commit.Disk.{Disk, fine}
use prolog_forge.Commit.Apply.{Env, ApplyError, ApplyOutcome, apply_transactional, select_targets}
use prolog_forge.Commit.Apply.Backups.{temps}
use prolog_forge.Commit.Apply.Failure.{apply_failed_restores}
use prolog_forge.Commit.Journal
use prolog_forge.Commit.Journal.{CommitEntry, JournalError, Codec, JournalEnv}
use prolog_forge.Commit.Journal.Stored.{delete_ok}
use prolog_forge.Commit.Rollback.{
  RollbackError, rollback, restore_entry, finish, preflight_files, shadow_from, original_from,
}

module _ (codec : Codec) (env : Env) (journal_env : JournalEnv) (denied : Str → Bool)
    (root nonce : Str) (entry : CommitEntry) (commit_id : Str) where
  finish_failed :
      (r : Result ApplyError ApplyOutcome × Disk) (e : RollbackError) (d' : Disk)
      → journal_env.remove ≡ false
      → finish codec env journal_env denied root nonce entry commit_id r ≡ (err e, d')
      → (x : ApplyError) × (r ≡ (err x, d'))
  unfolding finish
  finish_failed (err x, d) e d' removes h = (x, ap (λ p. (err x, p.1)) h)
  finish_failed (ok done, d) e d' removes h =
      let gone = delete_ok codec journal_env root commit_id d removes in
      absurd (cc (rw (gone, finish) at h))

  -- When the rollback of an entry fails, and the system would remove the entry's file and carries out every
  -- write of the undo, each path but the temporary files has what it had before.
  pub rollback_failed_restores :
      (d d' : Disk) (e : RollbackError) (q : Str)
      → Journal.read codec journal_env root commit_id d ≡ ok entry
      → journal_env.remove ≡ false
      → ((p : Str) → env.restore p ≡ fine)
      → rollback codec env journal_env denied root nonce commit_id d ≡ (err e, d')
      → elem q (
          temps root nonce
            (select_targets (shadow_from entry.files []) (original_from entry.files [])))
        ≡ false
      → map_get q d' ≡ map_get q d
  unfolding rollback restore_entry
  rollback_failed_restores d d' e q found removes restores h out =
      elim (Option-cases (preflight_files denied root entry.files d)) [
        | inr (x, failed) ↦
            let stopped : (err x, d) ≡ (err e, d') =
              rw (found, failed, rollback, restore_entry) at h in
            ap (λ p. map_get q p.1) (sym stopped)
        | inl fits ↦
            let ended = rw (found, fits, rollback, restore_entry) at h in
            let (x, ran) =
              finish_failed
                (apply_transactional env root nonce (shadow_from entry.files [])
                  (original_from entry.files []) d)
                e d' removes ended in
            apply_failed_restores env root nonce (shadow_from entry.files [])
              (original_from entry.files []) d d' x q restores ran out
      ]
