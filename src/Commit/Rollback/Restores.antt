-- ===== src/Commit/Rollback/Restores.antt =====
-- What a rollback promises, crates/aa-core/src/rollback.rs.
use prolog_forge.Prelude.{
  ◌≡◌, refl, sym, ap, ◌∙◌, List, [], ◌∷◌, some, Bool, true, false, ◌==◌, nat_eq, list_eq, Str,
  length, map_get, arith, ==_iff, inl, inr, Option-cases, Result-cases, In, In-map, In→elem, elem,
  is_distinct, map, Result, ok, err, Reordered-map, Reordered-is_distinct, Reordered-elem,
  Reordered-In, Reordered-back, Reordered-length,
}
use prolog_forge.Commit.Disk.{Disk, join}
use prolog_forge.Commit.Apply.{
  Env, Target, ApplyError, ApplyOutcome, apply_transactional, select_targets, tmp_for,
}
use prolog_forge.Commit.Apply.Backups.{temps, paths}
use prolog_forge.Commit.Apply.Success.{Apart}
use prolog_forge.Commit.Apply.Commits.{Committed, apply_commits}
use prolog_forge.Commit.Journal
use prolog_forge.Commit.Journal.{
  CommitFile, CommitEntry, JournalError, Codec, JournalEnv, not_found, entry_path,
}
use prolog_forge.Commit.Journal.Stored.{delete_others, read_after_delete}
use prolog_forge.Commit.Rollback.{
  RollbackOutcome, rollback, restore_entry, finish, preflight_files, shadow_from, original_from,
}
use prolog_forge.Commit.Rollback.Undo.{undo_target, undo_targets, file_paths, Changed}

-- What a rollback that succeeds promises.
pub record RolledBack (codec : Codec) (journal_env : JournalEnv) (root nonce : Str)
    (entry : CommitEntry) (commit_id : Str) (d d' : Disk) (out : RollbackOutcome) : Type 0 where
  pub had_after : (f : CommitFile) → In f entry.files → map_get (join root f.path) d ≡ some f.after
  pub has_before :
      (f : CommitFile) → In f entry.files → map_get (join root f.path) d' ≡ some f.before
  pub others :
      (q : Str)
      → elem q (paths root (map undo_target entry.files)) ≡ false
      → elem q (temps root nonce (map undo_target entry.files)) ≡ false
      → (entry_path root commit_id == q) ≡ false
      → map_get q d' ≡ map_get q d
  pub restored : out.files_restored ≡ length entry.files
  pub label : out.label ≡ entry.label
  pub forgotten : Journal.read codec journal_env root commit_id d' ≡ err (not_found commit_id)

length-map : {A B : Type 0} (f : A → B) (xs : List A) → length (map f xs) ≡ length xs
length-map f [] = refl
length-map f (x ∷ xs) = omega (arith, length-map f xs)

module _ (codec : Codec) (env : Env) (journal_env : JournalEnv) (denied : Str → Bool)
    (root nonce : Str) (entry : CommitEntry) (commit_id : Str) where
  abbrev pub applied : Disk → Result ApplyError ApplyOutcome × Disk
  applied d =
      apply_transactional env root nonce (shadow_from entry.files []) (original_from entry.files [])
        d

  -- The end of a rollback that succeeds: the commit, then the removal of the entry.
  record Finished (r : Result ApplyError ApplyOutcome × Disk) (out : RollbackOutcome) (d' : Disk)
      : Type 0 where
    pub done : ApplyOutcome
    pub between : Disk
    pub ran : r ≡ (ok done, between)
    pub deleted : Journal.delete codec journal_env root commit_id between ≡ (ok tt, d')
    pub made : out ≡ record {
      commit_id = entry.commit_id;
      files_restored = done.files_written;
      label = entry.label;
    }

  finish-Finished :
      (r : Result ApplyError ApplyOutcome × Disk) (out : RollbackOutcome) (d' : Disk)
      → finish codec env journal_env denied root nonce entry commit_id r ≡ (ok out, d')
      → Finished r out d'
  unfolding finish
  finish-Finished (err e, d) out d' h = cc
  finish-Finished (ok done, d₁) out d' h =
      let gone = Journal.delete codec journal_env root commit_id d₁ in
      elim (Result-cases gone.0) [
        | inr (e, failed) ↦ absurd (cc (rw (failed, finish) at h))
        | inl (u, went) ↦
            let answer : RollbackOutcome = record {
              commit_id = entry.commit_id;
              files_restored = done.files_written;
              label = entry.label;
            } in
            let h' : (ok answer, gone.1) ≡ (ok out, d') = rw (went, finish) at h in
            let ends : gone.1 ≡ d' = ap (λ p. p.1) h' in
            let same : answer ≡ out = cc in
            record {
              done = done;
              between = d₁;
              ran = refl;
              deleted = ap (λ x. (x, gone.1)) went ∙ ap (λ x. (ok tt, x)) ends;
              made = sym same;
            }
      ]

  module _ (d d' : Disk) (out : RollbackOutcome) where
    rollback_steps :
        Journal.read codec journal_env root commit_id d ≡ ok entry
        → rollback codec env journal_env denied root nonce commit_id d ≡ (ok out, d')
        → finish codec env journal_env denied root nonce entry commit_id (applied d) ≡ (ok out, d')
    unfolding rollback restore_entry
    rollback_steps found h = elim (Option-cases (preflight_files denied root entry.files d)) [
      | inr (e, failed) ↦ absurd (cc (rw (found, failed, rollback, restore_entry) at h))
      | inl fits ↦ rw (found, fits, rollback, restore_entry) at h
    ]

    -- A rollback that succeeds, of an entry whose files changed and stand at different paths apart from
    -- the temporary files and the entry's own file, found at every file what the commit wrote, leaves
    -- what was there before the commit, touches no other file but its temporary ones and the entry's,
    -- counts the files, and leaves the commit unknown to the journal.
    pub rollback_restores :
        Journal.read codec journal_env root commit_id d ≡ ok entry
        → is_distinct (file_paths entry.files) ≡ true
        → Changed entry.files
        → is_distinct (paths root (map undo_target entry.files)) ≡ true
        → Apart env root nonce [] d (map undo_target entry.files) (map undo_target entry.files)
        → elem (entry_path root commit_id) (paths root (map undo_target entry.files)) ≡ false
        → rollback codec env journal_env denied root nonce commit_id d ≡ (ok out, d')
        → RolledBack codec journal_env root nonce entry commit_id d d' out
    rollback_restores found distinct changed different apart outside h =
        let fin = finish-Finished (applied d) out d' (rollback_steps found h) in
        let d₁ = fin.between in
        let same = undo_targets entry.files distinct changed in
        let ts = select_targets (shadow_from entry.files []) (original_from entry.files []) in
        let us = map undo_target entry.files in
        let same_paths = Reordered-map (λ (t : Target). join root t.rel) same in
        let same_temps = Reordered-map (λ (t : Target). tmp_for (join root t.rel) nonce) same in
        let c : Committed root nonce ts d d₁ fin.done =
          apply_commits env root nonce (shadow_from entry.files []) (original_from entry.files []) d
            d₁ fin.done (Reordered-is_distinct same_paths ∙ different)
            (λ q k. Reordered-elem q same_temps ∙ apart q (sym (Reordered-elem q same_paths) ∙ k))
            fin.ran in
        let there : (f : CommitFile) → In f entry.files → In (undo_target f) ts = λ f m.
          Reordered-In (undo_target f) (Reordered-back same) (In-map undo_target f entry.files m) in
        let kept : (q : Str)
            → (entry_path root commit_id == q) ≡ false
            → map_get q d' ≡ map_get q d₁ =
          λ q other.
            ap (λ r. map_get q r.1) (sym fin.deleted)
            ∙ delete_others codec journal_env root commit_id d₁ q other in
        record {
          had_after = λ f m. c.had_before (undo_target f) (there f m);
          has_before = λ f m.
              let listed : elem (join root f.path) (paths root (map undo_target entry.files))
                  ≡ true =
                In→elem (join root f.path) (paths root (map undo_target entry.files)) (
                  In-map (λ t. join root t.rel) (undo_target f) (map undo_target entry.files)
                    (In-map undo_target f entry.files m)) in
              let other : (entry_path root commit_id == join root f.path) ≡ false =
                ground (arith, ==_iff (entry_path root commit_id) (join root f.path)) in
              kept (join root f.path) other ∙ c.has_new (undo_target f) (there f m);
          others = λ q k n other.
              kept q other
              ∙ c.others q (Reordered-elem q same_paths ∙ k) (Reordered-elem q same_temps ∙ n);
          restored =
              ap (λ (o : RollbackOutcome). o.files_restored) fin.made
              ∙ c.files
              ∙ Reordered-length same
              ∙ length-map undo_target entry.files;
          label = ap (λ (o : RollbackOutcome). o.label) fin.made;
          forgotten = read_after_delete codec journal_env root commit_id d₁ d' fin.deleted;
        }
