-- ===== src/Commit/Rollback/RoundTrip.antt =====
-- A commit, its entry in the journal and its rollback: `handle_patch_apply` of
-- crates/aa-core/src/handlers.rs, then crates/aa-core/src/rollback.rs.
use prolog_forge.Prelude.{
  ℕ, ◌≡◌, refl, sym, ◌∙◌, subst, List, [], Option, some, Bool, true, false, ◌==◌, nat_eq, list_eq,
  Str, Map, map_get, arith, ==_iff, inl, inr, Bool-cases, In, In-map, In→elem, elem→In, elem,
  is_distinct, map, ok,
}
use prolog_forge.Commit.Disk.{Disk, join}
use prolog_forge.Commit.Apply.{Env, Target, ApplyOutcome, apply_transactional, select_targets}
use prolog_forge.Commit.Apply.Backups.{temps, paths}
use prolog_forge.Commit.Apply.Success.{Apart}
use prolog_forge.Commit.Apply.Commits.{apply_commits, select_targets_exact}
use prolog_forge.Commit.Apply.Total.{AllFine}
use prolog_forge.Commit.Journal
use prolog_forge.Commit.Journal.{
  CommitFile, CommitEntry, JournalError, Codec, JournalEnv, entry_path, tmp_path, commit_files,
  file_from, new_entry_with_stats, new_entry,
}
use prolog_forge.Commit.Journal.Stored.{Decodes, journal_round_trip, write_others}
use prolog_forge.Commit.Rollback.{RollbackOutcome, rollback}
use prolog_forge.Commit.Rollback.Undo.{Changed}
use prolog_forge.Commit.Rollback.Undoes.{
  to_file, commit_files_lem, In-map_of, undone_paths, undone_temps, rollback_undoes,
}

-- Once a commit has succeeded and its entry is in the journal, the rollback of the commit succeeds, when
-- the system carries out its calls, and leaves every file as it was before the commit, but for the
-- temporary files of the two and those of the entry. The targets stand at different paths, apart
-- from these files, and the JSON reader takes back what the writer made.
pub apply_rollback :
    (codec : Codec) (env env' : Env) (journal_env : JournalEnv) (denied : Str → Bool)
    (root nonce nonce' : Str) (shadow original : Map Str Str) (now : ℕ) (label : Str)
    (ops : List Str) (profile : Option Str) (n : ℕ) (d d₁ d₂ : Disk) (out : ApplyOutcome)
    → Decodes codec
    → is_distinct (paths root (select_targets shadow original)) ≡ true
    → Apart env root nonce [] d (select_targets shadow original) (select_targets shadow original)
    → Apart env' root nonce' [] d (select_targets shadow original) (select_targets shadow original)
    → elem (entry_path root out.commit_id) (paths root (select_targets shadow original)) ≡ false
    → elem (tmp_path root out.commit_id) (paths root (select_targets shadow original)) ≡ false
    → AllFine env'
    → ((p : Str) → denied p ≡ false)
    → journal_env.read (entry_path root out.commit_id) ≡ false
    → journal_env.remove ≡ false
    → apply_transactional env root nonce shadow original d ≡ (ok out, d₁)
    → Journal.write codec journal_env root
        (new_entry_with_stats now out.commit_id label (commit_files shadow original) ops profile n)
        d₁
      ≡ (ok tt, d₂)
    → (done : RollbackOutcome) × (d₃ : Disk) × (rollback codec env' journal_env denied root nonce'
          out.commit_id d₂
        ≡ (ok done, d₃))
      × ((q : Str)
          → elem q (temps root nonce (select_targets shadow original)) ≡ false
          → elem q (temps root nonce' (select_targets shadow original)) ≡ false
          → (entry_path root out.commit_id == q) ≡ false
          → (tmp_path root out.commit_id == q) ≡ false
          → map_get q d₃ ≡ map_get q d)
unfolding new_entry_with_stats new_entry
apply_rollback codec env env' journal_env denied root nonce nonce' shadow original now label ops
      profile n d d₁ d₂ out law different apart apart' outside outside' good open_files reads
      removes ran stored =
    let ts = select_targets shadow original in
    let fs = map to_file ts in
    let entry : CommitEntry = new_entry_with_stats now out.commit_id label fs ops profile n in
    let stored' : Journal.write codec journal_env root entry d₁ ≡ (ok tt, d₂) =
      subst
        (λ files.
          Journal.write codec journal_env root
            (new_entry_with_stats now out.commit_id label files ops profile n) d₁
          ≡ (ok tt, d₂))
        (commit_files_lem shadow original) stored in
    let c = apply_commits env root nonce shadow original d d₁ out different apart ran in
    let found = journal_round_trip codec journal_env root entry d₁ d₂ law refl reads stored' in
    let changed : Changed fs = λ f m.
      let (t, k, same) = In-map_of to_file f ts m in
      rw same (λ e. ((select_targets_exact shadow original t).0 k).2 e) in
    let among : (t : Target) → In t ts → elem (join root t.rel) (paths root ts) ≡ true =
      λ t k. In→elem (join root t.rel) (paths root ts) (In-map (λ t. join root t.rel) t ts k) in
    let kept : (q : Str) → elem q (paths root ts) ≡ true → map_get q d₂ ≡ map_get q d₁ = λ q k.
      write_others codec journal_env root entry d₁ d₂ q stored'
        (ground (arith, ==_iff (entry_path root out.commit_id) q))
        (ground (arith, ==_iff (tmp_path root out.commit_id) q)) in
    let has_after : (f : CommitFile) → In f fs → map_get (join root f.path) d₂ ≡ some f.after =
      λ f m.
        let (t, k, same) = In-map_of to_file f ts m in
        subst (λ (g : CommitFile). map_get (join root g.path) d₂ ≡ some g.after) (sym same)
          (kept (join root t.rel) (among t k) ∙ c.has_new t k) in
    let (answer, d₃, rolled, r) =
      rollback_undoes codec env' journal_env denied root nonce' entry out.commit_id ts d₂ refl found
        different changed apart' outside good open_files removes has_after in
    (
      answer,
      d₃,
      rolled,
      λ q not_temp not_temp' not_entry not_tmp. elim (Bool-cases (elem q (paths root ts))) [
        | inr other ↦
            r.others q (rw (undone_paths root ts) other)
              (rw (undone_temps root nonce' ts) not_temp') not_entry
            ∙ write_others codec journal_env root entry d₁ d₂ q stored' not_entry not_tmp
            ∙ c.others q other not_temp
        | inl target ↦
            let (t, k, same) =
              In-map_of (λ t. join root t.rel) q ts (elem→In q (paths root ts) target) in
            rw same (r.has_before (to_file t) (In-map to_file t ts k) ∙ sym (c.had_before t k))
      ],
    )
