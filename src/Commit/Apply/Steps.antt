-- ===== src/Commit/Apply/Steps.antt =====
-- The write loop of crates/aa-core/src/apply.rs, one round at a time, and the backups that it works with.
use prolog_forge.Prelude.{
  ℕ, ◌+◌, List, [], ◌∷◌, ◌++◌, none, some, Bool, true, false, ◌≡◌, refl, arith, nat_eq, list_eq,
  Str, length, map_get, Result, ok, err, Option-cases, Result-cases, inl, inr,
}
use prolog_forge.Commit.Disk.{Disk, write_file, rename_file, remove_file, read_file, join}
use prolog_forge.Commit.Apply.{
  Env, Target, ApplyError, rolled_back, temp_write, rename, tmp_for, rollback, write_loop,
  take_backups, preflight_all, apply_targets, ApplyOutcome,
}

module _ (env : Env) (root nonce : Str) (backups : List (Str × Str)) (t : Target) (ts : List Target)
    (p c : Str) (zipped : List (Str × Str)) (written : List Str) (total : ℕ) (d : Disk) where
  abbrev pub tmp : Str
  tmp = tmp_for p nonce

  abbrev pub after_write : Disk
  after_write = (write_file (env.temp_write tmp) tmp t.new_content d).1

  abbrev pub after_rename : Disk
  after_rename = (rename_file (env.rename tmp) tmp p after_write).1

  abbrev pub looped : Result ApplyError (List Str × ℕ) × Disk
  looped = write_loop env root nonce backups (t ∷ ts) ((p, c) ∷ zipped) written total d

  pub loop_write_failed :
      (write_file (env.temp_write tmp) tmp t.new_content d).0 ≡ false
      → looped ≡ (
        err (rolled_back temp_write t.rel),
        remove_file (env.remove tmp) tmp (rollback env root written backups after_write),
      )
  unfolding write_loop
  loop_write_failed h = rw (h, write_loop)

  pub loop_rename_failed :
      (write_file (env.temp_write tmp) tmp t.new_content d).0 ≡ true
      → (rename_file (env.rename tmp) tmp p after_write).0 ≡ false
      → looped ≡ (
        err (rolled_back rename t.rel),
        rollback env root written backups (remove_file (env.remove tmp) tmp after_rename),
      )
  unfolding write_loop
  loop_rename_failed h k = rw (h, k, write_loop)

  pub loop_next :
      (write_file (env.temp_write tmp) tmp t.new_content d).0 ≡ true
      → (rename_file (env.rename tmp) tmp p after_write).0 ≡ true
      → looped
        ≡ write_loop env root nonce backups ts zipped
            (written ++ p ∷ [])
            (total + length t.new_content)
            after_rename
  unfolding write_loop
  loop_next h k = rw (h, k, write_loop)

pub write_loop_nil :
    (env : Env) (root nonce : Str) (backups : List (Str × Str)) (written : List Str) (total : ℕ)
    (d : Disk)
    → write_loop env root nonce backups [] [] written total d ≡ (ok (written, total), d)
unfolding write_loop
write_loop_nil env root nonce backups written total d = refl

-- Each backup is of its target, with the contents that the disk has.
abbrev pub BackedUp : Str → Disk → List Target → List (Str × Str) → Type 0
BackedUp root d [] [] = Unit
BackedUp root d (t ∷ ts) ((p, c) ∷ bs) =
    (p ≡ join root t.rel) × (map_get p d ≡ some c) × BackedUp root d ts bs
BackedUp root d _ _ = ⊥

read_file_found :
    (refused : Bool) (p c : Str) (d : Disk) → read_file refused p d ≡ some c → map_get p d ≡ some c
unfolding read_file
read_file_found refused p c d h = ground arith

pub take_backups-BackedUp :
    (env : Env) (root : Str) (ts : List Target) (d : Disk) (bs : List (Str × Str))
    → take_backups env root ts d ≡ ok bs
    → BackedUp root d ts bs
unfolding take_backups
take_backups-BackedUp env root [] d [] h = tt
take_backups-BackedUp env root [] d (b ∷ bs) h = cc
take_backups-BackedUp env root (t ∷ ts) d bs h =
    elim (Option-cases (read_file (env.backup_read (join root t.rel)) (join root t.rel) d)) [
      | inl missing ↦ absurd (cc (rw (missing, take_backups) at h))
      | inr (c, found) ↦ elim (Result-cases (take_backups env root ts d)) [
        | inl (rest, done) ↦
            let h' = rw (found, done, take_backups) at h in
            let same : bs ≡ (join root t.rel, c) ∷ rest = cc in
            rw same (
              refl,
              read_file_found (env.backup_read (join root t.rel)) (join root t.rel) c d found,
              take_backups-BackedUp env root ts d rest done,
            )
        | inr (e, failed) ↦ absurd (cc (rw (found, failed, take_backups) at h))
      ]
    ]

-- The three ways through a commit: a check fails, the loop fails, or it ends.
pub data Run (env : Env) (root nonce : Str) (ts : List Target) (d : Disk)
    (r : Result ApplyError ApplyOutcome × Disk) : Type 0 where
  refused : (e : ApplyError) → r ≡ (err e, d) → Run env root nonce ts d r
  undone :
      (bs : List (Str × Str)) (e : ApplyError) (d' : Disk)
      → take_backups env root ts d ≡ ok bs
      → write_loop env root nonce bs ts bs [] 0 d ≡ (err e, d')
      → r ≡ (err e, d')
      → Run env root nonce ts d r
  committed :
      (bs : List (Str × Str)) (written : List Str) (total : ℕ) (d' : Disk)
      → preflight_all env root ts d ≡ none
      → take_backups env root ts d ≡ ok bs
      → write_loop env root nonce bs ts bs [] 0 d ≡ (ok (written, total), d')
      → r ≡ (
        ok (record { commit_id = nonce; files_written = length written; bytes_written = total }),
        d',
      )
      → Run env root nonce ts d r

module _ (env : Env) (root nonce : Str) (ts : List Target) (d : Disk) where
  through_loop :
      (bs : List (Str × Str))
      → preflight_all env root ts d ≡ none
      → take_backups env root ts d ≡ ok bs
      → Run env root nonce ts d (apply_targets env root nonce ts d)
  unfolding apply_targets
  through_loop bs checked backed = go (write_loop env root nonce bs ts bs [] 0 d) refl
    where
      go :
          (o : Result ApplyError (List Str × ℕ) × Disk)
          → write_loop env root nonce bs ts bs [] 0 d ≡ o
          → Run env root nonce ts d (apply_targets env root nonce ts d)
      go (ok (written, total), d') e =
          committed bs written total d' checked backed e (rw (checked, backed, e, apply_targets))
      go (err x, d') e = undone bs x d' backed e (rw (checked, backed, e, apply_targets))

  pub run : Run env root nonce ts d (apply_targets env root nonce ts d)
  unfolding apply_targets
  run = elim (Option-cases (preflight_all env root ts d)) [
    | inr (e, failed) ↦ refused e (rw (failed, apply_targets))
    | inl checked ↦ elim (Result-cases (take_backups env root ts d)) [
      | inr (e, failed) ↦ refused e (rw (checked, failed, apply_targets))
      | inl (bs, backed) ↦ through_loop bs checked backed
    ]
  ]
