-- ===== src/Commit/Apply/Total.antt =====
-- A commit of crates/aa-core/src/apply.rs whose file calls all succeed.
use prolog_forge.Prelude.{
  ℕ, ◌+◌, List, [], ◌∷◌, ◌++◌, none, some, Bool, true, false, ◌==◌, ◌≡◌, refl, sym, ◌∙◌, subst,
  subst₂, arith, nat_eq, list_eq, Str, length, Map, map_get, map_get-map_insert, ==_iff, ok, inl,
  inr, In,
}
use prolog_forge.Commit.Disk.{Disk, fine, write_file, rename_file, read_file, join}
use prolog_forge.Commit.Apply
use prolog_forge.Commit.Apply.{
  Env, Target, ApplyError, ApplyOutcome, tmp_for, write_loop, take_backups, apply_transactional,
  apply_targets, select_targets, preflight_all,
}
use prolog_forge.Commit.Apply.Steps.{
  BackedUp, take_backups-BackedUp, write_loop_nil, loop_next, after_rename,
}

-- The system carries out every read, write and rename.
pub record AllFine (env : Env) : Type 0 where
  pub preflight_reads : (p : Str) → env.preflight_read p ≡ false
  pub backup_reads : (p : Str) → env.backup_read p ≡ false
  pub temp_writes : (p : Str) → env.temp_write p ≡ fine
  pub renames : (p : Str) → env.rename p ≡ false

-- Every target has on disk what the plan was made for.
abbrev pub Fresh : Str → Disk → List Target → Type 0
Fresh root d ts = (t : Target) → In t ts → map_get (join root t.rel) d ≡ some t.before

read_file_fine :
    (denied : Bool) (p c : Str) (d : Disk)
    → denied ≡ false
    → map_get p d ≡ some c
    → read_file denied p d ≡ some c
unfolding read_file
read_file_fine denied p c d h k = ground arith

write_fine : (tmp content : Str) (d : Disk) → (write_file fine tmp content d).0 ≡ true
unfolding write_file
write_fine tmp content d = refl

rename_fine :
    (tmp p content : Str) (d : Disk)
    → (rename_file false tmp p (write_file fine tmp content d).1).0 ≡ true
unfolding write_file rename_file
rename_fine tmp p content d = ground (arith, ==_iff tmp tmp, map_get-map_insert tmp tmp content d)

module _ (env : Env) (root : Str) (good : AllFine env) where
  preflight_passes :
      (ts : List Target) (d : Disk) → Fresh root d ts → preflight_all env root ts d ≡ none
  unfolding preflight_all Apply.preflight_one
  preflight_passes [] d fresh = refl
  preflight_passes (t ∷ ts) d fresh =
      let p = join root t.rel in
      let found =
        read_file_fine (env.preflight_read p) p t.before d (good.preflight_reads p)
          (fresh t (inl refl)) in
      let same : (t.before == t.before) ≡ true = ground (arith, ==_iff t.before t.before) in
      rw (found, preflight_all, same) (preflight_passes ts d (λ u m. fresh u (inr m)))

  backups_taken :
      (ts : List Target) (d : Disk)
      → Fresh root d ts
      → (bs : List (Str × Str)) × (take_backups env root ts d ≡ ok bs)
  unfolding take_backups
  backups_taken [] d fresh = ([], refl)
  backups_taken (t ∷ ts) d fresh =
      let p = join root t.rel in
      let found =
        read_file_fine (env.backup_read p) p t.before d (good.backup_reads p)
          (fresh t (inl refl)) in
      let (bs, taken) = backups_taken ts d (λ u m. fresh u (inr m)) in
      ((p, t.before) ∷ bs, rw (found, taken, take_backups))

  loop_ends :
      (nonce : Str) (backups : List (Str × Str)) (d₀ : Disk) (ts : List Target)
      (zipped : List (Str × Str)) (written : List Str) (total : ℕ) (d : Disk)
      → BackedUp root d₀ ts zipped
      → (x : List Str × ℕ) × (d' : Disk) × (write_loop env root nonce backups ts zipped written
            total d
          ≡ (ok x, d'))
  loop_ends nonce backups d₀ [] [] written total d b =
      ((written, total), d, write_loop_nil env root nonce backups written total d)
  loop_ends nonce backups d₀ [] (y ∷ zipped) written total d b = absurd b
  loop_ends nonce backups d₀ (t ∷ ts) [] written total d b = absurd b
  loop_ends nonce backups d₀ (t ∷ ts) ((p, c) ∷ zipped) written total d (path, there, rest) =
      let tmp = tmp_for p nonce in
      let (x, d', ends) =
        loop_ends nonce backups d₀ ts zipped (written ++ p ∷ []) (total + length t.new_content)
          (after_rename env root nonce backups t ts p c zipped written total d) rest in
      let step =
        loop_next env root nonce backups t ts p c zipped written total d
          (subst (λ o. (write_file o tmp t.new_content d).0 ≡ true) (sym (good.temp_writes tmp))
            (write_fine tmp t.new_content d))
          (subst₂ (λ o r. (rename_file r tmp p (write_file o tmp t.new_content d).1).0 ≡ true)
            (sym (good.temp_writes tmp)) (sym (good.renames tmp))
            (rename_fine tmp p t.new_content d)) in
      (x, d', step ∙ ends)

  finish_ok :
      (nonce : Str) (x : List Str × ℕ) (d : Disk)
      → (out : ApplyOutcome) × (Apply.finish env root nonce (ok x, d) ≡ (ok out, d))
  unfolding Apply.finish
  finish_ok nonce (written, total) d = (_, refl)

-- When the system carries out every read, write and rename, and every target has on disk what the plan
-- was made for, the commit succeeds.
pub apply_succeeds :
    (env : Env) (root nonce : Str) (shadow original : Map Str Str) (d : Disk)
    → AllFine env
    → Fresh root d (select_targets shadow original)
    → (out : ApplyOutcome) × (d' : Disk) × (apply_transactional env root nonce shadow original d
        ≡ (ok out, d'))
unfolding apply_transactional apply_targets
apply_succeeds env root nonce shadow original d good fresh =
    let ts = select_targets shadow original in
    let (bs, taken) = backups_taken env root good ts d fresh in
    let (x, d', ends) =
      loop_ends env root good nonce bs d ts bs [] 0 d
        (take_backups-BackedUp env root ts d bs taken) in
    let (out, made) = finish_ok env root good nonce x d' in
    let passes = preflight_passes env root good ts d fresh in
    (out, d', rw (passes, taken, ends, apply_targets) made)
