-- ===== src/Commit/Apply/Failure.antt =====
-- The write loop of crates/aa-core/src/apply.rs when it fails, and the disk that its rollback
-- leaves.
use prolog_forge.Prelude.{
  ℕ, ◌+◌, List, [], ◌∷◌, ◌++◌, some, true, false, ◌==◌, ◌≡◌, refl, sym, ◌∙◌, arith, nat_eq, list_eq,
  Str, length, Map, map_get, map_get-map_insert, ==_iff, err, Bool-cases, inl, inr, In, In-map,
  In→elem, elem, elem-append, if◌then◌else◌,
}
use prolog_forge.Commit.Disk.{
  Disk, fine, write_file, rename_file, remove_file, join, map_get-write_file, map_get-remove_file,
  map_get-rename_file, rename_file_failed,
}
use prolog_forge.Commit.Apply
use prolog_forge.Commit.Apply.{
  Env, Target, ApplyError, ApplyOutcome, tmp_for, rollback, restore_all, write_loop, take_backups,
  collect_map, apply_transactional, apply_targets, select_targets, preflight_all,
}
use prolog_forge.Commit.Apply.Steps.{
  BackedUp, take_backups-BackedUp, refused, undone, committed, run, write_loop_nil,
  loop_write_failed, loop_rename_failed, loop_next,
}
use prolog_forge.Commit.Apply.Backups.{Saves, temps, paths, BackedUp-Saves}

module _ (env : Env) (root nonce : Str) (d₀ : Disk)
    (restores : (p : Str) → env.restore p ≡ fine) where
  restore_step :
      (p q c : Str) (lookup : Map Str Str) (d : Disk)
      → map_get p lookup ≡ some c
      → map_get q (Apply.restore_one env root p (map_get p lookup) d)
        ≡ (if p == q then some c else map_get q d)
  unfolding Apply.restore_one write_file
  restore_step p q c lookup d h =
      rw (h, restores p, Apply.restore_one, write_file) (map_get-map_insert q p c d)

  -- Restoring gives every path that was written what the disk had, and touches no other.
  map_get-restore_all :
      (written : List Str) (lookup : Map Str Str) (d : Disk) (q : Str)
      → Saves lookup d₀ written
      → map_get q (restore_all env root written lookup d)
        ≡ (if elem q written then map_get q d₀ else map_get q d)
  unfolding restore_all elem
  map_get-restore_all [] lookup d q saves = refl
  map_get-restore_all (p ∷ written) lookup d q saves =
      let (c, found, there) = saves p (ground (arith, ==_iff p p)) in
      let d' = Apply.restore_one env root p (map_get p lookup) d in
      let step = restore_step p q c lookup d found in
      let rest = map_get-restore_all written lookup d' q (λ r m. saves r (ground arith)) in
      ground (arith, rest, step, ==_iff p q)

  module _ (ts₀ : List Target) (backups : List (Str × Str))
      (b₀ : BackedUp root d₀ ts₀ backups) where
    -- Outside the temporary files and the paths written so far, the disk is as before the loop.
    abbrev Untouched : List Str → Disk → Type 0
    Untouched written d =
        (q : Str)
        → elem q (temps root nonce ts₀) ≡ false
        → elem q written ≡ false
        → map_get q d ≡ map_get q d₀

    rolled_back-restored :
        (written : List Str) (d : Disk) (q : Str)
        → Saves (collect_map backups []) d₀ written
        → Untouched written d
        → elem q (temps root nonce ts₀) ≡ false
        → map_get q (rollback env root written backups d) ≡ map_get q d₀
    unfolding rollback
    rolled_back-restored written d q saves same h =
        ground (arith, map_get-restore_all written (collect_map backups []) d q saves, same q)

    tmp_other :
        (tmp q : Str)
        → elem tmp (temps root nonce ts₀) ≡ true
        → elem q (temps root nonce ts₀) ≡ false
        → (tmp == q) ≡ false
    tmp_other tmp q h k = ground (arith, ==_iff tmp q)

    -- What the calls of one round leave untouched.
    module _ (tmp p : Str) (written : List Str) (d : Disk)
        (tmp_in : elem tmp (temps root nonce ts₀) ≡ true) (same : Untouched written d) where
      write-Untouched :
          (content : Str) → Untouched written (write_file (env.temp_write tmp) tmp content d).1
      write-Untouched content r k m =
          map_get-write_file tmp r content d (env.temp_write tmp) (tmp_other tmp r tmp_in k)
          ∙ same r k m

      remove-Untouched : Untouched written (remove_file (env.remove tmp) tmp d)
      remove-Untouched r k m =
          map_get-remove_file (env.remove tmp) tmp r d (tmp_other tmp r tmp_in k) ∙ same r k m

      rename-Untouched : Untouched (written ++ p ∷ []) (rename_file (env.rename tmp) tmp p d).1
      unfolding elem
      rename-Untouched r k m =
          map_get-rename_file (env.rename tmp) tmp p r d (tmp_other tmp r tmp_in k)
            (ground (arith, elem-append r written (p ∷ [])))
          ∙ same r k (ground (arith, elem-append r written (p ∷ [])))

    known_step :
        (written : List Str) (p r : Str)
        → ((r : Str) → elem r written ≡ true → elem r (paths root ts₀) ≡ true)
        → elem p (paths root ts₀) ≡ true
        → elem r (written ++ p ∷ []) ≡ true
        → elem r (paths root ts₀) ≡ true
    unfolding elem
    known_step written p r known p_in m =
        ground (arith, known r, elem-append r written (p ∷ []), ==_iff p r)

    loop_failed :
        (ts : List Target) (zipped : List (Str × Str)) (written : List Str) (total : ℕ)
        (d d' : Disk) (e : ApplyError) (q : Str)
        → BackedUp root d₀ ts zipped
        → ((t : Target) → In t ts → In t ts₀)
        → ((r : Str) → elem r written ≡ true → elem r (paths root ts₀) ≡ true)
        → Untouched written d
        → write_loop env root nonce backups ts zipped written total d ≡ (err e, d')
        → elem q (temps root nonce ts₀) ≡ false
        → map_get q d' ≡ map_get q d₀
    loop_failed [] [] written total d d' e q b sub known same h out =
        absurd (cc (write_loop_nil env root nonce backups written total d, h))
    loop_failed [] (x ∷ zipped) written total d d' e q b sub known same h out = absurd b
    loop_failed (t ∷ ts) [] written total d d' e q b sub known same h out = absurd b
    loop_failed (t ∷ ts) ((p, c) ∷ zipped) written total d d' e q (path, there, rest) sub known same
          h out =
        let tmp = tmp_for p nonce in
        let tmp_in : elem tmp (temps root nonce ts₀) ≡ true = rw path (
          In→elem (tmp_for (join root t.rel) nonce) (temps root nonce ts₀)
            (In-map (λ t. tmp_for (join root t.rel) nonce) t ts₀ (sub t (inl refl)))) in
        let p_in : elem p (paths root ts₀) ≡ true = rw path (
          In→elem (join root t.rel) (paths root ts₀)
            (In-map (λ t. join root t.rel) t ts₀ (sub t (inl refl)))) in
        let saves : Saves (collect_map backups []) d₀ written =
          λ r m. BackedUp-Saves root d₀ ts₀ backups b₀ r (known r m) in
        let d₁ = (write_file (env.temp_write tmp) tmp t.new_content d).1 in
        let d₂ = (rename_file (env.rename tmp) tmp p d₁).1 in
        let same₁ = write-Untouched tmp p written d tmp_in same t.new_content in
        elim (Bool-cases (write_file (env.temp_write tmp) tmp t.new_content d).0) [
          | inr failed ↦
              let step =
                loop_write_failed env root nonce backups t ts p c zipped written total d failed in
              let undone = rollback env root written backups d₁ in
              let ends : d' ≡ remove_file (env.remove tmp) tmp undone = cc (step, h) in
              rw ends (
                map_get-remove_file (env.remove tmp) tmp q undone (tmp_other tmp q tmp_in out)
                ∙ rolled_back-restored written d₁ q saves same₁ out)
          | inl wrote ↦ elim (Bool-cases (rename_file (env.rename tmp) tmp p d₁).0) [
            | inr failed ↦
                let step =
                  loop_rename_failed env root nonce backups t ts p c zipped written total d wrote
                    failed in
                let ends : d'
                    ≡ rollback env root written backups (remove_file (env.remove tmp) tmp d₂) =
                  cc (step, h) in
                let same₂ : Untouched written d₂ =
                  rw (rename_file_failed (env.rename tmp) tmp p d₁ failed) same₁ in
                rw ends (
                  rolled_back-restored written (remove_file (env.remove tmp) tmp d₂) q saves
                    (remove-Untouched tmp p written d₂ tmp_in same₂) out)
            | inl renamed ↦
                let step =
                  loop_next env root nonce backups t ts p c zipped written total d wrote renamed in
                loop_failed ts zipped (written ++ p ∷ []) (total + length t.new_content) d₂ d' e q
                  rest (λ u m. sub u (inr m)) (λ r m. known_step written p r known p_in m)
                  (rename-Untouched tmp p written d₁ tmp_in same₁) (sym step ∙ h) out
          ]
        ]

-- When a commit fails, and the system carries out every write of the rollback, each path but the
-- temporary files of the commit has what it had before.
pub apply_failed_restores :
    (env : Env) (root nonce : Str) (shadow original : Map Str Str) (d d' : Disk) (e : ApplyError)
    (q : Str)
    → ((p : Str) → env.restore p ≡ fine)
    → apply_transactional env root nonce shadow original d ≡ (err e, d')
    → elem q (temps root nonce (select_targets shadow original)) ≡ false
    → map_get q d' ≡ map_get q d
unfolding apply_transactional elem
apply_failed_restores env root nonce shadow original d d' e q restores h out =
    let ts = select_targets shadow original in
    elim (run env root nonce ts d) [
      | refused x step ↦ let same : d' ≡ d = cc (step, h) in rw same
      | undone bs x d₁ backed looped step ↦
          let same : d' ≡ d₁ = cc (step, h) in
          let backs = take_backups-BackedUp env root ts d bs backed in
          rw same (
            loop_failed env root nonce d restores ts bs backs ts bs [] 0 d d₁ x q backs (λ t m. m)
              (λ r m. absurd (cc m)) (λ r k m. refl) looped out)
      | committed bs written total d₁ checked backed looped step ↦ absurd (cc (step, h))
    ]
