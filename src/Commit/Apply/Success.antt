-- ===== src/Commit/Apply/Success.antt =====
-- The write loop of crates/aa-core/src/apply.rs when it ends without an error.
use prolog_forge.Prelude.{
  ℕ, ◌+◌, List, [], ◌∷◌, ◌++◌, some, true, false, ◌==◌, ◌≡◌, sym, ◌∙◌, ap, arith, nat_eq, list_eq,
  Str, length, map_get, ok, Bool-cases, inl, inr, In, elem, is_distinct, length-append, ==_self,
}
use prolog_forge.Commit.Disk.{
  Disk, write_file, rename_file, join, map_get-write_file, write_rename, map_get-rename_file,
}
use prolog_forge.Commit.Apply.{Env, Target, tmp_for, write_loop}
use prolog_forge.Commit.Apply.Steps.{
  BackedUp, write_loop_nil, loop_write_failed, loop_rename_failed, loop_next, looped, after_write,
  after_rename,
}
use prolog_forge.Commit.Apply.Backups.{temps, paths}

abbrev pub total_bytes : List Target → ℕ
total_bytes [] = 0
total_bytes (t ∷ ts) = length t.new_content + total_bytes ts

module _ (env : Env) (root nonce : Str) (backups : List (Str × Str)) where
  -- A loop that ends well made both calls of its first round.
  loop_ok :
      (t : Target) (ts : List Target) (p c : Str) (zipped : List (Str × Str)) (written : List Str)
      (total : ℕ) (d : Disk) (x : List Str × ℕ) (d' : Disk)
      → looped env root nonce backups t ts p c zipped written total d ≡ (ok x, d')
      → ((write_file (env.temp_write (tmp_for p nonce)) (tmp_for p nonce) t.new_content d).0 ≡ true)
        × ((rename_file
              (env.rename (tmp_for p nonce))
              (tmp_for p nonce)
              p
              (write_file (env.temp_write (tmp_for p nonce)) (tmp_for p nonce) t.new_content d).1).0
            ≡ true)
        × (write_loop env root nonce backups ts zipped
              (written ++ p ∷ [])
              (total + length t.new_content)
              (after_rename env root nonce backups t ts p c zipped written total d)
            ≡ (ok x, d'))
  loop_ok t ts p c zipped written total d x d' h =
      elim (Bool-cases
        (write_file (env.temp_write (tmp_for p nonce)) (tmp_for p nonce) t.new_content d).0) [
          | inr failed ↦ absurd (
              cc (
                loop_write_failed env root nonce backups t ts p c zipped written total d failed,
                h,
              ))
          | inl wrote ↦
              elim (Bool-cases
                (rename_file (env.rename (tmp_for p nonce)) (tmp_for p nonce) p
                  (write_file (env.temp_write (tmp_for p nonce)) (tmp_for p nonce) t.new_content
                    d).1).0) [
                      | inr failed ↦ absurd (
                          cc (
                            loop_rename_failed env root nonce backups t ts p c zipped written total
                                d wrote failed,
                            h,
                          ))
                      | inl renamed ↦ (
                        wrote,
                        renamed,
                        sym (
                              loop_next env root nonce backups t ts p c zipped written total d wrote
                                renamed)
                            ∙ h,
                      )
                    ]
        ]

  module _ (d₀ : Disk) where
    pub loop_others :
        (ts : List Target) (zipped : List (Str × Str)) (written : List Str) (total : ℕ)
        (d d' : Disk) (x : List Str × ℕ) (q : Str)
        → BackedUp root d₀ ts zipped
        → write_loop env root nonce backups ts zipped written total d ≡ (ok x, d')
        → elem q (paths root ts) ≡ false
        → elem q (temps root nonce ts) ≡ false
        → map_get q d' ≡ map_get q d
    unfolding elem
    loop_others [] [] written total d d' x q b h k m =
        let same : d' ≡ d = cc (write_loop_nil env root nonce backups written total d, h) in rw same
    loop_others [] (y ∷ zipped) written total d d' x q b h k m = absurd b
    loop_others (t ∷ ts) [] written total d d' x q b h k m = absurd b
    loop_others (t ∷ ts) ((p, c) ∷ zipped) written total d d' x q (path, there, rest) h k m =
        let (wrote, renamed, h') = loop_ok t ts p c zipped written total d x d' h in
        let tmp = tmp_for p nonce in
        let not_tmp : (tmp == q) ≡ false = rw path (ground arith) in
        let not_p : (p == q) ≡ false = rw path (ground arith) in
        loop_others ts zipped (written ++ p ∷ []) (total + length t.new_content)
          (after_rename env root nonce backups t ts p c zipped written total d) d' x q rest h'
          (ground arith) (ground arith)
        ∙ map_get-rename_file (env.rename tmp) tmp p q
            (after_write env root nonce backups t ts p c zipped written total d) not_tmp not_p
        ∙ map_get-write_file tmp q t.new_content d (env.temp_write tmp) not_tmp

    -- No target is a temporary file of the commit.
    abbrev pub Apart : List Target → List Target → Type 0
    Apart ts us = (q : Str) → elem q (paths root ts) ≡ true → elem q (temps root nonce us) ≡ false

    pub loop_writes :
        (ts : List Target) (zipped : List (Str × Str)) (written : List Str) (total : ℕ)
        (d d' : Disk) (x : List Str × ℕ) (t : Target)
        → BackedUp root d₀ ts zipped
        → is_distinct (paths root ts) ≡ true
        → Apart ts ts
        → write_loop env root nonce backups ts zipped written total d ≡ (ok x, d')
        → In t ts
        → map_get (join root t.rel) d' ≡ some t.new_content
    unfolding is_distinct elem
    loop_writes [] zipped written total d d' x t b distinct apart h m = elim m [ ]
    loop_writes (u ∷ ts) [] written total d d' x t b distinct apart h m = absurd b
    loop_writes (u ∷ ts) ((p, c) ∷ zipped) written total d d' x t (path, there, rest) distinct apart
          h m =
        let (wrote, renamed, h') = loop_ok u ts p c zipped written total d x d' h in
        let d₂ = after_rename env root nonce backups u ts p c zipped written total d in
        elim m [
          | inl same ↦
              let here : p ≡ join root t.rel =
                path ∙ ap (λ (y : Target). join root y.rel) (sym same) in
              let out : elem p (temps root nonce (u ∷ ts)) ≡ false =
                apart p (rw path (ground (arith, ==_self (join root u.rel)))) in
              rw (← here) (
                loop_others ts zipped (written ++ p ∷ []) (total + length u.new_content) d₂ d' x p
                  rest h' (rw path (ground arith)) (ground arith)
                ∙ write_rename (env.rename (tmp_for p nonce)) (env.temp_write (tmp_for p nonce))
                    (tmp_for p nonce) p u.new_content d wrote renamed
                ∙ ap (λ (y : Target). some y.new_content) (sym same))
          | inr later ↦
              loop_writes ts zipped (written ++ p ∷ []) (total + length u.new_content) d₂ d' x t
                rest (ground arith) (λ q k. ground (arith, apart q)) h' later
        ]

    pub loop_counts :
        (ts : List Target) (zipped : List (Str × Str)) (written : List Str) (total : ℕ)
        (d d' : Disk) (written' : List Str) (total' : ℕ)
        → BackedUp root d₀ ts zipped
        → write_loop env root nonce backups ts zipped written total d ≡ (ok (written', total'), d')
        → (length written' ≡ length written + length ts) × (total' ≡ total + total_bytes ts)
    loop_counts [] [] written total d d' written' total' b h =
        let nil = write_loop_nil env root nonce backups written total d in
        let w : written ≡ written' = cc (nil, h) in
        let n : total ≡ total' = cc (nil, h) in (rw (← w) (omega arith), omega arith)
    loop_counts [] (y ∷ zipped) written total d d' written' total' b h = absurd b
    loop_counts (t ∷ ts) [] written total d d' written' total' b h = absurd b
    loop_counts (t ∷ ts) ((p, c) ∷ zipped) written total d d' written' total' (path, there, rest)
          h =
        let (wrote, renamed, h') =
          loop_ok t ts p c zipped written total d (written', total') d' h in
        let (w, n) =
          loop_counts ts zipped (written ++ p ∷ []) (total + length t.new_content)
            (after_rename env root nonce backups t ts p c zipped written total d) d' written' total'
            rest h' in
        (omega (arith, w, length-append written (p ∷ [])), omega (arith, n))
