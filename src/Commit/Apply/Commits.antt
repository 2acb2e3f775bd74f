-- ===== src/Commit/Apply/Commits.antt =====
-- The guarantee of a commit that succeeds, `apply_transactional` of crates/aa-core/src/apply.rs.
use prolog_forge.Prelude.{
  List, [], ◌∷◌, Option, none, some, Bool, true, false, ◌==◌, ◌≡◌, ◌≢◌, ◌↔◌, sym, ◌∙◌, ap, subst,
  subst₂, arith, nat_eq, list_eq, Str, length, Map, map_get, ==_iff, ok, Option-cases, Bool-cases,
  inl, inr, In, In-filter_map, In-filter_map_of, elem, is_distinct,
}
use prolog_forge.Commit.Disk.{Disk, read_file, join}
use prolog_forge.Commit.Apply
use prolog_forge.Commit.Apply.{
  Env, Target, ApplyError, ApplyOutcome, apply_transactional, select_targets, preflight_all,
}
use prolog_forge.Commit.Apply.Steps.{take_backups-BackedUp, refused, undone, committed, run}
use prolog_forge.Commit.Apply.Backups.{temps, paths}
use prolog_forge.Commit.Apply.Success.{Apart, total_bytes, loop_others, loop_writes, loop_counts}

target_from_found :
    (o : Option Str) (rel new_content : Str) (t : Target)
    → Apply.target_from o rel new_content ≡ some t
    → (o ≡ some t.before)
      × (rel ≡ t.rel)
      × (new_content ≡ t.new_content)
      × (t.before ≢ t.new_content)
unfolding Apply.target_from
target_from_found none rel new_content t h = cc
target_from_found (some before) rel new_content t h = elim (Bool-cases (before == new_content)) [
  | inl same ↦ absurd (cc (rw (same, Apply.target_from) at h))
  | inr other ↦
      let r : Target = record { rel = rel; before = before; new_content = new_content } in
      let made : some r ≡ some t = rw other at h in
      (ground arith, ground arith, ground arith, λ e. ground (arith, ==_iff before new_content))
]

target_from_made :
    (t : Target)
    → t.before ≢ t.new_content
    → Apply.target_from (some t.before) t.rel t.new_content ≡ some t
unfolding Apply.target_from
target_from_made t ne = ground (arith, ==_iff t.before t.new_content)

-- The targets are exactly the entries of the shadow map that the plan's original map has with other
-- contents.
pub select_targets_exact :
    (shadow original : Map Str Str) (t : Target)
    → In t (select_targets shadow original) ↔ (
        In (t.rel, t.new_content) shadow
        × (map_get t.rel original ≡ some t.before)
        × (t.before ≢ t.new_content))
unfolding select_targets
select_targets_exact shadow original t =
    let f : Str × Str → Option Target = λ e. Apply.target_from (map_get e.0 original) e.0 e.1 in
    (
      λ m.
          let ((rel, new_content), mem, made) = In-filter_map f t shadow m in
          let (o, r, n, ne) = target_from_found (map_get rel original) rel new_content t made in
          (subst₂ (λ x y. In (x, y) shadow) r n mem, ap (λ x. map_get x original) (sym r) ∙ o, ne),
      λ h.
          In-filter_map_of f (t.rel, t.new_content) t shadow h.0
            (ap (λ o. Apply.target_from o t.rel t.new_content) h.1 ∙ target_from_made t h.2),
    )

preflight_one-none :
    (env : Env) (root : Str) (t : Target) (o : Option Str)
    → Apply.preflight_one env root t o ≡ none
    → o ≡ some t.before
unfolding Apply.preflight_one
preflight_one-none env root t none h = cc
preflight_one-none env root t (some c) h = ground (arith, ==_iff c t.before)

read_file-some :
    (denied : Bool) (p c : Str) (d : Disk) → read_file denied p d ≡ some c → map_get p d ≡ some c
unfolding read_file
read_file-some denied p c d h = ground arith

preflight-before :
    (env : Env) (root : Str) (ts : List Target) (d : Disk) (t : Target)
    → preflight_all env root ts d ≡ none
    → In t ts
    → map_get (join root t.rel) d ≡ some t.before
unfolding preflight_all
preflight-before env root [] d t h m = elim m [ ]
preflight-before env root (u ∷ ts) d t h m =
    let p = join root u.rel in
    let o = read_file (env.preflight_read p) p d in
    elim (Option-cases (Apply.preflight_one env root u o)) [
      | inr (e, failed) ↦ absurd (cc (rw (failed, preflight_all) at h))
      | inl fits ↦ elim m [
        | inl same ↦
            subst (λ (x : Target). map_get (join root x.rel) d ≡ some x.before) (sym same)
              (read_file-some (env.preflight_read p) p u.before d
                (preflight_one-none env root u o fits))
        | inr later ↦ preflight-before env root ts d t (rw (fits, preflight_all) at h) later
      ]
    ]

-- What a commit that succeeds promises of the disk and of its outcome.
pub record Committed (root nonce : Str) (ts : List Target) (d d' : Disk) (out : ApplyOutcome)
    : Type 0 where
  pub had_before : (t : Target) → In t ts → map_get (join root t.rel) d ≡ some t.before
  pub has_new : (t : Target) → In t ts → map_get (join root t.rel) d' ≡ some t.new_content
  pub others :
      (q : Str)
      → elem q (paths root ts) ≡ false
      → elem q (temps root nonce ts) ≡ false
      → map_get q d' ≡ map_get q d
  pub id : out.commit_id ≡ nonce
  pub files : out.files_written ≡ length ts
  pub bytes : out.bytes_written ≡ total_bytes ts

-- A commit that succeeds, whose targets stand at different paths apart from its temporary files, found
-- at every target the contents of the plan's original map, leaves the new contents at every target and
-- all other files but the temporary ones as they were, and counts the files and bytes that it wrote.
pub apply_commits :
    (env : Env) (root nonce : Str) (shadow original : Map Str Str) (d d' : Disk)
    (out : ApplyOutcome)
    → is_distinct (paths root (select_targets shadow original)) ≡ true
    → Apart env root nonce [] d (select_targets shadow original) (select_targets shadow original)
    → apply_transactional env root nonce shadow original d ≡ (ok out, d')
    → Committed root nonce (select_targets shadow original) d d' out
unfolding apply_transactional
apply_commits env root nonce shadow original d d' out distinct apart h =
    let ts = select_targets shadow original in
    elim (run env root nonce ts d) [
      | refused x step ↦ absurd (cc (step, h))
      | undone bs x d₁ backed looped step ↦ absurd (cc (step, h))
      | committed bs written total d₁ checked backed looped step ↦
          let same : d₁ ≡ d' = cc (step, h) in
          let result : record {
            commit_id = nonce;
            files_written = length written;
            bytes_written = total;
          }
              ≡ out =
            cc (step, h) in
          let backs = take_backups-BackedUp env root ts d bs backed in
          let counts = loop_counts env root nonce bs d ts bs [] 0 d d₁ written total backs looped in
          record {
            had_before = λ t m. preflight-before env root ts d t checked m;
            has_new = λ t m. rw (← same) (
                loop_writes env root nonce bs d ts bs [] 0 d d₁ (written, total) t backs distinct
                  apart looped m);
            others = λ q k n. rw (← same) (
                loop_others env root nonce bs d ts bs [] 0 d d₁ (written, total) q backs looped k
                  n);
            id = ap (λ (o : ApplyOutcome). o.commit_id) (sym result);
            files = rw (← result) (omega (arith, counts.0));
            bytes = rw (← result) (omega (arith, counts.1));
          }
    ]
