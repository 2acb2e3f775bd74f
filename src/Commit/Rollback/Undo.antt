-- ===== src/Commit/Rollback/Undo.antt =====
-- The targets of a rollback, crates/aa-core/src/rollback.rs: the files of the entry, turned round.
use prolog_forge.Prelude.{
  ◌≡◌, ◌≢◌, refl, sym, ap, ◌∙◌, subst, List, [], ◌∷◌, ◌++◌, append-nil, some, true, false, ◌||◌,
  ◌==◌, nat_eq, list_eq, Str, Map, map_get, map_keys, btree_insert, map_get-btree_insert, arith,
  ==_iff, ==_self, inl, inr, In, elem, is_distinct, map, filter_map, Reordered, chain,
  Reordered-same, Reordered-append, Reordered-middle, Reordered-btree_insert, Reordered-filter_map,
}
use prolog_forge.Commit.Apply.{Target, select_targets, target_from}
use prolog_forge.Commit.Journal.{CommitFile}
use prolog_forge.Commit.Rollback.{shadow_from, original_from}

abbrev pub undo_target : CommitFile → Target
undo_target f = record { rel = f.path; before = f.after; new_content = f.before }

abbrev pub file_paths : List CommitFile → List Str
file_paths fs = map (λ f. f.path) fs

-- The entry's files are those that its commit changed.
abbrev pub Changed : List CommitFile → Type 0
Changed fs = (f : CommitFile) → In f fs → f.before ≢ f.after

btree_insert-keys :
    (k v q : Str) (m : Map Str Str)
    → elem q (map_keys (btree_insert k v m)) ≡ true
    → (k == q || elem q (map_keys m)) ≡ true
unfolding btree_insert map_keys elem
btree_insert-keys k v q [] h = h
btree_insert-keys k v q ((j, w) ∷ m) h = ground (arith, btree_insert-keys k v q m)

-- No key of the map is among the paths.
abbrev Fresh : Map Str Str → List Str → Type 0
Fresh m ps = (p : Str) → elem p ps ≡ true → elem p (map_keys m) ≡ false

Fresh-btree_insert :
    (k v : Str) (m : Map Str Str) (ps : List Str)
    → elem k ps ≡ false
    → Fresh m (k ∷ ps)
    → Fresh (btree_insert k v m) ps
unfolding elem
Fresh-btree_insert k v m ps h fresh p e =
    ground (arith, btree_insert-keys k v p m, fresh p, ==_iff k p)

-- The shadow has the entry's files, in the order of their paths.
shadow_from-Reordered :
    (fs : List CommitFile) (m : Map Str Str)
    → is_distinct (file_paths fs) ≡ true
    → Fresh m (file_paths fs)
    → Reordered (shadow_from fs m) (map (λ f. (f.path, f.before)) fs ++ m)
unfolding shadow_from is_distinct elem
shadow_from-Reordered [] m d fresh = Reordered-same m
shadow_from-Reordered (f ∷ fs) m d fresh =
    let pairs : Map Str Str = map (λ (g : CommitFile). (g.path, g.before)) fs in
    chain (pairs ++ btree_insert f.path f.before m)
      (shadow_from-Reordered fs (btree_insert f.path f.before m) (ground arith)
        (Fresh-btree_insert f.path f.before m (file_paths fs) (ground arith) fresh))
      (chain (pairs ++ (f.path, f.before) ∷ m)
        (Reordered-append pairs (
          Reordered-btree_insert f.path f.before m (fresh f.path (ground (arith, ==_self f.path)))))
        (Reordered-middle (f.path, f.before) pairs m))

original_others :
    (fs : List CommitFile) (m : Map Str Str) (p : Str)
    → elem p (file_paths fs) ≡ false
    → map_get p (original_from fs m) ≡ map_get p m
unfolding original_from elem
original_others [] m p h = refl
original_others (f ∷ fs) m p h =
    let other : (f.path == p) ≡ false = ground arith in
    original_others fs (btree_insert f.path f.after m) p (ground arith)
    ∙ rw (map_get-btree_insert p f.path f.after m, other) refl

after_found :
    (f : CommitFile) (fs : List CommitFile) (m : Map Str Str)
    → is_distinct (file_paths fs) ≡ true
    → In f fs
    → map_get f.path (original_from fs m) ≡ some f.after
unfolding original_from is_distinct elem
after_found f [] m d there = elim there [ ]
after_found f (g ∷ fs) m d (inl same) =
    subst
      (λ (h : CommitFile).
        map_get h.path (original_from fs (btree_insert g.path g.after m)) ≡ some h.after)
      (sym same)
      (original_others fs (btree_insert g.path g.after m) g.path (ground arith)
        ∙ rw (map_get-btree_insert g.path g.path g.after m, ==_self g.path) refl)
after_found f (g ∷ fs) m d (inr later) =
    after_found f fs (btree_insert g.path g.after m) (ground arith) later

changed_target :
    (f : CommitFile)
    → f.before ≢ f.after
    → target_from (some f.after) f.path f.before ≡ some (undo_target f)
unfolding target_from
changed_target f ne = ground (arith, ==_iff f.after f.before)

select_lem :
    (original : Map Str Str) (fs : List CommitFile)
    → ((f : CommitFile) → In f fs → map_get f.path original ≡ some f.after)
    → Changed fs
    → select_targets (map (λ f. (f.path, f.before)) fs) original ≡ map undo_target fs
unfolding select_targets filter_map
select_lem original [] h k = refl
select_lem original (f ∷ fs) h k =
    let made : target_from (map_get f.path original) f.path f.before ≡ some (undo_target f) =
      ap (λ o. target_from o f.path f.before) (h f (inl refl))
      ∙ changed_target f (k f (inl refl)) in
    rw made (
      ap (λ ts. undo_target f ∷ ts)
        (select_lem original fs (λ g m. h g (inr m)) (λ g m. k g (inr m))))

-- The rollback of an entry with distinct paths, each with other contents before and after, commits the
-- entry's files turned round, in the order of their paths.
pub undo_targets :
    (fs : List CommitFile)
    → is_distinct (file_paths fs) ≡ true
    → Changed fs
    → Reordered (select_targets (shadow_from fs []) (original_from fs [])) (map undo_target fs)
unfolding map_keys elem
undo_targets fs d k =
    let original = original_from fs [] in
    let pairs : Map Str Str = map (λ (f : CommitFile). (f.path, f.before)) fs in
    let sorted : Reordered (select_targets (shadow_from fs []) original)
        (select_targets (pairs ++ []) original) =
      unfold select_targets in
      Reordered-filter_map (λ (e : Str × Str). target_from (map_get e.0 original) e.0 e.1)
        (shadow_from-Reordered fs [] d (λ p m. refl)) in
    let made : select_targets (pairs ++ []) original ≡ map undo_target fs =
      ap (λ ps. select_targets ps original) (append-nil pairs)
      ∙ select_lem original fs (λ f m. after_found f fs [] d m) k in
    subst (Reordered (select_targets (shadow_from fs []) original)) made sorted
