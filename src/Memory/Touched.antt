-- ===== src/Memory/Touched.antt =====
-- The files that the statistics count.
use prolog_forge.Prelude.{
  ℕ, zero, suc, ◌+◌, min, List, [], ◌∷◌, Bool, false, ◌==◌, ◌≡◌, refl, sym, ap, ◌∙◌, inl, inr,
  Bool-cases, nat_eq, list_eq, Str, length, elem, set_insert, take, sort_by, insert_sorted, Map,
  map_get, map_insert, map_keys, get_or, ok, arith,
}
use prolog_forge.Commit.Journal.{CommitFile, CommitEntry}
use prolog_forge.Memory.{
  count_one, count_files, add_entry, add_entries, Totals, no_totals, busier, Decoder, Listing, list,
  MemoryStats, stats_of, stats,
}

-- The paths that the entries touch, each once.
unfoldable pub file_paths : List CommitFile → List Str → List Str
file_paths [] seen = seen
file_paths (f ∷ fs) seen = file_paths fs (set_insert f.path seen)

unfoldable pub touched_paths : List CommitEntry → List Str → List Str
touched_paths [] seen = seen
touched_paths (e ∷ es) seen = touched_paths es (file_paths e.files seen)

set_insert-cons :
    (k j : Str) (ks : List Str) → (j == k) ≡ false → set_insert k (j ∷ ks) ≡ j ∷ set_insert k ks
unfolding set_insert elem
set_insert-cons k j ks other = elim (Bool-cases (elem k ks)) [
  | inl there ↦ rw (other, there) refl
  | inr absent ↦ rw (other, absent) refl
]

map_keys-cons :
    (k : Str) (j : Str) (n w : ℕ) (m : Map Str ℕ)
    → (j == k) ≡ false
    → map_keys (map_insert k n ((j, w) ∷ m)) ≡ j ∷ map_keys (map_insert k n m)
unfolding map_keys map_insert
map_keys-cons k j n w m other = rw other refl

map_keys-map_insert :
    (k : Str) (n : ℕ) (m : Map Str ℕ) → map_keys (map_insert k n m) ≡ set_insert k (map_keys m)
unfolding map_keys map_insert set_insert elem
map_keys-map_insert k n [] = refl
map_keys-map_insert k n ((j, w) ∷ m) = elim (Bool-cases (j == k)) [
  | inl same ↦ rw (same, map_insert, set_insert) refl
  | inr other ↦
      map_keys-cons k j n w m other
      ∙ (ap (λ l. j ∷ l) (map_keys-map_insert k n m) ∙ sym (set_insert-cons k j (map_keys m) other))
]

count_files-keys :
    (fs : List CommitFile) (m : Map Str ℕ)
    → map_keys (count_files fs m) ≡ file_paths fs (map_keys m)
unfolding count_files file_paths count_one
count_files-keys [] m = refl
count_files-keys (f ∷ fs) m =
    count_files-keys fs (count_one f.path m)
    ∙ ap (file_paths fs) (map_keys-map_insert f.path (get_or (map_get f.path m) 0 + 1) m)

add_entries-keys :
    (es : List CommitEntry) (t : Totals)
    → map_keys (add_entries es t).per_file ≡ touched_paths es (map_keys t.per_file)
unfolding add_entries add_entry touched_paths
add_entries-keys [] t = refl
add_entries-keys (e ∷ es) t =
    add_entries-keys es (add_entry e t)
    ∙ ap (touched_paths es) (count_files-keys e.files t.per_file)

length-map_keys : (m : Map Str ℕ) → length (map_keys m) ≡ length m
unfolding map_keys
length-map_keys [] = refl
length-map_keys ((k, n) ∷ m) = omega (arith, length-map_keys m)

module _ (le : Str × ℕ → Str × ℕ → Bool) where
  length-insert_sorted :
      (x : Str × ℕ) (ys : List (Str × ℕ)) → length (insert_sorted le x ys) ≡ suc (length ys)
  unfolding insert_sorted
  length-insert_sorted x [] = refl
  length-insert_sorted x (y ∷ ys) = elim (Bool-cases (le x y)) [
    | inl lower ↦ rw (lower, insert_sorted) refl
    | inr higher ↦ rw (higher, insert_sorted) (omega (arith, length-insert_sorted x ys))
  ]

  length-sort_by : (xs : List (Str × ℕ)) → length (sort_by le xs) ≡ length xs
  unfolding sort_by
  length-sort_by [] = refl
  length-sort_by (x ∷ xs) = omega (arith, length-insert_sorted x (sort_by le xs), length-sort_by xs)

length-take-min : (n : ℕ) (xs : List (Str × ℕ)) → length (take n xs) ≡ min n (length xs)
length-take-min zero xs = omega arith
length-take-min (suc n) [] = omega arith
length-take-min (suc n) (x ∷ xs) = omega (arith, length-take-min n xs)

files_touched-touched_paths :
    (entries : List CommitEntry)
    → (stats_of entries).files_touched ≡ min 20 (length (touched_paths entries []))
unfolding stats_of map_keys
files_touched-touched_paths [] = unfold touched_paths in refl
files_touched-touched_paths (e ∷ es) =
    let t = add_entries (e ∷ es) no_totals in
    omega (
      arith,
      length-take-min 20 (sort_by busier t.per_file),
      length-sort_by busier t.per_file,
      length-map_keys t.per_file,
      ap length (add_entries-keys (e ∷ es) no_totals),
    )

-- When the journal can be listed, the statistics succeed, and they count as touched files no more than
-- the twenty that they list: the number of the different paths in the journal, cut at 20.
pub stats_touched :
    (decode : Decoder) (folder : Listing) (entries : List CommitEntry)
    → list decode folder ≡ ok entries
    → (s : MemoryStats) × (stats decode folder ≡ ok s)
      × (s.files_touched ≡ min 20 (length (touched_paths entries [])))
stats_touched decode folder entries listed =
    (stats_of entries, unfold stats in rw listed refl, files_touched-touched_paths entries)
