-- ===== src/Commit/Apply/Backups.antt =====
-- The lookup map of a rollback, crates/aa-core/src/apply.rs, against the disk before the commit.
use prolog_forge.Prelude.{
  List, [], ◌∷◌, some, true, ◌==◌, ◌≡◌, arith, nat_eq, list_eq, Str, Map, map_get, map_insert,
  contains_key, AllEntries, AllEntries-map_insert, AllEntries-map_get, map_get-map_insert,
  Option-cases, Bool-cases, inl, inr, elem, map,
}
use prolog_forge.Commit.Disk.{Disk, join}
use prolog_forge.Commit.Apply.{Target, tmp_for, collect_map}
use prolog_forge.Commit.Apply.Steps.{BackedUp}

-- The map has the contents of the disk for each of the paths.
abbrev pub Saves : Map Str Str → Disk → List Str → Type 0
Saves lookup d₀ ps =
    (p : Str) → elem p ps ≡ true → (c : Str) × (map_get p lookup ≡ some c) × (map_get p d₀ ≡ some c)

-- The temporary files of a commit.
abbrev pub temps : Str → Str → List Target → List Str
temps root nonce ts = map (λ t. tmp_for (join root t.rel) nonce) ts

abbrev pub paths : Str → List Target → List Str
paths root ts = map (λ t. join root t.rel) ts

collect_map-AllEntries :
    (P : Str → Str → Type 0) (bs : List (Str × Str)) (m : Map Str Str)
    → AllEntries P bs
    → AllEntries P m
    → AllEntries P (collect_map bs m)
unfolding collect_map
collect_map-AllEntries P [] m hb hm = hm
collect_map-AllEntries P ((p, c) ∷ bs) m hb hm =
    collect_map-AllEntries P bs (map_insert p c m) hb.1 (AllEntries-map_insert P p c m hb.0 hm)

collect_map_keeps :
    (bs : List (Str × Str)) (m : Map Str Str) (p : Str)
    → contains_key p m ≡ true
    → contains_key p (collect_map bs m) ≡ true
unfolding collect_map
collect_map_keeps [] m p h = h
collect_map_keeps ((q, c) ∷ bs) m p h =
    collect_map_keeps bs (map_insert q c m) p (ground (arith, map_get-map_insert p q c m))

module _ (root : Str) (d₀ : Disk) where
  BackedUp-AllEntries :
      (ts : List Target) (bs : List (Str × Str))
      → BackedUp root d₀ ts bs
      → AllEntries (λ p c. map_get p d₀ ≡ some c) bs
  BackedUp-AllEntries [] [] b = tt
  BackedUp-AllEntries [] (x ∷ bs) b = absurd b
  BackedUp-AllEntries (t ∷ ts) [] b = absurd b
  BackedUp-AllEntries (t ∷ ts) ((p, c) ∷ bs) (_, there, rest) =
      (there, BackedUp-AllEntries ts bs rest)

  BackedUp-contains_key :
      (ts : List Target) (bs : List (Str × Str)) (m : Map Str Str) (p : Str)
      → BackedUp root d₀ ts bs
      → elem p (paths root ts) ≡ true
      → contains_key p (collect_map bs m) ≡ true
  unfolding collect_map elem
  BackedUp-contains_key [] [] m p b h = cc
  BackedUp-contains_key [] (x ∷ bs) m p b h = absurd b
  BackedUp-contains_key (t ∷ ts) [] m p b h = absurd b
  BackedUp-contains_key (t ∷ ts) ((q, c) ∷ bs) m p (same, there, rest) h =
      elim (Bool-cases (join root t.rel == p)) [
        | inl here ↦
            collect_map_keeps bs (map_insert q c m) p
              (ground (arith, map_get-map_insert p q c m, same))
        | inr other ↦ BackedUp-contains_key ts bs (map_insert q c m) p rest (rw other at h)
      ]

  -- The lookup map of a rollback has what the disk had for every target.
  pub BackedUp-Saves :
      (ts : List Target) (bs : List (Str × Str))
      → BackedUp root d₀ ts bs
      → Saves (collect_map bs []) d₀ (paths root ts)
  BackedUp-Saves ts bs b p h = elim (Option-cases (map_get p (collect_map bs []))) [
    | inl missing ↦ absurd (cc (BackedUp-contains_key ts bs [] p b h, missing))
    | inr (c, found) ↦ (
      c,
      found,
      AllEntries-map_get (λ p c. map_get p d₀ ≡ some c) p c (collect_map bs [])
          (collect_map-AllEntries (λ p c. map_get p d₀ ≡ some c) bs [] (BackedUp-AllEntries ts bs b)
            tt)
          found,
    )
  ]
