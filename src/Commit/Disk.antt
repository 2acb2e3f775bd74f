-- ===== src/Commit/Disk.antt =====
-- What the crates use of `std::fs` and `std::path`: a disk is a map from paths to contents. The
-- operating system may refuse an operation; each call is told its outcome.
use prolog_forge.Prelude.{
  [], ◌∷◌, ◌++◌, Option, none, some, Bool, true, false, ◌≡◌, refl, arith, ◌==◌, ==_iff, nat_eq,
  list_eq, Str, bytes, Map, map_get, map_insert, map_remove, map_get-map_insert, map_get-map_remove,
  if◌then◌else◌, Option-cases, inl, inr,
}

abbrev pub Disk : Type 0
Disk = Map Str Str

-- A write may be refused, or fail half way and leave other contents.
pub data WriteOutcome : Type 0 where
  fine refusal : WriteOutcome
  torn : Str → WriteOutcome

-- `fs::write`: whether it succeeded, and the disk.
unfoldable pub write_file : WriteOutcome → Str → Str → Disk → Bool × Disk
write_file fine p content d = (true, map_insert p content d)
write_file refusal p content d = (false, d)
write_file (torn left) p content d = (false, map_insert p left d)

unfoldable pub rename_found : Option Str → Str → Str → Disk → Bool × Disk
rename_found none from to d = (false, d)
rename_found (some content) from to d = (true, map_insert to content (map_remove from d))

-- `fs::rename`, which replaces the target. The flag says that the system refuses.
unfoldable pub rename_file : Bool → Str → Str → Disk → Bool × Disk
unfolding rename_found
rename_file refused from to d =
    if refused then (false, d) else rename_found (map_get from d) from to d

-- `fs::remove_file`, its result ignored.
unfoldable pub remove_file : Bool → Str → Disk → Disk
remove_file refused p d = if refused then d else map_remove p d

-- `fs::read_to_string`.
unfoldable pub read_file : Bool → Str → Disk → Option Str
read_file refused p d = if refused then none else map_get p d

starts_with_slash : Str → Bool
starts_with_slash [] = false
starts_with_slash (c ∷ cs) = c == b'/'

-- `Path::join`: an absolute path replaces the root.
unfoldable pub join : Str → Str → Str
unfolding starts_with_slash
join root rel = if starts_with_slash rel then rel else root ++ bytes "/" ++ rel

module _ (p q : Str) (content : Str) (d : Disk) where
  -- A write touches its path alone.
  pub map_get-write_file :
      (o : WriteOutcome) → (p == q) ≡ false → map_get q (write_file o p content d).1 ≡ map_get q d
  unfolding write_file
  map_get-write_file fine ne = ground (arith, map_get-map_insert q p content d)
  map_get-write_file refusal ne = refl
  map_get-write_file (torn left) ne = ground (arith, map_get-map_insert q p left d)

pub map_get-remove_file :
    (refused : Bool) (p q : Str) (d : Disk)
    → (p == q) ≡ false
    → map_get q (remove_file refused p d) ≡ map_get q d
unfolding remove_file
map_get-remove_file refused p q d ne = ground (arith, map_get-map_remove q p d)

-- A rename touches its two paths alone.
pub map_get-rename_file :
    (refused : Bool) (from to q : Str) (d : Disk)
    → (from == q) ≡ false
    → (to == q) ≡ false
    → map_get q (rename_file refused from to d).1 ≡ map_get q d
unfolding rename_file
map_get-rename_file refused from to q d ne ne' = elim (Option-cases (map_get from d)) [
  | inl missing ↦ ground arith
  | inr (content, there) ↦
      ground
        (arith, map_get-map_insert q to content (map_remove from d), map_get-map_remove q from d)
]

-- A rename that the system refuses, or whose source is missing, changes nothing.
pub rename_file_failed :
    (refused : Bool) (from to : Str) (d : Disk)
    → (rename_file refused from to d).0 ≡ false
    → (rename_file refused from to d).1 ≡ d
unfolding rename_file
rename_file_failed refused from to d h = ground arith

-- After a write and a rename that succeed, the target has the contents written.
pub write_rename :
    (refused : Bool) (o : WriteOutcome) (tmp to content : Str) (d : Disk)
    → (write_file o tmp content d).0 ≡ true
    → (rename_file refused tmp to (write_file o tmp content d).1).0 ≡ true
    → map_get to (rename_file refused tmp to (write_file o tmp content d).1).1 ≡ some content
unfolding write_file rename_file
write_rename refused fine tmp to content d w r = ground (
  arith,
  ==_iff tmp tmp,
  ==_iff to to,
  map_get-map_insert tmp tmp content d,
  map_get-map_insert to to content (map_remove tmp (map_insert tmp content d)),
)
write_rename refused refusal tmp to content d w r = cc
write_rename refused (torn left) tmp to content d w r = cc
