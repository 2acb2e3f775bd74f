-- ===== src/Commit/Journal.antt =====
-- The journal of commits, crates/aa-core/src/journal.rs, and the entry that a commit writes to it,
-- crates/aa-core/src/handlers.rs. The JSON writer and reader are parameters; the clock's time is an argument.
pub mod Stored
use prolog_forge.Prelude.{
  ℕ, suc, ◌+◌, ◌≡◌, List, [], ◌∷◌, ◌++◌, Option, none, some, Bool, true, false, not, ◌==◌, nat_eq,
  list_eq, eqb, leb, Str, bytes, length, drop, take, ◌-◌, Map, map_get, filter_map, if◌then◌else◌,
  Result, ok, err,
}
use prolog_forge.Commit.Disk.{
  Disk, WriteOutcome, write_file, rename_file, remove_file, read_file, join,
}

pub record CommitFile : Type 0 where
  pub path : Str
  pub before : Str
  pub after : Str

pub record CommitEntry : Type 0 where
  pub schema : ℕ
  pub commit_id : Str
  pub timestamp_unix : ℕ
  pub label : Str
  pub files : List CommitFile
  pub ops_summary : List Str
  pub validation_profile : Option Str
  pub total_replacements : ℕ

pub data JournalError : Type 0 where
  io json : JournalError
  not_found : Str → JournalError
  unsupported_schema : ℕ → JournalError

abbrev pub schema_version : ℕ
schema_version = 1

-- `serde_json` at the type of entries.
pub record Codec : Type 0 where
  pub encode : CommitEntry → Option Str
  pub decode : Str → Option CommitEntry

-- What the system does with each call; `true` refuses.
pub record JournalEnv : Type 0 where
  pub create_dir : Bool
  pub write : WriteOutcome
  pub rename : Bool
  pub read : Str → Bool
  pub remove : Bool

unfoldable pub journal_dir : Str → Str
journal_dir root = join root (bytes ".aye-aye/journal")

unfoldable pub entry_path : Str → Str → Str
unfolding journal_dir
entry_path root commit_id = join (journal_dir root) (commit_id ++ bytes ".json")

-- `with_extension("json.tmp")` on a path that ends in `.json`.
unfoldable pub tmp_path : Str → Str → Str
unfolding entry_path
tmp_path root commit_id = entry_path root commit_id ++ bytes ".tmp"

store_bytes : JournalEnv → Str → Str → Str → Disk → Result {0, 0} JournalError Unit × Disk
store_bytes env path tmp content d =
    let (wrote, d₁) = write_file env.write tmp content d in
    elim wrote [
      | false ↦ (err io, d₁)
      | true ↦
          let (renamed, d₂) = rename_file env.rename tmp path d₁ in
          elim renamed [ false ↦ (err io, d₂) | true ↦ (ok tt, d₂) ]
    ]

store_encoded : JournalEnv → Str → Str → Option Str → Disk → Result {0, 0} JournalError Unit × Disk
unfolding store_bytes
store_encoded env path tmp none d = (err json, d)
store_encoded env path tmp (some content) d = store_bytes env path tmp content d

check_schema : CommitEntry → Result JournalError CommitEntry
check_schema entry =
    if eqb entry.schema schema_version then ok entry else err (unsupported_schema entry.schema)

decoded : Option CommitEntry → Result JournalError CommitEntry
unfolding check_schema
decoded none = err json
decoded (some entry) = check_schema entry

read_found : Codec → Bool → Str → Option Str → Result JournalError CommitEntry
unfolding decoded
read_found codec denied commit_id none = err (not_found commit_id)
read_found codec denied commit_id (some content) =
    if denied then err io else decoded (codec.decode content)

delete_found : Bool → Str → Option Str → Disk → Result {0, 0} JournalError Unit × Disk
delete_found denied path none d = (ok tt, d)
delete_found denied path (some content) d =
    if denied then (err io, d) else (ok tt, remove_file false path d)

module _ (codec : Codec) (env : JournalEnv) (root : Str) where
  unfoldable pub write : CommitEntry → Disk → Result {0, 0} JournalError Unit × Disk
  unfolding store_encoded
  write entry d =
      if env.create_dir
      then (err io, d)
      else store_encoded env (entry_path root entry.commit_id) (tmp_path root entry.commit_id)
          (codec.encode entry) d

  unfoldable pub read : Str → Disk → Result JournalError CommitEntry
  unfolding read_found
  read commit_id d =
      let path = entry_path root commit_id in
      read_found codec (env.read path) commit_id (map_get path d)

  unfoldable pub delete : Str → Disk → Result {0, 0} JournalError Unit × Disk
  unfolding delete_found
  delete commit_id d =
      let path = entry_path root commit_id in delete_found env.remove path (map_get path d) d

unfoldable pub new_entry : ℕ → Str → Str → List CommitFile → CommitEntry
new_entry now commit_id label files = record {
  schema = schema_version;
  commit_id = commit_id;
  timestamp_unix = now;
  label = label;
  files = files;
  ops_summary = [];
  validation_profile = none;
  total_replacements = 0;
}

unfoldable pub new_entry_with_stats :
    ℕ → Str → Str → List CommitFile → List Str → Option Str → ℕ → CommitEntry
unfolding new_entry
new_entry_with_stats now commit_id label files ops_summary validation_profile total_replacements =
    record (new_entry now commit_id label files) {
      ops_summary = ops_summary;
      validation_profile = validation_profile;
      total_replacements = total_replacements;
    }

unfoldable pub file_from : Option Str → Str → Str → Option CommitFile
file_from none rel new_content = none
file_from (some before) rel new_content =
    if before == new_content
    then none
    else some (record { path = rel; before = before; after = new_content })

-- The files of the entry that `handle_patch_apply` writes.
unfoldable pub commit_files : Map Str Str → Map Str Str → List CommitFile
unfolding file_from filter_map
commit_files shadow original =
    filter_map (λ (e : Str × Str). file_from (map_get e.0 original) e.0 e.1) shadow
