-- ===== src/Memory/Tests.antt =====
-- The statistics and the history of a small journal.
use prolog_forge.Prelude.{
  ℕ, min, List, [], ◌∷◌, none, some, ◌≡◌, ◌↔◌, refl, nat_eq, list_eq, bytes, Str, length, In,
  if◌then◌else◌, ◌==◌, true, false, sort_by, insert_sorted, ok,
}
use prolog_forge.Commit.Journal.{CommitEntry}
use prolog_forge.Memory.{
  Decoder, DirEntry, holds, known_schema, read_entries, list, HistoryFilter, HistoryItem, history,
  MemoryStats, stats,
}
use prolog_forge.Memory.Touched.{touched_paths, stats_touched}
use prolog_forge.Memory.Newest.{NewestFirst, Shows, history-Shows}

abbrev entry : Str → ℕ → CommitEntry
entry id time = record {
  schema = 1;
  commit_id = id;
  timestamp_unix = time;
  label = bytes "rename";
  files = record { path = bytes "src/lib.rs"; before = bytes "a"; after = bytes "b" } ∷ [];
  ops_summary = bytes "rename_function" ∷ [];
  validation_profile = none;
  total_replacements = 1;
}

abbrev journal : List CommitEntry
journal = entry (bytes "c1") 1 ∷ entry (bytes "c2") 2 ∷ []

abbrev all_entries : HistoryFilter
all_entries = record {
  label_prefix = some (bytes "ren");
  op_tag = none;
  validation_profile = none;
  limit = none;
}

-- A reader that knows two files, by their first byte.
abbrev decode : Decoder
decode [] = none
decode (b ∷ bs) = if b == 49 then some (entry (bytes "c1") 1) else some (entry (bytes "c2") 2)

abbrev directory : List DirEntry
directory =
    record { is_json = true; content = some (bytes "2") }
    ∷ record { is_json = false; content = some (bytes "1") }
    ∷ record { is_json = true; content = none }
    ∷ record { is_json = true; content = some (bytes "1") }
    ∷ []

list-directory : list decode (holds directory) ≡ ok journal
unfolding list read_entries known_schema sort_by insert_sorted
list-directory = refl

stats_touched_example :
    (s : MemoryStats) × (stats decode (holds directory) ≡ ok s)
    × (s.files_touched ≡ min 20 (length (touched_paths journal [])))
stats_touched_example = stats_touched decode (holds directory) journal list-directory

history-Shows_example :
    (items : List HistoryItem) × (history decode (holds directory) all_entries ≡ ok items)
    × NewestFirst items
    × ((item : HistoryItem)
        → In item items ↔ Shows all_entries (read_entries decode directory) item)
history-Shows_example = history-Shows decode directory all_entries refl
