-- ===== src/Memory.antt =====
-- The history and the statistics of the journal, crates/aa-core/src/memory.rs, and the listing of the
-- journal, `list` of crates/aa-core/src/journal.rs. What the directory holds is an argument.
pub mod Touched
pub mod Newest
mod Tests
use prolog_forge.Prelude.{
  ℕ, zero, suc, ◌+◌, min, List, [], ◌∷◌, ◌++◌, Option, none, some, Bool, true, false, not, ◌&&◌,
  ◌||◌, ◌==◌, nat_eq, list_eq, Str, bytes, eqb, leb, ltb, length, elem, map, take, sort_by, str_le,
  Map, map_get, map_insert, get_or, if◌then◌else◌, Result, ok, err, ◌>>=◌,
}
use prolog_forge.Commit.Journal.{CommitFile, CommitEntry, JournalError, io, schema_version}

-- An entry of the journal's directory: whether it is named `*.json`, and its bytes if they can be read.
pub record DirEntry : Type 0 where
  pub is_json : Bool
  pub content : Option Str

pub data Listing : Type 0 where
  missing unreadable : Listing
  holds : List DirEntry → Listing

-- The JSON reader, on the bytes of a file.
abbrev pub Decoder : Type 0
Decoder = Str → Option CommitEntry

unfoldable pub known_schema : Option CommitEntry → Option CommitEntry
known_schema none = none
known_schema (some e) = if e.schema == schema_version then some e else none

read_content : Decoder → Option Str → Option CommitEntry
read_content decode none = none
read_content decode (some content) = decode content

unfoldable pub read_entries : Decoder → List DirEntry → List CommitEntry
unfolding known_schema read_content
read_entries decode [] = []
read_entries decode (d ∷ ds) =
    let rest = read_entries decode ds in
    if d.is_json
    then elim (known_schema (read_content decode d.content)) [ none ↦ rest | some e ↦ e ∷ rest ]
    else rest

abbrev pub oldest_first : CommitEntry → CommitEntry → Bool
oldest_first a b = leb a.timestamp_unix b.timestamp_unix

unfoldable pub list : Decoder → Listing → Result JournalError (List CommitEntry)
list decode missing = ok []
list decode unreadable = err io
list decode (holds ds) = ok (sort_by oldest_first (read_entries decode ds))

pub record HistoryFilter : Type 0 where
  pub label_prefix : Option Str
  pub op_tag : Option Str
  pub validation_profile : Option Str
  pub limit : Option ℕ

pub record HistoryItem : Type 0 where
  pub commit_id : Str
  pub timestamp_unix : ℕ
  pub label : Str
  pub files_changed : ℕ
  pub bytes_after : ℕ
  pub ops_summary : List Str
  pub validation_profile : Option Str
  pub total_replacements : ℕ

unfoldable pub bytes_written : List CommitFile → ℕ
bytes_written [] = 0
bytes_written (f ∷ fs) = length f.after + bytes_written fs

-- `HistoryItem::from`.
unfoldable pub item_of : CommitEntry → HistoryItem
unfolding bytes_written
item_of e = record {
  commit_id = e.commit_id;
  timestamp_unix = e.timestamp_unix;
  label = e.label;
  files_changed = length e.files;
  bytes_after = bytes_written e.files;
  ops_summary = e.ops_summary;
  validation_profile = e.validation_profile;
  total_replacements = e.total_replacements;
}

starts_with : Str → Str → Bool
starts_with s [] = true
starts_with [] (b ∷ prefix) = false
starts_with (c ∷ s) (b ∷ prefix) = let rest = starts_with s prefix in if b == c then rest else false

unfoldable pub fits_label : Option Str → CommitEntry → Bool
unfolding starts_with
fits_label none e = true
fits_label (some prefix) e = starts_with e.label prefix

unfoldable pub fits_tag : Option Str → CommitEntry → Bool
fits_tag none e = true
fits_tag (some tag) e = elem tag e.ops_summary

same_profile : Option Str → Str → Bool
same_profile none profile = false
same_profile (some p) profile = p == profile

unfoldable pub fits_profile : Option Str → CommitEntry → Bool
unfolding same_profile
fits_profile none e = true
fits_profile (some profile) e = same_profile e.validation_profile profile

unfoldable pub matches : HistoryFilter → CommitEntry → Bool
unfolding fits_label fits_tag fits_profile
matches filter e =
    fits_label filter.label_prefix e
    && (fits_tag filter.op_tag e && fits_profile filter.validation_profile e)

unfoldable pub matching : HistoryFilter → List CommitEntry → List HistoryItem
matching filter [] = []
matching filter (e ∷ es) =
    let rest = matching filter es in if matches filter e then item_of e ∷ rest else rest

abbrev pub newest_first : HistoryItem → HistoryItem → Bool
newest_first a b = leb b.timestamp_unix a.timestamp_unix

unfoldable pub truncate : Option ℕ → List HistoryItem → List HistoryItem
truncate none items = items
truncate (some n) items = take n items

unfoldable pub history_of : HistoryFilter → List CommitEntry → List HistoryItem
history_of filter entries = truncate filter.limit (sort_by newest_first (matching filter entries))

unfoldable pub history : Decoder → Listing → HistoryFilter → Result JournalError (List HistoryItem)
history decode listing filter = do all ← list decode listing; ok (history_of filter all)

pub record MemoryStats : Type 0 where
  pub commits : ℕ
  pub files_touched : ℕ
  pub by_op_kind : Map Str ℕ
  pub by_validation_profile : Map Str ℕ
  pub top_files : List (Str × ℕ)
  pub first_commit_at : Option ℕ
  pub last_commit_at : Option ℕ
  pub total_bytes_written : ℕ

-- `*entry(key).or_insert(0) += 1`.
unfoldable pub count_one : Str → Map Str ℕ → Map Str ℕ
count_one k m = map_insert k (get_or (map_get k m) 0 + 1) m

unfoldable pub count_all : List Str → Map Str ℕ → Map Str ℕ
count_all [] m = m
count_all (k ∷ ks) m = count_all ks (count_one k m)

-- What the loop over the entries changes.
pub record Totals : Type 0 where
  pub by_op_kind : Map Str ℕ
  pub by_profile : Map Str ℕ
  pub per_file : Map Str ℕ
  pub total_bytes : ℕ
  pub first : Option ℕ
  pub last : Option ℕ

unfoldable pub count_files : List CommitFile → Map Str ℕ → Map Str ℕ
count_files [] m = m
count_files (f ∷ fs) m = count_files fs (count_one f.path m)

earlier : Option ℕ → ℕ → ℕ
earlier none t = t
earlier (some v) t = min v t

later : Option ℕ → ℕ → ℕ
later none t = t
later (some v) t = if ltb v t then t else v

unfoldable pub add_entry : CommitEntry → Totals → Totals
unfolding earlier later
add_entry e t = record {
  by_op_kind = count_all e.ops_summary t.by_op_kind;
  by_profile = count_one (get_or e.validation_profile (bytes "unknown")) t.by_profile;
  per_file = count_files e.files t.per_file;
  total_bytes = t.total_bytes + bytes_written e.files;
  first = some (earlier t.first e.timestamp_unix);
  last = some (later t.last e.timestamp_unix);
}

unfoldable pub add_entries : List CommitEntry → Totals → Totals
add_entries [] t = t
add_entries (e ∷ es) t = add_entries es (add_entry e t)

abbrev pub no_totals : Totals
no_totals = record {
  by_op_kind = [];
  by_profile = [];
  per_file = [];
  total_bytes = 0;
  first = none;
  last = none;
}

-- By the count, the largest first, then by the path.
unfoldable pub busier : Str × ℕ → Str × ℕ → Bool
busier (p, m) (q, n) = if eqb m n then str_le p q else ltb n m

abbrev pub no_stats : MemoryStats
no_stats = record {
  commits = 0;
  files_touched = 0;
  by_op_kind = [];
  by_validation_profile = [];
  top_files = [];
  first_commit_at = none;
  last_commit_at = none;
  total_bytes_written = 0;
}

unfoldable pub stats_of : List CommitEntry → MemoryStats
unfolding busier
stats_of [] = no_stats
stats_of (e ∷ es) =
    let t = add_entries (e ∷ es) no_totals in
    let top_files = take 20 (sort_by busier t.per_file) in
    record {
      commits = length (e ∷ es);
      files_touched = length top_files;
      by_op_kind = t.by_op_kind;
      by_validation_profile = t.by_profile;
      top_files = top_files;
      first_commit_at = t.first;
      last_commit_at = t.last;
      total_bytes_written = t.total_bytes;
    }

unfoldable pub stats : Decoder → Listing → Result JournalError MemoryStats
stats decode listing = do entries ← list decode listing; ok (stats_of entries)
