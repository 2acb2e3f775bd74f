-- ===== src/Commit/Journal/Stored.antt =====
-- The journal on the disk, crates/aa-core/src/journal.rs: `read` and `delete` after `write`, and
-- the other files.
use prolog_forge.Prelude.{
  ◌≡◌, refl, ap, ◌∙◌, none, some, true, false, ◌==◌, nat_eq, list_eq, Str, map_get,
  map_get-map_remove, map_remove, ==_self, Option-cases, Bool-cases, inl, inr, ok, err,
}
use prolog_forge.Commit.Disk.{
  Disk, write_file, rename_file, remove_file, write_rename, map_get-write_file, map_get-rename_file,
  map_get-remove_file,
}
use prolog_forge.Commit.Journal
use prolog_forge.Commit.Journal.{
  CommitEntry, JournalError, Codec, JournalEnv, schema_version, entry_path, tmp_path, not_found,
}

-- The reader takes back what the writer made.
abbrev pub Decodes : Codec → Type 0
Decodes codec =
    (entry : CommitEntry) (content : Str)
    → codec.encode entry ≡ some content
    → codec.decode content ≡ some entry

module _ (codec : Codec) (env : JournalEnv) (root : Str) (entry : CommitEntry) (d d' : Disk) where
  abbrev path : Str
  path = entry_path root entry.commit_id

  abbrev tmp : Str
  tmp = tmp_path root entry.commit_id

  -- A write that succeeds made its three calls.
  record Written : Type 0 where
    pub content : Str
    pub encoded : codec.encode entry ≡ some content
    pub wrote : (write_file env.write tmp content d).0 ≡ true
    pub renamed : (rename_file env.rename tmp path (write_file env.write tmp content d).1).0 ≡ true
    pub left : d' ≡ (rename_file env.rename tmp path (write_file env.write tmp content d).1).1

  write-Written : Journal.write codec env root entry d ≡ (ok tt, d') → Written
  unfolding Journal.write Journal.store_encoded Journal.store_bytes
  write-Written h = elim (Bool-cases env.create_dir) [
    | inl refused ↦ absurd (cc (rw (refused, Journal.write) at h))
    | inr made ↦ elim (Option-cases (codec.encode entry)) [
      | inl none_made ↦
          absurd (cc (rw (made, none_made, Journal.write, Journal.store_encoded) at h))
      | inr (content, encoded) ↦
          let h₁ = rw (made, encoded, Journal.write, Journal.store_encoded) at h in
          let d₁ = (write_file env.write tmp content d).1 in
          elim (Bool-cases (write_file env.write tmp content d).0) [
            | inr failed ↦ absurd (cc (rw (failed, Journal.store_bytes) at h₁))
            | inl wrote ↦ elim (Bool-cases (rename_file env.rename tmp path d₁).0) [
              | inr failed ↦ absurd (cc (rw (wrote, failed, Journal.store_bytes) at h₁))
              | inl renamed ↦
                  let last : (ok tt, (rename_file env.rename tmp path d₁).1) ≡ (ok tt, d') =
                    rw (wrote, renamed, Journal.store_bytes) at h₁ in
                  record {
                    content = content;
                    encoded = encoded;
                    wrote = wrote;
                    renamed = renamed;
                    left = cc;
                  }
            ]
          ]
    ]
  ]

  -- An entry of the current schema that `write` stored is what `read` finds, when the system lets it read.
  pub journal_round_trip :
      Decodes codec
      → entry.schema ≡ schema_version
      → env.read path ≡ false
      → Journal.write codec env root entry d ≡ (ok tt, d')
      → Journal.read codec env root entry.commit_id d' ≡ ok entry
  unfolding Journal.read Journal.read_found Journal.decoded Journal.check_schema
  journal_round_trip law schema reads h =
      let w = write-Written h in
      let found : map_get path d' ≡ some w.content =
        ap (map_get path) w.left
        ∙ write_rename env.rename env.write tmp path w.content d w.wrote w.renamed in
      rw (found, reads, law entry w.content w.encoded, schema) refl

  pub write_others :
      (q : Str)
      → Journal.write codec env root entry d ≡ (ok tt, d')
      → (path == q) ≡ false
      → (tmp == q) ≡ false
      → map_get q d' ≡ map_get q d
  write_others q h other other' =
      let w = write-Written h in
      ap (map_get q) w.left
      ∙ map_get-rename_file env.rename tmp path q (write_file env.write tmp w.content d).1 other'
          other
      ∙ map_get-write_file tmp q w.content d env.write other'

module _ (codec : Codec) (env : JournalEnv) (root commit_id : Str) (d : Disk) where
  pub delete_others :
      (q : Str)
      → (entry_path root commit_id == q) ≡ false
      → map_get q (Journal.delete codec env root commit_id d).1 ≡ map_get q d
  unfolding Journal.delete Journal.delete_found
  delete_others q other = elim (Option-cases (map_get (entry_path root commit_id) d)) [
    | inl missing ↦ rw (missing, Journal.delete, Journal.delete_found) refl
    | inr (content, there) ↦ elim (Bool-cases env.remove) [
      | inl refused ↦ rw (there, refused, Journal.delete, Journal.delete_found) refl
      | inr removed ↦
          rw (there, removed, Journal.delete, Journal.delete_found)
            (map_get-remove_file false (entry_path root commit_id) q d other)
    ]
  ]

  pub delete_ok : env.remove ≡ false → (Journal.delete codec env root commit_id d).0 ≡ ok tt
  unfolding Journal.delete Journal.delete_found
  delete_ok h = elim (Option-cases (map_get (entry_path root commit_id) d)) [
    | inl missing ↦ rw (missing, Journal.delete, Journal.delete_found) refl
    | inr (content, there) ↦ rw (there, h, Journal.delete, Journal.delete_found) refl
  ]

  -- After a `delete` that succeeds the commit is not found.
  pub read_after_delete :
      (d' : Disk)
      → Journal.delete codec env root commit_id d ≡ (ok tt, d')
      → Journal.read codec env root commit_id d' ≡ err (not_found commit_id)
  unfolding Journal.delete Journal.delete_found Journal.read Journal.read_found remove_file
  read_after_delete d' h =
      let path = entry_path root commit_id in
      elim (Option-cases (map_get path d)) [
        | inl missing ↦
            let same : d ≡ d' = cc (rw (missing, Journal.delete, Journal.delete_found) at h) in
            rw (← same, missing, Journal.read, Journal.read_found) refl
        | inr (content, there) ↦ elim (Bool-cases env.remove) [
          | inl refused ↦
              absurd (cc (rw (there, refused, Journal.delete, Journal.delete_found) at h))
          | inr removed ↦
              let same : map_remove path d ≡ d' =
                cc (rw (there, removed, Journal.delete, Journal.delete_found) at h) in
              let gone : map_get path (map_remove path d) ≡ none =
                rw (map_get-map_remove path path d, ==_self path) refl in
              rw (← same, gone, Journal.read, Journal.read_found) refl
        ]
      ]
