-- ===== src/Rename/Workspace/Files.antt =====
-- What `apply_workspace_edit` of crates/aa-patch/src/typed_rename.rs does to the file map.
use prolog_forge.Prelude.{
  ◌≡◌, refl, sym, ◌∙◌, ap, List, [], ◌∷◌, some, true, false, ◌==◌, nat_eq, list_eq, Str, Map,
  map_get, map_insert, map_get-map_insert, arith, ==_iff, ==_self, Option-cases, Result-cases, ok,
  inl, inr, In, elem, is_distinct, In→elem, filter_map, In-filter_map_of,
}
use prolog_forge.Rename.Edits.{TextEdit, apply_text_edits}
use prolog_forge.Rename.Workspace
use prolog_forge.Rename.Workspace.{
  WorkspaceEdit, flatten, apply_edits, apply_workspace_edit, uri_to_relative,
}

-- The files of a workspace that the edits name.
abbrev pub targets_of : Str → List (Str × List TextEdit) → List Str
targets_of root edits = filter_map (λ (e : Str × List TextEdit). uri_to_relative e.0 root) edits

-- One document edited: its file was there, took its edits, and no other file has changed.
pub record Edited (root uri : Str) (edits : List TextEdit) (files files' : Map Str Str)
    : Type 0 where
  pub rel : Str
  pub source : Str
  pub new : Str
  pub names : uri_to_relative uri root ≡ some rel
  pub had : map_get rel files ≡ some source
  pub takes : apply_text_edits source edits ≡ ok new
  pub result : files' ≡ map_insert rel new files

edit_document-Edited :
    (root uri : Str) (edits : List TextEdit) (files files' : Map Str Str)
    → Workspace.edit_document uri edits (uri_to_relative uri root) files ≡ ok files'
    → Edited root uri edits files files'
unfolding Workspace.edit_document Workspace.edit_file
edit_document-Edited root uri edits files files' h =
    elim (Option-cases (uri_to_relative uri root)) [
      | inl missing ↦ absurd (cc (rw (missing, Workspace.edit_document) at h))
      | inr (rel, there) ↦ elim (Option-cases (map_get rel files)) [
        | inl missing ↦
            absurd (cc (rw (there, missing, Workspace.edit_document, Workspace.edit_file) at h))
        | inr (source, found) ↦ elim (Result-cases (apply_text_edits source edits)) [
          | inr (e, failed) ↦
              absurd
                (cc (rw (there, found, failed, Workspace.edit_document, Workspace.edit_file) at h))
          | inl (new, done) ↦
              let same : ok (map_insert rel new files) ≡ ok files' =
                rw (there, found, done, Workspace.edit_document, Workspace.edit_file) at h in
              record {
                rel = rel;
                source = source;
                new = new;
                names = there;
                had = found;
                takes = done;
                result = cc;
              }
        ]
      ]
    ]

pub apply_edits_first :
    (root uri : Str) (edits : List TextEdit) (more : List (Str × List TextEdit))
    (files files' : Map Str Str)
    → apply_edits ((uri, edits) ∷ more) root files ≡ ok files'
    → (mid : Map Str Str) × Edited root uri edits files mid
      × (apply_edits more root mid ≡ ok files')
unfolding apply_edits
apply_edits_first root uri edits more files files' h =
    elim (Result-cases (Workspace.edit_document uri edits (uri_to_relative uri root) files)) [
      | inr (e, failed) ↦ absurd (cc (rw (failed, apply_edits) at h))
      | inl (mid, done) ↦
          (mid, edit_document-Edited root uri edits files mid done, rw (done, apply_edits) at h)
    ]

apply_edits_others :
    (root : Str) (all : List (Str × List TextEdit)) (files files' : Map Str Str) (q : Str)
    → apply_edits all root files ≡ ok files'
    → elem q (targets_of root all) ≡ false
    → map_get q files' ≡ map_get q files
unfolding apply_edits elem filter_map
apply_edits_others root [] files files' q h k = let same : files ≡ files' = cc in rw (← same) refl
apply_edits_others root ((uri, edits) ∷ more) files files' q h k =
    let (mid, step, rest) = apply_edits_first root uri edits more files files' h in
    let k' : elem q (step.rel ∷ targets_of root more) ≡ false = rw (step.names, filter_map) at k in
    let other : (step.rel == q) ≡ false = ground arith in
    apply_edits_others root more mid files' q rest (ground arith)
    ∙ ap (map_get q) step.result
    ∙ rw (map_get-map_insert q step.rel step.new files, other) refl

-- What a document's edits promise: its file was there, and now has them applied.
pub record Renamed (root uri : Str) (edits : List TextEdit) (files files' : Map Str Str)
    : Type 0 where
  pub rel : Str
  pub source : Str
  pub new : Str
  pub names : uri_to_relative uri root ≡ some rel
  pub had : map_get rel files ≡ some source
  pub takes : apply_text_edits source edits ≡ ok new
  pub has : map_get rel files' ≡ some new

not_among :
    (root uri rel : Str) (edits : List TextEdit) (more : List (Str × List TextEdit))
    → In (uri, edits) more
    → uri_to_relative uri root ≡ some rel
    → elem rel (targets_of root more) ≡ true
not_among root uri rel edits more m names = In→elem rel (targets_of root more) (
    In-filter_map_of (λ (e : Str × List TextEdit). uri_to_relative e.0 root) (uri, edits) rel more m
      names)

apply_edits_each :
    (root : Str) (all : List (Str × List TextEdit)) (files files' : Map Str Str) (uri : Str)
    (edits : List TextEdit)
    → is_distinct (targets_of root all) ≡ true
    → apply_edits all root files ≡ ok files'
    → In (uri, edits) all
    → Renamed root uri edits files files'
unfolding is_distinct elem filter_map
apply_edits_each root [] files files' uri edits d h m = elim m [ ]
apply_edits_each root ((u, es) ∷ more) files files' uri edits d h m =
    let (mid, step, rest) = apply_edits_first root u es more files files' h in
    let d' : is_distinct (step.rel ∷ targets_of root more) ≡ true =
      rw (step.names, filter_map) at d in
    elim m [
      | inl same ↦
          let us : uri ≡ u = ap (λ p. p.0) same in
          let ess : edits ≡ es = ap (λ p. p.1) same in
          record {
            rel = step.rel;
            source = step.source;
            new = step.new;
            names = ap (λ x. uri_to_relative x root) us ∙ step.names;
            had = step.had;
            takes = ap (apply_text_edits step.source) ess ∙ step.takes;
            has =
                apply_edits_others root more mid files' step.rel rest (ground arith)
                ∙ ap (map_get step.rel) step.result
                ∙ rw (map_get-map_insert step.rel step.rel step.new files, ==_self step.rel) refl;
          }
      | inr later ↦
          let r = apply_edits_each root more mid files' uri edits (ground arith) rest later in
          let among = not_among root uri r.rel edits more later r.names in
          let other : (step.rel == r.rel) ≡ false = ground (arith, ==_iff step.rel r.rel) in
          record {
            rel = r.rel;
            source = r.source;
            new = r.new;
            names = r.names;
            had =
                sym (
                  ap (map_get r.rel) step.result
                  ∙ rw (map_get-map_insert r.rel step.rel step.new files, other) refl)
                ∙ r.had;
            takes = r.takes;
            has = r.has;
          }
    ]

-- When `apply_workspace_edit` succeeds, and no two documents of the unified edit name one file, each
-- document names a file of the map, that file has the document's edits applied, and every file that
-- no document names is as it was.
pub apply_workspace_edit_renames :
    (files files' : Map Str Str) (w : WorkspaceEdit) (root : Str)
    → is_distinct (targets_of root (flatten w)) ≡ true
    → apply_workspace_edit files w root ≡ ok files'
    → ((uri : Str) (edits : List TextEdit)
        → In (uri, edits) (flatten w)
        → Renamed root uri edits files files')
      × ((q : Str)
          → elem q (targets_of root (flatten w)) ≡ false
          → map_get q files' ≡ map_get q files)
unfolding apply_workspace_edit
apply_workspace_edit_renames files files' w root d h = (
  λ uri edits m. apply_edits_each root (flatten w) files files' uri edits d h m,
  λ q k. apply_edits_others root (flatten w) files files' q h k,
)
