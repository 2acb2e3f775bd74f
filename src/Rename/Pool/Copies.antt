-- ===== src/Rename/Pool/Copies.antt =====
-- The session pool's edit functions, crates/aa-core/src/ra_pool.rs, against the ones that they copy.
use prolog_forge.Prelude.{
  ℕ, suc, ◌+◌, ◌≡◌, refl, sym, ap, ◌∙◌, List, [], ◌∷◌, Option, none, some, nat_eq, list_eq, Str,
  bytes, length, slice, get_elem?, Map, map_get, Result, ok, err, All, get_or,
}
use prolog_forge.Rename.Edits
use prolog_forge.Rename.Edits.{Position, Range, TextEdit, ByteEdit, TypedRenameError}
use prolog_forge.Rename.Workspace
use prolog_forge.Rename.Workspace.{
  RawChange, WorkspaceEdit, document_edits, flatten, flatten_from, add_change, uri_to_relative,
}
use prolog_forge.Rename.Pool

line_starts_from_copy :
    (i : ℕ) (bs : Str) → Pool.line_starts_from i bs ≡ Edits.line_starts_from i bs
unfolding Pool.line_starts_from Edits.line_starts_from
line_starts_from_copy i [] = refl
line_starts_from_copy i (b ∷ bs) = rw (line_starts_from_copy (suc i) bs) refl

line_starts_copy : (src : Str) → Pool.line_starts src ≡ Edits.line_starts src
unfolding Pool.line_starts Edits.line_starts
line_starts_copy src = ap (λ rest. 0 ∷ rest) (line_starts_from_copy 0 src)

walk_copy :
    (character i cu : ℕ) (bs : Str) → Pool.walk character i cu bs ≡ Edits.walk character i cu bs
unfolding Pool.walk Edits.walk
walk_copy character i cu [] = refl
walk_copy character i cu (b ∷ bs) =
    rw (walk_copy character (suc i) cu bs, walk_copy character (suc i) (cu + Edits.len_utf16 b) bs)
      refl

column_to_byte_copy :
    (a b : ℕ) (text : Str) (character : ℕ)
    → Pool.column_to_byte a b text character ≡ Edits.column_to_byte a b text character
unfolding Pool.column_to_byte Edits.column_to_byte
column_to_byte_copy a b text character = rw (walk_copy character a 0 text) refl

line_to_byte_copy :
    (o : Option ℕ) (starts : List ℕ) (src : Str) (line character : ℕ)
    → Pool.line_to_byte o starts src line character ≡ Edits.line_to_byte o starts src line character
unfolding Pool.line_to_byte Edits.line_to_byte
line_to_byte_copy none starts src line character = refl
line_to_byte_copy (some a) starts src line character =
    let b = get_or (get_elem? starts (suc line)) (length src) in
    column_to_byte_copy a b (slice a b src) character

linecol_to_byte_copy :
    (starts : List ℕ) (src : Str) (line character : ℕ)
    → Pool.linecol_to_byte starts src line character
      ≡ Edits.linecol_to_byte starts src line character
unfolding Pool.linecol_to_byte Edits.linecol_to_byte
linecol_to_byte_copy starts src line character =
    line_to_byte_copy (get_elem? starts line) starts src line character

start_to_byte_copy :
    (e : TextEdit) (a b : Option ℕ) → Pool.start_to_byte e a b ≡ Edits.start_to_byte e a b
unfolding Pool.start_to_byte Edits.start_to_byte Pool.stop_to_byte Edits.stop_to_byte
    Pool.ordered_edit Edits.ordered_edit
start_to_byte_copy e none b = refl
start_to_byte_copy e (some a) none = refl
start_to_byte_copy e (some a) (some b) = refl

to_byte_edit_copy :
    (starts : List ℕ) (src : Str) (e : TextEdit)
    → Pool.to_byte_edit starts src e ≡ Edits.to_byte_edit starts src e
unfolding Pool.to_byte_edit Edits.to_byte_edit
to_byte_edit_copy starts src e =
    rw
      (
        linecol_to_byte_copy starts src e.range.start.line e.range.start.character,
        linecol_to_byte_copy starts src e.range.stop.line e.range.stop.character,
      )
      (start_to_byte_copy e
        (Edits.linecol_to_byte starts src e.range.start.line e.range.start.character)
        (Edits.linecol_to_byte starts src e.range.stop.line e.range.stop.character))

to_byte_edits_copy :
    (starts : List ℕ) (src : Str) (es : List TextEdit)
    → Pool.to_byte_edits starts src es ≡ Edits.to_byte_edits starts src es
unfolding Pool.to_byte_edits Edits.to_byte_edits
to_byte_edits_copy starts src [] = refl
to_byte_edits_copy starts src (e ∷ es) =
    ap
      (λ r. elim r [
        | err x ↦ err x
        | ok b ↦ elim (Pool.to_byte_edits starts src es) [ err x ↦ err x | ok bs ↦ ok (b ∷ bs) ]
      ])
      (to_byte_edit_copy starts src e)
    ∙ ap
        (λ rest. elim (Edits.to_byte_edit starts src e) [
          | err x ↦ err x
          | ok b ↦ elim rest [ err x ↦ err x | ok bs ↦ ok (b ∷ bs) ]
        ])
        (to_byte_edits_copy starts src es)

has_overlap_copy : (es : List ByteEdit) → Pool.has_overlap es ≡ Edits.has_overlap es
unfolding Pool.has_overlap Edits.has_overlap
has_overlap_copy [] = refl
has_overlap_copy (e ∷ []) = refl
has_overlap_copy (e ∷ f ∷ fs) = rw (has_overlap_copy (f ∷ fs)) refl

splice_back_copy :
    (es : List ByteEdit) (src : Str) → Pool.splice_back es src ≡ Edits.splice_back es src
unfolding Pool.splice_back Edits.splice_back
splice_back_copy [] src = refl
splice_back_copy (e ∷ es) src = rw (splice_back_copy es src) refl

splice_sorted_copy :
    (es : List ByteEdit) (src : Str) → Pool.splice_sorted es src ≡ Edits.splice_sorted es src
unfolding Pool.splice_sorted Edits.splice_sorted
splice_sorted_copy es src = rw (has_overlap_copy es, splice_back_copy es src) refl

apply_text_edits_copy :
    (source : Str) (edits : List TextEdit)
    → Pool.apply_text_edits source edits ≡ Edits.apply_text_edits source edits
unfolding Pool.apply_text_edits Edits.apply_text_edits
apply_text_edits_copy source edits =
    ap (λ r. elim r [ err x ↦ err x | ok es ↦ Pool.splice_sorted (Edits.sort_by_start es) source ])
      (ap (λ starts. Pool.to_byte_edits starts source edits) (line_starts_copy source)
        ∙ to_byte_edits_copy (Edits.line_starts source) source edits)
    ∙ after (Edits.to_byte_edits (Edits.line_starts source) source edits)
  where
    after :
        (r : Result TypedRenameError (List ByteEdit))
        → elim r [ err x ↦ err x | ok es ↦ Pool.splice_sorted (Edits.sort_by_start es) source ]
          ≡ elim r [ err x ↦ err x | ok es ↦ Edits.splice_sorted (Edits.sort_by_start es) source ]
    after (err x) = refl
    after (ok es) = splice_sorted_copy (Edits.sort_by_start es) source

uri_to_relative_copy :
    (uri root : Str) → Pool.uri_to_relative uri root ≡ Workspace.uri_to_relative uri root
unfolding Pool.uri_to_relative Workspace.uri_to_relative Pool.strip_root Workspace.strip_root
uri_to_relative_copy uri root = go (Workspace.strip_prefix (bytes "file://") uri)
  where
    go : (o : Option Str) → Pool.strip_root root o ≡ Workspace.strip_root root o
    go none = refl
    go (some path) = refl

edit_file_copy :
    (rel : Str) (edits : List TextEdit) (o : Option Str) (files : Map Str Str)
    → Pool.edit_file rel edits o files ≡ Workspace.edit_file rel edits o files
unfolding Pool.edit_file Workspace.edit_file
edit_file_copy rel edits none files = refl
edit_file_copy rel edits (some source) files =
    rw (apply_text_edits_copy source edits, Pool.edit_file, Workspace.edit_file) refl

edit_document_copy :
    (uri : Str) (edits : List TextEdit) (o : Option Str) (files : Map Str Str)
    → Pool.edit_document uri edits o files ≡ Workspace.edit_document uri edits o files
unfolding Pool.edit_document Workspace.edit_document
edit_document_copy uri edits none files = refl
edit_document_copy uri edits (some rel) files = edit_file_copy rel edits (map_get rel files) files

apply_edits_copy :
    (all : List (Str × List TextEdit)) (root : Str) (files : Map Str Str)
    → Pool.apply_edits all root files ≡ Workspace.apply_edits all root files
unfolding Pool.apply_edits Workspace.apply_edits
apply_edits_copy [] root files = refl
apply_edits_copy ((uri, edits) ∷ more) root files =
    rw
      (
        uri_to_relative_copy uri root,
        edit_document_copy uri edits (Workspace.uri_to_relative uri root) files,
        Pool.apply_edits,
        Workspace.apply_edits,
      )
      (after (Workspace.edit_document uri edits (Workspace.uri_to_relative uri root) files)
        (apply_edits_copy more root))
  where
    after :
        (r : Result TypedRenameError (Map Str Str))
        → ((files' : Map Str Str)
            → Pool.apply_edits more root files' ≡ Workspace.apply_edits more root files')
        → elim r [ err e ↦ err e | ok files' ↦ Pool.apply_edits more root files' ]
          ≡ elim r [ err e ↦ err e | ok files' ↦ Workspace.apply_edits more root files' ]
    after (err e) rest = refl
    after (ok files') rest = rest files'

-- For every edit, the session pool's `apply_workspace_edit` does what the one-shot resolver's does with
-- the edit whose `documentChanges` are left out.
pub pool_drops_document_changes :
    (files : Map Str Str) (w : WorkspaceEdit) (root : Str)
    → Pool.apply_workspace_edit files w root
      ≡ Workspace.apply_workspace_edit files (record w { document_changes = [] }) root
unfolding Pool.apply_workspace_edit Workspace.apply_workspace_edit flatten flatten_from
pool_drops_document_changes files w root = apply_edits_copy w.changes root files

flatten_skips :
    (raws : List RawChange) (out : Map Str (List TextEdit))
    → All (λ raw. document_edits raw ≡ none) raws
    → flatten_from raws out ≡ out
unfolding flatten_from add_change
flatten_skips [] out h = refl
flatten_skips (raw ∷ raws) out (h, hs) = rw h (flatten_skips raws out hs)

-- When no entry of `documentChanges` has edits, the session pool and the one-shot resolver apply an edit
-- alike.
pub pool_agrees :
    (files : Map Str Str) (w : WorkspaceEdit) (root : Str)
    → All (λ raw. document_edits raw ≡ none) w.document_changes
    → Pool.apply_workspace_edit files w root ≡ Workspace.apply_workspace_edit files w root
unfolding Pool.apply_workspace_edit Workspace.apply_workspace_edit flatten
pool_agrees files w root h =
    apply_edits_copy w.changes root files
    ∙ ap (λ es. Workspace.apply_edits es root files)
        (sym (flatten_skips w.document_changes w.changes h))
