-- ===== src/Rename/Workspace/Flatten.antt =====
-- The unified view of an edit, `WorkspaceEdit::flatten` of crates/aa-ra-client/src/types.rs.
use prolog_forge.Prelude.{
  ◌≡◌, refl, sym, ◌∙◌, ap, List, [], ◌∷◌, ◌++◌, append_assoc, append-nil, Option, none, some, ◌==◌,
  nat_eq, list_eq, get_or, Str, Map, map_get, map_get-map_insert, if◌then◌else◌, ==_iff, inl, inr,
  Bool-cases,
}
use prolog_forge.Rename.Edits.{TextEdit}
use prolog_forge.Rename.Workspace.{
  RawChange, WorkspaceEdit, document_edits, add_change, extend_entry, flatten_from, flatten,
}

of_document : Str → Option (Str × List TextEdit) → List TextEdit
of_document uri none = []
of_document uri (some (u, es)) = if u == uri then es else []

-- The edits of the entries for a document, in their order.
unfoldable pub edits_for : Str → List RawChange → List TextEdit
unfolding of_document
edits_for uri [] = []
edits_for uri (raw ∷ raws) = of_document uri (document_edits raw) ++ edits_for uri raws

edits_in : Str → Map Str (List TextEdit) → List TextEdit
edits_in uri m = get_or (map_get uri m) []

edits_in-add_change :
    (uri : Str) (o : Option (Str × List TextEdit)) (out : Map Str (List TextEdit))
    → edits_in uri (add_change o out) ≡ edits_in uri out ++ of_document uri o
unfolding edits_in add_change extend_entry of_document
edits_in-add_change uri none out = sym (append-nil (get_or (map_get uri out) []))
edits_in-add_change uri (some (u, es)) out = elim (Bool-cases (u == uri)) [
  | inl same ↦
      let e = (==_iff u uri).0 same in
      rw (map_get-map_insert uri u (get_or (map_get u out) [] ++ es) out, same, e) refl
  | inr other ↦
      rw (map_get-map_insert uri u (get_or (map_get u out) [] ++ es) out, other)
        (sym (append-nil (get_or (map_get uri out) [])))
]

edits_in-flatten_from :
    (uri : Str) (raws : List RawChange) (out : Map Str (List TextEdit))
    → edits_in uri (flatten_from raws out) ≡ edits_in uri out ++ edits_for uri raws
unfolding flatten_from edits_for
edits_in-flatten_from uri [] out = sym (append-nil (edits_in uri out))
edits_in-flatten_from uri (raw ∷ raws) out =
    edits_in-flatten_from uri raws (add_change (document_edits raw) out)
    ∙ ap (λ es. es ++ edits_for uri raws) (edits_in-add_change uri (document_edits raw) out)
    ∙ append_assoc (edits_in uri out) (of_document uri (document_edits raw)) (edits_for uri raws)

-- For each document `flatten` has the edits of `changes`, and after them those of the entries of
-- `documentChanges` for that document, in their order.
pub flatten_edits :
    (w : WorkspaceEdit) (uri : Str)
    → get_or (map_get uri (flatten w)) []
      ≡ get_or (map_get uri w.changes) [] ++ edits_for uri w.document_changes
unfolding flatten edits_in
flatten_edits w uri = edits_in-flatten_from uri w.document_changes w.changes
