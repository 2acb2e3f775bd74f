-- ===== src/Patch/Resolver/Keeps.antt =====
-- The resolvers of typed renames and the files of the map that they are given.
use prolog_forge.Prelude.{
  ℕ, ◌≡◌, refl, sym, subst, [], ◌∷◌, List, Option, none, some, true, nat_eq, list_eq, Str, Map,
  map_get, map_insert, map_get-map_insert, is_some, if◌then◌else◌, Bool, false, ◌==◌, contains_key,
  Bool-cases, inl, inr, Result, ok, err,
}
use prolog_forge.Rename.Edits.{TextEdit, TypedRenameError}
use prolog_forge.Rename.Workspace.{WorkspaceEdit, flatten, apply_edits, apply_workspace_edit}
use prolog_forge.Rename.Workspace.Files.{apply_edits_first}
use prolog_forge.Rename.Pool
use prolog_forge.Rename.Pool.Copies.{pool_drops_document_changes}
use prolog_forge.Retry.Poll.{ClientError}
use prolog_forge.Patch.Ops.{PatchPlan}
use prolog_forge.Patch.Plan.{Transforms, apply_plan}
use prolog_forge.Patch.Preview.Keeps.{Keeps, apply_plan-Keeps_of}
use prolog_forge.Patch.Resolver
use prolog_forge.Patch.Resolver.{
  Server, Session, RaSessionPool, Resolver, one_shot, pooled, resolve, resolve_inner, resolve_with,
  with_resolver,
}

map_insert-Keeps : (k v : Str) (m : Map Str Str) → Keeps m (map_insert k v m)
map_insert-Keeps k v m p h = rw (map_get-map_insert p k v m) (found (k == p))
  where
    found : (b : Bool) → is_some (if b then some v else map_get p m) ≡ true
    found true = refl
    found false = h

-- When there is a result, it has every file.
abbrev AllKept : Map Str Str → Result {0, 0} TypedRenameError (Map Str Str) → Type 0
AllKept files (err e) = Unit
AllKept files (ok files') = Keeps files files'

apply_edits-Keeps :
    (all : List (Str × List TextEdit)) (root : Str) (files files' : Map Str Str)
    → apply_edits all root files ≡ ok files'
    → Keeps files files'
unfolding apply_edits
apply_edits-Keeps [] root files files' h p k = let same : files ≡ files' = cc in rw (← same) k
apply_edits-Keeps ((uri, edits) ∷ more) root files files' h p k =
    let (mid, step, rest) = apply_edits_first root uri edits more files files' h in
    apply_edits-Keeps more root mid files' rest p
      (rw step.result (map_insert-Keeps step.rel step.new files p k))

apply_workspace_edit-Kept :
    (files : Map Str Str) (edit : WorkspaceEdit) (root : Str)
    (r : Result TypedRenameError (Map Str Str))
    → apply_workspace_edit files edit root ≡ r
    → AllKept files r
unfolding apply_workspace_edit
apply_workspace_edit-Kept files edit root (err e) h = tt
apply_workspace_edit-Kept files edit root (ok files') h =
    apply_edits-Keeps (flatten edit) root files files' h

apply_answer-Kept :
    (server : Server) (files : Map Str Str) (root : Str) (r : Result ClientError WorkspaceEdit)
    → AllKept files (Resolver.apply_answer server files root r)
unfolding Resolver.apply_answer
apply_answer-Kept server files root (err e) = tt
apply_answer-Kept server files root (ok edit) =
    apply_workspace_edit-Kept files edit root (apply_workspace_edit files edit root) refl

apply_synced-Kept :
    (to_string : ClientError → Str) (files : Map Str Str) (root : Str)
    (r : Result ClientError WorkspaceEdit)
    → AllKept files (Resolver.apply_synced to_string files root r)
unfolding Resolver.apply_synced
apply_synced-Kept to_string files root (err e) = tt
apply_synced-Kept to_string files root (ok edit) =
    apply_workspace_edit-Kept files (record edit { document_changes = [] }) root
      (Pool.apply_workspace_edit files edit root)
      (sym (pool_drops_document_changes files edit root))

resolve_at-Kept :
    (server : Server) (files : Map Str Str) (decl_file : Str) (line character : ℕ) (new_name : Str)
    (staged : Result {0, 0} Str Str)
    → AllKept files (Resolver.resolve_at server files decl_file line character new_name staged)
unfolding Resolver.resolve_at
resolve_at-Kept server files decl_file line character new_name (err msg) = tt
resolve_at-Kept server files decl_file line character new_name (ok root) =
    started (server.spawn root)
  where
    started :
        (o : Option ClientError)
        → AllKept files (elim o [
          | some e ↦ err (Resolver.spawn_error server.to_string e)
          | none ↦
              Resolver.apply_answer server files root
                (server.rename root decl_file line character new_name).edit
        ])
    started (some e) = tt
    started none =
        apply_answer-Kept server files root
          (server.rename root decl_file line character new_name).edit

resolve-Kept :
    (server : Server) (files : Map Str Str) (decl_file : Str) (line character : ℕ) (new_name : Str)
    → AllKept files (resolve server files decl_file line character new_name)
unfolding resolve
resolve-Kept server files decl_file line character new_name =
    elim (Bool-cases (contains_key decl_file files)) [
      | inl there ↦ rw there (
          resolve_at-Kept server files decl_file line character new_name (server.materialize files))
      | inr missing ↦ rw missing tt
    ]

rename_in-Kept :
    (to_string : ClientError → Str) (files : Map Str Str) (decl_file : Str) (line character : ℕ)
    (new_name : Str) (session : Result TypedRenameError Session)
    → AllKept files (Resolver.rename_in to_string files decl_file line character new_name session)
unfolding Resolver.rename_in
rename_in-Kept to_string files decl_file line character new_name (err e) = tt
rename_in-Kept to_string files decl_file line character new_name (ok s) =
    apply_synced-Kept to_string files s.root
      (s.sync_and_rename files decl_file line character new_name)

resolve_with-Kept :
    (r : Resolver) (files : Map Str Str) (decl_file : Str) (line character : ℕ) (new_name : Str)
    → AllKept files (resolve_with r files decl_file line character new_name)
unfolding resolve_with resolve_inner
resolve_with-Kept (one_shot server) files decl_file line character new_name =
    resolve-Kept server files decl_file line character new_name
resolve_with-Kept (pooled pool key) files decl_file line character new_name =
    rename_in-Kept pool.to_string files decl_file line character new_name
      (Resolver.acquire pool key files (map_get key pool.sessions)).0

-- With the one-shot resolver or the session pool, whatever the server answers, the shadow of a plan has
-- every file of the original map.
pub apply_plan-Keeps :
    (t : Transforms) (r : Map Str Str → Str → ℕ → ℕ → Str → Resolver) (plan : PatchPlan)
    (files : Map Str Str)
    → Keeps files (apply_plan (with_resolver r t) plan files).0
apply_plan-Keeps t r plan files =
    apply_plan-Keeps_of (with_resolver r t)
      (unfold with_resolver in
        λ files₁ files₂ decl_file line character new_name h. subst (AllKept files₁) h (
          resolve_with-Kept (r files₁ decl_file line character new_name) files₁ decl_file line
            character new_name))
      plan files
