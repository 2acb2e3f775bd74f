-- ===== src/Patch/Resolver.antt =====
-- The resolvers of typed renames that a planner is given: `resolve` of crates/aa-patch/src/typed_rename.rs
-- and `resolve_inner` of crates/aa-core/src/ra_pool.rs. The file system and rust-analyzer are arguments;
-- a session is its root and how it answers, and its locks do not show in a sequence of calls.
pub mod Keeps
use prolog_forge.Prelude.{
  ℕ, Option, none, some, nat_eq, list_eq, Str, Map, map_get, map_insert, contains_key,
  if◌then◌else◌, Result, ok, err,
}
use prolog_forge.Rename.Edits.{TypedRenameError, unavailable, client, io_error, missing_decl_file}
use prolog_forge.Rename.Workspace.{WorkspaceEdit, apply_workspace_edit}
use prolog_forge.Rename.Pool
use prolog_forge.Retry.Poll.{ClientError, not_available, RetryOutcome}
use prolog_forge.Patch.Plan.{Transforms}

-- The directory with the files of a map, or the text of an error; the start of a client there; the
-- outcome of its rename, which is retried; the text of a client's error.
pub record Server : Type 0 where
  pub materialize : Map Str Str → Result {0, 0} Str Str
  pub spawn : Str → Option ClientError
  pub rename : Str → Str → ℕ → ℕ → Str → RetryOutcome
  pub to_string : ClientError → Str

-- What a failed start is to the caller.
unfoldable pub spawn_error : (ClientError → Str) → ClientError → TypedRenameError
spawn_error to_string (not_available msg) = unavailable msg
spawn_error to_string e = client (to_string e)

unfoldable pub apply_answer :
    Server
    → Map Str Str
    → Str
    → Result ClientError WorkspaceEdit
    → Result TypedRenameError (Map Str Str)
unfolding apply_workspace_edit
apply_answer server files root (err e) = err (client (server.to_string e))
apply_answer server files root (ok edit) = apply_workspace_edit files edit root

unfoldable pub resolve_at :
    Server
    → Map Str Str
    → Str
    → ℕ
    → ℕ
    → Str
    → Result {0, 0} Str Str
    → Result TypedRenameError (Map Str Str)
unfolding apply_answer spawn_error
resolve_at server files decl_file line character new_name (err msg) = err (io_error msg)
resolve_at server files decl_file line character new_name (ok root) = elim (server.spawn root) [
  | some e ↦ err (spawn_error server.to_string e)
  | none ↦
      apply_answer server files root (server.rename root decl_file line character new_name).edit
]

unfoldable pub resolve :
    Server → Map Str Str → Str → ℕ → ℕ → Str → Result TypedRenameError (Map Str Str)
unfolding resolve_at
resolve server files decl_file line character new_name =
    if contains_key decl_file files
    then resolve_at server files decl_file line character new_name (server.materialize files)
    else err (missing_decl_file decl_file)

-- The session's answer to a rename after its sync with the files.
pub record Session : Type 0 where
  pub root : Str
  pub sync_and_rename : Map Str Str → Str → ℕ → ℕ → Str → Result ClientError WorkspaceEdit

-- The pool, with the start of a session on a map and the text of an error.
pub record RaSessionPool : Type 0 where
  pub sessions : Map Str Session
  pub spawn : Map Str Str → Result {0, 0} ClientError Session
  pub to_string : ClientError → Str

unfoldable pub insert_session : Str → Session → RaSessionPool → RaSessionPool
insert_session key s pool = record pool { sessions = map_insert key s pool.sessions }

-- The session to use, and the pool with it.
unfoldable pub acquire :
    RaSessionPool
    → Str
    → Map Str Str
    → Option Session
    → Result TypedRenameError Session × RaSessionPool
unfolding insert_session spawn_error
acquire pool key files (some s) = (ok s, pool)
acquire pool key files none = elim (pool.spawn files) [
  | err e ↦ (err (spawn_error pool.to_string e), pool)
  | ok s ↦ (ok s, insert_session key s pool)
]

unfoldable pub apply_synced :
    (ClientError → Str)
    → Map Str Str
    → Str
    → Result ClientError WorkspaceEdit
    → Result TypedRenameError (Map Str Str)
apply_synced to_string files root (err e) = err (client (to_string e))
apply_synced to_string files root (ok edit) = Pool.apply_workspace_edit files edit root

unfoldable pub rename_in :
    (ClientError → Str)
    → Map Str Str
    → Str
    → ℕ
    → ℕ
    → Str
    → Result TypedRenameError Session
    → Result TypedRenameError (Map Str Str)
unfolding apply_synced
rename_in to_string files decl_file line character new_name (err e) = err e
rename_in to_string files decl_file line character new_name (ok s) =
    apply_synced to_string files s.root (s.sync_and_rename files decl_file line character new_name)

unfoldable pub resolve_inner :
    RaSessionPool
    → Str
    → Map Str Str
    → Str
    → ℕ
    → ℕ
    → Str
    → Result TypedRenameError (Map Str Str) × RaSessionPool
unfolding acquire rename_in
resolve_inner pool key files decl_file line character new_name =
    let (session, pool') = acquire pool key files (map_get key pool.sessions) in
    (rename_in pool.to_string files decl_file line character new_name session, pool')

-- `OneShotResolver`, and `PooledResolver` with its pool and its key.
pub data Resolver : Type 0 where
  one_shot : Server → Resolver
  pooled : RaSessionPool → Str → Resolver

-- `TypedRenameResolver::resolve`.
unfoldable pub resolve_with :
    Resolver → Map Str Str → Str → ℕ → ℕ → Str → Result TypedRenameError (Map Str Str)
unfolding resolve resolve_inner
resolve_with (one_shot server) files decl_file line character new_name =
    resolve server files decl_file line character new_name
resolve_with (pooled pool key) files decl_file line character new_name =
    (resolve_inner pool key files decl_file line character new_name).0

-- The transforms of a planner, with the resolver as it is at each request.
unfoldable pub with_resolver :
    (Map Str Str → Str → ℕ → ℕ → Str → Resolver) → Transforms → Transforms
unfolding resolve_with
with_resolver r t = record t {
  resolve = λ files decl_file line character new_name.
      resolve_with (r files decl_file line character new_name) files decl_file line character
        new_name;
}
