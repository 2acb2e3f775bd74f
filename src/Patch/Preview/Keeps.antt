-- ===== src/Patch/Preview/Keeps.antt =====
-- The files of the working map of crates/aa-patch/src/plan.rs through the operations of a plan.
use prolog_forge.Prelude.{
  ℕ, ◌≡◌, refl, sym, subst, List, [], ◌∷◌, Option, none, some, Bool, true, false, ◌==◌, nat_eq,
  list_eq, eqb, Str, get_or, Map, map_get, btree_insert, map_get-btree_insert, contains_key,
  is_some, if_true, if_false, Bool-cases, inl, inr, if◌then◌else◌, Result, ok, err,
}
use prolog_forge.Rename.Edits.{
  TypedRenameError, unavailable, client, io_error, missing_decl_file, unknown_edit_target,
  invalid_edit,
}
use prolog_forge.Patch.Ops
use prolog_forge.Patch.Ops.{PatchOp, PatchPlan}
use prolog_forge.Patch.Plan
use prolog_forge.Patch.Plan.{
  Transforms, Working, FileResult, FilesResult, apply_op, apply_ops, apply_plan, store_result,
  each_path, store_files, store_typed, insert_all, push_error, paths_in_scope,
}

-- The second map has every file of the first.
abbrev pub Keeps : Map Str Str → Map Str Str → Type 0
Keeps files files' = (p : Str) → contains_key p files ≡ true → contains_key p files' ≡ true

-- A resolver that takes no file out.
abbrev pub ResolverKeeps : Transforms → Type 0
ResolverKeeps t =
    (files files' : Map Str Str) (decl_file : Str) (line character : ℕ) (new_name : Str)
    → t.resolve files decl_file line character new_name ≡ ok files'
    → Keeps files files'

btree_insert-Keeps : (k v : Str) (m : Map Str Str) → Keeps m (btree_insert k v m)
btree_insert-Keeps k v m p h = rw (map_get-btree_insert p k v m) (found (k == p))
  where
    found : (b : Bool) → is_some (if b then some v else map_get p m) ≡ true
    found true = refl
    found false = h

insert_all-Keeps : (new_files m : Map Str Str) → Keeps m (insert_all new_files m)
unfolding insert_all
insert_all-Keeps [] m p h = h
insert_all-Keeps ((k, v) ∷ new_files) m p h =
    insert_all-Keeps new_files (btree_insert k v m) p (btree_insert-Keeps k v m p h)

store_result-Keeps :
    (path : Str) (r : FileResult) (w : Working) → Keeps w.files (store_result path r w).files
unfolding store_result push_error
store_result-Keeps path (err msg) w p h = h
store_result-Keeps path (ok (new_src, n)) w p h = elim (Bool-cases (eqb n 0)) [
  | inl unchanged ↦ rw unchanged h
  | inr changed ↦ rw changed (btree_insert-Keeps path new_src w.files p h)
]

each_path-Keeps :
    (f : Str → FileResult) (ps : List Str) (w : Working) → Keeps w.files (each_path f ps w).files
unfolding each_path
each_path-Keeps f [] w p h = h
each_path-Keeps f (q ∷ ps) w p h =
    let r = f (get_or (map_get q w.files) []) in
    each_path-Keeps f ps (store_result q r w) p (store_result-Keeps q r w p h)

store_files-Keeps :
    (at : Str) (r : FilesResult) (w : Working) → Keeps w.files (store_files at r w).files
unfolding store_files push_error
store_files-Keeps at (err msg) w p h = h
store_files-Keeps at (ok (new_files, per_file)) w p h = insert_all-Keeps new_files w.files p h

store_typed-Keeps :
    (decl_file : Str) (r : Result {0, 0} TypedRenameError (Map Str Str)) (w : Working)
    → ((files' : Map Str Str) → r ≡ ok files' → Keeps w.files files')
    → Keeps w.files (store_typed decl_file r w).files
unfolding store_typed push_error
store_typed-Keeps decl_file (ok new_files) w keeps p h = keeps new_files refl p h
store_typed-Keeps decl_file (err (unavailable msg)) w keeps p h = h
store_typed-Keeps decl_file (err (client msg)) w keeps p h = h
store_typed-Keeps decl_file (err (io_error msg)) w keeps p h = h
store_typed-Keeps decl_file (err (missing_decl_file msg)) w keeps p h = h
store_typed-Keeps decl_file (err (unknown_edit_target msg)) w keeps p h = h
store_typed-Keeps decl_file (err (invalid_edit range why)) w keeps p h = h

extract_from-Keeps :
    (source_file : Str) (f : Str → FileResult) (o : Option Str) (w : Working)
    → Keeps w.files (Plan.extract_from source_file f o w).files
unfolding Plan.extract_from push_error
extract_from-Keeps source_file f none w p h = h
extract_from-Keeps source_file f (some src) w p h = store_result-Keeps source_file (f src) w p h

module _ (t : Transforms) (resolver : ResolverKeeps t) where
  apply_op-Keeps : (op : PatchOp) (w : Working) → Keeps w.files (apply_op t op w).files
  unfolding apply_op
  apply_op-Keeps (Ops.rename_function old_name new_name files) w p h =
      each_path-Keeps (λ src. t.rename src old_name new_name) (paths_in_scope files w.files) w p h
  apply_op-Keeps (Ops.rename_function_typed decl_file line character new_name old_name) w p h =
      store_typed-Keeps decl_file (t.resolve w.files decl_file line character new_name) w
        (λ files' e. resolver w.files files' decl_file line character new_name e) p h
  apply_op-Keeps (Ops.add_derive_to_struct type_name derives files) w p h =
      each_path-Keeps (λ src. t.add_derive src type_name derives) (paths_in_scope files w.files) w p
        h
  apply_op-Keeps (Ops.remove_derive_from_struct type_name derives files) w p h =
      each_path-Keeps (λ src. t.remove_derive src type_name derives) (paths_in_scope files w.files)
        w p h
  apply_op-Keeps (Ops.inline_function function files) w p h =
      store_files-Keeps (Plan.first_or_empty files) (t.inline_function w.files function files) w p h
  apply_op-Keeps (Ops.extract_function source_file start_line end_line new_name params files) w p
        h =
      let f : Str → FileResult =
        λ src. t.extract_function src start_line end_line new_name params in
      let done = Plan.extract_from source_file f (map_get source_file w.files) w in
      elim (Bool-cases (Plan.out_of_scope source_file files)) [
        | inl outside ↦
            subst (λ (x : Working). contains_key p x.files ≡ true)
              (sym (if_true (Plan.out_of_scope source_file files) w done outside)) h
        | inr inside ↦
            subst (λ (x : Working). contains_key p x.files ≡ true)
              (sym (if_false (Plan.out_of_scope source_file files) w done inside))
              (extract_from-Keeps source_file f (map_get source_file w.files) w p h)
      ]
  apply_op-Keeps (Ops.change_signature function new_params files) w p h =
      store_files-Keeps (Plan.first_or_empty files)
        (t.change_signature w.files function new_params files) w p h
  apply_op-Keeps (Ops.move_item item_kind item_name from_file to_file files) w p h =
      store_files-Keeps from_file (t.move_item w.files item_kind item_name from_file to_file files)
        w p h

  apply_ops-Keeps : (ops : List PatchOp) (w : Working) → Keeps w.files (apply_ops t ops w).files
  unfolding apply_ops
  apply_ops-Keeps [] w p h = h
  apply_ops-Keeps (op ∷ ops) w p h =
      apply_ops-Keeps ops (apply_op t op w) p (apply_op-Keeps op w p h)

  pub apply_plan-Keeps_of :
      (plan : PatchPlan) (files : Map Str Str) → Keeps files (apply_plan t plan files).0
  unfolding apply_plan
  apply_plan-Keeps_of plan files =
      apply_ops-Keeps plan.ops (record { files = files; replacements = []; errors = [] })
