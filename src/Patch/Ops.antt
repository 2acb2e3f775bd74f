-- ===== src/Patch/Ops.antt =====
-- The operations of a plan, crates/aa-patch/src/ops.rs.
use prolog_forge.Prelude.{ℕ, List, Option, Str}

pub data ItemKind : Type 0 where
  function struct_item enum_item union_item : ItemKind

pub record ExtractParam : Type 0 where
  pub name : Str
  pub ty : Str

pub record ParamReorder : Type 0 where
  pub from_index : ℕ
  pub rename : Option Str

-- The arguments stand in the order of the source's fields.
pub data PatchOp : Type 0 where
  rename_function : Str → Str → List Str → PatchOp
  rename_function_typed : Str → ℕ → ℕ → Str → Str → PatchOp
  add_derive_to_struct : Str → List Str → List Str → PatchOp
  remove_derive_from_struct : Str → List Str → List Str → PatchOp
  inline_function : Str → List Str → PatchOp
  extract_function : Str → ℕ → ℕ → Str → List ExtractParam → List Str → PatchOp
  change_signature : Str → List ParamReorder → List Str → PatchOp
  move_item : ItemKind → Str → Str → Str → List Str → PatchOp

pub record PatchPlan : Type 0 where
  pub ops : List PatchOp
  pub label : Str

-- `PatchPlan::labelled`.
unfoldable pub labelled : List PatchOp → Str → PatchPlan
labelled ops label = record { ops = ops; label = label }
