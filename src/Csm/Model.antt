-- ===== src/Csm/Model.antt =====
-- The types of crates/aa-csm/src/lib.rs.
use prolog_forge.Prelude.{ℕ, List, Option, Str}

pub record NodeId : Type 0 where
  pub id : Str

pub record SourceSpan : Type 0 where
  pub file : Str
  pub byte_start : ℕ
  pub byte_end : ℕ

pub data EntityKind : Type 0 where
  module_kind package_kind file function type_kind trait_kind struct_kind field_kind variable
        macro_kind :
      EntityKind

pub data RelationKind : Type 0 where
  defines declares contains references calls implements extends imports depends_on : RelationKind

pub record Entity : Type 0 where
  pub id : NodeId
  pub kind : EntityKind
  pub name : Str
  pub span : Option SourceSpan

pub record Relation : Type 0 where
  pub kind : RelationKind
  pub subject : NodeId
  pub object : NodeId

pub record AuxFact : Type 0 where
  pub predicate : Str
  pub args : List Str

pub record CsmFragment : Type 0 where
  pub entities : List Entity
  pub relations : List Relation
  pub aux_facts : List AuxFact

pub record AnalyzerError : Type 0 where
  pub message : Str
  pub span : Option SourceSpan
