-- ===== src/Csm/Lower.antt =====
-- The facts of a fragment, crates/aa-core/src/lower.rs.
use prolog_forge.Prelude.{List, [], ◌∷◌, ◌++◌, map, Str, bytes}
use prolog_forge.Graph.Fact.{Fact, FactLayer}
use prolog_forge.Csm.Model.{EntityKind, RelationKind, Entity, Relation, AuxFact, CsmFragment}

unfoldable pub entity_predicate : EntityKind → Str
entity_predicate EntityKind.module_kind = bytes "module"
entity_predicate EntityKind.package_kind = bytes "package"
entity_predicate EntityKind.file = bytes "file"
entity_predicate EntityKind.function = bytes "function"
entity_predicate EntityKind.type_kind = bytes "type_def"
entity_predicate EntityKind.trait_kind = bytes "trait_def"
entity_predicate EntityKind.struct_kind = bytes "struct_def"
entity_predicate EntityKind.field_kind = bytes "field"
entity_predicate EntityKind.variable = bytes "variable"
entity_predicate EntityKind.macro_kind = bytes "macro_def"

unfoldable pub relation_predicate : RelationKind → Str
relation_predicate RelationKind.defines = bytes "defines"
relation_predicate RelationKind.declares = bytes "declares"
relation_predicate RelationKind.contains = bytes "contains"
relation_predicate RelationKind.references = bytes "references"
relation_predicate RelationKind.calls = bytes "calls"
relation_predicate RelationKind.implements = bytes "implements"
relation_predicate RelationKind.extends = bytes "extends"
relation_predicate RelationKind.imports = bytes "imports"
relation_predicate RelationKind.depends_on = bytes "depends_on"

unfoldable pub lower_entity : Entity → Fact
unfolding entity_predicate
lower_entity e = record {
  predicate = entity_predicate e.kind;
  args = e.id.id ∷ e.name ∷ [];
  layer = FactLayer.observed;
}

unfoldable pub lower_relation : Relation → Fact
unfolding relation_predicate
lower_relation r = record {
  predicate = relation_predicate r.kind;
  args = r.subject.id ∷ r.object.id ∷ [];
  layer = FactLayer.observed;
}

unfoldable pub lower_aux : AuxFact → Fact
lower_aux aux = record { predicate = aux.predicate; args = aux.args; layer = FactLayer.observed }

unfoldable pub lower : CsmFragment → List Fact
unfolding lower_entity lower_relation lower_aux
lower frag =
    map lower_entity frag.entities
    ++ map lower_relation frag.relations
    ++ map lower_aux frag.aux_facts
