-- ===== src/Cli/Runtime/Definitions.antt =====
-- The type definitions of internal/cli/runtime.go that are kept in the store as entities:
-- `entityToEntityTypeDef`, `entityToRelTypeDef`, and the loops of `Setup` that register them.
use coggo.Prelude.{String, ◌==◌, false, Option, none, some, List, [], ◌∷◌, if◌then◌else◌}
use coggo.Prelude.Result.{Result, ok, err}
use coggo.Types.{Entity, EntityTypeDefinition, RelationshipTypeDefinition, EntityQuery}
use coggo.Types.Json.{end}
use coggo.Types.Struct.{read_entity_type, read_relation_type}
use coggo.Store.Rows.{Db, Sqlite}
use coggo.Store.Entities.{query_entities}
use coggo.Schema.Resolver.{Resolver, register_entity_type, register_relation_type}

-- A definition without a peer is the entity's own peer's.
abbrev pub owned_type : String → Option EntityTypeDefinition → Option EntityTypeDefinition
owned_type peer none = none
owned_type peer (some d) = some (if d.peer_did == "" then record d { peer_did = peer } else d)

abbrev pub owned_relation_type :
    String → Option RelationshipTypeDefinition → Option RelationshipTypeDefinition
owned_relation_type peer none = none
owned_relation_type peer (some d) =
    some (if d.peer_did == "" then record d { peer_did = peer } else d)

unfoldable pub entity_to_entity_type_def : Entity → Option EntityTypeDefinition
entity_to_entity_type_def e = elim e.fields [
  | none ↦ none
  | some fs ↦ owned_type e.peer_did (read_entity_type fs)
]

unfoldable pub entity_to_rel_type_def : Entity → Option RelationshipTypeDefinition
entity_to_rel_type_def e = elim e.fields [
  | none ↦ none
  | some fs ↦ owned_relation_type e.peer_did (read_relation_type fs)
]

abbrev pub register_type_if : String → Option EntityTypeDefinition → Resolver → Resolver
register_type_if peer none r = r
register_type_if peer (some d) r = register_entity_type peer d r

abbrev pub register_relation_if : String → Option RelationshipTypeDefinition → Resolver → Resolver
register_relation_if peer none r = r
register_relation_if peer (some d) r = register_relation_type peer d r

unfoldable pub rehydrate_types : String → List Entity → Resolver → Resolver
unfolding entity_to_entity_type_def
rehydrate_types peer [] r = r
rehydrate_types peer (e ∷ es) r =
    rehydrate_types peer es (register_type_if peer (entity_to_entity_type_def e) r)

unfoldable pub rehydrate_relations : String → List Entity → Resolver → Resolver
unfolding entity_to_rel_type_def
rehydrate_relations peer [] r = r
rehydrate_relations peer (e ∷ es) r =
    rehydrate_relations peer es (register_relation_if peer (entity_to_rel_type_def e) r)

abbrev pub stored_types : String → EntityQuery
stored_types type = record { type = type; filters = end; limit = 0; include_archived = false }

-- An error of the query leaves the resolver as it is.
abbrev pub rehydrated_types : String → Result (List Entity) → Resolver → Resolver
rehydrated_types peer (ok es) r = rehydrate_types peer es r
rehydrated_types peer (err e) r = r

abbrev pub rehydrated_relations : String → Result (List Entity) → Resolver → Resolver
rehydrated_relations peer (ok es) r = rehydrate_relations peer es r
rehydrated_relations peer (err e) r = r

-- both loops for one peer
unfoldable pub rehydrate : Sqlite → Db → String → Resolver → Resolver
unfolding rehydrate_types rehydrate_relations
rehydrate sqlite db peer r =
    rehydrated_relations peer
      (query_entities sqlite peer (stored_types "RelationshipTypeDefinition") db)
      (rehydrated_types peer (query_entities sqlite peer (stored_types "EntityTypeDefinition") db)
        r)
