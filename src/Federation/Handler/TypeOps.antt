-- ===== src/Federation/Handler/TypeOps.antt =====
-- The type operations of internal/federation/handler.go.
use mathlib.Core.Option
use coggo.Prelude.{String, Option, none, some, if◌then◌else◌}
use coggo.Prelude.Result.{Result, ok, err, message, wrap}
use coggo.Types.{
  Entity, EventType, entity_type_defined, relationship_type_defined, EntityTypeDefinition,
  RelationshipTypeDefinition, Payload, of_entity_type, of_relation_type,
}
use coggo.Types.Json.{Fields}
use coggo.Types.Encode.{entity_type_object, relation_type_object}
use coggo.Store.Entities.{upsert_entity}
use coggo.Schema.Resolver
use coggo.Schema.Resolver.{
  Resolver, register_entity_type, register_relation_type, list_entity_types, list_relation_types,
}
use coggo.Federation.Message.{
  Inbound, Body, no_types, all_types, entity_type, relation_type, Outcome, TypeDescribeArgs,
  TypeDefineArgs,
}
use coggo.Federation.Handler.Base.{
  World, Env, bad_json, author_of, client_of, respond, error_resp, event_of, log_then,
}

module _ (env : Env) (peer : String) (msg : Inbound) where
  abbrev listing : Option Resolver → Body
  listing none = no_types
  listing (some r) = all_types (list_entity_types peer r) (list_relation_types peer r)

  unfoldable pub op_type_list : World → Outcome × World
  op_type_list w = (respond env peer msg (listing w.resolver), w)

  abbrev described {ℓ} : {D : Type ℓ} → (D → Body) → Result D → Outcome
  described body (ok def) = respond env peer msg (body def)
  described body (err e) = error_resp env peer msg e

  abbrev describe : TypeDescribeArgs → Option Resolver → Outcome
  describe a none = error_resp env peer msg (message "type.describe: no resolver")
  describe a (some r) =
      if a.is_relationship
      then described relation_type (Resolver.relation_type peer a.name r)
      else described entity_type (Resolver.entity_type peer a.name r)

  unfoldable pub op_type_describe : Option TypeDescribeArgs → World → Outcome × World
  op_type_describe none w = (error_resp env peer msg (wrap "type.describe" bad_json), w)
  op_type_describe (some a) w = (describe a w.resolver, w)

  abbrev pub entity_definition : TypeDefineArgs → EntityTypeDefinition
  entity_definition a = record {
    name = a.name;
    peer_did = peer;
    fields = a.fields;
    description = a.description;
  }

  abbrev pub relation_definition : TypeDefineArgs → RelationshipTypeDefinition
  relation_definition a = record {
    name = a.name;
    peer_did = peer;
    fields = a.fields;
    description = a.description;
    directional = a.directional;
  }

  -- the entity that keeps a definition in the store
  abbrev pub definition_entity : TypeDefineArgs → String → Fields → Entity
  definition_entity a type fields = record {
    id = env.record_id;
    type = type;
    peer_did = peer;
    created_at = env.now;
    created_by_did = author_of env peer msg a.author;
    created_by_client = client_of env peer msg a.client;
    updated_at = env.now;
    archived_at = none;
    fields = some fields;
    embedding_id = none;
  }

  -- the event, the entity and the reply of a definition
  abbrev pub store_definition :
      TypeDefineArgs → EventType → Payload → String → Fields → Body → World → Outcome × World
  store_definition a ev_type payload ent_type fields body w =
      let e = definition_entity a ent_type fields in
      log_then env peer msg "type.define: append" "type.define: upsert"
        (event_of env peer msg ev_type payload e.created_by_did e.created_by_client)
        (upsert_entity env.now (some e)) (λ _. body) w

  -- The resolver learns the definition before anything is stored.
  unfoldable pub op_type_define : Option TypeDefineArgs → World → Outcome × World
  op_type_define none w = (error_resp env peer msg (wrap "type.define" bad_json), w)
  op_type_define (some a) w =
      if a.is_relationship
      then (let def = relation_definition a in
          store_definition a relationship_type_defined (of_relation_type def)
            "RelationshipTypeDefinition" (relation_type_object def) (relation_type def)
            (record w { resolver = Option.map (register_relation_type peer def) w.resolver }))
      else (let def = entity_definition a in
          store_definition a entity_type_defined (of_entity_type def) "EntityTypeDefinition"
            (entity_type_object def) (entity_type def)
            (record w { resolver = Option.map (register_entity_type peer def) w.resolver }))
