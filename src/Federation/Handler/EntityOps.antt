-- ===== src/Federation/Handler/EntityOps.antt =====
-- The entity operations of internal/federation/handler.go.
use coggo.Prelude.{String, Bool, Option, none, some, List, if◌then◌else◌}
use coggo.Prelude.Result.{Result, ok, err, message, wrap}
use coggo.Types.{
  Entity, EntityQuery, EntityTypeDefinition, entity_created, entity_updated, entity_archived,
  of_entity, of_archive,
}
use coggo.Types.Json.{Fields, merge}
use coggo.Store.Rows.{Sqlite}
use coggo.Store.Entities.{upsert_entity, archive_entity, get_entity, query_entities, or_empty}
use coggo.Schema.Resolver.{Resolver, entity_type}
use coggo.Schema.Validate.{ValidationIssue, validate_entity, has_errors}
use coggo.Federation.Message.{
  Inbound, entity, entities, archived, Outcome, panics, EntityCreateArgs, EntityUpdateArgs, IdArgs,
}
use coggo.Federation.Handler.Base.{
  World, Env, bad_json, author_of, client_of, respond, error_resp, event_of, log_then,
}

module _ (env : Env) (peer : String) (msg : Inbound) where
  abbrev pub got : Result (Option Entity) → Outcome
  got (ok e) = respond env peer msg (entity e)
  got (err e) = error_resp env peer msg (wrap "entity.get" e)

  unfoldable pub op_entity_get : Option String → World → Outcome × World
  op_entity_get none w = (error_resp env peer msg (wrap "entity.get" bad_json), w)
  op_entity_get (some id) w = (got (get_entity peer id w.db), w)

  -- the entity that a creation stores
  abbrev pub created_entity : EntityCreateArgs → Option Fields → Entity
  created_entity a fields = record {
    id = env.record_id;
    type = a.type;
    peer_did = peer;
    created_at = env.now;
    created_by_did = author_of env peer msg a.author;
    created_by_client = client_of env peer msg a.client;
    updated_at = env.now;
    archived_at = none;
    fields = fields;
    embedding_id = none;
  }

  -- the rest of `opEntityCreate`, once the fields are accepted
  unfoldable pub create : EntityCreateArgs → Option Fields → World → Outcome × World
  create a fields w =
      let e = created_entity a fields in
      log_then env peer msg "entity.create: append event" "entity.create: upsert"
        (event_of env peer msg entity_created (of_entity e) e.created_by_did e.created_by_client)
        (upsert_entity env.now (some e)) (λ stored. entity (some stored)) w

  module _ (is_rfc3339 : String → Bool) where
    abbrev pub accept :
        EntityCreateArgs → List ValidationIssue × Option Fields → World → Outcome × World
    accept a (issues, fields) w =
        if has_errors issues
        then (error_resp env peer msg (message "entity.create: validation failed"), w)
        else create a fields w

    abbrev pub validated : EntityCreateArgs → Result EntityTypeDefinition → World → Outcome × World
    validated a (err e) w = (error_resp env peer msg (wrap "entity.create" e), w)
    validated a (ok def) w = accept a (validate_entity is_rfc3339 (some def) a.fields) w

    abbrev pub create_with : EntityCreateArgs → Option Resolver → World → Outcome × World
    create_with a none w = create a a.fields w
    create_with a (some r) w = validated a (entity_type peer a.type r) w

    unfoldable pub op_entity_create : Option EntityCreateArgs → World → Outcome × World
    unfolding create has_errors
    op_entity_create none w = (error_resp env peer msg (wrap "entity.create" bad_json), w)
    op_entity_create (some a) w = create_with a w.resolver w

  -- `for k, v := range a.Fields { cur.Data[k] = v }`
  abbrev pub updated_entity : EntityUpdateArgs → Entity → Entity
  updated_entity a cur = record cur {
    fields = some (merge (or_empty a.fields) (or_empty cur.fields));
    updated_at = env.now;
  }

  -- `GetEntity` gives a nil pointer for an id that is not there, and `cur.Data` follows it.
  abbrev pub update_found : EntityUpdateArgs → Result (Option Entity) → World → Outcome × World
  update_found a (err e) w = (error_resp env peer msg (wrap "entity.update" e), w)
  update_found a (ok none) w = (panics, w)
  update_found a (ok (some cur)) w =
      let e = updated_entity a cur in
      log_then env peer msg "entity.update: append" "entity.update: upsert"
        (event_of env peer msg entity_updated (of_entity e) (author_of env peer msg a.author)
          (client_of env peer msg a.client))
        (upsert_entity env.now (some e)) (λ stored. entity (some stored)) w

  unfoldable pub op_entity_update : Option EntityUpdateArgs → World → Outcome × World
  op_entity_update none w = (error_resp env peer msg (wrap "entity.update" bad_json), w)
  op_entity_update (some a) w = update_found a (get_entity peer a.id w.db) w

  unfoldable pub op_entity_archive : Option IdArgs → World → Outcome × World
  op_entity_archive none w = (error_resp env peer msg (wrap "entity.archive" bad_json), w)
  op_entity_archive (some a) w =
      log_then env peer msg "entity.archive: append" "entity.archive"
        (event_of env peer msg entity_archived (of_archive a.id env.now)
          (author_of env peer msg a.author) (client_of env peer msg a.client))
        (archive_entity env.now peer a.id env.now) (λ _. archived a.id env.now) w

  module _ (sqlite : Sqlite) where
    abbrev queried : Result (List Entity) → Outcome
    queried (ok es) = respond env peer msg (entities es)
    queried (err e) = error_resp env peer msg (wrap "entity.query" e)

    unfoldable pub op_entity_query : Option EntityQuery → World → Outcome × World
    op_entity_query none w = (error_resp env peer msg (wrap "entity.query" bad_json), w)
    op_entity_query (some q) w = (queried (query_entities sqlite peer q w.db), w)
