-- ===== src/Federation/Handler/Panics.antt =====
-- Which calls of internal/federation/handler.go fail in Go's runtime instead of with an error.
pub mod Operations
pub mod Requests
use coggo.Prelude.{
  String, ◌≡◌, refl, inl, inr, Bool, true, false, Option, none, some, List, arith, Bool-cases,
}
use coggo.Prelude.Result.{Result, ok, err}
use coggo.Types.{Entity, Event, EntityTypeDefinition, RelationshipTypeDefinition, EntityQuery}
use coggo.Types.Json.{Fields}
use coggo.Store.Rows.{Sqlite, Db}
use coggo.Store.Events.{append_event}
use coggo.Store.Entities.{get_entity}
use coggo.Schema.Resolver.{Resolver, entity_type, relation_type}
use coggo.Schema.Validate.{ValidationIssue, validate_entity, has_errors}
use coggo.Federation.Message
use coggo.Federation.Message.{
  Inbound, Body, Request, entity_get, entity_query, entity_create, entity_update, entity_archive,
  relation_create, relation_query, relation_dissolve, type_list, type_describe, type_define,
  time_travel, unknown_op, Outcome, returns, panics, EntityCreateArgs, RelationCreateArgs,
  EntityUpdateArgs, IdArgs, TypeDefineArgs, TypeDescribeArgs, SemanticArgs, TimeTravelArgs,
  RelationQueryArgs,
}
use coggo.Federation.Handler.Base.{World, Env, log_then, finish, after_append}
use coggo.Federation.Handler.EntityOps.{
  create, accept, validated, create_with, op_entity_create, update_found, op_entity_update,
  op_entity_archive, op_entity_get, op_entity_query,
}
use coggo.Federation.Handler.RelationOps.{
  relate, resolved, relate_with, op_relation_create, op_relation_dissolve, op_relation_query,
}
use coggo.Federation.Handler.TypeOps.{op_type_define, op_type_list, op_type_describe}
use coggo.Federation.Handler.SearchOps.{op_semantic_search, op_time_travel}
use coggo.Federation.Handler.Dispatch.{perform, dispatch, handle_query, handle_write}

abbrev pub is_missing {ℓ} : {A : Type ℓ} → Result (Option A) → Bool
is_missing (ok none) = true
is_missing (ok (some a)) = false
is_missing (err e) = false

abbrev pub is_panic : Outcome → Bool
is_panic (returns m e) = false
is_panic panics = true

-- the request is an update of an entity that the peer does not have
abbrev pub is_stray : String → Option Request → World → Bool
is_stray peer (some (entity_update (some a))) w = is_missing (get_entity peer a.id w.db)
is_stray peer _ w = false
