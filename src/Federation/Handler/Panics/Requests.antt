-- ===== src/Federation/Handler/Panics/Requests.antt =====
-- `HandleQuery` and `HandleWrite` of internal/federation/handler.go: which requests end in a nil
-- dereference.
use coggo.Prelude.{String, ◌≡◌, refl, Bool, true, false, Option, none, some}
use coggo.Store.Rows.{Sqlite}
use coggo.Federation.Message
use coggo.Federation.Message.{
  Inbound, Body, Request, entity_get, entity_query, entity_create, entity_update, entity_archive,
  relation_create, relation_query, relation_dissolve, type_list, type_describe, type_define,
  time_travel, unknown_op, Outcome, returns, panics, EntityCreateArgs, RelationCreateArgs,
  EntityUpdateArgs, IdArgs, TypeDefineArgs, TypeDescribeArgs, SemanticArgs, TimeTravelArgs,
  RelationQueryArgs,
}
use coggo.Federation.Handler.Base.{World, Env}
use coggo.Federation.Handler.EntityOps.{
  op_entity_update, op_entity_archive, op_entity_get, op_entity_query,
}
use coggo.Federation.Handler.RelationOps.{op_relation_dissolve, op_relation_query}
use coggo.Federation.Handler.TypeOps.{op_type_define, op_type_list, op_type_describe}
use coggo.Federation.Handler.SearchOps.{op_semantic_search, op_time_travel}
use coggo.Federation.Handler.Dispatch.{perform, dispatch, handle_query, handle_write}
use coggo.Federation.Handler.Panics.Operations.{
  log_then-panics, op_entity_create-panics, op_entity_update-panics, op_relation_create-panics,
  op_type_define-panics, op_type_describe-panics, op_entity_get-panics, op_time_travel-panics,
  op_relation_query-panics, op_entity_query-panics, op_semantic_search-panics,
}
use coggo.Federation.Handler.Panics.{is_panic, is_stray}

module _ (sqlite : Sqlite) (is_rfc3339 : String → Bool) (env : Env) (peer : String) where
  perform-panics :
      (msg : Inbound) (write : Bool) (request : Option Request) (w : World)
      → is_panic (perform sqlite is_rfc3339 env peer msg write request w).0
        ≡ is_stray peer request w
  perform-panics msg write none w = refl
  perform-panics msg write (some (entity_create a)) w =
      op_entity_create-panics env peer msg is_rfc3339 a w
  perform-panics msg write (some (relation_create a)) w = op_relation_create-panics env peer msg a w
  perform-panics msg write (some (entity_update none)) w = unfold op_entity_update in refl
  perform-panics msg write (some (entity_update (some a))) w =
      op_entity_update-panics env peer msg a w
  perform-panics msg write (some (entity_archive none)) w = unfold op_entity_archive in refl
  perform-panics msg write (some (entity_archive (some a))) w =
      unfold op_entity_archive in log_then-panics env peer msg _ _ _ _ _ w
  perform-panics msg write (some (relation_dissolve none)) w = unfold op_relation_dissolve in refl
  perform-panics msg write (some (relation_dissolve (some a))) w =
      unfold op_relation_dissolve in log_then-panics env peer msg _ _ _ _ _ w
  perform-panics msg write (some (type_define none)) w = unfold op_type_define in refl
  perform-panics msg write (some (type_define (some a))) w = op_type_define-panics env peer msg a w
  perform-panics msg write (some (type_describe none)) w = unfold op_type_describe in refl
  perform-panics msg write (some (type_describe (some a))) w =
      op_type_describe-panics env peer msg a w
  perform-panics msg write (some (entity_get none)) w = unfold op_entity_get in refl
  perform-panics msg write (some (entity_get (some a))) w = op_entity_get-panics env peer msg a w
  perform-panics msg write (some (time_travel none)) w = unfold op_time_travel in refl
  perform-panics msg write (some (time_travel (some a))) w = op_time_travel-panics env peer msg a w
  perform-panics msg write (some (relation_query none)) w = unfold op_relation_query in refl
  perform-panics msg write (some (relation_query (some a))) w =
      op_relation_query-panics env peer msg a w
  perform-panics msg write (some (entity_query none)) w = unfold op_entity_query in refl
  perform-panics msg write (some (entity_query (some a))) w =
      op_entity_query-panics env peer msg sqlite a w
  perform-panics msg write (some (Message.semantic_search none)) w =
      unfold op_semantic_search in refl
  perform-panics msg write (some (Message.semantic_search (some a))) w =
      op_semantic_search-panics env peer msg sqlite a w
  perform-panics msg write (some type_list) w = unfold op_type_list in refl
  perform-panics msg write (some (unknown_op op)) w = refl

  -- The one request that ends in a nil dereference instead of a reply is an update of an entity that
  -- the peer does not have; it does so through either entry point.
  pub handle-panics :
      (msg : Inbound) (w : World)
      → (is_panic (handle_query sqlite is_rfc3339 env peer msg w).0 ≡ is_stray peer msg.payload w)
        × (is_panic (handle_write sqlite is_rfc3339 env peer msg w).0 ≡ is_stray peer msg.payload w)
  unfolding handle_query handle_write dispatch
  handle-panics msg w =
      (perform-panics msg false msg.payload w, perform-panics msg true msg.payload w)
