-- ===== src/Federation/Handler/Isolation/Requests.antt =====
-- What each request leaves of another peer's entities.
use coggo.Prelude.{ap, String, ◌≡◌, refl, Bool, true, false, Option, none, some}
use coggo.Store.Rows.{Sqlite}
use coggo.Store.Entities.{get_entity}
use coggo.Federation.Message
use coggo.Federation.Message.{
  Inbound, Body, Request, entity_get, entity_query, entity_create, entity_update, entity_archive,
  relation_create, relation_query, relation_dissolve, type_list, type_describe, type_define,
  time_travel, unknown_op, Outcome, returns, panics, EntityCreateArgs, RelationCreateArgs,
  EntityUpdateArgs, IdArgs, TypeDefineArgs, TypeDescribeArgs, SemanticArgs, TimeTravelArgs,
  RelationQueryArgs,
}
use coggo.Federation.Handler.Base.{World, Env}
use coggo.Federation.Handler.EntityOps.{op_entity_update, op_entity_archive}
use coggo.Federation.Handler.RelationOps.{op_relation_dissolve}
use coggo.Federation.Handler.TypeOps.{op_type_define}
use coggo.Federation.Handler.Dispatch.{perform, dispatch, handle_query, handle_write}
use coggo.Federation.Handler.Laws.{perform-read}
use coggo.Federation.Handler.Isolation.{Kept, Apart}
use coggo.Federation.Handler.Isolation.Operations.{
  op_entity_create-Kept, op_entity_update-Kept, op_entity_archive-Kept, op_relation_create-Kept,
  op_relation_dissolve-Kept, op_type_define-Kept,
}

module _ (sqlite : Sqlite) (is_rfc3339 : String → Bool) (env : Env) (peer p i : String) where
  perform-Kept :
      (msg : Inbound) (write : Bool) (request : Option Request) (w : World)
      → Apart env peer p w
      → Kept env peer msg p i w (perform sqlite is_rfc3339 env peer msg write request w)
  perform-Kept msg write (some (entity_create a)) w h =
      op_entity_create-Kept env peer msg p i is_rfc3339 a w h
  perform-Kept msg write (some (relation_create a)) w h =
      op_relation_create-Kept env peer msg p i a w
  perform-Kept msg write (some (entity_update none)) w h = unfold op_entity_update in refl
  perform-Kept msg write (some (entity_update (some a))) w h =
      op_entity_update-Kept env peer msg p i a w h
  perform-Kept msg write (some (entity_archive none)) w h = unfold op_entity_archive in refl
  perform-Kept msg write (some (entity_archive (some a))) w h =
      op_entity_archive-Kept env peer msg p i a w h
  perform-Kept msg write (some (relation_dissolve none)) w h = unfold op_relation_dissolve in refl
  perform-Kept msg write (some (relation_dissolve (some a))) w h =
      op_relation_dissolve-Kept env peer msg p i a w
  perform-Kept msg write (some (type_define none)) w h = unfold op_type_define in refl
  perform-Kept msg write (some (type_define (some a))) w h =
      op_type_define-Kept env peer msg p i a w h
  perform-Kept msg write none w h = refl
  perform-Kept msg write (some (entity_get a)) w h =
      ap (λ (v : World). get_entity p i v.db)
        (perform-read sqlite is_rfc3339 env peer msg write (some (entity_get a)) w refl)
  perform-Kept msg write (some (entity_query a)) w h =
      ap (λ (v : World). get_entity p i v.db)
        (perform-read sqlite is_rfc3339 env peer msg write (some (entity_query a)) w refl)
  perform-Kept msg write (some (relation_query a)) w h =
      ap (λ (v : World). get_entity p i v.db)
        (perform-read sqlite is_rfc3339 env peer msg write (some (relation_query a)) w refl)
  perform-Kept msg write (some type_list) w h =
      ap (λ (v : World). get_entity p i v.db)
        (perform-read sqlite is_rfc3339 env peer msg write (some type_list) w refl)
  perform-Kept msg write (some (type_describe a)) w h =
      ap (λ (v : World). get_entity p i v.db)
        (perform-read sqlite is_rfc3339 env peer msg write (some (type_describe a)) w refl)
  perform-Kept msg write (some (Message.semantic_search a)) w h =
      ap (λ (v : World). get_entity p i v.db)
        (perform-read sqlite is_rfc3339 env peer msg write (some (Message.semantic_search a)) w
          refl)
  perform-Kept msg write (some (time_travel a)) w h =
      ap (λ (v : World). get_entity p i v.db)
        (perform-read sqlite is_rfc3339 env peer msg write (some (time_travel a)) w refl)
  perform-Kept msg write (some (unknown_op a)) w h =
      ap (λ (v : World). get_entity p i v.db)
        (perform-read sqlite is_rfc3339 env peer msg write (some (unknown_op a)) w refl)

  -- A handler changes no entity of another peer: whatever the request, and through either entry point,
  -- the other peer reads each of his entities as before. The ids of the store's entities are all
  -- different, and the record id that the call draws is not one of the other peer's.
  pub handle-others :
      (msg : Inbound) (w : World)
      → Apart env peer p w
      → (get_entity p i (handle_query sqlite is_rfc3339 env peer msg w).1.db ≡ get_entity p i w.db)
        × (get_entity p i (handle_write sqlite is_rfc3339 env peer msg w).1.db
            ≡ get_entity p i w.db)
  unfolding handle_query handle_write dispatch
  handle-others msg w h =
      (perform-Kept msg false msg.payload w h, perform-Kept msg true msg.payload w h)
