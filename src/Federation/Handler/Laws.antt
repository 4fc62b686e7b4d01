-- ===== src/Federation/Handler/Laws.antt =====
-- Which requests of internal/federation/handler.go read, and which differ between its entry points.
use coggo.Prelude.{String, ◌≡◌, refl, Bool, true, false, Option, none, some, arith}
use coggo.Store.Rows.{Sqlite}
use coggo.Federation.Message.{
  Inbound, Request, entity_get, entity_query, entity_create, entity_update, entity_archive,
  relation_create, relation_query, relation_dissolve, type_list, type_describe, type_define,
  semantic_search, time_travel, unknown_op,
}
use coggo.Federation.Handler.Base.{World, Env}
use coggo.Federation.Handler.EntityOps.{op_entity_get, op_entity_query}
use coggo.Federation.Handler.RelationOps.{op_relation_query}
use coggo.Federation.Handler.TypeOps.{op_type_list, op_type_describe}
use coggo.Federation.Handler.SearchOps.{op_semantic_search, op_time_travel}
use coggo.Federation.Handler.Dispatch.{perform, dispatch, handle_query, handle_write}

-- the operations that README.md lists as reads; an envelope that does not parse does nothing either
abbrev pub is_read : Option Request → Bool
is_read none = true
is_read (some (entity_get a)) = true
is_read (some (entity_query a)) = true
is_read (some (relation_query a)) = true
is_read (some type_list) = true
is_read (some (type_describe a)) = true
is_read (some (semantic_search a)) = true
is_read (some (time_travel a)) = true
is_read (some (unknown_op op)) = true
is_read (some (entity_create a)) = false
is_read (some (entity_update a)) = false
is_read (some (entity_archive a)) = false
is_read (some (relation_create a)) = false
is_read (some (relation_dissolve a)) = false
is_read (some (type_define a)) = false

abbrev pub is_known : Option Request → Bool
is_known (some (unknown_op op)) = false
is_known _ = true

module _ (sqlite : Sqlite) (is_rfc3339 : String → Bool) (env : Env) (peer : String) where
  pub perform-read :
      (msg : Inbound) (write : Bool) (request : Option Request) (w : World)
      → is_read request ≡ true
      → (perform sqlite is_rfc3339 env peer msg write request w).1 ≡ w
  unfolding op_entity_get op_entity_query op_relation_query op_type_list op_type_describe
      op_semantic_search op_time_travel
  perform-read msg write none w h = refl
  perform-read msg write (some (entity_get none)) w h = refl
  perform-read msg write (some (entity_get (some a))) w h = refl
  perform-read msg write (some (entity_query none)) w h = refl
  perform-read msg write (some (entity_query (some a))) w h = refl
  perform-read msg write (some (relation_query none)) w h = refl
  perform-read msg write (some (relation_query (some a))) w h = refl
  perform-read msg write (some type_list) w h = refl
  perform-read msg write (some (type_describe none)) w h = refl
  perform-read msg write (some (type_describe (some a))) w h = refl
  perform-read msg write (some (semantic_search none)) w h = refl
  perform-read msg write (some (semantic_search (some a))) w h = refl
  perform-read msg write (some (time_travel none)) w h = refl
  perform-read msg write (some (time_travel (some a))) w h = refl
  perform-read msg write (some (unknown_op op)) w h = refl
  perform-read msg write (some (entity_create a)) w h = absurd (ground arith)
  perform-read msg write (some (entity_update a)) w h = absurd (ground arith)
  perform-read msg write (some (entity_archive a)) w h = absurd (ground arith)
  perform-read msg write (some (relation_create a)) w h = absurd (ground arith)
  perform-read msg write (some (relation_dissolve a)) w h = absurd (ground arith)
  perform-read msg write (some (type_define a)) w h = absurd (ground arith)

  -- A read, an unknown operation and an envelope that does not parse leave the store and the resolver
  -- as they were, whichever of the two entry points runs them and whatever they answer.
  pub handle-read :
      (msg : Inbound) (w : World)
      → is_read msg.payload ≡ true
      → ((handle_query sqlite is_rfc3339 env peer msg w).1 ≡ w)
        × ((handle_write sqlite is_rfc3339 env peer msg w).1 ≡ w)
  unfolding handle_query handle_write dispatch
  handle-read msg w h =
      (perform-read msg false msg.payload w h, perform-read msg true msg.payload w h)

  perform-write :
      (msg : Inbound) (a b : Bool) (request : Option Request) (w : World)
      → is_known request ≡ true
      → perform sqlite is_rfc3339 env peer msg a request w
        ≡ perform sqlite is_rfc3339 env peer msg b request w
  perform-write msg a b none w h = refl
  perform-write msg a b (some (entity_get x)) w h = refl
  perform-write msg a b (some (entity_query x)) w h = refl
  perform-write msg a b (some (relation_query x)) w h = refl
  perform-write msg a b (some type_list) w h = refl
  perform-write msg a b (some (type_describe x)) w h = refl
  perform-write msg a b (some (semantic_search x)) w h = refl
  perform-write msg a b (some (time_travel x)) w h = refl
  perform-write msg a b (some (unknown_op op)) w h = absurd (ground arith)
  perform-write msg a b (some (entity_create x)) w h = refl
  perform-write msg a b (some (entity_update x)) w h = refl
  perform-write msg a b (some (entity_archive x)) w h = refl
  perform-write msg a b (some (relation_create x)) w h = refl
  perform-write msg a b (some (relation_dissolve x)) w h = refl
  perform-write msg a b (some (type_define x)) w h = refl

  -- The entry points for queries and for writes do the same for every request but one that names an
  -- unknown operation.
  pub handle_query-handle_write :
      (msg : Inbound) (w : World)
      → is_known msg.payload ≡ true
      → handle_query sqlite is_rfc3339 env peer msg w
        ≡ handle_write sqlite is_rfc3339 env peer msg w
  unfolding handle_query handle_write dispatch
  handle_query-handle_write msg w h = perform-write msg false true msg.payload w h
