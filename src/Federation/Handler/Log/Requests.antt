-- ===== src/Federation/Handler/Log/Requests.antt =====
-- What each request leaves in the log.
use coggo.Prelude.{String, ◌≡◌, refl, ap, Bool, true, false, Option, none, some, if◌then◌else◌}
use coggo.Types.{
  EventType, entity_created, entity_updated, entity_archived, relation_created, relation_dissolved,
  entity_type_defined, relationship_type_defined,
}
use coggo.Store.Rows.{Sqlite}
use coggo.Federation.Message.{
  Inbound, Request, entity_get, entity_query, entity_create, entity_update, entity_archive,
  relation_create, relation_query, relation_dissolve, type_list, type_describe, type_define,
  semantic_search, time_travel, unknown_op, Outcome,
}
use coggo.Federation.Handler.Base.{World, Env}
use coggo.Federation.Handler.EntityOps.{op_entity_create, op_entity_update, op_entity_archive}
use coggo.Federation.Handler.RelationOps.{op_relation_create, op_relation_dissolve}
use coggo.Federation.Handler.TypeOps.{op_type_define}
use coggo.Federation.Handler.Laws.{perform-read}
use coggo.Federation.Handler.Dispatch.{perform, dispatch, handle_query, handle_write}
use coggo.Federation.Handler.Log.{Logged}
use coggo.Federation.Handler.Log.Operations.{
  op_entity_create-Logged, op_entity_update-Logged, op_entity_archive-Logged,
  op_relation_create-Logged, op_relation_dissolve-Logged, op_type_define-Logged,
}

-- the event that a request writes, if it is a write with arguments that parse
abbrev pub event_type_of : Option Request → Option EventType
event_type_of (some (entity_create (some a))) = some entity_created
event_type_of (some (entity_update (some a))) = some entity_updated
event_type_of (some (entity_archive (some a))) = some entity_archived
event_type_of (some (relation_create (some a))) = some relation_created
event_type_of (some (relation_dissolve (some a))) = some relation_dissolved
event_type_of (some (type_define (some a))) =
    some (if a.is_relationship then relationship_type_defined else entity_type_defined)
event_type_of _ = none

module _ (sqlite : Sqlite) (is_rfc3339 : String → Bool) (env : Env) (peer : String) where
  -- what the log holds after a request, for each request
  abbrev pub LoggedAs : Option EventType → World → Outcome × World → Type 0
  LoggedAs none w out = out.1.db.events ≡ w.db.events
  LoggedAs (some type) w out = Logged peer type w out

  perform-Logged :
      (msg : Inbound) (write : Bool) (request : Option Request) (w : World)
      → LoggedAs (event_type_of request) w (perform sqlite is_rfc3339 env peer msg write request w)
  perform-Logged msg write (some (entity_create (some a))) w =
      op_entity_create-Logged env peer msg is_rfc3339 (some a) w
  perform-Logged msg write (some (entity_update (some a))) w =
      op_entity_update-Logged env peer msg (some a) w
  perform-Logged msg write (some (entity_archive (some a))) w =
      op_entity_archive-Logged env peer msg (some a) w
  perform-Logged msg write (some (relation_create (some a))) w =
      op_relation_create-Logged env peer msg (some a) w
  perform-Logged msg write (some (relation_dissolve (some a))) w =
      op_relation_dissolve-Logged env peer msg (some a) w
  perform-Logged msg write (some (type_define (some a))) w = op_type_define-Logged env peer msg a w
  perform-Logged msg write (some (entity_create none)) w = unfold op_entity_create in refl
  perform-Logged msg write (some (entity_update none)) w = unfold op_entity_update in refl
  perform-Logged msg write (some (entity_archive none)) w = unfold op_entity_archive in refl
  perform-Logged msg write (some (relation_create none)) w = unfold op_relation_create in refl
  perform-Logged msg write (some (relation_dissolve none)) w = unfold op_relation_dissolve in refl
  perform-Logged msg write (some (type_define none)) w = unfold op_type_define in refl
  perform-Logged msg write none w = refl
  perform-Logged msg write (some (entity_get a)) w =
      ap (λ (v : World). v.db.events)
        (perform-read sqlite is_rfc3339 env peer msg write (some (entity_get a)) w refl)
  perform-Logged msg write (some (entity_query a)) w =
      ap (λ (v : World). v.db.events)
        (perform-read sqlite is_rfc3339 env peer msg write (some (entity_query a)) w refl)
  perform-Logged msg write (some (relation_query a)) w =
      ap (λ (v : World). v.db.events)
        (perform-read sqlite is_rfc3339 env peer msg write (some (relation_query a)) w refl)
  perform-Logged msg write (some type_list) w =
      ap (λ (v : World). v.db.events)
        (perform-read sqlite is_rfc3339 env peer msg write (some type_list) w refl)
  perform-Logged msg write (some (type_describe a)) w =
      ap (λ (v : World). v.db.events)
        (perform-read sqlite is_rfc3339 env peer msg write (some (type_describe a)) w refl)
  perform-Logged msg write (some (semantic_search a)) w =
      ap (λ (v : World). v.db.events)
        (perform-read sqlite is_rfc3339 env peer msg write (some (semantic_search a)) w refl)
  perform-Logged msg write (some (time_travel a)) w =
      ap (λ (v : World). v.db.events)
        (perform-read sqlite is_rfc3339 env peer msg write (some (time_travel a)) w refl)
  perform-Logged msg write (some (unknown_op a)) w =
      ap (λ (v : World). v.db.events)
        (perform-read sqlite is_rfc3339 env peer msg write (some (unknown_op a)) w refl)

  -- A write with arguments that parse either fails and leaves the log as it was, or puts one event of
  -- the peer, of the operation's type, at the end of the log; every other request leaves the log as it
  -- was. The two entry points agree in this.
  pub handle-Logged :
      (msg : Inbound) (w : World)
      → LoggedAs (event_type_of msg.payload) w (handle_query sqlite is_rfc3339 env peer msg w)
        × LoggedAs (event_type_of msg.payload) w (handle_write sqlite is_rfc3339 env peer msg w)
  unfolding handle_query handle_write dispatch
  handle-Logged msg w =
      (perform-Logged msg false msg.payload w, perform-Logged msg true msg.payload w)
