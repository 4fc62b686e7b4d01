-- ===== src/Tests/HandlerRuns.antt =====
-- The theorems of the handlers and the router at concrete inputs.
use coggo.Prelude.{
  String, ◌≡◌, refl, ◌∙◌, ap, filter, find, true, none, some, [], ◌∷◌, lookup, insert,
}
use coggo.Prelude.Order.Sort.{Sorted}
use coggo.Prelude.Result.{ok}
use coggo.Types.{Entity, entity_created}
use coggo.Types.Json.{str, get, keys}
use coggo.Schema.Resolver.{Resolver, entity_type, resolve}
use coggo.Schema.Validate.{
  has_type, check_type, check_fields, unknown_fields, has_errors, validate_entity,
}
use coggo.Store.Events.{append_event, insert_event, event_order}
use coggo.Store.Entities.{get_entity, or_empty, upsert_entity}
use coggo.Store.Entities.Read.{get_entity-find, row_entity-entity_row}
use coggo.Federation.Message.{query, write, entity_create, entity_update, Outcome, Inbound}
use coggo.Federation.Handler.Base.{World, log_then}
use coggo.Federation.Handler.EntityOps.{op_entity_create, op_entity_update, create, update_found}
use coggo.Federation.Handler.Accepted.{op_entity_create-accepted}
use coggo.Federation.Handler.Dispatch.{handle_query, handle_write}
use coggo.Federation.Handler.Laws.{handle_query-handle_write}
use coggo.Federation.Handler.Log.{is_done}
use coggo.Federation.Handler.Log.Requests.{LoggedAs, handle-Logged}
use coggo.Federation.Handler.Mirror.{IsMirrored, peer_log, fresh-IsMirrored}
use coggo.Federation.Handler.Mirror.Requests.{handle-IsMirrored}
use coggo.Federation.Handler.Panics.{is_panic, is_stray}
use coggo.Federation.Handler.Panics.Requests.{handle-panics}
use coggo.Federation.Handler.Stored.{get-op_entity_update}
use coggo.Federation.Handler.Created.{Created, get_entity-op_entity_create}
use coggo.Federation.Router.{StoreHandler, register_peer}
use coggo.Federation.Handler.Isolation.{Apart}
use coggo.Federation.Handler.Isolation.Requests.{handle-others}
use coggo.Tests.Data.{
  empty_db, sqlite, rfc3339, me, note, note_type, world, env, creation, change, message_of,
}

handle-Logged_example :
    LoggedAs sqlite rfc3339 env me (some entity_created) world (
      handle_query sqlite rfc3339 env me
        (message_of write (some (entity_create (some creation))))
        world)
    × LoggedAs sqlite rfc3339 env me (some entity_created) world (
        handle_write sqlite rfc3339 env me
          (message_of write (some (entity_create (some creation))))
          world)
handle-Logged_example =
    handle-Logged sqlite rfc3339 env me (message_of write (some (entity_create (some creation))))
      world

created_done :
    is_done (op_entity_create env me (message_of write none) rfc3339 (some creation) world).0 ≡ true
unfolding op_entity_create create log_then append_event insert_event upsert_entity
created_done = refl

get_entity-op_entity_create_example :
    Created env me
      (message_of write none)
      creation
      world
      (op_entity_create env me (message_of write none) rfc3339 (some creation) world)
      "title"
      me
      "e2"
get_entity-op_entity_create_example =
    get_entity-op_entity_create env me (message_of write none) refl refl "title" me "e2" rfc3339
      creation world created_done

abbrev notes : Resolver
notes = record { entity_types = (me, ("Note", note_type) ∷ []) ∷ []; rel_types = [] }

note_known : entity_type me "Note" notes ≡ ok note_type
unfolding entity_type resolve lookup
note_known = refl

op_entity_create-accepted_example :
    is_done
      (op_entity_create env me
        (message_of write none)
        rfc3339
        (some creation)
        (record world { resolver = some notes })).0
    ≡ true
unfolding has_errors validate_entity check_fields check_type has_type unknown_fields get keys
op_entity_create-accepted_example =
    op_entity_create-accepted env me (message_of write none) refl refl rfc3339 creation notes
      note_type (record world { resolver = some notes }) refl refl note_known

abbrev new_world : World
new_world = record { db = empty_db; resolver = none }

abbrev asked : Inbound
asked = message_of write (some (entity_create (some creation)))

query_in_order :
    Sorted event_order (peer_log me (handle_query sqlite rfc3339 env me asked new_world).1.db)
unfolding handle_query op_entity_create create log_then append_event insert_event upsert_entity
    filter
query_in_order = (tt, tt)

write_in_order :
    Sorted event_order (peer_log me (handle_write sqlite rfc3339 env me asked new_world).1.db)
unfolding handle_write op_entity_create create log_then append_event insert_event upsert_entity
    filter
write_in_order = (tt, tt)

handle-IsMirrored_example :
    IsMirrored me (handle_query sqlite rfc3339 env me asked new_world).1.db
    × IsMirrored me (handle_write sqlite rfc3339 env me asked new_world).1.db
handle-IsMirrored_example =
    handle-IsMirrored env me asked refl refl refl new_world (fresh-IsMirrored me 3) sqlite rfc3339
      refl query_in_order write_in_order

found_note : get_entity me "e1" world.db ≡ ok (some note)
unfolding find
found_note =
    get_entity-find me "e1" world.db ∙ ap (λ (e : Entity). ok (some e)) (row_entity-entity_row note)

run :
    op_entity_update env me (message_of write none) (some change) world
    ≡ update_found env me (message_of write none) change (ok (some note)) world
unfolding op_entity_update
run = ap (λ e. update_found env me (message_of write none) change e world) found_note

updated_done :
    is_done (op_entity_update env me (message_of write none) (some change) world).0 ≡ true
unfolding log_then append_event insert_event upsert_entity
updated_done = ap (λ (o : Outcome × World). is_done o.0) run

get-op_entity_update_example :
    (e : Entity) × (get_entity me "e1"
        (op_entity_update env me (message_of write none) (some change) world).1.db
      ≡ ok (some e))
    × (get "title" (or_empty e.fields) ≡ some (str "Done"))
    × (e.type ≡ "Note")
    × (e.created_by_did ≡ me)
    × (e.archived_at ≡ none)
    × (e.updated_at ≡ env.now)
    × (get_entity me "e9" (op_entity_update env me (message_of write none) (some change) world).1.db
        ≡ get_entity me "e9" world.db)
unfolding get
get-op_entity_update_example =
    get-op_entity_update env me (message_of write none) change note world "title" me "e9" refl refl
      refl (refl, tt) found_note updated_done

handle_query-handle_write_example :
    handle_query sqlite rfc3339 env me
      (message_of query (some (entity_create (some creation))))
      world
    ≡ handle_write sqlite rfc3339 env me
        (message_of query (some (entity_create (some creation))))
        world
handle_query-handle_write_example =
    handle_query-handle_write sqlite rfc3339 env me
      (message_of query (some (entity_create (some creation)))) world refl

handle-panics_example :
    (is_panic
        (handle_query sqlite rfc3339 env me
          (message_of write (some (entity_update (some (record change { id = "e9" })))))
          world).0
      ≡ is_stray me (some (entity_update (some (record change { id = "e9" })))) world)
    × (is_panic
          (handle_write sqlite rfc3339 env me
            (message_of write (some (entity_update (some (record change { id = "e9" })))))
            world).0
        ≡ is_stray me (some (entity_update (some (record change { id = "e9" })))) world)
handle-panics_example =
    handle-panics sqlite rfc3339 env me
      (message_of write (some (entity_update (some (record change { id = "e9" }))))) world

abbrev handler : StoreHandler
handler = record { peer_did = me }

registered : register_peer me (some handler) [] ≡ ok ((me, handler) ∷ [])
unfolding register_peer lookup insert
registered = refl

-- another peer of the same store
abbrev you : String
you = "did:key:you"

apart : Apart env me you world
unfolding get_entity find
apart = record { other = refl; new = refl; distinct = (tt, tt) }

handle-others_example :
    (get_entity you "e1"
        (handle_query sqlite rfc3339 env me
          (message_of write (some (entity_create (some creation))))
          world).1.db
      ≡ get_entity you "e1" world.db)
    × (get_entity you "e1"
          (handle_write sqlite rfc3339 env me
            (message_of write (some (entity_create (some creation))))
            world).1.db
        ≡ get_entity you "e1" world.db)
handle-others_example =
    handle-others sqlite rfc3339 env me you "e1"
      (message_of write (some (entity_create (some creation)))) world apart
