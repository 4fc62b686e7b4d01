-- ===== src/Federation/Handler/Mirror/Requests.antt =====
-- The requests to internal/federation/handler.go beside the fold of the log.
use mathlib.Core.Option
use coggo.Prelude.{
  lookup, String, ◌==◌, ◌≡◌, refl, ap, sym, subst, ◌∙◌, inl, inr, Bool, true, false, Option, none,
  some, List, arith, Bool-cases, eq_refl,
}
use coggo.Prelude.Result.{Result, ok, err}
use coggo.Types.{is_zero, Entity, Event, EntityTypeDefinition, RelationshipTypeDefinition}
use coggo.Types.Json.{Fields}
use coggo.Store.Rows.{Sqlite, Db}
use coggo.Prelude.Order.Sort.{Sorted}
use coggo.Store.Events.{filled_event, event_order}
use coggo.Store.Events.Laws.{logged}
use coggo.Store.Entities.{get_entity}
use coggo.Store.TimeTravel.{State, apply}
use coggo.Schema.Resolver.{Resolver, entity_type, relation_type}
use coggo.Schema.Validate.{ValidationIssue, validate_entity, has_errors}
use coggo.Federation.Message
use coggo.Federation.Message.{
  Inbound, Body, Request, entity_get, entity_query, entity_create, entity_update, entity_archive,
  relation_create, relation_query, relation_dissolve, type_list, type_describe, type_define,
  time_travel, unknown_op, Outcome, EntityCreateArgs, RelationCreateArgs, EntityUpdateArgs, IdArgs,
}
use coggo.Federation.Handler.Base.{World, Env, log_then}
use coggo.Federation.Handler.EntityOps.{
  accept, validated, create_with, op_entity_create, update_found, op_entity_update,
  op_entity_archive,
}
use coggo.Federation.Handler.RelationOps.{
  relate, resolved, relate_with, op_relation_create, op_relation_dissolve,
}
use coggo.Federation.Handler.Dispatch.{perform, dispatch, handle_query, handle_write}
use coggo.Federation.Handler.Laws.{is_read, perform-read}
use coggo.Federation.Handler.Log.{upsert_relation-events, dissolve_relation-events}
use coggo.Federation.Handler.Isolation.{upsert_relation-others, dissolve_relation-others}
use coggo.Federation.Handler.Mirror.{
  shown, read_shown, IsMirrored, is_definition, peer_log, logged_db, log_then-IsMirrored,
}
use coggo.Federation.Handler.Mirror.Operations.{Mirrors, create-IsMirrored, update_found-IsMirrored}
use coggo.Federation.Handler.Mirror.Archive.{op_entity_archive-IsMirrored}

module _ (env : Env) (peer : String) (msg : Inbound) (owned : (peer == "") ≡ false)
    (timed : is_zero env.now ≡ false) (named : (env.record_id == "") ≡ false) (w : World)
    (h : IsMirrored peer w.db) where
  module _ (is_rfc3339 : String → Bool) where
    accept-IsMirrored :
        (a : EntityCreateArgs) (issues : List ValidationIssue) (fields : Option Fields)
        → Mirrors peer (accept env peer msg is_rfc3339 a (issues, fields) w)
    accept-IsMirrored a issues fields = elim (Bool-cases (has_errors issues)) [
      | inl bad ↦ rw bad (λ s. h)
      | inr good ↦ rw good (create-IsMirrored env peer msg owned timed a fields w named h)
    ]

    validated-IsMirrored :
        (a : EntityCreateArgs) (def : Result EntityTypeDefinition)
        → Mirrors peer (validated env peer msg is_rfc3339 a def w)
    validated-IsMirrored a (err e) = λ s. h
    validated-IsMirrored a (ok def) =
        accept-IsMirrored a (validate_entity is_rfc3339 (some def) a.fields).0
          (validate_entity is_rfc3339 (some def) a.fields).1

    create_with-IsMirrored :
        (a : EntityCreateArgs) (r : Option Resolver)
        → Mirrors peer (create_with env peer msg is_rfc3339 a r w)
    create_with-IsMirrored a none = create-IsMirrored env peer msg owned timed a a.fields w named h
    create_with-IsMirrored a (some r) = validated-IsMirrored a (entity_type peer a.type r)

    op_entity_create-IsMirrored :
        (a : Option EntityCreateArgs) → Mirrors peer (op_entity_create env peer msg is_rfc3339 a w)
    unfolding op_entity_create
    op_entity_create-IsMirrored none = λ s. h
    op_entity_create-IsMirrored (some a) = create_with-IsMirrored a w.resolver

  update_with-IsMirrored :
      (a : EntityUpdateArgs) (e : Result (Option Entity))
      → get_entity peer a.id w.db ≡ e
      → Mirrors peer (update_found env peer msg a e w)
  update_with-IsMirrored a (err e) there = λ s. h
  update_with-IsMirrored a (ok none) there = λ s. h
  update_with-IsMirrored a (ok (some cur)) there =
      update_found-IsMirrored env peer msg owned timed a cur w h there

  op_entity_update-IsMirrored :
      (a : Option EntityUpdateArgs) → Mirrors peer (op_entity_update env peer msg a w)
  unfolding op_entity_update
  op_entity_update-IsMirrored none = λ s. h
  op_entity_update-IsMirrored (some a) = update_with-IsMirrored a (get_entity peer a.id w.db) refl

  -- a write that touches no entity, whose event the fold passes over
  beside-IsMirrored :
      {A : Type 0} (append_text text : String) (ev : Event) (next : Db → Result A × Db)
      (body : A → Body)
      → (ev.peer_did == peer) ≡ true
      → ((st : State) → apply st (logged (filled_event env.now env.store_ulid ev)) ≡ st)
      → ((db : Db) → (next db).1.events ≡ db.events)
      → ((db : Db) (i : String) → get_entity peer i (next db).1 ≡ get_entity peer i db)
      → Mirrors peer (log_then env peer msg append_text text ev next body w)
  beside-IsMirrored append_text text ev next body own passes keeps others =
      log_then-IsMirrored env peer msg append_text text ev next body w own keeps
        (λ st agrees i.
          ap read_shown (as_before i)
          ∙ agrees i
          ∙ ap (λ s. ok (Option.map shown (lookup i s))) (sym (passes st)))
        (λ complete i x found. complete i x (sym (as_before i) ∙ found)) h
    where
      as_before :
          (i : String)
          → get_entity peer i (next (logged_db env peer msg ev w)).1 ≡ get_entity peer i w.db
      as_before i = others (logged_db env peer msg ev w) i ∙ unfold get_entity in refl

  relate-IsMirrored : (a : RelationCreateArgs) → Mirrors peer (relate env peer msg a w)
  unfolding relate apply
  relate-IsMirrored a =
      beside-IsMirrored _ _ _ _ _ (eq_refl peer) (λ st. refl) (upsert_relation-events env.now _)
        (λ db i. upsert_relation-others env.now _ db peer i)

  resolved-IsMirrored :
      (a : RelationCreateArgs) (def : Result RelationshipTypeDefinition)
      → Mirrors peer (resolved env peer msg a def w)
  resolved-IsMirrored a (err e) = λ s. h
  resolved-IsMirrored a (ok def) = relate-IsMirrored a

  relate_with-IsMirrored :
      (a : RelationCreateArgs) (r : Option Resolver) → Mirrors peer (relate_with env peer msg a r w)
  relate_with-IsMirrored a none = relate-IsMirrored a
  relate_with-IsMirrored a (some r) = resolved-IsMirrored a (relation_type peer a.type r)

  op_relation_create-IsMirrored :
      (a : Option RelationCreateArgs) → Mirrors peer (op_relation_create env peer msg a w)
  unfolding op_relation_create
  op_relation_create-IsMirrored none = λ s. h
  op_relation_create-IsMirrored (some a) = relate_with-IsMirrored a w.resolver

  op_relation_dissolve-IsMirrored :
      (a : Option IdArgs) → Mirrors peer (op_relation_dissolve env peer msg a w)
  unfolding op_relation_dissolve apply
  op_relation_dissolve-IsMirrored none = λ s. h
  op_relation_dissolve-IsMirrored (some a) =
      beside-IsMirrored _ _ _ _ _ (eq_refl peer) (λ st. refl) (dissolve_relation-events peer a.id)
        (λ db i. dissolve_relation-others peer a.id db peer i)

  module _ (sqlite : Sqlite) (is_rfc3339 : String → Bool) where
    read-IsMirrored :
        (write : Bool) (request : Option Request)
        → is_read request ≡ true
        → Mirrors peer (perform sqlite is_rfc3339 env peer msg write request w)
    read-IsMirrored write request read s =
        subst (λ (v : World). IsMirrored peer v.db)
          (sym (perform-read sqlite is_rfc3339 env peer msg write request w read)) h

    perform-IsMirrored :
        (write : Bool) (request : Option Request)
        → is_definition request ≡ false
        → Mirrors peer (perform sqlite is_rfc3339 env peer msg write request w)
    perform-IsMirrored write (some (entity_create a)) plain =
        op_entity_create-IsMirrored is_rfc3339 a
    perform-IsMirrored write (some (entity_update a)) plain = op_entity_update-IsMirrored a
    perform-IsMirrored write (some (entity_archive none)) plain =
        unfold op_entity_archive in (λ s. h)
    perform-IsMirrored write (some (entity_archive (some a))) plain =
        op_entity_archive-IsMirrored env peer msg owned timed a w h
    perform-IsMirrored write (some (relation_create a)) plain = op_relation_create-IsMirrored a
    perform-IsMirrored write (some (relation_dissolve a)) plain = op_relation_dissolve-IsMirrored a
    perform-IsMirrored write (some (type_define a)) plain = absurd (ground arith)
    perform-IsMirrored write none plain = read-IsMirrored write none refl
    perform-IsMirrored write (some (entity_get a)) plain =
        read-IsMirrored write (some (entity_get a)) refl
    perform-IsMirrored write (some (entity_query a)) plain =
        read-IsMirrored write (some (entity_query a)) refl
    perform-IsMirrored write (some (relation_query a)) plain =
        read-IsMirrored write (some (relation_query a)) refl
    perform-IsMirrored write (some type_list) plain = read-IsMirrored write (some type_list) refl
    perform-IsMirrored write (some (type_describe a)) plain =
        read-IsMirrored write (some (type_describe a)) refl
    perform-IsMirrored write (some (Message.semantic_search a)) plain =
        read-IsMirrored write (some (Message.semantic_search a)) refl
    perform-IsMirrored write (some (time_travel a)) plain =
        read-IsMirrored write (some (time_travel a)) refl
    perform-IsMirrored write (some (unknown_op op)) plain =
        read-IsMirrored write (some (unknown_op op)) refl

    -- Whatever a request but `type.define` asks for, and whether it is done or fails: where the peer's
    -- entities are what the fold of its log has, but for the time of the last write, they are so
    -- afterwards, through either entry point. The peer, the record id and the time of the call are not
    -- empty, and the peer's events are in the order of timestamp text and id afterwards.
    pub handle-IsMirrored :
        is_definition msg.payload ≡ false
        → Sorted event_order (peer_log peer (handle_query sqlite is_rfc3339 env peer msg w).1.db)
        → Sorted event_order (peer_log peer (handle_write sqlite is_rfc3339 env peer msg w).1.db)
        → IsMirrored peer (handle_query sqlite is_rfc3339 env peer msg w).1.db
          × IsMirrored peer (handle_write sqlite is_rfc3339 env peer msg w).1.db
    unfolding handle_query handle_write dispatch
    handle-IsMirrored plain queried written = (
      perform-IsMirrored false msg.payload plain queried,
      perform-IsMirrored true msg.payload plain written,
    )
