-- ===== src/Federation/Handler/Accepted.antt =====
-- internal/federation/handler.go: which creations and updates are done.
use coggo.Prelude.{
  String, ◌==◌, ◌≡◌, refl, ◌∙◌, ap, inl, inr, Bool, false, ◌&&◌, not, Option, some, List, any,
  Bool-cases,
}
use coggo.Prelude.Result.{ok}
use coggo.Types.{Entity, Event, is_untyped, EntityTypeDefinition}
use coggo.Types.Json.{Fields}
use coggo.Store.Events.{append_event, insert_event}
use coggo.Store.Entities.{upsert_entity, get_entity}
use coggo.Schema.Resolver.{Resolver, entity_type}
use coggo.Schema.Validate.{ValidationIssue, validate_entity, has_errors}
use coggo.Federation.Message.{Inbound, Body, EntityCreateArgs, EntityUpdateArgs}
use coggo.Federation.Handler.Base.{World, Env, log_then}
use coggo.Federation.Handler.EntityOps.{
  create, created_entity, accept, validated, create_with, op_entity_create, updated_entity,
  op_entity_update,
}
use coggo.Federation.Handler.Log.{is_done}

module _ (env : Env) (peer : String) (msg : Inbound) where
  -- A write of an entity is done exactly if the id of its event is new.
  log_then-taken :
      (append_text text : String) (ev : Event) (body : Entity → Body) (e : Entity) (w : World)
      → (e.id == "") ≡ false
      → (e.peer_did == "") ≡ false
      → (ev.id == "") ≡ false
      → (ev.peer_did == "") ≡ false
      → is_untyped ev.type ≡ false
      → is_done
          (log_then env peer msg append_text text ev (upsert_entity env.now (some e)) body w).0
        ≡ not (any (λ r. r.id == ev.id) w.db.events)
  unfolding log_then append_event insert_event upsert_entity
  log_then-taken append_text text ev body e w named owned numbered logged typed =
      elim (Bool-cases (any (λ r. r.id == ev.id) w.db.events)) [
        | inl old ↦ rw (logged, typed, numbered, old) refl
        | inr new ↦ rw (logged, typed, numbered, new, named, owned) refl
      ]

  module _ (owned : (peer == "") ≡ false) (numbered : (env.event_id == "") ≡ false) where
    create-taken :
        (a : EntityCreateArgs) (fields : Option Fields) (w : World)
        → (env.record_id == "") ≡ false
        → is_done (create env peer msg a fields w).0
          ≡ not (any (λ x. x.id == env.event_id) w.db.events)
    unfolding create
    create-taken a fields w named =
        log_then-taken "entity.create: append event" "entity.create: upsert" _ _
          (created_entity env peer msg a fields) w named owned numbered owned refl

    accept-accepted :
        (is_rfc3339 : String → Bool) (a : EntityCreateArgs) (issues : List ValidationIssue)
        (fields : Option Fields) (w : World)
        → (env.record_id == "") ≡ false
        → is_done (accept env peer msg is_rfc3339 a (issues, fields) w).0
          ≡ (not (has_errors issues) && not (any (λ x. x.id == env.event_id) w.db.events))
    accept-accepted is_rfc3339 a issues fields w named = elim (Bool-cases (has_errors issues)) [
      | inl bad ↦ rw bad refl
      | inr good ↦ rw good (create-taken a fields w named)
    ]

    -- With a resolver that has the type, and where the peer, the record id and the event id are not
    -- empty, a creation is done exactly if the fields have no error and no event of the log has the id
    -- that the call draws.
    pub op_entity_create-accepted :
        (is_rfc3339 : String → Bool) (a : EntityCreateArgs) (r : Resolver)
        (def : EntityTypeDefinition) (w : World)
        → (env.record_id == "") ≡ false
        → w.resolver ≡ some r
        → entity_type peer a.type r ≡ ok def
        → is_done (op_entity_create env peer msg is_rfc3339 (some a) w).0 ≡ (
            not (has_errors (validate_entity is_rfc3339 (some def) a.fields).0)
            && not (any (λ x. x.id == env.event_id) w.db.events))
    unfolding op_entity_create
    op_entity_create-accepted is_rfc3339 a r def w named resolves found =
        ap (λ o. is_done (create_with env peer msg is_rfc3339 a o w).0) resolves
        ∙ ap (λ d. is_done (validated env peer msg is_rfc3339 a d w).0) found
        ∙ accept-accepted is_rfc3339 a (validate_entity is_rfc3339 (some def) a.fields).0
            (validate_entity is_rfc3339 (some def) a.fields).1 w named

    -- An update of an entity that the peer has is done exactly if no event of the log has the id that
    -- the call draws.
    pub op_entity_update-accepted :
        (a : EntityUpdateArgs) (cur : Entity) (w : World)
        → (cur.id == "") ≡ false
        → (cur.peer_did == "") ≡ false
        → get_entity peer a.id w.db ≡ ok (some cur)
        → is_done (op_entity_update env peer msg (some a) w).0
          ≡ not (any (λ x. x.id == env.event_id) w.db.events)
    unfolding op_entity_update
    op_entity_update-accepted a cur w named kept there = rw there (
        log_then-taken "entity.update: append" "entity.update: upsert" _ _
          (updated_entity env peer msg a cur) w named kept numbered owned refl)
