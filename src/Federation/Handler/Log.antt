-- ===== src/Federation/Handler/Log.antt =====
-- What the writes of internal/federation/handler.go leave in the log.
pub mod Operations
pub mod Requests
use coggo.Prelude.{
  String, ◌≡◌, refl, ◌∙◌, ap, ◌⊎◌, inl, inr, Bool, true, false, Option, none, some, List, [], ◌∷◌,
  ◌++◌, arith, Bool-cases, if◌then◌else◌,
}
use coggo.Prelude.Result.{Result, ok, err}
use coggo.Types.{
  Time, Entity, Relation, Event, EventType, entity_created, entity_updated, entity_archived,
  relation_created, relation_dissolved, entity_type_defined, relationship_type_defined,
  EntityTypeDefinition, RelationshipTypeDefinition,
}
use coggo.Types.Json.{Fields}
use coggo.Store.Rows.{Sqlite, Db, EventRow}
use coggo.Store.Events.{append_event, event_row, filled_event}
use coggo.Store.Events.Laws.{Appended, append_event-Appended}
use coggo.Store.Entities.{upsert_entity, archive_entity, get_entity}
use coggo.Store.Relations.{upsert_relation, dissolve_relation}
use coggo.Schema.Resolver.{Resolver, entity_type, relation_type}
use coggo.Schema.Validate.{ValidationIssue, validate_entity, has_errors}
use coggo.Federation.Message.{
  Inbound, Body, Request, entity_get, entity_query, entity_create, entity_update, entity_archive,
  relation_create, relation_query, relation_dissolve, type_list, type_describe, type_define,
  semantic_search, time_travel, unknown_op, Outcome, returns, panics, EntityCreateArgs,
  RelationCreateArgs, EntityUpdateArgs, IdArgs, TypeDefineArgs,
}
use coggo.Federation.Handler.Base.{World, Env, log_then, finish, after_append}
use coggo.Federation.Handler.EntityOps.{
  create, accept, validated, create_with, op_entity_create, update_found, op_entity_update,
  op_entity_archive,
}
use coggo.Federation.Handler.RelationOps.{
  relate, resolved, relate_with, op_relation_create, op_relation_dissolve,
}
use coggo.Federation.Handler.TypeOps.{op_type_define}
use coggo.Federation.Handler.Laws.{perform-read}
use coggo.Federation.Handler.Dispatch.{perform, dispatch, handle_query, handle_write}

-- the call replies and Go's error is nil
abbrev pub is_done : Outcome → Bool
is_done (returns m none) = true
is_done (returns m (some e)) = false
is_done panics = false

-- The call fails and the log is as it was, or the log has one more event at its end, the peer's and
-- of the type.
abbrev pub Logged : String → EventType → World → Outcome × World → Type 0
Logged peer type w out =
    ((is_done out.0 ≡ false) × (out.1.db.events ≡ w.db.events))
    ⊎ ((r : EventRow) × (out.1.db.events ≡ w.db.events ++ r ∷ [])
        × ((r.peer_did ≡ peer) × (r.type ≡ type)))

module _ (env : Env) (peer : String) (msg : Inbound) where
  pub finish-events :
      {A : Type 0} (text : String) (body : A → Body) (w : World) (out : Result A × Db)
      → (finish env peer msg text body w out).1.db ≡ out.1
  finish-events text body w (ok a, db) = refl
  finish-events text body w (err e, db) = refl

  after_append-Logged :
      {A : Type 0} (append_text text : String) (ev : Event) (next : Db → Result A × Db)
      (body : A → Body) (w : World) (out : Result Event × Db)
      → ((db : Db) → (next db).1.events ≡ db.events)
      → Appended ev w.db out
      → Logged ev.peer_did ev.type w (after_append env peer msg append_text text body next w out)
  after_append-Logged append_text text ev next body w (ok x, db) keeps (inl failed) =
      absurd (ground (arith, failed.0))
  after_append-Logged append_text text ev next body w (err x, db) keeps (inl failed) =
      inl (refl, ap (λ (d : Db). d.events) failed.1)
  after_append-Logged append_text text ev next body w (err x, db) keeps (inr (added, new)) =
      absurd (ground (arith, added))
  after_append-Logged append_text text ev next body w (ok x, db) keeps (inr (added, new)) = inr (
    event_row ev,
    ap (λ (d : Db). d.events) (finish-events text body (record w { db = db }) (next db))
        ∙ keeps db
        ∙ ap (λ (o : Result Event × Db). o.1.events) added,
    (refl, refl),
  )

  pub log_then-Logged :
      {A : Type 0} (append_text text : String) (ev : Event) (next : Db → Result A × Db)
      (body : A → Body) (w : World)
      → ((db : Db) → (next db).1.events ≡ db.events)
      → Logged ev.peer_did ev.type w (log_then env peer msg append_text text ev next body w)
  unfolding log_then
  log_then-Logged append_text text ev next body w keeps =
      after_append-Logged append_text text (filled_event env.now env.store_ulid ev) next body w
        (append_event env.now env.store_ulid (some ev) w.db) keeps
        (append_event-Appended env.now env.store_ulid ev w.db)

pub upsert_entity-events :
    (now : Time) (e : Option Entity) (db : Db) → (upsert_entity now e db).1.events ≡ db.events
upsert_entity-events now none db = unfold upsert_entity in refl
upsert_entity-events now (some e) db = unfold upsert_entity in ground arith

pub archive_entity-events :
    (now : Time) (peer id : String) (at : Time) (db : Db)
    → (archive_entity now peer id at db).1.events ≡ db.events
archive_entity-events now peer id at db = unfold archive_entity in ground arith

pub upsert_relation-events :
    (now : Time) (r : Option Relation) (db : Db) → (upsert_relation now r db).1.events ≡ db.events
upsert_relation-events now none db = unfold upsert_relation in refl
upsert_relation-events now (some r) db = unfold upsert_relation in ground arith

pub dissolve_relation-events :
    (peer id : String) (db : Db) → (dissolve_relation peer id db).1.events ≡ db.events
dissolve_relation-events peer id db = unfold dissolve_relation in ground arith
