-- ===== src/Federation/Handler/Isolation.antt =====
-- What a handler of internal/federation/handler.go leaves of another peer's entities.
pub mod Operations
pub mod Requests
use coggo.Prelude.{
  ◌∙◌, sym, ap, ◌==◌, eq_iff, ◌++◌, [], ◌∷◌, String, ◌≡◌, refl, inl, inr, Bool, true, false, Option,
  none, some, List, arith, Bool-cases,
}
use coggo.Prelude.Result.{Result, ok, err}
use coggo.Types.{Entity, Event, EntityTypeDefinition, RelationshipTypeDefinition}
use coggo.Types.Json.{Fields}
use coggo.Store.Rows.{Sqlite, Db}
use coggo.Store.Events.{append_event}
use coggo.Store.Entities.{get_entity}
use coggo.Schema.Resolver.{Resolver, entity_type, relation_type}
use coggo.Schema.Validate.{ValidationIssue, validate_entity, has_errors}
use coggo.Federation.Message
use coggo.Federation.Message.{
  Inbound, Body, Request, entity_get, entity_query, entity_create, entity_update, entity_archive,
  relation_create, relation_query, relation_dissolve, type_list, type_describe, type_define,
  time_travel, unknown_op, Outcome, returns, panics, EntityCreateArgs, RelationCreateArgs,
  EntityUpdateArgs, IdArgs, TypeDefineArgs, TypeDescribeArgs, SemanticArgs, TimeTravelArgs,
  RelationQueryArgs,
}
use coggo.Federation.Handler.Base.{World, Env, log_then, after_append}
use coggo.Federation.Handler.EntityOps.{
  created_entity, updated_entity, create, accept, validated, create_with, op_entity_create,
  update_found, op_entity_update, op_entity_archive,
}
use coggo.Federation.Handler.RelationOps.{
  relate, resolved, relate_with, op_relation_create, op_relation_dissolve,
}
use coggo.Federation.Handler.TypeOps.{op_type_define}
use coggo.Federation.Handler.Dispatch.{perform, dispatch, handle_query, handle_write}
use coggo.Prelude.Distinct.{Distinct}
use coggo.Types.{Time, Relation}
use coggo.Store.Rows.{EventRow, EntityRow}
use coggo.Store.Entities.{upsert_entity}
use coggo.Store.Entities.Laws.{get_entity-upsert_entity}
use coggo.Store.Entities.Isolation.{archive_entity-others, get_entity-others}
use coggo.Store.Relations.{upsert_relation, dissolve_relation}
use coggo.Store.Events.{event_row, filled_event}
use coggo.Store.Events.Laws.{Appended, append_event-Appended}
use coggo.Federation.Handler.Laws.{perform-read}
use coggo.Federation.Handler.Log.{finish-events}

-- An entity of another peer is written only if the other peer has none of its id.
pub upsert_entity-others :
    (now : Time) (e : Entity) (db : Db) (p i : String)
    → (e.peer_did == p) ≡ false
    → get_entity p e.id db ≡ ok none
    → get_entity p i (upsert_entity now (some e) db).1 ≡ get_entity p i db
upsert_entity-others now e db p i other free = elim (Bool-cases (e.id == "")) [
  | inl bare ↦ unfold upsert_entity in rw bare
  | inr named ↦ elim (Bool-cases (e.peer_did == "")) [
    | inl bare ↦ unfold upsert_entity in rw (named, bare)
    | inr owned ↦
        get_entity-upsert_entity now e db p i named owned ∙ elim (Bool-cases (e.id == i)) [
          | inl same ↦
              rw (same, other) (sym free ∙ ap (λ k. get_entity p k db) ((eq_iff e.id i).0 same))
          | inr apart ↦ rw apart
        ]
  ]
]

pub upsert_relation-others :
    (now : Time) (r : Relation) (db : Db) (p i : String)
    → get_entity p i (upsert_relation now (some r) db).1 ≡ get_entity p i db
unfolding upsert_relation get_entity
upsert_relation-others now r db p i = ground arith

pub dissolve_relation-others :
    (peer id : String) (db : Db) (p i : String)
    → get_entity p i (dissolve_relation peer id db).1 ≡ get_entity p i db
unfolding dissolve_relation get_entity
dissolve_relation-others peer id db p i = ground arith

module _ (env : Env) (peer : String) (msg : Inbound) (p i : String) where
  -- the outcome leaves the entity as it was
  abbrev pub Kept : World → Outcome × World → Type 0
  Kept w out = get_entity p i out.1.db ≡ get_entity p i w.db

  after_append-Kept :
      {A : Type 0} (append_text text : String) (ev : Event) (next : Db → Result A × Db)
      (body : A → Body) (w : World) (out : Result Event × Db)
      → ((rows : List EventRow)
          → get_entity p i (next (record w.db { events = rows })).1 ≡ get_entity p i w.db)
      → Appended ev w.db out
      → Kept w (after_append env peer msg append_text text body next w out)
  after_append-Kept append_text text ev next body w (ok x, db) keeps (inl failed) =
      absurd (ground (arith, failed.0))
  after_append-Kept append_text text ev next body w (err x, db) keeps (inl failed) =
      ap (get_entity p i) failed.1
  after_append-Kept append_text text ev next body w (err x, db) keeps (inr (added, new)) =
      absurd (ground (arith, added))
  after_append-Kept append_text text ev next body w (ok x, db) keeps (inr (added, new)) =
      ap (get_entity p i) (finish-events env peer msg text body (record w { db = db }) (next db))
      ∙ ap (λ (o : Result Event × Db). get_entity p i (next o.1).1) added
      ∙ keeps (w.db.events ++ event_row ev ∷ [])

  pub log_then-Kept :
      {A : Type 0} (append_text text : String) (ev : Event) (next : Db → Result A × Db)
      (body : A → Body) (w : World)
      → ((rows : List EventRow)
          → get_entity p i (next (record w.db { events = rows })).1 ≡ get_entity p i w.db)
      → Kept w (log_then env peer msg append_text text ev next body w)
  unfolding log_then
  log_then-Kept append_text text ev next body w keeps =
      after_append-Kept append_text text (filled_event env.now env.store_ulid ev) next body w
        (append_event env.now env.store_ulid (some ev) w.db) keeps
        (append_event-Appended env.now env.store_ulid ev w.db)

-- The record id is new to the other peer, who is another, and no two entities share an id.
pub record Apart (env : Env) (peer p : String) (w : World) : Type 0 where
  pub other : (p == peer) ≡ false
  pub new : get_entity p env.record_id w.db ≡ ok none
  pub distinct : Distinct (λ (r : EntityRow). r.id) w.db.entities
