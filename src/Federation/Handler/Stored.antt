-- ===== src/Federation/Handler/Stored.antt =====
-- Reads after a write of an entity, and after `opEntityUpdate`, of internal/federation/handler.go.
use coggo.Prelude.{
  eq_refl, String, ◌≡◌, refl, ◌∙◌, sym, ap, inl, inr, true, false, ◌==◌, none, some, List, [], ◌∷◌,
  ◌++◌, arith, if◌then◌else◌,
}
use coggo.Prelude.Result.{Result, ok, err}
use coggo.Types.{Entity, Event}
use coggo.Types.Json.{merged, get}
use coggo.Types.Json.Laws.{IsMap, get-merge}
use coggo.Store.Rows.{Db, EventRow}
use coggo.Store.Events.{append_event, event_row, filled_event}
use coggo.Store.Events.Laws.{Appended, append_event-Appended}
use coggo.Store.Entities.{or_empty, upsert_entity, get_entity, filled_entity}
use coggo.Store.Entities.Read.{stored}
use coggo.Store.Entities.Laws.{get_entity-upsert_entity}
use coggo.Federation.Message.{Inbound, Body, Outcome, EntityUpdateArgs}
use coggo.Federation.Handler.Base.{World, Env, log_then, after_append}
use coggo.Federation.Handler.EntityOps.{updated_entity, update_found, op_entity_update}
use coggo.Federation.Handler.Log.{is_done, finish-events}

-- the database with another log
abbrev with_log : List EventRow → Db → Db
with_log rows db = record db { events = rows }

module _ (env : Env) (peer : String) (msg : Inbound) where
  after_append-done :
      {A : Type 0} (append_text text : String) (ev : Event) (next : Db → Result A × Db)
      (body : A → Body) (w : World) (out : Result Event × Db)
      → Appended ev w.db out
      → is_done (after_append env peer msg append_text text body next w out).0 ≡ true
      → (rows : List EventRow) × ((after_append env peer msg append_text text body next w out).1.db
          ≡ (next (with_log rows w.db)).1)
  after_append-done append_text text ev next body w (err x, db) outcome done = absurd (ground arith)
  after_append-done append_text text ev next body w (ok x, db) (inl failed) done =
      absurd (ground (arith, failed.0))
  after_append-done append_text text ev next body w (ok x, db) (inr (added, new)) done = (
    w.db.events ++ event_row ev ∷ [],
    finish-events env peer msg text body (record w { db = db }) (next db)
        ∙ ap (λ (o : Result Event × Db). (next o.1).1) added,
  )

  -- A write that is done has written its record, to the database with the longer log.
  log_then-done :
      {A : Type 0} (append_text text : String) (ev : Event) (next : Db → Result A × Db)
      (body : A → Body) (w : World)
      → is_done (log_then env peer msg append_text text ev next body w).0 ≡ true
      → (rows : List EventRow) × ((log_then env peer msg append_text text ev next body w).1.db
          ≡ (next (with_log rows w.db)).1)
  unfolding log_then
  log_then-done append_text text ev next body w done =
      after_append-done append_text text (filled_event env.now env.store_ulid ev) next body w
        (append_event env.now env.store_ulid (some ev) w.db)
        (append_event-Appended env.now env.store_ulid ev w.db) done

  -- What a read finds once an entity is logged and stored.
  pub log_then-get_entity :
      (append_text text : String) (ev : Event) (body : Entity → Body) (e : Entity) (w : World)
      (p i : String)
      → (e.id == "") ≡ false
      → (e.peer_did == "") ≡ false
      → is_done
          (log_then env peer msg append_text text ev (upsert_entity env.now (some e)) body w).0
        ≡ true
      → get_entity p i
          (log_then env peer msg append_text text ev (upsert_entity env.now (some e)) body w).1.db
        ≡ (if e.id == i
            then (if e.peer_did == p then ok (some (stored (filled_entity env.now e))) else ok none)
            else get_entity p i w.db)
  log_then-get_entity append_text text ev body e w p i named owned done =
      let (rows, written) =
        log_then-done append_text text ev (upsert_entity env.now (some e)) body w done in
      ap (get_entity p i) written
      ∙ get_entity-upsert_entity env.now e (with_log rows w.db) p i named owned
      ∙ unfold get_entity in refl

  -- After an `entity.update` that is done, of an entity that the peer has: the entity has the given
  -- fields over its old ones and the time of the update, and every other entity is as it was.
  pub get_entity-op_entity_update :
      (a : EntityUpdateArgs) (cur : Entity) (w : World) (p i : String)
      → (cur.id == "") ≡ false
      → (cur.peer_did == "") ≡ false
      → get_entity peer a.id w.db ≡ ok (some cur)
      → is_done (op_entity_update env peer msg (some a) w).0 ≡ true
      → get_entity p i (op_entity_update env peer msg (some a) w).1.db ≡ (
          if cur.id == i
          then (if cur.peer_did == p
              then ok (some (stored (filled_entity env.now (updated_entity env peer msg a cur))))
              else ok none)
          else get_entity p i w.db)
  get_entity-op_entity_update a cur w p i named owned there done =
      ap (λ (o : Outcome × World). get_entity p i o.1.db) run
      ∙ log_then-get_entity "entity.update: append" "entity.update: upsert" _ _
          (updated_entity env peer msg a cur) w p i named owned
          (sym (ap (λ (o : Outcome × World). is_done o.0) run) ∙ done)
    where
      run : op_entity_update env peer msg (some a) w ≡ update_found env peer msg a (ok (some cur)) w
      run = unfold op_entity_update in ap (λ e. update_found env peer msg a e w) there

  -- After an `entity.update` that is done, of an entity that the peer has and whose id and peer are
  -- not empty, by a request whose keys are all different: each key of the entity has the value of the
  -- request if it has one and else the old value; the entity keeps its type and its creator and is
  -- archived if it was, and has the time of the update; every other id reads as it was.
  pub get-op_entity_update :
      (a : EntityUpdateArgs) (cur : Entity) (w : World) (k p i : String)
      → (cur.id == "") ≡ false
      → (cur.peer_did == "") ≡ false
      → (cur.id == i) ≡ false
      → IsMap (or_empty a.fields)
      → get_entity peer a.id w.db ≡ ok (some cur)
      → is_done (op_entity_update env peer msg (some a) w).0 ≡ true
      → (e : Entity) × (get_entity cur.peer_did cur.id
            (op_entity_update env peer msg (some a) w).1.db
          ≡ ok (some e))
        × (get k (or_empty e.fields)
            ≡ merged (get k (or_empty a.fields)) (get k (or_empty cur.fields)))
        × (e.type ≡ cur.type)
        × (e.created_by_did ≡ cur.created_by_did)
        × (e.archived_at ≡ cur.archived_at)
        × (e.updated_at ≡ env.now)
        × (get_entity p i (op_entity_update env peer msg (some a) w).1.db ≡ get_entity p i w.db)
  get-op_entity_update a cur w k p i named owned other map there done = (
    stored (filled_entity env.now (updated_entity env peer msg a cur)),
    get_entity-op_entity_update a cur w cur.peer_did cur.id named owned there done
        ∙ rw (eq_refl cur.id, eq_refl cur.peer_did),
    get-merge k (or_empty a.fields) (or_empty cur.fields) map,
    refl,
    refl,
    refl,
    ground arith,
    get_entity-op_entity_update a cur w p i named owned there done ∙ rw other refl,
  )
