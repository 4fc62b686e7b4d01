-- ===== src/Federation/Handler/Mirror/Operations.antt =====
-- `opEntityCreate` and `opEntityUpdate` of internal/federation/handler.go beside the fold of the log.
use mathlib.Core.Option
use coggo.Prelude.{
  String, ◌==◌, ◌≡◌, refl, ◌∙◌, sym, ap, subst, inl, inr, true, false, Option, none, some, List,
  arith, Bool-cases, if◌then◌else◌, eq_refl, lookup, insert, lookup-insert,
}
use coggo.Prelude.Order.Sort.{Sorted}
use coggo.Prelude.Result.{ok}
use coggo.Types.{Time, is_zero, Entity, Event, entity_created, entity_updated, of_entity}
use coggo.Types.Json.{Fields, merge}
use coggo.Types.Decode.{unmarshal_entity}
use coggo.Store.Rows.{Db, EventRow}
use coggo.Store.Events.{event_order, filled_event}
use coggo.Store.Events.Laws.{logged}
use coggo.Store.Entities.{or_empty, get_entity, upsert_entity, filled_entity}
use coggo.Store.Entities.Read.{stored}
use coggo.Store.Entities.Laws.{get_entity-upsert_entity}
use coggo.Store.Entities.Isolation.{get_entity-key}
use coggo.Store.TimeTravel.{State, apply, decode_entity_payload, completed, merge_entity}
use coggo.Federation.Message.{Inbound, Outcome, EntityCreateArgs, EntityUpdateArgs}
use coggo.Federation.Handler.Base.{World, Env, event_of, author_of, client_of}
use coggo.Federation.Handler.EntityOps.{create, created_entity, updated_entity, update_found}
use coggo.Federation.Handler.Log.{upsert_entity-events}
use coggo.Federation.Handler.Mirror.{
  shown, read_shown, Agrees, AllComplete, IsMirrored, peer_log, log_then-IsMirrored,
}

module _ (now : Time) (peer : String) (e : Entity) (db : Db) (rows : List EventRow)
    (named : (e.id == "") ≡ false) (owned : (e.peer_did == "") ≡ false)
    (own : (e.peer_did == peer) ≡ true) where
  stored_as :
      (i : String)
      → get_entity peer i (upsert_entity now (some e) (record db { events = rows })).1
        ≡ (if e.id == i then ok (some (stored (filled_entity now e))) else get_entity peer i db)
  stored_as i =
      get_entity-upsert_entity now e (record db { events = rows }) peer i named owned
      ∙ rw own (unfold get_entity in refl)

  upsert_entity-Agrees :
      (st st' : State) (x : Entity)
      → shown (filled_entity now e) ≡ shown x
      → ((i : String) → lookup i st' ≡ (if e.id == i then some x else lookup i st))
      → Agrees peer db st
      → Agrees peer (upsert_entity now (some e) (record db { events = rows })).1 st'
  upsert_entity-Agrees st st' x alike found agrees i = elim (Bool-cases (e.id == i)) [
    | inl it ↦ rw (stored_as i, found i, it) (ap (λ y. ok (some y)) alike)
    | inr other ↦ rw (stored_as i, found i, other) (agrees i)
  ]

  upsert_entity-AllComplete :
      is_zero (filled_entity now e).created_at ≡ false
      → AllComplete peer db
      → AllComplete peer (upsert_entity now (some e) (record db { events = rows })).1
  upsert_entity-AllComplete dated dates i x there = elim (Bool-cases (e.id == i)) [
    | inl it ↦
        let same : ok (some (stored (filled_entity now e))) ≡ ok (some x) =
          sym (stored_as i ∙ rw it refl) ∙ there in
        let it_is : stored (filled_entity now e) ≡ x = ground arith in
        subst (λ (y : Entity). (is_zero y.created_at ≡ false) × ((y.id == "") ≡ false)) it_is
          (dated, named)
    | inr other ↦
        let same : get_entity peer i db ≡ ok (some x) = sym (stored_as i ∙ rw other refl) ∙ there in
        dates i x same
  ]

-- what an operation leaves, where the peer's events are in order afterwards
abbrev pub Mirrors : String → Outcome × World → Type 0
Mirrors peer out = Sorted event_order (peer_log peer out.1.db) → IsMirrored peer out.1.db

pub shown_in :
    (o : Option Entity) (e : Entity)
    → ok (some (shown e)) ≡ ok (Option.map shown o)
    → (c : Entity) × (o ≡ some c) × (shown c ≡ shown e)
shown_in none e h = absurd (ground arith)
shown_in (some c) e h = let same : shown e ≡ shown c = ground arith in (c, refl, sym same)

module _ (env : Env) (peer : String) (msg : Inbound) (owned : (peer == "") ≡ false)
    (timed : is_zero env.now ≡ false) where
  -- the event of a creation, as the log has it
  abbrev creation_event : EntityCreateArgs → Option Fields → Event
  creation_event a fields =
      let e = created_entity env peer msg a fields in
      logged (
        filled_event env.now env.store_ulid
          (event_of env peer msg entity_created (of_entity e) e.created_by_did e.created_by_client))

  apply-created :
      (a : EntityCreateArgs) (fields : Option Fields) (st : State)
      → (env.record_id == "") ≡ false
      → apply st (creation_event a fields)
        ≡ insert env.record_id
            (completed (creation_event a fields) (created_entity env peer msg a fields))
            st
  unfolding apply decode_entity_payload unmarshal_entity
  apply-created a fields st named = rw named refl

  pub create-IsMirrored :
      (a : EntityCreateArgs) (fields : Option Fields) (w : World)
      → (env.record_id == "") ≡ false
      → IsMirrored peer w.db
      → Mirrors peer (create env peer msg a fields w)
  unfolding create
  create-IsMirrored a fields w named h =
      log_then-IsMirrored env peer msg _ _ _ _ _ w (eq_refl peer) (upsert_entity-events env.now _)
        (λ st agrees.
          upsert_entity-Agrees env.now peer (created_entity env peer msg a fields) w.db _ named
            owned (eq_refl peer) st _
            (completed (creation_event a fields) (created_entity env peer msg a fields))
            (rw (timed, owned) refl)
            (λ i.
              ap (lookup i) (apply-created a fields st named) ∙ lookup-insert env.record_id i _ st)
            agrees)
        (upsert_entity-AllComplete env.now peer (created_entity env peer msg a fields) w.db _ named
          owned (eq_refl peer) (rw (timed, timed) refl))
        h

  -- the event of an update, as the log has it
  abbrev update_event : EntityUpdateArgs → Entity → Event
  update_event a cur = logged (
      filled_event env.now env.store_ulid (
        event_of env peer msg entity_updated (of_entity (updated_entity env peer msg a cur))
          (author_of env peer msg a.author) (client_of env peer msg a.client)))

  apply-updated :
      (a : EntityUpdateArgs) (cur c : Entity) (st : State)
      → (cur.id == "") ≡ false
      → lookup cur.id st ≡ some c
      → apply st (update_event a cur)
        ≡ insert cur.id
            (merge_entity
              (update_event a cur)
              (completed (update_event a cur) (updated_entity env peer msg a cur))
              c)
            st
  unfolding apply decode_entity_payload unmarshal_entity
  apply-updated a cur c st named found = rw (named, found) refl

  merged_alike :
      (a : EntityUpdateArgs) (cur c : Entity)
      → is_zero cur.created_at ≡ false
      → shown c ≡ shown cur
      → shown (filled_entity env.now (updated_entity env peer msg a cur))
        ≡ shown (
            merge_entity
              (update_event a cur)
              (completed (update_event a cur) (updated_entity env peer msg a cur))
              c)
  merged_alike a cur c dated alike =
      let typed : (if cur.type == "" then cur.type else cur.type) ≡ cur.type =
        elim (Bool-cases (cur.type == "")) [ inl e ↦ rw e refl | inr e ↦ rw e refl ] in
      let merged : Entity → Entity = λ s. record s {
        fields = some (merge (or_empty a.fields) (or_empty cur.fields));
        type = if cur.type == "" then s.type else cur.type;
      } in
      let now_merged : shown (filled_entity env.now (updated_entity env peer msg a cur))
          ≡ merged (shown cur) =
        rw (dated, typed) refl in
      now_merged ∙ ap merged (sym alike)

  pub update_found-IsMirrored :
      (a : EntityUpdateArgs) (cur : Entity) (w : World)
      → IsMirrored peer w.db
      → get_entity peer a.id w.db ≡ ok (some cur)
      → Mirrors peer (update_found env peer msg a (ok (some cur)) w)
  update_found-IsMirrored a cur w h there =
      let (dated, named) = h.complete a.id cur there in
      let (owner, key) = get_entity-key peer a.id w.db cur there in
      let own : (cur.peer_did == peer) ≡ true = rw owner (eq_refl peer) in
      let held : (cur.peer_did == "") ≡ false = rw owner owned in
      log_then-IsMirrored env peer msg _ _ _ _ _ w (eq_refl peer) (upsert_entity-events env.now _)
        (λ st agrees.
          let (c, found, alike) =
            shown_in (lookup a.id st) cur (sym (ap read_shown there) ∙ agrees a.id) in
          let found' : lookup cur.id st ≡ some c = rw key found in
          upsert_entity-Agrees env.now peer (updated_entity env peer msg a cur) w.db _ named held
            own st _ _ (merged_alike a cur c dated alike)
            (λ i.
              ap (lookup i) (apply-updated a cur c st named found') ∙ lookup-insert cur.id i _ st)
            agrees)
        (upsert_entity-AllComplete env.now peer (updated_entity env peer msg a cur) w.db _ named
          held own (rw (dated, dated) refl))
        h
