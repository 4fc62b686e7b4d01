-- ===== src/Federation/Handler/Mirror.antt =====
-- The log and the entities that internal/federation/handler.go writes beside it: what the fold of
-- internal/store/sqlite.go makes of the log.
pub mod Operations
pub mod Archive
pub mod Requests
use mathlib.Core.Option
use mathlib.Core.List.{foldl-append}
use coggo.Prelude.{
  ℕ, String, ◌==◌, ◌≡◌, refl, ◌∙◌, sym, ap, subst, ◌⊎◌, inl, inr, Bool, true, false, Option, none,
  some, List, [], ◌∷◌, ◌++◌, filter, find, map, arith, lookup,
}
use coggo.Prelude.Order.Sort.{Sorted, sort}
use coggo.Prelude.Result.{Result, ok, err, traverse}
use coggo.Types.{zero_time, is_zero, Entity, Event}
use coggo.Store.Rows.{Db, EventRow, fresh}
use coggo.Store.Events.{append_event, event_row, filled_event, in_window, list_events, event_order}
use coggo.Store.Events.Laws.{
  Appended, append_event-Appended, logged, row_event, filter-event_row, list_events-in_order,
}
use coggo.Store.Entities.{get_entity}
use coggo.Store.Entities.Read.{stored}
use coggo.Store.TimeTravel.{State, apply, replay}
use coggo.Federation.Message.{Inbound, Body, Request, type_define, Outcome}
use coggo.Federation.Handler.Base.{World, Env, log_then, after_append}
use coggo.Federation.Handler.Log.{is_done, finish-events}

abbrev pub peer_log : String → Db → List EventRow
peer_log peer db = filter (in_window peer zero_time zero_time) db.events

-- an entity without the time of its last write
abbrev pub shown : Entity → Entity
shown e = record (stored e) { updated_at = zero_time }

abbrev pub read_shown : Result (Option Entity) → Result (Option Entity)
read_shown (ok o) = ok (Option.map shown o)
read_shown (err e) = err e

-- the peer reads of each id what the state has for it
abbrev pub Agrees : String → Db → State → Type 0
Agrees peer db st =
    (i : String) → read_shown (get_entity peer i db) ≡ ok (Option.map shown (lookup i st))

-- what the peer reads has a time of creation and an id
abbrev pub AllComplete : String → Db → Type 0
AllComplete peer db =
    (i : String) (e : Entity)
    → get_entity peer i db ≡ ok (some e)
    → (is_zero e.created_at ≡ false) × ((e.id == "") ≡ false)

-- The peer's events are in the order of timestamp text and id, and the fold of them has the entities
-- that the peer reads, but for the time of the last write.
pub record IsMirrored (peer : String) (db : Db) : Type 0 where
  pub in_order : Sorted event_order (peer_log peer db)
  pub events : List Event
  pub listed : list_events peer zero_time zero_time db ≡ ok events
  pub same : Agrees peer db (replay events)
  pub complete : AllComplete peer db

-- Without an event and an entity there is nothing to compare.
pub fresh-IsMirrored : (peer : String) (dim : ℕ) → IsMirrored peer (fresh dim)
unfolding list_events get_entity replay filter traverse sort find lookup
fresh-IsMirrored peer dim = record {
  in_order = tt;
  events = [];
  listed = refl;
  same = λ i. refl;
  complete = λ i e h. absurd (ground arith);
}

-- the request defines a type
abbrev pub is_definition : Option Request → Bool
is_definition (some (type_define a)) = true
is_definition _ = false

same_ok : {A : Type 0} {a b : A} → ok a ≡ ok b → a ≡ b
same_ok h = ground arith

module _ (env : Env) (peer : String) (msg : Inbound) where
  -- the database once the event is in the log
  abbrev pub logged_db : Event → World → Db
  logged_db ev w = record w.db {
    events = w.db.events ++ event_row (filled_event env.now env.store_ulid ev) ∷ [];
  }

  module _ {A : Type 0} (append_text text : String) (ev : Event) (next : Db → Result A × Db)
      (body : A → Body) (w : World) (own : (ev.peer_did == peer) ≡ true)
      (keeps : (db : Db) → (next db).1.events ≡ db.events)
      (step : (st : State)
        → Agrees peer w.db st
        → Agrees peer
            (next (logged_db ev w)).1
            (apply st (logged (filled_event env.now env.store_ulid ev))))
      (dates : AllComplete peer w.db → AllComplete peer (next (logged_db ev w)).1)
      (h : IsMirrored peer w.db) where
    written-IsMirrored :
        Sorted event_order (peer_log peer (next (logged_db ev w)).1)
        → IsMirrored peer (next (logged_db ev w)).1
    unfolding replay
    written-IsMirrored sorted = record {
      in_order = sorted;
      events = h.events ++ logged (filled_event env.now env.store_ulid ev) ∷ [];
      listed =
          list_events-in_order peer zero_time zero_time (next (logged_db ev w)).1 sorted
          ∙ ap (λ rows. ok (map row_event (filter (in_window peer zero_time zero_time) rows)))
              (keeps (logged_db ev w))
          ∙ ap ok (
              filter-event_row peer w.db.events (filled_event env.now env.store_ulid ev) own
              ∙ ap (λ es. es ++ logged (filled_event env.now env.store_ulid ev) ∷ [])
                  (same_ok (
                    sym (list_events-in_order peer zero_time zero_time w.db h.in_order)
                    ∙ h.listed)));
      same =
          subst (Agrees peer (next (logged_db ev w)).1)
            (sym (
              foldl-append apply [] h.events
                (logged (filled_event env.now env.store_ulid ev) ∷ [])))
            (step (replay h.events) h.same);
      complete = dates h.complete;
    }

    after_append-IsMirrored :
        (out : Result Event × Db)
        → Appended (filled_event env.now env.store_ulid ev) w.db out
        → Sorted event_order
            (peer_log peer (after_append env peer msg append_text text body next w out).1.db)
        → IsMirrored peer (after_append env peer msg append_text text body next w out).1.db
    after_append-IsMirrored (ok x, db) (inl failed) sorted = absurd (ground (arith, failed.0))
    after_append-IsMirrored (err x, db) (inl failed) sorted =
        subst (IsMirrored peer) (sym failed.1) h
    after_append-IsMirrored (err x, db) (inr (added, new)) sorted = absurd (ground (arith, added))
    after_append-IsMirrored (ok x, db) (inr (added, new)) sorted =
        let there : (next (logged_db ev w)).1
            ≡ (after_append env peer msg append_text text body next w (ok x, db)).1.db =
          sym (
            finish-events env peer msg text body (record w { db = db }) (next db)
            ∙ ap (λ (o : Result Event × Db). (next o.1).1) added) in
        subst (IsMirrored peer) there (
          written-IsMirrored (subst (λ d. Sorted event_order (peer_log peer d)) (sym there) sorted))

    pub log_then-IsMirrored :
        Sorted event_order
          (peer_log peer (log_then env peer msg append_text text ev next body w).1.db)
        → IsMirrored peer (log_then env peer msg append_text text ev next body w).1.db
    unfolding log_then
    log_then-IsMirrored sorted =
        after_append-IsMirrored (append_event env.now env.store_ulid (some ev) w.db)
          (append_event-Appended env.now env.store_ulid ev w.db) sorted
