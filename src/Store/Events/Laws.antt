-- ===== src/Store/Events/Laws.antt =====
-- `AppendEvent` and `ListEvents` of internal/store/sqlite.go against each other.
use mathlib.Core.List.{map-append}
use coggo.Prelude.{
  List, ap, ◌∙◌, arith, true, filter-append, ◌==◌, ◌++◌, String, ◌==◌, ◌≡◌, refl, false, some, [],
  ◌∷◌, ◌⊎◌, inl, inr, map, filter, any, Bool-cases,
}
use coggo.Prelude.Order.Sort.{sort, Sorted, sort_of_Sorted}
use coggo.Prelude.Result.{Result, ok, is_ok, traverse-map}
use coggo.Types.{zero_time, Time, Event, is_untyped}
use coggo.Store.Stamp.Laws.{time_of, parse_time-stamp, time_of-format_time}
use coggo.Store.Rows.{Db, EventRow}
use coggo.Store.Events.{
  stored_payload, filled_event, event_row, insert_event, append_event, in_window, event_order,
  read_event, list_events,
}

abbrev pub row_event : EventRow → Event
row_event r = record {
  id = r.id;
  peer_did = r.peer_did;
  type = r.type;
  payload = r.payload;
  timestamp = time_of r.timestamp;
  author_did = r.author_did;
  client_id = r.client_id;
  signature = r.signature;
}

read_event-row_event : (r : EventRow) → read_event r ≡ ok (row_event r)
unfolding read_event
read_event-row_event r = rw (parse_time-stamp r.timestamp)

-- what the log keeps of an event: no payload is stored as null
abbrev pub logged : Event → Event
logged ev = record ev { payload = stored_payload ev.payload }

row_event-event_row : (ev : Event) → row_event (event_row ev) ≡ logged ev
row_event-event_row ev = cc (time_of-format_time ev.timestamp)

-- the two ways in which an append ends
abbrev pub Appended : Event → Db → Result Event × Db → Type 0
Appended ev db out =
    ((is_ok out.0 ≡ false) × (out.1 ≡ db))
    ⊎ ((out ≡ (ok ev, record db { events = db.events ++ event_row ev ∷ [] }))
        × (any (λ r. r.id == ev.id) db.events ≡ false))

insert_event-Appended : (ev : Event) (db : Db) → Appended ev db (insert_event ev db)
unfolding insert_event
insert_event-Appended ev db = elim (Bool-cases (any (λ r. r.id == ev.id) db.events)) [
  | inl old ↦ rw old (inl (refl, refl))
  | inr new ↦ rw new (inr (refl, refl))
]

-- An append is an error that changes nothing, or adds the row of the completed event, whose id is
-- new, at the end of the log and changes nothing else.
pub append_event-Appended :
    (now : Time) (ulid : String) (ev : Event) (db : Db)
    → Appended (filled_event now ulid ev) db (append_event now ulid (some ev) db)
unfolding append_event
append_event-Appended now ulid ev db = elim (Bool-cases (ev.peer_did == "")) [
  | inl bare ↦ rw bare (inl (refl, refl))
  | inr owned ↦ elim (Bool-cases (is_untyped ev.type)) [
    | inl bare ↦ rw (owned, bare) (inl (refl, refl))
    | inr typed ↦ rw (owned, typed) (insert_event-Appended (filled_event now ulid ev) db)
  ]
]

module _ (peer : String) (since until : Time) (db : Db) where
  pub list_events-map :
      list_events peer since until db
      ≡ ok (map row_event (sort event_order (filter (in_window peer since until) db.events)))
  unfolding list_events
  list_events-map =
      traverse-map read_event row_event
        (sort event_order (filter (in_window peer since until) db.events)) read_event-row_event

  -- Where the peer's events of the window are in the order of timestamp text and id already, they
  -- come back in the order in which they were written.
  pub list_events-in_order :
      Sorted event_order (filter (in_window peer since until) db.events)
      → list_events peer since until db
        ≡ ok (map row_event (filter (in_window peer since until) db.events))
  list_events-in_order s = rw (list_events-map, sort_of_Sorted event_order _ s)

pub filter-event_row :
    (peer : String) (rows : List EventRow) (ev : Event)
    → (ev.peer_did == peer) ≡ true
    → map row_event (filter (in_window peer zero_time zero_time) (rows ++ event_row ev ∷ []))
      ≡ map row_event (filter (in_window peer zero_time zero_time) rows) ++ logged ev ∷ []
filter-event_row peer rows ev own =
    ap (map row_event) (
      filter-append (in_window peer zero_time zero_time) rows (event_row ev ∷ [])
      ∙ ap (◌++◌ (filter (in_window peer zero_time zero_time) rows)) kept)
    ∙ map-append row_event (filter (in_window peer zero_time zero_time) rows) (event_row ev ∷ [])
    ∙ ap (λ e. map row_event (filter (in_window peer zero_time zero_time) rows) ++ e ∷ [])
        (row_event-event_row ev)
  where
    kept : filter (in_window peer zero_time zero_time) (event_row ev ∷ []) ≡ event_row ev ∷ []
    kept = unfold filter in rw own

-- An event that `AppendEvent` accepts is what `ListEvents` gives last, with its id and its time
-- completed and no payload as null, after the peer's events that were there; the peer's events are in
-- the order of timestamp text and id with the new one.
pub list_events-append_event :
    (now : Time) (ulid : String) (ev : Event) (db : Db) (peer : String)
    → is_ok (append_event now ulid (some ev) db).0 ≡ true
    → (ev.peer_did == peer) ≡ true
    → Sorted event_order (
        filter
          (in_window peer zero_time zero_time)
          (db.events ++ event_row (filled_event now ulid ev) ∷ []))
    → list_events peer zero_time zero_time (append_event now ulid (some ev) db).1
      ≡ ok (
          map row_event (filter (in_window peer zero_time zero_time) db.events)
          ++ logged (filled_event now ulid ev) ∷ [])
list_events-append_event now ulid ev db peer accepted own sorted =
    elim (append_event-Appended now ulid ev db) [
      | inl failed ↦ absurd (ground (arith, failed.0, accepted))
      | inr (added, new) ↦
          ap (λ (o : Result Event × Db). list_events peer zero_time zero_time o.1) added
          ∙ list_events-in_order peer zero_time zero_time
              (record db { events = db.events ++ event_row (filled_event now ulid ev) ∷ [] }) sorted
          ∙ ap ok (filter-event_row peer db.events (filled_event now ulid ev) own)
    ]
