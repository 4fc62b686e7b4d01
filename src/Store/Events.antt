-- ===== src/Store/Events.antt =====
-- `AppendEvent` and `ListEvents` of internal/store/sqlite.go. `now` and `ulid` are the clock and the
-- identifier that `time.Now` and `newULID` give to the call. A method returns its result beside the
-- database that it leaves.
pub mod Laws
use coggo.Prelude.{
  ◌++◌, String, ◌==◌, Bool, true, false, ◌&&◌, ◌||◌, Option, none, some, List, [], ◌∷◌, any, filter,
  if◌then◌else◌,
}
use coggo.Prelude.Order.{Order, then_by, by_key, texts}
use coggo.Prelude.Order.Sort.{sort}
use coggo.Prelude.Result.{Result, ok, err, message, about, wrap, context, traverse, ◌>>=◌}
use coggo.Types.{Time, is_zero, Event, Payload, empty, of_null, is_untyped}
use coggo.Store.Stamp.{Stamp, stamp, stamps, format_time, parse_time}
use coggo.Store.Rows.{Db, EventRow}

-- `if len(payload) == 0 { payload = []byte("null") }`
abbrev pub stored_payload : Payload → Payload
stored_payload empty = of_null
stored_payload p = p

-- The id and the timestamp are filled in where the caller left them empty.
abbrev pub filled_event : Time → String → Event → Event
filled_event now ulid ev = record ev {
  id = if ev.id == "" then ulid else ev.id;
  timestamp = if is_zero ev.timestamp then now else ev.timestamp;
}

abbrev pub event_row : Event → EventRow
event_row ev = record {
  id = ev.id;
  peer_did = ev.peer_did;
  type = ev.type;
  payload = stored_payload ev.payload;
  timestamp = format_time ev.timestamp;
  author_did = ev.author_did;
  client_id = ev.client_id;
  signature = ev.signature;
}

-- `INSERT INTO events`: the id is the primary key.
unfoldable pub insert_event : Event → Db → Result Event × Db
insert_event ev db =
    if any (λ r. r.id == ev.id) db.events
    then (err (wrap "store: insert event" (about "UNIQUE constraint failed: events.id" ev.id)), db)
    else (ok ev, record db { events = db.events ++ event_row ev ∷ [] })

-- `none` is a nil pointer; the event that comes back is the one that the caller's pointer leads to.
unfoldable pub append_event : Time → String → Option Event → Db → Result Event × Db
append_event now ulid none db = (err (message "store: AppendEvent: nil event"), db)
append_event now ulid (some ev) db =
    if ev.peer_did == ""
    then (err (message "store: AppendEvent: missing peer_did"), db)
    else if is_untyped ev.type
    then (err (message "store: AppendEvent: missing type"), db)
    else insert_event (filled_event now ulid ev) db

-- `WHERE peer_did = ? AND timestamp >= ? AND timestamp <= ?`, a bound only if it is not zero
abbrev pub in_window : String → Time → Time → EventRow → Bool
in_window peer since until r =
    (r.peer_did == peer)
    && ((is_zero since || stamps.le (format_time since) r.timestamp)
        && (is_zero until || stamps.le r.timestamp (format_time until)))

-- `ORDER BY timestamp ASC, id ASC`
abbrev pub event_order : Order EventRow
event_order = then_by (by_key (λ r. r.timestamp) stamps) (by_key (λ r. r.id) texts)

unfoldable pub read_event : EventRow → Result Event
read_event r = do
  t ← context "store: parse event timestamp" (parse_time (stamp r.timestamp))
  ok (record {
    id = r.id;
    peer_did = r.peer_did;
    type = r.type;
    payload = r.payload;
    timestamp = t;
    author_did = r.author_did;
    client_id = r.client_id;
    signature = r.signature;
  })

unfoldable pub list_events : String → Time → Time → Db → Result (List Event)
list_events peer since until db =
    traverse read_event (sort event_order (filter (in_window peer since until) db.events))
