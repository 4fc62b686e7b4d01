-- ===== src/Store/TimeTravel.antt =====
-- `TimeTravelEntities`, `decodeEntityPayload` and `matchesFilters` of internal/store/sqlite.go. The
-- order in which Go ranges over the map of the state has no effect: the result is sorted by the
-- creation time and the id.
pub mod Laws
use mathlib.Core.List.{foldl}
use coggo.Prelude.{
  ℕ, String, ◌==◌, Bool, true, false, ◌&&◌, ◌||◌, not, Option, none, some, List, [], ◌∷◌, filter,
  map, take, leb, is_some, if◌then◌else◌, Dict, lookup, insert,
}
use coggo.Prelude.Order.{Order, then_by, by_key, descending, texts, numbers}
use coggo.Prelude.Order.Sort.{sort}
use coggo.Prelude.Result.{Result, ok, err, message, context, ◌>>=◌}
use coggo.Types.{
  Time, zero_time, is_zero, Entity, EntityQuery, Event, EventType, entity_created, entity_updated,
  entity_archived, Payload, empty,
}
use coggo.Types.Json.{Fields, end, field, get, same}
use coggo.Types.Decode.{unmarshal_entity, unmarshal_archive}
use coggo.Store.Rows.{Db}
use coggo.Store.Entities.{limit_or}
use coggo.Store.Events.{list_events}

-- The fields that the payload leaves empty are taken from the event.
abbrev pub completed : Event → Entity → Entity
completed ev e = record e {
  created_at = if is_zero e.created_at then ev.timestamp else e.created_at;
  updated_at = if is_zero e.updated_at then ev.timestamp else e.updated_at;
  peer_did = if e.peer_did == "" then ev.peer_did else e.peer_did;
}

abbrev pub decoded : Event → Option Entity → Result Entity
decoded ev none = err (message "json: cannot unmarshal")
decoded ev (some e) = if e.id == "" then err (message "payload missing id") else ok (completed ev e)

-- An empty payload is an error of its own; `json.Unmarshal` would refuse it too.
unfoldable pub decode_entity_payload : Event → Result Entity
unfolding unmarshal_entity
decode_entity_payload ev = decoded ev (unmarshal_entity ev.payload)

abbrev pub State : Type 0
State = Dict Entity

abbrev pub updated_time : Event → Entity → Entity → Time
updated_time ev e cur =
    if is_zero ev.timestamp
    then (if is_zero e.updated_at then cur.updated_at else e.updated_at)
    else ev.timestamp

abbrev pub merged_fields : Option Fields → Option Fields → Option Fields
merged_fields none old = old
merged_fields (some fs) old = some fs

-- Replace the data, bump `UpdatedAt`, keep the creation metadata.
abbrev pub merge_entity : Event → Entity → Entity → Entity
merge_entity ev e cur = record cur {
  fields = merged_fields e.fields cur.fields;
  type = if e.type == "" then cur.type else e.type;
  updated_at = updated_time ev e cur;
}

abbrev pub apply_created : State → Result Entity → State
apply_created state (err e) = state
apply_created state (ok e) = insert e.id e state

abbrev pub apply_snapshot : Event → Entity → Option Entity → State → State
apply_snapshot ev e none state = insert e.id e state
apply_snapshot ev e (some cur) state = insert e.id (merge_entity ev e cur) state

abbrev pub apply_updated : Event → State → Result Entity → State
apply_updated ev state (err e) = state
apply_updated ev state (ok e) = apply_snapshot ev e (lookup e.id state) state

abbrev pub archive_at : Event → String → Time → Option Entity → State → State
archive_at ev id at none state = state
archive_at ev id at (some cur) state =
    insert id (record cur { archived_at = some (if is_zero at then ev.timestamp else at) }) state

abbrev pub apply_archived : Event → State → Option (String × Time) → State
apply_archived ev state none = state
apply_archived ev state (some (id, at)) = archive_at ev id at (lookup id state) state

abbrev pub apply_as : EventType → Event → State → State
apply_as entity_created ev state = apply_created state (decode_entity_payload ev)
apply_as entity_updated ev state = apply_updated ev state (decode_entity_payload ev)
apply_as entity_archived ev state = apply_archived ev state (unmarshal_archive ev.payload)
apply_as _ ev state = state

-- One turn of the loop over the events.
unfoldable pub apply : State → Event → State
unfolding decode_entity_payload unmarshal_archive lookup insert
apply state ev = apply_as ev.type ev state

-- the loop
unfoldable pub replay : List Event → State
replay = foldl apply []

abbrev pub fields_or_empty : Option Fields → Fields
fields_or_empty none = end
fields_or_empty (some fs) = fs

unfoldable pub matches_filters : Fields → Fields → Bool
matches_filters fs end = true
matches_filters fs (field k want filters) =
    elim (get k fs) [ none ↦ false | some got ↦ same got want ] && matches_filters fs filters

abbrev pub owned : String → Entity → Entity
owned peer e = record e { peer_did = if e.peer_did == "" then peer else e.peer_did }

abbrev pub admits : String → EntityQuery → Entity → Bool
admits peer q e =
    (e.peer_did == peer)
    && ((q.include_archived || not (is_some e.archived_at))
        && (((q.type == "") || (e.type == q.type))
            && matches_filters (fields_or_empty e.fields) q.filters))

-- `out[i].CreatedAt.After(out[j].CreatedAt)`, then `out[i].ID > out[j].ID`
abbrev pub created_last_first : Order Entity
created_last_first =
    then_by (descending (by_key (λ e. e.created_at) numbers))
      (descending (by_key (λ e. e.id) texts))

unfoldable pub answer : String → EntityQuery → State → List Entity
answer peer q state =
    take (limit_or 50 q.limit)
      (sort created_last_first (filter (admits peer q) (map (λ e. owned peer e.1) state)))

unfoldable pub time_travel_entities : String → EntityQuery → Time → Db → Result (List Entity)
unfolding replay answer
time_travel_entities peer q as_of db = do
  events ← context "store: time travel: load events" (list_events peer zero_time as_of db)
  ok (answer peer q (replay events))
