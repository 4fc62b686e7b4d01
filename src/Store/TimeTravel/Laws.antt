-- ===== src/Store/TimeTravel/Laws.antt =====
-- What `TimeTravelEntities` of internal/store/sqlite.go returns, also after later events.
use mathlib.Core.List.{append-nil}
use coggo.Prelude.{
  ◌<◌, ◌/◌, String, ◌≡◌, ◌∙◌, ap, ◌⊎◌, inl, inr, true, false, ◌==◌, some, List, [], ◌∷◌, ◌++◌,
  arith, filter, map, filter-append, length, ◌≤◌, All, All-take, All-filter, length-take-le,
}
use coggo.Prelude.Order.Sort.{sort, Sorted, All-sort, sort-Sorted, take-Sorted}
use coggo.Prelude.Result.{Result, ok, context, traverse, ◌>>=◌}
use coggo.Types.{Time, zero_time, is_zero, Event, Entity, EntityQuery}
use coggo.Store.Stamp.Laws.{stamps-format_time}
use coggo.Store.Rows.{Db}
use coggo.Store.Events.{
  append_event, event_row, filled_event, in_window, list_events, read_event, event_order,
}
use coggo.Store.Events.Laws.{append_event-Appended, row_event, list_events-map}
use coggo.Store.Entities.{limit_or}
use coggo.Store.TimeTravel.{time_travel_entities, answer, replay, admits, owned, created_last_first}

-- An event that the window leaves out changes no listing, whether its append succeeds or not.
list_events-append_event :
    (now : Time) (ulid : String) (ev : Event) (db : Db) (peer : String) (since until : Time)
    → in_window peer since until (event_row (filled_event now ulid ev)) ≡ false
    → list_events peer since until (append_event now ulid (some ev) db).1
      ≡ list_events peer since until db
unfolding list_events
list_events-append_event now ulid ev db peer since until out =
    elim (append_event-Appended now ulid ev db) [
      | inl failed ↦ ap (list_events peer since until) failed.1
      | inr (added, new) ↦
          ap (λ (o : Result Event × Db). list_events peer since until o.1) added
          ∙ ap (λ rows. traverse read_event (sort event_order rows))
              (filter-append (in_window peer since until) db.events
                  (event_row (filled_event now ulid ev) ∷ [])
                ∙ ap (◌++◌ (filter (in_window peer since until) db.events)) (left_out out)
                ∙ append-nil (filter (in_window peer since until) db.events))
    ]
  where
    left_out :
        in_window peer since until (event_row (filled_event now ulid ev)) ≡ false
        → filter (in_window peer since until) (event_row (filled_event now ulid ev) ∷ []) ≡ []
    left_out h = unfold filter in rw h

-- An event of another peer, or of a later second than the one asked for, is outside of the window.
outside :
    (now : Time) (ulid : String) (ev : Event) (peer : String) (until : Time)
    → is_zero until ≡ false
    → ((ev.peer_did == peer) ≡ false)
      ⊎ (until / 1000000000 < (filled_event now ulid ev).timestamp / 1000000000)
    → in_window peer zero_time until (event_row (filled_event now ulid ev)) ≡ false
outside now ulid ev peer until given (inl other) = rw other
outside now ulid ev peer until given (inr later) =
    ground (arith, given, (stamps-format_time until (filled_event now ulid ev).timestamp later).1)

-- The past of a peer, at a time that is given: an append of an event of another peer, or of an event
-- whose time, completed, is in a second after that time, changes no answer of `TimeTravelEntities`,
-- whether it succeeds or not.
pub time_travel_entities-append_event :
    (now : Time) (ulid : String) (ev : Event) (db : Db) (peer : String) (q : EntityQuery)
    (as_of : Time)
    → is_zero as_of ≡ false
    → ((ev.peer_did == peer) ≡ false)
      ⊎ (as_of / 1000000000 < (filled_event now ulid ev).timestamp / 1000000000)
    → time_travel_entities peer q as_of (append_event now ulid (some ev) db).1
      ≡ time_travel_entities peer q as_of db
unfolding time_travel_entities
time_travel_entities-append_event now ulid ev db peer q as_of given apart =
    ap
      (λ r. context "store: time travel: load events" r >>= λ events.
        ok (answer peer q (replay events)))
      (list_events-append_event now ulid ev db peer zero_time as_of
        (outside now ulid ev peer as_of given apart))

-- the past of a peer in the terms of a query
abbrev pub Admitted : String → EntityQuery → Entity → Type 0
Admitted peer q e = admits peer q e ≡ true

-- `TimeTravelEntities` never fails, gives no more entities than its limit (50 where none is given),
-- and each is the peer's, of the type that is asked for, not archived unless archived ones are asked
-- for, and passes every filter; they are in the order of creation, the latest first.
pub time_travel_entities_sound :
    (peer : String) (q : EntityQuery) (as_of : Time) (db : Db)
    → (es : List Entity) × (time_travel_entities peer q as_of db ≡ ok es)
      × (length es ≤ limit_or 50 q.limit)
      × ((All (Admitted peer q) es) × Sorted created_last_first es)
unfolding time_travel_entities answer
time_travel_entities_sound peer q as_of db =
    let rows : List Event =
      map row_event (sort event_order (filter (in_window peer zero_time as_of) db.events)) in
    let admitted : List Entity = filter (admits peer q) (map (λ e. owned peer e.1) (replay rows)) in
    (
      answer peer q (replay rows),
      rw (list_events-map peer zero_time as_of db),
      length-take-le _ _,
      (
        All-take (Admitted peer q) _ (sort created_last_first admitted)
            (All-sort created_last_first (Admitted peer q) admitted (All-filter (admits peer q) _)),
        take-Sorted created_last_first _ _ (sort-Sorted created_last_first admitted),
      ),
    )
