-- ===== src/Tests/StoreRuns.antt =====
-- The store's theorems at concrete inputs.
use mathlib.Core.List.{Perm}
use coggo.Prelude.{◌≡◌, refl, ◌∙◌, ap, find, inr, some, List, [], ◌∷◌, ◌++◌, filter, map, arith}
use coggo.Prelude.Result.{ok}
use coggo.Types.{Entity}
use coggo.Store.Rows.{Db, EventRow, EntityRow, fresh}
use coggo.Store.Events.{append_event, insert_event, filled_event, list_events, in_window}
use coggo.Store.Events.Laws.{list_events-append_event, logged, row_event}
use coggo.Store.Entities.{upsert_entity, get_entity, query_entities}
use coggo.Store.Entities.Read.{row_entity, row_entity-entity_row, get_entity-find}
use coggo.Store.Entities.Query.{IsBefore, Pairwise, wanted, query_entities_complete}
use coggo.Store.TimeTravel.{time_travel_entities}
use coggo.Store.TimeTravel.Laws.{time_travel_entities-append_event}
use coggo.Store.WellFormed.{IsWellFormed, fresh-IsWellFormed}
use coggo.Store.WellFormed.Steps.{
  here, next, append, put_entity, Changes-IsWellFormed, Changes-events,
}
use coggo.Store.Relations.{relation_row}
use coggo.Tests.Data.{link, sqlite, me, note, created, empty_db, db, all_notes}

list_events-append_event_example :
    list_events me 0 0 (append_event 7 "u" (some created) empty_db).1
    ≡ ok (
        map row_event (filter (in_window me 0 0) empty_db.events)
        ++ logged (filled_event 7 "u" created) ∷ [])
list_events-append_event_example =
    list_events-append_event 7 "u" created empty_db me (unfold append_event insert_event in refl)
      refl (unfold filter in (tt, tt))

found_note : get_entity me "e1" db ≡ ok (some note)
unfolding find
found_note =
    get_entity-find me "e1" db ∙ ap (λ (e : Entity). ok (some e)) (row_entity-entity_row note)

query_entities_complete_example :
    (rows : List EntityRow) × (query_entities sqlite me all_notes db ≡ ok (map row_entity rows))
    × Pairwise IsBefore rows
    × Perm (map row_entity rows) (filter (wanted sqlite me all_notes) (map row_entity db.entities))
query_entities_complete_example =
    query_entities_complete sqlite me all_notes db (unfold filter in omega arith)

time_travel_entities-append_event_example :
    time_travel_entities me all_notes 3500000000
      (append_event 7 "u" (some (record created { id = "v2"; timestamp = 5000000000 })) db).1
    ≡ time_travel_entities me all_notes 3500000000 db
time_travel_entities-append_event_example =
    time_travel_entities-append_event 7 "u" (record created { id = "v2"; timestamp = 5000000000 })
      db me all_notes 3500000000 refl (inr (omega arith))

Changes-IsWellFormed_example :
    IsWellFormed (upsert_entity 7 (some note) (append_event 7 "u" (some created) (fresh 3)).1).1
Changes-IsWellFormed_example = Changes-IsWellFormed (fresh-IsWellFormed 3) (
    next (next here (append 7 "u" (some created) (fresh 3)))
      (put_entity 7 (some note) (append_event 7 "u" (some created) (fresh 3)).1))

Changes-events_example :
    (new : List EventRow) × ((upsert_entity 7
        (some note)
        (append_event 7 "u" (some created) (fresh 3)).1).1.events
      ≡ (fresh 3).events ++ new)
Changes-events_example = Changes-events (
    next (next here (append 7 "u" (some created) (fresh 3)))
      (put_entity 7 (some note) (append_event 7 "u" (some created) (fresh 3)).1))

-- the database with a relation
abbrev related : Db
related = record db { relations = relation_row link ∷ [] }
