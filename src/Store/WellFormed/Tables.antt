-- ===== src/Store/WellFormed/Tables.antt =====
-- The shape of the event, entity and relation tables under the writes of internal/store/sqlite.go.
use coggo.Prelude.{
  String, ◌≡◌, ◌==◌, not, ◌||◌, Option, none, some, [], ◌∷◌, ◌++◌, inl, inr, arith, any, filter,
  Bool-cases, if◌then◌else◌,
}
use coggo.Prelude.Distinct.{
  Lacks, filter-Distinct, append-Distinct, any-Lacks, drop-Lacks, map-Distinct,
}
use coggo.Types.{Time, is_zero, Event, Entity, Relation}
use coggo.Store.Rows.{Db, EventRow, EntityRow, RelationRow}
use coggo.Store.Events.{append_event, filled_event, event_row}
use coggo.Store.Events.Laws.{append_event-Appended}
use coggo.Store.Entities.{
  upsert_entity, archive_entity, is_entity, archive_row, entity_row, filled_entity,
}
use coggo.Store.Relations.{
  upsert_relation, dissolve_relation, is_relation, relation_row, filled_relation,
}
use coggo.Store.WellFormed.{IsWellFormed}

append-IsWellFormed :
    (ev : Event) (db : Db)
    → Lacks (λ r. r.id) ev.id db.events
    → IsWellFormed db
    → IsWellFormed (record db { events = db.events ++ event_row ev ∷ [] })
append-IsWellFormed ev db new w = record {
  events = append-Distinct (λ (r : EventRow). r.id) db.events (event_row ev) w.events new;
  entities = w.entities;
  relations = w.relations;
  vectors = w.vectors;
  metas = w.metas;
  sized = w.sized;
}

pub append_event-IsWellFormed :
    (now : Time) (ulid : String) (ev : Option Event) (db : Db)
    → IsWellFormed db
    → IsWellFormed (append_event now ulid ev db).1
append_event-IsWellFormed now ulid none db w = unfold append_event in w
append_event-IsWellFormed now ulid (some ev) db w = elim (append_event-Appended now ulid ev db) [
  | inl failed ↦ rw failed.1 w
  | inr (added, new) ↦ rw added (
      append-IsWellFormed (filled_event now ulid ev) db
        (any-Lacks (λ (r : EventRow). r.id) (filled_event now ulid ev).id db.events new) w)
]

pub upsert_entity-IsWellFormed :
    (now : Time) (e : Option Entity) (db : Db)
    → IsWellFormed db
    → IsWellFormed (upsert_entity now e db).1
unfolding upsert_entity
upsert_entity-IsWellFormed now none db w = w
upsert_entity-IsWellFormed now (some e) db w = elim (Bool-cases (e.id == "")) [
  | inl bare ↦ rw bare w
  | inr named ↦ elim (Bool-cases (e.peer_did == "")) [
    | inl bare ↦ rw (named, bare) w
    | inr owned ↦
        rw (named, owned)
          (record {
            events = w.events;
            entities =
                append-Distinct (λ (r : EntityRow). r.id)
                  (filter (λ s. not (s.id == e.id)) db.entities) (entity_row (filled_entity now e))
                  (filter-Distinct (λ (r : EntityRow). r.id) (λ s. not (s.id == e.id)) db.entities
                    w.entities)
                  (drop-Lacks (λ (r : EntityRow). r.id) e.id db.entities);
            relations = w.relations;
            vectors = w.vectors;
            metas = w.metas;
            sized = w.sized;
          })
  ]
]

key-archive_row :
    (peer id : String) (at : Time) (r : EntityRow) → (archive_row peer id at r).id ≡ r.id
key-archive_row peer id at r = ground arith

pub archive_entity-IsWellFormed :
    (now : Time) (peer id : String) (at : Time) (db : Db)
    → IsWellFormed db
    → IsWellFormed (archive_entity now peer id at db).1
unfolding archive_entity
archive_entity-IsWellFormed now peer id at db w = elim (Bool-cases ((peer == "") || (id == ""))) [
  | inl bare ↦ rw bare w
  | inr named ↦ elim (Bool-cases (any (is_entity peer id) db.entities)) [
    | inl there ↦
        rw (named, there)
          (record {
            events = w.events;
            entities =
                map-Distinct (λ (r : EntityRow). r.id)
                  (archive_row peer id (if is_zero at then now else at)) db.entities
                  (key-archive_row peer id (if is_zero at then now else at)) w.entities;
            relations = w.relations;
            vectors = w.vectors;
            metas = w.metas;
            sized = w.sized;
          })
    | inr missing ↦ rw (named, missing) w
  ]
]

pub upsert_relation-IsWellFormed :
    (now : Time) (r : Option Relation) (db : Db)
    → IsWellFormed db
    → IsWellFormed (upsert_relation now r db).1
unfolding upsert_relation
upsert_relation-IsWellFormed now none db w = w
upsert_relation-IsWellFormed now (some r) db w = elim (Bool-cases (r.id == "")) [
  | inl bare ↦ rw bare w
  | inr named ↦
      elim (Bool-cases
        ((r.peer_did == "") || ((r.from == "") || ((r.to == "") || (r.type == ""))))) [
          | inl bare ↦ rw (named, bare) w
          | inr owned ↦
              rw (named, owned)
                (record {
                  events = w.events;
                  entities = w.entities;
                  relations =
                      append-Distinct (λ (s : RelationRow). s.id)
                        (filter (λ s. not (s.id == r.id)) db.relations)
                        (relation_row (filled_relation now r))
                        (filter-Distinct (λ (s : RelationRow). s.id) (λ s. not (s.id == r.id))
                          db.relations w.relations)
                        (drop-Lacks (λ (s : RelationRow). s.id) r.id db.relations);
                  vectors = w.vectors;
                  metas = w.metas;
                  sized = w.sized;
                })
        ]
]

pub dissolve_relation-IsWellFormed :
    (peer id : String) (db : Db) → IsWellFormed db → IsWellFormed (dissolve_relation peer id db).1
unfolding dissolve_relation
dissolve_relation-IsWellFormed peer id db w = elim (Bool-cases ((peer == "") || (id == ""))) [
  | inl bare ↦ rw bare w
  | inr named ↦ elim (Bool-cases (any (is_relation peer id) db.relations)) [
    | inl there ↦
        rw (named, there)
          (record {
            events = w.events;
            entities = w.entities;
            relations =
                filter-Distinct (λ (r : RelationRow). r.id) (λ r. not (is_relation peer id r))
                  db.relations w.relations;
            vectors = w.vectors;
            metas = w.metas;
            sized = w.sized;
          })
    | inr missing ↦ rw (named, missing) w
  ]
]
