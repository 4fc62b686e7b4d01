-- ===== src/Store/WellFormed/Steps.antt =====
-- The writes of internal/store/sqlite.go as a step relation, for what every sequence of them keeps.
use mathlib.Core.List.{append_assoc, append-nil}
use coggo.Prelude.{
  String, ◌≡◌, sym, ◌∙◌, ap, Option, none, some, List, [], ◌∷◌, ◌++◌, inl, inr, arith,
}
use coggo.Prelude.Result.{Result}
use coggo.Types.{Time, Event, Entity, Relation}
use coggo.Store.Rows.{Db, EventRow, Vector}
use coggo.Store.Events.{append_event, filled_event, event_row}
use coggo.Store.Events.Laws.{append_event-Appended}
use coggo.Store.Entities.{upsert_entity, archive_entity}
use coggo.Store.Relations.{upsert_relation, dissolve_relation}
use coggo.Store.Embeddings.{upsert_embedding}
use coggo.Store.WellFormed.{IsWellFormed}
use coggo.Store.WellFormed.Tables.{
  append_event-IsWellFormed, upsert_entity-IsWellFormed, archive_entity-IsWellFormed,
  upsert_relation-IsWellFormed, dissolve_relation-IsWellFormed,
}
use coggo.Store.WellFormed.Vectors.{upsert_embedding-IsWellFormed}

-- One write, with whatever arguments.
pub data Change : Db → Db → Type 0 where
  append :
      (now : Time) (ulid : String) (ev : Option Event) (db : Db)
      → Change db (append_event now ulid ev db).1
  put_entity : (now : Time) (e : Option Entity) (db : Db) → Change db (upsert_entity now e db).1
  archive :
      (now : Time) (peer id : String) (at : Time) (db : Db)
      → Change db (archive_entity now peer id at db).1
  put_relation :
      (now : Time) (r : Option Relation) (db : Db) → Change db (upsert_relation now r db).1
  dissolve : (peer id : String) (db : Db) → Change db (dissolve_relation peer id db).1
  embed :
      (now : Time) (peer id : String) (vector : Vector) (model : String) (db : Db)
      → Change db (upsert_embedding now peer id vector model db).1

pub data Changes (db : Db) : Db → Type 0 where
  here : Changes db db
  next : {b c : Db} → Changes db b → Change b c → Changes db c

Change-IsWellFormed : {a b : Db} → Change a b → IsWellFormed a → IsWellFormed b
Change-IsWellFormed (append now ulid ev db) w = append_event-IsWellFormed now ulid ev db w
Change-IsWellFormed (put_entity now e db) w = upsert_entity-IsWellFormed now e db w
Change-IsWellFormed (archive now peer id at db) w = archive_entity-IsWellFormed now peer id at db w
Change-IsWellFormed (put_relation now r db) w = upsert_relation-IsWellFormed now r db w
Change-IsWellFormed (dissolve peer id db) w = dissolve_relation-IsWellFormed peer id db w
Change-IsWellFormed (embed now peer id vector model db) w =
    upsert_embedding-IsWellFormed now peer id vector model db w

-- Whatever writes a store goes through, failing ones included: no two events, entities or relations
-- share an id, no two vectors an entity, every vector has metadata and the store's dimension.
pub Changes-IsWellFormed : {a b : Db} → IsWellFormed a → Changes a b → IsWellFormed b
Changes-IsWellFormed w here = w
Changes-IsWellFormed w (next cs c) = Change-IsWellFormed c (Changes-IsWellFormed w cs)

-- the log after a write
Change-events : {a b : Db} → Change a b → (new : List EventRow) × (b.events ≡ a.events ++ new)
Change-events (append now ulid none db) = ([], unfold append_event in sym (append-nil db.events))
Change-events (append now ulid (some ev) db) = elim (append_event-Appended now ulid ev db) [
  | inl failed ↦ ([], rw failed.1 (sym (append-nil db.events)))
  | inr (added, _) ↦
      (event_row (filled_event now ulid ev) ∷ [], ap (λ (o : Result Event × Db). o.1.events) added)
]
Change-events (put_entity now none db) = ([], unfold upsert_entity in sym (append-nil db.events))
Change-events (put_entity now (some e) db) =
    ([], unfold upsert_entity in ground (arith, append-nil db.events))
Change-events (archive now peer id at db) =
    ([], unfold archive_entity in ground (arith, append-nil db.events))
Change-events (put_relation now none db) =
    ([], unfold upsert_relation in sym (append-nil db.events))
Change-events (put_relation now (some r) db) =
    ([], unfold upsert_relation in ground (arith, append-nil db.events))
Change-events (dissolve peer id db) =
    ([], unfold dissolve_relation in ground (arith, append-nil db.events))
Change-events (embed now peer id vector model db) =
    ([], unfold upsert_embedding in ground (arith, append-nil db.events))

-- No write changes or removes an event: the log after any writes is the log before them with more
-- events at its end.
pub Changes-events : {a b : Db} → Changes a b → (new : List EventRow) × (b.events ≡ a.events ++ new)
Changes-events {a} here = ([], sym (append-nil a.events))
Changes-events {a} (next cs c) =
    let (old, e) = Changes-events cs in
    let (new, f) = Change-events c in
    (old ++ new, f ∙ ap (λ (l : List EventRow). l ++ new) e ∙ append_assoc a.events old new)
