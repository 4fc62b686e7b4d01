-- ===== src/Store/Entities/Laws.antt =====
-- Reads after `UpsertEntity` and `ArchiveEntity` of internal/store/sqlite.go.
use mathlib.Core.Option
use coggo.Prelude.{
  String, ◌==◌, ◌≡◌, refl, ap, Bool, true, false, ◌&&◌, Option, none, some, List, [], ◌∷◌, arith,
  eq_iff, filter, find, ◌⊎◌, ◌∙◌, sym, inl, inr, find-holds, map, Bool-cases, if◌then◌else◌,
}
use coggo.Prelude.Result.{ok, is_ok}
use coggo.Types.{Time, is_zero, Entity}
use coggo.Store.Stamp.Laws.{time_of-format_time}
use coggo.Store.Rows.{Db, EntityRow}
use coggo.Store.Entities.Read.{
  row_entity, stored, get_entity-find, get_entity-some, get_entity-none, row_entity-entity_row,
}
use coggo.Store.Entities.{
  archive_entity, archive_row, filled_entity, entity_row, replace_entity, upsert_entity, is_entity,
  get_entity,
}

-- the search for a row, after a row has been replaced
find-replace :
    (peer id : String) (r : EntityRow) (rows : List EntityRow)
    → find (is_entity peer id) (replace_entity r rows) ≡ (
        if r.id == id
        then (if r.peer_did == peer then some r else none)
        else find (is_entity peer id) rows)
unfolding find filter
find-replace peer id r [] = ground arith
find-replace peer id r (s ∷ rows) =
    ground (arith, find-replace peer id r rows, eq_iff s.id r.id, eq_iff s.id id, eq_iff r.id id)

-- After a write of an entity that has an id and a peer, a read of that id gives the entity as the
-- write completed it, under its own peer, and nothing under any other peer; a read of any other id
-- gives what it gave before.
pub get_entity-upsert_entity :
    (now : Time) (e : Entity) (db : Db) (peer id : String)
    → (e.id == "") ≡ false
    → (e.peer_did == "") ≡ false
    → get_entity peer id (upsert_entity now (some e) db).1 ≡ (
        if e.id == id
        then (if e.peer_did == peer then ok (some (stored (filled_entity now e))) else ok none)
        else get_entity peer id db)
unfolding upsert_entity
get_entity-upsert_entity now e db peer id named owned =
    rw (named, owned)
      (rw
        (
          get_entity-find peer id (record db {
            entities = replace_entity (entity_row (filled_entity now e)) db.entities;
          }),
          find-replace peer id (entity_row (filled_entity now e)) db.entities,
          get_entity-find peer id db,
        )
        (split (e.id == id) (e.peer_did == peer)))
  where
    row : EntityRow
    row = entity_row (filled_entity now e)

    split :
        (same mine : Bool)
        → (ok (
            Option.map row_entity (
              if same
              then (if mine then some row else none)
              else find (is_entity peer id) db.entities)))
          ≡ (if same
              then (if mine then ok (some (stored (filled_entity now e))) else ok none)
              else ok (Option.map row_entity (find (is_entity peer id) db.entities)))
    split true true = ap (λ x. ok (some x)) (row_entity-entity_row (filled_entity now e))
    split true false = refl
    split false mine = refl

map_archive :
    (peer id : String) (at : Time) (p id' : String) (rows : List EntityRow)
    → find (is_entity p id') (map (archive_row peer id at) rows)
      ≡ Option.map (archive_row peer id at) (find (is_entity p id') rows)
unfolding find
map_archive peer id at p id' [] = refl
map_archive peer id at p id' (r ∷ rows) = ground (arith, map_archive peer id at p id' rows)

-- what `ArchiveEntity` does to an entity that it finds
abbrev pub archived_at_time : Time → Entity → Entity
archived_at_time at e = record e { archived_at = some at; updated_at = at }

row_entity-archive_row :
    (peer id : String) (at : Time) (r : EntityRow)
    → row_entity (archive_row peer id at r)
      ≡ (if is_entity peer id r then archived_at_time at (row_entity r) else row_entity r)
row_entity-archive_row peer id at r = elim (Bool-cases (is_entity peer id r)) [
  | inl e ↦ rw e (cc (time_of-format_time at))
  | inr e ↦ rw e
]

-- a row that a search finds has the peer and the id of the search
found_is_entity :
    (p i peer id : String) (rows : List EntityRow) (r : EntityRow)
    → find (is_entity p i) rows ≡ some r
    → is_entity peer id r ≡ ((p == peer) && (i == id))
found_is_entity p i peer id rows r h =
    ground (arith, find-holds (is_entity p i) rows r h, eq_iff r.peer_did p, eq_iff r.id i)

keys_of : (p peer i id : String) → ((p == peer) && (i == id)) ≡ true → (p ≡ peer) × (i ≡ id)
keys_of p peer i id h = ground (arith, eq_iff p peer, eq_iff i id)

-- the reads after the rows have been archived
pub find-map_archive :
    (peer id : String) (at : Time) (db : Db) (p i : String) (o : Option EntityRow)
    → find (is_entity p i) db.entities ≡ o
    → get_entity p i (record db { entities = map (archive_row peer id at) db.entities }) ≡ (
        if (p == peer) && (i == id)
        then ok (Option.map (archived_at_time at) (Option.map row_entity o))
        else ok (Option.map row_entity o))
find-map_archive peer id at db p i none h =
    rw (get_entity-find, map_archive peer id at p i db.entities, h) (ground arith)
find-map_archive peer id at db p i (some r) h =
    rw (get_entity-find, map_archive peer id at p i db.entities, h)
      (rw (row_entity-archive_row peer id at r, found_is_entity p i peer id db.entities r h)
        (ground arith))

-- `ArchiveEntity` of an entity that is there succeeds, stamps both times of that entity (with the
-- current time where none is given) and changes no other.
pub archive_entity_lem :
    (now : Time) (peer id : String) (at : Time) (db : Db) (p i : String) (e : Entity)
    → (peer == "") ≡ false
    → (id == "") ≡ false
    → get_entity peer id db ≡ ok (some e)
    → ((archive_entity now peer id at db).0 ≡ ok tt)
      × (get_entity p i (archive_entity now peer id at db).1 ≡ (
          if (p == peer) && (i == id)
          then ok (some (archived_at_time (if is_zero at then now else at) e))
          else get_entity p i db))
unfolding archive_entity
archive_entity_lem now peer id at db p i e owned named there =
    let (r, found, same, met) = get_entity-some peer id db e there in
    rw (owned, named, met)
      (
        refl,
        find-map_archive peer id (if is_zero at then now else at) db p i
              (find (is_entity p i) db.entities) refl
            ∙ at_key r found same (Bool-cases ((p == peer) && (i == id))),
      )
  where
    t : Time
    t = if is_zero at then now else at

    at_key :
        (r : EntityRow)
        → find (is_entity peer id) db.entities ≡ some r
        → row_entity r ≡ e
        → (((p == peer) && (i == id)) ≡ true) ⊎ (((p == peer) && (i == id)) ≡ false)
        → (if (p == peer) && (i == id)
            then ok (
                Option.map
                  (archived_at_time t)
                  (Option.map row_entity (find (is_entity p i) db.entities)))
            else ok (Option.map row_entity (find (is_entity p i) db.entities)))
          ≡ (if (p == peer) && (i == id)
              then ok (some (archived_at_time t e))
              else get_entity p i db)
    at_key r found same (inl hit) =
        let (same_peer, same_id) = keys_of p peer i id hit in
        rw (hit, same_peer, same_id, found)
          (ap (λ (x : Entity). ok (some (archived_at_time t x))) same)
    at_key r found same (inr miss) = rw miss (sym (get_entity-find p i db))

-- `ArchiveEntity` of an entity that is not there is an error and leaves the database as it was.
pub archive_entity-missing :
    (now : Time) (peer id : String) (at : Time) (db : Db)
    → get_entity peer id db ≡ ok none
    → (is_ok (archive_entity now peer id at db).0 ≡ false)
      × ((archive_entity now peer id at db).1 ≡ db)
unfolding archive_entity
archive_entity-missing now peer id at db missing =
    let (_, unmet) = get_entity-none peer id db missing in rw unmet (ground arith, ground arith)
