-- ===== src/Store/Entities/Read.antt =====
-- How the rows of the entity table read: `scanEntity` and `GetEntity` of internal/store/sqlite.go.
use mathlib.Core.Option
use coggo.Prelude.{
  String, ◌≡◌, refl, ap, ◌∙◌, true, false, Option, none, some, find, any, any-find, is_some,
}
use coggo.Prelude.Result.{ok}
use coggo.Types.{Time, Entity}
use coggo.Store.Stamp.{Stamp, format_time}
use coggo.Store.Stamp.Laws.{time_of, parse_time-stamp, time_of-format_time}
use coggo.Store.Rows.{Db, EntityRow}
use coggo.Store.Entities.{
  or_empty, read_optional, entity_row, is_entity, scan_entity, scanned, get_entity,
}

abbrev pub row_entity : EntityRow → Entity
row_entity r = record {
  id = r.id;
  type = r.type;
  peer_did = r.peer_did;
  created_at = time_of r.created_at;
  created_by_did = r.created_by_did;
  created_by_client = r.created_by_client;
  updated_at = time_of r.updated_at;
  archived_at = Option.map time_of r.archived_at;
  fields = some r.fields;
  embedding_id = r.embedding_id;
}

read_optional-map : (o : Option Stamp) → read_optional o ≡ ok (Option.map time_of o)
read_optional-map none = refl
read_optional-map (some s) = rw (parse_time-stamp s)

pub scan_entity-row_entity : (r : EntityRow) → scan_entity r ≡ ok (row_entity r)
unfolding scan_entity
scan_entity-row_entity r =
    rw (parse_time-stamp r.created_at, parse_time-stamp r.updated_at)
      (rw (read_optional-map r.archived_at))

pub get_entity-find :
    (peer id : String) (db : Db)
    → get_entity peer id db ≡ ok (Option.map row_entity (find (is_entity peer id) db.entities))
unfolding get_entity
get_entity-find peer id db = go (find (is_entity peer id) db.entities)
  where
    go : (o : Option EntityRow) → scanned o ≡ ok (Option.map row_entity o)
    go none = refl
    go (some r) = rw (scan_entity-row_entity r)

-- what a row keeps of an entity: a nil map is stored as an empty one
abbrev pub stored : Entity → Entity
stored e = record e { fields = some (or_empty e.fields) }

map-time_of : (o : Option Time) → Option.map time_of (Option.map format_time o) ≡ o
map-time_of none = refl
map-time_of (some t) = ap some (time_of-format_time t)

pub row_entity-entity_row : (e : Entity) → row_entity (entity_row e) ≡ stored e
row_entity-entity_row e =
    cc (
      time_of-format_time e.created_at,
      time_of-format_time e.updated_at,
      map-time_of e.archived_at,
    )

-- An entity that a read gives stands in a row, and the update's condition meets that row.
pub get_entity-some :
    (peer id : String) (db : Db) (e : Entity)
    → get_entity peer id db ≡ ok (some e)
    → (r : EntityRow) × (find (is_entity peer id) db.entities ≡ some r)
      × (row_entity r ≡ e)
      × (any (is_entity peer id) db.entities ≡ true)
get_entity-some peer id db e h =
    go (find (is_entity peer id) db.entities) refl (rw get_entity-find at h)
  where
    go :
        (o : Option EntityRow)
        → find (is_entity peer id) db.entities ≡ o
        → ok (Option.map row_entity o) ≡ ok (some e)
        → (r : EntityRow) × (find (is_entity peer id) db.entities ≡ some r)
          × (row_entity r ≡ e)
          × (any (is_entity peer id) db.entities ≡ true)
    go none f k = cc
    go (some r) f k = (r, f, cc, any-find (is_entity peer id) db.entities ∙ ap is_some f)

pub get_entity-none :
    (peer id : String) (db : Db)
    → get_entity peer id db ≡ ok none
    → (find (is_entity peer id) db.entities ≡ none) × (any (is_entity peer id) db.entities ≡ false)
get_entity-none peer id db h =
    go (find (is_entity peer id) db.entities) refl (rw get_entity-find at h)
  where
    go :
        (o : Option EntityRow)
        → find (is_entity peer id) db.entities ≡ o
        → ok (Option.map row_entity o) ≡ ok none
        → (find (is_entity peer id) db.entities ≡ none)
          × (any (is_entity peer id) db.entities ≡ false)
    go none f k = (f, any-find (is_entity peer id) db.entities ∙ ap is_some f)
    go (some r) f k = cc
