-- ===== src/Store/Entities.antt =====
-- `UpsertEntity`, `ArchiveEntity`, `GetEntity`, `QueryEntities` and `scanEntity` of
-- internal/store/sqlite.go.
pub mod Read
pub mod Laws
pub mod Query
pub mod Isolation
use mathlib.Core.Option
use coggo.Prelude.{
  ℕ, ◌++◌, String, ◌==◌, Bool, true, false, ◌&&◌, ◌||◌, not, Option, none, some, List, [], ◌∷◌, any,
  filter, find, map, take, eqb, is_some, if◌then◌else◌,
}
use coggo.Prelude.Order.{Order, then_by, by_key, descending, texts}
use coggo.Prelude.Order.Sort.{sort}
use coggo.Prelude.Result.{Result, ok, err, message, about, wrap, context, traverse, ◌>>=◌}
use coggo.Types.{Time, is_zero, Entity, EntityQuery}
use coggo.Types.Json.{Value, Fields, end, field}
use coggo.Store.Stamp.{Stamp, stamp, stamps, format_time, parse_time}
use coggo.Store.Rows.{Db, EntityRow, Sqlite}

-- `if data == nil { data = map[string]any{} }`
abbrev pub or_empty : Option Fields → Fields
or_empty none = end
or_empty (some fs) = fs

-- The times that the caller left zero become the current time.
abbrev pub filled_entity : Time → Entity → Entity
filled_entity now e = record e {
  created_at = if is_zero e.created_at then now else e.created_at;
  updated_at = if is_zero e.updated_at then now else e.updated_at;
}

abbrev pub entity_row : Entity → EntityRow
entity_row e = record {
  id = e.id;
  type = e.type;
  peer_did = e.peer_did;
  created_at = format_time e.created_at;
  created_by_did = e.created_by_did;
  created_by_client = e.created_by_client;
  updated_at = format_time e.updated_at;
  archived_at = Option.map format_time e.archived_at;
  fields = or_empty e.fields;
  embedding_id = e.embedding_id;
}

-- `INSERT OR REPLACE INTO entities`: the row with the same id goes.
abbrev pub replace_entity : EntityRow → List EntityRow → List EntityRow
replace_entity r rows = filter (λ s. not (s.id == r.id)) rows ++ r ∷ []

unfoldable pub upsert_entity : Time → Option Entity → Db → Result Entity × Db
upsert_entity now none db = (err (message "store: UpsertEntity: nil entity"), db)
upsert_entity now (some e) db =
    if e.id == ""
    then (err (message "store: UpsertEntity: missing id"), db)
    else if e.peer_did == ""
    then (err (message "store: UpsertEntity: missing peer_did"), db)
    else (
      ok (filled_entity now e),
      record db { entities = replace_entity (entity_row (filled_entity now e)) db.entities },
    )

-- `WHERE peer_did = ? AND id = ?`
abbrev pub is_entity : String → String → EntityRow → Bool
is_entity peer id r = (r.peer_did == peer) && (r.id == id)

abbrev pub archive_row : String → String → Time → EntityRow → EntityRow
archive_row peer id at r =
    if is_entity peer id r
    then record r { archived_at = some (format_time at); updated_at = format_time at }
    else r

unfoldable pub archive_entity : Time → String → String → Time → Db → Result (Unit {0}) × Db
archive_entity now peer id at db =
    if (peer == "") || (id == "")
    then (err (message "store: ArchiveEntity: peer_did and id required"), db)
    else if any (is_entity peer id) db.entities
    then (
      ok tt,
      record db {
        entities = map (archive_row peer id (if is_zero at then now else at)) db.entities;
      },
    )
    else (err (about "store: archive entity: not found for peer" id), db)

abbrev pub read_optional : Option Stamp → Result (Option Time)
read_optional none = ok none
read_optional (some s) = do t ← context "parse archived_at" (parse_time (stamp s)); ok (some t)

unfoldable pub scan_entity : EntityRow → Result Entity
scan_entity r = do
  created ← context "parse created_at" (parse_time (stamp r.created_at))
  updated ← context "parse updated_at" (parse_time (stamp r.updated_at))
  archived ← read_optional r.archived_at
  ok (record {
    id = r.id;
    type = r.type;
    peer_did = r.peer_did;
    created_at = created;
    created_by_did = r.created_by_did;
    created_by_client = r.created_by_client;
    updated_at = updated;
    archived_at = archived;
    fields = some r.fields;
    embedding_id = r.embedding_id;
  })

abbrev pub scanned : Option EntityRow → Result (Option Entity)
scanned none = ok none
scanned (some r) = do e ← context "store: get entity" (scan_entity r); ok (some e)

-- `ok none` is `(nil, nil)`: there is no such row.
unfoldable pub get_entity : String → String → Db → Result (Option Entity)
get_entity peer id db = scanned (find (is_entity peer id) db.entities)

-- `if limit <= 0 { limit = n }`
abbrev pub limit_or : ℕ → ℕ → ℕ
limit_or n limit = if eqb limit 0 then n else limit

-- `ORDER BY created_at DESC, id DESC`
abbrev pub newest_first : Order EntityRow
newest_first =
    then_by (descending (by_key (λ r. r.created_at) stamps)) (descending (by_key (λ r. r.id) texts))

module _ (sqlite : Sqlite) where
  -- one condition for each filter
  unfoldable pub passes : Fields → Fields → Bool
  passes end fs = true
  passes (field k v filters) fs = sqlite.json_equal fs k v && passes filters fs

  -- the conditions of the `WHERE` clause
  abbrev pub selects : String → EntityQuery → EntityRow → Bool
  selects peer q r =
      (r.peer_did == peer)
      && (((q.type == "") || (r.type == q.type))
          && ((q.include_archived || not (is_some r.archived_at)) && passes q.filters r.fields))

  unfoldable pub query_entities : String → EntityQuery → Db → Result (List Entity)
  query_entities peer q db =
      traverse scan_entity
        (take (limit_or 50 q.limit) (sort newest_first (filter (selects peer q) db.entities)))
