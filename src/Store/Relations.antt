-- ===== src/Store/Relations.antt =====
-- `UpsertRelation`, `DissolveRelation` and `QueryRelations` of internal/store/sqlite.go.
pub mod Laws
use coggo.Prelude.{
  ℕ, ◌++◌, String, ◌==◌, Bool, ◌&&◌, ◌||◌, not, Option, none, some, List, [], ◌∷◌, any, filter,
  take, if◌then◌else◌,
}
use coggo.Prelude.Order.{Order, then_by, by_key, descending, texts}
use coggo.Prelude.Order.Sort.{sort}
use coggo.Prelude.Result.{Result, ok, err, message, about, context, traverse, ◌>>=◌}
use coggo.Types.{Time, is_zero, Relation}
use coggo.Store.Stamp.{stamp, stamps, format_time, parse_time}
use coggo.Store.Rows.{Db, RelationRow}
use coggo.Store.Entities.{or_empty, limit_or}

abbrev pub filled_relation : Time → Relation → Relation
filled_relation now r = record r { created_at = if is_zero r.created_at then now else r.created_at }

abbrev pub relation_row : Relation → RelationRow
relation_row r = record {
  id = r.id;
  from_id = r.from;
  to_id = r.to;
  type = r.type;
  peer_did = r.peer_did;
  created_at = format_time r.created_at;
  created_by_did = r.created_by_did;
  created_by_client = r.created_by_client;
  fields = or_empty r.fields;
}

-- `INSERT OR REPLACE INTO relations`
abbrev pub replace_relation : RelationRow → List RelationRow → List RelationRow
replace_relation r rows = filter (λ s. not (s.id == r.id)) rows ++ r ∷ []

unfoldable pub upsert_relation : Time → Option Relation → Db → Result Relation × Db
upsert_relation now none db = (err (message "store: UpsertRelation: nil relation"), db)
upsert_relation now (some r) db =
    if r.id == ""
    then (err (message "store: UpsertRelation: missing id"), db)
    else if (r.peer_did == "") || ((r.from == "") || ((r.to == "") || (r.type == "")))
    then (err (message "store: UpsertRelation: peer_did, from, to, type required"), db)
    else (
      ok (filled_relation now r),
      record db {
        relations = replace_relation (relation_row (filled_relation now r)) db.relations;
      },
    )

abbrev pub is_relation : String → String → RelationRow → Bool
is_relation peer id r = (r.peer_did == peer) && (r.id == id)

unfoldable pub dissolve_relation : String → String → Db → Result (Unit {0}) × Db
dissolve_relation peer id db =
    if (peer == "") || (id == "")
    then (err (message "store: DissolveRelation: peer_did and id required"), db)
    else if any (is_relation peer id) db.relations
    then (ok tt, record db { relations = filter (λ r. not (is_relation peer id r)) db.relations })
    else (err (about "store: dissolve relation: not found for peer" id), db)

-- An empty argument is no condition.
abbrev pub links : String → String → String → String → RelationRow → Bool
links peer from to type r =
    (r.peer_did == peer)
    && (((from == "") || (r.from_id == from))
        && (((to == "") || (r.to_id == to)) && ((type == "") || (r.type == type))))

abbrev pub newest_relations : Order RelationRow
newest_relations =
    then_by (descending (by_key (λ r. r.created_at) stamps)) (descending (by_key (λ r. r.id) texts))

unfoldable pub scan_relation : RelationRow → Result Relation
scan_relation r = do
  t ← context "store: parse relation timestamp" (parse_time (stamp r.created_at))
  ok (record {
    id = r.id;
    from = r.from_id;
    to = r.to_id;
    type = r.type;
    peer_did = r.peer_did;
    created_at = t;
    created_by_did = r.created_by_did;
    created_by_client = r.created_by_client;
    fields = some r.fields;
  })

unfoldable pub query_relations : String → String → String → String → ℕ → Db → Result (List Relation)
query_relations peer from to type limit db = traverse scan_relation (
    take (limit_or 50 limit)
      (sort newest_relations (filter (links peer from to type) db.relations)))
