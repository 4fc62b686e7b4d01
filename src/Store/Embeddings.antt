-- ===== src/Store/Embeddings.antt =====
-- `UpsertEmbedding` of internal/store/sqlite.go: both tables are written in one transaction.
use coggo.Prelude.{◌++◌, String, ◌==◌, ◌||◌, not, [], ◌∷◌, filter, length, eqb, if◌then◌else◌}
use coggo.Prelude.Result.{Result, ok, err, message}
use coggo.Types.{Time}
use coggo.Store.Stamp.{format_time}
use coggo.Store.Rows.{Db, Vector}

abbrev pub without_vector : String → Db → Db
without_vector id db = record db {
  vectors = filter (λ r. not (r.entity_id == id)) db.vectors;
  metas = filter (λ r. not (r.entity_id == id)) db.metas;
}

abbrev pub with_vector : Time → String → String → Vector → String → Db → Db
with_vector now peer id vector model db = record db {
  vectors = db.vectors ++ record { entity_id = id; embedding = vector } ∷ [];
  metas =
      db.metas
      ++ record { entity_id = id; peer_did = peer; model = model; created_at = format_time now }
        ∷ [];
}

unfoldable pub upsert_embedding :
    Time → String → String → Vector → String → Db → Result (Unit {0}) × Db
upsert_embedding now peer id vector model db =
    if (peer == "") || (id == "")
    then (err (message "store: UpsertEmbedding: peer_did and entity_id required"), db)
    else if eqb (length vector) db.dim
    then (ok tt, with_vector now peer id vector model (without_vector id db))
    else (err (message "store: UpsertEmbedding: vector dim does not match store dim"), db)
