-- ===== src/Store/Rows.antt =====
-- The tables that `Init` of internal/store/sqlite.go declares, and the tests of SQLite that the
-- queries use. Timestamps are text, written by `formatTime` alone.
use coggo.Prelude.{ℕ, String, Bool, Option, List, []}
use coggo.Types.{EventType, Payload}
use coggo.Types.Json.{Value, Fields}
use coggo.Store.Stamp.{Stamp}

pub record EventRow : Type 0 where
  pub id : String
  pub peer_did : String
  pub type : EventType
  pub payload : Payload
  pub timestamp : Stamp
  pub author_did : String
  pub client_id : String
  pub signature : List ℕ

pub record EntityRow : Type 0 where
  pub id : String
  pub type : String
  pub peer_did : String
  pub created_at : Stamp
  pub created_by_did : String
  pub created_by_client : String
  pub updated_at : Stamp
  pub archived_at : Option Stamp
  pub fields : Fields
  pub embedding_id : Option String

pub record RelationRow : Type 0 where
  pub id : String
  pub from_id : String
  pub to_id : String
  pub type : String
  pub peer_did : String
  pub created_at : Stamp
  pub created_by_did : String
  pub created_by_client : String
  pub fields : Fields

-- A float32 is its bit pattern.
abbrev pub Vector : Type 0
Vector = List ℕ

-- `entity_embeddings`
pub record VectorRow : Type 0 where
  pub entity_id : String
  pub embedding : Vector

-- `embedding_meta`
pub record MetaRow : Type 0 where
  pub entity_id : String
  pub peer_did : String
  pub model : String
  pub created_at : Stamp

-- The database, and the vector dimension that the store was opened with.
pub record Db : Type 0 where
  pub dim : ℕ
  pub events : List EventRow
  pub entities : List EntityRow
  pub relations : List RelationRow
  pub vectors : List VectorRow
  pub metas : List MetaRow

-- After `New` and `Init` on a file that is not there.
abbrev pub fresh : ℕ → Db
fresh dim = record {
  dim = dim;
  events = [];
  entities = [];
  relations = [];
  vectors = [];
  metas = [];
}

-- What the queries take from SQLite and from sqlite-vec.
pub record Sqlite : Type 0 where
  -- `json_extract(data, '$.'||k) = v`
  pub json_equal : Fields → String → Value → Bool
  -- `CAST(data AS TEXT) LIKE '%' || q || '%'`
  pub like : Fields → String → Bool
  -- `embedding MATCH v AND k = n ORDER BY distance`: the ids and the distances' bit patterns
  pub knn : List VectorRow → Vector → ℕ → List (String × ℕ)
  -- `1.0 - distance`
  pub one_minus : ℕ → ℕ
