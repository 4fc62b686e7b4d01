-- ===== src/Store/WellFormed.antt =====
-- The shape of the store's tables (internal/store/sqlite.go): keys, dimensions, metadata.
pub mod Tables
pub mod Vectors
pub mod Steps
use mathlib.Core.List.{append_assoc, append-nil, map-append}
use coggo.Prelude.{
  ℕ, String, ◌≡◌, refl, sym, ◌∙◌, ap, ◌==◌, Bool, true, false, not, ◌||◌, Option, none, some, List,
  [], ◌∷◌, ◌++◌, ◌⊎◌, inl, inr, arith, eqb, length, any, map, filter, All, Bool-cases,
  if◌then◌else◌,
}
use coggo.Prelude.Distinct.{
  Lacks, Distinct, filter-Distinct, append-Distinct, any-Lacks, drop-Lacks, map-Distinct,
}
use coggo.Prelude.Result.{Result}
use coggo.Types.{Time, is_zero, Event, Entity, Relation}
use coggo.Store.Rows.{Db, EventRow, EntityRow, RelationRow, VectorRow, MetaRow, Vector, fresh}
use coggo.Store.Events.{append_event, filled_event, event_row}
use coggo.Store.Events.Laws.{Appended, append_event-Appended}
use coggo.Store.Entities.{
  upsert_entity, archive_entity, is_entity, archive_row, entity_row, filled_entity,
}
use coggo.Store.Relations.{
  upsert_relation, dissolve_relation, is_relation, relation_row, filled_relation,
}
use coggo.Store.Embeddings.{upsert_embedding, with_vector, without_vector}

pub record IsWellFormed (db : Db) : Type 0 where
  pub events : Distinct (λ r. r.id) db.events
  pub entities : Distinct (λ r. r.id) db.entities
  pub relations : Distinct (λ r. r.id) db.relations
  pub vectors : Distinct (λ r. r.entity_id) db.vectors
  -- the two tables of embeddings have the same ids, in the same order
  pub metas : map (λ r. r.entity_id) db.metas ≡ map (λ r. r.entity_id) db.vectors
  pub sized : All (λ r. length r.embedding ≡ db.dim) db.vectors

pub fresh-IsWellFormed : (dim : ℕ) → IsWellFormed (fresh dim)
fresh-IsWellFormed dim = record {
  events = tt;
  entities = tt;
  relations = tt;
  vectors = tt;
  metas = refl;
  sized = tt;
}
