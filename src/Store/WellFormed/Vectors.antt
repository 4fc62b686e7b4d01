-- ===== src/Store/WellFormed/Vectors.antt =====
-- The shape of the embedding tables under `UpsertEmbedding` of internal/store/sqlite.go.
use mathlib.Core.List.{map-append}
use coggo.Prelude.{
  ℕ, String, ◌≡◌, refl, ap, ◌==◌, Bool, not, ◌||◌, List, [], ◌∷◌, ◌++◌, inl, inr, arith, eqb,
  length, map, filter, All, Bool-cases,
}
use coggo.Prelude.Distinct.{filter-Distinct, append-Distinct, drop-Lacks}
use coggo.Types.{Time}
use coggo.Store.Rows.{Db, VectorRow, MetaRow, Vector}
use coggo.Store.Embeddings.{upsert_embedding, with_vector, without_vector}
use coggo.Store.WellFormed.{IsWellFormed}

-- dropping an id from two tables with the same ids leaves them with the same ids
filter_both :
    (id : String) (ms : List MetaRow) (vs : List VectorRow)
    → map (λ r. r.entity_id) ms ≡ map (λ r. r.entity_id) vs
    → map (λ r. r.entity_id) (filter (λ r. not (r.entity_id == id)) ms)
      ≡ map (λ r. r.entity_id) (filter (λ r. not (r.entity_id == id)) vs)
unfolding filter
filter_both id [] [] h = refl
filter_both id [] (v ∷ vs) h = cc
filter_both id (m ∷ ms) [] h = cc
filter_both id (m ∷ ms) (v ∷ vs) h = ground (arith, filter_both id ms vs)

All-append_last :
    (n : ℕ) (vs : List VectorRow) (v : VectorRow)
    → All (λ r. length r.embedding ≡ n) vs
    → length v.embedding ≡ n
    → All (λ r. length r.embedding ≡ n) (vs ++ v ∷ [])
All-append_last n [] v a h = (h, tt)
All-append_last n (u ∷ vs) v a h = (a.0, All-append_last n vs v a.1 h)

All-filter_sized :
    (n : ℕ) (p : VectorRow → Bool) (vs : List VectorRow)
    → All (λ r. length r.embedding ≡ n) vs
    → All (λ r. length r.embedding ≡ n) (filter p vs)
unfolding filter
All-filter_sized n p [] a = tt
All-filter_sized n p (v ∷ vs) a = elim (Bool-cases (p v)) [
  | inl e ↦ rw e (a.0, All-filter_sized n p vs a.1)
  | inr e ↦ rw e (All-filter_sized n p vs a.1)
]

with_vector-IsWellFormed :
    (now : Time) (peer id : String) (vector : Vector) (model : String) (db : Db)
    → length vector ≡ db.dim
    → IsWellFormed db
    → IsWellFormed (with_vector now peer id vector model (without_vector id db))
with_vector-IsWellFormed now peer id vector model db size w = record {
  events = w.events;
  entities = w.entities;
  relations = w.relations;
  vectors =
      append-Distinct (λ (r : VectorRow). r.entity_id)
        (filter (λ r. not (r.entity_id == id)) db.vectors)
        (record { entity_id = id; embedding = vector })
        (filter-Distinct (λ (r : VectorRow). r.entity_id) (λ r. not (r.entity_id == id)) db.vectors
          w.vectors)
        (drop-Lacks (λ (r : VectorRow). r.entity_id) id db.vectors);
  metas =
      rw (map-append, map-append)
        (ap (λ (ids : List String). ids ++ id ∷ []) (filter_both id db.metas db.vectors w.metas));
  sized =
      All-append_last db.dim (filter (λ r. not (r.entity_id == id)) db.vectors)
        (record { entity_id = id; embedding = vector })
        (All-filter_sized db.dim (λ r. not (r.entity_id == id)) db.vectors w.sized) size;
}

pub upsert_embedding-IsWellFormed :
    (now : Time) (peer id : String) (vector : Vector) (model : String) (db : Db)
    → IsWellFormed db
    → IsWellFormed (upsert_embedding now peer id vector model db).1
unfolding upsert_embedding
upsert_embedding-IsWellFormed now peer id vector model db w =
    elim (Bool-cases ((peer == "") || (id == ""))) [
      | inl bare ↦ rw bare w
      | inr named ↦ elim (Bool-cases (eqb (length vector) db.dim)) [
        | inl fits ↦
            rw (named, fits) (with_vector-IsWellFormed now peer id vector model db (ground arith) w)
        | inr other ↦ rw (named, other) w
      ]
    ]
