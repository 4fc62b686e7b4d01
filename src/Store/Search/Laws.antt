-- ===== src/Store/Search/Laws.antt =====
-- What `SemanticSearch` and `SubstringSearch` of internal/store/sqlite.go return.
use mathlib.Core.Option
use coggo.Prelude.{
  ℕ, zero, suc, ◌≤◌, String, ◌==◌, ◌≡◌, refl, true, ◌||◌, Option, none, some, List, [], ◌∷◌, inl,
  inr, arith, eq_iff, length, filter, find, map, take, is_some, is_empty, All, All-filter, All-take,
  All-map, All-mono, length-map, length-take-le, eqb, Bool-cases, Option-cases,
}
use coggo.Prelude.Order.Sort.{sort, All-sort}
use coggo.Prelude.Result.{Result, ok, traverse-map}
use coggo.Types.{Entity}
use coggo.Store.Stamp.{Stamp}
use coggo.Store.Stamp.Laws.{time_of}
use coggo.Store.Rows.{Db, EntityRow, Vector, Sqlite}
use coggo.Store.Entities.{is_entity, limit_or, scan_entity}
use coggo.Store.Entities.Read.{row_entity, scan_entity-row_entity, get_entity-find}
use coggo.Store.Search.{
  SemanticHit, score_one, last_updated_first, is_hit, hits, candidates, semantic_search, mentions,
  substring_search,
}

-- a hit that the peer may see
abbrev pub Shown : String → String → SemanticHit → Type 0
Shown peer type h = is_hit peer type h.entity ≡ true

-- An answer: it is no error, within the limit, and every hit is the peer's, of the type that is asked
-- for and not archived.
abbrev pub Good : String → String → ℕ → Result (List SemanticHit) → Type 0
Good peer type n r =
    (hs : List SemanticHit) × (r ≡ ok hs) × (length hs ≤ n) × All (Shown peer type) hs

module _ (sqlite : Sqlite) (peer type : String) (db : Db) where
  hits-Good :
      (room : ℕ) (cands : List (String × ℕ))
      → Good peer type room (hits sqlite peer type db room cands)
  unfolding hits
  hits-Good zero cands = ([], refl, omega arith, tt)
  hits-Good (suc room) [] = ([], refl, omega arith, tt)
  hits-Good (suc room) ((id, distance) ∷ cands) =
      elim (Option-cases (Option.map row_entity (find (is_entity peer id) db.entities))) [
        | inl e ↦
            let (hs, run, short, shown) = hits-Good (suc room) cands in
            (hs, rw (get_entity-find peer id db, e) run, short, shown)
        | inr (e, found) ↦ elim (Bool-cases (is_hit peer type e)) [
          | inl hit ↦
              let (hs, run, short, shown) = hits-Good room cands in
              (
                record { entity = e; score = sqlite.one_minus distance } ∷ hs,
                rw (get_entity-find peer id db, found, hit, run),
                omega (arith, short),
                (hit, shown),
              )
          | inr miss ↦
              let (hs, run, short, shown) = hits-Good (suc room) cands in
              (hs, rw (get_entity-find peer id db, found, miss) run, short, shown)
        ]
      ]

  -- A vector search with no vector, or one of the store's dimension, never fails, gives no more hits
  -- than its limit (10 where none is given), and each is the peer's, of the type that is asked for and
  -- not archived.
  pub semantic_search-Good :
      (vector : Vector) (limit : ℕ)
      → (is_empty vector || eqb (length vector) db.dim) ≡ true
      → Good peer type (limit_or 10 limit) (semantic_search sqlite peer vector type limit db)
  unfolding semantic_search
  semantic_search-Good vector limit fits = elim (Bool-cases (is_empty vector)) [
    | inl bare ↦ ([], rw bare, omega arith, tt)
    | inr some_vector ↦
        let sized : eqb (length vector) db.dim ≡ true = ground (arith, fits, some_vector) in
        rw (some_vector, sized)
          (hits-Good (limit_or 10 limit)
            (sqlite.knn db.vectors vector (candidates sqlite (limit_or 10 limit))))
  ]

  is_some-map : (o : Option Stamp) → is_some (Option.map time_of o) ≡ is_some o
  is_some-map none = refl
  is_some-map (some s) = refl

  abbrev as_hit : Entity → SemanticHit
  as_hit e = record { entity = e; score = score_one }

  Shown-row :
      (query : String) (r : EntityRow)
      → mentions sqlite peer query type r ≡ true
      → Shown peer type (as_hit (row_entity r))
  Shown-row query r h = ground (arith, is_some-map r.archived_at, eq_iff r.peer_did peer)

  -- A substring search never fails, gives no more hits than its limit (10 where none is given), and
  -- each is the peer's, of the type that is asked for and not archived.
  pub substring_search-Good :
      (query : String) (limit : ℕ)
      → Good peer type (limit_or 10 limit) (substring_search sqlite peer query type limit db)
  unfolding substring_search
  substring_search-Good query limit = elim (Bool-cases (query == "")) [
    | inl bare ↦ ([], rw bare, omega arith, tt)
    | inr asked ↦
        let rows : List EntityRow =
          take (limit_or 10 limit)
            (sort last_updated_first (filter (mentions sqlite peer query type) db.entities)) in
        (
          map as_hit (map row_entity rows),
          rw (asked, traverse-map scan_entity row_entity rows scan_entity-row_entity),
          rw (length-map as_hit (map row_entity rows), length-map row_entity rows)
              (length-take-le _ _),
          All-map (Shown peer type) as_hit (map row_entity rows) (
              All-map (λ e. Shown peer type (as_hit e)) row_entity rows
                (All-take (λ r. Shown peer type (as_hit (row_entity r))) _
                  (sort last_updated_first (filter (mentions sqlite peer query type) db.entities))
                  (All-sort last_updated_first (λ r. Shown peer type (as_hit (row_entity r)))
                    (filter (mentions sqlite peer query type) db.entities)
                    (All-mono (λ r. mentions sqlite peer query type r ≡ true)
                      (λ r. Shown peer type (as_hit (row_entity r)))
                      (filter (mentions sqlite peer query type) db.entities) (Shown-row query)
                      (All-filter (mentions sqlite peer query type) db.entities))))),
        )
  ]
