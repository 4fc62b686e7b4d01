-- ===== src/Store/Search.antt =====
-- `SemanticSearch` and `SubstringSearch` of internal/store/sqlite.go.
pub mod Laws
use coggo.Prelude.{
  ℕ, zero, suc, ◌*◌, String, ◌==◌, Bool, true, false, ◌&&◌, ◌||◌, not, Option, none, some, List, [],
  ◌∷◌, filter, map, take, length, is_empty, is_some, ltb, leb, eqb, if◌then◌else◌,
}
use coggo.Prelude.Order.{Order, then_by, by_key, descending, texts}
use coggo.Prelude.Order.Sort.{sort}
use coggo.Prelude.Result.{Result, ok, err, message, context, traverse, ◌>>=◌}
use coggo.Types.{Entity}
use coggo.Store.Stamp.{stamps}
use coggo.Store.Rows.{Db, Vector, EntityRow, Sqlite}
use coggo.Store.Entities.{scan_entity, get_entity, limit_or}

pub record SemanticHit : Type 0 where
  pub entity : Entity
  -- a float64 by its bit pattern
  pub score : ℕ

-- the bit pattern of the float64 1.0
abbrev pub score_one : ℕ
score_one = 0x3ff0000000000000

-- `ORDER BY updated_at DESC, id DESC`
abbrev pub last_updated_first : Order EntityRow
last_updated_first =
    then_by (descending (by_key (λ r. r.updated_at) stamps)) (descending (by_key (λ r. r.id) texts))

-- Whether the loop keeps a hydrated candidate.
abbrev pub is_hit : String → String → Entity → Bool
is_hit peer type e =
    (e.peer_did == peer) && (((type == "") || (e.type == type)) && not (is_some e.archived_at))

module _ (sqlite : Sqlite) where
  -- The loop over the candidates; it ends as soon as `room` more hits were found.
  unfoldable pub hits : String → String → Db → ℕ → List (String × ℕ) → Result (List SemanticHit)
  hits peer type db zero cands = ok []
  hits peer type db (suc room) [] = ok []
  hits peer type db (suc room) ((id, distance) ∷ cands) =
      context "store: hydrate semantic hit" (get_entity peer id db) >>= elim [
        | none ↦ hits peer type db (suc room) cands
        | some e ↦
            let kept = hits peer type db room cands in
            let passed = hits peer type db (suc room) cands in
            if is_hit peer type e
            then (do
              rest ← kept
              ok (record { entity = e; score = sqlite.one_minus distance } ∷ rest))
            else passed
      ]

  -- `k := limit * 4; if k < 16 { k = 16 }`
  abbrev pub candidates : ℕ → ℕ
  candidates limit = if ltb (limit * 4) 16 then 16 else limit * 4

  unfoldable pub semantic_search : String → Vector → String → ℕ → Db → Result (List SemanticHit)
  semantic_search peer vector type limit db =
      let n = limit_or 10 limit in
      if is_empty vector
      then ok []
      else if eqb (length vector) db.dim
      then hits peer type db n (sqlite.knn db.vectors vector (candidates n))
      else err (message "store: SemanticSearch: vector dim does not match store dim")

  abbrev pub mentions : String → String → String → EntityRow → Bool
  mentions peer query type r =
      (r.peer_did == peer)
      && (not (is_some r.archived_at)
          && (sqlite.like r.fields query && ((type == "") || (r.type == type))))

  unfoldable pub substring_search : String → String → String → ℕ → Db → Result (List SemanticHit)
  substring_search peer query type limit db = if query == "" then ok [] else do
    es ← traverse scan_entity (
        take (limit_or 10 limit)
          (sort last_updated_first (filter (mentions peer query type) db.entities)))
    ok (map (λ e. record { entity = e; score = score_one }) es)
