-- ===== src/Store/Relations/Laws.antt =====
-- What `QueryRelations` of internal/store/sqlite.go returns, also after `DissolveRelation`.
use coggo.Prelude.{
  ℕ, ◌≤◌, String, ◌==◌, ◌≡◌, sym, subst, Bool, true, false, ◌&&◌, ◌||◌, not, some, List, [], ◌∷◌,
  inl, inr, arith, length, take, map, filter, All, All-filter, All-take, All-map, All-mono,
  length-map, length-take-le, Bool-cases,
}
use coggo.Prelude.Order.Sort.{sort, All-sort}
use coggo.Prelude.Result.{ok, is_ok, traverse-map}
use coggo.Types.{Relation}
use coggo.Store.Stamp.Laws.{time_of, parse_time-stamp}
use coggo.Store.Rows.{Db, RelationRow}
use coggo.Store.Entities.{limit_or}
use coggo.Store.Relations.{
  is_relation, dissolve_relation, links, newest_relations, scan_relation, query_relations,
}

abbrev pub row_relation : RelationRow → Relation
row_relation r = record {
  id = r.id;
  from = r.from_id;
  to = r.to_id;
  type = r.type;
  peer_did = r.peer_did;
  created_at = time_of r.created_at;
  created_by_did = r.created_by_did;
  created_by_client = r.created_by_client;
  fields = some r.fields;
}

scan_relation-row_relation : (r : RelationRow) → scan_relation r ≡ ok (row_relation r)
unfolding scan_relation
scan_relation-row_relation r = rw (parse_time-stamp r.created_at)

-- the relation meets the query
abbrev pub is_linked : String → String → String → String → Relation → Bool
is_linked peer from to type r =
    (r.peer_did == peer)
    && (((from == "") || (r.from == from))
        && (((to == "") || (r.to == to)) && ((type == "") || (r.type == type))))

module _ (peer from to type : String) (limit : ℕ) (db : Db) where
  abbrev chosen : List RelationRow
  chosen = filter (links peer from to type) db.relations

  abbrev listed : List RelationRow
  listed = take (limit_or 50 limit) (sort newest_relations chosen)

  query_relations-map : query_relations peer from to type limit db ≡ ok (map row_relation listed)
  unfolding query_relations
  query_relations-map = traverse-map scan_relation row_relation listed scan_relation-row_relation

  -- What holds of the rows holds of the answer.
  All-query_relations :
      (P : Relation → Type 0)
      → All (λ r. P (row_relation r)) chosen
      → (rs : List Relation) × (query_relations peer from to type limit db ≡ ok rs)
        × (length rs ≤ limit_or 50 limit)
        × All P rs
  All-query_relations P h = (
    map row_relation listed,
    query_relations-map,
    rw (length-map row_relation listed) (length-take-le _ _),
    All-map P row_relation listed (
        All-take (λ r. P (row_relation r)) _ (sort newest_relations chosen)
          (All-sort newest_relations (λ r. P (row_relation r)) chosen h)),
  )

  -- `QueryRelations` never fails, returns no more relations than its limit (50 where none is given),
  -- and each is the peer's and has the source, the target and the type that are asked for.
  pub query_relations_sound :
      (rs : List Relation) × (query_relations peer from to type limit db ≡ ok rs)
      × (length rs ≤ limit_or 50 limit)
      × All (λ r. is_linked peer from to type r ≡ true) rs
  query_relations_sound =
      All-query_relations (λ r. is_linked peer from to type r ≡ true)
        (All-filter (links peer from to type) db.relations)

-- filters keep what holds of every element
filter-All :
    (P : RelationRow → Type 0) (p : RelationRow → Bool) (rs : List RelationRow)
    → All P rs
    → All P (filter p rs)
unfolding filter
filter-All P p [] h = tt
filter-All P p (r ∷ rs) h = elim (Bool-cases (p r)) [
  | inl e ↦ rw e (h.0, filter-All P p rs h.1)
  | inr e ↦ rw e (filter-All P p rs h.1)
]

dissolved-rows :
    (peer id : String) (db : Db)
    → is_ok (dissolve_relation peer id db).0 ≡ true
    → (dissolve_relation peer id db).1.relations
      ≡ filter (λ r. not (is_relation peer id r)) db.relations
unfolding dissolve_relation
dissolved-rows peer id db done = ground (arith, done)

-- After a `DissolveRelation` that succeeds, no query of the peer returns the relation again.
pub query_relations-dissolve_relation :
    (peer id from to type : String) (limit : ℕ) (db : Db)
    → is_ok (dissolve_relation peer id db).0 ≡ true
    → (rs : List Relation) × (query_relations peer from to type limit
          (dissolve_relation peer id db).1
        ≡ ok rs)
      × (length rs ≤ limit_or 50 limit)
      × All (λ r. ((r.peer_did == peer) && (r.id == id)) ≡ false) rs
query_relations-dissolve_relation peer id from to type limit db done =
    All-query_relations peer from to type limit (dissolve_relation peer id db).1
      (λ r. ((r.peer_did == peer) && (r.id == id)) ≡ false)
      (filter-All (λ r. is_relation peer id r ≡ false) (links peer from to type)
        (dissolve_relation peer id db).1.relations
        (subst (All (λ r. is_relation peer id r ≡ false)) (sym (dissolved-rows peer id db done)) (
          All-mono (λ r. not (is_relation peer id r) ≡ true) (λ r. is_relation peer id r ≡ false)
            (filter (λ r. not (is_relation peer id r)) db.relations) (λ r h. ground (arith, h))
            (All-filter (λ r. not (is_relation peer id r)) db.relations))))
