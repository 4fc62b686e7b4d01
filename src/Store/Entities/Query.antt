-- ===== src/Store/Entities/Query.antt =====
-- What `QueryEntities` of internal/store/sqlite.go returns.
use mathlib.Core.List.Perm
use mathlib.Core.List.{Perm}
use mathlib.Core.Option
use coggo.Prelude.{
  Bool, Bool-cases, inl, inr, ◌⊎◌, false, ◌&&◌, [], ◌∷◌, ap, sym, subst, ◌∙◌, ◌≤◌, String, ◌==◌,
  ◌≡◌, refl, true, ◌||◌, not, Option, none, some, List, arith, eq_iff, length, take, map, filter,
  is_some, All, All-filter, All-take, All-map, All-mono, length-map, length-take-le,
  take_of_length-le,
}
use coggo.Prelude.Order.Sort.{
  sort, Sorted, All-sort, sort-Sorted, sort-perm, length-sort, take-Sorted,
}
use coggo.Prelude.Result.{ok, traverse-map}
use coggo.Types.{Entity, EntityQuery}
use coggo.Prelude.Order.{texts}
use coggo.Types.Json.{Fields, end, field}
use coggo.Store.Stamp.{Stamp, stamps}
use coggo.Store.Stamp.Laws.{time_of}
use coggo.Store.Rows.{Db, EntityRow, Sqlite}
use coggo.Store.Entities.{
  or_empty, limit_or, newest_first, passes, selects, scan_entity, query_entities,
}
use coggo.Store.Entities.Read.{row_entity, scan_entity-row_entity}

-- The first row was created at a later text than the second, or at the same one with a later id or the
-- same.
abbrev pub IsBefore : EntityRow → EntityRow → Type 0
IsBefore r s =
    (stamps.le r.created_at s.created_at ≡ false)
    ⊎ ((stamps.le s.created_at r.created_at ≡ true) × (texts.le s.id r.id ≡ true))

-- Each element stands so to every later one.
abbrev pub Pairwise : {A : Type 0} → (A → A → Type 0) → List A → Type 0
Pairwise R [] = Unit
Pairwise R (x ∷ xs) = All (R x) xs × Pairwise R xs

le-IsBefore : (r s : EntityRow) → newest_first.le r s ≡ true → IsBefore r s
le-IsBefore r s h = elim (Bool-cases (stamps.le r.created_at s.created_at)) [
  | inr e ↦ inl e
  | inl e ↦ inr (ground (arith, e, h))
]

Sorted-IsBefore : (rows : List EntityRow) → Sorted newest_first rows → Pairwise IsBefore rows
Sorted-IsBefore [] h = tt
Sorted-IsBefore (r ∷ rows) h = (
  All-mono (λ s. newest_first.le r s ≡ true) (IsBefore r) rows (λ s k. le-IsBefore r s k) h.0,
  Sorted-IsBefore rows h.1,
)

module _ (sqlite : Sqlite) (peer : String) (q : EntityQuery) where
  -- What every entity of an answer satisfies.
  pub record Answers (e : Entity) : Type 0 where
    pub owner : e.peer_did ≡ peer
    pub typed : ((q.type == "") || (e.type == q.type)) ≡ true
    pub live : (q.include_archived || not (is_some e.archived_at)) ≡ true
    pub matching : passes sqlite q.filters (or_empty e.fields) ≡ true

  is_some-map : (o : Option Stamp) → is_some (Option.map time_of o) ≡ is_some o
  is_some-map none = refl
  is_some-map (some s) = refl

  Answers-row : (r : EntityRow) → selects sqlite peer q r ≡ true → Answers (row_entity r)
  Answers-row r h = record {
    owner = ground (arith, eq_iff r.peer_did peer);
    typed = ground arith;
    live = ground (arith, is_some-map r.archived_at);
    matching = ground arith;
  }

  -- every filter is the value of its key, as SQLite compares them
  abbrev pub meets : Fields → Fields → Bool
  meets end fs = true
  meets (field k v filters) fs = sqlite.json_equal fs k v && meets filters fs

  passes-meets : (filters fs : Fields) → passes sqlite filters fs ≡ meets filters fs
  unfolding passes
  passes-meets end fs = refl
  passes-meets (field k v filters) fs = rw (passes-meets filters fs) refl

  -- what a query asks for
  abbrev pub wanted : Entity → Bool
  wanted e =
      (e.peer_did == peer)
      && (((q.type == "") || (e.type == q.type))
          && ((q.include_archived || not (is_some e.archived_at))
              && meets q.filters (or_empty e.fields)))

  selects-wanted : (r : EntityRow) → selects sqlite peer q r ≡ wanted (row_entity r)
  selects-wanted r = rw (is_some-map r.archived_at, passes-meets q.filters r.fields) refl

  filter-row_entity :
      (rows : List EntityRow)
      → filter wanted (map row_entity rows) ≡ map row_entity (filter (selects sqlite peer q) rows)
  unfolding filter
  filter-row_entity [] = refl
  filter-row_entity (r ∷ rows) = elim (Bool-cases (wanted (row_entity r))) [
    | inl e ↦ rw (selects-wanted r, e) (ap (◌∷◌ (row_entity r)) (filter-row_entity rows))
    | inr e ↦ rw (selects-wanted r, e) (filter-row_entity rows)
  ]

  module _ (db : Db) where
    abbrev chosen : List EntityRow
    chosen = filter (selects sqlite peer q) db.entities

    abbrev answer : List EntityRow
    answer = take (limit_or 50 q.limit) (sort newest_first chosen)

    query_entities-map : query_entities sqlite peer q db ≡ ok (map row_entity answer)
    unfolding query_entities
    query_entities-map = traverse-map scan_entity row_entity answer scan_entity-row_entity

    -- A query never fails, returns no more entities than its limit (50 where none is given), and
    -- each of them is the peer's, of the type that is asked for, not archived unless archived ones
    -- are asked for, and passes every filter.
    pub query_entities_sound :
        (es : List Entity) × (query_entities sqlite peer q db ≡ ok es)
        × (length es ≤ limit_or 50 q.limit)
        × All Answers es
    query_entities_sound = (
      map row_entity answer,
      query_entities-map,
      rw (length-map row_entity answer) (length-take-le _ _),
      All-map Answers row_entity answer (
          All-take (λ r. Answers (row_entity r)) _ (sort newest_first chosen)
            (All-sort newest_first (λ r. Answers (row_entity r)) chosen
              (All-mono (λ r. selects sqlite peer q r ≡ true) (λ r. Answers (row_entity r)) chosen
                Answers-row (All-filter (selects sqlite peer q) db.entities)))),
    )

    -- Where the limit leaves room, the answer is the peer's entities of the type that is asked for, if
    -- one is, that are not archived unless archived ones are asked for and that meet every filter, each
    -- as often as it is there, in the order of the texts of the creation times and then of the ids, the
    -- last first.
    pub query_entities_complete :
        length (filter wanted (map row_entity db.entities)) ≤ limit_or 50 q.limit
        → (rows : List EntityRow) × (query_entities sqlite peer q db ≡ ok (map row_entity rows))
          × Pairwise IsBefore rows
          × Perm (map row_entity rows) (filter wanted (map row_entity db.entities))
    query_entities_complete room =
        let same = filter-row_entity db.entities in
        let few : length chosen ≤ limit_or 50 q.limit =
          subst (λ n. n ≤ limit_or 50 q.limit) (ap length same ∙ length-map row_entity chosen)
            room in
        let all_rows : Perm answer chosen =
          rw
            (take_of_length-le (limit_or 50 q.limit) (sort newest_first chosen)
              (rw (length-sort newest_first chosen) few))
            (sort-perm newest_first chosen) in
        (
          answer,
          query_entities-map,
          Sorted-IsBefore answer (take-Sorted newest_first _ _ (sort-Sorted newest_first chosen)),
          subst (Perm (map row_entity answer)) (sym same) (Perm.map row_entity all_rows),
        )
