-- ===== src/Store/Entities/Isolation.antt =====
-- The entities of one peer under the writes of another, in internal/store/sqlite.go.
use mathlib.Core.Option
use coggo.Prelude.{
  subst, String, ◌≡◌, refl, ◌∙◌, sym, ap, false, ◌||◌, none, some, List, [], ◌∷◌, inl, inr, arith,
  ◌==◌, eq_iff, any, find, find-holds, Bool-cases, if◌then◌else◌,
}
use coggo.Prelude.Distinct.{Lacks, Distinct}
use coggo.Prelude.Result.{ok}
use coggo.Types.{Time, is_zero, Entity}
use coggo.Store.Rows.{Db, EntityRow}
use coggo.Store.Entities.{archive_entity, is_entity, get_entity}
use coggo.Store.Entities.Read.{row_entity, get_entity-find, get_entity-some}
use coggo.Store.Entities.Laws.{find-map_archive}

-- `ArchiveEntity` changes no entity of another peer, whether it succeeds or not.
pub archive_entity-others :
    (now : Time) (peer id : String) (at : Time) (db : Db) (p i : String)
    → (p == peer) ≡ false
    → get_entity p i (archive_entity now peer id at db).1 ≡ get_entity p i db
unfolding archive_entity
archive_entity-others now peer id at db p i other = elim (Bool-cases ((peer == "") || (id == ""))) [
  | inl bare ↦ rw bare
  | inr named ↦ elim (Bool-cases (any (is_entity peer id) db.entities)) [
    | inr missing ↦ rw (named, missing)
    | inl there ↦
        rw (named, there)
          (find-map_archive peer id (if is_zero at then now else at) db p i
              (find (is_entity p i) db.entities) refl
            ∙ rw other (sym (get_entity-find p i db)))
  ]
]

-- a search for an id that no row has
find-Lacks :
    (p id : String) (rows : List EntityRow)
    → Lacks (λ (r : EntityRow). r.id) id rows
    → find (is_entity p id) rows ≡ none
unfolding find
find-Lacks p id [] l = refl
find-Lacks p id (r ∷ rows) l = ground (arith, l.0, find-Lacks p id rows l.1)

found_alone :
    (peer p id : String) (rows : List EntityRow) (r : EntityRow)
    → Distinct (λ (s : EntityRow). s.id) rows
    → (p == peer) ≡ false
    → find (is_entity peer id) rows ≡ some r
    → find (is_entity p id) rows ≡ none
unfolding find
found_alone peer p id [] r d other f = refl
found_alone peer p id (s ∷ rows) r d other f = elim (Bool-cases (s.id == id)) [
  | inr e ↦ ground (arith, e, f, found_alone peer p id rows r d.1 other)
  | inl e ↦
      let l : Lacks (λ (u : EntityRow). u.id) id rows =
        subst (λ k. Lacks (λ (u : EntityRow). u.id) k rows) ((eq_iff s.id id).0 e) d.0 in
      ground (
        arith,
        e,
        f,
        other,
        eq_iff s.peer_did p,
        eq_iff s.peer_did peer,
        eq_iff p peer,
        find-Lacks p id rows l,
        find-Lacks peer id rows l,
      )
]

pub get_entity-key :
    (peer id : String) (db : Db) (e : Entity)
    → get_entity peer id db ≡ ok (some e)
    → (e.peer_did ≡ peer) × (e.id ≡ id)
get_entity-key peer id db e there =
    let (r, found, same, met) = get_entity-some peer id db e there in
    let held = find-holds (is_entity peer id) db.entities r found in
    (
      sym (ap (λ (x : Entity). x.peer_did) same) ∙ ground (arith, held, eq_iff r.peer_did peer),
      sym (ap (λ (x : Entity). x.id) same) ∙ ground (arith, held, eq_iff r.id id),
    )

-- Where the ids are all different, an entity that one peer reads is no other peer's.
pub get_entity-others :
    (peer id p : String) (db : Db) (e : Entity)
    → Distinct (λ (r : EntityRow). r.id) db.entities
    → (p == peer) ≡ false
    → get_entity peer id db ≡ ok (some e)
    → (e.peer_did ≡ peer) × ((e.id ≡ id) × (get_entity p id db ≡ ok none))
get_entity-others peer id p db e d other there =
    let (owner, key) = get_entity-key peer id db e there in
    let (r, found, same, met) = get_entity-some peer id db e there in
    (
      owner,
      (
        key,
        get_entity-find p id db
            ∙ ap (λ o. ok (Option.map row_entity o))
                (found_alone peer p id db.entities r d other found),
      ),
    )
