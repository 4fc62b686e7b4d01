-- ===== src/Peer/Registry/Links/Moves.antt =====
-- The two maps of internal/peer/registry.go under `Rename`.
use coggo.Prelude.{
  String, ◌≡◌, ◌∙◌, sym, ap, subst, true, false, none, some, List, inl, inr, arith, ◌==◌, eq_iff,
  Bool-cases, if◌then◌else◌, eqb, Dict, lookup, insert, delete, lookup-insert, lookup-delete,
}
use coggo.Types.{Peer}
use coggo.Peer.Registry.{Pointer, Registry, load, store}
use coggo.Peer.Registry.Links.{Link, IsLinked, load-store}

pub lookup-moved :
    (i : Pointer) (old_name new_name n : String) (m : Dict Pointer)
    → lookup n (insert new_name i (delete old_name m))
      ≡ (if new_name == n then some i else if old_name == n then none else lookup n m)
lookup-moved i old_name new_name n m =
    rw (lookup-insert new_name n i (delete old_name m), lookup-delete old_name n m)

pub one_cell :
    (cells : List Peer) (i j : Pointer) (p q : Peer)
    → eqb i j ≡ true
    → load cells i ≡ some p
    → load cells j ≡ some q
    → (i ≡ j) × (q ≡ p)
one_cell cells i j p q e at at_j =
    let here : i ≡ j = ground (arith, e) in
    (here, ground (arith, subst (λ c. load cells c ≡ some p) here at, at_j))

pub moved-named :
    (i : Pointer) (p : Peer) (new_name : String) (r : Registry)
    → IsLinked r
    → lookup p.name r.by_name ≡ some i
    → load r.cells i ≡ some p
    → lookup p.did r.by_did ≡ some i
    → Link
        (λ q. q.name)
        (λ q. q.did)
        (store r.cells i (record p { name = new_name }))
        (insert new_name i (delete p.name r.by_name))
        r.by_did
moved-named i p new_name r l named at known n j h = elim (Bool-cases (new_name == n)) [
  | inl e ↦
      let here : i ≡ j = ground (arith, lookup-moved i p.name new_name n r.by_name, e, h) in
      (
        record p { name = new_name },
        load-store r.cells (record p { name = new_name }) p i j at ∙ ground (arith, here),
        ((eq_iff new_name n).0 e, subst (λ c. lookup p.did r.by_did ≡ some c) here known),
      )
  | inr e ↦
      let old : (p.name == n) ≡ false =
        ground (arith, lookup-moved i p.name new_name n r.by_name, e, h) in
      let (q, at_j, (keyed, back)) =
        l.named n j (ground (arith, lookup-moved i p.name new_name n r.by_name, e, h, old)) in
      elim (Bool-cases (eqb i j)) [
        | inl same ↦ absurd (
            ground (
              arith,
              old,
              eq_iff p.name n,
              sym (ap (λ (w : Peer). w.name) (one_cell r.cells i j p q same at at_j).1) ∙ keyed,
            ))
        | inr other ↦ (
          q,
          load-store r.cells (record p { name = new_name }) p i j at ∙ rw other at_j,
          (keyed, back),
        )
      ]
]

-- a key that leads nowhere is not one that leads somewhere
pub apart :
    (m : Dict Pointer) (k n : String) (j : Pointer)
    → lookup k m ≡ none
    → lookup n m ≡ some j
    → (k == n) ≡ false
apart m k n j free at = elim (Bool-cases (k == n)) [
  | inl e ↦ absurd (ground (arith, subst (λ o. lookup o m ≡ none) ((eq_iff k n).0 e) free, at))
  | inr e ↦ e
]

-- keys that lead to different cells are different
elsewhere :
    (m : Dict Pointer) (k n : String) (i j : Pointer)
    → lookup k m ≡ some i
    → lookup n m ≡ some j
    → eqb i j ≡ false
    → (k == n) ≡ false
elsewhere m k n i j here there e = elim (Bool-cases (k == n)) [
  | inl same ↦
      absurd (ground (arith, e, subst (λ o. lookup o m ≡ some i) ((eq_iff k n).0 same) here, there))
  | inr other ↦ other
]

pub moved-known :
    (i : Pointer) (p : Peer) (new_name : String) (r : Registry)
    → IsLinked r
    → lookup p.name r.by_name ≡ some i
    → lookup new_name r.by_name ≡ none
    → load r.cells i ≡ some p
    → Link
        (λ q. q.did)
        (λ q. q.name)
        (store r.cells i (record p { name = new_name }))
        r.by_did
        (insert new_name i (delete p.name r.by_name))
moved-known i p new_name r l named free at d j h =
    let (q, at_j, (keyed, back)) = l.known d j h in
    elim (Bool-cases (eqb i j)) [
      | inl e ↦
          let (here, same) = one_cell r.cells i j p q e at at_j in
          (
            record p { name = new_name },
            load-store r.cells (record p { name = new_name }) p i j at ∙ rw e,
            (
              sym (ap (λ (w : Peer). w.did) same) ∙ keyed,
              lookup-moved i p.name new_name new_name r.by_name
                  ∙ ground (arith, here, eq_iff new_name new_name),
            ),
          )
      | inr e ↦ (
        q,
        load-store r.cells (record p { name = new_name }) p i j at ∙ rw e at_j,
        (
          keyed,
          lookup-moved i p.name new_name q.name r.by_name
              ∙ ground (
                arith,
                e,
                back,
                apart r.by_name new_name q.name j free back,
                elsewhere r.by_name p.name q.name i j named back e,
              ),
        ),
      )
    ]
