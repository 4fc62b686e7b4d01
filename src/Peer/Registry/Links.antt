-- ===== src/Peer/Registry/Links.antt =====
-- The pointers that the two maps of internal/peer/registry.go share.
pub mod Moves
pub mod Operations
pub mod Loaded
use coggo.Prelude.{
  zero, suc, String, ◌≡◌, refl, ◌∙◌, sym, ap, subst, Bool, true, false, none, some, List, [], ◌∷◌,
  ◌++◌, inl, inr, arith, ◌==◌, eq_iff, length, Bool-cases, if◌then◌else◌, eqb, Dict, lookup, insert,
  delete, lookup-insert, lookup-delete,
}
use coggo.Types.{Peer}
use coggo.Peer.Registry.{Pointer, Registry, load, store, flush_locked, enter}

-- Each key of a map leads to a peer that has it, and that the other map knows by its other key.
abbrev pub Link :
    (Peer → String) → (Peer → String) → List Peer → Dict Pointer → Dict Pointer → Type 0
Link key other cells m m' =
    (k : String) (i : Pointer)
    → lookup k m ≡ some i
    → (p : Peer) × (load cells i ≡ some p) × ((key p ≡ k) × (lookup (other p) m' ≡ some i))

-- A name leads to a peer of that name that its DID leads to as well, and the other way round.
pub record IsLinked (r : Registry) : Type 0 where
  pub named : Link (λ p. p.name) (λ p. p.did) r.cells r.by_name r.by_did
  pub known : Link (λ p. p.did) (λ p. p.name) r.cells r.by_did r.by_name

pub load-append-old :
    (ps : List Peer) (q p : Peer) (i : Pointer)
    → load ps i ≡ some p
    → load (ps ++ q ∷ []) i ≡ some p
unfolding load
load-append-old [] q p i h = absurd (ground arith)
load-append-old (x ∷ ps) q p zero h = h
load-append-old (x ∷ ps) q p (suc i) h = load-append-old ps q p i h

load-append-new : (ps : List Peer) (q : Peer) → load (ps ++ q ∷ []) (length ps) ≡ some q
unfolding load
load-append-new [] q = refl
load-append-new (x ∷ ps) q = load-append-new ps q

pub load-store :
    (ps : List Peer) (v p : Peer) (i j : Pointer)
    → load ps i ≡ some p
    → load (store ps i v) j ≡ (if eqb i j then some v else load ps j)
unfolding load store
load-store [] v p i j h = absurd (ground arith)
load-store (x ∷ ps) v p zero zero h = refl
load-store (x ∷ ps) v p zero (suc j) h = ground arith
load-store (x ∷ ps) v p (suc i) zero h = ground arith
load-store (x ∷ ps) v p (suc i) (suc j) h = ground (arith, load-store ps v p i j h)

entered :
    (key other : Peer → String) (p : Peer) (cells : List Peer) (m m' : Dict Pointer)
    → Link key other cells m m'
    → lookup (other p) m' ≡ none
    → Link key other
        (cells ++ p ∷ [])
        (insert (key p) (length cells) m)
        (insert (other p) (length cells) m')
entered key other p cells m m' l new k i h = elim (Bool-cases (key p == k)) [
  | inl e ↦
      let here : length cells ≡ i =
        ground (arith, lookup-insert (key p) k (length cells) m, e, h) in
      (
        p,
        subst (λ j. load (cells ++ p ∷ []) j ≡ some p) here (load-append-new cells p),
        (
          (eq_iff (key p) k).0 e,
          ground (
            arith,
            lookup-insert (other p) (other p) (length cells) m',
            eq_iff (other p) (other p),
            here,
          ),
        ),
      )
  | inr e ↦
      let (q, at, (keyed, back)) =
        l k i (ground (arith, lookup-insert (key p) k (length cells) m, e, h)) in
      (
        q,
        load-append-old cells p q i at,
        (
          keyed,
          ground (
            arith,
            lookup-insert (other p) (other q) (length cells) m',
            eq_iff (other p) (other q),
            new,
            back,
          ),
        ),
      )
]

pub enter-IsLinked :
    (p : Peer) (r : Registry)
    → IsLinked r
    → lookup p.name r.by_name ≡ none
    → lookup p.did r.by_did ≡ none
    → IsLinked (enter p r)
enter-IsLinked p r l name did = record {
  named = entered (λ q. q.name) (λ q. q.did) p r.cells r.by_name r.by_did l.named did;
  known = entered (λ q. q.did) (λ q. q.name) p r.cells r.by_did r.by_name l.known name;
}

-- A write to a cell that keeps both of its keys keeps the links of a map.
pub kept :
    (key other : Peer → String) (p v : Peer) (c : Pointer) (cells : List Peer) (m m' : Dict Pointer)
    → Link key other cells m m'
    → load cells c ≡ some p
    → (key v ≡ key p) × (other v ≡ other p)
    → Link key other (store cells c v) m m'
kept key other p v c cells m m' l at (same_key, same_other) k i h =
    let (q, at_i, (keyed, back)) = l k i h in
    elim (Bool-cases (eqb c i)) [
      | inl e ↦
          let here : c ≡ i = ground (arith, e) in
          let same : q ≡ p = ground (arith, subst (λ j. load cells j ≡ some p) here at, at_i) in
          (
            v,
            load-store cells v p c i at ∙ rw e,
            (
              same_key ∙ sym (ap key same) ∙ keyed,
              subst (λ o. lookup o m' ≡ some i) (sym (same_other ∙ sym (ap other same))) back,
            ),
          )
      | inr e ↦ (q, load-store cells v p c i at ∙ rw e at_i, (keyed, back))
    ]

pub flush_locked-IsLinked :
    (flushed : Bool) (r : Registry) → IsLinked r → IsLinked (flush_locked flushed r)
flush_locked-IsLinked true r l = record { named = l.named; known = l.known }
flush_locked-IsLinked false r l = l
