-- ===== src/Peer/Registry/Added.antt =====
-- internal/peer/registry.go: what a name leads to after `Add`.
use coggo.Prelude.{
  String, ◌==◌, ◌≡◌, refl, ◌∙◌, sym, ap, subst, Bool, true, false, none, some, List, [], ◌∷◌, ◌++◌,
  length, lookup, insert, lookup-insert, eq_refl, eq_iff, arith, Option-cases, inl, inr,
}
use coggo.Prelude.Result.{Result, ok}
use coggo.Types.{Time, Peer}
use coggo.Peer.Registry.{Registry, load, deref, by_name_of, add, enter, dated, flush_locked}
use coggo.Peer.Registry.Links.{load-append-old}
use coggo.Peer.Registry.Links.Operations.{add-entered}

load-length : (ps : List Peer) (p : Peer) → load (ps ++ p ∷ []) (length ps) ≡ some p
unfolding load
load-length [] p = refl
load-length (x ∷ ps) p = load-length ps p

flushed-by_name :
    (flushed : Bool) (name : String) (r : Registry)
    → by_name_of name (flush_locked flushed r) ≡ by_name_of name r
unfolding by_name_of
flushed-by_name true name r = refl
flushed-by_name false name r = refl

enter-by_name : (p : Peer) (r : Registry) → by_name_of p.name (enter p r) ≡ some p
unfolding by_name_of
enter-by_name p r =
    let found : lookup p.name (insert p.name (length r.cells) r.by_name) ≡ some (length r.cells) =
      lookup-insert p.name p.name (length r.cells) r.by_name ∙ rw (eq_refl p.name) refl in
    ap (deref (enter p r)) found ∙ load-length r.cells p

enter-by_name_other :
    (q p : Peer) (name : String) (r : Registry)
    → lookup q.name r.by_name ≡ none
    → by_name_of name r ≡ some p
    → by_name_of name (enter q r) ≡ some p
unfolding by_name_of
enter-by_name_other q p name r fresh there = elim (Option-cases (lookup name r.by_name)) [
  | inl e ↦ absurd (ground (arith, e))
  | inr (i, e) ↦
      let apart : (q.name == name) ≡ false = ground (arith, e, fresh, eq_iff q.name name) in
      let same : lookup name (insert q.name (length r.cells) r.by_name) ≡ some i =
        lookup-insert q.name name (length r.cells) r.by_name ∙ rw apart e in
      ap (deref (enter q r)) same ∙ load-append-old r.cells q p i (ground (arith, e))
]

-- After an `Add` that succeeds, the peer's name leads to the peer.
pub add-by_name :
    (now : Time) (flushed : Bool) (p : Peer) (r r' : Registry)
    → add now flushed p r ≡ (ok tt, r')
    → by_name_of p.name r' ≡ some (dated now p)
unfolding add
add-by_name now flushed p r r' h = elim (Option-cases (lookup p.name r.by_name)) [
  | inr (i, e) ↦ absurd (ground (arith, e))
  | inl e ↦ elim (Option-cases (lookup p.did r.by_did)) [
    | inr (i, f) ↦ absurd (ground (arith, e, f))
    | inl f ↦
        let last : flush_locked flushed (enter (dated now p) r) ≡ r' =
          ap (λ (x : Result (Unit {0}) × Registry). x.1)
            (sym (add-entered now flushed p r e f) ∙ h) in
        subst (λ z. by_name_of p.name z ≡ some (dated now p)) last
          (flushed-by_name flushed p.name (enter (dated now p) r) ∙ enter-by_name (dated now p) r)
  ]
]

-- A name that another peer has leads to that peer after an `Add` that succeeds.
pub add-by_name_other :
    (now : Time) (flushed : Bool) (q p : Peer) (name : String) (r r' : Registry)
    → add now flushed q r ≡ (ok tt, r')
    → by_name_of name r ≡ some p
    → by_name_of name r' ≡ some p
unfolding add
add-by_name_other now flushed q p name r r' h there =
    elim (Option-cases (lookup q.name r.by_name)) [
      | inr (i, e) ↦ absurd (ground (arith, e))
      | inl e ↦ elim (Option-cases (lookup q.did r.by_did)) [
        | inr (i, f) ↦ absurd (ground (arith, e, f))
        | inl f ↦
            let last : flush_locked flushed (enter (dated now q) r) ≡ r' =
              ap (λ (x : Result (Unit {0}) × Registry). x.1)
                (sym (add-entered now flushed q r e f) ∙ h) in
            subst (λ z. by_name_of name z ≡ some p) last
              (flushed-by_name flushed name (enter (dated now q) r)
                ∙ enter-by_name_other (dated now q) p name r e there)
      ]
    ]
