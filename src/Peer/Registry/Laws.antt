-- ===== src/Peer/Registry/Laws.antt =====
-- What a reader of internal/peer/registry.go sees after `Rename`.
use coggo.Prelude.{
  String, ◌≡◌, refl, ◌∙◌, sym, ap, subst, Bool, true, false, none, some, inl, inr, arith, ◌==◌,
  eq_iff, Bool-cases, Option-cases, if◌then◌else◌, eqb, lookup,
}
use coggo.Types.{Peer}
use coggo.Peer.Registry.{
  Pointer, Registry, load, deref, by_name_of, by_did_of, flush_locked, moved, rename, flush_result,
}
use coggo.Peer.Registry.Links.{IsLinked, load-store}
use coggo.Peer.Registry.Links.Moves.{lookup-moved, one_cell}
use coggo.Peer.Registry.Links.Operations.{write_name-cell}
use coggo.Peer.Registry.Reached.{Reached, Reached-IsLinked, deref_of}

by_name_of-cell :
    (name : String) (p : Peer) (r : Registry)
    → by_name_of name r ≡ some p
    → (i : Pointer) × (lookup name r.by_name ≡ some i) × (load r.cells i ≡ some p)
unfolding by_name_of
by_name_of-cell name p r h = elim (Option-cases (lookup name r.by_name)) [
  | inl e ↦ absurd (ground (arith, e, h))
  | inr (i, e) ↦ (i, e, sym (ap (deref r) e) ∙ h)
]

by_name_of-missing :
    (name : String) (r : Registry)
    → IsLinked r
    → by_name_of name r ≡ none
    → lookup name r.by_name ≡ none
unfolding by_name_of
by_name_of-missing name r l h = elim (Option-cases (lookup name r.by_name)) [
  | inl e ↦ e
  | inr (i, e) ↦
      let (q, at, keys) = l.named name i e in
      absurd (ground (arith, sym (deref_of r (lookup name r.by_name) i q e at) ∙ h))
]

-- The write that a rename does, with the peer it is done to.
renamed_run :
    (flushed : Bool) (old_name new_name : String) (i : Pointer) (r : Registry)
    → lookup old_name r.by_name ≡ some i
    → lookup new_name r.by_name ≡ none
    → rename flushed old_name new_name r
      ≡ (flush_result flushed, flush_locked flushed (moved i old_name new_name r))
unfolding rename
renamed_run flushed old_name new_name i r e f = rw (rename, e, f)

flushed_name :
    (flushed : Bool) (n : String) (r : Registry)
    → by_name_of n (flush_locked flushed r) ≡ by_name_of n r
unfolding by_name_of
flushed_name true n r = refl
flushed_name false n r = refl

flushed_did :
    (flushed : Bool) (d : String) (r : Registry)
    → by_did_of d (flush_locked flushed r) ≡ by_did_of d r
unfolding by_did_of
flushed_did true d r = refl
flushed_did false d r = refl

-- what a pointer leads to after the write
deref-moved :
    (i j : Pointer) (old_name new_name : String) (p : Peer) (r : Registry)
    → load r.cells i ≡ some p
    → deref (moved i old_name new_name r) (some j)
      ≡ (if eqb i j then some (record p { name = new_name }) else load r.cells j)
deref-moved i j old_name new_name p r at =
    ap (λ c. load c j) (write_name-cell i new_name r.cells p at)
    ∙ load-store r.cells (record p { name = new_name }) p i j at

-- the keys of the peer that a name leads to
own_keys :
    (name : String) (i : Pointer) (p : Peer) (r : Registry)
    → IsLinked r
    → lookup name r.by_name ≡ some i
    → load r.cells i ≡ some p
    → (p.name ≡ name) × (lookup p.did r.by_did ≡ some i)
own_keys name i p r l e at =
    let (q, at_q, keys) = l.named name i e in
    let same : q ≡ p = ground (arith, at, at_q) in
    subst (λ (w : Peer). (w.name ≡ name) × (lookup w.did r.by_did ≡ some i)) same keys

-- another name leads to another cell
other_cell :
    (i j : Pointer) (old_name n : String) (p : Peer) (r : Registry)
    → IsLinked r
    → lookup old_name r.by_name ≡ some i
    → load r.cells i ≡ some p
    → lookup n r.by_name ≡ some j
    → (old_name == n) ≡ false
    → eqb i j ≡ false
other_cell i j old_name n p r l e at f old = elim (Bool-cases (eqb i j)) [
  | inr apart ↦ apart
  | inl same ↦
      let (q, at_j, (named, known)) = l.named n j f in
      let here = (one_cell r.cells i j p q same at at_j).1 in
      absurd (
        ground (
          arith,
          old,
          eq_iff old_name n,
          sym (own_keys old_name i p r l e at).0 ∙ sym (ap (λ (w : Peer). w.name) here) ∙ named,
        ))
]

moved_name :
    (i : Pointer) (old_name new_name n : String) (p : Peer) (r : Registry)
    → IsLinked r
    → lookup old_name r.by_name ≡ some i
    → load r.cells i ≡ some p
    → by_name_of n (moved i old_name new_name r) ≡ (
        if new_name == n
        then some (record p { name = new_name })
        else if old_name == n
        then none
        else by_name_of n r)
unfolding by_name_of
moved_name i old_name new_name n p r l e at =
    ap (deref (moved i old_name new_name r)) (lookup-moved i old_name new_name n r.by_name)
    ∙ elim (Bool-cases (new_name == n)) [
      | inl new ↦ rw new (deref-moved i i old_name new_name p r at ∙ ground arith)
      | inr t ↦ elim (Bool-cases (old_name == n)) [
        | inl old ↦ rw (t, old)
        | inr old ↦ elim (Option-cases (lookup n r.by_name)) [
          | inl f ↦ rw (t, old, f)
          | inr (j, f) ↦
              rw (t, old, f)
                (deref-moved i j old_name new_name p r at
                  ∙ rw (other_cell i j old_name n p r l e at f old))
        ]
      ]
    ]

moved_did :
    (i : Pointer) (old_name new_name d : String) (p : Peer) (r : Registry)
    → IsLinked r
    → lookup old_name r.by_name ≡ some i
    → load r.cells i ≡ some p
    → by_did_of d (moved i old_name new_name r)
      ≡ (if p.did == d then some (record p { name = new_name }) else by_did_of d r)
unfolding by_did_of
moved_did i old_name new_name d p r l e at = elim (Option-cases (lookup d r.by_did)) [
  | inl f ↦ rw (f, unknown f)
  | inr (j, f) ↦
      let (q, at_j, (keyed, named)) = l.known d j f in
      elim (Bool-cases (eqb i j)) [
        | inl same ↦
            let mine : p.did ≡ d =
              sym (ap (λ (w : Peer). w.did) (one_cell r.cells i j p q same at at_j).1) ∙ keyed in
            rw (f, (eq_iff p.did d).1 mine) (deref-moved i j old_name new_name p r at ∙ rw same)
        | inr other ↦ rw (f, theirs j f other) (deref-moved i j old_name new_name p r at ∙ rw other)
      ]
]
  where
    mine : lookup p.did r.by_did ≡ some i
    mine = (own_keys old_name i p r l e at).1

    unknown : lookup d r.by_did ≡ none → (p.did == d) ≡ false
    unknown f = elim (Bool-cases (p.did == d)) [
      | inr t ↦ t
      | inl t ↦
          absurd
            (ground (arith, f, subst (λ k. lookup k r.by_did ≡ some i) ((eq_iff p.did d).0 t) mine))
    ]

    theirs : (j : Pointer) → lookup d r.by_did ≡ some j → eqb i j ≡ false → (p.did == d) ≡ false
    theirs j f other = elim (Bool-cases (p.did == d)) [
      | inr t ↦ t
      | inl t ↦ absurd (
          ground
            (arith, f, other, subst (λ k. lookup k r.by_did ≡ some i) ((eq_iff p.did d).0 t) mine))
    ]

-- In a registry that `Open` of a file in which no name and no DID comes twice, `Add`, `Rename` and
-- `UpdateSettings` lead to: after `Rename` of a peer to a free name, the new name leads to the peer under its new name, the old
-- name to none and every other name to whom it led before; the peer's DID leads to the renamed peer
-- too, and every other DID to whom it led before. A flush that fails changes none of this.
pub rename-seen :
    (flushed : Bool) (old_name new_name n d : String) (p : Peer) {r : Registry}
    → Reached r
    → by_name_of old_name r ≡ some p
    → by_name_of new_name r ≡ none
    → (by_name_of n (rename flushed old_name new_name r).1 ≡ (
        if new_name == n
        then some (record p { name = new_name })
        else if old_name == n
        then none
        else by_name_of n r))
      × (by_did_of d (rename flushed old_name new_name r).1
          ≡ (if p.did == d then some (record p { name = new_name }) else by_did_of d r))
rename-seen flushed old_name new_name n d p {r} reached h free =
    let l = Reached-IsLinked reached in
    let (i, e, at) = by_name_of-cell old_name p r h in
    let run =
      ap (λ x. x.1)
        (renamed_run flushed old_name new_name i r e (by_name_of-missing new_name r l free)) in
    (
      ap (by_name_of n) run
          ∙ flushed_name flushed n (moved i old_name new_name r)
          ∙ moved_name i old_name new_name n p r l e at,
      ap (by_did_of d) run
          ∙ flushed_did flushed d (moved i old_name new_name r)
          ∙ moved_did i old_name new_name d p r l e at,
    )
