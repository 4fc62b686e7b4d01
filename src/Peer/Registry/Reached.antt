-- ===== src/Peer/Registry/Reached.antt =====
-- The registries that `Add`, `Rename` and `UpdateSettings` of internal/peer/registry.go lead to.
use coggo.Prelude.{
  [], String, ◌≡◌, ◌∙◌, sym, ap, subst, Bool, Option, some, inl, inr, arith, Option-cases, lookup,
}
use coggo.Prelude.Distinct.{Distinct}
use coggo.Peer.Registry.{reopen}
use coggo.Peer.Registry.Links.Loaded.{nothing-IsLinked, reopen-IsLinked}
use coggo.Types.{Time, Peer, PeerSettings}
use coggo.Peer.Registry.{
  Pointer, Registry, empty_registry, load, deref, by_name_of, by_did_of, add, rename,
  update_settings,
}
use coggo.Peer.Registry.Links.{IsLinked}
use coggo.Peer.Registry.Links.Operations.{add-IsLinked, rename-IsLinked, update_settings-IsLinked}

-- a registry that the writes of the program lead to, from a first start without a file or from an
-- `Open` of a file in which no name and no DID comes twice
pub data Reached : Registry → Type 0 where
  start : Reached empty_registry
  opened :
      (r : Registry)
      → Distinct (λ (p : Peer). p.name) r.disk
      → Distinct (λ (p : Peer). p.did) r.disk
      → Reached (reopen r)
  added :
      (now : Time) (flushed : Bool) (p : Peer) {r : Registry}
      → Reached r
      → Reached (add now flushed p r).1
  renamed :
      (flushed : Bool) (old_name new_name : String) {r : Registry}
      → Reached r
      → Reached (rename flushed old_name new_name r).1
  updated :
      (flushed : Bool) (name : String) (settings : PeerSettings) {r : Registry}
      → Reached r
      → Reached (update_settings flushed name settings r).1

-- In each registry that the program reaches, failed flushes included, every name leads to a peer of
-- that name which its DID leads to as well, and every DID to a peer of that DID which its name leads to.
pub Reached-IsLinked : {r : Registry} → Reached r → IsLinked r
Reached-IsLinked start = nothing-IsLinked []
Reached-IsLinked (opened r names dids) = reopen-IsLinked r names dids
Reached-IsLinked (added now flushed p h) = add-IsLinked now flushed p _ (Reached-IsLinked h)
Reached-IsLinked (renamed flushed old_name new_name h) =
    rename-IsLinked flushed old_name new_name _ (Reached-IsLinked h)
Reached-IsLinked (updated flushed name settings h) =
    update_settings-IsLinked flushed name settings _ (Reached-IsLinked h)

pub deref_of :
    (cells : Registry) (o : Option Pointer) (i : Pointer) (p : Peer)
    → o ≡ some i
    → load cells.cells i ≡ some p
    → deref cells o ≡ some p
deref_of r o i p e at = rw (e, at)

-- In each registry that `Open` of a file without doubled names and DIDs, `Add`, `Rename` and
-- `UpdateSettings` lead to, failed flushes included, the peer that a name leads to has that name, and
-- its DID leads to the same peer.
pub by_did_of-by_name_of :
    {r : Registry} (name : String) (p : Peer)
    → Reached r
    → by_name_of name r ≡ some p
    → (p.name ≡ name) × (by_did_of p.did r ≡ some p)
unfolding by_name_of by_did_of
by_did_of-by_name_of {r} name p reached h = elim (Option-cases (lookup name r.by_name)) [
  | inl e ↦ absurd (ground (arith, e, h))
  | inr (i, e) ↦
      let (q, at, (named, known)) = (Reached-IsLinked reached).named name i e in
      let same : q ≡ p = ground (arith, e, at, h) in
      (
        sym (ap (λ (w : Peer). w.name) same) ∙ named,
        subst (λ w. deref r (lookup w.did r.by_did) ≡ some w) same
            (deref_of r (lookup q.did r.by_did) i q known at),
      )
]

-- In each registry that the program reaches, failed flushes included, the peer that a DID leads to has
-- that DID, and its name leads to the same peer.
pub by_name_of-by_did_of :
    {r : Registry} (did : String) (p : Peer)
    → Reached r
    → by_did_of did r ≡ some p
    → (p.did ≡ did) × (by_name_of p.name r ≡ some p)
unfolding by_name_of by_did_of
by_name_of-by_did_of {r} did p reached h = elim (Option-cases (lookup did r.by_did)) [
  | inl e ↦ absurd (ground (arith, e, h))
  | inr (i, e) ↦
      let (q, at, (keyed, named)) = (Reached-IsLinked reached).known did i e in
      let same : q ≡ p = ground (arith, e, at, h) in
      (
        sym (ap (λ (w : Peer). w.did) same) ∙ keyed,
        subst (λ w. deref r (lookup w.name r.by_name) ≡ some w) same
            (deref_of r (lookup q.name r.by_name) i q named at),
      )
]
