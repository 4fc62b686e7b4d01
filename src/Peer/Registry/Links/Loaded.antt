-- ===== src/Peer/Registry/Links/Loaded.antt =====
-- The pointers of internal/peer/registry.go after `Open`.
use coggo.Prelude.{
  String, ◌≡◌, refl, ◌∙◌, none, List, [], ◌∷◌, All, arith, eq_iff, length, Dict, lookup, insert,
  lookup-insert,
}
use coggo.Prelude.Distinct.{Distinct, Lacks}
use coggo.Types.{Peer}
use coggo.Peer.Registry.{Pointer, Registry, empty_registry, enter, load_all, reopen}
use coggo.Peer.Registry.Links.{IsLinked, enter-IsLinked}

-- A key that a map lacks, and that the new key is not, it lacks afterwards too.
insert-missing :
    (key : Peer → String) (p : Peer) (i : Pointer) (m : Dict Pointer) (ps : List Peer)
    → Lacks key (key p) ps
    → All (λ q. lookup (key q) m ≡ none) ps
    → All (λ q. lookup (key q) (insert (key p) i m) ≡ none) ps
insert-missing key p i m [] l h = tt
insert-missing key p i m (q ∷ ps) l h = (
  lookup-insert (key p) (key q) i m
      ∙ ground (arith, l.0, h.0, eq_iff (key p) (key q), eq_iff (key q) (key p)),
  insert-missing key p i m ps l.1 h.1,
)

load_all-IsLinked :
    (ps : List Peer) (r : Registry)
    → IsLinked r
    → Distinct (λ (p : Peer). p.name) ps
    → Distinct (λ (p : Peer). p.did) ps
    → All (λ p. lookup p.name r.by_name ≡ none) ps
    → All (λ p. lookup p.did r.by_did ≡ none) ps
    → IsLinked (load_all ps r)
unfolding load_all
load_all-IsLinked [] r l n d free_names free_dids = l
load_all-IsLinked (p ∷ ps) r l n d free_names free_dids =
    load_all-IsLinked ps (enter p r) (enter-IsLinked p r l free_names.0 free_dids.0) n.1 d.1
      (insert-missing (λ q. q.name) p (length r.cells) r.by_name ps n.0 free_names.1)
      (insert-missing (λ q. q.did) p (length r.cells) r.by_did ps d.0 free_dids.1)

all_missing :
    (key : Peer → String) (ps : List Peer) → All (λ q. lookup {V = Pointer} (key q) [] ≡ none) ps
unfolding lookup
all_missing key [] = tt
all_missing key (q ∷ ps) = (refl, all_missing key ps)

pub nothing-IsLinked : (disk : List Peer) → IsLinked (record empty_registry { disk = disk })
unfolding lookup
nothing-IsLinked disk = record {
  named = λ k i h. absurd (ground arith);
  known = λ k i h. absurd (ground arith);
}

pub reopen-IsLinked :
    (r : Registry)
    → Distinct (λ (p : Peer). p.name) r.disk
    → Distinct (λ (p : Peer). p.did) r.disk
    → IsLinked (reopen r)
unfolding reopen
reopen-IsLinked r n d =
    load_all-IsLinked r.disk (record empty_registry { disk = r.disk }) (nothing-IsLinked r.disk) n d
      (all_missing (λ p. p.name) r.disk) (all_missing (λ p. p.did) r.disk)
