-- ===== src/Peer/Registry/Links/Operations.antt =====
-- The pointers of internal/peer/registry.go through `Add`, `Rename` and `UpdateSettings`.
use coggo.Prelude.{
  String, ◌≡◌, refl, sym, ap, subst, ◌⊎◌, Bool, true, ◌||◌, is_some, none, some, List, inl, inr,
  arith, Option-cases, lookup,
}
use coggo.Types.{Time, Peer, PeerSettings}
use coggo.Peer.Registry.{
  Pointer, Registry, load, store, flush_locked, flush_result, dated, enter, add, write_name, moved,
  rename, write_settings, update_settings,
}
use coggo.Peer.Registry.Links.{IsLinked, enter-IsLinked, kept, flush_locked-IsLinked}
use coggo.Peer.Registry.Links.Moves.{moved-named, moved-known}

pub add-entered :
    (now : Time) (flushed : Bool) (p : Peer) (r : Registry)
    → lookup p.name r.by_name ≡ none
    → lookup p.did r.by_did ≡ none
    → add now flushed p r ≡ (flush_result flushed, flush_locked flushed (enter (dated now p) r))
unfolding add
add-entered now flushed p r e f = rw (add, e, f)

add-refused :
    (now : Time) (flushed : Bool) (p : Peer) (r : Registry)
    → (is_some (lookup p.name r.by_name) || is_some (lookup p.did r.by_did)) ≡ true
    → (add now flushed p r).1 ≡ r
unfolding add
add-refused now flushed p r h = elim (Option-cases (lookup p.name r.by_name)) [
  | inr (i, e) ↦ rw (add, e)
  | inl e ↦ elim (Option-cases (lookup p.did r.by_did)) [
    | inr (i, f) ↦ rw (add, e, f)
    | inl f ↦ absurd (ground (arith, e, f, h))
  ]
]

pub add-IsLinked :
    (now : Time) (flushed : Bool) (p : Peer) (r : Registry)
    → IsLinked r
    → IsLinked (add now flushed p r).1
add-IsLinked now flushed p r l = elim (Option-cases (lookup p.name r.by_name)) [
  | inr (i, e) ↦ subst IsLinked (sym (add-refused now flushed p r (rw e))) l
  | inl e ↦ elim (Option-cases (lookup p.did r.by_did)) [
    | inr (i, f) ↦ subst IsLinked (sym (add-refused now flushed p r (rw (e, f)))) l
    | inl f ↦ subst IsLinked (sym (ap (λ x. x.1) (add-entered now flushed p r e f))) (
        flush_locked-IsLinked flushed (enter (dated now p) r)
          (enter-IsLinked (dated now p) r l e f))
  ]
]

-- What `Rename` leaves: the registry as it was, or the peer that the old name led to under its new one.
rename-cases :
    (flushed : Bool) (old_name new_name : String) (r : Registry)
    → ((rename flushed old_name new_name r).1 ≡ r)
      ⊎ ((i : Pointer) × (lookup old_name r.by_name ≡ some i)
          × ((lookup new_name r.by_name ≡ none)
              × (rename flushed old_name new_name r
                  ≡ (flush_result flushed, flush_locked flushed (moved i old_name new_name r)))))
unfolding rename
rename-cases flushed old_name new_name r = elim (Option-cases (lookup old_name r.by_name)) [
  | inl e ↦ inl (rw (rename, e))
  | inr (i, e) ↦ elim (Option-cases (lookup new_name r.by_name)) [
    | inr (j, f) ↦ inl (rw (rename, e, f))
    | inl f ↦ inr (i, e, (f, rw (rename, e, f)))
  ]
]

pub write_name-cell :
    (i : Pointer) (name : String) (cells : List Peer) (p : Peer)
    → load cells i ≡ some p
    → write_name i name cells ≡ store cells i (record p { name = name })
write_name-cell i name cells p at = rw (write_name, at)

write_settings-cell :
    (i : Pointer) (settings : PeerSettings) (cells : List Peer) (p : Peer)
    → load cells i ≡ some p
    → write_settings i settings cells ≡ store cells i (record p { settings = settings })
write_settings-cell i settings cells p at = rw (write_settings, at)

moved-IsLinked :
    (i : Pointer) (old_name new_name : String) (r : Registry)
    → IsLinked r
    → lookup old_name r.by_name ≡ some i
    → lookup new_name r.by_name ≡ none
    → IsLinked (moved i old_name new_name r)
moved-IsLinked i old_name new_name r l e f =
    let (p, at, (named, known)) = l.named old_name i e in
    let from : lookup p.name r.by_name ≡ some i =
      subst (λ n. lookup n r.by_name ≡ some i) (sym named) e in
    subst (λ n. IsLinked (moved i n new_name r)) named
      (subst (λ c. IsLinked (record (moved i p.name new_name r) { cells = c }))
        (sym (write_name-cell i new_name r.cells p at))
        (record {
          named = moved-named i p new_name r l from at known;
          known = moved-known i p new_name r l from f at;
        }))

pub rename-IsLinked :
    (flushed : Bool) (old_name new_name : String) (r : Registry)
    → IsLinked r
    → IsLinked (rename flushed old_name new_name r).1
rename-IsLinked flushed old_name new_name r l = elim (rename-cases flushed old_name new_name r) [
  | inl e ↦ subst IsLinked (sym e) l
  | inr (i, e, (f, run)) ↦ subst IsLinked (sym (ap (λ x. x.1) run)) (
      flush_locked-IsLinked flushed (moved i old_name new_name r)
        (moved-IsLinked i old_name new_name r l e f))
]

written-IsLinked :
    (i : Pointer) (name : String) (settings : PeerSettings) (r : Registry)
    → IsLinked r
    → lookup name r.by_name ≡ some i
    → IsLinked (record r { cells = write_settings i settings r.cells })
written-IsLinked i name settings r l e =
    let (p, at, (named, known)) = l.named name i e in
    let v : Peer = record p { settings = settings } in
    subst (λ c. IsLinked (record r { cells = c }))
      (sym (write_settings-cell i settings r.cells p at))
      (record {
        named =
            kept (λ q. q.name) (λ q. q.did) p v i r.cells r.by_name r.by_did l.named at
              (refl, refl);
        known =
            kept (λ q. q.did) (λ q. q.name) p v i r.cells r.by_did r.by_name l.known at
              (refl, refl);
      })

update_settings-cases :
    (flushed : Bool) (name : String) (settings : PeerSettings) (r : Registry)
    → ((update_settings flushed name settings r).1 ≡ r)
      ⊎ ((i : Pointer) × (lookup name r.by_name ≡ some i)
          × (update_settings flushed name settings r ≡ (
            flush_result flushed,
            flush_locked flushed (record r { cells = write_settings i settings r.cells }),
          )))
unfolding update_settings
update_settings-cases flushed name settings r = elim (Option-cases (lookup name r.by_name)) [
  | inl e ↦ inl (rw (update_settings, e))
  | inr (i, e) ↦ inr (i, e, rw (update_settings, e))
]

pub update_settings-IsLinked :
    (flushed : Bool) (name : String) (settings : PeerSettings) (r : Registry)
    → IsLinked r
    → IsLinked (update_settings flushed name settings r).1
update_settings-IsLinked flushed name settings r l =
    elim (update_settings-cases flushed name settings r) [
      | inl e ↦ subst IsLinked (sym e) l
      | inr (i, e, run) ↦ subst IsLinked (sym (ap (λ x. x.1) run)) (
          flush_locked-IsLinked flushed (record r { cells = write_settings i settings r.cells })
            (written-IsLinked i name settings r l e))
    ]
