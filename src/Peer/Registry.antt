-- ===== src/Peer/Registry.antt =====
-- internal/peer/registry.go. The two maps hold pointers to the same peers, and `Rename` and
-- `UpdateSettings` write through them, so a pointer is an index into `cells`. The file keeps copies;
-- `flushed` says whether the flush in the call succeeds.
pub mod Links
pub mod Reached
pub mod Laws
pub mod Added
use coggo.Prelude.{
  ℕ, zero, suc, String, ◌==◌, Bool, true, false, Option, none, some, List, [], ◌∷◌, ◌++◌, map,
  length, if◌then◌else◌, Dict, lookup, insert, delete,
}
use coggo.Prelude.Order.{by_key, texts}
use coggo.Prelude.Order.Sort.{sort}
use coggo.Prelude.Result.{Result, ok, err, message, about}
use coggo.Types.{Time, is_zero, Peer, PeerSettings}

abbrev pub Pointer : Type 0
Pointer = ℕ

pub record Registry : Type 0 where
  pub cells : List Peer
  pub by_did : Dict Pointer
  pub by_name : Dict Pointer
  pub disk : List Peer

abbrev pub empty_registry : Registry
empty_registry = record { cells = []; by_did = []; by_name = []; disk = [] }

-- `*p`
unfoldable pub load : List Peer → Pointer → Option Peer
load [] i = none
load (p ∷ ps) zero = some p
load (p ∷ ps) (suc i) = load ps i

-- `*p = v`
unfoldable pub store : List Peer → Pointer → Peer → List Peer
store [] i v = []
store (p ∷ ps) zero v = v ∷ ps
store (p ∷ ps) (suc i) v = p ∷ store ps i v

abbrev pub deref : Registry → Option Pointer → Option Peer
deref r none = none
deref r (some i) = load r.cells i

unfoldable pub by_name_of : String → Registry → Option Peer
by_name_of name r = deref r (lookup name r.by_name)

unfoldable pub by_did_of : String → Registry → Option Peer
by_did_of did r = deref r (lookup did r.by_did)

-- the peers that the pointers of a map lead to
unfoldable pub loaded : List Peer → Dict Pointer → List Peer
loaded cells [] = []
loaded cells ((k, i) ∷ m) =
    let rest = loaded cells m in elim (load cells i) [ none ↦ rest | some p ↦ p ∷ rest ]

-- `flushLocked` writes the peers of `byName`.
abbrev pub flush_locked : Bool → Registry → Registry
flush_locked flushed r = if flushed then record r { disk = loaded r.cells r.by_name } else r

abbrev pub flush_result : Bool → Result (Unit {0})
flush_result flushed = if flushed then ok tt else err (message "flush")

abbrev pub dated : Time → Peer → Peer
dated now p = record p { created_at = if is_zero p.created_at then now else p.created_at }

-- the registry with one more peer
abbrev pub enter : Peer → Registry → Registry
enter p r = record r {
  cells = r.cells ++ p ∷ [];
  by_did = insert p.did (length r.cells) r.by_did;
  by_name = insert p.name (length r.cells) r.by_name;
}

unfoldable pub add : Time → Bool → Peer → Registry → Result (Unit {0}) × Registry
add now flushed p r = elim (lookup p.name r.by_name) [
  | some _ ↦ (err (about "peer name already exists" p.name), r)
  | none ↦ elim (lookup p.did r.by_did) [
    | some _ ↦ (err (about "peer DID already exists" p.did), r)
    | none ↦ (flush_result flushed, flush_locked flushed (enter (dated now p) r))
  ]
]

-- `p.Name = name` through the pointer
abbrev pub write_name : Pointer → String → List Peer → List Peer
write_name i name cells = elim (load cells i) [
  | none ↦ cells
  | some p ↦ store cells i (record p { name = name })
]

abbrev pub moved : Pointer → String → String → Registry → Registry
moved i old_name new_name r = record r {
  cells = write_name i new_name r.cells;
  by_name = insert new_name i (delete old_name r.by_name);
}

unfoldable pub rename : Bool → String → String → Registry → Result (Unit {0}) × Registry
rename flushed old_name new_name r = elim (lookup old_name r.by_name) [
  | none ↦ (err (about "no peer named" old_name), r)
  | some i ↦ elim (lookup new_name r.by_name) [
    | some _ ↦ (err (about "peer name already exists" new_name), r)
    | none ↦ (flush_result flushed, flush_locked flushed (moved i old_name new_name r))
  ]
]

abbrev pub write_settings : Pointer → PeerSettings → List Peer → List Peer
write_settings i settings cells = elim (load cells i) [
  | none ↦ cells
  | some p ↦ store cells i (record p { settings = settings })
]

unfoldable pub update_settings :
    Bool → String → PeerSettings → Registry → Result (Unit {0}) × Registry
update_settings flushed name settings r = elim (lookup name r.by_name) [
  | none ↦ (err (about "no peer named" name), r)
  | some i ↦ (
    flush_result flushed,
    flush_locked flushed (record r { cells = write_settings i settings r.cells }),
  )
]

-- `List`, by name
unfoldable pub list_all : Registry → List Peer
list_all r = sort (by_key (λ p. p.name) texts) (loaded r.cells r.by_name)

abbrev resolve_did : String → Option Peer → Result Peer
resolve_did key none = err (about "no peer matches" key)
resolve_did key (some p) = ok p

-- A name goes before a DID.
unfoldable pub resolve : String → Registry → Result Peer
unfolding by_name_of by_did_of
resolve key r = elim (by_name_of key r) [ some p ↦ ok p | none ↦ resolve_did key (by_did_of key r) ]

-- the loop of `Open` over the peers of the file
unfoldable pub load_all : List Peer → Registry → Registry
load_all [] r = r
load_all (p ∷ ps) r = load_all ps (enter p r)

-- `Open` on the file that the registry left
unfoldable pub reopen : Registry → Registry
unfolding load_all
reopen r = load_all r.disk (record empty_registry { disk = r.disk })
