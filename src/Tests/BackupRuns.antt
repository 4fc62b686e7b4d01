-- ===== src/Tests/BackupRuns.antt =====
-- Runs of internal/cli/backup.go.
use Prim.Native.String.{◌++◌}
use coggo.Prelude.{
  ℕ, String, ◌≡◌, refl, inl, Bool, true, false, some, List, [], ◌∷◌, length, lookup, insert, delete,
}
use coggo.Prelude.Files.{file, Files, owner_only, world_readable}
use coggo.Prelude.Result.{ok}
use coggo.Cli.Backup.{
  IdentityExportResult, Faults, copy_identity_file, export_identity_backup, import_identity_backup,
}
use coggo.Cli.Backup.Laws.{Outcome, copy_identity_file-Outcome}
use coggo.Cli.Backup.RoundTrip.{IsReady, import-export}
use coggo.Cli.Backup.Succeeds.{no_faults}

-- a full disk in the middle of the copy
abbrev disk_full : Faults (List ℕ)
disk_full = record no_faults { copy = some (91 ∷ []) }

abbrev made : String → Files (List ℕ) → Bool × Files (List ℕ)
made path fs = (true, fs)

abbrev under : String → String → String
under dir name = dir ++ "/" ++ name

abbrev identities : List ℕ
identities = 91 ∷ 93 ∷ []

abbrev home : Files (List ℕ)
home =
    ("data/peers.json", file world_readable identities) ∷ ("old.json", file world_readable []) ∷ []

abbrev saved : Files (List ℕ)
saved =
    ("data/peers.json", file world_readable identities)
    ∷ ("old.json", file world_readable [])
    ∷ ("b.json", file owner_only identities)
    ∷ []

copy_identity_file-Outcome_example :
    Outcome length made ".tmp" disk_full "data/peers.json" "old.json" true home (
      copy_identity_file length made ".tmp" disk_full [] "data/peers.json" "old.json" true "x" home)
unfolding lookup
copy_identity_file-Outcome_example =
    copy_identity_file-Outcome length made ".tmp" disk_full "data/peers.json" "old.json" true home
      "x" [] refl refl refl (λ p e h. h)

abbrev told : String → String → IdentityExportResult
told from to = record { source = from; destination = to; bytes = 2 }

exported :
    export_identity_backup length made ".tmp" no_faults under [] "data" "b.json" false home
    ≡ (ok (told "data/peers.json" "b.json"), saved)
unfolding export_identity_backup copy_identity_file lookup insert delete
exported = refl

imported :
    import_identity_backup length made ".tmp" no_faults under [] "new" "b.json" false saved ≡ (
      ok (told "b.json" "new/peers.json"),
      insert "new/peers.json" (file owner_only identities) saved,
    )
unfolding import_identity_backup copy_identity_file lookup insert delete
imported = refl

home-read : lookup "data/peers.json" home ≡ some (file world_readable identities)
unfolding lookup
home-read = refl

home-IsReady : IsReady made ".tmp" "b.json" false home
unfolding lookup
home-IsReady = record {
  writable = inl refl;
  apart = refl;
  free = refl;
  made = refl;
  still_free = refl;
  kept = λ p e h. h;
}

saved-IsReady :
    IsReady made ".tmp" "new/peers.json" false
      (export_identity_backup length made ".tmp" no_faults under [] "data" "b.json" false home).1
unfolding lookup
saved-IsReady = rw exported (record {
  writable = inl refl;
  apart = refl;
  free = refl;
  made = refl;
  still_free = refl;
  kept = λ p e h. h;
})

import-export_example :
    ((export_identity_backup length made ".tmp" no_faults under [] "data" "b.json" false home).0
      ≡ ok (told "data/peers.json" "b.json"))
    × ((import_identity_backup length made ".tmp" no_faults under [] "new" "b.json" false
          (export_identity_backup length made ".tmp" no_faults under [] "data" "b.json" false
            home).1).0
        ≡ ok (told "b.json" "new/peers.json"))
    × (lookup "new/peers.json"
          (import_identity_backup length made ".tmp" no_faults under [] "new" "b.json" false
            (export_identity_backup length made ".tmp" no_faults under [] "data" "b.json" false
              home).1).1
        ≡ some (file owner_only identities))
import-export_example =
    import-export length [] under made ".tmp" "data" "b.json" false home world_readable identities
      refl refl made ".tmp" "new" false home-read home-IsReady saved-IsReady
