-- ===== src/Cli/Backup.antt =====
-- internal/cli/backup.go. A call of the package `os` that can fail for a reason outside of the model
-- fails where `Faults` says so. `os.MkdirAll`, which may make some directories and then fail, and the
-- name that `os.CreateTemp` takes are parameters.
pub mod Laws
pub mod RoundTrip
pub mod Succeeds
use coggo.Prelude.{
  ℕ, String, ◌==◌, Bool, true, false, Option, none, some, eqb, if◌then◌else◌, lookup, insert,
  delete,
}
use coggo.Prelude.Files.{Entry, file, directory, Files, owner_only}
use coggo.Prelude.Result.{Result, ok, err, message, about}

pub record IdentityExportResult : Type 0 where
  pub source : String
  pub destination : String
  pub bytes : ℕ

-- which calls fail; a copy that fails has written a part
pub record Faults (C : Type 0) : Type 0 where
  pub stat_source : Bool
  pub lstat_destination : Bool
  pub open_source : Bool
  pub create_temp : Bool
  pub chmod_temp : Bool
  pub copy : Option C
  pub sync : Bool
  pub close : Bool
  pub chmod_backup : Bool
  pub rename : Bool
  pub remove : Bool

-- `mkdir_all` makes the directory of the path that it is given.
module _ {C : Type 0} (size : C → ℕ) (mkdir_all : String → Files C → Bool × Files C) (tmp : String)
    (f : Faults C) where
  abbrev pub Copied : Type 0
  Copied = Result IdentityExportResult × Files C

  -- the deferred removal of the temporary file, whose error is dropped
  abbrev pub cleaned_up : Files C → Files C
  cleaned_up fs = if f.remove then fs else delete tmp fs

  abbrev pub give_up : String → String → Files C → Copied
  give_up op text fs = (err (about op text), cleaned_up fs)

  abbrev pub found_at : String → Bool → Option (Entry C) → Result (Unit {0})
  found_at op force none = ok tt
  found_at op force (some directory) = err (about op "destination is a directory")
  found_at op force (some (file mode c)) =
      if force
      then ok tt
      else err (about op "destination already exists; pass --force to overwrite")

  abbrev pub ensure_can_write : String → Bool → String → Files C → Result (Unit {0})
  ensure_can_write dest force op fs =
      if f.lstat_destination
      then err (about op "stat destination")
      else found_at op force (lookup dest fs)

  -- The temporary file is closed and holds the whole contents.
  abbrev pub moved_into_place : String → String → String → C → Files C → Copied
  moved_into_place src dest op c fs =
      if f.chmod_backup
      then give_up op "chmod backup" fs
      else if f.rename
      then give_up op "move backup into place" fs
      else (
        ok (record { source = src; destination = dest; bytes = size c }),
        insert dest (file owner_only c) (delete tmp fs),
      )

  abbrev pub after_copy : String → String → String → C → Option C → Files C → Copied
  after_copy src dest op c (some part) fs =
      give_up op "copy peers.json" (insert tmp (file owner_only part) fs)
  after_copy src dest op c none fs =
      let written = insert tmp (file owner_only c) fs in
      if f.sync
      then give_up op "sync temporary file" written
      else if f.close
      then give_up op "close temporary file" written
      else moved_into_place src dest op c written

  abbrev pub copy_open : String → String → String → C → C → Files C → Copied
  copy_open src dest op empty c fs =
      if f.create_temp
      then (err (about op "create temporary file"), fs)
      else if f.chmod_temp
      then give_up op "chmod temporary file" (insert tmp (file owner_only empty) fs)
      else after_copy src dest op c f.copy (insert tmp (file owner_only empty) fs)

  abbrev pub open_source : String → String → String → C → Option (Entry C) → Files C → Copied
  open_source src dest op empty (some (file mode c)) fs =
      if f.open_source then (err (about op "open"), fs) else copy_open src dest op empty c fs
  open_source src dest op empty _ fs = (err (about op "open"), fs)

  abbrev pub with_directory : String → String → String → C → Bool × Files C → Copied
  with_directory src dest op empty (false, fs) = (err (about op "create destination directory"), fs)
  with_directory src dest op empty (true, fs) = open_source src dest op empty (lookup src fs) fs

  abbrev pub when_writable : String → String → String → C → Result (Unit {0}) → Files C → Copied
  when_writable src dest op empty (err e) fs = (err e, fs)
  when_writable src dest op empty (ok u) fs = with_directory src dest op empty (mkdir_all dest fs)

  abbrev pub copy_stat : String → String → Bool → String → C → Option (Entry C) → Files C → Copied
  copy_stat src dest force op empty none fs = (err (about op "does not exist"), fs)
  copy_stat src dest force op empty (some directory) fs = (err (about op "is a directory"), fs)
  copy_stat src dest force op empty (some (file mode c)) fs =
      if eqb (size c) 0
      then (err (about op "is empty"), fs)
      else when_writable src dest op empty (ensure_can_write dest force op fs) fs

  -- `empty` is what a new file holds.
  unfoldable pub copy_identity_file : C → String → String → Bool → String → Files C → Copied
  copy_identity_file empty src dest force op fs =
      if f.stat_source
      then (err (about op "stat"), fs)
      else copy_stat src dest force op empty (lookup src fs) fs

  -- `filepath.Join` is a parameter.
  module _ (join : String → String → String) where
    unfoldable pub export_identity_backup : C → String → String → Bool → Files C → Copied
    unfolding copy_identity_file
    export_identity_backup empty data_dir dest force fs =
        if dest == ""
        then (err (message "backup identity export: destination path required"), fs)
        else copy_identity_file empty (join data_dir "peers.json") dest force
            "backup identity export" fs

    unfoldable pub import_identity_backup : C → String → String → Bool → Files C → Copied
    unfolding copy_identity_file
    import_identity_backup empty data_dir src force fs =
        if src == ""
        then (err (message "backup identity import: source path required"), fs)
        else copy_identity_file empty src (join data_dir "peers.json") force
            "backup identity import" fs

    -- The configuration gives a data directory or an error, and `config.ExpandPath` is a parameter.
    module _ (configured : Result String) (expand : String → String) where
      abbrev pub in_data_dir : (String → Copied) → Result String → Files C → Copied
      in_data_dir copy (err e) fs = (err e, fs)
      in_data_dir copy (ok data_dir) fs = copy data_dir

      unfoldable pub action_backup_identity_export : C → String → Bool → Files C → Copied
      unfolding export_identity_backup
      action_backup_identity_export empty dest force fs =
          if dest == ""
          then (err (message "backup identity export: destination path required"), fs)
          else in_data_dir (λ dir. export_identity_backup empty dir (expand dest) force fs)
              configured fs

      unfoldable pub action_backup_identity_import : C → String → Bool → Files C → Copied
      unfolding import_identity_backup
      action_backup_identity_import empty src force fs =
          if src == ""
          then (err (message "backup identity import: source path required"), fs)
          else in_data_dir (λ dir. import_identity_backup empty dir (expand src) force fs)
              configured fs
