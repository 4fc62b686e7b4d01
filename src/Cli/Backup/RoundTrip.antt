-- ===== src/Cli/Backup/RoundTrip.antt =====
-- internal/cli/backup.go: an export and the import of what it wrote.
use coggo.Prelude.{
  ℕ, String, ◌==◌, ◌≡◌, sym, ap, ◌∙◌, Bool, true, false, none, some, eqb, lookup, arith,
}
use coggo.Prelude.Files.{Entry, file, Files, owner_only}
use coggo.Prelude.Result.{Result, ok}
use coggo.Cli.Backup.{
  IdentityExportResult, copy_identity_file, export_identity_backup, import_identity_backup,
}
use coggo.Cli.Backup.Laws.{Outcome-ok, copy_identity_file-Outcome}
use coggo.Cli.Backup.Succeeds.{no_faults, IsWritable, copy_identity_file-succeeds}

-- What the documentation of `os` says of the calls of one copy, `MkdirAll` makes the directory and
-- changes nothing that is there, and `CreateTemp` takes a name that is new; and the destination can be
-- written to.
pub record IsReady {C : Type 0} (mkdir_all : String → Files C → Bool × Files C) (tmp dest : String)
    (force : Bool) (fs : Files C) : Type 0 where
  pub writable : IsWritable dest force fs
  pub apart : (tmp == dest) ≡ false
  pub free : lookup tmp fs ≡ none
  pub made : (mkdir_all dest fs).0 ≡ true
  pub still_free : lookup tmp (mkdir_all dest fs).1 ≡ none
  pub kept :
      (p : String) (e : Entry C) → lookup p fs ≡ some e → lookup p (mkdir_all dest fs).1 ≡ some e

pair_of : {A B : Type 0} {p : A × B} {a : A} → p.0 ≡ a → p ≡ (a, p.1)
pair_of {p = p} e = ap (λ z. (z, p.1)) e

same_contents : {C : Type 0} (m n : ℕ) (c d : C) → some (file m c) ≡ some (file n d) → c ≡ d
same_contents m n c d h = ground arith

module _ {C : Type 0} (size : C → ℕ) (empty : C) where
  -- A copy with no fault leaves the contents at the destination, and says so.
  copy_identity_file-copied :
      (mkdir_all : String → Files C → Bool × Files C) (tmp src dest op : String) (force : Bool)
      (fs : Files C) (mode : ℕ) (c : C)
      → IsReady mkdir_all tmp dest force fs
      → lookup src fs ≡ some (file mode c)
      → eqb (size c) 0 ≡ false
      → ((copy_identity_file size mkdir_all tmp no_faults empty src dest force op fs).0
          ≡ ok (record { source = src; destination = dest; bytes = size c }))
        × (lookup dest
              (copy_identity_file size mkdir_all tmp no_faults empty src dest force op fs).1
            ≡ some (file owner_only c))
  copy_identity_file-copied mkdir_all tmp src dest op force fs mode c h read full =
      let told =
        copy_identity_file-succeeds size mkdir_all tmp src dest op force empty fs mode c read full
          h.writable h.made (h.kept src (file mode c) read) in
      let left =
        Outcome-ok size mkdir_all tmp no_faults src dest force fs _ _ _
          (copy_identity_file-Outcome size mkdir_all tmp no_faults src dest force fs op empty
            h.apart h.free h.still_free h.kept)
          (pair_of told) in
      (
        told,
        left.written
            ∙ ap (λ d. some (file owner_only d))
                (same_contents left.mode mode left.contents c (sym left.read ∙ read)),
      )

  module _ (join : String → String → String) (mode : ℕ) (c : C)
      (full : eqb (size c) 0 ≡ false) where
    import-copied :
        (mkdir_all : String → Files C → Bool × Files C) (tmp data_dir path : String) (force : Bool)
        (fs : Files C)
        → (path == "") ≡ false
        → IsReady mkdir_all tmp (join data_dir "peers.json") force fs
        → lookup path fs ≡ some (file mode c)
        → ((import_identity_backup size mkdir_all tmp no_faults join empty data_dir path force fs).0
            ≡ ok (record {
              source = path;
              destination = join data_dir "peers.json";
              bytes = size c;
            }))
          × (lookup
                (join data_dir "peers.json")
                (import_identity_backup size mkdir_all tmp no_faults join empty data_dir path force
                  fs).1
              ≡ some (file owner_only c))
    unfolding import_identity_backup
    import-copied mkdir_all tmp data_dir path force fs named h read = rw named (
        copy_identity_file-copied mkdir_all tmp path (join data_dir "peers.json")
          "backup identity import" force fs mode c h read full)

  module _ (join : String → String → String) (mkdir_all : String → Files C → Bool × Files C)
      (tmp data_dir path : String) (force : Bool) (fs : Files C) (mode : ℕ) (c : C)
      (named : (path == "") ≡ false) (full : eqb (size c) 0 ≡ false) where
    abbrev exported : Result IdentityExportResult × Files C
    exported = export_identity_backup size mkdir_all tmp no_faults join empty data_dir path force fs

    export-copied :
        IsReady mkdir_all tmp path force fs
        → lookup (join data_dir "peers.json") fs ≡ some (file mode c)
        → (exported.0
            ≡ ok (record {
              source = join data_dir "peers.json";
              destination = path;
              bytes = size c;
            }))
          × (lookup path exported.1 ≡ some (file owner_only c))
    unfolding export_identity_backup
    export-copied h read = rw named (
        copy_identity_file-copied mkdir_all tmp (join data_dir "peers.json") path
          "backup identity export" force fs mode c h read full)

    -- Where no call of `os` fails and each does as it is documented, and each destination can be written
    -- to, an export of identities that are not empty and then the import of its file into a data
    -- directory both succeed, and this directory has the identities, readable for the owner alone.
    pub import-export :
        (mkdir_all' : String → Files C → Bool × Files C) (tmp' data_dir' : String) (force' : Bool)
        → lookup (join data_dir "peers.json") fs ≡ some (file mode c)
        → IsReady mkdir_all tmp path force fs
        → IsReady mkdir_all' tmp' (join data_dir' "peers.json") force' exported.1
        → (exported.0
            ≡ ok (record {
              source = join data_dir "peers.json";
              destination = path;
              bytes = size c;
            }))
          × ((import_identity_backup size mkdir_all' tmp' no_faults join empty data_dir' path force'
                exported.1).0
              ≡ ok (record {
                source = path;
                destination = join data_dir' "peers.json";
                bytes = size c;
              }))
          × (lookup
                (join data_dir' "peers.json")
                (import_identity_backup size mkdir_all' tmp' no_faults join empty data_dir' path
                  force' exported.1).1
              ≡ some (file owner_only c))
    import-export mkdir_all' tmp' data_dir' force' read h h' =
        let out = export-copied h read in
        let back =
          import-copied join owner_only c full mkdir_all' tmp' data_dir' path force' exported.1
            named h' out.1 in
        (out.0, back.0, back.1)
