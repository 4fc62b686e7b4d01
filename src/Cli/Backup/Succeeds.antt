-- ===== src/Cli/Backup/Succeeds.antt =====
-- internal/cli/backup.go: when a copy of the identities succeeds.
use coggo.Prelude.{ℕ, String, ◌≡◌, refl, ◌⊎◌, inl, inr, Bool, true, false, none, some, eqb, lookup}
use coggo.Prelude.Files.{file, Files}
use coggo.Prelude.Result.{ok}
use coggo.Cli.Backup.{Faults, found_at, copy_identity_file}

abbrev pub no_faults : {C : Type 0} → Faults C
no_faults = record {
  stat_source = false;
  lstat_destination = false;
  open_source = false;
  create_temp = false;
  chmod_temp = false;
  copy = none;
  sync = false;
  close = false;
  chmod_backup = false;
  rename = false;
  remove = false;
}

-- nothing is at the path, or a file that may be replaced
abbrev pub IsWritable : {C : Type 0} → String → Bool → Files C → Type 0
IsWritable {C = C} dest force fs =
    (lookup dest fs ≡ none)
    ⊎ ((force ≡ true) × (mode : ℕ) × (c : C) × (lookup dest fs ≡ some (file mode c)))

module _ {C : Type 0} (size : C → ℕ) (mkdir_all : String → Files C → Bool × Files C) (tmp : String)
    (src dest op : String) (force : Bool) (empty : C) (fs : Files C) where
  found_at-writable :
      IsWritable dest force fs
      → found_at size mkdir_all tmp no_faults op force (lookup dest fs) ≡ ok tt
  found_at-writable (inl free) = rw free refl
  found_at-writable (inr (forced, mode, c, there)) = rw (there, forced) refl

  -- Where no call fails, the source is a file that is not empty, its place can be written to and its
  -- directory made, the copy succeeds and says how much it wrote.
  pub copy_identity_file-succeeds :
      (mode : ℕ) (c : C)
      → lookup src fs ≡ some (file mode c)
      → eqb (size c) 0 ≡ false
      → IsWritable dest force fs
      → (mkdir_all dest fs).0 ≡ true
      → lookup src (mkdir_all dest fs).1 ≡ some (file mode c)
      → (copy_identity_file size mkdir_all tmp no_faults empty src dest force op fs).0
        ≡ ok (record { source = src; destination = dest; bytes = size c })
  unfolding copy_identity_file
  copy_identity_file-succeeds mode c read full writable made kept =
      rw (read, full, found_at-writable writable, made, kept) refl
