-- ===== src/Prelude/Files.antt =====
-- Files by their path, as the package `os` reads and writes them. A path is a text, no path is a
-- symbolic link, and the contents are of any type.
use Prim.Native.Nat.{ℕ}
use Prim.Native.String.{String}
use mathlib.Core.Path.{◌≡◌, ◌∙◌}
use mathlib.Core.Bool.{false}
use mathlib.Core.Option.{some}
use text.Mathlib.Text.{◌==◌}
use coggo.Prelude.Maps.{Dict, lookup, insert, delete, lookup-insert, lookup-delete}

-- a file with its permissions and its contents
pub data Entry (C : Type 0) : Type 0 where
  file : ℕ → C → Entry C
  directory : Entry C

abbrev pub Files : Type 0 → Type 0
Files C = Dict (Entry C)

-- The permissions 0600 and 0644.
abbrev pub owner_only : ℕ
owner_only = 384

abbrev pub world_readable : ℕ
world_readable = 420

module _ {C : Type 0} where
  -- What was there is there still, but for two paths.
  abbrev pub KeptBut : String → String → Files C → Files C → Type 0
  KeptBut a b before after =
      (p : String) (e : Entry C)
      → (a == p) ≡ false
      → (b == p) ≡ false
      → lookup p before ≡ some e
      → lookup p after ≡ some e

  pub insert-other :
      (a p : String) (e f : Entry C) (fs : Files C)
      → (a == p) ≡ false
      → lookup p fs ≡ some e
      → lookup p (insert a f fs) ≡ some e
  insert-other a p e f fs n h = lookup-insert a p f fs ∙ rw n h

  pub delete-other :
      (a p : String) (e : Entry C) (fs : Files C)
      → (a == p) ≡ false
      → lookup p fs ≡ some e
      → lookup p (delete a fs) ≡ some e
  delete-other a p e fs n h = lookup-delete a p fs ∙ rw n h
