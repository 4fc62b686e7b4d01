-- ===== src/Cli/Backup/Laws.antt =====
-- internal/cli/backup.go: what a copy of the identities leaves, whichever call of it fails.
use coggo.Prelude.{
  ℕ, String, ◌==◌, ◌≡◌, refl, sym, ap, subst, ◌∙◌, ◌⊎◌, inl, inr, Bool, true, false, Option, none,
  some, eqb, if◌then◌else◌, lookup, insert, delete, lookup-insert, lookup-delete, eq_refl, eq_iff,
  arith, Bool-cases,
}
use coggo.Prelude.Files.{
  Entry, file, directory, Files, owner_only, KeptBut, insert-other, delete-other,
}
use coggo.Prelude.Result.{Error, Result, ok, err, about}
use coggo.Cli.Backup.{
  IdentityExportResult, Faults, cleaned_up, give_up, found_at, ensure_can_write, moved_into_place,
  after_copy, copy_open, open_source, with_directory, when_writable, copy_stat, copy_identity_file,
}

module _ {C : Type 0} (size : C → ℕ) (mkdir_all : String → Files C → Bool × Files C) (tmp : String)
    (f : Faults C) (src dest : String) (force : Bool) (fs : Files C) where
  abbrev Copied : Type 0
  Copied = Result IdentityExportResult × Files C

  -- What a copy that fails leaves: every file as it was, and no temporary one unless its removal fails.
  pub record LeftAlone (out : Files C) : Type 0 where
    pub others : KeptBut tmp tmp fs out
    pub no_temp : f.remove ≡ false → lookup tmp out ≡ none

  -- What a copy that succeeds leaves.
  pub record Replaced (r : IdentityExportResult) (out : Files C) : Type 0 where
    pub mode : ℕ
    pub contents : C
    pub read : lookup src fs ≡ some (file mode contents)
    pub not_empty : eqb (size contents) 0 ≡ false
    pub allowed : (force ≡ true) ⊎ (lookup dest fs ≡ none)
    pub written : lookup dest out ≡ some (file owner_only contents)
    pub told : r ≡ record { source = src; destination = dest; bytes = size contents }
    pub others : KeptBut tmp dest fs out
    pub no_temp : lookup tmp out ≡ none

  pub data Outcome : Copied → Type 0 where
    failed : (e : Error) (out : Files C) → LeftAlone out → Outcome (err e, out)
    copied : (r : IdentityExportResult) (out : Files C) → Replaced r out → Outcome (ok r, out)

  cleaned_up-LeftAlone :
      (now : Files C) → KeptBut tmp tmp fs now → LeftAlone (cleaned_up size mkdir_all tmp f now)
  cleaned_up-LeftAlone now k = elim (Bool-cases f.remove) [
    | inl e ↦ rw e (record { others = k; no_temp = λ h. cc })
    | inr e ↦ rw e (record {
      others = λ p x n m h. delete-other tmp p x now n (k p x n m h);
      no_temp = λ h. lookup-delete tmp tmp now ∙ rw (eq_refl tmp) refl;
    })
  ]

  give_up-Outcome :
      (op text : String) (now : Files C)
      → KeptBut tmp tmp fs now
      → Outcome (give_up size mkdir_all tmp f op text now)
  give_up-Outcome op text now k =
      failed (about op text) (cleaned_up size mkdir_all tmp f now) (cleaned_up-LeftAlone now k)

  -- one test that gives up
  unless-Outcome : (b : Bool) (x y : Copied) → Outcome x → Outcome y → Outcome (if b then x else y)
  unless-Outcome true x y h k = h
  unless-Outcome false x y h k = k

  wrote-kept :
      (now : Files C) (c : C)
      → KeptBut tmp tmp fs now
      → KeptBut tmp tmp fs (insert tmp (file owner_only c) now)
  wrote-kept now c k p x n m h = insert-other tmp p x (file owner_only c) now n (k p x n m h)

  module _ (apart : (tmp == dest) ≡ false) (mode : ℕ) (c : C)
      (read : lookup src fs ≡ some (file mode c)) (not_empty : eqb (size c) 0 ≡ false)
      (allowed : (force ≡ true) ⊎ (lookup dest fs ≡ none)) where
    put_in_place :
        (now : Files C)
        → KeptBut tmp tmp fs now
        → Replaced
            (record { source = src; destination = dest; bytes = size c })
            (insert dest (file owner_only c) (delete tmp now))
    put_in_place now k = record {
      mode = mode;
      contents = c;
      read = read;
      not_empty = not_empty;
      allowed = allowed;
      written =
          lookup-insert dest dest (file owner_only c) (delete tmp now) ∙ rw (eq_refl dest) refl;
      told = refl;
      others = λ p x n m h.
          insert-other dest p x (file owner_only c) (delete tmp now) m
            (delete-other tmp p x now n (k p x n n h));
      no_temp =
          lookup-insert dest tmp (file owner_only c) (delete tmp now)
          ∙ ground
              (arith, lookup-delete tmp tmp now, eq_iff dest tmp, eq_iff tmp dest, eq_refl tmp);
    }

    moved_into_place-Outcome :
        (op : String) (now : Files C)
        → KeptBut tmp tmp fs now
        → Outcome (moved_into_place size mkdir_all tmp f src dest op c now)
    moved_into_place-Outcome op now k =
        unless-Outcome f.chmod_backup _ _ (give_up-Outcome op "chmod backup" now k) (
          unless-Outcome f.rename _ _ (give_up-Outcome op "move backup into place" now k)
            (copied _ _ (put_in_place now k)))

    after_copy-Outcome :
        (op : String) (o : Option C) (now : Files C)
        → KeptBut tmp tmp fs now
        → Outcome (after_copy size mkdir_all tmp f src dest op c o now)
    after_copy-Outcome op (some part) now k =
        give_up-Outcome op "copy peers.json" _ (wrote-kept now part k)
    after_copy-Outcome op none now k =
        let k' = wrote-kept now c k in
        unless-Outcome f.sync _ _ (give_up-Outcome op "sync temporary file" _ k') (
          unless-Outcome f.close _ _ (give_up-Outcome op "close temporary file" _ k')
            (moved_into_place-Outcome op _ k'))

    copy_open-Outcome :
        (op : String) (empty : C) (now : Files C)
        → lookup tmp now ≡ none
        → KeptBut tmp tmp fs now
        → Outcome (copy_open size mkdir_all tmp f src dest op empty c now)
    copy_open-Outcome op empty now free k =
        let k' = wrote-kept now empty k in
        unless-Outcome f.create_temp _ _ (failed _ now (record { others = k; no_temp = λ h. free }))
          (unless-Outcome f.chmod_temp _ _ (give_up-Outcome op "chmod temporary file" _ k')
            (after_copy-Outcome op f.copy _ k'))

    open_source-Outcome :
        (op : String) (empty : C) (now : Files C) (o : Option (Entry C))
        → o ≡ some (file mode c)
        → lookup tmp now ≡ none
        → KeptBut tmp tmp fs now
        → Outcome (open_source size mkdir_all tmp f src dest op empty o now)
    open_source-Outcome op empty now o same free k =
        subst (λ q. Outcome (open_source size mkdir_all tmp f src dest op empty q now)) (sym same)
          (unless-Outcome f.open_source _ _
            (failed _ now (record { others = k; no_temp = λ h. free }))
            (copy_open-Outcome op empty now free k))

    with_directory-Outcome :
        (op : String) (empty : C) (made : Bool × Files C)
        → lookup tmp made.1 ≡ none
        → ((p : String) (e : Entry C) → lookup p fs ≡ some e → lookup p made.1 ≡ some e)
        → Outcome (with_directory size mkdir_all tmp f src dest op empty made)
    with_directory-Outcome op empty (false, now) free kept =
        failed _ now (record { others = λ p e n m h. kept p e h; no_temp = λ h. free })
    with_directory-Outcome op empty (true, now) free kept =
        open_source-Outcome op empty now (lookup src now) (kept src (file mode c) read) free
          (λ p e n m h. kept p e h)

  untouched : lookup tmp fs ≡ none → LeftAlone fs
  untouched free = record { others = λ p e n m h. h; no_temp = λ h. free }

  found_at-ok :
      (op : String) (o : Option (Entry C))
      → found_at size mkdir_all tmp f op force o ≡ ok tt
      → (force ≡ true) ⊎ (o ≡ none)
  found_at-ok op none h = inr refl
  found_at-ok op (some directory) h = cc
  found_at-ok op (some (file mode c)) h = elim (Bool-cases force) [
    | inl e ↦ inl e
    | inr e ↦ ground arith
  ]

  module _ (op : String) (empty : C) (apart : (tmp == dest) ≡ false) (free : lookup tmp fs ≡ none)
      (still_free : lookup tmp (mkdir_all dest fs).1 ≡ none)
      (kept : (p : String) (e : Entry C)
        → lookup p fs ≡ some e
        → lookup p (mkdir_all dest fs).1 ≡ some e) where
    when_writable-Outcome :
        (mode : ℕ) (c : C) (r : Result (Unit {0}))
        → lookup src fs ≡ some (file mode c)
        → eqb (size c) 0 ≡ false
        → (r ≡ ok tt → (force ≡ true) ⊎ (lookup dest fs ≡ none))
        → Outcome (when_writable size mkdir_all tmp f src dest op empty r fs)
    when_writable-Outcome mode c (err e) read full allowed = failed e fs (untouched free)
    when_writable-Outcome mode c (ok tt) read full allowed =
        with_directory-Outcome apart mode c read full (allowed refl) op empty (mkdir_all dest fs)
          still_free kept

    ensure_can_write-ok :
        ensure_can_write size mkdir_all tmp f dest force op fs ≡ ok tt
        → (force ≡ true) ⊎ (lookup dest fs ≡ none)
    ensure_can_write-ok h = elim (Bool-cases f.lstat_destination) [
      | inl e ↦ absurd (ground arith)
      | inr e ↦ found_at-ok op (lookup dest fs) (ground arith)
    ]

    copy_stat-Outcome :
        (o : Option (Entry C))
        → lookup src fs ≡ o
        → Outcome (copy_stat size mkdir_all tmp f src dest force op empty o fs)
    copy_stat-Outcome none h = failed _ fs (untouched free)
    copy_stat-Outcome (some directory) h = failed _ fs (untouched free)
    copy_stat-Outcome (some (file mode c)) h = elim (Bool-cases (eqb (size c) 0)) [
      | inl e ↦ rw e (failed (about op "is empty") fs (untouched free))
      | inr e ↦ rw e (
          when_writable-Outcome mode c (ensure_can_write size mkdir_all tmp f dest force op fs) h e
            ensure_can_write-ok)
    ]

    -- Where MkdirAll changes nothing that is there and CreateTemp takes a new name, whichever calls fail:
    -- a copy that fails leaves each file as it was, and no temporary file unless its removal fails; a copy
    -- that succeeds read a file that was not empty, leaves its contents readable for the owner alone,
    -- touched no other file, and replaced one only where it was told to.
    pub copy_identity_file-Outcome :
        Outcome (copy_identity_file size mkdir_all tmp f empty src dest force op fs)
    unfolding copy_identity_file
    copy_identity_file-Outcome =
        unless-Outcome f.stat_source _ _ (failed _ fs (untouched free))
          (copy_stat-Outcome (lookup src fs) refl)

  pub Outcome-ok :
      (x : Copied) (r : IdentityExportResult) (out : Files C)
      → Outcome x
      → x ≡ (ok r, out)
      → Replaced r out
  Outcome-ok _ r out (failed e now l) h = absurd (ground arith)
  Outcome-ok _ r out (copied q now k) h =
      let same : q ≡ r = ground arith in
      let there : now ≡ out = ap (λ (x : Copied). x.1) h in
      subst (λ z. Replaced r z) there (subst (λ z. Replaced z now) same k)
