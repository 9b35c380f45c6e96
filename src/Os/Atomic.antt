-- ===== src/Os/Atomic.antt =====
-- internal/utils/atomic_write.go
use tailkitd.Prelude.{◌≡◌, Option, none, some, [], arith, Dict, insert, Text}
use tailkitd.Os.{Outcome, World, Io, ◌>>◌, syscall, ignored, os_laws, ok, err}

module _ {C : Type 0} where
  abbrev pub set_temp : Option C → Io C Unit
  set_temp t w = (ok tt, record w { temp = t })

  unfoldable pub create_temp : Io C Unit
  create_temp = do syscall; set_temp none

  abbrev pub close_on : Outcome Unit → Io C Unit
  close_on (ok _) w = (ok tt, w)
  close_on (err e) w = (err e, (syscall w).1)

  -- `if err := m; err != nil { tmp.Close(); return err }`
  unfoldable pub or_close : Io C Unit → Io C Unit
  or_close m w = let (r, w') = m w in close_on r w'

  unfoldable pub write_temp : C → Io C Unit
  write_temp content = do syscall; set_temp (some content)

  abbrev pub move : Text → Option C → World C → World C
  move path none w = w
  move path (some content) w = record w { files = insert path content w.files; temp = none }

  -- `os.Rename(tmpPath, path)`
  unfoldable pub rename_temp : Text → Io C Unit
  rename_temp path = do syscall; λ w. (ok tt, move path w.temp w)

  -- The directory is opened, synchronised and closed; none of this can fail the write.
  sync_dir : Io C Unit
  sync_dir w =
      let (opened, w') = syscall w in
      elim opened [ ok _ ↦ (do ignored syscall; ignored syscall) w' | err _ ↦ (ok tt, w') ]

  abbrev pub cleared : Outcome Unit → World C → World C
  cleared (ok _) w = record w { temp = none }
  cleared (err e) w = w

  -- `defer os.Remove(tmpPath)`; where it fails the temporary file stays.
  unfoldable pub deferred_remove : Io C Unit → Io C Unit
  deferred_remove m w =
      let (r, w') = m w in let (removed, w'') = syscall w' in (r, cleared removed w'')

  unfoldable pub atomic_write : Text → C → Io C Unit
  unfolding create_temp or_close write_temp rename_temp sync_dir deferred_remove
  atomic_write path content = do
    create_temp
    deferred_remove do
      -- Chmod
      or_close syscall
      or_close (write_temp content)
      -- Sync
      or_close syscall
      -- Close
      syscall
      rename_temp path
      sync_dir

  abbrev pub Written : Text → C → Outcome Unit → Dict C → Dict C → Type 0
  Written path content (ok _) before after = after ≡ insert path content before
  Written path content (err _) before after = after ≡ before

  -- A write that succeeds has replaced the file and nothing else; one that fails, at whatever step,
  -- has changed no file.
  pub atomic_write_lem :
      (path : Text) (content : C) (w : World C)
      → Written path content
          (atomic_write path content w).0
          w.files
          (atomic_write path content w).1.files
  unfolding atomic_write
  atomic_write_lem path content w = grind (arith, os_laws)

  -- Where no call fails, the write succeeds.
  pub atomic_write-no_faults :
      (path : Text) (content : C) (w : World C)
      → w.faults ≡ []
      → (atomic_write path content w).0 ≡ ok tt
  unfolding atomic_write syscall
  atomic_write-no_faults path content w quiet = ground (arith, quiet)

  pub atomic_write-faults :
      (path : Text) (content : C) (w : World C)
      → w.faults ≡ []
      → (atomic_write path content w).1.faults ≡ []
  unfolding atomic_write syscall
  atomic_write-faults path content w quiet = ground (arith, quiet)

  Written-ok :
      (path : Text) (content : C) (r : Outcome Unit) (before after : Dict C)
      → Written path content r before after
      → r ≡ ok tt
      → after ≡ insert path content before
  Written-ok path content (ok u) before after h e = h
  Written-ok path content (err x) before after h e = cc e

  pub atomic_write_ok :
      (path : Text) (content : C) (w : World C)
      → (atomic_write path content w).0 ≡ ok tt
      → (atomic_write path content w).1.files ≡ insert path content w.files
  atomic_write_ok path content w e =
      Written-ok path content (atomic_write path content w).0 w.files
        (atomic_write path content w).1.files (atomic_write_lem path content w) e
