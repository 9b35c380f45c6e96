-- ===== src/Os/Plain.antt =====
-- `os.Stat` and `os.WriteFile` of Go, as far as the program uses them.
use tailkitd.Prelude.{
  ◌≡◌, inl, inr, false, Option, none, some, arith, lookup, insert, lookup-insert,
  lookup-insert_self, Text, str_eq, Option-cases,
}
use tailkitd.Os.{Outcome, World, Io, ◌>>◌, syscall, syscall-files, os_laws, not_exist, ok, err}

abbrev found_or : {A : Type 0} → Option A → Outcome Unit
found_or none = err not_exist
found_or (some _) = ok tt

module _ {C : Type 0} where
  -- `os.Stat`, for its error
  unfoldable pub stat : Text → Io C Unit
  stat path = do syscall; λ w. (found_or (lookup path w.files), w)

  abbrev pub put : Text → C → Io C Unit
  put path content w = (ok tt, record w { files = insert path content w.files })

  -- `os.WriteFile`: opening the file empties it, and then it is written and closed. A write that
  -- fails has written nothing.
  unfoldable pub write_file : Text → C → C → Io C Unit
  write_file path empty content = do syscall; put path empty; syscall; put path content; syscall

  pub stat-files : (path : Text) (w : World C) → (stat path w).1.files ≡ w.files
  unfolding stat
  stat-files path w = ground (arith, syscall-files w)

  -- Whatever fails, only the one file changes.
  pub write_file-other :
      (path : Text) (empty content : C) (j : Text) (w : World C)
      → str_eq path j ≡ false
      → lookup j (write_file path empty content w).1.files ≡ lookup j w.files
  unfolding write_file
  write_file-other path empty content j w h = grind (arith, os_laws, lookup-insert, h)

  pub write_file-ok :
      (path : Text) (empty content : C) (w : World C)
      → (write_file path empty content w).0 ≡ ok tt
      → lookup path (write_file path empty content w).1.files ≡ some content
  unfolding write_file
  write_file-ok path empty content w h = grind (arith, os_laws, lookup-insert_self)

  pub stat-ok :
      (path : Text) (w : World C)
      → (stat path w).0 ≡ ok tt
      → (c : C) × (lookup path w.files ≡ some c)
  unfolding stat
  stat-ok path w h = elim (Option-cases (lookup path w.files)) [
    | inl e ↦ ground (arith, syscall-files w, e, h)
    | inr found ↦ found
  ]

  pub stat-not_exist :
      (path : Text) (w : World C) → (stat path w).0 ≡ err not_exist → lookup path w.files ≡ none
  unfolding stat syscall
  stat-not_exist path w h = ground (arith, h)
