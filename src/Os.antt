-- ===== src/Os.antt =====
-- The operating system under the daemon, and internal/utils/atomic_write.go.
-- A `World` is the directory tree as a map from paths to contents, with the faults to come: each
-- system call takes the next one and fails if it is `true`; a call past their end succeeds.
-- Modes and directories are not modelled. What a file holds is a parameter, so that a component
-- says what its documents are.
pub mod Atomic
pub mod Plain
pub mod Listing
use tailkitd.Prelude.{
  ◌≡◌, refl, ◌⊎◌, inl, inr, Bool, Option, none, some, List, [], ◌∷◌, ◌++◌, arith, Dict, lookup,
  erase, sort, Text, str_lt, cut_prefix, contains_byte, if◌then◌else◌,
}

-- Go's `error`, by what the program tests of it and by what went wrong.
pub data Error : Type 0 where
  -- `os.IsNotExist` holds
  not_exist : Error
  -- any other failure of a system call
  io_fault : Error
  -- text that does not parse as what is expected
  malformed : Error
  -- a value that a validation rejects
  invalid : Error
  -- `ctx.Err()` of a cancelled request
  canceled : Error
  -- the errors of internal/vars/store.go
  scope_not_found key_not_found reserved_key invalid_key : Error
  -- the errors of internal/state/epoch.go
  stale_epoch future_epoch : Error
  -- `invite token already claimed`
  already_claimed : Error
  -- a Go panic, which ends the request
  panic : Error

pub data Outcome (A : Type 0) : Type 0 where
  ok : A → Outcome A
  err : Error → Outcome A

pub Outcome-cases :
    {A : Type 0} (r : Outcome A) → ((a : A) × (r ≡ ok a)) ⊎ ((e : Error) × (r ≡ err e))
Outcome-cases (ok a) = inl (a, refl)
Outcome-cases (err e) = inr (e, refl)

pub record World (C : Type 0) : Type 0 where
  pub files : Dict C
  -- what has been written to the open temporary file
  pub temp : Option C
  pub faults : List Bool

abbrev pub Io : Type 0 → Type 0 → Type 0
Io C A = World C → Outcome A × World C

abbrev pub name_of : Option Text → Option Text
name_of none = none
name_of (some name) = if contains_byte b'/' name then none else some name

abbrev or_not_exist : {A : Type 0} → Option A → Outcome A
or_not_exist none = err not_exist
or_not_exist (some a) = ok a

module _ {C : Type 0} where
  abbrev pub pure : {A : Type 0} → A → Io C A
  pure a w = (ok a, w)

  abbrev pub raise : {A : Type 0} → Error → Io C A
  raise e w = (err e, w)

  abbrev pub lift : {A : Type 0} → Outcome A → Io C A
  lift r w = (r, w)

  abbrev pub continue : {A B : Type 0} → Outcome A → (A → Io C B) → Io C B
  continue (ok a) f w = f a w
  continue (err e) f w = (err e, w)

  infixl 10 ◌>>=◌ ◌>>◌
  abbrev pub ◌>>=◌ : {A B : Type 0} → Io C A → (A → Io C B) → Io C B
  ◌>>=◌ m f w = let (r, w') = m w in continue r f w'

  abbrev pub ◌>>◌ : {A B : Type 0} → Io C A → Io C B → Io C B
  m >> n = m >>= λ _. n

  syscall_on : List Bool → Io C Unit
  syscall_on [] w = (ok tt, w)
  syscall_on (bad ∷ rest) w =
      if bad
      then (err io_fault, record w { faults = rest })
      else (ok tt, record w { faults = rest })

  -- One system call without an effect that is modelled.
  unfoldable pub syscall : Io C Unit
  unfolding syscall_on
  syscall w = syscall_on w.faults w

  -- `_ = f()`
  abbrev pub ignored : Io C Unit → Io C Unit
  ignored m w = (ok tt, (m w).1)

  -- `os.ReadFile`
  unfoldable pub read_file : Text → Io C C
  unfolding syscall
  read_file path = do syscall; λ w. (or_not_exist (lookup path w.files), w)

  abbrev delete : Text → Option C → Io C Unit
  delete path none w = (err not_exist, w)
  delete path (some _) w = (ok tt, record w { files = erase path w.files })

  -- `os.Remove`
  unfoldable pub remove : Text → Io C Unit
  unfolding syscall
  remove path = do syscall; λ w. delete path (lookup path w.files) w

  -- `os.MkdirAll`
  unfoldable pub mkdir_all : Io C Unit
  unfolding syscall
  mkdir_all = syscall

  -- The names of the files that stand right in the directory.
  pub names_in : Text → Dict C → List Text
  names_in dir [] = []
  names_in dir ((path, _) ∷ files) =
      let rest = names_in dir files in
      elim (name_of (cut_prefix path (dir ++ b'/' ∷ []))) [ none ↦ rest | some name ↦ name ∷ rest ]

  -- `os.ReadDir`, which sorts by name. Sub-directories, which the callers skip, are left out, and a
  -- directory that nobody made is empty.
  unfoldable pub read_dir : Text → Io C (List Text)
  unfolding syscall names_in
  read_dir dir = do syscall; λ w. (ok (sort str_lt (names_in dir w.files)), w)

  pub syscall-files : (w : World C) → (syscall w).1.files ≡ w.files
  unfolding syscall
  syscall-files w = ground arith

  pub syscall-temp : (w : World C) → (syscall w).1.temp ≡ w.temp
  unfolding syscall
  syscall-temp w = ground arith

  pub mkdir_all-files : (w : World C) → (mkdir_all w).1.files ≡ w.files
  unfolding mkdir_all
  mkdir_all-files w = syscall-files w

  pub read_file-files : (path : Text) (w : World C) → (read_file path w).1.files ≡ w.files
  unfolding read_file
  read_file-files path w = ground arith

  pub read_file-no_faults :
      (path : Text) (w : World C) {c : C}
      → w.faults ≡ []
      → lookup path w.files ≡ some c
      → read_file path w ≡ (ok c, w)
  unfolding read_file
  read_file-no_faults path w h k = ground arith

  pub read_dir-files : (dir : Text) (w : World C) → (read_dir dir w).1.files ≡ w.files
  unfolding read_dir
  read_dir-files dir w = ground arith

  pub read_dir-no_faults :
      (dir : Text) (w : World C)
      → w.faults ≡ []
      → read_dir dir w ≡ (ok (sort str_lt (names_in dir w.files)), w)
  unfolding read_dir
  read_dir-no_faults dir w h = ground arith

  -- With no fault to come a call succeeds and changes nothing.
  pub syscall-no_faults : (w : World C) → w.faults ≡ [] → syscall w ≡ (ok tt, w)
  unfolding syscall
  syscall-no_faults w h = ground arith

  abbrev pub Removed : Text → Outcome Unit → Dict C → Dict C → Type 0
  Removed path (ok _) before after =
      ((c : C) × (lookup path before ≡ some c)) × (after ≡ erase path before)
  Removed path (err e) before after = after ≡ before

  delete_lem :
      (path : Text) (o : Option C) (w : World C)
      → lookup path w.files ≡ o
      → Removed path (delete path o w).0 w.files (delete path o w).1.files
  delete_lem path none w e = refl
  delete_lem path (some c) w e = ((c, e), refl)

  syscall_remove_lem :
      (path : Text) (r : Outcome Unit) (w v : World C)
      → v.files ≡ w.files
      → let (r', w') = continue r (λ _ u. delete path (lookup path u.files) u) v in
        Removed path r' w.files w'.files
  syscall_remove_lem path (err e) w v same = same
  syscall_remove_lem path (ok u) w v same =
      rw (← same) (delete_lem path (lookup path v.files) v refl)

  -- A remove that succeeds has removed a file that was there, and nothing else.
  pub remove_lem :
      (path : Text) (w : World C) → Removed path (remove path w).0 w.files (remove path w).1.files
  unfolding remove
  remove_lem path w = syscall_remove_lem path (syscall w).0 w (syscall w).1 (syscall-files w)

  pub read_file_ok :
      (path : Text) (w : World C) (c : C)
      → (read_file path w).0 ≡ ok c
      → lookup path w.files ≡ some c
  unfolding read_file
  read_file_ok path w c h = ground (arith, syscall-files w, h)

  bound_ok :
      {A B : Type 0} (r : Outcome A) (f : A → Io C B) (w : World C) (b : B)
      → (continue r f w).0 ≡ ok b
      → (a : A) × (r ≡ ok a) × ((f a w).0 ≡ ok b) × ((continue r f w).1 ≡ (f a w).1)
  bound_ok (ok a) f w b h = (a, refl, h, refl)
  bound_ok (err e) f w b h = cc h

  -- A sequence that succeeds, by its parts.
  pub bind_ok :
      {A B : Type 0} (m : Io C A) (f : A → Io C B) (w : World C) (b : B)
      → ((m >>= f) w).0 ≡ ok b
      → (a : A) × ((m w).0 ≡ ok a) × ((f a (m w).1).0 ≡ ok b) × (((m >>= f) w).1 ≡ (f a (m w).1).1)
  bind_ok m f w b h = bound_ok (m w).0 f (m w).1 b h

pub ruleset os_laws =
    (syscall-files, syscall-temp, mkdir_all-files, read_file-files, read_dir-files)
