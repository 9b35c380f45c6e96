-- ===== src/Files/Identity.antt =====
-- internal/files/handlers.go: system calls on a thread that has taken another user's identity.
-- A thread may take the ids that it has; others need the capability, which is given up with the uid.
pub mod Laws
use tailkitd.Prelude.{ℕ, Bool, true, false, ◌||◌, List, Text, ◌==◌, if◌then◌else◌}
use tailkitd.Os.{
  Outcome, Io, lift, ◌>>=◌, ◌>>◌, syscall, read_file, mkdir_all, read_dir, io_fault, ok, err,
}
use tailkitd.Os.Atomic.{create_temp, deferred_remove, or_close, write_temp, rename_temp}
use tailkitd.Os.Plain.{stat}
use tailkitd.Files.{ResolvedIdentity}

pub record Thread : Type 0 where
  pub uid : ℕ
  pub gid : ℕ
  pub capable : Bool

-- What the file system lets a uid and a gid do to a path
pub record Permissions : Type 0 where
  pub may_read : ℕ → ℕ → Text → Bool
  -- make and replace the file at the path
  pub may_write : ℕ → ℕ → Text → Bool

-- `rawSetgid`
unfoldable pub raw_setgid : ℕ → Thread → Outcome Thread
raw_setgid gid t = if t.capable || (t.gid == gid) then ok (record t { gid = gid }) else err io_fault

-- `rawSetuid`
unfoldable pub raw_setuid : ℕ → Thread → Outcome Thread
raw_setuid uid t =
    if t.capable || (t.uid == uid)
    then ok (record t { uid = uid; capable = false })
    else err io_fault

-- The goroutine on a locked thread that takes the identity and then does `m`
unfoldable pub as_identity :
    {A : Type 0} → ResolvedIdentity → (Thread → Io Text A) → Thread → Io Text A
as_identity id m t = do
  syscall
  t1 ← lift (raw_setgid id.gid t)
  syscall
  t2 ← lift (raw_setuid id.uid t1)
  m t2

abbrev permit : Bool → Outcome Unit
permit true = ok tt
permit false = err io_fault

module _ (p : Permissions) where
  unfoldable pub open_and_read : Text → Thread → Io Text Text
  open_and_read path t = do lift (permit (p.may_read t.uid t.gid path)); read_file path

  unfoldable pub stat_path : Text → Thread → Io Text Unit
  stat_path path t = do lift (permit (p.may_read t.uid t.gid path)); stat path

  unfoldable pub list_dir : Text → Thread → Io Text (List Text)
  list_dir path t = do lift (permit (p.may_read t.uid t.gid path)); read_dir path

  -- `readFile` with `readFileAs`
  unfoldable pub read_file_with : Text → ResolvedIdentity → Thread → Io Text Text
  read_file_with path id t =
      if id.is_set then as_identity id (open_and_read path) t else open_and_read path t

  -- `statFile` with `statFileAs`
  unfoldable pub stat_file_with : Text → ResolvedIdentity → Thread → Io Text Unit
  stat_file_with path id t =
      if id.is_set then as_identity id (stat_path path) t else stat_path path t

  -- `readDir` with `readDirAs`
  unfoldable pub read_dir_with : Text → ResolvedIdentity → Thread → Io Text (List Text)
  read_dir_with path id t = if id.is_set then as_identity id (list_dir path) t else list_dir path t

  -- `io.Copy(tmp, r)` for a reader that gives `body`
  abbrev copy_body : Outcome Text → Io Text Unit
  copy_body (ok text) = write_temp text
  copy_body (err e) = lift (err e)

  -- `atomicWrite` of this package, without the number of bytes
  unfoldable pub receive : Text → Outcome Text → Thread → Io Text Unit
  receive dest body t = do
    lift (permit (p.may_write t.uid t.gid dest))
    create_temp
    deferred_remove do
      or_close (copy_body body)
      -- Chmod
      or_close syscall
      -- Close
      syscall
      rename_temp dest

  -- What `atomicWriteAs` does under the identity
  unfoldable pub place : Text → Text → Thread → Io Text Unit
  place dest text t = do
    lift (permit (p.may_write t.uid t.gid dest))
    mkdir_all
    create_temp
    deferred_remove do
      or_close (write_temp text)
      -- Chmod
      or_close syscall
      -- Close
      syscall
      rename_temp dest

  -- `atomicWriteAs`, which does not look at `Set`
  unfoldable pub receive_as : Text → Outcome Text → ResolvedIdentity → Thread → Io Text Unit
  receive_as dest body id t = do text ← lift body; as_identity id (place dest text) t
