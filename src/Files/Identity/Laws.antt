-- ===== src/Files/Identity/Laws.antt =====
-- internal/files/handlers.go: what a call under another identity may have done.
use tailkitd.Prelude.{
  ℕ, ◌≡◌, refl, ◌∙◌, ◌⊎◌, inl, inr, true, false, ◌||◌, some, [], arith, Dict, lookup, insert, Text,
  ◌==◌, if◌then◌else◌, Bool-cases,
}
use tailkitd.Os.{
  Error, Outcome, Outcome-cases, World, Io, syscall, syscall-files, read_file-files, read_dir-files,
  read_file_ok, os_laws, ok, err,
}
use tailkitd.Os.Plain.{stat-files}
use tailkitd.Os.Atomic.{create_temp, or_close, write_temp, rename_temp, deferred_remove, Written}
use tailkitd.Files.{ResolvedIdentity}
use tailkitd.Files.Identity.{
  Thread, raw_setgid, raw_setuid, as_identity, Permissions, open_and_read, receive, place,
  receive_as, stat_path, list_dir, read_file_with, stat_file_with, read_dir_with,
}

raw_setgid_ok : (gid : ℕ) (t t' : Thread) → raw_setgid gid t ≡ ok t' → t'.gid ≡ gid
unfolding raw_setgid
raw_setgid_ok gid t t' h = ground arith

raw_setuid_ok : (uid : ℕ) (t t' : Thread) → raw_setuid uid t ≡ ok t' → t'.uid ≡ uid
unfolding raw_setuid
raw_setuid_ok uid t t' h = ground arith

raw_setuid_gid : (uid : ℕ) (t t' : Thread) → raw_setuid uid t ≡ ok t' → t'.gid ≡ t.gid
unfolding raw_setuid
raw_setuid_gid uid t t' h = ground arith

raw_setuid_may :
    (id : ResolvedIdentity) (t t' t2 : Thread)
    → raw_setgid id.gid t ≡ ok t'
    → raw_setuid id.uid t' ≡ ok t2
    → (t.capable || (t.uid == id.uid)) ≡ true
unfolding raw_setgid raw_setuid
raw_setuid_may id t t' t2 h k = ground arith

module _ {A : Type 0} (id : ResolvedIdentity) (m : Thread → Io Text A) (t : Thread)
    (w : World Text) where
  abbrev pub NotRun : Outcome A × World Text → Type 0
  NotRun out = ((e : Error) × (out.0 ≡ err e)) × (out.1.files ≡ w.files)

  -- The work has been done, on a thread with the ids and on the files as they were.
  abbrev pub Run : Outcome A × World Text → Type 0
  Run out =
      (t' : Thread) × (v : World Text) × (t'.uid ≡ id.uid)
      × (t'.gid ≡ id.gid)
      × ((t.capable || (t.uid == id.uid)) ≡ true)
      × (v.files ≡ w.files)
      × (out ≡ m t' v)

  -- A call under an identity has failed and changed nothing, or has done its work with those ids.
  pub as_identity-Run : NotRun (as_identity id m t w) ⊎ Run (as_identity id m t w)
  unfolding as_identity
  as_identity-Run = elim (Outcome-cases (syscall w).0) [
    | inr (e, h) ↦ rw h (inl ((e, refl), syscall-files w))
    | inl (u, h) ↦ elim (Outcome-cases (raw_setgid id.gid t)) [
      | inr (e, k) ↦ rw (h, k) (inl ((e, refl), syscall-files w))
      | inl (t1, k) ↦ elim (Outcome-cases (syscall (syscall w).1).0) [
        | inr (e, h2) ↦
            rw (h, k, h2) (inl ((e, refl), syscall-files (syscall w).1 ∙ syscall-files w))
        | inl (u2, h2) ↦ elim (Outcome-cases (raw_setuid id.uid t1)) [
          | inr (e, k2) ↦
              rw (h, k, h2, k2) (inl ((e, refl), syscall-files (syscall w).1 ∙ syscall-files w))
          | inl (t2, k2) ↦
              rw (h, k, h2, k2)
                (inr (
                  t2,
                  (syscall (syscall w).1).1,
                  cc (raw_setuid_ok id.uid t1 t2 k2),
                  raw_setuid_gid id.uid t1 t2 k2 ∙ raw_setgid_ok id.gid t t1 k,
                  raw_setuid_may id t t1 t2 k k2,
                  syscall-files (syscall w).1 ∙ syscall-files w,
                  refl,
                ))
        ]
      ]
    ]
  ]

-- A thread without the capability and with another uid does not get the identity.
pub as_identity_refused :
    {A : Type 0} (id : ResolvedIdentity) (m : Thread → Io Text A) (t : Thread) (w : World Text)
    → t.capable ≡ false
    → (t.uid == id.uid) ≡ false
    → NotRun id m t w (as_identity id m t w)
as_identity_refused id m t w c u = elim (as_identity-Run id m t w) [
  | inl out ↦ out
  | inr (t', v, a, b, may, same, ran) ↦ absurd (ground (arith, may, c, u))
]

-- What leaves the files alone does so under another identity too.
pub as_identity-files :
    {A : Type 0} (id : ResolvedIdentity) (m : Thread → Io Text A) (t : Thread) (w : World Text)
    → ((t' : Thread) (v : World Text) → (m t' v).1.files ≡ v.files)
    → (as_identity id m t w).1.files ≡ w.files
as_identity-files id m t w quiet = elim (as_identity-Run id m t w) [
  | inl (failed, same) ↦ same
  | inr (t', v, u, g, may, same, ran) ↦ rw ran (quiet t' v ∙ same)
]

-- The ids that a read goes by
abbrev pub uid_for : ResolvedIdentity → Thread → ℕ
uid_for id t = if id.is_set then id.uid else t.uid

abbrev pub gid_for : ResolvedIdentity → Thread → ℕ
gid_for id t = if id.is_set then id.gid else t.gid

module _ (p : Permissions) where
  pub open_and_read-files :
      (path : Text) (t : Thread) (w : World Text) → (open_and_read p path t w).1.files ≡ w.files
  unfolding open_and_read
  open_and_read-files path t w = elim (Bool-cases (p.may_read t.uid t.gid path)) [
    | inl e ↦ rw e (read_file-files path w)
    | inr e ↦ rw e refl
  ]

  pub open_and_read_ok :
      (path : Text) (t : Thread) (w : World Text) (c : Text)
      → (open_and_read p path t w).0 ≡ ok c
      → (p.may_read t.uid t.gid path ≡ true) × (lookup path w.files ≡ some c)
  unfolding open_and_read
  open_and_read_ok path t w c h = elim (Bool-cases (p.may_read t.uid t.gid path)) [
    | inl e ↦ (e, read_file_ok path w c (rw e at h))
    | inr e ↦ absurd (cc (rw e at h))
  ]

  -- A read changes nothing, and gives what the file holds if the ids may read it.
  abbrev pub ReadBy : Text → ℕ → ℕ → Dict Text → Outcome Text × World Text → Type 0
  ReadBy path uid gid files out =
      (out.1.files ≡ files)
      × ((text : Text)
          → out.0 ≡ ok text
          → (p.may_read uid gid path ≡ true) × (lookup path files ≡ some text))

  open_and_read-ReadBy :
      (path : Text) (t : Thread) (w : World Text)
      → ReadBy path t.uid t.gid w.files (open_and_read p path t w)
  open_and_read-ReadBy path t w = (open_and_read-files path t w, open_and_read_ok path t w)

  read_as-ReadBy :
      (path : Text) (id : ResolvedIdentity) (t : Thread) (w : World Text)
      → ReadBy path id.uid id.gid w.files (as_identity id (open_and_read p path) t w)
  read_as-ReadBy path id t w = elim (as_identity-Run id (open_and_read p path) t w) [
    | inl ((e, failed), same) ↦ (same, λ text h. absurd (cc (failed, h)))
    | inr (t', v, u, g, may, same, ran) ↦
        rw (ran, ← u, ← g, ← same) (open_and_read-ReadBy path t' v)
  ]

  pub read_file_with_lem :
      (path : Text) (id : ResolvedIdentity) (t : Thread) (w : World Text)
      → ReadBy path (uid_for id t) (gid_for id t) w.files (read_file_with p path id t w)
  unfolding read_file_with as_identity
  read_file_with_lem path id t w = elim (Bool-cases id.is_set) [
    | inl e ↦ rw e (read_as-ReadBy path id t w)
    | inr e ↦ rw e (open_and_read-ReadBy path t w)
  ]

  stat_path-files :
      (path : Text) (t : Thread) (w : World Text) → (stat_path p path t w).1.files ≡ w.files
  unfolding stat_path
  stat_path-files path t w = elim (Bool-cases (p.may_read t.uid t.gid path)) [
    | inl e ↦ rw e (stat-files path w)
    | inr e ↦ rw e refl
  ]

  list_dir-files :
      (path : Text) (t : Thread) (w : World Text) → (list_dir p path t w).1.files ≡ w.files
  unfolding list_dir
  list_dir-files path t w = elim (Bool-cases (p.may_read t.uid t.gid path)) [
    | inl e ↦ rw e (read_dir-files path w)
    | inr e ↦ rw e refl
  ]

  pub stat_file_with-files :
      (path : Text) (id : ResolvedIdentity) (t : Thread) (w : World Text)
      → (stat_file_with p path id t w).1.files ≡ w.files
  unfolding stat_file_with as_identity
  stat_file_with-files path id t w = elim (Bool-cases id.is_set) [
    | inl e ↦ rw e (as_identity-files id (stat_path p path) t w (stat_path-files path))
    | inr e ↦ rw e (stat_path-files path t w)
  ]

  pub read_dir_with-files :
      (path : Text) (id : ResolvedIdentity) (t : Thread) (w : World Text)
      → (read_dir_with p path id t w).1.files ≡ w.files
  unfolding read_dir_with as_identity
  read_dir_with-files path id t w = elim (Bool-cases id.is_set) [
    | inl e ↦ rw e (as_identity-files id (list_dir p path) t w (list_dir-files path))
    | inr e ↦ rw e (list_dir-files path t w)
  ]

  -- A file that is received has been replaced by what was sent, with permission, or no file changed.
  abbrev pub Received : Text → Outcome Text → ℕ → ℕ → Outcome Unit → Dict Text → Dict Text → Type 0
  Received dest body uid gid (err e) before after = after ≡ before
  Received dest body uid gid (ok _) before after =
      (text : Text) × (body ≡ ok text)
      × (p.may_write uid gid dest ≡ true)
      × (after ≡ insert dest text before)

  Received-of :
      (dest text : Text) (uid gid : ℕ) (r : Outcome Unit) (before after : Dict Text)
      → p.may_write uid gid dest ≡ true
      → Written dest text r before after
      → Received dest (ok text) uid gid r before after
  Received-of dest text uid gid (ok u) before after may h = (text, refl, may, h)
  Received-of dest text uid gid (err e) before after may h = h

  pub receive_lem :
      (dest : Text) (body : Outcome Text) (t : Thread) (w : World Text)
      → Received dest body t.uid t.gid
          (receive p dest body t w).0
          w.files
          (receive p dest body t w).1.files
  unfolding receive create_temp or_close write_temp rename_temp deferred_remove
  receive_lem dest (err e) t w = elim (Bool-cases (p.may_write t.uid t.gid dest)) [
    | inl may ↦ elim (Outcome-cases (syscall w).0) [
      | inl (u, opened) ↦ rw (may, opened) (grind (arith, os_laws))
      | inr (x, failed) ↦ rw (may, failed) (syscall-files w)
    ]
    | inr barred ↦ rw barred refl
  ]
  receive_lem dest (ok text) t w = elim (Bool-cases (p.may_write t.uid t.gid dest)) [
    | inl may ↦ rw may (Received-of dest text t.uid t.gid _ w.files _ may (grind (arith, os_laws)))
    | inr barred ↦ rw barred refl
  ]

  place_lem :
      (dest text : Text) (t : Thread) (w : World Text)
      → Received dest
          (ok text)
          t.uid
          t.gid
          (place p dest text t w).0
          w.files
          (place p dest text t w).1.files
  unfolding place create_temp or_close write_temp rename_temp deferred_remove
  place_lem dest text t w = elim (Bool-cases (p.may_write t.uid t.gid dest)) [
    | inl may ↦ rw may (Received-of dest text t.uid t.gid _ w.files _ may (grind (arith, os_laws)))
    | inr barred ↦ rw barred refl
  ]

  pub receive_as_lem :
      (dest : Text) (body : Outcome Text) (id : ResolvedIdentity) (t : Thread) (w : World Text)
      → Received dest body id.uid id.gid
          (receive_as p dest body id t w).0
          w.files
          (receive_as p dest body id t w).1.files
  unfolding receive_as
  receive_as_lem dest (err e) id t w = refl
  receive_as_lem dest (ok text) id t w = elim (as_identity-Run id (place p dest text) t w) [
    | inl ((e, failed), same) ↦ rw failed same
    | inr (t', v, u, g, may, same, ran) ↦ rw (ran, ← u, ← g, ← same) (place_lem dest text t' v)
  ]

  pub receive_as_refused :
      (dest : Text) (body : Outcome Text) (id : ResolvedIdentity) (t : Thread) (w : World Text)
      → t.capable ≡ false
      → (t.uid == id.uid) ≡ false
      → NotRun id (place p dest []) t w (receive_as p dest body id t w)
  unfolding receive_as
  receive_as_refused dest (err e) id t w bound other = ((e, refl), refl)
  receive_as_refused dest (ok text) id t w bound other =
      as_identity_refused id (place p dest text) t w bound other
