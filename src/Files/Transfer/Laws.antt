-- ===== src/Files/Transfer/Laws.antt =====
-- internal/files/handlers.go: what a request for a path may read and write.
use tailkitd.Prelude.{
  ℕ, ◌≡◌, refl, sym, ◌⊎◌, inl, inr, Bool, true, false, ◌||◌, Option, none, some, [], insert, length,
  clean, path_join, Text, codes, str_eq, eq_of_str_eq, has_prefix, ◌==◌, Bool-cases,
}
use tailkitd.Os.{Error, Outcome, World, mkdir_all, mkdir_all-files, ok, err}
use tailkitd.Api.Http.{is_success}
use tailkitd.Files.{FilesConfig, PathRule, Reply, sent_to}
use tailkitd.Files.Identity.{Thread, Permissions, receive, receive_as}
use tailkitd.Files.Identity.Laws.{Received, receive_lem, receive_as_lem, receive_as_refused}
use tailkitd.Files.Inbox.{trim_slash, recv_base, reply_with}
use tailkitd.Files.Transfer.{
  granted, checked, WriteRequest, Verdict, guard_path, inbox_dest, wrote, into_inbox, write_granted,
  write_inbox, handle_write, forbidden, escaping,
}

module _ (match_path_rule : FilesConfig → Text → Option (PathRule × Text))
    (permits : PathRule → Text → Bool) (p : Permissions) (cfg : FilesConfig) (daemon : Thread) where
  -- The path was granted by a rule: it is the cleaned form of what was asked for.
  abbrev pub GrantedBy : Text → Text → PathRule → Text → Type 0
  GrantedBy op asked rule path =
      (path ≡ clean asked)
      × ((allowed_dir : Text) × (match_path_rule cfg asked ≡ some (rule, allowed_dir))
          × (has_prefix path (trim_slash allowed_dir) ≡ true))
      × (permits rule op ≡ true)

  pub checked-granted :
      (op asked : Text) (m : Option (PathRule × Text)) (rule : PathRule) (path : Text)
      → match_path_rule cfg asked ≡ m
      → checked match_path_rule permits p cfg daemon op asked m ≡ granted rule path
      → GrantedBy op asked rule path
  checked-granted op asked none rule path e h = absurd (cc h)
  checked-granted op asked (some (r, d)) rule path e h = elim (Bool-cases (permits r op)) [
    | inr barred ↦ absurd (cc (rw barred at h))
    | inl may ↦ elim (Bool-cases (has_prefix (clean asked) (trim_slash d))) [
      | inr out ↦ absurd (cc (rw (may, out) at h))
      | inl below ↦
          let found : granted r (clean asked) ≡ granted rule path = rw (may, below) at h in
          let same : clean asked ≡ path = cc found in
          let of : r ≡ rule = cc found in
          (sym same, (d, rw (← of) e, rw (← same) below), rw (← of) may)
    ]
  ]

  -- Where a request may put its file: at the path that a rule grants, with the permission of the
  -- rule's user, or where the bytes of its path begin with those of the inbox, with that of the daemon.
  abbrev pub Destination : WriteRequest → Text → Type 0
  Destination req dest =
      ((rule : PathRule) × GrantedBy (codes "write") req.dest_path rule dest
        × (p.may_write rule.use_as.uid rule.use_as.gid dest ≡ true))
      ⊎ ((req.dest_path ≡ [])
          × (dest ≡ path_join (path_join recv_base req.tool) req.filename)
          × (has_prefix (clean dest) recv_base ≡ true)
          × (p.may_write daemon.uid daemon.gid dest ≡ true))

  abbrev pub WriteOutcome : WriteRequest → World Text → Reply × World Text → Type 0
  WriteOutcome req w out =
      ((dest : Text) × (text : Text) × (out.0 ≡ reply_with (sent_to dest (length text)))
        × (req.upload ≡ ok text)
        × (out.1.files ≡ insert dest text w.files)
        × Destination req dest)
      ⊎ ((is_success out.0.status ≡ false) × (out.1.files ≡ w.files))

  wrote_lem :
      (req : WriteRequest) (dest : Text) (uid gid : ℕ) (r : Outcome Unit) (w v : World Text)
      → (p.may_write uid gid dest ≡ true → Destination req dest)
      → Received p dest req.upload uid gid r w.files v.files
      → WriteOutcome req w (wrote match_path_rule permits p cfg daemon dest req.upload r v)
  wrote_lem req dest uid gid (err e) w v to same = inr (refl, same)
  wrote_lem req dest uid gid (ok u) w v to (text, sent, may, written) =
      inl (dest, text, rw sent refl, sent, written, to may)

  into_inbox_lem :
      (req : WriteRequest) (r : Outcome Unit) (w v : World Text)
      → req.dest_path ≡ []
      → has_prefix (clean (inbox_dest match_path_rule permits p cfg daemon req)) recv_base ≡ true
      → v.files ≡ w.files
      → WriteOutcome req w (
          into_inbox match_path_rule permits p cfg daemon
            (inbox_dest match_path_rule permits p cfg daemon req)
            req.upload
            r
            v)
  unfolding inbox_dest
  into_inbox_lem req (err e) w v none_named below same = inr (refl, same)
  into_inbox_lem req (ok u) w v none_named below same =
      let dest = path_join (path_join recv_base req.tool) req.filename in
      let (r, v') = receive p dest req.upload daemon v in
      wrote_lem req dest daemon.uid daemon.gid r w v' (λ may. inr (none_named, refl, below, may))
        (rw (← same) (receive_lem p dest req.upload daemon v))

  write_granted_lem :
      (req : WriteRequest) (verdict : Verdict) (w : World Text)
      → guard_path match_path_rule permits p cfg daemon (codes "write") req.dest_path ≡ verdict
      → WriteOutcome req w (write_granted match_path_rule permits p cfg daemon verdict req.upload w)
  unfolding guard_path
  write_granted_lem req forbidden w h = inr (refl, refl)
  write_granted_lem req escaping w h = inr (refl, refl)
  write_granted_lem req (granted rule dest) w h =
      let (r, v) = receive_as p dest req.upload rule.use_as daemon w in
      wrote_lem req dest rule.use_as.uid rule.use_as.gid r w v
        (λ may. inl (
          rule,
          checked-granted (codes "write") req.dest_path (match_path_rule cfg req.dest_path) rule
              dest refl h,
          may,
        ))
        (receive_as_lem p dest req.upload rule.use_as daemon w)

  write_inbox_lem :
      (req : WriteRequest) (w : World Text)
      → req.dest_path ≡ []
      → WriteOutcome req w (write_inbox match_path_rule permits p cfg daemon req w)
  unfolding write_inbox
  write_inbox_lem req w none_named =
      let dest = inbox_dest match_path_rule permits p cfg daemon req in
      elim (Bool-cases (str_eq req.tool [] || str_eq req.filename [])) [
        | inl e ↦ rw e (inr (refl, refl))
        | inr e ↦ elim (Bool-cases (has_prefix (clean dest) recv_base)) [
          | inr out ↦ rw (e, out) (inr (refl, refl))
          | inl below ↦
              rw (e, below)
                (into_inbox_lem req (mkdir_all w).0 w (mkdir_all w).1 none_named below
                  (mkdir_all-files w))
        ]
      ]

  -- A file that is sent is answered with 200 exactly if it has replaced the file at its destination,
  -- which is the cleaned path that a rule grants for writing, with the permission of that rule's uid
  -- and gid, or, for a request without a path, is joined of the inbox, the tool and the name of the
  -- file, and begins once cleaned with the bytes of the inbox's path, as /var/lib/tailkitd/recv2 does
  -- as well, with the permission of the daemon; any other answer is an error and leaves the files as
  -- they were.
  pub handle_write_lem :
      (req : WriteRequest) (w : World Text)
      → WriteOutcome req w (handle_write match_path_rule permits p cfg daemon req w)
  unfolding handle_write
  handle_write_lem req w = elim (Bool-cases (str_eq req.dest_path [])) [
    | inl e ↦ rw e (write_inbox_lem req w (eq_of_str_eq req.dest_path [] e))
    | inr e ↦ rw e (
        write_granted_lem req
          (guard_path match_path_rule permits p cfg daemon (codes "write") req.dest_path) w refl)
  ]

  wrote_failed :
      (dest : Text) (upload : Outcome Text) (r : Outcome Unit) (w v : World Text)
      → ((e : Error) × (r ≡ err e)) × (v.files ≡ w.files)
      → let out = wrote match_path_rule permits p cfg daemon dest upload r v in
        (is_success out.0.status ≡ false) × (out.1.files ≡ w.files)
  wrote_failed dest upload r w v ((e, failed), same) = rw failed (refl, same)

  -- Where the daemon has no capability and is not the rule's uid, 0 if the rule has no user that is
  -- known, no write to a path of the rule succeeds and no file changes.
  pub handle_write-no_identity :
      (req : WriteRequest) (w : World Text) (rule : PathRule) (allowed_dir : Text)
      → str_eq req.dest_path [] ≡ false
      → match_path_rule cfg req.dest_path ≡ some (rule, allowed_dir)
      → daemon.capable ≡ false
      → (daemon.uid == rule.use_as.uid) ≡ false
      → let out = handle_write match_path_rule permits p cfg daemon req w in
        (is_success out.0.status ≡ false) × (out.1.files ≡ w.files)
  unfolding handle_write guard_path
  handle_write-no_identity req w rule allowed_dir named found bound other =
      let dest = clean req.dest_path in
      elim (Bool-cases (permits rule (codes "write"))) [
        | inr barred ↦ rw (named, found, barred) (refl, refl)
        | inl may ↦ elim (Bool-cases (has_prefix dest (trim_slash allowed_dir))) [
          | inr out ↦ rw (named, found, may, out) (refl, refl)
          | inl below ↦
              rw (named, found, may, below)
                (wrote_failed dest req.upload (receive_as p dest req.upload rule.use_as daemon w).0
                  w (receive_as p dest req.upload rule.use_as daemon w).1
                  (receive_as_refused p dest req.upload rule.use_as daemon w bound other))
        ]
      ]
