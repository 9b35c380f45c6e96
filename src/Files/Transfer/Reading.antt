-- ===== src/Files/Transfer/Reading.antt =====
-- internal/files/handlers.go: what a read shows.
use tailkitd.Prelude.{
  ◌≡◌, refl, ◌∙◌, inl, inr, Bool, true, false, Option, some, List, [], Dict, lookup, Text, codes,
  str_eq, Bool-cases,
}
use tailkitd.Os.{Outcome, World, not_exist, ok, err}
use tailkitd.Files.{FilesConfig, PathRule, Reply, Body, file_content, file_stat}
use tailkitd.Files.Identity.{Thread, Permissions, read_file_with, stat_file_with, read_dir_with}
use tailkitd.Files.Identity.Laws.{
  uid_for, gid_for, ReadBy, read_file_with_lem, stat_file_with-files, read_dir_with-files,
}
use tailkitd.Files.Inbox.Confined.{infos-files}
use tailkitd.Files.Transfer.{
  granted, Verdict, guard_path, forbidden, escaping, file_read, ReadRequest, handle_read_file,
  handle_list_dir, handle_read, statted, read_granted, dir_read, list_granted,
}
use tailkitd.Files.Transfer.Laws.{GrantedBy, checked-granted}

module _ (match_path_rule : FilesConfig → Text → Option (PathRule × Text))
    (permits : PathRule → Text → Bool) (p : Permissions) (cfg : FilesConfig) (daemon : Thread) where
  -- The text is that of the cleaned path that a rule grants for reading, read with the permission of
  -- the rule's user, or of the daemon if the rule has none.
  abbrev pub ReadFrom : Text → Dict Text → Text → Type 0
  ReadFrom asked files text =
      (rule : PathRule) × (path : Text) × GrantedBy match_path_rule permits p cfg daemon
        (codes "read") asked rule path
      × (p.may_read (uid_for rule.use_as daemon) (gid_for rule.use_as daemon) path ≡ true)
      × (lookup path files ≡ some text)

  abbrev pub ReadShows : Text → Dict Text → Body → Type 0
  ReadShows asked files (file_content text) = ReadFrom asked files text
  ReadShows asked files (file_stat text) = ReadFrom asked files text
  ReadShows asked files _ = Unit

  abbrev pub ReadOutcome : Text → World Text → Reply × World Text → Type 0
  ReadOutcome asked w out = (out.1.files ≡ w.files) × ReadShows asked w.files out.0.body

  statted_lem :
      (asked text : Text) (r : Outcome Unit) (w v : World Text)
      → v.files ≡ w.files
      → ReadFrom asked w.files text
      → ReadOutcome asked w (statted match_path_rule permits p cfg daemon text r v)
  statted_lem asked text (err e) w v same from = (same, tt)
  statted_lem asked text (ok u) w v same from = (same, from)

  file_read_lem :
      (asked : Text) (stat : Bool) (rule : PathRule) (path : Text) (r : Outcome Text)
      (w v : World Text)
      → GrantedBy match_path_rule permits p cfg daemon (codes "read") asked rule path
      → ReadBy p path (uid_for rule.use_as daemon) (gid_for rule.use_as daemon) w.files (r, v)
      → ReadOutcome asked w (file_read match_path_rule permits p cfg daemon stat path rule r v)
  file_read_lem asked stat rule path (err not_exist) w v g (same, shown) = (same, tt)
  file_read_lem asked stat rule path (err e) w v g (same, shown) = (same, tt)
  file_read_lem asked false rule path (ok text) w v g (same, shown) =
      let (may, held) = shown text refl in (same, (rule, path, g, may, held))
  file_read_lem asked true rule path (ok text) w v g (same, shown) =
      let (may, held) = shown text refl in
      let (r, v') = stat_file_with p path rule.use_as daemon v in
      statted_lem asked text r w v' (stat_file_with-files p path rule.use_as daemon v ∙ same)
        (rule, path, g, may, held)

  dir_read_lem :
      (asked : Text) (r : Outcome (List Text)) (w v : World Text)
      → v.files ≡ w.files
      → ReadOutcome asked w (dir_read match_path_rule permits p cfg daemon r v)
  dir_read_lem asked (err not_exist) w v same = (same, tt)
  dir_read_lem asked (err e) w v same = (same, tt)
  dir_read_lem asked (ok names) w v same = (infos-files names v ∙ same, tt)

  read_granted_lem :
      (asked : Text) (stat : Bool) (verdict : Verdict) (w : World Text)
      → guard_path match_path_rule permits p cfg daemon (codes "read") asked ≡ verdict
      → ReadOutcome asked w (read_granted match_path_rule permits p cfg daemon stat verdict w)
  unfolding guard_path
  read_granted_lem asked stat forbidden w h = (refl, tt)
  read_granted_lem asked stat escaping w h = (refl, tt)
  read_granted_lem asked stat (granted rule path) w h =
      let (r, v) = read_file_with p path rule.use_as daemon w in
      file_read_lem asked stat rule path r w v
        (checked-granted match_path_rule permits p cfg daemon (codes "read") asked
          (match_path_rule cfg asked) rule path refl h)
        (read_file_with_lem p path rule.use_as daemon w)

  list_granted_lem :
      (asked : Text) (verdict : Verdict) (w : World Text)
      → ReadOutcome asked w (list_granted match_path_rule permits p cfg daemon verdict w)
  list_granted_lem asked forbidden w = (refl, tt)
  list_granted_lem asked escaping w = (refl, tt)
  list_granted_lem asked (granted rule path) w =
      let (r, v) = read_dir_with p path rule.use_as daemon w in
      dir_read_lem asked r w v (read_dir_with-files p path rule.use_as daemon w)

  -- A read leaves the files as they were, and what it shows of a file's content is that of the
  -- cleaned path that a rule grants for reading, with the permission of the rule's user, or of the
  -- daemon if the rule has none.
  pub handle_read_lem :
      (req : ReadRequest) (w : World Text)
      → ReadOutcome req.path w (handle_read match_path_rule permits p cfg daemon req w)
  unfolding handle_read handle_read_file handle_list_dir
  handle_read_lem req w = elim (Bool-cases (str_eq req.path [])) [
    | inr e ↦ rw e (
        read_granted_lem req.path req.stat
          (guard_path match_path_rule permits p cfg daemon (codes "read") req.path) w refl)
    | inl e ↦ elim (Bool-cases (str_eq req.dir [])) [
      | inl no_dir ↦ rw (e, no_dir) (refl, tt)
      | inr named ↦
          rw (e, named)
            (list_granted_lem req.path
              (guard_path match_path_rule permits p cfg daemon (codes "read") req.dir) w)
    ]
  ]
