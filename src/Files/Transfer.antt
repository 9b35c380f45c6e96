-- ===== src/Files/Transfer.antt =====
-- internal/files/handlers.go: files and directories that a request names by their path. How a rule
-- is found for a path, what a rule permits, and the digest in a file's state belong to other
-- packages; of a file's state only the size is modelled.
pub mod Laws
pub mod Reading
use tailkitd.Prelude.{
  ℕ, Bool, true, false, ◌||◌, not, Option, none, some, List, [], length, clean, path_join, Text,
  codes, str_eq, has_prefix, if◌then◌else◌,
}
use tailkitd.Os.{Outcome, World, mkdir_all, not_exist, ok, err}
use tailkitd.Api.Http.{Method, method_get, method_post}
use tailkitd.Files.{
  file_content, dir_entries, sent_to, Reply, failure, FilesConfig, PathRule, file_stat,
}
use tailkitd.Files.Identity.{
  Thread, Permissions, receive, receive_as, read_file_with, stat_file_with, read_dir_with,
}
use tailkitd.Files.Inbox.{recv_base, reply_with, infos, trim_slash}

pub record WriteRequest : Type 0 where
  -- the headers X-Dest-Path, X-Tool and X-Filename, empty if they are missing
  pub dest_path : Text
  pub tool : Text
  pub filename : Text
  -- what reading the body gives
  pub upload : Outcome Text

pub record ReadRequest : Type 0 where
  -- the query parameters `path` and `dir`, empty if they are missing
  pub path : Text
  pub dir : Text
  -- `stat=true`
  pub stat : Bool

-- The verdict of the guards: the rule and the cleaned path, or the refusal
pub data Verdict : Type 0 where
  granted : PathRule → Text → Verdict
  -- answered with 403
  forbidden : Verdict
  -- answered with 400
  escaping : Verdict

module _ (match_path_rule : FilesConfig → Text → Option (PathRule × Text))
    (permits : PathRule → Text → Bool) (p : Permissions) (cfg : FilesConfig) (daemon : Thread) where
  abbrev checked : Text → Text → Option (PathRule × Text) → Verdict
  checked op path none = forbidden
  checked op path (some (rule, allowed_dir)) =
      if not (permits rule op)
      then forbidden
      else if not (has_prefix (clean path) (trim_slash allowed_dir))
      then escaping
      else granted rule (clean path)

  -- The three guards that stand at the head of the handlers of a path
  unfoldable pub guard_path : Text → Text → Verdict
  guard_path op path = checked op path (match_path_rule cfg path)

  abbrev upload_size : Outcome Text → ℕ
  upload_size (ok text) = length text
  upload_size (err e) = 0

  abbrev wrote : Text → Outcome Text → Outcome Unit → World Text → Reply × World Text
  wrote dest upload (err e) w = (failure 500, w)
  wrote dest upload (ok _) w = (reply_with (sent_to dest (upload_size upload)), w)

  abbrev into_inbox : Text → Outcome Text → Outcome Unit → World Text → Reply × World Text
  into_inbox dest upload (err e) w = (failure 500, w)
  into_inbox dest upload (ok _) w =
      let (r, w') = receive p dest upload daemon w in wrote dest upload r w'

  -- The path in the inbox of the tool
  unfoldable pub inbox_dest : WriteRequest → Text
  inbox_dest req = path_join (path_join recv_base req.tool) req.filename

  -- `handleWrite` without a destination
  unfoldable pub write_inbox : WriteRequest → World Text → Reply × World Text
  write_inbox req w =
      if str_eq req.tool [] || str_eq req.filename []
      then (failure 400, w)
      else if not (has_prefix (clean (inbox_dest req)) recv_base)
      then (failure 400, w)
      else let (made, w') = mkdir_all w in into_inbox (inbox_dest req) req.upload made w'

  abbrev write_granted : Verdict → Outcome Text → World Text → Reply × World Text
  write_granted forbidden upload w = (failure 403, w)
  write_granted escaping upload w = (failure 400, w)
  write_granted (granted rule dest) upload w =
      let (r, w') = receive_as p dest upload rule.use_as daemon w in wrote dest upload r w'

  -- `handleWrite`
  unfoldable pub handle_write : WriteRequest → World Text → Reply × World Text
  handle_write req w =
      if str_eq req.dest_path []
      then write_inbox req w
      else write_granted (guard_path (codes "write") req.dest_path) req.upload w

  abbrev statted : Text → Outcome Unit → World Text → Reply × World Text
  statted text (err e) w = (failure 500, w)
  statted text (ok _) w = (reply_with (file_stat text), w)

  abbrev file_read : Bool → Text → PathRule → Outcome Text → World Text → Reply × World Text
  file_read stat path rule (err not_exist) w = (failure 404, w)
  file_read stat path rule (err e) w = (failure 500, w)
  file_read false path rule (ok text) w = (reply_with (file_content text), w)
  file_read true path rule (ok text) w =
      let (r, w') = stat_file_with p path rule.use_as daemon w in statted text r w'

  abbrev read_granted : Bool → Verdict → World Text → Reply × World Text
  read_granted stat forbidden w = (failure 403, w)
  read_granted stat escaping w = (failure 400, w)
  read_granted stat (granted rule path) w =
      let (r, w') = read_file_with p path rule.use_as daemon w in file_read stat path rule r w'

  -- `handleReadFile`
  unfoldable pub handle_read_file : ReadRequest → World Text → Reply × World Text
  handle_read_file req w = read_granted req.stat (guard_path (codes "read") req.path) w

  abbrev dir_read : Outcome (List Text) → World Text → Reply × World Text
  dir_read (err not_exist) w = (failure 404, w)
  dir_read (err e) w = (failure 500, w)
  dir_read (ok names) w = let (kept, w') = infos names w in (reply_with (dir_entries kept), w')

  abbrev list_granted : Verdict → World Text → Reply × World Text
  list_granted forbidden w = (failure 403, w)
  list_granted escaping w = (failure 400, w)
  list_granted (granted rule path) w =
      let (r, w') = read_dir_with p path rule.use_as daemon w in dir_read r w'

  -- `handleListDir`
  unfoldable pub handle_list_dir : Text → World Text → Reply × World Text
  handle_list_dir dir w = list_granted (guard_path (codes "read") dir) w

  -- `handleRead`
  unfoldable pub handle_read : ReadRequest → World Text → Reply × World Text
  handle_read req w =
      if not (str_eq req.path [])
      then handle_read_file req w
      else if not (str_eq req.dir [])
      then handle_list_dir req.dir w
      else (failure 400, w)

  -- `ServeHTTP`
  unfoldable pub serve_files : Method → WriteRequest → ReadRequest → World Text → Reply × World Text
  serve_files method_post put get w =
      if not cfg.enabled then (failure 503, w) else handle_write put w
  serve_files method_get put get w = if not cfg.enabled then (failure 503, w) else handle_read get w
  serve_files _ put get w = if not cfg.enabled then (failure 503, w) else (failure 405, w)
