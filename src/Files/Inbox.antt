-- ===== src/Files/Inbox.antt =====
-- internal/files/handlers.go: the inbox, where other nodes leave files for a tool. The daemon reads
-- it as itself. `Os.read_dir` names a directory without its last slash.
pub mod Confined
use tailkitd.Prelude.{
  Bool, true, false, ◌&&◌, not, Option, none, some, List, [], ◌∷◌, ◌++◌, is_abs, clean, path_join,
  cut, Text, codes, str_eq, has_prefix, cut_prefix, ◌==◌, if◌then◌else◌,
}
use tailkitd.Os.{Outcome, World, syscall, read_file, remove, read_dir, not_exist, invalid, ok, err}
use tailkitd.Api.Http.{Method, method_get, method_delete}
use tailkitd.Files.{Body, no_body, file_content, dir_entries, Reply, failure, FilesConfig}

-- `recvBase`
abbrev pub recv_base : Text
recv_base = codes "/var/lib/tailkitd/recv"

-- `filepath.Join(recvBase, tool) + "/"`
unfoldable pub tool_dir : Text → Text
tool_dir tool = path_join recv_base tool ++ b'/' ∷ []

-- `resolveInboxPath`
unfoldable pub resolve_inbox_path : Text → Text → Outcome Text
resolve_inbox_path dir rel =
    if is_abs rel
    then err invalid
    else let path = clean (path_join dir rel) in
      if not (has_prefix path (clean dir ++ b'/' ∷ [])) && not (str_eq path (clean dir))
      then err invalid
      else ok path

abbrev pub reply_with : Body → Reply
reply_with body = record { status = 200; body = body }

abbrev pub keep_if : Outcome Unit → Text → List Text → List Text
keep_if (ok _) name names = name ∷ names
keep_if (err e) name names = names

-- The loop that asks each entry for its `Info`, and leaves out those that fail
unfoldable pub infos : List Text → World Text → List Text × World Text
infos [] w = ([], w)
infos (name ∷ names) w =
    let (r, w') = syscall w in let (rest, w'') = infos names w' in (keep_if r name rest, w'')

abbrev listed : Outcome (List Text) → World Text → Reply × World Text
listed (ok names) w = let (kept, w') = infos names w in (reply_with (dir_entries kept), w')
listed (err not_exist) w = (reply_with (dir_entries []), w)
listed (err e) w = (failure 500, w)

abbrev without_slash : Text → Text
without_slash [] = []
without_slash (c ∷ []) = if c == b'/' then [] else c ∷ []
without_slash (c ∷ d ∷ s) = c ∷ without_slash (d ∷ s)

-- `strings.TrimSuffix(s, "/")`
unfoldable pub trim_slash : Text → Text
trim_slash s = without_slash s

-- `handleInboxList`
unfoldable pub handle_inbox_list : Text → World Text → Reply × World Text
handle_inbox_list dir w = let (r, w') = read_dir (trim_slash dir) w in listed r w'

abbrev file_read : Outcome Text → World Text → Reply × World Text
file_read (ok text) w = (reply_with (file_content text), w)
file_read (err not_exist) w = (failure 404, w)
file_read (err e) w = (failure 500, w)

abbrev read_resolved : Outcome Text → World Text → Reply × World Text
read_resolved (err e) w = (failure 400, w)
read_resolved (ok path) w = let (r, w') = read_file path w in file_read r w'

-- `handleInboxReadFile`, for the query parameter `path`, which is empty if it is missing
unfoldable pub handle_inbox_read_file : Text → Text → World Text → Reply × World Text
handle_inbox_read_file dir rel w =
    if str_eq rel [] then (failure 400, w) else read_resolved (resolve_inbox_path dir rel) w

abbrev removed : Outcome Unit → World Text → Reply × World Text
removed (ok _) w = (record { status = 204; body = no_body }, w)
removed (err not_exist) w = (failure 404, w)
removed (err e) w = (failure 500, w)

abbrev remove_resolved : Outcome Text → World Text → Reply × World Text
remove_resolved (err e) w = (failure 400, w)
remove_resolved (ok path) w = let (r, w') = remove path w in removed r w'

-- `handleInboxDelete`; the `os.Remove` of the code also removes an empty directory, which the model
-- does not see and answers with 404.
unfoldable pub handle_inbox_delete : Text → Text → World Text → Reply × World Text
handle_inbox_delete dir rel w =
    if str_eq rel [] then (failure 400, w) else remove_resolved (resolve_inbox_path dir rel) w

pub record InboxRequest : Type 0 where
  pub method : Method
  pub path : Text
  -- the query parameter `path`
  pub query : Text

abbrev is_get : Method → Bool
is_get method_get = true
is_get _ = false

abbrev is_delete : Method → Bool
is_delete method_delete = true
is_delete _ = false

abbrev or_self : Text → Option Text → Text
or_self s none = s
or_self s (some t) = t

abbrev or_whole : Text → Option (Text × Text) → Text × Text
or_whole s none = (s, [])
or_whole s (some parts) = parts

-- The tool and what stands behind it
unfoldable pub inbox_route : Text → Text × Text
inbox_route path =
    let rest = or_self path (cut_prefix path (codes "/inbox/")) in or_whole rest (cut b'/' rest)

abbrev at_tool : Text → Text → InboxRequest → World Text → Reply × World Text
at_tool dir suffix req w =
    if str_eq suffix [] && is_get req.method
    then handle_inbox_list dir w
    else if str_eq suffix (codes "file") && is_get req.method
    then handle_inbox_read_file dir req.query w
    else if str_eq suffix (codes "file") && is_delete req.method
    then handle_inbox_delete dir req.query w
    else if str_eq suffix (codes "file")
    then (failure 405, w)
    else (failure 404, w)

-- `serveInbox`
unfoldable pub serve_inbox : FilesConfig → InboxRequest → World Text → Reply × World Text
serve_inbox cfg req w =
    if not cfg.enabled
    then (failure 503, w)
    else let (tool, suffix) = inbox_route req.path in
      if str_eq tool [] then (failure 400, w) else at_tool (tool_dir tool) suffix req w
