-- ===== src/Vars/Handlers.antt =====
-- internal/vars/handlers.go: the requests below /vars/. A response is its status and, where there
-- is one, the text or the variables in it.
pub mod Confined
pub mod Routing
use mathlib.Core.List.{reverse}
use tailkitd.Prelude.{
  ℕ, Bool, false, ◌&&◌, ◌||◌, not, Option, none, some, List, [], ◌∷◌, Dict, length, split, join,
  Text, codes, str_eq, leb, ◌==◌, if◌then◌else◌,
}
use tailkitd.Os.{
  Outcome, World, invalid, scope_not_found, key_not_found, reserved_key, invalid_key, ok, err,
}
use tailkitd.Api.Http.{Method, method_get, method_put, method_delete}
use tailkitd.Api.Gate.{trim_prefix}
use tailkitd.Vars.Store.{Document, Context, list, get, set, delete, delete_scope, render_env}

pub record VarScope : Type 0 where
  pub project : Text
  pub env : Text
  pub allow : List Text

pub record VarsConfig : Type 0 where
  pub enabled : Bool
  pub scopes : List VarScope

pub record VarsRequest : Type 0 where
  pub method : Method
  pub path : Text
  -- the parameter `format` of the query
  pub format : Text
  -- what reading the body gives
  pub body : Outcome Text
  -- the host name of the caller
  pub caller : Text
  pub ctx : Context
  -- the time, as RFC 3339 writes it
  pub now : Text

pub data Reply : Type 0 where
  status : ℕ → Reply
  vars_reply : Dict Text → Reply
  env_reply value_reply : Text → Reply

-- `slices.Contains(scope.Allow, op)`
unfoldable pub allows : Text → List Text → Bool
allows op [] = false
allows op (a ∷ ops) = str_eq a op || allows op ops

-- `findScope`
unfoldable pub find_scope : List VarScope → Text → Text → Option VarScope
find_scope [] project env = none
find_scope (s ∷ scopes) project env =
    if str_eq s.project project && str_eq s.env env then some s else find_scope scopes project env

-- 1 MiB
abbrev pub body_limit : ℕ
body_limit = 1048576

trim_newlines : Text → Text
trim_newlines [] = []
trim_newlines (c ∷ s) = let rest = trim_newlines s in if c == 10 then rest else c ∷ s

-- `readBody`, and `strings.TrimRight(body, "\n")`
unfoldable pub read_value : Outcome Text → Outcome Text
unfolding trim_newlines
read_value (err e) = err e
read_value (ok body) =
    if leb body_limit (length body)
    then err invalid
    else ok (reverse (trim_newlines (reverse body)))

abbrev list_reply : Outcome (Dict Text) → Reply
list_reply (ok d) = vars_reply d
list_reply (err scope_not_found) = vars_reply []
list_reply (err e) = status 500

abbrev env_reply_of : Outcome Text → Reply
env_reply_of (ok text) = env_reply text
env_reply_of (err scope_not_found) = env_reply []
env_reply_of (err e) = status 500

abbrev get_reply : Outcome Text → Reply
get_reply (ok v) = value_reply v
get_reply (err key_not_found) = status 404
get_reply (err scope_not_found) = status 404
get_reply (err reserved_key) = status 400
get_reply (err e) = status 500

abbrev set_reply : Outcome Unit → Reply
set_reply (ok _) = status 200
set_reply (err reserved_key) = status 400
set_reply (err invalid_key) = status 400
set_reply (err e) = status 500

abbrev delete_reply : Outcome Unit → Reply
delete_reply (ok _) = status 204
delete_reply (err reserved_key) = status 400
delete_reply (err e) = status 500

abbrev scope_reply : Outcome Unit → Reply
scope_reply (ok _) = status 204
scope_reply (err e) = status 500

abbrev answered : {A : Type 0} → (A → Reply) → A × World Document → Reply × World Document
answered f (a, w) = (f a, w)

module _ (base_dir : Text) where
  -- `handleList` and `handleEnv`
  read_scope_as : VarsRequest → Text → Text → World Document → Reply × World Document
  read_scope_as r project env w =
      if str_eq r.format (codes "env")
      then answered env_reply_of (render_env base_dir r.ctx project env w)
      else answered list_reply (list base_dir r.ctx project env w)

  -- `routeScope`
  route_scope :
      VarsRequest → VarScope → Text → Text → Method → World Document → Reply × World Document
  unfolding read_scope_as
  route_scope r s project env method_get w =
      if allows (codes "read") s.allow then read_scope_as r project env w else (status 403, w)
  route_scope r s project env method_delete w =
      if allows (codes "write") s.allow
      then answered scope_reply (delete_scope base_dir r.ctx project env w)
      else (status 403, w)
  route_scope r s project env _ w = (status 405, w)

  -- `handleSet`
  abbrev set_value :
      VarsRequest → Text → Text → Text → Outcome Text → World Document → Reply × World Document
  set_value r project env key (err e) w = (status 400, w)
  set_value r project env key (ok value) w =
      answered set_reply (set base_dir r.now r.ctx project env key value r.caller w)

  -- `routeKey`
  route_key :
      VarsRequest → VarScope → Text → Text → Text → Method → World Document → Reply × World Document
  route_key r s project env key method_get w =
      if allows (codes "read") s.allow
      then answered get_reply (get base_dir r.ctx project env key w)
      else (status 403, w)
  route_key r s project env key method_put w =
      if allows (codes "write") s.allow
      then set_value r project env key (read_value r.body) w
      else (status 403, w)
  route_key r s project env key method_delete w =
      if allows (codes "write") s.allow
      then answered delete_reply (delete base_dir r.now r.ctx project env key r.caller w)
      else (status 403, w)
  route_key r s project env key _ w = (status 405, w)

  abbrev on_scope :
      VarsRequest → Text → Text → Text → Option VarScope → World Document → Reply × World Document
  on_scope r project env key none w = (status 404, w)
  on_scope r project env key (some s) w =
      if str_eq key []
      then route_scope r s project env r.method w
      else route_key r s project env key r.method w

  -- `strings.SplitN(…, "/", 3)`: what is left of the path is the key.
  abbrev on_parts : VarsConfig → VarsRequest → List Text → World Document → Reply × World Document
  on_parts cfg r [] w = (status 400, w)
  on_parts cfg r (project ∷ []) w = (status 400, w)
  on_parts cfg r (project ∷ env ∷ parts) w =
      if str_eq project [] || str_eq env []
      then (status 400, w)
      else on_scope r project env (join b'/' parts) (find_scope cfg.scopes project env) w

  -- `route`
  unfoldable pub route : VarsConfig → VarsRequest → World Document → Reply × World Document
  unfolding route_scope route_key
  route cfg r w =
      if not cfg.enabled
      then (status 503, w)
      else on_parts cfg r (split b'/' (trim_prefix r.path (codes "/vars/"))) w
