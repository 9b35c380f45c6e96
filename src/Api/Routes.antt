-- ===== src/Api/Routes.antt =====
-- internal/api/admin.go: `ServeHTTP` and `handleHostMutation`, which choose the handler.
pub mod Capability
use tailkitd.Prelude.{
  Bool, true, false, ◌&&◌, not, List, [], ◌∷◌, split, Text, codes, str_eq, has_prefix,
  if◌then◌else◌,
}
use tailkitd.Api.Http.{Method, method_post, method_delete}
use tailkitd.Api.Gate.{hosts_prefix, trim_prefix}

-- What a request is taken for.
pub data Action : Type 0 where
  accept_promotion transfer_admin atomic_write_file access_grants : Action
  push_host_config : Action
  push_service delete_service : Text → Action
  -- 400: the path names another host
  wrong_host : Action
  -- 404
  not_found : Action

service_action : Method → Text → Action
service_action method_post name = push_service name
service_action method_delete name = delete_service name
service_action _ name = not_found

is_post : Method → Bool
is_post method_post = true
is_post _ = false

host_target : Method → Text → List Text → Action
host_target m part [] =
    if str_eq part (codes "config") && is_post m then push_host_config else not_found
host_target m part (name ∷ []) =
    if str_eq part (codes "services") then service_action m name else not_found
host_target m part (name ∷ more ∷ parts) = not_found

host_action : Text → Method → List Text → Action
host_action self m [] = not_found
host_action self m (host ∷ []) = not_found
host_action self m (host ∷ part ∷ parts) =
    if not (str_eq host (codes "me")) && not (str_eq host self)
    then wrong_host
    else host_target m part parts

-- `handleHostMutation`, for the node called `self`
unfoldable pub handle_host_mutation : Text → Method → Text → Action
unfolding host_action host_target service_action is_post
handle_host_mutation self m path = host_action self m (split b'/' (trim_prefix path hosts_prefix))

-- `ServeHTTP`
unfoldable pub serve_http : Text → Method → Text → Action
unfolding handle_host_mutation
serve_http self m path =
    if str_eq path (codes "/admin/internal/accept-promotion")
    then accept_promotion
    else if str_eq path (codes "/admin/transfer")
    then transfer_admin
    else if str_eq path (codes "/admin/files/write")
    then atomic_write_file
    else if str_eq path (codes "/admin/access/grants")
    then access_grants
    else if has_prefix path hosts_prefix
    then handle_host_mutation self m path
    else not_found
