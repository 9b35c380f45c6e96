-- ===== src/Tests/Scopes.antt =====
-- Runs of internal/config/vars.go and internal/vars/handlers.go.
use tailkitd.Prelude.{
  ◌≡◌, refl, true, false, Option, none, some, List, [], ◌∷◌, lookup, split, join, Text, codes,
  str_eq, cut_prefix,
}
use tailkitd.Os.{World, syscall, read_file, mkdir_all, ok}
use tailkitd.Api.Http.{method_put}
use tailkitd.Os.Atomic.{create_temp, or_close, write_temp, rename_temp, deferred_remove}
use tailkitd.Api.Gate.{trim_prefix}
use tailkitd.Vars.Store.{
  Document, is_reserved, is_key, read_scope, read_scope_or_empty, write_scope, set,
}
use tailkitd.Vars.Handlers.{
  route, VarScope, VarsConfig, VarsRequest, allows, find_scope, read_value, status,
}
use tailkitd.Vars.Handlers.Routing.{route_lem, RouteOutcome}
use tailkitd.Config.Vars.{load_vars_config, is_name, are_var_ops, validate_vars_config}

abbrev scope : VarScope
scope = record {
  project = codes "web";
  env = codes "prod";
  allow = codes "read" ∷ codes "write" ∷ [];
}

abbrev decode : Text → Option (List VarScope)
decode text = some (scope ∷ [])

abbrev config_disk : World Text
config_disk = record { files = (codes "/v", codes "x") ∷ []; temp = none; faults = [] }

abbrev config : VarsConfig
config = record { enabled = true; scopes = scope ∷ [] }

loads : (load_vars_config decode (codes "/v") config_disk).0 ≡ ok config
unfolding load_vars_config read_file lookup str_eq validate_vars_config is_name are_var_ops
loads = refl

abbrev disk : World Document
disk = record { files = []; temp = none; faults = [] }

abbrev put_key : VarsRequest
put_key = record {
  method = method_put;
  path = codes "/vars/web/prod/PORT";
  format = [];
  body = ok (codes "80\n");
  caller = codes "me";
  ctx = record { is_canceled = false };
  now = codes "now";
}

stored_80 : (route (codes "/b") config put_key disk).0 ≡ status 200
unfolding route trim_prefix cut_prefix split join str_eq find_scope allows read_value set
    is_reserved is_key read_scope_or_empty read_scope read_file write_scope mkdir_all syscall
    create_temp or_close write_temp rename_temp deferred_remove lookup
stored_80 = refl

route_lem_example : RouteOutcome (codes "/b") config disk (route (codes "/b") config put_key disk)
route_lem_example = route_lem (codes "/b") config put_key disk
