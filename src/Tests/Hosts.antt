-- ===== src/Tests/Hosts.antt =====
-- Runs of internal/config/host.go, `pushHostConfig` and internal/api/access.go.
use tailkitd.Prelude.{
  ◌≡◌, refl, sym, ap, Bool, true, false, Option, none, some, List, [], ◌∷◌, lookup, insert, Text,
  codes, str_eq, to_lower, trim_space,
}
use tailkitd.Os.{Outcome, World, syscall, read_file, mkdir_all, read_dir, ok}
use tailkitd.Os.Atomic.{atomic_write}
use tailkitd.Os.Plain.{stat}
use tailkitd.Access.Registry.{Grant, validate, reload}
use tailkitd.Config.Loading.{is_known}
use tailkitd.Config.Host.{
  HostConfig, HostManager, new_host_manager, set_defaults, find_host, check_hosts, load_host_file,
  ensure_host_config, put_host, write_host_file,
}
use tailkitd.Config.Host.Valid.{IsValid}
use tailkitd.Config.Host.Watching.{Watch, on_event, start, next, event}
use tailkitd.Config.Host.Watching.Kept.{new_host_manager-Reach}
use tailkitd.Api.Http.{method_post}
use tailkitd.Api.PushHost.{Fleet, push_host_config}
use tailkitd.Api.PushHost.Refines.{Updated, push_host_config_refines}
use tailkitd.Api.Grants.{Grants, serve_grants, validate_each}
use tailkitd.Api.Grants.Laws.{PostOutcome, serve_grants_lem}

abbrev web : HostConfig
web = record {
  name = codes "web";
  role = codes "front";
  environment = codes "prod";
  provider = codes "own";
  instance_type = [];
  tags = [];
  metadata = [];
}

abbrev pushed : HostConfig
pushed = record web { name = []; role = [] }

-- A text that names the hosts by their number is enough for the runs.
abbrev encode : List HostConfig → Outcome Text
encode hosts = ok (codes "hosts")

abbrev path : Text
path = codes "/etc/tailkitd/hosts.toml"

abbrev disk : World Text
disk = record { files = (path, codes "hosts") ∷ []; temp = none; faults = [] }

abbrev decode : Text → Option (List HostConfig × Bool)
decode text = some (web ∷ [], false)

abbrev manager : HostManager
manager = record { hosts = web ∷ []; self = web; path = path; self_name = codes "web" }

starts : (new_host_manager decode encode path (codes "web") disk).0 ≡ ok manager
unfolding new_host_manager ensure_host_config mkdir_all stat lookup str_eq load_host_file read_file
    check_hosts is_known find_host set_defaults
starts = refl

abbrev watch : Watch
watch = record { manager = manager; armed = false; world = disk }

new_host_manager-Reach_example :
    ((on_event decode encode path true watch).manager.self_name ≡ codes "web")
    × IsValid (on_event decode encode path true watch).manager
unfolding str_eq new_host_manager ensure_host_config mkdir_all stat lookup load_host_file read_file
    check_hosts is_known find_host set_defaults
new_host_manager-Reach_example =
    new_host_manager-Reach decode encode path (codes "web") disk manager
      (on_event decode encode path true watch) refl starts (next start (event path true))

abbrev fleet : Fleet
fleet = record { manager = manager; world = disk }

abbrev completed : HostConfig
completed = record web { role = codes "unclassified" }

abbrev decode_completed : Text → Option (List HostConfig × Bool)
decode_completed text = some (completed ∷ [], false)

pushes : (push_host_config decode_completed encode (some pushed) fleet).0 ≡ 200
unfolding push_host_config str_eq set_defaults write_host_file atomic_write syscall load_host_file
    read_file lookup insert check_hosts is_known find_host tailkitd.Config.Host.reload
pushes = refl

puts : put_host (set_defaults (codes "web") pushed) (web ∷ []) ≡ completed ∷ []
unfolding put_host set_defaults str_eq
puts = refl

web-IsValid : IsValid manager
unfolding find_host str_eq
web-IsValid = record {
  hosts_valid = (
    (record { has_name = refl; has_role = refl; has_environment = refl; has_provider = refl }, tt),
    (tt, tt),
  );
  self_found = refl;
}

push_host_config_refines_example :
    Updated decode_completed encode
      (set_defaults (codes "web") pushed)
      fleet
      (push_host_config decode_completed encode (some pushed) fleet).1
unfolding str_eq
push_host_config_refines_example =
    push_host_config_refines decode_completed encode pushed fleet
      (λ text e. ap (λ t. some (t, false)) (sym puts)) refl web-IsValid pushes

abbrev posted : Grant
posted = record { identity = codes "Ann"; target = codes "*"; role = codes "admin" }

abbrev no_grants : Grants
no_grants = record { grants = []; world = disk }

abbrev grants_text : List Grant → Outcome Text
grants_text grants = ok (codes "grants")

abbrev read_grants : Text → Option (List Grant × Bool)
read_grants text = some (posted ∷ [], false)

abbrev access_dir : Text
access_dir = codes "/etc/tailkitd/access.d"

accepts :
    (serve_grants read_grants grants_text access_dir method_post (some (posted ∷ [])) no_grants).0
    ≡ 200
unfolding serve_grants validate_each validate str_eq trim_space to_lower mkdir_all atomic_write
    reload read_dir
accepts = refl

serve_grants_lem_example :
    PostOutcome read_grants grants_text access_dir
      (some (posted ∷ []))
      no_grants
      (serve_grants read_grants grants_text access_dir method_post (some (posted ∷ [])) no_grants)
serve_grants_lem_example =
    serve_grants_lem read_grants grants_text access_dir (some (posted ∷ [])) no_grants
