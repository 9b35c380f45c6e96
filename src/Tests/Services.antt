-- ===== src/Tests/Services.antt =====
-- Runs of internal/services/registry.go and of the handlers that write service files.
use tailkitd.Prelude.{
  ◌≡◌, refl, Bool, false, Option, none, some, [], ◌∷◌, lookup, insert, sort, Text, codes, str_eq,
  has_suffix, to_lower, trim_space, cut_prefix, contains_byte, if◌then◌else◌,
}
use tailkitd.Os.Atomic.{atomic_write}
use tailkitd.Os.{Outcome, syscall, read_file, mkdir_all, read_dir, invalid, ok, err}
use tailkitd.Services.Registry.{
  OutsiderServiceConfig, validate, file_path, load_one, load_dir, reload,
}
use tailkitd.Services.Push.{push_service, Host}
use tailkitd.Services.Push.Laws.{push_service_lem, PushOutcome}

abbrev web : OutsiderServiceConfig
web = record {
  name = codes "web";
  runtime = codes "systemd";
  priority = codes "normal";
  tags = [];
  expected_ports = 80 ∷ [];
  systemd_unit = codes "web.service";
  binary_path = [];
  pid_file = [];
}

-- A coder that knows one text.
abbrev encode : OutsiderServiceConfig → Outcome Text
encode s = ok (codes "web")

abbrev decode : Text → Option (OutsiderServiceConfig × Bool)
decode text = if str_eq text (codes "web") then some (web, false) else none

abbrev host : Host
host = record { services = []; world = record { files = []; temp = none; faults = [] } }

accepts : validate (record web { runtime = codes " SystemD "; priority = [] }) ≡ ok web
unfolding validate to_lower trim_space str_eq
accepts = refl

rejects : validate (record web { pid_file = codes "/p" }) ≡ err invalid
unfolding validate to_lower trim_space str_eq
rejects = refl

pushed :
    (push_service decode encode (codes "/d") (codes "web") (some web) host).1.services
    ≡ (codes "web", web) ∷ []
unfolding push_service validate to_lower trim_space str_eq mkdir_all atomic_write syscall reload
    load_dir load_one read_dir read_file sort file_path cut_prefix contains_byte lookup insert
    has_suffix
pushed = refl

push_service_lem_example :
    PushOutcome decode encode
      (codes "/d")
      (codes "web")
      (some web)
      host
      (push_service decode encode (codes "/d") (codes "web") (some web) host)
push_service_lem_example = push_service_lem decode encode (codes "/d") (codes "web") (some web) host

abbrev full : Host
full = record host {
  world = record { files = (codes "/d/web.toml", codes "web") ∷ []; temp = none; faults = [] };
}
