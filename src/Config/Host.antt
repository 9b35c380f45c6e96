-- ===== src/Config/Host.antt =====
-- internal/config/host.go: the hosts of the fleet, in a file that an admin writes, and what the
-- daemon keeps of it. A nil slice or map is the empty one, which is what `SetDefaults` makes of it.
-- The TOML decoder gives the hosts, and whether the text has keys of no field.
pub mod Checks
pub mod Valid
pub mod Watching
use tailkitd.Prelude.{
  Bool, true, false, ◌||◌, not, Option, none, some, List, [], ◌∷◌, map, Dict, sort, Text, codes,
  str_eq, str_lt, if◌then◌else◌,
}
use tailkitd.Os.{
  Outcome, World, Io, ◌>>=◌, ◌>>◌, syscall, read_file, mkdir_all, not_exist, malformed, invalid, ok,
  err,
}
use tailkitd.Os.Plain.{stat}
use tailkitd.Os.Atomic.{atomic_write}
use tailkitd.Config.Loading.{is_known}

pub record HostConfig : Type 0 where
  pub name : Text
  pub role : Text
  pub environment : Text
  pub provider : Text
  pub instance_type : Text
  pub tags : List Text
  pub metadata : Dict Text

abbrev or_text : Text → Text → Text
or_text s otherwise = if str_eq s [] then otherwise else s

-- `SetDefaults`
unfoldable pub set_defaults : Text → HostConfig → HostConfig
set_defaults name h = record h {
  name = or_text h.name name;
  role = or_text h.role (codes "unclassified");
  environment = or_text h.environment (codes "default");
  provider = or_text h.provider (codes "unknown");
}

-- `resolveSelfHost`, for its result
unfoldable pub find_host : Text → List HostConfig → Option HostConfig
find_host name [] = none
find_host name (h ∷ hosts) = if str_eq h.name name then some h else find_host name hosts

-- The first host of that name is replaced, or the host is added.
unfoldable pub put_host : HostConfig → List HostConfig → List HostConfig
put_host c [] = c ∷ []
put_host c (h ∷ hosts) = if str_eq h.name c.name then c ∷ hosts else h ∷ put_host c hosts

abbrev cons_ok : HostConfig → Outcome (List HostConfig) → Outcome (List HostConfig)
cons_ok h (ok hosts) = ok (h ∷ hosts)
cons_ok h (err e) = err e

-- The loop of `LoadHostFile`, with the names that have been seen
unfoldable pub check_hosts : List Text → List HostConfig → Outcome (List HostConfig)
check_hosts seen [] = ok []
check_hosts seen (h ∷ hosts) =
    let rest = check_hosts (h.name ∷ seen) hosts in
    if str_eq h.name [] || is_known seen h.name
    then err invalid
    else cons_ok (set_defaults h.name h) rest

-- `HostManager`, without its lock and its watcher
pub record HostManager : Type 0 where
  pub hosts : List HostConfig
  pub self : HostConfig
  pub path : Text
  pub self_name : Text

module _ (toml_decode : Text → Option (List HostConfig × Bool))
    (toml_encode : List HostConfig → Outcome Text) where
  abbrev decoded_hosts : Option (List HostConfig × Bool) → Outcome (List HostConfig)
  decoded_hosts none = err malformed
  decoded_hosts (some (hosts, true)) = err invalid
  decoded_hosts (some ([], false)) = err invalid
  decoded_hosts (some (h ∷ hosts, false)) = check_hosts [] (h ∷ hosts)

  -- `LoadHostFile`
  unfoldable pub load_host_file : Text → Io Text (List HostConfig)
  load_host_file path = do text ← read_file path; λ w. (decoded_hosts (toml_decode text), w)

  -- `WriteHostFile`
  unfoldable pub write_host_file : Text → List HostConfig → Io Text Unit
  write_host_file path hosts = do text ← λ w. (toml_encode hosts, w); atomic_write path text

  abbrev blank : HostConfig
  blank = record {
    name = [];
    role = [];
    environment = [];
    provider = [];
    instance_type = [];
    tags = [];
    metadata = [];
  }

  abbrev after_stat : Text → Text → Outcome Unit → Io Text (List HostConfig)
  after_stat path self (ok _) = load_host_file path
  after_stat path self (err not_exist) = do
    write_host_file path (set_defaults self blank ∷ [])
    λ w. (ok (set_defaults self blank ∷ []), w)
  after_stat path self (err e) = λ w. (err e, w)

  -- `EnsureHostConfig`
  unfoldable pub ensure_host_config : Text → Text → Io Text (List HostConfig)
  ensure_host_config path self = do
    mkdir_all
    λ w. let (r, w') = stat path w in after_stat path self r w'

  abbrev with_self : Text → Text → List HostConfig → Option HostConfig → Outcome HostManager
  with_self path name hosts none = err invalid
  with_self path name hosts (some self) =
      ok (record { hosts = hosts; self = self; path = path; self_name = name })

  -- `NewHostManager`; the two calls behind the check make the watcher.
  unfoldable pub new_host_manager : Text → Text → Io Text HostManager
  new_host_manager path name = do
    hosts ← ensure_host_config path name
    manager ← λ w. (with_self path name hosts (find_host name hosts), w)
    syscall
    syscall
    λ w. (ok manager, w)

  -- `Names`
  unfoldable pub names : HostManager → List Text
  names m = sort str_lt (map (λ (h : HostConfig). h.name) m.hosts)

  abbrev replaced_by : HostConfig → HostManager → Outcome Unit × HostManager
  replaced_by c m =
      if not (str_eq c.name m.self_name)
      then (err invalid, m)
      else (ok tt, record m { hosts = put_host c m.hosts; self = c })

  -- `ReplaceSelf`
  unfoldable pub replace_self : HostConfig → HostManager → Outcome Unit × HostManager
  replace_self c m = replaced_by (set_defaults m.self_name c) m

  abbrev reloaded_self :
      HostManager → List HostConfig → Option HostConfig → Outcome Unit × HostManager
  reloaded_self m hosts none = (err invalid, m)
  reloaded_self m hosts (some self) = (ok tt, record m { hosts = hosts; self = self })

  abbrev reloaded_hosts : HostManager → Outcome (List HostConfig) → Outcome Unit × HostManager
  reloaded_hosts m (err e) = (err e, m)
  reloaded_hosts m (ok hosts) = reloaded_self m hosts (find_host m.self_name hosts)

  -- `Reload`: the error, the manager and the files
  unfoldable pub reload : HostManager → World Text → Outcome Unit × HostManager × World Text
  reload m w =
      let (loaded, w') = load_host_file m.path w in
      let (r, m') = reloaded_hosts m loaded in (r, m', w')
