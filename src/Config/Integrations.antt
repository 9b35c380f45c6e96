-- ===== src/Config/Integrations.antt =====
-- internal/config/metrics.go, internal/config/docker.go and internal/config/systemd.go: the
-- integrations and what they may do. The TOML decoders are parameters; the sections of metrics.toml
-- that are one switch each are fields of one record.
pub mod Limits
use tailkitd.Prelude.{
  Bool, true, false, ◌&&◌, not, Option, none, some, List, [], ◌∷◌, ℤ, ltb_ℤ, pos, negsuc, Text,
  codes, str_eq, has_prefix, ◌==◌, if◌then◌else◌,
}
use tailkitd.Os.{Outcome, Io, malformed, invalid, ok, err}
use tailkitd.Config.Loading.{is_known, are_known, load_config}

pub record MetricsConfig : Type 0 where
  pub enabled : Bool
  pub host : Bool
  pub cpu : Bool
  pub memory : Bool
  pub ports : Bool
  pub disk : Bool
  pub disk_paths : List Text
  pub network : Bool
  pub interfaces : List Text
  pub processes : Bool
  -- `Processes.Limit`, `none` for a nil pointer
  pub limit : Option ℤ

abbrev pub default_process_limit : ℤ
default_process_limit = pos 20

abbrev pub max_process_limit : ℤ
max_process_limit = pos 100

abbrev or_default : Option ℤ → ℤ
or_default none = default_process_limit
or_default (some n) = n

-- `ProcessLimit`
unfoldable pub process_limit : MetricsConfig → ℤ
process_limit c = or_default c.limit

unfoldable pub are_abs : List Text → Bool
are_abs [] = true
are_abs (p ∷ paths) = has_prefix p (b'/' ∷ []) && are_abs paths

-- `validateMetricsConfig`, where the limit is set
unfoldable pub validate_metrics_config : MetricsConfig → ℤ → Bool
validate_metrics_config c limit =
    are_abs c.disk_paths && (ltb_ℤ (pos 0) limit && not (ltb_ℤ max_process_limit limit))

abbrev pub no_metrics : MetricsConfig
no_metrics = record {
  enabled = false;
  host = false;
  cpu = false;
  memory = false;
  ports = false;
  disk = false;
  disk_paths = [];
  network = false;
  interfaces = [];
  processes = false;
  limit = none;
}

module _ (toml_decode : Text → Option MetricsConfig) where
  abbrev checked_metrics : MetricsConfig → Outcome MetricsConfig
  checked_metrics c =
      if validate_metrics_config c (or_default c.limit)
      then ok (record c { enabled = true; limit = some (or_default c.limit) })
      else err invalid

  abbrev decoded_metrics : Option MetricsConfig → Outcome MetricsConfig
  decoded_metrics none = err malformed
  decoded_metrics (some c) = checked_metrics c

  abbrev pub parse_metrics : Text → Outcome MetricsConfig
  parse_metrics text = decoded_metrics (toml_decode text)

  -- `loadMetricsConfigFrom`
  unfoldable pub load_metrics_config : Text → Io Text MetricsConfig
  load_metrics_config = load_config parse_metrics no_metrics

pub record DockerSectionConfig : Type 0 where
  pub enabled : Bool
  pub allow : List Text

pub record DockerConfig : Type 0 where
  pub enabled : Bool
  pub containers : DockerSectionConfig
  pub images : DockerSectionConfig
  pub compose : DockerSectionConfig
  pub swarm : DockerSectionConfig

-- `Permits`
unfoldable pub permits : DockerSectionConfig → Text → Bool
permits s op = if not s.enabled then false else is_known s.allow op

abbrev pub container_ops : List Text
container_ops =
    codes "list"
    ∷ codes "inspect"
    ∷ codes "logs"
    ∷ codes "stats"
    ∷ codes "start"
    ∷ codes "stop"
    ∷ codes "restart"
    ∷ codes "remove"
    ∷ []

abbrev pub image_ops : List Text
image_ops = codes "list" ∷ codes "pull" ∷ []

abbrev pub compose_ops : List Text
compose_ops =
    codes "list" ∷ codes "up" ∷ codes "down" ∷ codes "pull" ∷ codes "restart" ∷ codes "build" ∷ []

abbrev pub swarm_ops : List Text
swarm_ops = codes "read" ∷ codes "write" ∷ []

-- `validateDockerConfig`
unfoldable pub validate_docker_config : DockerConfig → Bool
validate_docker_config c =
    are_known container_ops c.containers.allow
    && (are_known image_ops c.images.allow
        && (are_known compose_ops c.compose.allow && are_known swarm_ops c.swarm.allow))

abbrev pub no_section : DockerSectionConfig
no_section = record { enabled = false; allow = [] }

abbrev pub no_docker : DockerConfig
no_docker = record {
  enabled = false;
  containers = no_section;
  images = no_section;
  compose = no_section;
  swarm = no_section;
}

module _ (toml_decode : Text → Option DockerConfig) where
  abbrev checked_docker : DockerConfig → Outcome DockerConfig
  checked_docker c =
      if validate_docker_config c then ok (record c { enabled = true }) else err invalid

  abbrev decoded_docker : Option DockerConfig → Outcome DockerConfig
  decoded_docker none = err malformed
  decoded_docker (some c) = checked_docker c

  abbrev pub parse_docker : Text → Outcome DockerConfig
  parse_docker text = decoded_docker (toml_decode text)

  -- `loadDockerConfigFrom`
  unfoldable pub load_docker_config : Text → Io Text DockerConfig
  load_docker_config = load_config parse_docker no_docker

pub record SystemdConfig : Type 0 where
  pub enabled : Bool
  pub units_enabled : Bool
  pub units_allow : List Text
  pub journal_enabled : Bool
  pub priority : Text
  pub lines : ℤ
  pub system_journal : Bool

abbrev pub unit_ops : List Text
unit_ops =
    codes "list"
    ∷ codes "inspect"
    ∷ codes "unit_file"
    ∷ codes "logs"
    ∷ codes "start"
    ∷ codes "stop"
    ∷ codes "restart"
    ∷ codes "reload"
    ∷ codes "enable"
    ∷ codes "disable"
    ∷ []

abbrev pub journal_priorities : List Text
journal_priorities =
    codes "emerg"
    ∷ codes "alert"
    ∷ codes "crit"
    ∷ codes "err"
    ∷ codes "warning"
    ∷ codes "notice"
    ∷ codes "info"
    ∷ codes "debug"
    ∷ []

-- `validateSystemdConfig`
unfoldable pub validate_systemd_config : SystemdConfig → Bool
validate_systemd_config c =
    are_known unit_ops c.units_allow
    && (is_known journal_priorities c.priority && ltb_ℤ (pos 0) c.lines)

abbrev is_zero : ℤ → Bool
is_zero (pos n) = n == 0
is_zero (negsuc n) = false

-- The defaults of the journal
unfoldable pub with_journal_defaults : SystemdConfig → SystemdConfig
with_journal_defaults c = record c {
  priority = if str_eq c.priority [] then codes "info" else c.priority;
  lines = if is_zero c.lines then pos 100 else c.lines;
}

abbrev pub no_systemd : SystemdConfig
no_systemd = record {
  enabled = false;
  units_enabled = false;
  units_allow = [];
  journal_enabled = false;
  priority = [];
  lines = pos 0;
  system_journal = false;
}

module _ (toml_decode : Text → Option SystemdConfig) where
  abbrev checked_systemd : SystemdConfig → Outcome SystemdConfig
  checked_systemd c =
      if validate_systemd_config c then ok (record c { enabled = true }) else err invalid

  abbrev decoded_systemd : Option SystemdConfig → Outcome SystemdConfig
  decoded_systemd none = err malformed
  decoded_systemd (some c) = checked_systemd (with_journal_defaults c)

  abbrev pub parse_systemd : Text → Outcome SystemdConfig
  parse_systemd text = decoded_systemd (toml_decode text)

  -- `loadSystemdConfigFrom`
  unfoldable pub load_systemd_config : Text → Io Text SystemdConfig
  load_systemd_config = load_config parse_systemd no_systemd
