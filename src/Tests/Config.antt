-- ===== src/Tests/Config.antt =====
-- Runs of internal/config.
use tailkitd.Prelude.{
  ◌≡◌, refl, true, false, Option, none, some, List, [], ◌∷◌, ltb_ℤ, parse_int, pos, lookup, is_abs,
  Text, codes, str_eq, has_prefix, has_suffix, trim_space, if◌then◌else◌,
}
use tailkitd.Os.{World, read_file, ok}
use tailkitd.Files.{PathRule, FilesConfig}
use tailkitd.Config.Loading.{is_known, are_known, load_config}
use tailkitd.Config.Files.{
  load_files_config, validate_dir_path, rule_fits, rules_fit, validate_files_config, resolve_user,
  resolve_rule, resolve_rules,
}
use tailkitd.Config.Integrations.{MetricsConfig, no_metrics}
use tailkitd.Config.Logging.{
  LoggingConfig, default_logging_config, load_logging_config, validate_logging_config,
  override_string, override_bool, override_int, with_old_level, apply_logging_env_overrides,
}

abbrev disk : World Text
disk = record { files = (codes "/c", codes "x") ∷ []; temp = none; faults = [] }

abbrev rule : PathRule
rule = record {
  dir = codes "/srv/";
  allow = codes "write" ∷ [];
  share = false;
  use_as_user = codes "www";
  use_as = record { uid = 0; gid = 0; is_set = false };
}

abbrev decode_rules : Text → Option (List PathRule)
decode_rules text = some (rule ∷ [])

abbrev users : Text → Option (Text × Text)
users name = if str_eq name (codes "www") then some (codes "33", codes "33") else none

abbrev loaded_rules : FilesConfig
loaded_rules = record {
  enabled = true;
  paths = record rule { use_as = record { uid = 33; gid = 33; is_set = true } } ∷ [];
}

loads_rules : (load_files_config users decode_rules (codes "/c") disk).0 ≡ ok loaded_rules
unfolding load_files_config load_config read_file lookup str_eq validate_files_config rules_fit
    rule_fits validate_dir_path has_prefix has_suffix is_known are_known resolve_rules resolve_rule
    resolve_user parse_int
loads_rules = refl

abbrev decode_metrics : Text → Option MetricsConfig
decode_metrics text = some (record no_metrics { limit = some (pos 100) })

abbrev loaded_metrics : MetricsConfig
loaded_metrics = record no_metrics { enabled = true; limit = some (pos 100) }

abbrev environment : Text → Text
environment key = if str_eq key (codes "TAILKITD_LOG_LEVEL") then codes " warn " else []

abbrev keep_defaults : Text → LoggingConfig → Option LoggingConfig
keep_defaults text c = some c

abbrev warn : LoggingConfig
warn = record default_logging_config { app_level = codes "warn" }

loads_logging : (load_logging_config environment keep_defaults (codes "/none") disk).0 ≡ ok warn
unfolding load_logging_config read_file lookup str_eq apply_logging_env_overrides override_bool
    trim_space override_int validate_logging_config is_known with_old_level override_string is_abs
    ltb_ℤ
loads_logging = refl
