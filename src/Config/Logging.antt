-- ===== src/Config/Logging.antt =====
-- internal/config/logging.go: the logs, by a file and by variables of the environment. `getenv` is
-- the environment, which gives the empty string for a variable that is not set. The TOML decoder
-- takes the struct with the defaults, since it keeps what the text does not name.
pub mod Sound
use tailkitd.Prelude.{
  Bool, true, false, ◌&&◌, not, Option, none, some, List, [], ◌∷◌, ℤ, ltb_ℤ, parse_int, pos, is_abs,
  Text, codes, str_eq, trim_space, if◌then◌else◌,
}
use tailkitd.Os.{Outcome, Io, read_file, not_exist, io_fault, malformed, invalid, ok, err}
use tailkitd.Config.Loading.{is_known}

pub record LoggingConfig : Type 0 where
  -- [app]
  pub app_level : Text
  pub app_format : Text
  -- [api]
  pub api_enabled : Bool
  pub api_level : Text
  pub api_format : Text
  pub api_path : Text
  -- [api.rotation]
  pub max_size_mb : ℤ
  pub max_backups : ℤ
  pub max_age_days : ℤ
  pub compress : Bool

abbrev pub log_levels : List Text
log_levels = codes "debug" ∷ codes "info" ∷ codes "warn" ∷ codes "error" ∷ []

abbrev pub app_log_formats : List Text
app_log_formats = codes "text" ∷ codes "json" ∷ []

-- `defaultLoggingConfig`
abbrev pub default_logging_config : LoggingConfig
default_logging_config = record {
  app_level = codes "info";
  app_format = codes "text";
  api_enabled = true;
  api_level = codes "info";
  api_format = codes "json";
  api_path = codes "/var/log/tailkitd/api.json.log";
  max_size_mb = pos 100;
  max_backups = pos 10;
  max_age_days = pos 14;
  compress = true;
}

-- `validateLoggingConfig`
unfoldable pub validate_logging_config : LoggingConfig → Bool
validate_logging_config c =
    is_known log_levels c.app_level
    && (is_known app_log_formats c.app_format
        && (is_known log_levels c.api_level
            && (str_eq c.api_format (codes "json")
                && (not (c.api_enabled && not (is_abs c.api_path))
                    && (ltb_ℤ (pos 0) c.max_size_mb
                        && (not (ltb_ℤ c.max_backups (pos 0))
                            && not (ltb_ℤ c.max_age_days (pos 0))))))))

-- `strconv.ParseBool`
unfoldable pub parse_bool : Text → Option Bool
parse_bool s =
    if is_known
      (codes "1" ∷ codes "t" ∷ codes "T" ∷ codes "TRUE" ∷ codes "true" ∷ codes "True" ∷ []) s
    then some true
    else if is_known
        (codes "0" ∷ codes "f" ∷ codes "F" ∷ codes "FALSE" ∷ codes "false" ∷ codes "False" ∷ []) s
    then some false
    else none

-- `overrideString`: the new value
unfoldable pub override_string : Text → Text → Text
override_string old value = let raw = trim_space value in if str_eq raw [] then old else raw

abbrev or_malformed : {A : Type 0} → Option A → Outcome A
or_malformed none = err malformed
or_malformed (some a) = ok a

-- `overrideBool`
unfoldable pub override_bool : Bool → Text → Outcome Bool
override_bool old value =
    let raw = trim_space value in if str_eq raw [] then ok old else or_malformed (parse_bool raw)

-- `overrideInt`
unfoldable pub override_int : ℤ → Text → Outcome ℤ
override_int old value =
    let raw = trim_space value in if str_eq raw [] then ok old else or_malformed (parse_int raw)

infixl 5 ◌then_with◌
abbrev ◌then_with◌ : {A B : Type 0} → Outcome A → (A → Outcome B) → Outcome B
ok a then_with f = f a
err e then_with f = err e

module _ (getenv : Text → Text) where
  -- The last step: the older name of the level counts where the newer is not set.
  unfoldable pub with_old_level : LoggingConfig → LoggingConfig
  with_old_level c =
      let raw = trim_space (getenv (codes "TAILKITD_LOG_LEVEL")) in
      if not (str_eq raw []) && str_eq (trim_space (getenv (codes "TAILKITD_APP_LOG_LEVEL"))) []
      then record c { app_level = raw }
      else c

  -- `applyLoggingEnvOverrides`
  unfoldable pub apply_logging_env_overrides : LoggingConfig → Outcome LoggingConfig
  apply_logging_env_overrides c =
      override_bool c.api_enabled (getenv (codes "TAILKITD_API_LOG_ENABLED")) then_with λ enabled.
      override_int c.max_size_mb (getenv (codes "TAILKITD_API_LOG_MAX_SIZE_MB")) then_with λ size.
      override_int c.max_backups (getenv (codes "TAILKITD_API_LOG_MAX_BACKUPS"))
      then_with λ backups.
          override_int c.max_age_days (getenv (codes "TAILKITD_API_LOG_MAX_AGE_DAYS"))
          then_with λ age.
              override_bool c.compress (getenv (codes "TAILKITD_API_LOG_COMPRESS"))
              then_with λ compress. ok (
                  with_old_level (record c {
                    app_level =
                        override_string c.app_level (getenv (codes "TAILKITD_APP_LOG_LEVEL"));
                    app_format =
                        override_string c.app_format (getenv (codes "TAILKITD_APP_LOG_FORMAT"));
                    api_enabled = enabled;
                    api_level =
                        override_string c.api_level (getenv (codes "TAILKITD_API_LOG_LEVEL"));
                    api_path = override_string c.api_path (getenv (codes "TAILKITD_API_LOG_PATH"));
                    max_size_mb = size;
                    max_backups = backups;
                    max_age_days = age;
                    compress = compress;
                  }))

  module _ (toml_decode : Text → LoggingConfig → Option LoggingConfig) where
    abbrev validated_logging : LoggingConfig → Outcome LoggingConfig
    validated_logging c = if validate_logging_config c then ok c else err invalid

    abbrev pub from_file : Outcome Text → Outcome LoggingConfig
    from_file (ok text) = or_malformed (toml_decode text default_logging_config)
    from_file (err not_exist) = ok default_logging_config
    from_file (err e) = err io_fault

    abbrev finished : Outcome Text → Outcome LoggingConfig
    finished r =
        from_file r then_with λ c. apply_logging_env_overrides c then_with validated_logging

    -- `loadLoggingConfigFrom`
    unfoldable pub load_logging_config : Text → Io Text LoggingConfig
    load_logging_config path w = let (r, w') = read_file path w in (finished r, w')
