-- ===== src/Config/Logging/Sound.antt =====
-- internal/config/logging.go: what a configuration that loads has, and where its level comes from.
use tailkitd.Prelude.{
  ◌≡◌, refl, inl, inr, true, false, not, Option, [], arith, ℤ, ltb_ℤ, pos, is_abs, Text, codes,
  str_eq, trim_space, if◌then◌else◌, Bool-cases,
}
use mathlib.Core.Path.{subst}
use tailkitd.Os.{Outcome, World, read_file, ok, err}
use tailkitd.Config.Loading.{is_known}
use tailkitd.Config.Logging.{
  LoggingConfig, log_levels, app_log_formats, validate_logging_config, override_string,
  with_old_level, apply_logging_env_overrides, load_logging_config, ◌then_with◌, from_file,
  override_bool, override_int,
}

abbrev IsNonneg : ℤ → Type 0
IsNonneg n = ltb_ℤ n (pos 0) ≡ false

pub record IsSound (c : LoggingConfig) : Type 0 where
  pub app_level_known : is_known log_levels c.app_level ≡ true
  pub app_format_known : is_known app_log_formats c.app_format ≡ true
  pub api_level_known : is_known log_levels c.api_level ≡ true
  pub api_json : str_eq c.api_format (codes "json") ≡ true
  pub rooted : c.api_enabled ≡ true → is_abs c.api_path ≡ true
  pub has_size : ltb_ℤ (pos 0) c.max_size_mb ≡ true
  pub backups_count : ltb_ℤ c.max_backups (pos 0) ≡ false
  pub age_counts : ltb_ℤ c.max_age_days (pos 0) ≡ false

validate_logging_config-IsSound : (c : LoggingConfig) → validate_logging_config c ≡ true → IsSound c
unfolding validate_logging_config
validate_logging_config-IsSound c h = record {
  app_level_known = ground (arith, h);
  app_format_known = ground (arith, h);
  api_level_known = ground (arith, h);
  api_json = ground (arith, h);
  rooted = λ on. ground (arith, h, on);
  has_size = ground (arith, h);
  backups_count = ground (arith, h);
  age_counts = ground (arith, h);
}

then_with_ok :
    {A B : Type 0} (m : Outcome A) (f : A → Outcome B) (b : B)
    → (m then_with f) ≡ ok b
    → (a : A) × (m ≡ ok a) × (f a ≡ ok b)
then_with_ok (ok a) f b h = (a, refl, h)
then_with_ok (err e) f b h = absurd (cc h)

ok_inj : {A : Type 0} (a b : A) → ok a ≡ ok b → a ≡ b
ok_inj a b h = cc h

-- The level that the environment asks for: by the newer name, else by the older.
abbrev pub level_of : Text → Text → Text → Text
level_of newer older otherwise =
    if not (str_eq newer []) then newer else if not (str_eq older []) then older else otherwise

module _ (getenv : Text → Text) where
  abbrev pub variable : Text → Text
  variable key = trim_space (getenv key)

  with_old_level_lem :
      (c : LoggingConfig) (base : Text)
      → c.app_level ≡ override_string base (getenv (codes "TAILKITD_APP_LOG_LEVEL"))
      → (with_old_level getenv c).app_level
        ≡ level_of
            (variable (codes "TAILKITD_APP_LOG_LEVEL"))
            (variable (codes "TAILKITD_LOG_LEVEL"))
            base
  unfolding with_old_level override_string
  with_old_level_lem c base h = ground (arith, h)

  overridden_level :
      (c d : LoggingConfig)
      → apply_logging_env_overrides getenv c ≡ ok d
      → d.app_level
        ≡ level_of
            (variable (codes "TAILKITD_APP_LOG_LEVEL"))
            (variable (codes "TAILKITD_LOG_LEVEL"))
            c.app_level
  unfolding apply_logging_env_overrides
  overridden_level c d h =
      let (enabled, e1, h1) =
        then_with_ok (override_bool c.api_enabled (getenv (codes "TAILKITD_API_LOG_ENABLED"))) _ d
          h in
      let (size, e2, h2) =
        then_with_ok (override_int c.max_size_mb (getenv (codes "TAILKITD_API_LOG_MAX_SIZE_MB"))) _
          d h1 in
      let (backups, e3, h3) =
        then_with_ok (override_int c.max_backups (getenv (codes "TAILKITD_API_LOG_MAX_BACKUPS"))) _
          d h2 in
      let (age, e4, h4) =
        then_with_ok (override_int c.max_age_days (getenv (codes "TAILKITD_API_LOG_MAX_AGE_DAYS")))
          _ d h3 in
      let (compress, e5, h5) =
        then_with_ok (override_bool c.compress (getenv (codes "TAILKITD_API_LOG_COMPRESS"))) _ d
          h4 in
      subst
        (λ (e : LoggingConfig).
          e.app_level
          ≡ level_of (variable (codes "TAILKITD_APP_LOG_LEVEL"))
              (variable (codes "TAILKITD_LOG_LEVEL")) c.app_level)
        (ok_inj _ d h5) (with_old_level_lem _ c.app_level refl)

  module _ (toml_decode : Text → LoggingConfig → Option LoggingConfig) where
    -- A configuration of the logs that loads has known levels and formats, a rooted path where the
    -- log of the API is on, a positive size and no negative count; and its level is that of
    -- TAILKITD_APP_LOG_LEVEL, else of TAILKITD_LOG_LEVEL, else of the file or the default.
    pub load_logging_config_lem :
        (path : Text) (w : World Text) (d : LoggingConfig)
        → (load_logging_config getenv toml_decode path w).0 ≡ ok d
        → IsSound d
          × ((c : LoggingConfig) × (from_file getenv toml_decode (read_file path w).0 ≡ ok c)
              × (d.app_level
                  ≡ level_of
                      (variable (codes "TAILKITD_APP_LOG_LEVEL"))
                      (variable (codes "TAILKITD_LOG_LEVEL"))
                      c.app_level))
    unfolding load_logging_config
    load_logging_config_lem path w d h =
        let (c, read, rest) =
          then_with_ok (from_file getenv toml_decode (read_file path w).0) _ d h in
        let (c', over, checked) = then_with_ok (apply_logging_env_overrides getenv c) _ d rest in
        elim (Bool-cases (validate_logging_config c')) [
          | inr e ↦ absurd (cc (rw e at checked))
          | inl e ↦
              let same : c' ≡ d = cc (rw e at checked) in
              rw (← same)
                (validate_logging_config-IsSound c' e, (c, read, overridden_level c c' over))
        ]
