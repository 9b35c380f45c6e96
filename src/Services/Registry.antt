-- ===== src/Services/Registry.antt =====
-- internal/services/registry.go: the services that services.d describes. A nil slice is the empty
-- list, which is what `Validate` makes of it.
pub mod Loading
pub mod Files
use tailkitd.Prelude.{
  ℕ, Bool, true, false, ◌&&◌, not, Option, none, some, List, [], ◌∷◌, ◌++◌, Dict, lookup, insert,
  Text, codes, str_eq, has_suffix, to_lower, trim_space, if◌then◌else◌,
}
use tailkitd.Os.{
  Outcome, World, Io, lift, ◌>>=◌, ◌>>◌, read_file, read_dir, not_exist, malformed, invalid, ok,
  err,
}

pub record OutsiderServiceConfig : Type 0 where
  pub name : Text
  pub runtime : Text
  pub priority : Text
  pub tags : List Text
  pub expected_ports : List ℕ
  pub systemd_unit : Text
  pub binary_path : Text
  pub pid_file : Text

abbrev is_empty : Text → Bool
is_empty s = str_eq s []

abbrev with_priority : OutsiderServiceConfig → OutsiderServiceConfig
with_priority s = if is_empty s.priority then record s { priority = codes "normal" } else s

abbrev check_runtime : OutsiderServiceConfig → Bool
check_runtime s =
    if str_eq s.runtime (codes "systemd")
    then not (is_empty s.systemd_unit) && (is_empty s.binary_path && is_empty s.pid_file)
    else if str_eq s.runtime (codes "binary")
    then not (is_empty s.binary_path) && (not (is_empty s.pid_file) && is_empty s.systemd_unit)
    else str_eq s.runtime (codes "port-only")
      && (is_empty s.systemd_unit && (is_empty s.binary_path && is_empty s.pid_file))

checked_config : OutsiderServiceConfig → Outcome OutsiderServiceConfig
checked_config s =
    if is_empty s.name
    then err invalid
    else if check_runtime s
    then ok (with_priority s)
    else err invalid

-- `Validate`, for the struct that it changes
unfoldable pub validate : OutsiderServiceConfig → Outcome OutsiderServiceConfig
unfolding checked_config
validate s = checked_config (record s { runtime = to_lower (trim_space s.runtime) })

-- `FilePath`, for a name without `/`
unfoldable pub file_path : Text → Text → Text
file_path dir name = dir ++ b'/' ∷ (name ++ codes ".toml")

abbrev put_loaded :
    Outcome OutsiderServiceConfig → Dict OutsiderServiceConfig → Dict OutsiderServiceConfig
put_loaded (ok s) d = insert s.name s d
put_loaded (err e) d = d

-- The TOML decoder gives the struct and whether the text has keys of no field.
module _ (toml_decode : Text → Option (OutsiderServiceConfig × Bool)) where
  decoded : Option (OutsiderServiceConfig × Bool) → Outcome OutsiderServiceConfig
  decoded none = err malformed
  decoded (some (s, true)) = err invalid
  decoded (some (s, false)) = validate s

  unfoldable pub load_one : Text → Io Text OutsiderServiceConfig
  unfolding decoded
  load_one path = do text ← read_file path; lift (decoded (toml_decode text))

  abbrev skip_or_load : Bool → Text → World Text → Outcome OutsiderServiceConfig × World Text
  skip_or_load false path w = (err invalid, w)
  skip_or_load true path w = load_one path w

  -- The loop over the directory, which skips what is no service file and what does not load
  load_names :
      Text
      → List Text
      → Dict OutsiderServiceConfig
      → World Text
      → Dict OutsiderServiceConfig × World Text
  load_names dir [] d w = (d, w)
  load_names dir (name ∷ names) d w =
      let (s, w') = skip_or_load (has_suffix name (codes ".toml")) (dir ++ b'/' ∷ name) w in
      load_names dir names (put_loaded s d) w'

  abbrev after_listing :
      Text → Outcome (List Text) → World Text → Outcome (Dict OutsiderServiceConfig) × World Text
  after_listing dir (ok names) w = let (d, w') = load_names dir names [] w in (ok d, w')
  after_listing dir (err not_exist) w = (ok [], w)
  after_listing dir (err e) w = (err e, w)

  unfoldable pub load_dir : Text → Io Text (Dict OutsiderServiceConfig)
  unfolding load_names
  load_dir dir w = let (listed, w') = read_dir dir w in after_listing dir listed w'

  abbrev or_old :
      Dict OutsiderServiceConfig
      → Outcome (Dict OutsiderServiceConfig)
      → Outcome Unit × Dict OutsiderServiceConfig
  or_old old (ok d) = (ok tt, d)
  or_old old (err e) = (err e, old)

  -- `Reload`: the error, the registry's map afterwards, and the files
  unfoldable pub reload :
      Text
      → Dict OutsiderServiceConfig
      → World Text
      → Outcome Unit × Dict OutsiderServiceConfig × World Text
  reload dir old w =
      let (loaded, w') = load_dir dir w in
      let (r, services) = or_old old loaded in (r, services, w')
