-- ===== src/Config/Files.antt =====
-- internal/config/files.go: the rules for paths. The TOML decoder and the user database are
-- parameters; the ids of a user are no negative numbers.
pub mod Sound
use tailkitd.Prelude.{
  ℕ, Bool, true, false, ◌&&◌, ◌||◌, not, Option, none, some, List, [], ◌∷◌, ℤ, parse_int, pos, Text,
  codes, str_eq, has_prefix, has_suffix, if◌then◌else◌,
}
use tailkitd.Os.{Outcome, Io, malformed, invalid, ok, err}
use tailkitd.Files.{ResolvedIdentity, PathRule, FilesConfig}
use tailkitd.Config.Loading.{is_known, are_known, load_config}

-- `validateDirPath`
unfoldable pub validate_dir_path : Text → Bool
validate_dir_path p = has_prefix p (b'/' ∷ []) && has_suffix p (b'/' ∷ [])

abbrev pub file_ops : List Text
file_ops = codes "read" ∷ codes "write" ∷ []

-- `containsWrite`
abbrev contains_write : List Text → Bool
contains_write allow = is_known allow (codes "write")

abbrev is_nil : List Text → Bool
is_nil [] = true
is_nil (op ∷ ops) = false

unfoldable pub rule_fits : List Text → PathRule → Bool
rule_fits seen r =
    validate_dir_path r.dir
    && (not (is_known seen r.dir)
        && (not (is_nil r.allow)
            && (are_known file_ops r.allow && (str_eq r.use_as_user [] || contains_write r.allow))))

-- The loop of `validateFilesConfig`, with the directories that have been seen
unfoldable pub rules_fit : List Text → List PathRule → Bool
rules_fit seen [] = true
rules_fit seen (r ∷ rules) = rule_fits seen r && rules_fit (r.dir ∷ seen) rules

abbrev has_rule : List PathRule → Bool
has_rule [] = false
has_rule (r ∷ rules) = true

-- `validateFilesConfig`
unfoldable pub validate_files_config : List PathRule → Bool
validate_files_config rules = has_rule rules && rules_fit [] rules

abbrev nat_of : Option ℤ → Option ℕ
nat_of (some (pos n)) = some n
nat_of _ = none

abbrev identity_of : Option ℕ → Option ℕ → Option ResolvedIdentity
identity_of (some uid) (some gid) = some (record { uid = uid; gid = gid; is_set = true })
identity_of _ _ = none

module _ (user_lookup : Text → Option (Text × Text))
    (toml_decode : Text → Option (List PathRule)) where
  abbrev of_user : Option (Text × Text) → Option ResolvedIdentity
  of_user none = none
  of_user (some (uid, gid)) = identity_of (nat_of (parse_int uid)) (nat_of (parse_int gid))

  -- `resolveUser`
  unfoldable pub resolve_user : Text → Option ResolvedIdentity
  resolve_user name = of_user (user_lookup name)

  abbrev with_identity : PathRule → Option ResolvedIdentity → PathRule
  with_identity r none = r
  with_identity r (some id) = record r { use_as = id }

  unfoldable pub resolve_rule : PathRule → PathRule
  resolve_rule r =
      if str_eq r.use_as_user [] then r else with_identity r (resolve_user r.use_as_user)

  -- The loop over the rules
  unfoldable pub resolve_rules : List PathRule → List PathRule
  resolve_rules [] = []
  resolve_rules (r ∷ rules) = resolve_rule r ∷ resolve_rules rules

  abbrev validated_files : List PathRule → Outcome FilesConfig
  validated_files rules =
      if validate_files_config rules
      then ok (record { enabled = true; paths = resolve_rules rules })
      else err invalid

  abbrev decoded_files : Option (List PathRule) → Outcome FilesConfig
  decoded_files none = err malformed
  decoded_files (some rules) = validated_files rules

  abbrev pub parse_files : Text → Outcome FilesConfig
  parse_files text = decoded_files (toml_decode text)

  abbrev pub no_files : FilesConfig
  no_files = record { enabled = false; paths = [] }

  -- `loadFilesConfigFrom`
  unfoldable pub load_files_config : Text → Io Text FilesConfig
  load_files_config = load_config parse_files no_files
