-- ===== src/Config/Vars.antt =====
-- internal/config/vars.go and `validateAllowList` of internal/config/helpers.go.
pub mod Scopes
use tailkitd.Prelude.{
  ℕ, Bool, true, false, ◌&&◌, ◌||◌, not, Option, none, some, List, [], ◌∷◌, ◌++◌, Text, codes,
  str_eq, leb, ◌==◌, if◌then◌else◌,
}
use tailkitd.Os.{Outcome, Io, read_file, not_exist, io_fault, malformed, invalid, ok, err}
use tailkitd.Vars.Handlers.{VarScope, VarsConfig}

-- `projectNameRE`
is_name_byte : ℕ → Bool
is_name_byte c =
    (leb b'a' c && leb c b'z') || ((leb b'0' c && leb c b'9') || ((c == b'_') || (c == b'-')))

all_name_bytes : Text → Bool
all_name_bytes [] = true
all_name_bytes (c ∷ s) = is_name_byte c && all_name_bytes s

unfoldable pub is_name : Text → Bool
unfolding is_name_byte all_name_bytes
is_name s = not (str_eq s []) && all_name_bytes s

-- `validateAllowList` with `validVarOps`
unfoldable pub are_var_ops : List Text → Bool
are_var_ops [] = true
are_var_ops (op ∷ ops) = (str_eq op (codes "read") || str_eq op (codes "write")) && are_var_ops ops

abbrev is_nil : List Text → Bool
is_nil [] = true
is_nil (op ∷ ops) = false

-- `s.Project + "/" + s.Env`
abbrev pub key_of : VarScope → Text
key_of s = s.project ++ b'/' ∷ s.env

is_seen : List Text → Text → Bool
is_seen [] key = false
is_seen (k ∷ seen) key = str_eq k key || is_seen seen key

-- The loop, with the keys that have been seen
scopes_fit : List Text → List VarScope → Bool
scopes_fit seen [] = true
scopes_fit seen (s ∷ scopes) =
    let rest = scopes_fit (key_of s ∷ seen) scopes in
    is_name s.project
    && (is_name s.env
        && (not (is_nil s.allow)
            && (are_var_ops s.allow && (not (is_seen seen (key_of s)) && rest))))

abbrev has_scope : List VarScope → Bool
has_scope [] = false
has_scope (s ∷ scopes) = true

-- `validateVarsConfig`
unfoldable pub validate_vars_config : List VarScope → Outcome Unit
unfolding scopes_fit is_seen
validate_vars_config scopes =
    if has_scope scopes && scopes_fit [] scopes then ok tt else err invalid

module _ (toml_decode : Text → Option (List VarScope)) where
  abbrev enabled_if : List VarScope → Outcome Unit → Outcome VarsConfig
  enabled_if scopes (err e) = err e
  enabled_if scopes (ok _) = ok (record { enabled = true; scopes = scopes })

  abbrev decoded : Option (List VarScope) → Outcome VarsConfig
  decoded none = err malformed
  decoded (some scopes) = enabled_if scopes (validate_vars_config scopes)

  abbrev loaded : Outcome Text → Outcome VarsConfig
  loaded (ok text) = decoded (toml_decode text)
  loaded (err not_exist) = ok (record { enabled = false; scopes = [] })
  loaded (err e) = err io_fault

  -- `loadVarsConfigFrom`
  unfoldable pub load_vars_config : Text → Io Text VarsConfig
  load_vars_config path w = let (r, w') = read_file path w in (loaded r, w')
