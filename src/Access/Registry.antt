-- ===== src/Access/Registry.antt =====
-- internal/access/registry.go: the grants, their files, and the decision. The file watcher calls
-- `reload` whenever it likes. The TOML decoder is a parameter: from a file's text it gives the
-- grants, and whether the text has keys that it does not know, or fails.
pub mod Role
pub mod Allow
pub mod Loading
pub mod Complete
pub mod Sources
use tailkitd.Prelude.{
  Bool, true, false, ◌&&◌, ◌||◌, Option, none, some, List, [], ◌∷◌, ◌++◌, sort, Text, codes, str_eq,
  str_lt, has_suffix, to_lower, trim_space, if◌then◌else◌,
}
use tailkitd.Os.{
  Outcome, World, Io, lift, ◌>>=◌, ◌>>◌, read_file, read_dir, malformed, invalid, ok, err,
}

pub record Grant : Type 0 where
  pub identity : Text
  pub target : Text
  pub role : Text

abbrev pub admin : Text
admin = codes "admin"

abbrev pub superadmin : Text
superadmin = codes "superadmin"

abbrev pub star : Text
star = codes "*"

is_role : Text → Bool
is_role r = str_eq r admin || str_eq r superadmin

-- `strings.TrimSpace(strings.ToLower(s))`
pub normal : Text → Text
normal s = trim_space (to_lower s)

abbrev pub normal_grant : Grant → Grant
normal_grant g = record {
  identity = normal g.identity;
  target = normal g.target;
  role = normal g.role;
}

check : Grant → Outcome Grant
unfolding is_role
check g =
    if str_eq g.identity []
    then err invalid
    else if str_eq g.target []
    then err invalid
    else if is_role g.role
    then ok g
    else err invalid

-- `Validate`: the grant as it has rewritten itself, or its error.
unfoldable pub validate : Grant → Outcome Grant
unfolding check normal
validate g = check (normal_grant g)

-- The order in which `Reload` keeps the grants.
unfoldable pub grant_lt : Grant → Grant → Bool
grant_lt a b =
    if str_eq a.identity b.identity
    then if str_eq a.target b.target then str_lt a.role b.role else str_lt a.target b.target
    else str_lt a.identity b.identity

-- The loop of `RoleFor`, with the role of the last wildcard grant so far.
role_loop : Text → Text → Text → List Grant → Option Text
role_loop identity target wildcard [] = if str_eq wildcard [] then none else some wildcard
role_loop identity target wildcard (g ∷ grants) =
    let mine = str_eq g.identity identity in
    let rest =
      role_loop identity target (if mine && str_eq g.target star then g.role else wildcard)
        grants in
    if mine && str_eq g.target target then some g.role else rest

-- `RoleFor`
unfoldable pub role_for : List Grant → Text → Text → Option Text
unfolding role_loop
role_for grants identity target = role_loop (to_lower identity) (to_lower target) [] grants

abbrev pub service_write : Text
service_write = codes "service.write"

abbrev pub host_write : Text
host_write = codes "host.write"

abbrev pub access_write : Text
access_write = codes "access.write"

abbrev pub admin_transfer : Text
admin_transfer = codes "admin.transfer"

unfoldable pub role_permits : Text → Text → Bool
unfolding is_role
role_permits role capability =
    if str_eq capability service_write
    then is_role role
    else if str_eq capability host_write
        || str_eq capability access_write
        || str_eq capability admin_transfer
    then str_eq role superadmin
    else false

abbrev permits_opt : Option Text → Text → Bool
permits_opt none capability = false
permits_opt (some role) capability = role_permits role capability

abbrev or_else : Option Text → Option Text → Option Text
or_else none b = b
or_else (some a) b = some a

-- `Allow`
unfoldable pub allow : List Grant → Text → Text → Text → Bool
allow grants identity capability target =
    permits_opt (or_else (role_for grants identity target) (role_for grants identity star))
      capability

-- `HasAnyGrants`
unfoldable pub has_any_grants : List Grant → Bool
has_any_grants [] = false
has_any_grants (g ∷ grants) = true

abbrev or_skip : Outcome (List Grant) → List Grant
or_skip (ok grants) = grants
or_skip (err e) = []

module _ (toml_decode : Text → Option (List Grant × Bool)) where
  pub validate_all : List Grant → Outcome (List Grant)
  validate_all [] = ok []
  validate_all (g ∷ grants) = elim (validate g) [
    | err e ↦ err e
    | ok g' ↦ elim (validate_all grants) [ err e ↦ err e | ok rest ↦ ok (g' ∷ rest) ]
  ]

  pub decode_file : Option (List Grant × Bool) → Outcome (List Grant)
  decode_file none = err malformed
  decode_file (some (grants, true)) = err invalid
  decode_file (some (grants, false)) = validate_all grants

  unfoldable pub load_file : Text → Io Text (List Grant)
  unfolding decode_file validate_all
  load_file path = do text ← read_file path; lift (decode_file (toml_decode text))

  -- The loop over the directory: a file that does not load is skipped.
  load_all : Text → List Text → World Text → List Grant × World Text
  load_all dir [] w = ([], w)
  load_all dir (name ∷ names) w =
      let (loaded, w') =
        if has_suffix name (codes ".toml") then load_file (dir ++ b'/' ∷ name) w else (ok [], w) in
      let (rest, w'') = load_all dir names w' in (or_skip loaded ++ rest, w'')

  -- `Reload`: the new list of grants; on an error the registry keeps its old one.
  unfoldable pub reload : Text → Io Text (List Grant)
  unfolding load_all
  reload dir w =
      let (listed, w') = read_dir dir w in
      elim listed [
        | err e ↦ (err e, w')
        | ok names ↦ let (grants, w'') = load_all dir names w' in (ok (sort grant_lt grants), w'')
      ]
