-- ===== src/Tests/Access.antt =====
-- Runs of internal/access/registry.go.
use tailkitd.Prelude.{
  ◌≡◌, refl, inl, inr, Bool, true, false, Option, none, some, List, [], ◌∷◌, lookup, Occurs, sort,
  Text, codes, str_eq, str_lt, has_suffix, to_lower, trim_space, cut_prefix, contains_byte,
  if◌then◌else◌,
}
use tailkitd.Os.{World, read_file, read_dir, ok}
use tailkitd.Access.Registry.{
  Grant, admin, superadmin, star, grant_lt, role_for, allow, reload, load_file, host_write,
  service_write, validate, role_permits,
}
use tailkitd.Access.Registry.Role.{Applies, Given, IsExact}
use tailkitd.Access.Registry.Allow.{Entitles, allow_sound}

abbrev bob : Text
bob = codes "bob@x.io"

abbrev bob_web : Grant
bob_web = record { identity = bob; target = codes "web"; role = admin }

abbrev bob_all : Grant
bob_all = record { identity = bob; target = star; role = superadmin }

abbrev grants : List Grant
grants = bob_all ∷ bob_web ∷ []

role_web : role_for grants (codes "Bob@x.io") (codes "WEB") ≡ some admin
unfolding role_for str_eq to_lower
role_web = refl

role_db : role_for grants (codes "Bob@x.io") (codes "db") ≡ some superadmin
unfolding role_for str_eq to_lower
role_db = refl

nobody : role_for grants (codes "eve@x.io") (codes "web") ≡ none
unfolding role_for str_eq to_lower
nobody = refl

bob_web-IsExact : IsExact (to_lower (codes "Bob@x.io")) (to_lower (codes "WEB")) bob_web
unfolding to_lower
bob_web-IsExact = (refl, refl)

allowed : allow grants bob host_write (codes "db") ≡ true
unfolding allow role_for role_permits str_eq to_lower
allowed = refl

allow_sound_example :
    (role : Text) × Given grants (to_lower bob) (to_lower (codes "db")) role
    × Entitles role host_write
allow_sound_example = allow_sound grants bob host_write (codes "db") allowed

bob_all-Applies : Applies (to_lower bob) (to_lower (codes "db")) bob_all
unfolding to_lower
bob_all-Applies = (refl, inr refl)

all_permit :
    (h : Grant)
    → Occurs h grants
    → Applies (to_lower bob) (to_lower (codes "db")) h
    → role_permits h.role service_write ≡ true
unfolding role_permits str_eq
all_permit h (inl e) a = rw (← e) refl
all_permit h (inr (inl e)) a = rw (← e) refl
all_permit h (inr (inr e)) a = absurd e

bob_lower : to_lower bob ≡ bob
unfolding to_lower
bob_lower = refl

abbrev both : List Grant
both = sort grant_lt (bob_all ∷ record { identity = bob; target = star; role = admin } ∷ [])

-- A decoder that knows one text.
abbrev decode : Text → Option (List Grant × Bool)
decode text =
    if str_eq text (codes "grants")
    then some (
      record { identity = codes " Bob@X.io"; target = codes "Web "; role = codes "ADMIN" } ∷ [],
      false,
    )
    else none

abbrev disk : World Text
disk = record {
  files = (codes "/a/x.toml", codes "grants") ∷ (codes "/a/y.toml", codes "junk") ∷ [];
  temp = none;
  faults = [];
}

loaded : (load_file decode (codes "/a/x.toml") disk).0 ≡ ok (bob_web ∷ [])
unfolding load_file validate read_file lookup str_eq to_lower trim_space
loaded = refl

reloaded : (reload decode (codes "/a") disk).0 ≡ ok (bob_web ∷ [])
unfolding reload load_file validate read_dir read_file lookup str_eq to_lower trim_space cut_prefix
    contains_byte has_suffix sort str_lt
reloaded = refl
