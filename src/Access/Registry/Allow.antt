-- ===== src/Access/Registry/Allow.antt =====
-- internal/access/registry.go: what `Allow` permits, against the grants.
use tailkitd.Prelude.{
  ◌≡◌, ◌⊎◌, inl, inr, true, false, some, List, [], ◌∷◌, arith, Occurs, sort, Text, codes, str_eq,
  str_eq_refl, str_eq_iff, str_lt, to_lower, Option-cases,
}
use tailkitd.Access.Registry.{
  Grant, admin, superadmin, star, grant_lt, role_for, role_permits, allow, service_write,
  host_write, access_write, admin_transfer,
}
use tailkitd.Access.Registry.Role.{Applies, Given, HaveRoles, role_for_sound, role_for-none_iff}

-- The rules of docs/config.md: an `admin` may write services, a `superadmin` may do everything.
abbrev pub Entitles : Text → Text → Type 0
Entitles role capability =
    (capability ≡ service_write) × ((role ≡ admin) ⊎ (role ≡ superadmin))
    ⊎ ((capability ≡ host_write) ⊎ (capability ≡ access_write) ⊎ (capability ≡ admin_transfer))
      × (role ≡ superadmin)

role_permits-Entitles :
    (role capability : Text) → role_permits role capability ≡ true → Entitles role capability
unfolding role_permits
role_permits-Entitles role capability h = ground (
  arith,
  str_eq_iff capability service_write,
  str_eq_iff capability host_write,
  str_eq_iff capability access_write,
  str_eq_iff capability admin_transfer,
  str_eq_iff role admin,
  str_eq_iff role superadmin,
)

Given-star :
    (grants : List Grant) (identity target role : Text)
    → Given grants identity star role
    → Given grants identity target role
Given-star grants identity target role (g, o, (i, inl e), r) = (g, o, (i, inr e), r)
Given-star grants identity target role (g, o, (i, inr e), r) = (g, o, (i, inr e), r)

-- `Allow` permits a request only on a grant for the caller, for this target or for all, whose role
-- entitles to the capability. A capability that is not listed is never permitted.
pub allow_sound :
    (grants : List Grant) (identity capability target : Text)
    → allow grants identity capability target ≡ true
    → (role : Text) × Given grants (to_lower identity) (to_lower target) role
      × Entitles role capability
unfolding allow
allow_sound grants identity capability target h =
    elim (Option-cases (role_for grants identity target)) [
      | inl e ↦ elim (Option-cases (role_for grants identity star)) [
        | inl e' ↦ ground arith
        | inr (role, e') ↦ (
          role,
          Given-star grants (to_lower identity) (to_lower target) role
              (unfold to_lower in role_for_sound grants identity star e'),
          role_permits-Entitles role capability (ground arith),
        )
      ]
      | inr (role, e) ↦ (
        role,
        role_for_sound grants identity target e,
        role_permits-Entitles role capability (ground arith),
      )
    ]

-- Where some grant applies and each that applies has a role which permits the capability, `Allow`
-- permits it.
allow_complete :
    (grants : List Grant) (identity capability target : Text) (g : Grant)
    → HaveRoles grants
    → Occurs g grants
    → Applies (to_lower identity) (to_lower target) g
    → ((h : Grant)
        → Occurs h grants
        → Applies (to_lower identity) (to_lower target) h
        → role_permits h.role capability ≡ true)
    → allow grants identity capability target ≡ true
unfolding allow
allow_complete grants identity capability target g roles o a all =
    elim (Option-cases (role_for grants identity target)) [
      | inl e ↦ absurd ((role_for-none_iff grants identity target roles).0 e g o a)
      | inr (role, e) ↦
          let (h, oh, ah, r) = role_for_sound grants identity target e in
          rw e (rw (← r) (all h oh ah))
    ]

-- An identity that holds `admin` and `superadmin` on all targets counts as `admin` where the target
-- asked for is `*`, since the grants are sorted and the first exact match decides: it may not write
-- the host's configuration.
pub allow_shadowed :
    (identity : Text)
    → to_lower identity ≡ identity
    → let both = sort grant_lt (
        record { identity = identity; target = star; role = superadmin }
        ∷ record { identity = identity; target = star; role = admin }
        ∷ []) in
      (allow both identity host_write star ≡ false)
      × (role_for both identity (codes "any") ≡ some superadmin)
unfolding allow role_for sort grant_lt str_eq str_lt to_lower role_permits
allow_shadowed identity h = (simp (h, str_eq_refl), simp (h, str_eq_refl))
