-- ===== src/Access/Registry/Role.antt =====
-- internal/access/registry.go: which grant decides a role.
use tailkitd.Prelude.{
  ◌≡◌, refl, ◌≢◌, ◌↔◌, ◌⊎◌, inl, inr, true, ◌&&◌, none, some, List, [], ◌∷◌, arith, Occurs, All,
  Text, str_eq, str_eq_iff, to_lower, if◌then◌else◌, Bool-cases, Option-cases,
}
use tailkitd.Access.Registry.{Grant, star, role_loop, role_for}

-- The grant is for this identity, and for this target or for all.
abbrev pub Applies : Text → Text → Grant → Type 0
Applies identity target g = (g.identity ≡ identity) × ((g.target ≡ target) ⊎ (g.target ≡ star))

-- A role in a list of grants, given by a grant that applies.
abbrev pub Given : List Grant → Text → Text → Text → Type 0
Given grants identity target role =
    (g : Grant) × Occurs g grants × Applies identity target g × (g.role ≡ role)

Given-cons :
    (g : Grant) (grants : List Grant) (identity target role : Text)
    → Given grants identity target role
    → Given (g ∷ grants) identity target role
Given-cons g grants identity target role (h, o, a, r) = (h, inr o, a, r)

mine_star :
    (g : Grant) (identity : Text)
    → (str_eq g.identity identity && str_eq g.target star) ≡ true
    → (g.identity ≡ identity) × (g.target ≡ star)
mine_star g identity h = ground (arith, str_eq_iff g.identity identity, str_eq_iff g.target star)

role_loop_sound :
    (identity target wildcard : Text) (grants : List Grant) {role : Text}
    → role_loop identity target wildcard grants ≡ some role
    → (wildcard ≡ role) × (wildcard ≢ []) ⊎ Given grants identity target role
unfolding role_loop
role_loop_sound identity target wildcard [] h =
    inl (ground arith, λ e. ground (arith, str_eq_iff wildcard []))
role_loop_sound identity target wildcard (g ∷ grants) {role} h =
    elim (Bool-cases (str_eq g.identity identity && str_eq g.target target)) [
      | inl exact ↦ inr (
        g,
        inl refl,
        ground (arith, str_eq_iff g.identity identity, str_eq_iff g.target target),
        ground arith,
      )
      | inr other ↦ elim (Bool-cases (str_eq g.identity identity && str_eq g.target star)) [
        | inl wild ↦ elim (role_loop_sound identity target g.role grants (rw (other, wild) at h)) [
          | inl e ↦
              inr (
                g,
                inl refl,
                ((mine_star g identity wild).0, inr (mine_star g identity wild).1),
                e.0,
              )
          | inr r ↦ inr (Given-cons g grants identity target role r)
        ]
        | inr narrow ↦
            elim (role_loop_sound identity target wildcard grants (rw (other, narrow) at h)) [
              | inl e ↦ inl e
              | inr r ↦ inr (Given-cons g grants identity target role r)
            ]
      ]
    ]

-- A role that `RoleFor` gives is that of a grant for this identity, and this target or all.
pub role_for_sound :
    (grants : List Grant) (identity target : Text) {role : Text}
    → role_for grants identity target ≡ some role
    → Given grants (to_lower identity) (to_lower target) role
unfolding role_for
role_for_sound grants identity target h =
    elim (role_loop_sound (to_lower identity) (to_lower target) [] grants h) [
      | inl e ↦ absurd (e.1 refl)
      | inr g ↦ g
    ]

-- Every role is written out; `validate` sees to it.
abbrev pub HaveRoles : List Grant → Type 0
HaveRoles grants = All (λ g. g.role ≢ []) grants

role_loop-wildcard :
    (identity target wildcard : Text) (grants : List Grant)
    → wildcard ≢ []
    → HaveRoles grants
    → role_loop identity target wildcard grants ≢ none
unfolding role_loop
role_loop-wildcard identity target wildcard [] w h e = ground (arith, str_eq_iff wildcard [])
role_loop-wildcard identity target wildcard (g ∷ grants) w h e = ground (
  arith,
  role_loop-wildcard identity target wildcard grants w h.1,
  role_loop-wildcard identity target g.role grants h.0 h.1,
)

role_loop-none :
    (identity target wildcard : Text) (grants : List Grant) (g : Grant)
    → HaveRoles grants
    → role_loop identity target wildcard grants ≡ none
    → Occurs g grants
    → ¬ Applies identity target g
unfolding role_loop
role_loop-none identity target wildcard [] g h e o a = absurd o
role_loop-none identity target wildcard (x ∷ grants) g h e (inl same) a = ground (
  arith,
  str_eq_iff x.identity identity,
  str_eq_iff x.target target,
  str_eq_iff x.target star,
  role_loop-wildcard identity target x.role grants h.0 h.1,
)
role_loop-none identity target wildcard (x ∷ grants) g h e (inr o) a = ground (
  arith,
  role_loop-none identity target wildcard grants g h.1,
  role_loop-none identity target x.role grants g h.1,
)

-- `RoleFor` gives no role exactly if no grant applies.
pub role_for-none_iff :
    (grants : List Grant) (identity target : Text)
    → HaveRoles grants
    → (role_for grants identity target ≡ none)
      ↔ ((g : Grant) → Occurs g grants → ¬ Applies (to_lower identity) (to_lower target) g)
unfolding role_for
role_for-none_iff grants identity target h = (
  λ e g. role_loop-none (to_lower identity) (to_lower target) [] grants g h e,
  λ nobody. elim (Option-cases (role_for grants identity target)) [
    | inl e ↦ e
    | inr (role, e) ↦
        let (g, o, a, _) = role_for_sound grants identity target e in absurd (nobody g o a)
  ],
)

abbrev pub IsExact : Text → Text → Grant → Type 0
IsExact identity target g = (g.identity ≡ identity) × (g.target ≡ target)

role_loop-IsExact :
    (identity target wildcard : Text) (grants : List Grant) (g : Grant)
    → Occurs g grants
    → IsExact identity target g
    → (h : Grant) × Occurs h grants
      × IsExact identity target h
      × (role_loop identity target wildcard grants ≡ some h.role)
unfolding role_loop
role_loop-IsExact identity target wildcard [] g o a = absurd o
role_loop-IsExact identity target wildcard (x ∷ grants) g o a =
    elim (Bool-cases (str_eq x.identity identity && str_eq x.target target)) [
      | inl exact ↦ (
        x,
        inl refl,
        ground (arith, str_eq_iff x.identity identity, str_eq_iff x.target target),
        rw exact,
      )
      | inr other ↦ elim o [
        | inl same ↦ ground (arith, str_eq_iff x.identity identity, str_eq_iff x.target target)
        | inr o' ↦
            let (h, oh, eh, r) =
              role_loop-IsExact identity target
                (if str_eq x.identity identity && str_eq x.target star then x.role else wildcard)
                grants g o' a in
            (h, inr oh, eh, rw other r)
      ]
    ]

-- A grant for the very target goes before every wildcard, wherever they stand.
pub role_for-IsExact :
    (grants : List Grant) (identity target : Text) (g : Grant)
    → Occurs g grants
    → IsExact (to_lower identity) (to_lower target) g
    → (h : Grant) × Occurs h grants
      × IsExact (to_lower identity) (to_lower target) h
      × (role_for grants identity target ≡ some h.role)
unfolding role_for
role_for-IsExact grants identity target =
    role_loop-IsExact (to_lower identity) (to_lower target) [] grants
