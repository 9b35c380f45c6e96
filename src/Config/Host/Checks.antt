-- ===== src/Config/Host/Checks.antt =====
-- internal/config/host.go: the defaults of a host, and hosts without a name twice.
use tailkitd.Prelude.{
  ◌≡◌, refl, inl, inr, false, ◌||◌, some, List, [], ◌∷◌, arith, All, Text, str_eq, eq_of_str_eq,
  str_eq_iff, if◌then◌else◌, Bool-cases,
}
use tailkitd.Os.{Outcome-cases, ok}
use tailkitd.Config.Loading.{is_known}
use tailkitd.Config.Host.{HostConfig, set_defaults, find_host, put_host, check_hosts}

-- No field that has a default is empty.
pub record IsDefaulted (h : HostConfig) : Type 0 where
  pub has_name : str_eq h.name [] ≡ false
  pub has_role : str_eq h.role [] ≡ false
  pub has_environment : str_eq h.environment [] ≡ false
  pub has_provider : str_eq h.provider [] ≡ false

pub set_defaults-IsDefaulted :
    (name : Text) (h : HostConfig)
    → str_eq (set_defaults name h).name [] ≡ false
    → IsDefaulted (set_defaults name h)
unfolding set_defaults str_eq
set_defaults-IsDefaulted name h named = record {
  has_name = named;
  has_role = ground arith;
  has_environment = ground arith;
  has_provider = ground arith;
}

pub set_defaults_named :
    (name : Text) (h : HostConfig)
    → str_eq name [] ≡ false
    → str_eq (set_defaults name h).name [] ≡ false
unfolding set_defaults
set_defaults_named name h named = ground (arith, named)

-- No two hosts have one name.
abbrev pub Distinct : List HostConfig → Type 0
Distinct [] = Unit
Distinct (h ∷ hosts) = All (λ (g : HostConfig). str_eq h.name g.name ≡ false) hosts × Distinct hosts

abbrev pub AreValid : List HostConfig → Type 0
AreValid hosts = All IsDefaulted hosts × Distinct hosts

module _ (P : HostConfig → Type 0) where
  put_host-All :
      (c : HostConfig) (hosts : List HostConfig) → P c → All P hosts → All P (put_host c hosts)
  unfolding put_host
  put_host-All c [] h a = (h, tt)
  put_host-All c (g ∷ hosts) h a = elim (Bool-cases (str_eq g.name c.name)) [
    | inl e ↦ rw e (h, a.1)
    | inr e ↦ rw e (a.0, put_host-All c hosts h a.1)
  ]

put_host-Distinct :
    (c : HostConfig) (hosts : List HostConfig) → Distinct hosts → Distinct (put_host c hosts)
unfolding put_host
put_host-Distinct c [] d = (tt, tt)
put_host-Distinct c (g ∷ hosts) d = elim (Bool-cases (str_eq g.name c.name)) [
  | inl e ↦ rw e (rw (← eq_of_str_eq g.name c.name e) d.0, d.1)
  | inr e ↦ rw e (
    put_host-All (λ (h : HostConfig). str_eq g.name h.name ≡ false) c hosts e d.0,
    put_host-Distinct c hosts d.1,
  )
]

pub put_host-AreValid :
    (c : HostConfig) (hosts : List HostConfig)
    → IsDefaulted c
    → AreValid hosts
    → AreValid (put_host c hosts)
put_host-AreValid c hosts h (all, d) =
    (put_host-All IsDefaulted c hosts h all, put_host-Distinct c hosts d)

-- Putting a host changes what is found under its name, and nothing else.
pub find_host-put_host :
    (name : Text) (c : HostConfig) (hosts : List HostConfig)
    → find_host name (put_host c hosts)
      ≡ (if str_eq c.name name then some c else find_host name hosts)
unfolding find_host put_host
find_host-put_host name c [] = refl
find_host-put_host name c (g ∷ hosts) = ground (
  arith,
  str_eq_iff c.name name,
  str_eq_iff g.name c.name,
  str_eq_iff g.name name,
  find_host-put_host name c hosts,
)

abbrev Unseen : List Text → HostConfig → Type 0
Unseen seen g = is_known seen g.name ≡ false

set_defaults-name :
    (h : HostConfig) → str_eq h.name [] ≡ false → (set_defaults h.name h).name ≡ h.name
unfolding set_defaults
set_defaults-name h named = rw named refl

Unseen-apart :
    (d : Text) (seen : List Text) (hosts : List HostConfig)
    → All (Unseen (d ∷ seen)) hosts
    → All (λ (g : HostConfig). str_eq d g.name ≡ false) hosts × All (Unseen seen) hosts
unfolding is_known
Unseen-apart d seen [] a = (tt, tt)
Unseen-apart d seen (g ∷ hosts) a =
    let (apart, rest) = Unseen-apart d seen hosts a.1 in
    ((ground (arith, a.0), apart), (ground (arith, a.0), rest))

pub check_hosts_ok :
    (seen : List Text) (hosts out : List HostConfig)
    → check_hosts seen hosts ≡ ok out
    → AreValid out × All (Unseen seen) out
unfolding check_hosts
check_hosts_ok seen [] out h = let e : [] ≡ out = cc h in rw (← e) ((tt, tt), tt)
check_hosts_ok seen (g ∷ hosts) out h =
    elim (Bool-cases (str_eq g.name [] || is_known seen g.name)) [
      | inl bad ↦ absurd (cc (rw bad at h))
      | inr good ↦ elim (Outcome-cases (check_hosts (g.name ∷ seen) hosts)) [
        | inr (x, failed) ↦ absurd (cc (rw (good, failed) at h))
        | inl (rest, found) ↦
            let made : ok (set_defaults g.name g ∷ rest) ≡ ok out = rw (good, found) at h in
            let same : set_defaults g.name g ∷ rest ≡ out = cc made in
            let ((all, d), unseen) = check_hosts_ok (g.name ∷ seen) hosts rest found in
            let (apart, before) = Unseen-apart g.name seen rest unseen in
            let named : str_eq g.name [] ≡ false = ground (arith, good) in
            let new : is_known seen g.name ≡ false = ground (arith, good) in
            let kept = set_defaults-name g named in
            rw (← same) (
              ((set_defaults-IsDefaulted g.name g (rw kept named), all), (rw kept apart, d)),
              (rw kept new, before),
            )
      ]
    ]

set_defaults_same : (g : HostConfig) → IsDefaulted g → set_defaults g.name g ≡ g
unfolding set_defaults
set_defaults_same g d = rw (d.has_name, d.has_role, d.has_environment, d.has_provider) refl

Unseen-behind :
    (d : Text) (seen : List Text) (hosts : List HostConfig)
    → All (λ (g : HostConfig). str_eq d g.name ≡ false) hosts
    → All (Unseen seen) hosts
    → All (Unseen (d ∷ seen)) hosts
unfolding is_known
Unseen-behind d seen [] a u = tt
Unseen-behind d seen (g ∷ hosts) a u =
    (ground (arith, a.0, u.0), Unseen-behind d seen hosts a.1 u.1)

-- Hosts that are valid are loaded as they are.
pub check_hosts_same :
    (seen : List Text) (hosts : List HostConfig)
    → AreValid hosts
    → All (Unseen seen) hosts
    → check_hosts seen hosts ≡ ok hosts
unfolding check_hosts
check_hosts_same seen [] v u = refl
check_hosts_same seen (g ∷ hosts) ((d, all), (apart, distinct)) u =
    let fresh : (str_eq g.name [] || is_known seen g.name) ≡ false =
      ground (arith, d.has_name, u.0) in
    rw
      (
        fresh,
        check_hosts_same (g.name ∷ seen) hosts (all, distinct)
            (Unseen-behind g.name seen hosts apart u.1),
        set_defaults_same g d,
      )
      refl

pub no_seen : (hosts : List HostConfig) → All (Unseen []) hosts
unfolding is_known
no_seen [] = tt
no_seen (g ∷ hosts) = (refl, no_seen hosts)
