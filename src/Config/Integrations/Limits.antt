-- ===== src/Config/Integrations/Limits.antt =====
-- internal/config: what the integrations may rely on.
use tailkitd.Prelude.{
  ℕ, ◌≤◌, ◌≡◌, ◌⊎◌, inl, inr, true, Option, none, some, List, arith, ℤ, ltb_ℤ, pos, negsuc, Text,
  Bool-cases,
}
use tailkitd.Os.{World, ok}
use tailkitd.Config.Loading.{is_known, are_known, are_known_at, load_config_ok}
use tailkitd.Config.Integrations.{
  DockerSectionConfig, DockerConfig, permits, container_ops, image_ops, compose_ops, swarm_ops,
  validate_docker_config, no_section, no_docker, parse_docker, load_docker_config, SystemdConfig,
  unit_ops, journal_priorities, validate_systemd_config, with_journal_defaults, no_systemd,
  parse_systemd, load_systemd_config, decoded_docker, decoded_systemd,
}

-- At least `lo` and at most `hi`
abbrev pub InRange : ℕ → ℕ → ℤ → Type 0
InRange lo hi (pos n) = (lo ≤ n) × (n ≤ hi)
InRange lo hi (negsuc n) = ⊥

-- What the section permits is of the set, and the section is enabled.
abbrev pub PermitsOnly : List Text → DockerSectionConfig → Type 0
PermitsOnly known s =
    (op : Text) → permits s op ≡ true → (s.enabled ≡ true) × (is_known known op ≡ true)

permits-PermitsOnly :
    (known : List Text) (s : DockerSectionConfig)
    → are_known known s.allow ≡ true
    → PermitsOnly known s
unfolding permits
permits-PermitsOnly known s h op k = elim (Bool-cases s.enabled) [
  | inl on ↦ (on, are_known_at known s.allow op h (ground (arith, on, k)))
  | inr off ↦ absurd (ground (arith, off, k))
]

module _ (toml_decode : Text → Option DockerConfig) where
  abbrev pub DockerOnly : DockerConfig → Type 0
  DockerOnly c =
      PermitsOnly container_ops c.containers
      × PermitsOnly image_ops c.images
      × PermitsOnly compose_ops c.compose
      × PermitsOnly swarm_ops c.swarm

  docker_of :
      (o : Option DockerConfig) (c : DockerConfig)
      → decoded_docker toml_decode o ≡ ok c
      → DockerOnly c
  unfolding validate_docker_config
  docker_of none c h = absurd (cc h)
  docker_of (some d) c h = elim (Bool-cases (validate_docker_config d)) [
    | inr e ↦ absurd (cc (rw e at h))
    | inl e ↦
        let same : record d { enabled = true } ≡ c = cc (rw e at h) in
        rw (← same) (
          permits-PermitsOnly container_ops d.containers (ground (arith, e)),
          permits-PermitsOnly image_ops d.images (ground (arith, e)),
          permits-PermitsOnly compose_ops d.compose (ground (arith, e)),
          permits-PermitsOnly swarm_ops d.swarm (ground (arith, e)),
        )
  ]

  nothing_permitted : (known : List Text) → PermitsOnly known no_section
  unfolding permits
  nothing_permitted known op k = absurd (cc k)

  -- Whatever docker.toml holds, as long as it loads or is missing, each section permits only
  -- operations of its closed set, and none unless it is enabled.
  pub load_docker_config_lem :
      (path : Text) (w : World Text) (c : DockerConfig)
      → (load_docker_config toml_decode path w).0 ≡ ok c
      → DockerOnly c
  unfolding load_docker_config
  load_docker_config_lem path w c h =
      elim (load_config_ok (parse_docker toml_decode) no_docker path w c h) [
        | inl e ↦ rw e (
          nothing_permitted container_ops,
          nothing_permitted image_ops,
          nothing_permitted compose_ops,
          nothing_permitted swarm_ops,
        )
        | inr (text, held, k) ↦ docker_of (toml_decode text) c k
      ]

module _ (toml_decode : Text → Option SystemdConfig) where
  -- A configuration that is enabled has a positive number of lines, a known priority and known
  -- operations.
  abbrev pub SystemdFits : SystemdConfig → Type 0
  SystemdFits c =
      (ltb_ℤ (pos 0) c.lines ≡ true)
      × (is_known journal_priorities c.priority ≡ true)
      × (are_known unit_ops c.units_allow ≡ true)

  systemd_of :
      (o : Option SystemdConfig) (c : SystemdConfig)
      → decoded_systemd toml_decode o ≡ ok c
      → SystemdFits c
  unfolding validate_systemd_config
  systemd_of none c h = absurd (cc h)
  systemd_of (some d) c h = elim (Bool-cases (validate_systemd_config (with_journal_defaults d))) [
    | inr e ↦ absurd (cc (rw e at h))
    | inl e ↦
        let same : record (with_journal_defaults d) { enabled = true } ≡ c = cc (rw e at h) in
        rw (← same) (ground (arith, e), ground (arith, e), ground (arith, e))
  ]

  pub load_systemd_config_lem :
      (path : Text) (w : World Text) (c : SystemdConfig)
      → (load_systemd_config toml_decode path w).0 ≡ ok c
      → (c ≡ no_systemd) ⊎ SystemdFits c
  unfolding load_systemd_config
  load_systemd_config_lem path w c h =
      elim (load_config_ok (parse_systemd toml_decode) no_systemd path w c h) [
        | inl e ↦ inl e
        | inr (text, held, k) ↦ inr (systemd_of (toml_decode text) c k)
      ]
