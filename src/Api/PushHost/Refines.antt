-- ===== src/Api/PushHost/Refines.antt =====
-- internal/api/admin.go: `pushHostConfig` against a map from names to hosts.
use tailkitd.Prelude.{
  ◌≡◌, refl, ◌∙◌, inl, inr, Bool, false, Option, some, List, [], arith, lookup-insert_self, Text,
  str_eq, eq_of_str_eq, if◌then◌else◌, Bool-cases,
}
use tailkitd.Os.{Outcome, Outcome-cases, World, ok, err}
use tailkitd.Config.Host.{
  HostConfig, find_host, set_defaults, put_host, HostManager, write_host_file, reload,
}
use tailkitd.Config.Host.Valid.{IsValid, reload_valid, write_host_file_ok}
use tailkitd.Config.Host.Checks.{
  IsDefaulted, set_defaults-IsDefaulted, set_defaults_named, put_host-AreValid, find_host-put_host,
}
use tailkitd.Api.PushHost.{Fleet, push_host_config, reloaded_fleet, push_named}

module _ (toml_decode : Text → Option (List HostConfig × Bool))
    (toml_encode : List HostConfig → Outcome Text) where
  -- The hosts as a map
  abbrev pub hosts_of : Fleet → Text → Option HostConfig
  hosts_of f name = find_host name f.manager.hosts

  -- The decoder reads what the encoder writes for these hosts.
  abbrev pub ReadsBack : List HostConfig → Type 0
  ReadsBack hosts =
      (text : Text) → toml_encode hosts ≡ ok text → toml_decode text ≡ some (hosts, false)

  -- The new entry is under the daemon's name, and all else is as it was.
  abbrev pub Updated : HostConfig → Fleet → Fleet → Type 0
  Updated c before after =
      (c.name ≡ before.manager.self_name)
      × (after.manager.self ≡ c)
      × ((name : Text)
          → hosts_of after name ≡ (if str_eq c.name name then some c else hosts_of before name))

  after_reload :
      (c : HostConfig) (f : Fleet) (w : World Text) (text : Text)
      (out : Outcome Unit × HostManager × World Text)
      → c.name ≡ f.manager.self_name
      → ((u : Unit)
          → out.0 ≡ ok u
          → out.1 ≡ record f.manager { hosts = put_host c f.manager.hosts; self = c })
      → (reloaded_fleet toml_decode toml_encode out).0 ≡ 200
      → Updated c f (reloaded_fleet toml_decode toml_encode out).1
  after_reload c f w text (err e, m, v) same taken h = absurd (omega arith)
  after_reload c f w text (ok u, m, v) same taken h =
      rw (taken u refl) (same, refl, λ name. find_host-put_host name c f.manager.hosts)

  push_named_lem :
      (c : HostConfig) (f : Fleet)
      → ReadsBack (put_host c f.manager.hosts)
      → IsValid f.manager
      → IsDefaulted c
      → (push_named toml_decode toml_encode c f).0 ≡ 200
      → Updated c f (push_named toml_decode toml_encode c f).1
  push_named_lem c f back v d h = elim (Bool-cases (str_eq c.name f.manager.self_name)) [
    | inr other ↦ absurd (omega (arith, rw other at h))
    | inl e ↦
        let m = f.manager in
        let (r, w) = write_host_file toml_decode toml_encode m.path (put_host c m.hosts) f.world in
        let same : c.name ≡ m.self_name = eq_of_str_eq c.name m.self_name e in
        elim (Outcome-cases r) [
          | inr (x, failed) ↦ absurd (omega (arith, rw (e, failed) at h))
          | inl (u, wrote) ↦
              let (text, coded, files) =
                write_host_file_ok toml_decode toml_encode m.path (put_host c m.hosts) f.world u
                  wrote in
              rw (e, wrote)
                (after_reload c f w text (reload toml_decode toml_encode m w) same
                  (λ u'.
                    reload_valid toml_decode toml_encode m w (put_host c m.hosts) c text u'
                      (put_host-AreValid c m.hosts d v.hosts_valid)
                      (find_host-put_host m.self_name c m.hosts ∙ rw e refl)
                      (rw files (lookup-insert_self m.path text f.world.files)) (back text coded))
                  (rw (e, wrote) at h))
        ]
  ]

  -- Where the decoder reads what the encoder writes for the new hosts: a push that is answered with 200 has put the
  -- host of the request, with its defaults, under the daemon's name into the map of the hosts and
  -- into the daemon's own entry, and has left what is under every other name.
  pub push_host_config_refines :
      (c : HostConfig) (f : Fleet)
      → ReadsBack (put_host (set_defaults f.manager.self_name c) f.manager.hosts)
      → str_eq f.manager.self_name [] ≡ false
      → IsValid f.manager
      → (push_host_config toml_decode toml_encode (some c) f).0 ≡ 200
      → Updated
          (set_defaults f.manager.self_name c)
          f
          (push_host_config toml_decode toml_encode (some c) f).1
  unfolding push_host_config
  push_host_config_refines c f back named v h =
      let n = f.manager.self_name in
      push_named_lem (set_defaults n c) f back v
        (set_defaults-IsDefaulted n c (set_defaults_named n c named)) h
