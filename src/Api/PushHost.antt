-- ===== src/Api/PushHost.antt =====
-- internal/api/admin.go: `pushHostConfig`, which writes the daemon's own entry of hosts.toml. The
-- configured path is the one that the manager reads.
pub mod Refines
use tailkitd.Prelude.{ℕ, Bool, not, Option, none, some, List, Text, str_eq, if◌then◌else◌}
use tailkitd.Os.{Outcome, World, ok, err}
use tailkitd.Config.Host.{HostConfig, HostManager, set_defaults, put_host, write_host_file, reload}

pub record Fleet : Type 0 where
  pub manager : HostManager
  pub world : World Text

module _ (toml_decode : Text → Option (List HostConfig × Bool))
    (toml_encode : List HostConfig → Outcome Text) where
  abbrev reloaded_fleet : Outcome Unit × HostManager × World Text → ℕ × Fleet
  reloaded_fleet (ok _, m, w) = (200, record { manager = m; world = w })
  reloaded_fleet (err e, m, w) = (500, record { manager = m; world = w })

  abbrev after_hosts : Outcome Unit → HostManager → World Text → ℕ × Fleet
  after_hosts (err e) m w = (409, record { manager = m; world = w })
  after_hosts (ok _) m w = reloaded_fleet (reload toml_decode toml_encode m w)

  abbrev push_named : HostConfig → Fleet → ℕ × Fleet
  push_named c f =
      if not (str_eq c.name f.manager.self_name)
      then (400, f)
      else let (r, w) =
          write_host_file toml_decode toml_encode f.manager.path (put_host c f.manager.hosts)
            f.world in
        after_hosts r f.manager w

  -- `pushHostConfig`; the body is `none` if it is no JSON of a host.
  unfoldable pub push_host_config : Option HostConfig → Fleet → ℕ × Fleet
  push_host_config none f = (400, f)
  push_host_config (some c) f = push_named (set_defaults f.manager.self_name c) f
