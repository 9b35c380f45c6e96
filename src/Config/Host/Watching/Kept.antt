-- ===== src/Config/Host/Watching/Kept.antt =====
-- internal/config/host.go: the daemon's view of the hosts stays valid.
use tailkitd.Prelude.{
  ◌≡◌, ◌∙◌, inl, inr, Bool, false, ◌&&◌, Option, List, [], clean, Text, str_eq, Bool-cases,
}
use tailkitd.Os.{Outcome, World, ok}
use tailkitd.Config.Host.{new_host_manager, HostConfig, HostManager}
use tailkitd.Config.Host.Valid.{
  IsValid, reload-self_name, replace_self-self_name, reload-IsValid, replace_self-IsValid,
  new_host_manager-IsValid,
}
use tailkitd.Config.Host.Watching.{
  Watch, Step, Reach, outside, event, timer, replaced, start, next, on_event, on_timer, on_replace,
}

module _ (toml_decode : Text → Option (List HostConfig × Bool))
    (toml_encode : List HostConfig → Outcome Text) where
  -- The daemon has a name, which stays, and its view is valid.
  abbrev pub Holds : Text → Watch → Type 0
  Holds name s = (s.manager.self_name ≡ name) × IsValid s.manager

  Step-Holds :
      {name : Text} {s t : Watch}
      → str_eq name [] ≡ false
      → Holds name s
      → Step toml_decode toml_encode s t
      → Holds name t
  unfolding on_event on_timer on_replace
  Step-Holds named h (outside w) = h
  Step-Holds {name} {s} named h (event file changes) =
      elim (Bool-cases (str_eq (clean file) (clean s.manager.path) && changes)) [
        | inl e ↦ rw e h
        | inr e ↦ rw e h
      ]
  Step-Holds {name} {s} named (e, v) (timer armed) = (
    reload-self_name toml_decode toml_encode s.manager s.world ∙ e,
    reload-IsValid toml_decode toml_encode s.manager s.world v,
  )
  Step-Holds {name} {s} named (e, v) (replaced c) = (
    replace_self-self_name toml_decode toml_encode c s.manager ∙ e,
    replace_self-IsValid toml_decode toml_encode c s.manager (rw e named) v,
  )

  -- Whatever other processes write, whatever events come and whichever calls fail: the view of the
  -- hosts that the daemon keeps has no two hosts of one name, no host without a name, a role, an
  -- environment or a provider, and its own entry is the one of its name.
  pub Reach-Holds :
      {name : Text} {s t : Watch}
      → str_eq name [] ≡ false
      → Holds name s
      → Reach toml_decode toml_encode s t
      → Holds name t
  Reach-Holds named h start = h
  Reach-Holds named h (next r st) = Step-Holds named (Reach-Holds named h r) st

  -- From the start on, whatever other processes write, whatever events come and whichever calls
  -- fail: no two hosts of the daemon's view have one name, none is without a name, a role, an
  -- environment or a provider, and its own entry is the one of its name.
  pub new_host_manager-Reach :
      (path name : Text) (w : World Text) (m : HostManager) (t : Watch)
      → str_eq name [] ≡ false
      → (new_host_manager toml_decode toml_encode path name w).0 ≡ ok m
      → Reach toml_decode toml_encode
          (record {
            manager = m;
            armed = false;
            world = (new_host_manager toml_decode toml_encode path name w).1;
          })
          t
      → (t.manager.self_name ≡ name) × IsValid t.manager
  new_host_manager-Reach path name w m t named made r =
      let (v, e) = new_host_manager-IsValid toml_decode toml_encode path name w m named made in
      Reach-Holds named (e, v) r
