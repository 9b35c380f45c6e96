-- ===== src/Config/Host/Valid.antt =====
-- internal/config/host.go: what holds of the hosts that the daemon keeps.
use tailkitd.Prelude.{
  ◌≡◌, refl, ap, ◌∙◌, inl, inr, Bool, true, false, Option, none, some, List, [], ◌∷◌, lookup,
  insert, Text, str_eq, Bool-cases,
}
use tailkitd.Os.{
  Outcome, Outcome-cases, World, ◌>>◌, syscall, read_file, mkdir_all, read_file_ok, bind_ok,
  not_exist, ok, err,
}
use tailkitd.Os.Plain.{stat}
use tailkitd.Os.Atomic.{atomic_write, atomic_write_ok}
use tailkitd.Config.Host.{
  HostConfig, set_defaults, find_host, HostManager, load_host_file, replace_self, reload,
  decoded_hosts, reloaded_self, reloaded_hosts, replaced_by, with_self, write_host_file,
  ensure_host_config, new_host_manager, blank, after_stat,
}
use tailkitd.Config.Host.Checks.{
  IsDefaulted, set_defaults-IsDefaulted, set_defaults_named, AreValid, put_host-AreValid,
  find_host-put_host, check_hosts_ok, check_hosts_same, no_seen,
}

-- The hosts are valid, and the daemon's own is the one of that name.
pub record IsValid (m : HostManager) : Type 0 where
  pub hosts_valid : AreValid m.hosts
  pub self_found : find_host m.self_name m.hosts ≡ some m.self

module _ (toml_decode : Text → Option (List HostConfig × Bool))
    (toml_encode : List HostConfig → Outcome Text) where
  decoded_hosts_ok :
      (o : Option (List HostConfig × Bool)) (hosts : List HostConfig)
      → decoded_hosts toml_decode toml_encode o ≡ ok hosts
      → AreValid hosts
  decoded_hosts_ok none hosts h = absurd (cc h)
  decoded_hosts_ok (some (l, true)) hosts h = absurd (cc h)
  decoded_hosts_ok (some ([], false)) hosts h = absurd (cc h)
  decoded_hosts_ok (some (g ∷ l, false)) hosts h = (check_hosts_ok [] (g ∷ l) hosts h).0

  pub load_host_file_ok :
      (path : Text) (w : World Text) (hosts : List HostConfig)
      → (load_host_file toml_decode toml_encode path w).0 ≡ ok hosts
      → (text : Text) × (lookup path w.files ≡ some text)
        × (decoded_hosts toml_decode toml_encode (toml_decode text) ≡ ok hosts)
  unfolding load_host_file
  load_host_file_ok path w hosts h =
      let (text, read, rest, end) =
        bind_ok (read_file path)
          (λ text w. (decoded_hosts toml_decode toml_encode (toml_decode text), w)) w hosts h in
      (text, read_file_ok path w text read, rest)

  reloaded_self-IsValid :
      (m : HostManager) (hosts : List HostConfig) (o : Option HostConfig)
      → IsValid m
      → AreValid hosts
      → find_host m.self_name hosts ≡ o
      → IsValid (reloaded_self toml_decode toml_encode m hosts o).1
  reloaded_self-IsValid m hosts none v all e = v
  reloaded_self-IsValid m hosts (some self) v all e = record { hosts_valid = all; self_found = e }

  reloaded_hosts-IsValid :
      (m : HostManager) (r : Outcome (List HostConfig))
      → IsValid m
      → ((hosts : List HostConfig) → r ≡ ok hosts → AreValid hosts)
      → IsValid (reloaded_hosts toml_decode toml_encode m r).1
  reloaded_hosts-IsValid m (err e) v all = v
  reloaded_hosts-IsValid m (ok hosts) v all =
      reloaded_self-IsValid m hosts (find_host m.self_name hosts) v (all hosts refl) refl

  reloaded_self-self_name :
      (m : HostManager) (hosts : List HostConfig) (o : Option HostConfig)
      → (reloaded_self toml_decode toml_encode m hosts o).1.self_name ≡ m.self_name
  reloaded_self-self_name m hosts none = refl
  reloaded_self-self_name m hosts (some self) = refl

  reloaded_hosts-self_name :
      (m : HostManager) (r : Outcome (List HostConfig))
      → (reloaded_hosts toml_decode toml_encode m r).1.self_name ≡ m.self_name
  reloaded_hosts-self_name m (err e) = refl
  reloaded_hosts-self_name m (ok hosts) =
      reloaded_self-self_name m hosts (find_host m.self_name hosts)

  pub reload-self_name :
      (m : HostManager) (w : World Text)
      → (reload toml_decode toml_encode m w).1.self_name ≡ m.self_name
  unfolding reload
  reload-self_name m w =
      reloaded_hosts-self_name m (load_host_file toml_decode toml_encode m.path w).0

  pub replace_self-self_name :
      (c : HostConfig) (m : HostManager)
      → (replace_self toml_decode toml_encode c m).1.self_name ≡ m.self_name
  unfolding replace_self
  replace_self-self_name c m =
      elim (Bool-cases (str_eq (set_defaults m.self_name c).name m.self_name)) [
        | inl e ↦ rw e refl
        | inr e ↦ rw e refl
      ]

  pub reload-IsValid :
      (m : HostManager) (w : World Text)
      → IsValid m
      → IsValid (reload toml_decode toml_encode m w).1
  unfolding reload
  reload-IsValid m w v =
      reloaded_hosts-IsValid m (load_host_file toml_decode toml_encode m.path w).0 v (λ hosts h.
        let (text, held, made) = load_host_file_ok m.path w hosts h in
        decoded_hosts_ok (toml_decode text) hosts made)

  replaced_by-IsValid :
      (c : HostConfig) (m : HostManager)
      → IsDefaulted c
      → IsValid m
      → IsValid (replaced_by toml_decode toml_encode c m).1
  replaced_by-IsValid c m d v = elim (Bool-cases (str_eq c.name m.self_name)) [
    | inr other ↦ rw other v
    | inl e ↦ rw e (record {
      hosts_valid = put_host-AreValid c m.hosts d v.hosts_valid;
      self_found = find_host-put_host m.self_name c m.hosts ∙ rw e refl;
    })
  ]

  pub replace_self-IsValid :
      (c : HostConfig) (m : HostManager)
      → str_eq m.self_name [] ≡ false
      → IsValid m
      → IsValid (replace_self toml_decode toml_encode c m).1
  unfolding replace_self
  replace_self-IsValid c m named v =
      replaced_by-IsValid (set_defaults m.self_name c) m
        (set_defaults-IsDefaulted m.self_name c (set_defaults_named m.self_name c named)) v

  with_self-IsValid :
      (path name : Text) (hosts : List HostConfig) (o : Option HostConfig) (m : HostManager)
      → AreValid hosts
      → find_host name hosts ≡ o
      → with_self toml_decode toml_encode path name hosts o ≡ ok m
      → IsValid m × (m.self_name ≡ name)
  with_self-IsValid path name hosts none m v e h = absurd (cc h)
  with_self-IsValid path name hosts (some self) m v e h =
      let same : record { hosts = hosts; self = self; path = path; self_name = name } ≡ m = cc h in
      rw (← same) (record { hosts_valid = v; self_found = e }, refl)

  after_stat_ok :
      (path name : Text) (r : Outcome Unit) (w : World Text) (hosts : List HostConfig)
      → str_eq name [] ≡ false
      → (after_stat toml_decode toml_encode path name r w).0 ≡ ok hosts
      → AreValid hosts
  unfolding set_defaults
  after_stat_ok path name (ok u) w hosts named h =
      let (text, held, made) = load_host_file_ok path w hosts h in
      decoded_hosts_ok (toml_decode text) hosts made
  after_stat_ok path name (err not_exist) w hosts named h =
      let c = set_defaults name (blank toml_decode toml_encode) in
      let (u, wrote, rest, end) =
        bind_ok (write_host_file toml_decode toml_encode path (c ∷ [])) (λ _ v. (ok (c ∷ []), v)) w
          hosts h in
      let same : c ∷ [] ≡ hosts = cc rest in
      rw (← same) (
        (
          set_defaults-IsDefaulted name (blank toml_decode toml_encode)
              (set_defaults_named name (blank toml_decode toml_encode) named),
          tt,
        ),
        (tt, tt),
      )
  after_stat_ok path name (err e) w hosts named h = absurd (cc h)

  ensure_host_config_ok :
      (path name : Text) (w : World Text) (hosts : List HostConfig)
      → str_eq name [] ≡ false
      → (ensure_host_config toml_decode toml_encode path name w).0 ≡ ok hosts
      → AreValid hosts
  unfolding ensure_host_config
  ensure_host_config_ok path name w hosts named h =
      let (u, made, rest, end) = bind_ok mkdir_all _ w hosts h in
      after_stat_ok path name (stat path (mkdir_all w).1).0 (stat path (mkdir_all w).1).1 hosts
        named rest

  -- A manager that starts has a valid view under the name of its host.
  pub new_host_manager-IsValid :
      (path name : Text) (w : World Text) (m : HostManager)
      → str_eq name [] ≡ false
      → (new_host_manager toml_decode toml_encode path name w).0 ≡ ok m
      → IsValid m × (m.self_name ≡ name)
  unfolding new_host_manager
  new_host_manager-IsValid path name w m named h =
      let (hosts, loaded, h1, e1) =
        bind_ok (ensure_host_config toml_decode toml_encode path name) _ w m h in
      let (m', made, h2, e2) =
        bind_ok
          (λ (v : World Text).
            (with_self toml_decode toml_encode path name hosts (find_host name hosts), v))
          (λ (k : HostManager). do syscall; syscall; λ v. (ok k, v))
          (ensure_host_config toml_decode toml_encode path name w).1 m h1 in
      let (u, s1, h3, e3) =
        bind_ok syscall (λ _. do syscall; λ v. (ok m', v))
          (ensure_host_config toml_decode toml_encode path name w).1 m h2 in
      let (v, s2, h4, e4) =
        bind_ok syscall (λ _ v. (ok m', v))
          (syscall (ensure_host_config toml_decode toml_encode path name w).1).1 m h3 in
      let same : m' ≡ m = cc h4 in
      with_self-IsValid path name hosts (find_host name hosts) m
        (ensure_host_config_ok path name w hosts named loaded) refl (rw same at made)

  decoded_hosts_same :
      (name : Text) (hosts : List HostConfig) (c : HostConfig)
      → AreValid hosts
      → find_host name hosts ≡ some c
      → decoded_hosts toml_decode toml_encode (some (hosts, false)) ≡ ok hosts
  unfolding find_host
  decoded_hosts_same name [] c v f = absurd (cc f)
  decoded_hosts_same name (g ∷ hosts) c v f =
      check_hosts_same [] (g ∷ hosts) v (no_seen (g ∷ hosts))

  -- A reload that succeeds on a file of valid hosts has taken them over.
  pub reload_valid :
      (m : HostManager) (w : World Text) (hosts : List HostConfig) (c : HostConfig) (text : Text)
      (u : Unit)
      → AreValid hosts
      → find_host m.self_name hosts ≡ some c
      → lookup m.path w.files ≡ some text
      → toml_decode text ≡ some (hosts, false)
      → (reload toml_decode toml_encode m w).0 ≡ ok u
      → (reload toml_decode toml_encode m w).1 ≡ record m { hosts = hosts; self = c }
  unfolding reload
  reload_valid m w hosts c text u v f held decoded h =
      elim (Outcome-cases (load_host_file toml_decode toml_encode m.path w).0) [
        | inr (e, failed) ↦ absurd (cc (rw failed at h))
        | inl (found, loaded) ↦
            let (text', held', made) = load_host_file_ok m.path w found loaded in
            let one : text' ≡ text = cc (held, held') in
            let made' : decoded_hosts toml_decode toml_encode (some (hosts, false)) ≡ ok found =
              rw (one, decoded) at made in
            let same : found ≡ hosts = cc (made', decoded_hosts_same m.self_name hosts c v f) in
            rw (loaded, same, f) refl
      ]

  pub write_host_file_ok :
      (path : Text) (hosts : List HostConfig) (w : World Text) (u : Unit)
      → (write_host_file toml_decode toml_encode path hosts w).0 ≡ ok u
      → (text : Text) × (toml_encode hosts ≡ ok text)
        × ((write_host_file toml_decode toml_encode path hosts w).1.files
            ≡ insert path text w.files)
  unfolding write_host_file
  write_host_file_ok path hosts w u h =
      let (text, coded, rest, end) =
        bind_ok (λ (v : World Text). (toml_encode hosts, v)) (λ text. atomic_write path text) w u
          h in
      (text, coded, ap (λ (v : World Text). v.files) end ∙ atomic_write_ok path text w rest)
