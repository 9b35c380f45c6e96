-- ===== src/Services/Registry/Loading.antt =====
-- internal/services/registry.go: what may be in the registry.
use tailkitd.Prelude.{
  ◌≡◌, refl, ◌≢◌, ◌↔◌, ◌⊎◌, inl, inr, Bool, true, false, Option, none, some, List, [], ◌∷◌, ◌++◌,
  arith, Dict, insert, All, Text, codes, str_eq, eq_of_str_eq, str_eq_iff, has_suffix, to_lower,
  trim_space, Bool-cases,
}
use tailkitd.Os.{Outcome, Outcome-cases, World, read_file, read_dir, not_exist, ok, err}
use tailkitd.Services.Registry.{
  OutsiderServiceConfig, is_empty, check_runtime, validate, with_priority, checked_config, load_one,
  load_dir, reload, put_loaded, decoded, skip_or_load, load_names, after_listing, or_old,
}

-- The target fields are those that the runtime needs, and no others.
abbrev pub FitsRuntime : OutsiderServiceConfig → Type 0
FitsRuntime s =
    ((s.runtime ≡ codes "systemd")
      × (s.systemd_unit ≢ [])
      × (s.binary_path ≡ [])
      × (s.pid_file ≡ []))
    ⊎ (((s.runtime ≡ codes "binary")
          × (s.binary_path ≢ [])
          × (s.pid_file ≢ [])
          × (s.systemd_unit ≡ []))
        ⊎ ((s.runtime ≡ codes "port-only")
            × (s.systemd_unit ≡ [])
            × (s.binary_path ≡ [])
            × (s.pid_file ≡ [])))

pub record IsValid (s : OutsiderServiceConfig) : Type 0 where
  pub named : s.name ≢ []
  pub prioritised : s.priority ≢ []
  pub fits_runtime : FitsRuntime s

empty_iff : (s : Text) → (is_empty s ≡ true) ↔ (s ≡ [])
empty_iff s = str_eq_iff s []

check_runtime-FitsRuntime : (s : OutsiderServiceConfig) → check_runtime s ≡ true → FitsRuntime s
check_runtime-FitsRuntime s h = elim (Bool-cases (str_eq s.runtime (codes "systemd"))) [
  | inl e ↦ inl (
    eq_of_str_eq s.runtime (codes "systemd") e,
    ground (arith, e, h, empty_iff s.systemd_unit),
    ground (arith, e, h, empty_iff s.binary_path),
    ground (arith, e, h, empty_iff s.pid_file),
  )
  | inr n ↦ elim (Bool-cases (str_eq s.runtime (codes "binary"))) [
    | inl e ↦ inr (
        inl (
          eq_of_str_eq s.runtime (codes "binary") e,
          ground (arith, n, e, h, empty_iff s.binary_path),
          ground (arith, n, e, h, empty_iff s.pid_file),
          ground (arith, n, e, h, empty_iff s.systemd_unit),
        ))
    | inr m ↦ inr (
        inr (
          ground (arith, n, m, h, str_eq_iff s.runtime (codes "port-only")),
          ground (arith, n, m, h, empty_iff s.systemd_unit),
          ground (arith, n, m, h, empty_iff s.binary_path),
          ground (arith, n, m, h, empty_iff s.pid_file),
        ))
  ]
]

FitsRuntime-check_runtime : (s : OutsiderServiceConfig) → FitsRuntime s → check_runtime s ≡ true
unfolding str_eq
FitsRuntime-check_runtime s (inl (r, u, b, p)) =
    ground (arith, r, b, p, u, empty_iff s.systemd_unit)
FitsRuntime-check_runtime s (inr (inl (r, b, p, u))) =
    ground (arith, r, b, p, u, empty_iff s.binary_path, empty_iff s.pid_file)
FitsRuntime-check_runtime s (inr (inr (r, u, b, p))) = ground (arith, r, b, p, u)

ok_injective : (s t : OutsiderServiceConfig) → ok s ≡ ok t → s ≡ t
ok_injective s t h = ground (arith, h)

with_priority-IsValid :
    (s : OutsiderServiceConfig) → s.name ≢ [] → FitsRuntime s → IsValid (with_priority s)
with_priority-IsValid s n h = elim (Bool-cases (is_empty s.priority)) [
  | inl e ↦ rw e (record { named = n; prioritised = λ p. cc p; fits_runtime = h })
  | inr e ↦ rw e (record {
    named = n;
    prioritised = λ p. ground (arith, e, p, empty_iff s.priority);
    fits_runtime = h;
  })
]

checked_config_lem :
    (s t : OutsiderServiceConfig)
    → checked_config s ≡ ok t
    → (s.name ≢ []) × FitsRuntime s × (with_priority s ≡ t)
unfolding checked_config
checked_config_lem s t h = elim (Bool-cases (is_empty s.name)) [
  | inl e ↦ cc (rw e at h)
  | inr e ↦ elim (Bool-cases (check_runtime s)) [
    | inr bad ↦ cc (rw (e, bad) at h)
    | inl good ↦ (
      (λ n. ground (arith, e, n, empty_iff s.name)),
      check_runtime-FitsRuntime s good,
      ok_injective (with_priority s) t (rw (e, good) at h),
    )
  ]
]

abbrev pub normal : OutsiderServiceConfig → OutsiderServiceConfig
normal s = record s { runtime = to_lower (trim_space s.runtime) }

accepted :
    (s : OutsiderServiceConfig)
    → s.name ≢ []
    → FitsRuntime s
    → checked_config s ≡ ok (with_priority s)
unfolding checked_config
accepted s n fits = elim (Bool-cases (is_empty s.name)) [
  | inl e ↦ absurd (n (eq_of_str_eq s.name [] e))
  | inr e ↦ rw (e, FitsRuntime-check_runtime s fits) refl
]

-- `Validate` accepts exactly the configurations that have a name and just the target fields that
-- their runtime needs, the runtime taken without case and surrounding space; and what it leaves in
-- the struct is valid and has a priority.
pub validate_lem :
    (s : OutsiderServiceConfig)
    → (((t : OutsiderServiceConfig) × (validate s ≡ ok t))
        ↔ ((s.name ≢ []) × FitsRuntime (normal s)))
      × ((t : OutsiderServiceConfig) → validate s ≡ ok t → IsValid t)
unfolding validate checked_config
validate_lem s = (
  (
    (λ (t, h). let (n, fits, same) = checked_config_lem (normal s) t h in (n, fits)),
    (λ (n, fits). (with_priority (normal s), accepted (normal s) n fits)),
  ),
  λ t h.
      let (n, fits, same) = checked_config_lem (normal s) t h in
      rw (← same) (with_priority-IsValid (normal s) n fits),
)

abbrev pub AllValid : Dict OutsiderServiceConfig → Type 0
AllValid d = All (λ (e : Text × OutsiderServiceConfig). (e.0 ≡ e.1.name) × IsValid e.1) d

insert-AllValid :
    (s : OutsiderServiceConfig) (d : Dict OutsiderServiceConfig)
    → IsValid s
    → AllValid d
    → AllValid (insert s.name s d)
unfolding insert
insert-AllValid s [] v h = ((refl, v), tt)
insert-AllValid s ((k, t) ∷ d) v h = elim (Bool-cases (str_eq k s.name)) [
  | inl e ↦ rw e ((refl, v), h.1)
  | inr e ↦ rw e (h.0, insert-AllValid s d v h.1)
]

put_loaded-AllValid :
    (r : Outcome OutsiderServiceConfig) (d : Dict OutsiderServiceConfig)
    → ((s : OutsiderServiceConfig) → r ≡ ok s → IsValid s)
    → AllValid d
    → AllValid (put_loaded r d)
put_loaded-AllValid (ok s) d v h = insert-AllValid s d (v s refl) h
put_loaded-AllValid (err e) d v h = h

module _ (toml_decode : Text → Option (OutsiderServiceConfig × Bool)) where
  decoded-IsValid :
      (r : Option (OutsiderServiceConfig × Bool)) (t : OutsiderServiceConfig)
      → decoded toml_decode r ≡ ok t
      → IsValid t
  unfolding decoded
  decoded-IsValid none t h = cc h
  decoded-IsValid (some (s, true)) t h = cc h
  decoded-IsValid (some (s, false)) t h = (validate_lem s).1 t h

  load_one-IsValid :
      (path : Text) (w : World Text) (t : OutsiderServiceConfig)
      → (load_one toml_decode path w).0 ≡ ok t
      → IsValid t
  unfolding load_one
  load_one-IsValid path w t h = elim (Outcome-cases (read_file path w).0) [
    | inl (text, r) ↦ decoded-IsValid (toml_decode text) t (rw r at h)
    | inr (x, r) ↦ cc (rw r at h)
  ]

  skip_or_load-IsValid :
      (b : Bool) (path : Text) (w : World Text) (t : OutsiderServiceConfig)
      → (skip_or_load toml_decode b path w).0 ≡ ok t
      → IsValid t
  skip_or_load-IsValid false path w t h = cc h
  skip_or_load-IsValid true path w t h = load_one-IsValid path w t h

  load_names-AllValid :
      (dir : Text) (names : List Text) (d : Dict OutsiderServiceConfig) (w : World Text)
      → AllValid d
      → AllValid (load_names toml_decode dir names d w).0
  unfolding load_names
  load_names-AllValid dir [] d w h = h
  load_names-AllValid dir (name ∷ names) d w h =
      let (r, w') =
        skip_or_load toml_decode (has_suffix name (codes ".toml")) (dir ++ b'/' ∷ name) w in
      load_names-AllValid dir names (put_loaded r d) w' (
        put_loaded-AllValid r d
          (skip_or_load-IsValid (has_suffix name (codes ".toml")) (dir ++ b'/' ∷ name) w) h)

  after_listing-AllValid :
      (dir : Text) (r : Outcome (List Text)) (w : World Text) (d : Dict OutsiderServiceConfig)
      → (after_listing toml_decode dir r w).0 ≡ ok d
      → AllValid d
  after_listing-AllValid dir (ok names) w d h =
      let same : (load_names toml_decode dir names [] w).0 ≡ d = ground (arith, h) in
      rw (← same) (load_names-AllValid dir names [] w tt)
  after_listing-AllValid dir (err not_exist) w d h =
      let same : [] ≡ d = ground (arith, h) in rw (← same) tt
  after_listing-AllValid dir (err e) w d h = cc h

  or_old-AllValid :
      (old : Dict OutsiderServiceConfig) (r : Outcome (Dict OutsiderServiceConfig))
      → AllValid old
      → ((d : Dict OutsiderServiceConfig) → r ≡ ok d → AllValid d)
      → AllValid (or_old toml_decode old r).1
  or_old-AllValid old (ok d) h fresh = fresh d refl
  or_old-AllValid old (err e) h fresh = h

  or_old_ok-AllValid :
      (old : Dict OutsiderServiceConfig) (r : Outcome (Dict OutsiderServiceConfig))
      → ((d : Dict OutsiderServiceConfig) → r ≡ ok d → AllValid d)
      → (or_old toml_decode old r).0 ≡ ok tt
      → AllValid (or_old toml_decode old r).1
  or_old_ok-AllValid old (ok d) fresh h = fresh d refl
  or_old_ok-AllValid old (err e) fresh h = absurd (cc h)

  -- A reload that succeeds leaves valid services only, each under its own name, whatever there was.
  pub reload_ok-AllValid :
      (dir : Text) (old : Dict OutsiderServiceConfig) (w : World Text)
      → (reload toml_decode dir old w).0 ≡ ok tt
      → AllValid (reload toml_decode dir old w).1
  unfolding reload load_dir
  reload_ok-AllValid dir old w h =
      or_old_ok-AllValid old (load_dir toml_decode dir w).0
        (after_listing-AllValid dir (read_dir dir w).0 (read_dir dir w).1) h

  -- Whatever the directory holds and whatever fails, the registry keeps only valid services, each
  -- under its own name.
  pub reload-AllValid :
      (dir : Text) (old : Dict OutsiderServiceConfig) (w : World Text)
      → AllValid old
      → AllValid (reload toml_decode dir old w).1
  unfolding reload load_dir
  reload-AllValid dir old w h =
      or_old-AllValid old (load_dir toml_decode dir w).0 h
        (after_listing-AllValid dir (read_dir dir w).0 (read_dir dir w).1)
