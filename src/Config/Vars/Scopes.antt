-- ===== src/Config/Vars/Scopes.antt =====
-- internal/config/vars.go: what the handlers may rely on.
use tailkitd.Prelude.{
  ◌≡◌, refl, ◌≢◌, inl, inr, true, false, ◌&&◌, not, Option, none, some, List, [], ◌∷◌, arith,
  Occurs, All, Text, str_eq, str_eq_refl, eq_of_str_eq, str_eq_iff, contains_byte, Bool-cases,
  and_elim,
}
use tailkitd.Os.{Outcome, World, read_file, not_exist, ok, err}
use tailkitd.Vars.Handlers.{VarScope, VarsConfig, find_scope}
use tailkitd.Config.Vars.{
  is_name, is_name_byte, all_name_bytes, are_var_ops, key_of, validate_vars_config,
  load_vars_config, is_seen, scopes_fit, enabled_if, loaded, decoded,
}

-- Neither `/` nor `.` is in a name.
abbrev pub IsPlain : Text → Type 0
IsPlain s = (s ≢ []) × (contains_byte b'/' s ≡ false) × (contains_byte b'.' s ≡ false)

all_name_bytes_plain :
    (s : Text)
    → all_name_bytes s ≡ true
    → (contains_byte b'/' s ≡ false) × (contains_byte b'.' s ≡ false)
unfolding all_name_bytes is_name_byte contains_byte
all_name_bytes_plain [] h = (refl, refl)
all_name_bytes_plain (c ∷ s) h =
    let (here, there) = and_elim (is_name_byte c) (all_name_bytes s) h in
    let (slash, dot) = all_name_bytes_plain s there in
    (ground (arith, here, slash), ground (arith, here, dot))

is_name-IsPlain : (s : Text) → is_name s ≡ true → IsPlain s
unfolding is_name
is_name-IsPlain s h =
    let (filled, bytes) = and_elim (not (str_eq s [])) (all_name_bytes s) h in
    let (slash, dot) = all_name_bytes_plain s bytes in
    ((λ e. ground (arith, filled, e, str_eq_iff s [])), slash, dot)

abbrev pub HasPlainNames : VarScope → Type 0
HasPlainNames s = IsPlain s.project × IsPlain s.env × (are_var_ops s.allow ≡ true)

record Fits (seen : List Text) (s : VarScope) (scopes : List VarScope) : Type 0 where
  project_named : is_name s.project ≡ true
  env_named : is_name s.env ≡ true
  ops_known : are_var_ops s.allow ≡ true
  unseen : is_seen seen (key_of s) ≡ false
  rest_fits : scopes_fit (key_of s ∷ seen) scopes ≡ true

scopes_fit-Fits :
    (seen : List Text) (s : VarScope) (scopes : List VarScope)
    → scopes_fit seen (s ∷ scopes) ≡ true
    → Fits seen s scopes
unfolding scopes_fit
scopes_fit-Fits seen s scopes h = record {
  project_named = ground (arith, h);
  env_named = ground (arith, h);
  ops_known = ground (arith, h);
  unseen = ground (arith, h);
  rest_fits = ground (arith, h);
}

scopes_fit-All :
    (seen : List Text) (scopes : List VarScope)
    → scopes_fit seen scopes ≡ true
    → All HasPlainNames scopes
scopes_fit-All seen [] h = tt
scopes_fit-All seen (s ∷ scopes) h =
    let f = scopes_fit-Fits seen s scopes h in
    (
      (is_name-IsPlain s.project f.project_named, is_name-IsPlain s.env f.env_named, f.ops_known),
      scopes_fit-All (key_of s ∷ seen) scopes f.rest_fits,
    )

scopes_fit_unseen :
    (seen : List Text) (scopes : List VarScope) (s : VarScope)
    → scopes_fit seen scopes ≡ true
    → Occurs s scopes
    → is_seen seen (key_of s) ≡ false
unfolding is_seen
scopes_fit_unseen seen [] s h o = absurd o
scopes_fit_unseen seen (t ∷ scopes) s h (inl e) =
    let f = scopes_fit-Fits seen t scopes h in rw e at f.unseen
scopes_fit_unseen seen (t ∷ scopes) s h (inr o) =
    let f = scopes_fit-Fits seen t scopes h in
    let later : is_seen (key_of t ∷ seen) (key_of s) ≡ false =
      scopes_fit_unseen (key_of t ∷ seen) scopes s f.rest_fits o in
    ground (arith, later)

key_of_same :
    (t s : VarScope) → t.project ≡ s.project → t.env ≡ s.env → str_eq (key_of t) (key_of s) ≡ true
key_of_same t s p e = rw (p, e) (str_eq_refl (key_of s))

find_scope_configured :
    (seen : List Text) (scopes : List VarScope) (s : VarScope)
    → scopes_fit seen scopes ≡ true
    → Occurs s scopes
    → find_scope scopes s.project s.env ≡ some s
unfolding find_scope is_seen
find_scope_configured seen [] s h o = absurd o
find_scope_configured seen (t ∷ scopes) s h (inl e) =
    rw (← e) (rw (str_eq_refl t.project, str_eq_refl t.env) refl)
find_scope_configured seen (t ∷ scopes) s h (inr o) =
    let f = scopes_fit-Fits seen t scopes h in
    let later : is_seen (key_of t ∷ seen) (key_of s) ≡ false =
      scopes_fit_unseen (key_of t ∷ seen) scopes s f.rest_fits o in
    elim (Bool-cases (str_eq t.project s.project && str_eq t.env s.env)) [
      | inr other ↦ rw other (find_scope_configured (key_of t ∷ seen) scopes s f.rest_fits o)
      | inl same ↦
          let (p, v) = and_elim (str_eq t.project s.project) (str_eq t.env s.env) same in
          let twice =
            key_of_same t s (eq_of_str_eq t.project s.project p) (eq_of_str_eq t.env s.env v) in
          ground (arith, later, twice)
    ]

validated :
    (scopes : List VarScope)
    → validate_vars_config scopes ≡ ok tt
    → All HasPlainNames scopes
      × ((s : VarScope) → Occurs s scopes → find_scope scopes s.project s.env ≡ some s)
unfolding validate_vars_config
validated scopes h =
    let fits : scopes_fit [] scopes ≡ true = ground (arith, h) in
    (scopes_fit-All [] scopes fits, λ s o. find_scope_configured [] scopes s fits o)

module _ (toml_decode : Text → Option (List VarScope)) where
  abbrev pub IsSound : VarsConfig → Type 0
  IsSound cfg =
      All HasPlainNames cfg.scopes
      × ((s : VarScope) → Occurs s cfg.scopes → find_scope cfg.scopes s.project s.env ≡ some s)

  enabled_if-IsSound :
      (scopes : List VarScope) (r : Outcome Unit) (cfg : VarsConfig)
      → validate_vars_config scopes ≡ r
      → enabled_if toml_decode scopes r ≡ ok cfg
      → IsSound cfg
  enabled_if-IsSound scopes (err e) cfg v h = cc h
  enabled_if-IsSound scopes (ok u) cfg v h =
      let same : record { enabled = true; scopes = scopes } ≡ cfg = ground (arith, h) in
      rw (← same) (validated scopes v)

  decoded-IsSound :
      (o : Option (List VarScope)) (cfg : VarsConfig) → decoded toml_decode o ≡ ok cfg → IsSound cfg
  decoded-IsSound none cfg h = cc h
  decoded-IsSound (some scopes) cfg h =
      enabled_if-IsSound scopes (validate_vars_config scopes) cfg refl h

  loaded-IsSound :
      (r : Outcome Text) (cfg : VarsConfig) → loaded toml_decode r ≡ ok cfg → IsSound cfg
  loaded-IsSound (ok text) cfg h = decoded-IsSound (toml_decode text) cfg h
  loaded-IsSound (err not_exist) cfg h =
      let same : record { enabled = false; scopes = [] } ≡ cfg = ground (arith, h) in
      rw (← same) (tt, λ s o. absurd o)
  loaded-IsSound (err e) cfg h = cc h

  -- The scopes of a configuration that loads have names without `/` and `.`, allow only `read` and
  -- `write`, and none of them hides another from the handlers.
  pub load_vars_config-IsSound :
      (path : Text) (w : World Text) (cfg : VarsConfig)
      → (load_vars_config toml_decode path w).0 ≡ ok cfg
      → IsSound cfg
  unfolding load_vars_config
  load_vars_config-IsSound path w cfg h = loaded-IsSound (read_file path w).0 cfg h
