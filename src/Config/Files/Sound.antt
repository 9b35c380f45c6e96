-- ===== src/Config/Files/Sound.antt =====
-- internal/config/files.go: what the handlers may rely on.
use tailkitd.Prelude.{
  ◌≡◌, refl, ◌⊎◌, inl, inr, Bool, true, false, ◌&&◌, ◌||◌, Option, none, some, List, [], ◌∷◌, arith,
  All, Text, codes, str_eq, has_prefix, has_suffix, Bool-cases, and_elim,
}
use tailkitd.Os.{World, ok}
use tailkitd.Files.{PathRule, ResolvedIdentity, FilesConfig}
use tailkitd.Config.Loading.{is_known, are_known, load_config_ok}
use tailkitd.Config.Files.{
  validate_dir_path, file_ops, rule_fits, rules_fit, validate_files_config, resolve_user,
  resolve_rule, resolve_rules, parse_files, no_files, load_files_config, with_identity,
  decoded_files, has_rule,
}

-- A rule that the handlers can work with
pub record IsSound (r : PathRule) : Type 0 where
  pub rooted : has_prefix r.dir (b'/' ∷ []) ≡ true
  pub slashed : has_suffix r.dir (b'/' ∷ []) ≡ true
  pub known_ops : are_known file_ops r.allow ≡ true
  pub user_writes : (str_eq r.use_as_user [] ≡ true) ⊎ (is_known r.allow (codes "write") ≡ true)

or_true : (a b : Bool) → (a || b) ≡ true → (a ≡ true) ⊎ (b ≡ true)
or_true true b h = inl refl
or_true false b h = inr h

rule_fits-IsSound : (seen : List Text) (r : PathRule) → rule_fits seen r ≡ true → IsSound r
unfolding rule_fits validate_dir_path
rule_fits-IsSound seen r h = record {
  rooted = ground (arith, h);
  slashed = ground (arith, h);
  known_ops = ground (arith, h);
  user_writes =
      or_true (str_eq r.use_as_user []) (is_known r.allow (codes "write")) (ground (arith, h));
}

-- No directory has two rules.
abbrev pub Distinct : List PathRule → Type 0
Distinct [] = Unit
Distinct (r ∷ rules) = All (λ (s : PathRule). str_eq r.dir s.dir ≡ false) rules × Distinct rules

rules_fit_unseen :
    (seen : List Text) (rules : List PathRule)
    → rules_fit seen rules ≡ true
    → All (λ (s : PathRule). is_known seen s.dir ≡ false) rules
unfolding rules_fit rule_fits is_known
rules_fit_unseen seen [] h = tt
rules_fit_unseen seen (r ∷ rules) h =
    let (here, there) = and_elim (rule_fits seen r) (rules_fit (r.dir ∷ seen) rules) h in
    (ground (arith, here), weaken rules (rules_fit_unseen (r.dir ∷ seen) rules there))
  where
    weaken :
        (rest : List PathRule)
        → All (λ (s : PathRule). is_known (r.dir ∷ seen) s.dir ≡ false) rest
        → All (λ (s : PathRule). is_known seen s.dir ≡ false) rest
    weaken [] a = tt
    weaken (s ∷ rest) a = (ground (arith, a.0), weaken rest a.1)

first_seen :
    (d : Text) (seen : List Text) (rules : List PathRule)
    → All (λ (s : PathRule). is_known (d ∷ seen) s.dir ≡ false) rules
    → All (λ (s : PathRule). str_eq d s.dir ≡ false) rules
unfolding is_known
first_seen d seen [] a = tt
first_seen d seen (s ∷ rules) a = (ground (arith, a.0), first_seen d seen rules a.1)

rules_fit-Sound :
    (seen : List Text) (rules : List PathRule)
    → rules_fit seen rules ≡ true
    → All IsSound rules × Distinct rules
unfolding rules_fit
rules_fit-Sound seen [] h = (tt, tt)
rules_fit-Sound seen (r ∷ rules) h =
    let (here, there) = and_elim (rule_fits seen r) (rules_fit (r.dir ∷ seen) rules) h in
    let (sound, distinct) = rules_fit-Sound (r.dir ∷ seen) rules there in
    (
      (rule_fits-IsSound seen r here, sound),
      (first_seen r.dir seen rules (rules_fit_unseen (r.dir ∷ seen) rules there), distinct),
    )

fits_of :
    (rules : List PathRule)
    → validate_files_config rules ≡ true
    → (has_rule rules && rules_fit [] rules) ≡ true
unfolding validate_files_config
fits_of rules h = h

module _ (user_lookup : Text → Option (Text × Text))
    (toml_decode : Text → Option (List PathRule)) where
  -- Whoever the rule names and the user database knows is the one it uses.
  abbrev pub HasIdentity : PathRule → Type 0
  HasIdentity r =
      (id : ResolvedIdentity)
      → str_eq r.use_as_user [] ≡ false
      → resolve_user user_lookup toml_decode r.use_as_user ≡ some id
      → r.use_as ≡ id

  -- What stays of a rule when its user is looked up
  abbrev Kept : PathRule → PathRule → Type 0
  Kept r r' = (r'.dir ≡ r.dir) × (r'.allow ≡ r.allow) × (r'.use_as_user ≡ r.use_as_user)

  with_identity-Kept :
      (r : PathRule) (o : Option ResolvedIdentity)
      → Kept r (with_identity user_lookup toml_decode r o)
        × ((id : ResolvedIdentity)
            → o ≡ some id
            → (with_identity user_lookup toml_decode r o).use_as ≡ id)
  with_identity-Kept r none = ((refl, refl, refl), λ id e. absurd (cc e))
  with_identity-Kept r (some found) = ((refl, refl, refl), λ id e. cc e)

  resolve_rule-Kept : (r : PathRule) → Kept r (resolve_rule user_lookup toml_decode r)
  unfolding resolve_rule
  resolve_rule-Kept r = elim (Bool-cases (str_eq r.use_as_user [])) [
    | inl e ↦ rw e (refl, refl, refl)
    | inr e ↦ rw e ((with_identity-Kept r (resolve_user user_lookup toml_decode r.use_as_user)).0)
  ]

  resolve_rule-HasIdentity : (r : PathRule) → HasIdentity (resolve_rule user_lookup toml_decode r)
  unfolding resolve_rule
  resolve_rule-HasIdentity r id named found =
      let (d, a, u) = resolve_rule-Kept r in
      let named' : str_eq r.use_as_user [] ≡ false = rw u at named in
      let found' : resolve_user user_lookup toml_decode r.use_as_user ≡ some id = rw u at found in
      rw named'
        ((with_identity-Kept r (resolve_user user_lookup toml_decode r.use_as_user)).1 id found')

  resolve_rule-IsSound :
      (r : PathRule) → IsSound r → IsSound (resolve_rule user_lookup toml_decode r)
  resolve_rule-IsSound r s =
      let (d, a, u) = resolve_rule-Kept r in
      record {
        rooted = rw d s.rooted;
        slashed = rw d s.slashed;
        known_ops = rw a s.known_ops;
        user_writes = rw (a, u) s.user_writes;
      }

  resolved_apart :
      (d : Text) (rules : List PathRule)
      → All (λ (s : PathRule). str_eq d s.dir ≡ false) rules
      → All (λ (s : PathRule). str_eq d s.dir ≡ false) (resolve_rules user_lookup toml_decode rules)
  unfolding resolve_rules
  resolved_apart d [] h = tt
  resolved_apart d (r ∷ rules) h = (rw ((resolve_rule-Kept r).0) h.0, resolved_apart d rules h.1)

  resolved-IsSound :
      (rules : List PathRule)
      → All IsSound rules × Distinct rules
      → All IsSound (resolve_rules user_lookup toml_decode rules)
        × Distinct (resolve_rules user_lookup toml_decode rules)
        × All HasIdentity (resolve_rules user_lookup toml_decode rules)
  unfolding resolve_rules
  resolved-IsSound [] h = (tt, tt, tt)
  resolved-IsSound (r ∷ rules) (sound, distinct) =
      let (s, d, i) = resolved-IsSound rules (sound.1, distinct.1) in
      (
        (resolve_rule-IsSound r sound.0, s),
        (rw ((resolve_rule-Kept r).0) (resolved_apart r.dir rules distinct.0), d),
        (resolve_rule-HasIdentity r, i),
      )

  parse_files_ok :
      (text : Text) (o : Option (List PathRule)) (cfg : FilesConfig)
      → decoded_files user_lookup toml_decode o ≡ ok cfg
      → (cfg.enabled ≡ true)
        × All IsSound cfg.paths
        × Distinct cfg.paths
        × All HasIdentity cfg.paths
  parse_files_ok text none cfg h = absurd (cc h)
  parse_files_ok text (some rules) cfg h = elim (Bool-cases (validate_files_config rules)) [
    | inr e ↦ absurd (cc (rw e at h))
    | inl e ↦
        let made : ok
              (record { enabled = true; paths = resolve_rules user_lookup toml_decode rules })
            ≡ ok cfg =
          rw e at h in
        let same : record { enabled = true; paths = resolve_rules user_lookup toml_decode rules }
            ≡ cfg =
          cc made in
        let (filled, fits) = and_elim (has_rule rules) (rules_fit [] rules) (fits_of rules e) in
        let (s, d, i) = resolved-IsSound rules (rules_fit-Sound [] rules fits) in
        rw (← same) (refl, s, d, i)
  ]

  -- A configuration of the file transfer that loads is disabled and has no rule, as no file is there,
  -- or is enabled and each of its rules names a directory by a rooted path with a slash at its end,
  -- which no other rule names, allows only `read` and `write`, and `write` where it names a user,
  -- and uses that user's ids if the user database knows it.
  pub load_files_config_lem :
      (path : Text) (w : World Text) (cfg : FilesConfig)
      → (load_files_config user_lookup toml_decode path w).0 ≡ ok cfg
      → (cfg ≡ no_files user_lookup toml_decode)
        ⊎ ((cfg.enabled ≡ true)
            × All IsSound cfg.paths
            × Distinct cfg.paths
            × All HasIdentity cfg.paths)
  unfolding load_files_config
  load_files_config_lem path w cfg h =
      elim (load_config_ok (parse_files user_lookup toml_decode) (no_files user_lookup toml_decode)
        path w cfg h) [
          | inl e ↦ inl e
          | inr (text, held, k) ↦ inr (parse_files_ok text (toml_decode text) cfg k)
        ]
