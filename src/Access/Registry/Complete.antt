-- ===== src/Access/Registry/Complete.antt =====
-- internal/access/registry.go: what `Reload` must put into the registry when no call fails.
use tailkitd.Prelude.{
  All-each, Occurs-append_right, sort-Occurs, ◌≡◌, refl, ◌⊎◌, inl, inr, Bool, true, false, Option,
  none, some, List, [], ◌∷◌, ◌++◌, arith, lookup, Occurs, Occurs-append_left, All, sort, Text,
  codes, str_lt, has_suffix, contains_byte, if◌then◌else◌, Option-cases,
}
use tailkitd.Os.{
  Outcome-cases, World, read_file, names_in, read_file-no_faults, read_dir-no_faults,
  syscall-no_faults, ok,
}
use tailkitd.Os.Listing.{lists_file}
use tailkitd.Access.Registry.{
  Grant, grant_lt, load_file, load_all, validate, validate_all, decode_file, reload,
}

-- The grants of the second list are those of the first, each validated.
abbrev pub Validated : List Grant → List Grant → Type 0
Validated [] [] = Unit
Validated (g ∷ grants) (h ∷ valid) = (validate g ≡ ok h) × Validated grants valid
Validated _ _ = ⊥

module _ (toml_decode : Text → Option (List Grant × Bool)) where
  pub validate_all-Validated :
      (grants valid : List Grant)
      → validate_all toml_decode grants ≡ ok valid
      → Validated grants valid
  unfolding validate_all
  validate_all-Validated [] [] h = tt
  validate_all-Validated [] (v ∷ valid) h = absurd (cc h)
  validate_all-Validated (g ∷ grants) valid h = elim (Outcome-cases (validate g)) [
    | inr (e, bad) ↦ ground arith
    | inl (g', good) ↦ elim (Outcome-cases (validate_all toml_decode grants)) [
      | inr (e, bad) ↦ ground arith
      | inl (rest, goods) ↦
          let same : g' ∷ rest ≡ valid = ground arith in
          rw (← same) (good, validate_all-Validated grants rest goods)
    ]
  ]

  Validated-validate_all :
      (grants valid : List Grant)
      → Validated grants valid
      → validate_all toml_decode grants ≡ ok valid
  unfolding validate_all
  Validated-validate_all [] [] h = refl
  Validated-validate_all [] (v ∷ valid) h = absurd h
  Validated-validate_all (g ∷ grants) [] h = absurd h
  Validated-validate_all (g ∷ grants) (v ∷ valid) (good, goods) =
      ground (arith, good, Validated-validate_all grants valid goods)

  -- The text reads as these grants, every one of them valid.
  abbrev pub ReadsAs : Text → List Grant → Type 0
  ReadsAs text loaded =
      (grants : List Grant) × (toml_decode text ≡ some (grants, false)) × Validated grants loaded

  decoded_cases :
      (text : Text) (decoded : Option (List Grant × Bool))
      → toml_decode text ≡ decoded
      → ((loaded : List Grant) × ReadsAs text loaded)
        ⊎ (¬ ((loaded : List Grant) × ReadsAs text loaded))
  decoded_cases text none h = inr (λ (loaded, (grants, read, sound)). cc (h, read))
  decoded_cases text (some (grants, true)) h =
      inr (λ (loaded, (grants', read, sound)). cc (h, read))
  decoded_cases text (some (grants, false)) h =
      elim (Outcome-cases (validate_all toml_decode grants)) [
        | inl (loaded, good) ↦ inl (loaded, (grants, h, validate_all-Validated grants loaded good))
        | inr (e, bad) ↦ inr (λ (loaded, (grants', read, sound)).
            let same : grants ≡ grants' = cc (h, read) in
            let good = Validated-validate_all grants' loaded sound in cc (bad, same, good))
      ]

  load_file-world :
      (path : Text) (w : World Text) → w.faults ≡ [] → (load_file toml_decode path w).1 ≡ w
  unfolding load_file read_file
  load_file-world path w quiet = elim (Option-cases (lookup path w.files)) [
    | inl r ↦ rw (syscall-no_faults w quiet, r) refl
    | inr (text, r) ↦ rw (syscall-no_faults w quiet, r) refl
  ]

  load_file-ReadsAs :
      (path text : Text) (loaded : List Grant) (w : World Text)
      → w.faults ≡ []
      → lookup path w.files ≡ some text
      → ReadsAs text loaded
      → (load_file toml_decode path w).0 ≡ ok loaded
  unfolding load_file decode_file
  load_file-ReadsAs path text loaded w quiet held (grants, decoded, sound) =
      rw
        (read_file-no_faults path w quiet held, decoded, Validated-validate_all grants loaded sound)
        refl

  if_toml-world :
      (is_toml : Bool) (path : Text) (w : World Text)
      → w.faults ≡ []
      → (if is_toml then load_file toml_decode path w else (ok [], w)).1 ≡ w
  if_toml-world true path w quiet = load_file-world path w quiet
  if_toml-world false path w quiet = refl

  module _ (dir name text : Text) (loaded : List Grant)
      (is_toml : has_suffix name (codes ".toml") ≡ true) (reads : ReadsAs text loaded) where
    load_all-Occurs :
        (names : List Text) (w : World Text) (g : Grant)
        → w.faults ≡ []
        → lookup (dir ++ b'/' ∷ name) w.files ≡ some text
        → Occurs name names
        → Occurs g loaded
        → Occurs g (load_all toml_decode dir names w).0
    unfolding load_all
    load_all-Occurs [] w g quiet held there o = absurd there
    load_all-Occurs (first ∷ names) w g quiet held (inl same) o =
        rw (same, is_toml, load_file-ReadsAs (dir ++ b'/' ∷ name) text loaded w quiet held reads)
          (Occurs-append_left g loaded _ o)
    load_all-Occurs (first ∷ names) w g quiet held (inr there) o =
        rw (if_toml-world (has_suffix first (codes ".toml")) (dir ++ b'/' ∷ first) w quiet)
          (Occurs-append_right g _ _ (load_all-Occurs names w g quiet held there o))

    -- With no call that fails, the registry holds all grants of a file of the directory that reads
    -- as valid grants.
    pub reload_complete :
        (w : World Text) (registry : List Grant)
        → w.faults ≡ []
        → contains_byte b'/' name ≡ false
        → lookup (dir ++ b'/' ∷ name) w.files ≡ some text
        → (reload toml_decode dir w).0 ≡ ok registry
        → All (λ (g : Grant). Occurs g registry) loaded
    unfolding reload
    reload_complete w registry quiet plain held h =
        let names = sort str_lt (names_in dir w.files) in
        let same : sort grant_lt (load_all toml_decode dir names w).0 ≡ registry =
          ground (arith, h, read_dir-no_faults dir w quiet) in
        let listed =
          sort-Occurs str_lt name (names_in dir w.files)
            (lists_file dir w.files name text held plain) in
        rw (← same) (
          All-each _ loaded
            (λ g o. sort-Occurs grant_lt g _ (load_all-Occurs names w g quiet held listed o)))

  -- A text reads as grants that are valid, or as none.
  pub ReadsAs-cases :
      (text : Text)
      → ((loaded : List Grant) × ReadsAs text loaded)
        ⊎ (¬ ((loaded : List Grant) × ReadsAs text loaded))
  ReadsAs-cases text = decoded_cases text (toml_decode text) refl
