-- ===== src/Access/Registry/Loading.antt =====
-- internal/access/registry.go: what `Reload` may put into the registry.
use tailkitd.Prelude.{
  ◌≡◌, refl, ◌∙◌, ◌≢◌, ◌⊎◌, inl, inr, Bool, true, false, Option, none, some, List, [], ◌∷◌, ◌++◌,
  arith, All, All-append, sort, IsSorted, sort-IsSorted, sort-All, Text, codes, str_eq_iff,
  has_suffix, str_lt_asymm, if◌then◌else◌,
}
use tailkitd.Os.{
  Outcome, Outcome-cases, World, read_file, read_dir, read_file-files, read_dir-files, ok, err,
}
use tailkitd.Access.Registry.{
  Grant, admin, superadmin, validate, check, normal_grant, grant_lt, load_file, load_all,
  validate_all, decode_file, reload, or_skip,
}

-- A grant with an identity, a target and one of the two roles.
pub record IsValid (g : Grant) : Type 0 where
  pub identity_set : g.identity ≢ []
  pub target_set : g.target ≢ []
  pub role_known : (g.role ≡ admin) ⊎ (g.role ≡ superadmin)

check-IsValid : (g : Grant) {h : Grant} → check g ≡ ok h → IsValid h
unfolding check
check-IsValid g e = ground (
  arith,
  str_eq_iff g.identity [],
  str_eq_iff g.target [],
  str_eq_iff g.role admin,
  str_eq_iff g.role superadmin,
)

validate-IsValid : (g : Grant) {h : Grant} → validate g ≡ ok h → IsValid h
unfolding validate
validate-IsValid g e = check-IsValid (normal_grant g) e

module _ (toml_decode : Text → Option (List Grant × Bool)) where
  validate_all-IsValid :
      (grants : List Grant) {loaded : List Grant}
      → validate_all toml_decode grants ≡ ok loaded
      → All IsValid loaded
  unfolding validate_all
  validate_all-IsValid [] {loaded} e = let same : [] ≡ loaded = ground arith in rw (← same) tt
  validate_all-IsValid (g ∷ grants) {loaded} e = elim (Outcome-cases (validate g)) [
    | inr (x, bad) ↦ ground arith
    | inl (g', good) ↦ elim (Outcome-cases (validate_all toml_decode grants)) [
      | inr (x, bad) ↦ ground arith
      | inl (rest, goods) ↦
          let same : g' ∷ rest ≡ loaded = ground arith in
          rw (← same) (validate-IsValid g good, validate_all-IsValid grants goods)
    ]
  ]

  decode_file-IsValid :
      (decoded : Option (List Grant × Bool)) {loaded : List Grant}
      → decode_file toml_decode decoded ≡ ok loaded
      → All IsValid loaded
  unfolding decode_file
  decode_file-IsValid none e = cc
  decode_file-IsValid (some (grants, true)) e = cc
  decode_file-IsValid (some (grants, false)) e = validate_all-IsValid grants e

  -- A file is loaded whole, with every grant valid, or not at all.
  pub load_file-IsValid :
      (path : Text) (w : World Text) {loaded : List Grant}
      → (load_file toml_decode path w).0 ≡ ok loaded
      → All IsValid loaded
  unfolding load_file
  load_file-IsValid path w e = elim (Outcome-cases (read_file path w).0) [
    | inl (text, r) ↦ decode_file-IsValid (toml_decode text) (rw r at e)
    | inr (x, r) ↦ ground arith
  ]

  or_skip-IsValid :
      (r : Outcome (List Grant))
      → ((loaded : List Grant) → r ≡ ok loaded → All IsValid loaded)
      → All IsValid (or_skip r)
  or_skip-IsValid (ok loaded) h = h loaded refl
  or_skip-IsValid (err x) h = tt

  if_toml-IsValid :
      (is_toml : Bool) (path : Text) (w : World Text) (loaded : List Grant)
      → (if is_toml then load_file toml_decode path w else (ok [], w)).0 ≡ ok loaded
      → All IsValid loaded
  if_toml-IsValid true path w loaded e = load_file-IsValid path w e
  if_toml-IsValid false path w loaded e = let same : [] ≡ loaded = ground arith in rw (← same) tt

  load_all-IsValid :
      (dir : Text) (names : List Text) (w : World Text)
      → All IsValid (load_all toml_decode dir names w).0
  unfolding load_all
  load_all-IsValid dir [] w = tt
  load_all-IsValid dir (name ∷ names) w =
      All-append IsValid _ _
        (or_skip-IsValid _
          (if_toml-IsValid (has_suffix name (codes ".toml")) (dir ++ b'/' ∷ name) w))
        (load_all-IsValid dir names _)

  grant_lt_asymm : (a b : Grant) → grant_lt a b ≡ true → grant_lt b a ≡ false
  unfolding grant_lt
  grant_lt_asymm a b h = ground (
    arith,
    str_eq_iff a.identity b.identity,
    str_eq_iff b.identity a.identity,
    str_eq_iff a.target b.target,
    str_eq_iff b.target a.target,
    str_lt_asymm a.identity b.identity,
    str_lt_asymm a.target b.target,
    str_lt_asymm a.role b.role,
  )

  -- Whatever the directory holds, a reload that succeeds leaves valid grants only, in order.
  pub reload_lem :
      (dir : Text) (w : World Text) {grants : List Grant}
      → (reload toml_decode dir w).0 ≡ ok grants
      → All IsValid grants × IsSorted grant_lt grants
  unfolding reload
  reload_lem dir w {grants} e = elim (Outcome-cases (read_dir dir w).0) [
    | inl (names, r) ↦
        let found : List Grant = (load_all toml_decode dir names (read_dir dir w).1).0 in
        let same : sort grant_lt found ≡ grants = ground arith in
        rw (← same) (
          sort-All grant_lt IsValid found (load_all-IsValid dir names (read_dir dir w).1),
          sort-IsSorted grant_lt grant_lt_asymm found,
        )
    | inr (x, r) ↦ ground arith
  ]

  load_file-files :
      (path : Text) (w : World Text) → (load_file toml_decode path w).1.files ≡ w.files
  unfolding load_file
  load_file-files path w = elim (Outcome-cases (read_file path w).0) [
    | inl (text, r) ↦ rw r (read_file-files path w)
    | inr (x, r) ↦ rw r (read_file-files path w)
  ]

  pub if_toml-files :
      (is_toml : Bool) (path : Text) (w : World Text)
      → (if is_toml then load_file toml_decode path w else (ok [], w)).1.files ≡ w.files
  if_toml-files true path w = load_file-files path w
  if_toml-files false path w = refl

  load_all-files :
      (dir : Text) (names : List Text) (w : World Text)
      → (load_all toml_decode dir names w).1.files ≡ w.files
  unfolding load_all
  load_all-files dir [] w = refl
  load_all-files dir (name ∷ names) w =
      load_all-files dir names _
      ∙ if_toml-files (has_suffix name (codes ".toml")) (dir ++ b'/' ∷ name) w

  pub reload-files : (dir : Text) (w : World Text) → (reload toml_decode dir w).1.files ≡ w.files
  unfolding reload
  reload-files dir w = elim (Outcome-cases (read_dir dir w).0) [
    | inl (names, r) ↦
        rw (r, reload) (load_all-files dir names (read_dir dir w).1 ∙ read_dir-files dir w)
    | inr (x, r) ↦ rw (r, reload) (read_dir-files dir w)
  ]
