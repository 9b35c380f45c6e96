-- ===== src/Access/Registry/Sources.antt =====
-- internal/access/registry.go: which files the grants of the registry are from after `Reload`.
use tailkitd.Prelude.{
  ◌≡◌, refl, inl, inr, Bool, true, false, Option, none, some, List, [], ◌∷◌, ◌++◌, arith, Dict,
  lookup, Occurs, All, All-append, All-each, sort, sort-All, Text, codes, has_suffix, if◌then◌else◌,
}
use tailkitd.Os.{Outcome-cases, World, read_file, read_dir, read_dir-files, read_file_ok, ok}
use mathlib.Core.Path.{subst}
use tailkitd.Access.Registry.Loading.{if_toml-files}
use tailkitd.Access.Registry.Complete.{ReadsAs, validate_all-Validated}
use tailkitd.Access.Registry.{Grant, grant_lt, load_file, load_all, decode_file, reload, or_skip}

module _ (toml_decode : Text → Option (List Grant × Bool)) where
  -- The grant stands, validated, in a .toml file right in the directory, all of whose grants are valid.
  abbrev pub FromFile : Text → Dict Text → Grant → Type 0
  FromFile dir files g =
      (name : Text) × (text : Text) × (loaded : List Grant) × (has_suffix name (codes ".toml")
        ≡ true)
      × (lookup (dir ++ b'/' ∷ name) files ≡ some text)
      × ReadsAs toml_decode text loaded
      × Occurs g loaded

  decode_file-ReadsAs :
      (text : Text) (decoded : Option (List Grant × Bool)) (loaded : List Grant)
      → toml_decode text ≡ decoded
      → decode_file toml_decode decoded ≡ ok loaded
      → ReadsAs toml_decode text loaded
  unfolding decode_file
  decode_file-ReadsAs text none loaded read h = absurd (cc h)
  decode_file-ReadsAs text (some (grants, true)) loaded read h = absurd (cc h)
  decode_file-ReadsAs text (some (grants, false)) loaded read h =
      (grants, read, validate_all-Validated toml_decode grants loaded h)

  load_file_ok :
      (path : Text) (w : World Text) (loaded : List Grant)
      → (load_file toml_decode path w).0 ≡ ok loaded
      → (text : Text) × (lookup path w.files ≡ some text) × ReadsAs toml_decode text loaded
  unfolding load_file
  load_file_ok path w loaded h = elim (Outcome-cases (read_file path w).0) [
    | inl (text, r) ↦ (
      text,
      read_file_ok path w text r,
      decode_file-ReadsAs text (toml_decode text) loaded refl (rw r at h),
    )
    | inr (x, r) ↦ ground arith
  ]

  or_skip-FromFile :
      (dir name : Text) (w : World Text) (is_toml : Bool)
      → has_suffix name (codes ".toml") ≡ is_toml
      → All
          (FromFile dir w.files)
          (or_skip (if is_toml then load_file toml_decode (dir ++ b'/' ∷ name) w else (ok [], w)).0)
  or_skip-FromFile dir name w false suffix = tt
  or_skip-FromFile dir name w true suffix =
      elim (Outcome-cases (load_file toml_decode (dir ++ b'/' ∷ name) w).0) [
        | inr (e, r) ↦ rw r tt
        | inl (loaded, r) ↦
            let (text, held, reads) = load_file_ok (dir ++ b'/' ∷ name) w loaded r in
            rw r (All-each _ loaded (λ g o. (name, text, loaded, suffix, held, reads, o)))
      ]

  load_all-FromFile :
      (dir : Text) (names : List Text) (w : World Text)
      → All (FromFile dir w.files) (load_all toml_decode dir names w).0
  unfolding load_all
  load_all-FromFile dir [] w = tt
  load_all-FromFile dir (name ∷ names) w =
      let is_toml = has_suffix name (codes ".toml") in
      let v : World Text =
        (if is_toml then load_file toml_decode (dir ++ b'/' ∷ name) w else (ok [], w)).1 in
      let same : v.files ≡ w.files = if_toml-files toml_decode is_toml (dir ++ b'/' ∷ name) w in
      All-append (FromFile dir w.files) _ _ (or_skip-FromFile dir name w is_toml refl) (
        subst (λ (d : Dict Text). All (FromFile dir d) (load_all toml_decode dir names v).0) same
          (load_all-FromFile dir names v))

  -- Every grant of a registry that has been loaded again is from a file of the directory.
  pub reload-FromFile :
      (dir : Text) (w : World Text) (registry : List Grant)
      → (reload toml_decode dir w).0 ≡ ok registry
      → All (FromFile dir w.files) registry
  unfolding reload
  reload-FromFile dir w registry h = elim (Outcome-cases (read_dir dir w).0) [
    | inr (x, r) ↦ ground arith
    | inl (names, r) ↦
        let v : World Text = (read_dir dir w).1 in
        let found : List Grant = (load_all toml_decode dir names v).0 in
        let same : sort grant_lt found ≡ registry = ground arith in
        let from : All (FromFile dir w.files) found =
          subst (λ (d : Dict Text). All (FromFile dir d) found) (read_dir-files dir w)
            (load_all-FromFile dir names v) in
        rw (← same) (sort-All grant_lt (FromFile dir w.files) found from)
  ]
