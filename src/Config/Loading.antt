-- ===== src/Config/Loading.antt =====
-- internal/config: the shape that the loaders of the integrations share, and `validateAllowList`.
use tailkitd.Prelude.{
  ◌≡◌, refl, ◌⊎◌, inl, inr, Bool, true, false, ◌&&◌, ◌||◌, some, List, [], ◌∷◌, lookup, Text,
  str_eq, eq_of_str_eq, Bool-cases, and_elim,
}
use tailkitd.Os.{Outcome, World, Io, read_file, read_file_ok, not_exist, io_fault, ok, err}

-- A closed set of words
unfoldable pub is_known : List Text → Text → Bool
is_known [] op = false
is_known (k ∷ known) op = str_eq k op || is_known known op

-- `validateAllowList`
unfoldable pub are_known : List Text → List Text → Bool
are_known known [] = true
are_known known (op ∷ ops) = is_known known op && are_known known ops

pub are_known_at :
    (known ops : List Text) (op : Text)
    → are_known known ops ≡ true
    → is_known ops op ≡ true
    → is_known known op ≡ true
unfolding are_known is_known
are_known_at known [] op h k = absurd (cc k)
are_known_at known (o ∷ ops) op h k =
    let (here, there) = and_elim (is_known known o) (are_known known ops) h in
    elim (Bool-cases (str_eq o op)) [
      | inl e ↦ rw (← eq_of_str_eq o op e) here
      | inr e ↦ are_known_at known ops op there (rw e at k)
    ]

module _ {C : Type 0} (parse : Text → Outcome C) (disabled : C) where
  abbrev loaded_as : Outcome Text → Outcome C
  loaded_as (ok text) = parse text
  loaded_as (err not_exist) = ok disabled
  loaded_as (err e) = err io_fault

  -- A missing file disables the integration; any other failure is one of the start.
  unfoldable pub load_config : Text → Io Text C
  load_config path w = let (r, w') = read_file path w in (loaded_as r, w')

  loaded_as_ok :
      (r : Outcome Text) (c : C)
      → loaded_as r ≡ ok c
      → (c ≡ disabled) ⊎ ((text : Text) × (r ≡ ok text) × (parse text ≡ ok c))
  loaded_as_ok (ok text) c h = inr (text, refl, h)
  loaded_as_ok (err not_exist) c h = inl (cc h)
  loaded_as_ok (err e) c h = absurd (cc h)

  pub load_config_ok :
      (path : Text) (w : World Text) (c : C)
      → (load_config path w).0 ≡ ok c
      → (c ≡ disabled) ⊎ ((text : Text) × (lookup path w.files ≡ some text) × (parse text ≡ ok c))
  unfolding load_config
  load_config_ok path w c h = elim (loaded_as_ok (read_file path w).0 c h) [
    | inl e ↦ inl e
    | inr (text, e, k) ↦ inr (text, read_file_ok path w text e, k)
  ]
