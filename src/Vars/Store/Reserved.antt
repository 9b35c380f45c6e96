-- ===== src/Vars/Store/Reserved.antt =====
-- internal/vars/store.go: keys that begin with `_` stay inside the store.
use tailkitd.Prelude.{
  ◌≡◌, ap, inl, inr, true, none, [], ◌∷◌, arith, Dict, lookup, Text, str_eq, eq_of_str_eq,
  if◌then◌else◌, Bool-cases,
}
use tailkitd.Os.{Outcome-cases, World, read_file, reserved_key, ok, err}
use tailkitd.Vars.Store.{
  visible, is_reserved, Document, Context, read_scope, list, get, entries, or_key_not_found,
}

lookup-visible :
    (d : Dict Text) (k : Text) → lookup k (visible d) ≡ (if is_reserved k then none else lookup k d)
unfolding visible lookup
lookup-visible [] k = ground arith
lookup-visible ((j, v) ∷ d) k = elim (Bool-cases (str_eq j k)) [
  | inl e ↦ ground (arith, lookup-visible d k, ap is_reserved (eq_of_str_eq j k e), e)
  | inr e ↦ ground (arith, lookup-visible d k, e)
]

module _ (base_dir : Text) where
  read_scope-quiet :
      (project env : Text) (w : World Document)
      → w.faults ≡ []
      → (read_scope base_dir project env w).1 ≡ w
  unfolding read_scope read_file
  read_scope-quiet project env w quiet = ground arith

  -- Where a listing succeeds, `Get` answers for every key what the listing has, and refuses the keys
  -- that begin with `_`, which the listing leaves out.
  pub get-list :
      (ctx : Context) (project env key : Text) (w : World Document) {listed : Dict Text}
      → w.faults ≡ []
      → (list base_dir ctx project env w).0 ≡ ok listed
      → ((get base_dir ctx project env key w).0
          ≡ (if is_reserved key then err reserved_key else or_key_not_found (lookup key listed)))
        × (is_reserved key ≡ true → lookup key listed ≡ none)
  unfolding list get
  get-list ctx project env key w {listed} quiet e =
      elim (Outcome-cases (read_scope base_dir project env w).0) [
        | inr (x, r) ↦ ground arith
        | inl (found, r) ↦
            let same : visible (entries found) ≡ listed = ground arith in
            ground (arith, ap (lookup key) same, lookup-visible (entries found) key)
      ]
