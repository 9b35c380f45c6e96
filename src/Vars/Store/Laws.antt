-- ===== src/Vars/Store/Laws.antt =====
-- internal/vars/store.go: what `Set` and `Delete` do to the files, and what `Get` then finds.
use tailkitd.Prelude.{
  ◌≡◌, refl, ap, ◌∙◌, ◌⊎◌, inl, inr, true, false, none, some, [], arith, Dict, lookup, insert,
  erase, lookup-insert, lookup-insert_self, lookup-erase, Text, codes, str_eq, eq_of_str_eq,
  if◌then◌else◌, Bool-cases,
}
use tailkitd.Os.{
  Outcome, Outcome-cases, World, lift, ◌>>=◌, read_file, read_file-no_faults, os_laws,
  key_not_found, ok, err,
}
use tailkitd.Os.Atomic.{Written}
use tailkitd.Vars.Store.{
  Document, map, scope_path, read_scope_or_empty, write_scope, or_panic, Context, is_reserved,
  is_key, stamped, read_scope, get, set, delete, or_key_not_found,
}

module _ (base_dir : Text) where
  -- The variables of a scope: those of its file, or none where there is no file.
  abbrev pub Holds : Dict Document → Text → Text → Dict Text → Type 0
  Holds files project env d =
      (lookup (scope_path base_dir project env) files ≡ some (map d))
      ⊎ ((lookup (scope_path base_dir project env) files ≡ none) × (d ≡ []))

  write_scope_lem :
      (project env : Text) (d : Dict Text) (w : World Document)
      → Written
          (scope_path base_dir project env)
          (map d)
          (write_scope base_dir project env d w).0
          w.files
          (write_scope base_dir project env d w).1.files
  unfolding write_scope
  write_scope_lem project env d w = grind (arith, os_laws)

  read_scope_or_empty-files :
      (project env : Text) (w : World Document)
      → (read_scope_or_empty base_dir project env w).1.files ≡ w.files
  unfolding read_scope_or_empty
  read_scope_or_empty-files project env w = grind (arith, os_laws)

  read_scope_or_empty-Holds :
      (project env : Text) (w : World Document) {d : Dict Text}
      → (read_scope_or_empty base_dir project env w).0 ≡ ok (some d)
      → Holds w.files project env d
  unfolding read_scope_or_empty read_file
  read_scope_or_empty-Holds project env w h = grind (arith, os_laws)

  -- One scope's file is rewritten by `change`, if the operation succeeds; else no file is changed.
  abbrev pub Rewrites :
      (Dict Text → Dict Text)
      → Text
      → Text
      → World Document
      → Outcome Unit × World Document
      → Type 0
  Rewrites change project env w (ok _, w') =
      (d : Dict Text) × Holds w.files project env d
      × (w'.files ≡ insert (scope_path base_dir project env) (map (change d)) w.files)
  Rewrites change project env w (err _, w') = w'.files ≡ w.files

  written :
      (change : Dict Text → Dict Text) (project env : Text) (w v : World Document) (d : Dict Text)
      → Holds w.files project env d
      → v.files ≡ w.files
      → Rewrites change project env w (write_scope base_dir project env (change d) v)
  written change project env w v d held same =
      let lem = write_scope_lem project env (change d) v in
      elim (Outcome-cases (write_scope base_dir project env (change d) v).0) [
        | inl (u, r) ↦ rw r (d, held, rw (← same) (rw r at lem))
        | inr (e, r) ↦ rw r (rw (← same) (rw r at lem))
      ]

  rewrite_lem :
      (change : Dict Text → Dict Text) (project env : Text) (w : World Document)
      → Rewrites change project env w (
          (do
            found ← read_scope_or_empty base_dir project env
            d ← lift (or_panic found)
            write_scope base_dir project env (change d))
            w)
  rewrite_lem change project env w =
      let same = read_scope_or_empty-files project env w in
      elim (Outcome-cases (read_scope_or_empty base_dir project env w).0) [
        | inr (e, r) ↦ rw r same
        | inl (none, r) ↦ rw r same
        | inl (some d, r) ↦ rw r (
            written change project env w (read_scope_or_empty base_dir project env w).1 d
              (read_scope_or_empty-Holds project env w r) same)
      ]

  -- `Set` rewrites the file of its scope with the key and the stamp put in, or changes no file.
  pub set_lem :
      (now : Text) (ctx : Context) (project env key value caller : Text) (w : World Document)
      → Rewrites
          (λ d. stamped now caller (insert key value d))
          project
          env
          w
          (set base_dir now ctx project env key value caller w)
  unfolding set
  set_lem now ctx project env key value caller w = elim (Bool-cases ctx.is_canceled) [
    | inl dead ↦ rw dead refl
    | inr live ↦ rw live (elim (Bool-cases (is_reserved key)) [
      | inl bad ↦ rw bad refl
      | inr good ↦ rw good (elim (Bool-cases (is_key key)) [
        | inr bad ↦ rw bad refl
        | inl fits ↦
            rw fits (rewrite_lem (λ d. stamped now caller (insert key value d)) project env w)
      ])
    ])
  ]

  -- `Delete` rewrites the file of its scope with the key taken out and the stamp put in, or changes
  -- no file.
  pub delete_lem :
      (now : Text) (ctx : Context) (project env key caller : Text) (w : World Document)
      → Rewrites
          (λ d. stamped now caller (erase key d))
          project
          env
          w
          (delete base_dir now ctx project env key caller w)
  unfolding delete
  delete_lem now ctx project env key caller w = elim (Bool-cases ctx.is_canceled) [
    | inl dead ↦ rw dead refl
    | inr live ↦ rw live (elim (Bool-cases (is_reserved key)) [
      | inl bad ↦ rw bad refl
      | inr good ↦ rw good (rewrite_lem (λ d. stamped now caller (erase key d)) project env w)
    ])
  ]

  -- What `Get` answers where no fault meets it: a function of the files.
  get_lem :
      (ctx : Context) (project env key : Text) (w : World Document) {d : Dict Text}
      → ctx.is_canceled ≡ false
      → is_reserved key ≡ false
      → w.faults ≡ []
      → lookup (scope_path base_dir project env) w.files ≡ some (map d)
      → (get base_dir ctx project env key w).0 ≡ or_key_not_found (lookup key d)
  unfolding get read_scope
  get_lem ctx project env key w live plain quiet found =
      ground (arith, read_file-no_faults (scope_path base_dir project env) w quiet found)

  Holds-unique :
      (files : Dict Document) (project env : Text) (d d' : Dict Text)
      → Holds files project env d
      → Holds files project env d'
      → d ≡ d'
  Holds-unique files project env d d' h h' = ground arith

  meta_ne :
      (meta j : Text) → is_reserved meta ≡ true → is_reserved j ≡ false → str_eq meta j ≡ false
  meta_ne meta j m h = elim (Bool-cases (str_eq meta j)) [
    | inl e ↦ let same : meta ≡ j = eq_of_str_eq meta j e in cc
    | inr e ↦ e
  ]

  lookup-stamped :
      (now caller j : Text) (d : Dict Text)
      → is_reserved j ≡ false
      → lookup j (stamped now caller d) ≡ lookup j d
  unfolding is_reserved
  lookup-stamped now caller j d h = ground (
    arith,
    lookup-insert j (codes "_meta.updated_by") caller (insert (codes "_meta.updated_at") now d),
    lookup-insert j (codes "_meta.updated_at") now d,
    meta_ne (codes "_meta.updated_by") j refl h,
    meta_ne (codes "_meta.updated_at") j refl h,
  )

  -- After a `Set` that succeeded, `Get` finds the new value under its key, and under every other
  -- key that is not reserved what the scope held before, if no fault meets it.
  pub get-set :
      (now : Text) (ctx ctx' : Context) (project env key value caller j : Text) (w : World Document)
      (d : Dict Text)
      → Holds w.files project env d
      → (set base_dir now ctx project env key value caller w).0 ≡ ok tt
      → ctx'.is_canceled ≡ false
      → is_reserved j ≡ false
      → (get base_dir ctx' project env j
          (record (set base_dir now ctx project env key value caller w).1 { faults = [] })).0
        ≡ (if str_eq key j then ok value else or_key_not_found (lookup j d))
  get-set now ctx ctx' project env key value caller j w d held done live plain =
      let (d', held', files) = rw done at (set_lem now ctx project env key value caller w) in
      let same = Holds-unique w.files project env d d' held held' in
      get_lem ctx' project env j
        (record (set base_dir now ctx project env key value caller w).1 { faults = [] }) live plain
        refl
        (ap (lookup (scope_path base_dir project env)) files
          ∙ lookup-insert_self (scope_path base_dir project env) _ w.files)
      ∙ ground (
        arith,
        lookup-stamped now caller j (insert key value d') plain,
        lookup-insert j key value d',
        same,
      )

  -- After a `Delete` that succeeded, `Get` does not find its key, and finds under every other key
  -- that is not reserved what the scope held before, if no fault meets it.
  pub get-delete :
      (now : Text) (ctx ctx' : Context) (project env key caller j : Text) (w : World Document)
      (d : Dict Text)
      → Holds w.files project env d
      → (delete base_dir now ctx project env key caller w).0 ≡ ok tt
      → ctx'.is_canceled ≡ false
      → is_reserved j ≡ false
      → (get base_dir ctx' project env j
          (record (delete base_dir now ctx project env key caller w).1 { faults = [] })).0
        ≡ (if str_eq key j then err key_not_found else or_key_not_found (lookup j d))
  get-delete now ctx ctx' project env key caller j w d held done live plain =
      let (d', held', files) = rw done at (delete_lem now ctx project env key caller w) in
      let same = Holds-unique w.files project env d d' held held' in
      get_lem ctx' project env j
        (record (delete base_dir now ctx project env key caller w).1 { faults = [] }) live plain
        refl
        (ap (lookup (scope_path base_dir project env)) files
          ∙ lookup-insert_self (scope_path base_dir project env) _ w.files)
      ∙ ground
          (arith, lookup-stamped now caller j (erase key d') plain, lookup-erase j key d', same)
