-- ===== src/Api/Grants/Laws.antt =====
-- internal/api/access.go: what a request leaves in the file of the grants and in the registry.
use tailkitd.Prelude.{
  ℕ, ◌≡◌, refl, ◌∙◌, ◌≢◌, ◌⊎◌, inl, inr, Bool, true, false, Option, none, some, List, [], ◌∷◌, Dict,
  lookup, insert, lookup-insert_self, Occurs, All, IsSorted, Text, codes, has_suffix, contains_byte,
}
use tailkitd.Os.{
  Outcome, Outcome-cases, World, mkdir_all, mkdir_all-files, syscall-no_faults, ok, err,
}
use tailkitd.Os.Atomic.{Written, atomic_write, atomic_write_lem, atomic_write-faults}
use tailkitd.Access.Registry.{Grant, reload, grant_lt}
use tailkitd.Access.Registry.Complete.{ReadsAs, ReadsAs-cases, reload_complete}
use tailkitd.Access.Registry.Sources.{FromFile, reload-FromFile}
use tailkitd.Access.Registry.Loading.{IsValid, reload_lem, reload-files}
use tailkitd.Api.Http.{is_success, method_post}
use tailkitd.Api.Grants.{
  Grants, validate_each, grants_path, serve_grants, reloaded_grants, after_write, after_mkdir,
  after_validate,
}

quiet_or_not : (faults : List Bool) → (faults ≡ []) ⊎ (faults ≢ [])
quiet_or_not [] = inl refl
quiet_or_not (f ∷ faults) = inr (λ e. cc e)

grants_is_toml : has_suffix (codes "grants.toml") (codes ".toml") ≡ true
unfolding has_suffix
grants_is_toml = refl

grants_is_plain : contains_byte b'/' (codes "grants.toml") ≡ false
unfolding contains_byte
grants_is_plain = refl

mkdir_all-faults : (w : World Text) → w.faults ≡ [] → (mkdir_all w).1.faults ≡ []
unfolding mkdir_all
mkdir_all-faults w quiet = rw (syscall-no_faults w quiet) quiet

module _ (toml_decode : Text → Option (List Grant × Bool)) (toml_encode : List Grant → Outcome Text)
    (dir : Text) where
  -- The file of the grants holds what was sent, validated.
  abbrev pub Posted : Option (List Grant) → Dict Text → Dict Text → Type 0
  Posted body before after =
      (grants : List Grant) × (valid : List Grant) × (text : Text) × (body ≡ some grants)
      × (validate_each grants ≡ ok valid)
      × (toml_encode valid ≡ ok text)
      × (after ≡ insert (grants_path toml_decode toml_encode dir) text before)

  -- The registry holds grants of the files of the directory only, and every grant that the text of
  -- grants.toml reads as, unless a call failed or the text reads as no valid grants.
  abbrev pub Reread : List Bool → Dict Text → List Grant → Type 0
  Reread faults files registry =
      All (FromFile toml_decode dir files) registry
      × (text : Text) × (lookup (grants_path toml_decode toml_encode dir) files ≡ some text)
      × ((faults ≢ [])
          ⊎ ((¬ ((loaded : List Grant) × ReadsAs toml_decode text loaded))
              ⊎ ((loaded : List Grant) × ReadsAs toml_decode text loaded
                  × All (λ (g : Grant). Occurs g registry) loaded)))

  abbrev pub PostOutcome : Option (List Grant) → Grants → ℕ × Grants → Type 0
  PostOutcome body s out =
      ((out.0 ≡ 200)
        × Posted body s.world.files out.1.world.files
        × All IsValid out.1.grants
        × IsSorted grant_lt out.1.grants
        × Reread s.world.faults out.1.world.files out.1.grants)
      ⊎ (((out.0 ≡ 500) × Posted body s.world.files out.1.world.files × (out.1.grants ≡ s.grants))
          ⊎ ((is_success out.0 ≡ false)
              × (out.1.world.files ≡ s.world.files)
              × (out.1.grants ≡ s.grants)))

  reload-Reread :
      (faults : List Bool) (text : Text) (w : World Text) (registry : List Grant)
      → (faults ≡ [] → w.faults ≡ [])
      → lookup (grants_path toml_decode toml_encode dir) w.files ≡ some text
      → (reload toml_decode dir w).0 ≡ ok registry
      → Reread faults (reload toml_decode dir w).1.files registry
  reload-Reread faults text w registry quiet held h =
      let there : lookup (grants_path toml_decode toml_encode dir)
            (reload toml_decode dir w).1.files
          ≡ some text =
        rw (reload-files toml_decode dir w) held in
      let from : All (FromFile toml_decode dir (reload toml_decode dir w).1.files) registry =
        rw (reload-files toml_decode dir w) (reload-FromFile toml_decode dir w registry h) in
      (
        from,
        text,
        there,
        elim (quiet_or_not faults) [
          | inr some_fault ↦ inl some_fault
          | inl none_fails ↦ elim (ReadsAs-cases toml_decode text) [
            | inr never ↦ inr (inl never)
            | inl (loaded, reads) ↦ inr (
                inr (
                  loaded,
                  reads,
                  reload_complete toml_decode dir (codes "grants.toml") text loaded grants_is_toml
                      reads w registry (quiet none_fails) grants_is_plain held h,
                ))
          ]
        ],
      )

  reloaded_lem :
      (body : Option (List Grant)) (s : Grants) (r : Outcome (List Grant)) (w : World Text)
      → Posted body s.world.files w.files
      → ((grants : List Grant)
          → r ≡ ok grants
          → All IsValid grants × IsSorted grant_lt grants × Reread s.world.faults w.files grants)
      → PostOutcome body s (reloaded_grants toml_decode toml_encode dir s.grants r w)
  reloaded_lem body s (ok grants) w posted good =
      let (all, sorted, read) = good grants refl in inl (refl, posted, all, sorted, read)
  reloaded_lem body s (err e) w posted good = inr (inl (refl, posted, refl))

  after_write_lem :
      (grants valid : List Grant) (text : Text) (s : Grants) (r : Outcome Unit) (w : World Text)
      → validate_each grants ≡ ok valid
      → toml_encode valid ≡ ok text
      → (s.world.faults ≡ [] → w.faults ≡ [])
      → Written (grants_path toml_decode toml_encode dir) text r s.world.files w.files
      → PostOutcome (some grants) s (after_write toml_decode toml_encode dir s.grants r w)
  after_write_lem grants valid text s (err e) w sound coded quiet same =
      inr (inr (refl, same, refl))
  after_write_lem grants valid text s (ok u) w sound coded quiet written =
      let path = grants_path toml_decode toml_encode dir in
      let (r, w') = reload toml_decode dir w in
      let held : lookup path w.files ≡ some text =
        rw written (lookup-insert_self path text s.world.files) in
      reloaded_lem (some grants) s r w'
        (grants, valid, text, refl, sound, coded, reload-files toml_decode dir w ∙ written)
        (λ found h.
          let (all, sorted) = reload_lem toml_decode dir w h in
          (all, sorted, reload-Reread s.world.faults text w found quiet held h))

  after_mkdir_lem :
      (grants valid : List Grant) (text : Text) (s : Grants) (r : Outcome Unit) (w : World Text)
      → validate_each grants ≡ ok valid
      → toml_encode valid ≡ ok text
      → (s.world.faults ≡ [] → w.faults ≡ [])
      → w.files ≡ s.world.files
      → PostOutcome (some grants) s (after_mkdir toml_decode toml_encode dir s.grants text r w)
  after_mkdir_lem grants valid text s (err e) w sound coded quiet same =
      inr (inr (refl, same, refl))
  after_mkdir_lem grants valid text s (ok u) w sound coded quiet same =
      let path = grants_path toml_decode toml_encode dir in
      let (r, w') = atomic_write path text w in
      after_write_lem grants valid text s r w' sound coded
        (λ none_fails. atomic_write-faults path text w (quiet none_fails))
        (rw (← same) (atomic_write_lem path text w))

  after_validate_lem :
      (grants : List Grant) (r : Outcome (List Grant)) (s : Grants)
      → validate_each grants ≡ r
      → PostOutcome (some grants) s (after_validate toml_decode toml_encode dir r s)
  after_validate_lem grants (err e) s h = inr (inr (refl, refl, refl))
  after_validate_lem grants (ok valid) s h = elim (Outcome-cases (toml_encode valid)) [
    | inr (e, failed) ↦ rw failed (inr (inr (refl, refl, refl)))
    | inl (text, coded) ↦
        let (r, w) = mkdir_all s.world in
        rw coded (
          after_mkdir_lem grants valid text s r w h coded (mkdir_all-faults s.world)
            (mkdir_all-files s.world))
  ]

  -- Grants that are posted are answered with 200 only if all of them are valid, their text is in
  -- grants.toml, and the registry holds valid grants only, in order, each of a .toml file right in
  -- the directory that reads as valid grants, and, if no call failed, among them every grant that the
  -- text of grants.toml reads as, where it reads as valid grants. With a 500 the text may be there
  -- while the registry keeps what it had; else nothing changes.
  pub serve_grants_lem :
      (body : Option (List Grant)) (s : Grants)
      → PostOutcome body s (serve_grants toml_decode toml_encode dir method_post body s)
  unfolding serve_grants
  serve_grants_lem none s = inr (inr (refl, refl, refl))
  serve_grants_lem (some grants) s = after_validate_lem grants (validate_each grants) s refl
