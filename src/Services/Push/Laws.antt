-- ===== src/Services/Push/Laws.antt =====
-- internal/api/admin.go: what `pushService` and `deleteService` do to the files.
use tailkitd.Prelude.{
  ℕ, ◌≡◌, refl, sym, ap, ◌∙◌, ◌⊎◌, inl, inr, Bool, false, Option, none, some, Dict, lookup, insert,
  erase, Text,
}
use tailkitd.Os.{
  Outcome, World, remove, mkdir_all, mkdir_all-files, Removed, remove_lem, not_exist, ok, err,
}
use tailkitd.Os.Atomic.{atomic_write, Written, atomic_write_lem}
use tailkitd.Api.Http.{is_success}
use tailkitd.Services.Registry.{OutsiderServiceConfig, validate, file_path, reload}
use tailkitd.Services.Registry.Loading.{AllValid, reload_ok-AllValid}
use tailkitd.Services.Registry.Files.{reload-files}
use tailkitd.Services.Push.{
  Host, push_service, delete_service, reloaded, after_write, after_mkdir, after_encode,
  after_validate, after_remove,
}

module _ (toml_decode : Text → Option (OutsiderServiceConfig × Bool))
    (toml_encode : OutsiderServiceConfig → Outcome Text) (dir : Text) where
  -- The file of the service has been written with the text of `t`.
  abbrev pub Pushed : Text → Option OutsiderServiceConfig → Host → Host → Type 0
  Pushed name body h h' =
      (s : OutsiderServiceConfig) × (t : OutsiderServiceConfig) × (text : Text) × (body ≡ some s)
      × (validate (record s { name = name }) ≡ ok t)
      × (toml_encode t ≡ ok text)
      × (h'.world.files ≡ insert (file_path dir name) text h.world.files)

  -- The registry is what a reload, on the files with the new one, has made of them, and that reload
  -- has succeeded: each service in it is valid and under its own name.
  abbrev pub Reread : Host → Host → Type 0
  Reread h h' =
      ((w : World Text) × (w.files ≡ h'.world.files)
        × (reload toml_decode dir h.services w ≡ (ok tt, h'.services, h'.world)))
      × AllValid h'.services

  abbrev pub PushOutcome : Text → Option OutsiderServiceConfig → Host → ℕ × Host → Type 0
  PushOutcome name body h out =
      ((out.0 ≡ 200) × Pushed name body h out.1 × Reread h out.1)
      ⊎ (((out.0 ≡ 500) × Pushed name body h out.1)
          ⊎ ((is_success out.0 ≡ false)
              × (out.1.world.files ≡ h.world.files)
              × (out.1.services ≡ h.services)))

  push_of :
      (name : Text) (body : Option OutsiderServiceConfig) (h h' : Host)
      (out : Outcome Unit × Dict OutsiderServiceConfig × World Text)
      → Pushed name body h h'
      → reload toml_decode dir h.services h'.world ≡ out
      → out.2.files ≡ h'.world.files
      → PushOutcome name body h (reloaded toml_decode toml_encode dir 200 out)
  push_of name body h h' (ok u, d, w) (s, t, text, sent, valid, coded, files) run same =
      let done : (reload toml_decode dir h.services h'.world).0 ≡ ok tt = ap (λ o. o.0) run in
      let kept : AllValid d =
        rw (← ap (λ o. o.1) run) (reload_ok-AllValid toml_decode dir h.services h'.world done) in
      inl (refl, (s, t, text, sent, valid, coded, same ∙ files), ((h'.world, sym same, run), kept))
  push_of name body h h' (err e, d, w) (s, t, text, sent, valid, coded, files) run same =
      inr (inl (refl, (s, t, text, sent, valid, coded, same ∙ files)))

  after_write_lem :
      (name : Text) (s t : OutsiderServiceConfig) (text : Text) (h : Host) (r : Outcome Unit)
      (w : World Text)
      → validate (record s { name = name }) ≡ ok t
      → toml_encode t ≡ ok text
      → Written (file_path dir name) text r h.world.files w.files
      → PushOutcome name
          (some s)
          h
          (after_write toml_decode toml_encode dir r (record h { world = w }))
  after_write_lem name s t text h (err e) w valid coded same = inr (inr (refl, same, refl))
  after_write_lem name s t text h (ok u) w valid coded written =
      push_of name (some s) h (record h { world = w }) (reload toml_decode dir h.services w)
        (s, t, text, refl, valid, coded, written) refl (reload-files toml_decode dir h.services w)

  after_mkdir_lem :
      (name : Text) (s t : OutsiderServiceConfig) (text : Text) (h : Host) (r : Outcome Unit)
      (w : World Text)
      → validate (record s { name = name }) ≡ ok t
      → toml_encode t ≡ ok text
      → w.files ≡ h.world.files
      → PushOutcome name (some s) h (
          after_mkdir toml_decode toml_encode dir
            (file_path dir name)
            text
            r
            (record h { world = w }))
  after_mkdir_lem name s t text h (err e) w valid coded same = inr (inr (refl, same, refl))
  after_mkdir_lem name s t text h (ok u) w valid coded same =
      let (r, w') = atomic_write (file_path dir name) text w in
      after_write_lem name s t text h r w' valid coded
        (rw (← same) (atomic_write_lem (file_path dir name) text w))

  after_encode_lem :
      (name : Text) (s t : OutsiderServiceConfig) (r : Outcome Text) (h : Host)
      → validate (record s { name = name }) ≡ ok t
      → toml_encode t ≡ r
      → PushOutcome name
          (some s)
          h
          (after_encode toml_decode toml_encode dir (file_path dir name) r h)
  after_encode_lem name s t (err e) h valid coded = inr (inr (refl, refl, refl))
  after_encode_lem name s t (ok text) h valid coded =
      after_mkdir_lem name s t text h (mkdir_all h.world).0 (mkdir_all h.world).1 valid coded
        (mkdir_all-files h.world)

  after_validate_lem :
      (name : Text) (s : OutsiderServiceConfig) (r : Outcome OutsiderServiceConfig) (h : Host)
      → validate (record s { name = name }) ≡ r
      → PushOutcome name (some s) h (after_validate toml_decode toml_encode dir name r h)
  after_validate_lem name s (err e) h valid = inr (inr (refl, refl, refl))
  after_validate_lem name s (ok t) h valid = after_encode_lem name s t (toml_encode t) h valid refl

  -- A push is answered with 200 only if the configuration is valid under the name of the path, its
  -- text is in the file of that name and the registry is what a reload that has succeeded reads from the
  -- files, each service valid and under its own name. With a 500 the text may
  -- be there while the registry could not be read; any other failure changes neither the files nor
  -- the registry.
  pub push_service_lem :
      (name : Text) (body : Option OutsiderServiceConfig) (h : Host)
      → PushOutcome name body h (push_service toml_decode toml_encode dir name body h)
  unfolding push_service
  push_service_lem name none h = inr (inr (refl, refl, refl))
  push_service_lem name (some s) h =
      after_validate_lem name s (validate (record s { name = name })) h refl

  abbrev pub DeleteOutcome : Text → Host → ℕ × Host → Type 0
  DeleteOutcome name h out =
      ((is_success out.0 ≡ false)
        × (out.1.world.files ≡ h.world.files)
        × (out.1.services ≡ h.services))
      ⊎ (((out.0 ≡ 204) ⊎ (out.0 ≡ 500))
          × ((text : Text) × (lookup (file_path dir name) h.world.files ≡ some text))
          × (out.1.world.files ≡ erase (file_path dir name) h.world.files))

  reloaded_status :
      (out : Outcome Unit × Dict OutsiderServiceConfig × World Text)
      → ((reloaded toml_decode toml_encode dir 204 out).0 ≡ 204)
        ⊎ ((reloaded toml_decode toml_encode dir 204 out).0 ≡ 500)
  reloaded_status (ok u, d, w) = inl refl
  reloaded_status (err e, d, w) = inr refl

  reloaded_files :
      (out : Outcome Unit × Dict OutsiderServiceConfig × World Text)
      → (reloaded toml_decode toml_encode dir 204 out).1.world.files ≡ out.2.files
  reloaded_files (ok u, d, w) = refl
  reloaded_files (err e, d, w) = refl

  after_remove_lem :
      (name : Text) (h : Host) (r : Outcome Unit) (w : World Text)
      → Removed (file_path dir name) r h.world.files w.files
      → DeleteOutcome name h (after_remove toml_decode toml_encode dir r (record h { world = w }))
  after_remove_lem name h (err not_exist) w same = inl (refl, same, refl)
  after_remove_lem name h (err e) w same = inl (refl, same, refl)
  after_remove_lem name h (ok u) w (there, gone) =
      let out = reload toml_decode dir h.services w in
      inr (
        reloaded_status out,
        there,
        reloaded_files out ∙ reload-files toml_decode dir h.services w ∙ gone,
      )

  -- A delete is answered with 204 only if the file of that name was there and is gone; with a 500
  -- it may be gone while the registry could not be read; else nothing changes.
  pub delete_service_lem :
      (name : Text) (h : Host)
      → DeleteOutcome name h (delete_service toml_decode toml_encode dir name h)
  unfolding delete_service
  delete_service_lem name h =
      let (r, w) = remove (file_path dir name) h.world in
      after_remove_lem name h r w (remove_lem (file_path dir name) h.world)
