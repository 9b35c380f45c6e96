-- ===== src/Provision/Verified.antt =====
-- internal/provision/provision.go: what is verified and what is installed.
use tailkitd.Prelude.{
  ℕ, ◌≡◌, refl, ap, ◌∙◌, inl, inr, Bool, true, false, Option, none, some, arith, Dict, lookup,
  insert, Text, codes, str_eq, eq_of_str_eq, Bool-cases,
}
use tailkitd.Os.{
  World, lift, read_file, mkdir_all, mkdir_all-files, read_file-files, read_file_ok, bind_ok, ok,
}
use tailkitd.Os.Atomic.{atomic_write, atomic_write_ok}
use tailkitd.Services.Registry.{OutsiderServiceConfig, validate, file_path}
use tailkitd.Provision.{
  Request, Packages, verify_artifact, decoded, verdict, check_hash, Metadata, service_file,
  artifact_path_of, service_config, metadata_of, install, provision, check_runtime,
}

module _ (p : Packages) where
  -- The data have the hash that the request names, and its signature.
  abbrev pub IsSigned : Request → Text → Type 0
  IsSigned req content =
      (p.hex (p.sha256 content) ≡ req.artifact_hash)
      × ((key : Text) × (sig : Text) × (p.decode req.sender_public_key ≡ some key)
          × (p.decode req.signature ≡ some sig)
          × (p.verify key (p.sha256 content) sig ≡ some true))

  decoded_ok : (o : Option Text) (t : Text) → decoded o ≡ ok t → o ≡ some t
  decoded_ok none t h = cc h
  decoded_ok (some s) t h = ground (arith, h)

  verdict_ok : (o : Option Bool) (u : Unit) → verdict o ≡ ok u → o ≡ some true
  verdict_ok none u h = cc h
  verdict_ok (some true) u h = refl
  verdict_ok (some false) u h = cc h

  check_hash_ok :
      (req : Request) (content : Text) (u : Unit)
      → check_hash p req content ≡ ok u
      → p.hex (p.sha256 content) ≡ req.artifact_hash
  check_hash_ok req content u h =
      elim (Bool-cases (str_eq (p.hex (p.sha256 content)) req.artifact_hash)) [
        | inl e ↦ eq_of_str_eq (p.hex (p.sha256 content)) req.artifact_hash e
        | inr e ↦ cc (rw e at h)
      ]

  verify_artifact_lem :
      (req : Request) (w : World Text)
      → (verify_artifact p req w).0 ≡ ok tt
      → ((content : Text) × (lookup req.staged_path w.files ≡ some content) × IsSigned req content)
        × ((verify_artifact p req w).1.files ≡ w.files)
  unfolding verify_artifact
  verify_artifact_lem req w h =
      let (content, r, h1, e1) = bind_ok (read_file req.staged_path) _ w tt h in
      let (u, hash, h2, e2) = bind_ok (lift (check_hash p req content)) _ _ tt h1 in
      let (key, k, h3, e3) = bind_ok (lift (decoded (p.decode req.sender_public_key))) _ _ tt h2 in
      let (sig, s, h4, e4) = bind_ok (lift (decoded (p.decode req.signature))) _ _ tt h3 in
      (
        (
          content,
          read_file_ok req.staged_path w content r,
          (
            check_hash_ok req content u hash,
            (
              key,
              sig,
              decoded_ok (p.decode req.sender_public_key) key k,
              decoded_ok (p.decode req.signature) sig s,
              verdict_ok (p.verify key (p.sha256 content) sig) tt h4,
            ),
          ),
        ),
        ap (λ (v : World Text). v.files) (e1 ∙ e2 ∙ e3 ∙ e4) ∙ read_file-files req.staged_path w,
      )

  -- The three files that an installation writes.
  abbrev pub Installed : Text → Request → ℕ → Text → Dict Text → Dict Text → Type 0
  Installed services_dir req now content before after =
      (svc : OutsiderServiceConfig) × (text : Text) × (validate (service_config req) ≡ ok svc)
      × (p.toml_encode svc ≡ ok text)
      × (after
          ≡ insert (file_path services_dir req.service_name) text (
              insert (service_file req.service_name (codes "meta.json"))
                (p.marshal (metadata_of req now)) (insert (artifact_path_of req) content before)))

  install_lem :
      (services_dir : Text) (now : ℕ) (req : Request) (w : World Text) (m : Metadata)
      → (install p services_dir now req w).0 ≡ ok m
      → (content : Text) × (lookup req.staged_path w.files ≡ some content)
        × Installed services_dir req now content w.files (install p services_dir now req w).1.files
  unfolding install
  install_lem services_dir now req w m h =
      let (u1, r1, h1, e1) = bind_ok mkdir_all _ w m h in
      let w1 : World Text = (mkdir_all w).1 in
      let (content, r2, h2, e2) = bind_ok (read_file req.staged_path) _ w1 m h1 in
      let w2 : World Text = (read_file req.staged_path w1).1 in
      let (u3, r3, h3, e3) = bind_ok (atomic_write (artifact_path_of req) content) _ w2 m h2 in
      let w3 : World Text = (atomic_write (artifact_path_of req) content w2).1 in
      let meta : Text = p.marshal (metadata_of req now) in
      let (u4, r4, h4, e4) =
        bind_ok (atomic_write (service_file req.service_name (codes "meta.json")) meta) _ w3 m h3 in
      let w4 : World Text =
        (atomic_write (service_file req.service_name (codes "meta.json")) meta w3).1 in
      let (svc, r5, h5, e5) = bind_ok (lift (validate (service_config req))) _ w4 m h4 in
      let (text, r6, h6, e6) = bind_ok (lift (p.toml_encode svc)) _ w4 m h5 in
      let (u7, r7, h7, e7) = bind_ok mkdir_all _ w4 m h6 in
      let w7 : World Text = (mkdir_all w4).1 in
      let (u8, r8, h8, e8) =
        bind_ok (atomic_write (file_path services_dir req.service_name) text) _ w7 m h7 in
      let f2 : w2.files ≡ w.files = read_file-files req.staged_path w1 ∙ mkdir_all-files w in
      let f3 : w3.files ≡ insert (artifact_path_of req) content w.files =
        atomic_write_ok (artifact_path_of req) content w2 r3
        ∙ ap (insert (artifact_path_of req) content) f2 in
      let f4 : w4.files
          ≡ insert (service_file req.service_name (codes "meta.json")) meta
              (insert (artifact_path_of req) content w.files) =
        atomic_write_ok (service_file req.service_name (codes "meta.json")) meta w3 r4
        ∙ ap (insert (service_file req.service_name (codes "meta.json")) meta) f3 in
      (
        content,
        rw (mkdir_all-files w) at (read_file_ok req.staged_path w1 content r2),
        (
          svc,
          text,
          r5,
          r6,
          ap (λ (v : World Text). v.files) (e1 ∙ e2 ∙ e3 ∙ e4 ∙ e5 ∙ e6 ∙ e7 ∙ e8)
              ∙ atomic_write_ok (file_path services_dir req.service_name) text w7 r8
              ∙ ap (insert (file_path services_dir req.service_name) text)
                  (mkdir_all-files w4 ∙ f4),
        ),
      )

  -- A provisioning that succeeds has verified the staged artifact, which
  -- changes no file, and has then installed what is
  -- staged at the second read, with the metadata and a valid configuration. Where other processes
  -- change the staged file between the two reads, what is installed is not what was verified.
  pub provision_lem :
      (meanwhile : World Text → World Text) (services_dir : Text) (now : ℕ) (req : Request)
      (w : World Text) (m : Metadata)
      → (provision p meanwhile services_dir now req w).0 ≡ ok m
      → let v = meanwhile (verify_artifact p req w).1 in
        ((verified : Text) × (lookup req.staged_path w.files ≡ some verified)
          × IsSigned req verified)
        × ((verify_artifact p req w).1.files ≡ w.files)
        × ((content : Text) × (lookup req.staged_path v.files ≡ some content)
            × Installed services_dir req now content v.files
                (provision p meanwhile services_dir now req w).1.files)
  unfolding provision
  provision_lem meanwhile services_dir now req w m h =
      let (u1, r1, h1, e1) = bind_ok (lift (check_runtime p req)) _ w m h in
      let (u2, r2, h2, e2) = bind_ok (verify_artifact p req) _ w m h1 in
      let v : World Text = meanwhile (verify_artifact p req w).1 in
      let (signed, same) = verify_artifact_lem req w r2 in
      let (content, staged, installed) = install_lem services_dir now req v m h2 in
      let end : (provision p meanwhile services_dir now req w).1
          ≡ (install p services_dir now req v).1 =
        e1 ∙ e2 in
      (signed, same, (content, staged, rw end installed))

  -- If nothing touches the files between the two reads, what is installed has the hash and the
  -- signature of the request.
  pub provision-IsSigned :
      (services_dir : Text) (now : ℕ) (req : Request) (w : World Text) (m : Metadata)
      → (provision p (λ v. v) services_dir now req w).0 ≡ ok m
      → (content : Text) × IsSigned req content
        × Installed services_dir req now content w.files
            (provision p (λ v. v) services_dir now req w).1.files
  provision-IsSigned services_dir now req w m h =
      let ((verified, held, signed), same, (content, staged, installed)) =
        provision_lem (λ v. v) services_dir now req w m h in
      let one : verified ≡ content = ground (arith, held, staged, same) in
      (content, rw one at signed, rw same at installed)
