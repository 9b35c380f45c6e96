-- ===== src/Identity/Stored.antt =====
-- internal/identity/keys.go: which keys a start leaves on disk.
use tailkitd.Prelude.{
  ℕ, ◌≡◌, refl, ◌∙◌, ◌≢◌, true, false, Option, none, some, [], ◌∷◌, arith, Dict, lookup, insert,
  lookup-insert, lookup-insert_self, length, All, Text, str_eq, NotSpace, trim_space-line,
}
use tailkitd.Os.{
  Outcome, World, Io, syscall, read_file, mkdir_all, mkdir_all-files, read_file-no_faults, bind_ok,
  not_exist, io_fault, ok, err,
}
use tailkitd.Os.Plain.{stat, stat-ok, write_file, write_file-other, write_file-ok}
use tailkitd.Admin.Files.{unless_found, ensure}
use tailkitd.Identity.{
  private_key_path, public_key_path, public_key_size, private_key_size, KeyPair, encode_key,
  parse_key, load_public_key, load_private_key, write_keys, ensure_artifact_keys,
}

module _ (encode : Text → Text) (decode : Text → Option Text) where
  -- base64 decodes what it has encoded, into text without a space.
  pub record IsBase64 : Type 0 where
    pub decodes : (key : Text) → decode (encode key) ≡ some key
    pub spaceless : (key : Text) → All NotSpace (encode key)

  parse_key-encode_key :
      (size : ℕ) (key : Text)
      → IsBase64
      → length key ≡ size
      → parse_key encode decode size (encode_key encode decode key) ≡ ok key
  unfolding parse_key encode_key
  parse_key-encode_key size key base64 fits =
      rw (trim_space-line (encode key) (base64.spaceless key), base64.decodes key, fits)
        (ground arith)

  -- Both keys are in their files.
  abbrev pub Stores : KeyPair → World Text → Type 0
  Stores keys w =
      (lookup private_key_path w.files ≡ some (encode_key encode decode keys.private_key))
      × (lookup public_key_path w.files ≡ some (encode_key encode decode keys.public_key))

  write_keys-Stores :
      (keys : KeyPair) (w : World Text)
      → (write_keys encode decode keys w).0 ≡ ok tt
      → Stores keys (write_keys encode decode keys w).1
  unfolding str_eq
  write_keys-Stores keys w h =
      let public : Text = encode_key encode decode keys.public_key in
      let private : Text = encode_key encode decode keys.private_key in
      let first : Io Text Unit = write_file private_key_path [] private in
      let second : Io Text Unit = write_file public_key_path [] public in
      let (u, first_ok, second_ok, same) = bind_ok first (λ _. second) w tt h in
      (
        rw same (
            write_file-other public_key_path [] public private_key_path (first w).1 refl
            ∙ write_file-ok private_key_path [] private w first_ok),
        rw same (write_file-ok public_key_path [] public (first w).1 second_ok),
      )

  unless_found-Stores :
      (keys : KeyPair) (r : Outcome Unit) (w : World Text)
      → r ≢ ok tt
      → (unless_found r (write_keys encode decode keys) w).0 ≡ ok tt
      → Stores keys (unless_found r (write_keys encode decode keys) w).1
  unless_found-Stores keys (ok u) w absent h = absurd (absent refl)
  unless_found-Stores keys (err not_exist) w absent h = write_keys-Stores keys w h
  unless_found-Stores keys (err e) w absent h = absurd (cc h)

  keys_load :
      (keys : KeyPair) (v : World Text)
      → IsBase64
      → length keys.public_key ≡ public_key_size
      → length keys.private_key ≡ private_key_size
      → Stores keys v
      → v.faults ≡ []
      → (load_public_key encode decode v ≡ (ok keys.public_key, v))
        × (load_private_key encode decode v ≡ (ok keys.private_key, v))
  unfolding load_public_key load_private_key
  keys_load keys v base64 p q stored quiet = (
    rw
        (
          read_file-no_faults public_key_path v quiet stored.1,
          parse_key-encode_key public_key_size keys.public_key base64 p,
        )
        refl,
    rw
        (
          read_file-no_faults private_key_path v quiet stored.0,
          parse_key-encode_key private_key_size keys.private_key base64 q,
        )
        refl,
  )

  -- Where base64 decodes what it has encoded, into text without a space, and the keys have the sizes
  -- of ed25519: on a node without a private key, a start that succeeds has stored the pair that it
  -- has generated, so both keys load as they are, as long as the files stay and no read fails.
  pub ensure_artifact_keys-load :
      (keys : KeyPair) (w v : World Text)
      → IsBase64
      → length keys.public_key ≡ public_key_size
      → length keys.private_key ≡ private_key_size
      → lookup private_key_path w.files ≡ none
      → (ensure_artifact_keys encode decode (ok keys) w).0 ≡ ok tt
      → v.files ≡ (ensure_artifact_keys encode decode (ok keys) w).1.files
      → v.faults ≡ []
      → (load_public_key encode decode v ≡ (ok keys.public_key, v))
        × (load_private_key encode decode v ≡ (ok keys.private_key, v))
  unfolding ensure_artifact_keys load_public_key load_private_key
  ensure_artifact_keys-load keys w v base64 p q absent h same quiet =
      let v1 : World Text = (mkdir_all w).1 in
      let rest = ensure private_key_path (write_keys encode decode keys) in
      let (u, first_ok, second_ok, after) = bind_ok mkdir_all (λ _. rest) w tt h in
      let not_there : (stat private_key_path v1).0 ≢ ok tt = λ e.
        let (c, held) = stat-ok private_key_path v1 e in
        absurd (cc (held, absent, mkdir_all-files w)) in
      let stored =
        unless_found-Stores keys (stat private_key_path v1).0 (stat private_key_path v1).1 not_there
          second_ok in
      keys_load keys v base64 p q (rw (same, after) stored.0, rw (same, after) stored.1) quiet

  -- The files that a start leaves which fails at the public key
  abbrev left_files : KeyPair → Dict Text → Dict Text
  left_files keys files =
      insert private_key_path (encode_key encode decode keys.private_key)
        (insert private_key_path [] files)

  abbrev quiet_world : Dict Text → World Text
  quiet_world files = record { files = files; temp = none; faults = [] }

  first_start :
      (keys : KeyPair) (files : Dict Text)
      → lookup private_key_path files ≡ none
      → ensure_artifact_keys encode decode (ok keys) (record {
        files = files;
        temp = none;
        faults = false ∷ false ∷ false ∷ false ∷ false ∷ true ∷ [];
      })
        ≡ (err io_fault, quiet_world (left_files keys files))
  unfolding ensure_artifact_keys stat write_file syscall mkdir_all
  first_start keys files absent = rw absent refl

  later_start :
      (later : Outcome KeyPair) (files : Dict Text) (text : Text)
      → lookup private_key_path files ≡ some text
      → ensure_artifact_keys encode decode later (quiet_world files) ≡ (ok tt, quiet_world files)
  unfolding ensure_artifact_keys stat syscall mkdir_all
  later_start later files text held = rw held refl

  missing_key :
      (files : Dict Text)
      → lookup public_key_path files ≡ none
      → load_public_key encode decode (quiet_world files) ≡ (err not_exist, quiet_world files)
  unfolding load_public_key read_file syscall
  missing_key files missing = rw missing refl

  left_missing :
      (keys : KeyPair) (files : Dict Text)
      → lookup public_key_path files ≡ none
      → lookup public_key_path (left_files keys files) ≡ none
  unfolding str_eq
  left_missing keys files missing =
      rw
        (
          lookup-insert public_key_path private_key_path (encode_key encode decode keys.private_key)
              (insert private_key_path [] files),
          lookup-insert public_key_path private_key_path [] files,
        )
        missing

  -- On a node without either key, where only the file of the public key cannot be opened: the start
  -- fails, but the private key is there, and while no further call fails every later start finds it
  -- and succeeds without a change, and the public key does not load.
  pub ensure_artifact_keys-no_public_key :
      (keys : KeyPair) (later : Outcome KeyPair) (files : Dict Text)
      → lookup private_key_path files ≡ none
      → lookup public_key_path files ≡ none
      → let w : World Text = record {
        files = files;
        temp = none;
        faults = false ∷ false ∷ false ∷ false ∷ false ∷ true ∷ [];
      } in
        let (first, v) = ensure_artifact_keys encode decode (ok keys) w in
        (first ≡ err io_fault)
        × (ensure_artifact_keys encode decode later v ≡ (ok tt, v))
        × (load_public_key encode decode v ≡ (err not_exist, v))
  ensure_artifact_keys-no_public_key keys later files absent missing =
      let left = left_files keys files in
      let held : lookup private_key_path left ≡ some (encode_key encode decode keys.private_key) =
        lookup-insert_self private_key_path _ (insert private_key_path [] files) in
      let gone = left_missing keys files missing in
      rw (first_start keys files absent)
        (refl, later_start later left _ held, missing_key left gone)
