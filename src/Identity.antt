-- ===== src/Identity.antt =====
-- internal/identity/keys.go: the key pair that signs the artifacts and invitations of the node.
-- base64 and the generation of a pair are parameters. The paths are the variables of the package.
pub mod Stored
use tailkitd.Prelude.{
  ℕ, Option, none, some, [], ◌∷◌, ◌++◌, length, Text, codes, trim_space, ◌==◌, if◌then◌else◌,
}
use tailkitd.Os.{Outcome, Io, lift, ◌>>=◌, ◌>>◌, read_file, mkdir_all, malformed, ok, err}
use tailkitd.Os.Plain.{write_file}
use tailkitd.Admin.Files.{ensure}

-- `ArtifactPrivateKeyPath`
abbrev pub private_key_path : Text
private_key_path = codes "/etc/tailkitd/artifact.key"

-- `ArtifactPublicKeyPath`
abbrev pub public_key_path : Text
public_key_path = codes "/etc/tailkitd/artifact.pub"

-- The sizes of ed25519
abbrev pub public_key_size : ℕ
public_key_size = 32

abbrev pub private_key_size : ℕ
private_key_size = 64

-- A public key and its private key
pub record KeyPair : Type 0 where
  pub public_key : Text
  pub private_key : Text

module _ (encode : Text → Text) (decode : Text → Option Text) where
  -- `encodePublicKey` and `encodePrivateKey`
  unfoldable pub encode_key : Text → Text
  encode_key key = encode key ++ 10 ∷ []

  abbrev sized : ℕ → Option Text → Outcome Text
  sized size none = err malformed
  sized size (some key) = if length key == size then ok key else err malformed

  -- `parsePublicKey` and `parsePrivateKey`, which differ in the size
  unfoldable pub parse_key : ℕ → Text → Outcome Text
  parse_key size text = sized size (decode (trim_space text))

  -- `LoadPublicKey`
  unfoldable pub load_public_key : Io Text Text
  load_public_key = do text ← read_file public_key_path; lift (parse_key public_key_size text)

  -- `LoadPrivateKey`
  unfoldable pub load_private_key : Io Text Text
  load_private_key = do text ← read_file private_key_path; lift (parse_key private_key_size text)

  abbrev pub write_keys : KeyPair → Io Text Unit
  write_keys keys = do
    write_file private_key_path [] (encode_key keys.private_key)
    write_file public_key_path [] (encode_key keys.public_key)

  -- `EnsureArtifactKeys`, for what `ed25519.GenerateKey` gives
  unfoldable pub ensure_artifact_keys : Outcome KeyPair → Io Text Unit
  ensure_artifact_keys generated = do
    mkdir_all
    ensure private_key_path (lift generated >>= write_keys)
