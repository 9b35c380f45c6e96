-- ===== src/Invite/Token.antt =====
-- internal/invite/token.go: the signed invitation. A time is a natural number of nanoseconds.
pub mod Signing
use tailkitd.Prelude.{ℕ, Bool, Option, none, some, Text, if◌then◌else◌}
use tailkitd.Os.{Outcome, malformed, invalid, ok, err}

pub record Payload : Type 0 where
  pub version : ℕ
  pub token_id : Text
  pub issuer : Text
  pub grantee : Text
  pub target_node : Text
  pub service_name : Text
  pub artifact_hash : Text
  pub expires_at : ℕ
  pub single_use : Bool

pub record Envelope : Type 0 where
  pub payload : Payload
  pub signature : Text

-- The packages encoding/base64, encoding/json and crypto/ed25519, as far as they are used.
pub record Codec : Type 0 where
  pub encode : Text → Text
  pub decode : Text → Option Text
  pub marshal_payload : Payload → Text
  pub marshal : Envelope → Text
  pub unmarshal : Text → Option Envelope
  -- from the private key and the message
  pub sign_bytes : Text → Text → Text
  -- from the public key, the message and the signature
  pub verify : Text → Text → Text → Bool

module _ (c : Codec) where
  -- `Sign`, from the payload and the private key
  unfoldable pub sign : Payload → Text → Text
  sign payload private_key =
      let signature = c.encode (c.sign_bytes private_key (c.marshal_payload payload)) in
      c.encode (c.marshal (record { payload = payload; signature = signature }))

  abbrev check_signature : Text → Payload → Option Text → Outcome Payload
  check_signature public_key payload none = err malformed
  check_signature public_key payload (some sig) =
      if c.verify public_key (c.marshal_payload payload) sig then ok payload else err invalid

  abbrev check_envelope : Text → Option Envelope → Outcome Payload
  check_envelope public_key none = err malformed
  check_envelope public_key (some env) =
      check_signature public_key env.payload (c.decode env.signature)

  abbrev check_raw : Text → Option Text → Outcome Payload
  check_raw public_key none = err malformed
  check_raw public_key (some raw) = check_envelope public_key (c.unmarshal raw)

  -- `ParseAndVerify`, from the token and the public key
  unfoldable pub parse_and_verify : Text → Text → Outcome Payload
  parse_and_verify token public_key = check_raw public_key (c.decode token)
