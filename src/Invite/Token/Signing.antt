-- ===== src/Invite/Token/Signing.antt =====
-- internal/invite/token.go: what a token proves.
use tailkitd.Prelude.{◌≡◌, refl, inl, inr, true, some, arith, Text, Bool-cases, Option-cases}
use tailkitd.Os.{ok}
use tailkitd.Invite.Token.{Payload, Envelope, Codec, sign, parse_and_verify}

module _ (c : Codec) where
  -- What `Sign` makes is read back by `ParseAndVerify` with the public key that belongs to the
  -- private one, if base64 and the envelope's JSON are read back as they were written.
  pub parse_and_verify-sign :
      (payload : Payload) (private_key public_key : Text)
      → ((t : Text) → c.decode (c.encode t) ≡ some t)
      → ((env : Envelope) → env.payload ≡ payload → c.unmarshal (c.marshal env) ≡ some env)
      → ((m : Text) → c.verify public_key m (c.sign_bytes private_key m) ≡ true)
      → parse_and_verify c (sign c payload private_key) public_key ≡ ok payload
  unfolding parse_and_verify sign
  parse_and_verify-sign payload private_key public_key base64 json keys =
      let body = c.marshal_payload payload in
      let env : Envelope = record {
        payload = payload;
        signature = c.encode (c.sign_bytes private_key body);
      } in
      ground (
        arith,
        base64 (c.marshal env),
        json env refl,
        base64 (c.sign_bytes private_key body),
        keys body,
      )

  -- A payload comes out of a token only if the token holds a signature that the public key accepts
  -- on the payload's canonical bytes.
  pub parse_and_verify_sound :
      (token public_key : Text) (payload : Payload)
      → parse_and_verify c token public_key ≡ ok payload
      → (raw : Text) × (env : Envelope) × (sig : Text) × (c.decode token ≡ some raw)
        × (c.unmarshal raw ≡ some env)
        × (env.payload ≡ payload)
        × (c.decode env.signature ≡ some sig)
        × (c.verify public_key (c.marshal_payload payload) sig ≡ true)
  unfolding parse_and_verify
  parse_and_verify_sound token public_key payload h = elim (Option-cases (c.decode token)) [
    | inl e ↦ ground (arith, e, h)
    | inr (raw, e) ↦ elim (Option-cases (c.unmarshal raw)) [
      | inl e' ↦ ground (arith, e, e', h)
      | inr (env, e') ↦ elim (Option-cases (c.decode env.signature)) [
        | inl d ↦ ground (arith, e, e', d, h)
        | inr (sig, d) ↦
            elim (Bool-cases (c.verify public_key (c.marshal_payload env.payload) sig)) [
              | inr bad ↦ ground (arith, e, e', d, h, bad)
              | inl good ↦
                  let same : env.payload ≡ payload = ground (arith, e, e', d, h, good) in
                  (raw, env, sig, e, e', same, d, rw same at good)
            ]
      ]
    ]
  ]
