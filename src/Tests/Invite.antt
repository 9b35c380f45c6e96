-- ===== src/Tests/Invite.antt =====
-- Runs of internal/invite and internal/api/invites.go.
use tailkitd.Prelude.{
  ◌≡◌, refl, ◌≢◌, inl, true, false, Option, none, some, List, [], ◌∷◌, arith, lookup, insert, Text,
  codes, str_eq, if◌then◌else◌,
}
use tailkitd.Os.Atomic.{atomic_write}
use tailkitd.Os.{World, syscall, read_file, mkdir_all, ok}
use tailkitd.Api.Http.{is_success, method_post}
use tailkitd.Invite.Token.{Payload, Envelope, Codec, parse_and_verify}
use tailkitd.Invite.Store.{
  ClaimRecord, Document, Store, put_all, new_store, is_claimed, mark_claimed, recorded,
}
use tailkitd.Invite.Store.Kept.{OnDisk}
use tailkitd.Invite.Claim.{claim, Service, Attempt}
use tailkitd.Invite.Claim.Branches.{Carries}
use tailkitd.Invite.Claim.Once.{Steps, claim_once, claim-burned}

abbrev payload : Payload
payload = record {
  version = 1;
  token_id = codes "t1";
  issuer = codes "ann";
  grantee = codes "bob";
  target_node = codes "web";
  service_name = codes "svc";
  artifact_hash = codes "h";
  expires_at = 100;
  single_use = true;
}

abbrev other_payload : Payload
other_payload = record payload { token_id = codes "t2" }

abbrev envelope : Payload → Envelope
envelope p = record { payload = p; signature = codes "sig" }

-- A codec of two payloads, which are written as their token ids.
abbrev read : Text → Option Envelope
read raw =
    if str_eq raw (codes "t1")
    then some (envelope payload)
    else if str_eq raw (codes "t2")
    then some (envelope other_payload)
    else none

abbrev codec : Codec
codec = record {
  encode = λ t. t;
  decode = λ t. some t;
  marshal_payload = λ p. p.token_id;
  marshal = λ e. e.payload.token_id;
  unmarshal = read;
  sign_bytes = λ k m. codes "sig";
  verify = λ k m s. str_eq s (codes "sig");
}

abbrev visit : List ClaimRecord → List ClaimRecord
visit rs = rs

abbrev attempt : Text → Attempt
attempt token = record {
  method = method_post;
  token = some token;
  login = some (codes "bob");
  now = 7;
  public_key = ok (codes "pub");
}

abbrev service : Service
service = record {
  store = record { path = codes "/c"; claims = [] };
  world = record { files = []; temp = none; faults = [] };
}

-- The write of the claims fails.
abbrev bad_service : Service
bad_service = record service { world = record { files = []; temp = none; faults = true ∷ [] } }

verified : parse_and_verify codec (codes "t1") (codes "pub") ≡ ok payload
unfolding parse_and_verify str_eq
verified = refl

verified_other : parse_and_verify codec (codes "t2") (codes "pub") ≡ ok other_payload
unfolding parse_and_verify str_eq
verified_other = refl

granted : (claim codec visit (attempt (codes "t1")) service).0 ≡ 200
unfolding claim parse_and_verify str_eq mark_claimed is_claimed lookup insert mkdir_all atomic_write
    syscall
granted = refl

not_written : (claim codec visit (attempt (codes "t1")) bad_service).0 ≡ 409
unfolding claim parse_and_verify str_eq mark_claimed is_claimed lookup insert mkdir_all atomic_write
    syscall
not_written = refl

abbrev one_codec : Codec
one_codec = record codec {
  unmarshal = λ raw. some (record { payload = payload; signature = raw });
  marshal = λ e. e.signature;
  verify = λ k m s. true;
}

one_codec_reads :
    (env : Envelope)
    → env.payload ≡ payload
    → one_codec.unmarshal (one_codec.marshal env) ≡ some env
one_codec_reads env e = ground (arith, e)

abbrev claimed_world : World Document
claimed_world = record {
  files =
      (
        codes "/c",
        recorded (
            record {
              token_id = codes "t1";
              claimed_by = codes "bob";
              claimed_at = 7;
              expires_at = 100;
            }
            ∷ []),
      )
      ∷ [];
  temp = none;
  faults = [];
}

abbrev claimed_store : Store
claimed_store = record {
  path = codes "/c";
  claims =
      (
        codes "t1",
        record {
          token_id = codes "t1";
          claimed_by = codes "bob";
          claimed_at = 7;
          expires_at = 100;
        },
      )
      ∷ [];
}

restart : (new_store (codes "/c") claimed_world).0 ≡ ok claimed_store
unfolding new_store read_file lookup str_eq put_all insert
restart = refl

on_disk : OnDisk (codes "t1") (codes "/c") claimed_world.files
unfolding lookup str_eq
on_disk = (
  recorded (
      record { token_id = codes "t1"; claimed_by = codes "bob"; claimed_at = 7; expires_at = 100 }
      ∷ []),
  refl,
  (
    record { token_id = codes "t1"; claimed_by = codes "bob"; claimed_at = 7; expires_at = 100 },
    inl refl,
    refl,
  ),
)

carries : Carries codec visit (attempt (codes "t1")) payload
carries = (codes "t1", codes "pub", refl, refl, verified)

Carries-other : Carries codec visit (attempt (codes "t2")) other_payload
Carries-other = (codes "t2", codes "pub", refl, refl, verified_other)

abbrev after : Service
after = (claim codec visit (attempt (codes "t1")) service).1

granted_other : (claim codec visit (attempt (codes "t2")) after).0 ≡ 200
unfolding claim parse_and_verify str_eq mark_claimed is_claimed lookup insert mkdir_all atomic_write
    syscall
granted_other = refl

claim_once_example : payload.token_id ≢ other_payload.token_id
claim_once_example =
    claim_once codec visit (attempt (codes "t1")) (attempt (codes "t2")) service after payload
      other_payload (λ r rs h. h) carries Carries-other (rw granted refl) (Steps.done after)
      (rw granted_other refl)

claim-burned_example :
    (is_claimed bad_service.store payload.token_id ≡ false)
    × (is_claimed (claim codec visit (attempt (codes "t1")) bad_service).1.store payload.token_id
        ≡ true)
    × ((claim codec visit (attempt (codes "t1")) bad_service).1.world.files
        ≡ bad_service.world.files)
    × (is_success
          (claim codec visit
            (attempt (codes "t1"))
            (claim codec visit (attempt (codes "t1")) bad_service).1).0
        ≡ false)
claim-burned_example =
    claim-burned codec visit (attempt (codes "t1")) (attempt (codes "t1")) bad_service payload
      payload (λ r rs h. h) carries carries refl not_written
