-- ===== src/Invite/Claim.antt =====
-- internal/api/invites.go: the handler that claims an invitation.
pub mod Branches
pub mod Once
use tailkitd.Prelude.{ℕ, ◌||◌, not, Option, none, some, List, [], Text, str_eq, ltb, if◌then◌else◌}
use tailkitd.Os.{Outcome, World, ok, err}
use tailkitd.Api.Http.{Method, method_post}
use tailkitd.Invite.Token.{Payload, Codec, parse_and_verify}
use tailkitd.Invite.Store.{ClaimRecord, Document, Store, is_claimed, mark_claimed}

-- The handler's store, and the files.
pub record Service : Type 0 where
  pub store : Store
  pub world : World Document

-- The request: its `token`, or `none` if the body is no such JSON, and the login of the caller.
pub record Attempt : Type 0 where
  pub method : Method
  pub token : Option Text
  pub login : Option Text
  -- the time on the clock
  pub now : ℕ
  -- what `identity.LoadPublicKey` returns
  pub public_key : Outcome Text

module _ (c : Codec) (visit : List ClaimRecord → List ClaimRecord) where
  abbrev recorded_status : Outcome Unit → ℕ
  recorded_status (ok _) = 200
  recorded_status (err _) = 409

  unfoldable pub record_claim : Payload → Text → ℕ → Service → ℕ × Service
  record_claim p login now s =
      let (store, r, w) = mark_claimed visit p.token_id login p.expires_at now s.store s.world in
      if is_claimed s.store p.token_id
      then (410, s)
      else (recorded_status r, record { store = store; world = w })

  abbrev check_caller : Option Text → Payload → ℕ → Service → ℕ × Service
  check_caller none p now s = (403, s)
  check_caller (some login) p now s =
      if str_eq login [] || not (str_eq p.grantee login)
      then (403, s)
      else record_claim p login now s

  abbrev check_payload : Option Text → ℕ → Service → Outcome Payload → ℕ × Service
  check_payload login now s (err _) = (401, s)
  check_payload login now s (ok p) =
      if ltb p.expires_at now then (410, s) else check_caller login p now s

  abbrev check_key : Text → Option Text → ℕ → Service → Outcome Text → ℕ × Service
  check_key token login now s (err _) = (500, s)
  check_key token login now s (ok key) = check_payload login now s (parse_and_verify c token key)

  abbrev check_token : Attempt → Service → Option Text → ℕ × Service
  check_token a s none = (400, s)
  check_token a s (some token) =
      if str_eq token [] then (400, s) else check_key token a.login a.now s a.public_key

  abbrev check_method : Attempt → Service → Method → ℕ × Service
  check_method a s method_post = check_token a s a.token
  check_method a s _ = (405, s)

  -- `InviteClaimHandler.ServeHTTP`: the status and the service afterwards
  unfoldable pub claim : Attempt → Service → ℕ × Service
  unfolding record_claim
  claim a s = check_method a s a.method
