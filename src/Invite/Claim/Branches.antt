-- ===== src/Invite/Claim/Branches.antt =====
-- internal/api/invites.go: what one request does.
use tailkitd.Prelude.{
  ℕ, ◌≡◌, refl, ◌⊎◌, inl, inr, true, false, ◌||◌, not, Option, none, some, List, [], arith, Text,
  str_eq, str_eq_iff, ltb, leb, ◌==◌, Bool-cases,
}
use tailkitd.Os.{Outcome, ok, err}
use tailkitd.Api.Http.{
  is_success, Method, method_get, method_post, method_put, method_patch, method_delete,
  method_other,
}
use tailkitd.Invite.Token.{Payload, Codec, parse_and_verify}
use tailkitd.Invite.Store.{ClaimRecord, is_claimed, mark_claimed}
use tailkitd.Invite.Claim.{
  claim, Service, Attempt, recorded_status, record_claim, check_caller, check_payload, check_key,
  check_token, check_method,
}

module _ (c : Codec) (visit : List ClaimRecord → List ClaimRecord) where
  -- The request carries a token of which the node's key verifies that it says `p`.
  abbrev pub Carries : Attempt → Payload → Type 0
  Carries a p =
      (token : Text) × (key : Text) × (a.token ≡ some token)
      × (a.public_key ≡ ok key)
      × (parse_and_verify c token key ≡ ok p)

  -- What a request may do: nothing, or record the claim of the token that it carries.
  abbrev pub Claims : Attempt → Service → ℕ × Service → Type 0
  Claims a s (status, s') =
      (p : Payload) × Carries a p
      × (leb a.now p.expires_at ≡ true)
      × ((login : Text) × (a.login ≡ some login)
          × (p.grantee ≡ login)
          × (is_claimed s.store p.token_id ≡ false)
          × (let (store, r, w) =
                mark_claimed visit p.token_id login p.expires_at a.now s.store s.world in
              (status ≡ recorded_status c visit r) × (s' ≡ record { store = store; world = w })))

  abbrev pub Outcomes : Attempt → Service → ℕ × Service → Type 0
  Outcomes a s out =
      ((is_success out.0 ≡ false) × ((out.0 == 409) ≡ false) × (out.1 ≡ s)) ⊎ Claims a s out

  record_claim_lem :
      (a : Attempt) (s : Service) (p : Payload) (login : Text)
      → Carries a p
      → leb a.now p.expires_at ≡ true
      → a.login ≡ some login
      → p.grantee ≡ login
      → Outcomes a s (record_claim c visit p login a.now s)
  unfolding record_claim
  record_claim_lem a s p login carries live known own =
      elim (Bool-cases (is_claimed s.store p.token_id)) [
        | inl old ↦ rw old (inl (refl, refl, refl))
        | inr fresh ↦ rw fresh (inr (p, carries, live, (login, known, own, fresh, (refl, refl))))
      ]

  check_caller_lem :
      (a : Attempt) (s : Service) (p : Payload) (login : Option Text)
      → Carries a p
      → leb a.now p.expires_at ≡ true
      → a.login ≡ login
      → Outcomes a s (check_caller c visit login p a.now s)
  check_caller_lem a s p none carries live e = inl (refl, refl, refl)
  check_caller_lem a s p (some login) carries live e =
      elim (Bool-cases (str_eq login [] || not (str_eq p.grantee login))) [
        | inl bad ↦ rw bad (inl (refl, refl, refl))
        | inr good ↦
            let own : p.grantee ≡ login = ground (arith, good, str_eq_iff p.grantee login) in
            rw good (record_claim_lem a s p login carries live e own)
      ]

  check_payload_lem :
      (a : Attempt) (s : Service) (r : Outcome Payload)
      → ((p : Payload) → r ≡ ok p → Carries a p)
      → Outcomes a s (check_payload c visit a.login a.now s r)
  check_payload_lem a s (err e) carries = inl (refl, refl, refl)
  check_payload_lem a s (ok p) carries = elim (Bool-cases (ltb p.expires_at a.now)) [
    | inl late ↦ rw late (inl (refl, refl, refl))
    | inr live ↦
        rw live (check_caller_lem a s p a.login (carries p refl) (ground (arith, live)) refl)
  ]

  check_key_lem :
      (a : Attempt) (s : Service) (token : Text) (key : Outcome Text)
      → a.token ≡ some token
      → a.public_key ≡ key
      → Outcomes a s (check_key c visit token a.login a.now s key)
  check_key_lem a s token (err e) sent held = inl (refl, refl, refl)
  check_key_lem a s token (ok key) sent held =
      check_payload_lem a s (parse_and_verify c token key) (λ p e. (token, key, sent, held, e))

  check_token_lem :
      (a : Attempt) (s : Service) (token : Option Text)
      → a.token ≡ token
      → Outcomes a s (check_token c visit a s token)
  check_token_lem a s none sent = inl (refl, refl, refl)
  check_token_lem a s (some token) sent = elim (Bool-cases (str_eq token [])) [
    | inl bad ↦ rw bad (inl (refl, refl, refl))
    | inr good ↦ rw good (check_key_lem a s token a.public_key sent refl)
  ]

  check_method_lem :
      (a : Attempt) (s : Service) (m : Method) → Outcomes a s (check_method c visit a s m)
  check_method_lem a s method_post = check_token_lem a s a.token refl
  check_method_lem a s method_get = inl (refl, refl, refl)
  check_method_lem a s method_put = inl (refl, refl, refl)
  check_method_lem a s method_patch = inl (refl, refl, refl)
  check_method_lem a s method_delete = inl (refl, refl, refl)
  check_method_lem a s method_other = inl (refl, refl, refl)

  -- Either the request is refused and the service is as it was, or it carries a token that the
  -- node's key verifies, that has not expired, that was issued to the caller and that was not
  -- claimed; and then `MarkClaimed` is called for it, and its error gives the status.
  pub claim_lem : (a : Attempt) (s : Service) → Outcomes a s (claim c visit a s)
  unfolding claim
  claim_lem a s = check_method_lem a s a.method
