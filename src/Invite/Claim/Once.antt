-- ===== src/Invite/Claim/Once.antt =====
-- internal/api/invites.go: a token is claimed at most once, across other requests and restarts.
use tailkitd.Prelude.{ℕ, ◌≡◌, ap, ◌∙◌, ◌≢◌, inl, inr, Bool, true, false, List, arith, Text}
use tailkitd.Os.{Outcome-cases, ok}
use tailkitd.Api.Http.{is_success}
use tailkitd.Invite.Token.{Payload, Codec}
use tailkitd.Invite.Store.{ClaimRecord, Store, new_store, is_claimed, mark_claimed}
use tailkitd.Invite.Store.Kept.{Kept, mark_claimed_lem, VisitsAll, new_store-OnDisk, Entry-claimed}
use tailkitd.Invite.Claim.{claim, Service, Attempt, recorded_status}
use tailkitd.Invite.Claim.Branches.{Carries, Outcomes, claim_lem}

not_both : (n : ℕ) → n ≡ 409 → ¬ (n ≡ 200)
not_both n h k = omega (arith, h, k)

module _ (c : Codec) (visit : List ClaimRecord → List ClaimRecord) where
  abbrev pub Holds : Text → Service → Type 0
  Holds id s = Kept id s.store s.world

  -- Requests one after the other, and restarts that succeed.
  pub data Step : Service → Service → Type 0 where
    requested : (a : Attempt) (s : Service) → Step s (claim c visit a s).1
    restarted :
        (s : Service) (faults : List Bool) (store : Store)
        → (new_store s.store.path (record s.world { faults = faults })).0 ≡ ok store
        → Step s (record {
          store = store;
          world = (new_store s.store.path (record s.world { faults = faults })).1;
        })

  pub data Steps : Service → Service → Type 0 where
    done : (s : Service) → Steps s s
    step : (s t u : Service) → Step s t → Steps t u → Steps s u

  Claims-Holds :
      (id : Text) (a : Attempt) (s : Service) (out : ℕ × Service)
      → VisitsAll visit
      → Holds id s
      → Outcomes c visit a s out
      → Holds id out.1
  Claims-Holds id a s out all kept (inl (refused, _, same)) = rw same kept
  Claims-Holds id a s (status, t) all (entry, disk)
        (inr (p, carries, live, (login, known, own, fresh, (answered, after)))) =
      elim (mark_claimed_lem visit p.token_id login p.expires_at a.now s.store s.world all) [
        | inl (old, _, _, _) ↦ cc (old, fresh)
        | inr (_, path, mine, keep, rec, kept) ↦
            rw after (keep id entry, rw path (kept id entry disk))
      ]

  Step-Holds : (id : Text) (s t : Service) → VisitsAll visit → Holds id s → Step s t → Holds id t
  Step-Holds id s t all kept (requested a _) =
      Claims-Holds id a s (claim c visit a s) all kept (claim_lem c visit a s)
  Step-Holds id s t all kept (restarted _ faults store e) =
      let (path, entry, disk) =
        new_store-OnDisk id s.store.path (record s.world { faults = faults }) store (kept.1) e in
      (entry, rw path disk)

  Steps-Holds : (id : Text) (s t : Service) → VisitsAll visit → Holds id s → Steps s t → Holds id t
  Steps-Holds id s t all kept (done _) = kept
  Steps-Holds id s t all kept (step _ u _ one more) =
      Steps-Holds id u t all (Step-Holds id s u all kept one) more

  Carries-unique : (a : Attempt) (p q : Payload) → Carries c visit a p → Carries c visit a q → p ≡ q
  Carries-unique a p q (token, key, sent, held, e) (token', key', sent', held', e') =
      ground (arith, sent, held, e, sent', held', e')

  claimed_Holds :
      (a : Attempt) (s t : Service) (p : Payload) (login : Text)
      → VisitsAll visit
      → is_claimed s.store p.token_id ≡ false
      → is_success (
          recorded_status c visit
            (mark_claimed visit p.token_id login p.expires_at a.now s.store s.world).1)
        ≡ true
      → t ≡ record {
        store = (mark_claimed visit p.token_id login p.expires_at a.now s.store s.world).0;
        world = (mark_claimed visit p.token_id login p.expires_at a.now s.store s.world).2;
      }
      → Holds p.token_id t
  claimed_Holds a s t p login all fresh good after =
      let (store, r, w) = mark_claimed visit p.token_id login p.expires_at a.now s.store s.world in
      elim (mark_claimed_lem visit p.token_id login p.expires_at a.now s.store s.world all) [
        | inl (old, _, _, _) ↦ cc (old, fresh)
        | inr (_, path, mine, keep, rec, kept) ↦ elim (Outcome-cases r) [
          | inl (u, e) ↦ rw after (mine, rw path (rw e at rec))
          | inr (x, e) ↦ cc (rw e at good)
        ]
      ]

  success_Holds :
      (a : Attempt) (s : Service) (p : Payload) (out : ℕ × Service)
      → VisitsAll visit
      → Carries c visit a p
      → Outcomes c visit a s out
      → is_success out.0 ≡ true
      → (is_claimed s.store p.token_id ≡ false) × Holds p.token_id out.1
  success_Holds a s p out all carries (inl (refused, _, same)) good = cc (refused, good)
  success_Holds a s p (status, t) all carries
        (inr (q, carries', live, (login, known, own, fresh, (answered, after)))) good =
      let one : (is_claimed s.store q.token_id ≡ false) × Holds q.token_id t =
        (fresh, claimed_Holds a s t q login all fresh (rw answered at good) after) in
      rw (Carries-unique a p q carries carries') one

  -- Two requests that succeed, the second after any requests and restarts, carry different tokens.
  pub claim_once :
      (a b : Attempt) (s t : Service) (p q : Payload)
      → VisitsAll visit
      → Carries c visit a p
      → Carries c visit b q
      → is_success (claim c visit a s).0 ≡ true
      → Steps (claim c visit a s).1 t
      → is_success (claim c visit b t).0 ≡ true
      → p.token_id ≢ q.token_id
  claim_once a b s t p q all ca cb first steps second same =
      let (_, kept) =
        success_Holds a s p (claim c visit a s) all ca (claim_lem c visit a s) first in
      let still : Holds p.token_id t =
        Steps-Holds p.token_id (claim c visit a s).1 t all kept steps in
      let (fresh, _) =
        success_Holds b t q (claim c visit b t) all cb (claim_lem c visit b t) second in
      cc (Entry-claimed p.token_id t.store still.0, same, fresh)

  burned :
      (a : Attempt) (s : Service) (p : Payload) (out : ℕ × Service)
      → VisitsAll visit
      → Carries c visit a p
      → Outcomes c visit a s out
      → out.0 ≡ 409
      → (is_claimed s.store p.token_id ≡ false)
        × (is_claimed out.1.store p.token_id ≡ true)
        × (out.1.world.files ≡ s.world.files)
  burned a s p out all carries (inl (refused, other, same)) failed = cc (rw failed at other)
  burned a s p (status, t) all carries
        (inr (q, carries', live, (login, known, own, fresh, (answered, after)))) failed =
      let (store, r, w) = mark_claimed visit q.token_id login q.expires_at a.now s.store s.world in
      elim (mark_claimed_lem visit q.token_id login q.expires_at a.now s.store s.world all) [
        | inl (old, _, _, _) ↦ cc (old, fresh)
        | inr (_, path, mine, keep, rec, kept) ↦ elim (Outcome-cases r) [
          | inl (u, e) ↦ absurd (not_both status failed (answered ∙ ap (recorded_status c visit) e))
          | inr (x, e) ↦
              let out : (is_claimed s.store q.token_id ≡ false)
                  × (is_claimed t.store q.token_id ≡ true)
                  × (t.world.files ≡ s.world.files) =
                (fresh, rw after (Entry-claimed q.token_id store mine), rw after (rw e at rec)) in
              rw (Carries-unique a p q carries carries') out
        ]
      ]

  refused_when_claimed :
      (b : Attempt) (t : Service) (q : Payload)
      → Carries c visit b q
      → is_claimed t.store q.token_id ≡ true
      → is_success (claim c visit b t).0 ≡ false
  refused_when_claimed b t q cb held = elim (claim_lem c visit b t) [
    | inl (refused, _, same) ↦ refused
    | inr (p, carries, live, (login, known, own, fresh, rest)) ↦ cc (
      held,
      fresh,
      ap (λ (x : Payload). is_claimed t.store x.token_id) (Carries-unique b q p cb carries),
    )
  ]

  -- A request that is answered with 409, since the claim could not be written, has used the token
  -- up all the same: it stands as claimed in memory, though in no file, and the next request that
  -- carries it does not succeed.
  pub claim-burned :
      (a b : Attempt) (s : Service) (p q : Payload)
      → VisitsAll visit
      → Carries c visit a p
      → Carries c visit b q
      → q.token_id ≡ p.token_id
      → (claim c visit a s).0 ≡ 409
      → (is_claimed s.store p.token_id ≡ false)
        × (is_claimed (claim c visit a s).1.store p.token_id ≡ true)
        × ((claim c visit a s).1.world.files ≡ s.world.files)
        × (is_success (claim c visit b (claim c visit a s).1).0 ≡ false)
  claim-burned a b s p q all ca cb same failed =
      let (fresh, held, files) =
        burned a s p (claim c visit a s) all ca (claim_lem c visit a s) failed in
      (fresh, held, files, refused_when_claimed b (claim c visit a s).1 q cb (rw same held))
