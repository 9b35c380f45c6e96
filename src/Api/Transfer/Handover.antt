-- ===== src/Api/Transfer/Handover.antt =====
-- internal/api/admin.go: one node hands the admin role to another over the network.
use tailkitd.Prelude.{
  ℕ, suc, ◌≡◌, refl, ◌∙◌, ◌≢◌, ◌⊎◌, inl, inr, Bool, true, false, not, some, [], arith, ℤ, inc64,
  pos, negsuc, Text, str_eq, ◌==◌, if◌then◌else◌,
}
use tailkitd.Os.Atomic.{atomic_write-no_faults}
use tailkitd.State.Epoch.{line_of}
use tailkitd.Os.{
  Error, Outcome, Outcome-cases, World, read_file, syscall-no_faults, io_fault, ok, err,
}
use tailkitd.Api.Http.{Node, method_post}
use tailkitd.Api.Transfer.{transfer_admin, get_fence_token, accept_promotion, admin_fence_path}

-- What the network does with the promotion request and with its reply.
pub data Delivery : Type 0 where
  delivered request_lost reply_lost : Delivery

-- `HTTPPromotionClient.Promote`: any status but 200 is an error, as is a lost message.
abbrev answer : Delivery → ℕ → Outcome Unit
answer delivered status = if status == 200 then ok tt else err io_fault
answer request_lost status = err io_fault
answer reply_lost status = err io_fault

abbrev pub promote_with : Delivery → Node → ℤ → Outcome Unit
promote_with d b fence = answer d (accept_promotion method_post (some fence) b).0.status

-- Whether `a` gets as far as to ask for the promotion.
abbrev pub asks : Text → Node → Bool
asks host a = (transfer_admin (λ _ _. ok tt) method_post (some host) a).0.status == 200

abbrev promoted_peer : Delivery → ℤ → Node → Node
promoted_peer request_lost fence b = b
promoted_peer delivered fence b = (accept_promotion method_post (some fence) b).1
promoted_peer reply_lost fence b = (accept_promotion method_post (some fence) b).1

-- Node `a`, whose fence token is `fence`, transfers to node `b`: the two, afterwards.
abbrev pub sender_after : Delivery → Text → Node → Node → Node
sender_after d host a b = (transfer_admin (λ _. promote_with d b) method_post (some host) a).1

abbrev pub peer_after : Delivery → Text → ℤ → Node → Node → Node
peer_after d host fence a b = if asks host a then promoted_peer d (inc64 fence) b else b

-- The peer, for what the sender reads as its token; no request is sent without one.
abbrev pub peer_of : Delivery → Text → Outcome ℤ → Node → Node → Node
peer_of d host (ok fence) a b = peer_after d host fence a b
peer_of d host (err e) a b = b

accept_promotion-is_admin :
    (fence : ℤ) (b : Node)
    → ((accept_promotion method_post (some fence) b).0.status ≡ 200)
        × ((accept_promotion method_post (some fence) b).1.is_admin ≡ true)
      ⊎ (((accept_promotion method_post (some fence) b).0.status == 200) ≡ false)
        × ((accept_promotion method_post (some fence) b).1.is_admin ≡ b.is_admin)
unfolding accept_promotion
accept_promotion-is_admin (pos fence) b = ground arith
accept_promotion-is_admin (negsuc k) b = ground arith

-- The sender gives the role up exactly if the answer that reaches it is a consent.
promise :
    (d : Delivery) (b : Node) (fence : ℤ)
    → (promote_with d b fence ≡ ok tt)
        × (d ≡ delivered)
        × ((promoted_peer d fence b).is_admin ≡ true)
      ⊎ (promote_with d b fence ≢ ok tt)
        × ((d ≡ reply_lost) ⊎ ((promoted_peer d fence b).is_admin ≡ b.is_admin))
promise request_lost b fence = inr ((λ h. cc), inr refl)
promise reply_lost b fence = inr ((λ h. cc), inl refl)
promise delivered b fence = elim (accept_promotion-is_admin fence b) [
  | inl (status, role) ↦ inl (rw status refl, refl, role)
  | inr (status, role) ↦ inr (rw status (λ h. cc), inr role)
]

sender_lem :
    (host : Text) (fence : ℤ) (a : Node) (promote : ℤ → Outcome Unit)
    → a.is_admin ≡ true
    → (get_fence_token a.world).0 ≡ ok fence
    → ((transfer_admin (λ _. promote) method_post (some host) a).1.is_admin ≡ true)
        × ((asks host a ≡ false) ⊎ (promote (inc64 fence) ≢ ok tt))
      ⊎ ((transfer_admin (λ _. promote) method_post (some host) a).1.is_admin ≡ false)
        × (asks host a ≡ true)
        × (promote (inc64 fence) ≡ ok tt)
unfolding transfer_admin
sender_lem host fence a promote admin known = ground arith

one_of_two :
    (d : Delivery) (host : Text) (fence : ℤ) (a b : Node)
    → d ≢ reply_lost
    → a.is_admin ≡ true
    → b.is_admin ≡ false
    → (get_fence_token a.world).0 ≡ ok fence
    → (sender_after d host a b).is_admin ≡ not (peer_after d host fence a b).is_admin
one_of_two d host fence a b kept admin other known =
    elim (sender_lem host fence a (promote_with d b) admin known) [
      | inr (left, asked, consent) ↦ elim (promise d b (inc64 fence)) [
        | inl (_, _, role) ↦ ground (arith, asked, role, left)
        | inr (refused, _) ↦ absurd (refused consent)
      ]
      | inl (stays, inl silent) ↦ ground (arith, silent, other, stays)
      | inl (stays, inr refused) ↦ elim (promise d b (inc64 fence)) [
        | inl (consent, _, _) ↦ absurd (refused consent)
        | inr (_, inl lost) ↦ absurd (kept lost)
        | inr (_, inr role) ↦ ground (arith, role ∙ other)
      ]
    ]

with_token :
    (d : Delivery) (host : Text) (fence : ℤ) (a b : Node)
    → a.is_admin ≡ true
    → b.is_admin ≡ false
    → (get_fence_token a.world).0 ≡ ok fence
    → ((d ≢ reply_lost)
        × ((sender_after d host a b).is_admin ≡ not (peer_after d host fence a b).is_admin))
      ⊎ ((d ≡ reply_lost) × ((sender_after d host a b).is_admin ≡ true))
with_token reply_lost host fence a b admin other known =
    elim (sender_lem host fence a (promote_with reply_lost b) admin known) [
      | inl (stays, why) ↦ inr (refl, stays)
      | inr (left, asked, consent) ↦ cc consent
    ]
with_token delivered host fence a b admin other known =
    inl ((λ h. cc), one_of_two delivered host fence a b (λ h. cc) admin other known)
with_token request_lost host fence a b admin other known =
    inl ((λ h. cc), one_of_two request_lost host fence a b (λ h. cc) admin other known)

unreadable_stays :
    (promote : ℤ → Outcome Unit) (host : Text) (a : Node) (e : Error)
    → a.is_admin ≡ true
    → (get_fence_token a.world).0 ≡ err e
    → (transfer_admin (λ _. promote) method_post (some host) a).1.is_admin ≡ true
unfolding transfer_admin
unreadable_stays promote host a e admin unread = ground arith

unreadable :
    (d : Delivery) (host : Text) (a b : Node)
    → (sender_after d host a b).is_admin ≡ true
    → b.is_admin ≡ false
    → ((d ≢ reply_lost) × ((sender_after d host a b).is_admin ≡ not b.is_admin))
      ⊎ ((d ≡ reply_lost) × ((sender_after d host a b).is_admin ≡ true))
unreadable delivered host a b stays other = inl ((λ h. cc), stays ∙ rw other refl)
unreadable request_lost host a b stays other = inl ((λ h. cc), stays ∙ rw other refl)
unreadable reply_lost host a b stays other = inr (refl, stays)

-- The first node is the admin and the second is not: a transfer that loses no reply leaves exactly
-- one of them the admin, whatever calls fail on either node, also where the first cannot read its
-- token; and a transfer whose reply is lost leaves at least the first.
pub handover :
    (d : Delivery) (host : Text) (a b : Node)
    → a.is_admin ≡ true
    → b.is_admin ≡ false
    → ((d ≢ reply_lost)
        × ((sender_after d host a b).is_admin
            ≡ not (peer_of d host (get_fence_token a.world).0 a b).is_admin))
      ⊎ ((d ≡ reply_lost) × ((sender_after d host a b).is_admin ≡ true))
handover d host a b admin other = elim (Outcome-cases (get_fence_token a.world).0) [
  | inl (fence, known) ↦ rw known (with_token d host fence a b admin other known)
  | inr (e, unread) ↦
      rw unread
        (unreadable d host a b (unreadable_stays (promote_with d b) host a e admin unread) other)
]

promoted_quiet :
    (fence : ℕ) (b : Node)
    → b.world.faults ≡ []
    → (accept_promotion method_post (some (pos fence)) b).1.is_admin ≡ true
unfolding accept_promotion
promoted_quiet fence b quiet =
    rw (atomic_write-no_faults admin_fence_path (line_of (pos fence)) b.world quiet) refl

get_fence_token-faults : (w : World Text) → w.faults ≡ [] → (get_fence_token w).1.faults ≡ []
unfolding get_fence_token read_file
get_fence_token-faults w quiet = ground (arith, syscall-no_faults w quiet)

asks_quiet :
    (host : Text) (fence : ℤ) (a : Node)
    → str_eq host [] ≡ false
    → a.is_admin ≡ true
    → (get_fence_token a.world).0 ≡ ok fence
    → a.world.faults ≡ []
    → asks host a ≡ true
unfolding transfer_admin
asks_quiet host fence a named admin known quiet = ground (
  arith,
  atomic_write-no_faults admin_fence_path (line_of (inc64 fence)) (get_fence_token a.world).1
      (get_fence_token-faults a.world quiet),
)

-- A reply that is lost leaves two admins, when no call fails and the token is below the greatest:
-- the peer has taken the role, and the first node keeps it.
pub handover-reply_lost :
    (host : Text) (fence : ℕ) (a b : Node)
    → str_eq host [] ≡ false
    → a.is_admin ≡ true
    → (get_fence_token a.world).0 ≡ ok (pos fence)
    → inc64 (pos fence) ≡ pos (suc fence)
    → a.world.faults ≡ []
    → b.world.faults ≡ []
    → ((sender_after reply_lost host a b).is_admin ≡ true)
      × ((peer_after reply_lost host (pos fence) a b).is_admin ≡ true)
handover-reply_lost host fence a b named admin known small quiet quiet' =
    elim (sender_lem host (pos fence) a (promote_with reply_lost b) admin known) [
      | inr (left, asked, consent) ↦ cc consent
      | inl (stays, why) ↦ (
        stays,
        ground (
          arith,
          asks_quiet host (pos fence) a named admin known quiet,
          promoted_quiet (suc fence) b quiet',
          small,
        ),
      )
    ]
