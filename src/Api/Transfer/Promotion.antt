-- ===== src/Api/Transfer/Promotion.antt =====
-- internal/api/admin.go: what `acceptPromotion` leaves on the node that gets the role.
use tailkitd.Prelude.{
  ℕ, ◌≡◌, refl, ◌⊎◌, inl, inr, true, false, Option, none, some, ℤ, pos, negsuc, Dict, insert, Text,
}
use tailkitd.Os.{Error, Outcome, World, ok, err}
use tailkitd.Os.Atomic.{Written, atomic_write, atomic_write_lem}
use tailkitd.State.Epoch.{line_of}
use tailkitd.Api.Http.{
  Node, Method, Response, is_success, method_get, method_post, method_put, method_patch,
  method_delete, method_other,
}
use tailkitd.Api.Transfer.{admin_fence_path, at, accept_promotion, promoted}

abbrev pub Accepted : Option ℤ → Dict Text → Response × Node → Type 0
Accepted body before (resp, m) =
    (resp.status ≡ 200)
    × (m.is_admin ≡ true)
    × ((fence : ℕ) × (body ≡ some (pos fence))
        × (m.world.files ≡ insert admin_fence_path (line_of (pos fence)) before))

abbrev pub LeftAlone : Node → Response × Node → Type 0
LeftAlone n (resp, m) =
    (is_success resp.status ≡ false) × (m.is_admin ≡ n.is_admin) × (m.world.files ≡ n.world.files)

-- The request is a promotion with a token that is not negative.
abbrev pub Promotes : Method → Option ℤ → ℕ → Type 0
Promotes m body fence = (m ≡ method_post) × (body ≡ some (pos fence))

-- What the write of the token decides
abbrev pub Decided : ℕ → Node → Response × Node → Type 0
Decided fence b out =
    let written = (atomic_write admin_fence_path (line_of (pos fence)) b.world).0 in
    ((written ≡ ok tt) × Accepted (some (pos fence)) b.world.files out)
    ⊎ (((e : Error) × (written ≡ err e)) × LeftAlone b out)

promoted_lem :
    (fence : ℕ) (b : Node) (r : Outcome Unit) (w : World Text)
    → Written admin_fence_path (line_of (pos fence)) r b.world.files w.files
    → ((r ≡ ok tt) × Accepted (some (pos fence)) b.world.files (promoted r (at b w)))
      ⊎ (((e : Error) × (r ≡ err e)) × LeftAlone b (promoted r (at b w)))
promoted_lem fence b (ok u) w h = inl (refl, (refl, refl, (fence, refl, h)))
promoted_lem fence b (err e) w h = inr ((e, refl), (refl, refl, h))

-- A promotion by POST, with a token that is not negative, is decided by the write of that token
-- alone, whatever token the node has had: if the write succeeds the node is the admin, the answer is
-- 200 and the file holds the new token, and if it fails the request is refused. Any other request
-- is refused. A refusal leaves the role and the files as they were.
pub accept_promotion_lem :
    (m : Method) (body : Option ℤ) (b : Node)
    → ((fence : ℕ) × Promotes m body fence × Decided fence b (accept_promotion m body b))
      ⊎ (((fence : ℕ) → ¬ Promotes m body fence) × LeftAlone b (accept_promotion m body b))
unfolding accept_promotion
accept_promotion_lem method_post none b = inr ((λ f h. cc (h.1)), (refl, refl, refl))
accept_promotion_lem method_post (some (negsuc k)) b = inr ((λ f h. cc (h.1)), (refl, refl, refl))
accept_promotion_lem method_post (some (pos fence)) b =
    let (r, w) = atomic_write admin_fence_path (line_of (pos fence)) b.world in
    inl (
      fence,
      (refl, refl),
      promoted_lem fence b r w (atomic_write_lem admin_fence_path (line_of (pos fence)) b.world),
    )
accept_promotion_lem method_get body b = inr ((λ f h. cc (h.0)), (refl, refl, refl))
accept_promotion_lem method_put body b = inr ((λ f h. cc (h.0)), (refl, refl, refl))
accept_promotion_lem method_patch body b = inr ((λ f h. cc (h.0)), (refl, refl, refl))
accept_promotion_lem method_delete body b = inr ((λ f h. cc (h.0)), (refl, refl, refl))
accept_promotion_lem method_other body b = inr ((λ f h. cc (h.0)), (refl, refl, refl))
