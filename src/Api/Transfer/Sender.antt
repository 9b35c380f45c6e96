-- ===== src/Api/Transfer/Sender.antt =====
-- internal/api/admin.go: what `transferAdmin` leaves on the node that gives the role away.
use tailkitd.Prelude.{
  ◌≡◌, refl, ap, ◌∙◌, ◌⊎◌, inl, inr, Bool, true, false, not, Option, none, some, [], arith, ℤ,
  inc64, Dict, insert, Text, str_eq, if◌then◌else◌, Bool-cases,
}
use tailkitd.Os.{Outcome, World, os_laws, ok, err}
use tailkitd.Os.Atomic.{Written, atomic_write, atomic_write_lem}
use tailkitd.State.Epoch.{line_of}
use tailkitd.Api.Http.{
  Node, Method, Response, reply, method_get, method_post, method_put, method_patch, method_delete,
  method_other,
}
use tailkitd.Api.Transfer.{
  transfer_admin, admin_fence_path, get_fence_token, at, conclude, after_write, after_fence,
  transfer_to, with_target,
}
use tailkitd.Api.Transfer.Promotion.{LeftAlone}

abbrev pub TransferredTo : (Text → ℤ → Outcome Unit) → Option Text → Node → Response × Node → Type 0
TransferredTo promote body n (resp, m) =
    (resp.status ≡ 200)
    × (n.is_admin ≡ true)
    × (m.is_admin ≡ false)
    × ((host : Text) × (fence : ℤ) × (body ≡ some host)
        × ((get_fence_token n.world).0 ≡ ok fence)
        × (promote host (inc64 fence) ≡ ok tt)
        × (m.world.files ≡ insert admin_fence_path (line_of (inc64 fence)) n.world.files))

abbrev pub RolledBack : Node → Response × Node → Type 0
RolledBack n (resp, m) =
    (resp.status ≡ 409)
    × (m.is_admin ≡ true)
    × ((fence : ℤ) × ((get_fence_token n.world).0 ≡ ok fence)
        × ((m.world.files ≡ insert admin_fence_path (line_of (inc64 fence)) n.world.files)
            ⊎ (m.world.files
                ≡ insert admin_fence_path (line_of fence)
                    (insert admin_fence_path (line_of (inc64 fence)) n.world.files))))

get_fence_token-files : (w : World Text) → (get_fence_token w).1.files ≡ w.files
unfolding get_fence_token
get_fence_token-files w = grind (arith, os_laws)

abbrev pub Result : (Text → ℤ → Outcome Unit) → Option Text → Node → Response × Node → Type 0
Result promote body n out = TransferredTo promote body n out ⊎ (RolledBack n out ⊎ LeftAlone n out)

rolled_back :
    (before after : Dict Text) (fence : ℤ) (r : Outcome Unit) (files : Dict Text)
    → files ≡ insert admin_fence_path (line_of (inc64 fence)) before
    → Written admin_fence_path (line_of fence) r files after
    → (after ≡ insert admin_fence_path (line_of (inc64 fence)) before)
      ⊎ (after
          ≡ insert admin_fence_path
              (line_of fence)
              (insert admin_fence_path (line_of (inc64 fence)) before))
rolled_back before after fence (ok u) files e h =
    inr (h ∙ ap (insert admin_fence_path (line_of fence)) e)
rolled_back before after fence (err x) files e h = inl (h ∙ e)

conclude_lem :
    (promote : Text → ℤ → Outcome Unit) (host : Text) (n : Node) (fence : ℤ) (w : World Text)
    (r : Outcome Unit)
    → n.is_admin ≡ true
    → (get_fence_token n.world).0 ≡ ok fence
    → promote host (inc64 fence) ≡ r
    → w.files ≡ insert admin_fence_path (line_of (inc64 fence)) n.world.files
    → Result promote (some host) n (conclude r fence (at n w))
unfolding conclude
conclude_lem promote host n fence w (ok u) admin known answered files =
    inl (refl, admin, refl, (host, fence, refl, known, answered, files))
conclude_lem promote host n fence w (err e) admin known answered files = inr (
    inl (
      refl,
      admin,
      (
        fence,
        known,
        rolled_back n.world.files _ fence (atomic_write admin_fence_path (line_of fence) w).0
            w.files files (atomic_write_lem admin_fence_path (line_of fence) w),
      ),
    ))

after_write_lem :
    (promote : Text → ℤ → Outcome Unit) (host : Text) (n : Node) (fence : ℤ) (w : World Text)
    (r : Outcome Unit)
    → n.is_admin ≡ true
    → (get_fence_token n.world).0 ≡ ok fence
    → Written admin_fence_path (line_of (inc64 fence)) r n.world.files w.files
    → Result promote (some host) n (after_write (promote host) fence r (at n w))
after_write_lem promote host n fence w (err e) admin known files = inr (inr (refl, refl, files))
after_write_lem promote host n fence w (ok u) admin known files =
    conclude_lem promote host n fence w (promote host (inc64 fence)) admin known refl files

after_fence_lem :
    (promote : Text → ℤ → Outcome Unit) (host : Text) (n : Node) (w : World Text) (r : Outcome ℤ)
    → n.is_admin ≡ true
    → (get_fence_token n.world).0 ≡ r
    → w.files ≡ n.world.files
    → Result promote (some host) n (after_fence (promote host) r (at n w))
after_fence_lem promote host n w (err e) admin known files = inr (inr (refl, refl, files))
after_fence_lem promote host n w (ok fence) admin known files =
    let (r, w') = atomic_write admin_fence_path (line_of (inc64 fence)) w in
    after_write_lem promote host n fence w' r admin known
      (rw (← files) (atomic_write_lem admin_fence_path (line_of (inc64 fence)) w))

with_target_lem :
    (promote : Text → ℤ → Outcome Unit) (body : Option Text) (n : Node)
    → n.is_admin ≡ true
    → Result promote body n (with_target promote body n)
unfolding transfer_to
with_target_lem promote none n admin = inr (inr (refl, refl, refl))
with_target_lem promote (some host) n admin = elim (Bool-cases (str_eq host [])) [
  | inl e ↦ rw e (inr (inr (refl, refl, refl)))
  | inr e ↦ rw e (
      after_fence_lem promote host n (get_fence_token n.world).1 (get_fence_token n.world).0 admin
        refl (get_fence_token-files n.world))
]

if_admin :
    (promote : Text → ℤ → Outcome Unit) (body : Option Text) (n : Node) (held : Bool)
    → n.is_admin ≡ held
    → Result promote body n (if not held then (reply 403, n) else with_target promote body n)
if_admin promote body n true e = with_target_lem promote body n e
if_admin promote body n false e = inr (inr (refl, refl, refl))

-- Whatever the peer answers: either the role is given away, which only an admin can do, with the
-- fence token raised by one on disk and the peer's consent to that token; or the peer has refused,
-- the node stays the admin, and the old token is written back unless that write fails too; or the
-- request fails before the peer is asked, and the role and the files are as they were.
pub transfer_admin_lem :
    (promote : Text → ℤ → Outcome Unit) (m : Method) (body : Option Text) (n : Node)
    → Result promote body n (transfer_admin promote m body n)
unfolding transfer_admin
transfer_admin_lem promote method_post body n = if_admin promote body n n.is_admin refl
transfer_admin_lem promote method_get body n = inr (inr (refl, refl, refl))
transfer_admin_lem promote method_put body n = inr (inr (refl, refl, refl))
transfer_admin_lem promote method_patch body n = inr (inr (refl, refl, refl))
transfer_admin_lem promote method_delete body n = inr (inr (refl, refl, refl))
transfer_admin_lem promote method_other body n = inr (inr (refl, refl, refl))
