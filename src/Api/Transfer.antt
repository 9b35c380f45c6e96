-- ===== src/Api/Transfer.antt =====
-- internal/api/admin.go: `transferAdmin` and `acceptPromotion`, which hand the admin role from one
-- node to another, and `GetFenceToken` of internal/admin/bootstrap.go.
pub mod Promotion
pub mod Handover
pub mod Sender
use tailkitd.Prelude.{
  Bool, true, false, not, Option, none, some, [], ℤ, inc64, parse_int, pos, negsuc, Text, codes,
  str_eq, trim_space, if◌then◌else◌,
}
use tailkitd.Os.{Outcome, World, Io, read_file, malformed, ok, err}
use tailkitd.Os.Atomic.{atomic_write}
use tailkitd.State.Epoch.{line_of}
use tailkitd.Api.Http.{Method, method_post, Response, reply, Node}

abbrev pub admin_fence_path : Text
admin_fence_path = codes "/etc/tailkitd/admin.fence"

abbrev or_bad : Option ℤ → Outcome ℤ
or_bad none = err malformed
or_bad (some n) = ok n

abbrev fence_of : Outcome Text → Outcome ℤ
fence_of (err e) = err e
fence_of (ok text) = or_bad (parse_int (trim_space text))

-- `admin.GetFenceToken`
unfoldable pub get_fence_token : Io Text ℤ
get_fence_token w = let (r, w') = read_file admin_fence_path w in (fence_of r, w')

abbrev pub at : Node → World Text → Node
at n w = record n { world = w }

-- Once the peer has answered. A rollback that fails is only logged.
conclude : Outcome Unit → ℤ → Node → Response × Node
conclude (ok _) fence n = (reply 200, record n { is_admin = false })
conclude (err _) fence n =
    (reply 409, at n (atomic_write admin_fence_path (line_of fence) n.world).1)

abbrev after_write : (ℤ → Outcome Unit) → ℤ → Outcome Unit → Node → Response × Node
after_write promote fence (err _) n = (reply 500, n)
after_write promote fence (ok _) n = conclude (promote (inc64 fence)) fence n

abbrev after_fence : (ℤ → Outcome Unit) → Outcome ℤ → Node → Response × Node
after_fence promote (err _) n = (reply 500, n)
after_fence promote (ok fence) n =
    let (written, w) = atomic_write admin_fence_path (line_of (inc64 fence)) n.world in
    after_write promote fence written (at n w)

-- With a target: `promote` is what `Promoter.Promote` of that host answers to the new fence token.
transfer_to : (ℤ → Outcome Unit) → Node → Response × Node
transfer_to promote n =
    let (fence, w) = get_fence_token n.world in after_fence promote fence (at n w)

abbrev is_post : Method → Bool
is_post method_post = true
is_post _ = false

abbrev with_target : (Text → ℤ → Outcome Unit) → Option Text → Node → Response × Node
with_target promote none n = (reply 400, n)
with_target promote (some host) n =
    if str_eq host [] then (reply 400, n) else transfer_to (promote host) n

-- `transferAdmin`; the body is its `target_host`, or `none` if it is no such JSON.
unfoldable pub transfer_admin :
    (Text → ℤ → Outcome Unit) → Method → Option Text → Node → Response × Node
unfolding transfer_to conclude
transfer_admin promote m body n =
    if not (is_post m)
    then (reply 405, n)
    else if not n.is_admin
    then (reply 403, n)
    else with_target promote body n

abbrev promoted : Outcome Unit → Node → Response × Node
promoted (err _) n = (reply 500, n)
promoted (ok _) n = (reply 200, record n { is_admin = true })

abbrev accept_fence : Option ℤ → Node → Response × Node
accept_fence none n = (reply 400, n)
accept_fence (some (negsuc k)) n = (reply 400, n)
accept_fence (some (pos k)) n =
    let (written, w) = atomic_write admin_fence_path (line_of (pos k)) n.world in
    promoted written (at n w)

-- `acceptPromotion`; the body is its `new_fence`.
unfoldable pub accept_promotion : Method → Option ℤ → Node → Response × Node
accept_promotion m body n = if not (is_post m) then (reply 405, n) else accept_fence body n
