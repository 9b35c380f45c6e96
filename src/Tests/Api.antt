-- ===== src/Tests/Api.antt =====
-- Runs of internal/api/admin.go.
use tailkitd.Prelude.{
  ℕ, ◌≡◌, refl, ◌≢◌, ◌⊎◌, true, false, not, none, some, [], ◌∷◌, ℤ, ltb_ℤ, inc64, parse_int, pos,
  lookup, Text, codes, str_eq, has_suffix, to_lower, trim_space,
}
use tailkitd.Os.{Outcome, World, read_file, io_fault, ok, err}
use tailkitd.State.Epoch.{Epoch, validate}
use tailkitd.Access.Registry.{Grant, role_for, role_permits, allow, has_any_grants}
use tailkitd.Api.Http.{Node, Request, reply, Handler, is_success, method_post, Response}
use tailkitd.Api.Gate.{
  require_admin_key, judge, finish, is_mutation_method, parse_caller_epoch, required_capability,
}
use tailkitd.Api.Gate.Safety.{require_admin_key_lem, Authorized, Refused, RunsOn}
use tailkitd.Api.Gate.Once.{require_admin_key_once}
use tailkitd.Api.Transfer.{get_fence_token, accept_promotion}
use tailkitd.Api.Transfer.Promotion.{accept_promotion_lem, Promotes, Decided, LeftAlone}
use tailkitd.Api.Transfer.Handover.{
  handover, sender_after, peer_after, peer_of, handover-reply_lost, delivered, reply_lost,
}

abbrev disk : World Text
disk = record {
  files =
      (codes "/etc/tailkitd/admin.key", codes "k\n")
      ∷ (codes "/etc/tailkitd/admin.fence", codes "7\n")
      ∷ [];
  temp = none;
  faults = [];
}

abbrev epoch : Epoch
epoch = record { path = codes "/e"; value = pos 3 }

abbrev ann_all : Grant
ann_all = record { identity = codes "ann"; target = codes "*"; role = codes "superadmin" }

abbrev node : Node
node = record { epoch = some epoch; grants = some (ann_all ∷ []); is_admin = true; world = disk }

abbrev request : Request
request = record {
  method = method_post;
  path = codes "/admin/hosts/me/config";
  admin_key = codes "k";
  state_epoch = codes "3";
  login = some (codes "ann");
}

abbrev next : Handler
next r n = (reply 200, n)

let_through : (require_admin_key next request node).0.status ≡ 200
unfolding require_admin_key read_file lookup str_eq trim_space parse_caller_epoch parse_int validate
    ltb_ℤ required_capability is_mutation_method has_suffix allow role_for role_permits to_lower
    has_any_grants
let_through = refl

wrong_key : (require_admin_key next (record request { admin_key = codes "x" }) node).0.status ≡ 401
unfolding require_admin_key read_file lookup str_eq trim_space
wrong_key = refl

stale : (require_admin_key next (record request { state_epoch = codes "2" }) node).0.status ≡ 409
unfolding require_admin_key read_file lookup str_eq trim_space parse_caller_epoch parse_int validate
    ltb_ℤ is_mutation_method
stale = refl

require_admin_key_lem_example :
    Refused node (require_admin_key next request node)
    ⊎ (Authorized request node × RunsOn next request node (require_admin_key next request node))
require_admin_key_lem_example = require_admin_key_lem next request node

passes : (judge request node).0 ≡ none
unfolding judge read_file lookup str_eq trim_space parse_caller_epoch parse_int validate ltb_ℤ
    required_capability is_mutation_method has_suffix allow role_for role_permits to_lower
    has_any_grants
passes = refl

both_pass : (judge request (judge request node).1).0 ≡ none
unfolding judge read_file
both_pass = passes

abbrev first : Response × Node
first = next request (judge request (judge request node).1).1

abbrev second : Response × Node
second = next request first.1

abbrev later : Node
later = (finish request first).1

require_admin_key_once_example :
    let both = finish request (second.0, (finish request (first.0, second.1)).1) in
    ((judge request later).0 ≢ none)
    × (is_success both.0.status ≡ true)
    × (both.1.epoch ≡ some (record epoch { value = inc64 (inc64 (pos 3)) }))
unfolding is_mutation_method
require_admin_key_once_example =
    require_admin_key_once next next request request node later epoch (λ r n. refl) (λ r n. refl)
      refl refl refl refl passes both_pass refl refl refl

accept_promotion_lem_example :
    ((fence : ℕ) × Promotes method_post (some (pos 2)) fence
      × Decided fence node (accept_promotion method_post (some (pos 2)) node))
    ⊎ (((fence : ℕ) → ¬ Promotes method_post (some (pos 2)) fence)
        × LeftAlone node (accept_promotion method_post (some (pos 2)) node))
accept_promotion_lem_example = accept_promotion_lem method_post (some (pos 2)) node

abbrev refusing : Text → ℤ → Outcome Unit
refusing host fence = err io_fault

abbrev peer : Node
peer = record node { is_admin = false }

token : (get_fence_token disk).0 ≡ ok (pos 7)
unfolding get_fence_token read_file lookup str_eq trim_space parse_int
token = refl

handover_example :
    ((delivered ≢ reply_lost)
      × ((sender_after delivered (codes "b") node peer).is_admin
          ≡ not (peer_of delivered (codes "b") (get_fence_token node.world).0 node peer).is_admin))
    ⊎ ((delivered ≡ reply_lost) × ((sender_after delivered (codes "b") node peer).is_admin ≡ true))
handover_example = handover delivered (codes "b") node peer refl refl

eight : inc64 (pos 7) ≡ pos 8
unfolding inc64
eight = refl

named : str_eq (codes "b") [] ≡ false
unfolding str_eq
named = refl

handover-reply_lost_example :
    ((sender_after reply_lost (codes "b") node peer).is_admin ≡ true)
    × ((peer_after reply_lost (codes "b") (pos 7) node peer).is_admin ≡ true)
handover-reply_lost_example =
    handover-reply_lost (codes "b") 7 node peer named refl token eight refl refl
