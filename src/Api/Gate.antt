-- ===== src/Api/Gate.antt =====
-- internal/api/admin.go: `requireAdminKey`, the gate before every admin handler but one.
pub mod Safety
pub mod Once
use tailkitd.Prelude.{
  Bool, true, false, ◌&&◌, not, Option, none, some, List, [], ◌∷◌, ℤ, parse_int, split, contains,
  Text, codes, str_eq, has_suffix, trim_space, cut_prefix, if◌then◌else◌,
}
use tailkitd.Os.{Outcome, Io, read_file, invalid, ok, err}
use tailkitd.State.Epoch.{Epoch, current, validate, increment}
use tailkitd.Access.Registry.{
  service_write, host_write, access_write, admin_transfer, star, Grant, allow, has_any_grants,
}
use tailkitd.Api.Http.{
  Method, Request, Response, reply, method_get, method_post, method_put, method_patch,
  method_delete, method_other, Node, Handler, is_success,
}

abbrev pub admin_key_path : Text
admin_key_path = codes "/etc/tailkitd/admin.key"

abbrev trimmed : Outcome Text → Outcome Text
trimmed (ok text) = ok (trim_space text)
trimmed (err e) = err e

-- `admin.GetAdminKey`
unfoldable pub get_admin_key : Io Text Text
get_admin_key w = let (r, w') = read_file admin_key_path w in (trimmed r, w')

unfoldable pub is_mutation_method : Method → Bool
is_mutation_method method_post = true
is_mutation_method method_put = true
is_mutation_method method_patch = true
is_mutation_method method_delete = true
is_mutation_method method_get = false
is_mutation_method method_other = false

abbrev parsed : Option ℤ → Outcome ℤ
parsed none = err invalid
parsed (some n) = ok n

unfoldable pub parse_caller_epoch : Text → Outcome ℤ
parse_caller_epoch raw = if str_eq raw [] then err invalid else parsed (parse_int raw)

trim_prefix_of : Text → Option Text → Text
trim_prefix_of s none = s
trim_prefix_of s (some rest) = rest

-- `strings.TrimPrefix`
unfoldable pub trim_prefix : Text → Text → Text
unfolding trim_prefix_of
trim_prefix s p = trim_prefix_of s (cut_prefix s p)

abbrev pub hosts_prefix : Text
hosts_prefix = codes "/admin/hosts/"

service_of : List Text → Text × Text
service_of (a ∷ b ∷ name ∷ parts) = (service_write, name)
service_of parts = ([], [])

unfoldable pub required_capability : Text → Text × Text
unfolding service_of
required_capability path =
    if str_eq path (codes "/admin/transfer")
    then (admin_transfer, star)
    else if str_eq path (codes "/admin/access/grants")
    then (access_write, star)
    else if str_eq path (codes "/admin/files/write")
    then (host_write, star)
    else if has_suffix path (codes "/config")
    then (host_write, star)
    else if contains path (codes "/services/")
    then service_of (split b'/' (trim_prefix path hosts_prefix))
    else ([], [])

-- The response that ends the request before the handler runs, if any.
abbrev pub Verdict : Type 0
Verdict = Option Response

abbrev judged : Epoch → Outcome Unit → Verdict
judged e (ok _) = none
judged e (err _) = some (record { status = 409; epoch = some (current e) })

abbrev checked : Epoch → Outcome ℤ → Verdict
checked e (err _) = some (reply 400)
checked e (ok caller) = judged e (validate e caller)

pub epoch_verdict : Option Epoch → Request → Verdict
epoch_verdict none r = none
epoch_verdict (some e) r =
    if is_mutation_method r.method then checked e (parse_caller_epoch r.state_epoch) else none

abbrev permitted : List Grant → Text → Text × Text → Verdict
permitted grants login (capability, target) =
    if not (str_eq capability []) && not (allow grants login capability target)
    then some (reply 403)
    else none

abbrev login_verdict : List Grant → Text → Option Text → Verdict
login_verdict grants path none = some (reply 403)
login_verdict grants path (some login) =
    if str_eq login [] then some (reply 403) else permitted grants login (required_capability path)

pub access_verdict : Option (List Grant) → Request → Verdict
access_verdict none r = none
access_verdict (some grants) r =
    if has_any_grants grants then login_verdict grants r.path r.login else none

unfoldable pub key_verdict : Outcome Text → Request → Verdict
key_verdict (err _) r = some (reply 403)
key_verdict (ok local_key) r = if str_eq r.admin_key local_key then none else some (reply 401)

abbrev pub orelse : Verdict → Verdict → Verdict
orelse (some resp) v = some resp
orelse none v = v

-- `Increment` once the handler is done. Its error is dropped. The response is on its way by then,
-- since `WriteJSON` and `WriteHeader` have sent the headers: to set X-State-Epoch now has no effect.
abbrev pub bump : Bool → Option Epoch → Node → Node
bump false e n = n
bump true none n = n
bump true (some e) n =
    let (e', _, w) = increment e n.world in record n { epoch = some e'; world = w }

pub finish : Request → Response × Node → Response × Node
finish r (resp, n) = (resp, bump (is_mutation_method r.method && is_success resp.status) n.epoch n)

abbrev settle : Handler → Request → Node → Verdict → Response × Node
settle next r n (some resp) = (resp, n)
settle next r n none = finish r (next r n)

-- The checks of `requireAdminKey` that come before the handler
unfoldable pub judge : Request → Node → Verdict × Node
unfolding key_verdict epoch_verdict access_verdict get_admin_key
judge r n =
    let (key, w) = get_admin_key n.world in
    (
      orelse (key_verdict key r) (orelse (epoch_verdict n.epoch r) (access_verdict n.grants r)),
      record n { world = w },
    )

-- `requireAdminKey`, for a request that runs alone: no lock is held from the checks to `Increment`, so
-- another request may take its steps between those of this one.
unfoldable pub require_admin_key : Handler → Handler
unfolding judge finish
require_admin_key next r n = let (verdict, n') = judge r n in settle next r n' verdict
