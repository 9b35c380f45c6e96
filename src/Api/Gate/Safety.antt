-- ===== src/Api/Gate/Safety.antt =====
-- internal/api/admin.go: what a request needs to pass `requireAdminKey`.
use tailkitd.Prelude.{
  ◌≡◌, refl, ap, ◌∙◌, ◌≢◌, ◌⊎◌, inl, inr, true, false, Option, none, some, List, [], arith, ℤ,
  parse_int, lookup, Text, str_eq_iff, trim_space, Bool-cases, Option-cases,
}
use tailkitd.Os.{Outcome, World, read_file, os_laws, ok, err}
use tailkitd.State.Epoch.{Epoch, current, validate}
use tailkitd.State.Epoch.Laws.{validate_iff}
use tailkitd.Access.Registry.{Grant, allow, has_any_grants}
use tailkitd.Api.Http.{Request, Node, is_success, Response, Handler}
use tailkitd.Api.Gate.{
  admin_key_path, is_mutation_method, parse_caller_epoch, required_capability, Verdict,
  epoch_verdict, access_verdict, key_verdict, get_admin_key, judged, checked, finish,
  require_admin_key, orelse, settle,
}

-- The caller knows the key of this node.
abbrev pub KnowsKey : Request → World Text → Type 0
KnowsKey r w =
    (text : Text) × (lookup admin_key_path w.files ≡ some text) × (trim_space text ≡ r.admin_key)

-- A mutation names the current epoch, where the node keeps one.
abbrev pub NamesEpoch : Request → Option Epoch → Type 0
NamesEpoch r none = Unit
NamesEpoch r (some e) =
    is_mutation_method r.method ≡ true → parse_int r.state_epoch ≡ some (current e)

-- Where the node has any grants, the caller is known and may do what the path needs.
abbrev pub MayAct : Request → Option (List Grant) → Type 0
MayAct r none = Unit
MayAct r (some grants) =
    has_any_grants grants ≡ true
    → (login : Text) × (r.login ≡ some login)
      × (login ≢ [])
      × (((required_capability r.path).0 ≡ [])
          ⊎ (allow grants login (required_capability r.path).0 (required_capability r.path).1
              ≡ true))

pub record Authorized (r : Request) (n : Node) : Type 0 where
  pub knows_key : KnowsKey r n.world
  pub names_epoch : NamesEpoch r n.epoch
  pub may_act : MayAct r n.grants

get_admin_key_lem :
    (w : World Text) (k : Text)
    → (get_admin_key w).0 ≡ ok k
    → (text : Text) × (lookup admin_key_path w.files ≡ some text) × (trim_space text ≡ k)
unfolding get_admin_key read_file
get_admin_key_lem w k h = elim (Option-cases (lookup admin_key_path w.files)) [
  | inl e ↦ ground arith
  | inr (text, e) ↦ (text, e, ground arith)
]

get_admin_key-files : (w : World Text) → (get_admin_key w).1.files ≡ w.files
unfolding get_admin_key
get_admin_key-files w = grind (arith, os_laws)

key_verdict-none : (k : Outcome Text) (r : Request) → key_verdict k r ≡ none → k ≡ ok r.admin_key
unfolding key_verdict
key_verdict-none (err e) r h = cc
key_verdict-none (ok k) r h = ground (arith, str_eq_iff r.admin_key k)

ok_unit : (r : Outcome Unit) (e : Epoch) → judged e r ≡ none → r ≡ ok tt
ok_unit (ok u) e h = refl
ok_unit (err x) e h = cc

pub epoch_verdict-none :
    (e : Option Epoch) (r : Request) → epoch_verdict e r ≡ none → NamesEpoch r e
unfolding epoch_verdict parse_caller_epoch
epoch_verdict-none none r h = tt
epoch_verdict-none (some e) r h = λ m. elim (Option-cases (parse_int r.state_epoch)) [
  | inl p ↦ ground arith
  | inr (c, p) ↦
      let good : judged e (validate e c) ≡ none = ground arith in
      p ∙ ap some ((validate_iff e c).0 (ok_unit (validate e c) e good))
]

access_verdict-none :
    (g : Option (List Grant)) (r : Request) → access_verdict g r ≡ none → MayAct r g
unfolding access_verdict
access_verdict-none none r h = tt
access_verdict-none (some grants) r h = λ any. elim (Option-cases r.login) [
  | inl e ↦ ground arith
  | inr (login, e) ↦ (
    login,
    e,
    (λ empty. ground (arith, str_eq_iff login [])),
    ground (arith, str_eq_iff (required_capability r.path).0 []),
  )
]

-- No verdict is a success.
abbrev IsRefusal : Verdict → Type 0
IsRefusal none = Unit
IsRefusal (some resp) = is_success resp.status ≡ false

key_verdict-IsRefusal : (k : Outcome Text) (r : Request) → IsRefusal (key_verdict k r)
unfolding key_verdict
key_verdict-IsRefusal (err e) r = refl
key_verdict-IsRefusal (ok k) r = ground arith

judged-IsRefusal : (e : Epoch) (o : Outcome Unit) → IsRefusal (judged e o)
judged-IsRefusal e (ok u) = tt
judged-IsRefusal e (err x) = refl

checked-IsRefusal : (e : Epoch) (o : Outcome ℤ) → IsRefusal (checked e o)
checked-IsRefusal e (err x) = refl
checked-IsRefusal e (ok c) = judged-IsRefusal e (validate e c)

epoch_verdict-IsRefusal : (e : Option Epoch) (r : Request) → IsRefusal (epoch_verdict e r)
unfolding epoch_verdict
epoch_verdict-IsRefusal none r = tt
epoch_verdict-IsRefusal (some e) r = elim (Bool-cases (is_mutation_method r.method)) [
  | inl m ↦ rw m (checked-IsRefusal e (parse_caller_epoch r.state_epoch))
  | inr m ↦ rw m tt
]

access_verdict-IsRefusal : (g : Option (List Grant)) (r : Request) → IsRefusal (access_verdict g r)
unfolding access_verdict
access_verdict-IsRefusal none r = tt
access_verdict-IsRefusal (some grants) r = elim (Option-cases r.login) [
  | inl e ↦ rw e (ground arith)
  | inr (login, e) ↦ rw e (ground arith)
]

-- The node as it was, but for the faults that reading the key has met.
abbrev pub SameNode : Node → Node → Type 0
SameNode n m =
    (m.epoch ≡ n.epoch)
    × (m.grants ≡ n.grants)
    × (m.is_admin ≡ n.is_admin)
    × (m.world.files ≡ n.world.files)

abbrev pub Refused : Node → Response × Node → Type 0
Refused n (resp, m) = (is_success resp.status ≡ false) × SameNode n m

abbrev pub RunsOn : Handler → Request → Node → Response × Node → Type 0
RunsOn next r n out = (m : Node) × SameNode n m × (out ≡ finish r (next r m))

abbrev key_node : Node → Node
key_node n = record n { world = (get_admin_key n.world).1 }

settle_lem :
    (next : Handler) (r : Request) (n : Node) (v : Verdict)
    → IsRefusal v
    → (v ≡ none → Authorized r n)
    → Refused n (settle next r (key_node n) v)
      ⊎ (Authorized r n × RunsOn next r n (settle next r (key_node n) v))
settle_lem next r n none refusal auth =
    inr (auth refl, (key_node n, (refl, refl, refl, get_admin_key-files n.world), refl))
settle_lem next r n (some resp) refusal auth =
    inl (refusal, (refl, refl, refl, get_admin_key-files n.world))

orelse-IsRefusal : (v v' : Verdict) → IsRefusal v → IsRefusal v' → IsRefusal (orelse v v')
orelse-IsRefusal none v' h h' = h'
orelse-IsRefusal (some resp) v' h h' = h

pub orelse-none : (v v' : Verdict) → orelse v v' ≡ none → (v ≡ none) × (v' ≡ none)
orelse-none none v' h = (refl, h)
orelse-none (some resp) v' h = cc

verdicts-Authorized :
    (r : Request) (n : Node)
    → orelse
        (key_verdict (get_admin_key n.world).0 r)
        (orelse (epoch_verdict n.epoch r) (access_verdict n.grants r))
      ≡ none
    → Authorized r n
verdicts-Authorized r n h =
    let (k, rest) = orelse-none (key_verdict (get_admin_key n.world).0 r) _ h in
    let (e, a) = orelse-none (epoch_verdict n.epoch r) (access_verdict n.grants r) rest in
    record {
      knows_key =
          get_admin_key_lem n.world r.admin_key (key_verdict-none (get_admin_key n.world).0 r k);
      names_epoch = epoch_verdict-none n.epoch r e;
      may_act = access_verdict-none n.grants r a;
    }

-- Whatever handler stands behind the gate: either the request is refused, with a status that is no
-- success and the node as it was, or the caller knows the node's key, names the current epoch if
-- this is a mutation, and may do what the path needs if the node has grants; and then the handler
-- runs once, on the node as it was, and what it returns is what the gate finishes with.
pub require_admin_key_lem :
    (next : Handler) (r : Request) (n : Node)
    → Refused n (require_admin_key next r n)
      ⊎ (Authorized r n × RunsOn next r n (require_admin_key next r n))
unfolding require_admin_key
require_admin_key_lem next r n =
    settle_lem next r n
      (orelse (key_verdict (get_admin_key n.world).0 r)
        (orelse (epoch_verdict n.epoch r) (access_verdict n.grants r)))
      (orelse-IsRefusal (key_verdict (get_admin_key n.world).0 r)
        (orelse (epoch_verdict n.epoch r) (access_verdict n.grants r))
        (key_verdict-IsRefusal (get_admin_key n.world).0 r)
        (orelse-IsRefusal (epoch_verdict n.epoch r) (access_verdict n.grants r)
          (epoch_verdict-IsRefusal n.epoch r) (access_verdict-IsRefusal n.grants r)))
      (verdicts-Authorized r n)
