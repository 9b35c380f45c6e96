-- ===== src/Api/Gate/Once.antt =====
-- internal/api/admin.go: the epoch lets one mutation through.
use tailkitd.Prelude.{
  zero, suc, ◌≡◌, refl, ap, ◌∙◌, ◌≢◌, true, none, some, arith, ℤ, inc64, parse_int, pos, negsuc,
}
use tailkitd.State.Epoch.{Epoch, current}
use tailkitd.State.Epoch.Laws.{increment_lem}
use tailkitd.Api.Http.{Request, Node, Handler, is_success, Response}
use tailkitd.Api.Gate.{
  is_mutation_method, finish, judge, get_admin_key, epoch_verdict, access_verdict, key_verdict,
  orelse,
}
use tailkitd.Api.Gate.Safety.{orelse-none, epoch_verdict-none, NamesEpoch}

inc64_ne : (n : ℤ) → inc64 n ≢ n
unfolding inc64
inc64_ne (pos n) h = ground arith
inc64_ne (negsuc zero) h = cc
inc64_ne (negsuc (suc n)) h = ground arith

-- The handlers do not touch the epoch.
abbrev pub LeavesEpoch : Handler → Type 0
LeavesEpoch next = (r : Request) (n : Node) → (next r n).1.epoch ≡ n.epoch

finish-epoch :
    (r : Request) (o : Response × Node) (e : Epoch)
    → o.1.epoch ≡ some e
    → is_mutation_method r.method ≡ true
    → is_success (finish r o).0.status ≡ true
    → (finish r o).1.epoch ≡ some (record e { value = inc64 e.value })
unfolding finish
finish-epoch r o e has m s = ground (arith, (increment_lem e o.1.world).0)

judge-NamesEpoch :
    (r : Request) (n : Node) (e : Epoch)
    → n.epoch ≡ some e
    → is_mutation_method r.method ≡ true
    → (judge r n).0 ≡ none
    → parse_int r.state_epoch ≡ some (current e)
unfolding judge
judge-NamesEpoch r n e has m passed =
    let key = key_verdict (get_admin_key n.world).0 r in
    let epoch = epoch_verdict n.epoch r in
    let access = access_verdict n.grants r in
    let (_, rest) = orelse-none key (orelse epoch access) passed in
    let (met, _) = orelse-none epoch access rest in
    let named : NamesEpoch r n.epoch = epoch_verdict-none n.epoch r met in
    let at : NamesEpoch r (some e) = rw has at named in at m

judge-epoch : (r : Request) (n : Node) → (judge r n).1.epoch ≡ n.epoch
unfolding judge
judge-epoch r n = refl

-- Two mutations that name the same epoch, both of which pass the checks while it is current. One that
-- is judged once the other has ended with success is refused, as long as the node's epoch stands
-- where that one has left it. But nothing keeps a second request from being judged while the first
-- is under way: then both run, both are answered with success, and the epoch is raised twice.
pub require_admin_key_once :
    (next next' : Handler) (r r' : Request) (n m : Node) (e : Epoch)
    → LeavesEpoch next
    → LeavesEpoch next'
    → n.epoch ≡ some e
    → is_mutation_method r.method ≡ true
    → is_mutation_method r'.method ≡ true
    → r'.state_epoch ≡ r.state_epoch
    → (judge r n).0 ≡ none
    → let v : Node = (judge r' (judge r n).1).1 in
      let first : Response × Node = next r v in
      let second : Response × Node = next' r' first.1 in
      (judge r' (judge r n).1).0 ≡ none
      → is_success first.0.status ≡ true
      → is_success second.0.status ≡ true
      → m.epoch ≡ (finish r first).1.epoch
      → let both = finish r' (second.0, (finish r (first.0, second.1)).1) in
        ((judge r' m).0 ≢ none)
        × (is_success both.0.status ≡ true)
        × (both.1.epoch ≡ some (record e { value = inc64 (inc64 e.value) }))
unfolding current finish
require_admin_key_once next next' r r' n m e leaves leaves' has mu mu' same p p' s s' stands =
    let e' : Epoch = record e { value = inc64 e.value } in
    let v : Node = (judge r' (judge r n).1).1 in
    let first : Response × Node = next r v in
    let second : Response × Node = next' r' first.1 in
    let at_v : v.epoch ≡ some e = judge-epoch r' (judge r n).1 ∙ judge-epoch r n ∙ has in
    let at_first : first.1.epoch ≡ some e = leaves r v ∙ at_v in
    let at_second : second.1.epoch ≡ some e = leaves' r' first.1 ∙ at_first in
    let named : parse_int r.state_epoch ≡ some e.value = judge-NamesEpoch r n e has mu p in
    let raised = finish-epoch r first e at_first mu s in
    let once = finish-epoch r (first.0, second.1) e at_second mu s in
    let twice = finish-epoch r' (second.0, (finish r (first.0, second.1)).1) e' once mu' s' in
    (
      (λ passed.
          let again : parse_int r'.state_epoch ≡ some (inc64 e.value) =
            judge-NamesEpoch r' m e' (stands ∙ raised) mu' passed in
          absurd (inc64_ne e.value (ground (arith, named, again, ap parse_int same)))),
      s',
      twice,
    )
