-- ===== src/Admin/Election.antt =====
-- internal/admin/bootstrap.go: which node takes the admin role when the daemon starts.
pub mod Laws
use mathlib.Core.List.{reverse}
use tailkitd.Prelude.{
  ℕ, Bool, true, false, ◌&&◌, ◌||◌, not, Option, none, some, List, [], ◌∷◌, ◌++◌, map, is_first,
  sort, Text, codes, str_eq, str_lt, to_lower, leb, ◌==◌, if◌then◌else◌,
}

-- `daemonHostnameForTailnetPeer`, on ASCII
daemon_byte : ℕ → ℕ
daemon_byte c =
    if (leb b'a' c && leb c b'z') || ((leb b'0' c && leb c b'9') || (c == b'-')) then c else b'-'

trim_dashes : Text → Text
trim_dashes [] = []
trim_dashes (c ∷ s) = let rest = trim_dashes s in if c == b'-' then rest else c ∷ s

unfoldable pub daemon_hostname : Text → Text
unfolding daemon_byte trim_dashes
daemon_hostname hostname =
    codes "tailkitd-"
    ++ reverse (trim_dashes (reverse (trim_dashes (map daemon_byte (to_lower hostname)))))

is_defined : List Text → Text → Bool
is_defined [] name = false
is_defined (d ∷ ds) name = str_eq d name || is_defined ds name

-- The peers of a status, with `none` for a nil pointer.
peer_names : Text → List Text → List (Option Text) → List Text
peer_names self defined [] = []
peer_names self defined (none ∷ peers) = peer_names self defined peers
peer_names self defined (some name ∷ peers) =
    let rest = peer_names self defined peers in
    if str_eq name [] || str_eq name self
    then rest
    else if not (is_defined defined name)
    then rest
    else daemon_hostname name ∷ rest

-- `PeerHostnames`; the status is `none` for a nil pointer.
unfoldable pub peer_hostnames : Option (List (Option Text)) → Text → List Text → List Text
unfolding peer_names is_defined
peer_hostnames none self defined = []
peer_hostnames (some peers) self defined = sort str_lt (peer_names self defined peers)

abbrev pub elect : Text → List Text → Bool
elect self peers = is_first self (sort str_lt (self ∷ peers))

-- `IsPeerAdmin` answers, or `none` for an error.
module _ (probe : Text → Option Bool) where
  abbrev pub says_admin : Option Bool → Bool
  says_admin none = false
  says_admin (some is_admin) = is_admin

  determine_loop : Bool → List Text → Bool
  determine_loop elected [] = elected
  determine_loop elected (peer ∷ peers) =
      let rest = determine_loop elected peers in if says_admin (probe peer) then false else rest

  -- `DetermineIsAdmin`
  unfoldable pub determine_is_admin : Text → List Text → Bool
  unfolding determine_loop
  determine_is_admin self [] = true
  determine_is_admin self (peer ∷ peers) = determine_loop (elect self (peer ∷ peers)) (peer ∷ peers)

  found_remote_admin : List Text → Bool
  found_remote_admin [] = false
  found_remote_admin (peer ∷ peers) =
      let rest = found_remote_admin peers in if says_admin (probe peer) then true else rest

  -- The election of `BootstrapState`
  unfoldable pub bootstrap_election : Text → List Text → Bool
  unfolding found_remote_admin
  bootstrap_election self [] = true
  bootstrap_election self (peer ∷ peers) =
      if found_remote_admin (peer ∷ peers) then false else elect self (peer ∷ peers)
