-- ===== src/Admin/Election/Laws.antt =====
-- internal/admin/bootstrap.go: who is elected.
use tailkitd.Prelude.{
  ◌≡◌, refl, sym, ◌↔◌, inl, inr, Bool, true, false, Option, List, [], ◌∷◌, IsLeast, str_lt_total,
  is_first-sort, IsLeast-exists, Occurs, All, All_at, All-within, Text, str_lt, if◌then◌else◌,
  Bool-cases,
}
use tailkitd.Admin.Election.{
  bootstrap_election, elect, says_admin, determine_is_admin, determine_loop, found_remote_admin,
}

module _ (probe : Text → Option Bool) where
  determine_loop_lem :
      (elected : Bool) (peers : List Text)
      → determine_loop probe elected peers
        ≡ (if found_remote_admin probe peers then false else elected)
  unfolding determine_loop found_remote_admin
  determine_loop_lem elected [] = refl
  determine_loop_lem elected (peer ∷ peers) = elim (Bool-cases (says_admin probe (probe peer))) [
    | inl h ↦ rw h refl
    | inr h ↦ rw h (determine_loop_lem elected peers)
  ]

  -- The election that `BootstrapState` carries out itself is that of `DetermineIsAdmin`.
  pub bootstrap_election-determine_is_admin :
      (self : Text) (peers : List Text)
      → bootstrap_election probe self peers ≡ determine_is_admin probe self peers
  unfolding bootstrap_election determine_is_admin
  bootstrap_election-determine_is_admin self [] = refl
  bootstrap_election-determine_is_admin self (peer ∷ peers) =
      sym (determine_loop_lem (elect self (peer ∷ peers)) (peer ∷ peers))

  -- No peer that answers says that it is the admin.
  abbrev pub NoAdmin : List Text → Type 0
  NoAdmin peers = All (λ p. says_admin probe (probe p) ≡ false) peers

  found_remote_admin-NoAdmin :
      (peers : List Text) → (found_remote_admin probe peers ≡ false) ↔ NoAdmin peers
  unfolding found_remote_admin
  found_remote_admin-NoAdmin [] = (λ h. tt, λ h. refl)
  found_remote_admin-NoAdmin (peer ∷ peers) = elim (Bool-cases (says_admin probe (probe peer))) [
    | inl h ↦ rw h ((λ e. cc e), (λ e. cc (e.0)))
    | inr h ↦ rw h (
      (λ e. (refl, (found_remote_admin-NoAdmin peers).0 e)),
      (λ e. (found_remote_admin-NoAdmin peers).1 e.1),
    )
  ]

  -- A node takes the role exactly if no peer that answers says it has it and no peer's name comes
  -- before its own.
  pub bootstrap_election_iff :
      (self : Text) (peers : List Text)
      → (bootstrap_election probe self peers ≡ true) ↔ (NoAdmin peers × IsLeast self peers)
  unfolding bootstrap_election
  bootstrap_election_iff self [] = ((λ h. (tt, tt)), (λ h. refl))
  bootstrap_election_iff self (peer ∷ peers) =
      elim (Bool-cases (found_remote_admin probe (peer ∷ peers))) [
        | inl h ↦
            rw h ((λ e. cc e), (λ e. cc (h, (found_remote_admin-NoAdmin (peer ∷ peers)).1 e.0)))
        | inr h ↦ rw h (
          (λ e. (
            (found_remote_admin-NoAdmin (peer ∷ peers)).0 h,
            (is_first-sort self (peer ∷ peers)).0 e,
          )),
          (λ e. (is_first-sort self (peer ∷ peers)).1 e.1),
        )
      ]

-- Two nodes that see each other do not both take the role, whatever their probes have answered and
-- whatever other peers they see.
pub bootstrap_election_unique :
    (probe probe' : Text → Option Bool) (self self' : Text) (peers peers' : List Text)
    → Occurs self' peers
    → Occurs self peers'
    → bootstrap_election probe self peers ≡ true
    → bootstrap_election probe' self' peers' ≡ true
    → self ≡ self'
bootstrap_election_unique probe probe' self self' peers peers' sees sees' h h' =
    str_lt_total self self'
      (All_at (λ y. str_lt y self' ≡ false) self peers'
        ((bootstrap_election_iff probe' self' peers').0 h').1 sees')
      (All_at (λ y. str_lt y self ≡ false) self' peers
        ((bootstrap_election_iff probe self peers).0 h).1 sees)

-- Where no node has the role, some node takes it: the one whose name comes first, whichever of the
-- others it sees.
pub bootstrap_election_exists :
    (probe : Text → Option Bool) (node : Text) (nodes : List Text)
    → NoAdmin probe (node ∷ nodes)
    → (self : Text) × Occurs self (node ∷ nodes)
      × ((peers : List Text)
          → ((p : Text) → Occurs p peers → Occurs p (node ∷ nodes))
          → bootstrap_election probe self peers ≡ true)
bootstrap_election_exists probe node nodes nobody =
    let (self, here, least) = IsLeast-exists node nodes in
    (
      self,
      here,
      λ peers inside. (bootstrap_election_iff probe self peers).1 (
        All-within (λ p. says_admin probe (probe p) ≡ false) peers (node ∷ nodes) inside nobody,
        All-within (λ y. str_lt y self ≡ false) peers (node ∷ nodes) inside least,
      ),
    )
