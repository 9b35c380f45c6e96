-- ===== src/Systemd/Units/Allow.antt =====
-- internal/systemd/systemd.go: what the list `allow` of the units has an effect on.
use tailkitd.Prelude.{
  ◌≡◌, refl, ap, ◌≢◌, inl, inr, Bool, Option, List, [], Dict, Text, str_eq, Bool-cases,
}
use tailkitd.Exec.Jobs.{JobStore}
use tailkitd.Systemd.Journal.{RawEntry}
use tailkitd.Systemd.Units.{
  Client, available, Answers, SystemdRequest, handle_unit_control, handle_units,
  handle_unit_inspect, handle_unit_file, follow_or_snapshot, handle_unit_journal,
  handle_system_journal, act, route_unit, Endpoint, to_available, to_config, to_units, to_unit,
  to_journal, serve_systemd, Action, inspect, unit_file, journal, unknown, controlled, enabled,
  unit_parts, action_of, guarded,
}

abbrev pub with_allow : Client → List Text → Client
with_allow c ops = record c { config = record c.config { units_allow = ops } }

-- The request enables or disables no unit, and does not ask for the configuration itself.
abbrev pub IsOther : Endpoint → SystemdRequest → Type 0
IsOther to_config r = ⊥
IsOther to_unit r = (b : Bool) → action_of (unit_parts r.path).1 ≢ enabled b
IsOther to_available r = Unit
IsOther to_units r = Unit
IsOther to_journal r = Unit

module _ (decode : Text → Option RawEntry) (fields_of : Text → Dict Text) (a : Answers) (c : Client)
    (ops : List Text) where
  act-with_allow :
      (action : Action) (r : SystemdRequest) (unit : Text) (s : JobStore)
      → ((b : Bool) → action ≢ enabled b)
      → act decode fields_of a (with_allow c ops) action r unit s
        ≡ act decode fields_of a c action r unit s
  unfolding handle_unit_control handle_unit_inspect handle_unit_file handle_unit_journal
      follow_or_snapshot
  act-with_allow inspect r unit s other = refl
  act-with_allow unit_file r unit s other = refl
  act-with_allow (controlled verb) r unit s other = refl
  act-with_allow (enabled enable) r unit s other = absurd (other enable refl)
  act-with_allow journal r unit s other = refl
  act-with_allow unknown r unit s other = refl

  route_unit-with_allow :
      (r : SystemdRequest) (s : JobStore)
      → ((b : Bool) → action_of (unit_parts r.path).1 ≢ enabled b)
      → route_unit decode fields_of a (with_allow c ops) r s ≡ route_unit decode fields_of a c r s
  unfolding route_unit
  route_unit-with_allow r s other = elim (Bool-cases (str_eq (unit_parts r.path).0 [])) [
    | inl e ↦ rw e refl
    | inr e ↦
        rw e (act-with_allow (action_of (unit_parts r.path).1) r (unit_parts r.path).0 s other)
  ]

  -- Only a request that enables or disables a unit, or asks for the configuration, is answered in
  -- another way when the list `allow` of the units is another: what it says of the other operations
  -- has no effect.
  pub serve_systemd-with_allow :
      (endpoint : Endpoint) (r : SystemdRequest) (s : JobStore)
      → IsOther endpoint r
      → serve_systemd decode fields_of a (with_allow c ops) endpoint r s
        ≡ serve_systemd decode fields_of a c endpoint r s
  unfolding serve_systemd available handle_units handle_system_journal follow_or_snapshot
  serve_systemd-with_allow to_available r s other = refl
  serve_systemd-with_allow to_config r s other = absurd other
  serve_systemd-with_allow to_units r s other = refl
  serve_systemd-with_allow to_unit r s other =
      ap (λ t. guarded decode fields_of a c t s) (route_unit-with_allow r s other)
  serve_systemd-with_allow to_journal r s other = refl
