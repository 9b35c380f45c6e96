-- ===== src/Systemd/Units/Guarded/Served.antt =====
-- internal/systemd/systemd.go: what a request may do, whichever handler it reaches.
use tailkitd.Prelude.{
  ◌≡◌, refl, ap, ◌⊎◌, inl, inr, true, false, not, Option, none, some, List, [], ◌∷◌, ℤ, ltb_ℤ,
  print_int, parse_int, pos, Dict, Text, codes, str_eq, if◌then◌else◌, Bool-cases,
}
use tailkitd.Os.{Outcome, World, ok, err}
use tailkitd.Config.Loading.{is_known}
use tailkitd.Config.Integrations.{
  load_systemd_config, no_systemd, journal_priorities, SystemdConfig,
}
use tailkitd.Config.Integrations.Limits.{load_systemd_config_lem}
use tailkitd.Exec.Jobs.{JobStore}
use tailkitd.Systemd.Journal.{
  selection, RawEntry, JournalEntry, if_positive, parse_lines, read_args, follow_args,
}
use tailkitd.Systemd.Units.Guarded.{
  Selects, method_of_is_get, handle_unit_control-Fair, handle_unit_enable-Fair, require,
  handle_units-Fair, handle_unit_inspect-Fair, handle_unit_file-Fair, Fair, is_job, JournalAllowed,
}
use tailkitd.Systemd.Units.{
  Client, ran, followed, SystemdRequest, refused, entries_or_error, is_available, is_get, Turn,
  Answers, available, Action, action_of, unit_parts, Endpoint, follow_or_snapshot,
  handle_unit_journal, handle_system_journal, act, route_unit, serve_systemd, inspect, unit_file,
  journal, unknown, controlled, enabled, to_available, to_config, to_units, to_unit, to_journal,
}

if_positive_positive :
    (o : Option ℤ) (default : ℤ)
    → ltb_ℤ (pos 0) default ≡ true
    → ltb_ℤ (pos 0) (if_positive o default) ≡ true
if_positive_positive none default h = h
if_positive_positive (some v) default h = elim (Bool-cases (ltb_ℤ (pos 0) v)) [
  | inl e ↦ rw e e
  | inr e ↦ rw e h
]

module _ (c : Client) where
  read_args-Selects :
      (unit : Text) (lines : ℤ) (priority : Text) → Selects c unit (read_args unit lines priority)
  unfolding selection
  read_args-Selects unit lines priority = elim (Bool-cases (str_eq unit [])) [
    | inl e ↦ inl e
    | inr e ↦ inr (
      codes "--output=json"
          ∷ codes "--no-pager"
          ∷ codes "--quiet"
          ∷ codes "--lines"
          ∷ print_int lines
          ∷ codes "--priority"
          ∷ priority
          ∷ [],
      rw e refl,
    )
  ]

  follow_args-Selects :
      (unit : Text) (lines : ℤ) (priority : Text) → Selects c unit (follow_args unit lines priority)
  unfolding selection
  follow_args-Selects unit lines priority = elim (Bool-cases (str_eq unit [])) [
    | inl e ↦ inl e
    | inr e ↦ inr (
      codes "--output=json"
          ∷ codes "--no-pager"
          ∷ codes "--quiet"
          ∷ codes "--follow"
          ∷ codes "--lines"
          ∷ print_int lines
          ∷ codes "--priority"
          ∷ priority
          ∷ [],
      rw e refl,
    )
  ]

  module _ (decode : Text → Option RawEntry) (fields_of : Text → Dict Text) (a : Answers) where
    parse_lines_positive :
        (value : Text) (default : ℤ)
        → ltb_ℤ (pos 0) default ≡ true
        → ltb_ℤ (pos 0) (parse_lines value default) ≡ true
    unfolding parse_lines
    parse_lines_positive value default h = elim (Bool-cases (str_eq value [])) [
      | inl e ↦ rw e h
      | inr e ↦ rw e (if_positive_positive (parse_int value) default h)
    ]

    answers_availability :
        (r : SystemdRequest) (s : JobStore)
        → let u : Turn =
            if not (is_get r.method) then refused 405 s else (is_available (available c), [], s) in
          Fair c r u s × (is_job u.0 ≡ false) × (u.1 ≡ []) × (u.2 ≡ s)
    answers_availability r s = elim (Bool-cases (is_get r.method)) [
      | inl e ↦ rw e (inl (refl, refl, inl refl), refl, refl, refl)
      | inr e ↦ rw e (inl (refl, refl, inl refl), refl, refl, refl)
    ]

    behind_guard :
        (r : SystemdRequest) (t : Turn) (s : JobStore)
        → Fair c r t s
        → let u : Turn = if available c then t else refused 503 s in
          Fair c r u s × ((available c ≡ true) ⊎ ((is_job u.0 ≡ false) × (u.1 ≡ []) × (u.2 ≡ s)))
    behind_guard r t s fair = elim (Bool-cases (available c)) [
      | inl e ↦ (rw e fair, inl e)
      | inr e ↦ (rw e (inl (refl, refl, inl refl)), inr (rw e refl, rw e refl, rw e refl))
    ]

    entries_no_job :
        (o : Outcome (List JournalEntry)) → is_job (entries_or_error decode fields_of a c o) ≡ false
    entries_no_job (ok entries) = refl
    entries_no_job (err e) = refl

    follow_or_snapshot-Fair :
        (r : SystemdRequest) (unit : Text) (s : JobStore)
        → ltb_ℤ (pos 0) c.config.lines ≡ true
        → is_get r.method ≡ true
        → JournalAllowed c unit
        → Fair c r (follow_or_snapshot decode fields_of a c r unit s) s
    unfolding follow_or_snapshot
    follow_or_snapshot-Fair r unit s positive got allowed =
        let reads = parse_lines_positive r.lines c.config.lines positive in
        let method = method_of_is_get r.method got in
        elim (Bool-cases (str_eq r.follow (codes "true"))) [
          | inl e ↦ rw e (
              inl (
                refl,
                refl,
                inr (
                  followed _,
                  refl,
                  method,
                  (unit, _, refl, reads, allowed, follow_args-Selects unit _ _),
                ),
              ))
          | inr e ↦ rw e (
              inl (
                entries_no_job _,
                refl,
                inr (
                  ran _,
                  refl,
                  method,
                  (unit, _, refl, reads, allowed, read_args-Selects unit _ _),
                ),
              ))
        ]

    handle_unit_journal-Fair :
        (r : SystemdRequest) (unit : Text) (s : JobStore)
        → ltb_ℤ (pos 0) c.config.lines ≡ true
        → str_eq unit [] ≡ false
        → Fair c r (handle_unit_journal decode fields_of a c r unit s) s
    unfolding handle_unit_journal
    handle_unit_journal-Fair r unit s positive named = require c (is_get r.method) 405 r _ s (λ got.
        require c c.config.journal_enabled 403 r _ s
          (λ on. follow_or_snapshot-Fair r unit s positive got (inl (named, on))))

    handle_system_journal-Fair :
        (r : SystemdRequest) (s : JobStore)
        → ltb_ℤ (pos 0) c.config.lines ≡ true
        → Fair c r (handle_system_journal decode fields_of a c r s) s
    unfolding handle_system_journal str_eq
    handle_system_journal-Fair r s positive = require c (is_get r.method) 405 r _ s (λ got.
        require c c.config.system_journal 403 r _ s
          (λ on. follow_or_snapshot-Fair r [] s positive got (inr (refl, on))))

    act-Fair :
        (action : Action) (r : SystemdRequest) (unit : Text) (s : JobStore)
        → ltb_ℤ (pos 0) c.config.lines ≡ true
        → str_eq unit [] ≡ false
        → Fair c r (act decode fields_of a c action r unit s) s
    act-Fair inspect r unit s positive named =
        handle_unit_inspect-Fair c decode fields_of a r unit s
    act-Fair unit_file r unit s positive named = handle_unit_file-Fair c decode fields_of a r unit s
    act-Fair (controlled verb) r unit s positive named = handle_unit_control-Fair c verb r unit s
    act-Fair (enabled enable) r unit s positive named = handle_unit_enable-Fair c r unit enable s
    act-Fair journal r unit s positive named = handle_unit_journal-Fair r unit s positive named
    act-Fair unknown r unit s positive named = inl (refl, refl, inl refl)

    route_unit-Fair :
        (r : SystemdRequest) (s : JobStore)
        → ltb_ℤ (pos 0) c.config.lines ≡ true
        → Fair c r (route_unit decode fields_of a c r s) s
    unfolding route_unit
    route_unit-Fair r s positive =
        let (unit, action) = unit_parts r.path in
        elim (Bool-cases (str_eq unit [])) [
          | inl e ↦ rw e (inl (refl, refl, inl refl))
          | inr e ↦ rw e (act-Fair (action_of action) r unit s positive e)
        ]

    served_lem :
        (endpoint : Endpoint) (r : SystemdRequest) (s : JobStore)
        → ltb_ℤ (pos 0) c.config.lines ≡ true
        → let t = serve_systemd decode fields_of a c endpoint r s in
          Fair c r t s × ((available c ≡ true) ⊎ ((is_job t.0 ≡ false) × (t.1 ≡ []) × (t.2 ≡ s)))
    unfolding serve_systemd
    served_lem to_available r s positive =
        let h = answers_availability r s in (h.0, inr (h.1, h.2, h.3))
    served_lem to_config r s positive = (inl (refl, refl, inl refl), inr (refl, refl, refl))
    served_lem to_units r s positive =
        behind_guard r _ s (handle_units-Fair c decode fields_of a r s)
    served_lem to_unit r s positive = behind_guard r _ s (route_unit-Fair r s positive)
    served_lem to_journal r s positive =
        behind_guard r _ s (handle_system_journal-Fair r s positive)

    unavailable_idle :
        (r : SystemdRequest) (t : Turn) (s : JobStore)
        → available c ≡ false
        → let u : Turn = if available c then t else refused 503 s in
          Fair c r u s × (is_job u.0 ≡ false) × (u.1 ≡ []) × (u.2 ≡ s)
    unavailable_idle r t s off = rw off (inl (refl, refl, inl refl), refl, refl, refl)

    unavailable_lem :
        (endpoint : Endpoint) (r : SystemdRequest) (s : JobStore)
        → available c ≡ false
        → let t = serve_systemd decode fields_of a c endpoint r s in
          Fair c r t s × (is_job t.0 ≡ false) × (t.1 ≡ []) × (t.2 ≡ s)
    unfolding serve_systemd
    unavailable_lem to_available r s off = answers_availability r s
    unavailable_lem to_config r s off = (inl (refl, refl, inl refl), refl, refl, refl)
    unavailable_lem to_units r s off = unavailable_idle r _ s off
    unavailable_lem to_unit r s off = unavailable_idle r _ s off
    unavailable_lem to_journal r s off = unavailable_idle r _ s off

    missing_unavailable : c.config ≡ no_systemd → available c ≡ false
    unfolding available
    missing_unavailable e =
        let off : c.config.enabled ≡ false = ap (λ d. d.enabled) e in rw off refl

    -- For the configuration that has been loaded: a request either starts no job, leaves the jobs and
    -- asks systemd or journalctl at most one thing, by a GET, or it is a POST, is answered with the id
    -- of a new job, and starts the one goroutine of that job. Either happens only where the
    -- configuration enables it, which for a unit that is enabled or disabled means that `allow` has the
    -- operation too. The journal of one unit is read with --unit and its name, which is not empty, and the whole
    -- journal only where `system_journal` is set, always for a positive number of lines. Where
    -- systemd.toml is missing or there is no connection, nothing is asked and no job is started; else
    -- the priority of the journal is one that journalctl knows.
    pub serve_systemd_lem :
        (toml_decode : Text → Option SystemdConfig) (path : Text) (w : World Text)
        (endpoint : Endpoint) (r : SystemdRequest) (s : JobStore)
        → (load_systemd_config toml_decode path w).0 ≡ ok c.config
        → let t = serve_systemd decode fields_of a c endpoint r s in
          Fair c r t s
          × (((available c ≡ true) × (is_known journal_priorities c.config.priority ≡ true))
              ⊎ ((is_job t.0 ≡ false) × (t.1 ≡ []) × (t.2 ≡ s)))
    serve_systemd_lem toml_decode path w endpoint r s loaded =
        elim (load_systemd_config_lem toml_decode path w c.config loaded) [
          | inl missing ↦
              let h = unavailable_lem endpoint r s (missing_unavailable missing) in
              (h.0, inr (h.1, h.2, h.3))
          | inr (positive, known, ops) ↦
              let (fair, when) = served_lem endpoint r s positive in
              (fair, elim when [ inl on ↦ inl (on, known) | inr idle ↦ inr idle ])
        ]
