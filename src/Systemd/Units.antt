-- ===== src/Systemd/Units.antt =====
-- internal/systemd/systemd.go: the requests below /integrations/systemd/, and what becomes of the
-- jobs that they start. systemd and journalctl are parameters: a handler gives what it asks of them
-- beside its response, and a goroutine is a task that runs later. The response has what the tests
-- of the handlers look at.
pub mod Jobs
pub mod Guarded
pub mod Allow
use tailkitd.Prelude.{
  ℕ, Bool, true, false, ◌&&◌, not, Option, none, some, List, [], ◌∷◌, Dict, cut, Text, codes,
  str_eq, if◌then◌else◌,
}
use tailkitd.Os.{Error, Outcome, not_exist, ok, err}
use tailkitd.Api.Http.{Method, method_get, method_post}
use tailkitd.Api.Gate.{trim_prefix}
use tailkitd.Config.Loading.{is_known}
use tailkitd.Config.Integrations.{SystemdConfig}
use tailkitd.Exec.Jobs.{JobStore, new_job}
use tailkitd.Systemd.Journal.{
  RawEntry, JournalEntry, Exit, read_args, follow_args, parse_lines, read_journal,
}
use tailkitd.Systemd.Tasks.{Verb, Task, start, stop, restart, reload, control, enabling}

-- `Client`: the configuration, and whether there is a connection.
pub record Client : Type 0 where
  pub config : SystemdConfig
  pub connected : Bool

-- `Available`
unfoldable pub available : Client → Bool
available c = c.config.enabled && c.connected

pub data Effect : Type 0 where
  listed_units : Effect
  got_properties : Text → Effect
  spawned : Task → Effect
  -- journalctl with its arguments, once or for a stream
  ran followed : List Text → Effect

-- What systemd, the disk and journalctl answer. A property FragmentPath may be missing, or be no
-- string.
pub record Answers : Type 0 where
  pub units : Outcome Unit
  pub fragment_path : Text → Outcome (Option (Option Text))
  pub read_file : Text → Outcome Text
  pub journalctl : List Text → Exit

pub record SystemdRequest : Type 0 where
  pub method : Method
  pub path : Text
  -- the parameters `lines` and `follow` of the query
  pub lines : Text
  pub follow : Text
  -- what `uuid.New` gives, and the time
  pub uuid : Text
  pub now : ℕ

pub data Reply : Type 0 where
  status : ℕ → Reply
  is_available : Bool → Reply
  config_reply : SystemdConfig → Reply
  units_reply : Reply
  properties_reply : Text → Reply
  file_reply : Text → Text → Text → Reply
  job_accepted : Text → Reply
  entries_reply : List JournalEntry → Reply
  streaming : Reply

-- The response, what is asked of others, and the jobs
abbrev pub Turn : Type 0
Turn = Reply × List Effect × JobStore

abbrev pub refused : ℕ → JobStore → Turn
refused n s = (status n, [], s)

abbrev pub is_get : Method → Bool
is_get method_get = true
is_get m = false

abbrev pub is_post : Method → Bool
is_post method_post = true
is_post m = false

-- `handleUnitControl`
unfoldable pub handle_unit_control : Client → Verb → SystemdRequest → Text → JobStore → Turn
handle_unit_control c verb r unit s =
    if not (is_post r.method)
    then refused 405 s
    else if not c.config.units_enabled
    then refused 403 s
    else (job_accepted r.uuid, spawned (control verb unit r.uuid) ∷ [], new_job r.uuid r.now s)

abbrev pub op_name : Bool → Text
op_name true = codes "enable"
op_name false = codes "disable"

-- `handleUnitEnable`
unfoldable pub handle_unit_enable : Client → SystemdRequest → Text → Bool → JobStore → Turn
handle_unit_enable c r unit enable s =
    if not (is_post r.method)
    then refused 405 s
    else if not c.config.units_enabled
    then refused 403 s
    else if enable && not (is_known c.config.units_allow (codes "enable"))
    then refused 403 s
    else if not enable && not (is_known c.config.units_allow (codes "disable"))
    then refused 403 s
    else (job_accepted r.uuid, spawned (enabling enable unit r.uuid) ∷ [], new_job r.uuid r.now s)

pub data Action : Type 0 where
  inspect unit_file journal unknown : Action
  controlled : Verb → Action
  enabled : Bool → Action

-- The cases of `routeUnit`
unfoldable pub action_of : Text → Action
action_of action =
    if str_eq action []
    then inspect
    else if str_eq action (codes "file")
    then unit_file
    else if str_eq action (codes "start")
    then controlled start
    else if str_eq action (codes "stop")
    then controlled stop
    else if str_eq action (codes "restart")
    then controlled restart
    else if str_eq action (codes "reload")
    then controlled reload
    else if str_eq action (codes "enable")
    then enabled true
    else if str_eq action (codes "disable")
    then enabled false
    else if str_eq action (codes "journal")
    then journal
    else unknown

abbrev missing_or_error : Error → ℕ
missing_or_error not_exist = 404
missing_or_error e = 500

abbrev or_whole : Text → Option (Text × Text) → Text × Text
or_whole rest none = (rest, [])
or_whole rest (some parts) = parts

-- The unit and the action of a path
unfoldable pub unit_parts : Text → Text × Text
unit_parts path =
    let rest = trim_prefix path (codes "/integrations/systemd/units/") in
    or_whole rest (cut b'/' rest)

-- The patterns that `Register` mounts
pub data Endpoint : Type 0 where
  to_available to_config to_units to_unit to_journal : Endpoint

module _ (decode : Text → Option RawEntry) (fields_of : Text → Dict Text) (a : Answers)
    (c : Client) where
  -- `handleUnits`, behind the guard
  unfoldable pub handle_units : SystemdRequest → JobStore → Turn
  handle_units r s =
      if not (is_get r.method)
      then refused 405 s
      else if not c.config.units_enabled
      then refused 403 s
      else (elim a.units [ ok _ ↦ units_reply | err e ↦ status 500 ], listed_units ∷ [], s)

  -- `handleUnitInspect`
  unfoldable pub handle_unit_inspect : SystemdRequest → Text → JobStore → Turn
  handle_unit_inspect r unit s =
      if not (is_get r.method)
      then refused 405 s
      else if not c.config.units_enabled
      then refused 403 s
      else (
        elim (a.fragment_path unit) [ ok _ ↦ properties_reply unit | err e ↦ status 500 ],
        got_properties unit ∷ [],
        s,
      )

  abbrev pub file_of : Text → Text → Outcome Text → Reply
  file_of unit path (ok content) = file_reply unit path content
  file_of unit path (err e) = status (missing_or_error e)

  abbrev pub fragment_of : Text → Outcome (Option (Option Text)) → Reply
  fragment_of unit (err e) = status 500
  fragment_of unit (ok none) = status 404
  fragment_of unit (ok (some none)) = status 404
  fragment_of unit (ok (some (some path))) =
      if str_eq path [] then status 404 else file_of unit path (a.read_file path)

  -- `handleUnitFile`
  unfoldable pub handle_unit_file : SystemdRequest → Text → JobStore → Turn
  handle_unit_file r unit s =
      if not (is_get r.method)
      then refused 405 s
      else if not c.config.units_enabled
      then refused 403 s
      else (fragment_of unit (a.fragment_path unit), got_properties unit ∷ [], s)

  abbrev pub entries_or_error : Outcome (List JournalEntry) → Reply
  entries_or_error (ok entries) = entries_reply entries
  entries_or_error (err e) = status 500

  -- `handleUnitJournalFollowOrSnapshot`, and the end of `handleSystemJournal` with no unit
  unfoldable pub follow_or_snapshot : SystemdRequest → Text → JobStore → Turn
  follow_or_snapshot r unit s =
      let lines = parse_lines r.lines c.config.lines in
      if str_eq r.follow (codes "true")
      then (streaming, followed (follow_args unit lines c.config.priority) ∷ [], s)
      else (
        entries_or_error (read_journal decode fields_of a.journalctl unit lines c.config.priority),
        ran (read_args unit lines c.config.priority) ∷ [],
        s,
      )

  -- `handleUnitJournal`
  unfoldable pub handle_unit_journal : SystemdRequest → Text → JobStore → Turn
  handle_unit_journal r unit s =
      if not (is_get r.method)
      then refused 405 s
      else if not c.config.journal_enabled
      then refused 403 s
      else follow_or_snapshot r unit s

  -- `handleSystemJournal`, behind the guard
  unfoldable pub handle_system_journal : SystemdRequest → JobStore → Turn
  handle_system_journal r s =
      if not (is_get r.method)
      then refused 405 s
      else if not c.config.system_journal
      then refused 403 s
      else follow_or_snapshot r [] s

  abbrev pub act : Action → SystemdRequest → Text → JobStore → Turn
  act inspect r unit s = handle_unit_inspect r unit s
  act unit_file r unit s = handle_unit_file r unit s
  act (controlled verb) r unit s = handle_unit_control c verb r unit s
  act (enabled enable) r unit s = handle_unit_enable c r unit enable s
  act journal r unit s = handle_unit_journal r unit s
  act unknown r unit s = refused 404 s

  -- `routeUnit`, behind the guard
  unfoldable pub route_unit : SystemdRequest → JobStore → Turn
  route_unit r s =
      let (unit, action) = unit_parts r.path in
      if str_eq unit [] then refused 400 s else act (action_of action) r unit s

  abbrev pub guarded : Turn → JobStore → Turn
  guarded t s = if available c then t else refused 503 s

  -- The handlers that `Register` mounts, each with its guard
  unfoldable pub serve_systemd : Endpoint → SystemdRequest → JobStore → Turn
  serve_systemd to_available r s =
      if not (is_get r.method) then refused 405 s else (is_available (available c), [], s)
  serve_systemd to_config r s = (config_reply c.config, [], s)
  serve_systemd to_units r s = guarded (handle_units r s) s
  serve_systemd to_unit r s = guarded (route_unit r s) s
  serve_systemd to_journal r s = guarded (handle_system_journal r s) s
