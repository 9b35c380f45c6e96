-- ===== src/Systemd/Units/Guarded.antt =====
-- internal/systemd/systemd.go: what a request may do.
pub mod Served
use tailkitd.Prelude.{
  ℕ, ◌≡◌, refl, ◌⊎◌, inl, inr, Bool, true, false, not, Option, none, some, List, [], ◌∷◌, ◌++◌, ℤ,
  ltb_ℤ, pos, Dict, Text, codes, str_eq, if◌then◌else◌, Bool-cases,
}
use tailkitd.Os.{Outcome, read_file, ok, err}
use tailkitd.Api.Http.{
  Method, method_get, method_post, method_put, method_patch, method_delete, method_other, reply,
}
use tailkitd.Config.Loading.{is_known}
use tailkitd.Config.Integrations.{SystemdConfig}
use tailkitd.Exec.Jobs.{JobStore, new_job}
use tailkitd.Systemd.Units.Jobs.{task_id}
use tailkitd.Systemd.Journal.{read_args, follow_args, RawEntry}
use tailkitd.Systemd.Tasks.{control, enabling, Verb, Task}
use tailkitd.Systemd.Units.{
  Client, Effect, listed_units, got_properties, spawned, ran, followed, SystemdRequest, Reply,
  job_accepted, status, refused, file_of, fragment_of, is_available, config_reply, units_reply,
  properties_reply, file_reply, entries_reply, streaming, is_get, is_post, Turn,
  handle_unit_control, op_name, Answers, handle_unit_enable, handle_units, handle_unit_inspect,
  handle_unit_file,
}

abbrev pub is_job : Reply → Bool
is_job (job_accepted id) = true
is_job (status n) = false
is_job (is_available b) = false
is_job (config_reply config) = false
is_job units_reply = false
is_job (properties_reply unit) = false
is_job (file_reply unit path content) = false
is_job (entries_reply entries) = false
is_job streaming = false

method_of_is_post : (m : Method) → is_post m ≡ true → m ≡ method_post
method_of_is_post method_post h = refl
method_of_is_post method_get h = absurd (cc h)
method_of_is_post method_put h = absurd (cc h)
method_of_is_post method_patch h = absurd (cc h)
method_of_is_post method_delete h = absurd (cc h)
method_of_is_post method_other h = absurd (cc h)

pub method_of_is_get : (m : Method) → is_get m ≡ true → m ≡ method_get
method_of_is_get method_get h = refl
method_of_is_get method_post h = absurd (cc h)
method_of_is_get method_put h = absurd (cc h)
method_of_is_get method_patch h = absurd (cc h)
method_of_is_get method_delete h = absurd (cc h)
method_of_is_get method_other h = absurd (cc h)

module _ (c : Client) where
  -- What the configuration says of a task
  abbrev pub TaskAllowed : Task → Type 0
  TaskAllowed (control verb unit id) = c.config.units_enabled ≡ true
  TaskAllowed (enabling enable unit id) =
      (c.config.units_enabled ≡ true) × (is_known c.config.units_allow (op_name enable) ≡ true)

  -- The journal of one unit, or of the whole system where that is allowed
  abbrev pub JournalAllowed : Text → Type 0
  JournalAllowed unit =
      ((str_eq unit [] ≡ false) × (c.config.journal_enabled ≡ true))
      ⊎ ((str_eq unit [] ≡ true) × (c.config.system_journal ≡ true))

  -- With a unit, journalctl is asked for that unit alone.
  abbrev pub Selects : Text → List Text → Type 0
  Selects unit args =
      (str_eq unit [] ≡ true)
      ⊎ ((options : List Text) × (args ≡ options ++ codes "--unit" ∷ unit ∷ []))

  -- The journal is read at the priority of the configuration.
  abbrev pub Reads : (Text → ℤ → Text → List Text) → List Text → Type 0
  Reads args_of args =
      (unit : Text) × (lines : ℤ) × (args ≡ args_of unit lines c.config.priority)
      × (ltb_ℤ (pos 0) lines ≡ true)
      × JournalAllowed unit
      × Selects unit args

  abbrev pub Allowed : Effect → Type 0
  Allowed listed_units = c.config.units_enabled ≡ true
  Allowed (got_properties unit) = c.config.units_enabled ≡ true
  Allowed (spawned task) = ⊥
  Allowed (ran args) = Reads read_args args
  Allowed (followed args) = Reads follow_args args

  -- No job is started, and what is asked, if anything, is one allowed thing, by a GET.
  abbrev pub Asks : SystemdRequest → Turn → JobStore → Type 0
  Asks r t s =
      (is_job t.0 ≡ false)
      × (t.2 ≡ s)
      × ((t.1 ≡ []) ⊎ ((e : Effect) × (t.1 ≡ e ∷ []) × (r.method ≡ method_get) × Allowed e))

  -- A job is accepted, recorded, and its goroutine started, by a POST.
  abbrev pub Starts : SystemdRequest → Turn → JobStore → Type 0
  Starts r t s =
      (task : Task) × (t.0 ≡ job_accepted (task_id task))
      × (t.1 ≡ spawned task ∷ [])
      × (t.2 ≡ new_job (task_id task) r.now s)
      × (r.method ≡ method_post)
      × TaskAllowed task

  abbrev pub Fair : SystemdRequest → Turn → JobStore → Type 0
  Fair r t s = Asks r t s ⊎ Starts r t s

  -- Behind a check whose failure refuses the request, the check has held.
  pub require :
      (b : Bool) (n : ℕ) (r : SystemdRequest) (t : Turn) (s : JobStore)
      → (b ≡ true → Fair r t s)
      → Fair r (if not b then refused n s else t) s
  require true n r t s fair = fair refl
  require false n r t s fair = inl (refl, refl, inl refl)

  pub handle_unit_control-Fair :
      (verb : Verb) (r : SystemdRequest) (unit : Text) (s : JobStore)
      → Fair r (handle_unit_control c verb r unit s) s
  unfolding handle_unit_control
  handle_unit_control-Fair verb r unit s = require (is_post r.method) 405 r _ s (λ posted.
      require c.config.units_enabled 403 r _ s (λ on.
        inr (control verb unit r.uuid, refl, refl, refl, method_of_is_post r.method posted, on)))

  pub handle_unit_enable-Fair :
      (r : SystemdRequest) (unit : Text) (enable : Bool) (s : JobStore)
      → Fair r (handle_unit_enable c r unit enable s) s
  unfolding handle_unit_enable
  handle_unit_enable-Fair r unit true s = require (is_post r.method) 405 r _ s (λ posted.
      require c.config.units_enabled 403 r _ s (λ on.
        require (is_known c.config.units_allow (op_name true)) 403 r _ s (λ known.
          let method = method_of_is_post r.method posted in
          inr (enabling true unit r.uuid, refl, refl, refl, method, (on, known)))))
  handle_unit_enable-Fair r unit false s = require (is_post r.method) 405 r _ s (λ posted.
      require c.config.units_enabled 403 r _ s (λ on.
        require (is_known c.config.units_allow (op_name false)) 403 r _ s (λ known.
          let method = method_of_is_post r.method posted in
          inr (enabling false unit r.uuid, refl, refl, refl, method, (on, known)))))

  module _ (decode : Text → Option RawEntry) (fields_of : Text → Dict Text) (a : Answers) where
    -- A GET of the units
    read-Fair :
        (r : SystemdRequest) (s : JobStore) (reply : Reply) (e : Effect)
        → is_job reply ≡ false
        → (c.config.units_enabled ≡ true → Allowed e)
        → Fair r
            (if not (is_get r.method)
              then refused 405 s
              else if not c.config.units_enabled
              then refused 403 s
              else (reply, e ∷ [], s))
            s
    read-Fair r s reply e none_started allowed = require (is_get r.method) 405 r _ s (λ got.
        require c.config.units_enabled 403 r _ s (λ on.
          inl (none_started, refl, inr (e, refl, method_of_is_get r.method got, allowed on))))

    units_no_job :
        (o : Outcome Unit) → is_job (elim o [ ok _ ↦ units_reply | err e ↦ status 500 ]) ≡ false
    units_no_job (ok u) = refl
    units_no_job (err e) = refl

    properties_no_job :
        (unit : Text) (o : Outcome (Option (Option Text)))
        → is_job (elim o [ ok _ ↦ properties_reply unit | err e ↦ status 500 ]) ≡ false
    properties_no_job unit (ok u) = refl
    properties_no_job unit (err e) = refl

    pub handle_units-Fair :
        (r : SystemdRequest) (s : JobStore) → Fair r (handle_units decode fields_of a c r s) s
    unfolding handle_units
    handle_units-Fair r s = read-Fair r s _ listed_units (units_no_job a.units) (λ on. on)

    pub handle_unit_inspect-Fair :
        (r : SystemdRequest) (unit : Text) (s : JobStore)
        → Fair r (handle_unit_inspect decode fields_of a c r unit s) s
    unfolding handle_unit_inspect
    handle_unit_inspect-Fair r unit s =
        read-Fair r s _ (got_properties unit) (properties_no_job unit (a.fragment_path unit))
          (λ on. on)

    file_no_job :
        (unit path : Text) (o : Outcome Text)
        → is_job (file_of decode fields_of a c unit path o) ≡ false
    file_no_job unit path (ok content) = refl
    file_no_job unit path (err e) = refl

    fragment_no_job :
        (unit : Text) (o : Outcome (Option (Option Text)))
        → is_job (fragment_of decode fields_of a c unit o) ≡ false
    fragment_no_job unit (err e) = refl
    fragment_no_job unit (ok none) = refl
    fragment_no_job unit (ok (some none)) = refl
    fragment_no_job unit (ok (some (some path))) = elim (Bool-cases (str_eq path [])) [
      | inl e ↦ rw e refl
      | inr e ↦ rw e (file_no_job unit path (a.read_file path))
    ]

    pub handle_unit_file-Fair :
        (r : SystemdRequest) (unit : Text) (s : JobStore)
        → Fair r (handle_unit_file decode fields_of a c r unit s) s
    unfolding handle_unit_file
    handle_unit_file-Fair r unit s =
        read-Fair r s _ (got_properties unit) (fragment_no_job unit (a.fragment_path unit))
          (λ on. on)
