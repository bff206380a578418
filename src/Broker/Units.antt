-- ===== src/Broker/Units.antt =====
-- bin/control_broker.py, the reconciliation: what `systemctl show` says of the units of an entry,
-- as one state with a fingerprint.
use hermes_agent_workforce_p.Prelude.{
  ℕ, String, Bool, true, false, not, ◌&&◌, ◌||◌, Option, none, some, List, [], ◌∷◌, ◌++◌, any, all,
  if◌then◌else◌, str_eq, has, ◌<>◌, sorted, str_leb, or_else, truthy, min, max,
}
use hermes_agent_workforce_p.Prelude.Dict.{Dict, lookup}
use hermes_agent_workforce_p.Broker.{Answer, value, refuse, unit_not_found, masked}
use hermes_agent_workforce_p.Broker.Allowlist.{Trigger, Workflow, Runtime}
use hermes_agent_workforce_p.Broker.Machine.{
  Systemd, M, ◌>>=◌, lift, show, TimerView, ServiceView, UnitView, Snapshot,
}

-- `values.get(key) or "unknown"`, and `values.get(key) or None`
abbrev known : String → Dict String → String
known key values = if truthy (lookup key values) then or_else (lookup key values) "" else "unknown"

abbrev pub given : String → Dict String → Option String
given key values = if truthy (lookup key values) then lookup key values else none

abbrev time_at : (String → Option ℕ) → String → Dict String → Option ℕ
time_at read_time key values = elim (lookup key values) [ none ↦ none | some s ↦ read_time s ]

abbrev yes_no : Option String → Option Bool
yes_no none = none
yes_no (some s) = if str_eq s "yes" then some true else if str_eq s "no" then some false else none

module _ {E : Type 0} (sys : Systemd E) where
  -- `_timer_view`
  unfoldable pub timer_view : String → Dict String → TimerView
  timer_view unit values = record {
    name = unit <> ".timer";
    active_state = known "ActiveState" values;
    sub_state = known "SubState" values;
    unit_file_state = known "UnitFileState" values;
    load_state = known "LoadState" values;
    last_trigger_at = time_at sys.read_time "LastTriggerUSec" values;
    next_elapse_at = time_at sys.read_time "NextElapseUSecRealtime" values;
    persistent = yes_no (lookup "Persistent" values);
    calendars = sys.specs (or_else (lookup "TimersCalendar" values) "");
  }

  -- `_service_view`
  unfoldable pub service_view : String → Dict String → ServiceView
  service_view unit values = record {
    name = unit <> ".service";
    active_state = known "ActiveState" values;
    sub_state = known "SubState" values;
    unit_file_state = none;
    load_state = known "LoadState" values;
    result = given "Result" values;
    invocation_id = given "InvocationID" values;
    started_at = time_at sys.read_time "ExecMainStartTimestamp" values;
    ended_at = time_at sys.read_time "ExecMainExitTimestamp" values;
    restarts = none;
  }

  -- `_runtime_view`; the count of restarts is kept as its text, which systemctl writes in decimal
  -- digits. A digit that `isdigit` takes and `int` does not is left out: there the source raises.
  unfoldable pub runtime_view : String → Dict String → ServiceView
  unfolding service_view
  runtime_view unit values = record (service_view unit values) {
    unit_file_state = some (known "UnitFileState" values);
    restarts = given "NRestarts" values;
  }

-- `service_running`
unfoldable pub service_running : ServiceView → Bool
service_running s =
    has s.active_state ("active" ∷ "activating" ∷ [])
    && has s.sub_state ("running" ∷ "start" ∷ "start-pre" ∷ "start-post" ∷ [])

-- `timer_paused`
unfoldable pub timer_paused : TimerView → Bool
timer_paused t =
    str_eq t.active_state "inactive"
    || has t.unit_file_state ("disabled" ∷ "masked" ∷ "masked-runtime" ∷ [])

-- The timers of the units that have one.
abbrev pub timers_of : List UnitView → List TimerView
timers_of [] = []
timers_of (u ∷ us) = let rest = timers_of us in elim u.timer [ none ↦ rest | some t ↦ t ∷ rest ]

abbrev is_running_unit : UnitView → Bool
is_running_unit u = service_running u.service

abbrev is_active_timer : TimerView → Bool
is_active_timer t = str_eq t.active_state "active"

abbrev is_empty : List TimerView → Bool
is_empty [] = true
is_empty (t ∷ ts) = false

-- `state_of`
unfoldable pub state_of : List UnitView → String
unfolding service_running timer_paused
state_of units =
    if any is_running_unit units
    then "running"
    else if not (is_empty (timers_of units)) && all timer_paused (timers_of units)
    then "paused"
    else if any is_active_timer (timers_of units)
    then "active"
    else "unknown"

-- `RUNTIME_ACTIVE_STATES`
abbrev pub is_runtime_active : String → Bool
is_runtime_active s = has s ("active" ∷ "activating" ∷ "reloading" ∷ [])

-- `runtime_state_of`
unfoldable pub runtime_state_of : ServiceView → String
runtime_state_of s =
    if is_runtime_active s.active_state
    then "active"
    else if has s.active_state ("inactive" ∷ "failed" ∷ "deactivating" ∷ [])
    then "paused"
    else "unknown"

abbrev Row : Type 0
Row = String × String × String × String

abbrev timer_row : TimerView → Row
timer_row t = (t.name, t.active_state, t.sub_state, t.unit_file_state)

abbrev service_row : ServiceView → Row
service_row s = (s.name, s.active_state, s.sub_state, or_else s.unit_file_state "")

-- `_views`, as rows
abbrev rows_of : UnitView → List Row
rows_of u = elim u.timer [
  | none ↦ service_row u.service ∷ []
  | some t ↦ timer_row t ∷ service_row u.service ∷ []
]

abbrev all_rows : List UnitView → List Row
all_rows [] = []
all_rows (u ∷ us) = rows_of u ++ all_rows us

-- The order of tuples.
abbrev row_le : Row → Row → Bool
row_le (a, b, c, d) (a', b', c', d') =
    if not (str_eq a a')
    then str_leb a a'
    else if not (str_eq b b')
    then str_leb b b'
    else if not (str_eq c c')
    then str_leb c c'
    else str_leb d d'

module _ {E : Type 0} (sys : Systemd E) where
  -- `fingerprint`
  unfoldable pub fingerprint : List UnitView → String
  fingerprint units = sys.digest (sorted row_le (all_rows units))

  -- `TIMER_PROPERTIES`, `SERVICE_PROPERTIES` and `RUNTIME_PROPERTIES`
  abbrev timer_properties : String
  timer_properties =
      "ActiveState,SubState,UnitFileState,LoadState,LastTriggerUSec,NextElapseUSecRealtime,Persistent,TimersCalendar"

  abbrev service_properties : String
  service_properties =
      "ActiveState,SubState,LoadState,Result,InvocationID,ExecMainStartTimestamp,ExecMainExitTimestamp"

  abbrev runtime_properties : String
  runtime_properties =
      "ActiveState,SubState,UnitFileState,LoadState,Result,InvocationID,ExecMainStartTimestamp,ExecMainExitTimestamp,NRestarts"

  abbrev pub view_trigger : Trigger → M E UnitView
  view_trigger t = do
    timer ← show sys t.scope (t.unit <> ".timer") timer_properties
    service ← show sys t.scope (t.unit <> ".service") service_properties
    lift (
        value (record {
          unit = t.unit;
          scope = t.scope;
          timer = some (timer_view sys t.unit timer);
          service = service_view sys t.unit service;
        }))

  abbrev pub view_triggers : List Trigger → M E (List UnitView)
  view_triggers [] = lift (value [])
  view_triggers (t ∷ ts) =
      let rest = view_triggers ts in
      do view ← view_trigger t; views ← rest; lift (value (view ∷ views))

  -- `reconcile`
  unfoldable pub reconcile : Workflow → M E Snapshot
  unfolding fingerprint state_of
  reconcile w = do
    units ← view_triggers w.triggers
    lift (value (record { state = state_of units; fingerprint = fingerprint units; units = units }))

  abbrev runtime_units : Runtime → Dict String → List UnitView
  runtime_units r values =
      (record {
        unit = r.unit;
        scope = r.scope;
        timer = none;
        service = runtime_view sys r.unit values;
      })
      ∷ []

  -- `reconcile_runtime`
  unfoldable pub reconcile_runtime : Runtime → M E Snapshot
  unfolding fingerprint runtime_state_of
  reconcile_runtime r = do
    values ← show sys r.scope (r.unit <> ".service") runtime_properties
    lift (
        value (record {
          state = runtime_state_of (runtime_view sys r.unit values);
          fingerprint = fingerprint (runtime_units r values);
          units = runtime_units r values;
        }))

abbrev pub is_missing : UnitView → Bool
is_missing u =
    str_eq u.service.load_state "not-found"
    || elim u.timer [ none ↦ false | some t ↦ str_eq t.load_state "not-found" ]

-- `MASKED_STATES`
abbrev is_mask : String → Bool
is_mask s = has s ("masked" ∷ "masked-runtime" ∷ [])

abbrev pub is_masked : UnitView → Bool
is_masked u = elim u.timer [
  | none ↦ is_mask (or_else u.service.unit_file_state "") || is_mask u.service.load_state
  | some t ↦ is_mask t.unit_file_state || is_mask t.load_state
]

-- `check_loaded`
unfoldable pub check_loaded : List UnitView → Answer (Unit {0})
check_loaded [] = value tt
check_loaded (u ∷ us) =
    let rest = check_loaded us in
    if is_missing u then refuse unit_not_found else if is_masked u then refuse masked else rest

-- The least and the greatest of the instants that are there.
abbrev pub earliest : Option ℕ → Option ℕ → Option ℕ
earliest none b = b
earliest (some a) none = some a
earliest (some a) (some b) = some (min a b)

abbrev pub latest : Option ℕ → Option ℕ → Option ℕ
latest none b = b
latest (some a) none = some a
latest (some a) (some b) = some (max a b)

-- `next_scheduled`, on the timers
unfoldable pub next_scheduled : List TimerView → Option ℕ
next_scheduled [] = none
next_scheduled (t ∷ ts) = earliest t.next_elapse_at (next_scheduled ts)
