-- ===== src/Broker/Checks.antt =====
-- bin/control_broker.py, what an action needs: its plan, its preconditions, its preview.
use hermes_agent_workforce_p.Prelude.{
  ℕ, ◌+◌, String, Bool, true, false, not, ◌&&◌, ◌||◌, Option, none, some, List, [], ◌∷◌, map, all,
  if◌then◌else◌, str_eq, has, ◌<>◌, truthy, or_else, strip, ltb, opt_eq,
}
use hermes_agent_workforce_p.Stamp.{parse_time}
use hermes_agent_workforce_p.Broker.{
  Answer, value, raised, demand, demand_some, ◌>>=◌, Action, pause, resume, run_now, retry, stop,
  start, restart, action_name, is_action, Scope, escaped, state_conflict, not_idempotent,
  confirmation_required, reason_required, preview_required, preview_stale,
}
use hermes_agent_workforce_p.Broker.Receipts.{Receipt, is_previewed, load_preview_receipt}
use hermes_agent_workforce_p.Broker.Allowlist.{Trigger, Workflow, Runtime}
use hermes_agent_workforce_p.Broker.Machine.{Snapshot, UnitView}
use hermes_agent_workforce_p.Broker.Units.{
  service_running, timer_paused, timers_of, is_runtime_active,
}
use hermes_agent_workforce_p.Broker.Request.{Request, choose_trigger, unit_of}

-- A mutating step: scope, verb and unit.
abbrev pub Step : Type 0
Step = Scope × String × String

abbrev pub timer_step : String → Trigger → Step
timer_step verb t = (t.scope, verb, t.unit <> ".timer")

-- `_scope_of`, which raises `StopIteration` for a unit of no trigger
abbrev pub scope_in : String → List Trigger → Answer Scope
scope_in unit [] = raised escaped
scope_in unit (t ∷ ts) = if str_eq t.unit unit then value t.scope else scope_in unit ts

abbrev pub service_step : String → String → List Trigger → Answer (List Step)
service_step verb unit ts = do
  scope ← scope_in unit ts
  value ((scope, verb, unit <> ".service") ∷ [])

abbrev pub running_units : List UnitView → List String
running_units [] = []
running_units (u ∷ us) =
    let rest = running_units us in if service_running u.service then u.unit ∷ rest else rest

abbrev pub started : Workflow → Answer String → Answer (List Step)
started w choice = do unit ← choice; service_step "start" unit w.triggers

abbrev pub stopped : Workflow → List String → Answer String → Answer (List Step)
stopped w running choice = do
  unit ← choice
  u ← demand (has unit running) state_conflict
  service_step "stop" unit w.triggers

-- `plan`
unfoldable pub plan : Action → Workflow → Request → Snapshot → Answer (List Step)
unfolding choose_trigger
plan pause w r before = value (map (timer_step "disable") w.triggers)
plan resume w r before = value (map (timer_step "enable") w.triggers)
plan run_now w r before = started w (choose_trigger w r (map unit_of w.triggers))
plan retry w r before = started w (choose_trigger w r (map unit_of w.triggers))
plan _ w r before =
    stopped w (running_units before.units) (choose_trigger w r (running_units before.units))

-- `(request.get("reason") or "").strip()`
abbrev pub has_reason : Option String → Bool
has_reason reason = not (str_eq (strip (or_else reason "")) "")

abbrev when : Bool → Answer (Unit {0}) → Answer (Unit {0})
when true a = a
when false a = value tt

-- `_check_preconditions`
unfoldable pub check_preconditions : Action → Request → Snapshot → Workflow → Answer (Unit {0})
unfolding timer_paused
check_preconditions pause r before w =
    demand (not (all timer_paused (timers_of before.units))) state_conflict
check_preconditions resume r before w =
    demand (all timer_paused (timers_of before.units)) state_conflict
check_preconditions run_now r before w = demand (not (str_eq before.state "running")) state_conflict
check_preconditions retry r before w = do
  u ← demand (not (str_eq before.state "running")) state_conflict
  demand w.retry not_idempotent
check_preconditions stop r before w = do
  u ← demand r.confirm confirmation_required
  v ← demand (has_reason r.reason) reason_required
  demand (str_eq before.state "running") state_conflict
check_preconditions _ r before w = value tt

-- `plan_runtime`
unfoldable pub plan_runtime : Action → Runtime → Step
plan_runtime action r = (r.scope, action_name action, r.unit <> ".service")

abbrev pub is_start : Action → Bool
is_start start = true
is_start _ = false

abbrev pub is_halt : Action → Bool
is_halt stop = true
is_halt restart = true
is_halt _ = false

abbrev pub first_state : List UnitView → String
first_state [] = ""
first_state (u ∷ us) = u.service.active_state

-- `_check_runtime_preconditions`
unfoldable pub check_runtime_preconditions : Action → Request → Snapshot → Answer (Unit {0})
check_runtime_preconditions action r before =
    let active = first_state before.units in
    do
      u ← demand r.confirm confirmation_required
      v ← demand (not (is_halt action) || has_reason r.reason) reason_required
      w ← demand (not (is_start action && is_runtime_active active)) state_conflict
      demand (not (is_halt action) || is_runtime_active active) state_conflict

abbrev pub is_resume_of : String → Receipt → Bool
is_resume_of id p =
    is_previewed p.result
    && elim p.action [ none ↦ false | some a ↦ is_action a resume ]
    && opt_eq p.workflow_id (some id)

abbrev pub is_fresh : ℕ → Option ℕ → Bool
is_fresh now none = false
is_fresh now (some completed) = not (ltb (completed + 600) now)

abbrev pub fingerprint_of : Option Snapshot → Option String
fingerprint_of none = none
fingerprint_of (some s) = some s.fingerprint

abbrev pub preview_of : List Receipt → Request → Option Receipt
preview_of receipts r =
    if truthy r.preview_token
    then load_preview_receipt receipts r.workflow_id (or_else r.preview_token "")
    else none

-- `_check_preview_token`
unfoldable pub check_preview_token : List Receipt → Request → Snapshot → ℕ → Answer Receipt
unfolding load_preview_receipt
check_preview_token receipts r before now = do
  p ← demand_some (preview_of receipts r) preview_required
  u ← demand (is_resume_of r.workflow_id p) preview_required
  v ← demand (is_fresh now (parse_time p.completed_at)) preview_stale
  w ← demand (opt_eq (fingerprint_of p.before) (some before.fingerprint)) preview_stale
  value p
