-- ===== src/Broker/Steps.antt =====
-- bin/control_broker.py, the steps of an action: `_execute` and `_execute_runtime`.
use Prim.Native.Char.{code}
use hermes_agent_workforce_p.Prelude.{
  ℕ, String, Bool, true, false, Option, none, some, List, [], ◌∷◌, if◌then◌else◌, ◌==◌, or_else,
  ◌<>◌,
}
use hermes_agent_workforce_p.Broker.{
  value, refuse, Action, resume, run_now, retry, stop, start, preview_required,
}
use hermes_agent_workforce_p.Broker.Allowlist.{Workflow, Runtime}
use hermes_agent_workforce_p.Broker.Machine.{
  Systemd, M, ◌>>=◌, lift, set_out, show, mutate, await_stop, await_stop_phase, await_settle,
  Outcome, applied, previewed, Snapshot,
}
use hermes_agent_workforce_p.Broker.Units.{given}
use hermes_agent_workforce_p.Broker.Implication.{preview_implication}
use hermes_agent_workforce_p.Broker.Request.{Request, Stage, preview, apply}
use hermes_agent_workforce_p.Broker.Receipts.{Receipt}
use hermes_agent_workforce_p.Broker.Checks.{Step, plan, plan_runtime, check_preview_token}

-- `unit.rsplit(".", 1)[0]`
abbrev before_last_dot : String → Option String
before_last_dot String.[] = none
before_last_dot (String.◌∷◌ c s) =
    let rest = before_last_dot s in
    elim rest [ some p ↦ some (String.◌∷◌ c p) | none ↦ if code c == b'.' then some "" else none ]

abbrev stem : String → String
stem s = or_else (before_last_dot s) s

abbrev head_trigger : List Step → Option String
head_trigger [] = none
head_trigger ((scope, verb, unit) ∷ steps) = some (stem unit)

abbrev trigger_of : Action → List Step → Option String
trigger_of run_now steps = head_trigger steps
trigger_of retry steps = head_trigger steps
trigger_of stop steps = head_trigger steps
trigger_of _ steps = none

module _ {E : Type 0} (sys : Systemd E) where
  abbrev pub mutate_all : List Step → M E (Unit {0})
  mutate_all [] = lift (value tt)
  mutate_all ((scope, verb, unit) ∷ steps) =
      let rest = mutate_all steps in do u ← mutate sys scope verb unit; rest

  abbrev pub read_run : List Step → M E (Unit {0})
  read_run [] = lift (value tt)
  read_run ((scope, verb, unit) ∷ steps) = do
    values ← show sys scope unit "InvocationID,ActiveState,ExecMainStartTimestamp"
    set_out (λ o. record o { run_id = given "InvocationID" values })

  abbrev pub await_first : List Step → M E (Unit {0})
  await_first [] = lift (value tt)
  await_first ((scope, verb, unit) ∷ steps) = await_stop sys scope unit

  -- What follows the mutations of an action.
  abbrev pub followed : Action → List Step → M E (Unit {0})
  followed run_now steps = read_run steps
  followed retry steps = read_run steps
  followed stop steps = await_first steps
  followed _ steps = lift (value tt)

  abbrev pub set_result : Outcome → M E (Unit {0})
  set_result o = set_out (λ out. record out { result = some o })

  -- `_execute`, from the plan on.
  abbrev pub carry_out : Action → List Step → M E (Unit {0})
  carry_out action steps = do
    t ← set_out (λ o. record o { trigger = trigger_of action steps })
    u ← mutate_all steps
    v ← followed action steps
    set_result applied

  abbrev pub planned : Action → Workflow → Request → Snapshot → M E (Unit {0})
  planned action w r before = do steps ← lift (plan action w r before); carry_out action steps

  abbrev pub resumed :
      List Receipt → ℕ → Option Stage → Workflow → Request → Snapshot → M E (Unit {0})
  resumed receipts now (some preview) w r before = do
    implication ← preview_implication sys before.units
    u ← set_out (λ o. record o { implication = some implication })
    set_result previewed
  resumed receipts now (some apply) w r before = do
    p ← lift (check_preview_token receipts r before now)
    u ← set_out (λ o. record o { preview_receipt = some p.receipt_id })
    planned resume w r before
  resumed receipts now none w r before = lift (refuse preview_required)

  -- `_execute`
  unfoldable pub execute :
      List Receipt → ℕ → Action → Request → Workflow → Snapshot → M E (Unit {0})
  unfolding plan check_preview_token mutate show await_stop preview_implication
  execute receipts now resume r w before = resumed receipts now r.stage w r before
  execute receipts now action r w before = planned action w r before

  abbrev pub settled : Runtime → ℕ → Bool → M E (Unit {0})
  settled r seconds true = await_settle sys r.scope (r.unit <> ".service") seconds
  settled r seconds false = lift (value tt)

  abbrev pub followed_runtime : Action → Runtime → ℕ → M E (Unit {0})
  followed_runtime stop r seconds = await_stop sys r.scope (r.unit <> ".service")
  followed_runtime start r seconds = settled r seconds true
  followed_runtime _ r seconds = do
    stopped_ ← await_stop_phase sys r.scope (r.unit <> ".service")
    settled r seconds stopped_

  -- `_execute_runtime`
  unfoldable pub execute_runtime : ℕ → Action → Runtime → M E (Unit {0})
  unfolding plan_runtime mutate await_stop await_stop_phase await_settle
  execute_runtime seconds action r =
      let (scope, verb, unit) = plan_runtime action r in
      do u ← mutate sys scope verb unit; v ← followed_runtime action r seconds; set_result applied
