-- ===== src/Broker/Handle.antt =====
-- bin/control_broker.py, `handle`: one request to the end, with its receipt and its response.
use hermes_agent_workforce_p.Prelude.{
  ℕ, Bool, true, false, Option, none, some, List, [], ◌∷◌, if◌then◌else◌, or_else,
}
use hermes_agent_workforce_p.Prelude.Dict.{Dict}
use hermes_agent_workforce_p.Broker.{
  Json, as_object, as_string, get, Answer, value, raised, Action, action_of, resume, refusal,
  command_failed, escaped,
}
use hermes_agent_workforce_p.Broker.Allowlist.{Workflow, Runtime, Entry, workflow, runtime}
use hermes_agent_workforce_p.Broker.Machine.{
  Systemd, Run, M, ◌>>=◌, lift, set_out, holding_lock, Out, Outcome, refused, failed, previewed,
  failed_command, Snapshot, enter_lock,
}
use hermes_agent_workforce_p.Broker.Units.{reconcile, reconcile_runtime, check_loaded}
use hermes_agent_workforce_p.Broker.Request.{Request, Stage, preview, check_vocabulary}
use hermes_agent_workforce_p.Broker.Receipts.{Actor, Receipt, validate_receipt, is_clean}
use hermes_agent_workforce_p.Broker.Target.{Incoming, rejected, body, target}
use hermes_agent_workforce_p.Broker.Checks.{check_preconditions, check_runtime_preconditions}
use hermes_agent_workforce_p.Broker.Steps.{execute, execute_runtime}
use hermes_agent_workforce_p.Broker.Responses.{build_receipt, http_status, Response, response_of}

-- `except CommandFailed`: the result is failed, and the rest goes on.
abbrev pub caught : {E : Type 0} → Answer (Unit {0}) × Run E → Answer (Unit {0}) × Run E
caught (raised command_failed, s) =
    (value tt, record s { out = record s.out { result = some failed; note = some failed_command } })
caught (a, s) = (a, s)

abbrev is_kept : Option Outcome → Bool
is_kept (some previewed) = false
is_kept _ = true

module _ {E : Type 0} (sys : Systemd E) where
  abbrev pub catching : M E (Unit {0}) → M E (Unit {0})
  catching m s = caught (m s)

  abbrev pub see_after : M E Snapshot → M E (Unit {0})
  see_after view = do after ← view; set_out (λ o. record o { after = some after })

  abbrev pub after_if : Bool → M E Snapshot → M E (Unit {0})
  after_if true view = see_after view
  after_if false view = lift (value tt)

  abbrev pub unless_previewed : M E Snapshot → M E (Unit {0})
  unless_previewed view s = after_if (is_kept s.out.result) view s

  -- The body of `_handle_workflow`, under its lock.
  abbrev pub workflow_body : List Receipt → ℕ → Request → Workflow → M E (Unit {0})
  workflow_body receipts now r w = do
    before ← reconcile sys w
    a ← set_out (λ o. record o { before = some before })
    b ← lift (check_loaded before.units)
    c ← lift (check_preconditions r.action r before w)
    d ← catching (execute sys receipts now r.action r w before)
    unless_previewed (reconcile sys w)

  abbrev pub is_preview : Action → Option Stage → Bool
  is_preview resume (some preview) = true
  is_preview _ _ = false

  abbrev pub locking : Bool → M E (Unit {0}) → M E (Unit {0})
  locking true m = m
  locking false m = holding_lock sys m

  -- `_handle_workflow`
  unfoldable pub handle_workflow : List Receipt → ℕ → Request → Workflow → M E (Unit {0})
  unfolding reconcile check_loaded check_preconditions execute enter_lock
  handle_workflow receipts now r w =
      locking (is_preview r.action r.stage) (workflow_body receipts now r w)

  abbrev pub runtime_body : ℕ → Request → Runtime → M E (Unit {0})
  runtime_body seconds r run = do
    before ← reconcile_runtime sys run
    a ← set_out (λ o. record o { before = some before })
    b ← lift (check_loaded before.units)
    c ← lift (check_runtime_preconditions r.action r before)
    d ← catching (execute_runtime sys seconds r.action run)
    see_after (reconcile_runtime sys run)

  -- `_handle_runtime`
  unfoldable pub handle_runtime : ℕ → Request → Runtime → M E (Unit {0})
  unfolding reconcile_runtime check_loaded check_runtime_preconditions execute_runtime enter_lock
  handle_runtime seconds r run = holding_lock sys (runtime_body seconds r run)

  abbrev pub act : List Receipt → ℕ → ℕ → Request → Entry → M E (Unit {0})
  act receipts seconds now r (workflow id w) = handle_workflow receipts now r w
  act receipts seconds now r (runtime run actions) = do
    u ← set_out (λ o. record o { trigger = none })
    handle_runtime seconds r run

  -- `except Refusal` and `except CommandFailed` around it all; `none` when a loop did not end.
  abbrev pub ended : Answer (Unit {0}) × Run E → Option (Run E)
  ended (value u, s) = some s
  ended (raised (refusal r), s) =
      some (record s { out = record s.out { result = some refused; refusal = some r } })
  ended (raised command_failed, s) =
      some (record s { out = record s.out { result = some failed; note = some failed_command } })
  ended (raised escaped, s) = none

  abbrev pub raw_of : Incoming → Dict Json
  raw_of (rejected c) = []
  raw_of (body j) = or_else (as_object j) []

  abbrev pub start_out : Dict Json → Out
  start_out raw = record {
    result = none;
    refusal = none;
    before = none;
    after = none;
    implication = none;
    run_id = none;
    preview_receipt = none;
    note = none;
    trigger = as_string (get "trigger" raw);
  }

  pub record Handled : Type 0 where
    pub response : Response sys
    pub receipts : List Receipt
    pub machine : E

  -- `write_receipt`, which raises on a receipt that does not validate, and `_response`.
  abbrev pub written : List Receipt → Receipt → E → Option Handled
  written receipts receipt e =
      if is_clean (validate_receipt receipt)
      then some (record {
        response = response_of sys receipt;
        receipts = receipt ∷ receipts;
        machine = e;
      })
      else none

  abbrev pub recorded :
      Dict Json → Option Action → Option Entry → Actor → ℕ → List Receipt → Run E → Option Handled
  recorded raw action entry actor requested receipts s =
      let (hex, e) = sys.token_hex s.machine in
      written receipts
        (build_receipt sys raw action entry actor requested (sys.now s.machine) hex s) e

  abbrev pub or_escaped : Option (Run E) → (Run E → Option Handled) → Option Handled
  or_escaped none f = none
  or_escaped (some s) f = f s

  abbrev pub entry_of : Answer (Request × Entry) → Option Entry
  entry_of (raised e) = none
  entry_of (value (r, entry)) = some entry

  abbrev pub taken : List Receipt → ℕ → ℕ → Answer (Request × Entry) → M E (Unit {0})
  taken receipts seconds now (raised e) = lift (raised e)
  taken receipts seconds now (value (r, entry)) = do
    u ← lift (check_vocabulary entry r.action)
    act receipts seconds now r entry

  abbrev pub begin : Dict Json → E → Run E
  begin raw e = record { machine = e; commands = []; out = start_out raw }

  -- `handle`; `file` is the allowlist as it is read, `seconds` the settle window, `receipts` those
  -- written so far. `none` stands for an exception that escapes.
  unfoldable pub handle : ℕ → Option Json → List Receipt → Actor → Incoming → E → Option Handled
  unfolding target check_vocabulary handle_workflow handle_runtime build_receipt http_status
      validate_receipt
  handle seconds file receipts actor incoming e =
      let raw = raw_of incoming in
      let found = target sys actor file incoming in
      or_escaped (ended (taken receipts seconds (sys.now e) found (begin raw e)))
        (recorded raw (action_of (get "action" raw)) (entry_of found) actor (sys.now e) receipts)
