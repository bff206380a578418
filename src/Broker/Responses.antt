-- ===== src/Broker/Responses.antt =====
-- bin/control_broker.py, `_build_receipt` and `_response`: what is written and answered.
use hermes_agent_workforce_p.Prelude.{
  ℕ, zero, suc, String, Bool, true, false, Option, none, some, if◌then◌else◌, str_eq, ◌<>◌,
}
use hermes_agent_workforce_p.Prelude.Dict.{Dict, lookup}
use hermes_agent_workforce_p.Stamp.{iso_utc}
use hermes_agent_workforce_p.Broker.{
  Json, string, as_string, get, is_true, Action, action_name, resume, retry, Code, unknown_workflow,
  peer_denied, not_allowlisted, Refusal,
}
use hermes_agent_workforce_p.Broker.Allowlist.{Entry, workflow, runtime}
use hermes_agent_workforce_p.Broker.Machine.{
  Systemd, Run, Out, Outcome, applied, failed, previewed, Snapshot,
}
use hermes_agent_workforce_p.Broker.Units.{next_scheduled, timers_of}
use hermes_agent_workforce_p.Broker.Request.{Stage, preview, apply}
use hermes_agent_workforce_p.Broker.Receipts.{Actor, Receipt, is_previewed}

-- `s[:n]`
abbrev pub take_text : ℕ → String → String
take_text zero s = ""
take_text (suc n) String.[] = ""
take_text (suc n) (String.◌∷◌ c s) = String.◌∷◌ c (take_text n s)

module _ {E : Type 0} (sys : Systemd E) where
  -- `_short`
  abbrev short : Json → String
  short (string s) = take_text 200 s
  short j = take_text 200 (sys.dumps j)

  abbrev short_field : String → Dict Json → String
  short_field key raw = elim (lookup key raw) [ none ↦ "" | some j ↦ short j ]

  abbrev raw_stage : Option String → Option Stage
  raw_stage none = none
  raw_stage (some s) =
      if str_eq s "preview" then some preview else if str_eq s "apply" then some apply else none

  abbrev id_of : Option Entry → Option String
  id_of none = none
  id_of (some (workflow id w)) = some id
  id_of (some (runtime r actions)) = some r.unit

  abbrev owner_of : Option Entry → Option String
  owner_of (some (runtime r actions)) = some r.owner
  owner_of _ = none

  abbrev next_of : Option Snapshot → Option ℕ
  next_of none = none
  next_of (some s) = next_scheduled (timers_of s.units)

  abbrev is_state : String → Option Snapshot → Option Bool
  is_state state none = none
  is_state state (some s) = some (str_eq s.state state)

  abbrev is_applied : Option Outcome → Bool
  is_applied (some applied) = true
  is_applied _ = false

  abbrev catch_up_fired : Option Action → Out → Option Bool
  catch_up_fired (some resume) out =
      if is_applied out.result then is_state "running" out.after else none
  catch_up_fired _ out = none

  abbrev stage_for : Option Action → Dict Json → Option Stage
  stage_for (some resume) raw = raw_stage (as_string (get "stage" raw))
  stage_for _ raw = none

  abbrev retry_for : Option Action → Dict Json → Option String
  retry_for (some retry) raw = as_string (get "retry_of" raw)
  retry_for _ raw = none

  abbrev action_word : Option Action → String
  action_word none = "invalid"
  action_word (some a) = action_name a

  -- `_build_receipt`
  unfoldable pub build_receipt :
      Dict Json → Option Action → Option Entry → Actor → ℕ → ℕ → String → Run E → Receipt
  unfolding next_scheduled
  build_receipt raw action entry actor requested completed hex s = record {
    schema = 1;
    receipt_id = sys.stamp_text requested <> "-" <> action_word action <> "-" <> hex;
    workflow_id = id_of entry;
    requested_workflow_id = short_field "workflow_id" raw;
    action = action;
    requested_action = short_field "action" raw;
    stage = stage_for action raw;
    trigger = s.out.trigger;
    actor = actor;
    reason = as_string (get "reason" raw);
    confirm = is_true (get "confirm" raw);
    requested_at = some (iso_utc requested);
    completed_at = some (iso_utc completed);
    before = s.out.before;
    after = s.out.after;
    result = s.out.result;
    refusal = s.out.refusal;
    commands = s.commands;
    run_id = s.out.run_id;
    next_scheduled_run = next_of s.out.after;
    catch_up_fired = catch_up_fired action s.out;
    implication = s.out.implication;
    note = s.out.note;
    links = record {
      workflow = id_of entry;
      run = s.out.run_id;
      preview_receipt = s.out.preview_receipt;
      retry_of = retry_for action raw;
      agent = owner_of entry;
    };
  }

  abbrev status_of : Code → ℕ
  status_of unknown_workflow = 404
  status_of peer_denied = 403
  status_of not_allowlisted = 403
  status_of _ = 400

  -- `http_status` of `_response`
  unfoldable pub http_status : Option Outcome → Option Refusal → ℕ
  http_status (some applied) r = 200
  http_status (some previewed) r = 200
  http_status (some failed) r = 500
  http_status _ none = 400
  http_status _ (some r) = status_of r.code

  pub record Response : Type 0 where
    pub status : ℕ
    pub receipt : Receipt
    pub preview_token : Option String

  abbrev pub response_of : Receipt → Response
  response_of receipt = record {
    status = http_status receipt.result receipt.refusal;
    receipt = receipt;
    preview_token = if is_previewed receipt.result then some receipt.receipt_id else none;
  }
