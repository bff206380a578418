-- ===== src/Broker/Request.antt =====
-- bin/control_broker.py, the request: `validate_request`, which returns the request at its types,
-- the peer gate, `check_vocabulary` and `choose_trigger`.
use hermes_agent_workforce_p.Prelude.{
  String, Bool, true, false, not, ◌&&◌, ◌||◌, Option, none, some, List, [], ◌∷◌, map, any, all,
  if◌then◌else◌, str_eq, has, truthy, opt_eq, leb, length, sorted, str_leb,
}
use hermes_agent_workforce_p.Prelude.Dict.{Dict, lookup, keys}
use hermes_agent_workforce_p.Dates.{codes}
use hermes_agent_workforce_p.Broker.{
  Json, null, string, bool, as_object, as_string, get, is_one, is_text, is_true, Answer, value,
  raised, refuse, demand, demand_some, ◌>>=◌, Action, action_of, resume, is_action, in_actions,
  in_runtime_actions, bad_request, unknown_action, state_conflict, trigger_required, refusal,
}
use hermes_agent_workforce_p.Broker.Names.{is_unit, is_runtime}
use hermes_agent_workforce_p.Broker.Allowlist.{Trigger, Workflow, Entry, workflow, runtime}

pub data Stage : Type 0 where
  preview apply : Stage

pub record Request : Type 0 where
  pub workflow_id : String
  pub action : Action
  pub reason : Option String
  pub stage : Option Stage
  pub preview_token : Option String
  pub trigger : Option String
  pub confirm : Bool
  pub retry_of : Option String

-- `REQUEST_KEYS`
abbrev request_keys : List String
request_keys =
    "v" ∷ "workflow_id" ∷ "action" ∷ "reason" ∷ "stage" ∷ "preview_token" ∷ "trigger" ∷ "confirm"
    ∷ "retry_of" ∷ "actor" ∷ []

abbrev pub among : List String → String → Bool
among ks k = has k ks

-- `request.get("v", 1) == 1`
abbrev pub is_version : Dict Json → Bool
is_version d = elim (lookup "v" d) [ none ↦ true | some j ↦ is_one j ]

-- A text or null, of at most `limit` characters.
abbrev is_short : Json → Bool
is_short null = true
is_short (string s) = leb (length (codes s)) 200
is_short _ = false

abbrev pub text_or_null : Json → Bool
text_or_null null = true
text_or_null (string s) = true
text_or_null _ = false

abbrev is_confirm : Option Json → Bool
is_confirm none = true
is_confirm (some (bool b)) = true
is_confirm (some _) = false

abbrev is_actor : Json → Bool
is_actor null = true
is_actor j = elim (as_object j) [
  | none ↦ false
  | some d ↦
      text_or_null (get "remote" d) && text_or_null (get "local" d) && text_or_null (get "label" d)
]

abbrev stage_of : String → Option Stage
stage_of s =
    if str_eq s "preview" then some preview else if str_eq s "apply" then some apply else none

abbrev pub checked_stage : Action → Option String → Answer (Option Stage)
checked_stage action none = value none
checked_stage action (some s) = do
  u ← demand (is_action action resume) bad_request
  stage ← demand_some (stage_of s) bad_request
  value (some stage)

abbrev trigger_fits : Option String → Bool
trigger_fits none = true
trigger_fits (some s) = is_unit s

-- The fields of a request whose values have been checked.
abbrev pub shapes : Dict Json → Answer (Unit {0})
shapes d = do
  a ← demand (all (among request_keys) (keys d)) bad_request
  b ← demand (is_version d) bad_request
  c ← demand (is_text (get "workflow_id" d) && is_text (get "action" d)) bad_request
  e ← demand (text_or_null (get "reason" d)) bad_request
  f ←
      demand
        (is_short (get "stage" d)
          && is_short (get "preview_token" d)
          && is_short (get "trigger" d)
          && is_short (get "retry_of" d))
        bad_request
  g ← demand (is_confirm (lookup "confirm" d)) bad_request
  demand (is_actor (get "actor" d)) bad_request

abbrev pub fields : Dict Json → Answer Request
fields d = do
  action ← demand_some (action_of (get "action" d)) unknown_action
  id ← demand_some (as_string (get "workflow_id" d)) bad_request
  u ← demand (is_unit id || is_runtime id) bad_request
  v ← demand (trigger_fits (as_string (get "trigger" d))) bad_request
  stage ← checked_stage action (as_string (get "stage" d))
  value (record {
    workflow_id = id;
    action = action;
    reason = as_string (get "reason" d);
    stage = stage;
    preview_token = as_string (get "preview_token" d);
    trigger = as_string (get "trigger" d);
    confirm = is_true (get "confirm" d);
    retry_of = as_string (get "retry_of" d);
  })

-- `validate_request`
unfoldable pub validate_request : Json → Answer Request
validate_request j = do d ← demand_some (as_object j) bad_request; u ← shapes d; fields d

-- `_is_loopback`, on an address that may be missing
abbrev at_loopback : (String → Bool) → Option String → Bool
at_loopback is_loopback none = false
at_loopback is_loopback (some s) = is_loopback s

-- `peer_allowed`; `is_loopback` is `ipaddress`.
unfoldable pub peer_allowed : (String → Bool) → Option String → Option String → Bool
peer_allowed is_loopback remote local =
    if at_loopback is_loopback local
    then true
    else if not (truthy remote)
    then false
    else if at_loopback is_loopback remote
    then false
    else not (opt_eq remote local)

abbrev pub contains : List Action → Action → Bool
contains actions a = any (is_action a) actions

-- `check_vocabulary`
unfoldable pub check_vocabulary : Entry → Action → Answer (Unit {0})
check_vocabulary (workflow id w) action = demand (in_actions action) unknown_action
check_vocabulary (runtime r none) action = demand (in_runtime_actions action) unknown_action
check_vocabulary (runtime r (some actions)) action = do
  u ← demand (contains actions action) unknown_action
  demand (in_runtime_actions action) unknown_action

abbrev pub unit_of : Trigger → String
unit_of t = t.unit

-- The choice among the candidates when the request names no trigger.
abbrev pub only_candidate : List String → Answer String
only_candidate [] = refuse state_conflict
only_candidate (c ∷ []) = value c
only_candidate (c ∷ d ∷ cs) =
    raised
      (refusal (record { code = trigger_required; choices = some (sorted str_leb (c ∷ d ∷ cs)) }))

abbrev pub chosen : Option String → List String → List String → Answer String
chosen (some wanted) units candidates = do u ← demand (has wanted units) bad_request; value wanted
chosen none units candidates = only_candidate candidates

-- `choose_trigger`
unfoldable pub choose_trigger : Workflow → Request → List String → Answer String
choose_trigger w r candidates = chosen r.trigger (map unit_of w.triggers) candidates
