-- ===== src/Broker.antt =====
-- bin/control_broker.py: the root-owned half of the live workflow controls.
-- A request is a JSON value that any process on the socket may have sent. The broker answers it by
-- the allowlist, by what systemctl shows before and after, and by a receipt. The wording of a
-- refusal and of a note is not modelled; their codes are.
pub mod Names
pub mod Allowlist
pub mod Machine
pub mod Units
pub mod Implication
pub mod Request
pub mod Receipts
pub mod Checks
pub mod Steps
pub mod Target
pub mod Responses
pub mod Handle
pub mod Decide
pub mod Serve
pub mod Act
pub mod Keeps
pub mod Looks
pub mod Views
pub mod Previewed
pub mod Permitted
pub mod Refuses
pub mod Course
pub mod Bodies
pub mod Parsed
pub mod Receipted
pub mod Ended
pub mod Untouched
pub mod Allowed
pub mod Stream
mod Tests
use hermes_agent_workforce_p.Prelude.{
  ℕ, ◌≡◌, refl, String, Bool, true, false, Option, none, some, List, [], ◌∷◌, ◌==◌, str_eq, not,
  if◌then◌else◌,
}
use hermes_agent_workforce_p.Prelude.Dict.{Dict, lookup}

mutual
  -- What `json.loads` returns: `number` is a whole number from 0 on, `real` any other.
  pub data Json : Type 0 where
    null real : Json
    bool : Bool → Json
    number : ℕ → Json
    string : String → Json
    array : Elements → Json
    object : Members → Json

  pub data Elements : Type 0 where
    end : Elements
    element : Json → Elements → Elements

  pub data Members : Type 0 where
    closed : Members
    member : String → Json → Members → Members

abbrev pub elements : Elements → List Json
elements end = []
elements (element j js) = j ∷ elements js

abbrev pub members : Members → Dict Json
members closed = []
members (member k j js) = (k, j) ∷ members js

-- `isinstance(x, dict)`, with the dict; and the same of lists, texts and Booleans.
abbrev pub as_object : Json → Option (Dict Json)
as_object (object js) = some (members js)
as_object _ = none

abbrev pub as_array : Json → Option (List Json)
as_array (array js) = some (elements js)
as_array _ = none

abbrev pub as_string : Json → Option String
as_string (string s) = some s
as_string _ = none

-- A field that is absent reads as `None`.
abbrev pub get : String → Dict Json → Json
get k d = elim (lookup k d) [ none ↦ null | some j ↦ j ]

-- `x == 1`, which `True` is.
abbrev pub is_one : Json → Bool
is_one (bool b) = b
is_one (number n) = n == 1
is_one _ = false

abbrev pub is_true : Json → Bool
is_true (bool b) = b
is_true _ = false

abbrev pub is_null : Json → Bool
is_null null = true
is_null _ = false

abbrev pub is_text : Json → Bool
is_text (string s) = true
is_text _ = false

-- The truth of a value in a Python test.
abbrev pub truth : Json → Bool
truth null = false
truth real = true
truth (bool b) = b
truth (number n) = not (n == 0)
truth (string s) = not (str_eq s "")
truth (array end) = false
truth (array (element j js)) = true
truth (object closed) = false
truth (object (member k j js)) = true

-- `REFUSAL_CODES`
pub data Code : Type 0 where
  bad_request unknown_action unknown_workflow not_allowlisted unit_not_found : Code
  masked peer_denied allowlist_invalid locked state_conflict preview_required : Code
  preview_stale trigger_required not_idempotent confirmation_required : Code
  reason_required hash_mismatch : Code

-- `Refusal`, without its message.
pub record Refusal : Type 0 where
  pub code : Code
  pub choices : Option (List String)

-- What a step raises: a `Refusal` or a `CommandFailed`. `escaped` is an
-- exception that nothing catches, and a loop whose fuel ran out.
pub data Exception : Type 0 where
  refusal : Refusal → Exception
  command_failed escaped : Exception

pub data Answer {ℓ} (A : Type ℓ) : Type ℓ where
  value : A → Answer A
  raised : Exception → Answer A

infixl 10 ◌>>=◌
abbrev pub ◌>>=◌ {ℓ κ} : {A : Type ℓ} {B : Type κ} → Answer A → (A → Answer B) → Answer B
value a >>= f = f a
raised e >>= f = raised e

abbrev pub refuse {ℓ} : {A : Type ℓ} → Code → Answer A
refuse c = raised (refusal (record { code = c; choices = none }))

-- `if not test: raise Refusal(code)`
abbrev pub demand : Bool → Code → Answer (Unit {0})
demand true c = value tt
demand false c = refuse c

abbrev pub demand_some {ℓ} : {A : Type ℓ} → Option A → Code → Answer A
demand_some none c = refuse c
demand_some (some a) c = value a

-- A check that passes got a value from its first step, and passes with it.
pub value_before {ℓ κ} :
    {A : Type ℓ} {B : Type κ} {b : B} (first : Answer A) (rest : A → Answer B)
    → (first >>= rest) ≡ value b
    → (a : A) × (first ≡ value a) × (rest a ≡ value b)
value_before (raised e) rest h = cc
value_before (value a) rest h = (a, refl, h)

pub demand-value : (t : Bool) (c : Code) {u : Unit {0}} → demand t c ≡ value u → t ≡ true
demand-value true c h = refl
demand-value false c h = cc

pub data Scope : Type 0 where
  system user : Scope

-- `scope in ("system", "user")`
abbrev pub scope_of : Json → Option Scope
scope_of (string s) =
    if str_eq s "system" then some system else if str_eq s "user" then some user else none
scope_of _ = none

pub data Action : Type 0 where
  pause resume run_now retry stop start restart : Action

abbrev pub action_name : Action → String
action_name pause = "pause"
action_name resume = "resume"
action_name run_now = "run_now"
action_name retry = "retry"
action_name stop = "stop"
action_name start = "start"
action_name restart = "restart"

-- `action in ALL_ACTIONS`
abbrev pub action_of : Json → Option Action
action_of (string s) =
    if str_eq s "pause"
    then some pause
    else if str_eq s "resume"
    then some resume
    else if str_eq s "run_now"
    then some run_now
    else if str_eq s "retry"
    then some retry
    else if str_eq s "stop"
    then some stop
    else if str_eq s "start"
    then some start
    else if str_eq s "restart"
    then some restart
    else none
action_of _ = none

abbrev pub is_action : Action → Action → Bool
is_action a b = str_eq (action_name a) (action_name b)

-- `ACTIONS`, `RUNTIME_ACTIONS` and `INSTANCE_ACTIONS`
abbrev pub in_actions : Action → Bool
in_actions start = false
in_actions restart = false
in_actions _ = true

abbrev pub in_runtime_actions : Action → Bool
in_runtime_actions start = true
in_runtime_actions stop = true
in_runtime_actions restart = true
in_runtime_actions _ = false

abbrev pub in_instance_actions : Action → Bool
in_instance_actions stop = true
in_instance_actions _ = false
