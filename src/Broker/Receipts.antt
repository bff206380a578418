-- ===== src/Broker/Receipts.antt =====
-- bin/control_broker.py, the receipts: their shape, `validate_receipt`, and `load_preview_receipt`.
-- The receipts of one root are a list, the latest first: a receipt lies in the directory of its
-- workflow, or in `_refused`, under its id. What the types of a record say is not tested again.
use hermes_agent_workforce_p.Prelude.{
  ℕ, String, Bool, true, false, not, ◌&&◌, Option, none, some, List, [], ◌∷◌, ◌++◌, if◌then◌else◌,
  str_eq, ◌==◌, is_some,
}
use hermes_agent_workforce_p.Stamp.{Stamp, parse_time}
use hermes_agent_workforce_p.Broker.{Action, Refusal}
use hermes_agent_workforce_p.Broker.Names.{is_token}
use hermes_agent_workforce_p.Broker.Machine.{
  Command, Note, Outcome, refused, previewed, Snapshot, Implication,
}
use hermes_agent_workforce_p.Broker.Request.{Stage}

pub data ActorKind : Type 0 where
  screen cli : ActorKind

pub record Actor : Type 0 where
  pub kind : ActorKind
  pub label : String
  pub remote : Option String
  pub local : Option String
  pub user : Option String
  pub peer : Option ℕ

-- `_links` of a receipt, as the ids in them.
pub record Links : Type 0 where
  pub workflow : Option String
  pub run : Option String
  pub preview_receipt : Option String
  pub retry_of : Option String
  pub agent : Option String

-- `RECEIPT_KEYS`
pub record Receipt : Type 0 where
  pub schema : ℕ
  pub receipt_id : String
  pub workflow_id : Option String
  pub requested_workflow_id : String
  pub action : Option Action
  pub requested_action : String
  pub stage : Option Stage
  pub trigger : Option String
  pub actor : Actor
  pub reason : Option String
  pub confirm : Bool
  pub requested_at : Option Stamp
  pub completed_at : Option Stamp
  pub before : Option Snapshot
  pub after : Option Snapshot
  pub result : Option Outcome
  pub refusal : Option Refusal
  pub commands : List Command
  pub run_id : Option String
  pub next_scheduled_run : Option ℕ
  pub catch_up_fired : Option Bool
  pub implication : Option Implication
  pub note : Option Note
  pub links : Links

pub data ReceiptError : Type 0 where
  schema_not_one result_outside no_refusal_code stray_refusal timestamps : ReceiptError

abbrev see : Bool → ReceiptError → List ReceiptError
see true e = e ∷ []
see false e = []

abbrev pub is_refused : Option Outcome → Bool
is_refused (some refused) = true
is_refused _ = false

abbrev pub is_previewed : Option Outcome → Bool
is_previewed (some previewed) = true
is_previewed _ = false

-- `validate_receipt`
unfoldable pub validate_receipt : Receipt → List ReceiptError
validate_receipt r =
    see (not (r.schema == 1)) schema_not_one
    ++ see (not (is_some r.result)) result_outside
    ++ see (is_refused r.result && not (is_some r.refusal)) no_refusal_code
    ++ see (not (is_refused r.result) && is_some r.refusal) stray_refusal
    ++ see (not (is_some (parse_time r.requested_at) && is_some (parse_time r.completed_at)))
        timestamps

abbrev pub is_clean : List ReceiptError → Bool
is_clean [] = true
is_clean (e ∷ es) = false

abbrev pub is_in : String → Option String → Bool
is_in id none = false
is_in id (some w) = str_eq w id

abbrev pub find_receipt : String → String → List Receipt → Option Receipt
find_receipt id token [] = none
find_receipt id token (r ∷ rs) =
    if is_in id r.workflow_id && str_eq r.receipt_id token then some r else find_receipt id token rs

abbrev pub if_valid : Option Receipt → Option Receipt
if_valid none = none
if_valid (some r) = if is_clean (validate_receipt r) then some r else none

-- `load_preview_receipt`
unfoldable pub load_preview_receipt : List Receipt → String → String → Option Receipt
unfolding validate_receipt
load_preview_receipt receipts id token =
    if is_token token then if_valid (find_receipt id token receipts) else none
