-- ===== src/Broker/Act.antt =====
-- bin/control_broker.py, `act`: a request of the command line, by the user at the box.
use hermes_agent_workforce_p.Prelude.{
  ℕ, String, Bool, true, false, Option, none, some, List, ◌||◌, ◌<>◌, if◌then◌else◌,
}
use hermes_agent_workforce_p.Broker.{Json, null, string, number, bool, object, member, closed}
use hermes_agent_workforce_p.Broker.Receipts.{Actor, cli, Receipt, is_previewed}
use hermes_agent_workforce_p.Broker.Machine.{Systemd, Outcome, applied}
use hermes_agent_workforce_p.Broker.Target.{body}
use hermes_agent_workforce_p.Broker.Handle.{Handled, handle}

-- The arguments of the subcommand, once argparse has taken them.
pub record Args : Type 0 where
  pub workflow_id : String
  pub action : String
  pub reason : Option String
  pub stage : Option String
  pub preview_token : Option String
  pub trigger : Option String
  pub confirm : Bool
  pub retry_of : Option String

abbrev or_null : Option String → Json
or_null none = null
or_null (some s) = string s

-- The request that `act` builds.
unfoldable request_of : Args → Json
request_of a = object (
    member "v" (number 1) (
      member "workflow_id" (string a.workflow_id) (
        member "action" (string a.action) (
          member "reason" (or_null a.reason) (
            member "stage" (or_null a.stage) (
              member "preview_token" (or_null a.preview_token) (
                member "trigger" (or_null a.trigger) (
                  member "confirm" (bool a.confirm)
                    (member "retry_of" (or_null a.retry_of) closed)))))))))

-- `_default_actor`
unfoldable default_actor : String → Actor
default_actor user = record {
  kind = cli;
  label = user <> " via cli";
  remote = none;
  local = none;
  user = some user;
  peer = none;
}

abbrev is_applied : Option Outcome → Bool
is_applied (some applied) = true
is_applied _ = false

module _ {E : Type 0} (sys : Systemd E) where
  -- `act`: its exit status, with what `handle` leaves.
  abbrev exits : Option (Handled sys) → Option (ℕ × Handled sys)
  exits none = none
  exits (some h) =
      let result = h.response.receipt.result in
      some (if is_applied result || is_previewed result then 0 else 1, h)

  unfoldable pub act : ℕ → Option Json → List Receipt → String → Args → E → Option (ℕ × Handled sys)
  unfolding request_of default_actor handle
  act seconds file receipts user args e =
      exits (handle sys seconds file receipts (default_actor user) (body (request_of args)) e)
