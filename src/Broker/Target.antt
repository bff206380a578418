-- ===== src/Broker/Target.antt =====
-- bin/control_broker.py, `handle`: from the request to the entry of its id.
use hermes_agent_workforce_p.Prelude.{Option}
use hermes_agent_workforce_p.Broker.{Json, Answer, value, refuse, demand, ◌>>=◌, Code, peer_denied}
use hermes_agent_workforce_p.Broker.Allowlist.{Entry, load, lookup_entry}
use hermes_agent_workforce_p.Broker.Machine.{Systemd}
use hermes_agent_workforce_p.Broker.Request.{Request, validate_request, peer_allowed}
use hermes_agent_workforce_p.Broker.Receipts.{Actor, screen, cli}

-- The request as `serve` and `act` pass it on: a refusal, or a JSON value.
pub data Incoming : Type 0 where
  rejected : Code → Incoming
  body : Json → Incoming

module _ {E : Type 0} (sys : Systemd E) where
  abbrev pub peer_checked : Actor → Answer (Unit {0})
  peer_checked actor = elim actor.kind [
    | cli ↦ value tt
    | screen ↦ demand (peer_allowed sys.is_loopback actor.remote actor.local) peer_denied
  ]

  abbrev pub parsed : Incoming → Answer Request
  parsed (rejected c) = refuse c
  parsed (body j) = validate_request j

  -- `handle`, up to the entry of the request's id
  unfoldable pub target : Actor → Option Json → Incoming → Answer (Request × Entry)
  unfolding load lookup_entry validate_request peer_allowed
  target actor file incoming = do
    r ← parsed incoming
    u ← peer_checked actor
    list ← load file
    entry ← lookup_entry r.workflow_id list
    value (r, entry)
