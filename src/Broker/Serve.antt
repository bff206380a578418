-- ===== src/Broker/Serve.antt =====
-- bin/control_broker.py, `serve`: one line of the socket to one answer.
use hermes_agent_workforce_p.Prelude.{
  ℕ, Bool, true, false, not, ◌&&◌, Option, none, some, List, [], ◌∷◌, if◌then◌else◌, ltb, or_else,
  truthy, ◌<>◌, String, is_some, any, ◌==◌, ◌≡◌, refl,
}
use hermes_agent_workforce_p.Prelude.Dict.{Dict, lookup}
use hermes_agent_workforce_p.Broker.{Json, as_object, as_string, get, bad_request, peer_denied}
use hermes_agent_workforce_p.Broker.Receipts.{Actor, screen, Receipt, validate_receipt}
use hermes_agent_workforce_p.Broker.Machine.{Systemd, refused}
use hermes_agent_workforce_p.Stamp.{iso_utc, parse_time}
use hermes_agent_workforce_p.Broker.Target.{Incoming, rejected, body, target}
use hermes_agent_workforce_p.Broker.Handle.{Handled, handle}
use hermes_agent_workforce_p.Broker.Responses.{build_receipt, http_status, take_text}
use hermes_agent_workforce_p.Broker.Decide.{Signer, Signed, handle_board, Answered}

-- A line as `readline` gives it: its bytes, and the value that it decodes to.
pub record Line : Type 0 where
  pub size : ℕ
  pub json : Option Json

-- `is_board_request`, with the object
unfoldable pub board_body : Json → Option (Dict Json)
board_body j = elim (as_object j) [
  | none ↦ none
  | some d ↦ if is_some (lookup "board_verb" d) then some d else none
]

abbrev decoded : ℕ → Option Json → Incoming
decoded size none = rejected bad_request
decoded size (some j) =
    if ltb 8192 size && not (is_some (board_body j)) then rejected bad_request else body j

-- `read_request`
unfoldable pub read_request : Line → Incoming
unfolding board_body
read_request line =
    if ltb 262144 line.size then rejected bad_request else decoded line.size line.json

abbrev supplied : Incoming → Dict Json
supplied (rejected c) = []
supplied (body j) = or_else (as_object (get "actor" (or_else (as_object j) []))) []

abbrev or_unknown : Option String → String
or_unknown remote = if truthy remote then or_else remote "" else "unknown"

-- `_screen_actor`
unfoldable pub screen_actor : Incoming → Option ℕ → Actor
screen_actor incoming peer =
    let d = supplied incoming in
    let remote = as_string (get "remote" d) in
    record {
      kind = screen;
      label =
          take_text 200 (or_else (as_string (get "label" d)) ("screen from " <> or_unknown remote));
      remote = remote;
      local = as_string (get "local" d);
      user = none;
      peer = peer;
    }

abbrev unknown_peer : Option ℕ → Actor
unknown_peer peer = record {
  kind = screen;
  label = "unknown peer";
  remote = none;
  local = none;
  user = none;
  peer = peer;
}

-- The uid of the peer is one that may connect.
unfoldable pub may_connect : List ℕ → Option ℕ → Bool
may_connect uids none = false
may_connect uids (some uid) = any (λ u. u == uid) uids

-- The answer of a line: of the board, or of the workflows.
pub data Served (E : Type 0) (sys : Systemd E) (signer : Signer E) : Type 0 where
  of_board : Answered signer → Served E sys signer
  of_workflows : Option (Handled sys) → Served E sys signer

-- What the broker reads and keeps: the allowlist, the receipts, the stream, the settle window.
pub record Files : Type 0 where
  pub allowlist : Option Json
  pub receipts : List Receipt
  pub stream : List Signed
  pub settle : ℕ
  pub uids : List ℕ

module _ {E : Type 0} (sys : Systemd E) (signer : Signer E) where
  abbrev to_workflows : Files → Actor → Incoming → E → Served E sys signer
  to_workflows f actor incoming e =
      of_workflows (handle sys f.settle f.allowlist f.receipts actor incoming e)

  abbrev dispatched : Files → Actor → Incoming → E → Served E sys signer
  dispatched f actor (rejected c) e = to_workflows f actor (rejected c) e
  dispatched f actor (body j) e = elim (board_body j) [
    | none ↦ to_workflows f actor (body j) e
    | some d ↦ of_board (handle_board signer f.allowlist f.stream actor d e)
  ]

  abbrev admitted_peer : Bool → Files → Option ℕ → Incoming → E → Served E sys signer
  admitted_peer true f peer incoming e = dispatched f (screen_actor incoming peer) incoming e
  admitted_peer false f peer incoming e =
      to_workflows f (unknown_peer peer) (rejected peer_denied) e

  -- `serve`, on a socket
  unfoldable pub serve : Files → Option ℕ → Line → E → Served E sys signer
  unfolding read_request screen_actor may_connect board_body handle handle_board
  serve f peer line e = admitted_peer (may_connect f.uids peer) f peer (read_request line) e

  -- A process that may not connect is refused with 403, whatever its line says, and neither a
  -- command is run nor the stream of decisions touched; the refusal is receipted.
  pub serve-stranger :
      (f : Files) (peer : Option ℕ) (line : Line) (e : E)
      → may_connect f.uids peer ≡ false
      → (h : Handled sys) × (serve f peer line e ≡ of_workflows (some h))
        × (h.response.status ≡ 403)
        × (h.response.receipt.result ≡ some refused)
        × (h.response.receipt.commands ≡ [])
        × (h.receipts ≡ (h.response.receipt ∷ f.receipts))
  unfolding serve handle target build_receipt validate_receipt http_status iso_utc parse_time
  serve-stranger f peer line e n = rw n (_, refl, refl, refl, refl, refl)
