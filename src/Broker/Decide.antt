-- ===== src/Broker/Decide.antt =====
-- bin/control_broker.py, the board decisions: `validate_board_request` and `handle_board`.
-- The stream of decisions is a list, the latest last. Signing and the write to the file are the
-- machine's: ssh-keygen gives a signature or fails, and a write succeeds or raises.
use hermes_agent_workforce_p.Prelude.{
  ℕ, String, Bool, true, false, not, ◌&&◌, ◌||◌, Option, none, some, List, [], ◌∷◌, ◌++◌, all,
  str_eq, has, ◌<>◌, strip, leb, length, is_some,
}
use hermes_agent_workforce_p.Prelude.Dict.{Dict, lookup, keys}
use hermes_agent_workforce_p.Dates.{codes}
use hermes_agent_workforce_p.Stamp.{Stamp, iso_utc}
use hermes_agent_workforce_p.Board.Texts.{normalise}
use hermes_agent_workforce_p.Broker.{
  Json, as_string, get, is_null, Answer, value, raised, demand, demand_some, ◌>>=◌, Code,
  bad_request, unknown_action, reason_required, hash_mismatch, peer_denied, not_allowlisted,
  refusal,
}
use hermes_agent_workforce_p.Broker.Names.{is_card_name, is_hash}
use hermes_agent_workforce_p.Broker.Allowlist.{load, board_verbs}
use hermes_agent_workforce_p.Broker.Request.{is_version, among, peer_allowed}
use hermes_agent_workforce_p.Broker.Receipts.{Actor, ActorKind, screen, cli}

-- What `validate_board_request` returns.
pub record Decided : Type 0 where
  pub decision : String
  pub card : String
  pub brief_hash : Option String
  pub page_hash : Option String
  pub text : Option String
  pub reason : Option String

-- A line of `decisions.jsonl`.
pub record Signed : Type 0 where
  pub id : String
  pub ts : Stamp
  pub decided : Decided
  pub via : ActorKind
  pub remote : Option String
  pub sig : Option String

-- `sign` is ssh-keygen on the record without its signature, `append` whether the write succeeded.
pub record Signer (E : Type 0) : Type 0 where
  pub sign : Signed → E → Option String × E
  pub append : Signed → E → Bool × E
  pub now : E → ℕ
  pub stamp_text : ℕ → String
  pub token_hex : E → String × E
  pub sha256 : String → String
  pub is_loopback : String → Bool

-- `BOARD_REQUEST_KEYS`
abbrev pub board_request_keys : List String
board_request_keys =
    "v" ∷ "board_verb" ∷ "card" ∷ "brief_hash" ∷ "page_hash" ∷ "text" ∷ "reason" ∷ "actor" ∷ []

-- `BOARD_FIELDS`
abbrev pub takes_brief : String → Bool
takes_brief verb = has verb ("brief_approved" ∷ "brief_returned" ∷ [])

abbrev pub takes_page : String → Bool
takes_page verb = str_eq verb "approved"

abbrev pub needs_reason : String → Bool
needs_reason verb = has verb ("brief_returned" ∷ "changes_requested" ∷ "rejected" ∷ [])

abbrev pub may_reason : String → Bool
may_reason verb = needs_reason verb || str_eq verb "blocked"

-- `page_text_hash`
unfoldable pub page_text_hash : (String → String) → String → String
page_text_hash sha256 text = sha256 (normalise text)

-- `_board_string`
unfoldable pub board_string : Dict Json → String → ℕ → Answer String
board_string d key limit = do
  s ← demand_some (as_string (get key d)) bad_request
  u ← demand (not (str_eq s "")) bad_request
  v ← demand (leb (length (codes s)) limit) bad_request
  value s

abbrev pub hash_field : Dict Json → String → Answer (Option String)
hash_field d key = do s ← board_string d key 64; u ← demand (is_hash s) bad_request; value (some s)

abbrev pub reason_field : Dict Json → Answer (Option String)
reason_field d = do
  s ← board_string d "reason" 2000
  u ← demand (not (str_eq (strip s) "")) reason_required
  value (some s)

abbrev pub text_field : Dict Json → Answer (Option String)
text_field d = do s ← board_string d "text" 262144; value (some s)

abbrev pub field_if : Bool → Answer (Option String) → Answer (Option String)
field_if false a = value none
field_if true a = a

-- A key that the verb does not take is not there.
abbrev pub absent_unless : Bool → String → Dict Json → Bool
absent_unless wanted key d = wanted || not (is_some (lookup key d))

-- The page hash is that of the text.
abbrev pub agrees : (String → String) → Option String → Option String → Bool
agrees sha256 (some text) (some hash) = str_eq (page_text_hash sha256 text) hash
agrees sha256 (some text) none = false
agrees sha256 none hash = true

abbrev pub checked_fields : (String → String) → Dict Json → String → String → Answer Decided
checked_fields sha256 d verb card = do
  u ←
      demand
        (absent_unless (takes_brief verb) "brief_hash" d
          && absent_unless (takes_page verb) "page_hash" d
          && absent_unless (takes_page verb) "text" d
          && absent_unless (may_reason verb) "reason" d)
        bad_request
  brief_hash ← field_if (takes_brief verb) (hash_field d "brief_hash")
  page_hash ← field_if (takes_page verb) (hash_field d "page_hash")
  text ← field_if (takes_page verb) (text_field d)
  reason ←
      field_if (needs_reason verb || (may_reason verb && not (is_null (get "reason" d))))
        (reason_field d)
  v ← demand (agrees sha256 text page_hash) hash_mismatch
  value (record {
    decision = verb;
    card = card;
    brief_hash = brief_hash;
    page_hash = page_hash;
    text = text;
    reason = reason;
  })

-- `validate_board_request`
unfoldable pub validate_board_request : (String → String) → Dict Json → Answer Decided
unfolding board_string page_text_hash
validate_board_request sha256 d = do
  u ← demand (all (among board_request_keys) (keys d)) bad_request
  v ← demand (is_version d) bad_request
  verb ← demand_some (as_string (get "board_verb" d)) unknown_action
  w ← demand (has verb board_verbs) unknown_action
  card ← demand_some (as_string (get "card" d)) bad_request
  x ← demand (is_card_name card) bad_request
  checked_fields sha256 d verb card

pub data BoardResponse : Type 0 where
  applied : Signed → BoardResponse
  refused : Code → BoardResponse
  failed : BoardResponse

module _ {E : Type 0} (sys : Signer E) where
  pub record Answered : Type 0 where
    pub response : BoardResponse
    pub stream : List Signed
    pub machine : E

  abbrev pub peer_checked : Actor → Answer (Unit {0})
  peer_checked actor = elim actor.kind [
    | cli ↦ value tt
    | screen ↦ demand (peer_allowed sys.is_loopback actor.remote actor.local) peer_denied
  ]

  -- The decision of a request, once every check of `handle_board` has passed.
  unfoldable pub decided : Option Json → Actor → Dict Json → Answer Decided
  unfolding validate_board_request load peer_allowed
  decided file actor d = do
    u ← peer_checked actor
    decision ← validate_board_request sys.sha256 d
    list ← load file
    v ← demand (has decision.decision list.board_verbs) not_allowlisted
    value decision

  abbrev pub appended : List Signed → Signed → Bool × E → Answered
  appended stream row (true, e) = record {
    response = applied row;
    stream = stream ++ (row ∷ []);
    machine = e;
  }
  appended stream row (false, e) = record { response = failed; stream = stream; machine = e }

  abbrev pub signed : List Signed → Signed → Option String × E → Answered
  signed stream row (none, e) = record { response = failed; stream = stream; machine = e }
  signed stream row (some sig, e) =
      appended stream (record row { sig = some sig }) (sys.append (record row { sig = some sig }) e)

  abbrev pub row_of : Actor → Decided → ℕ → String → Signed
  row_of actor d now hex = record {
    id = sys.stamp_text now <> "-" <> d.decision <> "-" <> hex;
    ts = iso_utc now;
    decided = d;
    via = actor.kind;
    remote = actor.remote;
    sig = none;
  }

  abbrev recorded : List Signed → Actor → Decided → ℕ → String × E → Answered
  recorded stream actor d now named =
      signed stream (row_of actor d now named.0) (sys.sign (row_of actor d now named.0) named.1)

  abbrev pub answered : List Signed → Actor → E → Answer Decided → Answered
  answered stream actor e (value d) = recorded stream actor d (sys.now e) (sys.token_hex e)
  answered stream actor e (raised (refusal r)) = record {
    response = refused r.code;
    stream = stream;
    machine = e;
  }
  answered stream actor e (raised _) = record { response = failed; stream = stream; machine = e }

  -- `handle_board`, on the allowlist file and the stream as they are.
  unfoldable pub handle_board : Option Json → List Signed → Actor → Dict Json → E → Answered
  unfolding decided
  handle_board file stream actor d e = answered stream actor e (decided file actor d)
