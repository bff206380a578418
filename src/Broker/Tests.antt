-- ===== src/Broker/Tests.antt =====
-- A box with one workflow and one runtime, its requests, and the broker's answers.
use hermes_agent_workforce_p.Prelude.{
  arith, ℕ, ◌+◌, ◌≡◌, refl, String, Bool, true, false, not, Option, none, some, List, [], ◌∷◌,
  if◌then◌else◌, str_eq, strip, ◌<>◌, is_some,
}
use hermes_agent_workforce_p.Broker.{
  Json, string, number, bool, object, array, member, closed, element, end, system, Members, members,
}
use hermes_agent_workforce_p.Broker.Machine.{Systemd, refused, set_out}
use hermes_agent_workforce_p.Broker.Receipts.{Actor, cli, validate_receipt}
use hermes_agent_workforce_p.Stamp.{iso_utc, parse_time}
use hermes_agent_workforce_p.Broker.Names.{is_unit}
use hermes_agent_workforce_p.Broker.Units.{service_view, timer_view}
use hermes_agent_workforce_p.Broker.Target.{body}
use hermes_agent_workforce_p.Broker.Handle.{Handled, handle}
use hermes_agent_workforce_p.Broker.Looks.{Ticks}
use hermes_agent_workforce_p.Broker.Receipted.{handle_receipted}
use hermes_agent_workforce_p.Broker.Ended.{mutations}
use hermes_agent_workforce_p.Broker.Untouched.{refused-untouched}
use hermes_agent_workforce_p.Broker.Allowed.{mutations-Permitted, Lawfully}
use hermes_agent_workforce_p.Broker.Decide.{Signer, handle_board}
use hermes_agent_workforce_p.Broker.Stream.{handle_board-Grown, Grown}
use hermes_agent_workforce_p.Broker.Act.{Args, act}
use hermes_agent_workforce_p.Broker.Serve.{serve-stranger, Files, of_workflows, serve, may_connect}

-- Its timer is on or off, and nothing runs.
record Box : Type 0 where
  clock : ℕ
  is_on : Bool

abbrev shown : Box → List String
shown b =
    ("ActiveState=" <> (if b.is_on then "active" else "inactive"))
    ∷ "SubState=waiting"
    ∷ "UnitFileState=enabled"
    ∷ "LoadState=loaded"
    ∷ []

abbrev box : Systemd Box
box = record {
  show = λ scope unit properties b. (some (shown b), b);
  mutate = λ scope verb unit b. (true, record b { is_on = not (str_eq verb "disable") });
  calendar = λ spec b. (some (200, 300), b);
  stamp = λ scope unit b. some 100;
  take_lock = λ b. (true, b);
  release_lock = λ b. b;
  monotonic = λ b. b.clock;
  sleep = λ ms b. record b { clock = b.clock + ms };
  now = λ b. 1000;
  read_time = λ s. none;
  specs = λ s. [];
  digest = λ rows. "0";
  stamp_text = λ t. "20260911T063000Z";
  token_hex = λ b. ("0a1b2c", b);
  dumps = λ j. "";
  is_loopback = λ s. false;
}

box-Ticks : Ticks box
box-Ticks = record {
  showing = λ scope unit properties e. ground arith;
  taking = λ e. ground arith;
  sleeping = λ ms e. ground arith;
}

abbrev object_of : Members → Json
object_of ms = object ms

abbrev trigger_row : Json
trigger_row = object (member "unit" (string "digest") (member "scope" (string "system") closed))

abbrev file : Json
file = object (
    member "schema" (number 1) (
      member "workflows"
        (object (
          member "digest" (object (member "triggers" (array (element trigger_row end)) closed))
            closed))
        (member "excluded" (array end) (
          member "board" (object (member "verbs" (array (element (string "blocked") end)) closed))
            closed))))

abbrev request : String → Json
request action = object (
    member "workflow_id" (string "digest") (
      member "action" (string action)
        (member "reason" (string "maintenance") (member "confirm" (bool true) closed))))

abbrev operator : Actor
operator = record {
  kind = cli;
  label = "root via cli";
  remote = none;
  local = none;
  user = some "root";
  peer = none;
}

abbrev start : Box
start = record { clock = 0; is_on = true }

abbrev from_some : {A : Type 0} (o : Option A) → is_some o ≡ true → A
from_some none h = cc
from_some (some a) h = a

-- A pause of the timer, and a stop of what does not run.
unfoldable paused : Handled box
unfolding handle is_unit set_out service_view strip timer_view parse_time iso_utc
paused = from_some (handle box 0 (some file) [] operator (body (request "pause")) start) refl

unfoldable unstopped : Handled box
unfolding handle is_unit set_out service_view strip timer_view parse_time iso_utc
unstopped = from_some (handle box 0 (some file) [] operator (body (request "stop")) start) refl

paused_steps :
    mutations paused.response.receipt.commands ≡ ((system, "disable", "digest.timer") ∷ [])
unfolding paused mutations
paused_steps = refl

abbrev typed : String → Args
typed action = record {
  workflow_id = "digest";
  action = action;
  reason = some "maintenance";
  stage = none;
  preview_token = none;
  trigger = none;
  confirm = true;
  retry_of = none;
}

abbrev status : String → Option ℕ
status action = elim (act box 0 (some file) [] "root" (typed action) start) [
  | none ↦ none
  | some (code, h) ↦ some code
]

-- A pause from the command line exits with 0, and a stop that is refused with 1.
pause_status : status "pause" ≡ some 0
unfolding act handle is_unit set_out service_view strip timer_view parse_time iso_utc
pause_status = refl

stop_status : status "stop" ≡ some 1
unfolding act handle is_unit set_out service_view strip timer_view parse_time iso_utc
stop_status = refl

refused-untouched_example : mutations unstopped.response.receipt.commands ≡ []
unfolding unstopped handle is_unit set_out service_view strip timer_view parse_time iso_utc
refused-untouched_example =
    refused-untouched box 0 (some file) [] operator (body (request "stop")) start unstopped refl
      refl

handle_receipted_example :
    (h : Handled box) × (handle box 6 (some file) [] operator (body (request "run_now")) start
      ≡ some h)
    × (validate_receipt h.response.receipt ≡ [])
    × (h.receipts ≡ (h.response.receipt ∷ []))
handle_receipted_example =
    handle_receipted box box-Ticks 6 (some file) [] operator (body (request "run_now")) start

mutations-Permitted_example :
    Lawfully box
      (some file)
      []
      operator
      (body (request "pause"))
      start
      (mutations paused.response.receipt.commands)
unfolding paused handle is_unit set_out service_view strip timer_view parse_time iso_utc
mutations-Permitted_example =
    mutations-Permitted box 0 (some file) [] operator (body (request "pause")) start paused refl

abbrev files : Files
files = record { allowlist = some file; receipts = []; stream = []; settle = 6; uids = 1000 ∷ [] }

abbrev signer : Signer Box
signer = record {
  sign = λ row b. (some "signature", b);
  append = λ row b. (true, b);
  now = λ b. 1000;
  stamp_text = λ t. "20260911T063000Z";
  token_hex = λ b. ("0a1b2c", b);
  sha256 = λ s. s;
  is_loopback = λ s. false;
}

abbrev blocked_members : Members
blocked_members =
    member "board_verb" (string "blocked")
      (member "card" (string "brief-of-the-day") (member "reason" (string "waits") closed))

handle_board-Grown_example :
    Grown signer
      (some file)
      []
      operator
      start
      (handle_board signer (some file) [] operator (members blocked_members) start)
handle_board-Grown_example =
    handle_board-Grown signer (some file) [] operator (members blocked_members) start

serve-stranger_example :
    (h : Handled box) × (serve box signer files
        (some 1001)
        (record { size = 40; json = some (request "pause") })
        start
      ≡ of_workflows (some h))
    × (h.response.status ≡ 403)
    × (h.response.receipt.result ≡ some refused)
    × (h.response.receipt.commands ≡ [])
    × (h.receipts ≡ (h.response.receipt ∷ []))
unfolding may_connect
serve-stranger_example =
    serve-stranger box signer files (some 1001)
      (record { size = 40; json = some (request "pause") }) start refl
