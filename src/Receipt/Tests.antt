-- ===== src/Receipt/Tests.antt =====
-- A receipt, and the theorems about it at concrete inputs.
use hermes_agent_workforce_p.Prelude.{
  ℕ, ◌≡◌, ◌≢◌, refl, String, false, none, some, List, [], ◌∷◌, In, strip,
}
use hermes_agent_workforce_p.Prelude.Dict.{lookup}
use hermes_agent_workforce_p.Stamp.{at, iso_utc, parse_time}
use hermes_agent_workforce_p.Receipt.{
  Receipt, Assertion, shaped, validate, missing_errors, run_errors, has_failure, closed_errors,
  swept_errors, card_errors, is_card_slug, is_hash,
}
use hermes_agent_workforce_p.Receipt.Amend.{
  ok, refused, already_closed, already_swept, close, judged, sweep_pending, amend, amended_terminal,
  is_sweep, failed_ids, index_by_id,
}
use hermes_agent_workforce_p.Receipt.Closing.{close-validate}
use hermes_agent_workforce_p.Receipt.Sweeping.{amend-swept}

all_open : Unit {0}
unfolding iso_utc parse_time strip validate missing_errors run_errors has_failure closed_errors
    swept_errors card_errors is_card_slug is_hash close sweep_pending amend amended_terminal
all_open = tt

abbrev check : String → String → String → Assertion
check id status vantage = record {
  id = id;
  status = some status;
  vantage = some vantage;
  reason = none;
}

abbrev receipt : Receipt
receipt = record {
  schema_version = some (shaped 1);
  workflow_id = some (shaped "daily-plan");
  run_id = some (shaped "r1");
  started_at = some (at 10);
  ended_at = some (at 20);
  vantage = some "run";
  terminal = record { outcome = some "decline"; reason = some "quiet" };
  assertions = check "wrote" "passed" "run" ∷ check "merged" "not_applicable" "sweep" ∷ [];
  usage = record {
    status = some "unavailable";
    input_tokens = none;
    output_tokens = none;
    cache_tokens = none;
    total_tokens = none;
  };
  cost = record { status = some "measured"; amount = some (shaped 3) };
  artifact_uri = none;
  state_evidence = none;
  card = none;
  closed = none;
  swept = none;
}

receipt_valid : validate receipt ≡ []
unfolding all_open
receipt_valid = refl

abbrev fresh : List Assertion
fresh = check "merged" "failed" "sweep" ∷ []

abbrev amended_receipt : Receipt
amended_receipt = record receipt {
  assertions = check "wrote" "passed" "run" ∷ check "merged" "failed" "sweep" ∷ [];
  terminal = record {
    outcome = some "failed";
    reason = some "failed sweep checks: merged; run outcome was decline: quiet";
  };
  swept = some (shaped (record { swept_at = some (at 30); sweep_run_id = some "s1" }));
}

receipt_amended : amend receipt fresh " s1 " 30 ≡ ok amended_receipt
unfolding all_open
receipt_amended = refl

amended_valid : validate amended_receipt ≡ []
unfolding all_open
amended_valid = refl

amend-swept_example :
    ((fresh' : List Assertion) (sweep' : String) (now' : ℕ)
      → amend amended_receipt fresh' sweep' now' ≡ refused already_swept)
    × ((a : Assertion)
        → In a receipt.assertions
        → is_sweep a ≡ false
        → In a amended_receipt.assertions)
    × ((k : String) (a : Assertion)
        → lookup k (index_by_id [] fresh) ≡ some a
        → In a amended_receipt.assertions)
    × ((failed_ids fresh ≡ []) → amended_receipt.terminal ≡ receipt.terminal)
    × ((failed_ids fresh ≢ []) → amended_receipt.terminal.outcome ≡ some "failed")
amend-swept_example = amend-swept receipt amended_receipt fresh " s1 " 30 receipt_amended

abbrev closed_receipt : Receipt
closed_receipt = record amended_receipt {
  closed = some (
      shaped (record { closed_at = some (at 40); by = some "dave"; reason = some "known outage" }));
}

amended_closed : close amended_receipt "dave" "known outage" 40 ≡ ok closed_receipt
unfolding all_open
amended_closed = refl

close-validate_example :
    (validate closed_receipt ≡ validate (record amended_receipt { closed = none }))
    × ((validate amended_receipt ≡ []) → validate closed_receipt ≡ [])
    × (judged closed_receipt ≡ false)
    × ((by' reason' : String) (now' : ℕ)
        → close closed_receipt by' reason' now' ≡ refused already_closed)
close-validate_example =
    close-validate amended_receipt closed_receipt "dave" "known outage" 40 amended_closed
