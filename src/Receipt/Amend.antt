-- ===== src/Receipt/Amend.antt =====
-- bin/workflow_receipt.py: the review of a receipt, and the sweep's amendment of it.
use hermes_agent_workforce_p.Prelude.{
  ℕ, String, Bool, true, false, not, ◌&&◌, ◌||◌, Option, none, some, List, [], ◌∷◌, map,
  if◌then◌else◌, opt_eq, truthy, is_some, filter, ◌<>◌, strip,
}
use hermes_agent_workforce_p.Prelude.Dict.{Dict, lookup, insert, erase}
use hermes_agent_workforce_p.Stamp.{iso_utc}
use hermes_agent_workforce_p.Receipt.{
  Terminal, Assertion, Receipt, shaped, shape_of, has_failure, is_filled,
}

-- Why a receipt is not closed or amended: the reasons that `close` and `sweep_pending` give.
pub data Refusal : Type 0 where
  nothing_failed already_closed no_author_or_reason : Refusal
  written_by_sweep skipped closed_by_operator already_swept no_sweep_checks no_sweep_run : Refusal

pub data Outcome (A : Type 0) : Type 0 where
  ok : A → Outcome A
  refused : Refusal → Outcome A

-- `is_closed`, `is_swept`
abbrev pub is_closed : Receipt → Bool
is_closed r = is_some (shape_of r.closed)

abbrev pub is_swept : Receipt → Bool
is_swept r = is_some (shape_of r.swept)

-- `judged`
abbrev pub judged : Receipt → Bool
judged r = not (opt_eq r.terminal.outcome (some "skipped")) && not (is_closed r)

-- `close`
unfoldable pub close : Receipt → String → String → ℕ → Outcome Receipt
unfolding iso_utc
close r by reason now =
    if not (has_failure r)
    then refused nothing_failed
    else if is_closed r
    then refused already_closed
    else if not (is_filled (some by)) || not (is_filled (some reason))
    then refused no_author_or_reason
    else ok (record r {
      closed = some (
          shaped (record {
            closed_at = some (iso_utc now);
            by = some (strip by);
            reason = some (strip reason);
          }));
    })

abbrev pub is_sweep : Assertion → Bool
is_sweep a = opt_eq a.vantage (some "sweep")

-- `sweep_assertions`
abbrev pub sweep_assertions : Receipt → List Assertion
sweep_assertions r = filter is_sweep r.assertions

abbrev is_none_left : List Assertion → Bool
is_none_left [] = true
is_none_left (a ∷ rest) = false

-- `sweep_pending`: why the sweep leaves the receipt alone.
unfoldable pub sweep_pending : Receipt → Option Refusal
sweep_pending r =
    if not (opt_eq r.vantage (some "run"))
    then some written_by_sweep
    else if opt_eq r.terminal.outcome (some "skipped")
    then some skipped
    else if is_closed r
    then some closed_by_operator
    else if is_swept r
    then some already_swept
    else if is_none_left (sweep_assertions r)
    then some no_sweep_checks
    else none

abbrev pub failed_ids : List Assertion → List String
failed_ids fresh =
    map (λ (a : Assertion). a.id)
      (filter (λ (a : Assertion). opt_eq a.status (some "failed")) fresh)

-- `", ".join(ids)`
abbrev pub joined : List String → String
joined [] = ""
joined (s ∷ []) = s
joined (s ∷ t ∷ rest) = s <> ", " <> joined (t ∷ rest)

abbrev name_of : Option String → String
name_of none = "None"
name_of (some s) = s

abbrev pub failed_terminal : Terminal → String → Terminal
failed_terminal t note =
    if opt_eq t.outcome (some "failed")
    then record {
      outcome = some "failed";
      reason = some (if truthy t.reason then name_of t.reason <> "; " <> note else note);
    }
    else record {
      outcome = some "failed";
      reason = some (
          note
          <> "; run outcome was "
          <> name_of t.outcome
          <> (if truthy t.reason then ": " <> name_of t.reason else ""));
    }

abbrev pub terminal_with : Terminal → List String → Terminal
terminal_with t [] = t
terminal_with t (id ∷ ids) = failed_terminal t ("failed sweep checks: " <> joined (id ∷ ids))

-- `amended_terminal`
unfoldable pub amended_terminal : Terminal → List Assertion → Terminal
amended_terminal t fresh = terminal_with t (failed_ids fresh)

-- `by_id`
abbrev pub index_by_id : Dict Assertion → List Assertion → Dict Assertion
index_by_id d [] = d
index_by_id d (a ∷ fresh) = index_by_id (insert a.id a d) fresh

-- `by_id.pop(a["id"], a)` on a sweep's check, and the results that are left.
abbrev pub popped : Dict Assertion → Assertion → Option Assertion → Assertion × Dict Assertion
popped d a none = (a, d)
popped d a (some b) = (b, erase a.id d)

abbrev pub fold_one : Dict Assertion → Assertion → Assertion × Dict Assertion
fold_one d a = if is_sweep a then popped d a (lookup a.id d) else (a, d)

abbrev pub fold_in : Dict Assertion → List Assertion → List Assertion
fold_in d [] = map (λ x. x.1) d
fold_in d (a ∷ rest) = (fold_one d a).0 ∷ fold_in (fold_one d a).1 rest

abbrev pub amended : Receipt → List Assertion → String → ℕ → Receipt
amended r fresh sweep_run_id now = record r {
  assertions = fold_in (index_by_id [] fresh) r.assertions;
  terminal = amended_terminal r.terminal fresh;
  swept =
      some (
        shaped
          (record { swept_at = some (iso_utc now); sweep_run_id = some (strip sweep_run_id) }));
}

abbrev pub amend_if : Receipt → List Assertion → String → ℕ → Option Refusal → Outcome Receipt
amend_if r fresh sweep_run_id now (some why) = refused why
amend_if r fresh sweep_run_id now none =
    if not (is_filled (some sweep_run_id))
    then refused no_sweep_run
    else ok (amended r fresh sweep_run_id now)

-- `amend`
unfoldable pub amend : Receipt → List Assertion → String → ℕ → Outcome Receipt
unfolding iso_utc amended_terminal
amend r fresh sweep_run_id now = amend_if r fresh sweep_run_id now (sweep_pending r)
