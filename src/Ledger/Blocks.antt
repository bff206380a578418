-- ===== src/Ledger/Blocks.antt =====
-- bin/board.py, `_strike_times`, `_holds` and `_blocks`: what blocks a card, and since when.
use hermes_agent_workforce_p.Prelude.{
  ℕ, ◌+◌, String, Bool, not, ◌&&◌, Option, none, some, List, [], ◌∷◌, ◌++◌, map, if◌then◌else◌, ltb,
  leb, or_else, opt_eq, filter, any, sorted,
}
use hermes_agent_workforce_p.Prelude.Dict.{Dict, lookup}
use hermes_agent_workforce_p.Stamp.{Stamp, iso_utc}
use hermes_agent_workforce_p.Dates.{date_of, start_of_day}
use hermes_agent_workforce_p.Ledger.{
  is_verdict, changes_requested, blocked, Value, text, Change, plain, Event, held, Decision, moment,
  max_by, is_event, is_true, get,
}
use hermes_agent_workforce_p.Ledger.Brief.{Run, is_outcome, is_verdict_returned}
use hermes_agent_workforce_p.Ledger.Flow.{is_after, since_unblock}

-- The causes, each a text of the source: the hold's is "held: " with its reason.
pub data Cause : Type 0 where
  returned_twice changes_requested_twice declined_twice blocked_by_dave deadline_passed : Cause
  hold : Change → Cause

pub record Trigger : Type 0 where
  pub ts : Option Stamp
  pub cause : Cause

abbrev drop_first : List (Option Stamp) → List (Option Stamp)
drop_first [] = []
drop_first (x ∷ xs) = xs

-- `_strike_times`, with `STRIKE_LIMIT` 2, on the stamps of the rows.
abbrev pub strike_times : List (Option Stamp) → List (Option Stamp)
strike_times rows = drop_first (sorted (λ a b. leb (moment a) (moment b)) rows)

abbrev pub strikes : Cause → List (Option Stamp) → List Trigger
strikes cause rows = map (λ ts. record { ts = ts; cause = cause }) (strike_times rows)

abbrev pub is_reactor_hold : Event → Bool
is_reactor_hold e = is_event held e && opt_eq e.actor (some "reactor")

abbrev pub hold_trigger : Event → Trigger
hold_trigger e = record {
  ts = e.ts;
  cause = hold (or_else (lookup "reason" e.fields) (plain (text "unknown")));
}

-- `_holds`
unfoldable pub holds_of : List Event → List Trigger
holds_of events = map hold_trigger (filter is_reactor_hold events)

abbrev pub asked_changes : Decision → Bool
asked_changes d = is_verdict changes_requested d.decision

abbrev pub is_blocked : Decision → Bool
is_blocked d = is_verdict blocked d.decision

abbrev pub stamps : List Decision → List (Option Stamp)
stamps rows = map (λ d. d.ts) rows

abbrev pub decision_triggers :
    List Decision → List Run → List (Option String) → List Trigger → List Trigger
decision_triggers decisions runs recorded holds =
    let returns =
      filter (λ d. is_verdict_returned d && any (opt_eq d.brief_hash) recorded) decisions in
    strikes returned_twice (stamps returns)
    ++ strikes changes_requested_twice (stamps (filter asked_changes decisions))
    ++ strikes declined_twice (map (λ r. r.ts) (filter (λ r. is_outcome "decline" r.outcome) runs))
    ++ map (λ d. record { ts = d.ts; cause = blocked_by_dave }) (filter is_blocked decisions)
    ++ holds

abbrev pub late_trigger : ℕ → ℕ → Bool → List Trigger
late_trigger day today approved_landing =
    if ltb day today && not approved_landing
    then record { ts = some (iso_utc (start_of_day day + 86399)); cause = deadline_passed } ∷ []
    else []

abbrev pub late_triggers : Option ℕ → ℕ → Bool → Option (List Trigger)
late_triggers none today approved_landing = none
late_triggers (some day) today approved_landing = some (late_trigger day today approved_landing)

-- The deadline's trigger; a deadline that is no date raises.
unfoldable pub deadline_triggers : Value → ℕ → Bool → Option (List Trigger)
unfolding iso_utc
deadline_triggers deadline today approved_landing =
    if not (is_true deadline)
    then some []
    else elim deadline [ text s ↦ late_triggers (date_of s) today approved_landing | _ ↦ none ]

abbrev pub live_cause : Option ℕ → List Trigger → Option Cause
live_cause since triggers =
    elim (max_by (λ t. moment t.ts) (filter (λ t. is_after since (moment t.ts)) triggers)) [
      | none ↦ none
      | some t ↦ some t.cause
    ]

-- `_blocks`
unfoldable pub blocks_of :
    List Decision
    → List Run
    → List (Option String)
    → Dict Value
    → ℕ
    → Bool
    → List Trigger
    → Option (Option Cause)
unfolding deadline_triggers
blocks_of decisions runs recorded fields today approved_landing holds =
    elim (deadline_triggers (get "deadline" fields) today approved_landing) [
      | none ↦ none
      | some late ↦ some (
          live_cause (since_unblock decisions)
            (decision_triggers decisions runs recorded holds ++ late))
    ]
