-- ===== src/Ledger/Tests.antt =====
-- The ledger of a small card, and the theorems about it at concrete inputs.
use hermes_agent_workforce_p.Prelude.{
  is_some, ℕ, ◌<◌, ◌≡◌, refl, String, true, Option, none, some, List, [], ◌∷◌, ◌++◌, In, inl, inr,
  ◌⊎◌,
}
use hermes_agent_workforce_p.Prelude.Dict.{Dict, lookup}
use hermes_agent_workforce_p.Stamp.{at, iso_utc, parse_time}
use hermes_agent_workforce_p.Dates.{
  date_of, wall_time, date_prefix, ordinal, is_leap, days_before, days_in_month,
}
use hermes_agent_workforce_p.Ledger.{
  deleted, get, Event, EventKind, created, brief, picked, decision_shaped, Decision, Verdict,
  brief_approved, approved, rejected, unblocked, blocked, Card, RunReceipt, text, texts,
  ordered_events, ordered_decisions, latest, moment, effective_fields,
}
use hermes_agent_workforce_p.Ledger.Brief.{brief_state, runs_of, human_inputs, questions}
use hermes_agent_workforce_p.Ledger.Flow.{Column, flow_of, since_unblock, failed_streak}
use hermes_agent_workforce_p.Ledger.Blocks.{
  Cause, Trigger, blocks_of, holds_of, deadline_triggers, decision_triggers,
}
use hermes_agent_workforce_p.Ledger.Derive.{
  CardView, derive, view_of, own, brief_wants, deletion, due_at, editable_fields, moves_of,
  research_run, forged_decision,
}
use hermes_agent_workforce_p.Ledger.Columns.{worked-approved, view_at, is_worked}
use hermes_agent_workforce_p.Ledger.Deletion.{Undone, IsOn}
use hermes_agent_workforce_p.Ledger.Research.{HasCome, wants-research}
use hermes_agent_workforce_p.Ledger.Done.{done-closed}
use hermes_agent_workforce_p.Ledger.Unblock.{Lapsed, blocked-live}
use hermes_agent_workforce_p.Ledger.Honest.{honest}
use hermes_agent_workforce_p.Ledger.Forged.{derive-honest, forged-listed, map_unmarked}
use hermes_agent_workforce_p.Ledger.Streak.{failed_streak-trailing, trailing_voids, since_runs}

abbrev row : EventKind → ℕ → String → Option String → Event
row kind t actor hash = record {
  ts = some (at t);
  event = kind;
  actor = some actor;
  run_id = none;
  workflow = none;
  hash = hash;
  reason = none;
  fields = [];
}

abbrev pick_row : Event
pick_row = record {
  ts = some (at 40);
  event = picked;
  actor = some "run:r2";
  run_id = some "r2";
  workflow = some "board-research";
  hash = none;
  reason = none;
  fields = [];
}

abbrev drafted : List Event
drafted =
    row created 10 "dave" none
    ∷ row brief 10 "dave" (some "h1")
    ∷ row brief 20 "run:r1" (some "h2")
    ∷ row (decision_shaped approved) 25 "buzz:imp" none
    ∷ []

abbrev verdict : Verdict → ℕ → Option String → Option String → Decision
verdict kind t brief_hash page_hash = record {
  ts = some (at t);
  decision = kind;
  card = some "quartz";
  brief_hash = brief_hash;
  page_hash = page_hash;
  reason = none;
}

abbrev approval : Decision
approval = verdict brief_approved 30 (some "h2") none

abbrev card : Card
card = record {
  id = "quartz";
  owner = "claudius";
  kind = "research";
  fields = ("title", text "Quartz") ∷ ("scope", texts ("vault:notes" ∷ [])) ∷ [];
}

abbrev no_receipts : Option String → Option RunReceipt
no_receipts run = none

abbrev page_receipt : Option String → Option RunReceipt
page_receipt run = some (record { outcome = some "artifact"; page = some "05_knowledge/q.md" })

abbrev on_box : ℕ → ℕ
on_box t = t

abbrev view :
    List Event → List Decision → (Option String → Option RunReceipt) → Dict String → Option CardView
view events decisions receipts main = derive on_box card events decisions receipts main 1000 1 3600

abbrev column_of : Option CardView → Option Column
column_of none = none
column_of (some v) = some v.column

all_open : Unit {0}
unfolding parse_time iso_utc date_of wall_time date_prefix ordinal is_leap days_before days_in_month
    moment ordered_events ordered_decisions latest effective_fields brief_state runs_of human_inputs
    questions flow_of since_unblock failed_streak deadline_triggers blocks_of holds_of brief_wants
    deletion due_at editable_fields moves_of own view_of derive
all_open = tt

-- The way of a card: its text, the run's brief approved, the run, the page approved and on main.
column-backlog : column_of (view drafted [] no_receipts []) ≡ some Column.refine
unfolding all_open
column-backlog = refl

column-todo : column_of (view drafted (approval ∷ []) no_receipts []) ≡ some Column.todo
unfolding all_open
column-todo = refl

column-progress :
    column_of (view (drafted ++ (pick_row ∷ [])) (approval ∷ []) no_receipts [])
    ≡ some Column.in_progress
unfolding all_open
column-progress = refl

abbrev reviewed : List Decision
reviewed = approval ∷ verdict approved 50 none (some "p1") ∷ []

column-review :
    column_of (view (drafted ++ (pick_row ∷ [])) reviewed page_receipt []) ≡ some Column.in_review
unfolding all_open
column-review = refl

column-done :
    column_of (view (drafted ++ (pick_row ∷ [])) reviewed page_receipt (("quartz", "p1") ∷ []))
    ≡ some Column.done
unfolding all_open
column-done = refl

abbrev todo_view : CardView
todo_view = view_at on_box card drafted (approval ∷ []) no_receipts [] 1000 1 3600 none none

todo_view_derived : view drafted (approval ∷ []) no_receipts [] ≡ some todo_view
unfolding all_open
todo_view_derived = refl

todo_view_column : is_worked todo_view.column ≡ true
unfolding all_open
todo_view_column = refl

worked-approved_example :
    (todo_view.brief_approved ≡ true)
    × ((hash : String) × (todo_view.brief_hash ≡ some hash)
        × ((d : Decision) × In d (approval ∷ [])
            × (d.card ≡ some "quartz")
            × (d.decision ≡ brief_approved)
            × (d.brief_hash ≡ some hash)))
worked-approved_example =
    worked-approved on_box card drafted (approval ∷ []) no_receipts [] 1000 1 3600 todo_view
      todo_view_derived todo_view_column

wants-research_example :
    ((todo_view.wants ≡ some research_run)
      → (todo_view.column ≡ Column.todo)
        × HasCome 1000 todo_view.due_at
        × Undone "quartz" (approval ∷ []))
    × ((todo_view.column ≡ Column.todo)
        → HasCome 1000 todo_view.due_at
        → ((d : Decision) → IsOn "quartz" (approval ∷ []) deleted d → ⊥)
        → todo_view.wants ≡ some research_run)
    × (due_at on_box (get "research_on" (effective_fields card drafted)) ≡ some todo_view.due_at)
wants-research_example =
    wants-research on_box card drafted (approval ∷ []) no_receipts [] 1000 1 3600 todo_view
      todo_view_derived

abbrev landed : List Event
landed = drafted ++ (pick_row ∷ [])

abbrev done_view : CardView
done_view =
    view_at on_box card landed reviewed page_receipt (("quartz", "p1") ∷ []) 1000 1 3600 none none

done_view_derived : view landed reviewed page_receipt (("quartz", "p1") ∷ []) ≡ some done_view
unfolding all_open
done_view_derived = refl

done_view_column : done_view.column ≡ Column.done
unfolding all_open
done_view_column = refl

done-closed_example :
    ((d : Decision) × In d reviewed × (d.card ≡ some "quartz") × (d.decision ≡ rejected))
    ⊎ ((d : Decision) × In d reviewed
        × (d.card ≡ some "quartz")
        × (d.decision ≡ approved)
        × ((hash : String) × (d.page_hash ≡ some hash)
            × (lookup "quartz" (("quartz", "p1") ∷ []) ≡ some hash)))
done-closed_example =
    done-closed on_box card landed reviewed page_receipt (("quartz", "p1") ∷ []) 1000 1 3600
      done_view done_view_derived done_view_column

abbrev blocked_decisions : List Decision
blocked_decisions =
    approval
    ∷ verdict blocked 60 none none
    ∷ verdict unblocked 70 none none
    ∷ verdict blocked 80 none none
    ∷ []

abbrev blocked_view : CardView
blocked_view =
    view_at on_box card drafted blocked_decisions no_receipts [] 1000 1 3600
      (some Cause.blocked_by_dave) none

blocked_view_derived : view drafted blocked_decisions no_receipts [] ≡ some blocked_view
unfolding all_open
blocked_view_derived = refl

blocked_view_column : blocked_view.column ≡ Column.blocked
unfolding all_open
blocked_view_column = refl

blocked-live_example :
    (t : Trigger) × (blocked_view.blocked_cause ≡ some t.cause)
    × (In t (
          decision_triggers
            (own card blocked_decisions)
            (runs_of drafted no_receipts)
            (brief_state drafted (own card blocked_decisions)).recorded
            (holds_of drafted))
        ⊎ Lapsed
            (get "deadline" (effective_fields card drafted))
            1
            (is_some
              (flow_of
                (brief_state drafted (own card blocked_decisions))
                (runs_of drafted no_receipts)
                (own card blocked_decisions)
                1000
                3600).approved)
            t)
    × ((d : Decision)
        → In d blocked_decisions
        → d.card ≡ some "quartz"
        → d.decision ≡ unblocked
        → moment d.ts < moment t.ts)
blocked-live_example =
    blocked-live on_box card drafted blocked_decisions no_receipts [] 1000 1 3600 blocked_view
      blocked_view_derived blocked_view_column

derive-honest_example :
    map_unmarked (derive on_box card (honest drafted) (approval ∷ []) no_receipts [] 1000 1 3600)
    ≡ map_unmarked (derive on_box card drafted (approval ∷ []) no_receipts [] 1000 1 3600)
derive-honest_example = derive-honest on_box card drafted (approval ∷ []) no_receipts [] 1000 1 3600

forged-listed_example : In (forged_decision approved) todo_view.exceptions
forged-listed_example =
    forged-listed on_box card drafted (approval ∷ []) no_receipts [] 1000 1 3600 todo_view
      (row (decision_shaped approved) 25 "buzz:imp" none) approved todo_view_derived
      (inr (inr (inr (inl refl)))) refl

failed_streak-trailing_example :
    failed_streak (runs_of landed no_receipts) blocked_decisions
    ≡ trailing_voids (since_runs (since_unblock blocked_decisions) (runs_of landed no_receipts))
failed_streak-trailing_example =
    failed_streak-trailing (runs_of landed no_receipts) blocked_decisions
