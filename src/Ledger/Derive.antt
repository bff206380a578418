-- ===== src/Ledger/Derive.antt =====
-- bin/board.py, `derive`: the one pure function behind every column, and what the board offers on it.
-- The clock is `now`, an instant, and `today`, its date on the box; `box_instant` is the instant that
-- a time on the box's clock means, from the time zone database. A date that is no date raises: none.
use hermes_agent_workforce_p.Prelude.{
  ℕ, String, Bool, true, false, not, ◌&&◌, ◌||◌, Option, none, some, List, [], ◌∷◌, ◌++◌, map,
  if◌then◌else◌, ltb, str_eq, opt_eq, truthy, is_some, filter, any, length, has, ◌>>=◌,
}
use hermes_agent_workforce_p.Prelude.Dict.{Dict, lookup}
use hermes_agent_workforce_p.Stamp.{Stamp}
use hermes_agent_workforce_p.Dates.{wall_time}
use hermes_agent_workforce_p.Ledger.{
  EventKind, is_verdict, Verdict, rejected, deleted, restored, decision_shaped, brief, Value, text,
  Event, Decision, Card, RunReceipt, moment, latest, last, max_by, is_event, is_true, get,
  effective_fields, says, held,
}
use hermes_agent_workforce_p.Ledger.Brief.{
  BriefState, brief_state, Run, runs_of, is_run, human_inputs, questions,
}
use hermes_agent_workforce_p.Ledger.Flow.{
  Column, backlog, refine, todo, in_progress, in_review, done, blocked, Flow, flow_of,
  failed_streak, since_unblock, is_after,
}
use hermes_agent_workforce_p.Ledger.Blocks.{Cause, blocks_of, holds_of}

-- `wants`: the purpose of the run that the card is ready for.
pub data Wanted : Type 0 where
  brief_run research_run : Wanted

pub data Outcome : Type 0 where
  was_rejected withdrawn merged : Outcome

pub data Exception : Type 0 where
  forged_decision : Verdict → Exception
  forged_hold : Option String → Exception
  stale_pick : String → Exception

-- The verbs of `MOVES`
pub data Move : Type 0 where
  delete approve_brief return_brief block approve request_changes reject unblock : Move

pub record BriefWants : Type 0 where
  pub wants : Option Wanted
  pub awaiting_answer : Bool
  pub question_rounds : ℕ

pub record CardView : Type 0 where
  pub id : String
  pub deleted : Bool
  pub deleted_at : Option Stamp
  pub wants : Option Wanted
  pub awaiting_answer : Bool
  pub question_rounds : ℕ
  pub due_at : Option ℕ
  pub failed_streak : ℕ
  pub unblocked_at : Option ℕ
  pub column : Column
  pub scheduled : Bool
  pub outcome : Option Outcome
  pub blocked_cause : Option Cause
  pub approved_landing : Bool
  pub approved_hash : Option String
  pub fields : Dict Value
  pub owner : String
  pub kind : String
  pub brief_hash : Option String
  pub brief_version : ℕ
  pub brief_by : Option String
  pub brief_approved : Bool
  pub rev : ℕ
  pub runs : List Run
  pub has_research_run : Bool
  pub editable : List String
  pub moves : List Move
  pub exceptions : List Exception

abbrev pub is_open_brief : Column → Bool
is_open_brief backlog = true
is_open_brief refine = true
is_open_brief _ = false

abbrev pub is_run_brief : Event → Bool
is_run_brief e = is_event brief e && is_run e.actor

abbrev pub answers_brief : Run → Bool
answers_brief r = says "brief" r.purpose && not r.void

abbrev pub answered_times : List Run → List Event → List ℕ
answered_times runs events =
    map (λ r. moment r.ts) (filter answers_brief runs)
    ++ map (λ e. moment e.ts) (filter is_run_brief events)

-- The last question was asked after the latest input.
abbrev pub is_awaiting : List Event → Option ℕ → Bool
is_awaiting asked latest_input = elim (last asked) [
  | none ↦ false
  | some q ↦ is_after latest_input (moment q.ts)
]

abbrev pub wants_brief : Option ℕ → Option ℕ → Bool
wants_brief latest_input none = true
wants_brief none (some answer) = false
wants_brief (some input) (some answer) = ltb answer input

-- `_brief_wants`
unfoldable pub brief_wants :
    Column → BriefState → List Run → List Event → List Decision → BriefWants
unfolding human_inputs questions
brief_wants column state runs events decisions =
    let asked = questions events in
    let latest_input = max_by (λ t. t) (human_inputs events decisions) in
    let answer = max_by (λ t. t) (answered_times runs events) in
    if not (is_open_brief column) || state.approved
    then record { wants = none; awaiting_answer = false; question_rounds = length asked }
    else record {
      wants = if wants_brief latest_input answer then some brief_run else none;
      awaiting_answer = is_awaiting asked latest_input;
      question_rounds = length asked;
    }

abbrev pub is_deletion : Decision → Bool
is_deletion d = is_verdict deleted d.decision || is_verdict restored d.decision

abbrev pub is_deleted : Option Decision → Bool
is_deleted none = false
is_deleted (some d) = is_verdict deleted d.decision

-- `_deletion`: the decision behind it.
unfoldable pub deletion : List Decision → Option Decision
unfolding latest
deletion decisions = latest (filter is_deletion decisions)

abbrev pub is_rejected : Decision → Bool
is_rejected d = is_verdict rejected d.decision

-- The decisions without the latest rejection, the last of the greatest instant.
abbrev pub drop_rejection : List Decision → List Decision
drop_rejection [] = []
drop_rejection (d ∷ ds) =
    let rest = drop_rejection ds in
    if is_rejected d && not (any (λ e. is_rejected e && not (ltb (moment e.ts) (moment d.ts))) ds)
    then ds
    else d ∷ rest

-- `due_at`; a text that is no time raises.
unfoldable pub due_at : (ℕ → ℕ) → Value → Option (Option ℕ)
due_at box_instant research_on = if not (is_true research_on) then some none else elim research_on [
  | text s ↦ elim (wall_time s) [ none ↦ none | some wall ↦ some (some (box_instant wall)) ]
  | _ ↦ none
]

abbrev pub forged_at : EventKind → List Exception → List Exception
forged_at (decision_shaped v) rest = forged_decision v ∷ rest
forged_at _ rest = rest

-- The rows whose `event` is in `DECISIONS`.
abbrev pub forged : List Event → List Exception
forged [] = []
forged (e ∷ events) = forged_at e.event (forged events)

abbrev pub forged_holds : List Event → List Exception
forged_holds events =
    map (λ e. forged_hold e.actor)
      (filter (λ e. is_event held e && not (opt_eq e.actor (some "reactor"))) events)

abbrev pub is_column : Column → Column → Bool
is_column backlog backlog = true
is_column refine refine = true
is_column todo todo = true
is_column in_progress in_progress = true
is_column in_review in_review = true
is_column done done = true
is_column blocked blocked = true
is_column _ _ = false

abbrev pub stale : Flow → Column → List Exception
stale flow column = elim flow.stale_pick [
  | none ↦ []
  | some run ↦ if truthy (some run) && is_column in_progress column then stale_pick run ∷ [] else []
]

-- `EDITABLE`, in the order of the names.
abbrev pub is_editable : String → Column → Bool
is_editable name column =
    if str_eq name "notes"
    then true
    else if has name ("title" ∷ "tags" ∷ "priority" ∷ [])
    then not (is_column done column)
    else if has name ("research_on" ∷ "deadline" ∷ [])
    then not (is_column done column || is_column in_progress column)
    else if has name ("scope" ∷ "brief" ∷ [])
    then is_column backlog column
      || is_column refine column
      || is_column todo column
      || is_column blocked column
    else false

abbrev pub editable_names : List String
editable_names =
    "brief" ∷ "deadline" ∷ "notes" ∷ "priority" ∷ "research_on" ∷ "scope" ∷ "tags" ∷ "title" ∷ []

unfoldable pub editable_fields : Column → Bool → List String
editable_fields column has_research_run =
    filter (λ name. is_editable name column && not (has_research_run && str_eq name "scope"))
      editable_names

-- `MOVES`
unfoldable pub moves_of : Column → List Move
moves_of backlog = delete ∷ []
moves_of refine = approve_brief ∷ return_brief ∷ delete ∷ []
moves_of todo = block ∷ delete ∷ []
moves_of in_progress = delete ∷ []
moves_of in_review = approve ∷ request_changes ∷ reject ∷ []
moves_of blocked = unblock ∷ delete ∷ []
moves_of done = delete ∷ []

-- The approval's page stands on main: neither hash is missing or empty.
abbrev pub is_merged : Option Decision → Option String → Bool
is_merged none on_main = false
is_merged (some d) on_main = truthy d.page_hash && opt_eq on_main d.page_hash

abbrev pub page_of : Option Decision → Option String
page_of none = none
page_of (some d) = d.page_hash

-- The column that a card ends in, and its outcome.
abbrev pub placed : Bool → Column → Flow → Option String → Option Cause → Column × Option Outcome
placed is_out without flow on_main block_cause =
    if is_out
    then (done, some (if is_column in_review without then was_rejected else withdrawn))
    else if is_merged flow.approved on_main
    then (done, some merged)
    else if is_some block_cause
    then (blocked, none)
    else (flow.column, none)

abbrev pub is_scheduled : Option ℕ → ℕ → Column → Bool
is_scheduled none now column = false
is_scheduled (some due) now column = ltb now due && is_column todo column

abbrev pub wanted : Column → Bool → Bool → Option Wanted → Option Wanted
wanted column scheduled is_gone wants =
    if is_gone
    then none
    else if is_column todo column && not scheduled
    then some research_run
    else wants

abbrev pub stamp_of : Option Decision → Option Stamp
stamp_of none = none
stamp_of (some d) = d.ts

unfoldable pub own : Card → List Decision → List Decision
own card decisions = filter (λ d. opt_eq d.card (some card.id)) decisions

-- The view, where the flow, the cause and the due time are known.
unfoldable pub view_of :
    Card
    → List Event
    → List Decision
    → List Run
    → BriefState
    → Flow
    → Flow
    → Option String
    → ℕ
    → Option Cause
    → Option ℕ
    → CardView
unfolding deletion brief_wants editable_fields moves_of failed_streak since_unblock
view_of card events mine runs state flow without on_main now cause due =
    let place =
      placed (is_some (latest (filter is_rejected mine))) without.column flow on_main cause in
    let column = place.0 in
    let gone = deletion mine in
    let scheduled = is_scheduled due now column in
    let landing = is_column in_review column && is_some flow.approved in
    let has_run = any (λ r. says "research" r.purpose) runs in
    let wants = brief_wants column state runs events mine in
    record {
      id = card.id;
      deleted = is_deleted gone;
      deleted_at = if is_deleted gone then stamp_of gone else none;
      wants = wanted column scheduled (is_deleted gone) wants.wants;
      awaiting_answer = wants.awaiting_answer;
      question_rounds = wants.question_rounds;
      due_at = due;
      failed_streak = failed_streak runs mine;
      unblocked_at = since_unblock mine;
      column = column;
      scheduled = scheduled;
      outcome = place.1;
      blocked_cause = if is_column blocked column then cause else none;
      approved_landing = landing;
      approved_hash = page_of flow.approved;
      fields = effective_fields card events;
      owner = card.owner;
      kind = card.kind;
      brief_hash = state.hash;
      brief_version = state.version;
      brief_by = state.by;
      brief_approved = state.approved;
      rev = length events;
      runs = runs;
      has_research_run = has_run;
      editable = editable_fields column has_run;
      moves = if landing then [] else moves_of column;
      exceptions = forged events ++ forged_holds events ++ stale flow column;
    }

-- `derive`
unfoldable pub derive :
    (ℕ → ℕ)
    → Card
    → List Event
    → List Decision
    → (Option String → Option RunReceipt)
    → Dict String
    → ℕ
    → ℕ
    → ℕ
    → Option CardView
derive box_instant card events decisions receipts main now today timeout =
    let mine = own card decisions in
    let fields = effective_fields card events in
    let state = brief_state events mine in
    let runs = runs_of events receipts in
    let flow = flow_of state runs mine now timeout in
    let without = flow_of state runs (drop_rejection mine) now timeout in
    do
      cause ←
          blocks_of mine runs state.recorded fields today (is_some flow.approved) (holds_of events)
      due ← due_at box_instant (get "research_on" fields)
      some (view_of card events mine runs state flow without (lookup card.id main) now cause due)
