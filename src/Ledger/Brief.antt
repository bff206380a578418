-- ===== src/Ledger/Brief.antt =====
-- bin/board.py: the state of a card's brief, its runs, and the rounds of a brief.
use hermes_agent_workforce_p.Prelude.{
  ℕ, String, Bool, true, false, not, ◌&&◌, ◌||◌, Option, none, some, List, [], ◌∷◌, ◌++◌, map,
  if◌then◌else◌, or_else, is_some, str_eq, opt_eq, truthy, filter, any, length, ◌==◌, starts_with,
}
use hermes_agent_workforce_p.Prelude.Dict.{Dict, lookup}
use hermes_agent_workforce_p.Stamp.{Stamp}
use hermes_agent_workforce_p.Ledger.{
  is_verdict, is_kind, Verdict, EventKind, brief, created, picked, note, edited, decision_shaped,
  other, Value, null, text, texts, Change, plain, change, Event, Decision, RunReceipt, moment,
  ordered_events, latest, last, is_event, says, brief_approved, brief_returned,
}

pub record BriefState : Type 0 where
  pub hash : Option String
  pub version : ℕ
  pub by : Option String
  pub approved : Bool
  pub recorded : List (Option String)

abbrev pub kind_eq : EventKind → EventKind → Bool
kind_eq (decision_shaped v) (decision_shaped w) = is_verdict v w
kind_eq (other s) (other t) = str_eq s t
kind_eq a b = is_kind a b

abbrev texts_eq : List String → List String → Bool
texts_eq [] [] = true
texts_eq (a ∷ xs) (b ∷ ys) = str_eq a b && texts_eq xs ys
texts_eq _ _ = false

abbrev pub value_eq : Value → Value → Bool
value_eq null null = true
value_eq (text a) (text b) = str_eq a b
value_eq (texts a) (texts b) = texts_eq a b
value_eq _ _ = false

abbrev change_eq : Change → Change → Bool
change_eq (plain a) (plain b) = value_eq a b
change_eq (change a) (change b) = value_eq a b
change_eq _ _ = false

-- The ledger writes the keys of an object sorted, so equal objects list them alike.
abbrev fields_eq : Dict Change → Dict Change → Bool
fields_eq [] [] = true
fields_eq ((j, a) ∷ xs) ((k, b) ∷ ys) = str_eq j k && change_eq a b && fields_eq xs ys
fields_eq _ _ = false

abbrev stamp_eq : Option Stamp → Option Stamp → Bool
stamp_eq none none = true
stamp_eq (some (Stamp.at a)) (some (Stamp.at b)) = a == b
stamp_eq (some (Stamp.garbled a)) (some (Stamp.garbled b)) = str_eq a b
stamp_eq _ _ = false

-- `==` on two ledger rows
abbrev pub event_eq : Event → Event → Bool
event_eq a b =
    stamp_eq a.ts b.ts
    && kind_eq a.event b.event
    && opt_eq a.actor b.actor
    && opt_eq a.run_id b.run_id
    && opt_eq a.workflow b.workflow
    && opt_eq a.hash b.hash
    && opt_eq a.reason b.reason
    && fields_eq a.fields b.fields

-- `ordered[ordered.index(e) + 1:]`
abbrev pub after_first : Event → List Event → List Event
after_first e [] = []
after_first e (x ∷ xs) = if event_eq x e then xs else after_first e xs

-- `UNTIL_FIRST_RUN` is the scope alone.
abbrev pub rescopes : Event → Bool
rescopes e = is_event edited e && is_some (lookup "scope" e.fields)

abbrev pub is_brief_verdict : Verdict → Bool
is_brief_verdict v = is_verdict brief_approved v || is_verdict brief_returned v

abbrev pub is_returned : Option Decision → Bool
is_returned none = false
is_returned (some d) = is_verdict brief_returned d.decision

abbrev pub is_approved : Option Decision → Bool
is_approved none = false
is_approved (some d) = is_verdict brief_approved d.decision

abbrev pub brief_verdict : Option String → List Decision → Option Decision
brief_verdict hash decisions =
    latest (filter (λ d. is_brief_verdict d.decision && opt_eq d.brief_hash hash) decisions)

-- The state where a brief is recorded: `newest` is the last one.
abbrev pub recorded_state :
    List (Option String) → ℕ → Event → List Event → List Decision → BriefState
recorded_state recorded version newest ordered decisions =
    let verdict = brief_verdict newest.hash decisions in
    if any rescopes (after_first newest ordered) || is_returned verdict
    then record {
      hash = none;
      version = version;
      by = newest.actor;
      approved = false;
      recorded = recorded;
    }
    else record {
      hash = newest.hash;
      version = version;
      by = newest.actor;
      approved = is_approved verdict;
      recorded = recorded;
    }

-- The state by the last brief, where there is one.
abbrev pub state_of :
    List (Option String) → ℕ → List Event → List Decision → Option Event → BriefState
state_of recorded version ordered decisions none = record {
  hash = none;
  version = version;
  by = none;
  approved = false;
  recorded = recorded;
}
state_of recorded version ordered decisions (some newest) =
    recorded_state recorded version newest ordered decisions

-- `_brief_state`
unfoldable pub brief_state : List Event → List Decision → BriefState
unfolding ordered_events latest
brief_state events decisions =
    let ordered = ordered_events events in
    let briefs = filter (is_event brief) ordered in
    state_of (map (λ e. e.hash) briefs) (length briefs) ordered decisions (last briefs)

pub record Run : Type 0 where
  pub run_id : Option String
  pub workflow : Option String
  pub ts : Option Stamp
  pub purpose : Change
  pub outcome : Option String
  pub page : Option String
  pub void : Bool

abbrev pub is_outcome : String → Option String → Bool
is_outcome s outcome = opt_eq outcome (some s)

abbrev pub is_void : Change → Option String → Option String → Bool
is_void purpose outcome page =
    is_outcome "failed" outcome
    || is_outcome "skipped" outcome
    || (is_outcome "artifact" outcome && says "research" purpose && not (truthy page))

abbrev pub receipt_outcome : Option RunReceipt → Option String
receipt_outcome none = none
receipt_outcome (some r) = r.outcome

abbrev pub receipt_page : Option RunReceipt → Option String
receipt_page none = none
receipt_page (some r) = r.page

abbrev pub run_of : Event → Option RunReceipt → Run
run_of pick receipt =
    let outcome = receipt_outcome receipt in
    let page = receipt_page receipt in
    let purpose = or_else (lookup "purpose" pick.fields) (plain (text "research")) in
    record {
      run_id = pick.run_id;
      workflow = pick.workflow;
      ts = pick.ts;
      purpose = purpose;
      outcome = outcome;
      page = page;
      void = is_void purpose outcome page;
    }

-- `_runs`
unfoldable pub runs_of : List Event → (Option String → Option RunReceipt) → List Run
unfolding ordered_events
runs_of events receipts =
    map (λ pick. run_of pick (receipts pick.run_id))
      (filter (is_event picked) (ordered_events events))

-- `_is_human`
abbrev pub is_human : Option String → Bool
is_human none = false
is_human (some actor) =
    str_eq actor "dave" || str_eq actor "mac:claude" || starts_with "buzz:" actor

-- `str(actor).startswith("run:")`
abbrev pub is_run : Option String → Bool
is_run none = false
is_run (some actor) = starts_with "run:" actor

-- `_note_kind(event) in (None, "answer")`
abbrev pub plain_note : Option Change → Bool
plain_note none = true
plain_note (some (plain null)) = true
plain_note (some c) = says "answer" c

abbrev pub is_input : Bool → Event → Bool
is_input agent_wrote e =
    is_event created e
    || (is_event brief e && is_human e.actor && not agent_wrote)
    || (is_event note e && is_human e.actor && plain_note (lookup "kind" e.fields))
    || rescopes e

abbrev pub input_times : Bool → List Event → List ℕ
input_times wrote [] = []
input_times wrote (e ∷ events) =
    let agent_wrote = wrote || (is_event brief e && not (is_human e.actor)) in
    let rest = input_times agent_wrote events in
    if is_input agent_wrote e then moment e.ts ∷ rest else rest

abbrev pub is_verdict_returned : Decision → Bool
is_verdict_returned d = is_verdict brief_returned d.decision

-- `human_inputs`
unfoldable pub human_inputs : List Event → List Decision → List ℕ
unfolding ordered_events moment
human_inputs events decisions =
    input_times false (ordered_events events)
    ++ map (λ d. moment d.ts) (filter is_verdict_returned decisions)

abbrev asks : Option Change → Bool
asks none = false
asks (some c) = says "questions" c

abbrev pub is_question : Event → Bool
is_question e = is_event note e && asks (lookup "kind" e.fields) && is_run e.actor

-- `_questions`
unfoldable pub questions : List Event → List Event
unfolding ordered_events
questions events = filter is_question (ordered_events events)
