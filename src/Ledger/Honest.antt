-- ===== src/Ledger/Honest.antt =====
-- bin/board.py: the ledger rows that `derive` reads, and that each of its parts reads no other.
use hermes_agent_workforce_p.Prelude.{
  ℕ, ◌≡◌, refl, sym, ap, ◌∙◌, String, Bool, true, false, not, ◌&&◌, ◌||◌, Option, none, some, List,
  [], ◌∷◌, map, length, arith, filter, any, Bool-cases, inl, inr, if◌then◌else◌, opt_eq, In-filter,
}
use hermes_agent_workforce_p.Prelude.Dict.{Dict}
use hermes_agent_workforce_p.Ledger.{
  Event, EventKind, created, brief, picked, note, edited, held, decision_shaped, other, Decision,
  Card, RunReceipt, Value, moment, ordered_events, edit_fields, effective_fields, card_fields,
  is_event, is_kind, last, change_fields,
}
use hermes_agent_workforce_p.Ledger.Brief.{
  BriefState, Run, brief_state, state_of, after_first, event_eq, kind_eq, rescopes, runs_of, run_of,
  human_inputs, input_times, is_input, questions, is_question, is_human,
}
use hermes_agent_workforce_p.Ledger.Flow.{Column}
use hermes_agent_workforce_p.Ledger.Blocks.{holds_of, hold_trigger, is_reactor_hold}
use hermes_agent_workforce_p.Ledger.Derive.{brief_wants, answered_times, is_run_brief}
use hermes_agent_workforce_p.Ledger.Order.{last-In}
use hermes_agent_workforce_p.Ledger.Sorted.{filter-sorted, filter-filter}

-- Rows that are events of the ledger: neither shaped like a decision, nor unknown, nor a hold that
-- the reactor did not write.
abbrev pub may_write : EventKind → Option String → Bool
may_write held actor = opt_eq actor (some "reactor")
may_write (decision_shaped v) actor = false
may_write (other s) actor = false
may_write _ actor = true

abbrev pub is_honest : Event → Bool
is_honest e = may_write e.event e.actor

abbrev pub honest : List Event → List Event
honest events = filter is_honest events

ordered-honest :
    (events : List Event) → ordered_events (honest events) ≡ honest (ordered_events events)
unfolding ordered_events
ordered-honest events = sym (filter-sorted (λ e. moment e.ts) is_honest events)

kind-honest :
    (k : EventKind) (actor : Option String) (j : EventKind)
    → may_write k none ≡ true
    → is_kind k j ≡ true
    → may_write j actor ≡ true
kind-honest created actor j h e = ground (arith, h, e)
kind-honest k actor j h e = ground (arith, h, e)

event-honest :
    (k : EventKind) (e : Event) → may_write k none ≡ true → is_event k e ≡ true → is_honest e ≡ true
event-honest k e h t = kind-honest k e.actor e.event h t

filter_event-honest :
    (k : EventKind) (events : List Event)
    → may_write k none ≡ true
    → filter (is_event k) (honest events) ≡ filter (is_event k) events
filter_event-honest k events h =
    filter-filter (λ e. moment e.ts) is_honest (is_event k) events (λ e t. event-honest k e h t)

event-dishonest :
    (k : EventKind) (e : Event)
    → may_write k none ≡ true
    → is_honest e ≡ false
    → is_event k e ≡ false
event-dishonest k e h t = elim (Bool-cases (is_event k e)) [
  | inl s ↦ absurd (differ (event-honest k e h s))
  | inr s ↦ s
]
  where
    differ : is_honest e ≡ true → ⊥
    differ s = ground (arith, s, t)

-- The rows of one kind, in order.
filter_ordered-honest :
    (k : EventKind) (events : List Event)
    → may_write k none ≡ true
    → filter (is_event k) (ordered_events (honest events))
      ≡ filter (is_event k) (ordered_events events)
filter_ordered-honest k events h =
    ap (filter (is_event k)) (ordered-honest events)
    ∙ filter_event-honest k (ordered_events events) h

edit_fields-honest :
    (events : List Event) (fields : Dict Value)
    → edit_fields (honest events) fields ≡ edit_fields events fields
edit_fields-honest [] fields = refl
edit_fields-honest (e ∷ events) fields = elim (Bool-cases (is_honest e)) [
  | inl t ↦ rw t (
      edit_fields-honest events
        (if is_event edited e then change_fields e.fields fields else fields))
  | inr t ↦ rw (t, event-dishonest edited e refl t) (edit_fields-honest events fields)
]

pub effective_fields-honest :
    (card : Card) (events : List Event)
    → effective_fields card (honest events) ≡ effective_fields card events
unfolding effective_fields
effective_fields-honest card events =
    rw (ordered-honest events, edit_fields-honest (ordered_events events) (card_fields card)) refl

pub runs_of-honest :
    (events : List Event) (receipts : Option String → Option RunReceipt)
    → runs_of (honest events) receipts ≡ runs_of events receipts
unfolding runs_of
runs_of-honest events receipts =
    ap (map (λ pick. run_of pick (receipts pick.run_id))) (filter_ordered-honest picked events refl)

rescopes-dishonest : (e : Event) → is_honest e ≡ false → rescopes e ≡ false
rescopes-dishonest e t = rw (event-dishonest edited e refl t) refl

any-rescopes-honest : (events : List Event) → any rescopes (honest events) ≡ any rescopes events
any-rescopes-honest [] = refl
any-rescopes-honest (e ∷ events) = elim (Bool-cases (is_honest e)) [
  | inl t ↦ rw (t, any-rescopes-honest events) refl
  | inr t ↦ rw (t, event-dishonest edited e refl t) (any-rescopes-honest events)
]

kind_eq-brief :
    (k j : EventKind) → is_kind brief j ≡ true → kind_eq k j ≡ true → is_kind brief k ≡ true
kind_eq-brief brief j h e = refl
kind_eq-brief k brief h e = ground (arith, h, e)
kind_eq-brief k j h e = ground (arith, h, e)

event_eq-dishonest :
    (x e : Event) → is_event brief e ≡ true → is_honest x ≡ false → event_eq x e ≡ false
event_eq-dishonest x e h t = elim (Bool-cases (kind_eq x.event e.event)) [
  | inl s ↦ absurd (differ (kind_eq-brief x.event e.event h s))
  | inr s ↦ ground (arith, s)
]
  where
    differ : is_event brief x ≡ true → ⊥
    differ s = ground (arith, s, event-dishonest brief x refl t)

after_first-honest :
    (e : Event) (events : List Event)
    → is_event brief e ≡ true
    → any rescopes (after_first e (honest events)) ≡ any rescopes (after_first e events)
after_first-honest e [] h = refl
after_first-honest e (x ∷ events) h = elim (Bool-cases (is_honest x)) [
  | inl t ↦ elim (Bool-cases (event_eq x e)) [
    | inl s ↦ rw (t, s) (any-rescopes-honest events)
    | inr s ↦ rw (t, s) (after_first-honest e events h)
  ]
  | inr t ↦ rw (t, event_eq-dishonest x e h t) (after_first-honest e events h)
]

state_of-honest :
    (recorded : List (Option String)) (version : ℕ) (ordered : List Event)
    (decisions : List Decision) (newest : Option Event)
    → ((e : Event) → newest ≡ some e → is_event brief e ≡ true)
    → state_of recorded version (honest ordered) decisions newest
      ≡ state_of recorded version ordered decisions newest
state_of-honest recorded version ordered decisions none h = refl
state_of-honest recorded version ordered decisions (some e) h =
    rw (after_first-honest e ordered (h e refl)) refl

pub brief_state-honest :
    (events : List Event) (decisions : List Decision)
    → brief_state (honest events) decisions ≡ brief_state events decisions
unfolding brief_state
brief_state-honest events decisions =
    let briefs = filter (is_event brief) (ordered_events events) in
    rw (filter_ordered-honest brief events refl, ordered-honest events)
      (state_of-honest (map (λ e. e.hash) briefs) (length briefs) (ordered_events events) decisions
        (last briefs)
        (λ e h. (In-filter (is_event brief) e (ordered_events events) (last-In briefs e h)).1))

is_input-dishonest : (wrote : Bool) (e : Event) → is_honest e ≡ false → is_input wrote e ≡ false
is_input-dishonest wrote e t =
    rw
      (
        event-dishonest edited e refl t,
        event-dishonest created e refl t,
        event-dishonest brief e refl t,
        event-dishonest note e refl t,
      )
      refl

input_times-honest :
    (wrote : Bool) (events : List Event)
    → input_times wrote (honest events) ≡ input_times wrote events
input_times-honest wrote [] = refl
input_times-honest wrote (e ∷ events) = elim (Bool-cases (is_honest e)) [
  | inl t ↦
      rw (t, input_times-honest (wrote || (is_event brief e && not (is_human e.actor))) events) refl
  | inr t ↦ rw t (input_times-honest wrote events ∙ sym (skipped t))
]
  where
    same : is_honest e ≡ false → (wrote || (is_event brief e && not (is_human e.actor))) ≡ wrote
    same t = ground (arith, event-dishonest brief e refl t)

    skipped : is_honest e ≡ false → input_times wrote (e ∷ events) ≡ input_times wrote events
    skipped t =
        rw (is_input-dishonest (wrote || (is_event brief e && not (is_human e.actor))) e t, same t)
          refl

pub human_inputs-honest :
    (events : List Event) (decisions : List Decision)
    → human_inputs (honest events) decisions ≡ human_inputs events decisions
unfolding human_inputs
human_inputs-honest events decisions =
    rw (ordered-honest events, input_times-honest false (ordered_events events)) refl

is_question-honest : (e : Event) → is_question e ≡ true → is_honest e ≡ true
is_question-honest e h = event-honest note e refl (ground (arith, h))

pub questions-honest : (events : List Event) → questions (honest events) ≡ questions events
unfolding questions
questions-honest events =
    ap (filter is_question) (ordered-honest events)
    ∙ filter-filter (λ e. moment e.ts) is_honest is_question (ordered_events events)
        is_question-honest

is_reactor_hold-honest : (e : Event) → is_reactor_hold e ≡ true → is_honest e ≡ true
is_reactor_hold-honest e h = kind_hold e.event e.actor h
  where
    kind_hold :
        (k : EventKind) (actor : Option String)
        → (is_kind held k && opt_eq actor (some "reactor")) ≡ true
        → may_write k actor ≡ true
    kind_hold held actor h = h
    kind_hold k actor h = ground (arith, h)

pub holds_of-honest : (events : List Event) → holds_of (honest events) ≡ holds_of events
unfolding holds_of
holds_of-honest events =
    ap (map hold_trigger)
      (filter-filter (λ e. moment e.ts) is_honest is_reactor_hold events is_reactor_hold-honest)

is_run_brief-honest : (e : Event) → is_run_brief e ≡ true → is_honest e ≡ true
is_run_brief-honest e h = event-honest brief e refl (ground (arith, h))

answered_times-honest :
    (runs : List Run) (events : List Event)
    → answered_times runs (honest events) ≡ answered_times runs events
answered_times-honest runs events =
    rw (filter-filter (λ e. moment e.ts) is_honest is_run_brief events is_run_brief-honest) refl

pub brief_wants-honest :
    (c : Column) (state : BriefState) (runs : List Run) (events : List Event)
    (decisions : List Decision)
    → brief_wants c state runs (honest events) decisions ≡ brief_wants c state runs events decisions
unfolding brief_wants
brief_wants-honest c state runs events decisions =
    rw
      (
        questions-honest events,
        human_inputs-honest events decisions,
        answered_times-honest runs events,
      )
      refl
