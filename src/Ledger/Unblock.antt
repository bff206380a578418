-- ===== src/Ledger/Unblock.antt =====
-- bin/board.py, `_blocks`: an unblock lifts every earlier block.
use hermes_agent_workforce_p.Prelude.{
  ℕ, ◌≤◌, ◌<◌, ◌≡◌, ◌≢◌, refl, subst, sym, ap, ◌∙◌, Bool, true, false, not, ◌&&◌, Option, none,
  some, List, [], ◌∷◌, String, arith, In, In-filter, filter-In, In-map, append-In, filter, inl, inr,
  ◌⊎◌, Bool-cases, Option-cases, opt_eq, if◌then◌else◌, is_some, ltb, ◌++◌, str_eq_refl, str_eq,
  ◌+◌, ◌-◌, ◌*◌,
}
use hermes_agent_workforce_p.Prelude.Dict.{Dict, lookup}
use hermes_agent_workforce_p.Ledger.{
  Event, Decision, Card, RunReceipt, unblocked, moment, latest, max_by, effective_fields, get,
  Value, null, text, texts,
}
use hermes_agent_workforce_p.Ledger.Brief.{BriefState, brief_state, Run, runs_of}
use hermes_agent_workforce_p.Ledger.Flow.{
  Column, blocked, Flow, flow_of, since_unblock, is_unblocked, is_after,
}
use hermes_agent_workforce_p.Ledger.Blocks.{
  Cause, Trigger, blocks_of, holds_of, live_cause, decision_triggers, deadline_triggers,
  deadline_passed, late_trigger, late_triggers,
}
use hermes_agent_workforce_p.Ledger.Derive.{
  CardView, derive, view_of, own, placed, is_merged, is_rejected, is_column,
}
use hermes_agent_workforce_p.Stamp.{iso_utc, parse_time}
use hermes_agent_workforce_p.Dates.{date_of, start_of_day}
use hermes_agent_workforce_p.Ledger.Order.{max_by-In, max_by-bound}
use hermes_agent_workforce_p.Ledger.Columns.{
  derive-view, view_at, state_at, flow_at, without_at, cause_at,
}

since_unblock-bound :
    (decisions : List Decision) (d : Decision)
    → In d decisions
    → d.decision ≡ unblocked
    → (since : ℕ) × (since_unblock decisions ≡ some since) × (moment d.ts ≤ since)
unfolding since_unblock
since_unblock-bound decisions d i e =
    max_by-bound (λ t. t) _ (moment d.ts)
      (In-map (λ x. moment x.ts) d _ (filter-In is_unblocked d decisions i (ground (arith, e))))

is_after-bound :
    (decisions : List Decision) (t : ℕ)
    → is_after (since_unblock decisions) t ≡ true
    → (d : Decision) → In d decisions
    → d.decision ≡ unblocked
    → moment d.ts < t
is_after-bound decisions t h d i e =
    let (since, same, le) = since_unblock-bound decisions d i e in ground (arith, h, same, le)

live_cause-trigger :
    (since : Option ℕ) (triggers : List Trigger) (c : Cause)
    → live_cause since triggers ≡ some c
    → (t : Trigger) × In t triggers × (is_after since (moment t.ts) ≡ true) × (t.cause ≡ c)
live_cause-trigger since triggers c h =
    elim (Option-cases
      (max_by (λ t. moment t.ts) (filter (λ t. is_after since (moment t.ts)) triggers))) [
        | inl e ↦ absurd (ground (arith, h, e))
        | inr (t, e) ↦
            let (i, after) =
              In-filter (λ x. is_after since (moment x.ts)) t triggers
                (max_by-In (λ x. moment x.ts) _ t e) in
            (t, i, after, ground (arith, h, e))
      ]

flow_of-not_blocked :
    (state : BriefState) (runs : List Run) (decisions : List Decision) (now timeout : ℕ)
    → (flow_of state runs decisions now timeout).column ≢ blocked
unfolding flow_of
flow_of-not_blocked state runs decisions now timeout h = ground (arith, h)

placed-blocked :
    (is_out : Bool) (without : Column) (flow : Flow) (on_main : Option String)
    (cause : Option Cause)
    → (placed is_out without flow on_main cause).0 ≡ blocked
    → flow.column ≢ blocked
    → (c : Cause) × (cause ≡ some c)
placed-blocked is_out without flow on_main (some c) h n = (c, refl)
placed-blocked true without flow on_main none h n = absurd (ground (arith, h))
placed-blocked false without flow on_main none h n =
    elim (Bool-cases (is_merged flow.approved on_main)) [
      | inl t ↦ absurd (ground (arith, h, t))
      | inr t ↦ absurd (n (ground (arith, h, t)))
    ]

some_injective : {A : Type 0} {a b : A} → some a ≡ some b → a ≡ b
some_injective h = cc

-- A trigger of a deadline: the fields have one, a day before today, no approval is landing, and the
-- trigger stands at the last second of that day.
pub record Lapsed (deadline : Value) (today : ℕ) (landing : Bool) (t : Trigger) : Type 0 where
  pub words : String
  pub has_words : deadline ≡ text words
  pub day : ℕ
  pub read : date_of words ≡ some day
  pub over : day < today
  pub unlanded : landing ≡ false
  pub at_end : moment t.ts ≡ (day - 1) * 86400 + 86399
  pub because : t.cause ≡ deadline_passed

moment-iso_utc : (n : ℕ) → moment (some (iso_utc n)) ≡ n
unfolding moment iso_utc parse_time
moment-iso_utc n = refl

late_trigger-Lapsed :
    (words : String) (day today : ℕ) (landing : Bool) (t : Trigger)
    → date_of words ≡ some day
    → In t (late_trigger day today landing)
    → Lapsed (text words) today landing t
late_trigger-Lapsed words day today landing t r i =
    elim (Bool-cases (ltb day today && not landing)) [
      | inl e ↦ only e (rw e at i)
      | inr e ↦ absurd (rw e at i)
    ]
  where
    only :
        (ltb day today && not landing) ≡ true
        → In t (
            record { ts = some (iso_utc (start_of_day day + 86399)); cause = deadline_passed } ∷ [])
        → Lapsed (text words) today landing t
    only b (inl e) = record {
      words = words;
      has_words = refl;
      day = day;
      read = r;
      over = ground (arith, b);
      unlanded = ground (arith, b);
      at_end = ap (λ x. moment x.ts) (sym e) ∙ moment-iso_utc (start_of_day day + 86399);
      because = sym (ap (λ x. x.cause) e);
    }
    only b (inr j) = absurd j

late_triggers-Lapsed :
    (words : String) (day : Option ℕ) (today : ℕ) (landing : Bool) (late : List Trigger)
    (t : Trigger)
    → date_of words ≡ day
    → late_triggers day today landing ≡ some late
    → In t late
    → Lapsed (text words) today landing t
late_triggers-Lapsed words none today landing late t r h i = cc
late_triggers-Lapsed words (some day) today landing late t r h i =
    late_trigger-Lapsed words day today landing t r (subst (In t) (sym (some_injective h)) i)

deadline_triggers-Lapsed :
    (deadline : Value) (today : ℕ) (landing : Bool) (late : List Trigger) (t : Trigger)
    → deadline_triggers deadline today landing ≡ some late
    → In t late
    → Lapsed deadline today landing t
unfolding deadline_triggers
deadline_triggers-Lapsed deadline today landing [] t h i = absurd i
deadline_triggers-Lapsed null today landing (u ∷ us) t h i = absurd (ground (arith, h))
deadline_triggers-Lapsed (texts []) today landing (u ∷ us) t h i = absurd (ground (arith, h))
deadline_triggers-Lapsed (texts (x ∷ xs)) today landing (u ∷ us) t h i = absurd (ground (arith, h))
deadline_triggers-Lapsed (text s) today landing (u ∷ us) t h i = elim (Bool-cases (str_eq s "")) [
  | inl e ↦ absurd (ground (arith, h, e))
  | inr e ↦
      late_triggers-Lapsed s (date_of s) today landing (u ∷ us) t refl (ground (arith, h, e)) i
]

-- Where a live trigger comes from.
pub blocks_of-trigger :
    (decisions : List Decision) (runs : List Run) (recorded : List (Option String))
    (fields : Dict Value) (today : ℕ) (landing : Bool) (holds : List Trigger) (c : Cause)
    → blocks_of decisions runs recorded fields today landing holds ≡ some (some c)
    → (t : Trigger) × (In t (decision_triggers decisions runs recorded holds)
        ⊎ Lapsed (get "deadline" fields) today landing t)
      × (is_after (since_unblock decisions) (moment t.ts) ≡ true)
      × (t.cause ≡ c)
unfolding blocks_of
blocks_of-trigger decisions runs recorded fields today landing holds c h =
    elim (Option-cases (deadline_triggers (get "deadline" fields) today landing)) [
      | inl e ↦ absurd (ground (arith, h, e))
      | inr (late, e) ↦
          let (t, i, after, same) =
            live_cause-trigger (since_unblock decisions)
              (decision_triggers decisions runs recorded holds ++ late) c (cause_is late e) in
          (t, origin late e t (append-In t _ late i), after, same)
    ]
  where
    cause_is :
        (late : List Trigger)
        → deadline_triggers (get "deadline" fields) today landing ≡ some late
        → live_cause
            (since_unblock decisions)
            (decision_triggers decisions runs recorded holds ++ late)
          ≡ some c
    cause_is late e = ground (arith, h, e)

    origin :
        (late : List Trigger)
        → deadline_triggers (get "deadline" fields) today landing ≡ some late
        → (t : Trigger) → In t (decision_triggers decisions runs recorded holds) ⊎ In t late
        → In t (decision_triggers decisions runs recorded holds)
          ⊎ Lapsed (get "deadline" fields) today landing t
    origin late e t (inl i) = inl i
    origin late e t (inr i) =
        inr (deadline_triggers-Lapsed (get "deadline" fields) today landing late t e i)

In-own :
    (card : Card) (decisions : List Decision) (d : Decision)
    → In d decisions
    → d.card ≡ some card.id
    → In d (own card decisions)
unfolding own
In-own card decisions d i same =
    filter-In (λ x. opt_eq x.card (some card.id)) d decisions i (rw same (str_eq_refl card.id))

shown :
    {c : Column} {cause : Option Cause}
    → c ≡ blocked
    → (if is_column blocked c then cause else none) ≡ cause
shown h = ground (arith, h)

module _ (box_instant : ℕ → ℕ) (card : Card) (events : List Event) (decisions : List Decision)
    (receipts : Option String → Option RunReceipt) (main : Dict String)
    (now today timeout : ℕ) where
  -- A live trigger of a view's cause: no unblock of the card is at its instant or later.
  abbrev LiveTrigger : CardView → Type 0
  LiveTrigger v =
      (t : Trigger) × (v.blocked_cause ≡ some t.cause)
      × (In t (
            decision_triggers (own card decisions) (runs_of events receipts)
              (brief_state events (own card decisions)).recorded (holds_of events))
          ⊎ Lapsed (get "deadline" (effective_fields card events)) today
              (is_some
                (flow_at box_instant card events decisions receipts main now today
                  timeout).approved)
              t)
      × ((d : Decision)
          → In d decisions
          → d.card ≡ some card.id
          → d.decision ≡ unblocked
          → moment d.ts < moment t.ts)

  unfoldable Blocked : CardView → Type 0
  Blocked v = v.column ≡ blocked → LiveTrigger v

  view_at-Blocked :
      (cause : Option Cause) (due : Option ℕ)
      → cause_at box_instant card events decisions receipts main now today timeout ≡ some cause
      → Blocked
          (view_at box_instant card events decisions receipts main now today timeout cause due)
  unfolding Blocked view_of
  view_at-Blocked cause due same h =
      let state = state_at box_instant card events decisions receipts main now today timeout in
      let flow = flow_at box_instant card events decisions receipts main now today timeout in
      let without = without_at box_instant card events decisions receipts main now today timeout in
      let runs = runs_of events receipts in
      let mine = own card decisions in
      let (c, e) =
        placed-blocked (is_some (latest (filter is_rejected mine))) without.column flow
          (lookup card.id main) cause h (flow_of-not_blocked state runs mine now timeout) in
      let (t, origin, after, eq) =
        blocks_of-trigger mine runs state.recorded (effective_fields card events) today
          (is_some flow.approved) (holds_of events) c (same ∙ ap some e) in
      (
        t,
        shown h ∙ e ∙ ap some (sym eq),
        origin,
        λ d i same kind.
            is_after-bound mine (moment t.ts) after d (In-own card decisions d i same) kind,
      )

  -- A Blocked card is blocked by a live trigger: by one of the decisions, runs and holds, at its time,
  -- or by its deadline, at the last second of the deadline's day, which is over, while no approval is
  -- landing; and every unblock of the card is earlier than the trigger.
  pub blocked-live :
      (v : CardView)
      → derive box_instant card events decisions receipts main now today timeout ≡ some v
      → v.column ≡ blocked
      → (t : Trigger) × (v.blocked_cause ≡ some t.cause)
        × (In t (
              decision_triggers
                (own card decisions)
                (runs_of events receipts)
                (brief_state events (own card decisions)).recorded
                (holds_of events))
            ⊎ Lapsed
                (get "deadline" (effective_fields card events))
                today
                (is_some
                  (flow_of
                    (brief_state events (own card decisions))
                    (runs_of events receipts)
                    (own card decisions)
                    now
                    timeout).approved)
                t)
        × ((d : Decision)
            → In d decisions
            → d.card ≡ some card.id
            → d.decision ≡ unblocked
            → moment d.ts < moment t.ts)
  unfolding Blocked
  blocked-live v h =
      let (cause, due, e, same) =
        derive-view box_instant card events decisions receipts main now today timeout v h in
      subst Blocked same (view_at-Blocked cause due e)
