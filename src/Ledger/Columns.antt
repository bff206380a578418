-- ===== src/Ledger/Columns.antt =====
-- bin/board.py, `derive`: what a card's column says about its brief.
use hermes_agent_workforce_p.Prelude.{
  ℕ, ◌≡◌, ap, refl, subst, sym, ◌∙◌, Bool, true, false, ◌&&◌, ◌||◌, Option, none, some, List,
  String, arith, In, In-filter, filter, inl, inr, Bool-cases, Option-cases, opt_eq, any, map,
  length, >>=-some, is_some,
}
use hermes_agent_workforce_p.Prelude.Dict.{Dict, lookup}
use hermes_agent_workforce_p.Ledger.{
  Event, Decision, Card, RunReceipt, brief_approved, last, effective_fields, get, ordered_events,
  is_event, brief,
}
use hermes_agent_workforce_p.Ledger.Brief.{
  BriefState, brief_state, Run, runs_of, state_of, brief_verdict, is_approved, is_brief_verdict,
  rescopes, after_first, is_returned,
}
use hermes_agent_workforce_p.Ledger.Flow.{
  Column, backlog, refine, todo, in_progress, in_review, done, blocked, Flow, flow_of,
}
use hermes_agent_workforce_p.Ledger.Blocks.{Cause, blocks_of, holds_of}
use hermes_agent_workforce_p.Ledger.Derive.{
  CardView, derive, view_of, own, drop_rejection, due_at, placed,
}
use hermes_agent_workforce_p.Ledger.Order.{opt_eq→eq, latest-In, is_verdict→eq}

-- The columns behind the approval of the brief, and not closed or blocked.
abbrev pub is_worked : Column → Bool
is_worked todo = true
is_worked in_progress = true
is_worked in_review = true
is_worked _ = false

abbrev pub is_flowing : Column → Bool
is_flowing done = false
is_flowing blocked = false
is_flowing _ = true

pub placed_flow :
    (is_out : Bool) (without : Column) (flow : Flow) (on_main : Option String)
    (cause : Option Cause)
    → is_flowing (placed is_out without flow on_main cause).0 ≡ true
    → (placed is_out without flow on_main cause).0 ≡ flow.column
placed_flow true without flow on_main cause h = ground (arith, h)
placed_flow false without flow on_main none h = ground (arith, h)
placed_flow false without flow on_main (some c) h = ground (arith, h)

is_worked-flowing : (c : Column) → is_worked c ≡ true → is_flowing c ≡ true
is_worked-flowing todo h = refl
is_worked-flowing in_progress h = refl
is_worked-flowing in_review h = refl
is_worked-flowing backlog h = ground (arith, h)
is_worked-flowing refine h = ground (arith, h)
is_worked-flowing done h = ground (arith, h)
is_worked-flowing blocked h = ground (arith, h)

flow_of-approved :
    (state : BriefState) (runs : List Run) (decisions : List Decision) (now timeout : ℕ)
    → is_worked (flow_of state runs decisions now timeout).column ≡ true
    → (state.approved ≡ true) × ((hash : String) × (state.hash ≡ some hash))
unfolding flow_of
flow_of-approved state runs decisions now timeout h = elim (Option-cases state.hash) [
  | inl e ↦ absurd (ground (arith, h, e))
  | inr (hash, e) ↦ elim (Bool-cases state.approved) [
    | inl t ↦ (t, (hash, e))
    | inr t ↦ absurd (ground (arith, h, e, t))
  ]
]

brief_verdict-approved :
    (hash : Option String) (decisions : List Decision)
    → is_approved (brief_verdict hash decisions) ≡ true
    → (d : Decision) × In d decisions × (d.decision ≡ brief_approved) × (d.brief_hash ≡ hash)
brief_verdict-approved hash decisions h = elim (Option-cases (brief_verdict hash decisions)) [
  | inl e ↦ absurd (ground (arith, h, e))
  | inr (d, e) ↦
      let (i, p) =
        latest-In (λ x. is_brief_verdict x.decision && opt_eq x.brief_hash hash) decisions d e in
      (
        d,
        i,
        sym (is_verdict→eq brief_approved d.decision (ground (arith, h, e))),
        opt_eq→eq d.brief_hash hash (ground (arith, p)),
      )
]

abbrev ApprovedBy : List Decision → Option String → Type 0
ApprovedBy decisions hash =
    (d : Decision) × In d decisions × (d.decision ≡ brief_approved) × (d.brief_hash ≡ hash)

state_of-approved :
    (recorded : List (Option String)) (version : ℕ) (ordered : List Event)
    (decisions : List Decision) (newest : Option Event)
    → (state_of recorded version ordered decisions newest).approved ≡ true
    → ApprovedBy decisions (state_of recorded version ordered decisions newest).hash
state_of-approved recorded version ordered decisions none h = ground (arith, h)
state_of-approved recorded version ordered decisions (some e) h = elim (Bool-cases (voids e)) [
  | inl t ↦ absurd (false_true (rw t at h))
  | inr t ↦ rw t (brief_verdict-approved e.hash decisions (rw t at h))
]
  where
    voids : Event → Bool
    voids e = any rescopes (after_first e ordered) || is_returned (brief_verdict e.hash decisions)

    false_true : false ≡ true → ⊥
    false_true h = ground (arith, h)

pub brief_state-approved :
    (events : List Event) (decisions : List Decision)
    → (brief_state events decisions).approved ≡ true
    → ApprovedBy decisions (brief_state events decisions).hash
unfolding brief_state
brief_state-approved events decisions h =
    let ordered = ordered_events events in
    let briefs = filter (is_event brief) ordered in
    state_of-approved (map (λ e. e.hash) briefs) (length briefs) ordered decisions (last briefs) h

module _ (box_instant : ℕ → ℕ) (card : Card) (events : List Event) (decisions : List Decision)
    (receipts : Option String → Option RunReceipt) (main : Dict String)
    (now today timeout : ℕ) where
  abbrev pub state_at : BriefState
  state_at = brief_state events (own card decisions)

  abbrev pub flow_at : Flow
  flow_at = flow_of state_at (runs_of events receipts) (own card decisions) now timeout

  abbrev pub without_at : Flow
  without_at =
      flow_of state_at (runs_of events receipts) (drop_rejection (own card decisions)) now timeout

  abbrev pub cause_at : Option (Option Cause)
  cause_at =
      blocks_of (own card decisions) (runs_of events receipts) state_at.recorded
        (effective_fields card events) today (is_some flow_at.approved) (holds_of events)

  abbrev pub view_at : Option Cause → Option ℕ → CardView
  view_at cause due =
      view_of card events (own card decisions) (runs_of events receipts) state_at flow_at without_at
        (lookup card.id main) now cause due

  -- A derived view is made of a cause and a due time.
  pub derive-view :
      (v : CardView)
      → derive box_instant card events decisions receipts main now today timeout ≡ some v
      → (cause : Option Cause) × (due : Option ℕ) × (cause_at ≡ some cause)
        × (view_at cause due ≡ v)
  unfolding derive
  derive-view v h =
      let (cause, e, h1) = >>=-some cause_at _ h in
      let (due, f, h2) =
        >>=-some (due_at box_instant (get "research_on" (effective_fields card events))) _ h1 in
      (cause, due, e, ground (arith, h2))

  -- The due time of a view is that of the card's fields.
  pub derive-due :
      (v : CardView)
      → derive box_instant card events decisions receipts main now today timeout ≡ some v
      → due_at box_instant (get "research_on" (effective_fields card events)) ≡ some v.due_at
  unfolding derive view_of
  derive-due v h =
      let (cause, e, h1) = >>=-some cause_at _ h in
      let (due, f, h2) =
        >>=-some (due_at box_instant (get "research_on" (effective_fields card events))) _ h1 in
      f ∙ ap (λ (u : CardView). some u.due_at) (due_of cause due h2)
    where
      due_of :
          (cause : Option Cause) (due : Option ℕ)
          → some (view_at cause due) ≡ some v
          → view_at cause due ≡ v
      due_of cause due h = cc

  unfoldable Approved : CardView → Type 0
  Approved v =
      is_worked v.column ≡ true
      → (v.brief_approved ≡ true)
        × ((hash : String) × (v.brief_hash ≡ some hash)
            × ((d : Decision) × In d decisions
                × (d.card ≡ some card.id)
                × (d.decision ≡ brief_approved)
                × (d.brief_hash ≡ some hash)))

  view_at-Approved : (cause : Option Cause) (due : Option ℕ) → Approved (view_at cause due)
  unfolding view_of own Approved
  view_at-Approved cause due w =
      let flowing =
        placed_flow _ without_at.column flow_at (lookup card.id main) cause
          (is_worked-flowing _ w) in
      let (a, (hash, e)) =
        flow_of-approved state_at (runs_of events receipts) (own card decisions) now timeout
          (subst (λ c. is_worked c ≡ true) flowing w) in
      let (d, i, kind, same) = brief_state-approved events (own card decisions) a in
      let (j, mine) = In-filter (λ x. opt_eq x.card (some card.id)) d decisions i in
      (a, (hash, e, (d, j, opt_eq→eq d.card (some card.id) mine, kind, same ∙ e)))

  -- A card in Todo, In Progress or In Review has an approved brief: its last brief is recorded under
  -- a hash, and the decisions hold a brief approval of this card and of that hash.
  pub worked-approved :
      (v : CardView)
      → derive box_instant card events decisions receipts main now today timeout ≡ some v
      → is_worked v.column ≡ true
      → (v.brief_approved ≡ true)
        × ((hash : String) × (v.brief_hash ≡ some hash)
            × ((d : Decision) × In d decisions
                × (d.card ≡ some card.id)
                × (d.decision ≡ brief_approved)
                × (d.brief_hash ≡ some hash)))
  unfolding Approved
  worked-approved v h =
      let (cause, due, e, same) = derive-view v h in
      subst Approved same (view_at-Approved cause due)
