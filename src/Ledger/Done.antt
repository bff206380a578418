-- ===== src/Ledger/Done.antt =====
-- bin/board.py, `derive`: what closes a card.
use hermes_agent_workforce_p.Prelude.{
  ℕ, ◌≡◌, ◌≢◌, refl, subst, sym, ◌∙◌, Bool, true, false, ◌&&◌, Option, none, some, List, String,
  arith, In, In-filter, filter, inl, inr, ◌⊎◌, Bool-cases, Option-cases, opt_eq, is_some, ltb,
}
use hermes_agent_workforce_p.Prelude.Dict.{Dict, lookup}
use hermes_agent_workforce_p.Ledger.{
  Event, Decision, Card, RunReceipt, rejected, approved, moment, latest, last,
}
use hermes_agent_workforce_p.Ledger.Brief.{BriefState, Run, runs_of}
use hermes_agent_workforce_p.Ledger.Flow.{
  Column, done, Flow, flow_of, run_flow, review_verdict, is_answer, asks_changes, is_live,
}
use hermes_agent_workforce_p.Ledger.Blocks.{Cause}
use hermes_agent_workforce_p.Ledger.Derive.{
  CardView, derive, view_of, own, placed, is_merged, is_rejected,
}
use hermes_agent_workforce_p.Ledger.Order.{opt_eq→eq, latest-In, is_verdict→eq}
use hermes_agent_workforce_p.Ledger.Columns.{derive-view, view_at, state_at, flow_at, without_at}

abbrev Rejection : List Decision → Type 0
Rejection decisions = (d : Decision) × In d decisions × (d.decision ≡ rejected)

flow_of-not_done :
    (state : BriefState) (runs : List Run) (decisions : List Decision) (now timeout : ℕ)
    → (flow_of state runs decisions now timeout).column ≢ done
unfolding flow_of
flow_of-not_done state runs decisions now timeout h = ground (arith, h)

run_flow-answer :
    (run : Run) (decisions : List Decision) (now timeout : ℕ) (d : Decision)
    → (run_flow run decisions now timeout).approved ≡ some d
    → In d decisions × (d.decision ≡ approved)
run_flow-answer run decisions now timeout d h = elim (Option-cases run.outcome) [
  | inl e ↦ absurd (ground (arith, h, e))
  | inr (outcome, e) ↦ elim (Bool-cases (asks_changes (review_verdict run decisions))) [
    | inl t ↦ absurd (ground (arith, h, e, t))
    | inr t ↦
        let same = verdict_is outcome e t in
        let (i, p) =
          latest-In (λ x. is_answer x.decision && ltb (moment run.ts) (moment x.ts)) decisions d
            same in
        (i, sym (is_verdict→eq approved d.decision (ground (arith, p, t, same))))
  ]
]
  where
    verdict_is :
        (outcome : String)
        → run.outcome ≡ some outcome
        → asks_changes (review_verdict run decisions) ≡ false
        → review_verdict run decisions ≡ some d
    verdict_is outcome e t = ground (arith, h, e, t)

flow_of-answer :
    (state : BriefState) (runs : List Run) (decisions : List Decision) (now timeout : ℕ)
    (d : Decision)
    → (flow_of state runs decisions now timeout).approved ≡ some d
    → In d decisions × (d.decision ≡ approved)
unfolding flow_of
flow_of-answer state runs decisions now timeout d h = elim (Option-cases state.hash) [
  | inl e ↦ absurd (ground (arith, h, e))
  | inr (hash, e) ↦ elim (Bool-cases state.approved) [
    | inr t ↦ absurd (ground (arith, h, e, t))
    | inl t ↦ elim (Option-cases (last (filter is_live runs))) [
      | inl l ↦ absurd (ground (arith, h, e, t, l))
      | inr (run, l) ↦ run_flow-answer run decisions now timeout d (ground (arith, h, e, t, l))
    ]
  ]
]

abbrev Landed : Option Decision → Option String → Type 0
Landed approval on_main =
    (d : Decision) × (approval ≡ some d)
    × ((hash : String) × (d.page_hash ≡ some hash) × (on_main ≡ some hash))

is_merged-Landed :
    (approval : Option Decision) (on_main : Option String)
    → is_merged approval on_main ≡ true
    → Landed approval on_main
is_merged-Landed none on_main h = ground (arith, h)
is_merged-Landed (some d) on_main h = elim (Option-cases d.page_hash) [
  | inl g ↦ absurd (ground (arith, h, g))
  | inr (hash, g) ↦ (d, refl, (hash, g, opt_eq→eq on_main d.page_hash (ground (arith, h, g)) ∙ g))
]

placed-done :
    (is_out : Bool) (without : Column) (flow : Flow) (on_main : Option String)
    (cause : Option Cause)
    → (placed is_out without flow on_main cause).0 ≡ done
    → flow.column ≢ done
    → (is_out ≡ true) ⊎ Landed flow.approved on_main
placed-done true without flow on_main cause h n = inl refl
placed-done false without flow on_main cause h n =
    elim (Bool-cases (is_merged flow.approved on_main)) [
      | inl e ↦ inr (is_merged-Landed flow.approved on_main e)
      | inr e ↦ elim (Bool-cases (is_some cause)) [
        | inl t ↦ absurd (ground (arith, h, e, t))
        | inr t ↦ absurd (n (ground (arith, h, e, t)))
      ]
    ]

latest_rejected :
    (rows : List Decision) → is_some (latest (filter is_rejected rows)) ≡ true → Rejection rows
latest_rejected rows h = elim (Option-cases (latest (filter is_rejected rows))) [
  | inl e ↦ absurd (ground (arith, h, e))
  | inr (d, e) ↦
      let (i, p) = latest-In is_rejected rows d e in
      (d, i, sym (is_verdict→eq rejected d.decision p))
]

own-In :
    (card : Card) (decisions : List Decision) (d : Decision)
    → In d (own card decisions)
    → In d decisions × (d.card ≡ some card.id)
unfolding own
own-In card decisions d i =
    let (j, p) = In-filter (λ x. opt_eq x.card (some card.id)) d decisions i in
    (j, opt_eq→eq d.card (some card.id) p)

module _ (box_instant : ℕ → ℕ) (card : Card) (events : List Event) (decisions : List Decision)
    (receipts : Option String → Option RunReceipt) (main : Dict String)
    (now today timeout : ℕ) where
  unfoldable Closed : CardView → Type 0
  Closed v =
      v.column ≡ done
      → ((d : Decision) × In d decisions × (d.card ≡ some card.id) × (d.decision ≡ rejected))
        ⊎ ((d : Decision) × In d decisions
            × (d.card ≡ some card.id)
            × (d.decision ≡ approved)
            × ((hash : String) × (d.page_hash ≡ some hash) × (lookup card.id main ≡ some hash)))

  view_at-Closed :
      (cause : Option Cause) (due : Option ℕ)
      → Closed (view_at box_instant card events decisions receipts main now today timeout cause due)
  unfolding Closed view_of
  view_at-Closed cause due h =
      let state = state_at box_instant card events decisions receipts main now today timeout in
      let flow = flow_at box_instant card events decisions receipts main now today timeout in
      let without = without_at box_instant card events decisions receipts main now today timeout in
      let runs = runs_of events receipts in
      let mine = own card decisions in
      elim (placed-done (is_some (latest (filter is_rejected mine))) without.column flow
        (lookup card.id main) cause h (flow_of-not_done state runs mine now timeout)) [
          | inl out ↦
              let (d, i, e) = latest_rejected mine out in
              let (j, c) = own-In card decisions d i in inl (d, j, c, e)
          | inr (d, e, page) ↦
              let (i, kind) = flow_of-answer state runs mine now timeout d e in
              let (j, c) = own-In card decisions d i in inr (d, j, c, kind, page)
        ]

  -- A card in Done was rejected by a decision of the broker's stream, or the stream approves a page
  -- of it whose very hash stands on main.
  pub done-closed :
      (v : CardView)
      → derive box_instant card events decisions receipts main now today timeout ≡ some v
      → v.column ≡ done
      → ((d : Decision) × In d decisions × (d.card ≡ some card.id) × (d.decision ≡ rejected))
        ⊎ ((d : Decision) × In d decisions
            × (d.card ≡ some card.id)
            × (d.decision ≡ approved)
            × ((hash : String) × (d.page_hash ≡ some hash) × (lookup card.id main ≡ some hash)))
  unfolding Closed
  done-closed v h =
      let (cause, due, e, same) =
        derive-view box_instant card events decisions receipts main now today timeout v h in
      subst Closed same (view_at-Closed cause due)
