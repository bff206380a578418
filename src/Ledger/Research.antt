-- ===== src/Ledger/Research.antt =====
-- bin/board.py, `derive`: when a card is ready for a research run, or for a brief run.
use hermes_agent_workforce_p.Prelude.{
  ℕ, ◌≤◌, ◌≡◌, ◌≢◌, refl, subst, Bool, false, not, ◌||◌, Option, none, some, List, String, arith,
  inl, inr, Bool-cases,
}
use hermes_agent_workforce_p.Prelude.Dict.{Dict}
use hermes_agent_workforce_p.Ledger.{
  Event, Decision, Card, RunReceipt, deleted, get, effective_fields,
}
use hermes_agent_workforce_p.Ledger.Deletion.{Undone, IsOn, deletion-Undone, never-deleted}
use hermes_agent_workforce_p.Ledger.Brief.{BriefState, Run, runs_of}
use hermes_agent_workforce_p.Ledger.Flow.{Column, todo}
use hermes_agent_workforce_p.Ledger.Blocks.{Cause}
use hermes_agent_workforce_p.Ledger.Derive.{
  CardView, derive, view_of, own, Wanted, research_run, wanted, brief_wants, is_open_brief,
  is_scheduled, due_at,
}
use hermes_agent_workforce_p.Ledger.Columns.{derive-view, derive-due, view_at, state_at}

brief_wants-research :
    (c : Column) (state : BriefState) (runs : List Run) (events : List Event)
    (decisions : List Decision)
    → (brief_wants c state runs events decisions).wants ≢ some research_run
unfolding brief_wants
brief_wants-research c state runs events decisions h =
    elim (Bool-cases (not (is_open_brief c) || state.approved)) [
      | inl e ↦ ground (arith, h, e)
      | inr e ↦ ground (arith, h, e)
    ]

wanted-research :
    (c : Column) (scheduled gone : Bool) (w : Option Wanted)
    → w ≢ some research_run
    → ((wanted c scheduled gone w ≡ some research_run)
        → (c ≡ todo) × (scheduled ≡ false) × (gone ≡ false))
      × ((c ≡ todo)
          → (scheduled ≡ false)
          → (gone ≡ false)
          → wanted c scheduled gone w ≡ some research_run)
wanted-research todo scheduled gone w h =
    (λ e. ground (arith, h, e), λ a b c. ground (arith, h, a, b, c))
wanted-research c scheduled gone w h =
    (λ e. ground (arith, h, e), λ a b c. ground (arith, h, a, b, c))

-- The time from which a run may take the card, where it has one, has come.
abbrev pub HasCome : ℕ → Option ℕ → Type 0
HasCome now none = Unit
HasCome now (some due) = due ≤ now

is_scheduled-HasCome :
    (due : Option ℕ) (now : ℕ) → is_scheduled due now todo ≡ false → HasCome now due
is_scheduled-HasCome none now h = tt
is_scheduled-HasCome (some due) now h = ground (arith, h)

HasCome-unscheduled :
    (due : Option ℕ) (now : ℕ) (c : Column) → HasCome now due → is_scheduled due now c ≡ false
HasCome-unscheduled none now c h = refl
HasCome-unscheduled (some due) now c h = ground (arith, h)

module _ (box_instant : ℕ → ℕ) (card : Card) (events : List Event) (decisions : List Decision)
    (receipts : Option String → Option RunReceipt) (main : Dict String)
    (now today timeout : ℕ) where
  unfoldable Wants : CardView → Type 0
  Wants v =
      ((v.wants ≡ some research_run)
        → (v.column ≡ todo) × HasCome now v.due_at × Undone card.id decisions)
      × ((v.column ≡ todo)
          → HasCome now v.due_at
          → ((d : Decision) → IsOn card.id decisions deleted d → ⊥)
          → v.wants ≡ some research_run)

  view_at-Wants :
      (cause : Option Cause) (due : Option ℕ)
      → Wants (view_at box_instant card events decisions receipts main now today timeout cause due)
  unfolding Wants view_of own
  view_at-Wants cause due =
      let u = view_at box_instant card events decisions receipts main now today timeout cause due in
      let state = state_at box_instant card events decisions receipts main now today timeout in
      let runs = runs_of events receipts in
      let (asks, serves) =
        wanted-research u.column u.scheduled u.deleted
          (brief_wants u.column state runs events (own card decisions)).wants
          (brief_wants-research u.column state runs events (own card decisions)) in
      (
        λ e. (
          (asks e).0,
          is_scheduled-HasCome due now
              (subst (λ c. is_scheduled due now c ≡ false) (asks e).0 (asks e).1),
          deletion-Undone card.id decisions (asks e).2,
        ),
        λ c h n.
            serves c (HasCome-unscheduled due now u.column h) (never-deleted card.id decisions n),
      )

  -- A card wants a research run only when it is in Todo, the time in its `research_on`, if any, has
  -- come, and each deletion of it was followed by a restoration; and it does want one in Todo, once
  -- that time has come, when it was never deleted.
  pub wants-research :
      (v : CardView)
      → derive box_instant card events decisions receipts main now today timeout ≡ some v
      → ((v.wants ≡ some research_run)
          → (v.column ≡ todo) × HasCome now v.due_at × Undone card.id decisions)
        × ((v.column ≡ todo)
            → HasCome now v.due_at
            → ((d : Decision) → IsOn card.id decisions deleted d → ⊥)
            → v.wants ≡ some research_run)
        × (due_at box_instant (get "research_on" (effective_fields card events)) ≡ some v.due_at)
  unfolding Wants
  wants-research v h =
      let (cause, due, e, same) =
        derive-view box_instant card events decisions receipts main now today timeout v h in
      let (asks, serves) = subst Wants same (view_at-Wants cause due) in
      (
        asks,
        serves,
        derive-due box_instant card events decisions receipts main now today timeout v h,
      )
