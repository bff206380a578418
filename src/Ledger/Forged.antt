-- ===== src/Ledger/Forged.antt =====
-- bin/board.py, `derive`: rows that only look like decisions are reported, and move nothing.
use hermes_agent_workforce_p.Prelude.{
  ℕ, ◌≡◌, refl, ap, ◌∙◌, String, Option, none, some, List, [], ◌∷◌, ◌++◌, In, In-append_left, inl,
  inr, ◌>>=◌, is_some, filter, subst,
}
use hermes_agent_workforce_p.Prelude.Dict.{Dict, lookup}
use hermes_agent_workforce_p.Ledger.{
  Event, Decision, Card, RunReceipt, Verdict, EventKind, created, brief, picked, note, edited, held,
  decision_shaped, other, effective_fields, get, latest,
}
use hermes_agent_workforce_p.Ledger.Brief.{BriefState, brief_state, Run, runs_of}
use hermes_agent_workforce_p.Ledger.Flow.{Flow, flow_of}
use hermes_agent_workforce_p.Ledger.Blocks.{Cause, blocks_of, holds_of}
use hermes_agent_workforce_p.Ledger.Derive.{
  CardView, derive, view_of, own, forged, forged_at, forged_holds, stale, Exception,
  forged_decision, due_at, drop_rejection, placed, is_rejected,
}
use hermes_agent_workforce_p.Ledger.Honest.{
  honest, brief_state-honest, runs_of-honest, effective_fields-honest, holds_of-honest,
  brief_wants-honest,
}
use hermes_agent_workforce_p.Ledger.Columns.{derive-view}

-- A view without its count of rows and its exceptions.
abbrev pub unmarked : CardView → CardView
unmarked v = record v { rev = 0; exceptions = [] }

abbrev pub map_unmarked : Option CardView → Option CardView
map_unmarked none = none
map_unmarked (some v) = some (unmarked v)

binds-unmarked :
    {A B : Type 0} (m : Option A) (n : Option B) (f g : A → B → CardView)
    → ((a : A) (b : B) → unmarked (f a b) ≡ unmarked (g a b))
    → map_unmarked (m >>= (λ a. n >>= (λ b. some (f a b))))
      ≡ map_unmarked (m >>= (λ a. n >>= (λ b. some (g a b))))
binds-unmarked none n f g h = refl
binds-unmarked (some a) none f g h = refl
binds-unmarked (some a) (some b) f g h = ap some (h a b)

view_of-honest :
    (card : Card) (events : List Event) (mine : List Decision) (runs : List Run)
    (state : BriefState) (flow without : Flow) (on_main : Option String) (now : ℕ)
    (cause : Option Cause) (due : Option ℕ)
    → unmarked (view_of card (honest events) mine runs state flow without on_main now cause due)
      ≡ unmarked (view_of card events mine runs state flow without on_main now cause due)
unfolding view_of
view_of-honest card events mine runs state flow without on_main now cause due =
    rw
      (
        effective_fields-honest card events,
        brief_wants-honest
            (placed (is_some (latest (filter is_rejected mine))) without.column flow on_main
              cause).0
            state runs events mine,
      )
      refl

-- Rows of the ledger that are shaped like decisions, unknown rows, and holds that the reactor did
-- not write change nothing of a card's view but its count of rows and its exceptions.
pub derive-honest :
    (box_instant : ℕ → ℕ) (card : Card) (events : List Event) (decisions : List Decision)
    (receipts : Option String → Option RunReceipt) (main : Dict String) (now today timeout : ℕ)
    → map_unmarked
        (derive box_instant card (honest events) decisions receipts main now today timeout)
      ≡ map_unmarked (derive box_instant card events decisions receipts main now today timeout)
unfolding derive
derive-honest box_instant card events decisions receipts main now today timeout =
    rw
      (
        brief_state-honest events (own card decisions),
        runs_of-honest events receipts,
        effective_fields-honest card events,
        holds_of-honest events,
      )
      (let mine = own card decisions in
        let state = brief_state events mine in
        let runs = runs_of events receipts in
        let fields = effective_fields card events in
        let flow = flow_of state runs mine now timeout in
        let without = flow_of state runs (drop_rejection mine) now timeout in
        let on_main = lookup card.id main in
        binds-unmarked
          (blocks_of mine runs state.recorded fields today (is_some flow.approved)
            (holds_of events))
          (due_at box_instant (get "research_on" fields))
          (λ cause due.
            view_of card (honest events) mine runs state flow without on_main now cause due)
          (λ cause due. view_of card events mine runs state flow without on_main now cause due)
          (view_of-honest card events mine runs state flow without on_main now))

forged-In :
    (events : List Event) (e : Event) (w : Verdict)
    → In e events
    → e.event ≡ decision_shaped w
    → In (forged_decision w) (forged events)
forged-In (x ∷ xs) e w (inl same) k = rw (ap (λ y. y.event) same ∙ k) (inl refl)
forged-In (x ∷ xs) e w (inr i) k = forged_later x.event (forged-In xs e w i k)
  where
    forged_later :
        (k : EventKind)
        → In (forged_decision w) (forged xs)
        → In (forged_decision w) (forged_at k (forged xs))
    forged_later (decision_shaped v) j = inr j
    forged_later created j = j
    forged_later brief j = j
    forged_later picked j = j
    forged_later note j = j
    forged_later edited j = j
    forged_later held j = j
    forged_later (other s) j = j
forged-In [] e w i k = absurd i

view_of-exceptions :
    (card : Card) (events : List Event) (mine : List Decision) (runs : List Run)
    (state : BriefState) (flow without : Flow) (on_main : Option String) (now : ℕ)
    (cause : Option Cause) (due : Option ℕ) (x : Exception)
    → In x (forged events)
    → In x (view_of card events mine runs state flow without on_main now cause due).exceptions
unfolding view_of
view_of-exceptions card events mine runs state flow without on_main now cause due x i =
    In-append_left x (forged events ++ forged_holds events)
      (stale flow
        (placed (is_some (latest (filter is_rejected mine))) without.column flow on_main cause).0)
      (In-append_left x (forged events) (forged_holds events) i)

-- Each row of a card's ledger that is shaped like a decision is an exception of its view.
pub forged-listed :
    (box_instant : ℕ → ℕ) (card : Card) (events : List Event) (decisions : List Decision)
    (receipts : Option String → Option RunReceipt) (main : Dict String) (now today timeout : ℕ)
    (v : CardView) (e : Event) (w : Verdict)
    → derive box_instant card events decisions receipts main now today timeout ≡ some v
    → In e events
    → e.event ≡ decision_shaped w
    → In (forged_decision w) v.exceptions
forged-listed box_instant card events decisions receipts main now today timeout v e w h i k =
    let (cause, due, c, same) =
      derive-view box_instant card events decisions receipts main now today timeout v h in
    let mine = own card decisions in
    let runs = runs_of events receipts in
    let state = brief_state events mine in
    subst (λ u. In (forged_decision w) u.exceptions) same
      (view_of-exceptions card events mine runs state (flow_of state runs mine now timeout)
        (flow_of state runs (drop_rejection mine) now timeout) (lookup card.id main) now cause due
        (forged_decision w) (forged-In events e w i k))
