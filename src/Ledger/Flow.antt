-- ===== src/Ledger/Flow.antt =====
-- bin/board.py: the column that a card flows to before decisions close or block it.
use hermes_agent_workforce_p.Prelude.{
  ℕ, ◌-◌, String, Bool, true, false, not, ◌&&◌, ◌||◌, Option, none, some, List, [], ◌∷◌, map,
  if◌then◌else◌, ltb, filter, suc,
}
use hermes_agent_workforce_p.Ledger.{
  is_verdict, Verdict, approved, changes_requested, unblocked, Decision, moment, latest, last,
  max_by, says,
}
use hermes_agent_workforce_p.Ledger.Brief.{BriefState, Run, is_outcome}

-- `COLUMNS`
pub data Column : Type 0 where
  backlog refine todo in_progress in_review done blocked : Column

-- `stale_pick` is the run's id, and absent where the pick is fresh.
pub record Flow : Type 0 where
  pub column : Column
  pub approved : Option Decision
  pub stale_pick : Option String

abbrev pub column_only : Column → Flow
column_only c = record { column = c; approved = none; stale_pick = none }

abbrev pub is_answer : Verdict → Bool
is_answer v = is_verdict approved v || is_verdict changes_requested v

abbrev pub asks_changes : Option Decision → Bool
asks_changes none = false
asks_changes (some d) = is_verdict changes_requested d.decision

abbrev pub is_live : Run → Bool
is_live r = says "research" r.purpose && not r.void && not (is_outcome "decline" r.outcome)

abbrev pub review_verdict : Run → List Decision → Option Decision
review_verdict run decisions =
    latest (filter (λ d. is_answer d.decision && ltb (moment run.ts) (moment d.ts)) decisions)

abbrev pub run_flow : Run → List Decision → ℕ → ℕ → Flow
run_flow run decisions now timeout = elim run.outcome [
  | none ↦ record {
    column = in_progress;
    approved = none;
    stale_pick = if ltb timeout (now - moment run.ts) then run.run_id else none;
  }
  | some outcome ↦
      let verdict = review_verdict run decisions in
      if asks_changes verdict
      then column_only todo
      else record { column = in_review; approved = verdict; stale_pick = none }
]

-- `_flow`
unfoldable pub flow_of : BriefState → List Run → List Decision → ℕ → ℕ → Flow
unfolding latest
flow_of brief runs decisions now timeout = elim brief.hash [
  | none ↦ column_only backlog
  | some hash ↦
      if not brief.approved then column_only refine else elim (last (filter is_live runs)) [
        | none ↦ column_only todo
        | some run ↦ run_flow run decisions now timeout
      ]
]

abbrev pub is_unblocked : Decision → Bool
is_unblocked d = is_verdict unblocked d.decision

-- `_since_unblock`
unfoldable pub since_unblock : List Decision → Option ℕ
unfolding moment
since_unblock decisions = max_by (λ t. t) (map (λ d. moment d.ts) (filter is_unblocked decisions))

-- `since is None or t > since`
abbrev pub is_after : Option ℕ → ℕ → Bool
is_after none t = true
is_after (some since) t = ltb since t

abbrev pub streak_from : Option ℕ → ℕ → List Run → ℕ
streak_from since streak [] = streak
streak_from since streak (r ∷ runs) =
    streak_from since
      (if not (is_after since (moment r.ts)) then streak else if r.void then suc streak else 0) runs

-- `failed_streak`
unfoldable pub failed_streak : List Run → List Decision → ℕ
unfolding since_unblock
failed_streak runs decisions = streak_from (since_unblock decisions) 0 runs
