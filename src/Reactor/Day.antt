-- ===== src/Reactor/Day.antt =====
-- bin/board_reactor.py over many passes: the daily cap.
use hermes_agent_workforce_p.Prelude.{
  ℕ, ◌+◌, ◌≤◌, ◌≡◌, ap, subst, String, Bool, Option, List, [], ◌∷◌, arith, if◌then◌else◌, All,
}
use hermes_agent_workforce_p.Source.{Action, ErrorClass, Outcome}
use hermes_agent_workforce_p.Reactor.{
  Moment, State, Settings, Observation, Passed, runs_today, record_health, fail, pass, is_day,
}
use hermes_agent_workforce_p.Reactor.Cap.{runs, pass-Starts}

-- One pass of the daemon or of the reconcile timer, with all that it meets.
pub record Turn : Type 0 where
  pub apply : Action → Outcome
  pub judge : Bool
  pub observation : Observation
  pub now : Moment

abbrev pub turn : Settings → State → Turn → Passed
turn settings s t = pass settings t.apply t.judge s t.observation t.now

-- The state file passes from each pass to the next, whoever makes it, since each holds the lock.
abbrev pub turns : Settings → State → List Turn → State
turns settings s [] = s
turns settings s (t ∷ ts) = turns settings (turn settings s t).state ts

-- The run units that the passes started.
abbrev pub total_runs : Settings → State → List Turn → ℕ
total_runs settings s [] = 0
total_runs settings s (t ∷ ts) =
    runs (turn settings s t).lines + total_runs settings (turn settings s t).state ts

-- The count that stands for a day.
abbrev pub runs_on : State → ℕ → ℕ
runs_on s day = if is_day s.day day then s.count else 0

runs_today-on : (s : State) (now : Moment) → (runs_today s now).1 ≡ runs_on s now.today
unfolding runs_today
runs_today-on s now = ground arith

fail-keeps :
    (s : State) (class : ErrorClass) (reason : Option String) (now : Moment) (day : ℕ)
    → (runs_on (fail s class reason now).state day ≡ runs_on s day)
      × ((fail s class reason now).lines ≡ [])
unfolding fail record_health
fail-keeps s class reason now day = ground arith

source_error-runs_on :
    (settings : Settings) (apply : Action → Outcome) (judge : Bool) (s : State) (class : ErrorClass)
    (reason : Option String) (now : Moment)
    → runs_on s now.today ≤ settings.daily_cap
    → let r = pass settings apply judge s (Observation.source_error class reason) now in
      (runs_on r.state now.today ≡ runs_on s now.today + runs r.lines)
      × (runs_on r.state now.today ≤ settings.daily_cap)
unfolding pass
source_error-runs_on settings apply judge s class reason now h =
    let (same, no_lines) = fail-keeps s class reason now now.today in
    let no_runs = ap runs no_lines in (omega (arith, same, no_runs), omega (arith, same))

-- One pass adds its runs to the day's count, within the cap.
pass-runs_on :
    (settings : Settings) (apply : Action → Outcome) (judge : Bool) (s : State) (o : Observation)
    (now : Moment)
    → runs_on s now.today ≤ settings.daily_cap
    → let r = pass settings apply judge s o now in
      (runs_on r.state now.today ≡ runs_on s now.today + runs r.lines)
      × (runs_on r.state now.today ≤ settings.daily_cap)
pass-runs_on settings apply judge s (Observation.sight v) now h =
    let done = pass-Starts settings apply judge s v now in
    let counted = done.counted in
    let fit = done.fit_day in let dated = done.dated in let on = runs_today-on s now in ground arith
pass-runs_on settings apply judge s (Observation.source_error class reason) now h =
    source_error-runs_on settings apply judge s class reason now h

turn-runs_on :
    (settings : Settings) (s : State) (t : Turn) (day : ℕ)
    → t.now.today ≡ day
    → runs_on s day ≤ settings.daily_cap
    → let r = turn settings s t in
      (runs_on r.state day ≡ runs_on s day + runs r.lines)
      × (runs_on r.state day ≤ settings.daily_cap)
turn-runs_on settings s t day same =
    let r = turn settings s t in
    subst
      (λ d.
        runs_on s d ≤ settings.daily_cap
        → (runs_on r.state d ≡ runs_on s d + runs r.lines)
          × (runs_on r.state d ≤ settings.daily_cap))
      same (pass-runs_on settings t.apply t.judge s t.observation t.now)

-- The daily cap: over any passes of one day, made in any order by the daemon and by the reconcile
-- timer, with any outcomes, the units started that day and the count before stay within the cap.
pub turns_within_cap :
    (settings : Settings) (s : State) (ts : List Turn) (day : ℕ)
    → All (λ t. t.now.today ≡ day) ts
    → runs_on s day ≤ settings.daily_cap
    → (runs_on (turns settings s ts) day ≡ runs_on s day + total_runs settings s ts)
      × (runs_on s day + total_runs settings s ts ≤ settings.daily_cap)
turns_within_cap settings s [] day same h = (omega arith, omega arith)
turns_within_cap settings s (t ∷ ts) day same h =
    let (count, fit) = turn-runs_on settings s t day same.0 h in
    let (total, within) = turns_within_cap settings (turn settings s t).state ts day same.1 fit in
    (omega (arith, count, total), omega (arith, count, within))
