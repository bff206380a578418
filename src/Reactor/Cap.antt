-- ===== src/Reactor/Cap.antt =====
-- bin/board_reactor.py: the run units started in a pass, and in a day.
use hermes_agent_workforce_p.Prelude.{
  ℕ, ◌+◌, ◌-◌, ◌≤◌, ◌≡◌, refl, ap, ◌∙◌, String, Bool, true, false, Option, none, some, List, [],
  ◌∷◌, ◌++◌, map, arith, if◌then◌else◌, length, min, Bool-cases, inl, inr, length-take,
}
use hermes_agent_workforce_p.Source.{
  Budget, Action, Plan, ErrorClass, Outcome, ok, failed, is_start,
}
use hermes_agent_workforce_p.Plan.{BoardState, Config, plan, room_of}
use hermes_agent_workforce_p.Plan.Starts.{starts, start_of, waiting, plan-starts}
use hermes_agent_workforce_p.Reactor.{
  Moment, State, Severity, Loop, Settings, Sight, Observation, Passed, Ending, runs_today,
  record_health, remember, remember_start, remember_restore, apply_one, apply_all, or_stop,
  conclude, settled, observed, budget_of, pass, is_day,
}

-- The units that did start: the count of successful start actions.
abbrev pub is_run : Action × Outcome → Bool
is_run (a, ok) = is_start a.verb
is_run (a, failed class reason) = false

abbrev pub runs : List (Action × Outcome) → ℕ
runs [] = 0
runs (l ∷ ls) = if is_run l then runs ls + 1 else runs ls

runs-append : (xs ys : List (Action × Outcome)) → runs (xs ++ ys) ≡ runs xs + runs ys
runs-append [] ys = omega arith
runs-append (x ∷ xs) ys = ground (arith, runs-append xs ys)

remember-count :
    (s : State) (a : Action) (o : Outcome) (now : Moment)
    → (remember s a o now).count ≡ s.count + runs ((a, o) ∷ [])
unfolding remember remember_start remember_restore
remember-count s a o now = ground arith

remember-day :
    (s : State) (a : Action) (o : Outcome) (now : Moment) → (remember s a o now).day ≡ s.day
unfolding remember remember_start remember_restore
remember-day s a o now = ground arith

pub apply_one-count :
    (now : Moment) (l : Loop) (a : Action) (o : Outcome)
    → let l' = apply_one now l a o in
      (l'.state.count ≡ l.state.count + runs ((a, o) ∷ []))
      × (l'.state.day ≡ l.state.day)
      × (l'.lines ≡ l.lines ++ (a, o) ∷ [])
unfolding apply_one
apply_one-count now l a o =
    ground (arith, remember-count l.state a o now, remember-day l.state a o now)

pub or_stop_ind :
    (P : Loop → Type 0) (o : Outcome) (m : Loop) (rest : Loop × Option (Option String))
    → P m
    → P rest.0
    → P (or_stop o m rest).0
or_stop_ind P ok m rest pm pr = pr
or_stop_ind P (failed ErrorClass.permanent reason) m rest pm pr = pm
or_stop_ind P (failed ErrorClass.transient reason) m rest pm pr = pr
or_stop_ind P (failed ErrorClass.poison reason) m rest pm pr = pr

-- The loop counts each unit that it starts, and starts no more than it is asked to.
record Counted (l l' : Loop) (actions : List Action) : Type 0 where
  counted : l'.state.count + runs l.lines ≡ l.state.count + runs l'.lines
  same_day : l'.state.day ≡ l.state.day
  asked : runs l'.lines ≤ runs l.lines + length (starts actions)

Counted-step :
    (l m l' : Loop) (a : Action) (rest : List Action) (o : Outcome)
    → (m.state.count ≡ l.state.count + runs ((a, o) ∷ []))
    → (m.state.day ≡ l.state.day)
    → (m.lines ≡ l.lines ++ (a, o) ∷ [])
    → Counted m l' rest
    → Counted l l' (a ∷ rest)
Counted-step l m l' a rest o count day lines c =
    let more = ap runs lines ∙ runs-append l.lines ((a, o) ∷ []) in
    record {
      counted = omega (arith, count, more, c.counted);
      same_day = c.same_day ∙ day;
      asked = Counted-asked;
    }
  where
    Counted-asked : runs l'.lines ≤ runs l.lines + length (starts (a ∷ rest))
    Counted-asked = ground (arith, ap runs lines ∙ runs-append l.lines ((a, o) ∷ []), c.asked)

Counted-refl : (l : Loop) → (rest : List Action) → Counted l l rest
Counted-refl l rest = record { counted = refl; same_day = refl; asked = omega arith }

apply_all-Counted :
    (apply : Action → Outcome) (now : Moment) (rest : List Action) (l : Loop)
    → Counted l (apply_all apply now l rest).0 rest
unfolding apply_all
apply_all-Counted apply now [] l = Counted-refl l []
apply_all-Counted apply now (a ∷ rest) l =
    let m = apply_one now l a (apply a) in
    let (count, day, lines) = apply_one-count now l a (apply a) in
    or_stop_ind (λ l'. Counted l l' (a ∷ rest)) (apply a) m (apply_all apply now m rest)
      (Counted-step l m m a rest (apply a) count day lines (Counted-refl m rest))
      (Counted-step l m _ a rest (apply a) count day lines (apply_all-Counted apply now rest m))

record_health-keeps :
    (s : State) (class : Severity) (reason : Option String)
    → ((record_health s class reason).0.count ≡ s.count)
      × ((record_health s class reason).0.day ≡ s.day)
unfolding record_health
record_health-keeps s class reason = ground arith

runs_today-keeps :
    (s : State) (now : Moment)
    → ((runs_today s now).0.count ≡ (runs_today s now).1)
      × (is_day (runs_today s now).0.day now.today ≡ true)
unfolding runs_today
runs_today-keeps s now = ground arith

runs_today-same :
    (s : State) (now : Moment) → is_day s.day now.today ≡ true → (runs_today s now).1 ≡ s.count
unfolding runs_today
runs_today-same s now e = rw e

conclude-keeps :
    (judge : Bool) (p : Plan) (now : Moment) (l : Loop)
    → let r = conclude judge p now l in
      (r.state.count ≡ l.state.count) × (r.state.day ≡ l.state.day) × (r.lines ≡ l.lines)
unfolding conclude
conclude-keeps true p now l = elim (Bool-cases p.capped) [
  | inl e ↦
      rw e
        (let k = record_health-keeps l.state Severity.capped (some "daily-cap") in (k.0, k.1, refl))
  | inr e ↦ rw e (let k = record_health-keeps l.state l.worst l.reason in (k.0, k.1, refl))
]
conclude-keeps false p now l = (refl, refl, refl)

runs_today-settled :
    (s : State) (v : Sight) (now : Moment) → (runs_today (settled s v) now).1 ≡ (runs_today s now).1
unfolding runs_today settled
runs_today-settled s v now = ground arith

plan-starts_count :
    (state : BoardState) (now : ℕ) (budget : Budget) (config : Config)
    → length (starts (plan state now budget config).actions)
      ≡ min (room_of budget) (length (map start_of (waiting state now config)))
plan-starts_count state now budget config =
    ap length (plan-starts state now budget config).0
    ∙ length-take (room_of budget) (map start_of (waiting state now config))

-- What a pass over a readable board started, and how it counted that.
pub record Starts (settings : Settings) (s : State) (v : Sight) (now : Moment) (r : Passed)
    : Type 0 where
  pub counted : r.state.count ≡ (runs_today s now).1 + runs r.lines
  pub dated : is_day r.state.day now.today ≡ true
  pub fit_slots : runs r.lines ≤ settings.max_runs - length v.active
  pub fit_day : runs r.lines ≤ settings.daily_cap - (runs_today s now).1

module _ (settings : Settings) (apply : Action → Outcome) (judge : Bool) (s : State) (v : Sight)
    (now : Moment) where
  the_plan : Plan
  the_plan =
      plan (observed s.cards v) now.instant (budget_of settings (settled s v) v now) settings.config

  abbrev first : Loop
  first = record {
    state = (runs_today (settled s v) now).0;
    worst = Severity.fine;
    reason = none;
    lines = [];
  }

  starts-fit :
      (length (starts the_plan.actions) ≤ settings.max_runs - length v.active)
      × (length (starts the_plan.actions) ≤ settings.daily_cap - (runs_today s now).1)
  unfolding the_plan budget_of
  starts-fit = ground (
    arith,
    runs_today-settled s v now,
    plan-starts_count (observed s.cards v) now.instant (budget_of settings (settled s v) v now)
        settings.config,
  )

  Starts-of_loop :
      (l : Loop) (r : Passed)
      → Counted first l the_plan.actions
      → r.state.count ≡ l.state.count
      → r.state.day ≡ l.state.day
      → r.lines ≡ l.lines
      → Starts settings s v now r
  Starts-of_loop l r c count day lines =
      let (today, dated) = runs_today-keeps (settled s v) now in
      record {
        counted = omega (arith, count, ap runs lines, c.counted, today, runs_today-settled s v now);
        dated = rw (day ∙ c.same_day) dated;
        fit_slots = omega (arith, ap runs lines, c.asked, starts-fit);
        fit_day = omega (arith, ap runs lines, c.asked, starts-fit);
      }

  ending_of : Loop × Option (Option String) → Passed
  ending_of (l, none) = conclude judge the_plan now l
  ending_of (l, some reason) = record {
    state = l.state;
    receipt = none;
    lines = l.lines;
    ending = Ending.raised reason;
  }

  ending_of-Starts :
      (x : Loop × Option (Option String))
      → Counted first x.0 the_plan.actions
      → Starts settings s v now (ending_of x)
  unfolding ending_of
  ending_of-Starts (l, none) c =
      let (count, day, lines) = conclude-keeps judge the_plan now l in
      Starts-of_loop l (conclude judge the_plan now l) c count day lines
  ending_of-Starts (l, some reason) c = Starts-of_loop l _ c refl refl refl

-- A pass never has more units started than slots are free, nor more than the day has left, also
-- where it raises; and its count is the day's count before it and the units that it started.
pub pass-Starts :
    (settings : Settings) (apply : Action → Outcome) (judge : Bool) (s : State) (v : Sight)
    (now : Moment)
    → Starts settings s v now (pass settings apply judge s (Observation.sight v) now)
unfolding pass ending_of the_plan
pass-Starts settings apply judge s v now =
    ending_of-Starts settings apply judge s v now
      (apply_all apply now (first settings apply judge s v now)
        (the_plan settings apply judge s v now).actions)
      (apply_all-Counted apply now _ _)
