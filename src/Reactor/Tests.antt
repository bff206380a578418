-- ===== src/Reactor/Tests.antt =====
-- Passes over a small board, and the theorems about them at concrete inputs.
use hermes_agent_workforce_p.Prelude.{
  ℕ, ◌+◌, ◌*◌, ◌≤◌, ◌≡◌, ◌≢◌, refl, min, true, false, none, some, List, [], ◌∷◌, arith, str_eq,
}
use hermes_agent_workforce_p.Prelude.Dict.{lookup}
use hermes_agent_workforce_p.Source.{Action, ErrorClass, Outcome, ok, failed}
use hermes_agent_workforce_p.Plan.Samples.{config, card, board}
use hermes_agent_workforce_p.Plan.{View, last_pick}
use hermes_agent_workforce_p.Reactor.{
  Moment, State, Health, Severity, Settings, Sight, Observation, backoff, record_health,
  remember_start, pass,
}
use hermes_agent_workforce_p.Reactor.Cap.{Starts, pass-Starts}
use hermes_agent_workforce_p.Reactor.Day.{Turn, turns, total_runs, runs_on, turns_within_cap}
use hermes_agent_workforce_p.Reactor.Attempts.{Stuck, total_starts, turns-attempts}
use hermes_agent_workforce_p.Reactor.Backoff.{
  backoff_grows, starts_of, entry_of, remember-start_memory,
}
use hermes_agent_workforce_p.Reactor.Flips.{record_health_flips}

abbrev settings : Settings
settings = record { max_runs = 2; daily_cap = 24; config = config }

abbrev fresh : State
fresh = record { day = none; count = 0; cards = []; health = none }

abbrev moment : ℕ → Moment
moment t = record { instant = t; today = 9; next_midnight = 90000 }

abbrev sight : Sight
sight = record { views = board.views; active = board.active; trash = []; trash_list = [] }

abbrev refused : Outcome
refused = failed ErrorClass.transient (some "systemctl-failed")

abbrev refuse : Action → Outcome
refuse a = refused

abbrev agree : Action → Outcome
agree a = ok

abbrev at_with : ℕ → (Action → Outcome) → Turn
at_with t apply = record {
  apply = apply;
  judge = true;
  observation = Observation.sight sight;
  now = moment t;
}

abbrev afternoon : List Turn
afternoon = at_with 1000 refuse ∷ at_with 2000 agree ∷ at_with 3000 agree ∷ []

pass-Starts_example :
    Starts settings fresh sight
      (moment 1000)
      (pass settings agree true fresh (Observation.sight sight) (moment 1000))
pass-Starts_example = pass-Starts settings agree true fresh sight (moment 1000)

turns_within_cap_example :
    (runs_on (turns settings fresh afternoon) 9
      ≡ runs_on fresh 9 + total_runs settings fresh afternoon)
    × (runs_on fresh 9 + total_runs settings fresh afternoon ≤ 24)
turns_within_cap_example =
    turns_within_cap settings fresh afternoon 9 (refl, (refl, (refl, tt))) (omega arith)

-- A card whose last pick was long ago, on a board of its own.
abbrev worn : View
worn = record (card "a") { picks = 40 ∷ [] }

abbrev worn_sight : Sight
worn_sight = record sight { views = ("a", worn) ∷ [] }

abbrev worn_at : ℕ → (Action → Outcome) → Turn
worn_at t apply = record (at_with t apply) { observation = Observation.sight worn_sight }

abbrev evening : List Turn
evening = worn_at 1000 refuse ∷ worn_at 2000 agree ∷ worn_at 3000 agree ∷ []

Stuck-worn : Stuck "a" 500 (Observation.sight worn_sight)
unfolding last_pick
Stuck-worn = ((refl, tt), (refl, tt), (worn, refl, (omega arith, tt)))

turns-attempts_example :
    (starts_of (turns settings fresh evening) "a"
      ≡ starts_of fresh "a" + total_starts "a" settings fresh evening)
    × (starts_of fresh "a" + total_starts "a" settings fresh evening ≤ 3)
turns-attempts_example =
    turns-attempts "a" 500 settings fresh evening refl
      ((Stuck-worn, omega arith), ((Stuck-worn, omega arith), ((Stuck-worn, omega arith), tt))) tt
      (omega arith)

backoff_grows_example :
    (backoff 1 ≡ 30)
    × (30 ≤ backoff 4)
    × (backoff 4 ≤ 900)
    × (backoff (4 + 2) ≡ min (2 * backoff (4 + 1)) 900)
    × (backoff 4 ≤ backoff (4 + 1))
backoff_grows_example = backoff_grows 4

remember-start_memory_example :
    let s' = remember_start fresh "a" refused (moment 1000) in
    (starts_of s' "a" ≡ starts_of fresh "a" + 1)
    × ((entry_of s' "a").last_start ≡ some 1000)
    × ((entry_of s' "a").failures ≡ some (0 + 1))
    × ((entry_of s' "a").next_try ≡ some (1000 + backoff (0 + 1)))
    × (str_eq "a" "b" ≡ false → lookup "b" s'.cards ≡ none)
remember-start_memory_example = remember-start_memory fresh "a" "b" refused (moment 1000)

record_health_flips_example :
    let h : Health = record { class = Severity.transient; reason = some "systemctl-failed" } in
    let (s', receipt) = record_health fresh Severity.transient (some "systemctl-failed") in
    (none ≡ some h → receipt ≡ none)
    × (none ≢ some h → receipt ≡ some h)
    × (s'.health ≡ some h)
    × (record_health s' Severity.transient (some "systemctl-failed") ≡ (s', none))
    × (s'.cards ≡ [])
    × (s'.count ≡ 0)
record_health_flips_example = record_health_flips fresh Severity.transient (some "systemctl-failed")
