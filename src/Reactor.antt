-- ===== src/Reactor.antt =====
-- bin/board_reactor.py: one pass of the reactor over the board, and what it remembers.
-- The world outside is an argument: what the ledger and systemd show (or that they cannot be
-- read), and how each applied action ends. A pass returns the new state also where it raises
-- `Permanent`, since `run_pass` saves the state in its `finally`.
pub mod Cap
pub mod Day
pub mod Attempts
pub mod Flips
mod Tests
pub mod Backoff
use hermes_agent_workforce_p.Prelude.{
  ℕ, ◌+◌, ◌-◌, ◌*◌, ◌^◌, String, Bool, true, false, not, ◌&&◌, ◌||◌, Option, none, some, List, [],
  ◌∷◌, ◌++◌, map, if◌then◌else◌, ◌==◌, leb, or_else, length, min, max, str_eq, opt_eq,
}
use hermes_agent_workforce_p.Prelude.Dict.{Dict, lookup, insert, erase}
use hermes_agent_workforce_p.Source.{
  Budget, Verb, Action, Plan, ErrorClass, Outcome, ok, failed, is_start,
}
use hermes_agent_workforce_p.Plan.{
  Config, View, Memory, no_memory, TrashRow, BoardState, earliest, settle, trash_key, plan,
}

-- A moment: the instant, the local date as a number, and the instant of the next local midnight.
pub record Moment : Type 0 where
  pub instant : ℕ
  pub today : ℕ
  pub next_midnight : ℕ

pub data Severity : Type 0 where
  fine transient capped permanent : Severity

pub record Health : Type 0 where
  pub class : Severity
  pub reason : Option String

-- The JSON of `reactor/state.json`.
pub record State : Type 0 where
  pub day : Option ℕ
  pub count : ℕ
  pub cards : Dict Memory
  pub health : Option Health

unfoldable pub backoff_base : ℕ
backoff_base = 30

unfoldable pub backoff_max : ℕ
backoff_max = 900

unfoldable pub backoff : ℕ → ℕ
unfolding backoff_base backoff_max
backoff failures = min (backoff_base * 2 ^ max (failures - 1) 0) backoff_max

abbrev pub is_day : Option ℕ → ℕ → Bool
is_day none today = false
is_day (some d) today = d == today

-- `State.runs_today`: a new day starts the count again.
unfoldable pub runs_today : State → Moment → State × ℕ
runs_today state now =
    if is_day state.day now.today
    then (state, state.count)
    else (record state { day = some now.today; count = 0 }, 0)

abbrev pub same_class : Severity → Severity → Bool
same_class fine fine = true
same_class transient transient = true
same_class capped capped = true
same_class permanent permanent = true
same_class _ _ = false

abbrev pub same_health : Option Health → Health → Bool
same_health none h = false
same_health (some g) h = same_class g.class h.class && opt_eq g.reason h.reason

-- `record_health`: the receipt to write, if the health flips.
unfoldable pub record_health : State → Severity → Option String → State × Option Health
record_health state class reason =
    let current : Health = record { class = class; reason = reason } in
    if same_health state.health current
    then (state, none)
    else (record state { health = some current }, some current)

-- The entry after a failed attempt at `now`.
abbrev pub failed_entry : Memory → Moment → Memory
failed_entry entry now = record entry {
  failures = some (or_else entry.failures 0 + 1);
  next_try = some (now.instant + backoff (or_else entry.failures 0 + 1));
}

abbrev pub started_entry : Memory → Moment → Memory
started_entry entry now = record entry {
  starts = some (or_else entry.starts 0 + 1);
  last_start = some now.instant;
}

-- The first lines of `_remember` for a start, with `setdefault(item, {"starts": 0})`.
abbrev pub started : State → String → Moment → Memory
started state item now =
    started_entry (or_else (lookup item state.cards) (record no_memory { starts = some 0 })) now

unfoldable pub remember_start : State → String → Outcome → Moment → State
remember_start state item ok now = record state {
  cards =
      insert item (record (started state item now) { next_try = none; failures = none })
        state.cards;
  count = state.count + 1;
}
remember_start state item (failed class reason) now = record state {
  cards = insert item (failed_entry (started state item now) now) state.cards;
}

unfoldable pub remember_restore : State → String → Outcome → Moment → State
remember_restore state card_id ok now = record state {
  cards = erase (trash_key card_id) state.cards;
}
remember_restore state card_id (failed class reason) now = record state {
  cards =
      insert (trash_key card_id)
        (failed_entry (or_else (lookup (trash_key card_id) state.cards) no_memory) now) state.cards;
}

unfoldable pub remember : State → Action → Outcome → Moment → State
remember state action outcome now = elim action.verb [
  | Verb.start ↦ remember_start state action.item outcome now
  | Verb.restore ↦ remember_restore state action.item outcome now
  | _ ↦ state
]

-- How a pass ends: with the next wake, or with `Permanent` raised.
pub data Ending : Type 0 where
  done : (wake : Option ℕ) → Ending
  raised : (reason : Option String) → Ending

-- The locals of the loop over the plan's actions; `lines` has an entry for each action applied.
pub record Loop : Type 0 where
  pub state : State
  pub worst : Severity
  pub reason : Option String
  pub lines : List (Action × Outcome)

abbrev pub is_fine : Severity → Bool
is_fine fine = true
is_fine _ = false

-- One round, but for the raise.
unfoldable pub apply_one : Moment → Loop → Action → Outcome → Loop
apply_one now l action outcome =
    let l' : Loop = record l {
      state = remember l.state action outcome now;
      lines = l.lines ++ (action, outcome) ∷ [];
    } in
    elim outcome [
      | failed ErrorClass.transient reason ↦
          if is_fine l.worst then record l' { worst = transient; reason = reason } else l'
      | _ ↦ l'
    ]

-- `raise Permanent` ends the loop behind the round; else it goes on.
abbrev pub or_stop : Outcome → Loop → Loop × Option (Option String) → Loop × Option (Option String)
or_stop (failed ErrorClass.permanent reason) l rest = (l, some reason)
or_stop _ l rest = rest

-- The loop: `some reason` where an action fails for good, and the rest is not applied.
unfoldable pub apply_all :
    (apply : Action → Outcome) → Moment → Loop → List Action → Loop × Option (Option String)
apply_all apply now l [] = (l, none)
apply_all apply now l (action ∷ actions) =
    let l' = apply_one now l action (apply action) in
    let rest = apply_all apply now l' actions in or_stop (apply action) l' rest

-- What `BoardSource.observe` returns, the memory apart, or the outcome of its `SourceError`.
pub record Sight : Type 0 where
  pub views : Dict View
  pub active : List String
  pub trash : Dict View
  pub trash_list : List TrashRow

pub data Observation : Type 0 where
  sight : Sight → Observation
  source_error : ErrorClass → (reason : Option String) → Observation

-- `BoardSource.observe`, with the settled memory.
unfoldable pub observed : Dict Memory → Sight → BoardState
observed memory s = record {
  views = s.views;
  active = s.active;
  memory = settle memory s.views (map (λ e. e.0) s.trash);
  trash = s.trash;
  trash_list = s.trash_list;
}

pub record Settings : Type 0 where
  pub max_runs : ℕ
  pub daily_cap : ℕ
  pub config : Config

-- A pass: the state, the receipt written if the health flipped, the lines, and how it ended.
pub record Passed : Type 0 where
  pub state : State
  pub receipt : Option Health
  pub lines : List (Action × Outcome)
  pub ending : Ending

unfoldable pub fail : State → ErrorClass → Option String → Moment → Passed
unfolding backoff_base
fail state ErrorClass.permanent reason now = record {
  state = state;
  receipt = none;
  lines = [];
  ending = raised reason;
}
fail state _ reason now =
    let (state', receipt) = record_health state transient reason in
    record {
      state = state';
      receipt = receipt;
      lines = [];
      ending = done (some (now.instant + backoff_base));
    }

-- The end of `_pass`: the verdict, the wake and the receipt.
unfoldable pub conclude : Bool → Plan → Moment → Loop → Passed
conclude judge p now l =
    let wake = if p.capped then earliest p.wake_at (some now.next_midnight) else p.wake_at in
    let (class, reason) : Severity × Option String =
      if p.capped then (capped, some "daily-cap") else (l.worst, l.reason) in
    let (state', receipt) : State × Option Health =
      if judge then record_health l.state class reason else (l.state, none) in
    record { state = state'; receipt = receipt; lines = l.lines; ending = done wake }

-- The state and the plan of a pass over what was seen.
unfoldable pub settled : State → Sight → State
settled state s = record state { cards = (observed state.cards s).memory }

unfoldable pub budget_of : Settings → State → Sight → Moment → Budget
budget_of settings state s now = record {
  slots = max (settings.max_runs - length s.active) 0;
  remaining_today = some (max (settings.daily_cap - (runs_today state now).1) 0);
}

unfoldable pub pass :
    Settings → (apply : Action → Outcome) → (judge : Bool) → State → Observation → Moment → Passed
pass settings apply judge state (source_error class reason) now = fail state class reason now
pass settings apply judge state (sight s) now =
    let state' = (runs_today (settled state s) now).0 in
    let p =
      plan (observed state.cards s) now.instant (budget_of settings (settled state s) s now)
        settings.config in
    let (l, stopped) =
      apply_all apply now (record { state = state'; worst = fine; reason = none; lines = [] })
        p.actions in
    elim stopped [
      | none ↦ conclude judge p now l
      | some reason ↦ record {
        state = l.state;
        receipt = none;
        lines = l.lines;
        ending = raised reason;
      }
    ]
