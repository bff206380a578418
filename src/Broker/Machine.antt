-- ===== src/Broker/Machine.antt =====
-- bin/control_broker.py, `Runner`, the waits and the lock, on a machine that only the calls change.
-- systemd, the clock and the lock file are not this program: what they do is a record of functions
-- on a state of the machine. A wait polls until it is over or its deadline has passed, and sleeps
-- between two polls; its fuel counts the polls.
use hermes_agent_workforce_p.Prelude.{
  ℕ, zero, suc, ◌+◌, ◌*◌, String, Bool, true, false, Option, none, some, List, [], ◌∷◌, ◌++◌,
  if◌then◌else◌, str_eq, strip, leb, ◌||◌,
}
use hermes_agent_workforce_p.Prelude.Dict.{Dict, lookup, insert}
use hermes_agent_workforce_p.Broker.{
  Answer, value, raised, refuse, command_failed, escaped, locked, Scope, Refusal, Json,
}
use hermes_agent_workforce_p.Broker.Names.{partition}

-- `show` gives the lines of the output, or `none` on a non-zero exit; `mutate` whether the exit was
-- zero; `calendar` the next two elapses of a specification; `stamp` the time of a timer's stamp
-- file; `take_lock` whether the lock was free, which `release_lock` gives back. `monotonic` and `sleep` count milliseconds, `now`
-- seconds. `read_time` is `strptime`, `specs` the `OnCalendar` values in a text, `digest` sha256
-- over the JSON of some rows, `stamp_text` the instant in a receipt's name, `token_hex` three random
-- bytes, `dumps` `json.dumps`, `is_loopback` the test of `ipaddress`.
pub record Systemd (E : Type 0) : Type 0 where
  pub show : Scope → String → String → E → Option (List String) × E
  pub mutate : Scope → String → String → E → Bool × E
  pub calendar : String → E → Option (ℕ × ℕ) × E
  pub stamp : Scope → String → E → Option ℕ
  pub take_lock : E → Bool × E
  pub release_lock : E → E
  pub monotonic : E → ℕ
  pub sleep : ℕ → E → E
  pub now : E → ℕ
  pub read_time : String → Option ℕ
  pub specs : String → List String
  pub digest : List (String × String × String × String) → String
  pub stamp_text : ℕ → String
  pub token_hex : E → String × E
  pub dumps : Json → String
  pub is_loopback : String → Bool

-- A row of `Runner.commands`: what was run, and whether it exited with zero.
pub data Command : Type 0 where
  showed : Scope → String → Bool → Command
  mutated : Scope → String → String → Bool → Command
  elapsed : String → Bool → Command

-- `note` of a receipt.
pub data Note : Type 0 where
  failed_command still_deactivating start_not_begun restart_loop : Note

pub data Outcome : Type 0 where
  applied refused failed previewed : Outcome

-- What the broker writes of a view of systemd: `state`, `fingerprint` and the units.
pub record TimerView : Type 0 where
  pub name : String
  pub active_state : String
  pub sub_state : String
  pub unit_file_state : String
  pub load_state : String
  pub last_trigger_at : Option ℕ
  pub next_elapse_at : Option ℕ
  pub persistent : Option Bool
  pub calendars : List String

-- `unit_file_state` and `restarts` are only in the view of a runtime.
pub record ServiceView : Type 0 where
  pub name : String
  pub active_state : String
  pub sub_state : String
  pub unit_file_state : Option String
  pub load_state : String
  pub result : Option String
  pub invocation_id : Option String
  pub started_at : Option ℕ
  pub ended_at : Option ℕ
  pub restarts : Option String

pub record UnitView : Type 0 where
  pub unit : String
  pub scope : Scope
  pub timer : Option TimerView
  pub service : ServiceView

pub record Snapshot : Type 0 where
  pub state : String
  pub fingerprint : String
  pub units : List UnitView

pub record UnitImplication : Type 0 where
  pub unit : String
  pub persistent : Bool
  pub catch_up : Option Bool
  pub last_trigger_at : Option ℕ
  pub missed_elapse_at : Option ℕ
  pub previous_elapse_at : Option ℕ
  pub next_elapse_at : Option ℕ

pub record Implication : Type 0 where
  pub persistent : Bool
  pub catch_up : Option Bool
  pub last_trigger_at : Option ℕ
  pub missed_elapse_at : Option ℕ
  pub next_elapse_at : Option ℕ
  pub units : List UnitImplication

-- `out` of `handle`
pub record Out : Type 0 where
  pub result : Option Outcome
  pub refusal : Option Refusal
  pub before : Option Snapshot
  pub after : Option Snapshot
  pub implication : Option Implication
  pub run_id : Option String
  pub preview_receipt : Option String
  pub note : Option Note
  pub trigger : Option String

pub record Run (E : Type 0) : Type 0 where
  pub machine : E
  pub commands : List Command
  pub out : Out

abbrev pub M : Type 0 → Type 0 → Type 0
M E A = Run E → Answer A × Run E

module _ {E : Type 0} where
  abbrev pub continue : {A B : Type 0} → Answer A × Run E → (A → M E B) → Answer B × Run E
  continue (value a, s) f = f a s
  continue (raised e, s) f = (raised e, s)

  infixl 10 ◌>>=◌
  abbrev pub ◌>>=◌ : {A B : Type 0} → M E A → (A → M E B) → M E B
  (m >>= f) s = continue (m s) f

  abbrev pub lift : {A : Type 0} → Answer A → M E A
  lift a s = (a, s)

  unfoldable pub set_out : (Out → Out) → M E (Unit {0})
  set_out f s = (value tt, record s { out = f s.out })

-- `line.partition("=")` on each line; later lines replace earlier ones.
abbrev add_line : String → Dict String → Dict String
add_line line d = elim (partition b'=' line) [
  | none ↦ d
  | some (key, val) ↦ insert (strip key) (strip val) d
]

abbrev add_lines : List String → Dict String → Dict String
add_lines [] d = d
add_lines (l ∷ ls) d = add_lines ls (add_line l d)

abbrev pub read_lines : Option (List String) → Answer (Dict String)
read_lines none = raised command_failed
read_lines (some ls) = value (add_lines ls [])

abbrev is_done : Option (List String) → Bool
is_done none = false
is_done (some ls) = true

abbrev pub succeeded : Bool → Answer (Unit {0})
succeeded true = value tt
succeeded false = raised command_failed

module _ {E : Type 0} (sys : Systemd E) where
  -- `Runner.show`
  unfoldable pub show : Scope → String → String → M E (Dict String)
  show scope unit properties s =
      let (lines, e) = sys.show scope unit properties s.machine in
      (
        read_lines lines,
        record s { machine = e; commands = s.commands ++ (showed scope unit (is_done lines) ∷ []) },
      )

  -- `Runner.mutate`
  unfoldable pub mutate : Scope → String → String → M E (Unit {0})
  mutate scope verb unit s =
      let (done, e) = sys.mutate scope verb unit s.machine in
      (
        succeeded done,
        record s { machine = e; commands = s.commands ++ (mutated scope verb unit done ∷ []) },
      )

  abbrev known : Option (ℕ × ℕ) → Bool
  known none = false
  known (some es) = true

  -- `Runner.calendar`, where `none` is its `ValueError`.
  unfoldable pub calendar : String → M E (Option (ℕ × ℕ))
  calendar spec s =
      let (elapses, e) = sys.calendar spec s.machine in
      (
        value elapses,
        record s { machine = e; commands = s.commands ++ (elapsed spec (known elapses) ∷ []) },
      )

  -- A poll that is not over: past the deadline it ends, with `none`, and else it sleeps.
  abbrev pub after_poll : {A : Type 0} → ℕ → ℕ → M E (Option A) → Option A → M E (Option A)
  after_poll deadline pause rest (some a) s = (value (some a), s)
  after_poll deadline pause rest none s =
      if leb deadline (sys.monotonic s.machine)
      then (value none, s)
      else rest (record s { machine = sys.sleep pause s.machine })

  abbrev pub poll_until : {A : Type 0} → ℕ → ℕ → ℕ → M E (Option A) → M E (Option A)
  poll_until zero deadline pause poll = lift (raised escaped)
  poll_until (suc fuel) deadline pause poll =
      let rest = poll_until fuel deadline pause poll in poll >>= after_poll deadline pause rest

  -- `while True: poll; if past the deadline: stop; sleep`, from now on.
  abbrev pub poll_for : {A : Type 0} → ℕ → ℕ → ℕ → M E (Option A) → M E (Option A)
  poll_for fuel seconds pause poll s =
      poll_until fuel (sys.monotonic s.machine + seconds * 1000) pause poll s

  abbrev left_by : (String → Bool) → Option String → Option (Unit {0})
  left_by waiting none = some tt
  left_by waiting (some active) = if waiting active then none else some tt

  -- `ActiveState` is none of these any more.
  abbrev pub state_left : (String → Bool) → Scope → String → M E (Option (Unit {0}))
  state_left waiting scope unit = do
    values ← show scope unit "ActiveState"
    lift (value (left_by waiting (lookup "ActiveState" values)))

  abbrev pub may_stop : String → Bool
  may_stop s = str_eq s "active" || str_eq s "deactivating" || str_eq s "activating"

  abbrev pub set_note : Note → M E (Unit {0})
  set_note n = set_out (λ o. record o { note = some n })

  abbrev pub stop_noted : Option (Unit {0}) → M E (Unit {0})
  stop_noted none = set_note still_deactivating
  stop_noted (some u) = lift (value tt)

  -- `_await_stop`
  unfoldable pub await_stop : Scope → String → M E (Unit {0})
  unfolding show
  await_stop scope unit = do
    left ← poll_for 16 15 1000 (state_left may_stop scope unit)
    stop_noted left

  abbrev pub phase_noted : Option (Unit {0}) → M E Bool
  phase_noted none = do u ← set_note start_not_begun; lift (value false)
  phase_noted (some u) = lift (value true)

  abbrev pub is_deactivating : String → Bool
  is_deactivating s = str_eq s "deactivating"

  -- `_await_stop_phase`
  unfoldable pub await_stop_phase : Scope → String → M E Bool
  unfolding show
  await_stop_phase scope unit = do
    left ← poll_for 16 15 1000 (state_left is_deactivating scope unit)
    phase_noted left

  abbrev is_looping : Option String → Option String → Bool
  is_looping none sub = false
  is_looping (some active) none = str_eq active "failed"
  is_looping (some active) (some sub) =
      str_eq active "failed"
      || (if str_eq active "activating" then str_eq sub "auto-restart" else false)

  abbrev pub settle_poll : Scope → String → M E (Option (Unit {0}))
  settle_poll scope unit = do
    values ← show scope unit "ActiveState,SubState,NRestarts"
    lift (
        value (
          if is_looping (lookup "ActiveState" values) (lookup "SubState" values)
          then some tt
          else none))

  abbrev pub loop_noted : Option (Unit {0}) → M E (Unit {0})
  loop_noted none = lift (value tt)
  loop_noted (some u) = set_note restart_loop

  -- `_await_settle`
  unfoldable pub await_settle : Scope → String → ℕ → M E (Unit {0})
  unfolding show
  await_settle scope unit seconds = do
    loop ← poll_for (suc seconds) seconds 1000 (settle_poll scope unit)
    loop_noted loop

  abbrev pub lock_poll : M E (Option (Unit {0}))
  lock_poll s =
      let (free, e) = sys.take_lock s.machine in
      (value (if free then some tt else none), record s { machine = e })

  abbrev pub or_locked : Option (Unit {0}) → Answer (Unit {0})
  or_locked none = refuse locked
  or_locked (some u) = value tt

  -- `_Lock.__enter__`
  unfoldable pub enter_lock : M E (Unit {0})
  enter_lock = do taken ← poll_for 151 30 200 lock_poll; lift (or_locked taken)

  -- `with _Lock(...)`: the lock is given back however the body ends.
  abbrev pub released : {A : Type 0} → Answer A × Run E → Answer A × Run E
  released (a, s) = (a, record s { machine = sys.release_lock s.machine })

  abbrev pub releasing : {A : Type 0} → M E A → M E A
  releasing body s = released (body s)

  abbrev pub holding_lock : {A : Type 0} → M E A → M E A
  holding_lock body = do u ← enter_lock; releasing body
