-- ===== src/Plan.antt =====
-- bin/board_plan.py: what to start, stop, hold, trash, restore and purge, from state alone.
-- Instants are whole seconds; the planner is modelled on the instants that `parse` reads from the
-- stamps of views and memory, so a stamp that Python cannot read, which raises there, has no
-- counterpart. A view holds the fields that the planner reads.
pub mod Actions
pub mod Starts
pub mod Justified
pub mod Wakes
pub mod Unique
pub mod Samples
mod Tests
use hermes_agent_workforce_p.Prelude.{
  ℕ, ◌+◌, ◌≤◌, String, Bool, true, false, not, ◌&&◌, ◌||◌, Option, none, some, List, [], ◌∷◌, ◌++◌,
  map, if◌then◌else◌, ltb, leb, ◌==◌, is_some, or_else, truthy, has, str_eq, str_leb, ◌<>◌, filter,
  take, length, any, sorted, min, max,
}
use hermes_agent_workforce_p.Prelude.Dict.{Dict, lookup}
use hermes_agent_workforce_p.Source.{Budget, Verb, Action, Plan}

pub data Wants : Type 0 where
  brief research : Wants

pub record Config : Type 0 where
  pub cooldown : ℕ
  pub attempts : ℕ

pub record View : Type 0 where
  pub id : String
  pub deleted : Bool
  pub scheduled : Bool
  pub due_at : Option ℕ
  pub wants : Option Wants
  pub picks : List ℕ
  pub unblocked_at : Option ℕ
  pub failed_streak : ℕ
  pub priority : Option String
  pub deadline : Option String

-- The reactor's memory of a card, or of a restore under its trash key.
pub record Memory : Type 0 where
  pub starts : Option ℕ
  pub last_start : Option ℕ
  pub next_try : Option ℕ
  pub failures : Option ℕ

abbrev pub no_memory : Memory
no_memory = record { starts = none; last_start = none; next_try = none; failures = none }

pub record TrashRow : Type 0 where
  pub id : String
  pub purge_after : Option ℕ

pub record BoardState : Type 0 where
  pub views : Dict View
  pub active : List String
  pub memory : Dict Memory
  pub trash : Dict View
  pub trash_list : List TrashRow

-- `UNITS`
abbrev pub unit_prefix : Wants → String
unit_prefix brief = "board-brief"
unit_prefix research = "board-work"

unfoldable pub unit_for : Wants → String → String
unit_for wants card_id = unit_prefix wants <> ("@" <> (card_id <> ".service"))

unfoldable pub card_units : String → List String
card_units card_id = unit_for brief card_id ∷ unit_for research card_id ∷ []

abbrev pub get_last? : List ℕ → Option ℕ
get_last? [] = none
get_last? (t ∷ []) = some t
get_last? (t ∷ u ∷ ts) = get_last? (u ∷ ts)

-- `parse(runs[-1].get("ts")) if runs else None`
unfoldable pub last_pick : View → Option ℕ
last_pick view = get_last? view.picks

unfoldable pub trash_key : String → String
trash_key card_id = "trash:" <> card_id

-- `max` over the instants that are there.
abbrev pub latest : Option ℕ → Option ℕ → Option ℕ
latest none b = b
latest (some a) none = some a
latest (some a) (some b) = some (max a b)

abbrev pub earliest : Option ℕ → Option ℕ → Option ℕ
earliest none b = b
earliest (some a) none = some a
earliest (some a) (some b) = some (min a b)

-- The test `started and cleared and max(cleared) >= started`.
abbrev pub clears : Option ℕ → Option ℕ → Bool
clears (some started) (some cleared) = leb started cleared
clears _ _ = false

unfoldable pub settled_starts : Memory → View → Memory
settled_starts entry view =
    if clears entry.last_start (latest (last_pick view) view.unblocked_at)
    then record entry { starts = some 0 }
    else entry

-- An entry under a trash key is kept while the trash holds its card: a key that begins with
-- `trash:` and goes on with a name in `trashed` is one of the keys of `trashed`.
unfoldable pub settle : Dict Memory → Dict View → List String → Dict Memory
settle [] views trashed = []
settle ((key, entry) ∷ memory) views trashed =
    let rest = settle memory views trashed in
    elim (lookup key views) [
      | some view ↦ (key, settled_starts entry view) ∷ rest
      | none ↦ if has key (map trash_key trashed) then (key, entry) ∷ rest else rest
    ]

-- `PRIORITIES.index`, with "normal" for anything else.
unfoldable pub priority_rank : View → ℕ
priority_rank view = elim view.priority [
  | none ↦ 1
  | some p ↦ if str_eq p "high" then 0 else if str_eq p "low" then 2 else 1
]

-- `fields.get("deadline") or "9999-12-31"`
unfoldable pub deadline_key : View → String
deadline_key view = if truthy view.deadline then or_else view.deadline "" else "9999-12-31"

-- The order of the tuples of `order_key`.
unfoldable pub order_le : View → View → Bool
order_le a b =
    if priority_rank a == priority_rank b
    then (if str_eq (deadline_key a) (deadline_key b)
        then str_leb a.id b.id
        else str_leb (deadline_key a) (deadline_key b))
    else ltb (priority_rank a) (priority_rank b)

abbrev pub stop_unit : String → String → Action
stop_unit card_id unit = record {
  verb = Verb.stop;
  item = card_id;
  unit = some unit;
  reason = "deleted";
}

abbrev pub trash_action : String → Action
trash_action card_id = record { verb = Verb.trash; item = card_id; unit = none; reason = "deleted" }

-- The running units are stopped; with none running the card is trashed.
abbrev pub stop_or_trash : String → List String → List Action
stop_or_trash card_id [] = trash_action card_id ∷ []
stop_or_trash card_id (u ∷ us) = map (stop_unit card_id) (u ∷ us)

unfoldable pub deleted_actions : String → List String → List Action
deleted_actions card_id active =
    stop_or_trash card_id (filter (λ unit. has unit active) (card_units card_id))

unfoldable pub quarantine : View → Memory → Config → Option String
quarantine view entry config =
    if leb config.attempts view.failed_streak
    then some "poison-attempts"
    else if leb config.attempts (or_else entry.starts 0)
    then some "poison-start"
    else none

abbrev pub later : ℕ → Option ℕ → Option ℕ
later seconds none = none
later seconds (some t) = some (t + seconds)

unfoldable pub ready_at : View → Memory → Config → Option ℕ
ready_at view entry config =
    latest (later config.cooldown (latest (last_pick view) entry.last_start)) entry.next_try

-- The planner's lists: what to do, what waits for the budget, and when to look again.
pub record Planner : Type 0 where
  pub actions : List Action
  pub queue : List Action
  pub wakes : List ℕ

abbrev pub act : Planner → Action → Planner
act p a = record p { actions = p.actions ++ a ∷ [] }

abbrev pub wake : Planner → ℕ → Planner
wake p t = record p { wakes = p.wakes ++ t ∷ [] }

-- The test `ready and self.now < ready`.
abbrev pub is_before : ℕ → Option ℕ → Bool
is_before now none = false
is_before now (some t) = ltb now t

abbrev pub hold_action : View → String → Action
hold_action view reason = record { verb = Verb.hold; item = view.id; unit = none; reason = reason }

abbrev pub start_action : View → Wants → Action
start_action view wants = record {
  verb = Verb.start;
  item = view.id;
  unit = some (unit_for wants view.id);
  reason = elim wants [ brief ↦ "brief" | research ↦ "research" ];
}

abbrev pub restore_action : String → Action
restore_action card_id = record {
  verb = Verb.restore;
  item = card_id;
  unit = none;
  reason = "restored";
}

abbrev pub purge_action : String → Action
purge_action card_id = record { verb = Verb.purge; item = card_id; unit = none; reason = "expired" }

-- `self.state.memory.get(key, {})`
abbrev pub memory_of : BoardState → String → Memory
memory_of state key = or_else (lookup key state.memory) no_memory

-- The wake of a scheduled card.
abbrev pub schedule_wake : Planner → View → Planner
schedule_wake p view =
    if view.scheduled then elim view.due_at [ none ↦ p | some t ↦ wake p t ] else p

abbrev pub is_busy : BoardState → View → Bool
is_busy state view = any (λ unit. has unit state.active) (card_units view.id)

-- `self.state.trash.get(id, {}).get("deleted", True)`
abbrev pub trashed_deleted : BoardState → String → Bool
trashed_deleted state card_id = elim (lookup card_id state.trash) [
  | none ↦ true
  | some v ↦ v.deleted
]

-- The test `expires and expires <= self.now`.
abbrev pub is_expired : ℕ → Option ℕ → Bool
is_expired now none = false
is_expired now (some t) = leb t now

module _ (state : BoardState) (now : ℕ) (config : Config) where
  unfoldable pub plan_wanted : Planner → View → Wants → Planner
  plan_wanted p view wants =
      let entry = memory_of state view.id in
      elim (quarantine view entry config) [
        | some reason ↦ act p (hold_action view reason)
        | none ↦
            if is_before now (ready_at view entry config)
            then wake p (or_else (ready_at view entry config) now)
            else record p { queue = p.queue ++ start_action view wants ∷ [] }
      ]

  unfoldable pub plan_card : Planner → View → Planner
  plan_card p view =
      if view.deleted
      then record p { actions = p.actions ++ deleted_actions view.id state.active }
      else elim view.wants [
        | none ↦ schedule_wake p view
        | some wants ↦
            if is_busy state view
            then schedule_wake p view
            else plan_wanted (schedule_wake p view) view wants
      ]

  unfoldable pub plan_cards : Planner → List View → Planner
  plan_cards p [] = p
  plan_cards p (view ∷ views) = plan_cards (plan_card p view) views

  unfoldable pub plan_restore : Planner → String → Planner
  plan_restore p card_id =
      let backoff = (memory_of state (trash_key card_id)).next_try in
      if is_before now backoff then wake p (or_else backoff now) else act p (restore_action card_id)

  unfoldable pub plan_restores : Planner → Dict View → Planner
  plan_restores p [] = p
  plan_restores p ((card_id, view) ∷ rest) =
      plan_restores (if view.deleted then p else plan_restore p card_id) rest

  unfoldable pub plan_purges : Planner → List TrashRow → Planner
  plan_purges p [] = p
  plan_purges p (row ∷ rows) =
      plan_purges
        (if is_expired now row.purge_after && trashed_deleted state row.id
          then act p (purge_action row.id)
          else p)
        rows

  unfoldable pub plan_trash : Planner → Planner
  plan_trash p =
      plan_purges (plan_restores p (sorted (λ a b. str_leb a.0 b.0) state.trash)) state.trash_list

abbrev pub slot_recheck : ℕ
slot_recheck = 30

abbrev pub room_of : Budget → ℕ
room_of budget = elim budget.remaining_today [
  | none ↦ budget.slots
  | some remaining ↦ min budget.slots remaining
]

abbrev pub is_capped : Budget → List Action → Bool
is_capped budget queue = elim budget.remaining_today [
  | none ↦ false
  | some remaining ↦ ltb remaining (length queue)
]

unfoldable pub spend : ℕ → Planner → Budget → Planner
spend now p budget =
    let room = room_of budget in
    let p' : Planner =
      if ltb room (length p.queue) && leb budget.slots room
      then wake p (now + slot_recheck)
      else p in
    record p' { actions = p'.actions ++ take room p.queue }

abbrev pub min_of : List ℕ → Option ℕ
min_of [] = none
min_of (t ∷ ts) = earliest (some t) (min_of ts)

abbrev pub no_plan : Planner
no_plan = record { actions = []; queue = []; wakes = [] }

-- The planner before it spends the budget.
unfoldable pub planned : BoardState → ℕ → Config → Planner
planned state now config =
    plan_trash state now config
      (plan_cards state now config no_plan (sorted order_le (map (λ e. e.1) state.views)))

unfoldable pub plan : BoardState → ℕ → Budget → Config → Plan
plan state now budget config =
    let p = planned state now config in
    let spent = spend now p budget in
    record {
      actions = spent.actions;
      wake_at = min_of spent.wakes;
      capped = is_capped budget p.queue;
    }
