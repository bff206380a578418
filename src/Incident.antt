-- ===== src/Incident.antt =====
-- bin/incident_state.py: one entry per incident key, reconciled against what a sweep observed.
-- An entry is the JSON object of the state file. `red_streak`, `green_streak` and `green_since`
-- are optional, since a state file of an earlier version has none of them. Durations are whole
-- seconds and not negative.
pub mod Reconcile
pub mod Sweeps
pub mod Digest
pub mod Notify
mod Tests
use hermes_agent_workforce_p.Prelude.{
  ℕ, ◌+◌, ◌-◌, ◌*◌, String, Bool, true, false, not, ◌&&◌, ◌||◌, Option, none, some, List, [], ◌∷◌,
  ◌++◌, if◌then◌else◌, ltb, leb, is_some, or_else, truthy, opt_eq, has,
}
use hermes_agent_workforce_p.Prelude.Dict.{Dict, lookup, insert, erase_all, keys_where, map_values}
use hermes_agent_workforce_p.Stamp.{Stamp, iso_utc, parse_time, is_set}

abbrev pub streak_limit : ℕ
streak_limit = 3

-- `CARRIED`: what each red sweep copies from the observation.
pub record Carried : Type 0 where
  pub class : Option String
  pub severity : Option String
  pub workflow_id : Option String
  pub agent : Option String
  pub unit : Option String
  pub issue : Option String
  pub failed_assertion : Option String
  pub required_action : Option String
  pub run_id : Option String
  pub evidence : Option String

pub record Item : Type 0 where
  pub key : String
  pub carried : Carried
  pub observed_at : Option Stamp

pub record Debounce : Type 0 where
  pub open_after : ℕ
  pub recover_after : ℕ

pub record Entry : Type 0 where
  pub key : String
  pub carried : Carried
  pub run_ids : List String
  pub observations : ℕ
  pub first_seen : Option Stamp
  pub last_seen : Option Stamp
  pub resolved_at : Option Stamp
  pub notified_at : Option Stamp
  pub notify_event_id : Option String
  pub notify_channel : Option String
  pub send_attempts : ℕ
  pub last_send_error : Option String
  pub recovery_notified_at : Option Stamp
  pub digested_at : Option Stamp
  pub red_streak : Option ℕ
  pub green_streak : Option ℕ
  pub green_since : Option Stamp

pub record State : Type 0 where
  pub last_digest_at : Option Stamp
  pub incidents : Dict Entry

unfoldable pub empty : State
empty = record { last_digest_at = none; incidents = [] }

-- `[item["run_id"]] if item.get("run_id") else []`
abbrev pub listed : Option String → List String
listed none = []
listed (some r) = if truthy (some r) then r ∷ [] else []

unfoldable pub new_entry : Item → ℕ → Entry
new_entry item now = record {
  key = item.key;
  carried = item.carried;
  run_ids = listed item.carried.run_id;
  observations = 1;
  first_seen = if is_set item.observed_at then item.observed_at else some (iso_utc now);
  last_seen = some (iso_utc now);
  resolved_at = none;
  notified_at = none;
  notify_event_id = none;
  notify_channel = none;
  send_attempts = 0;
  last_send_error = none;
  recovery_notified_at = none;
  digested_at = none;
  red_streak = some 1;
  green_streak = some 0;
  green_since = none;
}

-- The test `run_id and run_id != entry.get("run_id")`.
abbrev pub is_new_run : Entry → Item → Bool
is_new_run entry item =
    truthy item.carried.run_id && not (opt_eq item.carried.run_id entry.carried.run_id)

unfoldable pub update_entry : Entry → Item → ℕ → Entry
update_entry entry item now = record entry {
  observations = if is_new_run entry item then entry.observations + 1 else entry.observations;
  run_ids =
      if is_new_run entry item then entry.run_ids ++ listed item.carried.run_id else entry.run_ids;
  carried = item.carried;
  last_seen = some (iso_utc now);
  red_streak = some (or_else entry.red_streak 0 + 1);
  green_streak = some 0;
  green_since = none;
}

-- What a green sweep writes on an entry, whether or not the hold is over.
unfoldable pub green_entry : Entry → ℕ → Entry
green_entry entry now = record entry {
  red_streak = some 0;
  green_streak = some (or_else entry.green_streak 0 + 1);
  green_since = if is_set entry.green_since then entry.green_since else some (iso_utc now);
}

-- What `_held_green` returns, on the entry that it has written. `(now - since) >= d` in Python's
-- signed seconds is `since + d <= now`.
unfoldable pub is_hold_over : Entry → ℕ → Debounce → Bool
is_hold_over entry now debounce =
    leb streak_limit (or_else entry.green_streak 0)
    || leb (or_else (parse_time entry.green_since) now + debounce.recover_after) now

unfoldable pub held_green : Entry → ℕ → Debounce → Entry × Bool
held_green entry now debounce =
    let entry' = green_entry entry now in (entry', is_hold_over entry' now debounce)

unfoldable pub due_to_open : Entry → ℕ → Debounce → Bool
due_to_open entry now debounce =
    if leb debounce.open_after 0 || leb streak_limit (or_else entry.red_streak 1)
    then true
    else leb (or_else (parse_time entry.first_seen) now + debounce.open_after) now

abbrev pub is_open : Entry → Bool
is_open entry = not (is_some entry.resolved_at)

-- The locals of `reconcile`'s first loop.
pub record Pass : Type 0 where
  pub incidents : Dict Entry
  pub opened : List String
  pub updated : List String
  pub seen : List String

-- The two bodies of the first loop.
abbrev pub open_item : ℕ → Pass → Item → Pass
open_item now p item = record {
  incidents = insert item.key (new_entry item now) p.incidents;
  opened = p.opened ++ item.key ∷ [];
  updated = p.updated;
  seen = item.key ∷ p.seen;
}

abbrev pub update_item : ℕ → Pass → Item → Entry → Pass
update_item now p item entry = record {
  incidents = insert item.key (update_entry entry item now) p.incidents;
  opened = p.opened;
  updated = p.updated ++ item.key ∷ [];
  seen = item.key ∷ p.seen;
}

-- One round of the first loop.
unfoldable pub observe : ℕ → Pass → Item → Pass
observe now p item = elim (lookup item.key p.incidents) [
  | none ↦ open_item now p item
  | some entry ↦ if is_open entry then update_item now p item entry else open_item now p item
]

unfoldable pub observe_all : ℕ → Pass → List Item → Pass
observe_all now p [] = p
observe_all now p (item ∷ items) = observe_all now (observe now p item) items

-- One round of the second loop, on an entry in place: the entry that it leaves.
unfoldable pub sweep_entry : ℕ → Debounce → List String → String → Entry → Entry
sweep_entry now debounce seen key entry =
    if not (has key seen) && is_open entry
    then (let (entry', over) = held_green entry now debounce in
        if over then record entry' { resolved_at = some (iso_utc now) } else entry')
    else entry

-- The second loop's appends to `closed`.
unfoldable pub closed_keys : ℕ → Debounce → List String → Dict Entry → List String
closed_keys now debounce seen [] = []
closed_keys now debounce seen ((key, entry) ∷ d) =
    if not (has key seen) && is_open entry && (held_green entry now debounce).1
    then key ∷ closed_keys now debounce seen d
    else closed_keys now debounce seen d

pub record Transitions : Type 0 where
  pub opened : List String
  pub updated : List String
  pub closed : List String

unfoldable pub reconcile : State → List Item → ℕ → Bool → Debounce → State × Transitions
reconcile state observed now sources_ok debounce =
    let p =
      observe_all now (record { incidents = state.incidents; opened = []; updated = []; seen = [] })
        observed in
    if sources_ok
    then (
      record state { incidents = map_values (sweep_entry now debounce p.seen) p.incidents },
      record {
        opened = p.opened;
        updated = p.updated;
        closed = closed_keys now debounce p.seen p.incidents;
      },
    )
    else (
      record state { incidents = p.incidents },
      record { opened = p.opened; updated = p.updated; closed = [] },
    )

-- The test of `prune`. `horizon` is `now - retention_days`, so `t < horizon` is
-- `t + retention < now`.
unfoldable pub is_stale : ℕ → ℕ → Entry → Bool
is_stale now retention_days entry =
    is_set entry.resolved_at
    && ltb (or_else (parse_time entry.resolved_at) now + retention_days * 86400) now

unfoldable pub prune : State → ℕ → ℕ → State × List String
prune state now retention_days =
    let pruned = keys_where (is_stale now retention_days) state.incidents in
    (record state { incidents = erase_all pruned state.incidents }, pruned)

-- A local time: the instant, and the seconds since local midnight on its clock.
pub record LocalTime : Type 0 where
  pub instant : ℕ
  pub second_of_day : ℕ

-- The seconds since midnight at which the digest is due.
abbrev pub gate_second : ℕ → ℕ → ℕ
gate_second hour minute = hour * 3600 + minute * 60

unfoldable pub digest_due : State → LocalTime → ℕ → ℕ → Bool
digest_due state now hour minute =
    if ltb now.second_of_day (gate_second hour minute)
    then false
    else elim (parse_time state.last_digest_at) [
      | none ↦ true
      | some last ↦ ltb last (now.instant + gate_second hour minute - now.second_of_day)
    ]
