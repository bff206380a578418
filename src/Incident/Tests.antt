-- ===== src/Incident/Tests.antt =====
-- Small sweeps of the incident state, and the theorems about them at concrete inputs.
use hermes_agent_workforce_p.Prelude.{
  ℕ, ◌≡◌, ◌⊎◌, refl, String, Bool, Option, true, false, not, ◌&&◌, none, some, List, [], ◌∷◌, ◌≤◌,
  arith, has, if◌then◌else◌, ltb, ◌+◌, ◌*◌,
}
use hermes_agent_workforce_p.Prelude.Dict.{lookup, IsDict, holds}
use hermes_agent_workforce_p.Stamp.{Stamp, iso_utc, parse_time}
use hermes_agent_workforce_p.Incident.{
  Carried, Item, Debounce, Entry, State, new_entry, update_entry, green_entry, is_open,
  is_hold_over, held_green, observe, observe_all, sweep_entry, closed_keys, reconcile, is_stale,
  prune, LocalTime, digest_due, empty, gate_second, due_to_open,
}
use hermes_agent_workforce_p.Incident.Reconcile.{
  reconcile_key, item_keys, closes, lookup-reconcile, has-closed, reconcile-seen_open,
  reconcile_degraded,
}
use hermes_agent_workforce_p.Incident.Sweeps.{
  Sweep, sweeps, SameIncident, sweeps-flapping, sweeps-recover,
}
use hermes_agent_workforce_p.Incident.Notify.{
  Limits, Reply, sent, failed, owes_recovery, recovered_with, send_recoveries, send_recoveries_once,
  is_pending, MayPage, chosen, opened_with, send_opens, send_opens_pending, send_opens_bounded,
}
use hermes_agent_workforce_p.Incident.Digest.{
  digested, SameDay, LaterDay, lookup-prune, digest_once_daily,
}

abbrev carried : Carried
carried = record {
  class = some "runtime";
  severity = some "high";
  workflow_id = some "weekly-review";
  agent = none;
  unit = none;
  issue = none;
  failed_assertion = none;
  required_action = none;
  run_id = some "r1";
  evidence = none;
}

abbrev item : Item
item = record { key = "a"; carried = carried; observed_at = none }

abbrev debounce : Debounce
debounce = record { open_after = 900; recover_after = 900 }

abbrev first : Entry
first = record {
  key = "a";
  carried = carried;
  run_ids = "r1" ∷ [];
  observations = 1;
  first_seen = some (Stamp.at 1000);
  last_seen = some (Stamp.at 1000);
  resolved_at = none;
  notified_at = none;
  notify_event_id = none;
  notify_channel = none;
  send_attempts = 0;
  last_send_error = none;
  recovery_notified_at = none;
  digested_at = none;
  red_streak = some 1;
  green_streak = some 0;
  green_since = none;
}

abbrev second : Entry
second = record first { key = "b"; resolved_at = some (Stamp.at 1000) }

abbrev state : State
state = record { last_digest_at = none; incidents = ("a", first) ∷ ("b", second) ∷ [] }

all_open : Unit {0}
unfolding reconcile observe observe_all sweep_entry closed_keys held_green is_hold_over new_entry
    update_entry green_entry iso_utc parse_time empty is_stale prune digest_due
all_open = tt

first_sweep : (reconcile empty (item ∷ []) 1000 true debounce).0.incidents ≡ ("a", first) ∷ []
unfolding all_open
first_sweep = refl

green_at_once :
    (reconcile state [] 2000 true (record { open_after = 0; recover_after = 0 })).1.closed
    ≡ "a" ∷ []
unfolding all_open
green_at_once = refl

state-IsDict : IsDict state.incidents
state-IsDict = (refl, (refl, tt))

lookup-reconcile_example :
    lookup "b" (reconcile state (item ∷ []) 2000 true debounce).0.incidents
    ≡ reconcile_key 2000 true debounce "b" (item ∷ []) (some second)
lookup-reconcile_example = lookup-reconcile "b" state (item ∷ []) 2000 true debounce

has-closed_example :
    has "a" (reconcile state [] 2000 true debounce).1.closed
    ≡ (true && (not (has "a" (item_keys [])) && holds (closes 2000 debounce) (some first)))
has-closed_example = has-closed "a" state [] 2000 true debounce state-IsDict

reconcile-seen_open_example :
    holds is_open (lookup "a" (reconcile empty (item ∷ []) 2000 false debounce).0.incidents) ≡ true
reconcile-seen_open_example = reconcile-seen_open "a" empty (item ∷ []) 2000 false debounce refl

reconcile_degraded_example :
    let (s', t) = reconcile state [] 2000 false debounce in
    (t.closed ≡ [])
    × (holds is_open (some first) ≡ true → holds is_open (lookup "a" s'.incidents) ≡ true)
    × (has "a" (item_keys []) ≡ false → lookup "a" s'.incidents ≡ some first)
reconcile_degraded_example = reconcile_degraded "a" state [] 2000 debounce

abbrev green : ℕ → Sweep
green t = record { items = []; now = t; sources_ok = true }

abbrev red : ℕ → Sweep
red t = record { items = item ∷ []; now = t; sources_ok = true }

abbrev flapping : List Sweep
flapping = green 1300 ∷ green 1600 ∷ red 1900 ∷ green 2200 ∷ green 2500 ∷ []

sweeps-flapping_example :
    (e' : Entry) × (lookup "a" (sweeps debounce state flapping).incidents ≡ some e')
    × (e'.resolved_at ≡ none)
    × SameIncident first e'
sweeps-flapping_example =
    sweeps-flapping "a" debounce state flapping first 0 none refl (refl, refl, refl) (omega arith)

sweeps-recover_example :
    (e' : Entry) × (lookup "a"
        (sweeps debounce state (green 1300 ∷ green 1301 ∷ green 1302 ∷ [])).incidents
      ≡ some e')
    × (is_open e' ≡ false)
sweeps-recover_example =
    sweeps-recover "a" debounce state (green 1300 ∷ green 1301 ∷ green 1302 ∷ []) first refl refl
      (refl, (refl, (refl, tt))) (omega arith) (omega arith)

lookup-prune_example :
    let (s', pruned) = prune state 9000000 90 in
    ((e : Entry) (t : ℕ)
      → some second ≡ some e
      → parse_time e.resolved_at ≡ some t
      → has "b" pruned ≡ ltb (t + 90 * 86400) 9000000)
    × ((e : Entry)
        → some second ≡ some e
        → parse_time e.resolved_at ≡ none
        → has "b" pruned ≡ false)
    × (some second ≡ none → has "b" pruned ≡ false)
    × (lookup "b" s'.incidents ≡ (if has "b" pruned then none else some second))
    × IsDict s'.incidents
lookup-prune_example = lookup-prune "b" state 9000000 90 state-IsDict

abbrev morning : LocalTime
morning = record { instant = 1000000; second_of_day = 30000 }

abbrev noon : LocalTime
noon = record { instant = 1010000; second_of_day = 40000 }

digest_due-morning : digest_due state morning 8 0 ≡ true
unfolding all_open
digest_due-morning = refl

digest_once_daily_example :
    (SameDay morning noon → digest_due (digested state 1000000) noon 8 0 ≡ false)
    × (LaterDay morning noon
        → gate_second 8 0 ≤ 40000
        → digest_due (digested state 1000000) noon 8 0 ≡ true)
digest_once_daily_example =
    digest_once_daily state morning noon 8 0 (omega arith) (omega arith) digest_due-morning

abbrev urgent : Entry
urgent = record first { carried = record carried { class = some "failed-assertion" } }

abbrev urgent_state : State
urgent_state = record { last_digest_at = none; incidents = ("a", urgent) ∷ ("b", second) ∷ [] }

abbrev limits : Limits
limits = record { max_sends = 10; max_attempts = 6; debounce = debounce }

abbrev as_listed : Option Stamp → Option Stamp → Bool
as_listed a b = true

abbrev replies : String → Reply
replies k = failed "deliver.sh exited 1"

abbrev paged_entry : Entry
paged_entry = record urgent { send_attempts = 1; last_send_error = some "deliver.sh exited 1" }

urgent_paged :
    lookup "a" (send_opens as_listed limits 2000 replies urgent_state).incidents ≡ some paged_entry
unfolding iso_utc parse_time due_to_open is_pending chosen opened_with send_opens
urgent_paged = refl

urgent-IsDict : IsDict urgent_state.incidents
urgent-IsDict = (refl, (refl, tt))

send_opens_pending_example :
    (lookup "a" (send_opens as_listed limits 2000 replies urgent_state).incidents ≡ some urgent)
    ⊎ (MayPage limits 2000 urgent
        × (lookup "a" (send_opens as_listed limits 2000 replies urgent_state).incidents
            ≡ some (opened_with 2000 urgent (replies "a"))))
send_opens_pending_example =
    send_opens_pending as_listed limits 2000 replies urgent_state "a" urgent urgent-IsDict refl

send_opens_bounded_example :
    (e' : Entry) × (lookup "a" (send_opens as_listed limits 2000 replies urgent_state).incidents
      ≡ some e')
    × (e'.send_attempts ≤ 6)
send_opens_bounded_example =
    send_opens_bounded as_listed limits 2000 replies urgent_state "a" urgent urgent-IsDict refl
      (omega arith)

abbrev resolved : Entry
resolved = record urgent { resolved_at = some (Stamp.at 1500); notified_at = some (Stamp.at 1200) }

abbrev resolved_state : State
resolved_state = record { last_digest_at = none; incidents = ("a", resolved) ∷ [] }

abbrev taken : String → Reply
taken k = sent (some "event") (some "channel")

resolved_owes : owes_recovery resolved ≡ true
unfolding owes_recovery
resolved_owes = refl

send_recoveries_once_example :
    (lookup "a" (send_recoveries 2000 taken resolved_state).incidents
      ≡ some (recovered_with 2000 resolved (sent (some "event") (some "channel"))))
    × (lookup "a"
          (send_recoveries 2300 replies (send_recoveries 2000 taken resolved_state)).incidents
        ≡ some (recovered_with 2000 resolved (sent (some "event") (some "channel"))))
send_recoveries_once_example =
    send_recoveries_once 2000 2300 taken replies resolved_state "a" resolved (some "event")
      (some "channel") refl resolved_owes refl
