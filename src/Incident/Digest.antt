-- ===== src/Incident/Digest.antt =====
-- bin/incident_state.py, `prune` and `digest_due`: what a sweep forgets, and the daily digest.
use hermes_agent_workforce_p.Prelude.{
  ℕ, ◌+◌, ◌*◌, ◌≤◌, ◌<◌, ◌≡◌, String, true, false, none, some, arith, if◌then◌else◌, has, ltb, ap,
  ◌∙◌,
}
use hermes_agent_workforce_p.Prelude.Dict.{
  lookup, IsDict, holds, keys_where, lookup-erase_all, erase_all-IsDict, has-keys_where,
}
use hermes_agent_workforce_p.Stamp.{iso_utc, parse_time}
use hermes_agent_workforce_p.Incident.{
  Entry, State, is_stale, prune, LocalTime, gate_second, digest_due,
}

is_stale-unread :
    (now days : ℕ) (e : Entry) → parse_time e.resolved_at ≡ none → is_stale now days e ≡ false
unfolding is_stale
is_stale-unread now days e o = ground (arith, o)

is_stale-read :
    (now days t : ℕ) (e : Entry)
    → parse_time e.resolved_at ≡ some t
    → is_stale now days e ≡ ltb (t + days * 86400) now
unfolding is_stale parse_time
is_stale-read now days t e r = ground (arith, r)

prune_if :
    (k : String) (s : State) (now days : ℕ)
    → IsDict s.incidents
    → let (s', pruned) = prune s now days in
      (has k pruned ≡ holds (is_stale now days) (lookup k s.incidents))
      × (lookup k s'.incidents ≡ (if has k pruned then none else lookup k s.incidents))
      × IsDict s'.incidents
unfolding prune
prune_if k s now days h = (
  has-keys_where (is_stale now days) k s.incidents h,
  lookup-erase_all (keys_where (is_stale now days) s.incidents) k s.incidents h,
  erase_all-IsDict (keys_where (is_stale now days) s.incidents) s.incidents h,
)

-- Where no key stands twice, `prune` removes exactly the keys that it returns: an entry that was
-- resolved at a time that can be read is one of them exactly when that time and the days of the
-- retention lie before now; an open entry, and one whose time cannot be read, is none. Every entry
-- that is not removed is as it was, a key that is not there stays so, and the entries stay keyed.
pub lookup-prune :
    (k : String) (s : State) (now days : ℕ)
    → IsDict s.incidents
    → let (s', pruned) = prune s now days in
      ((e : Entry) (t : ℕ)
        → lookup k s.incidents ≡ some e
        → parse_time e.resolved_at ≡ some t
        → has k pruned ≡ ltb (t + days * 86400) now)
      × ((e : Entry)
          → lookup k s.incidents ≡ some e
          → parse_time e.resolved_at ≡ none
          → has k pruned ≡ false)
      × (lookup k s.incidents ≡ none → has k pruned ≡ false)
      × (lookup k s'.incidents ≡ (if has k pruned then none else lookup k s.incidents))
      × IsDict s'.incidents
lookup-prune k s now days h =
    let (has_it, after, dict) = prune_if k s now days h in
    (
      λ e t l r. has_it ∙ ap (holds (is_stale now days)) l ∙ is_stale-read now days t e r,
      λ e l r. has_it ∙ ap (holds (is_stale now days)) l ∙ is_stale-unread now days e r,
      λ l. has_it ∙ ap (holds (is_stale now days)) l,
      after,
      dict,
    )

abbrev pub digested : State → ℕ → State
digested s now = record s { last_digest_at = some (iso_utc now) }

-- Two local times of one day and of one UTC offset: the instants differ as the clocks do.
abbrev pub SameDay : LocalTime → LocalTime → Type 0
SameDay a b = a.instant + b.second_of_day ≡ b.instant + a.second_of_day

-- `a` lies before the midnight that the clock of `b` counts from.
abbrev pub LaterDay : LocalTime → LocalTime → Type 0
LaterDay a b = a.instant + b.second_of_day < b.instant

-- Once a day: a digest that was due and is stamped is not due again at a time of the same day and
-- the same UTC offset; it is due again, from the gate on, at a time whose midnight, counted back on
-- its own clock, lies after the digest. Neither time's clock reaches back before the epoch. Of two
-- times of one day between which the offset changes nothing is said.
pub digest_once_daily :
    (s : State) (a b : LocalTime) (hour minute : ℕ)
    → a.second_of_day ≤ a.instant
    → b.second_of_day ≤ b.instant
    → digest_due s a hour minute ≡ true
    → (SameDay a b → digest_due (digested s a.instant) b hour minute ≡ false)
      × (LaterDay a b
          → gate_second hour minute ≤ b.second_of_day
          → digest_due (digested s a.instant) b hour minute ≡ true)
unfolding digest_due iso_utc parse_time
digest_once_daily s a b hour minute ha hb due = (λ same. ground arith, λ later past. ground arith)
