-- ===== src/Incident/Notify.antt =====
-- bin/incident_notify.py, `send_opens` and `send_recoveries`: the messages of one sweep.
-- What a delivery shows is an argument, by the entry's key: the receipt of Buzz, or an error. The
-- order of stamps as texts is one too. The entries are distinct objects, each under its own key, so
-- that the loop's marks are one change for each key chosen. A dry run, which sends nothing and
-- changes nothing, is left out.
use hermes_agent_workforce_p.Prelude.{
  ℕ, ◌+◌, ◌≤◌, ◌<◌, leb, or_else, ◌≡◌, refl, sym, ap, subst, ◌∙◌, String, Bool, true, false, not,
  ◌&&◌, Option, none, some, List, [], ◌∷◌, map, arith, if◌then◌else◌, ltb, has, is_some, truthy,
  str_eq, str_eq→eq, str_eq_refl, filter, take, sorted, In, In-filter, In-sorted, inl, inr, ◌⊎◌,
  zero, suc, Bool-cases,
}
use hermes_agent_workforce_p.Prelude.Dict.{
  Dict, lookup, map_values, update, IsDict, lookup-map_values,
}
use hermes_agent_workforce_p.Stamp.{Stamp, iso_utc, is_set, parse_time}
use hermes_agent_workforce_p.Incident.{Entry, Debounce, State, due_to_open, is_open}

-- `IMMEDIATE_CLASSES`
abbrev immediate : List String
immediate =
    "failed-assertion" ∷ "missing-artifact" ∷ "incomplete-run" ∷ "malformed-receipt"
    ∷ "control-failure" ∷ "auth-expired" ∷ "blocked-next-action" ∷ "board-exception" ∷ []

abbrev is_immediate : Option String → Bool
is_immediate none = false
is_immediate (some c) = has c immediate

-- What `Sender.send` returns.
pub data Reply : Type 0 where
  sent : Option String → Option String → Reply
  failed : String → Reply

-- The arguments of a sweep that the sends read.
pub record Limits : Type 0 where
  pub max_sends : ℕ
  pub max_attempts : ℕ
  pub debounce : Debounce

-- `value or None`
abbrev kept : Option String → Option String
kept o = if truthy o then o else none

abbrev pub failed_send : Entry → String → Entry
failed_send e error = record e { send_attempts = e.send_attempts + 1; last_send_error = some error }

-- `deliver` of a page, with its `mark`.
unfoldable pub opened_with : ℕ → Entry → Reply → Entry
unfolding iso_utc
opened_with now e (sent event channel) = record e {
  notified_at = some (iso_utc now);
  notify_event_id = kept event;
  notify_channel = kept channel;
}
opened_with now e (failed error) = failed_send e error

-- `deliver` of a recovery, with its `mark`.
unfoldable pub recovered_with : ℕ → Entry → Reply → Entry
unfolding iso_utc
recovered_with now e (sent event channel) = record e { recovery_notified_at = some (iso_utc now) }
recovered_with now e (failed error) = failed_send e error

-- The test of `pending`.
unfoldable pub is_pending : Limits → ℕ → Entry → Bool
unfolding due_to_open
is_pending limits now e =
    is_open e
    && is_immediate e.carried.class
    && not (is_some e.notified_at)
    && ltb e.send_attempts limits.max_attempts
    && due_to_open e now limits.debounce

-- `pending[: max_sends]`, by key, in the order of `open_entries`.
unfoldable pub chosen : (Option Stamp → Option Stamp → Bool) → Limits → ℕ → Dict Entry → List String
chosen text_le limits now d =
    map (λ (p : String × Entry). p.0)
      (take limits.max_sends (
        sorted (λ p q. text_le p.1.first_seen q.1.first_seen)
          (filter (λ p. is_pending limits now p.1) d)))

-- `send_opens`
unfoldable pub send_opens :
    (Option Stamp → Option Stamp → Bool) → Limits → ℕ → (String → Reply) → State → State
send_opens text_le limits now replies s =
    let keys = chosen text_le limits now s.incidents in
    record s {
      incidents =
          map_values (λ k e. if has k keys then opened_with now e (replies k) else e) s.incidents;
    }

-- The test of `send_recoveries`.
unfoldable pub owes_recovery : Entry → Bool
owes_recovery e =
    is_some e.resolved_at && is_some e.notified_at && not (is_set e.recovery_notified_at)

-- `send_recoveries`
unfoldable pub send_recoveries : ℕ → (String → Reply) → State → State
send_recoveries now replies s = record s {
  incidents =
      map_values (λ k e. if owes_recovery e then recovered_with now e (replies k) else e)
        s.incidents;
}

In-kept : {A : Type 0} (n : ℕ) (x : A) (xs : List A) → In x (take n xs) → In x xs
In-kept zero x xs i = absurd i
In-kept (suc n) x [] i = absurd i
In-kept (suc n) x (y ∷ ys) (inl e) = inl e
In-kept (suc n) x (y ∷ ys) (inr i) = inr (In-kept n x ys i)

has-key :
    (k : String) (ps : List (String × Entry))
    → has k (map (λ (p : String × Entry). p.0) ps) ≡ true
    → (e : Entry) × In (k, e) ps
has-key k [] h = ground (arith, h)
has-key k ((j, e) ∷ ps) h = elim (Bool-cases (str_eq j k)) [
  | inl s ↦ (e, inl (ap (λ i. (i, e)) (str_eq→eq j k s)))
  | inr s ↦ let (e', i) = has-key k ps (ground (arith, h, s)) in (e', inr i)
]

In-lookup : (k : String) (e : Entry) (d : Dict Entry) → IsDict d → In (k, e) d → lookup k d ≡ some e
In-lookup k e [] hd i = absurd i
In-lookup k e ((j, a) ∷ d) hd (inl s) =
    same (ap (λ (p : String × Entry). p.0) s) (ap (λ (p : String × Entry). p.1) s)
  where
    same : j ≡ k → a ≡ e → lookup k ((j, a) ∷ d) ≡ some e
    same x y = subst (λ i. lookup i ((j, a) ∷ d) ≡ some e) x (rw (str_eq_refl j) (ap some y))
In-lookup k e ((j, a) ∷ d) hd (inr i) = elim (Bool-cases (str_eq j k)) [
  | inl t ↦
      absurd (
        clash
          (sym (subst (λ x. lookup x d ≡ none) (str_eq→eq j k t) hd.0) ∙ In-lookup k e d hd.1 i))
  | inr t ↦ rw t (In-lookup k e d hd.1 i)
]
  where
    clash : none ≡ some e → ⊥
    clash n = ground (arith, n)

chosen-pending :
    (text_le : Option Stamp → Option Stamp → Bool) (limits : Limits) (now : ℕ) (d : Dict Entry)
    (k : String) (e : Entry)
    → IsDict d
    → lookup k d ≡ some e
    → has k (chosen text_le limits now d) ≡ true
    → is_pending limits now e ≡ true
unfolding chosen
chosen-pending text_le limits now d k e hd h c =
    let le : String × Entry → String × Entry → Bool =
      λ p q. text_le p.1.first_seen q.1.first_seen in
    let pend : String × Entry → Bool = λ p. is_pending limits now p.1 in
    let (e', i) = has-key k (take limits.max_sends (sorted le (filter pend d))) c in
    let (j, p) =
      In-filter pend (k, e') d
        (In-sorted le (k, e') (filter pend d)
          (In-kept limits.max_sends (k, e') (sorted le (filter pend d)) i)) in
    subst (λ x. is_pending limits now x ≡ true) (same_entry (sym (In-lookup k e' d hd j) ∙ h)) p
  where
    same_entry : {a : Entry} → some a ≡ some e → a ≡ e
    same_entry x = cc

lookup-send_opens :
    (text_le : Option Stamp → Option Stamp → Bool) (limits : Limits) (now : ℕ)
    (replies : String → Reply) (s : State) (k : String) (e : Entry)
    → lookup k s.incidents ≡ some e
    → lookup k (send_opens text_le limits now replies s).incidents
      ≡ some (
          if has k (chosen text_le limits now s.incidents)
          then opened_with now e (replies k)
          else e)
unfolding send_opens
lookup-send_opens text_le limits now replies s k e h =
    let keys = chosen text_le limits now s.incidents in
    let f : String → Entry → Entry =
      λ k e. if has k keys then opened_with now e (replies k) else e in
    lookup-map_values f k s.incidents ∙ ap (update (f k)) h

sent_or_same :
    (text_le : Option Stamp → Option Stamp → Bool) (limits : Limits) (now : ℕ)
    (replies : String → Reply) (s : State) (k : String) (e : Entry)
    → IsDict s.incidents
    → lookup k s.incidents ≡ some e
    → (lookup k (send_opens text_le limits now replies s).incidents ≡ some e)
      ⊎ ((is_pending limits now e ≡ true)
          × (lookup k (send_opens text_le limits now replies s).incidents
              ≡ some (opened_with now e (replies k))))
sent_or_same text_le limits now replies s k e hd h =
    elim (Bool-cases (has k (chosen text_le limits now s.incidents))) [
      | inl c ↦ inr (
        chosen-pending text_le limits now s.incidents k e hd h c,
        lookup-send_opens text_le limits now replies s k e h ∙ ap some (picked_one c),
      )
      | inr c ↦ inl (lookup-send_opens text_le limits now replies s k e h ∙ ap some (left_out c))
    ]
  where
    picked_one :
        has k (chosen text_le limits now s.incidents) ≡ true
        → (if has k (chosen text_le limits now s.incidents)
            then opened_with now e (replies k)
            else e)
          ≡ opened_with now e (replies k)
    picked_one c = rw c refl

    left_out :
        has k (chosen text_le limits now s.incidents) ≡ false
        → (if has k (chosen text_le limits now s.incidents)
            then opened_with now e (replies k)
            else e)
          ≡ e
    left_out c = rw c refl

-- What makes an entry worth a page: it is open, of one of the immediate classes, not paged before,
-- below the limit of attempts, and has lasted: there is no hold, or three red sweeps have seen it, or
-- the hold since it was first seen is over.
pub record MayPage (limits : Limits) (now : ℕ) (e : Entry) : Type 0 where
  pub live : e.resolved_at ≡ none
  pub class : String
  pub classed : e.carried.class ≡ some class
  pub at_once :
      has class (
        "failed-assertion" ∷ "missing-artifact" ∷ "incomplete-run" ∷ "malformed-receipt"
        ∷ "control-failure" ∷ "auth-expired" ∷ "blocked-next-action" ∷ "board-exception" ∷ [])
      ≡ true
  pub unpaged : e.notified_at ≡ none
  pub below : e.send_attempts < limits.max_attempts
  pub lasting :
      (limits.debounce.open_after ≡ 0)
      ⊎ (3 ≤ or_else e.red_streak 1)
      ⊎ (or_else (parse_time e.first_seen) now + limits.debounce.open_after ≤ now)

is_immediate-class :
    (o : Option String)
    → is_immediate o ≡ true
    → (c : String) × (o ≡ some c) × (has c immediate ≡ true)
is_immediate-class none h = cc
is_immediate-class (some c) h = (c, refl, h)

is_some-none : {A : Type 0} (o : Option A) → is_some o ≡ false → o ≡ none
is_some-none none h = refl
is_some-none (some a) h = cc

due_to_open-lasting :
    (e : Entry) (now : ℕ) (d : Debounce)
    → due_to_open e now d ≡ true
    → (d.open_after ≡ 0)
      ⊎ (3 ≤ or_else e.red_streak 1)
      ⊎ (or_else (parse_time e.first_seen) now + d.open_after ≤ now)
unfolding due_to_open
due_to_open-lasting e now d h = elim (Bool-cases (leb d.open_after 0)) [
  | inl a ↦ inl (ground (arith, a))
  | inr a ↦ elim (Bool-cases (leb 3 (or_else e.red_streak 1))) [
    | inl b ↦ inr (inl (ground (arith, b)))
    | inr b ↦ inr (inr (ground (arith, h, a, b)))
  ]
]

five_tests :
    (a b c d e : Bool)
    → (a && b && not c && d && e) ≡ true
    → (a ≡ true) × (b ≡ true) × (c ≡ false) × (d ≡ true) × (e ≡ true)
five_tests true true false true true h = (refl, refl, refl, refl, refl)
five_tests true true false true false h = cc
five_tests true true false false e h = cc
five_tests true true true d e h = cc
five_tests true false c d e h = cc
five_tests false b c d e h = cc

is_open-live : (e : Entry) → is_open e ≡ true → e.resolved_at ≡ none
is_open-live e h = is_some-none e.resolved_at (ground (arith, h))

is_pending-MayPage :
    (limits : Limits) (now : ℕ) (e : Entry) → is_pending limits now e ≡ true → MayPage limits now e
unfolding is_pending
is_pending-MayPage limits now e h =
    let (a, b, c, d, f) =
      five_tests (is_open e) (is_immediate e.carried.class) (is_some e.notified_at)
        (ltb e.send_attempts limits.max_attempts) (due_to_open e now limits.debounce) h in
    let (class, classed, at_once) = is_immediate-class e.carried.class b in
    record {
      live = is_open-live e a;
      class = class;
      classed = classed;
      at_once = at_once;
      unpaged = is_some-none e.notified_at c;
      below = below_limit e.send_attempts limits.max_attempts d;
      lasting = due_to_open-lasting e now limits.debounce f;
    }
  where
    below_limit : (m n : ℕ) → ltb m n ≡ true → m < n
    below_limit m n t = ground (arith, t)

-- Where no key stands twice, `send_opens` pages only for an entry that is open, of an immediate
-- class, not paged before, below the limit of attempts and lasting, and then marks it with what
-- the delivery showed, once; every other entry is as it was.
pub send_opens_pending :
    (text_le : Option Stamp → Option Stamp → Bool) (limits : Limits) (now : ℕ)
    (replies : String → Reply) (s : State) (k : String) (e : Entry)
    → IsDict s.incidents
    → lookup k s.incidents ≡ some e
    → (lookup k (send_opens text_le limits now replies s).incidents ≡ some e)
      ⊎ (MayPage limits now e
          × (lookup k (send_opens text_le limits now replies s).incidents
              ≡ some (opened_with now e (replies k))))
send_opens_pending text_le limits now replies s k e hd h =
    elim (sent_or_same text_le limits now replies s k e hd h) [
      | inl same ↦ inl same
      | inr (p, after) ↦ inr (is_pending-MayPage limits now e p, after)
    ]

opened_with-attempts :
    (limits : Limits) (now : ℕ) (e : Entry) (reply : Reply)
    → is_pending limits now e ≡ true
    → (opened_with now e reply).send_attempts ≤ limits.max_attempts
unfolding opened_with is_pending
opened_with-attempts limits now e (sent event channel) h = ground (arith, h)
opened_with-attempts limits now e (failed error) h = ground (arith, h)

-- Where no key stands twice, the pages of `send_opens` keep the attempts on an entry within their
-- limit. The recoveries, whose failures count in the same field, are not part of it.
pub send_opens_bounded :
    (text_le : Option Stamp → Option Stamp → Bool) (limits : Limits) (now : ℕ)
    (replies : String → Reply) (s : State) (k : String) (e : Entry)
    → IsDict s.incidents
    → lookup k s.incidents ≡ some e
    → e.send_attempts ≤ limits.max_attempts
    → (e' : Entry) × (lookup k (send_opens text_le limits now replies s).incidents ≡ some e')
      × (e'.send_attempts ≤ limits.max_attempts)
send_opens_bounded text_le limits now replies s k e hd h le =
    elim (sent_or_same text_le limits now replies s k e hd h) [
      | inl same ↦ (e, same, le)
      | inr (p, after) ↦
          (opened_with now e (replies k), after, opened_with-attempts limits now e (replies k) p)
    ]

lookup-send_recoveries :
    (now : ℕ) (replies : String → Reply) (s : State) (k : String) (e : Entry)
    → lookup k s.incidents ≡ some e
    → lookup k (send_recoveries now replies s).incidents
      ≡ some (if owes_recovery e then recovered_with now e (replies k) else e)
unfolding send_recoveries
lookup-send_recoveries now replies s k e h =
    let f : String → Entry → Entry =
      λ k e. if owes_recovery e then recovered_with now e (replies k) else e in
    lookup-map_values f k s.incidents ∙ ap (update (f k)) h

recovered_with-sent :
    (now : ℕ) (e : Entry) (event channel : Option String)
    → owes_recovery (recovered_with now e (sent event channel)) ≡ false
unfolding recovered_with iso_utc owes_recovery
recovered_with-sent now e event channel = ground arith

-- A recovery that is owed and that Buzz took is marked, and the recoveries of a sweep after it leave
-- the entry as it is, whatever the replies.
pub send_recoveries_once :
    (now now' : ℕ) (replies replies' : String → Reply) (s : State) (k : String) (e : Entry)
    (event channel : Option String)
    → lookup k s.incidents ≡ some e
    → owes_recovery e ≡ true
    → replies k ≡ sent event channel
    → (lookup k (send_recoveries now replies s).incidents
        ≡ some (recovered_with now e (sent event channel)))
      × (lookup k (send_recoveries now' replies' (send_recoveries now replies s)).incidents
          ≡ some (recovered_with now e (sent event channel)))
send_recoveries_once now now' replies replies' s k e event channel h o r =
    let first = lookup-send_recoveries now replies s k e h ∙ ap some announced in
    let e' = recovered_with now e (sent event channel) in
    (
      first,
      lookup-send_recoveries now' replies' (send_recoveries now replies s) k e' first
          ∙ ap some (quiet (replies' k)),
    )
  where
    announced :
        (if owes_recovery e then recovered_with now e (replies k) else e)
        ≡ recovered_with now e (sent event channel)
    announced = rw (o, r) refl

    quiet :
        (reply : Reply)
        → (if owes_recovery (recovered_with now e (sent event channel))
            then recovered_with now' (recovered_with now e (sent event channel)) reply
            else recovered_with now e (sent event channel))
          ≡ recovered_with now e (sent event channel)
    quiet reply = rw (recovered_with-sent now e event channel) refl
