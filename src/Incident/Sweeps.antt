-- ===== src/Incident/Sweeps.antt =====
-- bin/incident_state.py over many sweeps: the debounce of a flapping verdict.
use hermes_agent_workforce_p.Prelude.{
  ℕ, ◌+◌, ◌≤◌, ◌<◌, ◌≡◌, refl, String, Bool, true, false, not, ◌&&◌, Option, none, some, List, [],
  ◌∷◌, ◌∙◌, ap, arith, if◌then◌else◌, has, or_else, is_some, length, str_eq, inl, inr, ◌⊎◌,
  Bool-cases, All,
}
use hermes_agent_workforce_p.Prelude.Dict.{lookup}
use hermes_agent_workforce_p.Stamp.{Stamp, iso_utc, parse_time}
use hermes_agent_workforce_p.Incident.{
  Item, Debounce, Entry, State, update_entry, green_entry, is_hold_over, is_open, reconcile,
  streak_limit,
}
use hermes_agent_workforce_p.Incident.Reconcile.{
  observe_key, observe_key-unseen, green_step, item_keys, lookup-reconcile,
}

pub record Sweep : Type 0 where
  pub items : List Item
  pub now : ℕ
  pub sources_ok : Bool

abbrev pub sweep : Debounce → State → Sweep → State
sweep db s w = (reconcile s w.items w.now w.sources_ok db).0

abbrev pub sweeps : Debounce → State → List Sweep → State
sweeps db s [] = s
sweeps db s (w ∷ ws) = sweeps db (sweep db s w) ws

abbrev pub reds : String → Sweep → Bool
reds k w = has k (item_keys w.items)

-- A sweep that can close `k`: it saw all its sources and `k` in none.
abbrev pub greens : String → Sweep → Bool
greens k w = w.sources_ok && not (reds k w)

abbrev pub stamped : Option ℕ → Option Stamp
stamped none = none
stamped (some t) = some (iso_utc t)

-- The entry is open, with that many green sweeps behind it, the first of them at that time.
abbrev pub Held : Entry → ℕ → Option ℕ → Type 0
Held e n since =
    (e.resolved_at ≡ none) × (or_else e.green_streak 0 ≡ n) × (e.green_since ≡ stamped since)

-- What a page and a recovery hang on.
abbrev pub SameIncident : Entry → Entry → Type 0
SameIncident e e' =
    (e'.first_seen ≡ e.first_seen)
    × (e'.notified_at ≡ e.notified_at)
    × (e'.send_attempts ≡ e.send_attempts)

-- The greens never last: each comes before the third in a row and within the hold. A red sweep
-- starts the count again, and a degraded one leaves it.
abbrev pub Flaps : String → Debounce → ℕ → Option ℕ → List Sweep → Type 0
Flaps k db n since [] = Unit
Flaps k db n since (w ∷ ws) =
    if reds k w
    then Flaps k db 0 none ws
    else (if w.sources_ok
        then (n + 1 < streak_limit)
          × (w.now < or_else since w.now + db.recover_after)
          × Flaps k db (n + 1) (some (or_else since w.now)) ws
        else Flaps k db n since ws)

is_open_of : (e : Entry) → e.resolved_at ≡ none → is_open e ≡ true
is_open_of e h = ap (λ (o : Option Stamp). not (is_some o)) h

module _ (k : String) where
  abbrev Continues : Entry → ℕ → Option ℕ → Option Entry → Type 0
  Continues e n since o = (e' : Entry) × (o ≡ some e') × Held e' n since × SameIncident e e'

  update_entry-Held :
      (e : Entry) (item : Item) (now : ℕ)
      → e.resolved_at ≡ none
      → Held (update_entry e item now) 0 none × SameIncident e (update_entry e item now)
  unfolding update_entry
  update_entry-Held e item now open_e = ground arith

  observe_key-Held :
      (now : ℕ) (items : List Item) (e0 e : Entry)
      → Held e 0 none
      → SameIncident e0 e
      → Continues e0 0 none (observe_key now k items (some e))
  observe_key-Held now [] e0 e h s = (e, refl, h, s)
  observe_key-Held now (item ∷ items) e0 e h s = elim (Bool-cases (str_eq item.key k)) [
    | inl m ↦
        let u = update_entry-Held e item now h.0 in
        rw (m, is_open_of e h.0)
          (observe_key-Held now items e0 (update_entry e item now) u.0 (ground arith))
    | inr m ↦ rw m (observe_key-Held now items e0 e h s)
  ]

  -- A red sweep ends the green run.
  observe_key-red :
      (now : ℕ) (items : List Item) (e : Entry)
      → has k (item_keys items) ≡ true
      → e.resolved_at ≡ none
      → Continues e 0 none (observe_key now k items (some e))
  observe_key-red now [] e h open_e = cc
  observe_key-red now (item ∷ items) e h open_e = elim (Bool-cases (str_eq item.key k)) [
    | inl m ↦
        let u = update_entry-Held e item now open_e in
        rw (m, is_open_of e open_e) (observe_key-Held now items e (update_entry e item now) u.0 u.1)
    | inr m ↦ rw m (observe_key-red now items e (ground arith) open_e)
  ]

  green_entry-Held :
      (e : Entry) (n : ℕ) (since : Option ℕ) (now : ℕ)
      → Held e n since
      → Held (green_entry e now) (n + 1) (some (or_else since now))
        × SameIncident e (green_entry e now)
  unfolding green_entry iso_utc
  green_entry-Held e n none now h = ground arith
  green_entry-Held e n (some t) now h = ground arith

  -- While the hold runs, a green sweep keeps the entry open.
  hold-runs :
      (e : Entry) (n since now : ℕ) (db : Debounce)
      → Held e n (some since)
      → n < streak_limit
      → now < since + db.recover_after
      → is_hold_over e now db ≡ false
  unfolding is_hold_over parse_time iso_utc
  hold-runs e n since now db h few soon = ground arith

  green_step-runs :
      (e : Entry) (n : ℕ) (since : Option ℕ) (now : ℕ) (db : Debounce)
      → Held e n since
      → n + 1 < streak_limit
      → now < or_else since now + db.recover_after
      → green_step now db e ≡ green_entry e now
  green_step-runs e n since now db h few soon =
      let g = green_entry-Held e n since now h in
      rw (
        is_open_of e h.0,
        hold-runs (green_entry e now) (n + 1) (or_else since now) now db g.0 few soon,
      )

  -- One sweep of a flapping verdict.
  reconcile_key-green :
      (w : Sweep) (db : Debounce) (e : Entry) (n : ℕ) (since : Option ℕ)
      → Held e n since
      → n + 1 < streak_limit
      → w.now < or_else since w.now + db.recover_after
      → Continues e (n + 1) (some (or_else since w.now)) (some (green_step w.now db e))
  reconcile_key-green w db e n since h few soon =
      let g = green_entry-Held e n since w.now h in
      (green_entry e w.now, ap some (green_step-runs e n since w.now db h few soon), g.0, g.1)

  lookup-sweep :
      (s : State) (w : Sweep) (db : Debounce) (e : Entry)
      → lookup k s.incidents ≡ some e
      → lookup k (sweep db s w).incidents ≡ (
          if reds k w
          then observe_key w.now k w.items (some e)
          else if w.sources_ok
          then some (green_step w.now db e)
          else some e)
  lookup-sweep s w db e l = ground (
    arith,
    lookup-reconcile k s w.items w.now w.sources_ok db,
    observe_key-unseen w.now k w.items (some e),
  )

  lookup-sweep_green :
      (s : State) (w : Sweep) (db : Debounce) (e : Entry)
      → lookup k s.incidents ≡ some e
      → reds k w ≡ false
      → w.sources_ok ≡ true
      → lookup k (sweep db s w).incidents ≡ some (green_step w.now db e)
  lookup-sweep_green s w db e l calm whole = lookup-sweep s w db e l ∙ rw (calm, whole)

-- While its greens never last, a verdict stays one open incident over any number of calls of
-- `reconcile`: it is never resolved, and they leave `first_seen`, `notified_at` and `send_attempts`
-- as they were. What is sent between two calls is not part of it.
pub sweeps-flapping :
    (k : String) (db : Debounce) (s : State) (ws : List Sweep) (e : Entry) (n : ℕ)
    (since : Option ℕ)
    → lookup k s.incidents ≡ some e
    → Held e n since
    → Flaps k db n since ws
    → (e' : Entry) × (lookup k (sweeps db s ws).incidents ≡ some e')
      × (e'.resolved_at ≡ none)
      × SameIncident e e'
sweeps-flapping k db s [] e n since l h f = (e, l, h.0, (refl, refl, refl))
sweeps-flapping k db s (w ∷ ws) e n since l h f = elim (Bool-cases (reds k w)) [
  | inl red ↦
      let (e1, l1, h1, s1) = observe_key-red k w.now w.items e red h.0 in
      let next : lookup k (sweep db s w).incidents ≡ some e1 =
        lookup-sweep k s w db e l ∙ rw red l1 in
      let (e2, l2, o2, s2) =
        sweeps-flapping k db (sweep db s w) ws e1 0 none next h1 (rw red at f) in
      (e2, l2, o2, ground arith)
  | inr calm ↦ elim (Bool-cases w.sources_ok) [
    | inl whole ↦
        let f' : (n + 1 < streak_limit)
            × (w.now < or_else since w.now + db.recover_after)
            × Flaps k db (n + 1) (some (or_else since w.now)) ws =
          rw (calm, whole) at f in
        let (e1, l1, h1, s1) = reconcile_key-green k w db e n since h f'.0 f'.1 in
        let next : lookup k (sweep db s w).incidents ≡ some e1 =
          lookup-sweep_green k s w db e l calm whole ∙ l1 in
        let (e2, l2, o2, s2) =
          sweeps-flapping k db (sweep db s w) ws e1 (n + 1) (some (or_else since w.now)) next h1
            f'.2 in
        (e2, l2, o2, ground arith)
    | inr degraded ↦
        let next : lookup k (sweep db s w).incidents ≡ some e =
          lookup-sweep k s w db e l ∙ rw (calm, degraded) in
        sweeps-flapping k db (sweep db s w) ws e n since next h (rw (calm, degraded) at f)
  ]
]

-- A resolved entry stays as it is while no sweep names it.
green_sweeps-resolved :
    (k : String) (db : Debounce) (s : State) (ws : List Sweep) (e : Entry)
    → lookup k s.incidents ≡ some e
    → is_open e ≡ false
    → All (λ w. greens k w ≡ true) ws
    → lookup k (sweeps db s ws).incidents ≡ some e
green_sweeps-resolved k db s [] e l h g = l
green_sweeps-resolved k db s (w ∷ ws) e l h g =
    let next : lookup k (sweep db s w).incidents ≡ some e =
      lookup-sweep_green k s w db e l (ground arith) (ground arith) ∙ rw h in
    green_sweeps-resolved k db (sweep db s w) ws e next h g.1

-- The third green sweep resolves, however long the hold.
green_step-limit :
    (e : Entry) (n now : ℕ) (db : Debounce)
    → is_open e ≡ true
    → or_else e.green_streak 0 ≡ n
    → streak_limit ≤ n + 1
    → is_open (green_step now db e) ≡ false
unfolding green_entry is_hold_over
green_step-limit e n now db o h many = ground arith

green_step-cases :
    (e : Entry) (now : ℕ) (db : Debounce)
    → is_open e ≡ true
    → (is_open (green_step now db e) ≡ false)
      ⊎ ((is_open (green_step now db e) ≡ true)
          × (or_else (green_step now db e).green_streak 0 ≡ or_else e.green_streak 0 + 1))
unfolding green_entry
green_step-cases e now db o = ground arith

-- Recovery: after three green sweeps in a row (fewer if some lie behind), the incident is
-- resolved, however long the hold and however the sweeps are spaced.
pub sweeps-recover :
    (k : String) (db : Debounce) (s : State) (ws : List Sweep) (e : Entry)
    → lookup k s.incidents ≡ some e
    → is_open e ≡ true
    → All (λ w. greens k w ≡ true) ws
    → streak_limit ≤ or_else e.green_streak 0 + length ws
    → 0 < length ws
    → (e' : Entry) × (lookup k (sweeps db s ws).incidents ≡ some e') × (is_open e' ≡ false)
sweeps-recover k db s [] e l o g enough some_sweep = absurd (omega arith)
sweeps-recover k db s (w ∷ []) e l o g enough some_sweep = (
  green_step w.now db e,
  lookup-sweep_green k s w db e l (ground arith) (ground arith),
  green_step-limit e (or_else e.green_streak 0) w.now db o refl (omega arith),
)
sweeps-recover k db s (w ∷ v ∷ ws) e l o g enough some_sweep =
    let e1 = green_step w.now db e in
    let next : lookup k (sweep db s w).incidents ≡ some e1 =
      lookup-sweep_green k s w db e l (ground arith) (ground arith) in
    elim (green_step-cases e w.now db o) [
      | inl resolved ↦
          (e1, green_sweeps-resolved k db (sweep db s w) (v ∷ ws) e1 next resolved g.1, resolved)
      | inr (live, count) ↦
          sweeps-recover k db (sweep db s w) (v ∷ ws) e1 next live g.1 (omega arith) (omega arith)
    ]
