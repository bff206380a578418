-- ===== src/Incident/Reconcile.antt =====
-- bin/incident_state.py, `reconcile`, one key at a time.
use hermes_agent_workforce_p.Prelude.{
  ℕ, ◌≡◌, refl, String, Bool, true, false, not, ◌&&◌, ◌||◌, Option, none, some, List, [], ◌∷◌, map,
  ap, ◌∙◌, arith, if◌then◌else◌, has, str_eq, str_eq-cases, inl, inr, Option-cases, Bool-cases,
}
use hermes_agent_workforce_p.Prelude.Dict.{
  Dict, lookup, insert, update, IsDict, holds, lookup-insert, lookup-map_values, insert-IsDict,
  map_values-IsDict,
}
use hermes_agent_workforce_p.Stamp.{iso_utc}
use hermes_agent_workforce_p.Incident.{
  Item, Debounce, Entry, State, new_entry, update_entry, green_entry, is_hold_over, held_green,
  is_open, Pass, observe, observe_all, sweep_entry, closed_keys, reconcile,
}

-- What an observation does to the entry of its own key: a missing or a resolved one is opened
-- anew, an open one is updated.
abbrev pub observe_entry : ℕ → Item → Option Entry → Entry
observe_entry now item none = new_entry item now
observe_entry now item (some e) = if is_open e then update_entry e item now else new_entry item now

-- The observations of one key, in order.
abbrev pub observe_key : ℕ → String → List Item → Option Entry → Option Entry
observe_key now k [] o = o
observe_key now k (item ∷ items) o =
    observe_key now k items (if str_eq item.key k then some (observe_entry now item o) else o)

-- A green sweep of one entry: an open one is held, and resolved once its hold is over.
abbrev pub green_step : ℕ → Debounce → Entry → Entry
green_step now debounce e =
    if is_open e
    then (if is_hold_over (green_entry e now) now debounce
        then record (green_entry e now) { resolved_at = some (iso_utc now) }
        else green_entry e now)
    else e

abbrev pub item_keys : List Item → List String
item_keys items = map (λ i. i.key) items

-- The whole sweep on one key.
abbrev pub reconcile_key : ℕ → Bool → Debounce → String → List Item → Option Entry → Option Entry
reconcile_key now sources_ok debounce k items o =
    if sources_ok && not (has k (item_keys items))
    then update (green_step now debounce) o
    else observe_key now k items o

observe-incidents :
    (now : ℕ) (item : Item) (p : Pass)
    → (observe now p item).incidents
      ≡ insert item.key (observe_entry now item (lookup item.key p.incidents)) p.incidents
unfolding observe
observe-incidents now item p = elim (Option-cases (lookup item.key p.incidents)) [
  | inl e ↦ rw (e, observe)
  | inr (entry, e) ↦ elim (Bool-cases (is_open entry)) [
    | inl live ↦ rw (e, observe, live)
    | inr resolved ↦ rw (e, observe, resolved)
  ]
]

lookup-observe :
    (now : ℕ) (k : String) (item : Item) (p : Pass)
    → lookup k (observe now p item).incidents ≡ (
        if str_eq item.key k
        then some (observe_entry now item (lookup k p.incidents))
        else lookup k p.incidents)
lookup-observe now k item p = elim (str_eq-cases item.key k) [
  | inl (same, e) ↦ rw (observe-incidents, lookup-insert, e, same)
  | inr (other, e) ↦ rw (observe-incidents, lookup-insert, e)
]

lookup-observe_all :
    (now : ℕ) (k : String) (items : List Item) (p : Pass)
    → lookup k (observe_all now p items).incidents ≡ observe_key now k items (lookup k p.incidents)
unfolding observe_all
lookup-observe_all now k [] p = refl
lookup-observe_all now k (item ∷ items) p =
    lookup-observe_all now k items (observe now p item)
    ∙ ap (observe_key now k items) (lookup-observe now k item p)

has-seen_observe :
    (now : ℕ) (k : String) (item : Item) (p : Pass)
    → has k (observe now p item).seen ≡ (str_eq item.key k || has k p.seen)
unfolding observe
has-seen_observe now k item p = ground arith

has-seen :
    (now : ℕ) (k : String) (items : List Item) (p : Pass)
    → has k (observe_all now p items).seen ≡ (has k (item_keys items) || has k p.seen)
unfolding observe_all
has-seen now k [] p = refl
has-seen now k (item ∷ items) p =
    ground (arith, has-seen now k items (observe now p item), has-seen_observe now k item p)

-- A key that no observation names is left alone.
pub observe_key-unseen :
    (now : ℕ) (k : String) (items : List Item) (o : Option Entry)
    → has k (item_keys items) ≡ false
    → observe_key now k items o ≡ o
observe_key-unseen now k [] o h = refl
observe_key-unseen now k (item ∷ items) o h = ground (arith, observe_key-unseen now k items o)

sweep_entry-unseen :
    (now : ℕ) (db : Debounce) (seen : List String) (k : String) (e : Entry)
    → sweep_entry now db seen k e ≡ (if has k seen then e else green_step now db e)
unfolding sweep_entry held_green
sweep_entry-unseen now db seen k e = ground arith

update_observed :
    (now : ℕ) (db : Debounce) (seen : List String) (k : String) (o : Option Entry)
    → update (sweep_entry now db seen k) o
      ≡ (if has k seen then o else update (green_step now db) o)
update_observed now db seen k none = ground arith
update_observed now db seen k (some e) = ground (arith, sweep_entry-unseen now db seen k e)

-- Each key of the new state is decided by that key's own old entry and its own observations: they
-- open or update it; without any, a sweep with all its sources holds or resolves it, and a
-- degraded one leaves it alone.
pub lookup-reconcile :
    (k : String) (s : State) (items : List Item) (now : ℕ) (sources_ok : Bool) (db : Debounce)
    → lookup k (reconcile s items now sources_ok db).0.incidents
      ≡ reconcile_key now sources_ok db k items (lookup k s.incidents)
unfolding reconcile
lookup-reconcile k s items now sources_ok db =
    let start : Pass = record { incidents = s.incidents; opened = []; updated = []; seen = [] } in
    let p : Pass = observe_all now start items in
    ground (
      arith,
      lookup-map_values (sweep_entry now db p.seen) k p.incidents,
      lookup-observe_all now k items start,
      has-seen now k items start,
      observe_key-unseen now k items (lookup k s.incidents),
      update_observed now db p.seen k (lookup k p.incidents),
    )

observe_all-IsDict :
    (now : ℕ) (items : List Item) (p : Pass)
    → IsDict p.incidents
    → IsDict (observe_all now p items).incidents
unfolding observe_all
observe_all-IsDict now [] p h = h
observe_all-IsDict now (item ∷ items) p h =
    observe_all-IsDict now items (observe now p item)
      (rw (observe-incidents now item p) (insert-IsDict item.key _ p.incidents h))

-- The entries stay keyed: where each key has one entry before a sweep, each has one after it.
reconcile-IsDict :
    (s : State) (items : List Item) (now : ℕ) (sources_ok : Bool) (db : Debounce)
    → IsDict s.incidents
    → IsDict (reconcile s items now sources_ok db).0.incidents
unfolding reconcile
reconcile-IsDict s items now sources_ok db h =
    let start : Pass = record { incidents = s.incidents; opened = []; updated = []; seen = [] } in
    let p : Pass = observe_all now start items in
    let kept : IsDict p.incidents = observe_all-IsDict now items start h in
    elim (Bool-cases sources_ok) [
      | inl e ↦ rw e (map_values-IsDict (sweep_entry now db p.seen) p.incidents kept)
      | inr e ↦ rw e kept
    ]

-- The keys that the second loop closes, by the entry that it meets.
abbrev pub closes : ℕ → Debounce → Entry → Bool
closes now db e = is_open e && is_hold_over (green_entry e now) now db

has-closed_keys :
    (now : ℕ) (db : Debounce) (seen : List String) (k : String) (d : Dict Entry)
    → IsDict d
    → has k (closed_keys now db seen d) ≡ (not (has k seen) && holds (closes now db) (lookup k d))
unfolding closed_keys held_green
has-closed_keys now db seen k [] h = ground arith
has-closed_keys now db seen k ((j, e) ∷ d) h =
    ground (arith, str_eq-cases j k, has-closed_keys now db seen k d h.1)

-- `closed` names a key exactly when its sources could be read, no observation named it, and its
-- open entry's hold is over.
pub has-closed :
    (k : String) (s : State) (items : List Item) (now : ℕ) (sources_ok : Bool) (db : Debounce)
    → IsDict s.incidents
    → has k (reconcile s items now sources_ok db).1.closed ≡ (
        sources_ok
        && (not (has k (item_keys items)) && holds (closes now db) (lookup k s.incidents)))
unfolding reconcile
has-closed k s items now sources_ok db h =
    let start : Pass = record { incidents = s.incidents; opened = []; updated = []; seen = [] } in
    let p : Pass = observe_all now start items in
    ground (
      arith,
      has-closed_keys now db p.seen k p.incidents (observe_all-IsDict now items start h),
      lookup-observe_all now k items start,
      has-seen now k items start,
      observe_key-unseen now k items (lookup k s.incidents),
    )

new_entry-open : (item : Item) (now : ℕ) → is_open (new_entry item now) ≡ true
unfolding new_entry
new_entry-open item now = refl

update_entry-open :
    (e : Entry) (item : Item) (now : ℕ) → is_open (update_entry e item now) ≡ is_open e
unfolding update_entry
update_entry-open e item now = refl

observe_entry-open :
    (now : ℕ) (item : Item) (o : Option Entry) → is_open (observe_entry now item o) ≡ true
observe_entry-open now item none = new_entry-open item now
observe_entry-open now item (some e) =
    ground (arith, new_entry-open item now, update_entry-open e item now)

observe_key-open :
    (now : ℕ) (k : String) (items : List Item) (o : Option Entry)
    → holds is_open o ≡ true
    → holds is_open (observe_key now k items o) ≡ true
observe_key-open now k [] o h = h
observe_key-open now k (item ∷ items) o h =
    observe_key-open now k items _ (ground (arith, observe_entry-open now item o))

observe_key-seen_open :
    (now : ℕ) (k : String) (items : List Item) (o : Option Entry)
    → has k (item_keys items) ≡ true
    → holds is_open (observe_key now k items o) ≡ true
observe_key-seen_open now k [] o h = cc
observe_key-seen_open now k (item ∷ items) o h = elim (Bool-cases (str_eq item.key k)) [
  | inl e ↦ rw e (observe_key-open now k items _ (observe_entry-open now item o))
  | inr e ↦ rw e (observe_key-seen_open now k items o (ground arith))
]

-- Every key that a sweep observes red has an open entry after it, whatever was there before and
-- whether or not the sources were complete.
pub reconcile-seen_open :
    (k : String) (s : State) (items : List Item) (now : ℕ) (sources_ok : Bool) (db : Debounce)
    → has k (item_keys items) ≡ true
    → holds is_open (lookup k (reconcile s items now sources_ok db).0.incidents) ≡ true
reconcile-seen_open k s items now sources_ok db h = ground (
  arith,
  lookup-reconcile k s items now sources_ok db,
  observe_key-seen_open now k items (lookup k s.incidents),
)

reconcile_degraded_closed :
    (s : State) (items : List Item) (now : ℕ) (db : Debounce)
    → (reconcile s items now false db).1.closed ≡ []
unfolding reconcile
reconcile_degraded_closed s items now db = refl

-- A degraded sweep closes nothing: `closed` is empty, an entry that is open stays open, and one
-- that is not observed is unchanged.
pub reconcile_degraded :
    (k : String) (s : State) (items : List Item) (now : ℕ) (db : Debounce)
    → let (s', t) = reconcile s items now false db in
      (t.closed ≡ [])
      × (holds is_open (lookup k s.incidents) ≡ true → holds is_open (lookup k s'.incidents) ≡ true)
      × (has k (item_keys items) ≡ false → lookup k s'.incidents ≡ lookup k s.incidents)
reconcile_degraded k s items now db = (
  reconcile_degraded_closed s items now db,
  λ h. rw (lookup-reconcile k s items now false db) (observe_key-open now k items _ h),
  λ h. lookup-reconcile k s items now false db ∙ observe_key-unseen now k items _ h,
)
