-- ===== src/Broker/Implication.antt =====
-- bin/control_broker.py, `preview_implication`: what a resume would catch up on.
use hermes_agent_workforce_p.Prelude.{
  ℕ, ◌-◌, String, Bool, true, false, ◌&&◌, Option, none, some, List, [], ◌∷◌, any, if◌then◌else◌,
  ◌<>◌, ltb, min, max,
}
use hermes_agent_workforce_p.Broker.{value}
use hermes_agent_workforce_p.Broker.Machine.{
  Systemd, M, ◌>>=◌, lift, calendar, TimerView, UnitView, UnitImplication, Implication,
}
use hermes_agent_workforce_p.Broker.Units.{earliest, latest}

module _ {E : Type 0} (sys : Systemd E) where
  -- The elapse before `first`, as far before it as `second` is after it.
  abbrev pair_of : ℕ × ℕ → ℕ × ℕ
  pair_of (first, second) = (first, first - (second - first))

  abbrev merge : Option (ℕ × ℕ) → ℕ × ℕ → ℕ × ℕ
  merge none (n, p) = (n, p)
  merge (some (n', p')) (n, p) = (min n n', max p p')

  abbrev pub or_unknown : Option (ℕ × ℕ) → (ℕ × ℕ → M E (Option (ℕ × ℕ))) → M E (Option (ℕ × ℕ))
  or_unknown none f = lift (value none)
  or_unknown (some pair) f = f pair

  -- `_elapses`: the next and the previous elapse over the specifications; `none` is a `ValueError`.
  unfoldable pub elapses : Option (ℕ × ℕ) → List String → M E (Option (ℕ × ℕ))
  elapses found [] = lift (value found)
  elapses found (spec ∷ specs) = do
    es ← calendar sys spec
    or_unknown es (λ pair. elapses (some (merge found (pair_of pair))) specs)

  abbrev is_before : Option ℕ → ℕ → Bool
  is_before none p = false
  is_before (some t) p = ltb t p

  abbrev implied : UnitView → Bool → Option ℕ → Option (ℕ × ℕ) → UnitImplication
  implied u persistent stamp none = record {
    unit = u.unit;
    persistent = persistent;
    catch_up = none;
    last_trigger_at = stamp;
    missed_elapse_at = none;
    previous_elapse_at = none;
    next_elapse_at = none;
  }
  implied u persistent stamp (some (next, previous)) =
      let catch_up = persistent && is_before stamp previous in
      record {
        unit = u.unit;
        persistent = persistent;
        catch_up = some catch_up;
        last_trigger_at = stamp;
        missed_elapse_at = if catch_up then some previous else none;
        previous_elapse_at = some previous;
        next_elapse_at = some next;
      }

  abbrev persists : Option TimerView → Bool
  persists none = false
  persists (some t) = elim t.persistent [ none ↦ false | some b ↦ b ]

  abbrev calendars_of : Option TimerView → List String
  calendars_of none = []
  calendars_of (some t) = t.calendars

  abbrev pub with_stamp : UnitView → Option ℕ → M E UnitImplication
  with_stamp u stamp = do
    found ← elapses none (calendars_of u.timer)
    lift (value (implied u (persists u.timer) stamp found))

  -- `_unit_implication`, without its message and the path of the stamp
  unfoldable pub unit_implication : UnitView → M E UnitImplication
  unfolding elapses
  unit_implication u s = with_stamp u (sys.stamp u.scope (u.unit <> ".timer") s.machine) s

  abbrev pub unit_implications : List UnitView → M E (List UnitImplication)
  unit_implications [] = lift (value [])
  unit_implications (u ∷ us) =
      let rest = unit_implications us in
      do row ← unit_implication u; rows ← rest; lift (value (row ∷ rows))

-- Certain as soon as one is, unknown when one is not known, else no.
abbrev combined : List UnitImplication → Option Bool
combined [] = some false
combined (r ∷ rs) =
    let rest = combined rs in
    elim r.catch_up [
      | some true ↦ some true
      | some false ↦ rest
      | none ↦ elim rest [ some true ↦ some true | _ ↦ none ]
    ]

-- `missedElapseAt` of the first unit that catches up.
abbrev first_missed : List UnitImplication → Option ℕ
first_missed [] = none
first_missed (r ∷ rs) =
    let rest = first_missed rs in elim r.catch_up [ some true ↦ r.missed_elapse_at | _ ↦ rest ]

abbrev last_stamp : List UnitImplication → Option ℕ
last_stamp [] = none
last_stamp (r ∷ rs) = latest r.last_trigger_at (last_stamp rs)

abbrev first_next : List UnitImplication → Option ℕ
first_next [] = none
first_next (r ∷ rs) = earliest r.next_elapse_at (first_next rs)

abbrev is_persistent : UnitImplication → Bool
is_persistent r = r.persistent

unfoldable pub implication_of : List UnitImplication → Implication
implication_of rows = record {
  persistent = any is_persistent rows;
  catch_up = combined rows;
  last_trigger_at = last_stamp rows;
  missed_elapse_at = first_missed rows;
  next_elapse_at = first_next rows;
  units = rows;
}

-- `preview_implication`
unfoldable pub preview_implication : {E : Type 0} → Systemd E → List UnitView → M E Implication
unfolding implication_of unit_implication
preview_implication sys units = do
  rows ← unit_implications sys units
  lift (value (implication_of rows))
