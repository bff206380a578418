-- ===== src/Broker/Looks.antt =====
-- bin/control_broker.py: the waits, the lock and the reads of systemd only look, and end in time.
use hermes_agent_workforce_p.Prelude.{
  ℕ, zero, suc, ◌+◌, ◌*◌, ◌≤◌, arith, ◌≡◌, refl, sym, subst, String, Bool, false, Option, none,
  some, List, [], ◌∷◌, ◌++◌, leb, Bool-cases, inl, inr,
}
use hermes_agent_workforce_p.Prelude.Dict.{Dict}
use hermes_agent_workforce_p.Broker.{
  Answer, value, raised, Exception, command_failed, refusal, escaped, locked, Scope, Refusal,
}
use hermes_agent_workforce_p.Broker.Machine.{
  Systemd, Run, M, ◌>>=◌, continue, lift, show, calendar, Command, showed, mutated, elapsed, Note,
  Out, poll_until, after_poll, poll_for, state_left, settle_poll, lock_poll, await_stop,
  await_stop_phase, await_settle, enter_lock, holding_lock, released, releasing, or_locked,
  set_note, stop_noted, read_lines, phase_noted, loop_noted,
}
use hermes_agent_workforce_p.Broker.Keeps.{
  Kept, Owed, Pays, Holds, Meets, Meets->>=, Meets-value, Meets-lift, Meets-set,
}

-- A command that changes nothing of a unit.
unfoldable pub IsLook : Command → Type 0
IsLook (showed scope unit b) = Unit
IsLook (mutated scope verb unit b) = ⊥
IsLook (elapsed spec b) = Unit

-- The clock of the machine: calls do not turn it back, and a sleep lasts.
pub record Ticks {E : Type 0} (sys : Systemd E) : Type 0 where
  pub showing :
      (scope : Scope) (unit properties : String) (e : E)
      → sys.monotonic e ≤ sys.monotonic (sys.show scope unit properties e).1
  pub taking : (e : E) → sys.monotonic e ≤ sys.monotonic (sys.take_lock e).1
  pub sleeping : (ms : ℕ) (e : E) → sys.monotonic e + ms ≤ sys.monotonic (sys.sleep ms e)

-- Why a wait may be left: its fuel may run out, or time passes.
pub data Patience {E : Type 0} (sys : Systemd E) (P : Kept) (R : Owed) : Type 0 where
  careless : Pays P R escaped → Patience sys P R
  timely : Ticks sys → Patience sys P R

module _ {E : Type 0} (sys : Systemd E) where
  -- A poll that does not turn the clock back.
  unfoldable Slow : {A : Type 0} → M E A → Type 0
  Slow m = (s : Run E) → sys.monotonic s.machine ≤ sys.monotonic (m s).1.machine

-- The steps that only look: a predicate that looking keeps, and a note.
module _ {E : Type 0} (sys : Systemd E) (P : Kept) (R : Owed)
    (look : (cs : List Command) (o : Out) (c : Command) → IsLook c → P cs o → P (cs ++ (c ∷ [])) o)
    (noted : (cs : List Command) (o : Out) (n : Note) → P cs o → P cs (record o { note = some n }))
    (fails : Pays P R command_failed) (patience : Patience sys P R) where
  read_lines-Holds :
      (ls : Option (List String)) (s : Run E) → P s.commands s.out → Holds P P R (read_lines ls, s)
  unfolding Holds
  read_lines-Holds none s p = fails s.commands s.out p
  read_lines-Holds (some ls) s p = p

  pub show-Meets :
      (scope : Scope) (unit properties : String) → Meets P P R (show sys scope unit properties)
  unfolding Meets show IsLook
  show-Meets scope unit properties s p =
      read_lines-Holds (sys.show scope unit properties s.machine).0 _ (look s.commands s.out _ tt p)

  pub calendar-Meets : (spec : String) → Meets P P R (calendar sys spec)
  unfolding Meets Holds calendar IsLook
  calendar-Meets spec s p = look s.commands s.out _ tt p

  poll_on :
      {A : Type 0} (deadline pause : ℕ) (rest : M E (Option A)) (r : Answer (Option A) × Run E)
      → Holds P P R r
      → ((s : Run E)
          → s ≡ record r.1 { machine = sys.sleep pause r.1.machine }
          → leb deadline (sys.monotonic r.1.machine) ≡ false
          → P s.commands s.out
          → Holds P P R (rest s))
      → Holds P P R (continue r (after_poll sys deadline pause rest))
  unfolding Holds
  poll_on deadline pause rest (raised e, s) h k = h
  poll_on deadline pause rest (value (some a), s) h k = h
  poll_on deadline pause rest (value none, s) h k =
      elim (Bool-cases (leb deadline (sys.monotonic s.machine))) [
        | inl e ↦ rw e h
        | inr e ↦ rw e (k _ refl e h)
      ]

  -- The fuel of a wait on a clock that ticks.
  unfoldable Enough : Patience sys P R → ℕ → ℕ → ℕ → ℕ → Type 0
  Enough (careless d) fuel deadline pause clock = Unit
  Enough (timely t) zero deadline pause clock = ⊥
  Enough (timely t) (suc fuel) deadline pause clock = deadline ≤ clock + fuel * pause

  Enough-next :
      (q : Patience sys P R) (fuel deadline pause : ℕ) (a : ℕ) (e : E)
      → Enough q (suc fuel) deadline pause a
      → (Ticks sys → a ≤ sys.monotonic e)
      → leb deadline (sys.monotonic e) ≡ false
      → Enough q fuel deadline pause (sys.monotonic (sys.sleep pause e))
  unfolding Enough
  Enough-next (careless d) fuel deadline pause a e h slow late = tt
  Enough-next (timely t) zero deadline pause a e h slow late = ground (arith, h, slow t, late)
  Enough-next (timely t) (suc fuel) deadline pause a e h slow late =
      ground (arith, h, slow t, late, t.sleeping pause e)

  escaping :
      (A : Type 0) (deadline pause : ℕ) (q : Patience sys P R) (s : Run E)
      → P s.commands s.out
      → (clock : ℕ) → Enough q zero deadline pause clock
      → Holds P P R {A = A} (raised escaped, s)
  unfolding Holds Enough
  escaping A deadline pause (careless d) s p clock x = d s.commands s.out p
  escaping A deadline pause (timely t) s p clock x = absurd x

  Enough-first :
      (q : Patience sys P R) (fuel seconds pause clock : ℕ)
      → seconds * 1000 ≤ fuel * pause
      → Enough q (suc fuel) (clock + seconds * 1000) pause clock
  unfolding Enough
  Enough-first (careless d) fuel seconds pause clock h = tt
  Enough-first (timely t) fuel seconds pause clock h = ground (arith, h)

  poll_until-Meets :
      {A : Type 0} (fuel deadline pause : ℕ) (poll : M E (Option A))
      → Meets P P R poll
      → (Ticks sys → Slow sys poll)
      → (s : Run E) → P s.commands s.out
      → Enough patience fuel deadline pause (sys.monotonic s.machine)
      → Holds P P R (poll_until sys fuel deadline pause poll s)
  unfolding Meets Slow
  poll_until-Meets {A} zero deadline pause poll h slow s p enough =
      escaping (Option A) deadline pause patience s p (sys.monotonic s.machine) enough
  poll_until-Meets (suc fuel) deadline pause poll h slow s p enough =
      poll_on deadline pause _ (poll s) (h s p) (λ s' e late p'.
        poll_until-Meets fuel deadline pause poll h slow s' p' (
          subst (λ u. Enough patience fuel deadline pause (sys.monotonic u.machine)) (sym e)
            (Enough-next patience fuel deadline pause (sys.monotonic s.machine) (poll s).1.machine
              enough (λ t. slow t s) late)))

  -- A wait of some seconds has fuel enough when its pauses add up to them.
  poll_for-Meets :
      {A : Type 0} (fuel seconds pause : ℕ) (poll : M E (Option A))
      → seconds * 1000 ≤ fuel * pause
      → Meets P P R poll
      → (Ticks sys → Slow sys poll)
      → Meets P P R (poll_for sys (suc fuel) seconds pause poll)
  unfolding Meets
  poll_for-Meets fuel seconds pause poll long h slow s p =
      poll_until-Meets (suc fuel) _ pause poll h slow s p
        (Enough-first patience fuel seconds pause _ long)

  continue-kept :
      {A B : Type 0} (r : Answer A × Run E) (f : A → Answer B)
      → (continue r (λ a. lift (f a))).1 ≡ r.1
  continue-kept (value a, s) f = refl
  continue-kept (raised e, s) f = refl

  machine-show :
      (scope : Scope) (unit properties : String) (s : Run E)
      → (show sys scope unit properties s).1.machine ≡ (sys.show scope unit properties s.machine).1
  unfolding show
  machine-show scope unit properties s = refl

  show-Slow :
      {A : Type 0} (scope : Scope) (unit properties : String) (f : Dict String → Answer A)
      → Ticks sys
      → Slow sys (show sys scope unit properties >>= λ values. lift (f values))
  unfolding Slow
  show-Slow scope unit properties f t s =
      subst (λ u. sys.monotonic s.machine ≤ sys.monotonic u.machine)
        (sym (continue-kept (show sys scope unit properties s) f))
        (subst (λ e. sys.monotonic s.machine ≤ sys.monotonic e)
          (sym (machine-show scope unit properties s)) (t.showing scope unit properties s.machine))

  state_left-Slow :
      (waiting : String → Bool) (scope : Scope) (unit : String)
      → Ticks sys
      → Slow sys (state_left sys waiting scope unit)
  state_left-Slow waiting scope unit = show-Slow scope unit _ _

  settle_poll-Slow :
      (scope : Scope) (unit : String) → Ticks sys → Slow sys (settle_poll sys scope unit)
  settle_poll-Slow scope unit = show-Slow scope unit _ _

  state_left-Meets :
      (waiting : String → Bool) (scope : Scope) (unit : String)
      → Meets P P R (state_left sys waiting scope unit)
  state_left-Meets waiting scope unit =
      Meets->>= P P P R _ _ (show-Meets scope unit _) (λ values. Meets-value E P R _)

  set_note-Meets : (n : Note) → Meets P P R (set_note sys n)
  set_note-Meets n = Meets-set E P R P _ (λ cs o. noted cs o n)

  stop_noted-Meets : (left : Option (Unit {0})) → Meets P P R (stop_noted sys left)
  stop_noted-Meets none = set_note-Meets _
  stop_noted-Meets (some u) = Meets-value E P R _

  pub await_stop-Meets : (scope : Scope) (unit : String) → Meets P P R (await_stop sys scope unit)
  unfolding await_stop
  await_stop-Meets scope unit =
      Meets->>= P P P R _ _
        (poll_for-Meets 15 15 1000 _ (omega arith) (state_left-Meets _ scope unit)
          (state_left-Slow _ scope unit))
        stop_noted-Meets

  phase_noted-Meets : (left : Option (Unit {0})) → Meets P P R (phase_noted sys left)
  phase_noted-Meets none = Meets->>= P P P R _ _ (set_note-Meets _) (λ u. Meets-value E P R false)
  phase_noted-Meets (some u) = Meets-value E P R _

  pub await_stop_phase-Meets :
      (scope : Scope) (unit : String) → Meets P P R (await_stop_phase sys scope unit)
  unfolding await_stop_phase
  await_stop_phase-Meets scope unit =
      Meets->>= P P P R _ _
        (poll_for-Meets 15 15 1000 _ (omega arith) (state_left-Meets _ scope unit)
          (state_left-Slow _ scope unit))
        phase_noted-Meets

  loop_noted-Meets : (loop : Option (Unit {0})) → Meets P P R (loop_noted sys loop)
  loop_noted-Meets none = Meets-value E P R _
  loop_noted-Meets (some u) = set_note-Meets _

  settle_poll-Meets : (scope : Scope) (unit : String) → Meets P P R (settle_poll sys scope unit)
  settle_poll-Meets scope unit =
      Meets->>= P P P R _ _ (show-Meets scope unit _) (λ values. Meets-value E P R _)

  pub await_settle-Meets :
      (scope : Scope) (unit : String) (seconds : ℕ)
      → Meets P P R (await_settle sys scope unit seconds)
  unfolding await_settle
  await_settle-Meets scope unit seconds =
      Meets->>= P P P R _ _
        (poll_for-Meets seconds seconds 1000 _ (omega arith) (settle_poll-Meets scope unit)
          (settle_poll-Slow scope unit))
        loop_noted-Meets

  lock_poll-Meets : Meets P P R (lock_poll sys)
  unfolding Meets Holds
  lock_poll-Meets s p = p

  lock_poll-Slow : Ticks sys → Slow sys (lock_poll sys)
  unfolding Slow
  lock_poll-Slow t s = t.taking s.machine

  abbrev the_raised : Exception → Answer (Unit {0})
  the_raised e = raised e

  raised-eq : (e e' : Exception) → the_raised e ≡ raised e' → e ≡ e'
  raised-eq e e' h = cc

  or_locked-Pays :
      ((r : Refusal) → Pays P R (refusal r))
      → (taken : Option (Unit {0})) (e : Exception) → or_locked sys taken ≡ raised e
      → Pays P R e
  or_locked-Pays d none e h =
      subst (Pays P R) (raised-eq _ e h) (d (record { code = locked; choices = none }))
  or_locked-Pays d (some u) e h = cc

  enter_lock-Meets : ((r : Refusal) → Pays P R (refusal r)) → Meets P P R (enter_lock sys)
  unfolding enter_lock
  enter_lock-Meets d =
      Meets->>= P P P R _ _
        (poll_for-Meets 150 30 200 _ (omega arith) lock_poll-Meets lock_poll-Slow)
        (λ taken. Meets-lift E P R (or_locked sys taken) (or_locked-Pays d taken))

  released-Holds :
      {A : Type 0} (Q : Kept) (r : Answer A × Run E) → Holds P Q R r → Holds P Q R (released sys r)
  unfolding Holds
  released-Holds Q (value a, s) q = q
  released-Holds Q (raised e, s) q = q

  releasing-Meets :
      {A : Type 0} (Q : Kept) (m : M E A) → Meets P Q R m → Meets P Q R (releasing sys m)
  unfolding Meets
  releasing-Meets Q m h s p = released-Holds Q (m s) (h s p)

  pub holding_lock-Meets :
      {A : Type 0} (Q : Kept) (m : M E A)
      → ((r : Refusal) → Pays P R (refusal r))
      → Meets P Q R m
      → Meets P Q R (holding_lock sys m)
  holding_lock-Meets Q m d h =
      Meets->>= P P Q R _ _ (enter_lock-Meets d) (λ u. releasing-Meets Q m h)
