-- ===== src/Broker/Permitted.antt =====
-- bin/control_broker.py: which steps a request may take on the entry of its id, and that the plans
-- take no others.
use hermes_agent_workforce_p.Prelude.{
  ℕ, arith, ◌≡◌, refl, subst, String, Bool, true, false, not, ◌||◌, Option, none, some, List, [],
  ◌∷◌, map, str_eq, str_eq-cases, has, ◌<>◌, All, In, ◌⊎◌, inl, inr, any,
}
use hermes_agent_workforce_p.Broker.{
  Answer, value, value_before, demand, demand-value, Action, pause, resume, run_now, retry, stop,
  start, restart, action_name, is_action, in_runtime_actions, Scope, state_conflict,
}
use hermes_agent_workforce_p.Broker.Allowlist.{Trigger, Workflow, Runtime, Entry, workflow, runtime}
use hermes_agent_workforce_p.Broker.Machine.{Snapshot}
use hermes_agent_workforce_p.Broker.Request.{
  Request, unit_of, choose_trigger, check_vocabulary, contains,
}
use hermes_agent_workforce_p.Broker.Receipts.{Receipt}
use hermes_agent_workforce_p.Broker.Checks.{
  Step, scope_in, service_step, started, stopped, plan, plan_runtime, running_units,
  check_preconditions, check_runtime_preconditions, has_reason, is_halt,
}
use hermes_agent_workforce_p.Broker.Previewed.{Previewed, value-eq}

-- The action is one that the row of an instance lists, where the entry is one.
unfoldable pub Listed : Option (List Action) → Action → Type 0
Listed none a = Unit
Listed (some actions) a = any (is_action a) actions ≡ true

-- What a request permits on an entry: the units of the entry only, by the verb of the action, and
-- with what the action asks for besides.
pub data Permitted (receipts : List Receipt) (now : ℕ) (r : Request) : Entry → Step → Type 0 where
  pauses :
      (id : String) (w : Workflow) (t : Trigger)
      → r.action ≡ pause
      → In t w.triggers
      → Permitted receipts now r (workflow id w) (t.scope, "disable", t.unit <> ".timer")
  resumes :
      (id : String) (w : Workflow) (t : Trigger) (p : Receipt)
      → r.action ≡ resume
      → Previewed receipts now r p
      → In t w.triggers
      → Permitted receipts now r (workflow id w) (t.scope, "enable", t.unit <> ".timer")
  starts :
      (id : String) (w : Workflow) (t : Trigger)
      → (r.action ≡ run_now) ⊎ ((r.action ≡ retry) × (w.retry ≡ true))
      → In t w.triggers
      → Permitted receipts now r (workflow id w) (t.scope, "start", t.unit <> ".service")
  stops :
      (id : String) (w : Workflow) (t : Trigger)
      → r.action ≡ stop
      → r.confirm ≡ true
      → has_reason r.reason ≡ true
      → In t w.triggers
      → Permitted receipts now r (workflow id w) (t.scope, "stop", t.unit <> ".service")
  serves :
      (run : Runtime) (actions : Option (List Action))
      → in_runtime_actions r.action ≡ true
      → Listed actions r.action
      → r.confirm ≡ true
      → (is_halt r.action ≡ true → has_reason r.reason ≡ true)
      → Permitted receipts now r
          (runtime run actions)
          (run.scope, action_name r.action, run.unit <> ".service")

-- The trigger that `_scope_of` finds.
scope_in-In :
    (unit : String) (scope : Scope) (ts : List Trigger)
    → scope_in unit ts ≡ value scope
    → (t : Trigger) × In t ts × (t.scope ≡ scope) × (t.unit ≡ unit)
scope_in-In unit scope [] h = cc
scope_in-In unit scope (t ∷ ts) h = elim (str_eq-cases t.unit unit) [
  | inl (same, e) ↦ (t, inl refl, ground (arith, h, e), same)
  | inr (other, e) ↦
      let (u, i, sc, un) = scope_in-In unit scope ts (rw e at h) in (u, inr i, sc, un)
]

pub scope_in-answers :
    (unit : String) (ts : List Trigger)
    → has unit (map unit_of ts) ≡ true
    → (scope : Scope) × (scope_in unit ts ≡ value scope)
scope_in-answers unit [] h = cc
scope_in-answers unit (t ∷ ts) h = elim (str_eq-cases t.unit unit) [
  | inl (same, e) ↦ (t.scope, ground (arith, e))
  | inr (other, e) ↦ let (s, q) = scope_in-answers unit ts (rw e at h) in (s, ground (arith, e, q))
]

-- A service step is one on the unit of a trigger.
pub service_step-All :
    (Q : Step → Type 0) (verb unit : String) (ts : List Trigger) (steps : List Step)
    → ((t : Trigger) → In t ts → Q (t.scope, verb, t.unit <> ".service"))
    → service_step verb unit ts ≡ value steps
    → All Q steps
service_step-All Q verb unit ts steps q h =
    let (scope, found, same) = value_before (scope_in unit ts) _ h in
    let (t, i, sc, un) = scope_in-In unit scope ts found in
    subst (All Q) (steps_eq same) (
      subst (λ u. Q (scope, verb, u <> ".service")) un
          (subst (λ s. Q (s, verb, t.unit <> ".service")) sc (q t i)),
      tt,
    )
  where
    steps_eq : {xs : List Step} → value xs ≡ value steps → xs ≡ steps
    steps_eq e = cc

map-All :
    (Q : Step → Type 0) (f : Trigger → Step) (ts : List Trigger)
    → ((t : Trigger) → In t ts → Q (f t))
    → All Q (map f ts)
map-All Q f [] q = tt
map-All Q f (t ∷ ts) q = (q t (inl refl), map-All Q f ts (λ u i. q u (inr i)))

module _ (receipts : List Receipt) (now : ℕ) (r : Request) (id : String) (w : Workflow) where
  started-Permitted :
      (choice : Answer String) (steps : List Step)
      → (r.action ≡ run_now) ⊎ ((r.action ≡ retry) × (w.retry ≡ true))
      → started w choice ≡ value steps
      → All (Permitted receipts now r (workflow id w)) steps
  started-Permitted choice steps a h =
      let (unit, c, e) = value_before choice _ h in
      service_step-All (Permitted receipts now r (workflow id w)) "start" unit w.triggers steps
        (λ t i. starts id w t a i) e

  stopped-Permitted :
      (running : List String) (choice : Answer String) (steps : List Step)
      → r.action ≡ stop
      → r.confirm ≡ true
      → has_reason r.reason ≡ true
      → stopped w running choice ≡ value steps
      → All (Permitted receipts now r (workflow id w)) steps
  stopped-Permitted running choice steps a c z h =
      let (unit, q, e) = value_before choice _ h in
      let (u, d, e') = value_before (demand (has unit running) state_conflict) _ e in
      service_step-All (Permitted receipts now r (workflow id w)) "stop" unit w.triggers steps
        (λ t i. stops id w t a c z i) e'

  -- The plan of an action whose preconditions hold has only permitted steps.
  pub plan-Permitted :
      (a : Action) (before : Snapshot) (steps : List Step) {u : Unit {0}}
      → r.action ≡ a
      → check_vocabulary (workflow id w) a ≡ value u
      → (a ≡ resume → (p : Receipt) × Previewed receipts now r p)
      → check_preconditions a r before w ≡ value u
      → plan a w r before ≡ value steps
      → All (Permitted receipts now r (workflow id w)) steps
  unfolding plan check_preconditions check_vocabulary
  plan-Permitted pause before steps e v p c h =
      subst (All _) (value-eq _ _ h) (map-All _ _ w.triggers (λ t i. pauses id w t e i))
  plan-Permitted resume before steps e v p c h =
      let (receipt, q) = p refl in
      subst (All _) (value-eq _ _ h) (map-All _ _ w.triggers (λ t i. resumes id w t receipt e q i))
  plan-Permitted run_now before steps e v p c h = started-Permitted _ steps (inl e) h
  plan-Permitted retry before steps e v p c h =
      let (x, y, z) =
        value_before (demand (not (str_eq before.state "running")) state_conflict) _ c in
      started-Permitted _ steps (inr (e, demand-value w.retry _ z)) h
  plan-Permitted stop before steps e v p c h =
      let (x, y, z) = value_before (demand r.confirm _) _ c in
      let (x', y', z') = value_before (demand (has_reason r.reason) _) _ z in
      stopped-Permitted (running_units before.units)
        (choose_trigger w r (running_units before.units)) steps e (demand-value r.confirm _ y)
        (demand-value _ _ y') h
  plan-Permitted start before steps e v p c h = cc
  plan-Permitted restart before steps e v p c h = cc

-- Every runtime step that passes its checks is permitted.
pub plan_runtime-Permitted :
    (receipts : List Receipt) (now : ℕ) (r : Request) (run : Runtime)
    (actions : Option (List Action)) (before : Snapshot) {u : Unit {0}}
    → check_vocabulary (runtime run actions) r.action ≡ value u
    → check_runtime_preconditions r.action r before ≡ value u
    → Permitted receipts now r (runtime run actions) (plan_runtime r.action run)
unfolding check_vocabulary check_runtime_preconditions plan_runtime Listed
plan_runtime-Permitted receipts now r run actions before v c =
    let (x, y, z) = value_before (demand r.confirm _) _ c in
    let (x', y', z') =
      value_before (demand (not (is_halt r.action) || has_reason r.reason) _) _ z in
    serves run actions (in_vocabulary actions v) (listed actions v) (demand-value r.confirm _ y)
      (reasoned (is_halt r.action) (demand-value _ _ y'))
  where
    in_vocabulary :
        (rows : Option (List Action)) {u : Unit {0}}
        → check_vocabulary (runtime run rows) r.action ≡ value u
        → in_runtime_actions r.action ≡ true
    in_vocabulary none h = demand-value _ _ h
    in_vocabulary (some names) h =
        let (x, y, z) = value_before (demand (contains names r.action) _) _ h in demand-value _ _ z

    listed :
        (rows : Option (List Action)) {u : Unit {0}}
        → check_vocabulary (runtime run rows) r.action ≡ value u
        → Listed rows r.action
    listed none h = tt
    listed (some names) h =
        let (x, y, z) = value_before (demand (contains names r.action) _) _ h in demand-value _ _ y

    reasoned :
        (b : Bool) → (not b || has_reason r.reason) ≡ true → b ≡ true → has_reason r.reason ≡ true
    reasoned true h e = h
    reasoned false h e = cc
