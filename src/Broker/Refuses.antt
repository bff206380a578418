-- ===== src/Broker/Refuses.antt =====
-- bin/control_broker.py: the checks of a request pass or refuse, and raise nothing else.
use hermes_agent_workforce_p.Prelude.{
  ℕ, arith, ◌≡◌, refl, sym, ◌∙◌, subst, String, Bool, true, false, not, ◌||◌, ◌&&◌, Option, none,
  some, List, [], ◌∷◌, map, str_eq, str_eq-cases, has, Bool-cases, inl, inr, opt_eq,
}
use hermes_agent_workforce_p.Stamp.{parse_time}
use hermes_agent_workforce_p.Broker.{
  Answer, value, raised, ◌>>=◌, value_before, demand, demand-value, demand_some, Code, Exception,
  refusal, Refusal, Action, pause, resume, run_now, retry, stop, start, restart, state_conflict,
  not_idempotent, confirmation_required, reason_required, preview_required, preview_stale,
  unknown_action, in_runtime_actions,
}
use hermes_agent_workforce_p.Broker.Allowlist.{Trigger, Workflow, Entry, workflow, runtime}
use hermes_agent_workforce_p.Broker.Machine.{Snapshot, UnitView}
use hermes_agent_workforce_p.Broker.Units.{check_loaded, is_missing, is_masked, is_runtime_active}
use hermes_agent_workforce_p.Broker.Request.{
  Request, unit_of, choose_trigger, check_vocabulary, only_candidate, chosen, contains,
}
use hermes_agent_workforce_p.Broker.Receipts.{Receipt}
use hermes_agent_workforce_p.Broker.Checks.{
  scope_in, service_step, started, stopped, plan, running_units, check_preconditions,
  check_runtime_preconditions, check_preview_token, has_reason, is_halt, is_start, first_state,
  preview_of, is_resume_of, is_fresh, fingerprint_of,
}
use hermes_agent_workforce_p.Broker.Permitted.{scope_in-answers}
use hermes_agent_workforce_p.Broker.Previewed.{value-eq}

unfoldable pub Refuses {ℓ} : {A : Type ℓ} → Answer A → Type ℓ
Refuses {A} a = (e : Exception) → a ≡ raised e → (r : Refusal) × (refusal r ≡ e)

module _ {ℓ} {A : Type ℓ} where
  raised-eq : (d e : Exception) (a b : Answer A) → a ≡ raised d → b ≡ raised e → a ≡ b → d ≡ e
  raised-eq d e a b x y z = cc

pub Refuses-value {ℓ} : {A : Type ℓ} (a : A) → Refuses (value a)
unfolding Refuses
Refuses-value a e h = cc

pub Refuses-refusal {ℓ} : (A : Type ℓ) (r : Refusal) → Refuses {A = A} (raised (refusal r))
unfolding Refuses
Refuses-refusal A r e h = (r, raised-eq {A = A} (refusal r) e _ _ refl refl h)

pub Refuses-demand : (t : Bool) (c : Code) → Refuses (demand t c)
Refuses-demand true c = Refuses-value tt
Refuses-demand false c = Refuses-refusal _ _

pub Refuses-demand_some : {A : Type 0} (o : Option A) (c : Code) → Refuses (demand_some o c)
Refuses-demand_some (some a) c = Refuses-value a
Refuses-demand_some none c = Refuses-refusal _ _

pub Refuses->>= :
    {A B : Type 0} (a : Answer A) (f : A → Answer B)
    → Refuses a
    → ((x : A) → a ≡ value x → Refuses (f x))
    → Refuses (a >>= f)
unfolding Refuses
Refuses->>= (value x) f h k e q = k x refl e q
Refuses->>= {A} {B} (raised d) f h k e q =
    let (r, same) = h d refl in (r, same ∙ raised-eq {A = B} d e _ _ refl refl q)

Refuses-demands :
    {A : Type 0} (t : Bool) (c : Code) (a : Answer A) → Refuses a → Refuses (demand t c >>= λ u. a)
Refuses-demands t c a h = Refuses->>= (demand t c) _ (Refuses-demand t c) (λ u e. h)

scope_in-Refuses :
    (unit : String) (ts : List Trigger)
    → has unit (map unit_of ts) ≡ true
    → Refuses (scope_in unit ts)
scope_in-Refuses unit ts h =
    let (scope, e) = scope_in-answers unit ts h in subst Refuses (sym e) (Refuses-value scope)

service_step-Refuses :
    (verb unit : String) (ts : List Trigger)
    → has unit (map unit_of ts) ≡ true
    → Refuses (service_step verb unit ts)
service_step-Refuses verb unit ts h =
    Refuses->>= _ _ (scope_in-Refuses unit ts h) (λ scope e. Refuses-value _)

-- A choice among units of the workflow is one of them, or a refusal.
only_candidate-Refuses : (cs : List String) → Refuses (only_candidate cs)
only_candidate-Refuses [] = Refuses-refusal _ _
only_candidate-Refuses (c ∷ []) = Refuses-value c
only_candidate-Refuses (c ∷ d ∷ cs) = Refuses-refusal _ _

chosen-Refuses :
    (wanted : Option String) (units candidates : List String)
    → Refuses (chosen wanted units candidates)
chosen-Refuses (some u) units candidates =
    Refuses->>= _ _ (Refuses-demand (has u units) _) (λ x e. Refuses-value u)
chosen-Refuses none units candidates = only_candidate-Refuses candidates

has-only : (cs : List String) (u : String) → only_candidate cs ≡ value u → has u cs ≡ true
has-only [] u h = cc
has-only (c ∷ []) u h = ground (arith, h, str_eq-cases c u)
has-only (c ∷ d ∷ cs) u h = cc

unfoldable pub Among : List String → List String → Type 0
Among candidates units = (u : String) → has u candidates ≡ true → has u units ≡ true

chosen-has :
    (wanted : Option String) (units candidates : List String) (u : String)
    → Among candidates units
    → chosen wanted units candidates ≡ value u
    → has u units ≡ true
unfolding Among
chosen-has (some x) units candidates u a h =
    let (v, e, same) = value_before (demand (has x units) _) _ h in
    subst (λ y. has y units ≡ true) (value-eq x u same) (demand-value _ _ e)
chosen-has none units candidates u a h = a u (has-only candidates u h)

started-Refuses :
    (w : Workflow) (choice : Answer String)
    → Refuses choice
    → ((u : String) → choice ≡ value u → has u (map unit_of w.triggers) ≡ true)
    → Refuses (started w choice)
started-Refuses w choice h k =
    Refuses->>= _ _ h (λ u e. service_step-Refuses "start" u w.triggers (k u e))

stopped-Refuses :
    (w : Workflow) (running : List String) (choice : Answer String)
    → Refuses choice
    → ((u : String) → choice ≡ value u → has u (map unit_of w.triggers) ≡ true)
    → Refuses (stopped w running choice)
stopped-Refuses w running choice h k = Refuses->>= _ _ h (λ u e.
    Refuses->>= _ _ (Refuses-demand _ _) (λ v x. service_step-Refuses "stop" u w.triggers (k u e)))

choose_trigger-Refuses :
    (w : Workflow) (r : Request) (cs : List String) → Refuses (choose_trigger w r cs)
unfolding choose_trigger
choose_trigger-Refuses w r cs = chosen-Refuses r.trigger _ cs

choose_trigger-has :
    (w : Workflow) (r : Request) (cs : List String) (u : String)
    → Among cs (map unit_of w.triggers)
    → choose_trigger w r cs ≡ value u
    → has u (map unit_of w.triggers) ≡ true
unfolding choose_trigger
choose_trigger-has w r cs u a h = chosen-has r.trigger _ cs u a h

Among-self : (us : List String) → Among us us
unfolding Among
Among-self us u h = h

-- A plan is made or refused: the units that run are units of the workflow.
pub plan-Refuses :
    (a : Action) (w : Workflow) (r : Request) (before : Snapshot)
    → Among (running_units before.units) (map unit_of w.triggers)
    → Refuses (plan a w r before)
unfolding plan
plan-Refuses pause w r before h = Refuses-value _
plan-Refuses resume w r before h = Refuses-value _
plan-Refuses run_now w r before h =
    started-Refuses w _ (choose_trigger-Refuses w r _)
      (λ u e. choose_trigger-has w r _ u (Among-self _) e)
plan-Refuses retry w r before h =
    started-Refuses w _ (choose_trigger-Refuses w r _)
      (λ u e. choose_trigger-has w r _ u (Among-self _) e)
plan-Refuses a w r before h =
    stopped-Refuses w (running_units before.units) _ (choose_trigger-Refuses w r _)
      (λ u e. choose_trigger-has w r (running_units before.units) u h e)

pub check_loaded-Refuses : (us : List UnitView) → Refuses (check_loaded us)
unfolding check_loaded
check_loaded-Refuses [] = Refuses-value tt
check_loaded-Refuses (u ∷ us) = elim (Bool-cases (is_missing u)) [
  | inl e ↦ rw e (Refuses-refusal _ _)
  | inr e ↦ elim (Bool-cases (is_masked u)) [
    | inl f ↦ rw (e, f) (Refuses-refusal _ _)
    | inr f ↦ rw (e, f) (check_loaded-Refuses us)
  ]
]

pub check_preconditions-Refuses :
    (a : Action) (r : Request) (before : Snapshot) (w : Workflow)
    → Refuses (check_preconditions a r before w)
unfolding check_preconditions
check_preconditions-Refuses pause r before w = Refuses-demand _ _
check_preconditions-Refuses resume r before w = Refuses-demand _ _
check_preconditions-Refuses run_now r before w = Refuses-demand _ _
check_preconditions-Refuses retry r before w =
    Refuses-demands (not (str_eq before.state "running")) state_conflict _
      (Refuses-demand w.retry not_idempotent)
check_preconditions-Refuses stop r before w = Refuses-demands r.confirm confirmation_required _ (
    Refuses-demands (has_reason r.reason) reason_required _
      (Refuses-demand (str_eq before.state "running") state_conflict))
check_preconditions-Refuses start r before w = Refuses-value tt
check_preconditions-Refuses restart r before w = Refuses-value tt

pub check_runtime_preconditions-Refuses :
    (a : Action) (r : Request) (before : Snapshot)
    → Refuses (check_runtime_preconditions a r before)
unfolding check_runtime_preconditions
check_runtime_preconditions-Refuses a r before = Refuses-demands r.confirm confirmation_required _ (
    Refuses-demands (not (is_halt a) || has_reason r.reason) reason_required _ (
      Refuses-demands (not (is_start a && is_runtime_active (first_state before.units)))
        state_conflict _
        (Refuses-demand (not (is_halt a) || is_runtime_active (first_state before.units))
          state_conflict)))

pub check_preview_token-Refuses :
    (receipts : List Receipt) (r : Request) (before : Snapshot) (now : ℕ)
    → Refuses (check_preview_token receipts r before now)
unfolding check_preview_token
check_preview_token-Refuses receipts r before now =
    Refuses->>= (demand_some (preview_of receipts r) preview_required) _
      (Refuses-demand_some (preview_of receipts r) preview_required)
      (λ p e. Refuses-demands (is_resume_of r.workflow_id p) preview_required _ (
        Refuses-demands (is_fresh now (parse_time p.completed_at)) preview_stale _ (
          Refuses-demands (opt_eq (fingerprint_of p.before) (some before.fingerprint)) preview_stale
            _ (Refuses-value p))))

pub check_vocabulary-Refuses : (entry : Entry) (a : Action) → Refuses (check_vocabulary entry a)
unfolding check_vocabulary
check_vocabulary-Refuses (workflow id w) a = Refuses-demand _ _
check_vocabulary-Refuses (runtime r none) a = Refuses-demand _ _
check_vocabulary-Refuses (runtime r (some names)) a =
    Refuses-demands (contains names a) unknown_action _
      (Refuses-demand (in_runtime_actions a) unknown_action)
