-- ===== src/Broker/Bodies.antt =====
-- bin/control_broker.py, `_handle_workflow` and `_handle_runtime`: a course of three predicates runs
-- through the whole of a request, and takes only permitted steps.
use hermes_agent_workforce_p.Prelude.{
  ℕ, arith, ◌≡◌, refl, sym, ap, subst, String, Bool, true, false, Option, List, [], ◌∷◌, map, has,
  Bool-cases, inl, inr, ◌<>◌,
}
use hermes_agent_workforce_p.Broker.{
  Answer, value, raised, refusal, command_failed, escaped, Action,
}
use hermes_agent_workforce_p.Broker.Allowlist.{Trigger, Workflow, Runtime, Entry, workflow, runtime}
use hermes_agent_workforce_p.Broker.Machine.{
  Systemd, Run, M, continue, lift, show, Snapshot, UnitView,
}
use hermes_agent_workforce_p.Broker.Units.{
  reconcile, view_trigger, view_triggers, service_running, check_loaded,
}
use hermes_agent_workforce_p.Broker.Request.{Request, unit_of, check_vocabulary}
use hermes_agent_workforce_p.Broker.Receipts.{Receipt}
use hermes_agent_workforce_p.Broker.Checks.{
  Step, running_units, check_preconditions, check_runtime_preconditions,
}
use hermes_agent_workforce_p.Broker.Steps.{execute}
use hermes_agent_workforce_p.Broker.Handle.{
  catching, caught, see_after, after_if, unless_previewed, workflow_body, runtime_body,
  handle_workflow, handle_runtime, act, locking, taken,
}
use hermes_agent_workforce_p.Broker.Keeps.{
  Kept, Owed, Holds, Meets, Meets->>=, Meets-known, Meets-value, Meets-after, Meets-set,
}
use hermes_agent_workforce_p.Broker.Looks.{holding_lock-Meets}
use hermes_agent_workforce_p.Broker.Views.{reconcile-Meets, reconcile_runtime-Meets}
use hermes_agent_workforce_p.Broker.Permitted.{Permitted, plan-Permitted, plan_runtime-Permitted}
use hermes_agent_workforce_p.Broker.Previewed.{check_preview_token-Previewed}
use hermes_agent_workforce_p.Broker.Refuses.{
  Among, check_loaded-Refuses, check_preconditions-Refuses, check_runtime_preconditions-Refuses,
  check_vocabulary-Refuses,
}
use hermes_agent_workforce_p.Broker.Course.{
  Course, Pays-refusal, noted, execute-Meets, execute_runtime-Meets,
}

cons-eq : {A : Type 0} {x y : A} {xs ys : List A} → x ≡ y → xs ≡ ys → (x ∷ xs) ≡ (y ∷ ys)
cons-eq p q = cc

-- What a step and those after it returned.
module _ {E A B : Type 0} where
  continue-value :
      (x : Answer A × Run E) (f : A → M E B) {b : B} {s : Run E}
      → continue x f ≡ (value b, s)
      → (a : A) × (t : Run E) × (x ≡ (value a, t)) × (f a t ≡ (value b, s))
  continue-value (value a, t) f h = (a, t, refl, h)
  continue-value (raised e, t) f h = cc

abbrev name_of : UnitView → String
name_of u = u.unit

module _ {E : Type 0} (sys : Systemd E) where
  lift-value : {A : Type 0} (a b : A) (s t : Run E) → lift (value a) s ≡ (value b, t) → a ≡ b
  lift-value a b s t h = cc

  view_trigger-unit :
      (t : Trigger) (s s' : Run E) (u : UnitView)
      → view_trigger sys t s ≡ (value u, s')
      → u.unit ≡ t.unit
  view_trigger-unit t s s' u h =
      let (timer, s1, e1, h1) = continue-value (show sys t.scope (t.unit <> ".timer") _ s) _ h in
      let (service, s2, e2, h2) =
        continue-value (show sys t.scope (t.unit <> ".service") _ s1) _ h1 in
      ap name_of (sym (lift-value _ _ s2 s' h2))

  view_triggers-units :
      (ts : List Trigger) (s s' : Run E) (us : List UnitView)
      → view_triggers sys ts s ≡ (value us, s')
      → map name_of us ≡ map unit_of ts
  view_triggers-units [] s s' us h = ap (map name_of) (sym (lift-value [] us s s' h))
  view_triggers-units (t ∷ ts) s s' us h =
      let (v, s1, e1, h1) = continue-value (view_trigger sys t s) _ h in
      let (vs, s2, e2, h2) = continue-value (view_triggers sys ts s1) _ h1 in
      subst (λ ws. map name_of ws ≡ map unit_of (t ∷ ts)) (lift-value (v ∷ vs) us s2 s' h2)
        (cons-eq (view_trigger-unit t s s1 v e1) (view_triggers-units ts s1 s2 vs e2))

  reconcile-units :
      (w : Workflow) (s s' : Run E) (before : Snapshot)
      → reconcile sys w s ≡ (value before, s')
      → map name_of before.units ≡ map unit_of w.triggers
  unfolding reconcile
  reconcile-units w s s' before h =
      let (us, s1, e1, h1) = continue-value (view_triggers sys w.triggers s) _ h in
      subst (λ b. map name_of b.units ≡ map unit_of w.triggers) (lift-value _ before s1 s' h1)
        (view_triggers-units w.triggers s s1 us e1)

running-Among : (us : List UnitView) → Among (running_units us) (map name_of us)
unfolding Among
running-Among [] x h = h
running-Among (u ∷ us) x h = elim (Bool-cases (service_running u.service)) [
  | inl e ↦ ground (arith, h, e, running-Among us x)
  | inr e ↦ ground (arith, h, e, running-Among us x)
]

reconcile-Among :
    {E : Type 0} (sys : Systemd E) (w : Workflow) (s s' : Run E) (before : Snapshot)
    → reconcile sys w s ≡ (value before, s')
    → Among (running_units before.units) (map unit_of w.triggers)
unfolding Among
reconcile-Among sys w s s' before seen x h =
    subst (λ us. has x us ≡ true) (reconcile-units sys w s s' before seen)
      (running-Among before.units x h)

module _ {E : Type 0} (sys : Systemd E) (P Q S : Kept) (R : Owed) (receipts : List Receipt)
    (now : ℕ) (r : Request) where
  caught-Holds :
      {entry : Entry} (c : Course sys P Q S R (Permitted receipts now r entry))
      → (x : Answer (Unit {0}) × Run E) → Holds P S R x
      → Holds P S R (caught x)
  unfolding Holds
  caught-Holds c (value u, s) h = h
  caught-Holds c (raised command_failed, s) h = c.softly s.commands s.out h
  caught-Holds c (raised (refusal x), s) h = h
  caught-Holds c (raised escaped, s) h = h

  catching-Meets :
      {entry : Entry} (c : Course sys P Q S R (Permitted receipts now r entry))
      → (m : M E (Unit {0})) → Meets P S R m
      → Meets P S R (catching sys m)
  unfolding Meets
  catching-Meets c m h s p = caught-Holds c (m s) (h s p)

  see_after-Meets :
      {May : Step → Type 0} (c : Course sys P Q S R May) (view : M E Snapshot)
      → Meets S S R view
      → Meets S S R (see_after sys view)
  see_after-Meets c view h =
      Meets->>= S S S R _ _ h
        (λ after. Meets-set E S R S _ (λ cs o q. c.after.same cs o _ refl refl q))

  after_if-Meets :
      {May : Step → Type 0} (c : Course sys P Q S R May) (b : Bool) (view : M E Snapshot)
      → Meets S S R view
      → Meets S S R (after_if sys b view)
  after_if-Meets c true view h = see_after-Meets c view h
  after_if-Meets c false view h = Meets-value E S R tt

  unless_previewed-Meets :
      {May : Step → Type 0} (c : Course sys P Q S R May) (view : M E Snapshot)
      → Meets S S R view
      → Meets S S R (unless_previewed sys view)
  unfolding Meets
  unless_previewed-Meets c view h s p = after_if-Meets c _ view h s p

  looked :
      {May : Step → Type 0} (c : Course sys P Q S R May) (w : Workflow)
      → Meets S S R (unless_previewed sys (reconcile sys w))
  looked c w = unless_previewed-Meets c _ (
      reconcile-Meets sys S R c.after.look (noted sys P Q S R _ c c.after) c.after.fails
        c.after.patience w)

  module _ (id : String) (w : Workflow)
      (c : Course sys P Q S R (Permitted receipts now r (workflow id w))) where
    -- The execution of an action that is in the vocabulary and ready.
    executed-Meets :
        {u : Unit {0}} (before : Snapshot)
        → check_vocabulary (workflow id w) r.action ≡ value u
        → check_preconditions r.action r before w ≡ value u
        → Among (running_units before.units) (map unit_of w.triggers)
        → Meets P S R (catching sys (execute sys receipts now r.action r w before))
    executed-Meets before v ready among = catching-Meets c _ (
        execute-Meets sys P Q S R _ c receipts now r.action w r before among
          (λ resuming steps planned.
            plan-Permitted receipts now r id w r.action before steps refl v
              (λ same.
                let (p, ok) = resuming same in
                (p, check_preview_token-Previewed receipts r before now p ok))
              ready planned))

    workflow_body-Meets :
        {u : Unit {0}}
        → check_vocabulary (workflow id w) r.action ≡ value u
        → Meets P S R (workflow_body sys receipts now r w)
    workflow_body-Meets v =
        Meets-known P P S R _ _
          (reconcile-Meets sys P R c.before.look (noted sys P Q S R _ c c.before) c.before.fails
            c.before.patience w)
          (λ before s s' seen.
            Meets->>= P P S R _ _ (Meets-set E P R P _ (λ cs o p. c.before.same cs o _ refl refl p))
              (λ a.
                Meets-after E P R S (check_loaded before.units) _
                  (Pays-refusal P R _ c.refusing (check_loaded-Refuses before.units))
                  (λ b loaded.
                    Meets-after E P R S (check_preconditions r.action r before w) _
                      (Pays-refusal P R _ c.refusing
                        (check_preconditions-Refuses r.action r before w))
                      (λ d ready.
                        Meets->>= P S S R _ _
                          (executed-Meets before v ready (reconcile-Among sys w s s' before seen))
                          (λ x. looked c w)))))

    locking-Meets : (b : Bool) (m : M E (Unit {0})) → Meets P S R m → Meets P S R (locking sys b m)
    locking-Meets true m h = h
    locking-Meets false m h =
        holding_lock-Meets sys P R c.before.look (noted sys P Q S R _ c c.before) c.before.fails
          c.before.patience S m c.refusing h

    handle_workflow-Meets :
        {u : Unit {0}}
        → check_vocabulary (workflow id w) r.action ≡ value u
        → Meets P S R (handle_workflow sys receipts now r w)
    unfolding handle_workflow
    handle_workflow-Meets v = locking-Meets _ _ (workflow_body-Meets v)

  module _ (run : Runtime) (actions : Option (List Action))
      (c : Course sys P Q S R (Permitted receipts now r (runtime run actions))) where
    runtime_body-Meets :
        {u : Unit {0}} (seconds : ℕ)
        → check_vocabulary (runtime run actions) r.action ≡ value u
        → Meets P S R (runtime_body sys seconds r run)
    runtime_body-Meets seconds v =
        Meets->>= P P S R _ _
          (reconcile_runtime-Meets sys P R c.before.look (noted sys P Q S R _ c c.before)
            c.before.fails c.before.patience run)
          (λ before.
            Meets->>= P P S R _ _ (Meets-set E P R P _ (λ cs o p. c.before.same cs o _ refl refl p))
              (λ a.
                Meets-after E P R S (check_loaded before.units) _
                  (Pays-refusal P R _ c.refusing (check_loaded-Refuses before.units))
                  (λ b loaded.
                    Meets-after E P R S (check_runtime_preconditions r.action r before) _
                      (Pays-refusal P R _ c.refusing
                        (check_runtime_preconditions-Refuses r.action r before))
                      (λ d ready.
                        Meets->>= P S S R _ _
                          (catching-Meets c _ (
                            execute_runtime-Meets sys P Q S R _ c seconds r.action run
                              (plan_runtime-Permitted receipts now r run actions before v ready)))
                          (λ x. see_after-Meets c _ (
                            reconcile_runtime-Meets sys S R c.after.look
                              (noted sys P Q S R _ c c.after) c.after.fails c.after.patience
                              run))))))

    handle_runtime-Meets :
        {u : Unit {0}} (seconds : ℕ)
        → check_vocabulary (runtime run actions) r.action ≡ value u
        → Meets P S R (handle_runtime sys seconds r run)
    unfolding handle_runtime
    handle_runtime-Meets seconds v =
        holding_lock-Meets sys P R c.before.look (noted sys P Q S R _ c c.before) c.before.fails
          c.before.patience S _ c.refusing (runtime_body-Meets seconds v)

  act-Meets :
      {u : Unit {0}} (entry : Entry) (seconds : ℕ)
      → Course sys P Q S R (Permitted receipts now r entry)
      → check_vocabulary entry r.action ≡ value u
      → Meets P S R (act sys receipts seconds now r entry)
  act-Meets (workflow id w) seconds c v = handle_workflow-Meets id w c v
  act-Meets (runtime run actions) seconds c v =
      Meets->>= P P S R _ _ (Meets-set E P R P _ (λ cs o p. c.before.same cs o _ refl refl p))
        (λ u. handle_runtime-Meets run actions c seconds v)

  -- The whole of an admitted request.
  pub taken-Meets :
      (entry : Entry) (seconds : ℕ)
      → Course sys P Q S R (Permitted receipts now r entry)
      → Meets P S R (taken sys receipts seconds now (value (r, entry)))
  taken-Meets entry seconds c =
      Meets-after E P R S (check_vocabulary entry r.action) _
        (Pays-refusal P R _ c.refusing (check_vocabulary-Refuses entry r.action))
        (λ u v. act-Meets entry seconds c v)
