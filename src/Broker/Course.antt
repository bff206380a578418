-- ===== src/Broker/Course.antt =====
-- bin/control_broker.py: the course of a request on the machine. Three predicates hold in turn:
-- one until the first mutation, one until the result is set, and one from then on; what they owe
-- to an exception is the fourth.
use hermes_agent_workforce_p.Prelude.{
  ℕ, ◌≡◌, refl, subst, String, Bool, true, false, Option, none, some, List, [], ◌∷◌, ◌++◌, map, All,
  ◌⊎◌, inl, inr, ◌<>◌,
}
use hermes_agent_workforce_p.Broker.{
  Answer, value, raised, Exception, refusal, Refusal, command_failed, Action, pause, resume,
  run_now, retry, stop, start, restart, Scope,
}
use hermes_agent_workforce_p.Broker.Allowlist.{Workflow, Runtime}
use hermes_agent_workforce_p.Broker.Machine.{
  Systemd, Run, ◌>>=◌, mutate, Command, mutated, Out, Outcome, applied, previewed, failed,
  failed_command, Snapshot, UnitView, await_stop_phase, succeeded, Note,
}
use hermes_agent_workforce_p.Broker.Implication.{preview_implication}
use hermes_agent_workforce_p.Broker.Request.{Request, Stage, preview, apply, unit_of}
use hermes_agent_workforce_p.Broker.Receipts.{Receipt}
use hermes_agent_workforce_p.Broker.Checks.{
  Step, plan, plan_runtime, running_units, check_preview_token,
}
use hermes_agent_workforce_p.Broker.Steps.{
  mutate_all, read_run, await_first, followed, set_result, carry_out, planned, resumed, execute,
  settled, followed_runtime, execute_runtime,
}
use hermes_agent_workforce_p.Broker.Keeps.{
  Kept, Owed, Pays, Holds, Meets, Meets->>=, Meets-value, Meets-after, Meets-set, Meets-from,
  Meets-raise,
}
use hermes_agent_workforce_p.Broker.Looks.{
  IsLook, Patience, show-Meets, await_stop-Meets, await_stop_phase-Meets, await_settle-Meets,
}
use hermes_agent_workforce_p.Broker.Views.{preview_implication-Meets}
use hermes_agent_workforce_p.Broker.Refuses.{
  Refuses, Among, plan-Refuses, check_preview_token-Refuses,
}

-- What looking keeps, and every change of `out` but to its result and its refusal.
pub record Stable {E : Type 0} (sys : Systemd E) (P : Kept) (R : Owed) : Type 0 where
  pub look : (cs : List Command) (o : Out) (c : Command) → IsLook c → P cs o → P (cs ++ (c ∷ [])) o
  pub same :
      (cs : List Command) (o q : Out)
      → q.result ≡ o.result
      → q.refusal ≡ o.refusal
      → P cs o
      → P cs q
  pub fails : Pays P R command_failed
  pub patience : Patience sys P R

pub record Course {E : Type 0} (sys : Systemd E) (P Q S : Kept) (R : Owed) (May : Step → Type 0)
    : Type 0 where
  pub before : Stable sys P R
  pub during : Stable sys Q R
  pub after : Stable sys S R
  pub refusing : (x : Refusal) → Pays P R (refusal x)
  pub begins : (cs : List Command) (o : Out) → P cs o → Q cs o
  pub moves :
      (cs : List Command) (o : Out) (scope : Scope) (verb unit : String) (done : Bool)
      → May (scope, verb, unit)
      → Q cs o
      → Q (cs ++ (mutated scope verb unit done ∷ [])) o
  pub finishes :
      (cs : List Command) (o : Out) (x : Outcome)
      → (x ≡ applied) ⊎ (x ≡ previewed)
      → Q cs o
      → S cs (record o { result = some x })
  pub softly :
      (cs : List Command) (o : Out)
      → R command_failed cs o
      → S cs (record o { result = some failed; note = some failed_command })

-- A check that only refuses pays for what it raises.
pub Pays-refusal :
    {A : Type 0} (P : Kept) (R : Owed) (a : Answer A)
    → ((x : Refusal) → Pays P R (refusal x))
    → Refuses a
    → (e : Exception) → a ≡ raised e
    → Pays P R e
unfolding Refuses
Pays-refusal P R a d h e q = let (x, same) = h e q in subst (Pays P R) same (d x)

module _ {E : Type 0} (sys : Systemd E) (P Q S : Kept) (R : Owed) (May : Step → Type 0)
    (c : Course sys P Q S R May) where
  succeeded-Holds : (done : Bool) (s : Run E) → Q s.commands s.out → Holds Q Q R (succeeded done, s)
  unfolding Holds
  succeeded-Holds true s q = q
  succeeded-Holds false s q = c.during.fails s.commands s.out q

  mutate-Meets :
      (scope : Scope) (verb unit : String)
      → May (scope, verb, unit)
      → Meets Q Q R (mutate sys scope verb unit)
  unfolding Meets mutate
  mutate-Meets scope verb unit m s q =
      succeeded-Holds (sys.mutate scope verb unit s.machine).0 _
        (c.moves s.commands s.out scope verb unit _ m q)

  mutate_all-Meets : (steps : List Step) → All May steps → Meets Q Q R (mutate_all sys steps)
  mutate_all-Meets [] m = Meets-value E Q R tt
  mutate_all-Meets ((scope, verb, unit) ∷ steps) m =
      Meets->>= Q Q Q R _ _ (mutate-Meets scope verb unit m.0) (λ u. mutate_all-Meets steps m.1)

  pub noted :
      {P : Kept}
      → Stable sys P R
      → (cs : List Command) (o : Out) (n : Note) → P cs o
      → P cs (record o { note = some n })
  noted t cs o n p = t.same cs o _ refl refl p

  read_run-Meets : (steps : List Step) → Meets Q Q R (read_run sys steps)
  read_run-Meets [] = Meets-value E Q R tt
  read_run-Meets ((scope, verb, unit) ∷ steps) =
      Meets->>= Q Q Q R _ _
        (show-Meets sys Q R c.during.look (noted c.during) c.during.fails c.during.patience scope
          unit _)
        (λ values. Meets-set E Q R Q _ (λ cs o q. c.during.same cs o _ refl refl q))

  await_first-Meets : (steps : List Step) → Meets Q Q R (await_first sys steps)
  await_first-Meets [] = Meets-value E Q R tt
  await_first-Meets ((scope, verb, unit) ∷ steps) =
      await_stop-Meets sys Q R c.during.look (noted c.during) c.during.fails c.during.patience scope
        unit

  followed-Meets : (a : Action) (steps : List Step) → Meets Q Q R (followed sys a steps)
  followed-Meets run_now steps = read_run-Meets steps
  followed-Meets retry steps = read_run-Meets steps
  followed-Meets stop steps = await_first-Meets steps
  followed-Meets pause steps = Meets-value E Q R tt
  followed-Meets resume steps = Meets-value E Q R tt
  followed-Meets start steps = Meets-value E Q R tt
  followed-Meets restart steps = Meets-value E Q R tt

  set_result-Meets :
      (x : Outcome) → (x ≡ applied) ⊎ (x ≡ previewed) → Meets Q S R (set_result sys x)
  set_result-Meets x h = Meets-set E Q R S _ (λ cs o q. c.finishes cs o x h q)

  carry_out-Meets :
      (a : Action) (steps : List Step) → All May steps → Meets P S R (carry_out sys a steps)
  carry_out-Meets a steps m =
      Meets->>= P Q S R _ _
        (Meets-set E P R Q _ (λ cs o p. c.during.same cs o _ refl refl (c.begins cs o p)))
        (λ t. Meets->>= Q Q S R _ _ (mutate_all-Meets steps m) (λ u.
          Meets->>= Q Q S R _ _ (followed-Meets a steps)
            (λ v. set_result-Meets applied (inl refl))))

  planned-Meets :
      (a : Action) (w : Workflow) (r : Request) (before : Snapshot)
      → Among (running_units before.units) (map unit_of w.triggers)
      → ((steps : List Step) → plan a w r before ≡ value steps → All May steps)
      → Meets P S R (planned sys a w r before)
  planned-Meets a w r before among may =
      Meets-after E P R S (plan a w r before) _
        (Pays-refusal P R _ c.refusing (plan-Refuses a w r before among))
        (λ steps e. carry_out-Meets a steps (may steps e))

  previewed-Meets : (units : List UnitView) → Meets P P R (preview_implication sys units)
  previewed-Meets units =
      preview_implication-Meets sys P R c.before.look (noted c.before) c.before.fails
        c.before.patience units

  resumed-Meets :
      (receipts : List Receipt) (now : ℕ) (stage : Option Stage) (w : Workflow) (r : Request)
      (before : Snapshot)
      → Among (running_units before.units) (map unit_of w.triggers)
      → ((p : Receipt)
          → check_preview_token receipts r before now ≡ value p
          → (steps : List Step) → plan resume w r before ≡ value steps
          → All May steps)
      → Meets P S R (resumed sys receipts now stage w r before)
  resumed-Meets receipts now none w r before among may =
      Meets-raise E P R (Unit {0}) S _ (c.refusing _)
  resumed-Meets receipts now (some preview) w r before among may =
      Meets->>= P P S R _ _ (previewed-Meets before.units) (λ i.
        Meets->>= P Q S R _ _
          (Meets-set E P R Q _ (λ cs o p. c.during.same cs o _ refl refl (c.begins cs o p)))
          (λ u. set_result-Meets previewed (inr refl)))
  resumed-Meets receipts now (some apply) w r before among may =
      Meets-after E P R S (check_preview_token receipts r before now) _
        (Pays-refusal P R _ c.refusing (check_preview_token-Refuses receipts r before now))
        (λ p e.
          Meets->>= P P S R _ _ (Meets-set E P R P _ (λ cs o h. c.before.same cs o _ refl refl h))
            (λ u. planned-Meets resume w r before among (may p e)))

  pub execute-Meets :
      (receipts : List Receipt) (now : ℕ) (a : Action) (w : Workflow) (r : Request)
      (before : Snapshot)
      → Among (running_units before.units) (map unit_of w.triggers)
      → ((a ≡ resume → (p : Receipt) × (check_preview_token receipts r before now ≡ value p))
          → (steps : List Step) → plan a w r before ≡ value steps
          → All May steps)
      → Meets P S R (execute sys receipts now a r w before)
  unfolding execute
  execute-Meets receipts now resume w r before among may =
      resumed-Meets receipts now r.stage w r before among (λ p e. may (λ same. (p, e)))
  execute-Meets receipts now pause w r before among may =
      planned-Meets pause w r before among (may (λ same. cc))
  execute-Meets receipts now run_now w r before among may =
      planned-Meets run_now w r before among (may (λ same. cc))
  execute-Meets receipts now retry w r before among may =
      planned-Meets retry w r before among (may (λ same. cc))
  execute-Meets receipts now stop w r before among may =
      planned-Meets stop w r before among (may (λ same. cc))
  execute-Meets receipts now start w r before among may =
      planned-Meets start w r before among (may (λ same. cc))
  execute-Meets receipts now restart w r before among may =
      planned-Meets restart w r before among (may (λ same. cc))

  settled-Meets : (run : Runtime) (seconds : ℕ) (b : Bool) → Meets Q Q R (settled sys run seconds b)
  settled-Meets run seconds true =
      await_settle-Meets sys Q R c.during.look (noted c.during) c.during.fails c.during.patience
        run.scope _ seconds
  settled-Meets run seconds false = Meets-value E Q R tt

  phased-Meets :
      (run : Runtime) (seconds : ℕ)
      → Meets Q Q R
          (await_stop_phase sys run.scope (run.unit <> ".service") >>= settled sys run seconds)
  phased-Meets run seconds =
      Meets->>= Q Q Q R _ _
        (await_stop_phase-Meets sys Q R c.during.look (noted c.during) c.during.fails
          c.during.patience run.scope _)
        (settled-Meets run seconds)

  followed_runtime-Meets :
      (a : Action) (run : Runtime) (seconds : ℕ) → Meets Q Q R (followed_runtime sys a run seconds)
  followed_runtime-Meets stop run seconds =
      await_stop-Meets sys Q R c.during.look (noted c.during) c.during.fails c.during.patience
        run.scope _
  followed_runtime-Meets start run seconds = settled-Meets run seconds true
  followed_runtime-Meets pause run seconds = phased-Meets run seconds
  followed_runtime-Meets resume run seconds = phased-Meets run seconds
  followed_runtime-Meets run_now run seconds = phased-Meets run seconds
  followed_runtime-Meets retry run seconds = phased-Meets run seconds
  followed_runtime-Meets restart run seconds = phased-Meets run seconds

  pub execute_runtime-Meets :
      (seconds : ℕ) (a : Action) (run : Runtime)
      → May (plan_runtime a run)
      → Meets P S R (execute_runtime sys seconds a run)
  unfolding execute_runtime plan_runtime
  execute_runtime-Meets seconds a run m = Meets-from P Q S R _ c.begins (
      Meets->>= Q Q S R _ _ (mutate-Meets run.scope _ _ m) (λ u.
        Meets->>= Q Q S R _ _ (followed_runtime-Meets a run seconds)
          (λ v. set_result-Meets applied (inl refl))))
