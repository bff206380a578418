-- ===== src/Broker/Views.antt =====
-- bin/control_broker.py: the reconciliation and the preview of a resume only look.
use hermes_agent_workforce_p.Prelude.{ℕ, String, Option, none, some, List, [], ◌∷◌, ◌++◌}
use hermes_agent_workforce_p.Broker.{command_failed}
use hermes_agent_workforce_p.Broker.Allowlist.{Trigger, Workflow, Runtime}
use hermes_agent_workforce_p.Broker.Machine.{Systemd, M, Command, Note, Out, UnitView}
use hermes_agent_workforce_p.Broker.Units.{
  reconcile, reconcile_runtime, view_trigger, view_triggers,
}
use hermes_agent_workforce_p.Broker.Implication.{
  elapses, unit_implication, unit_implications, preview_implication, or_unknown, with_stamp,
}
use hermes_agent_workforce_p.Broker.Keeps.{Kept, Owed, Pays, Meets, Meets->>=, Meets-value}
use hermes_agent_workforce_p.Broker.Looks.{IsLook, Patience, show-Meets, calendar-Meets}

-- The steps that only look: a predicate that looking keeps, and a note.
module _ {E : Type 0} (sys : Systemd E) (P : Kept) (R : Owed)
    (look : (cs : List Command) (o : Out) (c : Command) → IsLook c → P cs o → P (cs ++ (c ∷ [])) o)
    (noted : (cs : List Command) (o : Out) (n : Note) → P cs o → P cs (record o { note = some n }))
    (fails : Pays P R command_failed) (patience : Patience sys P R) where
  view_trigger-Meets : (t : Trigger) → Meets P P R (view_trigger sys t)
  view_trigger-Meets t =
      Meets->>= P P P R _ _ (show-Meets sys P R look noted fails patience t.scope _ _) (λ timer.
        Meets->>= P P P R _ _ (show-Meets sys P R look noted fails patience t.scope _ _)
          (λ service. Meets-value E P R _))

  view_triggers-Meets : (ts : List Trigger) → Meets P P R (view_triggers sys ts)
  view_triggers-Meets [] = Meets-value E P R _
  view_triggers-Meets (t ∷ ts) =
      Meets->>= P P P R _ _ (view_trigger-Meets t)
        (λ view. Meets->>= P P P R _ _ (view_triggers-Meets ts) (λ views. Meets-value E P R _))

  pub reconcile-Meets : (w : Workflow) → Meets P P R (reconcile sys w)
  unfolding reconcile
  reconcile-Meets w =
      Meets->>= P P P R _ _ (view_triggers-Meets w.triggers) (λ units. Meets-value E P R _)

  pub reconcile_runtime-Meets : (r : Runtime) → Meets P P R (reconcile_runtime sys r)
  unfolding reconcile_runtime
  reconcile_runtime-Meets r =
      Meets->>= P P P R _ _ (show-Meets sys P R look noted fails patience r.scope _ _)
        (λ values. Meets-value E P R _)

  or_unknown-Meets :
      (es : Option (ℕ × ℕ)) (f : ℕ × ℕ → M E (Option (ℕ × ℕ)))
      → ((pair : ℕ × ℕ) → Meets P P R (f pair))
      → Meets P P R (or_unknown sys es f)
  or_unknown-Meets none f h = Meets-value E P R none
  or_unknown-Meets (some pair) f h = h pair

  elapses-Meets :
      (specs : List String) (found : Option (ℕ × ℕ)) → Meets P P R (elapses sys found specs)
  unfolding elapses
  elapses-Meets [] found = Meets-value E P R _
  elapses-Meets (spec ∷ specs) found =
      Meets->>= P P P R _ _ (calendar-Meets sys P R look noted fails patience spec)
        (λ es. or_unknown-Meets es _ (λ pair. elapses-Meets specs _))

  with_stamp-Meets : (u : UnitView) (stamp : Option ℕ) → Meets P P R (with_stamp sys u stamp)
  with_stamp-Meets u stamp =
      Meets->>= P P P R _ _ (elapses-Meets _ none) (λ found. Meets-value E P R _)

  unit_implication-Meets : (u : UnitView) → Meets P P R (unit_implication sys u)
  unfolding unit_implication Meets
  unit_implication-Meets u s p = with_stamp-Meets u _ s p

  unit_implications-Meets : (us : List UnitView) → Meets P P R (unit_implications sys us)
  unit_implications-Meets [] = Meets-value E P R _
  unit_implications-Meets (u ∷ us) =
      Meets->>= P P P R _ _ (unit_implication-Meets u)
        (λ row. Meets->>= P P P R _ _ (unit_implications-Meets us) (λ rows. Meets-value E P R _))

  pub preview_implication-Meets : (us : List UnitView) → Meets P P R (preview_implication sys us)
  unfolding preview_implication
  preview_implication-Meets us =
      Meets->>= P P P R _ _ (unit_implications-Meets us) (λ rows. Meets-value E P R _)
