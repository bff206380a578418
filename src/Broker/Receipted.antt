-- ===== src/Broker/Receipted.antt =====
-- bin/control_broker.py: every request is answered, and leaves a receipt that validates.
use hermes_agent_workforce_p.Prelude.{
  ℕ, arith, ◌≡◌, refl, sym, ◌∙◌, subst, String, true, false, Option, none, some, List, [], ◌∷◌, ◌⊎◌,
  is_some, inl, inr,
}
use hermes_agent_workforce_p.Prelude.Dict.{Dict}
use hermes_agent_workforce_p.Stamp.{iso_utc, parse_time}
use hermes_agent_workforce_p.Broker.{
  Json, Answer, value, raised, refusal, Refusal, command_failed, escaped, Action, get, action_of,
}
use hermes_agent_workforce_p.Broker.Allowlist.{Entry}
use hermes_agent_workforce_p.Broker.Machine.{
  Systemd, Run, Outcome, applied, refused, failed, previewed,
}
use hermes_agent_workforce_p.Broker.Request.{Request}
use hermes_agent_workforce_p.Broker.Receipts.{Receipt, Actor, validate_receipt, is_refused}
use hermes_agent_workforce_p.Broker.Target.{Incoming, target}
use hermes_agent_workforce_p.Broker.Parsed.{target-Refuses}
use hermes_agent_workforce_p.Broker.Handle.{
  Handled, handle, taken, ended, recorded, or_escaped, raw_of, begin, entry_of, written, start_out,
}
use hermes_agent_workforce_p.Broker.Responses.{build_receipt}
use hermes_agent_workforce_p.Broker.Keeps.{Kept, Owed, Holds, Meets}
use hermes_agent_workforce_p.Broker.Looks.{Ticks, timely}
use hermes_agent_workforce_p.Broker.Refuses.{Refuses}
use hermes_agent_workforce_p.Broker.Course.{Course, Stable}
use hermes_agent_workforce_p.Broker.Bodies.{taken-Meets}

-- A result that is no refusal.
unfoldable Decided : Option Outcome → Type 0
Decided (some applied) = Unit
Decided (some failed) = Unit
Decided (some previewed) = Unit
Decided (some refused) = ⊥
Decided none = ⊥

unfoldable Unrefused : Kept
Unrefused cs o = o.refusal ≡ none

unfoldable Done : Kept
unfolding Decided
Done cs o = (o.refusal ≡ none) × Decided o.result

unfoldable Owes : Owed
Owes (refusal x) cs o = Unit
Owes command_failed cs o = o.refusal ≡ none
Owes escaped cs o = ⊥

module _ {E : Type 0} (sys : Systemd E) (ticks : Ticks sys) where
  stable : Stable sys Unrefused Owes
  unfolding Unrefused Owes
  stable = record {
    look = λ cs o c l p. p;
    same = λ cs o q a b p. b ∙ p;
    fails = λ cs o p. p;
    patience = timely ticks;
  }

  done-Stable : Stable sys Done Owes
  unfolding Done Owes
  done-Stable = record {
    look = λ cs o c l p. p;
    same = λ cs o q a b p. (b ∙ p.0, subst Decided (sym a) p.1);
    fails = λ cs o p. p.0;
    patience = timely ticks;
  }

  course : (May : _) → Course sys Unrefused Unrefused Done Owes May
  unfolding Unrefused Done Owes
  course May = record {
    before = stable;
    during = stable;
    after = done-Stable;
    refusing = λ x cs o p. tt;
    begins = λ cs o p. p;
    moves = λ cs o scope verb unit done m p. p;
    finishes = λ cs o x h p. (p, decided x h);
    softly = λ cs o p. (p, tt);
  }
    where
      decided : (x : Outcome) → (x ≡ applied) ⊎ (x ≡ previewed) → Decided (some x)
      decided x (inl e) = subst (λ y. Decided (some y)) (sym e) tt
      decided x (inr e) = subst (λ y. Decided (some y)) (sym e) tt

  Decided-tests : (o : Option Outcome) → Decided o → (is_some o ≡ true) × (is_refused o ≡ false)
  unfolding Decided
  Decided-tests (some applied) d = (refl, refl)
  Decided-tests (some failed) d = (refl, refl)
  Decided-tests (some previewed) d = (refl, refl)
  Decided-tests (some refused) d = absurd d
  Decided-tests none d = absurd d

  -- What `build_receipt` needs of a run to be valid.
  Sound : Run E → Type 0
  Sound s =
      ((s.out.refusal ≡ none) × Decided s.out.result)
      ⊎ ((x : Refusal) × (s.out.refusal ≡ some x) × (s.out.result ≡ some refused))

  ended-Sound :
      (x : Answer (Unit {0}) × Run E)
      → Holds Unrefused Done Owes x
      → (s : Run E) × (ended sys x ≡ some s) × Sound s
  unfolding Holds Done Owes Sound
  ended-Sound (value u, s) h = (s, refl, inl h)
  ended-Sound (raised (refusal r), s) h = (_, refl, inr (r, refl, refl))
  ended-Sound (raised command_failed, s) h = (_, refl, inl (h, tt))
  ended-Sound (raised escaped, s) h = absurd h

  build_receipt-validate :
      (raw : _) (action : Option Action) (entry : Option Entry) (actor : Actor)
      (requested completed : ℕ) (hex : String) (s : Run E)
      → Sound s
      → validate_receipt (build_receipt sys raw action entry actor requested completed hex s) ≡ []
  unfolding build_receipt validate_receipt Sound iso_utc parse_time
  build_receipt-validate raw action entry actor requested completed hex s (inl (a, b)) =
      ground (arith, a, Decided-tests s.out.result b)
  build_receipt-validate raw action entry actor requested completed hex s (inr (x, a, b)) =
      ground (arith, a, b)

  -- An answered request, with the receipt that it leaves.
  abbrev Answered : List Receipt → Option (Handled sys) → Type 0
  Answered receipts o =
      (h : Handled sys) × (o ≡ some h)
      × (validate_receipt h.response.receipt ≡ [])
      × (h.receipts ≡ (h.response.receipt ∷ receipts))

  written-Answered :
      (receipts : List Receipt) (r : Receipt) (e : E)
      → validate_receipt r ≡ []
      → Answered receipts (written sys receipts r e)
  written-Answered receipts r e v = rw v (_, refl, v, refl)

  recorded-Answered :
      (raw : Dict Json) (action : Option Action) (entry : Option Entry) (actor : Actor)
      (requested : ℕ) (receipts : List Receipt) (x : Answer (Unit {0}) × Run E)
      → Holds Unrefused Done Owes x
      → Answered receipts
          (or_escaped sys (ended sys x) (recorded sys raw action entry actor requested receipts))
  recorded-Answered raw action entry actor requested receipts x h =
      let (s, e, sound) = ended-Sound x h in
      subst
        (λ o.
          Answered receipts
            (or_escaped sys o (recorded sys raw action entry actor requested receipts)))
        (sym e)
        (written-Answered receipts _ _
          (build_receipt-validate raw action entry actor requested _ _ s sound))

  taken-Holds :
      (receipts : List Receipt) (seconds now : ℕ) (found : Answer (Request × Entry))
      (raw : Dict Json) (e : E)
      → Refuses found
      → Holds Unrefused Done Owes (taken sys receipts seconds now found (begin sys raw e))
  unfolding Holds Meets Refuses Owes Unrefused
  taken-Holds receipts seconds now (value (r, entry)) raw e h =
      taken-Meets sys Unrefused Unrefused Done Owes receipts now r entry seconds (course _) _ refl
  taken-Holds receipts seconds now (raised x) raw e h =
      let (y, same) = h x refl in subst (λ z. Owes z [] (start_out sys raw)) same tt

  -- On a machine whose clock ticks, every request of every actor is answered, whatever value it is:
  -- no wait outlives its fuel and no exception escapes. The receipt validates, and is written before
  -- the answer in front of those that were there.
  pub handle_receipted :
      (seconds : ℕ) (file : Option Json) (receipts : List Receipt) (actor : Actor)
      (incoming : Incoming) (e : E)
      → (h : Handled sys) × (handle sys seconds file receipts actor incoming e ≡ some h)
        × (validate_receipt h.response.receipt ≡ [])
        × (h.receipts ≡ (h.response.receipt ∷ receipts))
  unfolding handle
  handle_receipted seconds file receipts actor incoming e =
      let raw = raw_of sys incoming in
      let found = target sys actor file incoming in
      recorded-Answered raw (action_of (get "action" raw)) (entry_of sys found) actor (sys.now e)
        receipts (taken sys receipts seconds (sys.now e) found (begin sys raw e))
        (taken-Holds receipts seconds (sys.now e) found raw e
          (target-Refuses sys actor file incoming))
