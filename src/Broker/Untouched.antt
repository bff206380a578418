-- ===== src/Broker/Untouched.antt =====
-- bin/control_broker.py: a refused request has changed no unit.
use hermes_agent_workforce_p.Prelude.{
  ℕ, ◌≡◌, refl, sym, ap, ◌∙◌, subst, Option, some, List, [], ◌⊎◌, inl, inr,
}
use hermes_agent_workforce_p.Prelude.Dict.{Dict}
use hermes_agent_workforce_p.Broker.{Json, Answer, value, raised, refusal, command_failed, escaped}
use hermes_agent_workforce_p.Broker.Allowlist.{Entry}
use hermes_agent_workforce_p.Broker.Machine.{
  Systemd, Run, Outcome, applied, refused, failed, previewed,
}
use hermes_agent_workforce_p.Broker.Request.{Request}
use hermes_agent_workforce_p.Broker.Receipts.{Receipt, Actor}
use hermes_agent_workforce_p.Broker.Target.{Incoming, target}
use hermes_agent_workforce_p.Broker.Handle.{Handled, handle, taken, ended, begin, raw_of}
use hermes_agent_workforce_p.Broker.Keeps.{Kept, Owed, Holds, Meets}
use hermes_agent_workforce_p.Broker.Looks.{careless}
use hermes_agent_workforce_p.Broker.Checks.{Step}
use hermes_agent_workforce_p.Broker.Course.{Course, Stable}
use hermes_agent_workforce_p.Broker.Bodies.{taken-Meets}
use hermes_agent_workforce_p.Broker.Ended.{mutations, mutations-look, handle-Tells}

-- The result is not set to a refusal before the request ends in one.
unfoldable Unrefused : Option Outcome → Type 0
Unrefused (some refused) = ⊥
Unrefused _ = Unit

unfoldable Open : Kept
Open cs o = Unrefused o.result

unfoldable Quiet : Kept
Quiet cs o = (mutations cs ≡ []) × Unrefused o.result

unfoldable Owes : Owed
Owes (refusal x) cs o = mutations cs ≡ []
Owes command_failed cs o = Unit
Owes escaped cs o = Unit

pub some-eq : {A : Type 0} (a b : A) → some a ≡ some b → a ≡ b
some-eq a b h = cc

failed-refused : some failed ≡ some refused → ⊥
failed-refused h = cc

module _ {E : Type 0} (sys : Systemd E) where
  open-Stable : Stable sys Open Owes
  unfolding Open Owes
  open-Stable = record {
    look = λ cs o c l p. p;
    same = λ cs o q a b p. subst Unrefused (sym a) p;
    fails = λ cs o p. tt;
    patience = careless (λ cs o p. tt);
  }

  quiet-Stable : Stable sys Quiet Owes
  unfolding Quiet Owes
  quiet-Stable = record {
    look = λ cs o c l p. (mutations-look cs c l ∙ p.0, p.1);
    same = λ cs o q a b p. (p.0, subst Unrefused (sym a) p.1);
    fails = λ cs o p. tt;
    patience = careless (λ cs o p. tt);
  }

  quiet-Course : (May : Step → Type 0) → Course sys Quiet Open Open Owes May
  unfolding Quiet Open Owes Unrefused
  quiet-Course May = record {
    before = quiet-Stable;
    during = open-Stable;
    after = open-Stable;
    refusing = λ x cs o p. p.0;
    begins = λ cs o p. p.1;
    moves = λ cs o scope verb unit done m p. p;
    finishes = λ cs o x h p. left x h;
    softly = λ cs o p. tt;
  }
    where
      left : (x : Outcome) → (x ≡ applied) ⊎ (x ≡ previewed) → Unrefused (some x)
      left x (inl e) = subst (λ y. Unrefused (some y)) (sym e) tt
      left x (inr e) = subst (λ y. Unrefused (some y)) (sym e) tt

  taken-Holds :
      (receipts : List Receipt) (seconds now : ℕ) (found : Answer (Request × Entry))
      (raw : Dict Json) (e : E)
      → Holds Quiet Open Owes (taken sys receipts seconds now found (begin sys raw e))
  unfolding Holds Meets Quiet Owes Unrefused mutations
  taken-Holds receipts seconds now (value (r, entry)) raw e =
      taken-Meets sys Quiet Open Open Owes receipts now r entry seconds (quiet-Course _) _
        (refl, tt)
  taken-Holds receipts seconds now (raised (refusal x)) raw e = refl
  taken-Holds receipts seconds now (raised command_failed) raw e = tt
  taken-Holds receipts seconds now (raised escaped) raw e = tt

  ended-quiet :
      (x : Answer (Unit {0}) × Run E) (s : Run E)
      → Holds Quiet Open Owes x
      → ended sys x ≡ some s
      → s.out.result ≡ some refused
      → mutations s.commands ≡ []
  unfolding Holds Open Owes Unrefused
  ended-quiet (value u, t) s h e q =
      absurd (subst Unrefused (ap (λ c. c.out.result) (some-eq t s e) ∙ q) h)
  ended-quiet (raised (refusal r), t) s h e q =
      subst (λ c. mutations c.commands ≡ []) (some-eq _ s e) h
  ended-quiet (raised command_failed, t) s h e q =
      absurd (failed-refused (ap (λ c. c.out.result) (some-eq _ s e) ∙ q))
  ended-quiet (raised escaped, t) s h e q = cc

  -- A request that is refused has mutated nothing: when the receipt says refused, none of its
  -- commands is a mutation, whatever was refused, at whichever check, and whatever systemd said.
  pub refused-untouched :
      (seconds : ℕ) (file : Option Json) (receipts : List Receipt) (actor : Actor)
      (incoming : Incoming) (e : E) (h : Handled sys)
      → handle sys seconds file receipts actor incoming e ≡ some h
      → h.response.receipt.result ≡ some refused
      → mutations h.response.receipt.commands ≡ []
  refused-untouched seconds file receipts actor incoming e h q r =
      let (s, ends, tells) = handle-Tells sys seconds file receipts actor incoming e h q in
      ap mutations tells.0
      ∙ ended-quiet _ s
          (taken-Holds receipts seconds (sys.now e) (target sys actor file incoming)
            (raw_of sys incoming) e)
          ends (sym tells.1 ∙ r)
