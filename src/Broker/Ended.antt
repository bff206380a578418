-- ===== src/Broker/Ended.antt =====
-- bin/control_broker.py: the receipt of an answered request tells of the run that it ended, and the
-- mutations among the commands of a run.
use hermes_agent_workforce_p.Prelude.{
  ℕ, ◌≡◌, refl, sym, ap, String, Bool, Option, none, some, List, [], ◌∷◌, ◌++◌, Bool-cases, inl,
  inr,
}
use hermes_agent_workforce_p.Prelude.Dict.{Dict}
use hermes_agent_workforce_p.Broker.{Json, Action, Scope, get, action_of}
use hermes_agent_workforce_p.Broker.Allowlist.{Entry}
use hermes_agent_workforce_p.Broker.Machine.{Systemd, Run, Command, showed, mutated, elapsed}
use hermes_agent_workforce_p.Broker.Receipts.{Receipt, Actor, is_clean, validate_receipt}
use hermes_agent_workforce_p.Broker.Checks.{Step}
use hermes_agent_workforce_p.Broker.Target.{Incoming, target}
use hermes_agent_workforce_p.Broker.Handle.{
  Handled, handle, taken, ended, recorded, or_escaped, raw_of, begin, entry_of, written,
}
use hermes_agent_workforce_p.Broker.Responses.{build_receipt}
use hermes_agent_workforce_p.Broker.Looks.{IsLook}

-- The mutating steps among the commands.
unfoldable pub mutations : List Command → List Step
mutations [] = []
mutations (showed scope unit done ∷ cs) = mutations cs
mutations (mutated scope verb unit done ∷ cs) = (scope, verb, unit) ∷ mutations cs
mutations (elapsed spec done ∷ cs) = mutations cs

pub mutations-look :
    (cs : List Command) (c : Command) → IsLook c → mutations (cs ++ (c ∷ [])) ≡ mutations cs
unfolding mutations IsLook
mutations-look [] (showed scope unit done) l = refl
mutations-look [] (elapsed spec done) l = refl
mutations-look [] (mutated scope verb unit done) l = absurd l
mutations-look (showed scope unit done ∷ cs) c l = mutations-look cs c l
mutations-look (mutated scope verb unit done ∷ cs) c l =
    ap (λ xs. (scope, verb, unit) ∷ xs) (mutations-look cs c l)
mutations-look (elapsed spec done ∷ cs) c l = mutations-look cs c l

pub mutations-mutated :
    (cs : List Command) (scope : Scope) (verb unit : String) (done : Bool)
    → mutations (cs ++ (mutated scope verb unit done ∷ []))
      ≡ (mutations cs ++ ((scope, verb, unit) ∷ []))
unfolding mutations
mutations-mutated [] scope verb unit done = refl
mutations-mutated (showed s u d ∷ cs) scope verb unit done =
    mutations-mutated cs scope verb unit done
mutations-mutated (mutated s v u d ∷ cs) scope verb unit done =
    ap (λ xs. (s, v, u) ∷ xs) (mutations-mutated cs scope verb unit done)
mutations-mutated (elapsed s d ∷ cs) scope verb unit done =
    mutations-mutated cs scope verb unit done

module _ {E : Type 0} (sys : Systemd E) where
  -- The receipt says what the run has done.
  abbrev pub Tells : Handled sys → Run E → Type 0
  Tells h s =
      (h.response.receipt.commands ≡ s.commands) × (h.response.receipt.result ≡ s.out.result)

  written-receipt :
      (receipts : List Receipt) (r : Receipt) (e : E) (h : Handled sys)
      → written sys receipts r e ≡ some h
      → h.response.receipt ≡ r
  written-receipt receipts r e h w = elim (Bool-cases (is_clean (validate_receipt r))) [
    | inl c ↦ sym (ap receipt_of (some-eq _ h (rw c at w)))
    | inr c ↦ absurd (apart (rw c at w))
  ]
    where
      receipt_of : Handled sys → Receipt
      receipt_of x = x.response.receipt

      some-eq : (a b : Handled sys) → some a ≡ some b → a ≡ b
      some-eq a b x = cc

      apart : none ≡ some h → ⊥
      apart x = cc

  recorded-Tells :
      (raw : Dict Json) (action : Option Action) (entry : Option Entry) (actor : Actor)
      (requested : ℕ) (receipts : List Receipt) (o : Option (Run E)) (h : Handled sys)
      → or_escaped sys o (recorded sys raw action entry actor requested receipts) ≡ some h
      → (s : Run E) × (o ≡ some s) × Tells h s
  unfolding build_receipt
  recorded-Tells raw action entry actor requested receipts none h e = cc
  recorded-Tells raw action entry actor requested receipts (some s) h e =
      let same = written-receipt receipts _ _ h e in
      (s, refl, (ap (λ r. r.commands) same, ap (λ r. r.result) same))

  -- The run that an answer ends.
  pub handle-Tells :
      (seconds : ℕ) (file : Option Json) (receipts : List Receipt) (actor : Actor)
      (incoming : Incoming) (e : E) (h : Handled sys)
      → handle sys seconds file receipts actor incoming e ≡ some h
      → (s : Run E) × (ended sys (
            taken sys receipts seconds
              (sys.now e)
              (target sys actor file incoming)
              (begin sys (raw_of sys incoming) e))
          ≡ some s)
        × Tells h s
  unfolding handle
  handle-Tells seconds file receipts actor incoming e h q =
      recorded-Tells (raw_of sys incoming) (action_of (get "action" (raw_of sys incoming)))
        (entry_of sys (target sys actor file incoming)) actor (sys.now e) receipts _ h q
