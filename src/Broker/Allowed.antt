-- ===== src/Broker/Allowed.antt =====
-- bin/control_broker.py: a request mutates only what its entry permits.
use hermes_agent_workforce_p.Prelude.{
  arith, ℕ, ◌≡◌, refl, sym, ap, ◌∙◌, subst, true, Option, some, List, [], ◌⊎◌, inl, inr, All,
  All-append,
}
use hermes_agent_workforce_p.Prelude.Dict.{Dict}
use hermes_agent_workforce_p.Broker.{
  Json, Answer, value, raised, Exception, refusal, command_failed, escaped, value_before,
}
use hermes_agent_workforce_p.Broker.Allowlist.{Allowlist, Entry, load, lookup_entry}
use hermes_agent_workforce_p.Broker.Machine.{Systemd, Run}
use hermes_agent_workforce_p.Broker.Request.{Request, validate_request, peer_allowed}
use hermes_agent_workforce_p.Broker.Receipts.{Receipt, Actor, screen}
use hermes_agent_workforce_p.Broker.Target.{Incoming, body, target, parsed, peer_checked}
use hermes_agent_workforce_p.Broker.Handle.{Handled, handle, taken, ended, begin, raw_of}
use hermes_agent_workforce_p.Broker.Keeps.{Kept, Owed, Holds, Meets}
use hermes_agent_workforce_p.Broker.Looks.{careless}
use hermes_agent_workforce_p.Broker.Permitted.{Permitted}
use hermes_agent_workforce_p.Broker.Checks.{Step}
use hermes_agent_workforce_p.Broker.Course.{Course, Stable}
use hermes_agent_workforce_p.Broker.Bodies.{taken-Meets}
use hermes_agent_workforce_p.Broker.Ended.{
  mutations, mutations-look, mutations-mutated, handle-Tells,
}
use hermes_agent_workforce_p.Broker.Untouched.{some-eq}

-- How a request came to its entry: it is a valid one, of an actor that may act, and the allowlist
-- as it is read gives the entry of its id.
pub record Admitted {E : Type 0} (sys : Systemd E) (file : Option Json) (actor : Actor)
    (incoming : Incoming) (r : Request) (entry : Entry) : Type 0 where
  pub json : Json
  pub sent : incoming ≡ body json
  pub valid : validate_request json ≡ value r
  pub peer : actor.kind ≡ screen → peer_allowed sys.is_loopback actor.remote actor.local ≡ true
  pub allowlist : Allowlist
  pub read : load file ≡ value allowlist
  pub found : lookup_entry r.workflow_id allowlist ≡ value entry

module _ {E : Type 0} (sys : Systemd E) where
  peer_checked-allowed :
      (actor : Actor) {u : Unit {0}}
      → peer_checked sys actor ≡ value u
      → actor.kind ≡ screen
      → peer_allowed sys.is_loopback actor.remote actor.local ≡ true
  peer_checked-allowed actor h k = ground (arith, h, k)

  parsed-body :
      (incoming : Incoming) (r : Request)
      → parsed sys incoming ≡ value r
      → (j : Json) × (incoming ≡ body j) × (validate_request j ≡ value r)
  parsed-body (body j) r h = (j, refl, h)
  parsed-body (Incoming.rejected c) r h = cc

  pair-eq :
      {A B : Type 0} (a c : A) (b d : B)
      → ◌≡◌ {A = Answer (A × B)} (value (a, b)) (value (c, d))
      → (a ≡ c) × (b ≡ d)
  pair-eq a c b d h = (cc, cc)

  target-Admitted :
      (actor : Actor) (file : Option Json) (incoming : Incoming) (r : Request) (entry : Entry)
      → target sys actor file incoming ≡ value (r, entry)
      → Admitted sys file actor incoming r entry
  unfolding target
  target-Admitted actor file incoming r entry h =
      let (r', p, a) = value_before (parsed sys incoming) _ h in
      let (u, q, b) = value_before (peer_checked sys actor) _ a in
      let (list, l, c) = value_before (load file) _ b in
      let (entry', f, d) = value_before (lookup_entry r'.workflow_id list) _ c in
      let (same, same') = pair-eq r' r entry' entry d in
      let (j, sent, valid) = parsed-body incoming r' p in
      record {
        json = j;
        sent = sent;
        valid = valid ∙ ap value same;
        peer = peer_checked-allowed actor q;
        allowlist = list;
        read = l;
        found = ap (λ x. lookup_entry x.workflow_id list) (sym same) ∙ f ∙ ap value same';
      }

  module _ (May : Step → Type 0) where
    unfoldable Lawful : Kept
    Lawful cs o = All May (mutations cs)

    unfoldable Owes : Owed
    Owes e cs o = All May (mutations cs)

    lawful-Stable : Stable sys Lawful Owes
    unfolding Lawful Owes
    lawful-Stable = record {
      look = λ cs o c l p. subst (All May) (sym (mutations-look cs c l)) p;
      same = λ cs o q a b p. p;
      fails = λ cs o p. p;
      patience = careless (λ cs o p. p);
    }

    lawful-Course : Course sys Lawful Lawful Lawful Owes May
    unfolding Lawful Owes
    lawful-Course = record {
      before = lawful-Stable;
      during = lawful-Stable;
      after = lawful-Stable;
      refusing = λ x cs o p. p;
      begins = λ cs o p. p;
      moves = λ cs o scope verb unit done m p.
          subst (All May) (sym (mutations-mutated cs scope verb unit done))
            (All-append May (mutations cs) _ p (m, tt));
      finishes = λ cs o x h p. p;
      softly = λ cs o p. p;
    }

    ended-lawful :
        (x : Answer (Unit {0}) × Run E) (s : Run E)
        → Holds Lawful Lawful Owes x
        → ended sys x ≡ some s
        → All May (mutations s.commands)
    unfolding Holds Lawful Owes
    ended-lawful (value u, t) s h e = subst (λ c. All May (mutations c.commands)) (some-eq t s e) h
    ended-lawful (raised (refusal r), t) s h e =
        subst (λ c. All May (mutations c.commands)) (some-eq _ s e) h
    ended-lawful (raised command_failed, t) s h e =
        subst (λ c. All May (mutations c.commands)) (some-eq _ s e) h
    ended-lawful (raised escaped, t) s h e = cc

  -- What a request has mutated: nothing, or steps that its entry permits it.
  abbrev pub Lawfully : Option Json → List Receipt → Actor → Incoming → E → List Step → Type 0
  Lawfully file receipts actor incoming e steps =
      (steps ≡ [])
      ⊎ ((r : Request) × (entry : Entry) × Admitted sys file actor incoming r entry
          × All (Permitted receipts (sys.now e) r entry) steps)

  raised-commands :
      (x : Exception) (t s : Run E) → ended sys (raised x, t) ≡ some s → s.commands ≡ t.commands
  raised-commands (refusal r) t s e = ap (λ c. c.commands) (sym (some-eq _ s e))
  raised-commands command_failed t s e = ap (λ c. c.commands) (sym (some-eq _ s e))
  raised-commands escaped t s e = cc

  taken-lawful :
      (seconds : ℕ) (file : Option Json) (receipts : List Receipt) (actor : Actor)
      (incoming : Incoming) (e : E) (s : Run E) (raw : Dict Json) (found : Answer (Request × Entry))
      → target sys actor file incoming ≡ found
      → ended sys (taken sys receipts seconds (sys.now e) found (begin sys raw e)) ≡ some s
      → Lawfully file receipts actor incoming e (mutations s.commands)
  unfolding Meets Lawful mutations
  taken-lawful seconds file receipts actor incoming e s raw (value (r, entry)) t q = inr (
    r,
    entry,
    target-Admitted actor file incoming r entry t,
    ended-lawful (Permitted receipts (sys.now e) r entry) _ s
        (taken-Meets sys (Lawful (Permitted receipts (sys.now e) r entry))
          (Lawful (Permitted receipts (sys.now e) r entry))
          (Lawful (Permitted receipts (sys.now e) r entry))
          (Owes (Permitted receipts (sys.now e) r entry)) receipts (sys.now e) r entry seconds
          (lawful-Course (Permitted receipts (sys.now e) r entry)) _ tt)
        q,
  )
  taken-lawful seconds file receipts actor incoming e s raw (raised x) t q =
      inl (ap mutations (raised-commands x _ s q))

  -- Every mutation of an answered request is permitted: the request is valid and its peer allowed,
  -- the allowlist has an entry for its id, and each step is on a unit of that entry, by the verb of
  -- the action. A stop has a confirmation and a reason, a retry a workflow that declares it, a resume
  -- a preview of this workflow at most ten minutes old, a runtime a confirmation, and for stop and
  -- restart a reason.
  pub mutations-Permitted :
      (seconds : ℕ) (file : Option Json) (receipts : List Receipt) (actor : Actor)
      (incoming : Incoming) (e : E) (h : Handled sys)
      → handle sys seconds file receipts actor incoming e ≡ some h
      → Lawfully file receipts actor incoming e (mutations h.response.receipt.commands)
  mutations-Permitted seconds file receipts actor incoming e h q =
      let (s, ends, tells) = handle-Tells sys seconds file receipts actor incoming e h q in
      subst (λ cs. Lawfully file receipts actor incoming e (mutations cs)) (sym tells.0)
        (taken-lawful seconds file receipts actor incoming e s (raw_of sys incoming)
          (target sys actor file incoming) refl ends)
