-- ===== src/Reactor/Flips.antt =====
-- bin/board_reactor.py, `record_health`: a receipt for each flip of the health, and no other.
use hermes_agent_workforce_p.Prelude.{
  ◌≡◌, ◌≢◌, ◌∙◌, ap, subst, refl, String, true, false, Option, none, some, arith, opt_eq,
  str_eq_refl, Bool-cases, inl, inr,
}
use hermes_agent_workforce_p.Ledger.Order.{opt_eq→eq}
use hermes_agent_workforce_p.Reactor.{
  State, Health, Severity, same_class, same_health, record_health,
}

same_class_refl : (c : Severity) → same_class c c ≡ true
same_class_refl Severity.fine = refl
same_class_refl Severity.transient = refl
same_class_refl Severity.capped = refl
same_class_refl Severity.permanent = refl

opt_eq_refl : (r : Option String) → opt_eq r r ≡ true
opt_eq_refl none = refl
opt_eq_refl (some r) = str_eq_refl r

module _ (s : State) (class : Severity) (reason : Option String) where
  abbrev verdict : Health
  verdict = record { class = class; reason = reason }

  record_health-same :
      same_health s.health verdict ≡ true → record_health s class reason ≡ (s, none)
  unfolding record_health
  record_health-same same = rw same

  record_health-flip :
      same_health s.health verdict ≡ false
      → record_health s class reason ≡ (record s { health = some verdict }, some verdict)
  unfolding record_health
  record_health-flip flip = rw flip

verdict_same : (h : Health) → same_health (some h) h ≡ true
verdict_same h = ground (arith, same_class_refl h.class, opt_eq_refl h.reason)

same_class→eq : (c d : Severity) → same_class c d ≡ true → c ≡ d
same_class→eq Severity.fine d h = ground (arith, h)
same_class→eq Severity.transient d h = ground (arith, h)
same_class→eq Severity.capped d h = ground (arith, h)
same_class→eq Severity.permanent d h = ground (arith, h)

same_health→eq : (o : Option Health) (h : Health) → same_health o h ≡ true → o ≡ some h
same_health→eq none h e = cc
same_health→eq (some g) h e =
    let class = same_class→eq g.class h.class (ground (arith, e)) in
    let reason = opt_eq→eq g.reason h.reason (ground (arith, e)) in
    ap some (ap (λ c. record g { class = c }) class ∙ ap (λ r. record h { reason = r }) reason)

flips : (o : Option Health) (h : Health) → same_health o h ≡ false → o ≢ some h
flips o h e same = clash (subst (λ x. same_health x h ≡ false) same e)
  where
    clash : same_health (some h) h ≡ false → ⊥
    clash f = ground (arith, verdict_same h, f)

-- A verdict whose class or reason differs from the recorded one, or that is the first, writes a
-- receipt that says it; one that is the recorded one in both writes none. Either way it is the
-- recorded one afterwards, the same verdict again writes none and changes nothing, and the cards
-- and the count of the day are as they were.
pub record_health_flips :
    (s : State) (class : Severity) (reason : Option String)
    → let h : Health = record { class = class; reason = reason } in
      let (s', receipt) = record_health s class reason in
      (s.health ≡ some h → receipt ≡ none)
      × (s.health ≢ some h → receipt ≡ some h)
      × (s'.health ≡ some h)
      × (record_health s' class reason ≡ (s', none))
      × (s'.cards ≡ s.cards)
      × (s'.count ≡ s.count)
record_health_flips s class reason =
    let h : Health = record { class = class; reason = reason } in
    elim (Bool-cases (same_health s.health h)) [
      | inl same ↦
          let eq = same_health→eq s.health h same in
          rw (record_health-same s class reason same)
            (λ e. refl, λ n. absurd (n eq), eq, record_health-same s class reason same, refl, refl)
      | inr flip ↦ rw (record_health-flip s class reason flip) (
        λ e. absurd (flips s.health h flip e),
        λ n. refl,
        refl,
        record_health-same (record s { health = some h }) class reason (verdict_same h),
        refl,
        refl,
      )
    ]
