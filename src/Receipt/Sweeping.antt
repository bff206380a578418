-- ===== src/Receipt/Sweeping.antt =====
-- bin/workflow_receipt.py, `amend`: what the sweep does to a receipt.
use hermes_agent_workforce_p.Prelude.{
  ℕ, ◌≡◌, ◌≢◌, refl, sym, ap, subst, ◌∙◌, String, Bool, true, false, Option, none, some, List, [],
  ◌∷◌, arith, In, Bool-cases, Option-cases, str_eq, str_eq→eq, opt_eq, ◌<>◌, inl, inr,
  if◌then◌else◌, map,
}
use hermes_agent_workforce_p.Prelude.Dict.{Dict, lookup, erase, lookup-erase_ne}
use hermes_agent_workforce_p.Stamp.{iso_utc}
use hermes_agent_workforce_p.Receipt.{Receipt, Assertion, Terminal, is_filled}
use hermes_agent_workforce_p.Receipt.Amend.{
  ok, refused, already_swept, Refusal, sweep_pending, amend, amend_if, amended, amended_terminal,
  terminal_with, failed_terminal, joined, failed_ids, fold_in, fold_one, popped, index_by_id,
  is_sweep, is_closed,
}

amend-parts :
    (r r' : Receipt) (fresh : List Assertion) (sweep : String) (now : ℕ)
    → amend r fresh sweep now ≡ ok r'
    → (sweep_pending r ≡ none) × (amended r fresh sweep now ≡ r')
unfolding amend iso_utc amended_terminal
amend-parts r r' fresh sweep now h = elim (Option-cases (sweep_pending r)) [
  | inr (why, e) ↦ absurd (ground (arith, h, e))
  | inl e ↦ elim (Bool-cases (is_filled (some sweep))) [
    | inr f ↦ absurd (ground (arith, h, e, f))
    | inl f ↦ (e, ground (arith, h, e, f))
  ]
]

-- A check of the run itself is not touched.
fold_in-kept :
    (d : Dict Assertion) (as' : List Assertion) (a : Assertion)
    → In a as'
    → is_sweep a ≡ false
    → In a (fold_in d as')
fold_in-kept d (b ∷ bs) a (inl same) n =
    inl (ap (λ x. x.0) (subst (λ x. fold_one d x ≡ (x, d)) (sym same) (rw n refl)) ∙ same)
fold_in-kept d (b ∷ bs) a (inr i) n = inr (fold_in-kept (fold_one d b).1 bs a i n)
fold_in-kept d [] a i n = absurd i

lookup-In :
    (d : Dict Assertion) (k : String) (a : Assertion)
    → lookup k d ≡ some a
    → In a (map (λ x. x.1) d)
lookup-In [] k a h = cc
lookup-In ((j, b) ∷ d) k a h = elim (Bool-cases (str_eq j k)) [
  | inl e ↦ inl (ground (arith, h, e))
  | inr e ↦ inr (lookup-In d k a (ground (arith, h, e)))
]

-- A result of the sweep, by its id, is folded in.
fold_in-In :
    (d : Dict Assertion) (as' : List Assertion) (k : String) (a : Assertion)
    → lookup k d ≡ some a
    → In a (fold_in d as')
fold_in-In d [] k a h = lookup-In d k a h
fold_in-In d (b ∷ bs) k a h = choose (λ d'. fold_in-In d' bs k a) (is_sweep b) (lookup b.id d) refl
  where
    choose :
        ((d' : Dict Assertion) → lookup k d' ≡ some a → In a (fold_in d' bs))
        → (t : Bool) (o : Option Assertion) → lookup b.id d ≡ o
        → (let p = if◌then◌else◌ {A = Assertion × Dict Assertion} t (popped d b o) (b, d) in
            In a (p.0 ∷ fold_in p.1 bs))
    choose later false o e = inr (later d h)
    choose later true none e = inr (later d h)
    choose later true (some c) e = elim (Bool-cases (str_eq b.id k)) [
      | inl s ↦ inl (ground (arith, h, e, str_eq→eq b.id k s))
      | inr s ↦ inr (later (erase b.id d) (lookup-erase_ne b.id k d s ∙ h))
    ]

pending-parts :
    (r : Receipt)
    → sweep_pending r ≡ none
    → (opt_eq r.vantage (some "run") ≡ true)
      × (opt_eq r.terminal.outcome (some "skipped") ≡ false)
      × (is_closed r ≡ false)
unfolding sweep_pending
pending-parts r h = elim (Bool-cases (opt_eq r.vantage (some "run"))) [
  | inr v ↦ absurd (ground (arith, h, v))
  | inl v ↦ elim (Bool-cases (opt_eq r.terminal.outcome (some "skipped"))) [
    | inl s ↦ absurd (ground (arith, h, v, s))
    | inr s ↦ elim (Bool-cases (is_closed r)) [
      | inl c ↦ absurd (ground (arith, h, v, s, c))
      | inr c ↦ (v, s, c)
    ]
  ]
]

terminal_with-none : (t : Terminal) (ids : List String) → ids ≡ [] → terminal_with t ids ≡ t
terminal_with-none t [] h = refl
terminal_with-none t (id ∷ ids) h = cc

failed_terminal-outcome :
    (t : Terminal) (note : String) → (failed_terminal t note).outcome ≡ some "failed"
failed_terminal-outcome t note = elim (Bool-cases (opt_eq t.outcome (some "failed"))) [
  | inl e ↦ rw e refl
  | inr e ↦ rw e refl
]

terminal_with-some :
    (t : Terminal) (ids : List String) → ids ≢ [] → (terminal_with t ids).outcome ≡ some "failed"
terminal_with-some t [] h = absurd (h refl)
terminal_with-some t (id ∷ ids) h =
    failed_terminal-outcome t ("failed sweep checks: " <> joined (id ∷ ids))

terminal_with-ran :
    (t : Terminal) (ids : List String)
    → opt_eq t.outcome (some "skipped") ≡ false
    → opt_eq (terminal_with t ids).outcome (some "skipped") ≡ false
terminal_with-ran t [] h = h
terminal_with-ran t (id ∷ ids) h =
    rw (failed_terminal-outcome t ("failed sweep checks: " <> joined (id ∷ ids))) refl

amended-pending :
    (r : Receipt) (fresh : List Assertion) (sweep : String) (now : ℕ)
    → sweep_pending r ≡ none
    → sweep_pending (amended r fresh sweep now) ≡ some already_swept
unfolding sweep_pending amended_terminal
amended-pending r fresh sweep now h =
    let (v, s, c) = pending-parts r h in
    rw (v, terminal_with-ran r.terminal (failed_ids fresh) s, c) refl

amend-refused :
    (r : Receipt) (why : Refusal) (fresh : List Assertion) (sweep : String) (now : ℕ)
    → sweep_pending r ≡ some why
    → amend r fresh sweep now ≡ refused why
unfolding amend
amend-refused r why fresh sweep now h = ap (amend_if r fresh sweep now) h

unfoldable SweptOnce : Receipt → List Assertion → Receipt → Type 0
SweptOnce r fresh r' =
    ((fresh' : List Assertion) (sweep' : String) (now' : ℕ)
      → amend r' fresh' sweep' now' ≡ refused already_swept)
    × ((a : Assertion) → In a r.assertions → is_sweep a ≡ false → In a r'.assertions)
    × ((k : String) (a : Assertion) → lookup k (index_by_id [] fresh) ≡ some a → In a r'.assertions)
    × ((failed_ids fresh ≡ []) → r'.terminal ≡ r.terminal)
    × ((failed_ids fresh ≢ []) → r'.terminal.outcome ≡ some "failed")

amended-SweptOnce :
    (r : Receipt) (fresh : List Assertion) (sweep : String) (now : ℕ)
    → sweep_pending r ≡ none
    → SweptOnce r fresh (amended r fresh sweep now)
unfolding SweptOnce amended_terminal
amended-SweptOnce r fresh sweep now h =
    let results = index_by_id [] fresh in
    let pending = amended-pending r fresh sweep now h in
    (
      λ fresh' sweep' now'.
          amend-refused (amended r fresh sweep now) already_swept fresh' sweep' now' pending,
      fold_in-kept results r.assertions,
      fold_in-In results r.assertions,
      terminal_with-none r.terminal (failed_ids fresh),
      terminal_with-some r.terminal (failed_ids fresh),
    )

-- An amendment is owed once: the amended receipt is swept, and to amend it again is refused. A check
-- of the run itself stays in it, and every result of the sweep is in it by its id. Its outcome is
-- failed if a check of the sweep failed, and its terminal is the run's own if none did.
pub amend-swept :
    (r r' : Receipt) (fresh : List Assertion) (sweep : String) (now : ℕ)
    → amend r fresh sweep now ≡ ok r'
    → ((fresh' : List Assertion) (sweep' : String) (now' : ℕ)
        → amend r' fresh' sweep' now' ≡ refused already_swept)
      × ((a : Assertion) → In a r.assertions → is_sweep a ≡ false → In a r'.assertions)
      × ((k : String) (a : Assertion)
          → lookup k (index_by_id [] fresh) ≡ some a
          → In a r'.assertions)
      × ((failed_ids fresh ≡ []) → r'.terminal ≡ r.terminal)
      × ((failed_ids fresh ≢ []) → r'.terminal.outcome ≡ some "failed")
unfolding SweptOnce
amend-swept r r' fresh sweep now h =
    let (pending, same) = amend-parts r r' fresh sweep now h in
    subst (SweptOnce r fresh) same (amended-SweptOnce r fresh sweep now pending)
