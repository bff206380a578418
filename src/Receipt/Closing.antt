-- ===== src/Receipt/Closing.antt =====
-- bin/workflow_receipt.py, `close`: what a review does to a receipt.
use hermes_agent_workforce_p.Prelude.{
  ℕ, ◌≡◌, refl, sym, ap, subst, ◌∙◌, String, Bool, true, false, Option, none, some, List, [], ◌∷◌,
  ◌++◌, arith, Bool-cases, strip, strip-strip_filled, inl, inr,
}
use hermes_agent_workforce_p.Stamp.{iso_utc, parse_time}
use hermes_agent_workforce_p.Receipt.{
  Receipt, Closed, Shaped, odd, shaped, Error, closed_no_object, validate, report_errors,
  missing_errors, run_errors, swept_errors, card_errors, closed_errors, has_failure, is_filled,
}
use hermes_agent_workforce_p.Receipt.Amend.{ok, refused, already_closed, close, judged, is_closed}

abbrev review : String → String → ℕ → Closed
review by reason now = record {
  closed_at = some (iso_utc now);
  by = some (strip by);
  reason = some (strip reason);
}

filled-strip : (s : String) → is_filled (some s) ≡ true → is_filled (some (strip s)) ≡ true
filled-strip s h = ground (arith, h, strip-strip_filled s)

review-closed_errors :
    (by reason : String) (now : ℕ)
    → is_filled (some by) ≡ true
    → is_filled (some reason) ≡ true
    → closed_errors (some (shaped (review by reason now))) true ≡ []
unfolding closed_errors iso_utc parse_time
review-closed_errors by reason now hb hr = rw (filled-strip by hb, filled-strip reason hr) refl

close-parts :
    (r r' : Receipt) (by reason : String) (now : ℕ)
    → close r by reason now ≡ ok r'
    → (has_failure r ≡ true)
      × (is_closed r ≡ false)
      × (is_filled (some by) ≡ true)
      × (is_filled (some reason) ≡ true)
      × (record r { closed = some (shaped (review by reason now)) } ≡ r')
unfolding close
close-parts r r' by reason now h = elim (Bool-cases (has_failure r)) [
  | inr f ↦ absurd (ground (arith, h, f))
  | inl f ↦ elim (Bool-cases (is_closed r)) [
    | inl e ↦ absurd (ground (arith, h, f, e))
    | inr e ↦ elim (Bool-cases (is_filled (some by))) [
      | inr b ↦ absurd (ground (arith, h, f, e, b))
      | inl b ↦ elim (Bool-cases (is_filled (some reason))) [
        | inr c ↦ absurd (ground (arith, h, f, e, b, c))
        | inl c ↦ (f, e, b, c, ground (arith, h, f, e, b, c))
      ]
    ]
  ]
]

-- The errors that a receipt has apart from those of its closure.
abbrev unclosed : Receipt → Receipt
unclosed r = record r { closed = none }

closed_validate :
    (r : Receipt) (by reason : String) (now : ℕ)
    → has_failure r ≡ true
    → is_filled (some by) ≡ true
    → is_filled (some reason) ≡ true
    → validate (record r { closed = some (shaped (review by reason now)) }) ≡ validate (unclosed r)
unfolding validate has_failure missing_errors run_errors closed_errors
closed_validate r by reason now f b c =
    ap (λ x. report_errors r ++ x ++ swept_errors r.swept r.vantage ++ card_errors r.card)
      (ap (closed_errors (some (shaped (review by reason now)))) f
        ∙ review-closed_errors by reason now b c
        ∙ sym (no-closed_errors (has_failure r)))
  where
    no-closed_errors : (failed : Bool) → closed_errors none failed ≡ []
    no-closed_errors failed = refl

some_error : (e : Error) (xs ys zs : List Error) → (xs ++ (e ∷ []) ++ ys ++ zs) ≡ [] → ⊥
some_error e [] ys zs h = ground (arith, h)
some_error e (x ∷ xs) ys zs h = ground (arith, h)

-- A valid receipt that is not closed has no closure at all.
valid-unclosed : (r : Receipt) → is_closed r ≡ false → validate r ≡ [] → validate (unclosed r) ≡ []
unfolding validate closed_errors has_failure missing_errors run_errors
valid-unclosed r n v = by_closed r.closed refl
  where
    by_closed : (c : Option (Shaped Closed)) → r.closed ≡ c → validate (unclosed r) ≡ []
    by_closed none e =
        ap (λ (o : Option (Shaped Closed)). validate (record r { closed = o })) (sym e) ∙ v
    by_closed (some odd) e = absurd (
        some_error closed_no_object (report_errors r) (swept_errors r.swept r.vantage)
          (card_errors r.card)
          (ap (λ (o : Option (Shaped Closed)). validate (record r { closed = o })) (sym e) ∙ v))
    by_closed (some (shaped c)) e = absurd (ground (arith, n, e))

unfoldable Reviewed : Receipt → Receipt → Type 0
Reviewed r r' =
    (validate r' ≡ validate (unclosed r))
    × ((validate r ≡ []) → validate r' ≡ [])
    × (judged r' ≡ false)
    × ((by' reason' : String) (now' : ℕ) → close r' by' reason' now' ≡ refused already_closed)

closed_again :
    (r : Receipt) (by reason by' reason' : String) (now now' : ℕ)
    → has_failure r ≡ true
    → close (record r { closed = some (shaped (review by reason now)) }) by' reason' now'
      ≡ refused already_closed
unfolding close has_failure
closed_again r by reason by' reason' now now' f = rw f refl

review-Reviewed :
    (r : Receipt) (by reason : String) (now : ℕ)
    → has_failure r ≡ true
    → is_closed r ≡ false
    → is_filled (some by) ≡ true
    → is_filled (some reason) ≡ true
    → Reviewed r (record r { closed = some (shaped (review by reason now)) })
unfolding Reviewed
review-Reviewed r by reason now f e b c = (
  closed_validate r by reason now f b c,
  λ v. closed_validate r by reason now f b c ∙ valid-unclosed r e v,
  ground arith,
  λ by' reason' now'. closed_again r by reason by' reason' now now' f,
)

-- A closed receipt has the errors that it would have without any closure, so that a valid one stays
-- valid; a `closed` that was no object, which the review replaces, is the one error that it may lose.
-- No reader judges the receipt any more, and every further review of it is refused.
pub close-validate :
    (r r' : Receipt) (by reason : String) (now : ℕ)
    → close r by reason now ≡ ok r'
    → (validate r' ≡ validate (record r { closed = none }))
      × ((validate r ≡ []) → validate r' ≡ [])
      × (judged r' ≡ false)
      × ((by' reason' : String) (now' : ℕ) → close r' by' reason' now' ≡ refused already_closed)
unfolding Reviewed
close-validate r r' by reason now h =
    let (f, e, b, c, same) = close-parts r r' by reason now h in
    subst (Reviewed r) same (review-Reviewed r by reason now f e b c)
