-- ===== src/Ledger/Sorted.antt =====
-- Python's `sorted` with a key, and a filter: they commute.
use hermes_agent_workforce_p.Prelude.{
  ℕ, ◌≤◌, ◌≡◌, refl, sym, ap, ◌∙◌, Bool, true, false, List, [], ◌∷◌, arith, filter, sorted, place,
  leb, All, Bool-cases, inl, inr,
}

module _ {A : Type 0} (key : A → ℕ) where
  abbrev pub in_order : A → A → Bool
  in_order a b = leb (key a) (key b)

  abbrev pub Above : ℕ → List A → Type 0
  Above n ys = All (λ y. n ≤ key y) ys

  abbrev pub IsSorted : List A → Type 0
  IsSorted [] = Unit
  IsSorted (y ∷ ys) = Above (key y) ys × IsSorted ys

  Above-weaken : (m n : ℕ) (ys : List A) → m ≤ n → Above n ys → Above m ys
  Above-weaken m n [] le h = tt
  Above-weaken m n (y ∷ ys) le h = (ground (arith, le, h.0), Above-weaken m n ys le h.1)

  Above-place :
      (n : ℕ) (x : A) (ys : List A) → n ≤ key x → Above n ys → Above n (place in_order x ys)
  Above-place n x [] le h = (le, tt)
  Above-place n x (y ∷ ys) le h = elim (Bool-cases (leb (key x) (key y))) [
    | inl e ↦ rw e (le, h)
    | inr e ↦ rw e (h.0, Above-place n x ys le h.1)
  ]

  place-IsSorted : (x : A) (ys : List A) → IsSorted ys → IsSorted (place in_order x ys)
  place-IsSorted x [] h = (tt, tt)
  place-IsSorted x (y ∷ ys) h = elim (Bool-cases (leb (key x) (key y))) [
    | inl e ↦ rw e ((below e, Above-weaken (key x) (key y) ys (below e) h.0), h)
    | inr e ↦ rw e (Above-place (key y) x ys (above e) h.0, place-IsSorted x ys h.1)
  ]
    where
      below : leb (key x) (key y) ≡ true → key x ≤ key y
      below e = ground (arith, e)

      above : leb (key x) (key y) ≡ false → key y ≤ key x
      above e = ground (arith, e)

  pub sorted-IsSorted : (xs : List A) → IsSorted (sorted in_order xs)
  sorted-IsSorted [] = tt
  sorted-IsSorted (x ∷ xs) = place-IsSorted x (sorted in_order xs) (sorted-IsSorted xs)

  Above-filter : (p : A → Bool) (n : ℕ) (ys : List A) → Above n ys → Above n (filter p ys)
  Above-filter p n [] h = tt
  Above-filter p n (y ∷ ys) h = elim (Bool-cases (p y)) [
    | inl e ↦ rw e (h.0, Above-filter p n ys h.1)
    | inr e ↦ rw e (Above-filter p n ys h.1)
  ]

  place-front : (x : A) (ys : List A) → Above (key x) ys → place in_order x ys ≡ x ∷ ys
  place-front x [] h = refl
  place-front x (y ∷ ys) h = ground (arith, h.0)

  filter-place_kept :
      (p : A → Bool) (x : A) (ys : List A)
      → p x ≡ true
      → IsSorted ys
      → filter p (place in_order x ys) ≡ place in_order x (filter p ys)
  filter-place_kept p x [] e h = rw e refl
  filter-place_kept p x (y ∷ ys) e h = elim (Bool-cases (leb (key x) (key y))) [
    | inl le ↦ kept le (
        place-front x (filter p (y ∷ ys)) (
          Above-filter p (key x) (y ∷ ys)
            (below le, Above-weaken (key x) (key y) ys (below le) h.0)))
    | inr le ↦ ground (arith, le, filter-place_kept p x ys e h.1)
  ]
    where
      below : leb (key x) (key y) ≡ true → key x ≤ key y
      below le = ground (arith, le)

      kept :
          leb (key x) (key y) ≡ true
          → place in_order x (filter p (y ∷ ys)) ≡ x ∷ filter p (y ∷ ys)
          → filter p (place in_order x (y ∷ ys)) ≡ place in_order x (filter p (y ∷ ys))
      kept le front = rw (le, e, front) refl

  filter-place_dropped :
      (p : A → Bool) (x : A) (ys : List A)
      → p x ≡ false
      → filter p (place in_order x ys) ≡ filter p ys
  filter-place_dropped p x [] e = rw e refl
  filter-place_dropped p x (y ∷ ys) e = elim (Bool-cases (leb (key x) (key y))) [
    | inl le ↦ rw (le, e) refl
    | inr le ↦ ground (arith, le, filter-place_dropped p x ys e)
  ]

  pub filter-sorted :
      (p : A → Bool) (xs : List A) → filter p (sorted in_order xs) ≡ sorted in_order (filter p xs)
  filter-sorted p [] = refl
  filter-sorted p (x ∷ xs) = elim (Bool-cases (p x)) [
    | inl e ↦
        filter-place_kept p x (sorted in_order xs) e (sorted-IsSorted xs)
        ∙ ap (place in_order x) (filter-sorted p xs)
        ∙ ap (sorted in_order) (sym (kept e))
    | inr e ↦
        filter-place_dropped p x (sorted in_order xs) e
        ∙ filter-sorted p xs
        ∙ ap (sorted in_order) (sym (dropped e))
  ]
    where
      kept : p x ≡ true → filter p (x ∷ xs) ≡ x ∷ filter p xs
      kept e = rw e refl

      dropped : p x ≡ false → filter p (x ∷ xs) ≡ filter p xs
      dropped e = rw e refl

  -- A narrower filter makes an earlier one void.
  pub filter-filter :
      (p q : A → Bool) (xs : List A)
      → ((x : A) → q x ≡ true → p x ≡ true)
      → filter q (filter p xs) ≡ filter q xs
  filter-filter p q [] h = refl
  filter-filter p q (x ∷ xs) h = elim (Bool-cases (p x)) [
    | inl e ↦ ground (arith, e, filter-filter p q xs h)
    | inr e ↦ ground (arith, e, h x, filter-filter p q xs h)
  ]
