-- ===== src/Prelude/Members.antt =====
-- Membership with its place, through the list functions of the models.
use Prim.Native.Nat.{ℕ, zero, suc, ◌<◌}
use mathlib.Core.Path.{◌≡◌, refl, ap, ◌∙◌, sym}
use mathlib.Core.Logic.{◌⊎◌, inl, inr}
use mathlib.Core.Bool.{Bool, true}
use mathlib.Core.List.{List, [], ◌∷◌, ◌++◌, map}
use native.Mathlib.Omega.{arith}
use hermes_agent_workforce_p.Prelude.Tests.{Bool-cases}
use hermes_agent_workforce_p.Prelude.Lists.{length, take, filter, place, sorted, All}

in-swap : {P Q R S : Type 0} → (R → P ⊎ S) → Q ⊎ R → P ⊎ (Q ⊎ S)
in-swap f (inl q) = inr (inl q)
in-swap f (inr r) = elim (f r) [ inl p ↦ inl p | inr s ↦ inr (inr s) ]

module _ {A : Type 0} where
  -- `x in l`, with the place where it stands.
  abbrev pub In : A → List A → Type 0
  In x [] = ⊥
  In x (y ∷ ys) = (y ≡ x) ⊎ In x ys

  pub In-place : (le : A → A → Bool) (x y : A) (ys : List A) → In x (place le y ys) → In x (y ∷ ys)
  In-place le x y [] h = h
  In-place le x y (z ∷ zs) h = elim (Bool-cases (le y z)) [
    | inl e ↦ rw e at h
    | inr e ↦ in-swap (In-place le x y zs) (rw e at h)
  ]

  pub In-sorted : (le : A → A → Bool) (x : A) (ys : List A) → In x (sorted le ys) → In x ys
  In-sorted le x [] h = h
  In-sorted le x (y ∷ ys) h = elim (In-place le x y (sorted le ys) h) [
    | inl e ↦ inl e
    | inr i ↦ inr (In-sorted le x ys i)
  ]

  pub In-filter : (p : A → Bool) (x : A) (ys : List A) → In x (filter p ys) → In x ys × (p x ≡ true)
  In-filter p x [] h = absurd h
  In-filter p x (y ∷ ys) h = elim (Bool-cases (p y)) [
    | inl e ↦ elim (In-kept e h) [
      | inl same ↦ (inl same, ap p (sym same) ∙ e)
      | inr i ↦ let (j, t) = In-filter p x ys i in (inr j, t)
    ]
    | inr e ↦ let (j, t) = In-filter p x ys (rw e at h) in (inr j, t)
  ]
    where
      In-kept : p y ≡ true → In x (filter p (y ∷ ys)) → (y ≡ x) ⊎ In x (filter p ys)
      In-kept e i = rw e at i

  In-behind :
      (x y z : A) (ys zs : List A) → (In x (y ∷ ys) → In x zs) → In x (y ∷ z ∷ ys) → In x (z ∷ zs)
  In-behind x y z ys zs f (inl e) = inr (f (inl e))
  In-behind x y z ys zs f (inr (inl e)) = inl e
  In-behind x y z ys zs f (inr (inr i)) = inr (f (inr i))

  pub place-In : (le : A → A → Bool) (x y : A) (ys : List A) → In x (y ∷ ys) → In x (place le y ys)
  place-In le x y [] h = h
  place-In le x y (z ∷ zs) h = elim (Bool-cases (le y z)) [
    | inl e ↦ rw e h
    | inr e ↦ rw e (In-behind x y z zs (place le y zs) (place-In le x y zs) h)
  ]

  pub sorted-In : (le : A → A → Bool) (x : A) (ys : List A) → In x ys → In x (sorted le ys)
  sorted-In le x [] h = h
  sorted-In le x (y ∷ ys) (inl e) = place-In le x y (sorted le ys) (inl e)
  sorted-In le x (y ∷ ys) (inr i) = place-In le x y (sorted le ys) (inr (sorted-In le x ys i))

  pub filter-In : (p : A → Bool) (x : A) (ys : List A) → In x ys → p x ≡ true → In x (filter p ys)
  filter-In p x [] h e = h
  filter-In p x (y ∷ ys) (inl same) e = rw (ap p same ∙ e) (inl same)
  filter-In p x (y ∷ ys) (inr i) e = elim (Bool-cases (p y)) [
    | inl t ↦ rw t (inr (filter-In p x ys i e))
    | inr t ↦ rw t (filter-In p x ys i e)
  ]

  pub In-append_left : (x : A) (xs ys : List A) → In x xs → In x (xs ++ ys)
  In-append_left x [] ys h = absurd h
  In-append_left x (z ∷ zs) ys (inl e) = inl e
  In-append_left x (z ∷ zs) ys (inr i) = inr (In-append_left x zs ys i)

  pub In-append_right : (x : A) (xs ys : List A) → In x ys → In x (xs ++ ys)
  In-append_right x [] ys h = h
  In-append_right x (z ∷ zs) ys h = inr (In-append_right x zs ys h)

  pub append-In : (x : A) (xs ys : List A) → In x (xs ++ ys) → In x xs ⊎ In x ys
  append-In x [] ys h = inr h
  append-In x (z ∷ zs) ys (inl e) = inl (inl e)
  append-In x (z ∷ zs) ys (inr i) = elim (append-In x zs ys i) [
    | inl j ↦ inl (inr j)
    | inr j ↦ inr j
  ]

  -- An element is among the first `n`, or the list is longer.
  pub In-take : (n : ℕ) (x : A) (xs : List A) → In x xs → In x (take n xs) ⊎ (n < length xs)
  In-take zero x (y ∷ ys) h = inr (omega arith)
  In-take zero x [] h = absurd h
  In-take (suc n) x [] h = absurd h
  In-take (suc n) x (y ∷ ys) (inl e) = inl (inl e)
  In-take (suc n) x (y ∷ ys) (inr i) = elim (In-take n x ys i) [
    | inl j ↦ inl (inr j)
    | inr l ↦ inr (omega arith)
  ]

  -- What holds of each element holds of all.
  pub All-of_In {κ} : (P : A → Type κ) (xs : List A) → ((x : A) → In x xs → P x) → All P xs
  All-of_In P [] h = tt
  All-of_In P (x ∷ xs) h = (h x (inl refl), All-of_In P xs (λ y i. h y (inr i)))

pub In-map : {A B : Type 0} (f : A → B) (x : A) (xs : List A) → In x xs → In (f x) (map f xs)
In-map f x [] h = absurd h
In-map f x (y ∷ ys) (inl e) = inl (ap f e)
In-map f x (y ∷ ys) (inr i) = inr (In-map f x ys i)
