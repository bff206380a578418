-- ===== src/Ledger/Order.antt =====
-- bin/board.py: the latest of some decisions and the greatest of some instants.
use hermes_agent_workforce_p.Prelude.{
  ℕ, ◌≤◌, ◌≡◌, refl, ap, Bool, true, false, Option, none, some, List, [], ◌∷◌, String, arith, In,
  In-filter, In-sorted, filter, ltb, leb, inl, inr, Bool-cases, opt_eq, str_eq→eq, subst,
  if◌then◌else◌,
}
use hermes_agent_workforce_p.Ledger.{
  Verdict, brief_approved, is_verdict, Decision, moment, ordered_decisions, latest, last, greatest,
  max_by,
}

pub opt_eq→eq : (a b : Option String) → opt_eq a b ≡ true → a ≡ b
opt_eq→eq none none h = refl
opt_eq→eq (some a) (some b) h = ap some (str_eq→eq a b h)
opt_eq→eq none (some b) h = ground (arith, h)
opt_eq→eq (some a) none h = ground (arith, h)

pub is_verdict→eq : (v w : Verdict) → is_verdict v w ≡ true → v ≡ w
is_verdict→eq brief_approved w h = ground (arith, h)
is_verdict→eq v w h = ground (arith, h)

module _ {A : Type 0} where
  pub last-In : (xs : List A) (x : A) → last xs ≡ some x → In x xs
  last-In [] x h = cc
  last-In (y ∷ []) x h = inl (ground (arith, h))
  last-In (y ∷ z ∷ zs) x h = inr (last-In (z ∷ zs) x h)

  greatest-head : (key : A → ℕ) (x : A) (ys : List A) → key x ≤ key (greatest key x ys)
  greatest-head key x [] = ground arith
  greatest-head key x (y ∷ ys) = elim (Bool-cases (ltb (key x) (key y))) [
    | inl e ↦ rw e (ground (arith, e, greatest-head key y ys))
    | inr e ↦ rw e (greatest-head key x ys)
  ]

  greatest-tail : (key : A → ℕ) (x y : A) (ys : List A) → In y ys → key y ≤ key (greatest key x ys)
  greatest-tail key x y [] i = absurd i
  greatest-tail key x y (z ∷ zs) (inl e) = elim (Bool-cases (ltb (key x) (key z))) [
    | inl t ↦ rw t (subst (λ u. key u ≤ key (greatest key z zs)) e (greatest-head key z zs))
    | inr t ↦ rw t (subst (λ u. key u ≤ key (greatest key x zs)) e (below x z zs t))
  ]
    where
      below :
          (x z : A) (zs : List A) → ltb (key x) (key z) ≡ false → key z ≤ key (greatest key x zs)
      below x z zs t = ground (arith, t, greatest-head key x zs)
  greatest-tail key x y (z ∷ zs) (inr i) = elim (Bool-cases (ltb (key x) (key z))) [
    | inl t ↦ rw t (greatest-tail key z y zs i)
    | inr t ↦ rw t (greatest-tail key x y zs i)
  ]

  In-kept : (g x y : A) (ys : List A) → In g (x ∷ ys) → In g (x ∷ y ∷ ys)
  In-kept g x y ys (inl e) = inl e
  In-kept g x y ys (inr i) = inr (inr i)

  greatest-In : (key : A → ℕ) (x : A) (ys : List A) → In (greatest key x ys) (x ∷ ys)
  greatest-In key x [] = inl refl
  greatest-In key x (y ∷ ys) =
      choose (ltb (key x) (key y)) (greatest-In key x ys) (greatest-In key y ys)
    where
      choose :
          (t : Bool)
          → In (greatest key x ys) (x ∷ ys)
          → In (greatest key y ys) (y ∷ ys)
          → In (greatest key (if t then y else x) ys) (x ∷ y ∷ ys)
      choose true i j = inr j
      choose false i j = In-kept (greatest key x ys) x y ys i

  pub max_by-In : (key : A → ℕ) (xs : List A) (m : A) → max_by key xs ≡ some m → In m xs
  max_by-In key [] m h = cc
  max_by-In key (x ∷ xs) m h = subst (λ u. In u (x ∷ xs)) (ground (arith, h)) (greatest-In key x xs)

  pub max_by-bound :
      (key : A → ℕ) (xs : List A) (y : A)
      → In y xs
      → (m : A) × (max_by key xs ≡ some m) × (key y ≤ key m)
  max_by-bound key (x ∷ xs) y (inl e) = (
    greatest key x xs,
    refl,
    subst (λ u. key u ≤ key (greatest key x xs)) e (greatest-head key x xs),
  )
  max_by-bound key (x ∷ xs) y (inr i) = (greatest key x xs, refl, greatest-tail key x y xs i)
  max_by-bound key [] y i = absurd i

-- The latest decision of a kind is one of them.
pub latest-In :
    (p : Decision → Bool) (rows : List Decision) (d : Decision)
    → latest (filter p rows) ≡ some d
    → In d rows × (p d ≡ true)
unfolding latest ordered_decisions
latest-In p rows d h =
    In-filter p d rows
      (In-sorted (λ a b. leb (moment a.ts) (moment b.ts)) d (filter p rows) (last-In _ d h))
