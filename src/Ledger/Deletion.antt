-- ===== src/Ledger/Deletion.antt =====
-- bin/board.py, `_deletion`: the last of the deletions and restorations of a card.
use hermes_agent_workforce_p.Prelude.{
  ℕ, ◌≤◌, ◌≡◌, refl, sym, ap, subst, ◌∙◌, String, true, false, none, some, List, [], ◌∷◌, arith,
  filter, sorted, place, leb, In, In-filter, filter-In, inl, inr, Bool-cases, Option-cases, opt_eq,
  str_eq_refl,
}
use hermes_agent_workforce_p.Ledger.{
  Decision, Verdict, deleted, restored, moment, latest, last, ordered_decisions,
}
use hermes_agent_workforce_p.Ledger.Derive.{deletion, is_deletion, is_deleted}
use hermes_agent_workforce_p.Ledger.Sorted.{in_order, IsSorted, Above, sorted-IsSorted}
use hermes_agent_workforce_p.Ledger.Order.{opt_eq→eq, is_verdict→eq, latest-In}

module _ {A : Type 0} (key : A → ℕ) where
  place-In : (x y : A) (ys : List A) → In y (x ∷ ys) → In y (place (in_order key) x ys)
  place-In x y [] i = i
  place-In x y (z ∷ zs) i = elim (Bool-cases (leb (key x) (key z))) [
    | inl e ↦ rw e i
    | inr e ↦ rw e (past (λ j. place-In x y zs j) i)
  ]
    where
      past :
          (In y (x ∷ zs) → In y (place (in_order key) x zs))
          → In y (x ∷ z ∷ zs)
          → In y (z ∷ place (in_order key) x zs)
      past later (inl same) = inr (later (inl same))
      past later (inr (inl same)) = inl same
      past later (inr (inr j)) = inr (later (inr j))

  sorted-In : (y : A) (ys : List A) → In y ys → In y (sorted (in_order key) ys)
  sorted-In y [] i = i
  sorted-In y (z ∷ zs) (inl e) = place-In z y (sorted (in_order key) zs) (inl e)
  sorted-In y (z ∷ zs) (inr i) = place-In z y (sorted (in_order key) zs) (inr (sorted-In y zs i))

  Above-In : (n : ℕ) (y : A) (ys : List A) → Above key n ys → In y ys → n ≤ key y
  Above-In n y [] h i = absurd i
  Above-In n y (z ∷ zs) h (inl e) = subst (λ x. n ≤ key x) e h.0
  Above-In n y (z ∷ zs) h (inr i) = Above-In n y zs h.1 i

  last-bound :
      (x y : A) (ys : List A) → IsSorted key ys → last ys ≡ some x → In y ys → key y ≤ key x
  last-bound x y [] h l i = absurd i
  last-bound x y (z ∷ []) h l (inl e) = ground (arith, l, e)
  last-bound x y (z ∷ []) h l (inr i) = absurd i
  last-bound x y (z ∷ w ∷ ws) h l (inl e) =
      let top = last-bound x w (w ∷ ws) h.1 l (inl refl) in
      let first = Above-In (key z) w (w ∷ ws) h.0 (inl refl) in
      subst (λ u. key u ≤ key x) e (ground (arith, top, first))
  last-bound x y (z ∷ w ∷ ws) h l (inr i) = last-bound x y (w ∷ ws) h.1 l i

last-none : {A : Type 0} (y : A) (ys : List A) → last ys ≡ none → In y ys → ⊥
last-none y [] h i = i
last-none y (z ∷ []) h i = ground (arith, h)
last-none y (z ∷ w ∷ ws) h i = last-none w (w ∷ ws) h (inl refl)

latest-bound :
    (rows : List Decision) (d e : Decision)
    → latest rows ≡ some d
    → In e rows
    → moment e.ts ≤ moment d.ts
unfolding latest ordered_decisions
latest-bound rows d e h i =
    last-bound (λ (x : Decision). moment x.ts) d e
      (sorted (in_order (λ (x : Decision). moment x.ts)) rows)
      (sorted-IsSorted (λ (x : Decision). moment x.ts) rows) h
      (sorted-In (λ (x : Decision). moment x.ts) e rows i)

latest-none : (rows : List Decision) (e : Decision) → latest rows ≡ none → In e rows → ⊥
unfolding latest ordered_decisions
latest-none rows e h i =
    last-none e (sorted (in_order (λ (x : Decision). moment x.ts)) rows) h
      (sorted-In (λ (x : Decision). moment x.ts) e rows i)

-- The decisions on a card.
abbrev pub on_card : String → List Decision → List Decision
on_card id decisions = filter (λ d. opt_eq d.card (some id)) decisions

abbrev pub IsOn : String → List Decision → Verdict → Decision → Type 0
IsOn id decisions verdict d = In d decisions × (d.card ≡ some id) × (d.decision ≡ verdict)

-- Every deletion of the card was followed by a restoration, at its instant or later.
abbrev pub Undone : String → List Decision → Type 0
Undone id decisions =
    (e : Decision)
    → IsOn id decisions deleted e
    → (d : Decision) × IsOn id decisions restored d × (moment e.ts ≤ moment d.ts)

On-card :
    (id : String) (decisions : List Decision) (v : Verdict) (d : Decision)
    → IsOn id decisions v d
    → In d (on_card id decisions)
On-card id decisions v d (i, same, k) =
    filter-In (λ x. opt_eq x.card (some id)) d decisions i (rw same (str_eq_refl id))

deletion-row :
    (id : String) (decisions : List Decision) (d : Decision)
    → deletion (on_card id decisions) ≡ some d
    → In d decisions × (d.card ≡ some id) × (is_deletion d ≡ true)
unfolding deletion
deletion-row id decisions d h =
    let (i, k) = latest-In is_deletion (on_card id decisions) d h in
    let (j, mine) = In-filter (λ x. opt_eq x.card (some id)) d decisions i in
    (j, opt_eq→eq d.card (some id) mine, k)

restored-kind :
    (d : Decision) → is_deletion d ≡ true → is_deleted (some d) ≡ false → d.decision ≡ restored
restored-kind d h n = sym (is_verdict→eq restored d.decision (ground (arith, h, n)))

deleted-is : (e : Decision) → e.decision ≡ deleted → is_deletion e ≡ true
deleted-is e k = ground (arith, k)

-- A card that is not deleted had every deletion undone.
pub deletion-Undone :
    (id : String) (decisions : List Decision)
    → is_deleted (deletion (on_card id decisions)) ≡ false
    → Undone id decisions
unfolding deletion
deletion-Undone id decisions n e on =
    let i =
      filter-In is_deletion e (on_card id decisions) (On-card id decisions deleted e on)
        (deleted-is e on.2) in
    elim (Option-cases (latest (filter is_deletion (on_card id decisions)))) [
      | inl h ↦ absurd (latest-none (filter is_deletion (on_card id decisions)) e h i)
      | inr (d, h) ↦
          let (j, mine, kind) = deletion-row id decisions d h in
          (
            d,
            (j, mine, restored-kind d kind (subst (λ o. is_deleted o ≡ false) h n)),
            latest-bound (filter is_deletion (on_card id decisions)) d e h i,
          )
    ]

-- A card that is deleted has a deletion behind it, which no restoration follows.
pub deletion-Deleted :
    (id : String) (decisions : List Decision) (d : Decision)
    → deletion (on_card id decisions) ≡ some d
    → is_deleted (some d) ≡ true
    → IsOn id decisions deleted d
      × ((e : Decision) → IsOn id decisions restored e → moment e.ts ≤ moment d.ts)
unfolding deletion
deletion-Deleted id decisions d h t =
    let (j, mine, kind) = deletion-row id decisions d h in
    (
      (j, mine, sym (is_verdict→eq deleted d.decision t)),
      λ e on. latest-bound (filter is_deletion (on_card id decisions)) d e h (
          filter-In is_deletion e (on_card id decisions) (On-card id decisions restored e on)
            (restored_is e on.2)),
    )
  where
    restored_is : (e : Decision) → e.decision ≡ restored → is_deletion e ≡ true
    restored_is e k = ground (arith, k)

-- A card without a deletion is not deleted.
pub never-deleted :
    (id : String) (decisions : List Decision)
    → ((d : Decision) → IsOn id decisions deleted d → ⊥)
    → is_deleted (deletion (on_card id decisions)) ≡ false
never-deleted id decisions n = elim (Option-cases (deletion (on_card id decisions))) [
  | inl h ↦ rw h refl
  | inr (d, h) ↦ elim (Bool-cases (is_deleted (some d))) [
    | inr f ↦ ap is_deleted h ∙ f
    | inl t ↦ absurd (n d (deletion-Deleted id decisions d h t).0)
  ]
]
