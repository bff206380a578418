-- ===== src/Plan/Unique.antt =====
-- bin/board_plan.py: a plan starts a card at most once, and never a poison one.
use hermes_agent_workforce_p.Prelude.{
  ℕ, zero, suc, ◌+◌, ◌≤◌, ◌<◌, ◌≡◌, refl, ap, subst, String, Bool, true, false, none, List, [], ◌∷◌,
  map, arith, if◌then◌else◌, filter, take, place, sorted, All, or_else, str_eq, str_eq-cases,
  str_eq→eq, Bool-cases, inl, inr, ltb, ltb→lt,
}
use hermes_agent_workforce_p.Prelude.Dict.{Dict, lookup, IsDict}
use hermes_agent_workforce_p.Source.{Budget, Action, is_start}
use hermes_agent_workforce_p.Plan.{Config, View, BoardState, order_le, room_of, plan, memory_of}
use hermes_agent_workforce_p.Plan.Actions.{in_order}
use hermes_agent_workforce_p.Plan.Starts.{starts, start_of, waiting, is_eligible, plan-starts}
use hermes_agent_workforce_p.Plan.Justified.{Justified}

-- How often a card is started by some actions.
abbrev pub starts_card : String → Action → Bool
starts_card k a = if is_start a.verb then str_eq a.item k else false

abbrev pub start_count : String → List Action → ℕ
start_count k [] = 0
start_count k (a ∷ rest) = if starts_card k a then start_count k rest + 1 else start_count k rest

abbrev count_id : String → List View → ℕ
count_id k [] = 0
count_id k (v ∷ vs) = if str_eq v.id k then count_id k vs + 1 else count_id k vs

count_id-place :
    (k : String) (v : View) (vs : List View)
    → count_id k (place order_le v vs) ≡ count_id k (v ∷ vs)
count_id-place k v [] = refl
count_id-place k v (u ∷ us) = ground (arith, count_id-place k v us)

count_id-sorted : (k : String) (vs : List View) → count_id k (sorted order_le vs) ≡ count_id k vs
count_id-sorted k [] = refl
count_id-sorted k (v ∷ vs) =
    ground (arith, count_id-place k v (sorted order_le vs), count_id-sorted k vs)

count_id-filter :
    (k : String) (p : View → Bool) (vs : List View) → count_id k (filter p vs) ≤ count_id k vs
count_id-filter k p [] = omega arith
count_id-filter k p (v ∷ vs) = ground (arith, count_id-filter k p vs)

start_count-take :
    (k : String) (n : ℕ) (xs : List Action) → start_count k (take n xs) ≤ start_count k xs
start_count-take k zero xs = omega arith
start_count-take k (suc n) [] = omega arith
start_count-take k (suc n) (a ∷ rest) = ground (arith, start_count-take k n rest)

start_count-start_of :
    (k : String) (vs : List View) → start_count k (map start_of vs) ≡ count_id k vs
start_count-start_of k [] = refl
start_count-start_of k (v ∷ vs) = ground (arith, start_count-start_of k vs)

start_count-starts : (k : String) (xs : List Action) → start_count k (starts xs) ≡ start_count k xs
start_count-starts k [] = refl
start_count-starts k (a ∷ rest) = ground (arith, start_count-starts k rest)

-- The views stand under their own ids.
abbrev pub IsKeyed : Dict View → Type 0
IsKeyed views = All (λ e. e.1.id ≡ e.0) views

count_id-absent :
    (k : String) (views : Dict View)
    → IsKeyed views
    → lookup k views ≡ none
    → count_id k (map (λ e. e.1) views) ≡ 0
count_id-absent k [] keyed h = refl
count_id-absent k ((j, v) ∷ rest) keyed h = ground (arith, keyed.0, count_id-absent k rest keyed.1)

count_id-views :
    (k : String) (views : Dict View)
    → IsDict views
    → IsKeyed views
    → count_id k (map (λ e. e.1) views) ≤ 1
count_id-views k [] d keyed = omega arith
count_id-views k ((j, v) ∷ rest) d keyed = elim (str_eq-cases j k) [
  | inl (same, e) ↦
      let absent = count_id-absent k rest keyed.1 (subst (λ i. lookup i rest ≡ none) same d.0) in
      ground (arith, absent, keyed.0)
  | inr (other, e) ↦ ground (arith, keyed.0, count_id-views k rest d.1 keyed.1)
]

-- A plan starts each card at most once.
pub start_count-plan :
    (k : String) (state : BoardState) (now : ℕ) (budget : Budget) (config : Config)
    → IsDict state.views
    → IsKeyed state.views
    → start_count k (plan state now budget config).actions ≤ 1
start_count-plan k state now budget config d keyed =
    let actions = (plan state now budget config).actions in
    let queue = map start_of (waiting state now config) in
    let views = map (λ (e : String × View). e.1) state.views in
    omega (
      arith,
      start_count-starts k actions,
      ap (start_count k) (plan-starts state now budget config).0,
      start_count-take k (room_of budget) queue,
      start_count-start_of k (waiting state now config),
      count_id-filter k (is_eligible state now config) (in_order state),
      count_id-sorted k views,
      count_id-views k state.views d keyed,
    )

module _ (k : String) (state : BoardState) (now : ℕ) (config : Config) where
  starts-few :
      (a : Action)
      → Justified state now config a
      → starts_card k a ≡ true
      → or_else (memory_of state k).starts 0 < config.attempts
  starts-few _ (Justified.start v w on here wants free fit c1 c2 c3) e =
      subst (λ i. or_else (memory_of state i).starts 0 < config.attempts) (str_eq→eq v.id k e)
        (elim (Bool-cases (ltb (or_else (memory_of state v.id).starts 0) config.attempts)) [
          | inl few ↦ ltb→lt _ _ few
          | inr many ↦ absurd (fit (inr (ground arith)))
        ])
  starts-few _ (Justified.hold v reason on here free poison) e = cc
  starts-few _ (Justified.stop v unit on gone listed live) e = cc
  starts-few _ (Justified.trash v on gone free) e = cc
  starts-few _ (Justified.restore card_id v i back late) e = cc
  starts-few _ (Justified.purge row t i set due gone) e = cc

  -- A card among the started ones has attempts left.
  pub starts-few-All :
      (xs : List Action)
      → All (Justified state now config) xs
      → 0 < start_count k xs
      → or_else (memory_of state k).starts 0 < config.attempts
  starts-few-All [] j h = absurd (omega arith)
  starts-few-All (a ∷ rest) j h = elim (Bool-cases (starts_card k a)) [
    | inl e ↦ starts-few a j.0 e
    | inr e ↦ starts-few-All rest j.1 (rw e at h)
  ]
