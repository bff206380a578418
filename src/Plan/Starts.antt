-- ===== src/Plan/Starts.antt =====
-- bin/board_plan.py: which cards a plan starts, and in what order.
use hermes_agent_workforce_p.Prelude.{
  ℕ, ◌≤◌, ◌≡◌, refl, sym, ap, ◌∙◌, append-nil, append_assoc, String, Bool, true, false, not, ◌&&◌,
  none, some, List, [], ◌∷◌, ◌++◌, map, arith, if◌then◌else◌, filter, take, length, sorted, place,
  All, inl, inr, Bool-cases, length-take, zero, suc, has,
}
use hermes_agent_workforce_p.Prelude.Dict.{Dict}
use hermes_agent_workforce_p.Source.{Budget, Action, is_start}
use hermes_agent_workforce_p.Plan.Actions.{
  flat_map, by_id, in_order, card_actions, restore_actions, purge_actions, upkeep, planned-actions,
}
use hermes_agent_workforce_p.Plan.{
  Wants, Config, View, BoardState, TrashRow, Planner, quarantine, ready_at, is_before, start_action,
  memory_of, is_busy, plan_wanted, plan_card, plan_cards, plan_restore, plan_restores, plan_purges,
  plan_trash, spend, planned, plan, no_plan, room_of, order_le, priority_rank, purge_action,
  deleted_actions, stop_or_trash, card_units, act,
}

-- The start actions among some actions, in order.
abbrev pub starts : List Action → List Action
starts = filter (λ a. is_start a.verb)

starts-append : (xs ys : List Action) → starts (xs ++ ys) ≡ starts xs ++ starts ys
starts-append [] ys = refl
starts-append (x ∷ xs) ys = ground (arith, starts-append xs ys)

-- A card that may start now: on the board, wanting a run, with no unit of its own active, not
-- quarantined, and past its cooldown and backoff.
abbrev pub is_eligible : BoardState → ℕ → Config → View → Bool
is_eligible state now config view = not view.deleted && elim view.wants [
  | none ↦ false
  | some wants ↦
      not (is_busy state view) && elim (quarantine view (memory_of state view.id) config) [
        | some reason ↦ false
        | none ↦ not (is_before now (ready_at view (memory_of state view.id) config))
      ]
]

abbrev pub start_of : View → Action
start_of view = elim view.wants [
  | none ↦ start_action view Wants.brief
  | some wants ↦ start_action view wants
]

stop_or_trash-starts :
    (card_id : String) (units : List String) → starts (stop_or_trash card_id units) ≡ []
stop_or_trash-starts card_id [] = refl
stop_or_trash-starts card_id (u ∷ []) = refl
stop_or_trash-starts card_id (u ∷ v ∷ us) = stop_or_trash-starts card_id (v ∷ us)

module _ (state : BoardState) (now : ℕ) (config : Config) where
  abbrev eligible : List View → List View
  eligible = filter (is_eligible state now config)

  plan_card-queue :
      (p : Planner) (view : View)
      → (plan_card state now config p view).queue
        ≡ p.queue ++ (if is_eligible state now config view then start_of view ∷ [] else [])
  unfolding plan_card plan_wanted
  plan_card-queue p view = ground (arith, append-nil p.queue)

  plan_cards-queue :
      (views : List View) (p : Planner)
      → (plan_cards state now config p views).queue ≡ p.queue ++ map start_of (eligible views)
  unfolding plan_cards
  plan_cards-queue [] p = sym (append-nil p.queue)
  plan_cards-queue (view ∷ views) p = ground (
    arith,
    plan_cards-queue views (plan_card state now config p view),
    plan_card-queue p view,
    append-nil p.queue,
    append_assoc p.queue (start_of view ∷ []) (map start_of (eligible views)),
  )

  plan_restores-queue :
      (trash : Dict View) (p : Planner) → (plan_restores state now config p trash).queue ≡ p.queue
  unfolding plan_restores plan_restore
  plan_restores-queue [] p = refl
  plan_restores-queue ((card_id, view) ∷ rest) p = ground (
    arith,
    plan_restores-queue rest p,
    plan_restores-queue rest (plan_restore state now config p card_id),
  )

  plan_purges-queue :
      (rows : List TrashRow) (p : Planner) → (plan_purges state now config p rows).queue ≡ p.queue
  unfolding plan_purges
  plan_purges-queue [] p = refl
  plan_purges-queue (row ∷ rows) p =
      ground (arith, plan_purges-queue rows p, plan_purges-queue rows (act p (purge_action row.id)))

  -- The queue is the eligible cards in board order.
  pub planned-queue :
      (planned state now config).queue
      ≡ map start_of (eligible (sorted order_le (map (λ e. e.1) state.views)))
  unfolding planned plan_trash
  planned-queue =
      plan_purges-queue state.trash_list _
      ∙ plan_restores-queue _ _
      ∙ plan_cards-queue (sorted order_le (map (λ e. e.1) state.views)) no_plan

starts-flat_map {ℓ} :
    {A : Type ℓ} (f : A → List Action) (xs : List A)
    → ((x : A) → starts (f x) ≡ [])
    → starts (flat_map f xs) ≡ []
starts-flat_map f [] h = refl
starts-flat_map f (x ∷ xs) h = cc (starts-append (f x) (flat_map f xs), h x, starts-flat_map f xs h)

-- No eligible card of those that wait longer comes before one that is more urgent.
abbrev pub Ascending : List View → Type 0
Ascending [] = Unit
Ascending (v ∷ vs) = All (λ u. priority_rank v ≤ priority_rank u) vs × Ascending vs

order_le-rank : (a b : View) → order_le a b ≡ true → priority_rank a ≤ priority_rank b
unfolding order_le
order_le-rank a b h = ground arith

order_le-rank_false : (a b : View) → order_le a b ≡ false → priority_rank b ≤ priority_rank a
unfolding order_le
order_le-rank_false a b h = ground arith

All-le_trans :
    (m n : ℕ) (vs : List View)
    → m ≤ n
    → All (λ u. n ≤ priority_rank u) vs
    → All (λ u. m ≤ priority_rank u) vs
All-le_trans m n [] h a = tt
All-le_trans m n (v ∷ vs) h a = (omega arith, All-le_trans m n vs h a.1)

All-place :
    (P : View → Type 0) (v : View) (vs : List View) → P v → All P vs → All P (place order_le v vs)
All-place P v [] p a = (p, tt)
All-place P v (u ∷ us) p a = elim (Bool-cases (order_le v u)) [
  | inl e ↦ rw e (p, a)
  | inr e ↦ rw e (a.0, All-place P v us p a.1)
]

place-Ascending : (v : View) (vs : List View) → Ascending vs → Ascending (place order_le v vs)
place-Ascending v [] a = (tt, tt)
place-Ascending v (u ∷ us) a = elim (Bool-cases (order_le v u)) [
  | inl e ↦ rw e ((order_le-rank v u e, All-le_trans _ _ us (order_le-rank v u e) a.0), a)
  | inr e ↦ rw e (All-place _ v us (order_le-rank_false v u e) a.0, place-Ascending v us a.1)
]

sorted-Ascending : (vs : List View) → Ascending (sorted order_le vs)
sorted-Ascending [] = tt
sorted-Ascending (v ∷ vs) = place-Ascending v (sorted order_le vs) (sorted-Ascending vs)

All-filter :
    (P : View → Type 0) (test : View → Bool) (vs : List View) → All P vs → All P (filter test vs)
All-filter P test [] a = tt
All-filter P test (v ∷ vs) a = elim (Bool-cases (test v)) [
  | inl e ↦ rw e (a.0, All-filter P test vs a.1)
  | inr e ↦ rw e (All-filter P test vs a.1)
]

filter-Ascending : (test : View → Bool) (vs : List View) → Ascending vs → Ascending (filter test vs)
filter-Ascending test [] a = tt
filter-Ascending test (v ∷ vs) a = elim (Bool-cases (test v)) [
  | inl e ↦ rw e (All-filter _ test vs a.0, filter-Ascending test vs a.1)
  | inr e ↦ rw e (filter-Ascending test vs a.1)
]

starts-take :
    (n : ℕ) (vs : List View)
    → All (λ v. is_start (start_of v).verb ≡ true) vs
    → starts (take n (map start_of vs)) ≡ take n (map start_of vs)
starts-take zero vs h = refl
starts-take (suc n) [] h = refl
starts-take (suc n) (v ∷ vs) h = ground (arith, starts-take n vs h.1)

start_of-is_start : (vs : List View) → All (λ v. is_start (start_of v).verb ≡ true) vs
start_of-is_start [] = tt
start_of-is_start (v ∷ vs) = (ground arith, start_of-is_start vs)

module _ (state : BoardState) (now : ℕ) (config : Config) where
  card_actions-starts : (view : View) → starts (card_actions state now config view) ≡ []
  unfolding deleted_actions
  card_actions-starts view = ground (
    arith,
    stop_or_trash-starts view.id (filter (λ unit. has unit state.active) (card_units view.id)),
  )

  restore_actions-starts : (e : String × View) → starts (restore_actions state now config e) ≡ []
  restore_actions-starts e = ground arith

  purge_actions-starts : (row : TrashRow) → starts (purge_actions state now config row) ≡ []
  purge_actions-starts row = ground arith

  upkeep-starts : starts (upkeep state now config) ≡ []
  upkeep-starts =
      let cards = flat_map (card_actions state now config) (in_order state) in
      let restores = flat_map (restore_actions state now config) (by_id state) in
      let purges = flat_map (purge_actions state now config) state.trash_list in
      cc (
        starts-append (cards ++ restores) purges,
        starts-append cards restores,
        starts-flat_map (card_actions state now config) (in_order state) card_actions-starts,
        starts-flat_map (restore_actions state now config) (by_id state) restore_actions-starts,
        starts-flat_map (purge_actions state now config) state.trash_list purge_actions-starts,
      )

  -- The cards that may start, most urgent first.
  abbrev pub waiting : List View
  waiting = filter (is_eligible state now config) (in_order state)

  pub plan-actions :
      (budget : Budget)
      → (plan state now budget config).actions
        ≡ upkeep state now config ++ take (room_of budget) (map start_of waiting)
  unfolding plan spend
  plan-actions budget =
      ground (arith, planned-actions state now config, planned-queue state now config)

-- The starts of a plan are the most urgent eligible cards, in board order, as many as the budget
-- has room for. `waiting` is in order of priority.
pub plan-starts :
    (state : BoardState) (now : ℕ) (budget : Budget) (config : Config)
    → (starts (plan state now budget config).actions
        ≡ take (room_of budget) (map start_of (waiting state now config)))
      × Ascending (waiting state now config)
plan-starts state now budget config = (
  ap starts (plan-actions state now config budget)
      ∙ starts-append (upkeep state now config) _
      ∙ ap
          (λ (l : List Action).
            l ++ starts (take (room_of budget) (map start_of (waiting state now config))))
          (upkeep-starts state now config)
      ∙ starts-take (room_of budget) (waiting state now config) (start_of-is_start _),
  filter-Ascending (is_eligible state now config) (in_order state)
      (sorted-Ascending (map (λ e. e.1) state.views)),
)

-- A plan starts no more cards than there are free slots, nor more than the day has runs left.
pub plan_within_budget :
    (state : BoardState) (now : ℕ) (budget : Budget) (config : Config) {left : ℕ}
    → budget.remaining_today ≡ some left
    → (length (starts (plan state now budget config).actions) ≤ budget.slots)
      × (length (starts (plan state now budget config).actions) ≤ left)
plan_within_budget state now budget config r =
    let count =
      ap length ((plan-starts state now budget config).0)
      ∙ length-take (room_of budget) (map start_of (waiting state now config)) in
    ground (arith, count)
