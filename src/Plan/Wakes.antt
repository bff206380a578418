-- ===== src/Plan/Wakes.antt =====
-- bin/board_plan.py: no card is forgotten. What is not done now is held, or has a wake in time.
use hermes_agent_workforce_p.Prelude.{
  ℕ, ◌+◌, ◌≤◌, ◌<◌, ◌≡◌, refl, ap, sym, subst, append-nil, append_assoc, String, true, false, ◌&&◌,
  none, some, List, [], ◌∷◌, ◌++◌, map, arith, if◌then◌else◌, length, take, In, sorted-In,
  filter-In, In-append_left, In-append_right, In-take, In-map, inl, inr, ◌⊎◌, Bool-cases,
  Option-cases, or_else, ltb, leb, lt→ltb, ltb→lt, min,
}
use hermes_agent_workforce_p.Prelude.Dict.{Dict}
use hermes_agent_workforce_p.Source.{Budget, Action}
use hermes_agent_workforce_p.Plan.{
  Wants, Config, View, BoardState, TrashRow, Planner, quarantine, ready_at, is_before, hold_action,
  memory_of, is_busy, schedule_wake, plan_wanted, plan_card, plan_cards, plan_restore,
  plan_restores, plan_purges, plan_trash, planned, no_plan, spend, plan, room_of, is_capped,
  slot_recheck, min_of, order_le, act, purge_action, trash_key,
}
use hermes_agent_workforce_p.Plan.Actions.{
  flat_map, by_id, in_order, card_actions, restore_actions, upkeep,
}
use hermes_agent_workforce_p.Plan.Starts.{
  is_eligible, start_of, waiting, plan-actions, planned-queue,
}
use hermes_agent_workforce_p.Plan.Justified.{OnBoard}

min_of-le : (t : ℕ) (ts : List ℕ) → In t ts → (m : ℕ) × (min_of ts ≡ some m) × (m ≤ t)
min_of-le t [] h = absurd h
min_of-le t (u ∷ us) (inl e) = elim (Option-cases (min_of us)) [
  | inl alone ↦ (u, rw alone, omega arith)
  | inr (m, least) ↦ (min u m, rw least, omega arith)
]
min_of-le t (u ∷ us) (inr i) =
    let (m, least, le) = min_of-le t us i in (min u m, rw least, omega arith)

In-flat_map :
    {A B : Type 0} (f : A → List B) (x : A) (y : B) (xs : List A)
    → In x xs
    → In y (f x)
    → In y (flat_map f xs)
In-flat_map f x y [] h i = absurd h
In-flat_map f x y (z ∷ zs) (inl e) i =
    In-append_left y (f z) (flat_map f zs) (subst (λ a. In y (f a)) (sym e) i)
In-flat_map f x y (z ∷ zs) (inr h) i =
    In-append_right y (f z) (flat_map f zs) (In-flat_map f x y zs h i)

module _ (state : BoardState) (now : ℕ) (config : Config) where
  -- When the planner wants to look at a card again.
  schedule_wakes : View → List ℕ
  schedule_wakes view =
      if view.scheduled then elim view.due_at [ none ↦ [] | some t ↦ t ∷ [] ] else []

  wanted_wakes : View → List ℕ
  wanted_wakes view = elim (quarantine view (memory_of state view.id) config) [
    | some reason ↦ []
    | none ↦ elim (ready_at view (memory_of state view.id) config) [
      | none ↦ []
      | some t ↦ if ltb now t then t ∷ [] else []
    ]
  ]

  card_wakes : View → List ℕ
  card_wakes view = if view.deleted then [] else elim view.wants [
    | none ↦ schedule_wakes view
    | some wants ↦
        if is_busy state view then schedule_wakes view else schedule_wakes view ++ wanted_wakes view
  ]

  schedule_wake-wakes :
      (p : Planner) (view : View) → (schedule_wake p view).wakes ≡ p.wakes ++ schedule_wakes view
  unfolding schedule_wakes
  schedule_wake-wakes p view = ground (arith, append-nil p.wakes)

  plan_wanted-wakes :
      (p : Planner) (view : View) (wants : Wants)
      → (plan_wanted state now config p view wants).wakes ≡ p.wakes ++ wanted_wakes view
  unfolding plan_wanted wanted_wakes
  plan_wanted-wakes p view wants = ground (arith, append-nil p.wakes)

  plan_card-wakes :
      (p : Planner) (view : View)
      → (plan_card state now config p view).wakes ≡ p.wakes ++ card_wakes view
  unfolding plan_card card_wakes
  plan_card-wakes p view = elim (Option-cases view.wants) [
    | inl idle ↦ ground (arith, schedule_wake-wakes p view, append-nil p.wakes)
    | inr (w, wants) ↦ ground (
      arith,
      schedule_wake-wakes p view,
      plan_wanted-wakes (schedule_wake p view) view w,
      append-nil p.wakes,
      append_assoc p.wakes (schedule_wakes view) (wanted_wakes view),
    )
  ]

  plan_cards-wakes :
      (views : List View) (p : Planner)
      → (plan_cards state now config p views).wakes ≡ p.wakes ++ flat_map card_wakes views
  unfolding plan_cards
  plan_cards-wakes [] p = sym (append-nil p.wakes)
  plan_cards-wakes (view ∷ views) p = cc (
    plan_cards-wakes views (plan_card state now config p view),
    plan_card-wakes p view,
    append_assoc p.wakes (card_wakes view) (flat_map card_wakes views),
  )

  restore-keeps_wakes :
      (t : ℕ) (p : Planner) (card_id : String) (view : View)
      → In t p.wakes
      → In t (if view.deleted then p else plan_restore state now config p card_id).wakes
  unfolding plan_restore
  restore-keeps_wakes t p card_id view h =
      let next = (memory_of state (trash_key card_id)).next_try in
      elim (Bool-cases view.deleted) [
        | inl gone ↦ rw gone h
        | inr back ↦ elim (Bool-cases (is_before now next)) [
          | inl early ↦ rw (back, early) (In-append_left t p.wakes (or_else next now ∷ []) h)
          | inr late ↦ rw (back, late) h
        ]
      ]

  plan_restores-keeps_wakes :
      (t : ℕ) (trash : Dict View) (p : Planner)
      → In t p.wakes
      → In t (plan_restores state now config p trash).wakes
  unfolding plan_restores
  plan_restores-keeps_wakes t [] p h = h
  plan_restores-keeps_wakes t ((card_id, view) ∷ rest) p h =
      plan_restores-keeps_wakes t rest _ (restore-keeps_wakes t p card_id view h)

  plan_purges-wakes :
      (rows : List TrashRow) (p : Planner) → (plan_purges state now config p rows).wakes ≡ p.wakes
  unfolding plan_purges
  plan_purges-wakes [] p = refl
  plan_purges-wakes (row ∷ rows) p =
      ground (arith, plan_purges-wakes rows p, plan_purges-wakes rows (act p (purge_action row.id)))

  planned-wakes :
      (t : ℕ) (view : View)
      → OnBoard state now config view
      → In t (card_wakes view)
      → In t (planned state now config).wakes
  unfolding planned plan_trash
  planned-wakes t view on h =
      let cards = plan_cards state now config no_plan (in_order state) in
      subst (In t) (sym (plan_purges-wakes state.trash_list _)) (
        plan_restores-keeps_wakes t (by_id state) cards (
          subst (In t) (sym (plan_cards-wakes (in_order state) no_plan))
            (In-flat_map card_wakes view t (in_order state) (sorted-In order_le view _ on) h)))

  module _ (budget : Budget) where
    plan-wake_at :
        (t : ℕ)
        → In t (planned state now config).wakes
        → (m : ℕ) × ((plan state now budget config).wake_at ≡ some m) × (m ≤ t)
    unfolding plan spend
    plan-wake_at t h =
        elim (Bool-cases (
          ltb (room_of budget) (length (planned state now config).queue)
          && leb budget.slots (room_of budget))) [
            | inl short ↦
                rw short (min_of-le t _ (In-append_left t (planned state now config).wakes _ h))
            | inr enough ↦ rw enough (min_of-le t _ h)
          ]

    -- A card whose time has not come is looked at again when it has.
    plan-before :
        (view : View) (wants : Wants) (t : ℕ)
        → OnBoard state now config view
        → view.deleted ≡ false
        → view.wants ≡ some wants
        → is_busy state view ≡ false
        → quarantine view (memory_of state view.id) config ≡ none
        → ready_at view (memory_of state view.id) config ≡ some t
        → now < t
        → (m : ℕ) × ((plan state now budget config).wake_at ≡ some m) × (m ≤ t)
    unfolding card_wakes wanted_wakes
    plan-before view wants t on here w free fit ready early = plan-wake_at t (
        planned-wakes t view on (
          rw (here, w, free, wanted_wakes, fit, ready, lt→ltb now t early)
            (In-append_right t (schedule_wakes view) (t ∷ []) (inl refl))))

    queue-length :
        length (planned state now config).queue ≡ length (map start_of (waiting state now config))
    queue-length = ap length (planned-queue state now config)

    short-capped :
        (queue : List Action)
        → room_of budget < length queue
        → leb budget.slots (room_of budget) ≡ false
        → is_capped budget queue ≡ true
    short-capped queue short slots = ground arith

    short-wakes :
        room_of budget < length (planned state now config).queue
        → leb budget.slots (room_of budget) ≡ true
        → (m : ℕ) × ((plan state now budget config).wake_at ≡ some m) × (m ≤ now + slot_recheck)
    unfolding plan spend
    short-wakes short slots =
        let ws = (planned state now config).wakes in
        rw (lt→ltb _ _ short, slots)
          (min_of-le (now + slot_recheck) (ws ++ (now + slot_recheck) ∷ [])
            (In-append_right _ ws ((now + slot_recheck) ∷ []) (inl refl)))

    -- A card that may start and is not started meets one of the two limits.
    plan-short :
        room_of budget < length (map start_of (waiting state now config))
        → ((plan state now budget config).capped ≡ true)
          ⊎ ((m : ℕ) × ((plan state now budget config).wake_at ≡ some m) × (m ≤ now + slot_recheck))
    unfolding plan
    plan-short short =
        let short' : room_of budget < length (planned state now config).queue =
          subst (λ n. room_of budget < n) (sym queue-length) short in
        elim (Bool-cases (leb budget.slots (room_of budget))) [
          | inl slots ↦ inr (short-wakes short' slots)
          | inr slots ↦ inl (short-capped (planned state now config).queue short' slots)
        ]

    In-actions :
        (a : Action)
        → In a (take (room_of budget) (map start_of (waiting state now config)))
        → In a (plan state now budget config).actions
    In-actions a i =
        subst (In a) (sym (plan-actions state now config budget))
          (In-append_right a (upkeep state now config) _ i)

    held :
        (view : View) (wants : Wants) (reason : String)
        → OnBoard state now config view
        → view.deleted ≡ false
        → view.wants ≡ some wants
        → is_busy state view ≡ false
        → quarantine view (memory_of state view.id) config ≡ some reason
        → In (hold_action view reason) (plan state now budget config).actions
    held view wants reason on here w free q =
        let cards = flat_map (card_actions state now config) (in_order state) in
        let restores = flat_map (restore_actions state now config) (by_id state) in
        subst (In (hold_action view reason)) (sym (plan-actions state now config budget)) (
          In-append_left _ (upkeep state now config) _ (
            In-append_left _ (cards ++ restores) _ (
              In-append_left _ cards restores (
                In-flat_map (card_actions state now config) view _ (in_order state)
                  (sorted-In order_le view _ on) (rw (here, w, free, q) (inl refl))))))

-- What becomes of a card that wants a run and has none: it is held, or started, or looked at again
-- no later than it is ready, or, with the budget short, no later than the slot recheck, or else the
-- plan is marked as capped by the day's limit.
abbrev pub Served : BoardState → ℕ → Config → Budget → View → Type 0
Served state now config budget view =
    let p = plan state now budget config in
    ((reason : String) × In (hold_action view reason) p.actions)
    ⊎ In (start_of view) p.actions
    ⊎ ((t m : ℕ) × (ready_at view (memory_of state view.id) config ≡ some t)
        × (p.wake_at ≡ some m)
        × (m ≤ t))
    ⊎ ((m : ℕ) × (p.wake_at ≡ some m) × (m ≤ now + slot_recheck))
    ⊎ (p.capped ≡ true)

module _ (state : BoardState) (now : ℕ) (config : Config) (budget : Budget) (view : View)
    (wants : Wants) (on : OnBoard state now config view) (here : view.deleted ≡ false)
    (w : view.wants ≡ some wants) (free : is_busy state view ≡ false) where
  eligible-Served : is_eligible state now config view ≡ true → Served state now config budget view
  eligible-Served e =
      let waits = In-map start_of view (waiting state now config) (
        filter-In (is_eligible state now config) view (in_order state)
          (sorted-In order_le view _ on) e) in
      elim (In-take (room_of budget) (start_of view) (map start_of (waiting state now config))
        waits) [
          | inl started ↦ inr (inl (In-actions state now config budget (start_of view) started))
          | inr short ↦ elim (plan-short state now config budget short) [
            | inl capped ↦ inr (inr (inr (inr capped)))
            | inr soon ↦ inr (inr (inr (inl soon)))
          ]
        ]

  ready-Served :
      (t : ℕ)
      → quarantine view (memory_of state view.id) config ≡ none
      → ready_at view (memory_of state view.id) config ≡ some t
      → Served state now config budget view
  ready-Served t fit ready = elim (Bool-cases (ltb now t)) [
    | inl early ↦
        let (m, at, le) =
          plan-before state now config budget view wants t on here w free fit ready
            (ltb→lt now t early) in
        inr (inr (inl (t, m, ready, at, le)))
    | inr late ↦ eligible-Served (eligible late)
  ]
    where
      eligible : ltb now t ≡ false → is_eligible state now config view ≡ true
      eligible late = ground arith

  idle-Served :
      quarantine view (memory_of state view.id) config ≡ none
      → ready_at view (memory_of state view.id) config ≡ none
      → Served state now config budget view
  idle-Served fit ready = eligible-Served (ground arith)

-- No card that wants a run is forgotten: with none of its units active it is held as poison, or
-- started, or has a wake by the time it is ready, or the budget is short: then the plan has a wake
-- within the slot recheck or is marked as capped by the day's limit.
pub plan-Served :
    (state : BoardState) (now : ℕ) (config : Config) (budget : Budget) (view : View) (wants : Wants)
    → OnBoard state now config view
    → view.deleted ≡ false
    → view.wants ≡ some wants
    → is_busy state view ≡ false
    → Served state now config budget view
plan-Served state now config budget view wants on here w free =
    elim (Option-cases (quarantine view (memory_of state view.id) config)) [
      | inr (reason, q) ↦
          inl (reason, held state now config budget view wants reason on here w free q)
      | inl fit ↦ elim (Option-cases (ready_at view (memory_of state view.id) config)) [
        | inl none_set ↦ idle-Served state now config budget view wants on here w free fit none_set
        | inr (t, ready) ↦
            ready-Served state now config budget view wants on here w free t fit ready
      ]
    ]
