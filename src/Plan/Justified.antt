-- ===== src/Plan/Justified.antt =====
-- bin/board_plan.py: what each action of a plan needs.
use hermes_agent_workforce_p.Prelude.{
  ℕ, ◌≤◌, ◌≡◌, refl, sym, subst, String, true, false, ◌&&◌, Option, none, some, List, [], ◌∷◌, map,
  arith, filter, has, any, All, In, In-sorted, In-filter, All-of_In, All-append, All-take, inl, inr,
  ◌⊎◌, Bool-cases, Option-cases, or_else, leb, leb→le,
}
use hermes_agent_workforce_p.Source.{Budget, Action}
use hermes_agent_workforce_p.Plan.{
  Wants, Config, View, Memory, BoardState, TrashRow, quarantine, ready_at, is_before, later, latest,
  last_pick, start_action, hold_action, stop_unit, trash_action, restore_action, purge_action,
  memory_of, is_busy, trashed_deleted, trash_key, card_units, deleted_actions, stop_or_trash, plan,
  room_of, order_le,
}
use hermes_agent_workforce_p.Plan.Actions.{
  flat_map, by_id, in_order, card_actions, restore_actions, purge_actions, upkeep,
}
use hermes_agent_workforce_p.Plan.Starts.{is_eligible, start_of, waiting, plan-actions}

-- The instant, if there is one, has come.
abbrev pub Reached : ℕ → Option ℕ → Type 0
Reached now none = Unit
Reached now (some t) = t ≤ now

-- Three void runs, or three starts that reached no pick (by the configured number).
abbrev pub IsPoison : Config → View → Memory → Type 0
IsPoison config v entry =
    (config.attempts ≤ v.failed_streak) ⊎ (config.attempts ≤ or_else entry.starts 0)

module _ (state : BoardState) (now : ℕ) (config : Config) where
  abbrev pub OnBoard : View → Type 0
  OnBoard v = In v (map (λ e. e.1) state.views)

  -- What a plan may do, and on what grounds.
  pub data Justified : Action → Type 0 where
    start :
        (v : View) (w : Wants)
        → OnBoard v
        → v.deleted ≡ false
        → v.wants ≡ some w
        → is_busy state v ≡ false
        → ¬ IsPoison config v (memory_of state v.id)
        → Reached now (later config.cooldown (last_pick v))
        → Reached now (later config.cooldown (memory_of state v.id).last_start)
        → Reached now (memory_of state v.id).next_try
        → Justified (start_action v w)
    hold :
        (v : View) (reason : String)
        → OnBoard v
        → v.deleted ≡ false
        → is_busy state v ≡ false
        → IsPoison config v (memory_of state v.id)
        → Justified (hold_action v reason)
    stop :
        (v : View) (unit : String)
        → OnBoard v
        → v.deleted ≡ true
        → In unit (card_units v.id)
        → has unit state.active ≡ true
        → Justified (stop_unit v.id unit)
    trash :
        (v : View)
        → OnBoard v
        → v.deleted ≡ true
        → is_busy state v ≡ false
        → Justified (trash_action v.id)
    restore :
        (card_id : String) (v : View)
        → In (card_id, v) state.trash
        → v.deleted ≡ false
        → Reached now (memory_of state (trash_key card_id)).next_try
        → Justified (restore_action card_id)
    purge :
        (row : TrashRow) (t : ℕ)
        → In row state.trash_list
        → row.purge_after ≡ some t
        → t ≤ now
        → trashed_deleted state row.id ≡ true
        → Justified (purge_action row.id)

  All-flat_map :
      {A : Type 0} (f : A → List Action) (xs : List A)
      → ((x : A) → In x xs → All Justified (f x))
      → All Justified (flat_map f xs)
  All-flat_map f [] h = tt
  All-flat_map f (x ∷ xs) h =
      All-append Justified (f x) (flat_map f xs) (h x (inl refl))
        (All-flat_map f xs (λ y i. h y (inr i)))

  quarantine-IsPoison :
      (v : View) (entry : Memory) (reason : String)
      → quarantine v entry config ≡ some reason
      → IsPoison config v entry
  unfolding quarantine
  quarantine-IsPoison v entry reason e = elim (Bool-cases (leb config.attempts v.failed_streak)) [
    | inl many ↦ inl (leb→le _ _ many)
    | inr few ↦ inr (ground arith)
  ]

  quarantine-none :
      (v : View) (entry : Memory) → quarantine v entry config ≡ none → ¬ IsPoison config v entry
  unfolding quarantine
  quarantine-none v entry e (inl many) = ground arith
  quarantine-none v entry e (inr many) = ground arith

  Reached-of_ready :
      (v : View) (entry : Memory)
      → is_before now (ready_at v entry config) ≡ false
      → Reached now (later config.cooldown (last_pick v))
        × Reached now (later config.cooldown entry.last_start)
        × Reached now entry.next_try
  unfolding ready_at
  Reached-of_ready v entry e = parts (last_pick v) entry.last_start entry.next_try e
    where
      parts :
          (p s n : Option ℕ)
          → is_before now (latest (later config.cooldown (latest p s)) n) ≡ false
          → Reached now (later config.cooldown p)
            × Reached now (later config.cooldown s)
            × Reached now n
      parts none none none e = (tt, tt, tt)
      parts none none (some n) e = ground arith
      parts none (some s) none e = ground arith
      parts none (some s) (some n) e = ground arith
      parts (some p) none none e = ground arith
      parts (some p) none (some n) e = ground arith
      parts (some p) (some s) none e = ground arith
      parts (some p) (some s) (some n) e = ground arith

  stops-Justified :
      (v : View) (units : List String)
      → OnBoard v
      → v.deleted ≡ true
      → ((u : String) → In u units → In u (card_units v.id) × (has u state.active ≡ true))
      → All Justified (map (stop_unit v.id) units)
  stops-Justified v [] on gone h = tt
  stops-Justified v (u ∷ us) on gone h =
      let (listed, live) = h u (inl refl) in
      (stop v u on gone listed live, stops-Justified v us on gone (λ x i. h x (inr i)))

  any-of_none :
      (units : List String)
      → filter (λ u. has u state.active) units ≡ []
      → any (λ u. has u state.active) units ≡ false
  any-of_none [] h = refl
  any-of_none (u ∷ us) h = ground (arith, any-of_none us)

  deleted-Justified :
      (v : View) (units : List String)
      → OnBoard v
      → v.deleted ≡ true
      → filter (λ u. has u state.active) (card_units v.id) ≡ units
      → All Justified (stop_or_trash v.id units)
  deleted-Justified v [] on gone e = (trash v on gone (any-of_none (card_units v.id) e), tt)
  deleted-Justified v (u ∷ us) on gone e =
      stops-Justified v (u ∷ us) on gone
        λ x i. In-filter (λ u'. has u' state.active) x (card_units v.id) (subst (In x) (sym e) i)

  card_actions-Justified : (v : View) → OnBoard v → All Justified (card_actions state now config v)
  unfolding deleted_actions
  card_actions-Justified v on = elim (Bool-cases v.deleted) [
    | inl gone ↦
        subst (All Justified) (sym (card_deleted gone)) (deleted-Justified v _ on gone refl)
    | inr here ↦ elim (Option-cases v.wants) [
      | inl idle ↦ subst (All Justified) (sym (card_idle here idle)) tt
      | inr (w, wants) ↦ elim (Bool-cases (is_busy state v)) [
        | inl busy ↦ subst (All Justified) (sym (card_busy here busy)) tt
        | inr free ↦ elim (Option-cases (quarantine v (memory_of state v.id) config)) [
          | inl fit ↦ subst (All Justified) (sym (card_fit here fit)) tt
          | inr (reason, q) ↦ subst (All Justified) (sym (card_held here w reason wants free q)) (
            hold v reason on here free (quarantine-IsPoison v (memory_of state v.id) reason q),
            tt,
          )
        ]
      ]
    ]
  ]
    where
      card_deleted :
          v.deleted ≡ true
          → card_actions state now config v
            ≡ stop_or_trash v.id (filter (λ u. has u state.active) (card_units v.id))
      card_deleted gone = ground arith

      card_idle : v.deleted ≡ false → v.wants ≡ none → card_actions state now config v ≡ []
      card_idle here idle = ground arith

      card_busy : v.deleted ≡ false → is_busy state v ≡ true → card_actions state now config v ≡ []
      card_busy here busy = ground arith

      card_fit :
          v.deleted ≡ false
          → quarantine v (memory_of state v.id) config ≡ none
          → card_actions state now config v ≡ []
      card_fit here fit = ground arith

      card_held :
          v.deleted ≡ false
          → (w : Wants) (reason : String) → v.wants ≡ some w
          → is_busy state v ≡ false
          → quarantine v (memory_of state v.id) config ≡ some reason
          → card_actions state now config v ≡ hold_action v reason ∷ []
      card_held here w reason wants free q = ground arith

  restore_actions-Justified :
      (e : String × View) → In e state.trash → All Justified (restore_actions state now config e)
  restore_actions-Justified (card_id, v) i = elim (Bool-cases v.deleted) [
    | inl gone ↦ rw gone tt
    | inr back ↦ elim (Bool-cases (is_before now (memory_of state (trash_key card_id)).next_try)) [
      | inl early ↦ rw (back, early) tt
      | inr late ↦
          rw (back, late)
            (
              restore card_id v i back
                  (reached (memory_of state (trash_key card_id)).next_try late),
              tt,
            )
    ]
  ]
    where
      reached : (t : Option ℕ) → is_before now t ≡ false → Reached now t
      reached none e = tt
      reached (some t) e = ground arith

  purge_actions-Justified :
      (row : TrashRow)
      → In row state.trash_list
      → All Justified (purge_actions state now config row)
  purge_actions-Justified row i = go row.purge_after refl
    where
      go : (t : Option ℕ) → row.purge_after ≡ t → All Justified (purge_actions state now config row)
      go none e = rw e tt
      go (some t) e = elim (Bool-cases (leb t now && trashed_deleted state row.id)) [
        | inl due ↦ rw (e, due) (purge row t i e (ground arith) (ground arith), tt)
        | inr early ↦ rw (e, early) tt
      ]

  upkeep-Justified : All Justified (upkeep state now config)
  upkeep-Justified =
      All-append Justified _ _
        (All-append Justified _ _
          (All-flat_map (card_actions state now config) (in_order state)
            (λ v i. card_actions-Justified v (In-sorted order_le v _ i)))
          (All-flat_map (restore_actions state now config) (by_id state)
            (λ e i. restore_actions-Justified e (In-sorted _ e state.trash i))))
        (All-flat_map (purge_actions state now config) state.trash_list purge_actions-Justified)

  eligible-Justified :
      (v : View) → OnBoard v → is_eligible state now config v ≡ true → Justified (start_of v)
  eligible-Justified v on e = elim (Option-cases v.wants) [
    | inl idle ↦ absurd (not_idle idle)
    | inr (w, wants) ↦
        let entry = memory_of state v.id in
        let (picked, started, tried) = Reached-of_ready v entry (ready w wants) in
        subst Justified (named w wants) (
          start v w on here wants (free w wants) (quarantine-none v entry (fit w wants)) picked
            started tried)
  ]
    where
      here : v.deleted ≡ false
      here = ground arith

      not_idle : v.wants ≡ none → ⊥
      not_idle idle = ground arith

      free : (w : Wants) → v.wants ≡ some w → is_busy state v ≡ false
      free w wants = ground arith

      fit : (w : Wants) → v.wants ≡ some w → quarantine v (memory_of state v.id) config ≡ none
      fit w wants = ground arith

      ready :
          (w : Wants)
          → v.wants ≡ some w
          → is_before now (ready_at v (memory_of state v.id) config) ≡ false
      ready w wants = ground arith

      named : (w : Wants) → v.wants ≡ some w → start_action v w ≡ start_of v
      named w wants = ground arith

  All-map_start :
      (vs : List View) → All (λ v. Justified (start_of v)) vs → All Justified (map start_of vs)
  All-map_start [] h = tt
  All-map_start (v ∷ vs) h = (h.0, All-map_start vs h.1)

  waiting-Justified : All Justified (map start_of (waiting state now config))
  waiting-Justified = All-map_start (waiting state now config) (
      All-of_In (λ v. Justified (start_of v)) (waiting state now config)
        λ v i.
          let (j, e) = In-filter (is_eligible state now config) v (in_order state) i in
          eligible-Justified v (In-sorted order_le v _ j) e)

-- Every action of a plan is justified by the state that it was planned from: a start by a card
-- that wants a run, has no unit active, is not poison and is past its cooldown and backoff; a
-- hold by a poison card; a stop by a running unit of a deleted card; a trash by a deleted card
-- with no unit running; a restore by a trashed card that is not deleted any more; a purge by an
-- expired row.
pub plan-Justified :
    (state : BoardState) (now : ℕ) (budget : Budget) (config : Config)
    → All (Justified state now config) (plan state now budget config).actions
plan-Justified state now budget config =
    subst (All (Justified state now config)) (sym (plan-actions state now config budget)) (
      All-append (Justified state now config) (upkeep state now config) _
        (upkeep-Justified state now config)
        (All-take (Justified state now config) (room_of budget) _
          (waiting-Justified state now config)))
