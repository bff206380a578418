-- ===== src/Plan/Actions.antt =====
-- bin/board_plan.py: the actions of a plan in closed form, card by card.
use hermes_agent_workforce_p.Prelude.{
  ℕ, ◌≡◌, sym, append-nil, append_assoc, String, ◌&&◌, none, some, List, [], ◌∷◌, ◌++◌, map, arith,
  if◌then◌else◌, sorted, str_leb,
}
use hermes_agent_workforce_p.Prelude.Dict.{Dict}
use hermes_agent_workforce_p.Source.{Action}
use hermes_agent_workforce_p.Plan.{
  Config, View, BoardState, TrashRow, Planner, quarantine, is_before, hold_action, memory_of,
  is_busy, plan_wanted, plan_card, plan_cards, plan_restore, plan_restores, plan_purges, plan_trash,
  planned, no_plan, order_le, deleted_actions, restore_action, purge_action, trash_key, is_expired,
  trashed_deleted, act,
}

module _ {ℓ κ} {A : Type ℓ} {B : Type κ} where
  abbrev pub flat_map : (A → List B) → List A → List B
  flat_map f [] = []
  flat_map f (x ∷ xs) = f x ++ flat_map f xs

abbrev pub by_id : BoardState → Dict View
by_id state = sorted (λ a b. str_leb a.0 b.0) state.trash

abbrev pub in_order : BoardState → List View
in_order state = sorted order_le (map (λ e. e.1) state.views)

module _ (state : BoardState) (now : ℕ) (config : Config) where
  -- What the planner does about one card at once: a deleted card is stopped or trashed, and a
  -- quarantined one held.
  abbrev pub card_actions : View → List Action
  card_actions view =
      if view.deleted then deleted_actions view.id state.active else elim view.wants [
        | none ↦ []
        | some wants ↦
            if is_busy state view
            then []
            else elim (quarantine view (memory_of state view.id) config) [
              | none ↦ []
              | some reason ↦ hold_action view reason ∷ []
            ]
      ]

  -- A trashed card whose deletion was taken back is restored, unless its backoff runs.
  abbrev pub restore_actions : String × View → List Action
  restore_actions (card_id, view) =
      if view.deleted
      then []
      else if is_before now (memory_of state (trash_key card_id)).next_try
      then []
      else restore_action card_id ∷ []

  abbrev pub purge_actions : TrashRow → List Action
  purge_actions row =
      if is_expired now row.purge_after && trashed_deleted state row.id
      then purge_action row.id ∷ []
      else []

  plan_card-actions :
      (p : Planner) (view : View)
      → (plan_card state now config p view).actions ≡ p.actions ++ card_actions view
  unfolding plan_card plan_wanted
  plan_card-actions p view = ground (arith, append-nil p.actions)

  plan_cards-actions :
      (views : List View) (p : Planner)
      → (plan_cards state now config p views).actions ≡ p.actions ++ flat_map card_actions views
  unfolding plan_cards
  plan_cards-actions [] p = sym (append-nil p.actions)
  plan_cards-actions (view ∷ views) p = cc (
    plan_cards-actions views (plan_card state now config p view),
    plan_card-actions p view,
    append_assoc p.actions (card_actions view) (flat_map card_actions views),
  )

  restored : Planner → String × View → Planner
  restored p (card_id, view) = if view.deleted then p else plan_restore state now config p card_id

  restored-actions :
      (p : Planner) (e : String × View) → (restored p e).actions ≡ p.actions ++ restore_actions e
  unfolding restored plan_restore
  restored-actions p e = ground (arith, append-nil p.actions)

  plan_restores-actions :
      (trash : Dict View) (p : Planner)
      → (plan_restores state now config p trash).actions
        ≡ p.actions ++ flat_map restore_actions trash
  unfolding plan_restores restored
  plan_restores-actions [] p = sym (append-nil p.actions)
  plan_restores-actions (e ∷ rest) p = cc (
    plan_restores-actions rest (restored p e),
    restored-actions p e,
    append_assoc p.actions (restore_actions e) (flat_map restore_actions rest),
  )

  purged : Planner → TrashRow → Planner
  purged p row =
      if is_expired now row.purge_after && trashed_deleted state row.id
      then act p (purge_action row.id)
      else p

  purged-actions :
      (p : Planner) (row : TrashRow) → (purged p row).actions ≡ p.actions ++ purge_actions row
  unfolding purged
  purged-actions p row = ground (arith, append-nil p.actions)

  plan_purges-actions :
      (rows : List TrashRow) (p : Planner)
      → (plan_purges state now config p rows).actions ≡ p.actions ++ flat_map purge_actions rows
  unfolding plan_purges purged
  plan_purges-actions [] p = sym (append-nil p.actions)
  plan_purges-actions (row ∷ rows) p = cc (
    plan_purges-actions rows (purged p row),
    purged-actions p row,
    append_assoc p.actions (purge_actions row) (flat_map purge_actions rows),
  )

  -- All that a plan does beside its starts.
  abbrev pub upkeep : List Action
  upkeep =
      (flat_map card_actions (in_order state) ++ flat_map restore_actions (by_id state))
      ++ flat_map purge_actions state.trash_list

  pub planned-actions : (planned state now config).actions ≡ upkeep
  unfolding planned plan_trash
  planned-actions =
      let cards = plan_cards state now config no_plan (in_order state) in
      let restores = plan_restores state now config cards (by_id state) in
      cc (
        plan_purges-actions state.trash_list restores,
        plan_restores-actions (by_id state) cards,
        plan_cards-actions (in_order state) no_plan,
      )
