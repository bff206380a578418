-- ===== src/Plan/Tests.antt =====
-- Plans of a small board, and the theorems about them at concrete inputs.
use hermes_agent_workforce_p.Prelude.{◌≤◌, ◌≡◌, refl, false, some, [], ◌∷◌, map, All, take, inl}
use hermes_agent_workforce_p.Prelude.Dict.{IsDict}
use hermes_agent_workforce_p.Plan.{
  Wants, order_le, priority_rank, deadline_key, card_units, unit_for, last_pick, trash_key,
  deleted_actions, quarantine, ready_at, plan_wanted, plan_card, plan_cards, plan_restore,
  plan_restores, plan_purges, plan_trash, spend, planned, plan, room_of, start_action, hold_action,
  stop_unit,
}
use hermes_agent_workforce_p.Plan.Samples.{config, card, poison_card, urgent_card, board, budget}
use hermes_agent_workforce_p.Plan.Starts.{starts, start_of, waiting, Ascending, plan-starts}
use hermes_agent_workforce_p.Plan.Justified.{Justified, plan-Justified}
use hermes_agent_workforce_p.Plan.Wakes.{Served, plan-Served}
use hermes_agent_workforce_p.Plan.Unique.{start_count, IsKeyed, start_count-plan}

all_open : Unit {0}
unfolding order_le priority_rank deadline_key card_units unit_for last_pick trash_key
    deleted_actions quarantine ready_at plan_wanted plan_card plan_cards plan_restore plan_restores
    plan_purges plan_trash spend planned plan
all_open = tt

plan-board : plan board 1000 budget config ≡ record {
  actions =
      stop_unit "b" "board-work@b.service"
      ∷ hold_action poison_card "poison-attempts"
      ∷ start_action urgent_card Wants.research
      ∷ [];
  wake_at = some 1030;
  capped = false;
}
unfolding all_open
plan-board = refl

plan-starts_example :
    (starts (plan board 1000 budget config).actions
      ≡ take (room_of budget) (map start_of (waiting board 1000 config)))
    × Ascending (waiting board 1000 config)
plan-starts_example = plan-starts board 1000 budget config

plan-Justified_example : All (Justified board 1000 config) (plan board 1000 budget config).actions
plan-Justified_example = plan-Justified board 1000 budget config

plan-Served_example : Served board 1000 config budget (card "a")
unfolding all_open
plan-Served_example =
    plan-Served board 1000 config budget (card "a") Wants.research (inl refl) refl refl refl

board-IsDict : IsDict board.views
board-IsDict = (refl, (refl, (refl, (refl, tt))))

board-IsKeyed : IsKeyed board.views
board-IsKeyed = (refl, (refl, (refl, (refl, tt))))

start_count-plan_example : start_count "d" (plan board 1000 budget config).actions ≤ 1
start_count-plan_example = start_count-plan "d" board 1000 budget config board-IsDict board-IsKeyed
