-- ===== src/Plan/Samples.antt =====
-- A small board: one card that may start, one deleted with a running unit, one poison.
use hermes_agent_workforce_p.Prelude.{true, false, none, some, [], ◌∷◌, String}
use hermes_agent_workforce_p.Source.{Budget}
use hermes_agent_workforce_p.Plan.{Wants, Config, View, BoardState}

abbrev pub config : Config
config = record { cooldown = 600; attempts = 3 }

abbrev pub card : String → View
card name = record {
  id = name;
  deleted = false;
  scheduled = false;
  due_at = none;
  wants = some Wants.research;
  picks = [];
  unblocked_at = none;
  failed_streak = 0;
  priority = none;
  deadline = none;
}

abbrev pub deleted_card : View
deleted_card = record (card "b") { deleted = true }

abbrev pub poison_card : View
poison_card = record (card "c") { failed_streak = 3 }

abbrev pub urgent_card : View
urgent_card = record (card "d") { priority = some "high" }

abbrev pub board : BoardState
board = record {
  views = ("a", card "a") ∷ ("b", deleted_card) ∷ ("c", poison_card) ∷ ("d", urgent_card) ∷ [];
  active = "board-work@b.service" ∷ [];
  memory = [];
  trash = [];
  trash_list = [];
}

abbrev pub budget : Budget
budget = record { slots = 1; remaining_today = some 5 }
