-- ===== src/Board/Tests.antt =====
-- A board of one card, its verbs run, and the theorems about them at concrete inputs.
use hermes_agent_workforce_p.Prelude.{
  ℕ, leb, ◌+◌, ◌*◌, ◌≡◌, refl, String, true, false, has, not, ◌&&◌, Option, none, some, List, [],
  ◌∷◌, ◌++◌, In, ◌⊎◌, str_eq, if◌then◌else◌,
}
use hermes_agent_workforce_p.Prelude.Dict.{lookup}
use hermes_agent_workforce_p.Stamp.{at, iso_utc, parse_time, is_set}
use hermes_agent_workforce_p.Ledger.Deletion.{IsOn}
use hermes_agent_workforce_p.Dates.{
  date_of, wall_time, date_prefix, ordinal, is_leap, days_before, days_in_month,
}
use hermes_agent_workforce_p.Ledger.{
  Event, EventKind, created, brief, Decision, brief_approved, deleted, text, plain, change, Change,
  ordered_events, ordered_decisions, latest, moment, effective_fields,
}
use hermes_agent_workforce_p.Ledger.Brief.{brief_state, runs_of, human_inputs, questions}
use hermes_agent_workforce_p.Ledger.Flow.{flow_of, since_unblock, failed_streak}
use hermes_agent_workforce_p.Ledger.Blocks.{blocks_of, holds_of, deadline_triggers}
use hermes_agent_workforce_p.Ledger.Derive.{
  CardView, derive, view_of, own, brief_wants, deletion, due_at, editable_fields, moves_of,
  research_run, is_editable,
}
use hermes_agent_workforce_p.Board.{Folder, Board, World, ok, fresh_view, append_event, put_folder}
use hermes_agent_workforce_p.Board.Actor.{is_actor, is_reason_code, require_actor}
use hermes_agent_workforce_p.Board.Texts.{normalise, text_hash, checked_text}
use hermes_agent_workforce_p.Board.Write.{
  hold_card, save_hold, add_note, add_brief, new_brief, record_brief,
}
use hermes_agent_workforce_p.Board.Edit.{edit_card, save_edit}
use hermes_agent_workforce_p.Board.Pick.{
  collect, candidates, take_card, try_card, pick_new, pick_card,
}
use hermes_agent_workforce_p.Board.Trash.{trash_card, restore_card, purge_trash, deleted_at}
use hermes_agent_workforce_p.Board.Again.{HadBefore}
use hermes_agent_workforce_p.Board.Runs.{Founded, research_picked}
use hermes_agent_workforce_p.Board.Append.{Steps, picks, done, step, Extends, ledgers_only_grow}
use hermes_agent_workforce_p.Board.Editable.{edit_editable}
use hermes_agent_workforce_p.Board.Trashed.{Same, trash-restore, OldDeletion, purge_trash-keeps}

abbrev row : EventKind → ℕ → String → Option String → Event
row kind t actor hash = record {
  ts = some (at t);
  event = kind;
  actor = some actor;
  run_id = none;
  workflow = none;
  hash = hash;
  reason = none;
  fields = [];
}

abbrev digest : String → String
digest s = if str_eq s "Q" then "h1" else "h0"

abbrev quartz : Folder
quartz = record {
  card = record {
    id = "quartz";
    owner = "claudius";
    kind = "research";
    fields = ("title", text "Quartz") ∷ [];
  };
  events = row created 10 "dave" none ∷ row brief 10 "dave" (some "h1") ∷ [];
  briefs = ("h1", "Q") ∷ [];
}

abbrev board : Board
board = record { cards = ("quartz", quartz) ∷ []; trash = [] }

abbrev approval : Decision
approval = record {
  ts = some (at 30);
  decision = brief_approved;
  card = some "quartz";
  brief_hash = some "h1";
  page_hash = none;
  reason = none;
}

abbrev world : World
world = record {
  box_instant = λ t. t;
  now = 1000;
  today = 1;
  timeout = 3600;
  decisions = approval ∷ [];
  receipts = λ run. none;
  main = [];
  sha256 = digest;
}

all_open : Unit {0}
unfolding parse_time iso_utc date_of wall_time date_prefix ordinal is_leap days_before days_in_month
    moment ordered_events ordered_decisions latest effective_fields brief_state runs_of human_inputs
    questions flow_of since_unblock failed_streak deadline_triggers blocks_of holds_of brief_wants
    deletion due_at editable_fields moves_of own view_of derive fresh_view append_event put_folder
    is_actor is_reason_code require_actor normalise text_hash checked_text hold_card save_hold
    add_note add_brief new_brief record_brief edit_card save_edit collect candidates take_card
    try_card pick_new pick_card trash_card restore_card purge_trash
all_open = tt

actor_run : is_actor "run:r-1.2" ≡ true
unfolding all_open
actor_run = refl

actor_other : is_actor "run:" ≡ false
unfolding all_open
actor_other = refl

text_lines : normalise "a\r\nb\rc \n" ≡ "a\nb\nc"
unfolding all_open
text_lines = refl

abbrev picked_row : Event
picked_row = record {
  ts = some (at 1000);
  event = EventKind.picked;
  actor = some "run:r9";
  run_id = some "r9";
  workflow = some "board-research";
  hash = some "h1";
  reason = none;
  fields = ("purpose", plain (text "research")) ∷ [];
}

abbrev running : Folder
running = record quartz { events = quartz.events ++ (picked_row ∷ []) }

abbrev running_board : Board
running_board = record { cards = ("quartz", running) ∷ []; trash = [] }

picked_running :
    pick_card world research_run "r9" "board-research" none none none board
    ≡ ok (some ("quartz", running_board))
unfolding all_open
picked_running = refl

-- The same run gets the same card, and the board stays.
picked_twice :
    pick_card world research_run "r9" "board-research" none none none running_board
    ≡ ok (some ("quartz", running_board))
unfolding all_open
picked_twice = refl

-- Another run finds the card taken.
picked_other :
    pick_card world research_run "r10" "board-research" none none none running_board ≡ ok none
unfolding all_open
picked_other = refl

research_picked_example :
    ((running_board ≡ board) × HadBefore "r9" board "quartz")
    ⊎ ((f : Folder) × (view : CardView) × (hash : String) × (lookup "quartz" board.cards ≡ some f)
        × (view.brief_hash ≡ some hash)
        × Founded world f hash
        × (running_board
            ≡ put_folder "quartz"
                (take_card world research_run "r9" "board-research" view f)
                board))
research_picked_example =
    research_picked world "r9" "board-research" none none none board "quartz" running_board
      picked_running

picking : Steps board running_board
picking =
    step board running_board running_board
      (picks world research_run "r9" "board-research" none none none board "quartz" running_board
        picked_running)
      (done running_board)

ledgers_only_grow_example : Extends "quartz" quartz running_board
ledgers_only_grow_example = ledgers_only_grow board running_board "quartz" quartz picking refl

abbrev edited_row : Event
edited_row = record {
  ts = some (at 1000);
  event = EventKind.edited;
  actor = some "dave";
  run_id = none;
  workflow = none;
  hash = none;
  reason = none;
  fields = ("title", change (text "Quartz veins")) ∷ [];
}

abbrev edited_board : Board
edited_board = record {
  cards = ("quartz", record quartz { events = quartz.events ++ (edited_row ∷ []) }) ∷ [];
  trash = [];
}

edited_title :
    edit_card world "quartz" (("title", text "Quartz veins") ∷ []) 2 "dave" board
    ≡ ok ("title" ∷ [], edited_board)
unfolding all_open
edited_title = refl

edit_editable_example :
    (f : Folder) × (view : CardView) × (lookup "quartz" board.cards ≡ some f)
    × (fresh_view world f ≡ ok view)
    × ((row : Event) × (row.event ≡ EventKind.edited)
        × (row.actor ≡ some "dave")
        × (edited_board ≡ put_folder "quartz" (record f { events = f.events ++ (row ∷ []) }) board)
        × ((k : String) (c : Change)
            → In (k, c) row.fields
            → ((is_editable k view.column && not (view.has_research_run && str_eq k "scope"))
                ≡ true)
              × (has k ("id" ∷ "owner" ∷ "kind" ∷ []) ≡ false)))
    × ((k : String)
        → In k ("title" ∷ [])
        → ((is_editable k view.column && not (view.has_research_run && str_eq k "scope")) ≡ true)
          × (has k ("id" ∷ "owner" ∷ "kind" ∷ []) ≡ false))
edit_editable_example =
    edit_editable world "quartz" (("title", text "Quartz veins") ∷ []) 2 "dave" board
      ("title" ∷ [], edited_board) edited_title

abbrev trashed_board : Board
trashed_board = record { cards = []; trash = ("quartz", quartz) ∷ [] }

board_trashed : trash_card "quartz" board ≡ ok (true, trashed_board)
unfolding all_open
board_trashed = refl

trash-restore_example :
    (b : Board) × (restore_card "quartz" trashed_board ≡ ok (true, b)) × Same board b
trash-restore_example = trash-restore "quartz" board trashed_board (refl, tt) tt board_trashed

abbrev gone : List Decision
gone = record approval { ts = some (at 2000); decision = deleted } ∷ []

purge_trash-keeps_example :
    let after = lookup "quartz" (purge_trash gone 9000000 trashed_board).trash in
    ((purge_trash gone 9000000 trashed_board).cards ≡ [])
    × (is_set (deleted_at gone "quartz") ≡ true
        → after ≡ (
            if leb (moment (deleted_at gone "quartz") + 30 * 86400) 9000000
            then none
            else some quartz))
    × (is_set (deleted_at gone "quartz") ≡ false → after ≡ some quartz)
    × ((after ≡ some quartz) ⊎ ((after ≡ none) × OldDeletion gone "quartz" 9000000))
    × (((d : Decision) → IsOn "quartz" gone deleted d → ⊥) → after ≡ some quartz)
purge_trash-keeps_example =
    purge_trash-keeps gone 9000000 trashed_board "quartz" quartz (refl, tt) refl
