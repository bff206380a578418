-- ===== src/Board.antt =====
-- bin/board.py: the verbs that write the board, on its folders.
-- The board is the folders of its cards and of its trash, by id. A verb runs under the card's lock,
-- so that it is one step from board to board; a refusal writes nothing. The world of a verb is what
-- it reads besides: the clock, the decisions, the receipts, canonical main and the digest of a text.
pub mod Actor
pub mod Texts
pub mod Write
pub mod Edit
pub mod Trash
pub mod Pick
pub mod Again
pub mod Runs
pub mod Append
pub mod Editable
pub mod Trashed
mod Tests
use hermes_agent_workforce_p.Prelude.{
  ℕ, ◌≡◌, refl, String, Bool, true, false, not, ◌&&◌, ◌||◌, Option, none, some, List, [], ◌∷◌, ◌++◌,
  if◌then◌else◌, is_some, any, length, ◌==◌,
}
use hermes_agent_workforce_p.Prelude.Dict.{Dict, lookup, insert}
use hermes_agent_workforce_p.Stamp.{iso_utc}
use hermes_agent_workforce_p.Ledger.{
  Card, Event, EventKind, Decision, RunReceipt, Change, plain, text,
}
use hermes_agent_workforce_p.Ledger.Derive.{CardView, derive}

-- A card's directory: `card.json`, `events.jsonl` and `briefs/`, the texts by their hashes.
pub record Folder : Type 0 where
  pub card : Card
  pub events : List Event
  pub briefs : Dict String

pub record Board : Type 0 where
  pub cards : Dict Folder
  pub trash : Dict Folder

pub record World : Type 0 where
  pub box_instant : ℕ → ℕ
  pub now : ℕ
  pub today : ℕ
  pub timeout : ℕ
  pub decisions : List Decision
  pub receipts : Option String → Option RunReceipt
  pub main : Dict String
  pub sha256 : String → String

-- The refusals of the verbs, and the errors that reading raises.
pub data BoardError : Type 0 where
  not_an_actor may_not not_a_reason not_a_note_kind may_not_note : BoardError
  empty_text long_text : BoardError
  no_such_card stale_revision wrong_column returned_text unchanged_brief : BoardError
  locked_field nothing_changed not_editable dates_disagree : BoardError
  in_trash on_board unreadable : BoardError

pub data Result {ℓ} (A : Type ℓ) : Type ℓ where
  ok : A → Result A
  refused : BoardError → Result A

infixl 10 ◌>>=◌
abbrev pub ◌>>=◌ {ℓ κ} : {A : Type ℓ} {B : Type κ} → Result A → (A → Result B) → Result B
ok a >>= f = f a
refused e >>= f = refused e

abbrev pub require : Bool → BoardError → Result (Unit {0})
require true e = ok tt
require false e = refused e

abbrev pub found {ℓ} : {A : Type ℓ} → Option A → BoardError → Result A
found none e = refused e
found (some a) e = ok a

-- A verb that succeeds got a value from its first step, and succeeded with it.
pub ok_before {ℓ κ} :
    {A : Type ℓ} {B : Type κ} {b : B} (first : Result A) (rest : A → Result B)
    → (first >>= rest) ≡ ok b
    → (a : A) × (first ≡ ok a) × (rest a ≡ ok b)
ok_before (refused e) rest h = cc
ok_before (ok a) rest h = (a, refl, h)

pub require-ok : (b : Bool) (e : BoardError) {u : Unit {0}} → require b e ≡ ok u → b ≡ true
require-ok true e h = refl
require-ok false e h = cc

-- `fresh_view`: without the join with main.
unfoldable pub fresh_view : World → Folder → Result CardView
fresh_view w f =
    found (derive w.box_instant f.card f.events w.decisions w.receipts [] w.now w.today w.timeout)
      unreadable

-- `append_event`, on a folder.
unfoldable pub append_event :
    World
    → EventKind
    → String
    → Option String
    → Option String
    → Option String
    → Dict Change
    → Folder
    → Folder
unfolding iso_utc
append_event w event actor run_id workflow hash fields f = record f {
  events =
      f.events
      ++ (record {
        ts = some (iso_utc w.now);
        event = event;
        actor = some actor;
        run_id = run_id;
        workflow = workflow;
        hash = hash;
        reason = none;
        fields = fields;
      }
          ∷ []);
}

unfoldable pub put_folder : String → Folder → Board → Board
put_folder id f b = record b { cards = insert id f b.cards }
