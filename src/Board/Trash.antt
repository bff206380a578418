-- ===== src/Board/Trash.antt =====
-- bin/board.py: the trash, where a deleted card lies whole until its retention ends.
use hermes_agent_workforce_p.Prelude.{
  ℕ, ◌+◌, String, Bool, true, false, not, Option, none, some, List, [], ◌∷◌, if◌then◌else◌, ltb,
}
use hermes_agent_workforce_p.Prelude.Dict.{Dict, lookup, insert, erase}
use hermes_agent_workforce_p.Stamp.{Stamp, is_set}
use hermes_agent_workforce_p.Ledger.{Decision, moment}
use hermes_agent_workforce_p.Ledger.Derive.{deletion, is_deleted, stamp_of}
use hermes_agent_workforce_p.Ledger.Deletion.{on_card}
use hermes_agent_workforce_p.Board.{Folder, Board, in_trash, on_board, Result, ok, refused}

abbrev pub trash_into : String → Folder → Board → Option Folder → Result (Bool × Board)
trash_into id f b none = ok (true, record { cards = erase id b.cards; trash = insert id f b.trash })
trash_into id f b (some g) = refused in_trash

-- `trash_card`: False where the card is not on the board.
unfoldable pub trash_card : String → Board → Result (Bool × Board)
trash_card id b = elim (lookup id b.cards) [
  | none ↦ ok (false, b)
  | some f ↦ trash_into id f b (lookup id b.trash)
]

abbrev pub restore_into : String → Folder → Board → Option Folder → Result (Bool × Board)
restore_into id f b none =
    ok (true, record { cards = insert id f b.cards; trash = erase id b.trash })
restore_into id f b (some g) = refused on_board

-- `restore_card`: False where the trash does not hold it.
unfoldable pub restore_card : String → Board → Result (Bool × Board)
restore_card id b = elim (lookup id b.trash) [
  | none ↦ ok (false, b)
  | some f ↦ restore_into id f b (lookup id b.cards)
]

-- `TRASH_DAYS`, in seconds
abbrev retention : ℕ
retention = 2592000

-- `_deleted_at`
abbrev pub deleted_at : List Decision → String → Option Stamp
deleted_at decisions id =
    let gone = deletion (on_card id decisions) in if is_deleted gone then stamp_of gone else none

-- `_t(deleted) + dt.timedelta(days=TRASH_DAYS)) if deleted else None`
abbrev ends : Option Stamp → Option ℕ
ends deleted = if is_set deleted then some (moment deleted + retention) else none

-- `purge_after` of the row of a folder: none where no deletion is on record.
abbrev pub purge_after : List Decision → String → Option ℕ
purge_after decisions id = ends (deleted_at decisions id)

abbrev pub is_due : Option ℕ → ℕ → Bool
is_due none now = false
is_due (some t) now = not (ltb now t)

-- `_purge_row`, on each row that is due.
abbrev pub purge_rows : List Decision → ℕ → Dict Folder → Dict Folder
purge_rows decisions now [] = []
purge_rows decisions now ((id, f) ∷ trash) =
    let rest = purge_rows decisions now trash in
    if is_due (purge_after decisions id) now then rest else (id, f) ∷ rest

-- `purge_trash`
unfoldable pub purge_trash : List Decision → ℕ → Board → Board
purge_trash decisions now b = record b { trash = purge_rows decisions now b.trash }
