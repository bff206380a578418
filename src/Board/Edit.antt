-- ===== src/Board/Edit.antt =====
-- bin/board.py, `edit_card`: the verb that changes a card's fields.
use hermes_agent_workforce_p.Prelude.{
  ℕ, String, Bool, true, not, ◌||◌, Option, none, some, List, [], ◌∷◌, if◌then◌else◌, str_eq, has,
  str_leb, any, all, map, length, sorted, ◌==◌,
}
use hermes_agent_workforce_p.Prelude.Dict.{Dict, lookup, insert}
use hermes_agent_workforce_p.Ledger.{edited, Value, text, Change, change, get}
use hermes_agent_workforce_p.Ledger.Brief.{value_eq}
use hermes_agent_workforce_p.Ledger.Derive.{CardView}
use hermes_agent_workforce_p.Board.{
  Folder, Board, World, no_such_card, stale_revision, locked_field, nothing_changed, not_editable,
  dates_disagree, unreadable, Result, ok, require, found, ◌>>=◌, fresh_view, append_event,
  put_folder,
}
use hermes_agent_workforce_p.Board.Actor.{require_actor, name}
use hermes_agent_workforce_p.Board.Write.{take_text}

-- `LOCKED_FIELDS`
abbrev pub is_locked : String → Bool
is_locked field = has field ("id" ∷ "owner" ∷ "kind" ∷ [])

-- The changes that change something; `current[k]` raises where there is no such field.
abbrev pub diff_of : Dict Value → Dict Value → Option (Dict Value)
diff_of current [] = some []
diff_of current ((field, v) ∷ changes) =
    let rest = diff_of current changes in
    elim (lookup field current) [
      | none ↦ none
      | some old ↦ elim rest [
        | none ↦ none
        | some diff ↦ some (if value_eq old v then diff else (field, v) ∷ diff)
      ]
    ]

abbrev pub update_values : Dict Value → Dict Value → Dict Value
update_values [] current = current
update_values ((field, v) ∷ diff) current = update_values diff (insert field v current)

-- `research_on[:10] > deadline`, where both are texts
abbrev pub dates_agree : Value → Value → Bool
dates_agree (text research_on) (text deadline) =
    str_eq research_on "" || str_eq deadline "" || str_leb (take_text 10 research_on) deadline
dates_agree _ _ = true

abbrev pub fields_of : Dict Value → List String
fields_of diff = map (λ c. c.0) diff

-- The row's changes, in the order of their names, as they are written.
abbrev pub change_rows : Dict Value → Dict Change
change_rows diff = sorted (λ a b. str_leb a.0 b.0) (map (λ c. (c.0, change c.1)) diff)

-- The checks on a diff, and the row.
unfoldable pub save_edit :
    World → String → String → CardView → Dict Value → Folder → Board → Result (List String × Board)
save_edit w id actor view diff f b = do
  n ← require (not (length diff == 0)) nothing_changed
  e ← require (all (λ field. has field view.editable) (fields_of diff)) not_editable
  d ←
      require
        (dates_agree (get "research_on" (update_values diff view.fields))
          (get "deadline" (update_values diff view.fields)))
        dates_disagree
  ok (
    sorted str_leb (fields_of diff),
    put_folder id (append_event w edited actor none none none (change_rows diff) f) b,
  )

-- `edit_card`
unfoldable pub edit_card :
    World → String → Dict Value → ℕ → String → Board → Result (List String × Board)
edit_card w id changes expect_rev actor b = do
  u ← require_actor actor (name "dave" ∷ name "mac:claude" ∷ [])
  l ← require (not (any is_locked (fields_of changes))) locked_field
  f ← found (lookup id b.cards) no_such_card
  view ← fresh_view w f
  r ← require (length f.events == expect_rev) stale_revision
  diff ← found (diff_of view.fields changes) unreadable
  save_edit w id actor view diff f b
