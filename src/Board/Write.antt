-- ===== src/Board/Write.antt =====
-- bin/board.py: the verbs that add a brief, a note or a hold to a card's ledger.
use hermes_agent_workforce_p.Prelude.{
  ℕ, String, Bool, true, false, not, ◌&&◌, ◌||◌, Option, none, some, List, [], ◌∷◌, if◌then◌else◌,
  str_eq, opt_eq, starts_with, zero, suc, truthy, any, length, ◌==◌,
}
use hermes_agent_workforce_p.Prelude.Dict.{Dict, lookup, insert}
use hermes_agent_workforce_p.Ledger.{
  Event, brief, note, held, Decision, brief_returned, is_verdict, is_event, Change, plain, text,
}
use hermes_agent_workforce_p.Ledger.Flow.{Column, backlog, refine, todo, blocked}
use hermes_agent_workforce_p.Ledger.Blocks.{Cause, hold}
use hermes_agent_workforce_p.Ledger.Derive.{CardView, is_column}
use hermes_agent_workforce_p.Board.{
  Folder, Board, World, not_a_reason, not_a_note_kind, may_not_note, no_such_card, stale_revision,
  wrong_column, returned_text, unchanged_brief, Result, ok, require, found, ◌>>=◌, fresh_view,
  append_event, put_folder,
}
use hermes_agent_workforce_p.Board.Actor.{require_actor, is_reason_code, Allowed, name, family}
use hermes_agent_workforce_p.Board.Texts.{normalise, text_hash, checked_text}

-- `s[n:]`
abbrev drop_text : ℕ → String → String
drop_text zero s = s
drop_text (suc n) String.[] = String.[]
drop_text (suc n) (String.◌∷◌ c s) = drop_text n s

-- `s[:n]`
abbrev pub take_text : ℕ → String → String
take_text zero s = String.[]
take_text (suc n) String.[] = String.[]
take_text (suc n) (String.◌∷◌ c s) = String.◌∷◌ c (take_text n s)

-- The id of the run that acts.
abbrev pub run_of_actor : String → Option String
run_of_actor actor = if starts_with "run:" actor then some (drop_text 4 actor) else none

abbrev pub is_hold : Option Cause → Bool
is_hold (some (hold c)) = true
is_hold _ = false

-- The hold's row, unless the card is held already.
unfoldable pub save_hold :
    World → String → String → String → CardView → Folder → Board → Bool × Board
save_hold w id reason actor view f b =
    if is_column blocked view.column && is_hold view.blocked_cause then (false, b) else (
      true,
      put_folder id
          (append_event w held actor none none none (("reason", plain (text reason)) ∷ []) f) b,
    )

-- `hold_card`
unfoldable pub hold_card : World → String → String → String → Board → Result (Bool × Board)
hold_card w id reason actor b = do
  u ← require_actor actor (name "reactor" ∷ [])
  v ← require (is_reason_code reason) not_a_reason
  f ← found (lookup id b.cards) no_such_card
  view ← fresh_view w f
  ok (save_hold w id reason actor view f b)

-- `NOTE_KINDS`
abbrev is_note_kind : String → Bool
is_note_kind kind = str_eq kind "questions" || str_eq kind "answer"

abbrev pub is_kind_of_note : Option String → Bool
is_kind_of_note none = true
is_kind_of_note (some kind) = is_note_kind kind

abbrev bool_eq : Bool → Bool → Bool
bool_eq true b = b
bool_eq false b = not b

-- Only a run asks questions, and it writes no answer.
abbrev pub may_note : String → Option String → Bool
may_note actor none = true
may_note actor (some kind) = bool_eq (str_eq kind "questions") (starts_with "run:" actor)

abbrev pub note_fields : String → Option String → Dict Change
note_fields body none = ("text", plain (text body)) ∷ []
note_fields body (some kind) =
    if str_eq kind ""
    then ("text", plain (text body)) ∷ []
    else ("kind", plain (text kind)) ∷ ("text", plain (text body)) ∷ []

abbrev pub anyone : List Allowed
anyone = name "dave" ∷ name "mac:claude" ∷ family "buzz:" ∷ family "run:" ∷ []

-- `add_note`
unfoldable pub add_note : World → String → String → String → Option String → Board → Result Board
add_note w id body actor kind b = do
  u ← require_actor actor anyone
  k ← require (is_kind_of_note kind) not_a_note_kind
  m ← require (may_note actor kind) may_not_note
  s ← checked_text body
  f ← found (lookup id b.cards) no_such_card
  ok (
      put_folder id
        (append_event w note actor (run_of_actor actor) none none (note_fields (normalise s) kind)
          f)
        b)

-- `brief_columns`
abbrev pub brief_columns : String → Column → Bool
brief_columns actor column =
    if starts_with "run:" actor || starts_with "buzz:" actor
    then is_column backlog column || is_column refine column
    else is_column backlog column
      || is_column refine column
      || is_column todo column
      || is_column blocked column

-- `record_brief`
unfoldable pub record_brief : World → String → String → Option String → Folder → Folder
record_brief w body actor run_id f =
    let digest = text_hash w body in
    append_event w brief actor run_id none (some digest) []
      (record f { briefs = insert digest (normalise body) f.briefs })

-- The first brief that the run wrote, `earlier[0]`; a run with an empty id writes as none.
abbrev pub earlier_brief : Option String → List Event → Option Event
earlier_brief run_id [] = none
earlier_brief run_id (e ∷ events) =
    if is_event brief e && truthy run_id && opt_eq e.run_id run_id
    then some e
    else earlier_brief run_id events

abbrev pub was_returned : String → String → List Decision → Bool
was_returned id digest decisions =
    any
      (λ d.
        is_verdict brief_returned d.decision
        && opt_eq d.card (some id)
        && opt_eq d.brief_hash (some digest))
      decisions

abbrev pub is_revision : Option ℕ → ℕ → Bool
is_revision none n = true
is_revision (some rev) n = n == rev

-- The text is new, and the card takes a brief of this actor.
unfoldable pub new_brief :
    World → String → String → String → CardView → Folder → Board → Result (Option String × Board)
new_brief w id body actor view f b =
    let digest = text_hash w body in
    do
      c ← require (brief_columns actor view.column) wrong_column
      r ← require (not (was_returned id digest w.decisions)) returned_text
      d ← require (not (opt_eq (some digest) view.brief_hash)) unchanged_brief
      ok (some digest, put_folder id (record_brief w body actor (run_of_actor actor) f) b)

abbrev pub or_earlier :
    Option Event → Board → Result (Option String × Board) → Result (Option String × Board)
or_earlier none b next = next
or_earlier (some e) b next = ok (e.hash, b)

-- `add_brief`: the hash of the brief. A run that wrote one already gets its hash again.
unfoldable pub add_brief :
    World → String → String → String → Option ℕ → Board → Result (Option String × Board)
add_brief w id body actor expect_rev b = do
  u ← require_actor actor anyone
  s ← checked_text body
  f ← found (lookup id b.cards) no_such_card
  view ← fresh_view w f
  r ← require (is_revision expect_rev (length f.events)) stale_revision
  or_earlier (earlier_brief (run_of_actor actor) f.events) b (new_brief w id s actor view f b)
