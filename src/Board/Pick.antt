-- ===== src/Board/Pick.antt =====
-- bin/board.py: the cards that a run may take, in their order, and `pick_card`, which takes one.
use hermes_agent_workforce_p.Prelude.{
  ℕ, String, Bool, true, false, ◌&&◌, ◌||◌, Option, none, some, List, [], ◌∷◌, if◌then◌else◌,
  str_eq, opt_eq, str_leb, any, ◌<>◌, filter, map, sorted, ltb, ◌==◌,
}
use hermes_agent_workforce_p.Prelude.Dict.{Dict, lookup}
use hermes_agent_workforce_p.Ledger.{picked, Value, null, text, texts, plain, get}
use hermes_agent_workforce_p.Ledger.Brief.{Run}
use hermes_agent_workforce_p.Ledger.Derive.{CardView, derive, Wanted, brief_run, research_run}
use hermes_agent_workforce_p.Board.{
  Folder, Board, World, unreadable, Result, ok, refused, found, ◌>>=◌, fresh_view, append_event,
  put_folder,
}
use hermes_agent_workforce_p.Board.Actor.{require_actor, family}
use hermes_agent_workforce_p.Board.Texts.{text_hash}

-- `collect`, with the join with main; the folders stand in the order of their ids.
abbrev pub collect_folders : World → Dict Folder → Result (List CardView)
collect_folders w [] = ok []
collect_folders w ((id, f) ∷ folders) =
    let rest = collect_folders w folders in
    do
      view ←
          found
            (derive w.box_instant f.card f.events w.decisions w.receipts w.main w.now w.today
              w.timeout)
            unreadable
      views ← rest
      ok (if view.deleted then views else view ∷ views)

unfoldable pub collect : World → Board → Result (List CardView)
collect w b = collect_folders w b.cards

-- `PRIORITIES.index`
abbrev priority_rank : Value → Option ℕ
priority_rank (text p) =
    if str_eq p "high"
    then some 0
    else if str_eq p "normal"
    then some 1
    else if str_eq p "low"
    then some 2
    else none
priority_rank _ = none

abbrev deadline_text : Value → Option String
deadline_text (text d) = some (if str_eq d "" then "9999-12-31" else d)
deadline_text null = some "9999-12-31"
deadline_text (texts []) = some "9999-12-31"
deadline_text (texts (x ∷ xs)) = none

-- `_order_key`
abbrev pub order_key : CardView → Result (ℕ × String × String)
order_key v = do
  rank ← found (priority_rank (get "priority" v.fields)) unreadable
  deadline ← found (deadline_text (get "deadline" v.fields)) unreadable
  ok (rank, deadline, v.id)

abbrev key_le : ℕ × String × String → ℕ × String × String → Bool
key_le (m, d, i) (n, e, j) =
    ltb m n || ((m == n) && (if str_eq d e then str_leb i j else str_leb d e))

abbrev pub keyed : List CardView → Result (List ((ℕ × String × String) × CardView))
keyed [] = ok []
keyed (v ∷ views) =
    let rest = keyed views in do key ← order_key v; rows ← rest; ok ((key, v) ∷ rows)

abbrev pub wants_is : Wanted → Option Wanted → Bool
wants_is brief_run (some brief_run) = true
wants_is research_run (some research_run) = true
wants_is _ _ = false

abbrev fits : Option String → String → Bool
fits none s = true
fits (some t) s = str_eq s t

-- `_eligible`, for the columns that runs pick from.
abbrev pub is_eligible : Wanted → CardView → Bool
is_eligible purpose v = wants_is purpose v.wants

unfoldable pub candidates :
    Wanted → Option String → Option String → Option String → List CardView → Result (List CardView)
candidates purpose owner kind card views = do
  rows ← keyed (
      filter
        (λ v. is_eligible purpose v && fits card v.id && fits owner v.owner && fits kind v.kind)
        views)
  ok (map (λ r. r.1) (sorted (λ a b. key_le a.0 b.0) rows))

abbrev pub has_run : String → CardView → Bool
has_run run_id v = any (λ (r : Run). opt_eq r.run_id (some run_id)) v.runs

-- The card that the run has taken already.
abbrev pub taken_by : String → List CardView → Option String
taken_by run_id [] = none
taken_by run_id (v ∷ views) = if has_run run_id v then some v.id else taken_by run_id views

abbrev purpose_name : Wanted → String
purpose_name brief_run = "brief"
purpose_name research_run = "research"

-- The recorded brief's text hashes to its hash, or there is no brief; a text that is not there raises.
abbrev pub is_intact : World → Folder → Option String → Result Bool
is_intact w f none = ok true
is_intact w f (some hash) = if str_eq hash "" then ok true else elim (lookup hash f.briefs) [
  | none ↦ refused unreadable
  | some body ↦ ok (str_eq (text_hash w body) hash)
]

unfoldable pub take_card : World → Wanted → String → String → CardView → Folder → Folder
take_card w purpose run_id workflow view f =
    append_event w picked ("run:" <> run_id) (some run_id) (some workflow) view.brief_hash
      (("purpose", plain (text (purpose_name purpose))) ∷ []) f

abbrev pub intact_if : World → Folder → CardView → Bool → Result Bool
intact_if w f view true = is_intact w f view.brief_hash
intact_if w f view false = ok false

abbrev pub taken_if : Bool → String → Board → Option (String × Board)
taken_if ready id b = if ready then some (id, b) else none

-- One candidate, looked at afresh: taken, or passed over.
unfoldable pub try_card :
    World → Wanted → String → String → CardView → Board → Result (Option (String × Board))
try_card w purpose run_id workflow candidate b = do
  f ← found (lookup candidate.id b.cards) unreadable
  view ← fresh_view w f
  intact ← intact_if w f view (is_eligible purpose view)
  ok (
      taken_if (is_eligible purpose view && intact) candidate.id
        (put_folder candidate.id (take_card w purpose run_id workflow view f) b))

abbrev pub or_next : {A : Type 0} → Option A → Result (Option A) → Result (Option A)
or_next none next = next
or_next (some a) next = ok (some a)

abbrev pub try_cards :
    World → Wanted → String → String → List CardView → Board → Result (Option (String × Board))
try_cards w purpose run_id workflow [] b = ok none
try_cards w purpose run_id workflow (c ∷ cs) b =
    let next = try_cards w purpose run_id workflow cs b in
    do taken ← try_card w purpose run_id workflow c b; or_next taken next

-- `pick_card`: the card's id, and the board after it.
-- The candidates in their order, each tried in turn.
unfoldable pub pick_new :
    World
    → Wanted
    → String
    → String
    → Option String
    → Option String
    → Option String
    → List CardView
    → Board
    → Result (Option (String × Board))
pick_new w purpose run_id workflow owner kind card views b = do
  rows ← candidates purpose owner kind card views
  try_cards w purpose run_id workflow rows b

abbrev pub picked_again :
    Option String → Board → Result (Option (String × Board)) → Result (Option (String × Board))
picked_again none b next = next
picked_again (some id) b next = ok (some (id, b))

-- `pick_card`: the card's id, and the board after it. A run that has a card gets it again.
unfoldable pub pick_card :
    World
    → Wanted
    → String
    → String
    → Option String
    → Option String
    → Option String
    → Board
    → Result (Option (String × Board))
pick_card w purpose run_id workflow owner kind card b = do
  u ← require_actor ("run:" <> run_id) (family "run:" ∷ [])
  views ← collect w b
  picked_again (taken_by run_id views) b
      (pick_new w purpose run_id workflow owner kind card views b)
