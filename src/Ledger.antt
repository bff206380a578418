-- ===== src/Ledger.antt =====
-- bin/board.py: a card's ledger, the broker's decisions on it, and what is read from them first.
-- An instant is in whole seconds since the first day of year 1, so that `datetime.min` is 0. A JSON
-- object is a record whose optional keys are options; a card's fields are a Dict, as in the source.
pub mod Brief
pub mod Flow
pub mod Blocks
pub mod Derive
pub mod Order
pub mod Sorted
pub mod Deletion
pub mod Columns
pub mod Research
pub mod Done
pub mod Unblock
pub mod Honest
pub mod Forged
pub mod Streak
mod Tests
use hermes_agent_workforce_p.Prelude.{
  ℕ, String, Bool, true, false, not, ◌&&◌, ◌||◌, Option, none, some, List, [], ◌∷◌, if◌then◌else◌,
  ltb, leb, or_else, str_eq, opt_eq, sorted,
}
use hermes_agent_workforce_p.Prelude.Dict.{Dict, lookup, insert}
use hermes_agent_workforce_p.Stamp.{Stamp, parse_time}

-- `DECISIONS`, the verbs of the broker's stream.
pub data Verdict : Type 0 where
  brief_approved brief_returned approved changes_requested rejected : Verdict
  blocked unblocked deleted restored : Verdict

-- The `event` of a ledger row: one of `EVENTS`, one shaped like a decision, or any other text.
pub data EventKind : Type 0 where
  created brief picked note edited held : EventKind
  decision_shaped : Verdict → EventKind
  other : String → EventKind

pub data Value : Type 0 where
  null : Value
  text : String → Value
  texts : List String → Value

-- A value under `fields`: a plain one, or an object, of which only `new` is read.
pub data Change : Type 0 where
  plain : Value → Change
  change : Value → Change

pub record Event : Type 0 where
  pub ts : Option Stamp
  pub event : EventKind
  pub actor : Option String
  pub run_id : Option String
  pub workflow : Option String
  pub hash : Option String
  pub reason : Option String
  pub fields : Dict Change

pub record Decision : Type 0 where
  pub ts : Option Stamp
  pub decision : Verdict
  pub card : Option String
  pub brief_hash : Option String
  pub page_hash : Option String
  pub reason : Option String

pub record Card : Type 0 where
  pub id : String
  pub owner : String
  pub kind : String
  pub fields : Dict Value

-- What `derive` reads of a run's receipt: its terminal outcome and the card's page.
pub record RunReceipt : Type 0 where
  pub outcome : Option String
  pub page : Option String

-- `_t`
unfoldable pub moment : Option Stamp → ℕ
unfolding parse_time
moment ts = or_else (parse_time ts) 0

-- `_ordered`
unfoldable pub ordered_events : List Event → List Event
ordered_events events = sorted (λ a b. leb (moment a.ts) (moment b.ts)) events

unfoldable pub ordered_decisions : List Decision → List Decision
ordered_decisions rows = sorted (λ a b. leb (moment a.ts) (moment b.ts)) rows

module _ {ℓ} {A : Type ℓ} where
  -- `xs[-1]` where there is one
  abbrev pub last : List A → Option A
  last [] = none
  last (x ∷ []) = some x
  last (x ∷ y ∷ ys) = last (y ∷ ys)

  -- `max(xs, key=key)`, which keeps the first of those that are greatest
  abbrev pub greatest : (A → ℕ) → A → List A → A
  greatest key x [] = x
  greatest key x (y ∷ ys) = greatest key (if ltb (key x) (key y) then y else x) ys

  abbrev pub max_by : (A → ℕ) → List A → Option A
  max_by key [] = none
  max_by key (x ∷ xs) = some (greatest key x xs)

-- `_latest` on decisions
unfoldable pub latest : List Decision → Option Decision
latest rows = last (ordered_decisions rows)

-- Python's truth of a value
abbrev pub is_true : Value → Bool
is_true null = false
is_true (text s) = not (str_eq s "")
is_true (texts []) = false
is_true (texts (x ∷ xs)) = true

abbrev pub get : String → Dict Value → Value
get name fields = or_else (lookup name fields) null

abbrev pub new_value : Change → Value
new_value (plain v) = v
new_value (change v) = v

abbrev pub says : String → Change → Bool
says s (plain (text t)) = str_eq t s
says s _ = false

abbrev pub is_kind : EventKind → EventKind → Bool
is_kind created created = true
is_kind brief brief = true
is_kind picked picked = true
is_kind note note = true
is_kind edited edited = true
is_kind held held = true
is_kind _ _ = false

abbrev pub is_verdict : Verdict → Verdict → Bool
is_verdict brief_approved brief_approved = true
is_verdict brief_returned brief_returned = true
is_verdict approved approved = true
is_verdict changes_requested changes_requested = true
is_verdict rejected rejected = true
is_verdict blocked blocked = true
is_verdict unblocked unblocked = true
is_verdict deleted deleted = true
is_verdict restored restored = true
is_verdict _ _ = false

abbrev pub is_event : EventKind → Event → Bool
is_event k e = is_kind k e.event

-- The changes of one edit, in its order.
abbrev pub change_fields : Dict Change → Dict Value → Dict Value
change_fields [] fields = fields
change_fields ((name, c) ∷ changes) fields =
    change_fields changes (insert name (new_value c) fields)

abbrev pub edit_fields : List Event → Dict Value → Dict Value
edit_fields [] fields = fields
edit_fields (e ∷ events) fields =
    edit_fields events (if is_event edited e then change_fields e.fields fields else fields)

abbrev pub card_fields : Card → Dict Value
card_fields card =
    ("title", get "title" card.fields)
    ∷ ("scope", get "scope" card.fields)
    ∷ ("deadline", get "deadline" card.fields)
    ∷ ("research_on", get "research_on" card.fields)
    ∷ ("priority", get "priority" card.fields)
    ∷ ("tags", get "tags" card.fields)
    ∷ []

abbrev pub with_default : String → Value → Dict Value → Dict Value
with_default name v fields =
    insert name (if is_true (get name fields) then get name fields else v) fields

unfoldable pub effective_fields : Card → List Event → Dict Value
unfolding ordered_events
effective_fields card events =
    let fields = edit_fields (ordered_events events) (card_fields card) in
    with_default "tags" (texts []) (with_default "priority" (text "normal") fields)
