-- ===== src/Broker/Allowlist.antt =====
-- bin/control_broker.py, `Allowlist`: what the root-owned file allows, and the row of an id.
-- The checks of `load_data` return the row that they have checked, at its types; the rows are
-- read later for these fields alone. A row has no keys `id` and `kind` of its own, as
-- bin/control_broker_allowlist.py writes none.
use hermes_agent_workforce_p.Prelude.{
  String, Bool, true, false, not, ◌&&◌, ◌||◌, Option, none, some, List, [], ◌∷◌, any, if◌then◌else◌,
  str_eq, has, ◌<>◌, sorted, str_leb,
}
use hermes_agent_workforce_p.Prelude.Dict.{Dict, lookup}
use hermes_agent_workforce_p.Broker.{
  Json, string, as_object, as_array, as_string, get, is_one, truth, Answer, value, refuse, demand,
  demand_some, ◌>>=◌, allowlist_invalid, not_allowlisted, unknown_workflow, Scope, scope_of, Action,
  action_of, in_instance_actions,
}
use hermes_agent_workforce_p.Broker.Names.{is_unit, is_runtime, partition}

pub record Trigger : Type 0 where
  pub unit : String
  pub scope : Scope

pub record Workflow : Type 0 where
  pub triggers : List Trigger
  pub retry : Bool

pub record Runtime : Type 0 where
  pub unit : String
  pub scope : Scope
  pub owner : String

pub record Instance : Type 0 where
  pub template : String
  pub scope : Scope
  pub owner : String
  pub actions : List Action

pub record Allowlist : Type 0 where
  pub workflows : Dict Workflow
  pub excluded : List (Dict Json)
  pub runtimes : Dict Runtime
  pub board_verbs : List String
  pub instances : Dict Instance

-- What `lookup` returns, by its `kind`; the second of a runtime is `actions` of an instance.
pub data Entry : Type 0 where
  workflow : String → Workflow → Entry
  runtime : Runtime → Option (List Action) → Entry

-- A JSON value that must be a text of a grammar.
abbrev pub matching : (String → Bool) → Json → Option String
matching p (string s) = if p s then some s else none
matching p _ = none

abbrev both : Option String → Option Scope → Option Trigger
both (some u) (some s) = some (record { unit = u; scope = s })
both _ _ = none

abbrev pub trigger_of : Json → Option Trigger
trigger_of j = elim (as_object j) [
  | none ↦ none
  | some d ↦ both (matching is_unit (get "unit" d)) (scope_of (get "scope" d))
]

-- Each element, or `none` when one fails.
abbrev pub each {ℓ κ} : {A : Type ℓ} {B : Type κ} → (A → Option B) → List A → Option (List B)
each f [] = some []
each f (x ∷ xs) =
    let rest = each f xs in
    elim (f x) [ none ↦ none | some y ↦ elim rest [ none ↦ none | some ys ↦ some (y ∷ ys) ] ]

abbrev pub is_empty {ℓ} : {A : Type ℓ} → List A → Bool
is_empty [] = true
is_empty (x ∷ xs) = false

-- `_check_entry`
unfoldable pub check_entry : String → Json → Answer Workflow
check_entry id j = do
  u ← demand (is_unit id) allowlist_invalid
  entry ← demand_some (as_object j) allowlist_invalid
  rows ← demand_some (as_array (get "triggers" entry)) allowlist_invalid
  v ← demand (not (is_empty rows)) allowlist_invalid
  triggers ← demand_some (each trigger_of rows) allowlist_invalid
  value (record { triggers = triggers; retry = truth (get "retry" entry) })

-- `_check_runtime_entry`
unfoldable pub check_runtime_entry : String → Json → Answer Runtime
check_runtime_entry id j = do
  u ← demand (is_runtime id || is_unit id) allowlist_invalid
  entry ← demand_some (as_object j) allowlist_invalid
  unit ← demand_some (matching (str_eq id) (get "unit" entry)) allowlist_invalid
  scope ← demand_some (scope_of (get "scope" entry)) allowlist_invalid
  owner ← demand_some (as_string (get "owner" entry)) allowlist_invalid
  value (record { unit = unit; scope = scope; owner = owner })

abbrev pub instance_action_of : Json → Option Action
instance_action_of j = elim (action_of j) [
  | none ↦ none
  | some a ↦ if in_instance_actions a then some a else none
]

-- `_check_instance_entry`
unfoldable pub check_instance_entry : String → Json → Answer Instance
check_instance_entry id j = do
  u ← demand (is_unit id) allowlist_invalid
  entry ← demand_some (as_object j) allowlist_invalid
  template ←
      demand_some (matching (str_eq (id <> "@.service")) (get "template" entry)) allowlist_invalid
  scope ← demand_some (scope_of (get "scope" entry)) allowlist_invalid
  owner ← demand_some (as_string (get "owner" entry)) allowlist_invalid
  rows ← demand_some (as_array (get "actions" entry)) allowlist_invalid
  v ← demand (not (is_empty rows)) allowlist_invalid
  actions ← demand_some (each instance_action_of rows) allowlist_invalid
  value (record { template = template; scope = scope; owner = owner; actions = actions })

-- `for id, entry in table.items(): check(path, id, entry)`
abbrev pub check_table {ℓ} : {A : Type ℓ} → (String → Json → Answer A) → Dict Json → Answer (Dict A)
check_table check [] = value []
check_table check ((id, j) ∷ rows) =
    let rest = check_table check rows in
    do entry ← check id j; entries ← rest; value ((id, entry) ∷ entries)

-- `BOARD_VERBS`
abbrev pub board_verbs : List String
board_verbs =
    "brief_approved" ∷ "brief_returned" ∷ "approved" ∷ "changes_requested" ∷ "rejected" ∷ "blocked"
    ∷ "unblocked" ∷ "deleted" ∷ "restored" ∷ []

abbrev pub board_verb_of : Json → Option String
board_verb_of j = matching (λ s. has s board_verbs) j

-- `set(names)`: each name once.
abbrev pub unique : List String → List String
unique [] = []
unique (x ∷ xs) = let rest = unique xs in if has x rest then rest else x ∷ rest

-- `_board_verbs`, where `none` is an absent section.
unfoldable pub allowed_verbs : Json → Answer (List String)
allowed_verbs Json.null = value []
allowed_verbs section = do
  table ← demand_some (as_object section) allowlist_invalid
  rows ← demand_some (as_array (get "verbs" table)) allowlist_invalid
  verbs ← demand_some (each board_verb_of rows) allowlist_invalid
  value (sorted str_leb (unique verbs))

-- `data.get(key, {})`
abbrev pub table_of : String → Dict Json → Answer (Dict Json)
table_of key d = elim (lookup key d) [
  | none ↦ value []
  | some j ↦ demand_some (as_object j) allowlist_invalid
]

abbrev pub only_objects : List Json → List (Dict Json)
only_objects [] = []
only_objects (j ∷ js) =
    let rest = only_objects js in elim (as_object j) [ none ↦ rest | some d ↦ d ∷ rest ]

-- `load_data`, from the tables of runtimes on
abbrev pub with_tables : Dict Json → List Json → Dict Workflow → Answer Allowlist
with_tables table excluded workflows = do
  runtime_rows ← table_of "runtimes" table
  runtimes ← check_table check_runtime_entry runtime_rows
  instance_rows ← table_of "instances" table
  instances ← check_table check_instance_entry instance_rows
  verbs ← allowed_verbs (get "board" table)
  value (record {
    workflows = workflows;
    excluded = only_objects excluded;
    runtimes = runtimes;
    board_verbs = verbs;
    instances = instances;
  })

unfoldable pub load_data : Json → Answer Allowlist
unfolding check_entry check_runtime_entry check_instance_entry allowed_verbs
load_data j = do
  table ← demand_some (as_object j) allowlist_invalid
  u ← demand (is_one (get "schema" table)) allowlist_invalid
  rows ← demand_some (as_object (get "workflows" table)) allowlist_invalid
  excluded ← demand_some (as_array (get "excluded" table)) allowlist_invalid
  workflows ← check_table check_entry rows
  with_tables table excluded workflows

-- `load`: `none` is a file that cannot be read or is no JSON.
unfoldable pub load : Option Json → Answer Allowlist
unfolding load_data
load none = refuse allowlist_invalid
load (some j) = load_data j

-- `_instance`
abbrev instance_row : String → Option Instance → Option Entry
instance_row id none = none
instance_row id (some e) =
    some (runtime (record { unit = id; scope = e.scope; owner = e.owner }) (some e.actions))

unfoldable pub instance_of : String → Allowlist → Option Entry
instance_of id list = elim (partition b'@' id) [
  | none ↦ none
  | some (template, name) ↦
      if not (str_eq name "") && is_runtime id
      then instance_row id (lookup template list.instances)
      else none
]

abbrev pub names_unit : String → Dict Json → Bool
names_unit id row = elim (as_string (get "unit" row)) [ none ↦ false | some s ↦ str_eq s id ]

abbrev pub unlisted : String → Allowlist → Answer Entry
unlisted id list =
    if any (names_unit id) list.excluded then refuse not_allowlisted else refuse unknown_workflow

abbrev pub or_unlisted : String → Allowlist → Option Entry → Answer Entry
or_unlisted id list none = unlisted id list
or_unlisted id list (some e) = value e

abbrev pub or_instance : String → Allowlist → Option Runtime → Answer Entry
or_instance id list none = or_unlisted id list (instance_of id list)
or_instance id list (some r) = value (runtime r none)

abbrev pub or_runtime : String → Allowlist → Option Workflow → Answer Entry
or_runtime id list none = or_instance id list (lookup id list.runtimes)
or_runtime id list (some w) = value (workflow id w)

-- `lookup`
unfoldable pub lookup_entry : String → Allowlist → Answer Entry
unfolding instance_of
lookup_entry id list = or_runtime id list (lookup id list.workflows)
