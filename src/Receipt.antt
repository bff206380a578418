-- ===== src/Receipt.antt =====
-- bin/workflow_receipt.py: a run's receipt and its validation.
-- A receipt is a JSON object: its terminal is an object, its assertions are a list of objects, an
-- artifact's URI and a state change's evidence are texts or absent. Where `validate` tells a value of
-- another type from an absent one, it is `odd`; elsewhere it stands for an absent one, and a start or
-- an end that is no text for a garbled stamp, which are reported alike.
pub mod Amend
pub mod Closing
pub mod Sweeping
mod Tests
use hermes_agent_workforce_p.Prelude.{
  ℕ, String, Bool, true, false, not, ◌&&◌, ◌||◌, Option, none, some, List, [], ◌∷◌, ◌++◌,
  if◌then◌else◌, str_eq, opt_eq, truthy, is_some, has, any, all, ltb, leb, ◌==◌, length, strip,
}
use hermes_agent_workforce_p.Stamp.{Stamp, at, garbled, parse_time, is_set}
use hermes_agent_workforce_p.Dates.{codes}

-- A value that is there, of the type that is asked for or of another one.
pub data Shaped (A : Type 0) : Type 0 where
  odd : Shaped A
  shaped : A → Shaped A

abbrev pub shape_of : {A : Type 0} → Option (Shaped A) → Option A
shape_of none = none
shape_of (some odd) = none
shape_of (some (shaped a)) = some a

pub record Terminal : Type 0 where
  pub outcome : Option String
  pub reason : Option String

-- `when` is `vantage` here: "sweep" marks a check that the sweep makes.
pub record Assertion : Type 0 where
  pub id : String
  pub status : Option String
  pub vantage : Option String
  pub reason : Option String

pub record Usage : Type 0 where
  pub status : Option String
  pub input_tokens : Option (Shaped ℕ)
  pub output_tokens : Option (Shaped ℕ)
  pub cache_tokens : Option (Shaped ℕ)
  pub total_tokens : Option (Shaped ℕ)

pub record Cost : Type 0 where
  pub status : Option String
  pub amount : Option (Shaped ℕ)

pub record CardBlock : Type 0 where
  pub id : Option String
  pub workflow : Option String
  pub brief_hash : Option (Shaped String)
  pub page : Option (Shaped String)
  pub page_hash : Option (Shaped String)

pub record Closed : Type 0 where
  pub closed_at : Option Stamp
  pub by : Option String
  pub reason : Option String

pub record Swept : Type 0 where
  pub swept_at : Option Stamp
  pub sweep_run_id : Option String

pub record Receipt : Type 0 where
  pub schema_version : Option (Shaped ℕ)
  pub workflow_id : Option (Shaped String)
  pub run_id : Option (Shaped String)
  pub started_at : Option Stamp
  pub ended_at : Option Stamp
  pub vantage : Option String
  pub terminal : Terminal
  pub assertions : List Assertion
  pub usage : Usage
  pub cost : Cost
  pub artifact_uri : Option String
  pub state_evidence : Option String
  pub card : Option (Shaped CardBlock)
  pub closed : Option (Shaped Closed)
  pub swept : Option (Shaped Swept)

pub data Error : Type 0 where
  missing : String → Error
  wrong_schema wrong_outcome no_id wrong_status wrong_times ended_early no_evidence : Error
  duplicate_id : String → Error
  wrong_measurement measured_unavailable : String → Error
  wrong_card_id no_card_workflow wrong_brief_hash page_alone empty_page wrong_page_hash : Error
  closed_field swept_field : String → Error
  closed_untimed closed_unfailed swept_untimed swept_by_sweep : Error
  closed_no_object swept_no_object card_no_object : Error

abbrev pub report : Bool → Error → List Error
report true e = []
report false e = e ∷ []

abbrev pub one_of : Option String → List String → Bool
one_of none allowed = false
one_of (some s) allowed = has s allowed

-- Neither absent nor an empty text.
abbrev is_given : Option (Shaped String) → Bool
is_given none = false
is_given (some odd) = true
is_given (some (shaped s)) = truthy (some s)

-- The first loop of `validate`, on `schema_version` and the rest.
unfoldable pub missing_errors : Receipt → List Error
missing_errors r =
    report (is_some r.schema_version) (missing "schema_version")
    ++ report (is_given r.workflow_id) (missing "workflow_id")
    ++ report (is_given r.run_id) (missing "run_id")
    ++ report (is_set r.started_at) (missing "started_at")
    ++ report (is_set r.ended_at) (missing "ended_at")

abbrev is_schema : Option ℕ → Bool
is_schema none = false
is_schema (some n) = n == 1

-- `TERMINAL_OUTCOMES`, `ASSERTION_STATUSES`, `MEASUREMENT_STATUSES`
abbrev pub terminal_outcomes : List String
terminal_outcomes = "artifact" ∷ "decline" ∷ "failed" ∷ "skipped" ∷ []

abbrev pub assertion_statuses : List String
assertion_statuses = "passed" ∷ "failed" ∷ "not_applicable" ∷ []

abbrev pub measurement_statuses : List String
measurement_statuses = "measured" ∷ "unavailable" ∷ []

-- The id that an assertion adds, and its errors, where the ids before it are seen.
abbrev pub id_errors : List String → Assertion → List Error
id_errors seen a =
    if str_eq a.id "" then no_id ∷ [] else if has a.id seen then duplicate_id a.id ∷ [] else []

abbrev pub see : List String → Assertion → List String
see seen a = if str_eq a.id "" || has a.id seen then seen else a.id ∷ seen

abbrev pub assertion_errors : List String → List Assertion → List Error
assertion_errors seen [] = []
assertion_errors seen (a ∷ rest) =
    id_errors seen a
    ++ report (one_of a.status assertion_statuses) wrong_status
    ++ assertion_errors (see seen a) rest

abbrev measurement_errors : String → Option String → Bool → List Error
measurement_errors key status has_value =
    if not (one_of status measurement_statuses)
    then wrong_measurement key ∷ []
    else report (not (opt_eq status (some "unavailable") && has_value)) (measured_unavailable key)

abbrev usage_errors : Usage → List Error
usage_errors u = measurement_errors "usage" u.status (
    is_some u.input_tokens
    || is_some u.output_tokens
    || is_some u.cache_tokens
    || is_some u.total_tokens)

abbrev cost_errors : Cost → List Error
cost_errors c = measurement_errors "cost" c.status (is_some c.amount)

abbrev time_errors : Option ℕ → Option ℕ → List Error
time_errors (some started) (some ended) = report (leb started ended) ended_early
time_errors _ _ = wrong_times ∷ []

abbrev evidence_errors : Receipt → List Error
evidence_errors r =
    if opt_eq r.terminal.outcome (some "artifact")
    then report (truthy r.artifact_uri || truthy r.state_evidence) no_evidence
    else []

-- `has_failure`
unfoldable pub has_failure : Receipt → Bool
has_failure r =
    opt_eq r.terminal.outcome (some "failed")
    || any (λ (a : Assertion). opt_eq a.status (some "failed")) r.assertions

-- `value.strip()` is there.
abbrev pub is_filled : Option String → Bool
is_filled none = false
is_filled (some s) = not (str_eq (strip s) "")

abbrev pub is_filled_stamp : Option Stamp → Bool
is_filled_stamp none = false
is_filled_stamp (some (at t)) = true
is_filled_stamp (some (garbled s)) = not (str_eq (strip s) "")

-- `errors`, and one more if there are none and the stamp is not read.
abbrev pub and_timed : List Error → Option Stamp → Error → List Error
and_timed [] ts e = report (is_some (parse_time ts)) e
and_timed (x ∷ xs) ts e = x ∷ xs

-- `_closed_errors`
unfoldable pub closed_errors : Option (Shaped Closed) → Bool → List Error
closed_errors none failed = []
closed_errors (some odd) failed = closed_no_object ∷ []
closed_errors (some (shaped c)) failed =
    and_timed
      (report (is_filled_stamp c.closed_at) (closed_field "at")
        ++ report (is_filled c.by) (closed_field "by")
        ++ report (is_filled c.reason) (closed_field "reason"))
      c.closed_at closed_untimed
    ++ report failed closed_unfailed

-- `_swept_errors`
unfoldable pub swept_errors : Option (Shaped Swept) → Option String → List Error
swept_errors none vantage = []
swept_errors (some odd) vantage = swept_no_object ∷ []
swept_errors (some (shaped s)) vantage =
    and_timed
      (report (is_filled_stamp s.swept_at) (swept_field "at")
        ++ report (is_filled s.sweep_run_id) (swept_field "sweep_run_id"))
      s.swept_at swept_untimed
    ++ report (opt_eq vantage (some "run")) swept_by_sweep

abbrev chomp : List ℕ → List ℕ
chomp [] = []
chomp (c ∷ []) = if c == 10 then [] else c ∷ []
chomp (c ∷ d ∷ cs) = c ∷ chomp (d ∷ cs)

abbrev in_range : ℕ → ℕ → ℕ → Bool
in_range a b c = leb a c && leb c b

abbrev is_slug_start : ℕ → Bool
is_slug_start c = in_range b'a' b'z' c || in_range b'0' b'9' c

abbrev slug_of : List ℕ → Bool
slug_of [] = false
slug_of (c ∷ cs) =
    is_slug_start c && all (λ d. is_slug_start d || (d == b'-')) cs && leb (length cs) 62

-- `CARD_SLUG.match`; `$` also matches before a final newline.
unfoldable pub is_card_slug : Option String → Bool
is_card_slug none = false
is_card_slug (some s) = slug_of (chomp (codes s))

abbrev hex_of : List ℕ → Bool
hex_of cs = (length cs == 64) && all (λ c. in_range b'0' b'9' c || in_range b'a' b'f' c) cs

-- `HASH64.match`
unfoldable pub is_hash : Option String → Bool
is_hash none = false
is_hash (some s) = hex_of (chomp (codes s))

abbrev page_errors : Option (Shaped String) → Option (Shaped String) → List Error
page_errors none none = []
page_errors (some page) none = page_alone ∷ []
page_errors none (some hash) = page_alone ∷ []
page_errors (some page) (some hash) =
    report (is_filled (shape_of (some page))) empty_page
    ++ report (is_hash (shape_of (some hash))) wrong_page_hash

-- `_card_errors`
unfoldable pub card_errors : Option (Shaped CardBlock) → List Error
unfolding is_card_slug is_hash
card_errors none = []
card_errors (some odd) = card_no_object ∷ []
card_errors (some (shaped c)) =
    report (is_card_slug c.id) wrong_card_id
    ++ report (is_filled c.workflow) no_card_workflow
    ++ report (not (is_some c.brief_hash) || is_hash (shape_of c.brief_hash)) wrong_brief_hash
    ++ page_errors c.page c.page_hash

-- The errors of the measurements and the times.
unfoldable pub run_errors : Receipt → List Error
run_errors r =
    usage_errors r.usage
    ++ cost_errors r.cost
    ++ time_errors (parse_time r.started_at) (parse_time r.ended_at)

-- The errors of what the run reported.
abbrev pub report_errors : Receipt → List Error
report_errors r =
    missing_errors r
    ++ report (is_schema (shape_of r.schema_version)) wrong_schema
    ++ report (one_of r.terminal.outcome terminal_outcomes) wrong_outcome
    ++ assertion_errors [] r.assertions
    ++ run_errors r
    ++ evidence_errors r

-- `validate`
unfoldable pub validate : Receipt → List Error
validate r =
    report_errors r
    ++ closed_errors r.closed (has_failure r)
    ++ swept_errors r.swept r.vantage
    ++ card_errors r.card
