-- ===== src/Source.antt =====
-- bin/reactor_source.py: the values that cross the interface of a reactor source.
use hermes_agent_workforce_p.Prelude.{ℕ, String, Bool, true, false, Option, List}

-- `remaining_today` is `None` where no daily cap applies. The reactor gives no negative number.
pub record Budget : Type 0 where
  pub slots : ℕ
  pub remaining_today : Option ℕ

-- The verbs that a plan names, and `BoardSource.apply` dispatches on.
pub data Verb : Type 0 where
  start stop hold trash restore purge : Verb

pub record Action : Type 0 where
  pub verb : Verb
  pub item : String
  pub unit : Option String
  pub reason : String

pub record Plan : Type 0 where
  pub actions : List Action
  pub wake_at : Option ℕ
  pub capped : Bool

-- `CLASSES`
pub data ErrorClass : Type 0 where
  transient poison permanent : ErrorClass

-- The outcomes that `Outcome.__post_init__` admits: `ok` without a class, or one of the classes.
pub data Outcome : Type 0 where
  ok : Outcome
  failed : ErrorClass → (reason : Option String) → Outcome

abbrev pub is_start : Verb → Bool
is_start start = true
is_start _ = false
