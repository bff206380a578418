-- ===== src/Stamp.antt =====
-- bin/workflow_receipt.py, `iso_utc` and `parse_time`: timestamps in JSON state.
-- A stamp is a text: one that `parse_time` reads, which is given by its instant in whole seconds,
-- or one that it does not read, kept as it is. A field that is absent or null is `none`.
use hermes_agent_workforce_p.Prelude.{ℕ, String, Bool, true, false, Option, none, some, str_eq, not}

pub data Stamp : Type 0 where
  at : ℕ → Stamp
  garbled : String → Stamp

unfoldable pub iso_utc : ℕ → Stamp
iso_utc = at

unfoldable pub parse_time : Option Stamp → Option ℕ
parse_time none = none
parse_time (some (at t)) = some t
parse_time (some (garbled s)) = none

-- The truth of a stamp field in a Python test: the empty text is false.
abbrev pub is_set : Option Stamp → Bool
is_set (some (at t)) = true
is_set (some (garbled s)) = not (str_eq s "")
is_set none = false
