-- ===== src/Dates.antt =====
-- The dates that bin/board.py reads from texts: `date.fromisoformat` on YYYY-MM-DD and
-- `datetime.fromisoformat` on YYYY-MM-DDTHH:MM, as the day's ordinal and as seconds since the first
-- day of year 1, on the clock that the text means.
use Prim.Native.Char.{code}
use hermes_agent_workforce_p.Prelude.{
  ℕ, ◌+◌, ◌-◌, ◌*◌, ◌/◌, ◌%◌, ◌≡◌, refl, String, Bool, not, ◌&&◌, ◌||◌, Option, none, some, List,
  [], ◌∷◌, if◌then◌else◌, ltb, leb, ◌==◌,
}

abbrev pub codes : String → List ℕ
codes String.[] = []
codes (String.◌∷◌ c s) = code c ∷ codes s

abbrev is_digit : ℕ → Bool
is_digit c = leb b'0' c && leb c b'9'

-- Two digits as a number.
abbrev two : ℕ → ℕ → Option ℕ
two a b = if is_digit a && is_digit b then some ((a - b'0') * 10 + (b - b'0')) else none

unfoldable pub is_leap : ℕ → Bool
is_leap y = (y % 4 == 0) && (not (y % 100 == 0) || (y % 400 == 0))

-- The days of a common year before a month, and the days of a month.
unfoldable pub days_before : ℕ → ℕ
days_before m =
    if leb m 1
    then 0
    else if m == 2
    then 31
    else if m == 3
    then 59
    else if m == 4
    then 90
    else if m == 5
    then 120
    else if m == 6
    then 151
    else if m == 7
    then 181
    else if m == 8
    then 212
    else if m == 9
    then 243
    else if m == 10
    then 273
    else if m == 11
    then 304
    else 334

unfoldable pub days_in_month : ℕ → ℕ → ℕ
unfolding is_leap
days_in_month y m =
    if m == 2
    then (if is_leap y then 29 else 28)
    else if (m == 4) || (m == 6) || (m == 9) || (m == 11)
    then 30
    else 31

-- `date.toordinal`: 0001-01-01 is 1.
unfoldable pub ordinal : ℕ → ℕ → ℕ → ℕ
unfolding is_leap days_before
ordinal y m d =
    let p = y - 1 in
    p * 365
    + p / 4
    - p / 100
    + p / 400
    + days_before m
    + (if ltb 2 m && is_leap y then 1 else 0)
    + d

abbrev checked : ℕ → ℕ → ℕ → Option ℕ
checked y m d =
    if leb 1 y && leb 1 m && leb m 12 && leb 1 d && leb d (days_in_month y m)
    then some (ordinal y m d)
    else none

abbrev with_parts : Option ℕ → Option ℕ → Option ℕ → Option ℕ → Option ℕ
with_parts (some c) (some y) (some m) (some d) = checked (c * 100 + y) m d
with_parts _ _ _ _ = none

-- The date that a text begins with, and the rest of it.
unfoldable pub date_prefix : List ℕ → Option (ℕ × List ℕ)
unfolding ordinal days_in_month
date_prefix (a ∷ b ∷ c ∷ d ∷ p ∷ e ∷ f ∷ q ∷ g ∷ h ∷ rest) =
    if (p == b'-') && (q == b'-')
    then elim (with_parts (two a b) (two c d) (two e f) (two g h)) [
      | none ↦ none
      | some day ↦ some (day, rest)
    ]
    else none
date_prefix _ = none

-- `date.fromisoformat`
unfoldable pub date_of : String → Option ℕ
unfolding date_prefix
date_of text = elim (date_prefix (codes text)) [
  | some (day, []) ↦ some day
  | some (day, c ∷ rest) ↦ none
  | none ↦ none
]

abbrev pub start_of_day : ℕ → ℕ
start_of_day day = (day - 1) * 86400

abbrev clock_of : ℕ → Option ℕ → Option ℕ → Option ℕ
clock_of day (some h) (some m) =
    if ltb h 24 && ltb m 60 then some (start_of_day day + h * 3600 + m * 60) else none
clock_of day _ _ = none

abbrev clock_rest : ℕ → List ℕ → Option ℕ
clock_rest day [] = some (start_of_day day)
clock_rest day (t ∷ a ∷ b ∷ colon ∷ c ∷ d ∷ []) =
    if (t == b'T') && (colon == b':') then clock_of day (two a b) (two c d) else none
clock_rest day _ = none

-- A date, or a date and a time of day, in seconds on its clock.
unfoldable pub wall_time : String → Option ℕ
unfolding date_prefix
wall_time text = elim (date_prefix (codes text)) [
  | none ↦ none
  | some (day, rest) ↦ clock_rest day rest
]

epoch : date_of "1970-01-01" ≡ some 719163
unfolding date_of
epoch = refl

leap_day : date_of "2024-02-29" ≡ some 738945
unfolding date_of
leap_day = refl

no_day : date_of "2026-02-29" ≡ none
unfolding date_of
no_day = refl

morning : wall_time "0001-01-02T09:30" ≡ some 120600
unfolding wall_time
morning = refl
