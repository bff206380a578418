-- ===== src/Board/Actor.antt =====
-- bin/board.py, `ACTOR`, `REASON_CODE` and `require_actor`: who may do what.
use hermes_agent_workforce_p.Prelude.{
  ℕ, String, Bool, false, ◌&&◌, ◌||◌, List, [], ◌∷◌, if◌then◌else◌, str_eq, starts_with, leb, ◌==◌,
  all, any, length,
}
use hermes_agent_workforce_p.Dates.{codes}
use hermes_agent_workforce_p.Board.{not_an_actor, may_not, Result, require, ◌>>=◌}

abbrev pub is_lower : ℕ → Bool
is_lower c = leb b'a' c && leb c b'z'

abbrev is_upper : ℕ → Bool
is_upper c = leb b'A' c && leb c b'Z'

abbrev pub is_number : ℕ → Bool
is_number c = leb b'0' c && leb c b'9'

-- `[A-Za-z0-9._-]`
abbrev is_run_char : ℕ → Bool
is_run_char c = is_lower c || is_upper c || is_number c || (c == b'.') || (c == b'_') || (c == b'-')

-- `[a-z0-9-]`
abbrev pub is_agent_char : ℕ → Bool
is_agent_char c = is_lower c || is_number c || (c == b'-')

-- `$` also matches before a final newline.
abbrev pub chomp : List ℕ → List ℕ
chomp [] = []
chomp (c ∷ []) = if c == 10 then [] else c ∷ []
chomp (c ∷ d ∷ cs) = c ∷ chomp (d ∷ cs)

abbrev drop : List ℕ → List ℕ → List ℕ
drop [] cs = cs
drop (p ∷ ps) [] = []
drop (p ∷ ps) (c ∷ cs) = drop ps cs

abbrev some_all : (ℕ → Bool) → List ℕ → Bool
some_all p [] = false
some_all p (c ∷ cs) = p c && all p cs

-- A prefix, then one character of a class or more.
abbrev prefixed : String → (ℕ → Bool) → String → Bool
prefixed prefix p s = starts_with prefix s && some_all p (chomp (drop (codes prefix) (codes s)))

abbrev exactly : String → String → Bool
exactly word s = starts_with word s && (length (chomp (drop (codes word) (codes s))) == 0)

-- `ACTOR.match`
unfoldable pub is_actor : String → Bool
is_actor s =
    exactly "dave" s
    || exactly "mac:claude" s
    || exactly "reactor" s
    || prefixed "run:" is_run_char s
    || prefixed "buzz:" is_agent_char s

abbrev reason_of : List ℕ → Bool
reason_of [] = false
reason_of (c ∷ cs) = is_lower c && all is_agent_char cs && leb 1 (length cs) && leb (length cs) 40

-- `REASON_CODE.match`
unfoldable pub is_reason_code : String → Bool
is_reason_code s = reason_of (chomp (codes s))

-- The `allowed` of a verb: a name, or a prefix before `*`.
pub data Allowed : Type 0 where
  name : String → Allowed
  family : String → Allowed

abbrev pub allows : String → Allowed → Bool
allows actor (name s) = str_eq actor s
allows actor (family prefix) = starts_with prefix actor

unfoldable pub require_actor : String → List Allowed → Result (Unit {0})
require_actor actor allowed = do
  u ← require (is_actor actor) not_an_actor
  require (any (allows actor) allowed) may_not
