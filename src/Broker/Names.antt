-- ===== src/Broker/Names.antt =====
-- bin/control_broker.py, the grammars: `UNIT_RE`, `RUNTIME_RE`, `TOKEN_RE`, `BOARD_CARD_RE` and
-- `HASH_RE`, on the codes of the characters. `$` also matches before a final newline.
use Prim.Native.Char.{code}
use hermes_agent_workforce_p.Prelude.{
  ℕ, zero, suc, String, Bool, true, false, ◌&&◌, ◌||◌, Option, none, some, List, [], ◌∷◌,
  if◌then◌else◌, leb, ◌==◌, all, length, ◌≡◌, refl,
}
use hermes_agent_workforce_p.Dates.{codes}
use hermes_agent_workforce_p.Board.Actor.{is_lower, is_number, is_agent_char, chomp}

-- `[a-z0-9][a-z0-9-]{0,n}`
abbrev is_name : ℕ → List ℕ → Bool
is_name n [] = false
is_name n (c ∷ cs) = (is_lower c || is_number c) && all is_agent_char cs && leb (length cs) n

unfoldable pub is_unit : String → Bool
is_unit s = is_name 63 (chomp (codes s))

-- The codes before the first `@`, and those after it.
abbrev at_split : List ℕ → Option (List ℕ × List ℕ)
at_split [] = none
at_split (c ∷ cs) =
    let rest = at_split cs in
    if c == b'@'
    then some ([], cs)
    else elim rest [ none ↦ none | some (before, after) ↦ some (c ∷ before, after) ]

unfoldable pub is_runtime : String → Bool
is_runtime s = elim (at_split (codes s)) [
  | none ↦ false
  | some (before, after) ↦ is_name 63 before && is_name 63 (chomp after)
]

unfoldable pub is_card_name : String → Bool
is_card_name s = is_name 62 (chomp (codes s))

abbrev is_hex : ℕ → Bool
is_hex c = is_number c || (leb b'a' c && leb c b'f')

unfoldable pub is_hash : String → Bool
is_hash s = let cs = chomp (codes s) in all is_hex cs && (length cs == 64)

-- The rest after `n` characters of a class.
abbrev after_class : (ℕ → Bool) → ℕ → List ℕ → Option (List ℕ)
after_class p zero cs = some cs
after_class p (suc n) [] = none
after_class p (suc n) (c ∷ cs) = if p c then after_class p n cs else none

abbrev after_char : ℕ → Option (List ℕ) → Option (List ℕ)
after_char d none = none
after_char d (some []) = none
after_char d (some (c ∷ cs)) = if c == d then some cs else none

abbrev is_word_char : ℕ → Bool
is_word_char c = is_lower c || (c == b'_')

-- `[a-z_]+-[0-9a-f]{6}`
abbrev is_token_tail : Bool → List ℕ → Bool
is_token_tail began [] = false
is_token_tail began (c ∷ cs) =
    let rest = is_token_tail true cs in
    if is_word_char c then rest else began && (c == b'-') && all is_hex cs && (length cs == 6)

abbrev and_then : Option (List ℕ) → (List ℕ → Option (List ℕ)) → Option (List ℕ)
and_then none f = none
and_then (some cs) f = f cs

-- `TOKEN_RE.match`
unfoldable pub is_token : String → Bool
is_token s =
    elim (after_char b'-' (
      after_char b'Z' (
        and_then (after_char b'T' (after_class is_number 8 (chomp (codes s))))
          (after_class is_number 6)))) [ none ↦ false | some cs ↦ is_token_tail false cs ]

-- `s.partition(sep)`, when the separator occurs in `s`.
abbrev pub partition : ℕ → String → Option (String × String)
partition sep String.[] = none
partition sep (String.◌∷◌ c s) =
    let rest = partition sep s in
    if code c == sep
    then some ("", s)
    else elim rest [ none ↦ none | some (before, after) ↦ some (String.◌∷◌ c before, after) ]

unit : is_unit "workout-log" ≡ true
unfolding is_unit
unit = refl

no_unit : is_unit "a.b" ≡ false
unfolding is_unit
no_unit = refl

runtime : is_runtime "buzz-agent@marcus" ≡ true
unfolding is_runtime
runtime = refl

token : is_token "20260911T063000Z-resume-0a1b2c" ≡ true
unfolding is_token
token = refl
