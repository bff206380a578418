-- ===== src/Prelude/Text.antt =====
-- Texts are only compared as wholes here: equality as a test, with its laws.
use Prim.Native.Nat.{Ordering}
use Prim.Native.String.{String, compare, ◌++◌}
use mathlib.Core.Path.{◌≡◌, refl}
use mathlib.Core.Logic.{◌≢◌, ◌⊎◌, inl, inr}
use mathlib.Core.Bool.{Bool, true, false, not}
use mathlib.Core.Option.{Option, none, some}
use text.Mathlib.Text.{◌==◌}
use text.Mathlib.TextEquality.{eq_iff}
use native.Mathlib.Omega.{arith}

abbrev pub str_eq : String → String → Bool
str_eq a b = a == b

-- What the test says, with what it means.
pub str_eq-cases :
    (a b : String) → ((a ≡ b) × (str_eq a b ≡ true)) ⊎ ((a ≢ b) × (str_eq a b ≡ false))
str_eq-cases a b = split (str_eq a b) refl
  where
    split :
        (t : Bool)
        → str_eq a b ≡ t
        → ((a ≡ b) × (str_eq a b ≡ true)) ⊎ ((a ≢ b) × (str_eq a b ≡ false))
    split true e = inl ((eq_iff a b).0 e, e)
    split false e = inr ((λ same. ground (arith, eq_iff a b, e, same)), e)

pub str_eq_refl : (a : String) → str_eq a a ≡ true
str_eq_refl a = (eq_iff a a).1 refl

pub str_eq_ne : (a b : String) → a ≢ b → str_eq a b ≡ false
str_eq_ne a b h = ground (arith, eq_iff a b)

pub str_eq→eq : (a b : String) → str_eq a b ≡ true → a ≡ b
str_eq→eq a b h = (eq_iff a b).0 h

pub str_eq_comm : (a b : String) → str_eq a b ≡ str_eq b a
str_eq_comm a b = ground (arith, eq_iff a b, eq_iff b a)

-- The truth of a Python text that may be `None`.
abbrev pub truthy : Option String → Bool
truthy none = false
truthy (some s) = not (str_eq s "")

abbrev pub opt_eq : Option String → Option String → Bool
opt_eq none none = true
opt_eq (some a) (some b) = str_eq a b
opt_eq _ _ = false

-- Python's `a <= b` on texts.
abbrev pub str_leb : String → String → Bool
str_leb a b = elim (compare a b) [ Ordering.gt ↦ false | _ ↦ true ]

infixr 65 ◌<>◌
abbrev pub ◌<>◌ : String → String → String
a <> b = a ++ b
