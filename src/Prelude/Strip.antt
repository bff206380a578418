-- ===== src/Prelude/Strip.antt =====
-- White space at the ends of texts.
use Prim.Native.Char.{Char, code}
use mathlib.Core.Path.{◌≡◌, refl, ap, ◌∙◌}
use mathlib.Core.Logic.{◌⊎◌, inl, inr}
use native.Mathlib.Omega.{arith}
use Prim.Native.Nat.{ℕ}
use Prim.Native.String.{String}
use mathlib.Core.Bool.{Bool, false, ◌&&◌, ◌||◌}
use hermes_agent_workforce_p.Prelude.Tests.{if◌then◌else◌, ◌==◌, leb, Bool-cases}
use hermes_agent_workforce_p.Prelude.Text.{str_eq, str_eq_ne}

-- What `str.strip` strips.
abbrev pub is_space : ℕ → Bool
is_space c =
    (leb 9 c && leb c 13)
    || (leb 28 c && leb c 32)
    || (c == 133)
    || (c == 160)
    || (c == 5760)
    || (leb 8192 c && leb c 8202)
    || (c == 8232)
    || (c == 8233)
    || (c == 8239)
    || (c == 8287)
    || (c == 12288)

abbrev pub rstrip : String → String
rstrip String.[] = String.[]
rstrip (String.◌∷◌ c s) =
    let rest = rstrip s in
    if is_space (code c) && str_eq rest "" then String.[] else String.◌∷◌ c rest

abbrev lstrip : String → String
lstrip String.[] = String.[]
lstrip (String.◌∷◌ c s) = let rest = lstrip s in if is_space (code c) then rest else String.◌∷◌ c s

-- `s.strip()`
unfoldable pub strip : String → String
strip s = rstrip (lstrip s)

abbrev Stripped : String → Type 0
Stripped s = (c : Char) × (t : String) × (s ≡ String.◌∷◌ c t) × (is_space (code c) ≡ false)

lstrip-cases : (s : String) → (lstrip s ≡ "") ⊎ Stripped (lstrip s)
lstrip-cases String.[] = inl refl
lstrip-cases (String.◌∷◌ c s) = elim (Bool-cases (is_space (code c))) [
  | inl e ↦ rw e (lstrip-cases s)
  | inr e ↦ rw e (inr (c, s, refl, e))
]

strip-kept :
    (c : Char) (t : String)
    → is_space (code c) ≡ false
    → strip (String.◌∷◌ c t) ≡ String.◌∷◌ c (rstrip t)
unfolding strip
strip-kept c t e = rw (e, e) refl

rstrip-kept :
    (c : Char) (t : String)
    → is_space (code c) ≡ false
    → rstrip (String.◌∷◌ c t) ≡ String.◌∷◌ c (rstrip t)
rstrip-kept c t e = rw e refl

strip_head :
    (s : String) (c : Char) (t : String)
    → lstrip s ≡ String.◌∷◌ c t
    → is_space (code c) ≡ false
    → strip s ≡ String.◌∷◌ c (rstrip t)
unfolding strip
strip_head s c t e n = ap rstrip e ∙ rstrip-kept c t n

strip_none : (s : String) → lstrip s ≡ "" → strip s ≡ ""
unfolding strip
strip_none s e = ap rstrip e

head_filled : (c : Char) (t : String) → str_eq (String.◌∷◌ c t) "" ≡ false
head_filled c t = str_eq_ne (String.◌∷◌ c t) "" (λ e. cc)

-- What is there after a strip is there after another.
pub strip-strip_filled :
    (s : String) → str_eq (strip s) "" ≡ false → str_eq (strip (strip s)) "" ≡ false
strip-strip_filled s h = elim (lstrip-cases s) [
  | inl e ↦ absurd (false_of (rw (strip_none s e) at h))
  | inr (c, t, e, n) ↦
      rw (strip_head s c t e n, strip-kept c (rstrip t) n) (head_filled c (rstrip (rstrip t)))
]
  where
    false_of : str_eq "" "" ≡ false → ⊥
    false_of x = ground (arith, x)
