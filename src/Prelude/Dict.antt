-- ===== src/Prelude/Dict.antt =====
-- A Python dict keyed by texts, in insertion order.
use Prim.Native.String.{String}
use mathlib.Core.Path.{◌≡◌, refl}
use mathlib.Core.Bool.{Bool, false}
use mathlib.Core.Option.{Option, none, some}
use mathlib.Core.List.{List, [], ◌∷◌, map}
use native.Mathlib.Omega.{arith}
use hermes_agent_workforce_p.Prelude.Tests.{if◌then◌else◌}
use hermes_agent_workforce_p.Prelude.Lists.{has}
use hermes_agent_workforce_p.Prelude.Text.{str_eq, str_eq-cases}

abbrev pub Dict {ℓ} : Type ℓ → Type ℓ
Dict V = List (String × V)

module _ {ℓ} {V : Type ℓ} where
  -- `d.get(k)`
  abbrev pub lookup : String → Dict V → Option V
  lookup k [] = none
  lookup k ((j, v) ∷ d) = if str_eq j k then some v else lookup k d

  -- `d[k] = v`: an existing key keeps its place.
  abbrev pub insert : String → V → Dict V → Dict V
  insert k v [] = (k, v) ∷ []
  insert k v ((j, w) ∷ d) = if str_eq j k then (k, v) ∷ d else (j, w) ∷ insert k v d

  -- `del d[k]`, and `d.pop(k, None)`
  abbrev pub erase : String → Dict V → Dict V
  erase k [] = []
  erase k ((j, w) ∷ d) = if str_eq j k then d else (j, w) ∷ erase k d

  -- Each key stands once.
  abbrev pub IsDict : Dict V → Type ℓ
  IsDict [] = Unit
  IsDict ((k, v) ∷ d) = (lookup k d ≡ none) × IsDict d

  pub lookup-insert :
      (k j : String) (v : V) (d : Dict V)
      → lookup j (insert k v d) ≡ (if str_eq k j then some v else lookup j d)
  lookup-insert k j v [] = refl
  lookup-insert k j v ((i, w) ∷ d) =
      ground (arith, str_eq-cases k j, str_eq-cases i k, str_eq-cases i j, lookup-insert k j v d)

  pub lookup-erase :
      (k j : String) (d : Dict V)
      → IsDict d
      → lookup j (erase k d) ≡ (if str_eq k j then none else lookup j d)
  lookup-erase k j [] h = ground arith
  lookup-erase k j ((i, w) ∷ d) h =
      ground (arith, str_eq-cases k j, str_eq-cases i k, str_eq-cases i j, lookup-erase k j d h.1)

  pub lookup-erase_ne :
      (k j : String) (d : Dict V) → str_eq k j ≡ false → lookup j (erase k d) ≡ lookup j d
  lookup-erase_ne k j [] h = refl
  lookup-erase_ne k j ((i, w) ∷ d) h =
      ground (arith, str_eq-cases k j, str_eq-cases i k, str_eq-cases i j, lookup-erase_ne k j d h)

  pub insert-IsDict : (k : String) (v : V) (d : Dict V) → IsDict d → IsDict (insert k v d)
  insert-IsDict k v [] h = (refl, tt)
  insert-IsDict k v ((i, w) ∷ d) h =
      ground
        (arith, str_eq-cases i k, str_eq-cases k i, lookup-insert k i v d, insert-IsDict k v d h.1)

  pub erase-IsDict : (k : String) (d : Dict V) → IsDict d → IsDict (erase k d)
  erase-IsDict k [] h = tt
  erase-IsDict k ((i, w) ∷ d) h =
      ground
        (arith, str_eq-cases k i, str_eq-cases i k, lookup-erase k i d h.1, erase-IsDict k d h.1)

  -- `for k in ks: del d[k]`
  abbrev pub erase_all : List String → Dict V → Dict V
  erase_all [] d = d
  erase_all (k ∷ ks) d = erase_all ks (erase k d)

  pub lookup-erase_all :
      (ks : List String) (j : String) (d : Dict V)
      → IsDict d
      → lookup j (erase_all ks d) ≡ (if has j ks then none else lookup j d)
  lookup-erase_all [] j d h = refl
  lookup-erase_all (k ∷ ks) j d h =
      ground (arith, lookup-erase_all ks j (erase k d) (erase-IsDict k d h), lookup-erase k j d h)

  pub erase_all-IsDict : (ks : List String) (d : Dict V) → IsDict d → IsDict (erase_all ks d)
  erase_all-IsDict [] d h = h
  erase_all-IsDict (k ∷ ks) d h = erase_all-IsDict ks (erase k d) (erase-IsDict k d h)

  abbrev pub keys : Dict V → List String
  keys d = map (λ e. e.0) d

  -- `[k for k, v in d.items() if p(v)]`
  abbrev pub keys_where : (V → Bool) → Dict V → List String
  keys_where p [] = []
  keys_where p ((k, v) ∷ d) = if p v then k ∷ keys_where p d else keys_where p d

  abbrev pub holds : (V → Bool) → Option V → Bool
  holds p none = false
  holds p (some v) = p v

  -- The key is listed exactly when its value satisfies the test.
  pub has-keys_where :
      (p : V → Bool) (j : String) (d : Dict V)
      → IsDict d
      → has j (keys_where p d) ≡ holds p (lookup j d)
  has-keys_where p j [] h = refl
  has-keys_where p j ((i, v) ∷ d) h = ground (arith, str_eq-cases i j, has-keys_where p j d h.1)

  -- A loop that rewrites each value in place.
  abbrev pub map_values : (String → V → V) → Dict V → Dict V
  map_values f [] = []
  map_values f ((k, v) ∷ d) = (k, f k v) ∷ map_values f d

  abbrev pub update : (V → V) → Option V → Option V
  update f none = none
  update f (some v) = some (f v)

  pub lookup-map_values :
      (f : String → V → V) (j : String) (d : Dict V)
      → lookup j (map_values f d) ≡ update (f j) (lookup j d)
  lookup-map_values f j [] = refl
  lookup-map_values f j ((i, v) ∷ d) = ground (arith, str_eq-cases i j, lookup-map_values f j d)

  pub map_values-IsDict : (f : String → V → V) (d : Dict V) → IsDict d → IsDict (map_values f d)
  map_values-IsDict f [] h = tt
  map_values-IsDict f ((i, v) ∷ d) h =
      (rw (lookup-map_values f i d, h.0), map_values-IsDict f d h.1)
