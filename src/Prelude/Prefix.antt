-- ===== src/Prelude/Prefix.antt =====
-- Prefixes of texts, by the codes of their characters.
use Prim.Native.Char.{code}
use Prim.Native.String.{String}
use mathlib.Core.Bool.{Bool, true, false, ◌&&◌}
use hermes_agent_workforce_p.Prelude.Tests.{◌==◌}

-- `s.startswith(prefix)`
abbrev pub starts_with : String → String → Bool
starts_with String.[] s = true
starts_with (String.◌∷◌ c prefix) String.[] = false
starts_with (String.◌∷◌ c prefix) (String.◌∷◌ d s) = (code c == code d) && starts_with prefix s
