-- ===== src/Prelude/Text.antt =====
-- The regular expressions that the source tests its texts by.
use Prim.Native.Char.{code}
use Prim.Native.Nat.{ℕ}
use Prim.Native.String.{String}
use mathlib.Core.Bool.{Bool, ◌&&◌, ◌||◌}
use mathlib.Core.List.{List, [], ◌∷◌}
use malacca_port_resilience.Prelude.Tests.{leb, ◌==◌}
use malacca_port_resilience.Prelude.Lists.{length, all}

abbrev pub codes : String → List ℕ
codes String.[] = []
codes (String.◌∷◌ c s) = code c ∷ codes s

-- `^[class]{lo,hi}$`
unfoldable pub matches : (ℕ → Bool) → ℕ → ℕ → String → Bool
matches class lo hi s =
    let cs = codes s in all class cs && (leb lo (length cs) && leb (length cs) hi)

abbrev pub between : ℕ → ℕ → ℕ → Bool
between lo hi c = leb lo c && leb c hi

abbrev pub is_digit : ℕ → Bool
is_digit = between b'0' b'9'

abbrev pub is_lower : ℕ → Bool
is_lower = between b'a' b'z'

abbrev pub is_upper : ℕ → Bool
is_upper = between b'A' b'Z'

abbrev pub is_alnum : ℕ → Bool
is_alnum c = is_upper c || (is_lower c || is_digit c)

-- `[a-f0-9]`
abbrev pub is_hex : ℕ → Bool
is_hex c = between b'a' b'f' c || is_digit c

-- `[A-Za-z0-9._:-]`
abbrev pub is_id_char : ℕ → Bool
is_id_char c = is_alnum c || (c == b'.' || (c == b'_' || (c == b':' || c == b'-')))

-- `[A-Za-z0-9._:/-]`
abbrev pub is_path_id_char : ℕ → Bool
is_path_id_char c = is_id_char c || c == b'/'
