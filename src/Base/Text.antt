-- ===== src/Base/Text.antt =====
-- Texts that the program only compares: membership in a fixed set, and equality as a test.
use Prim.Native.String.{String}
use mathlib.Core.Path.{◌≡◌}
use mathlib.Core.Logic.{◌↔◌}
use mathlib.Core.Bool.{Bool, true, false, ◌&&◌, ◌||◌}
use mathlib.Core.List.{List, [], ◌∷◌}
use mathlib.Core.Option.{Option, none, some}
use text.Mathlib.Text.{◌==◌}
use text.Mathlib.TextEquality.{eq_iff}

abbrev pub str_eq : String → String → Bool
str_eq s t = s == t

pub str_eq_iff : (s t : String) → (str_eq s t ≡ true) ↔ (s ≡ t)
str_eq_iff s t = eq_iff s t

-- `s in {…}`
unfoldable pub member : String → List String → Bool
member s [] = false
member s (t ∷ ts) = s == t || member s ts

-- `btrim(s) = ''`: there is nothing but spaces.
unfoldable pub is_blank : String → Bool
is_blank String.[] = true
is_blank (String.◌∷◌ c s) = str_eq (String.◌∷◌ c String.[]) " " && is_blank s

-- `x == y` where either may be `None`
unfoldable pub opt_str_eq : Option String → Option String → Bool
opt_str_eq none none = true
opt_str_eq (some s) (some t) = s == t
opt_str_eq _ _ = false
