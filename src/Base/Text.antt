-- ===== src/Base/Text.antt =====
-- Text as the program's regular expressions and `String` methods walk it, over code points.
use Prim.Native.Char.{Char, code}
use Prim.Native.Nat.{ℕ, zero, suc, ◌+◌, ◌-◌}
use Prim.Native.String
use Prim.Native.String.{String}
use mathlib.Core.Option.{Option, none, some}
use mathlib.Core.Bool.{Bool, true, ◌&&◌, ◌||◌}
use mathlib.Core.List.{List, [], ◌∷◌, reverse}
use docker_mass_deployment.Base.Tests.{leb, ◌==◌, if◌then◌else◌}

-- The code points of a text.
abbrev pub codes : String → List ℕ
codes String.[] = []
codes (String.◌∷◌ c s) = code c ∷ codes s

infixl 65 ◌⧺◌
abbrev pub ◌⧺◌ : String → String → String
s ⧺ t = String.◌++◌ s t

abbrev pub is_lower : ℕ → Bool
is_lower c = leb b'a' c && leb c b'z'

abbrev pub is_upper : ℕ → Bool
is_upper c = leb b'A' c && leb c b'Z'

abbrev pub is_digit : ℕ → Bool
is_digit c = leb b'0' c && leb c b'9'

abbrev pub is_alpha : ℕ → Bool
is_alpha c = is_lower c || is_upper c

abbrev pub is_alnum : ℕ → Bool
is_alnum c = is_alpha c || is_digit c

-- The ASCII part of the white space that `trim` and `\s` accept.
abbrev pub is_space : ℕ → Bool
is_space c = c == 32 || (leb 9 c && leb c 13) || c == 160

abbrev pub to_lower : ℕ → ℕ
to_lower c = if is_upper c then c + 32 else c

abbrev pub trim_start : List ℕ → List ℕ
trim_start [] = []
trim_start (c ∷ s) = if is_space c then trim_start s else c ∷ s

abbrev pub trim : List ℕ → List ℕ
trim s = reverse (trim_start (reverse (trim_start s)))

-- `trimStart`, `trimEnd` and `trim` of a text.
abbrev pub trim_left : String → String
trim_left String.[] = ""
trim_left (String.◌∷◌ c s) = if is_space (code c) then trim_left s else String.◌∷◌ c s

abbrev pub is_blank : String → Bool
is_blank String.[] = true
is_blank (String.◌∷◌ c s) = is_space (code c) && is_blank s

abbrev pub trim_right : String → String
trim_right String.[] = ""
trim_right (String.◌∷◌ c s) =
    let rest = trim_right s in if is_space (code c) && is_blank s then "" else String.◌∷◌ c rest

abbrev pub trim_text : String → String
trim_text s = trim_right (trim_left s)

abbrev nth_or : Char → ℕ → String → Char
nth_or d n String.[] = d
nth_or d zero (String.◌∷◌ c s) = c
nth_or d (suc n) (String.◌∷◌ c s) = nth_or d n s

abbrev lower_char : Char → Char
lower_char c =
    if is_upper (code c) then nth_or c (code c - b'A') "abcdefghijklmnopqrstuvwxyz" else c

-- `toLowerCase`, on the ASCII letters.
abbrev pub lower_text : String → String
lower_text String.[] = ""
lower_text (String.◌∷◌ c s) = String.◌∷◌ (lower_char c) (lower_text s)

-- A text that counts as true in a condition.
abbrev pub filled_text : Option String → Option String
filled_text none = none
filled_text (some s) = elim s [ String.[] ↦ none | String.◌∷◌ c r ↦ some (String.◌∷◌ c r) ]

-- `s?.trim() || null`
abbrev pub trim_opt : Option String → Option String
trim_opt none = none
trim_opt (some s) = filled_text (some (trim_text s))
