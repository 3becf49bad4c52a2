-- ===== src/Format.antt =====
-- controller/src/lib/format.ts. A byte count below 2 ^ 53 is divided by powers of 1024 exactly, so
-- `toFixed` is rounding of the exact quotient, halves up.
use docker_mass_deployment.Base.{
  ℕ, zero, suc, ◌+◌, ◌*◌, ◌/◌, ◌%◌, ◌^◌, String, Option, none, some, List, [], ◌∷◌, ◌==◌, ◌⧺◌, leb,
  ltb, ◌||◌, if◌then◌else◌, or_else, get_elem?,
}

abbrev pub digit_names : List String
digit_names = "0" ∷ "1" ∷ "2" ∷ "3" ∷ "4" ∷ "5" ∷ "6" ∷ "7" ∷ "8" ∷ "9" ∷ []

abbrev pub digit : ℕ → String
digit d = or_else (get_elem? digit_names d) ""

-- The decimal text of a number, as a template literal writes it, on fuel.
unfoldable pub decimal_on : ℕ → ℕ → String
decimal_on zero n = ""
decimal_on (suc f) n =
    let more = decimal_on f (n / 10) in if ltb n 10 then digit n else more ⧺ digit (n % 10)

-- A number has no more digits than its value, and zero has one.
unfoldable pub decimal : ℕ → String
unfolding decimal_on
decimal n = decimal_on (suc n) n

abbrev pub units : List String
units = "B" ∷ "KB" ∷ "MB" ∷ "GB" ∷ "TB" ∷ "PB" ∷ []

-- The loop `while (v >= 1024 && i < 5)`, where v is n / 1024 ^ i: the exponent that it stops at,
-- with `left` rounds to go.
unfoldable pub scale : ℕ → ℕ → ℕ → ℕ
scale zero n i = i
scale (suc left) n i = let next = scale left n (i + 1) in if leb (1024 ^ (i + 1)) n then next else i

-- n / d to the nearest whole number, halves up: `toFixed(0)`.
unfoldable pub round_div : ℕ → ℕ → ℕ
round_div n d = (2 * n + d) / (2 * d)

-- `toFixed(1)`
unfoldable pub fixed_one : ℕ → ℕ → String
unfolding round_div decimal
fixed_one n d = let k = round_div (10 * n) d in decimal (k / 10) ⧺ ("." ⧺ decimal (k % 10))

unfoldable pub fmt_bytes : Option ℕ → String
unfolding scale round_div fixed_one decimal
fmt_bytes none = "—"
fmt_bytes (some n) =
    let i = scale 5 n 0 in
    let d = 1024 ^ i in
    let number = if leb (100 * d) n || i == 0 then decimal (round_div n d) else fixed_one n d in
    number ⧺ (" " ⧺ or_else (get_elem? units i) "")

-- `fmtDuration`, on whole seconds; null and negative counts are `none`.
unfoldable pub fmt_duration : Option ℕ → String
unfolding decimal
fmt_duration none = "—"
fmt_duration (some s) =
    if ltb s 60
    then decimal s ⧺ "s"
    else if ltb s 3600
    then decimal (s / 60) ⧺ "m"
    else if ltb s 86400
    then (let m = (s % 3600) / 60 in
        decimal (s / 3600) ⧺ ("h" ⧺ (if m == 0 then "" else " " ⧺ (decimal m ⧺ "m"))))
    else (let h = (s % 86400) / 3600 in
        decimal (s / 86400) ⧺ ("d" ⧺ (if h == 0 then "" else " " ⧺ (decimal h ⧺ "h"))))

-- `pct`
unfoldable pub pct : ℕ → Option ℕ → Option ℕ
unfolding round_div
pct used none = none
pct used (some quota) =
    if quota == 0
    then none
    else (let p = round_div (used * 100) quota in some (if ltb 100 p then 100 else p))
