-- ===== src/RateLimit.antt =====
-- controller/src/lib/ratelimit.ts: a token bucket per key. Tokens are counted in parts, `period` to a
-- token, and a bucket gains one part per millisecond: `ratePerSec` is 1000 / period.
pub mod Bounds
use docker_mass_deployment.Base.{
  ℕ, ◌+◌, ◌*◌, ◌-◌, String, Bool, true, false, not, Option, none, some, or_else, List, [], ◌∷◌,
  length, ltb, leb, str_eq, filter, if◌then◌else◌,
}

pub record Bucket : Type 0 where
  pub tokens : ℕ
  pub last : ℕ

-- The map, in the order of insertion.
abbrev pub Buckets : Type 0
Buckets = List (String × Bucket)

pub record RateLimitOptions : Type 0 where
  pub period : ℕ
  pub burst : ℕ

abbrev pub max_buckets : ℕ
max_buckets = 10000

-- More than an hour without an attempt.
abbrev pub is_idle : ℕ → String × Bucket → Bool
is_idle now (k, b) = ltb (b.last + 60 * 60 * 1000) now

-- The oldest go until the rest is not over the cap.
unfoldable pub evict : Buckets → Buckets
evict [] = []
evict (b ∷ bs) = if ltb max_buckets (length (b ∷ bs)) then evict bs else b ∷ bs

unfoldable pub prune : ℕ → Buckets → Buckets
unfolding evict
prune now bs =
    if leb (length bs) max_buckets then bs else evict (filter (λ b. not (is_idle now b)) bs)

unfoldable pub get_bucket : String → Buckets → Option Bucket
get_bucket key [] = none
get_bucket key ((k, b) ∷ bs) = if str_eq k key then some b else get_bucket key bs

unfoldable pub set_bucket : String → Bucket → Buckets → Buckets
set_bucket key v [] = (key, v) ∷ []
set_bucket key v ((k, b) ∷ bs) = if str_eq k key then (k, v) ∷ bs else (k, b) ∷ set_bucket key v bs

abbrev pub capped : ℕ → ℕ → ℕ
capped cap n = if leb cap n then cap else n

-- The parts a bucket holds at a time; a key without one has the full burst.
abbrev pub filled_to : RateLimitOptions → ℕ → Option Bucket → ℕ
filled_to o now none = o.burst * o.period
filled_to o now (some b) = capped (o.burst * o.period) (b.tokens + (now - b.last))

-- A token is taken if there is one.
abbrev pub spend : String → RateLimitOptions → ℕ → ℕ → Buckets → Bool × Buckets
spend key o now tokens bs =
    if ltb tokens o.period
    then (false, set_bucket key (record { tokens = tokens; last = now }) bs)
    else (true, set_bucket key (record { tokens = tokens - o.period; last = now }) bs)

unfoldable pub consume : String → RateLimitOptions → ℕ → Buckets → Bool × Buckets
unfolding prune get_bucket set_bucket
consume key o now bs =
    let kept = prune now bs in spend key o now (filled_to o now (get_bucket key kept)) kept

abbrev pub auth_limit : RateLimitOptions
auth_limit = record { period = 12000; burst = 5 }
