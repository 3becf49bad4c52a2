-- ===== src/Telemetry/Fields.antt =====
-- What controller/src/lib/ingest.ts reads from a payload. Fields that it casts without a check are
-- read as their interface declares them: a value of another type counts as missing.
use docker_mass_deployment.Base.{
  ℕ, String, Bool, true, false, ◌||◌, not, Option, none, some, List, [], ◌∷◌, str_eq, ◌==◌,
  if◌then◌else◌,
}
use docker_mass_deployment.Json.{
  Json, null, bool, num, str, arr, Items, nil, cons, member_of, str_member,
}

-- `v ?? ...`: null counts as missing.
abbrev pub present : Option Json → Option Json
present none = none
present (some null) = none
present (some j) = some j

abbrev pub items : Items → List Json
items nil = []
items (cons j js) = j ∷ items js

-- What `for (const x of v ?? [])` runs over, if `v` can be iterated. The characters of a text are
-- skipped by the loops over storage and scans.
abbrev pub elements : Option Json → Option (List Json)
elements none = some []
elements (some null) = some []
elements (some (arr js)) = some (items js)
elements (some (str s)) = some []
elements (some _) = none

-- The same for processes: a character is refused as one, as it has no pid.
abbrev pub processes : Option Json → Option (List Json)
processes (some (str s)) = if str_eq s "" then some [] else none
processes v = elements v

abbrev pub as_num : Option Json → Option ℕ
as_num (some (num n)) = some n
as_num _ = none

abbrev pub num_member : String → Json → Option ℕ
num_member k j = as_num (member_of k j)

pub data Tier : Type 0 where
  fast cold rootfs : Tier

abbrev pub tier_of : Option String → Option Tier
tier_of none = none
tier_of (some s) =
    if str_eq s "fast"
    then some fast
    else if str_eq s "cold"
    then some cold
    else if str_eq s "rootfs"
    then some rootfs
    else none

abbrev pub tier_name : Tier → String
tier_name fast = "fast"
tier_name cold = "cold"
tier_name rootfs = "rootfs"

abbrev pub is_rootfs : Tier → Bool
is_rootfs rootfs = true
is_rootfs _ = false

-- An entry of `storage` that passes the checks. `is_null_user` is `user === null`; `user` is a user
-- that counts as true.
pub record StorageUsage : Type 0 where
  pub lab : String
  pub user : Option String
  pub is_null_user : Bool
  pub tier : Tier
  pub used_bytes : ℕ
  pub quota_bytes : Option ℕ

abbrev is_null : Option Json → Bool
is_null (some null) = true
is_null _ = false

abbrev nonempty : Option String → Option String
nonempty none = none
nonempty (some s) = if str_eq s "" then none else some s

abbrev usage_from : Json → Option String → Option Tier → Option ℕ → Option StorageUsage
usage_from j (some lab) (some tier) (some used) = some (record {
  lab = lab;
  user = nonempty (str_member "user" j);
  is_null_user = is_null (member_of "user" j);
  tier = tier;
  used_bytes = used;
  quota_bytes = num_member "quota_bytes" j;
})
usage_from j _ _ _ = none

unfoldable pub usage_of : Json → Option StorageUsage
unfolding member_of str_member
usage_of j =
    usage_from j (str_member "lab" j) (tier_of (str_member "tier" j)) (num_member "used_bytes" j)

-- A lab, and when its usage was scanned.
abbrev scan_from : Option String → Option ℕ → Option (String × ℕ)
scan_from (some lab) (some at) = some (lab, at)
scan_from _ _ = none

unfoldable pub scan_of : Json → Option (String × ℕ)
unfolding member_of str_member
scan_of j = scan_from (nonempty (str_member "lab" j)) (num_member "scanned_at" j)

-- Null has no properties: reading one throws.
abbrev pub is_nothing : Json → Bool
is_nothing null = true
is_nothing _ = false

pub record ScrubEntry : Type 0 where
  pub pool : Option String
  pub state : Option String
  pub healthy : Option Bool
  pub errors : Option ℕ
  pub last_scrub : Option String
  pub detail : Option String

abbrev as_bool : Option Json → Option Bool
as_bool (some (bool b)) = some b
as_bool _ = none

unfoldable pub scrub_of : Json → ScrubEntry
unfolding member_of str_member
scrub_of j = record {
  pool = str_member "pool" j;
  state = str_member "state" j;
  healthy = as_bool (member_of "healthy" j);
  errors = num_member "errors" j;
  last_scrub = str_member "last_scrub" j;
  detail = str_member "detail" j;
}

abbrev unhealthy : Option Bool → Bool
unhealthy (some false) = true
unhealthy _ = false

abbrev has_errors : Option ℕ → Bool
has_errors (some n) = not (n == 0)
has_errors none = false

abbrev pub is_bad_scrub : ScrubEntry → Bool
is_bad_scrub p = unhealthy p.healthy || has_errors p.errors
