-- ===== src/Tests/RateLimit.antt =====
-- The theorems on rate limits at eight attempts to sign in, from two addresses.
use docker_mass_deployment.Base.{
  ℕ, ◌+◌, ◌*◌, ◌-◌, ◌≤◌, ◌≡◌, refl, String, List, [], ◌∷◌, length, arith,
}
use docker_mass_deployment.RateLimit.{auth_limit, consume, get_bucket, set_bucket, prune}
use docker_mass_deployment.RateLimit.Bounds.{
  consume-length, allowed, InOrder, WithinCap, allowed-Bounded,
}

abbrev attempts : List (String × ℕ)
attempts =
    ("a", 0) ∷ ("a", 1) ∷ ("b", 1) ∷ ("a", 2) ∷ ("a", 3) ∷ ("a", 4) ∷ ("a", 5) ∷ ("a", 20000) ∷ []

six : allowed "a" auth_limit attempts [] ≡ 6
unfolding allowed consume get_bucket set_bucket prune
six = refl

attempts-InOrder : InOrder 0 20000 attempts
attempts-InOrder = (
  omega arith,
  (
    omega arith,
    (
      omega arith,
      (omega arith, (omega arith, (omega arith, (omega arith, (omega arith, omega arith))))),
    ),
  ),
)

attempts-WithinCap : WithinCap auth_limit attempts []
unfolding WithinCap consume get_bucket set_bucket prune
attempts-WithinCap = (
  omega arith,
  (
    omega arith,
    (omega arith, (omega arith, (omega arith, (omega arith, (omega arith, (omega arith, tt)))))),
  ),
)

allowed-Bounded_example :
    allowed "a" auth_limit attempts [] * auth_limit.period
    ≤ auth_limit.burst * auth_limit.period + (20000 - 0)
allowed-Bounded_example =
    allowed-Bounded "a" auth_limit attempts [] 0 20000 attempts-InOrder attempts-WithinCap

consume-length_example :
    length (consume "a" auth_limit 7 (("b", record { tokens = 0; last = 0 }) ∷ [])).1 ≤ 10001
consume-length_example =
    consume-length "a" auth_limit 7 (("b", record { tokens = 0; last = 0 }) ∷ [])
