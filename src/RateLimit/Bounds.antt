-- ===== src/RateLimit/Bounds.antt =====
-- How many attempts controller/src/lib/ratelimit.ts lets through, and how large its map grows.
use docker_mass_deployment.Base.{
  ℕ, suc, ◌+◌, ◌*◌, ◌-◌, ◌≤◌, String, ◌≡◌, refl, ap, ◌∙◌, Bool, true, false, ◌&&◌, Option, none,
  some, List, [], ◌∷◌, length, ltb, leb, str_eq, eq_iff, eq_refl, filter, not, arith, Bool-cases,
  inl, inr, if◌then◌else◌,
}
use mathlib.Core.Path.{subst}
use docker_mass_deployment.RateLimit.{
  Bucket, Buckets, RateLimitOptions, is_idle, evict, prune, get_bucket, set_bucket, filled_to,
  spend, consume,
}

evict-length : (bs : Buckets) → length (evict bs) ≤ 10000
unfolding evict
evict-length [] = omega arith
evict-length (b ∷ bs) = ground (arith, evict-length bs)

prune-length : (now : ℕ) (bs : Buckets) → length (prune now bs) ≤ 10000
unfolding prune
prune-length now bs = elim (Bool-cases (leb (length bs) 10000)) [
  | inl e ↦ rw e (ground arith)
  | inr e ↦ rw e (evict-length (filter (λ b. not (is_idle now b)) bs))
]

set_bucket-length :
    (key : String) (v : Bucket) (bs : Buckets) → length (set_bucket key v bs) ≤ length bs + 1
unfolding set_bucket
set_bucket-length key v [] = omega arith
set_bucket-length key v ((k, b) ∷ bs) = ground (arith, set_bucket-length key v bs)

-- However large the map was, after an attempt it has at most one bucket more than the cap.
pub consume-length :
    (key : String) (o : RateLimitOptions) (now : ℕ) (bs : Buckets)
    → length (consume key o now bs).1 ≤ 10001
unfolding consume
consume-length key o now bs =
    elim (Bool-cases (ltb (filled_to o now (get_bucket key (prune now bs))) o.period)) [
      | inl e ↦ rw e (below _)
      | inr e ↦ rw e (below _)
    ]
  where
    below : (v : Bucket) → length (set_bucket key v (prune now bs)) ≤ 10001
    below v = omega (arith, prune-length now bs, set_bucket-length key v (prune now bs))

-- The attempts of a key that are let through, of attempts of any keys at their times.
unfoldable pub allowed : String → RateLimitOptions → List (String × ℕ) → Buckets → ℕ
allowed key o [] bs = 0
allowed key o ((k, t) ∷ more) bs =
    let rest = allowed key o more (consume k o t bs).1 in
    if str_eq k key && (consume k o t bs).0 then suc rest else rest

-- The times do not go back, and all are between the two.
abbrev pub InOrder : ℕ → ℕ → List (String × ℕ) → Type 0
InOrder start end [] = start ≤ end
InOrder start end ((k, t) ∷ more) = (start ≤ t) × InOrder t end more

-- Whenever an attempt comes, the map is within its cap.
unfoldable pub WithinCap : RateLimitOptions → List (String × ℕ) → Buckets → Type 0
WithinCap o [] bs = Unit
WithinCap o ((k, t) ∷ more) bs = (length bs ≤ 10000) × WithinCap o more (consume k o t bs).1

get_set_same :
    (key : String) (v : Bucket) (bs : Buckets) → get_bucket key (set_bucket key v bs) ≡ some v
unfolding get_bucket set_bucket
get_set_same key v [] = rw (eq_refl key) refl
get_set_same key v ((j, b) ∷ bs) = elim (Bool-cases (str_eq j key)) [
  | inr e ↦ rw (e, e) (get_set_same key v bs)
  | inl e ↦ rw (e, e) refl
]

get_set_other :
    (key k : String) (v : Bucket) (bs : Buckets)
    → str_eq k key ≡ false
    → get_bucket key (set_bucket k v bs) ≡ get_bucket key bs
unfolding get_bucket set_bucket
get_set_other key k v [] h = rw h refl
get_set_other key k v ((j, b) ∷ bs) h = elim (Bool-cases (str_eq j k)) [
  | inr e ↦ rw e (ap (λ x. if str_eq j key then some b else x) (get_set_other key k v bs h))
  | inl e ↦ rw (e, ap (λ x. str_eq x key) ((eq_iff j k).0 e) ∙ h) refl
]

InOrder-≤ : (start end : ℕ) (more : List (String × ℕ)) → InOrder start end more → start ≤ end
InOrder-≤ start end [] h = h
InOrder-≤ start end ((k, t) ∷ more) (h, hs) = omega (arith, InOrder-≤ t end more hs)

prune-same : (now : ℕ) (bs : Buckets) → length bs ≤ 10000 → prune now bs ≡ bs
unfolding prune
prune-same now bs h = rw (full h) refl
  where
    full : length bs ≤ 10000 → leb (length bs) 10000 ≡ true
    full h = ground arith

-- A bucket gains a part per millisecond at most.
filled_to-later :
    (o : RateLimitOptions) (start t : ℕ) (b : Option Bucket)
    → filled_to o t b ≤ filled_to o start b + (t - start)
filled_to-later o start t none = omega arith
filled_to-later o start t (some b) = ground arith

filled_to-now :
    (o : RateLimitOptions) (n t : ℕ) → filled_to o t (some (record { tokens = n; last = t })) ≤ n
filled_to-now o n t = ground arith

consume-spend :
    (key : String) (o : RateLimitOptions) (now : ℕ) (bs : Buckets)
    → length bs ≤ 10000
    → consume key o now bs ≡ spend key o now (filled_to o now (get_bucket key bs)) bs
unfolding consume
consume-spend key o now bs h =
    ap (λ kept. spend key o now (filled_to o now (get_bucket key kept)) kept) (prune-same now bs h)

spend_other :
    (key k : String) (o : RateLimitOptions) (now n : ℕ) (bs : Buckets)
    → str_eq k key ≡ false
    → get_bucket key (spend k o now n bs).1 ≡ get_bucket key bs
spend_other key k o now n bs h = elim (Bool-cases (ltb n o.period)) [
  | inl e ↦ rw e (get_set_other key k _ bs h)
  | inr e ↦ rw e (get_set_other key k _ bs h)
]

-- What an attempt takes is missing afterwards.
spend_same :
    (key : String) (o : RateLimitOptions) (now n : ℕ) (bs : Buckets)
    → (if (spend key o now n bs).0 then o.period else 0)
        + filled_to o now (get_bucket key (spend key o now n bs).1)
      ≤ n
spend_same key o now n bs = elim (Bool-cases (ltb n o.period)) [
  | inl e ↦
      rw (e, get_set_same key (record { tokens = n; last = now }) bs)
        (omega (arith, filled_to-now o n now))
  | inr e ↦
      rw (e, get_set_same key (record { tokens = n - o.period; last = now }) bs)
        (less e (filled_to-now o (n - o.period) now))
]
  where
    less :
        ltb n o.period ≡ false
        → filled_to o now (some (record { tokens = n - o.period; last = now })) ≤ n - o.period
        → o.period + filled_to o now (some (record { tokens = n - o.period; last = now })) ≤ n
    less e h = ground arith

paid : (b : Bool) (n p : ℕ) → (if b then suc n else n) * p ≡ (if b then p else 0) + n * p
paid true n p = omega arith
paid false n p = omega arith

-- What the attempts that are let through cost, against what the bucket holds and gains.
allowed-filled :
    (key : String) (o : RateLimitOptions) (more : List (String × ℕ)) (bs : Buckets) (start end : ℕ)
    → InOrder start end more
    → WithinCap o more bs
    → allowed key o more bs * o.period ≤ filled_to o start (get_bucket key bs) + (end - start)
unfolding allowed WithinCap
allowed-filled key o [] bs start end h room = omega arith
allowed-filled key o ((k, t) ∷ more) bs start end (h, hs) (room, rooms) =
    let late = InOrder-≤ t end more hs in
    let gained = filled_to-later o start t (get_bucket key bs) in
    let n = filled_to o t (get_bucket k bs) in
    let same = consume-spend k o t bs room in
    let rest =
      allowed-filled key o more (spend k o t n bs).1 t end hs
        (subst (λ x. WithinCap o more x.1) same rooms) in
    rw same (elim (Bool-cases (str_eq k key)) [
      | inr e ↦ rw e (
          omega
            (arith, rest, ap (λ b. filled_to o t b) (spend_other key k o t n bs e), gained, late))
      | inl e ↦
          rw (e, paid (spend k o t n bs).0 (allowed key o more (spend k o t n bs).1) o.period)
            (omega (arith, rest, gained, late, taken e))
    ])
  where
    taken :
        str_eq k key ≡ true
        → (if (spend k o t (filled_to o t (get_bucket k bs)) bs).0 then o.period else 0)
            + filled_to o t (get_bucket key (spend k o t (filled_to o t (get_bucket k bs)) bs).1)
          ≤ filled_to o t (get_bucket key bs)
    taken e =
        subst
          (λ x.
            (if (spend k o t (filled_to o t (get_bucket k bs)) bs).0 then o.period else 0)
              + filled_to o t (get_bucket x (spend k o t (filled_to o t (get_bucket k bs)) bs).1)
            ≤ filled_to o t (get_bucket x bs))
          ((eq_iff k key).0 e) (spend_same k o t (filled_to o t (get_bucket k bs)) bs)

filled_to-burst :
    (o : RateLimitOptions) (t : ℕ) (b : Option Bucket) → filled_to o t b ≤ o.burst * o.period
filled_to-burst o t none = omega arith
filled_to-burst o t (some b) = ground arith

-- Of the attempts of any keys between two times, if the map is within its cap whenever one of them
-- comes, those of a key that are let through are at most the burst and one for each period in
-- between.
pub allowed-Bounded :
    (key : String) (o : RateLimitOptions) (attempts : List (String × ℕ)) (bs : Buckets)
    → (start end : ℕ) → InOrder start end attempts
    → WithinCap o attempts bs
    → allowed key o attempts bs * o.period ≤ o.burst * o.period + (end - start)
allowed-Bounded key o attempts bs start end h room = omega (
  arith,
  allowed-filled key o attempts bs start end h room,
  filled_to-burst o start (get_bucket key bs),
)
