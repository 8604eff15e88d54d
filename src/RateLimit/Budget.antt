-- ===== src/RateLimit/Budget.antt =====
-- ratelimit.py: how much a bucket grants over any sequence of calls.
use protek.Prelude.{
  ℕ, ◌+◌, ◌-◌, ◌*◌, ◌/◌, ◌≤◌, ◌<◌, ◌≡◌, refl, ap, Str, true, List, [], ◌∷◌, str_eq, if◌then◌else◌,
  arith,
}
use native.Mathlib.Nat.{mul-le-mul_left}
use protek.RateLimit.{
  TokenBucket, token_units, penalty_window, refill_rate_now, refilled, acquire, record_429,
  new_bucket,
}

-- A call on a bucket: `acquire` of some tokens, with the two readings of the clock, or a 429.
pub data Event : Type 0 where
  take_tokens : (tokens now later : ℕ) → Event
  hit_429 : (now : ℕ) → Event

abbrev pub time_of : Event → ℕ
time_of (take_tokens tokens now later) = now
time_of (hit_429 now) = now

-- The bucket after a call, and the tokens that the call granted.
abbrev pub step : Event → TokenBucket → TokenBucket × ℕ
step (take_tokens tokens now later) b =
    let (b', granted) = acquire b tokens now later in (b', if granted then tokens else 0)
step (hit_429 now) b = (record_429 b now, 0)

abbrev pub run : List Event → TokenBucket → TokenBucket
run [] b = b
run (e ∷ es) b = run es (step e b).0

abbrev pub granted : List Event → TokenBucket → ℕ
granted [] b = 0
granted (e ∷ es) b = (step e b).1 + granted es (step e b).0

-- The monotonic clock: no call is earlier than the one before.
abbrev pub IsTimed : ℕ → List Event → Type 0
IsTimed t [] = Unit
IsTimed t (e ∷ es) = (t ≤ time_of e) × IsTimed (time_of e) es

-- What every bucket satisfies.
pub record IsValid (b : TokenBucket) : Type 0 where
  pub within : b.tokens ≤ b.capacity * token_units
  pub holds_one : 1 ≤ b.capacity
  pub refills : 6 ≤ b.refill

pub new_bucket-IsValid :
    (name : Str) (rate capacity now : ℕ) → IsValid (new_bucket name rate capacity now)
unfolding new_bucket
new_bucket-IsValid name rate capacity now = omega arith

pub acquire-IsValid :
    (b : TokenBucket) (tokens now later : ℕ) → IsValid b → IsValid (acquire b tokens now later).0
unfolding acquire refilled
acquire-IsValid b tokens now later v = ground arith

rate-le-refill : (b : TokenBucket) (now : ℕ) → refill_rate_now b now ≤ b.refill
unfolding refill_rate_now
rate-le-refill b now = ground arith

-- The rate that holds at each call of a sequence is at most `r`.
abbrev RateAtMost : ℕ → Event → TokenBucket → Type 0
RateAtMost r (take_tokens tokens now later) b = refill_rate_now b later ≤ r
RateAtMost r (hit_429 now) b = Unit

abbrev RatesAtMost : ℕ → List Event → TokenBucket → Type 0
RatesAtMost r [] b = Unit
RatesAtMost r (e ∷ es) b = RateAtMost r e b × RatesAtMost r es (step e b).0

refilled-le :
    (b : TokenBucket) (now later r : ℕ)
    → refill_rate_now b later ≤ r
    → refilled b now later ≤ b.tokens + (now - b.last) * r
unfolding refilled
refilled-le b now later r h = omega (arith, mul-le-mul_left (now - b.last) h)

-- One call: what it grants and what it leaves, against what was there and the time that passed.
record Spent (r : ℕ) (e : Event) (b : TokenBucket) : Type 0 where
  spend :
      (step e b).1 * token_units + (step e b).0.tokens ≤ b.tokens + ((step e b).0.last - b.last) * r
  later : b.last ≤ (step e b).0.last
  no_later_than : (step e b).0.last ≤ time_of e

step-Spent :
    (r : ℕ) (e : Event) (b : TokenBucket) → RateAtMost r e b → b.last ≤ time_of e → Spent r e b
unfolding acquire record_429
step-Spent r (take_tokens tokens now later) b rate h =
    ground (arith, refilled-le b now later r rate)
step-Spent r (hit_429 now) b rate h = omega arith

elapsed_sum : (a b c r : ℕ) → a ≤ b → b ≤ c → (b - a) * r + (c - b) * r ≡ (c - a) * r
elapsed_sum a b c r h k =
    let e : (b - a) + (c - b) ≡ c - a = omega arith in omega (arith, ap (λ (t : ℕ). t * r) e)

record Budget (r : ℕ) (es : List Event) (b : TokenBucket) : Type 0 where
  spend : granted es b * token_units + (run es b).tokens ≤ b.tokens + ((run es b).last - b.last) * r
  later : b.last ≤ (run es b).last

run-Budget :
    (r : ℕ) (es : List Event) (b : TokenBucket) (t : ℕ)
    → RatesAtMost r es b
    → b.last ≤ t
    → IsTimed t es
    → Budget r es b
run-Budget r [] b t rates h timed = omega arith
run-Budget r (e ∷ es) b t rates h timed =
    let s = step-Spent r e b rates.0 (omega arith) in
    let ih = run-Budget r es (step e b).0 (time_of e) rates.1 s.no_later_than timed.1 in
    omega (
      arith,
      s.spend,
      s.later,
      ih.spend,
      ih.later,
      elapsed_sum b.last (step e b).0.last (run (e ∷ es) b).last r s.later ih.later,
    )

refill-step : (e : Event) (b : TokenBucket) → (step e b).0.refill ≡ b.refill
unfolding acquire record_429
refill-step (take_tokens tokens now later) b = ground arith
refill-step (hit_429 now) b = refl

rates-le-refill : (es : List Event) (b : TokenBucket) (r : ℕ) → b.refill ≤ r → RatesAtMost r es b
rates-le-refill [] b r h = tt
rates-le-refill (take_tokens tokens now later ∷ es) b r h = (
  omega (arith, rate-le-refill b later),
  rates-le-refill es _ r (omega (arith, refill-step (take_tokens tokens now later) b)),
)
rates-le-refill (hit_429 now ∷ es) b r h =
    (tt, rates-le-refill es _ r (omega (arith, refill-step (hit_429 now) b)))

-- Whatever the sequence of acquisitions and 429 answers, a bucket grants at most its capacity
-- plus its refill rate times the time that has passed; times are those of a monotonic clock.
pub granted-le-budget :
    (es : List Event) (b : TokenBucket)
    → IsValid b
    → IsTimed b.last es
    → granted es b * token_units ≤ b.capacity * token_units + ((run es b).last - b.last) * b.refill
granted-le-budget es b v timed =
    let budget =
      run-Budget b.refill es b b.last (rates-le-refill es b b.refill (omega arith)) (omega arith)
        timed in
    omega (arith, budget.spend, v.within)

-- Acquisitions alone, whose second reading of the clock is before the time `p`.
abbrev pub Before : ℕ → List Event → Type 0
Before p [] = Unit
Before p (take_tokens tokens now later ∷ es) = (later < p) × Before p es
Before p (hit_429 now ∷ es) = ⊥

penalty-acquire :
    (b : TokenBucket) (tokens now later : ℕ)
    → (acquire b tokens now later).0.penalty_until ≡ b.penalty_until
unfolding acquire
penalty-acquire b tokens now later = ground arith

half_rates :
    (es : List Event) (b : TokenBucket) (p r : ℕ)
    → p ≤ b.penalty_until
    → b.refill / 2 ≤ r
    → Before p es
    → RatesAtMost r es b
half_rates [] b p r h k before = tt
half_rates (take_tokens tokens now later ∷ es) b p r h k before = (
  unfold refill_rate_now in ground arith,
  half_rates es _ p r (omega (arith, penalty-acquire b tokens now later))
      (omega (arith, refill-step (take_tokens tokens now later) b)) before.1,
)
half_rates (hit_429 now ∷ es) b p r h k before = absurd before

-- After a 429 at the time `now`, and until the penalty window ends, a bucket grants at most half
-- its refill rate times the time since the last acquisition before the 429.
pub penalty_halves :
    (es : List Event) (b : TokenBucket) (now : ℕ)
    → b.last ≤ now
    → IsTimed now es
    → Before (now + penalty_window) es
    → granted es (record_429 b now) * token_units
      ≤ ((run es (record_429 b now)).last - b.last) * (b.refill / 2)
unfolding record_429
penalty_halves es b now h timed before =
    let c = record_429 b now in
    let budget =
      run-Budget (b.refill / 2) es c now
        (half_rates es c (now + penalty_window) (b.refill / 2) (omega arith) (omega arith) before) h
        timed in
    omega (arith, budget.spend)

-- A 429 empties the bucket but not its credit: where the last acquisition is long enough past,
-- the very next one is granted at the instant of the 429, although the bucket was just drained.
pub drained_bucket_grants :
    (b : TokenBucket) (now : ℕ)
    → IsValid b
    → token_units ≤ (now - b.last) * (b.refill / 2)
    → (acquire (record_429 b now) 1 now now).1 ≡ true
unfolding acquire record_429 refilled refill_rate_now
drained_bucket_grants b now v idle = ground arith
