-- ===== src/RateLimit/Tests.antt =====
-- ratelimit.py on a small bucket.
use protek.Prelude.{◌+◌, ◌-◌, ◌*◌, ◌≤◌, ◌≡◌, refl, List, [], ◌∷◌, arith}
use protek.Prelude.Text.{lit}
use protek.Prelude.Equality.{str_beq}
use protek.RateLimit.{
  TokenBucket, token_units, new_bucket, refill_rate_now, refilled, acquire, record_429, defaults,
  settings_for, chosen, Tuning, Reading,
}
use protek.RateLimit.Budget.{
  penalty_halves, Event, take_tokens, hit_429, run, granted, IsValid, granted-le-budget,
}

-- Two tokens a minute, two at most: the bucket of intel.cti.
abbrev cti : TokenBucket
cti = record {
  name = lit "intel.cti";
  capacity = 2;
  tokens = 12_000_000;
  refill = 200;
  last = 0;
  penalty_until = 0;
  consumed_log = [];
  denied_log = [];
}

cti-new : new_bucket (lit "intel.cti") 2 2 0 ≡ cti
unfolding new_bucket
cti-new = refl

abbrev calls : List Event
calls =
    take_tokens 1 10 10
    ∷ take_tokens 1 20 20
    ∷ take_tokens 1 30 30
    ∷ hit_429 40
    ∷ take_tokens 1 60_040 60_040
    ∷ []

granted-calls : granted calls cti ≡ 3
unfolding acquire record_429 refilled refill_rate_now
granted-calls = refl

cti-IsValid : IsValid cti
cti-IsValid = omega arith

granted-le-budget_example :
    granted calls cti * token_units ≤ 2 * token_units + ((run calls cti).last - 0) * 200
granted-le-budget_example = granted-le-budget calls cti cti-IsValid (omega arith)

abbrev later_calls : List Event
later_calls = take_tokens 1 60_000 60_000 ∷ take_tokens 1 120_000 120_000 ∷ []

-- A malformed capacity drops a good rate too.
abbrev tuning : Tuning
tuning = record { tokens_per_min = λ name. Reading.value 9; capacity = λ name. Reading.malformed }

settings-lapi : settings_for tuning (lit "lapi") ≡ (600, 60)
unfolding settings_for chosen defaults str_beq
settings-lapi = refl

penalty_halves_example :
    granted later_calls (record_429 cti 5) * token_units
    ≤ ((run later_calls (record_429 cti 5)).last - 0) * 100
penalty_halves_example = penalty_halves later_calls cti 5 (omega arith) (omega arith) (omega arith)
