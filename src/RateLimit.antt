-- ===== src/RateLimit.antt =====
-- ratelimit.py: token buckets. Time is in milliseconds of the monotonic clock, and an amount of
-- tokens in units of which a token has 6,000,000: a rate of n tokens a minute is then 100 * n
-- units a millisecond, its half a whole number, and the floor of 0.001 tokens a second is 6.
pub mod Budget
mod Tests
use protek.Prelude.{
  ℕ, ◌+◌, ◌-◌, ◌*◌, ◌/◌, ◌≤◌, min, max, Str, Option, none, some, Bool, true, false, List, [], ◌∷◌,
  ◌++◌, ◌==◌, str_eq, if◌then◌else◌, ltb, leb, drop, length,
}
use protek.Prelude.Dict.{Dict, lookup, contains, insert}
use protek.Prelude.Text.{lit}

abbrev pub token_units : ℕ
token_units = 6_000_000

abbrev pub penalty_window : ℕ
penalty_window = 300_000

abbrev pub penalty_divisor : ℕ
penalty_divisor = 2

pub record TokenBucket : Type 0 where
  pub name : Str
  pub capacity : ℕ
  pub tokens : ℕ
  pub refill : ℕ
  pub last : ℕ
  pub penalty_until : ℕ
  pub consumed_log : List ℕ
  pub denied_log : List ℕ

-- `deque(maxlen=n).append(x)`
push_bounded : ℕ → ℕ → List ℕ → List ℕ
push_bounded maxlen x log = let longer = log ++ x ∷ [] in drop (length longer - maxlen) longer

-- `TokenBucket.__init__` at the time `now`
unfoldable pub new_bucket : Str → ℕ → ℕ → ℕ → TokenBucket
new_bucket name tokens_per_min capacity now = record {
  name = name;
  capacity = max 1 capacity;
  tokens = max 1 capacity * token_units;
  refill = max 6 (100 * tokens_per_min);
  last = now;
  penalty_until = 0;
  consumed_log = [];
  denied_log = [];
}

-- `_refill_rate_now` at the time `now`
unfoldable pub refill_rate_now : TokenBucket → ℕ → ℕ
refill_rate_now b now = if ltb now b.penalty_until then b.refill / penalty_divisor else b.refill

-- The tokens after the refill of `acquire`, in which the clock is read twice.
unfoldable pub refilled : TokenBucket → ℕ → ℕ → ℕ
refilled b now later =
    min (b.capacity * token_units) (b.tokens + (now - b.last) * refill_rate_now b later)

-- `TokenBucket.acquire`
unfoldable pub acquire : TokenBucket → ℕ → ℕ → ℕ → TokenBucket × Bool
unfolding push_bounded
acquire b tokens now later =
    let available = refilled b now later in
    if leb (tokens * token_units) available
    then (
      record b {
        tokens = available - tokens * token_units;
        last = now;
        consumed_log = push_bounded 2000 now b.consumed_log;
      },
      true,
    )
    else (
      record b { tokens = available; last = now; denied_log = push_bounded 200 now b.denied_log },
      false,
    )

-- `TokenBucket.record_429`
unfoldable pub record_429 : TokenBucket → ℕ → TokenBucket
record_429 b now = record b { penalty_until = now + penalty_window; tokens = 0 }

-- What reading a setting as a number gives: no value, no number, or a number.
pub data Reading : Type 0 where
  absent : Reading
  malformed : Reading
  value : ℕ → Reading

-- The settings of a bucket: its refill rate and its capacity.
pub record Tuning : Type 0 where
  pub tokens_per_min : Str → Reading
  pub capacity : Str → Reading

-- DEFAULTS, the last line for any other name
unfoldable pub defaults : Str → ℕ × ℕ
defaults name =
    if name == lit "lapi"
    then (600, 60)
    else if name == lit "bouncer.mikrotik_env"
    then (1200, 200)
    else if name == lit "bouncer.mikrotik"
    then (1200, 200)
    else if name == lit "bouncer.iptables_ipset"
    then (6000, 500)
    else if name == lit "bouncer.cloudflare"
    then (200, 50)
    else if name == lit "bouncer.pfsense"
    then (300, 60)
    else if name == lit "bouncer.opnsense"
    then (300, 60)
    else if name == lit "webhook"
    then (60, 20)
    else if name == lit "intel.abuseipdb"
    then (40, 10)
    else if name == lit "intel.proxycheck"
    then (40, 10)
    else if name == lit "intel.otx"
    then (300, 60)
    else if name == lit "intel.cti"
    then (2, 2)
    else (600, 120)

-- The `try` of `_settings_for`: one malformed value drops both.
unfoldable pub chosen : Reading → Reading → ℕ × ℕ → ℕ × ℕ
chosen malformed c base = base
chosen r malformed base = base
chosen absent absent base = base
chosen absent (value c) base = (base.0, c)
chosen (value r) absent base = (r, base.1)
chosen (value r) (value c) base = (r, c)

unfoldable pub settings_for : Tuning → Str → ℕ × ℕ
settings_for tuning name =
    chosen (tuning.tokens_per_min name) (tuning.capacity name) (defaults name)

abbrev pub Registry : Type 0
Registry = Dict Str TokenBucket

-- `get_bucket`: the bucket of that name, made on first use
unfoldable pub get_bucket : Tuning → Str → ℕ → Registry → Registry × TokenBucket
get_bucket tuning name now registry = elim (lookup name registry) [
  | some b ↦ (registry, b)
  | none ↦
      let (rate, capacity) = settings_for tuning name in
      let b = new_bucket name rate capacity now in (insert name b registry, b)
]

-- The module's `acquire`: buckets are shared objects, so the new state goes to the registry.
unfoldable pub acquire_named : Tuning → Str → ℕ → ℕ → ℕ → Registry → Registry × Bool
acquire_named tuning name tokens now later registry =
    let (registry', b) = get_bucket tuning name now registry in
    let (b', granted) = acquire b tokens now later in (insert name b' registry', granted)

-- The module's `record_429`
unfoldable pub record_429_named : Tuning → Str → ℕ → Registry → Registry
record_429_named tuning name now registry =
    let (registry', b) = get_bucket tuning name now registry in
    insert name (record_429 b now) registry'
