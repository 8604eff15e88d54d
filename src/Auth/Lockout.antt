-- ===== src/Auth/Lockout.antt =====
-- auth.py, the login rate limit: `is_locked`, `record_failure`, `clear_failures` over the table
-- `login_attempts`. Times are in seconds.
pub mod Bound
use protek.Prelude.{
  ℕ, ◌+◌, ◌-◌, ◌*◌, ◌/◌, max, Str, Option, none, some, Bool, true, false, List, [], ◌∷◌, ◌++◌,
  str_eq, if◌then◌else◌, ltb, leb,
}
use protek.Prelude.Dict.{Dict, lookup, insert, remove}

-- `_max_attempts` and `_lockout_minutes`
pub record LockoutConfig : Type 0 where
  pub max_attempts : ℕ
  pub lockout_minutes : ℕ

pub record LoginAttempt : Type 0 where
  pub attempts : ℕ
  pub locked_until : Option ℕ
  pub last_attempt : ℕ

abbrev pub Attempts : Type 0
Attempts = Dict Str LoginAttempt

-- The time to which the row of the address locks it.
abbrev pub locked_until_of : Option LoginAttempt → Option ℕ
locked_until_of none = none
locked_until_of (some row) = row.locked_until

-- `is_locked` at the time `now`: and for how many minutes
unfoldable pub is_locked : Str → ℕ → Attempts → Bool × ℕ
is_locked ip now table = elim (locked_until_of (lookup ip table)) [
  | none ↦ (false, 0)
  | some until ↦ if ltb now until then (true, max 1 ((until - now) / 60 + 1)) else (false, 0)
]

abbrev pub attempts_of : Option LoginAttempt → ℕ
attempts_of none = 0
attempts_of (some row) = row.attempts

-- The notifications of a failure.
pub data FailureNotice : Type 0 where
  login_failure login_locked : (attempts : ℕ) → FailureNotice

unfoldable pub failed_row : LockoutConfig → ℕ → ℕ → LoginAttempt
failed_row c attempts now = record {
  attempts = attempts;
  locked_until = if leb c.max_attempts attempts then some (now + c.lockout_minutes * 60) else none;
  last_attempt = now;
}

unfoldable pub record_failure : LockoutConfig → Str → ℕ → Attempts → Attempts × List FailureNotice
record_failure c ip now table =
    let attempts = attempts_of (lookup ip table) + 1 in
    (
      insert ip (failed_row c attempts now) table,
      login_failure attempts
          ∷ (if leb c.max_attempts attempts then login_locked attempts ∷ [] else []),
    )

unfoldable pub clear_failures : Str → Attempts → Attempts
clear_failures ip table = remove ip table
