-- ===== src/Auth/Lockout/Bound.antt =====
-- auth.py and app.py: how many guesses the lockout lets through.
use protek.Prelude.{
  ℕ, suc, ◌+◌, ◌-◌, ◌*◌, ◌≤◌, ◌<◌, max, ◌≡◌, refl, ap, ◌∙◌, Str, Option, none, some, Bool, true,
  false, not, ◌&&◌, List, [], ◌∷◌, ◌==◌, str_eq, str_beq_iff, if◌then◌else◌, ltb, leb, leb→le,
  arith, Bool-cases, inl, inr,
}
use protek.Prelude.Dict.{lookup, lookup-insert, lookup-remove}
use protek.Auth.Lockout.{
  LockoutConfig, LoginAttempt, Attempts, locked_until_of, is_locked, attempts_of, failed_row,
  record_failure, clear_failures,
}
use protek.Auth.Login.{
  Libraries, User, Form, Response, blocked_403, locked_out, bad_credentials, bad_totp, logged_in,
  LoginState, login,
}

-- Were the credentials looked at, and were they right?
abbrev pub is_tested : Response → Bool
is_tested blocked_403 = false
is_tested (locked_out n) = false
is_tested bad_credentials = true
is_tested bad_totp = true
is_tested (logged_in u next) = true

abbrev pub is_success : Response → Bool
is_success (logged_in u next) = true
is_success _ = false

module _ (l : Libraries) (c : LockoutConfig) (whitelist home : Str) (users : List User) where
  -- A POST finds the row of its address unlocked wherever it tests the credentials.
  tested-unlocked :
      (f : Form) (now : ℕ) (s : LoginState)
      → is_tested (login l c whitelist home users f now s).0 ≡ true
      → (is_locked f.ip now s.attempts).0 ≡ false
  unfolding login
  tested-unlocked f now s h = ground arith

  -- The row of an address after a POST.
  lookup-login :
      (ip : Str) (f : Form) (now : ℕ) (s : LoginState)
      → lookup ip (login l c whitelist home users f now s).1.attempts ≡ (
          if f.ip == ip && is_tested (login l c whitelist home users f now s).0
          then if is_success (login l c whitelist home users f now s).0
            then none
            else some (failed_row c (attempts_of (lookup ip s.attempts) + 1) now)
          else lookup ip s.attempts)
  unfolding login record_failure clear_failures
  lookup-login ip f now s = ground (
    arith,
    str_beq_iff f.ip ip,
    lookup-remove f.ip ip s.attempts,
    lookup-insert f.ip ip (failed_row c (attempts_of (lookup f.ip s.attempts) + 1) now) s.attempts,
  )

  -- The POSTs of a history, each with its time: the state they leave, the guesses of one address
  -- that were tested, and those that were right.
  abbrev pub after : List (ℕ × Form) → LoginState → LoginState
  after [] s = s
  after ((now, f) ∷ posts) s = after posts (login l c whitelist home users f now s).1

  abbrev pub guesses : Str → List (ℕ × Form) → LoginState → ℕ
  guesses ip [] s = 0
  guesses ip ((now, f) ∷ posts) s =
      (if f.ip == ip && is_tested (login l c whitelist home users f now s).0 then 1 else 0)
      + guesses ip posts (login l c whitelist home users f now s).1

  abbrev pub successes : Str → List (ℕ × Form) → LoginState → ℕ
  successes ip [] s = 0
  successes ip ((now, f) ∷ posts) s =
      (if f.ip == ip && is_success (login l c whitelist home users f now s).0 then 1 else 0)
      + successes ip posts (login l c whitelist home users f now s).1

-- The times of the posts are in order, from `from` to `until`.
abbrev pub InOrder : ℕ → ℕ → List (ℕ × Form) → Type 0
InOrder from until [] = from ≤ until
InOrder from until ((now, f) ∷ posts) = (from ≤ now) × InOrder now until posts

attempts_of-failed_row :
    (c : LockoutConfig) (n now : ℕ) → attempts_of (some (failed_row c n now)) ≡ n
unfolding failed_row
attempts_of-failed_row c n now = refl

is_locked-open :
    (ip : Str) (now : ℕ) (table : Attempts)
    → (is_locked ip now table).0 ≡ false
    → elim (locked_until_of (lookup ip table)) [ none ↦ true | some u ↦ not (ltb now u) ] ≡ true
unfolding is_locked
is_locked-open ip now table h = ground arith

module _ (c : LockoutConfig) (start : ℕ) where
  abbrev lockout : ℕ
  lockout = c.lockout_minutes * 60

  abbrev free : ℕ
  free = max 1 c.max_attempts

  -- With no lock there were fewer failures than are free; a lock was set at most at `last`, and
  -- every failure from the last free one on has cost a lockout since `start`.
  abbrev Paid : ℕ → ℕ → Option ℕ → Type 0
  Paid last attempts none = attempts < free
  Paid last attempts (some u) =
      (free ≤ attempts) × (start + (attempts - free) * lockout + lockout ≤ u) × (u ≤ last + lockout)

  abbrev PaidRow : ℕ → Option LoginAttempt → Type 0
  PaidRow last row = Paid last (attempts_of row) (locked_until_of row)

  sub_suc : (n : ℕ) → free ≤ n → (n + 1 - free) * lockout ≡ (n - free) * lockout + lockout
  sub_suc n h =
      let step : n + 1 - free ≡ suc (n - free) = omega arith in
      ap (λ k. k * lockout) step ∙ omega arith

  -- One more failure, at a time at which the row is not locked.
  Paid-failed_row :
      (last now attempts : ℕ) (until : Option ℕ)
      → start ≤ last
      → last ≤ now
      → Paid last attempts until
      → elim until [ none ↦ true | some u ↦ not (ltb now u) ] ≡ true
      → PaidRow now (some (failed_row c (attempts + 1) now))
  unfolding failed_row
  Paid-failed_row last now attempts none h g paid unlocked =
      elim (Bool-cases (leb c.max_attempts (attempts + 1))) [
        | inl full ↦
            let le : c.max_attempts ≤ attempts + 1 = leb→le _ _ full in
            let none_left : attempts + 1 - free ≡ 0 = omega arith in
            let unpaid : (attempts + 1 - free) * lockout ≡ 0 =
              ap (λ k. k * lockout) none_left ∙ omega arith in
            rw full (omega arith, omega (arith, unpaid), omega arith)
        | inr few ↦ rw few (ground arith)
      ]
  Paid-failed_row last now attempts (some u) h g paid unlocked =
      elim (Bool-cases (leb c.max_attempts (attempts + 1))) [
        | inl full ↦
            let over : u ≤ now = ground arith in
            rw full
              (omega (arith, paid), omega (arith, paid, sub_suc attempts paid.0, over), omega arith)
        | inr few ↦ absurd (ground (arith, paid))
      ]

  -- What the invariant says of the number of failures.
  Paid-bound :
      (last attempts : ℕ) (until : Option ℕ)
      → start ≤ last
      → Paid last attempts until
      → (attempts - free) * lockout ≤ last - start
  Paid-bound last attempts none h paid =
      let none_left : attempts - free ≡ 0 = omega (arith, paid) in
      let unpaid : (attempts - free) * lockout ≡ 0 =
        ap (λ k. k * lockout) none_left ∙ omega arith in
      omega (arith, unpaid)
  Paid-bound last attempts (some u) h paid = omega (arith, paid)

module _ (l : Libraries) (c : LockoutConfig) (whitelist home : Str) (users : List User) (ip : Str)
    (start : ℕ) where
  abbrev Holds : ℕ → LoginState → Type 0
  Holds last s = PaidRow c start last (lookup ip s.attempts)

  Paid-later :
      (last now attempts : ℕ) (until : Option ℕ)
      → last ≤ now
      → Paid c start last attempts until
      → Paid c start now attempts until
  Paid-later last now attempts none le paid = paid
  Paid-later last now attempts (some u) le paid = (paid.0, paid.1, omega (arith, paid.2))

  Holds-login :
      (last now : ℕ) (f : Form) (s : LoginState)
      → start ≤ last
      → last ≤ now
      → (f.ip == ip && is_success (login l c whitelist home users f now s).0) ≡ false
      → Holds last s
      → Holds now (login l c whitelist home users f now s).1
  Holds-login last now f s h g wrong holds =
      let row = lookup ip s.attempts in
      let response = (login l c whitelist home users f now s).0 in
      elim (Bool-cases (f.ip == ip && is_tested response)) [
        | inl tested ↦
            let same : f.ip ≡ ip = ground (arith, str_beq_iff f.ip ip) in
            let locked : (is_locked ip now s.attempts).0 ≡ false =
              rw (← same) (tested-unlocked l c whitelist home users f now s (ground arith)) in
            let changed : lookup ip (login l c whitelist home users f now s).1.attempts
                ≡ some (failed_row c (attempts_of row + 1) now) =
              ground (arith, lookup-login l c whitelist home users ip f now s) in
            rw changed (
              Paid-failed_row c start last now (attempts_of row) (locked_until_of row) h g holds
                (is_locked-open ip now s.attempts locked))
        | inr other ↦
            let kept : lookup ip (login l c whitelist home users f now s).1.attempts ≡ row =
              ground (arith, lookup-login l c whitelist home users ip f now s) in
            rw kept (Paid-later last now (attempts_of row) (locked_until_of row) g holds)
      ]

  guesses-bound :
      (posts : List (ℕ × Form)) (last until : ℕ) (s : LoginState)
      → start ≤ last
      → InOrder last until posts
      → successes l c whitelist home users ip posts s ≡ 0
      → Holds last s
      → (attempts_of (lookup ip s.attempts)
            + guesses l c whitelist home users ip posts s
            - free c start)
          * lockout c start
        ≤ until - start
  guesses-bound [] last until s h ordered wrong holds =
      let row = lookup ip s.attempts in
      let bound = Paid-bound c start last (attempts_of row) (locked_until_of row) h holds in
      let count : attempts_of row + 0 ≡ attempts_of row = omega arith in
      rw count (omega (arith, bound))
  guesses-bound ((now, f) ∷ posts) last until s h ordered wrong holds =
      let next = (login l c whitelist home users f now s).1 in
      let count : attempts_of (lookup ip s.attempts)
            + guesses l c whitelist home users ip ((now, f) ∷ posts) s
          ≡ attempts_of (lookup ip next.attempts) + guesses l c whitelist home users ip posts next =
        ground (
          arith,
          lookup-login l c whitelist home users ip f now s,
          attempts_of-failed_row c (attempts_of (lookup ip s.attempts) + 1) now,
        ) in
      rw count (
        guesses-bound posts now until next (omega arith) ordered.1 (ground arith)
          (Holds-login last now f s h ordered.0 (ground arith) holds))

-- While no guess from an address is right, and beginning with no failure on record for it, the
-- guesses that are tested are at most the allowed ones and one more for every full lockout that
-- went by: those beyond the allowed ones, times the lockout, fit into the time that passed. The
-- POSTs from other addresses between them may be any.
pub guesses-le-allowance :
    (l : Libraries) (c : LockoutConfig) (whitelist home : Str) (users : List User) (ip : Str)
    (posts : List (ℕ × Form)) (start until : ℕ) (s : LoginState)
    → lookup ip s.attempts ≡ none
    → InOrder start until posts
    → successes l c whitelist home users ip posts s ≡ 0
    → (guesses l c whitelist home users ip posts s - max 1 c.max_attempts)
        * (c.lockout_minutes * 60)
      ≤ until - start
guesses-le-allowance l c whitelist home users ip posts start until s new ordered wrong =
    let holds : PaidRow c start start (lookup ip s.attempts) = rw new (omega arith) in
    let bound =
      guesses-bound l c whitelist home users ip start posts start until s (omega arith) ordered
        wrong holds in
    let count : attempts_of (lookup ip s.attempts) ≡ 0 = ap attempts_of new in
    let same : guesses l c whitelist home users ip posts s
        ≡ attempts_of (lookup ip s.attempts) + guesses l c whitelist home users ip posts s =
      omega (arith, count) in
    rw same bound
