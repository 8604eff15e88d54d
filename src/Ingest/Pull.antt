-- ===== src/Ingest/Pull.antt =====
-- poller.py, `_pull_source`, `_in_backoff` and what `_sync_connection` does to the source `local`: one
-- pull of one source, its failures and what they set off. Times are numbers; a backoff is in minutes.
use protek.Prelude.{
  ℕ, zero, suc, ◌+◌, ◌-◌, ◌*◌, ◌≤◌, ◌≡◌, refl, Option, none, some, Bool, true, false, not, ◌&&◌,
  List, [], ◌∷◌, ◌++◌, if◌then◌else◌, ltb, leb, All, min, arith,
}

-- What a pull came to: the count of decisions, an error of the LAPI, or any other error.
pub data Attempt : Type 0 where
  pulled : ℕ → Attempt
  lapi_error crashed : Attempt

-- The notifications and SIEM events: the source went down, with its backoff, or came back; and the
-- log line that the connection settings changed.
pub data Edge : Type 0 where
  source_down : (backoff_min : ℕ) → Edge
  source_up : Edge
  started_over : Edge

-- What the poller keeps of a source; `prev_lapi_ok` is true where there is no entry.
pub record SourceState : Type 0 where
  pub bootstrap_done : Bool
  pub fail_streak : ℕ
  pub prev_lapi_ok : Bool
  pub backoff_until : Option ℕ

abbrev pub new_source : SourceState
new_source = record {
  bootstrap_done = false;
  fail_streak = 0;
  prev_lapi_ok = true;
  backoff_until = none;
}

unfoldable pub pow2 : ℕ → ℕ
pow2 zero = 1
pow2 (suc n) = 2 * pow2 n

-- `min(30, 2 ** max(0, streak - 1))`
unfoldable pub backoff_min : ℕ → ℕ
backoff_min streak = min 30 (pow2 (streak - 1))

-- The pull itself is a full one until the first that succeeds.
pub data Method : Type 0 where
  by_bootstrap by_stream : Method

unfoldable pub method : SourceState → Method
method s = if s.bootstrap_done then by_stream else by_bootstrap

-- `_pull_source` after an attempt that ends at the time `now`
unfoldable pub pull_source : ℕ → Attempt → SourceState → SourceState × List Edge
pull_source now (pulled count) s = (
  record { bootstrap_done = true; fail_streak = 0; prev_lapi_ok = true; backoff_until = none },
  if not s.prev_lapi_ok then source_up ∷ [] else [],
)
pull_source now lapi_error s =
    let minutes = backoff_min (s.fail_streak + 1) in
    (
      record s {
        fail_streak = s.fail_streak + 1;
        prev_lapi_ok = false;
        backoff_until = some (now + minutes);
      },
      if s.prev_lapi_ok then source_down minutes ∷ [] else [],
    )
pull_source now crashed s = (s, [])

-- `_in_backoff`, on a time that can be read
unfoldable pub in_backoff : ℕ → SourceState → Bool
in_backoff now s = elim s.backoff_until [ none ↦ false | some until ↦ ltb now until ]

-- What `_sync_connection` pops where the settings changed; the backoff is in the table and stays.
unfoldable pub start_over : SourceState → SourceState
start_over s = record s { bootstrap_done = false; fail_streak = 0; prev_lapi_ok = true }

-- The pull of a cycle, of a source that is not paused: it is left out while it is in its backoff.
unfoldable pub pull_unless_backoff : ℕ → Attempt → SourceState → SourceState × List Edge
pull_unless_backoff now attempt s = if in_backoff now s then (s, []) else pull_source now attempt s

-- One cycle: the settings are compared before the pulls. They change for the source `local` alone.
unfoldable pub cycle : ℕ → (changed : Bool) → Attempt → SourceState → SourceState × List Edge
unfolding start_over pull_unless_backoff
cycle now false attempt s = pull_unless_backoff now attempt s
cycle now true attempt s =
    let result = pull_unless_backoff now attempt (start_over s) in
    (result.0, started_over ∷ result.1)

-- A history of cycles: the time of each, whether the settings changed, and what a pull comes to.
unfoldable pub cycles : List (ℕ × Bool × Attempt) → SourceState → SourceState × List Edge
cycles [] s = (s, [])
cycles ((now, changed, attempt) ∷ rest) s =
    let result = cycle now changed attempt s in
    let later = cycles rest result.0 in (later.0, result.1 ++ later.1)

-- Do downs and ups take turns, beginning with a down where the flag is true, and again with a down
-- wherever the source was started over?
abbrev pub alternates : Bool → List Edge → Bool
alternates was_ok [] = true
alternates true (source_down n ∷ es) = alternates false es
alternates true (source_up ∷ es) = false
alternates false (source_down n ∷ es) = false
alternates false (source_up ∷ es) = alternates true es
alternates was_ok (started_over ∷ es) = alternates true es

-- The last edge of the list, or the flag where there is none; starting over counts as an up.
abbrev pub ends_ok : Bool → List Edge → Bool
ends_ok was_ok [] = was_ok
ends_ok was_ok (source_down n ∷ es) = ends_ok false es
ends_ok was_ok (source_up ∷ es) = ends_ok true es
ends_ok was_ok (started_over ∷ es) = ends_ok true es

alternates-append :
    (was_ok : Bool) (es fs : List Edge)
    → alternates was_ok (es ++ fs) ≡ (alternates was_ok es && alternates (ends_ok was_ok es) fs)
alternates-append was_ok [] fs = refl
alternates-append true (source_down n ∷ es) fs = alternates-append false es fs
alternates-append true (source_up ∷ es) fs = refl
alternates-append false (source_down n ∷ es) fs = refl
alternates-append false (source_up ∷ es) fs = alternates-append true es fs
alternates-append true (started_over ∷ es) fs = alternates-append true es fs
alternates-append false (started_over ∷ es) fs = alternates-append true es fs

ends_ok-append :
    (was_ok : Bool) (es fs : List Edge) → ends_ok was_ok (es ++ fs) ≡ ends_ok (ends_ok was_ok es) fs
ends_ok-append was_ok [] fs = refl
ends_ok-append was_ok (source_down n ∷ es) fs = ends_ok-append false es fs
ends_ok-append was_ok (source_up ∷ es) fs = ends_ok-append true es fs
ends_ok-append was_ok (started_over ∷ es) fs = ends_ok-append true es fs

edges-pull_unless_backoff :
    (now : ℕ) (attempt : Attempt) (s : SourceState)
    → (alternates s.prev_lapi_ok (pull_unless_backoff now attempt s).1 ≡ true)
      × (ends_ok s.prev_lapi_ok (pull_unless_backoff now attempt s).1
          ≡ (pull_unless_backoff now attempt s).0.prev_lapi_ok)
unfolding pull_unless_backoff pull_source
edges-pull_unless_backoff now (pulled n) s = ground arith
edges-pull_unless_backoff now lapi_error s = ground arith
edges-pull_unless_backoff now crashed s = ground arith

edges-cycle :
    (now : ℕ) (changed : Bool) (attempt : Attempt) (s : SourceState)
    → (alternates s.prev_lapi_ok (cycle now changed attempt s).1 ≡ true)
      × (ends_ok s.prev_lapi_ok (cycle now changed attempt s).1
          ≡ (cycle now changed attempt s).0.prev_lapi_ok)
unfolding cycle start_over
edges-cycle now false attempt s = edges-pull_unless_backoff now attempt s
edges-cycle now true attempt s =
    ground (arith, edges-pull_unless_backoff now attempt (start_over s))

-- Over any history of cycles the notices of a source take turns, a down and then an up, beginning
-- with a down where the source was well. A change of the connection settings starts the source over:
-- after it the turns begin with a down again, also where the last notice was a down, and no up tells
-- the end of that one. The last notice or start says what the poller remembers.
pub edges-cycles :
    (history : List (ℕ × Bool × Attempt)) (s : SourceState)
    → (alternates s.prev_lapi_ok (cycles history s).1 ≡ true)
      × (ends_ok s.prev_lapi_ok (cycles history s).1 ≡ (cycles history s).0.prev_lapi_ok)
unfolding cycles
edges-cycles [] s = (refl, refl)
edges-cycles ((now, changed, attempt) ∷ rest) s =
    let result = cycle now changed attempt s in
    ground (
      arith,
      edges-cycle now changed attempt s,
      edges-cycles rest result.0,
      alternates-append s.prev_lapi_ok result.1 (cycles rest result.0).1,
      ends_ok-append s.prev_lapi_ok result.1 (cycles rest result.0).1,
    )

-- The backoff ends at most half an hour after the given time.
abbrev pub ends_by : ℕ → SourceState → Bool
ends_by last s = elim s.backoff_until [ none ↦ true | some until ↦ leb until (last + 30) ]

ends_by-pull_unless_backoff :
    (now : ℕ) (attempt : Attempt) (s : SourceState) (last : ℕ)
    → now ≤ last
    → ends_by last s ≡ true
    → ends_by last (pull_unless_backoff now attempt s).0 ≡ true
unfolding pull_unless_backoff pull_source backoff_min
ends_by-pull_unless_backoff now (pulled n) s last le h = ground arith
ends_by-pull_unless_backoff now lapi_error s last le h = ground arith
ends_by-pull_unless_backoff now crashed s last le h = ground arith

ends_by-cycle :
    (now : ℕ) (changed : Bool) (attempt : Attempt) (s : SourceState) (last : ℕ)
    → now ≤ last
    → ends_by last s ≡ true
    → ends_by last (cycle now changed attempt s).0 ≡ true
unfolding cycle start_over
ends_by-cycle now false attempt s last le h = ends_by-pull_unless_backoff now attempt s last le h
ends_by-cycle now true attempt s last le h =
    ends_by-pull_unless_backoff now attempt (start_over s) last le h

ends_by-cycles :
    (history : List (ℕ × Bool × Attempt)) (s : SourceState) (last : ℕ)
    → All (λ (entry : ℕ × Bool × Attempt). entry.0 ≤ last) history
    → ends_by last s ≡ true
    → ends_by last (cycles history s).0 ≡ true
unfolding cycles
ends_by-cycles [] s last le h = h
ends_by-cycles ((now, changed, attempt) ∷ rest) s last le h =
    ends_by-cycles rest (cycle now changed attempt s).0 last le.1
      (ends_by-cycle now changed attempt s last le.0 h)

-- Whatever the pulls of a new source came to and whenever its settings changed, half an hour after the last cycle of its history it
-- is no longer left out.
pub in_backoff-cycles :
    (history : List (ℕ × Bool × Attempt)) (last t : ℕ)
    → All (λ (entry : ℕ × Bool × Attempt). entry.0 ≤ last) history
    → last + 30 ≤ t
    → in_backoff t (cycles history new_source).0 ≡ false
unfolding in_backoff
in_backoff-cycles history last t le late =
    ground (arith, ends_by-cycles history new_source last le refl)
