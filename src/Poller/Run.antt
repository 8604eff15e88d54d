-- ===== src/Poller/Run.antt =====
-- The poller of poller.py as an object, the calls that a cycle makes, and the monad of its steps: a
-- step changes the object, adds its calls to the log, and returns or raises. What a `raises` says of
-- a call holds for one cycle.
use protek.Prelude.{
  ℕ, ◌++◌, Str, Option, none, some, Bool, true, false, List, [], ◌∷◌, if◌then◌else◌, max,
}
use protek.Prelude.Dict.{Dict}
use protek.Reconciler.RunOnce.{CycleReport}

-- The modules that run at the end of a cycle.
pub data Service : Type 0 where
  alerting mirror_alerts digest asn_detector bulk_intel honeypot backup synthetic peers : Service
  slo wal_checkpoint journal_scan replica_probe auto_rebaseline : Service

-- The size of a target at its last sync.
pub record TargetState : Type 0 where
  pub size : ℕ
  pub synced_at : ℕ

pub data Call : Type 0 where
  read : Str → Call
  write : Str → Str → Call
  write_targets : Dict Str TargetState → Call
  wal_guard disk_check retention hygiene : Call
  connection_sync forget_local blocking_refresh : Call
  list_sources count_active mt_client : Call
  pull : Str → Call
  reconcile : (dry_run : Bool) → (batch_cap : ℕ) → Call
  notify ship : Str → Call
  mt_health drill_query : Call
  service : Service → Call

-- The attributes of a `Poller`; the state of each source is in Ingest.Pull.
pub record Poller : Type 0 where
  pub interval : ℕ
  pub dry_run : Bool
  pub batch_cap : ℕ
  pub prev_active : ℕ
  pub last_cycle_at : Option ℕ
  pub last_cycle_ok : Bool
  pub last_error : Str
  pub last_active_count : ℕ
  pub cycles : ℕ
  pub maint_ticks : ℕ
  pub force_blocking : Bool

-- `Poller(interval_sec, dry_run, batch_cap)`
unfoldable pub new_poller : ℕ → Bool → ℕ → Poller
new_poller interval_sec dry_run batch_cap = record {
  interval = max 2 interval_sec;
  dry_run = dry_run;
  batch_cap = max 1 batch_cap;
  prev_active = 0;
  last_cycle_at = none;
  last_cycle_ok = false;
  last_error = [];
  last_active_count = 0;
  cycles = 0;
  maint_ticks = 0;
  force_blocking = false;
}

-- A source as the cycle reads it, and what its pull returns.
pub record Source : Type 0 where
  pub name : Str
  pub paused : Bool
  pub in_backoff : Bool
  pub ok : Bool
  pub error : Str

-- What one cycle meets: the clock, the settings table ("" where a key is missing), `int()` on a text
-- (a negative number as 0), the calls that raise, and what the others return; `days_of` reads a time
-- and says how many days ago it was.
pub record Env : Type 0 where
  pub now : ℕ
  pub setting : Str → Str
  pub int_of : Str → Option ℕ
  pub raises : Call → Bool
  pub crash_text : Str
  pub connection_changed : Bool
  pub sources : List Source
  pub active_count : ℕ
  pub report : CycleReport
  pub report_started : Str
  pub report_ms : ℕ
  pub notes_text : Str
  pub last_sync : Dict Str TargetState
  pub week : ℕ
  pub last_drill : Option Str
  pub days_of : Str → Option ℕ
  pub mt_configured : Bool
  pub mt_ok : Bool
  pub mt_error : Str

pub record State : Type 0 where
  pub self : Poller
  pub log : List Call

abbrev pub M : Type 0 → Type 0
M A = State → Option A × State

unfoldable pub bound : {A B : Type 0} → (A → M B) → Option A × State → Option B × State
bound f (none, s) = (none, s)
bound f (some a, s) = f a s

infixl 5 ◌>>=◌ ◌>>◌
unfoldable pub ◌>>=◌ : {A B : Type 0} → M A → (A → M B) → M B
unfolding bound
◌>>=◌ m f s = bound f (m s)

unfoldable pub ◌>>◌ : {B : Type 0} → M (Unit {0}) → M B → M B
unfolding ◌>>=◌
m >> k = m >>= λ _. k

unfoldable pub pure : {A : Type 0} → A → M A
pure a s = (some a, s)

unfoldable pub call : Env → Call → M (Unit {0})
call env c s = (if env.raises c then none else some tt, record s { log = s.log ++ c ∷ [] })

-- The attributes, and an assignment to them.
unfoldable pub get_self : M Poller
get_self s = (some s.self, s)

unfoldable pub update : (Poller → Poller) → M (Unit {0})
update f s = (some tt, record s { self = f s.self })

unfoldable pub recovered : {A : Type 0} → M A → Option A × State → Option A × State
recovered handler (none, s) = handler s
recovered handler (some a, s) = (some a, s)

unfoldable pub raise : {A : Type 0} → M A
raise s = (none, s)

-- `try: m` with `except Exception: handler`
unfoldable pub except : {A : Type 0} → M A → M A → M A
unfolding recovered
except m handler s = recovered handler (m s)

-- … where the handler only logs.
unfoldable pub attempt : M (Unit {0}) → M (Unit {0})
unfolding except pure
attempt m = except m (pure tt)

unfoldable pub when : Bool → M (Unit {0}) → M (Unit {0})
unfolding pure
when true m = m
when false m = pure tt
