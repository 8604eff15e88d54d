-- ===== src/Poller/Upkeep.antt =====
-- poller.py: the steps at the beginning of a cycle, which are the maintenance, the connection, the
-- firewall check and the knobs.
use protek.Prelude.{
  ℕ, ◌+◌, ◌%◌, Str, none, some, Bool, true, false, not, ◌&&◌, ◌||◌, ◌==◌, nat_eq, str_eq,
  if◌then◌else◌, ltb, leb,
}
use protek.Prelude.Text.{lit, is_empty}
use protek.Poller.Run.{
  Poller, Env, Call, M, ◌>>=◌, ◌>>◌, pure, call, get_self, update, except, attempt, when,
}
use Call.{
  read, write, wal_guard, disk_check, retention, hygiene, connection_sync, forget_local,
  blocking_refresh,
}

unfoldable pub get_setting : Env → Str → M Str
get_setting env key = do call env (read key); pure (env.setting key)

unfoldable pub set_setting : Env → Str → Str → M (Unit {0})
set_setting env key value = call env (write key value)

-- `int(_gs(key) or default)`, and the default where it is no number
unfoldable pub get_int : Env → Str → ℕ → M ℕ
unfolding get_setting
get_int env key default = do
  v ← get_setting env key
  pure (if is_empty v then default else elim (env.int_of v) [ none ↦ default | some n ↦ n ])

-- `n % k == 0`
abbrev pub every : ℕ → ℕ → Bool
every k n = n % k == 0

-- `self._maint_ticks += 1`
abbrev pub count_tick : Poller → Poller
count_tick p = record p { maint_ticks = p.maint_ticks + 1 }

unfoldable pub check_disk : Env → ℕ → M (Unit {0})
unfolding get_int
check_disk env tick_no = do
  attempt (call env wal_guard)
  disk_every ← get_int env (lit "disk.check_every_cycles") 6
  when (not (ltb disk_every 1 || not (every disk_every tick_no))) (attempt (call env disk_check))

unfoldable pub run_retention : Env → ℕ → M (Unit {0})
run_retention env tick_no =
    when (every 360 tick_no) (do attempt (call env retention); attempt (call env hygiene))

abbrev pub force_check : Bool → Poller → Poller
force_check b p = record p { force_blocking = b }

-- `_sync_connection`: where the file cannot be compared, nothing is started over.
unfoldable pub sync_connection : Env → M (Unit {0})
sync_connection env = do
  compared ← except (do call env connection_sync; pure true) (pure false)
  when (compared && env.connection_changed) (do call env forget_local; update (force_check true))

unfoldable pub check_blocking : Env → ℕ → M (Unit {0})
check_blocking env tick_no = do
  p ← get_self
  when (every 6 tick_no || p.force_blocking)
      (do update (force_check false); attempt (call env blocking_refresh))

-- The settings that the page of the settings writes; a text that is no number changes nothing.
abbrev pub set_mode : Str → Poller → Poller
set_mode v p = if v == lit "0" || v == lit "1" then record p { dry_run = v == lit "1" } else p

abbrev pub set_interval : ℕ → Poller → Poller
set_interval iv p = if leb 2 iv then record p { interval = iv } else p

abbrev pub set_cap : ℕ → Poller → Poller
set_cap bc p = if leb 1 bc then record p { batch_cap = bc } else p

unfoldable pub read_mode : Env → M (Unit {0})
unfolding get_setting
read_mode env = do v ← get_setting env (lit "settings.dry_run"); update (set_mode v)

unfoldable pub read_sizes : Env → M (Unit {0})
unfolding get_int
read_sizes env = do
  iv ← get_int env (lit "settings.sync_interval_sec") 0
  update (set_interval iv)
  bc ← get_int env (lit "settings.batch_cap") 0
  update (set_cap bc)
