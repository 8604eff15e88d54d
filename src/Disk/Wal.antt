-- ===== src/Disk/Wal.antt =====
-- disk_watchdog.py, `check_wal_guard`: the size of the WAL against its two limits.
use protek.Prelude.{ℕ, Bool, true, false, not, ◌&&◌, List, [], ◌∷◌, ◌++◌, if◌then◌else◌, ltb}

pub data WalAction : Type 0 where
  passive_checkpoint wal_critical auto_stop : WalAction

-- The limits, whether protek may be stopped, and what works when it is tried: the commands, and
-- writing a setting.
pub record WalGuard : Type 0 where
  pub soft : ℕ
  pub hard : ℕ
  pub auto_stop : Bool
  pub can_stop : Bool
  pub can_checkpoint : Bool
  pub writable : Bool

abbrev done_if : Bool → WalAction → List WalAction
done_if c action = if c then action ∷ [] else []

-- `check_wal_guard` on the flag `disk.wal_alerted`
unfoldable pub check_wal_guard : WalGuard → ℕ → Bool → Bool × List WalAction
check_wal_guard g wal_bytes alerted =
    if ltb wal_bytes g.soft
    then (if alerted && g.writable then false else alerted, [])
    else if ltb wal_bytes g.hard
    then (alerted, done_if g.can_checkpoint passive_checkpoint)
    else (
      if not alerted && g.writable then true else alerted,
      done_if g.can_checkpoint passive_checkpoint
          ++ done_if (not alerted) wal_critical
          ++ done_if (g.auto_stop && g.can_stop) auto_stop,
    )
