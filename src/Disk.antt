-- ===== src/Disk.antt =====
-- disk_watchdog.py: the disk alerts with their hysteresis, the samples, the rebaseline and the WAL
-- guard. Percentages are in hundredths; a setting that is missing or no number has its default.
pub mod Edges
pub mod Wal
mod Tests
use protek.Prelude.{
  ℕ, ◌+◌, ◌-◌, ◌*◌, ◌/◌, ◌≤◌, Option, none, some, Bool, true, false, not, ◌&&◌, List, [], ◌∷◌, ◌++◌,
  if◌then◌else◌, ltb, leb, drop, length,
}

-- `shutil.disk_usage`
pub record DiskUsage : Type 0 where
  pub used : ℕ
  pub free : ℕ
  pub total : ℕ

abbrev pub hysteresis : ℕ
hysteresis = 500

abbrev pub samples_cap : ℕ
samples_cap = 1440

-- `usage`: the part of used and free that is used; `none` is a probe that fails.
unfoldable pub usage : Option DiskUsage → ℕ
usage none = 0
usage (some du) = if ltb 0 (du.used + du.free) then du.used * 10_000 / (du.used + du.free) else 0

pub record Sample : Type 0 where
  pub used_pct : ℕ
  pub free_bytes : ℕ
  pub total_bytes : ℕ

-- `sample`: one more row, and the newest rows up to the cap; it raises where the probe does.
unfoldable pub sample : Option DiskUsage → List Sample → Option (List Sample)
sample none rows = none
sample (some du) rows =
    let longer : List Sample =
      rows
      ++ record { used_pct = usage (some du); free_bytes = du.free; total_bytes = du.total } ∷ [] in
    some (drop (length longer - samples_cap) longer)

pub data Fired : Type 0 where
  critical critical_recovery warn warn_recovery : Fired

-- The settings `disk.warn_alerted` and `disk.critical_alerted`.
pub record Alerted : Type 0 where
  pub warn : Bool
  pub critical : Bool

-- One threshold: the flag after the check, and whether it went up or down.
pub data Edge : Type 0 where
  quiet rise fall : Edge

unfoldable pub edge : ℕ → ℕ → Bool → Edge
edge threshold used alerted =
    if leb threshold used
    then if not alerted then rise else quiet
    else if ltb (used + hysteresis) threshold && alerted
    then fall
    else quiet

-- `_remember`, which may fail: the flag is then the old one.
unfoldable pub remember : Bool → Edge → Bool → Bool
remember writable quiet alerted = alerted
remember writable rise alerted = if writable then true else alerted
remember writable fall alerted = if writable then false else alerted

unfoldable pub fired : Edge → Fired → Fired → List Fired
fired quiet up down = []
fired rise up down = up ∷ []
fired fall up down = down ∷ []

pub record Thresholds : Type 0 where
  pub warn_pct : ℕ
  pub critical_pct : ℕ

-- `check_and_alert`, where `writable` says whether the database takes writes
unfoldable pub check_and_alert : Thresholds → ℕ → Bool → Alerted → Alerted × List Fired
check_and_alert t used writable a =
    let crit = edge t.critical_pct used a.critical in
    let w = edge t.warn_pct used a.warn in
    (
      record { critical = remember writable crit a.critical; warn = remember writable w a.warn },
      fired crit critical critical_recovery ++ fired w warn warn_recovery,
    )

-- What `maybe_auto_rebaseline` looks at: the two sizes, where the scan does not fail.
pub record Stage : Type 0 where
  pub exists : Bool
  pub sizes : Option (ℕ × ℕ)

pub data Rebaseline : Type 0 where
  not_allowed below_critical no_stage scan_failed other_culprit rebaselined : Rebaseline

-- `maybe_auto_rebaseline`, up to the two commands: `share > 0.5` of the directory
unfoldable pub maybe_auto_rebaseline : Bool → ℕ → ℕ → Stage → Rebaseline
maybe_auto_rebaseline enabled used critical_pct stage =
    if not enabled
    then not_allowed
    else if ltb used critical_pct
    then below_critical
    else if not stage.exists
    then no_stage
    else elim stage.sizes [
      | none ↦ scan_failed
      | some sizes ↦
          if ltb 0 sizes.1 && ltb sizes.1 (2 * sizes.0) then rebaselined else other_culprit
    ]
