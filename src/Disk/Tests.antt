-- ===== src/Disk/Tests.antt =====
-- disk_watchdog.py on a disk that fills up and is cleared.
use protek.Prelude.{◌≡◌, refl, true, false, not, ◌&&◌, List, [], ◌∷◌}
use protek.Disk.{
  Thresholds, critical, critical_recovery, warn, check_and_alert, edge, fired, remember,
}
use protek.Disk.Edges.{
  Probe, readings_run, held, critical_told, never_alerted, flags-held, full_disk-told,
}

abbrev thresholds : Thresholds
thresholds = record { warn_pct = 7_000; critical_pct = 9_000 }

abbrev healthy : List Probe
healthy = (7_100, true) ∷ (9_100, true) ∷ (8_700, true) ∷ (8_000, true) ∷ []

-- The database refuses the write at the full disk.
abbrev refusing : List Probe
refusing = (9_900, false) ∷ (8_800, true) ∷ []

notices-healthy :
    (readings_run thresholds healthy never_alerted).1 ≡ warn ∷ critical ∷ critical_recovery ∷ []
unfolding check_and_alert edge fired remember
notices-healthy = refl

flags-held_example :
    ((readings_run thresholds healthy never_alerted).0.critical ≡ held 9_000 healthy)
    × ((readings_run thresholds healthy never_alerted).0.warn ≡ held 7_000 healthy)
flags-held_example = flags-held thresholds healthy refl

full_disk-told_example :
    (held 9_000 refusing
      && not (critical_told false (readings_run thresholds refusing never_alerted).1))
    ≡ false
full_disk-told_example = full_disk-told thresholds refusing refl
