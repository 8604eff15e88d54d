-- ===== src/Disk/Edges.antt =====
-- disk_watchdog.py, `check_and_alert` over a series of readings.
use protek.Prelude.{
  ℕ, ◌+◌, ◌≡◌, refl, ◌∙◌, Bool, true, false, not, ◌&&◌, ◌||◌, List, [], ◌∷◌, ◌++◌, if◌then◌else◌,
  ltb, leb, all, arith,
}
use protek.Disk.{
  hysteresis, Fired, critical, critical_recovery, warn, warn_recovery, Alerted, Edge, quiet, rise,
  fall, edge, remember, fired, Thresholds, check_and_alert,
}

-- A probe: how much is used, and whether the database takes writes.
abbrev pub Probe : Type 0
Probe = ℕ × Bool

abbrev pub readings_run : Thresholds → List Probe → Alerted → Alerted × List Fired
readings_run t [] a = (a, [])
readings_run t ((used, writable) ∷ rs) a =
    let result = check_and_alert t used writable a in
    let later = readings_run t rs result.0 in (later.0, result.1 ++ later.1)

-- Did some reading reach the threshold, and has none after it fallen 5 points below?
abbrev pub is_high : ℕ → Probe → Bool
is_high threshold r = leb threshold r.0

abbrev pub is_low : ℕ → Probe → Bool
is_low threshold r = ltb (r.0 + hysteresis) threshold

abbrev pub held : ℕ → List Probe → Bool
held threshold [] = false
held threshold (r ∷ rs) =
    is_high threshold r && all (λ s. not (is_low threshold s)) rs || held threshold rs

-- What the last notice about the critical threshold said, and what it said before the first.
abbrev pub critical_told : Bool → List Fired → Bool
critical_told told [] = told
critical_told told (critical ∷ fs) = critical_told true fs
critical_told told (critical_recovery ∷ fs) = critical_told false fs
critical_told told (warn ∷ fs) = critical_told told fs
critical_told told (warn_recovery ∷ fs) = critical_told told fs

critical_told-append :
    (told : Bool) (es fs : List Fired)
    → critical_told told (es ++ fs) ≡ critical_told (critical_told told es) fs
critical_told-append told [] fs = refl
critical_told-append told (critical ∷ es) fs = critical_told-append true es fs
critical_told-append told (critical_recovery ∷ es) fs = critical_told-append false es fs
critical_told-append told (warn ∷ es) fs = critical_told-append told es fs
critical_told-append told (warn_recovery ∷ es) fs = critical_told-append told es fs

told-warn : (told : Bool) (e : Edge) → critical_told told (fired e warn warn_recovery) ≡ told
unfolding fired
told-warn told quiet = refl
told-warn told rise = refl
told-warn told fall = refl

-- What one check tells.
told-check_and_alert :
    (t : Thresholds) (used : ℕ) (writable told : Bool) (a : Alerted)
    → critical_told told (check_and_alert t used writable a).1 ≡ (
        if leb t.critical_pct used && not a.critical
        then true
        else if ltb (used + hysteresis) t.critical_pct && a.critical
        then false
        else told)
unfolding check_and_alert edge fired
told-check_and_alert t used writable told a =
    critical_told-append told
      (fired (edge t.critical_pct used a.critical) critical critical_recovery) _
    ∙ told-warn _ (edge t.warn_pct used a.warn)
    ∙ ground arith

flag-check_and_alert :
    (t : Thresholds) (used : ℕ) (a : Alerted)
    → ((check_and_alert t used true a).0.critical
        ≡ (leb t.critical_pct used || a.critical && not (ltb (used + hysteresis) t.critical_pct)))
      × ((check_and_alert t used true a).0.warn
          ≡ (leb t.warn_pct used || a.warn && not (ltb (used + hysteresis) t.warn_pct)))
unfolding check_and_alert edge remember
flag-check_and_alert t used a = ground arith

flags-readings_run :
    (t : Thresholds) (rs : List Probe) (a : Alerted)
    → all (λ r. r.1) rs ≡ true
    → ((readings_run t rs a).0.critical
        ≡ (a.critical && all (λ s. not (is_low t.critical_pct s)) rs || held t.critical_pct rs))
      × ((readings_run t rs a).0.warn
          ≡ (a.warn && all (λ s. not (is_low t.warn_pct s)) rs || held t.warn_pct rs))
flags-readings_run t [] a h = ground arith
flags-readings_run t ((used, true) ∷ rs) a h = ground (
  arith,
  flag-check_and_alert t used a,
  flags-readings_run t rs (check_and_alert t used true a).0,
)
flags-readings_run t ((used, false) ∷ rs) a h = ground arith

abbrev pub never_alerted : Alerted
never_alerted = record { warn = false; critical = false }

-- Where the database takes every write, the two flags implement this: an alert is on exactly
-- while some reading has reached its threshold and none after it has fallen five points below.
pub flags-held :
    (t : Thresholds) (rs : List Probe)
    → all (λ r. r.1) rs ≡ true
    → ((readings_run t rs never_alerted).0.critical ≡ held t.critical_pct rs)
      × ((readings_run t rs never_alerted).0.warn ≡ held t.warn_pct rs)
flags-held t rs h = flags-readings_run t rs never_alerted h

critical-check_and_alert :
    (t : Thresholds) (used : ℕ) (writable : Bool) (a : Alerted)
    → (check_and_alert t used writable a).0.critical ≡ (
        if leb t.critical_pct used
        then a.critical || writable
        else if ltb (used + hysteresis) t.critical_pct
        then a.critical && not writable
        else a.critical)
unfolding check_and_alert edge remember
critical-check_and_alert t used writable a = ground arith

told-readings_run :
    (t : Thresholds) (rs : List Probe) (a : Alerted) (told : Bool)
    → all (λ r. is_high t.critical_pct r || r.1) rs ≡ true
    → (a.critical && not told) ≡ false
    → ((held t.critical_pct rs || told && all (λ s. not (is_low t.critical_pct s)) rs)
        && not (critical_told told (readings_run t rs a).1))
      ≡ false
told-readings_run t [] a told h inv = ground arith
told-readings_run t ((used, writable) ∷ rs) a told h inv =
    let result = check_and_alert t used writable a in
    let told' = critical_told told result.1 in
    ground (
      arith,
      told-check_and_alert t used writable told a,
      critical-check_and_alert t used writable a,
      critical_told-append told result.1 (readings_run t rs result.0).1,
      told-readings_run t rs result.0 told',
    )

-- A full disk cannot hide itself: where the database may refuse writes at every reading that
-- reaches the critical threshold, and takes them at the others, the last notice about the
-- threshold is the alert, for as long as some reading has reached it and none after it has fallen
-- five points below.
pub full_disk-told :
    (t : Thresholds) (rs : List Probe)
    → all (λ r. is_high t.critical_pct r || r.1) rs ≡ true
    → (held t.critical_pct rs && not (critical_told false (readings_run t rs never_alerted).1))
      ≡ false
full_disk-told t rs h = ground (arith, told-readings_run t rs never_alerted false h refl)
