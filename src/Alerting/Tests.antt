-- ===== src/Alerting/Tests.antt =====
-- alerting.py on short histories.
use protek.Prelude.{ℕ, ◌≡◌, refl, true, false, List, [], ◌∷◌, arith}
use protek.Alerting.{AlertState, fresh_state, silent, firing_notice, advance}
use protek.Alerting.Transitions.{
  Check, after, notices, latest, alternates, history_of_alert, quiet, all_silent, silence_forgets,
}

abbrev check_at : ℕ → Check
check_at t = record { now = t; matched = true }

-- Newest first: two matches, a gap, three matches.
abbrev history : List Check
history =
    check_at 6
    ∷ check_at 5
    ∷ record { now = 4; matched = false }
    ∷ check_at 3
    ∷ check_at 2
    ∷ check_at 1
    ∷ []

notices-history : notices 2 2 history ≡ true ∷ false ∷ true ∷ []
unfolding advance
notices-history = refl

history_of_alert_example :
    ((after 2 2 history).firing ≡ true)
    × (alternates (notices 2 2 history) ≡ true)
    × (latest (notices 2 2 history) ≡ (after 2 2 history).firing)
history_of_alert_example = history_of_alert 2 2 history (omega arith)

abbrev open_state : AlertState
open_state = record fresh_state { firing = true; consecutive = 4 }

silence_forgets_example :
    ((advance 2 2 10 false true open_state).1 ≡ silent)
    × (all_silent (quiet 3 2 2 20 (advance 2 2 10 false true open_state).0) ≡ true)
    × ((advance 2 2 10 true true open_state).1 ≡ silent)
    × ((advance 2 2 20 true false (advance 2 2 10 true true open_state).0).1 ≡ firing_notice)
silence_forgets_example = silence_forgets 3 2 2 10 20 open_state (omega arith) refl (omega arith)
