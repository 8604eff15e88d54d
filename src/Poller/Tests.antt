-- ===== src/Poller/Tests.antt =====
-- Two cycles of the loop: in the first the pull raises, in the second all goes well.
use protek.Prelude.{
  ◌≡◌, refl, some, Bool, true, false, List, [], ◌∷◌, ◌==◌, str_eq, if◌then◌else◌, select, All,
}
use protek.Prelude.Equality.{str_beq}
use protek.Prelude.Decimal.{show_nat, read_nat}
use protek.Prelude.Text.{lit}
use protek.Reconciler.RunOnce.{CycleReport}
use protek.Poller.Run.{
  Env, Call, new_poller, bound, recovered, ◌>>=◌, ◌>>◌, call, get_self, update, except, attempt,
  when, pure, raise,
}
use protek.Poller.{loop}
use protek.Poller.Due.{is_maint, schedule}
use protek.Poller.Maintenance.{booted, maintenance-loop}
use protek.Poller.Knobs.{Obeys, Obeys-loop}
use Call.{pull, reconcile, wal_guard, disk_check, retention, hygiene}

abbrev is_pull : Call → Bool
is_pull (pull _) = true
is_pull _ = false

abbrev totals : CycleReport
totals = record {
  sync_event_id = 1;
  snapshot_ms = 2;
  diff_ms = 1;
  apply_ms = 3;
  to_add = 60;
  to_remove = 0;
  unchanged = 4;
  foreign_kept = 0;
  dry_run = true;
  errors = 1;
  notes = [];
  bouncer_count = 1;
  mt_list_count = 4;
  mt_count_valid = true;
  targets = (lit "mikrotik", 4) ∷ [];
}

abbrev env : (Call → Bool) → Env
env raises = record {
  now = 100;
  setting = λ key.
      if key == lit "settings.dry_run"
      then lit "1"
      else if key == lit "settings.batch_cap"
      then lit "0"
      else [];
  int_of = read_nat;
  raises = raises;
  crash_text = lit "database or disk is full";
  connection_changed = false;
  sources =
      record { name = lit "local"; paused = false; in_backoff = false; ok = true; error = [] } ∷ [];
  active_count = 4;
  report = totals;
  report_started = lit "t";
  report_ms = 6;
  notes_text = [];
  last_sync = [];
  week = 50;
  last_drill = some (lit "9");
  days_of = read_nat;
  mt_configured = true;
  mt_ok = true;
  mt_error = [];
}

abbrev two_cycles : List Env
two_cycles = env is_pull ∷ env (λ c. false) ∷ []

maintenance-loop_example :
    select is_maint (loop two_cycles (booted 10 false 200)).log ≡ schedule 0 two_cycles
maintenance-loop_example = maintenance-loop 10 false 200 two_cycles

schedule-two_cycles :
    schedule 0 two_cycles ≡ wal_guard ∷ disk_check ∷ retention ∷ hygiene ∷ wal_guard ∷ []
unfolding str_beq
schedule-two_cycles = refl

abbrev is_reconcile : Call → Bool
is_reconcile (reconcile _ _) = true
is_reconcile _ = false

-- The first cycle reconciles nothing, and the second does so with the cap of the start.
reconciles-two_cycles :
    select is_reconcile (loop two_cycles (booted 10 false 200)).log ≡ reconcile true 200 ∷ []
unfolding loop bound recovered ◌>>=◌ ◌>>◌ call get_self update except attempt when pure raise
    new_poller str_beq show_nat read_nat
reconciles-two_cycles = refl

Obeys-loop_example : All (Obeys true) (loop two_cycles (booted 10 false 200)).log
unfolding str_beq
Obeys-loop_example = Obeys-loop true false 10 200 two_cycles (refl, (refl, tt))
