-- ===== src/Poller/Cycle.antt =====
-- poller.py: the pulls and the reconciliation of a cycle. The texts of notifications are not
-- modelled.
use protek.Prelude.{
  ℕ, ◌+◌, ◌-◌, Str, Bool, not, ◌&&◌, ◌||◌, List, [], ◌∷◌, ◌==◌, nat_eq, str_eq, if◌then◌else◌, ltb,
  leb, any, select, map, length,
}
use protek.Prelude.Dict.{Dict, insert}
use protek.Prelude.Text.{lit}
use protek.Prelude.Decimal.{show_nat}
use protek.Reconciler.RunOnce.{CycleReport}
use protek.Poller.Run.{
  Poller, Source, Env, Call, TargetState, M, ◌>>=◌, ◌>>◌, pure, call, get_self, update, attempt,
  when, raise,
}
use Call.{read, write_targets, count_active, pull, reconcile, notify, ship}
use protek.Poller.Upkeep.{set_setting, get_int}

-- `_record_target_state`: the fresh figures over the old ones, less those of over a week ago.
abbrev pub is_recent : ℕ → Str × TargetState → Bool
is_recent cutoff entry = leb cutoff entry.1.synced_at

unfoldable pub merge_targets : Dict Str TargetState → Dict Str TargetState → Dict Str TargetState
merge_targets [] state = state
merge_targets ((name, t) ∷ fresh) state = merge_targets fresh (insert name t state)

unfoldable pub record_target_state : Env → Dict Str TargetState → M (Unit {0})
unfolding merge_targets
record_target_state env fresh = do
  call env (read (lit "targets.last_sync"))
  attempt (
      call env (
        write_targets
          (select (is_recent (env.now - env.week)) (merge_targets fresh env.last_sync))))

abbrev pub targets_of : Env → Dict Str TargetState
targets_of env =
    map (λ (e : Str × ℕ). (e.0, record { size = e.1; synced_at = env.now })) env.report.targets

abbrev pub bit : Bool → Str
bit b = if b then lit "1" else lit "0"

-- The totals of the reconciliation in the settings.
unfoldable pub write_totals : Env → CycleReport → M (Unit {0})
unfolding set_setting
write_totals env r = do
  set_setting env (lit "reconcile.last_at") env.report_started
  set_setting env (lit "reconcile.last_duration_ms") (show_nat env.report_ms)
  set_setting env (lit "reconcile.last_to_add") (show_nat r.to_add)
  set_setting env (lit "reconcile.last_to_remove") (show_nat r.to_remove)
  set_setting env (lit "reconcile.last_unchanged") (show_nat r.unchanged)
  set_setting env (lit "reconcile.last_errors") (show_nat r.errors)
  set_setting env (lit "reconcile.last_dry_run") (bit r.dry_run)
  set_setting env (lit "reconcile.last_notes") env.notes_text
  when r.mt_count_valid (do
    set_setting env (lit "mt.last_list_count") (show_nat r.mt_list_count)
    set_setting env (lit "mt.last_list_count_at") (show_nat env.now))

abbrev pub remember_active : Poller → Poller
remember_active p = record p { prev_active = p.last_active_count }

-- What the totals of the reconciliation make known.
unfoldable pub notify_totals : Env → CycleReport → M (Unit {0})
unfolding get_int
notify_totals env r = do
  threshold ← get_int env (lit "notify.threshold.sync_threshold") 50
  when (leb threshold r.to_add) (call env (notify (lit "sync_threshold")))
  when (ltb 0 r.errors)
      (do call env (notify (lit "sync_error")); call env (ship (lit "sync.error")))
  p ← get_self
  when (ltb p.prev_active p.last_active_count && ltb 0 p.prev_active)
      (call env (notify (lit "new_ban")))
  update remember_active

unfoldable pub reconcile_once : Env → M (Unit {0})
reconcile_once env = do p ← get_self; call env (reconcile p.dry_run p.batch_cap)

-- The reconciliation of a cycle, whatever of it fails.
unfoldable pub reconcile_step : Env → M (Unit {0})
unfolding reconcile_once write_totals record_target_state notify_totals
reconcile_step env = attempt (do
  reconcile_once env
  write_totals env env.report
  when (not (length env.report.targets == 0)) (record_target_state env (targets_of env))
  attempt (notify_totals env env.report))

-- The pulls run side by side; one that raises lets the others end.
unfoldable pub pull_all : Env → List Source → M (Unit {0})
pull_all env [] = pure tt
pull_all env (src ∷ sources) = attempt (call env (pull src.name)) >> pull_all env sources

abbrev pub is_active : Source → Bool
is_active src = not src.paused && not src.in_backoff

-- The error of the last result.
unfoldable pub last_result_error : Str → List Source → Str
last_result_error e [] = e
last_result_error e (src ∷ sources) = last_result_error src.error sources

unfoldable pub count_cycle : Env → List Source → Poller → Poller
unfolding last_result_error
count_cycle env active p =
    let any_ok = any (λ (src : Source). src.ok) active in
    record p {
      last_active_count = env.active_count;
      last_cycle_ok = any_ok || not (any (λ (src : Source). not src.paused) env.sources);
      last_error = if any_ok then [] else last_result_error (lit "no sources active") active;
      cycles = p.cycles + 1;
    }

-- The pulls of a cycle and their aggregate; `list(ex.map(…))` raises where a pull does.
unfoldable pub pull_step : Env → M (Unit {0})
unfolding pull_all count_cycle
pull_step env = do
  let active = select is_active env.sources
  pull_all env active
  if any (λ src. env.raises (pull src.name)) active then raise else pure tt
  call env count_active
  update (count_cycle env active)
