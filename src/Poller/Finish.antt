-- ===== src/Poller/Finish.antt =====
-- poller.py: the end of a cycle, which stamps it, looks at the router, runs the services and
-- reminds of an overdue drill.
use protek.Prelude.{
  ℕ, none, some, not, ◌==◌, ◌&&◌, [], nat_eq, str_eq, if◌then◌else◌, leb, length, take,
}
use protek.Prelude.Text.{lit, is_empty, or_text, or_default}
use protek.Prelude.Decimal.{show_nat}
use protek.Poller.Run.{
  Env, Call, Service, M, ◌>>=◌, ◌>>◌, call, get_self, update, except, attempt, when,
}
use Call.{mt_client, mt_health, drill_query, notify, service}
use Service.{
  alerting, mirror_alerts, digest, asn_detector, bulk_intel, honeypot, backup, synthetic, peers,
  slo, wal_checkpoint, journal_scan, replica_probe, auto_rebaseline,
}
use protek.Poller.Upkeep.{set_setting, get_setting, get_int, every}
use protek.Poller.Cycle.{bit}

-- The settings that `/health` reads.
unfoldable pub stamp : Env → M (Unit {0})
unfolding set_setting
stamp env = do
  update (λ p. record p { last_cycle_at = some env.now })
  p ← get_self
  set_setting env (lit "poller.last_at") (show_nat env.now)
  set_setting env (lit "poller.last_ok") (bit p.last_cycle_ok)
  set_setting env (lit "poller.last_error") p.last_error
  set_setting env (lit "poller.cycles") (show_nat p.cycles)
  set_setting env (lit "poller.active_total") (show_nat p.last_active_count)
  set_setting env (lit "poller.interval") (show_nat p.interval)
  set_setting env (lit "poller.source_count") (show_nat (length env.sources))

unfoldable pub record_health : Env → M (Unit {0})
unfolding set_setting
record_health env = do
  call env mt_health
  set_setting env (lit "mt.last_status") (if env.mt_ok then lit "up" else lit "down")
  set_setting env (lit "mt.last_check_at") (show_nat env.now)
  set_setting env (lit "mt.last_error") (if env.mt_ok then [] else take 300 env.mt_error)

unfoldable pub mt_step : Env → M (Unit {0})
unfolding record_health set_setting
mt_step env =
    except
      (do
        call env mt_client
        if env.mt_configured
            then record_health env
            else set_setting env (lit "mt.last_status") (lit "off"))
      (set_setting env (lit "mt.last_status") (lit "unknown"))

-- A service in a `try` of its own, every `k` cycles.
unfoldable pub run_every : Env → ℕ → ℕ → Service → M (Unit {0})
run_every env n k s = when (every k n) (attempt (call env (service s)))

unfoldable pub services : Env → ℕ → M (Unit {0})
unfolding run_every
services env n = do
  run_every env n 1 alerting
  run_every env n 6 mirror_alerts
  run_every env n 1 digest
  run_every env n 6 asn_detector
  run_every env n 1 bulk_intel
  run_every env n 12 honeypot
  run_every env n 360 backup
  run_every env n 2160 synthetic
  run_every env n 6 peers

-- The days since the last completed drill: 999 where there is none or its time cannot be read.
abbrev pub days_since : Env → ℕ
days_since env =
    let iso = or_default env.last_drill [] in
    if is_empty iso then 999 else elim (env.days_of iso) [ none ↦ 999 | some d ↦ d ]

-- The reminder of an overdue drill, once for each drill that has gone stale.
unfoldable pub remind_of_drill : Env → M (Unit {0})
unfolding get_setting set_setting
remind_of_drill env = do
  enabled ← get_setting env (lit "dr_drill.reminder_enabled")
  when (or_text enabled (lit "0") == lit "1") (do
    call env drill_query
    last_alerted ← get_setting env (lit "dr_drill.last_reminder_at")
    when (leb 90 (days_since env) && not (last_alerted == or_default env.last_drill [])) (do
      attempt (call env (notify (lit "sync_error")))
      set_setting env (lit "dr_drill.last_reminder_at") (or_default env.last_drill (lit "fired"))))

unfoldable pub drill_step : Env → ℕ → M (Unit {0})
unfolding remind_of_drill
drill_step env n = when (every 360 n) (attempt (remind_of_drill env))

unfoldable pub later_services : Env → ℕ → M (Unit {0})
unfolding run_every get_int
later_services env n = do
  run_every env n 12 slo
  run_every env n 6 wal_checkpoint
  run_every env n 30 journal_scan
  probe_every ← get_int env (lit "litestream.probe_every_cycles") 30
  when (leb 1 probe_every && every probe_every n) (attempt (call env (service replica_probe)))
  run_every env n 360 auto_rebaseline
