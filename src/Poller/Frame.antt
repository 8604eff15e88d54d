-- ===== src/Poller/Frame.antt =====
-- What the parts of a cycle leave alone: any property that plain calls and plain updates keep.
use protek.Prelude.{ℕ, ◌≡◌, refl, Str, Bool, true, false, List, [], ◌∷◌, ◌++◌, if◌then◌else◌}
use protek.Poller.Run.{Poller, Source, Env, State, Call, Service, M, call, update, attempt}
use protek.Poller.Rules.{
  Holds, bind-Holds, then-Holds, pure-Holds, raise-Holds, get_self-Holds, except-Holds,
  attempt-Holds, when-Holds, call-Holds, update-Holds,
}
use protek.Poller.Upkeep.{get_setting, set_setting, get_int, sync_connection, check_blocking}
use protek.Poller.Cycle.{
  record_target_state, write_totals, notify_totals, reconcile_once, reconcile_step, pull_all,
  pull_step, count_cycle, targets_of,
}
use protek.Poller.Finish.{
  stamp, record_health, mt_step, run_every, services, remind_of_drill, drill_step, later_services,
  remind_of_drill, drill_step, later_services,
}
use protek.Poller.{work, before_work, no_sources}
use Call.{wal_guard, disk_check, retention, hygiene, reconcile, service}

-- The calls of the maintenance, and the call of the reconciler, are not plain.
abbrev pub plain : Call → Bool
plain wal_guard = false
plain disk_check = false
plain retention = false
plain hygiene = false
plain (reconcile _ _) = false
plain _ = true

-- The attributes that only the maintenance and the knobs assign.
abbrev pub kept : Poller → ℕ × Bool × ℕ × ℕ
kept p = (p.maint_ticks, p.dry_run, p.batch_cap, p.interval)

pub record Frame (P : State → Type 0) : Type 0 where
  pub calls : (c : Call) (s : State) → plain c ≡ true → P s → P (record s { log = s.log ++ c ∷ [] })
  pub updates : (p : Poller) (s : State) → kept p ≡ kept s.self → P s → P (record s { self = p })

module _ (P : State → Type 0) (frame : Frame P) (env : Env) where
  pub plain-Holds : (c : Call) → plain c ≡ true → Holds P (call env c)
  plain-Holds c h = call-Holds P env c (λ s. frame.calls c s h)

  pub kept-Holds : (f : Poller → Poller) → ((p : Poller) → kept (f p) ≡ kept p) → Holds P (update f)
  kept-Holds f h = update-Holds P f (λ s. frame.updates (f s.self) s (h s.self))

  pub get_setting-Holds : (key : Str) → Holds P (get_setting env key)
  unfolding get_setting
  get_setting-Holds key = then-Holds P _ _ (plain-Holds _ refl) (pure-Holds P _)

  set_setting-Holds : (key value : Str) → Holds P (set_setting env key value)
  unfolding set_setting
  set_setting-Holds key value = plain-Holds _ refl

  pub get_int-Holds : (key : Str) (n : ℕ) → Holds P (get_int env key n)
  unfolding get_int
  get_int-Holds key n = bind-Holds P _ _ (get_setting-Holds key) (λ v. pure-Holds P _)

  write_totals-Holds : (r : _) → Holds P (write_totals env r)
  unfolding write_totals
  write_totals-Holds r = search (then-Holds, set_setting-Holds, when-Holds) depth 20

  pub before_work-Holds : (n : ℕ) → Holds P (before_work env n)
  unfolding before_work sync_connection check_blocking
  before_work-Holds n =
      then-Holds P _ _
        (bind-Holds P _ _
          (except-Holds P _ _ (then-Holds P _ _ (plain-Holds _ refl) (pure-Holds P _))
            (pure-Holds P _))
          (λ compared.
            when-Holds P _ _ (then-Holds P _ _ (plain-Holds _ refl) (kept-Holds _ (λ p. refl)))))
        (bind-Holds P _ _ (get_self-Holds P) (λ p.
          when-Holds P _ _
            (then-Holds P _ _ (kept-Holds _ (λ q. refl)) (attempt-Holds P _ (plain-Holds _ refl)))))

  record_target_state-Holds : (fresh : _) → Holds P (record_target_state env fresh)
  unfolding record_target_state
  record_target_state-Holds fresh =
      then-Holds P _ _ (plain-Holds _ refl) (attempt-Holds P _ (plain-Holds _ refl))

  notify_totals-Holds : (r : _) → Holds P (notify_totals env r)
  unfolding notify_totals
  notify_totals-Holds r = bind-Holds P _ _ (get_int-Holds _ _) (λ threshold.
      then-Holds P _ _ (when-Holds P _ _ (plain-Holds _ refl)) (
        then-Holds P _ _
          (when-Holds P _ _ (then-Holds P _ _ (plain-Holds _ refl) (plain-Holds _ refl)))
          (bind-Holds P _ _ (get_self-Holds P) (λ p.
            then-Holds P _ _ (when-Holds P _ _ (plain-Holds _ refl)) (kept-Holds _ (λ q. refl))))))

  reconcile_step-Holds : Holds P (reconcile_once env) → Holds P (reconcile_step env)
  unfolding reconcile_step
  reconcile_step-Holds h = attempt-Holds P _ (
      then-Holds P _ _ h (
        then-Holds P _ _ (write_totals-Holds env.report) (
          then-Holds P _ _ (when-Holds P _ _ (record_target_state-Holds (targets_of env)))
            (attempt-Holds P _ (notify_totals-Holds env.report)))))

  pull_all-Holds : (srcs : List Source) → Holds P (pull_all env srcs)
  unfolding pull_all
  pull_all-Holds [] = pure-Holds P tt
  pull_all-Holds (src ∷ srcs) =
      then-Holds P _ _ (attempt-Holds P _ (plain-Holds _ refl)) (pull_all-Holds srcs)

  if-Holds :
      {A : Type 0} (b : Bool) (m k : M A) → Holds P m → Holds P k → Holds P (if b then m else k)
  if-Holds true m k h l = h
  if-Holds false m k h l = l

  pull_step-Holds : Holds P (pull_step env)
  unfolding pull_step count_cycle
  pull_step-Holds = then-Holds P _ _ (pull_all-Holds _) (
      then-Holds P _ _ (if-Holds _ _ _ (raise-Holds P _) (pure-Holds P tt))
        (then-Holds P _ _ (plain-Holds _ refl) (kept-Holds _ (λ p. refl))))

  stamp-Holds : Holds P (stamp env)
  unfolding stamp
  stamp-Holds =
      then-Holds P _ _ (kept-Holds _ (λ p. refl))
        (bind-Holds P _ _ (get_self-Holds P) (λ p. search (then-Holds, set_setting-Holds) depth 20))

  mt_step-Holds : Holds P (mt_step env)
  unfolding mt_step record_health
  mt_step-Holds =
      except-Holds P _ _
        (then-Holds P _ _ (plain-Holds _ refl) (
          if-Holds _ _ _
            (then-Holds P _ _ (plain-Holds _ refl)
              (search (then-Holds, set_setting-Holds) depth 10))
            (set_setting-Holds _ _)))
        (set_setting-Holds _ _)

  run_every-Holds : (n k : ℕ) (s : Service) → Holds P (run_every env n k s)
  unfolding run_every
  run_every-Holds n k s = when-Holds P _ _ (attempt-Holds P _ (plain-Holds _ refl))

  service-Holds : (s : Service) → Holds P (attempt (call env (service s)))
  service-Holds s = attempt-Holds P _ (plain-Holds _ refl)

  services-Holds : (n : ℕ) → Holds P (services env n)
  unfolding services
  services-Holds n = search (then-Holds, run_every-Holds) depth 20

  drill_step-Holds : (n : ℕ) → Holds P (drill_step env n)
  unfolding drill_step remind_of_drill
  drill_step-Holds n = when-Holds P _ _ (
      attempt-Holds P _ (
        bind-Holds P _ _ (get_setting-Holds _) (λ enabled. when-Holds P _ _ (
          then-Holds P _ _ (plain-Holds _ refl) (
            bind-Holds P _ _ (get_setting-Holds _) (λ last_alerted. when-Holds P _ _ (
              then-Holds P _ _ (attempt-Holds P _ (plain-Holds _ refl))
                (set_setting-Holds _ _))))))))

  later_services-Holds : (n : ℕ) → Holds P (later_services env n)
  unfolding later_services
  later_services-Holds n =
      search (then-Holds, bind-Holds, run_every-Holds, get_int-Holds, when-Holds, service-Holds)
        depth 40

  pub work-Holds : Holds P (reconcile_once env) → Holds P (work env)
  unfolding work no_sources
  work-Holds h = then-Holds P _ _ (plain-Holds _ refl) (
      if-Holds _ _ _ (kept-Holds _ (λ p. refl)) (
        then-Holds P _ _ pull_step-Holds (
          then-Holds P _ _ (reconcile_step-Holds h) (
            then-Holds P _ _ stamp-Holds (
              then-Holds P _ _ mt_step-Holds (
                bind-Holds P _ _ (get_self-Holds P) (λ p.
                  then-Holds P _ _ (services-Holds _)
                    (then-Holds P _ _ (drill_step-Holds _) (later_services-Holds _)))))))))
