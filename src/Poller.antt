-- ===== src/Poller.antt =====
-- poller.py, the loop of the poller: `tick` and `_loop`. A cycle ends early where a call raises that
-- nothing catches.
pub mod Run
pub mod Upkeep
pub mod Cycle
pub mod Finish
pub mod Rules
pub mod Frame
pub mod Due
pub mod Maintenance
pub mod Knobs
mod Tests
use protek.Prelude.{ℕ, some, false, List, [], ◌∷◌, ◌==◌, nat_eq, str_eq, if◌then◌else◌, length}
use protek.Prelude.Text.{lit}
use Run.{Poller, Env, State, Call, Service, M, ◌>>=◌, ◌>>◌, call, get_self, update, except}
use Call.{list_sources}
use Upkeep.{
  check_disk, run_retention, sync_connection, check_blocking, read_mode, read_sizes, count_tick,
}
use Cycle.{pull_step, reconcile_step}
use Finish.{stamp, mt_step, services, drill_step, later_services}

unfoldable pub no_sources : ℕ → Poller → Poller
no_sources now p = record p {
  last_cycle_ok = false;
  last_error = lit "no sources configured";
  last_cycle_at = some now;
}

-- The cycle after the maintenance and the knobs.
unfoldable pub work : Env → M (Unit {0})
unfolding no_sources pull_step reconcile_step stamp mt_step services drill_step later_services
work env = do
  call env list_sources
  if length env.sources == 0 then update (no_sources env.now) else do
    pull_step env
    reconcile_step env
    stamp env
    mt_step env
    p ← get_self
    services env p.cycles
    drill_step env p.cycles
    later_services env p.cycles

unfoldable pub maintenance : Env → ℕ → M (Unit {0})
unfolding check_disk run_retention
maintenance env tick_no = check_disk env tick_no >> run_retention env tick_no

unfoldable pub before_work : Env → ℕ → M (Unit {0})
unfolding sync_connection check_blocking
before_work env tick_no = sync_connection env >> check_blocking env tick_no

unfoldable pub tick : Env → M (Unit {0})
unfolding maintenance before_work read_mode read_sizes work
tick env = do
  p ← get_self
  update count_tick
  maintenance env p.maint_ticks
  before_work env p.maint_ticks
  read_mode env
  read_sizes env
  work env

-- One turn of `_loop`: a cycle that raises is noted.
unfoldable pub turn : Env → M (Unit {0})
unfolding tick
turn env =
    except (tick env)
      (update (λ p. record p { last_cycle_ok = false; last_error = env.crash_text }))

unfoldable pub loop : List Env → State → State
unfolding turn
loop [] s = s
loop (env ∷ envs) s = loop envs (turn env s).1
