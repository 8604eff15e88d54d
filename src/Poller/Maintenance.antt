-- ===== src/Poller/Maintenance.antt =====
-- The maintenance of the loop: which of its calls a run of the loop makes.
use protek.Prelude.{
  ℕ, suc, ◌≡◌, refl, sym, subst, ◌∙◌, arith, Str, Bool, List, [], ◌∷◌, ◌++◌, nat_eq, select,
}
use mathlib.Core.List.{append-nil, append_assoc}
use protek.Poller.Run.{
  Poller, Env, State, Call, M, ◌>>=◌, ◌>>◌, bound, get_self, update, new_poller,
}
use protek.Poller.Rules.{
  Triple, Holds, then-Triple, except-Triple, ended, bind-Holds, then-Holds, get_self-Holds,
  call-Holds, update-Holds,
}
use protek.Poller.Upkeep.{read_mode, read_sizes, count_tick, set_mode, set_interval, set_cap}
use protek.Poller.Cycle.{reconcile_once}
use protek.Poller.{work, maintenance, before_work, tick, turn, loop}
use protek.Poller.Frame.{get_setting-Holds, get_int-Holds, before_work-Holds, work-Holds}
use protek.Poller.Due.{is_maint, due, schedule, At, At-call, At-Frame, maintenance-Triple}
use Call.{reconcile}

set_mode_ticks : (v : Str) (p : Poller) → (set_mode v p).maint_ticks ≡ p.maint_ticks
set_mode_ticks v p = ground arith

set_interval_ticks : (iv : ℕ) (p : Poller) → (set_interval iv p).maint_ticks ≡ p.maint_ticks
set_interval_ticks iv p = ground arith

set_cap_ticks : (bc : ℕ) (p : Poller) → (set_cap bc p).maint_ticks ≡ p.maint_ticks
set_cap_ticks bc p = ground arith

-- A cycle, whatever in it fails, begins with its maintenance and makes no more of these calls.
module _ (n : ℕ) (L : List Call) (env : Env) where
  abbrev Next : State → Type 0
  Next = At (suc n) (L ++ due env n)

  read_mode-Holds : Holds Next (read_mode env)
  unfolding read_mode
  read_mode-Holds =
      bind-Holds Next _ _ (get_setting-Holds Next (At-Frame _ _) env _)
        (λ v. update-Holds Next _ (λ s at. (set_mode_ticks v s.self ∙ at.0, at.1)))

  read_sizes-Holds : Holds Next (read_sizes env)
  unfolding read_sizes
  read_sizes-Holds = bind-Holds Next _ _ (get_int-Holds Next (At-Frame _ _) env _ _) (λ iv.
      then-Holds Next _ _
        (update-Holds Next _ (λ s at. (set_interval_ticks iv s.self ∙ at.0, at.1)))
        (bind-Holds Next _ _ (get_int-Holds Next (At-Frame _ _) env _ _)
          (λ bc. update-Holds Next _ (λ s at. (set_cap_ticks bc s.self ∙ at.0, at.1)))))

  work-Next : Holds Next (work env)
  unfolding reconcile_once
  work-Next = work-Holds Next (At-Frame _ _) env (
      bind-Holds Next _ _ (get_self-Holds Next) (λ p. call-Holds Next env _ (λ s at.
        let next = At-call (suc n) _ (reconcile p.dry_run p.batch_cap) s at in
        (next.0, next.1 ∙ append-nil _))))

  -- The cycle once it is counted.
  abbrev counted : ℕ → M (Unit {0})
  counted k = do
    update count_tick
    maintenance env k
    before_work env k
    read_mode env
    read_sizes env
    work env

  counted-Triple : (k : ℕ) → k ≡ n → Triple (At n L) (counted k) Next Next
  unfolding update
  counted-Triple k e =
      subst (λ j. Triple (At n L) (counted j) Next Next) (sym e)
        (then-Triple Next (At n L) (At (suc n) L) Next _ _ (λ s at. (omega (arith, at.0), at.1))
          (then-Triple Next (At (suc n) L) Next Next _ _ (maintenance-Triple n L env) (
            then-Holds Next _ _ (before_work-Holds Next (At-Frame _ _) env n) (
              then-Holds Next _ _ read_mode-Holds
                (then-Holds Next _ _ read_sizes-Holds work-Next)))))

  tick-Triple : Triple (At n L) (tick env) Next Next
  unfolding tick ◌>>=◌ bound get_self
  tick-Triple s at = counted-Triple s.self.maint_ticks at.0 s at

  turn-Triple : Triple (At n L) (turn env) Next Next
  unfolding turn
  turn-Triple =
      except-Triple Next (At n L) Next Next _ _ tick-Triple (update-Holds Next _ (λ s at. at))

maint_of : State → List Call
maint_of s = select is_maint s.log

loop-At :
    (envs : List Env) (n : ℕ) (L : List Call) (s : State)
    → At n L s
    → maint_of (loop envs s) ≡ L ++ schedule n envs
unfolding loop maint_of
loop-At [] n L s at = at.1 ∙ sym (append-nil L)
loop-At (env ∷ envs) n L s at =
    loop-At envs (suc n) (L ++ due env n) (turn env s).1
      (ended _ (turn env s) (turn-Triple n L env s at))
    ∙ append_assoc L (due env n) (schedule (suc n) envs)

abbrev pub booted : ℕ → Bool → ℕ → State
booted interval dry_run batch_cap = record {
  self = new_poller interval dry_run batch_cap;
  log = [];
}

-- Whatever fails in the cycles of the loop, the pulls and the reconciliation included, the calls of
-- its maintenance are these: the guard of the write-ahead log in every cycle; and, where the cadence
-- of the disk check can be read, the disk check in the cycles that the cadence divides, beginning
-- with the first, and the retention and the hygiene check in every 360th.
pub maintenance-loop :
    (interval : ℕ) (dry_run : Bool) (batch_cap : ℕ) (envs : List Env)
    → select is_maint (loop envs (booted interval dry_run batch_cap)).log ≡ schedule 0 envs
unfolding new_poller maint_of
maintenance-loop interval dry_run batch_cap envs =
    loop-At envs 0 [] (booted interval dry_run batch_cap) (refl, refl)
