-- ===== src/Poller/Knobs.antt =====
-- The mode and the cap that the loop hands to the reconciler.
use protek.Prelude.{
  ℕ, ◌≤◌, ◌≡◌, refl, arith, Bool, true, false, List, [], ◌∷◌, ◌++◌, All, All-append, Bool-cases,
  inl, inr,
}
use protek.Prelude.Equality.{str_beq}
use protek.Prelude.Text.{lit}
use protek.Poller.Maintenance.{booted}
use protek.Poller.Run.{
  Poller, Env, State, Call, ◌>>=◌, ◌>>◌, bound, pure, call, get_self, update, attempt, new_poller,
}
use protek.Poller.Rules.{
  Triple, Holds, then-Triple, Ends-weaken, ended, bind-Holds, then-Holds, get_self-Holds,
  except-Holds, attempt-Holds, when-Holds, Ends-call, call-Holds, update-Holds,
}
use protek.Poller.Upkeep.{
  get_setting, check_disk, run_retention, read_mode, read_sizes, set_mode, set_interval, set_cap,
}
use protek.Poller.Cycle.{bit, reconcile_once}
use protek.Poller.{work, maintenance, tick, turn, loop}
use protek.Poller.Frame.{Frame, plain, get_int-Holds, before_work-Holds, work-Holds}
use Call.{read, reconcile, wal_guard, disk_check, retention, hygiene}

-- A call of the reconciler is in this mode, and allows at least one operation.
abbrev pub Obeys : Bool → Call → Type 0
Obeys d (reconcile dry_run batch_cap) = (dry_run ≡ d) × (1 ≤ batch_cap)
Obeys d _ = Unit

Obeys-plain : (d : Bool) (c : Call) → plain c ≡ true → Obeys d c
Obeys-plain d (reconcile _ _) h = absurd (ground arith)
Obeys-plain d _ h = tt

-- The log so far obeys, and the cap is positive; and the mode is set.
record Good (d : Bool) (s : State) : Type 0 where
  obeyed : All (Obeys d) s.log
  capped : 1 ≤ s.self.batch_cap

record Set (d : Bool) (s : State) : Type 0 where
  good : Good d s
  mode : s.self.dry_run ≡ d

set_mode-eq : (d : Bool) (p : Poller) → set_mode (bit d) p ≡ record p { dry_run = d }
unfolding str_beq
set_mode-eq true p = refl
set_mode-eq false p = refl

module _ (d : Bool) where
  logged-All :
      (c : Call) (s : State) → Obeys d c → All (Obeys d) s.log → All (Obeys d) (s.log ++ c ∷ [])
  logged-All c s o h = All-append (Obeys d) s.log (c ∷ []) h (o, tt)

  Good-Frame : Frame (Good d)
  Good-Frame = record {
    calls = λ c s h g. record {
      obeyed = logged-All c s (Obeys-plain d c h) g.obeyed;
      capped = g.capped;
    };
    updates = λ p s h g. record { obeyed = g.obeyed; capped = ground arith };
  }

  Set-Frame : Frame (Set d)
  Set-Frame = record {
    calls = λ c s h g. record { good = Good-Frame.calls c s h g.good; mode = g.mode };
    updates = λ p s h g. record { good = Good-Frame.updates p s h g.good; mode = ground arith };
  }

  set_mode-Set :
      (p : Poller) (log : List Call)
      → Good d (record { self = p; log = log })
      → Set d (record { self = set_mode (bit d) p; log = log })
  set_mode-Set p log g =
      rw (set_mode-eq d p)
        (record { good = record { obeyed = g.obeyed; capped = g.capped }; mode = refl })

  set_interval-Set :
      (iv : ℕ) (s : State) → Set d s → Set d (record s { self = set_interval iv s.self })
  set_interval-Set iv s g = record {
    good = record { obeyed = g.good.obeyed; capped = ground arith };
    mode = ground arith;
  }

  set_cap-Set : (bc : ℕ) (s : State) → Set d s → Set d (record s { self = set_cap bc s.self })
  set_cap-Set bc s g = record {
    good = record { obeyed = g.good.obeyed; capped = ground arith };
    mode = ground arith;
  }

  module _ (env : Env) where
    free-call : (c : Call) → Obeys d c → Holds (Good d) (attempt (call env c))
    free-call c o = attempt-Holds (Good d) _ (
        call-Holds (Good d) env c
          (λ s g. record { obeyed = logged-All c s o g.obeyed; capped = g.capped }))

    maintenance-Good : (n : ℕ) → Holds (Good d) (maintenance env n)
    unfolding maintenance check_disk run_retention
    maintenance-Good n =
        then-Holds (Good d) _ _
          (then-Holds (Good d) _ _ (free-call wal_guard tt) (
            bind-Holds (Good d) _ _ (get_int-Holds (Good d) Good-Frame env _ _)
              (λ k. when-Holds (Good d) _ _ (free-call disk_check tt))))
          (when-Holds (Good d) _ _
            (then-Holds (Good d) _ _ (free-call retention tt) (free-call hygiene tt)))

    read_mode-Set :
        env.setting (lit "settings.dry_run") ≡ bit d
        → Triple (Good d) (read_mode env) (Set d) (Good d)
    unfolding read_mode get_setting ◌>>=◌ ◌>>◌ bound call pure update
    read_mode-Set e s g =
        let c : Call = read (lit "settings.dry_run") in
        let g' = Good-Frame.calls c s refl g in
        elim (Bool-cases (env.raises c)) [
          | inl bad ↦ rw bad g'
          | inr fine ↦ rw fine (rw e (set_mode-Set s.self _ g'))
        ]

    read_sizes-Set : Holds (Set d) (read_sizes env)
    unfolding read_sizes
    read_sizes-Set = bind-Holds (Set d) _ _ (get_int-Holds (Set d) Set-Frame env _ _) (λ iv.
        then-Holds (Set d) _ _ (update-Holds (Set d) _ (λ s g. set_interval-Set iv s g)) (
          bind-Holds (Set d) _ _ (get_int-Holds (Set d) Set-Frame env _ _)
            (λ bc. update-Holds (Set d) _ (λ s g. set_cap-Set bc s g))))

    reconcile_once-Set : Holds (Set d) (reconcile_once env)
    unfolding reconcile_once ◌>>=◌ bound get_self
    reconcile_once-Set s g = Ends-call (Set d) env _ s (record {
      good = record {
        obeyed =
            logged-All (reconcile s.self.dry_run s.self.batch_cap) s (g.mode, g.good.capped)
              g.good.obeyed;
        capped = g.good.capped;
      };
      mode = g.mode;
    })

    work-Set : Triple (Set d) (work env) (Good d) (Good d)
    work-Set s g =
        Ends-weaken (Set d) (Set d) (Good d) (Good d) _ (λ _ h. h.good) (λ _ h. h.good)
          (work-Holds (Set d) Set-Frame env reconcile_once-Set s g)

    -- A cycle that reads the mode `d`.
    tick-Good : env.setting (lit "settings.dry_run") ≡ bit d → Holds (Good d) (tick env)
    unfolding tick
    tick-Good e = bind-Holds (Good d) _ _ (get_self-Holds (Good d)) (λ p.
        then-Holds (Good d) _ _
          (update-Holds (Good d) _ (λ s g. record { obeyed = g.obeyed; capped = g.capped }))
          (then-Holds (Good d) _ _ (maintenance-Good _) (
            then-Holds (Good d) _ _ (before_work-Holds (Good d) Good-Frame env _) (
              then-Triple (Good d) (Good d) (Set d) (Good d) _ _ (read_mode-Set e) (
                then-Triple (Good d) (Set d) (Set d) (Good d) _ _
                  (λ s g.
                    Ends-weaken (Set d) (Set d) (Set d) (Good d) _ (λ _ h. h) (λ _ h. h.good)
                      (read_sizes-Set s g))
                  work-Set)))))

    turn-Good : env.setting (lit "settings.dry_run") ≡ bit d → Holds (Good d) (turn env)
    unfolding turn
    turn-Good e =
        except-Holds (Good d) _ _ (tick-Good e)
          (update-Holds (Good d) _ (λ s g. record { obeyed = g.obeyed; capped = g.capped }))

  -- The setting holds the mode in every cycle.
  abbrev pub Switched : List Env → Type 0
  Switched = All (λ env. env.setting (lit "settings.dry_run") ≡ bit d)

  loop-Good : (envs : List Env) (s : State) → Switched envs → Good d s → Good d (loop envs s)
  unfolding loop
  loop-Good [] s h g = g
  loop-Good (env ∷ envs) s h g =
      loop-Good envs (turn env s).1 h.1 (ended (Good d) (turn env s) (turn-Good env h.0 s g))

-- While the setting of the mode says dry or live, every call of the reconciler is in that mode,
-- whatever the mode at the start was and whatever fails; and it allows at least one operation,
-- whatever the setting of the cap says.
pub Obeys-loop :
    (d initial : Bool) (interval batch_cap : ℕ) (envs : List Env)
    → Switched d envs
    → All (Obeys d) (loop envs (booted interval initial batch_cap)).log
unfolding new_poller
Obeys-loop d initial interval batch_cap envs h =
    (loop-Good d envs (booted interval initial batch_cap) h
      (record { obeyed = tt; capped = omega arith })).obeyed
