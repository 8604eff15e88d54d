-- ===== src/Reconciler/RunOnce/Sums.antt =====
-- reconciler.py, `run_once`: what a cycle reports and records, and the degraded markers.
use protek.Prelude.{
  ℕ, suc, ◌+◌, ◌≡◌, ◌↔◌, refl, Option, none, some, Bool, List, [], ◌∷◌, ◌++◌, nat_eq, str_eq,
  length, length-append, arith,
}
use protek.Reconcile.Comment.{Decision}
use protek.Reconciler.Bouncer.{Bouncer}
use protek.Reconciler.Filter.{Matching}
use protek.Reconciler.RunOne.{RunResult}
use protek.Reconciler.RunOnce.{
  SyncEvent, Store, CycleTotals, no_totals, fold_result, run_all, fold_results, CycleReport,
  returned, unbound_target_state, gather, persist, report, run_once,
}

abbrev pub sum_of : (RunResult → ℕ) → List (Bouncer × Option RunResult) → ℕ
sum_of f [] = 0
sum_of f ((b, none) ∷ rs) = sum_of f rs
sum_of f ((b, some r) ∷ rs) = f r + sum_of f rs

-- The runs that raised.
abbrev pub raised : List (Bouncer × Option RunResult) → ℕ
raised [] = 0
raised ((b, none) ∷ rs) = suc (raised rs)
raised ((b, some r) ∷ rs) = raised rs

record Sums (t u : CycleTotals) (rs : List (Bouncer × Option RunResult)) : Type 0 where
  add : u.total_add ≡ t.total_add + sum_of (λ r. r.to_add_n) rs
  remove : u.total_remove ≡ t.total_remove + sum_of (λ r. r.to_remove_n) rs
  unchanged : u.unchanged ≡ t.unchanged + sum_of (λ r. r.unchanged_n) rs
  errors : u.error_count ≡ t.error_count + sum_of (λ r. r.errors) rs + raised rs

fold_results-Sums :
    (slow_ms : ℕ) (rs : List (Bouncer × Option RunResult)) (t : CycleTotals)
    → Sums t (fold_results slow_ms rs t) rs
unfolding fold_results fold_result
fold_results-Sums slow_ms [] t = omega arith
fold_results-Sums slow_ms ((b, none) ∷ rs) t =
    let ih = fold_results-Sums slow_ms rs (fold_result slow_ms b none t) in omega arith
fold_results-Sums slow_ms ((b, some r) ∷ rs) t =
    let ih = fold_results-Sums slow_ms rs (fold_result slow_ms b (some r) t) in omega arith

-- The last row of sync_events that a cycle leaves.
abbrev pub last_event : List SyncEvent → Option SyncEvent
last_event [] = none
last_event (e ∷ es) = elim (last_event es) [ none ↦ some e | some x ↦ some x ]

last_event-append : (es : List SyncEvent) (e : SyncEvent) → last_event (es ++ e ∷ []) ≡ some e
last_event-append [] e = refl
last_event-append (x ∷ es) e = ground (arith, last_event-append es e)

module _ (w : Matching) (slow_ms : ℕ) (desired : List Decision) (dry_run : Bool) (batch_cap : ℕ)
    (s : Store) where
  -- With at least one target a cycle returns its report, whatever the targets do: a failed
  -- snapshot, a failed apply or an exception in one of them stops no other. The report's
  -- additions, removals and errors are the sums over the targets, an exception counting as one
  -- error, and the one row that the cycle adds to sync_events has the same numbers and the id
  -- that the report names.
  pub run_once-accounts :
      (b : Bouncer) (bs : List Bouncer)
      → let rs = run_all w s.targets desired dry_run batch_cap (b ∷ bs) in
        let after = (run_once w slow_ms desired (b ∷ bs) dry_run batch_cap s).1 in
        (rep : CycleReport) × (e : SyncEvent) × ((run_once w slow_ms desired
            (b ∷ bs)
            dry_run
            batch_cap
            s).0
          ≡ returned rep)
        × (last_event after.sync_events ≡ some e)
        × (length after.sync_events ≡ length s.sync_events + 1)
        × (rep.to_add ≡ sum_of (λ r. r.to_add_n) rs)
        × (rep.to_remove ≡ sum_of (λ r. r.to_remove_n) rs)
        × (rep.errors ≡ sum_of (λ r. r.errors) rs + raised rs)
        × (e.added ≡ rep.to_add)
        × (e.removed ≡ rep.to_remove)
        × (e.errors ≡ rep.errors)
        × (e.id ≡ rep.sync_event_id)
  unfolding run_once gather persist report
  run_once-accounts b bs =
      let rs = run_all w s.targets desired dry_run batch_cap (b ∷ bs) in
      let sums = fold_results-Sums slow_ms rs (no_totals s.targets) in
      (
        _,
        _,
        refl,
        last_event-append s.sync_events _,
        omega (arith, length-append s.sync_events _),
        omega (arith, sums.add),
        omega (arith, sums.remove),
        omega (arith, sums.errors),
        refl,
        refl,
        refl,
        refl,
      )

  -- A cycle ends with UnboundLocalError on `target_state` exactly if there is no target, and it
  -- has then already added its row to sync_events.
  pub run_once-no_bouncers :
      (bs : List Bouncer)
      → (((run_once w slow_ms desired bs dry_run batch_cap s).0 ≡ unbound_target_state) ↔ (bs ≡ []))
        × (length (run_once w slow_ms desired bs dry_run batch_cap s).1.sync_events
            ≡ length s.sync_events + 1)
  unfolding run_once gather report persist
  run_once-no_bouncers [] =
      (((λ _. refl), (λ _. refl)), omega (arith, length-append s.sync_events _))
  run_once-no_bouncers (b ∷ bs) =
      (((λ e. cc), (λ e. cc)), omega (arith, length-append s.sync_events _))
