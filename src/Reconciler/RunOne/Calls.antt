-- ===== src/Reconciler/RunOne/Calls.antt =====
-- reconciler.py, `_run_one_bouncer`: what reaches the router.
use protek.Prelude.{
  ℕ, zero, suc, ◌≡◌, refl, any-take, ◌∙◌, ap, Str, Option, none, Bool, true, false, not, ◌&&◌, List,
  [], ◌∷◌, ◌==◌, nat_eq, str_eq, if◌then◌else◌, ltb, any, take, All, arith,
}
use protek.Prelude.Dict.{Dict}
use protek.Reconcile.Comment.{Decision}
use protek.Reconcile.{ReconcileDiff, reconcile, changes}
use protek.Reconcile.Removals.{removable, any-reconcile_to_remove}
use protek.Reconcile.Convergence.{nil-of-absent}
use protek.Reconciler.Bouncer.{Bouncer}
use protek.Reconciler.Filter.{Matching, filter_desired}
use protek.Reconciler.RunOne.{
  TargetRow, Call, note_v6_entries, apply, bouncer_is_dry, take_snapshot, apply_diff,
  run_one_bouncer,
}

-- The calls of `apply` among the calls of a run.
abbrev pub writes : List Call → List (Dict Str Str × List Str)
writes [] = []
writes (note_v6_entries b n ∷ cs) = writes cs
writes (apply adds removes ∷ cs) = (adds, removes) ∷ writes cs

-- The diff that a run computes.
abbrev pub diff_of : Matching → Bouncer → List Decision → ReconcileDiff
diff_of w b desired = reconcile (filter_desired w b desired) (take_snapshot b).current

-- A failed snapshot leaves nothing in the list to remove.
removes_nothing :
    (w : Matching) (b : Bouncer) (desired : List Decision)
    → b.snapshot ≡ none
    → (diff_of w b desired).to_remove ≡ []
unfolding take_snapshot
removes_nothing w b desired failed = nil-of-absent _ (λ x.
    any-reconcile_to_remove x (filter_desired w b desired) (take_snapshot b).current ∙ ground arith)

abbrev no_ids : List Str
no_ids = []

take-nil : (n : ℕ) → take n (no_ids) ≡ []
take-nil zero = refl
take-nil (suc n) = refl

pub All-if :
    (P : Dict Str Str × List Str → Type 0) (c : Bool) (call : Dict Str Str × List Str)
    → P call
    → All P (if c then call ∷ [] else [])
All-if P true call h = (h, tt)
All-if P false call h = tt

module _ (w : Matching) (rows : Option (Dict Str TargetRow)) (b : Bouncer) (desired : List Decision)
    (dry_run : Bool) (batch_cap : ℕ) where
  -- A run writes to the router at most once: never when the cycle or the bouncer is dry, the
  -- bouncer is not configured, or the diff is empty; and otherwise it sends the first
  -- `batch_cap` additions and, whatever their number, the first `batch_cap` removals.
  pub writes-run_one_bouncer : writes (run_one_bouncer w rows b desired dry_run batch_cap).1 ≡ (
      if not dry_run
        && not (bouncer_is_dry rows b)
        && b.configured
        && ltb 0 (changes (diff_of w b desired))
      then (
        take batch_cap (diff_of w b desired).to_add,
        take batch_cap (diff_of w b desired).to_remove,
      )
        ∷ []
      else [])
  unfolding run_one_bouncer apply_diff
  writes-run_one_bouncer = ground arith

  -- Every id that a run asks the router to remove is the id of an entry of the snapshot that
  -- carries the ownership comment, that no decision for this bouncer wants, and that is the last
  -- owned entry for its address.
  pub removes-run_one_bouncer :
      (x : Str)
      → All
          (λ call.
            (any (λ i. i == x) call.1
              && not (removable (filter_desired w b desired) x (take_snapshot b).current))
            ≡ false)
          (writes (run_one_bouncer w rows b desired dry_run batch_cap).1)
  removes-run_one_bouncer x = rw writes-run_one_bouncer (
      All-if _ _ _ (
        ground (
          arith,
          any-reconcile_to_remove x (filter_desired w b desired) (take_snapshot b).current,
          any-take (λ i. i == x) batch_cap (diff_of w b desired).to_remove,
        )))

  -- A snapshot that fails never leads to a removal, in any mode.
  pub failed_snapshot_removes_nothing :
      b.snapshot ≡ none
      → All (λ call. call.1 ≡ []) (writes (run_one_bouncer w rows b desired dry_run batch_cap).1)
  unfolding take_snapshot
  failed_snapshot_removes_nothing failed =
      rw writes-run_one_bouncer (
        All-if _ _ _
          (ap (take batch_cap) (removes_nothing w b desired failed) ∙ take-nil batch_cap))
