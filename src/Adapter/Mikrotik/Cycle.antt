-- ===== src/Adapter/Mikrotik/Cycle.antt =====
-- The adapter as the bouncer of one cycle of the reconciler.
use protek.Prelude.{
  ℕ, ◌≡◌, refl, ap, ◌∙◌, arith, Str, Option, none, some, Bool, true, false, List, [], length,
}
use protek.Prelude.Dict.{Dict}
use protek.Reconcile.Comment.{Decision}
use protek.Reconcile.Removals.{any-reconcile_to_remove}
use protek.Reconcile.Convergence.{nil-of-absent}
use protek.Reconciler.Bouncer.{Bouncer, ApplyResult}
use protek.Reconciler.Filter.{Matching, filter_desired}
use protek.Reconciler.RunOne.{TargetRow, Snapshot, take_snapshot, run_one_bouncer}
use protek.Adapter.{Tally}
use protek.Adapter.Mikrotik.{Router, Target, get_address_list, snapshot, apply}

-- What the reconciler reads of the returned dict.
abbrev result_of : {S : Type 0} → Option (Tally × S) → Option ApplyResult
result_of none = none
result_of (some st) = some (record { errors = st.0.errors; push_log = st.0.push_log })

-- The attributes are those of `base`; the methods are the adapter's, on a router in state `s`.
unfoldable pub as_bouncer : {S : Type 0} → Router S → Target → S → Bouncer → Bouncer
as_bouncer api t s base = record base {
  configured = t.configured;
  snapshot = some (snapshot api t s);
  apply = λ to_add ids. result_of (apply api t to_add ids s);
}

abbrev read_empty : Snapshot
read_empty = record { current = []; snapshot_ok = true; failed = false }

take_snapshot-unread :
    {S : Type 0} (api : Router S) (t : Target) (s : S) (base : Bouncer)
    → t.configured ≡ true
    → get_address_list api t s ≡ none
    → take_snapshot (as_bouncer api t s base) ≡ read_empty
unfolding take_snapshot as_bouncer snapshot
take_snapshot-unread api t s base on unread = ground (arith, on, unread)

-- A list that cannot be read passes for a list that is empty: the run reports a good snapshot of
-- no entries and nothing to remove, and when the cycle is dry it ends well, with no error.
pub unread-run_one_bouncer :
    {S : Type 0} (api : Router S) (t : Target) (s : S) (base : Bouncer) (w : Matching)
    (rows : Option (Dict Str TargetRow)) (desired : List Decision) (dry_run : Bool) (batch_cap : ℕ)
    → t.configured ≡ true
    → get_address_list api t s ≡ none
    → (let r = (run_one_bouncer w rows (as_bouncer api t s base) desired dry_run batch_cap).0 in
        (r.snapshot_ok ≡ true)
        × (r.snapshot_n ≡ 0)
        × (r.to_remove_n ≡ 0)
        × (dry_run ≡ true → (r.ok ≡ true) × (r.errors ≡ 0)))
unfolding run_one_bouncer
unread-run_one_bouncer api t s base w rows desired dry_run batch_cap on unread =
    let b = as_bouncer api t s base in
    rw (take_snapshot-unread api t s base on unread) (
      refl,
      refl,
      ap length (
          nil-of-absent _
            (λ x. any-reconcile_to_remove x (filter_desired w b desired) [] ∙ ground arith)),
      λ dry. rw dry (refl, refl),
    )
