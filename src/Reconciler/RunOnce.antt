-- ===== src/Reconciler/RunOnce.antt =====
-- reconciler.py, `run_once`: one cycle over all bouncers, and what it leaves in the database.
pub mod Sums
use protek.Prelude.{
  ℕ, suc, ◌+◌, ◌*◌, Str, Option, none, some, Bool, true, false, not, ◌||◌, ◌&&◌, List, [], ◌∷◌,
  ◌++◌, ◌==◌, nat_eq, str_eq, if◌then◌else◌, ltb, any, map, length,
}
use protek.Prelude.Dict.{Dict, lookup, contains, insert}
use protek.Prelude.Text.{lit, starts_with}
use protek.Reconcile.Comment.{Decision}
use protek.Reconcile.{ReconcileDiff, reconcile}
use protek.Reconciler.Bouncer.{Bouncer, Push}
use protek.Reconciler.Filter.{Matching}
use protek.Reconciler.RunOne.{
  TargetRow, LastError, Note, Call, RunResult, run_one_bouncer, apply_failed,
  no_bouncers_configured,
}

pub record SyncEvent : Type 0 where
  pub id : ℕ
  pub added : ℕ
  pub removed : ℕ
  pub unchanged : ℕ
  pub errors : ℕ
  pub dry_run : Bool
  pub notes : List Note

-- A row of mt_pushes: a sampled note of a dry run, or a pushed entry with its bouncer's name.
pub data PushRow : Type 0 where
  dry_note : (sync_id : ℕ) → (bouncer kind : Str) → PushRow
  pushed : (sync_id : ℕ) → (bouncer : Str) → Push → PushRow

pub record Store : Type 0 where
  pub targets : Dict Str TargetRow
  pub sync_events : List SyncEvent
  pub mt_pushes : List PushRow
  pub next_sync_id : ℕ

-- `UPDATE bouncer_targets SET last_error = … WHERE name = ?`
unfoldable pub mark_bouncer_degraded : Str → ℕ → Dict Str TargetRow → Dict Str TargetRow
mark_bouncer_degraded name ms [] = []
mark_bouncer_degraded name ms ((n, row) ∷ rows) =
    (n, if n == name then record row { last_error = LastError.degraded ms } else row)
    ∷ mark_bouncer_degraded name ms rows

is_degraded : LastError → Bool
is_degraded (LastError.degraded _) = true
is_degraded _ = false

-- `… SET last_error = '' WHERE name = ? AND last_error LIKE 'degraded:%'`
unfoldable pub clear_bouncer_degraded : Str → Dict Str TargetRow → Dict Str TargetRow
unfolding is_degraded
clear_bouncer_degraded name [] = []
clear_bouncer_degraded name ((n, row) ∷ rows) =
    (
      n,
      if n == name && is_degraded row.last_error
          then record row { last_error = LastError.clear }
          else row,
    )
    ∷ clear_bouncer_degraded name rows

-- The local variables that the loop over the futures updates.
pub record CycleTotals : Type 0 where
  pub error_count : ℕ
  pub note_bits : List Note
  pub mt_list_count : ℕ
  pub mt_count_valid : Bool
  pub snapshot_ms : ℕ
  pub diff_ms : ℕ
  pub apply_ms : ℕ
  pub total_add : ℕ
  pub total_remove : ℕ
  pub unchanged : ℕ
  pub per_bouncer_push : List (Str × List Push)
  pub target_state : Dict Str ℕ
  pub targets : Dict Str TargetRow

abbrev pub no_totals : Dict Str TargetRow → CycleTotals
no_totals rows = record {
  error_count = 0;
  note_bits = [];
  mt_list_count = 0;
  mt_count_valid = false;
  snapshot_ms = 0;
  diff_ms = 0;
  apply_ms = 0;
  total_add = 0;
  total_remove = 0;
  unchanged = 0;
  per_bouncer_push = [];
  target_state = [];
  targets = rows;
}

abbrev is_mikrotik : RunResult → Bool
is_mikrotik r = starts_with (lit "mikrotik") r.kind && r.snapshot_ok

-- The markers at the end of the loop's body; `slow_ms` is the threshold in milliseconds.
unfoldable pub settle_degraded : ℕ → RunResult → Str → Dict Str TargetRow → Dict Str TargetRow
settle_degraded slow_ms r name rows =
    let b_wall_ms = r.snapshot_ms + r.apply_ms in
    if ltb slow_ms b_wall_ms
    then mark_bouncer_degraded name b_wall_ms rows
    else if r.ok && r.errors == 0
    then clear_bouncer_degraded name rows
    else rows

-- The loop's body; `none` is a future whose result raises.
unfoldable pub fold_result : ℕ → Bouncer → Option RunResult → CycleTotals → CycleTotals
fold_result slow_ms b none t = record t {
  error_count = t.error_count + 1;
  note_bits = t.note_bits ++ apply_failed b.name ∷ [];
}
fold_result slow_ms b (some r) t = record {
  error_count = t.error_count + r.errors;
  note_bits = t.note_bits ++ r.notes;
  mt_list_count = if is_mikrotik r then t.mt_list_count + r.snapshot_n else t.mt_list_count;
  mt_count_valid = if is_mikrotik r then true else t.mt_count_valid;
  snapshot_ms = t.snapshot_ms + r.snapshot_ms;
  diff_ms = t.diff_ms + r.diff_ms;
  apply_ms = t.apply_ms + r.apply_ms;
  total_add = t.total_add + r.to_add_n;
  total_remove = t.total_remove + r.to_remove_n;
  unchanged = t.unchanged + r.unchanged_n;
  per_bouncer_push = elim r.push_log [
    | [] ↦ t.per_bouncer_push
    | p ∷ ps ↦ t.per_bouncer_push ++ (b.name, p ∷ ps) ∷ []
  ];
  target_state =
      if r.snapshot_ok then insert b.name r.snapshot_n t.target_state else t.target_state;
  targets = settle_degraded slow_ms r b.name t.targets;
}

-- What the bouncers answer, each run against the table as it is at the start of the cycle.
unfoldable pub run_all :
    Matching
    → Dict Str TargetRow
    → List Decision
    → Bool
    → ℕ
    → List Bouncer
    → List (Bouncer × Option RunResult)
run_all w rows desired dry_run batch_cap [] = []
run_all w rows desired dry_run batch_cap (b ∷ bs) =
    (
      b,
      if b.raises then none else some (run_one_bouncer w (some rows) b desired dry_run batch_cap).0,
    )
    ∷ run_all w rows desired dry_run batch_cap bs

-- `for fut, b in futures.items()`, in the order of submission
unfoldable pub fold_results : ℕ → List (Bouncer × Option RunResult) → CycleTotals → CycleTotals
fold_results slow_ms [] t = t
fold_results slow_ms ((b, r) ∷ rest) t = fold_results slow_ms rest (fold_result slow_ms b r t)

push_rows : ℕ → Str → List Push → List PushRow
push_rows sync_id name = map (λ p. pushed sync_id name p)

unfoldable pub all_push_rows : ℕ → List (Str × List Push) → List PushRow
unfolding push_rows
all_push_rows sync_id [] = []
all_push_rows sync_id ((name, log) ∷ rest) =
    push_rows sync_id name log ++ all_push_rows sync_id rest

-- The dict that `run_once` returns, less the timestamps.
pub record CycleReport : Type 0 where
  pub sync_event_id : ℕ
  pub snapshot_ms : ℕ
  pub diff_ms : ℕ
  pub apply_ms : ℕ
  pub to_add : ℕ
  pub to_remove : ℕ
  pub unchanged : ℕ
  pub foreign_kept : ℕ
  pub dry_run : Bool
  pub errors : ℕ
  pub notes : List Note
  pub bouncer_count : ℕ
  pub mt_list_count : ℕ
  pub mt_count_valid : Bool
  pub targets : Dict Str ℕ

-- How a cycle ends: with its report, or with UnboundLocalError on the name `target_state`.
pub data Outcome : Type 0 where
  returned : CycleReport → Outcome
  unbound_target_state : Outcome

-- The variables of the function after the branch on `all_bouncers`; `target_state` is assigned in
-- the second branch alone, so it is `none`, unbound, after the first.
pub record Locals : Type 0 where
  pub totals : CycleTotals
  pub target_state : Option (Dict Str ℕ)

unfoldable pub gather :
    Matching → ℕ → Dict Str TargetRow → List Decision → Bool → ℕ → List Bouncer → Locals
gather w slow_ms rows desired dry_run batch_cap [] = record {
  totals = record (no_totals rows) {
    note_bits = no_bouncers_configured ∷ [];
    total_add = length (reconcile desired []).to_add;
  };
  target_state = none;
}
gather w slow_ms rows desired dry_run batch_cap (b ∷ bs) =
    let t =
      fold_results slow_ms (run_all w rows desired dry_run batch_cap (b ∷ bs)) (no_totals rows) in
    record { totals = t; target_state = some t.target_state }

-- The insert into sync_events and the rows of mt_pushes.
unfoldable pub persist : Bool → List Bouncer → CycleTotals → Store → Store
persist dry_run all_bouncers t s =
    let sync_id = s.next_sync_id in
    record {
      targets = t.targets;
      sync_events =
          s.sync_events
          ++ record {
            id = sync_id;
            added = t.total_add;
            removed = t.total_remove;
            unchanged = t.unchanged;
            errors = t.error_count;
            dry_run = dry_run;
            notes = t.note_bits;
          }
            ∷ [];
      mt_pushes =
          s.mt_pushes
          ++ (if dry_run
              then map (λ (b : Bouncer). dry_note sync_id b.name b.kind) all_bouncers
              else all_push_rows sync_id t.per_bouncer_push);
      next_sync_id = suc sync_id;
    }

unfoldable pub report : Bool → List Bouncer → CycleTotals → ℕ → Option (Dict Str ℕ) → Outcome
report dry_run all_bouncers t sync_id none = unbound_target_state
report dry_run all_bouncers t sync_id (some target_state) = returned (record {
  sync_event_id = sync_id;
  snapshot_ms = t.snapshot_ms;
  diff_ms = t.diff_ms;
  apply_ms = t.apply_ms;
  to_add = t.total_add;
  to_remove = t.total_remove;
  unchanged = t.unchanged;
  foreign_kept = 0;
  dry_run = dry_run;
  errors = t.error_count;
  notes = t.note_bits;
  bouncer_count = length all_bouncers;
  mt_list_count = t.mt_list_count;
  mt_count_valid = t.mt_count_valid;
  targets = target_state;
})

-- `run_once` on the desired decisions, the targets, and the slowness threshold of the settings.
unfoldable pub run_once :
    Matching → ℕ → List Decision → List Bouncer → Bool → ℕ → Store → Outcome × Store
run_once w slow_ms desired all_bouncers dry_run batch_cap s =
    let locals = gather w slow_ms s.targets desired dry_run batch_cap all_bouncers in
    (
      report dry_run all_bouncers locals.totals s.next_sync_id locals.target_state,
      persist dry_run all_bouncers locals.totals s,
    )
