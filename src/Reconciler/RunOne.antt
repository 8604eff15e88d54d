-- ===== src/Reconciler/RunOne.antt =====
-- reconciler.py, `_run_one_bouncer`: snapshot, filter, diff and apply for one bouncer.
pub mod Calls
use protek.Prelude.{
  ℕ, ◌+◌, Str, Option, none, some, Bool, true, false, not, ◌||◌, ◌&&◌, List, [], ◌∷◌, ◌++◌, ◌==◌,
  nat_eq, str_eq, if◌then◌else◌, ltb, any, count_if, take, length,
}
use protek.Prelude.Dict.{Dict, lookup}
use protek.Prelude.Text.{lit, is_empty, or_default, has_char}
use protek.Reconcile.Comment.{Decision, colon}
use protek.Reconcile.{MtEntry, ReconcileDiff, reconcile, changes}
use protek.Reconciler.Bouncer.{Bouncer, ApplyResult, Push}
use protek.Reconciler.Filter.{Matching, filter_desired}

-- `last_error` of a target row: empty, `degraded: …` with the wall time in ms, or an adapter's text
pub data LastError : Type 0 where
  clear : LastError
  degraded : ℕ → LastError
  adapter : Str → LastError

-- A row of bouncer_targets, keyed by name.
pub record TargetRow : Type 0 where
  pub dry_run : ℕ
  pub last_error : LastError

-- The notes of a cycle, each with what its text shows.
pub data Note : Type 0 where
  snapshot_failed : Str → Note
  filtered : Str → ℕ → ℕ → Note
  apply_failed : Str → Note
  batch_capped : Str → ℕ → Note
  no_bouncers_configured : Note

-- What a run does outside of itself.
pub data Call : Type 0 where
  note_v6_entries : Str → ℕ → Call
  apply : Dict Str Str → List Str → Call

pub record RunResult : Type 0 where
  pub name : Str
  pub kind : Str
  pub snapshot_ms : ℕ
  pub diff_ms : ℕ
  pub apply_ms : ℕ
  pub to_add_n : ℕ
  pub to_remove_n : ℕ
  pub unchanged_n : ℕ
  pub snapshot_n : ℕ
  pub snapshot_ok : Bool
  pub errors : ℕ
  pub notes : List Note
  pub push_log : List Push
  pub ok : Bool

-- `_bouncer_is_dry`; `none` stands for a failure to read the table.
unfoldable pub bouncer_is_dry : Option (Dict Str TargetRow) → Bouncer → Bool
bouncer_is_dry rows b =
    if b.kind == lit "mikrotik_env" then false else if is_empty b.name then false else elim rows [
      | none ↦ false
      | some table ↦ elim (lookup b.name table) [ none ↦ false | some row ↦ ltb 0 row.dry_run ]
    ]

pub record Snapshot : Type 0 where
  pub current : List MtEntry
  pub snapshot_ok : Bool
  pub failed : Bool

-- The first `try`: a snapshot that raises counts as an empty list.
unfoldable pub take_snapshot : Bouncer → Snapshot
take_snapshot b =
    if b.configured
    then elim b.snapshot [
      | some entries ↦ record { current = entries; snapshot_ok = true; failed = false }
      | none ↦ record { current = []; snapshot_ok = false; failed = true }
    ]
    else record { current = []; snapshot_ok = false; failed = false }

-- The entries that the IPv6 warning counts.
unfoldable pub v6_entries : List MtEntry → ℕ
v6_entries = count_if (λ e. has_char colon (or_default e.address []))

pub record Applied : Type 0 where
  pub errors : ℕ
  pub push_log : List Push
  pub failed : Bool
  pub apply_ms : ℕ
  pub calls : List Call

-- The second `try`: the first `batch_cap` of the additions and of the removals, each.
unfoldable pub apply_diff : Bouncer → ReconcileDiff → ℕ → Applied
apply_diff b diff batch_cap =
    let to_add = take batch_cap diff.to_add in
    let to_remove = take batch_cap diff.to_remove in
    elim (b.apply to_add to_remove) [
      | some res ↦ record {
        errors = res.errors;
        push_log = res.push_log;
        failed = false;
        apply_ms = b.apply_ms;
        calls = apply to_add to_remove ∷ [];
      }
      | none ↦ record {
        errors = 1;
        push_log = [];
        failed = true;
        apply_ms = b.apply_ms;
        calls = apply to_add to_remove ∷ [];
      }
    ]

abbrev pub no_apply : Applied
no_apply = record { errors = 0; push_log = []; failed = false; apply_ms = 0; calls = [] }

abbrev one_if : Bool → ℕ
one_if c = if c then 1 else 0

abbrev note_if : Bool → Note → List Note
note_if c n = if c then n ∷ [] else []

unfoldable pub run_one_bouncer :
    Matching
    → Option (Dict Str TargetRow)
    → Bouncer
    → List Decision
    → Bool
    → ℕ
    → RunResult × List Call
run_one_bouncer w rows b desired dry_run batch_cap =
    let snap = take_snapshot b in
    let desired_for_b = filter_desired w b desired in
    let diff = reconcile desired_for_b snap.current in
    let b_dry = dry_run || bouncer_is_dry rows b in
    let applied =
      if not b_dry && b.configured && ltb 0 (changes diff)
      then apply_diff b diff batch_cap
      else no_apply in
    (
      record {
        name = b.name;
        kind = b.kind;
        snapshot_ms = b.snapshot_ms;
        diff_ms = b.diff_ms;
        apply_ms = applied.apply_ms;
        to_add_n = length diff.to_add;
        to_remove_n = length diff.to_remove;
        unchanged_n = diff.unchanged;
        snapshot_n = length snap.current;
        snapshot_ok = snap.snapshot_ok;
        errors = one_if snap.failed + applied.errors;
        notes =
            note_if snap.failed (snapshot_failed b.name)
            ++ (note_if (ltb (length desired_for_b) (length desired))
                  (filtered b.name (length desired_for_b) (length desired))
                ++ (note_if applied.failed (apply_failed b.name)
                    ++ note_if (ltb batch_cap (length diff.to_add + length diff.to_remove))
                        (batch_capped b.name batch_cap)));
        push_log = applied.push_log;
        ok = not snap.failed && not applied.failed;
      },
      (if snap.snapshot_ok && b.has_firewall_rules
            then note_v6_entries b.name (v6_entries snap.current) ∷ []
            else [])
          ++ applied.calls,
    )
