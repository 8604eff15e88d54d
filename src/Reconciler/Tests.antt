-- ===== src/Reconciler/Tests.antt =====
-- reconciler.py on two concrete targets.
use protek.Prelude.{
  ℕ, ◌≡◌, ◌≤◌, ◌⊎◌, ◌+◌, refl, Str, none, some, Bool, true, false, not, ◌&&◌, List, [], ◌∷◌, All,
  any, ◌==◌, str_eq, nat_eq, select, length, count_if,
}
use protek.Prelude.Dict.{Dict}
use protek.Prelude.Text.{lit}
use protek.Reconcile.Comment.{Decision}
use protek.Reconcile.{MtEntry}
use protek.Reconcile.Removals.{removable}
use protek.Reconciler.Bouncer.{Bouncer, SourceFilter}
use protek.Reconciler.Filter.{Matching, filter_desired, cap_entries, age_key, sort_newest}
use protek.Reconciler.Filter.Laws.{passes, filter_desired-eq, capped_off, cap_entries-keeps_newest}
use protek.Reconciler.RunOne.{TargetRow, LastError, take_snapshot, run_one_bouncer}
use protek.Reconciler.RunOne.Calls.{
  writes, removes-run_one_bouncer, failed_snapshot_removes_nothing,
}
use protek.Reconciler.RunOnce.{Store, CycleReport, SyncEvent, returned, run_all, run_once}
use protek.Reconciler.RunOnce.Sums.{sum_of, raised, last_event, run_once-accounts}

-- Every pattern matches its own text, every expression compiles to a search for nothing.
abbrev matching : Matching
matching = record {
  glob = λ name pattern. name == pattern;
  search = λ pattern. some (λ text. text == pattern);
  qualifying = λ n. none;
}

abbrev decision : Str → ℕ → Decision
decision v n = record {
  value = some v;
  scope = some (lit "Ip");
  origin = some (lit "crowdsec");
  origin_source = some (lit "local");
  scenario = some (lit "ssh");
  lapi_id = some n;
  id = none;
}

abbrev desired : List Decision
desired = decision (lit "1.1.1.1") 7 ∷ decision (lit "2.2.2.2") 9 ∷ decision (lit "3.3.3.3") 8 ∷ []

abbrev old_entry : MtEntry
old_entry = record {
  address = some (lit "5.5.5.5");
  comment = some (lit "protek:local:ssh:1");
  id = none;
  dot_id = some (lit "*5");
}

abbrev edge : Bouncer
edge = record {
  name = lit "edge";
  kind = lit "mikrotik";
  configured = true;
  origins = [];
  exclude_origins = [];
  max_entries = 2;
  min_reputation = 0;
  source_filter = SourceFilter.csv (lit " local , far");
  scenario_filter = [];
  has_firewall_rules = true;
  snapshot = some (old_entry ∷ []);
  apply = λ adds removes. some (record { errors = 0; push_log = [] });
  snapshot_ms = 5;
  diff_ms = 1;
  apply_ms = 9;
  raises = false;
}

abbrev dead : Bouncer
dead = record edge { snapshot = none }

abbrev rows : Dict Str TargetRow
rows = (lit "edge", record { dry_run = 0; last_error = LastError.clear }) ∷ []

abbrev store : Store
store = record { targets = rows; sync_events = []; mt_pushes = []; next_sync_id = 1 }

filter_desired-eq_example :
    filter_desired matching edge desired ≡ cap_entries 2 (select (passes matching edge) desired)
filter_desired-eq_example = filter_desired-eq matching edge desired

-- The cap of two keeps the ids 9 and 8.
cap-keeps_9_8 : cap_entries 2 desired ≡ decision (lit "2.2.2.2") 9 ∷ decision (lit "3.3.3.3") 8 ∷ []
unfolding cap_entries sort_newest
cap-keeps_9_8 = refl

abbrev has_id_7 : Decision → Bool
has_id_7 d = age_key d == 7

cap_entries-keeps_newest_example :
    (count_if has_id_7 (cap_entries 2 desired) + count_if has_id_7 (capped_off 2 desired)
      ≡ count_if has_id_7 desired)
    × (((◌≡◌ {A = ℕ} 2 0) × (cap_entries 2 desired ≡ desired))
        ⊎ (length (cap_entries 2 desired) ≤ 2))
    × All
        (λ kept. All (λ gone. age_key gone ≤ age_key kept) (capped_off 2 desired))
        (cap_entries 2 desired)
cap_entries-keeps_newest_example = cap_entries-keeps_newest 2 desired has_id_7

removes-run_one_bouncer_example :
    All
      (λ call.
        (any (λ i. i == lit "*5") call.1
          && not (
              removable
                (filter_desired matching edge desired)
                (lit "*5")
                (take_snapshot edge).current))
        ≡ false)
      (writes (run_one_bouncer matching (some rows) edge desired false 200).1)
removes-run_one_bouncer_example =
    removes-run_one_bouncer matching (some rows) edge desired false 200 (lit "*5")

failed_snapshot_removes_nothing_example :
    All
      (λ call. call.1 ≡ [])
      (writes (run_one_bouncer matching (some rows) dead desired false 200).1)
failed_snapshot_removes_nothing_example =
    failed_snapshot_removes_nothing matching (some rows) dead desired false 200 refl

run_once-accounts_example :
    let rs = run_all matching rows desired false 200 (edge ∷ dead ∷ []) in
    let after = (run_once matching 60000 desired (edge ∷ dead ∷ []) false 200 store).1 in
    (rep : CycleReport) × (e : SyncEvent) × ((run_once matching 60000 desired
        (edge ∷ dead ∷ [])
        false
        200
        store).0
      ≡ returned rep)
    × (last_event after.sync_events ≡ some e)
    × (length after.sync_events ≡ 0 + 1)
    × (rep.to_add ≡ sum_of (λ r. r.to_add_n) rs)
    × (rep.to_remove ≡ sum_of (λ r. r.to_remove_n) rs)
    × (rep.errors ≡ sum_of (λ r. r.errors) rs + raised rs)
    × (e.added ≡ rep.to_add)
    × (e.removed ≡ rep.to_remove)
    × (e.errors ≡ rep.errors)
    × (e.id ≡ rep.sync_event_id)
run_once-accounts_example =
    run_once-accounts matching 60000 desired false 200 store edge (dead ∷ [])
