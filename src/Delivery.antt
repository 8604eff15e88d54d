-- ===== src/Delivery.antt =====
-- reconciler.py, from the mirror to the router: `_desired_from_db`, the filters of a bouncer,
-- `reconcile` and `_run_one_bouncer` composed.
mod Tests
use protek.Prelude.{
  ℕ, zero, suc, ◌+◌, ◌≡◌, refl, ap, ◌∙◌, sym, Str, Option, none, some, Bool, true, false, not, ◌||◌,
  ◌&&◌, List, [], ◌∷◌, ◌==◌, str_eq, str_beq_iff, if◌then◌else◌, ltb, any, select, count_if, take,
  map, All, arith, Bool-cases, inl, inr, any-count, any-of-select, any-map, any-ext, any-select,
}
use protek.Prelude.Dict.{Dict, lookup, contains, lookup-contains}
use protek.Prelude.Text.{strip, or_text-nil}
use protek.Reconcile.Comment.{Decision}
use protek.Reconcile.{reconcile, value_of}
use protek.Reconcile.Additions.{first_with, lookup-reconcile_to_add}
use protek.Reconciler.Bouncer.{Bouncer}
use protek.Reconciler.Filter.{Matching, cap_entries, filter_desired}
use protek.Reconciler.Filter.Laws.{passes, filter_desired-eq, capped_off, cap_entries-keeps_newest}
use protek.Reconciler.RunOne.{TargetRow, take_snapshot, run_one_bouncer}
use protek.Reconciler.RunOne.Calls.{writes, diff_of, All-if, writes-run_one_bouncer}
use protek.Desired.{
  MirrorRow, Database, min_row, add_row, group_rows, qualifies, decision_of, query, desired_from_db,
}
use protek.Desired.Laws.{whitelisted, is_desired, desired_from_db-eq}

contains-take :
    (v : Str) (n : ℕ) (d : Dict Str Str) → contains v (take n d) ≡ true → contains v d ≡ true
unfolding contains
contains-take v zero d h = ground arith
contains-take v (suc n) [] h = h
contains-take v (suc n) ((k, c) ∷ d) h = ground (arith, contains-take v n d)

abbrev has_value : Str → Decision → Bool
has_value v d = value_of d == v

any-first_with :
    (v : Str) (ds : List Decision)
    → elim (first_with v ds) [ none ↦ false | some d ↦ true ] ≡ any (has_value v) ds
any-first_with v [] = refl
any-first_with v (d ∷ ds) = ground (arith, any-first_with v ds)

-- What is added is the value of some decision.
added-desired :
    (v : Str) (w : Matching) (b : Bouncer) (ds : List Decision)
    → contains v (diff_of w b ds).to_add ≡ true
    → any (has_value v) (filter_desired w b ds) ≡ true
added-desired v w b ds h = ground (
  arith,
  lookup-contains v (diff_of w b ds).to_add,
  lookup-reconcile_to_add v (filter_desired w b ds) (take_snapshot b).current,
  any-first_with v (filter_desired w b ds),
)

filtered-desired :
    (p : Decision → Bool) (w : Matching) (b : Bouncer) (ds : List Decision)
    → any p (filter_desired w b ds) ≡ true
    → any p ds ≡ true
filtered-desired p w b ds h =
    let passed = select (passes w b) ds in
    any-of-select p (passes w b) ds (
      ground (
        arith,
        filter_desired-eq w b ds,
        any-count p (cap_entries b.max_entries passed),
        any-count p passed,
        (cap_entries-keeps_newest b.max_entries passed p).0,
      ))

-- The tests of a row that look at its address only.
abbrev wanted : (Str → Str → Bool) → Database → Str → Bool
wanted in_network db value = is_desired in_network db (record {
  value = value;
  scope = [];
  scenario = [];
  origin = [];
  origin_source = [];
  lapi_id = 0;
  deleted = false;
})

module _ (q : Str → Bool) where
  any-add_row :
      (r : MirrorRow) (groups : List MirrorRow)
      → any (λ g. q g.value) (add_row r groups) ≡ (q r.value || any (λ g. q g.value) groups)
  unfolding add_row min_row
  any-add_row r [] = refl
  any-add_row r (g ∷ groups) = elim (Bool-cases (g.value == r.value && g.scope == r.scope)) [
    | inl same ↦
        let on_value : g.value ≡ r.value = ground (arith, str_beq_iff g.value r.value) in
        rw same (ground (arith, ap q on_value))
    | inr other ↦ rw other (ground (arith, any-add_row r groups))
  ]

  any-group_rows :
      (rows groups : List MirrorRow)
      → any (λ g. q g.value) (group_rows rows groups)
        ≡ (any (λ g. q g.value) groups || any (λ r. q r.value) rows)
  unfolding group_rows
  any-group_rows [] groups = ground arith
  any-group_rows (r ∷ rows) groups =
      ground (arith, any-group_rows rows (add_row r groups), any-add_row r groups)

  any-query :
      (db : Database)
      → any (λ g. q g.value) (query db) ≡ any (λ r. qualifies db r && q r.value) db.decisions
  unfolding query
  any-query db =
      any-group_rows (select (qualifies db) db.decisions) []
      ∙ any-select (λ r. q r.value) (qualifies db) db.decisions

value_of-decision_of : (r : MirrorRow) → value_of (decision_of r) ≡ strip r.value
unfolding value_of
value_of-decision_of r = ap strip (or_text-nil r.value)

-- The rows of the mirror that may reach a router under an address.
abbrev pub may_reach : (Str → Str → Bool) → Database → Str → MirrorRow → Bool
may_reach in_network db v r = qualifies db r && is_desired in_network db r && strip r.value == v

desired-mirror :
    (in_network : Str → Str → Bool) (db : Database) (v : Str)
    → any (has_value v) (desired_from_db in_network db).0
      ≡ any (may_reach in_network db v) db.decisions
desired-mirror in_network db v =
    let q : Str → Bool = λ value. wanted in_network db value && strip value == v in
    let desired = is_desired in_network db in
    ap (any (has_value v)) (desired_from_db-eq in_network db)
    ∙ any-map (has_value v) decision_of (select desired (query db))
    ∙ any-select (λ r. has_value v (decision_of r)) desired (query db)
    ∙ any-ext _ (λ r. q r.value) (query db)
        (λ r. ap (λ t. desired r && t == v) (value_of-decision_of r))
    ∙ any-query q db
    ∙ any-ext _ (may_reach in_network db v) db.decisions (λ r. ground arith)

-- An address is sent to a router as an addition only where some row of the mirror has it that is
-- not tombstoned, was seen by as many sources as the threshold asks for, is matched by no active
-- rule of the whitelist and, where approval is required, is approved.
pub delivered-may_reach :
    (in_network : Str → Str → Bool) (db : Database) (w : Matching)
    (rows : Option (Dict Str TargetRow)) (b : Bouncer) (dry_run : Bool) (batch_cap : ℕ) (v : Str)
    → All
        (λ call. (contains v call.0 && not (any (may_reach in_network db v) db.decisions)) ≡ false)
        (writes (run_one_bouncer w rows b (desired_from_db in_network db).0 dry_run batch_cap).1)
delivered-may_reach in_network db w rows b dry_run batch_cap v =
    let ds = (desired_from_db in_network db).0 in
    rw (writes-run_one_bouncer w rows b ds dry_run batch_cap) (
      All-if _ _ _ (
        ground (
          arith,
          contains-take v batch_cap (diff_of w b ds).to_add,
          added-desired v w b ds,
          filtered-desired (has_value v) w b ds,
          desired-mirror in_network db v,
        )))
