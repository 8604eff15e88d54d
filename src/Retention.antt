-- ===== src/Retention.antt =====
-- retention.py: row caps on `decisions` (tombstones only) and `mt_pushes`. A table is the list of
-- its rows in the order of their ids, the oldest first. The clock is what it allows: the number of
-- times the test of each loop passes, and whether the deadline is over at the end.
pub mod Caps
mod Tests
use protek.Prelude.{
  ℕ, zero, suc, ◌+◌, Str, Option, none, some, Bool, true, false, not, ◌&&◌, List, [], ◌∷◌, ◌==◌,
  nat_eq, if◌then◌else◌, leb, any, select, length,
}

-- What a setting holds: nothing, a text that is no number, a number below 0, a number.
pub data Setting : Type 0 where
  absent malformed negative : Setting
  number : ℕ → Setting

unfoldable pub setting_int : Setting → ℕ → ℕ
setting_int absent default = default
setting_int malformed default = default
setting_int negative default = 0
setting_int (number n) default = n

pub record Settings : Type 0 where
  pub enabled : Bool
  pub batch_size : Setting
  pub decisions_tombstone_cap : Setting
  pub mt_pushes_cap : Setting

-- A row of either table; a row of mt_pushes has no `deleted`.
pub record Row : Type 0 where
  pub id : ℕ
  pub deleted : Bool

-- The two tables, and the decision ids of the pending approvals.
pub record Stored : Type 0 where
  pub decisions : List Row
  pub mt_pushes : List Row
  pub pending : List ℕ

-- `ORDER BY id DESC LIMIT 1 OFFSET cap`: the row that has exactly `cap` newer ones
unfoldable pub cutoff_id : ℕ → List Row → Option ℕ
cutoff_id cap [] = none
cutoff_id cap (r ∷ rows) =
    let later = cutoff_id cap rows in if length rows == cap then some r.id else later

-- The batched DELETE: the first `n` rows that pass the test, and how many they were.
unfoldable pub delete_oldest : (Row → Bool) → ℕ → List Row → List Row × ℕ
delete_oldest p zero rows = (rows, 0)
delete_oldest p (suc n) [] = ([], 0)
delete_oldest p (suc n) (r ∷ rows) =
    let fewer = delete_oldest p n rows in
    let kept = delete_oldest p (suc n) rows in
    if p r then (fewer.0, suc fewer.1) else (r ∷ kept.0, kept.1)

-- `_drain`, where the test of the loop passes at most `turns` times
unfoldable pub drain : (Row → Bool) → ℕ → ℕ → List Row → List Row × ℕ
drain p zero batch rows = (rows, 0)
drain p (suc turns) batch rows =
    let deleted = delete_oldest p batch rows in
    let later = drain p turns batch deleted.0 in
    if deleted.1 == 0 then deleted else (later.0, deleted.1 + later.1)

-- The tombstones up to the cutoff, but for those that a pending approval points at.
abbrev pub is_old_tombstone : ℕ → List ℕ → Row → Bool
is_old_tombstone cutoff pending r =
    r.deleted && leb r.id cutoff && not (any (λ i. i == r.id) pending)

abbrev pub is_old : ℕ → Row → Bool
is_old cutoff r = leb r.id cutoff

unfoldable pub prune_decisions : ℕ → ℕ → ℕ → List ℕ → List Row → List Row × ℕ
prune_decisions cap turns batch pending rows =
    elim (cutoff_id cap (select (λ (r : Row). r.deleted) rows)) [
      | none ↦ (rows, 0)
      | some cutoff ↦ drain (is_old_tombstone cutoff pending) turns batch rows
    ]

unfoldable pub prune_pushes : ℕ → ℕ → ℕ → List Row → List Row × ℕ
prune_pushes cap turns batch rows = elim (cutoff_id cap rows) [
  | none ↦ (rows, 0)
  | some cutoff ↦ drain (is_old cutoff) turns batch rows
]

pub record Report : Type 0 where
  pub enabled : Bool
  pub decisions : ℕ
  pub mt_pushes : ℕ
  pub truncated : Bool

abbrev pub default_batch : ℕ
default_batch = 5_000

abbrev pub default_cap : ℕ
default_cap = 500_000

-- `prune`, on a database that answers
unfoldable pub prune : Settings → Option ℕ → ℕ → ℕ → Bool → Stored → Stored × Report
prune s batch decision_turns push_turns late t =
    if not s.enabled
    then (t, record { enabled = false; decisions = 0; mt_pushes = 0; truncated = false })
    else (let size : ℕ = elim batch [
      | none ↦ setting_int s.batch_size default_batch
      | some n ↦ n
    ] in
        let (decisions, gone) =
          prune_decisions (setting_int s.decisions_tombstone_cap default_cap) decision_turns size
            t.pending t.decisions in
        let (pushes, pushes_gone) =
          prune_pushes (setting_int s.mt_pushes_cap default_cap) push_turns size t.mt_pushes in
        (
          record t { decisions = decisions; mt_pushes = pushes },
          record { enabled = true; decisions = gone; mt_pushes = pushes_gone; truncated = late },
        ))
