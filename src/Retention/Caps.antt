-- ===== src/Retention/Caps.antt =====
-- retention.py, `_cutoff_id`, `_drain` and `prune`: what goes and what stays.
use protek.Prelude.{
  ℕ, zero, suc, ◌+◌, ◌-◌, ◌*◌, ◌≤◌, ◌<◌, ◌≡◌, refl, none, some, Bool, not, ◌&&◌, List, [], ◌∷◌,
  ◌==◌, nat_eq, ltb, any, select, count_if, length, All, arith, Bool-cases, Option-cases, inl, inr,
  min,
}
use protek.Retention.{Row, cutoff_id, delete_oldest, drain, is_old_tombstone, prune_decisions}

-- The rows that do not pass the test.
abbrev pub others : (Row → Bool) → List Row → List Row
others p rows = select (λ r. not (p r)) rows

others-delete_oldest :
    (p : Row → Bool) (n : ℕ) (rows : List Row) → others p (delete_oldest p n rows).0 ≡ others p rows
unfolding delete_oldest
others-delete_oldest p zero rows = refl
others-delete_oldest p (suc n) [] = refl
others-delete_oldest p (suc n) (r ∷ rows) =
    ground (arith, others-delete_oldest p n rows, others-delete_oldest p (suc n) rows)

count-delete_oldest :
    (p : Row → Bool) (n : ℕ) (rows : List Row)
    → ((delete_oldest p n rows).1 ≡ min n (count_if p rows))
      × (count_if p (delete_oldest p n rows).0 + (delete_oldest p n rows).1 ≡ count_if p rows)
unfolding delete_oldest
count-delete_oldest p zero rows = ground arith
count-delete_oldest p (suc n) [] = ground arith
count-delete_oldest p (suc n) (r ∷ rows) =
    ground (arith, count-delete_oldest p n rows, count-delete_oldest p (suc n) rows)

others-drain :
    (p : Row → Bool) (turns batch : ℕ) (rows : List Row)
    → others p (drain p turns batch rows).0 ≡ others p rows
unfolding drain
others-drain p zero batch rows = refl
others-drain p (suc turns) batch rows = ground (
  arith,
  others-delete_oldest p batch rows,
  others-drain p turns batch (delete_oldest p batch rows).0,
)

-- What is left to delete, and what was deleted.
count-drain :
    (p : Row → Bool) (turns batch : ℕ) (rows : List Row)
    → (count_if p (drain p turns batch rows).0 ≡ count_if p rows - turns * batch)
      × (count_if p (drain p turns batch rows).0 + (drain p turns batch rows).1 ≡ count_if p rows)
unfolding drain
count-drain p zero batch rows = ground arith
count-drain p (suc turns) batch rows = ground (
  arith,
  count-delete_oldest p batch rows,
  count-drain p turns batch (delete_oldest p batch rows).0,
)

-- The ids grow along the table.
abbrev pub IsAscending : List Row → Type 0
IsAscending [] = Unit
IsAscending (r ∷ rows) = All (λ (s : Row). r.id < s.id) rows × IsAscending rows

abbrev is_newer : ℕ → Row → Bool
is_newer cutoff r = ltb cutoff r.id

cutoff_id-none : (cap : ℕ) (rows : List Row) → cutoff_id cap rows ≡ none → length rows ≤ cap
unfolding cutoff_id
cutoff_id-none cap [] h = omega arith
cutoff_id-none cap (r ∷ rows) h = ground (arith, cutoff_id-none cap rows)

count-newer :
    (c : ℕ) (rows : List Row)
    → All (λ (s : Row). c < s.id) rows
    → count_if (is_newer c) rows ≡ length rows
count-newer c [] h = refl
count-newer c (r ∷ rows) h = ground (arith, count-newer c rows h.1)

cutoff_id-above :
    (k cap : ℕ) (rows : List Row) (c : ℕ)
    → All (λ (s : Row). k < s.id) rows
    → cutoff_id cap rows ≡ some c
    → k < c
unfolding cutoff_id
cutoff_id-above k cap [] c h e = ground arith
cutoff_id-above k cap (r ∷ rows) c h e = ground (arith, h.0, cutoff_id-above k cap rows c h.1)

-- Exactly `cap` rows are newer than the cutoff.
cutoff_id-newer :
    (cap : ℕ) (rows : List Row) (c : ℕ)
    → IsAscending rows
    → cutoff_id cap rows ≡ some c
    → count_if (is_newer c) rows ≡ cap
unfolding cutoff_id
cutoff_id-newer cap [] c h e = ground arith
cutoff_id-newer cap (r ∷ rows) c h e = ground (
  arith,
  count-newer r.id rows h.0,
  cutoff_id-above r.id cap rows c h.0,
  cutoff_id-newer cap rows c h.1,
)

All-select :
    (P : Row → Type 0) (p : Row → Bool) (rows : List Row) → All P rows → All P (select p rows)
All-select P p [] h = tt
All-select P p (r ∷ rows) h = elim (Bool-cases (p r)) [
  | inl passes ↦ rw passes (h.0, All-select P p rows h.1)
  | inr fails ↦ rw fails (All-select P p rows h.1)
]

select-IsAscending :
    (p : Row → Bool) (rows : List Row) → IsAscending rows → IsAscending (select p rows)
select-IsAscending p [] h = tt
select-IsAscending p (r ∷ rows) h = elim (Bool-cases (p r)) [
  | inl passes ↦ rw passes (All-select _ p rows h.0, select-IsAscending p rows h.1)
  | inr fails ↦ rw fails (select-IsAscending p rows h.1)
]

abbrev pub is_tombstone : Row → Bool
is_tombstone r = r.deleted

-- A tombstone that a pending approval points at.
abbrev pub is_pinned : List ℕ → Row → Bool
is_pinned pending r = r.deleted && any (λ i. i == r.id) pending

length-select : (p : Row → Bool) (rows : List Row) → length (select p rows) ≡ count_if p rows
length-select p [] = refl
length-select p (r ∷ rows) = ground (arith, length-select p rows)

count-split :
    (p q : Row → Bool) (rows : List Row)
    → count_if p rows ≤ count_if q rows + count_if p (others q rows)
count-split p q [] = omega arith
count-split p q (r ∷ rows) = ground (arith, count-split p q rows)

-- The tombstones that are not to go are newer than the cutoff or pinned.
count-kept :
    (c : ℕ) (pending : List ℕ) (rows : List Row)
    → count_if is_tombstone (others (is_old_tombstone c pending) rows)
      ≤ count_if (is_newer c) (select is_tombstone rows) + count_if (is_pinned pending) rows
count-kept c pending [] = omega arith
count-kept c pending (r ∷ rows) = ground (arith, count-kept c pending rows)

count-old :
    (c : ℕ) (pending : List ℕ) (rows : List Row)
    → count_if (is_old_tombstone c pending) rows ≤ count_if is_tombstone rows
count-old c pending [] = omega arith
count-old c pending (r ∷ rows) = ground (arith, count-old c pending rows)

-- What `prune` may delete at all: a tombstone that no pending approval points at.
abbrev pub is_free : List ℕ → Row → Bool
is_free pending r = r.deleted && not (any (λ i. i == r.id) pending)

others-free :
    (c : ℕ) (pending : List ℕ) (rows : List Row)
    → others (is_free pending) (others (is_old_tombstone c pending) rows)
      ≡ others (is_free pending) rows
others-free c pending [] = refl
others-free c pending (r ∷ rows) = ground (arith, others-free c pending rows)

count-free :
    (c : ℕ) (pending : List ℕ) (rows : List Row)
    → count_if (is_free pending) rows
      ≡ count_if (is_old_tombstone c pending) rows
        + count_if (is_free pending) (others (is_old_tombstone c pending) rows)
count-free c pending [] = refl
count-free c pending (r ∷ rows) = ground (arith, count-free c pending rows)

-- However long it runs, a sweep leaves every live decision, and every tombstone that a pending
-- approval points at, in its place, and reports as many deletions as rows are gone.
pub others-prune_decisions :
    (cap turns batch : ℕ) (pending : List ℕ) (rows : List Row)
    → (others (is_free pending) (prune_decisions cap turns batch pending rows).0
        ≡ others (is_free pending) rows)
      × (count_if (is_free pending) (prune_decisions cap turns batch pending rows).0
            + (prune_decisions cap turns batch pending rows).1
          ≡ count_if (is_free pending) rows)
unfolding prune_decisions
others-prune_decisions cap turns batch pending rows =
    elim (Option-cases (cutoff_id cap (select is_tombstone rows))) [
      | inl enough ↦ ground arith
      | inr (c, over) ↦
          let p = is_old_tombstone c pending in
          let after = (drain p turns batch rows).0 in
          ground (
            arith,
            others-drain p turns batch rows,
            count-drain p turns batch rows,
            others-free c pending rows,
            others-free c pending after,
            count-free c pending rows,
            count-free c pending after,
          )
    ]

-- A sweep leaves at most as many tombstones as the cap, the tombstones that a pending approval
-- points at, and what the batches that it had time for could not take of those there were; with
-- batches enough for all of them, at most the first two. The ids grow along the table.
pub tombstones-prune_decisions :
    (cap turns batch : ℕ) (pending : List ℕ) (rows : List Row)
    → IsAscending rows
    → count_if is_tombstone (prune_decisions cap turns batch pending rows).0
      ≤ cap + count_if (is_pinned pending) rows + (count_if is_tombstone rows - turns * batch)
unfolding prune_decisions
tombstones-prune_decisions cap turns batch pending rows h =
    elim (Option-cases (cutoff_id cap (select is_tombstone rows))) [
      | inl enough ↦ ground (
        arith,
        cutoff_id-none cap (select is_tombstone rows) enough,
        length-select is_tombstone rows,
      )
      | inr (c, over) ↦
          let p = is_old_tombstone c pending in
          let after = (drain p turns batch rows).0 in
          ground (
            arith,
            count-split is_tombstone p after,
            others-drain p turns batch rows,
            count-drain p turns batch rows,
            count-kept c pending rows,
            count-old c pending rows,
            cutoff_id-newer cap (select is_tombstone rows) c
                (select-IsAscending is_tombstone rows h) over,
          )
    ]
