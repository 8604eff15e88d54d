-- ===== src/Retention/Tests.antt =====
-- retention.py on a table of four rows.
use protek.Prelude.{
  ℕ, ◌+◌, ◌-◌, ◌*◌, ◌≤◌, ◌≡◌, refl, Bool, true, false, List, [], ◌∷◌, count_if, arith,
}
use protek.Retention.{Row, cutoff_id, delete_oldest, drain, prune_decisions}
use protek.Retention.Caps.{
  others, is_free, is_tombstone, is_pinned, others-prune_decisions, tombstones-prune_decisions,
}

abbrev row : ℕ → Bool → Row
row n gone = record { id = n; deleted = gone }

abbrev rows : List Row
rows = row 1 true ∷ row 2 false ∷ row 3 true ∷ row 5 true ∷ []

-- A cap of one: the rows 1 and 3 are over it, and an approval points at 3.
sweep-rows : prune_decisions 1 2 10 (3 ∷ []) rows ≡ (row 2 false ∷ row 3 true ∷ row 5 true ∷ [], 1)
unfolding prune_decisions cutoff_id drain delete_oldest
sweep-rows = refl

others-prune_decisions_example :
    (others (is_free (3 ∷ [])) (prune_decisions 1 2 10 (3 ∷ []) rows).0
      ≡ others (is_free (3 ∷ [])) rows)
    × (count_if (is_free (3 ∷ [])) (prune_decisions 1 2 10 (3 ∷ []) rows).0
          + (prune_decisions 1 2 10 (3 ∷ []) rows).1
        ≡ count_if (is_free (3 ∷ [])) rows)
others-prune_decisions_example = others-prune_decisions 1 2 10 (3 ∷ []) rows

tombstones-prune_decisions_example :
    count_if is_tombstone (prune_decisions 1 2 10 (3 ∷ []) rows).0
    ≤ 1 + count_if (is_pinned (3 ∷ [])) rows + (count_if is_tombstone rows - 2 * 10)
tombstones-prune_decisions_example = tombstones-prune_decisions 1 2 10 (3 ∷ []) rows (
  (omega arith, (omega arith, (omega arith, tt))),
  ((omega arith, (omega arith, tt)), ((omega arith, tt), (tt, tt))),
)
