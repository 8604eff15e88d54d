-- ===== src/Reconcile/Counts.antt =====
-- reconcile.py: the counters of a diff account for every desired value and every entry.
use protek.Prelude.{◌≡◌, str_eq}
use protek.Prelude.Dict.{Dict}
use protek.Reconcile.{ReconcileDiff}

-- The removals touch neither the additions nor the two counters.
Same : ReconcileDiff → ReconcileDiff → Type 0
Same a b = (a.to_add ≡ b.to_add) × (a.unchanged ≡ b.unchanged) × (a.foreign_kept ≡ b.foreign_kept)
