-- ===== src/Blocking/Entries.antt =====
-- blocking.py, `note_v6_entries` and `_v6_entries`: the cached counts.
use protek.Prelude.{
  ℕ, ◌≡◌, refl, Str, none, some, [], ◌∷◌, Bool, true, ◌==◌, nat_eq, str_eq, str_beq_iff,
  if◌then◌else◌, arith, Bool-cases, inl, inr,
}
use protek.Prelude.Dict.{lookup, lookup-insert}
use protek.Prelude.Text.{is_empty}
use protek.Prelude.Decimal.{show_nat, show_nat-ne-nil, read_nat-show_nat}
use protek.Blocking.Analyze.{Counts, is_some_of, note_v6_entries, count_of, v6_entries}

-- The count of the target that the process remembers is the one that the setting has.
abbrev pub agrees : Str → Counts → Bool
agrees target c = elim (lookup target c.v6_seen) [
  | none ↦ true
  | some n ↦ is_some_of n (v6_entries target c)
]

nil-of-is_empty : (s : Str) → is_empty s ≡ true → s ≡ []
nil-of-is_empty [] h = refl
nil-of-is_empty (c ∷ s) h = ground arith

-- Writing a count and reading it back.
count_of-show_nat : (n : ℕ) → count_of (some (show_nat n)) ≡ some n
unfolding count_of
count_of-show_nat n = elim (Bool-cases (is_empty (show_nat n))) [
  | inl empty ↦ absurd (show_nat-ne-nil n (nil-of-is_empty (show_nat n) empty))
  | inr full ↦ rw full (read_nat-show_nat n)
]

-- After a count is noted it is the count of that target, and every other target keeps its own,
-- where the process remembers what the setting of the target has; and for each target this stays
-- so.
pub v6_entries-note_v6_entries :
    (target : Str) (n : ℕ) (c : Counts) (other : Str)
    → agrees target c ≡ true
    → agrees other c ≡ true
    → (v6_entries other (note_v6_entries target n c)
        ≡ (if target == other then some n else v6_entries other c))
      × (agrees other (note_v6_entries target n c) ≡ true)
unfolding note_v6_entries v6_entries
v6_entries-note_v6_entries target n c other h g = ground (
  arith,
  lookup-insert target other (show_nat n) c.settings,
  lookup-insert target other n c.v6_seen,
  count_of-show_nat n,
  str_beq_iff target other,
)
