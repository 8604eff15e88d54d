-- ===== src/Alerting/Transitions.antt =====
-- alerting.py: when a rule's alert is open, and which notifications a history of checks sends.
use protek.Prelude.{
  ℕ, zero, suc, ◌+◌, ◌≤◌, ◌≡◌, refl, Bool, true, false, not, ◌&&◌, List, [], ◌∷◌, if◌then◌else◌,
  leb, arith,
}
use protek.Alerting.{
  AlertState, fresh_state, Emission, silent, firing_notice, resolved_notice, advance,
}

-- A check: its time, and whether the rule matched. A history has the newest check first.
pub record Check : Type 0 where
  pub now : ℕ
  pub matched : Bool

module _ (level debounce : ℕ) where
  -- The row after a history in which nothing was silenced.
  abbrev pub after : List Check → AlertState
  after [] = fresh_state
  after (c ∷ older) = (advance level debounce c.now c.matched false (after older)).0

  -- What the newest check of a history sent.
  abbrev pub sent : Check → List Check → Emission
  sent c older = (advance level debounce c.now c.matched false (after older)).1

  -- The notifications of a history, newest first: true for firing, false for resolved.
  abbrev pub notices : List Check → List Bool
  notices [] = []
  notices (c ∷ older) =
      let earlier = notices older in
      elim (sent c older) [
        | silent ↦ earlier
        | firing_notice ↦ true ∷ earlier
        | resolved_notice ↦ false ∷ earlier
      ]

-- The number of checks that matched since the last one that did not.
abbrev pub run_length : List Check → ℕ
run_length [] = 0
run_length (c ∷ older) = if c.matched then run_length older + 1 else 0

abbrev pub latest : List Bool → Bool
latest [] = false
latest (n ∷ ns) = n

-- No two notifications in a row are of one kind, and the first ever is a firing one.
abbrev pub alternates : List Bool → Bool
alternates [] = true
alternates (true ∷ ns) = not (latest ns) && alternates ns
alternates (false ∷ ns) = latest ns && alternates ns

consecutive-after :
    (level debounce : ℕ) (h : List Check) → (after level debounce h).consecutive ≡ run_length h
unfolding advance
consecutive-after level debounce [] = refl
consecutive-after level debounce (c ∷ h) = ground (arith, consecutive-after level debounce h)

firing-after :
    (level debounce : ℕ) (h : List Check)
    → 1 ≤ debounce
    → (after level debounce h).firing ≡ leb debounce (run_length h)
unfolding advance
firing-after level debounce [] pos = ground arith
firing-after level debounce (c ∷ h) pos = ground (arith, consecutive-after level debounce h)

latest-notices :
    (level debounce : ℕ) (h : List Check)
    → 1 ≤ debounce
    → latest (notices level debounce h) ≡ (after level debounce h).firing
unfolding advance
latest-notices level debounce [] pos = refl
latest-notices level debounce (c ∷ h) pos = ground (
  arith,
  latest-notices level debounce h pos,
  firing-after level debounce h pos,
  consecutive-after level debounce h,
)

alternates-notices :
    (level debounce : ℕ) (h : List Check)
    → 1 ≤ debounce
    → alternates (notices level debounce h) ≡ true
unfolding advance
alternates-notices level debounce [] pos = refl
alternates-notices level debounce (c ∷ h) pos = ground (
  arith,
  alternates-notices level debounce h pos,
  latest-notices level debounce h pos,
  firing-after level debounce h pos,
  consecutive-after level debounce h,
)

-- For a rule with a debounce of at least 1 that is never silenced, after any history of checks:
-- the stored row is firing exactly if the last `debounce` checks all matched; the notifications
-- sent so far alternate, a firing one first, so none is repeated; and the last one was a firing
-- one exactly if the row is firing.
pub history_of_alert :
    (level debounce : ℕ) (h : List Check)
    → 1 ≤ debounce
    → ((after level debounce h).firing ≡ leb debounce (run_length h))
      × (alternates (notices level debounce h) ≡ true)
      × (latest (notices level debounce h) ≡ (after level debounce h).firing)
history_of_alert level debounce h pos = (
  firing-after level debounce h pos,
  alternates-notices level debounce h pos,
  latest-notices level debounce h pos,
)

-- The emissions of `n` further unsilenced checks that do not match, at the time `now`.
abbrev pub quiet : ℕ → ℕ → ℕ → ℕ → AlertState → List Emission
quiet zero level debounce now st = []
quiet (suc n) level debounce now st =
    (advance level debounce now false false st).1
    ∷ quiet n level debounce now (advance level debounce now false false st).0

abbrev pub all_silent : List Emission → Bool
all_silent [] = true
all_silent (silent ∷ es) = all_silent es
all_silent (e ∷ es) = false

quiet-all_silent :
    (n level debounce now : ℕ) (st : AlertState)
    → 1 ≤ debounce
    → st.firing ≡ false
    → all_silent (quiet n level debounce now st) ≡ true
unfolding advance
quiet-all_silent zero level debounce now st pos closed = refl
quiet-all_silent (suc n) level debounce now st pos closed =
    ground (
      arith,
      quiet-all_silent n level debounce now (advance level debounce now false false st).0 pos,
    )

-- Silencing a rule does not only hold its notifications back, it also forgets that the alert is
-- open. Where an open alert's condition clears under a silence, no resolved notification is sent
-- then, and none is sent by any later check that does not match. Where the condition holds on
-- under a silence, the first matching check after the silence sends a second firing notification,
-- with no resolved one in between.
pub silence_forgets :
    (n level debounce t u : ℕ) (st : AlertState)
    → 1 ≤ debounce
    → st.firing ≡ true
    → debounce ≤ st.consecutive
    → ((advance level debounce t false true st).1 ≡ silent)
      × (all_silent (quiet n level debounce u (advance level debounce t false true st).0) ≡ true)
      × ((advance level debounce t true true st).1 ≡ silent)
      × ((advance level debounce u true false (advance level debounce t true true st).0).1
          ≡ firing_notice)
silence_forgets n level debounce t u st pos firing matched = (
  unfold advance in ground arith,
  quiet-all_silent n level debounce u (advance level debounce t false true st).0 pos
      (unfold advance in ground arith),
  unfold advance in ground arith,
  unfold advance in ground arith,
)
