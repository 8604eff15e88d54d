-- ===== src/Blocking/Summary.antt =====
-- blocking.py, `summarize` and `pill_state`: what the topbar shows of all targets.
use protek.Prelude.{
  ℕ, ◌≤◌, ◌≡◌, refl, ◌∙◌, some, Bool, true, not, ◌||◌, ◌&&◌, List, [], ◌∷◌, if◌then◌else◌, ltb, any,
  all, arith, Bool-cases, inl, inr,
}
use protek.Blocking.{Status, no_rule, disabled, shadowed, unknown, unverified, blocking}
use protek.Blocking.Analyze.{
  is_blocking, Result, severity, worst_of, worse, has_warnings, is_gapped, first_gapped, summarize,
  ok, warn, down, pill_state,
}

abbrev below : ℕ → Result → Bool
below k r = ltb (severity r.verdict.status) k

below-worse : (k : ℕ) (r s : Result) → below k (worse r s) ≡ (below k r || below k s)
unfolding worse
below-worse k r s =
    elim (Bool-cases (ltb (severity s.verdict.status) (severity r.verdict.status))) [
      | inl less ↦ rw less (ground arith)
      | inr more ↦ rw more (ground arith)
    ]

below-worst_of :
    (k : ℕ) (r : Result) (rest : List Result) → below k (worst_of r rest) ≡ any (below k) (r ∷ rest)
unfolding worst_of
below-worst_of k r [] = ground arith
below-worst_of k r (s ∷ rest) = ground (arith, below-worst_of k (worse r s) rest, below-worse k r s)

is_gapped-first_gapped :
    (r : Result) (rs : List Result) → any is_gapped rs ≡ true → is_gapped (first_gapped r rs) ≡ true
unfolding first_gapped
is_gapped-first_gapped r [] h = ground arith
is_gapped-first_gapped r (s ∷ rest) h = elim (Bool-cases (is_gapped s)) [
  | inl gapped ↦ rw gapped gapped
  | inr whole ↦ rw whole (is_gapped-first_gapped r rest (ground arith))
]

-- A target with no drop rule, or only disabled or shadowed ones.
abbrev pub is_down : Result → Bool
is_down r = ltb (severity r.verdict.status) 3

-- A target that blocks, and of which there is nothing to warn.
abbrev pub all_clear : Result → Bool
all_clear r = is_blocking r.verdict.status && not (has_warnings r)

is_blocking-severity : (st : Status) → is_blocking st ≡ not (ltb (severity st) 5)
is_blocking-severity no_rule = refl
is_blocking-severity disabled = refl
is_blocking-severity shadowed = refl
is_blocking-severity unknown = refl
is_blocking-severity unverified = refl
is_blocking-severity blocking = refl

-- The pill by the status and the flag, as tests.
pill-by_severity :
    (st : Status) (partial : Bool)
    → pill_state (some st) partial
      ≡ some (
          if ltb (severity st) 3 then down else if ltb (severity st) 5 || partial then warn else ok)
unfolding pill_state
pill-by_severity no_rule partial = refl
pill-by_severity disabled partial = refl
pill-by_severity shadowed partial = refl
pill-by_severity unknown partial = refl
pill-by_severity unverified partial = refl
pill-by_severity blocking partial = refl

all_clear-all :
    (rs : List Result) → all all_clear rs ≡ (not (any (below 5) rs) && not (any is_gapped rs))
all_clear-all [] = refl
all_clear-all (r ∷ rs) = ground (arith, all_clear-all rs, is_blocking-severity r.verdict.status)

-- The status that is shown has the severity of the worst.
abbrev shown_of : Result → List Result → Result
shown_of r rest =
    if is_blocking (worst_of r rest).verdict.status && any is_gapped (r ∷ rest)
    then first_gapped (worst_of r rest) (r ∷ rest)
    else worst_of r rest

below-shown_of :
    (k : ℕ) (r : Result) (rest : List Result)
    → k ≤ 5
    → below k (shown_of r rest) ≡ any (below k) (r ∷ rest)
below-shown_of k r rest small =
    elim (Bool-cases (is_blocking (worst_of r rest).verdict.status && any is_gapped (r ∷ rest))) [
      | inl gapped ↦ rw gapped (
          ground (
            arith,
            below-worst_of k r rest,
            is_blocking-severity (worst_of r rest).verdict.status,
            is_blocking-severity (first_gapped (worst_of r rest) (r ∷ rest)).verdict.status,
            is_gapped-first_gapped (worst_of r rest) (r ∷ rest),
          ))
      | inr whole ↦ rw whole (below-worst_of k r rest)
    ]

-- The pill of the topbar is hidden where there is no target; otherwise it is down where some
-- target has no drop rule that is enabled and reached, amber where none is down but some target
-- does not surely block or blocks with a warning, and green where every target blocks without a
-- warning.
pub pill_state-summarize :
    (r : Result) (rest : List Result)
    → pill_state (summarize (r ∷ rest)).status (summarize (r ∷ rest)).partial
      ≡ some
          (if any is_down (r ∷ rest) then down else if all all_clear (r ∷ rest) then ok else warn)
unfolding summarize
pill_state-summarize r rest =
    pill-by_severity (shown_of r rest).verdict.status (any is_gapped (r ∷ rest))
    ∙ ground (
      arith,
      below-shown_of 3 r rest (omega arith),
      below-shown_of 5 r rest (omega arith),
      all_clear-all (r ∷ rest),
    )
