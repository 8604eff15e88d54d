-- ===== src/Poller/Due.antt =====
-- The maintenance of the loop: the calls that are due in a cycle, and that a cycle begins with them.
use protek.Prelude.{
  ℕ, suc, ◌≡◌, refl, sym, subst, ap, ◌∙◌, arith, Str, none, some, Bool, true, false, not, ◌||◌,
  List, [], ◌∷◌, ◌++◌, nat_eq, if◌then◌else◌, ltb, select, Bool-cases, inl, inr,
}
use mathlib.Core.List.{append-nil, append_assoc}
use protek.Prelude.Text.{lit, is_empty}
use protek.Poller.Run.{
  Env, State, Call, ◌>>=◌, ◌>>◌, bound, pure, call, recovered, except, attempt, when,
}
use protek.Poller.Rules.{Ends, Triple, then-Triple, Ends-weaken}
use protek.Poller.Upkeep.{get_setting, get_int, every, check_disk, run_retention}
use protek.Poller.{maintenance}
use protek.Poller.Frame.{Frame, plain}
use Call.{read, wal_guard, disk_check, retention, hygiene}

abbrev pub is_maint : Call → Bool
is_maint wal_guard = true
is_maint disk_check = true
is_maint retention = true
is_maint hygiene = true
is_maint _ = false

abbrev disk_setting : Str
disk_setting = lit "disk.check_every_cycles"

-- The cadence of the disk check, in cycles.
abbrev pub disk_every : Env → ℕ
disk_every env =
    let v = env.setting disk_setting in
    if is_empty v then 6 else elim (env.int_of v) [ none ↦ 6 | some k ↦ k ]

abbrev disk_due : Env → ℕ → List Call
disk_due env n =
    if not (ltb (disk_every env) 1 || not (every (disk_every env) n)) then disk_check ∷ [] else []

abbrev hourly_due : ℕ → List Call
hourly_due n = if every 360 n then retention ∷ hygiene ∷ [] else []

-- What is due in the cycle number `n`, counted from 0.
abbrev pub due : Env → ℕ → List Call
due env n =
    wal_guard ∷ (if env.raises (read disk_setting) then [] else disk_due env n ++ hourly_due n)

abbrev pub schedule : ℕ → List Env → List Call
schedule n [] = []
schedule n (env ∷ envs) = due env n ++ schedule (suc n) envs

-- After `n` cycles begun, with these calls of the maintenance in the log.
abbrev pub At : ℕ → List Call → State → Type 0
At n L s = (s.self.maint_ticks ≡ n) × (select is_maint s.log ≡ L)

select-append :
    (p : Call → Bool) (xs ys : List Call) → select p (xs ++ ys) ≡ select p xs ++ select p ys
select-append p [] ys = refl
select-append p (x ∷ xs) ys = ground (arith, select-append p xs ys)

maint-plain : (c : Call) → plain c ≡ true → is_maint c ≡ false
maint-plain wal_guard h = cc
maint-plain disk_check h = cc
maint-plain retention h = cc
maint-plain hygiene h = cc
maint-plain _ h = refl

pub At-call :
    (n : ℕ) (L : List Call) (c : Call) (s : State)
    → At n L s
    → At n (L ++ (if is_maint c then c ∷ [] else [])) (record s { log = s.log ++ c ∷ [] })
At-call n L c s h = (
  h.0,
  select-append is_maint s.log (c ∷ []) ∙ ap (λ l. l ++ (if is_maint c then c ∷ [] else [])) h.1,
)

At-plain :
    (n : ℕ) (L : List Call) (c : Call) (s : State)
    → plain c ≡ true
    → At n L s
    → At n L (record s { log = s.log ++ c ∷ [] })
At-plain n L c s h at =
    let next = At-call n L c s at in
    (next.0, next.1 ∙ ap (λ b. L ++ (if b then c ∷ [] else [])) (maint-plain c h) ∙ append-nil L)

pub At-Frame : (n : ℕ) (L : List Call) → Frame (At n L)
At-Frame n L = record {
  calls = At-plain n L;
  updates = λ p s h at. (ap (λ (k : ℕ × Bool × ℕ × ℕ). k.0) h ∙ at.0, at.1);
}

-- A call of the maintenance, raising or not, and what its `try` leaves.
maint-call :
    (n : ℕ) (L : List Call) (env : Env) (c : Call) (R : State → Type 0)
    → is_maint c ≡ true
    → Triple (At n L) (attempt (call env c)) (At n (L ++ c ∷ [])) R
unfolding attempt except recovered call pure
maint-call n L env c R m s at =
    let next = At-call n L c s at in
    let logged : At n (L ++ c ∷ []) (record s { log = s.log ++ c ∷ [] }) =
      (next.0, next.1 ∙ ap (λ b. L ++ (if b then c ∷ [] else [])) m) in
    elim (Bool-cases (env.raises c)) [ inl bad ↦ rw bad logged | inr good ↦ rw good logged ]

-- `check_disk` returns if the setting can be read, and has then made its calls.
module _ (n : ℕ) (L : List Call) (env : Env) where
  abbrev Checked : State → Type 0
  Checked s =
      At (suc n) ((L ++ wal_guard ∷ []) ++ disk_due env n) s
      × (env.raises (read disk_setting) ≡ false)

  abbrev Unchecked : State → Type 0
  Unchecked s = At (suc n) (L ++ wal_guard ∷ []) s × (env.raises (read disk_setting) ≡ true)

  abbrev logged_read : State → State
  logged_read s = record s { log = s.log ++ read disk_setting ∷ [] }

  read_bad :
      (s : State)
      → env.raises (read disk_setting) ≡ true
      → get_int env disk_setting 6 s ≡ (none, logged_read s)
  unfolding get_int get_setting ◌>>=◌ ◌>>◌ call pure
  read_bad s bad = rw bad

  read_good :
      (s : State)
      → env.raises (read disk_setting) ≡ false
      → get_int env disk_setting 6 s ≡ (some (disk_every env), logged_read s)
  unfolding get_int get_setting ◌>>=◌ ◌>>◌ call pure
  read_good s good = rw good

  disk_step-Triple :
      (b : Bool)
      → env.raises (read disk_setting) ≡ false
      → (s : State) → At (suc n) (L ++ wal_guard ∷ []) s
      → Ends
          (λ s'.
            At (suc n) ((L ++ wal_guard ∷ []) ++ (if b then disk_check ∷ [] else [])) s'
            × (env.raises (read disk_setting) ≡ false))
          Unchecked
          (when b (attempt (call env disk_check)) s)
  unfolding when pure attempt except recovered call
  disk_step-Triple false good s at = ((at.0, at.1 ∙ sym (append-nil _)), good)
  disk_step-Triple true good s at = elim (Bool-cases (env.raises disk_check)) [
    | inl bad ↦ rw bad (At-call (suc n) (L ++ wal_guard ∷ []) disk_check s at, good)
    | inr fine ↦ rw fine (At-call (suc n) (L ++ wal_guard ∷ []) disk_check s at, good)
  ]

  check_disk-Triple : Triple (At (suc n) L) (check_disk env n) Checked Unchecked
  unfolding check_disk ◌>>=◌ bound
  check_disk-Triple =
      then-Triple Unchecked (At (suc n) L) (At (suc n) (L ++ wal_guard ∷ [])) Checked _ _
        (maint-call (suc n) L env wal_guard Unchecked refl)
        (λ s at.
          let read_at : At (suc n) (L ++ wal_guard ∷ []) (logged_read s) =
            At-plain (suc n) _ (read disk_setting) s refl at in
          elim (Bool-cases (env.raises (read disk_setting))) [
            | inl bad ↦ rw (read_bad s bad) (read_at, bad)
            | inr good ↦ rw (read_good s good) (
                disk_step-Triple (not (ltb (disk_every env) 1 || not (every (disk_every env) n)))
                  good (logged_read s) read_at)
          ])

  -- From `Checked`, the hourly calls.
  abbrev Done : State → Type 0
  Done s = At (suc n) (L ++ due env n) s

  due-Unchecked : (s : State) → Unchecked s → Done s
  due-Unchecked s h = (
    h.0.0,
    h.0.1 ∙ ap (λ b. L ++ wal_guard ∷ (if b then [] else disk_due env n ++ hourly_due n)) (sym h.1),
  )

  due-of_checked :
      (s : State)
      → At (suc n) (((L ++ wal_guard ∷ []) ++ disk_due env n) ++ hourly_due n) s
      → env.raises (read disk_setting) ≡ false
      → Done s
  due-of_checked s at good = (
    at.0,
    at.1
        ∙ append_assoc (L ++ wal_guard ∷ []) (disk_due env n) (hourly_due n)
        ∙ append_assoc L (wal_guard ∷ []) (disk_due env n ++ hourly_due n)
        ∙ ap (λ b. L ++ wal_guard ∷ (if b then [] else disk_due env n ++ hourly_due n)) (sym good),
  )

  hourly_step-Triple :
      (b : Bool) (L' : List Call) (R : State → Type 0)
      → Triple
          (At (suc n) L')
          (when b (attempt (call env retention) >> attempt (call env hygiene)))
          (At (suc n) (L' ++ (if b then retention ∷ hygiene ∷ [] else [])))
          R
  unfolding when pure
  hourly_step-Triple false L' R s at = (at.0, at.1 ∙ sym (append-nil L'))
  hourly_step-Triple true L' R s at =
      subst
        (λ M'.
          Triple (At (suc n) L') (attempt (call env retention) >> attempt (call env hygiene))
            (At (suc n) M') R)
        (append_assoc L' (retention ∷ []) (hygiene ∷ []))
        (then-Triple R (At (suc n) L') (At (suc n) (L' ++ retention ∷ [])) _ _ _
          (maint-call (suc n) L' env retention R refl)
          (maint-call (suc n) (L' ++ retention ∷ []) env hygiene R refl))
        s at

  pub maintenance-Triple : Triple (At (suc n) L) (maintenance env n) Done Done
  unfolding maintenance run_retention
  maintenance-Triple =
      then-Triple Done (At (suc n) L) Checked Done _ _
        (λ s at.
          Ends-weaken Checked Unchecked Checked Done _ (λ _ c. c) due-Unchecked
            (check_disk-Triple s at))
        (λ s c.
          Ends-weaken _ Done Done Done _ (λ s' at. due-of_checked s' at c.1) (λ _ d. d)
            (hourly_step-Triple (every 360 n) _ Done s c.0))
