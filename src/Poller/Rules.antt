-- ===== src/Poller/Rules.antt =====
-- Rules for the steps of a cycle: what holds after a step that returns, and after one that raises.
use protek.Prelude.{◌++◌, Option, none, some, Bool, true, false, [], ◌∷◌, Bool-cases, inl, inr}
use protek.Poller.Run.{
  Poller, Env, State, Call, M, ◌>>=◌, ◌>>◌, bound, pure, call, get_self, update, raise, recovered,
  except, attempt, when,
}

-- A rule for the steps: from `P`, a step that returns ends in `Q`, and one that raises in `R`.
abbrev pub Ends : {A : Type 0} → (State → Type 0) → (State → Type 0) → Option A × State → Type 0
Ends Q R (none, s) = R s
Ends Q R (some a, s) = Q s

abbrev pub Triple : {A : Type 0} (P : State → Type 0) (m : M A) (Q R : State → Type 0) → Type 0
Triple P m Q R = (s : State) → P s → Ends Q R (m s)

module _ (R : State → Type 0) where
  bound-Triple :
      {A B : Type 0} (Q S : State → Type 0) (f : A → M B) (r : Option A × State)
      → Ends Q R r
      → ((a : A) → Triple Q (f a) S R)
      → Ends S R (bound f r)
  unfolding bound
  bound-Triple Q S f (none, s) h k = h
  bound-Triple Q S f (some a, s) h k = k a s h

  pub bind-Triple :
      {A B : Type 0} (P Q S : State → Type 0) (m : M A) (f : A → M B)
      → Triple P m Q R
      → ((a : A) → Triple Q (f a) S R)
      → Triple P (m >>= f) S R
  unfolding ◌>>=◌
  bind-Triple P Q S m f h k s p = bound-Triple Q S f (m s) (h s p) k

  pub then-Triple :
      {B : Type 0} (P Q S : State → Type 0) (m : M (Unit {0})) (k : M B)
      → Triple P m Q R
      → Triple Q k S R
      → Triple P (m >> k) S R
  unfolding ◌>>◌
  then-Triple P Q S m k h l = bind-Triple P Q S m (λ _. k) h (λ _. l)

  recovered-Triple :
      {A : Type 0} (Q R' : State → Type 0) (handler : M A) (r : Option A × State)
      → Ends Q R' r
      → Triple R' handler Q R
      → Ends Q R (recovered handler r)
  unfolding recovered
  recovered-Triple Q R' handler (none, s) h k = k s h
  recovered-Triple Q R' handler (some a, s) h k = h

  pub except-Triple :
      {A : Type 0} (P Q R' : State → Type 0) (m handler : M A)
      → Triple P m Q R'
      → Triple R' handler Q R
      → Triple P (except m handler) Q R
  unfolding except
  except-Triple P Q R' m handler h k s p = recovered-Triple Q R' handler (m s) (h s p) k

pub Ends-weaken :
    {A : Type 0} (Q R Q' R' : State → Type 0) (r : Option A × State)
    → ((s : State) → Q s → Q' s)
    → ((s : State) → R s → R' s)
    → Ends Q R r
    → Ends Q' R' r
Ends-weaken Q R Q' R' (none, s) f g h = g s h
Ends-weaken Q R Q' R' (some a, s) f g h = f s h

pub ended : (Q : State → Type 0) (r : Option (Unit {0}) × State) → Ends Q Q r → Q r.1
ended Q (none, s) h = h
ended Q (some a, s) h = h

-- An invariant of a step, also where it raises.
abbrev pub Holds : {A : Type 0} (P : State → Type 0) (m : M A) → Type 0
Holds P m = Triple P m P P

module _ (P : State → Type 0) where
  pub bind-Holds :
      {A B : Type 0} (m : M A) (f : A → M B)
      → Holds P m
      → ((a : A) → Holds P (f a))
      → Holds P (m >>= f)
  bind-Holds m f = bind-Triple P P P P m f

  pub then-Holds :
      {B : Type 0} (m : M (Unit {0})) (k : M B) → Holds P m → Holds P k → Holds P (m >> k)
  then-Holds m k = then-Triple P P P P m k

  pub pure-Holds : {A : Type 0} (a : A) → Holds P (pure a)
  unfolding pure
  pure-Holds a s h = h

  pub raise-Holds : (A : Type 0) → Holds {A = A} P raise
  unfolding raise
  raise-Holds A s h = h

  pub get_self-Holds : Holds P get_self
  unfolding get_self
  get_self-Holds s h = h

  pub except-Holds :
      {A : Type 0} (m handler : M A) → Holds P m → Holds P handler → Holds P (except m handler)
  except-Holds m handler = except-Triple P P P P m handler

  pub attempt-Holds : (m : M (Unit {0})) → Holds P m → Holds P (attempt m)
  unfolding attempt
  attempt-Holds m h = except-Holds m (pure tt) h (pure-Holds tt)

  pub when-Holds : (b : Bool) (m : M (Unit {0})) → Holds P m → Holds P (when b m)
  unfolding when
  when-Holds true m h = h
  when-Holds false m h = pure-Holds tt

  pub Ends-call :
      (env : Env) (c : Call) (s : State)
      → P (record s { log = s.log ++ c ∷ [] })
      → Ends P P (call env c s)
  unfolding call
  Ends-call env c s h = elim (Bool-cases (env.raises c)) [
    | inl bad ↦ rw bad h
    | inr good ↦ rw good h
  ]

  pub call-Holds :
      (env : Env) (c : Call)
      → ((s : State) → P s → P (record s { log = s.log ++ c ∷ [] }))
      → Holds P (call env c)
  call-Holds env c keep s h = Ends-call env c s (keep s h)

  pub update-Holds :
      (f : Poller → Poller)
      → ((s : State) → P s → P (record s { self = f s.self }))
      → Holds P (update f)
  unfolding update
  update-Holds f keep s h = keep s h
