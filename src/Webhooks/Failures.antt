-- ===== src/Webhooks/Failures.antt =====
-- The failures of a delivery, and the queue of dead letters that they leave.
use protek.Prelude.{
  ℕ, suc, ◌+◌, ◌-◌, ◌≤◌, ◌≡◌, refl, ap, sym, ◌∙◌, arith, Str, Option, none, some, Bool, true, List,
  [], ◌∷◌, ◌++◌, nat_eq, select, All, length, length-append,
}
use native.Mathlib.Nat.{add-zero}
use mathlib.Core.List.{append-nil, append_assoc}
use protek.Webhooks.{
  Letter, Sub, Tables, Outside, is_kept, new_letter, update_sub, secret_of, attempts, backoff,
}
use protek.Webhooks.Letters.{Sound, IsRecent}

-- The failure of one subscriber, from what its attempts came to.
abbrev pub failure : ℕ → Option Str → List (ℕ × Str)
failure sub_id none = []
failure sub_id (some err) = (sub_id, err) ∷ []

-- The errors of the subscribers that gave no acknowledgement in three attempts, in their order; a
-- subscriber whose row is gone is left out.
module _ {S : Type 0} (out : Outside S) (event_type payload : Str) (table : List Sub) where
  unfoldable pub failures : List Sub → S → List (ℕ × Str)
  failures [] s = []
  failures (sub ∷ subs) s = elim (secret_of sub.id table) [
    | none ↦ failures subs s
    | some secret ↦
        let r = attempts out sub.url secret event_type payload backoff [] s in
        failure sub.id r.0 ++ failures subs r.1
  ]

-- The letters of some failures, numbered from `next`.
unfoldable pub letters_of : (event_type payload : Str) → ℕ → List (ℕ × Str) → List Letter
letters_of event_type payload next [] = []
letters_of event_type payload next ((sub_id, err) ∷ fs) =
    new_letter next sub_id event_type payload err ∷ letters_of event_type payload (suc next) fs

pub secret_of-update_sub :
    (i j : ℕ) (f : Sub → Sub) (subs : List Sub)
    → ((sub : Sub) → ((f sub).id ≡ sub.id) × ((f sub).hmac_secret ≡ sub.hmac_secret))
    → secret_of i (update_sub j f subs) ≡ secret_of i subs
unfolding secret_of update_sub
secret_of-update_sub i j f [] h = refl
secret_of-update_sub i j f (sub ∷ subs) h = ground (arith, h sub, secret_of-update_sub i j f subs h)

select-select :
    (p q : Letter → Bool) (xs : List Letter)
    → ((l : Letter) → p l ≡ true → q l ≡ true)
    → select p (select q xs) ≡ select p xs
select-select p q [] h = refl
select-select p q (x ∷ xs) h = ground (arith, h x, select-select p q xs h)

select-append :
    (p : Letter → Bool) (xs ys : List Letter) → select p (xs ++ ys) ≡ select p xs ++ select p ys
select-append p [] ys = refl
select-append p (x ∷ xs) ys = ground (arith, select-append p xs ys)

-- The letters that are kept once `next` ids were given out.
abbrev pub kept_at : ℕ → List Letter → List Letter
kept_at next = select (is_kept (next - 1))

kept_at-recent : (next : ℕ) (ls : List Letter) → All (IsRecent next) ls → kept_at next ls ≡ ls
kept_at-recent next [] h = refl
kept_at-recent next (l ∷ ls) h = ground (arith, kept_at-recent next ls h.1)

-- Only the largest id counts: an earlier DELETE takes nothing that a later one would leave.
kept_at-kept :
    (next next' : ℕ) (xs ys : List Letter)
    → next ≤ next'
    → kept_at next' (select (is_kept (next - 1)) xs ++ ys) ≡ kept_at next' (xs ++ ys)
kept_at-kept next next' xs ys h =
    select-append (is_kept (next' - 1)) (select (is_kept (next - 1)) xs) ys
    ∙ ap (λ l. l ++ kept_at next' ys)
        (select-select (is_kept (next' - 1)) (is_kept (next - 1)) xs (λ l k. ground arith))
    ∙ sym (select-append (is_kept (next' - 1)) xs ys)

-- The tables after the delivery, but for the counters of the subscribers.
pub record After (t : Tables) (fs : List (ℕ × Str)) (event_type payload : Str) (u : Tables)
    : Type 0 where
  pub letters :
      u.letters
      ≡ kept_at
          (t.next_letter + length fs)
          (t.letters ++ letters_of event_type payload t.next_letter fs)
  pub next_letter : u.next_letter ≡ t.next_letter + length fs

letters_of-append :
    (event_type payload : Str) (next : ℕ) (fs gs : List (ℕ × Str))
    → letters_of event_type payload next (fs ++ gs)
      ≡ letters_of event_type payload next fs ++ letters_of event_type payload (next + length fs) gs
unfolding letters_of
letters_of-append event_type payload next [] gs = rw add-zero
letters_of-append event_type payload next ((i, err) ∷ fs) gs =
    let shift : suc next + length fs ≡ next + suc (length fs) = omega arith in
    ap (λ l. new_letter next i event_type payload err ∷ l)
      (letters_of-append event_type payload (suc next) fs gs
        ∙ ap
            (λ k. letters_of event_type payload (suc next) fs ++ letters_of event_type payload k gs)
            shift)

pub After-append :
    (t u v : Tables) (fs gs : List (ℕ × Str)) (event_type payload : Str)
    → After t fs event_type payload u
    → After u gs event_type payload v
    → After t (fs ++ gs) event_type payload v
After-append t u v fs gs event_type payload h k =
    let m = t.next_letter + length fs in
    let n = m + length gs in
    let first = letters_of event_type payload t.next_letter fs in
    let second = letters_of event_type payload m gs in
    let total : n ≡ t.next_letter + length (fs ++ gs) = omega (arith, length-append fs gs) in
    record {
      letters =
          k.letters
          ∙ ap (λ i. kept_at (i + length gs) (u.letters ++ letters_of event_type payload i gs))
              h.next_letter
          ∙ ap (λ l. kept_at n (l ++ second)) h.letters
          ∙ kept_at-kept m n (t.letters ++ first) second (omega arith)
          ∙ ap (kept_at n) (append_assoc t.letters first second)
          ∙ ap (λ l. kept_at n (t.letters ++ l))
              (sym (letters_of-append event_type payload t.next_letter fs gs))
          ∙ ap
              (λ i. kept_at i (t.letters ++ letters_of event_type payload t.next_letter (fs ++ gs)))
              total;
      next_letter = omega (arith, h.next_letter, k.next_letter, length-append fs gs);
    }

-- No failure: the letters were recent, and are kept.
pub After-none :
    (t u : Tables) (event_type payload : Str)
    → Sound t
    → u.letters ≡ t.letters
    → u.next_letter ≡ t.next_letter
    → After t [] event_type payload u
unfolding letters_of
After-none t u event_type payload h same next = record {
  letters =
      same
      ∙ sym (
          ap (λ n. kept_at n (t.letters ++ [])) (add-zero t.next_letter)
          ∙ ap (kept_at t.next_letter) (append-nil t.letters)
          ∙ kept_at-recent t.next_letter t.letters h.recent);
  next_letter = next ∙ sym (add-zero t.next_letter);
}
