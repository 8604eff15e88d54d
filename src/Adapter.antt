-- ===== src/Adapter.antt =====
-- bouncers/: the adapters between the reconciler and the targets. What an operation on a target
-- reports, shared by the adapters of RouterOS.
pub mod Mikrotik
use protek.Prelude.{
  ℕ, ◌+◌, ◌≡◌, refl, ap, arith, Str, Bool, true, false, not, List, [], ◌∷◌, ◌++◌, ◌==◌, str_eq,
  if◌then◌else◌, count_if, count_if-append, take, length, map,
}
use protek.Prelude.Text.{lit}
use protek.Reconciler.Bouncer.{Push}

-- The dict that `apply` returns.
pub record Tally : Type 0 where
  pub applied_add : ℕ
  pub applied_remove : ℕ
  pub errors : ℕ
  pub push_log : List Push

abbrev pub no_tally : Tally
no_tally = record { applied_add = 0; applied_remove = 0; errors = 0; push_log = [] }

-- How one operation went: done, done before (an error that says so), or refused with a text.
pub data Reply : Type 0 where
  done : Reply
  idempotent : Reply
  refused : Str → Reply

abbrev pub succeeded : Reply → Bool
succeeded (refused _) = false
succeeded _ = true

abbrev pub error_of : Reply → Str
error_of done = []
error_of idempotent = lit "idempotent"
error_of (refused e) = e

abbrev push : Str → Str → Reply → Push
push action ip r = record { ip = ip; action = action; success = succeeded r; error = error_of r }

-- The counters and the log after an addition.
unfoldable pub add_row : Str → Reply → Tally → Tally
add_row addr r t = record {
  applied_add = if succeeded r then t.applied_add + 1 else t.applied_add;
  applied_remove = t.applied_remove;
  errors = if succeeded r then t.errors else t.errors + 1;
  push_log = t.push_log ++ push (lit "add") addr r ∷ [];
}

-- The counters and the log after a removal.
unfoldable pub remove_row : Str → Reply → Tally → Tally
remove_row mt_id r t = record {
  applied_add = t.applied_add;
  applied_remove = if succeeded r then t.applied_remove + 1 else t.applied_remove;
  errors = if succeeded r then t.errors else t.errors + 1;
  push_log = t.push_log ++ push (lit "remove") mt_id r ∷ [];
}

-- The rows of the log that report a success.
abbrev pub successes : List Push → ℕ
successes = count_if (λ p. p.success)

abbrev pub failures : List Push → ℕ
failures = count_if (λ p. not p.success)

-- What a row is about: the action and the address, or the id.
abbrev pub subjects : List Push → List (Str × Str)
subjects = map (λ p. (p.action, p.ip))

-- The counters say what the log says.
unfoldable pub Balanced : Tally → Type 0
Balanced t =
    (t.applied_add + t.applied_remove ≡ successes t.push_log) × (t.errors ≡ failures t.push_log)

pub add_row-Balanced :
    (addr : Str) (r : Reply) (t : Tally) → Balanced t → Balanced (add_row addr r t)
unfolding add_row Balanced
add_row-Balanced addr r t h =
    let row = push (lit "add") addr r ∷ [] in
    (
      ground (arith, count_if-append (λ p. p.success) t.push_log row, h.0),
      ground (arith, count_if-append (λ p. not p.success) t.push_log row, h.1),
    )

pub remove_row-Balanced :
    (mt_id : Str) (r : Reply) (t : Tally) → Balanced t → Balanced (remove_row mt_id r t)
unfolding remove_row Balanced
remove_row-Balanced mt_id r t h =
    let row = push (lit "remove") mt_id r ∷ [] in
    (
      ground (arith, count_if-append (λ p. p.success) t.push_log row, h.0),
      ground (arith, count_if-append (λ p. not p.success) t.push_log row, h.1),
    )

pub subjects-append : (xs ys : List Push) → subjects (xs ++ ys) ≡ subjects xs ++ subjects ys
subjects-append [] ys = refl
subjects-append (x ∷ xs) ys = ap (λ r. (x.action, x.ip) ∷ r) (subjects-append xs ys)
