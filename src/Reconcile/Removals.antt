-- ===== src/Reconcile/Removals.antt =====
-- reconcile.py: exactly which entries `reconcile` proposes to remove.
use protek.Prelude.{
  ℕ, ◌+◌, ◌≡◌, refl, Str, Option, none, some, Bool, true, false, not, ◌||◌, ◌&&◌, List, [], ◌∷◌,
  ◌++◌, ◌==◌, str_eq, str_beq_iff, arith, any, any-append, any-ext, Bool-cases, inl, inr,
}
use protek.Prelude.Dict.{
  Dict, contains, insert, set_default, Unique, insert-Unique, except, any-insert,
}
use protek.Prelude.Text.{is_empty}
use protek.Reconcile.Comment.{Decision, is_owned}
use protek.Reconcile.Additions.{owns}
use protek.Reconcile.{
  MtEntry, ReconcileDiff, Owned, normalize_addr, value_of, collect_desired, entry_addr,
  collect_owned, add_step, add_loop, remove_step, remove_loop, append_id, entry_id, desired_norm_of,
  reconcile,
}

-- Some decision is for the address, after normalization.
abbrev pub desires : List Decision → Str → Bool
desires ds a = any (λ d. not (is_empty (value_of d)) && normalize_addr (value_of d) == a) ds

-- The entry has the id.
abbrev pub has_id : Str → MtEntry → Bool
has_id x e = elim (entry_id e) [ none ↦ false | some i ↦ i == x ]

-- Some entry with the id is owned, is not desired, and is the last owned one for its address.
abbrev pub removable : List Decision → Str → List MtEntry → Bool
removable ds x [] = false
removable ds x (e ∷ es) =
    (is_owned e.comment
      && not (owns es (entry_addr e))
      && not (desires ds (entry_addr e))
      && has_id x e)
    || removable ds x es

abbrev norms_have : Dict Str Decision → Str → Bool
norms_have m a = any (λ b. b == a) (desired_norm_of m)

norms_have-append :
    (m n : Dict Str Decision) (a : Str) → norms_have (m ++ n) a ≡ (norms_have m a || norms_have n a)
unfolding desired_norm_of
norms_have-append [] n a = refl
norms_have-append ((v, d) ∷ m) n a = ground (arith, norms_have-append m n a)

norms_have-of-contains :
    (v : Str) (m : Dict Str Decision) → contains v m ≡ true → norms_have m (normalize_addr v) ≡ true
unfolding desired_norm_of contains
norms_have-of-contains v [] h = ground arith
norms_have-of-contains v ((w, d) ∷ m) h = ground (
  arith,
  norms_have-of-contains v m,
  str_beq_iff w v,
  str_beq_iff (normalize_addr w) (normalize_addr v),
)

norms_have-set_default :
    (v : Str) (d : Decision) (m : Dict Str Decision) (a : Str)
    → norms_have (set_default v d m) a ≡ (norms_have m a || normalize_addr v == a)
unfolding set_default desired_norm_of
norms_have-set_default v d m a = ground (
  arith,
  norms_have-append m ((v, d) ∷ []) a,
  norms_have-of-contains v m,
  str_beq_iff (normalize_addr v) a,
)

norms_have-collect_desired :
    (a : Str) (ds : List Decision) (m : Dict Str Decision)
    → norms_have (collect_desired ds m) a ≡ (norms_have m a || desires ds a)
unfolding collect_desired
norms_have-collect_desired a [] m = ground arith
norms_have-collect_desired a (d ∷ ds) m = ground (
  arith,
  norms_have-collect_desired a ds m,
  norms_have-collect_desired a ds (set_default (value_of d) d m),
  norms_have-set_default (value_of d) d m a,
)

any-append_id :
    (x : Str) (i : Option Str) (ids : List Str)
    → any (λ j. j == x) (append_id i ids)
      ≡ (any (λ j. j == x) ids || elim i [ none ↦ false | some j ↦ j == x ])
unfolding append_id
any-append_id x none ids = ground arith
any-append_id x (some j) ids = ground (arith, any-append (λ j. j == x) ids (j ∷ []))

abbrev stale : (Str → Bool) → Str → Str × MtEntry → Bool
stale wanted x entry = not (wanted entry.0) && has_id x entry.1

any-remove_loop :
    (x : Str) (norms : List Str) (owned : Owned) (diff : ReconcileDiff)
    → any (λ j. j == x) (remove_loop norms owned diff).to_remove
      ≡ (any (λ j. j == x) diff.to_remove || any (stale (λ a. any (λ b. b == a) norms) x) owned)
unfolding remove_loop remove_step
any-remove_loop x norms [] diff = ground arith
any-remove_loop x norms ((a, e) ∷ owned) diff = ground (
  arith,
  any-remove_loop x norms owned (remove_step norms a e diff),
  any-append_id x (entry_id e) diff.to_remove,
)

-- Some owned entry, the last one for its address, passes the test.
abbrev any_last : (Str × MtEntry → Bool) → List MtEntry → Bool
any_last q [] = false
any_last q (e ∷ es) =
    (is_owned e.comment && not (owns es (entry_addr e)) && q (entry_addr e, e)) || any_last q es

-- The test of the entries that no owned entry of the list replaces.
abbrev unless_owned : List MtEntry → (Str × MtEntry → Bool) → Str × MtEntry → Bool
unless_owned es q entry = q entry && not (owns es entry.0)

except-unless_owned :
    (e : MtEntry) (es : List MtEntry) (q : Str × MtEntry → Bool) (owned : Owned)
    → is_owned e.comment ≡ true
    → any (except (entry_addr e) (unless_owned es q)) owned ≡ any (unless_owned (e ∷ es) q) owned
except-unless_owned e es q owned mine =
    any-ext (except (entry_addr e) (unless_owned es q)) (unless_owned (e ∷ es) q) owned λ entry.
      ground (arith, str_beq_iff (entry_addr e) entry.0, str_beq_iff entry.0 (entry_addr e))

any-collect_owned :
    (q : Str × MtEntry → Bool) (es : List MtEntry) (owned : Owned) (n : ℕ)
    → Unique owned
    → any q (collect_owned es owned n).0 ≡ (any (unless_owned es q) owned || any_last q es)
unfolding collect_owned
any-collect_owned q [] owned n u =
    ground (arith, any-ext q (unless_owned [] q) owned (λ entry. ground arith))
any-collect_owned q (e ∷ es) owned n u = elim (Bool-cases (is_owned e.comment)) [
  | inl mine ↦ ground (
    arith,
    any-collect_owned q es (insert (entry_addr e) e owned) n
        (insert-Unique (entry_addr e) e owned u),
    any-insert (entry_addr e) e (unless_owned es q) owned u,
    except-unless_owned e es q owned mine,
  )
  | inr foreign ↦ ground (
    arith,
    any-collect_owned q es owned (n + 1) u,
    any-ext (unless_owned es q) (unless_owned (e ∷ es) q) owned (λ entry. ground arith),
  )
]

any_last-stale :
    (wanted : Str → Bool) (ds : List Decision) (x : Str) (es : List MtEntry)
    → ((a : Str) → wanted a ≡ desires ds a)
    → any_last (stale wanted x) es ≡ removable ds x es
any_last-stale wanted ds x [] h = refl
any_last-stale wanted ds x (e ∷ es) h =
    ground (arith, h (entry_addr e), any_last-stale wanted ds x es h)

to_remove-add_loop :
    (owned : Owned) (m : Dict Str Decision) (diff : ReconcileDiff)
    → (add_loop owned m diff).to_remove ≡ diff.to_remove
unfolding add_loop add_step
to_remove-add_loop owned [] diff = refl
to_remove-add_loop owned ((a, d) ∷ m) diff =
    ground (arith, to_remove-add_loop owned m (add_step owned a d diff))

-- An id is proposed for removal exactly if some entry with that id is owned, no decision is for
-- its address after normalization, and no later owned entry has the same address.
pub any-reconcile_to_remove :
    (x : Str) (ds : List Decision) (es : List MtEntry)
    → any (λ i. i == x) (reconcile ds es).to_remove ≡ removable ds x es
unfolding reconcile desired_norm_of
any-reconcile_to_remove x ds es =
    let desired = collect_desired ds [] in
    let owned = (collect_owned es [] 0).0 in
    let start : ReconcileDiff = record {
      to_add = [];
      to_remove = [];
      unchanged = 0;
      foreign_kept = (collect_owned es [] 0).1;
    } in
    let wanted = norms_have desired in
    ground (
      arith,
      any-remove_loop x (desired_norm_of desired) owned (add_loop owned desired start),
      to_remove-add_loop owned desired start,
      any-collect_owned (stale wanted x) es [] 0 tt,
      any_last-stale wanted ds x es (λ a. norms_have-collect_desired a ds []),
    )
