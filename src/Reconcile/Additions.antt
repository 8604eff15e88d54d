-- ===== src/Reconcile/Additions.antt =====
-- reconcile.py: exactly which addresses `reconcile` proposes to add, and with which comment.
use protek.Prelude.{
  ℕ, ◌+◌, ◌≡◌, refl, ◌∙◌, Str, Option, none, some, Bool, ◌||◌, ◌&&◌, List, [], ◌∷◌, ◌==◌, str_eq,
  str_beq_iff, if◌then◌else◌, arith, any, Bool-cases, inl, inr,
}
use protek.Prelude.Dict.{
  Dict, lookup, contains, insert, set_default, contains-insert, lookup-append, lookup-set_default,
}
use protek.Prelude.Text.{is_empty}
use protek.Reconcile.Comment.{Decision, encode_comment, is_owned}
use protek.Reconcile.{
  MtEntry, ReconcileDiff, Owned, normalize_addr, value_of, collect_desired, entry_addr,
  collect_owned, add_step, add_loop, remove_step, remove_loop, desired_norm_of, reconcile,
}

-- The first decision for a value.
abbrev pub first_with : Str → List Decision → Option Decision
first_with v [] = none
first_with v (d ∷ ds) = if value_of d == v then some d else first_with v ds

-- Some owned entry has the address.
abbrev pub owns : List MtEntry → Str → Bool
owns es a = any (λ e. is_owned e.comment && entry_addr e == a) es

abbrev pub or_else {ℓ} : {A : Type ℓ} → Option A → Option A → Option A
or_else none y = y
or_else (some x) y = some x

pub lookup-collect_desired :
    (v : Str) (ds : List Decision) (m : Dict Str Decision)
    → lookup v (collect_desired ds m)
      ≡ or_else (lookup v m) (if is_empty v then none else first_with v ds)
unfolding collect_desired
lookup-collect_desired v [] m = ground arith
lookup-collect_desired v (d ∷ ds) m = ground (
  arith,
  lookup-collect_desired v ds m,
  lookup-collect_desired v ds (set_default (value_of d) d m),
  lookup-set_default (value_of d) v d m,
  str_beq_iff (value_of d) v,
)

pub contains-collect_owned :
    (a : Str) (es : List MtEntry) (owned : Owned) (n : ℕ)
    → contains a (collect_owned es owned n).0 ≡ (contains a owned || owns es a)
unfolding collect_owned
contains-collect_owned a [] owned n = ground arith
contains-collect_owned a (e ∷ es) owned n = elim (Bool-cases (is_owned e.comment)) [
  | inl mine ↦ ground (
    arith,
    contains-collect_owned a es (insert (entry_addr e) e owned) n,
    contains-insert (entry_addr e) a e owned,
  )
  | inr foreign ↦ ground (arith, contains-collect_owned a es owned (n + 1))
]

abbrev added : Owned → Dict Str Decision → Str → Option Str
added owned m v =
    if contains (normalize_addr v) owned
    then none
    else elim (lookup v m) [ none ↦ none | some d ↦ some (encode_comment d) ]

lookup-add_step :
    (v a : Str) (d : Decision) (owned : Owned) (diff : ReconcileDiff)
    → lookup v (add_step owned a d diff).to_add
      ≡ or_else (lookup v diff.to_add) (if a == v then added owned ((a, d) ∷ []) v else none)
unfolding add_step lookup
lookup-add_step v a d owned diff =
    ground (arith, lookup-append v diff.to_add ((a, encode_comment d) ∷ []), str_beq_iff a v)

lookup-add_loop :
    (v : Str) (owned : Owned) (m : Dict Str Decision) (diff : ReconcileDiff)
    → lookup v (add_loop owned m diff).to_add ≡ or_else (lookup v diff.to_add) (added owned m v)
unfolding add_loop lookup
lookup-add_loop v owned [] diff = ground arith
lookup-add_loop v owned ((a, d) ∷ m) diff = ground (
  arith,
  lookup-add_loop v owned m (add_step owned a d diff),
  lookup-add_step v a d owned diff,
  str_beq_iff a v,
)

to_add-remove_step :
    (norms : List Str) (a : Str) (e : MtEntry) (diff : ReconcileDiff)
    → (remove_step norms a e diff).to_add ≡ diff.to_add
unfolding remove_step
to_add-remove_step norms a e diff = ground arith

pub to_add-remove_loop :
    (norms : List Str) (owned : Owned) (diff : ReconcileDiff)
    → (remove_loop norms owned diff).to_add ≡ diff.to_add
unfolding remove_loop
to_add-remove_loop norms [] diff = refl
to_add-remove_loop norms ((a, e) ∷ owned) diff =
    to_add-remove_loop norms owned (remove_step norms a e diff) ∙ to_add-remove_step norms a e diff

-- The additions are a dict from addresses to comments, and this is its lookup: an address is
-- added exactly if it is the value of some decision, is not empty, and no owned entry has it
-- after normalization; the comment is that of the first decision with that value.
pub lookup-reconcile_to_add :
    (v : Str) (ds : List Decision) (es : List MtEntry)
    → lookup v (reconcile ds es).to_add ≡ (
        if is_empty v || owns es (normalize_addr v)
        then none
        else elim (first_with v ds) [ none ↦ none | some d ↦ some (encode_comment d) ])
unfolding reconcile lookup contains
lookup-reconcile_to_add v ds es =
    let desired = collect_desired ds [] in
    let owned = (collect_owned es [] 0).0 in
    let start : ReconcileDiff = record {
      to_add = [];
      to_remove = [];
      unchanged = 0;
      foreign_kept = (collect_owned es [] 0).1;
    } in
    ground (
      arith,
      to_add-remove_loop (desired_norm_of desired) owned (add_loop owned desired start),
      lookup-add_loop v owned desired start,
      lookup-collect_desired v ds [],
      contains-collect_owned (normalize_addr v) es [] 0,
    )
