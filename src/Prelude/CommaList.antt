-- ===== src/Prelude/CommaList.antt =====
-- Sets of texts as sorted lists, and their comma-separated form: `",".join(sorted(s))` and
-- `{x.strip() for x in s.split(",") if x.strip()}`.
use mathlib.Core.Path.{◌≡◌, refl, ap, ◌∙◌}
use mathlib.Core.Logic.{inl, inr}
use mathlib.Core.Bool.{Bool, true, false, not, ◌&&◌, ◌||◌}
use mathlib.Core.List.{List, [], ◌∷◌, ◌++◌}
use native.Mathlib.Omega.{arith}
use protek.Prelude.Tests.{if◌then◌else◌, Bool-cases}
use protek.Prelude.Equality.{◌==◌, nat_eq, str_eq, Str, str_beq_iff}
use protek.Prelude.Lists.{any, all}
use protek.Prelude.Text.{str_ltb, split_all, strip, is_empty, has_char}

-- `sorted` on a set: the order of the code points, each text once
unfoldable pub insert_sorted : Str → List Str → List Str
insert_sorted x [] = x ∷ []
insert_sorted x (y ∷ ys) =
    let later = insert_sorted x ys in
    if x == y then y ∷ ys else if str_ltb x y then x ∷ y ∷ ys else y ∷ later

unfoldable pub sorted_set : List Str → List Str
sorted_set [] = []
sorted_set (x ∷ xs) = insert_sorted x (sorted_set xs)

any-insert_sorted :
    (q : Str → Bool) (x : Str) (ys : List Str) → any q (insert_sorted x ys) ≡ (q x || any q ys)
unfolding insert_sorted
any-insert_sorted q x [] = refl
any-insert_sorted q x (y ∷ ys) = elim (Bool-cases (x == y)) [
  | inl same ↦ rw same (ground (arith, ap q ((str_beq_iff x y).0 same)))
  | inr other ↦ rw other (ground (arith, any-insert_sorted q x ys))
]

pub any-sorted_set : (q : Str → Bool) (xs : List Str) → any q (sorted_set xs) ≡ any q xs
unfolding sorted_set
any-sorted_set q [] = refl
any-sorted_set q (x ∷ xs) =
    ground (arith, any-insert_sorted q x (sorted_set xs), any-sorted_set q xs)

-- `",".join(xs)`
unfoldable pub join_comma : List Str → Str
join_comma [] = []
join_comma (x ∷ []) = x
join_comma (x ∷ y ∷ xs) = x ++ (b',' ∷ join_comma (y ∷ xs))

unfoldable pub strip_parts : List Str → List Str
strip_parts [] = []
strip_parts (p ∷ ps) =
    let rest = strip_parts ps in if is_empty (strip p) then rest else strip p ∷ rest

unfoldable pub comma_parts : Str → List Str
comma_parts s = strip_parts (split_all b',' s)

-- A text that stands for itself in a comma-separated list.
abbrev pub is_part : Str → Bool
is_part x = not (has_char b',' x) && strip x == x && not (is_empty x)

split_all-append :
    (x s : Str) → has_char b',' x ≡ false → split_all b',' (x ++ (b',' ∷ s)) ≡ x ∷ split_all b',' s
unfolding split_all
split_all-append [] s h = refl
split_all-append (c ∷ x) s h = ground (arith, split_all-append x s)

split_all-single : (x : Str) → has_char b',' x ≡ false → split_all b',' x ≡ x ∷ []
unfolding split_all
split_all-single [] h = refl
split_all-single (c ∷ x) h = ground (arith, split_all-single x)

split_all-join_comma :
    (x : Str) (xs : List Str)
    → all is_part (x ∷ xs) ≡ true
    → split_all b',' (join_comma (x ∷ xs)) ≡ x ∷ xs
unfolding join_comma
split_all-join_comma x [] h = split_all-single x (ground arith)
split_all-join_comma x (y ∷ xs) h =
    split_all-append x (join_comma (y ∷ xs)) (ground arith)
    ∙ ap (λ rest. x ∷ rest) (split_all-join_comma y xs (ground arith))

strip_parts-parts : (xs : List Str) → all is_part xs ≡ true → strip_parts xs ≡ xs
unfolding strip_parts
strip_parts-parts [] h = refl
strip_parts-parts (x ∷ xs) h = ground (
  arith,
  strip_parts-parts xs,
  str_beq_iff (strip x) x,
  ap is_empty ((str_beq_iff (strip x) x).0 (ground arith)),
)

-- Reading a written list gives it back.
pub comma_parts-join_comma :
    (x : Str) (xs : List Str)
    → all is_part (x ∷ xs) ≡ true
    → comma_parts (join_comma (x ∷ xs)) ≡ x ∷ xs
unfolding comma_parts
comma_parts-join_comma x xs h =
    ap strip_parts (split_all-join_comma x xs h) ∙ strip_parts-parts (x ∷ xs) h
