-- ===== src/Prelude/Decimal.antt =====
-- `str(n)` and `int(s)` on numbers of at least 0.
use Prim.Native.Nat.{ℕ, zero, suc, ◌+◌, ◌-◌, ◌*◌, ◌/◌, ◌%◌, ◌≤◌, ◌<◌}
use mathlib.Core.Path.{◌≡◌, refl, ◌∙◌}
use mathlib.Core.Bool.{true, false, ◌&&◌}
use mathlib.Core.List.{[], ◌∷◌}
use mathlib.Core.Option.{Option, none, some}
use mathlib.Core.Logic.{◌≢◌}
use native.Mathlib.Omega.{arith}
use protek.Prelude.Tests.{ltb, leb, if◌then◌else◌}
use protek.Prelude.Equality.{Str}
use protek.Prelude.Lists.{All}

-- The digits of `n` in front of `out`; a number below `fuel` never runs out of it.
digits_from : ℕ → ℕ → Str → Str
digits_from zero n out = out
digits_from (suc fuel) n out = elim (ltb n 10) [
  | true ↦ (48 + n) ∷ out
  | false ↦ digits_from fuel (n / 10) ((48 + n % 10) ∷ out)
]

unfoldable pub show_nat : ℕ → Str
unfolding digits_from
show_nat n = digits_from (suc n) n []

-- `int(s)` of a text of digits; None stands for `ValueError`.
unfoldable pub read_digits : ℕ → Str → Option ℕ
read_digits acc [] = some acc
read_digits acc (c ∷ s) =
    let rest = read_digits (acc * 10 + (c - 48)) s in if leb 48 c && leb c 57 then rest else none

unfoldable pub read_nat : Str → Option ℕ
unfolding read_digits
read_nat [] = none
read_nat (c ∷ s) = read_digits 0 (c ∷ s)

abbrev pub IsDigit : ℕ → Type 0
IsDigit c = (48 ≤ c) × (c ≤ 57)

digits_from-IsDigit :
    (fuel n : ℕ) (out : Str) → All IsDigit out → All IsDigit (digits_from fuel n out)
unfolding digits_from
digits_from-IsDigit zero n out h = h
digits_from-IsDigit (suc fuel) n out h =
    ground (arith, digits_from-IsDigit fuel (n / 10) ((48 + n % 10) ∷ out))

pub show_nat-IsDigit : (n : ℕ) → All IsDigit (show_nat n)
unfolding show_nat
show_nat-IsDigit n = digits_from-IsDigit (suc n) n [] tt

-- Reading what was printed: the digits in front leave the value `n` as the accumulator.
read_digits-digits_from :
    (fuel n : ℕ) (out : Str) → n < fuel → read_digits 0 (digits_from fuel n out) ≡ read_digits n out
unfolding read_digits digits_from
read_digits-digits_from zero n out h = absurd (omega arith)
read_digits-digits_from (suc fuel) n out h =
    ground (arith, read_digits-digits_from fuel (n / 10) ((48 + n % 10) ∷ out))

digits_from-ne-nil : (fuel n c : ℕ) (out : Str) → digits_from fuel n (c ∷ out) ≢ []
unfolding digits_from
digits_from-ne-nil zero n c out h = cc
digits_from-ne-nil (suc fuel) n c out h =
    ground (arith, digits_from-ne-nil fuel (n / 10) (48 + n % 10) (c ∷ out))

pub show_nat-ne-nil : (n : ℕ) → show_nat n ≢ []
unfolding show_nat
show_nat-ne-nil n h = ground (arith, digits_from-ne-nil n (n / 10) (48 + n % 10) [])

read_nat-eq : (s : Str) → s ≢ [] → read_nat s ≡ read_digits 0 s
unfolding read_nat
read_nat-eq [] h = absurd (h refl)
read_nat-eq (c ∷ s) h = refl

pub read_nat-show_nat : (n : ℕ) → read_nat (show_nat n) ≡ some n
read_nat-show_nat n =
    read_nat-eq (show_nat n) (show_nat-ne-nil n)
    ∙ unfold show_nat read_digits in read_digits-digits_from (suc n) n [] (omega arith)
