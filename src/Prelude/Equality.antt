-- ===== src/Prelude/Equality.antt =====
-- Equality tests as an interface, with instances for numbers and for texts, which are lists of
-- code points.
use Prim.Native.Nat.{ℕ}
use mathlib.Core.Path.{◌≡◌, refl}
use mathlib.Core.Logic.{◌↔◌}
use mathlib.Core.Bool.{Bool, true, false, ◌&&◌}
use mathlib.Core.List.{List, [], ◌∷◌}
use native.Mathlib.Omega.{arith}
use protek.Prelude.Tests.{nat_beq, nat_beq_iff}

-- A text is the list of its code points.
abbrev pub Str : Type 0
Str = List ℕ

unfoldable pub str_beq : Str → Str → Bool
str_beq [] [] = true
str_beq (c ∷ s) (d ∷ t) = nat_beq c d && str_beq s t
str_beq _ _ = false

pub str_beq_sound : (s t : Str) → str_beq s t ≡ true → s ≡ t
unfolding str_beq
str_beq_sound [] [] h = refl
str_beq_sound [] (d ∷ t) h = ground arith
str_beq_sound (c ∷ s) [] h = ground arith
str_beq_sound (c ∷ s) (d ∷ t) h = ground (arith, str_beq_sound s t)

pub str_beq_refl : (s : Str) → str_beq s s ≡ true
unfolding str_beq
str_beq_refl [] = refl
str_beq_refl (c ∷ s) = ground (arith, str_beq_refl s)

pub str_beq_iff : (s t : Str) → (str_beq s t ≡ true) ↔ (s ≡ t)
str_beq_iff s t = (str_beq_sound s t, λ p. ground (arith, str_beq_refl s))

-- A type with a test that decides its equality.
pub record Eq {ℓ} (X : Type ℓ) : Type ℓ where
  pub beq : X → X → Bool
  pub beq_iff : (x y : X) → (beq x y ≡ true) ↔ (x ≡ y)

module _ {ℓ} {X : Type ℓ} ⦃e : Eq X⦄ where
  -- The test of the instance.
  infix 50 ◌==◌
  abbrev pub ◌==◌ : X → X → Bool
  x == y = e.beq x y

  pub ==_refl : (x : X) → (x == x) ≡ true
  ==_refl x = (e.beq_iff x x).1 refl

  pub ==→≡ : (x y : X) → (x == y) ≡ true → x ≡ y
  ==→≡ x y = (e.beq_iff x y).0

-- Numbers and texts as instances.
instance abbrev pub nat_eq : Eq ℕ
nat_eq = record { beq_iff = nat_beq_iff; beq = nat_beq }

instance abbrev pub str_eq : Eq Str
str_eq = record { beq = str_beq; beq_iff = str_beq_iff }
