-- ===== src/Prelude/Text.antt =====
-- Python's text operations on lists of code points.
use Prim.Native.Nat.{ℕ, ◌+◌, ◌-◌}
use Prim.Native.Char.{code}
use Prim.Native.String.{String}
use mathlib.Core.Path.{◌≡◌, refl}
use mathlib.Core.Bool.{Bool, true, false, ◌&&◌, ◌||◌}
use mathlib.Core.List.{List, [], ◌∷◌, map, reverse}
use mathlib.Core.Option.{Option, none, some}
use protek.Prelude.Tests.{leb, ltb, if◌then◌else◌}
use protek.Prelude.Equality.{◌==◌, nat_eq, str_eq, Str}
use protek.Prelude.Lists.{any, drop}

-- A literal of the source.
abbrev pub lit : String → Str
lit String.[] = []
lit (String.◌∷◌ c s) = code c ∷ lit s

-- `str.isspace`, the code points that `strip` removes.
unfoldable pub is_space : ℕ → Bool
is_space c =
    (leb 9 c && leb c 13)
    || (leb 28 c && leb c 32)
    || c == 133
    || c == 160
    || c == 5760
    || (leb 8192 c && leb c 8202)
    || c == 8232
    || c == 8233
    || c == 8239
    || c == 8287
    || c == 12288

unfoldable pub lstrip : Str → Str
lstrip [] = []
lstrip (c ∷ s) = if is_space c then lstrip s else c ∷ s

unfoldable pub strip : Str → Str
unfolding lstrip is_space
strip s = reverse (lstrip (reverse (lstrip s)))

-- `str.lower` on the letters A to Z; other code points are left as they are.
unfoldable pub lower_char : ℕ → ℕ
lower_char c = if leb b'A' c && leb c b'Z' then c + 32 else c

unfoldable pub lower : Str → Str
unfolding lower_char
lower = map lower_char

unfoldable pub starts_with : Str → Str → Bool
starts_with [] s = true
starts_with (p ∷ prefix) [] = false
starts_with (p ∷ prefix) (c ∷ s) = p == c && starts_with prefix s

-- `sub in s`
unfoldable pub contains_text : Str → Str → Bool
unfolding starts_with
contains_text sub [] = starts_with sub []
contains_text sub (c ∷ s) = starts_with sub (c ∷ s) || contains_text sub s

unfoldable pub ends_with : Str → Str → Bool
unfolding starts_with
ends_with suffix s = starts_with (reverse suffix) (reverse s)

-- `s[:-n]`
unfoldable pub drop_last : ℕ → Str → Str
drop_last n s = reverse (drop n (reverse s))

-- `s.replace(a, b)` for single code points
unfoldable pub replace_char : ℕ → ℕ → Str → Str
replace_char a b = map (λ c. if c == a then b else c)

-- `not s`
abbrev pub is_empty : Str → Bool
is_empty [] = true
is_empty _ = false

-- `s or t`
abbrev pub or_text : Str → Str → Str
or_text [] t = t
or_text (c ∷ s) t = c ∷ s

-- `x or t` for an optional text
abbrev pub or_default : Option Str → Str → Str
or_default none t = t
or_default (some s) t = or_text s t

pub or_text-nil : (s : Str) → or_text s [] ≡ s
or_text-nil [] = refl
or_text-nil (c ∷ s) = refl

-- `s.split(sep)`
unfoldable pub split_all : ℕ → Str → List Str
split_all sep [] = [] ∷ []
split_all sep (c ∷ s) =
    let parts = split_all sep s in
    if c == sep then [] ∷ parts else elim parts [ [] ↦ (c ∷ []) ∷ [] | p ∷ ps ↦ (c ∷ p) ∷ ps ]

-- `c in s`
abbrev pub has_char : ℕ → Str → Bool
has_char c s = any (λ d. d == c) s

-- `s < t`: the order of the code points
unfoldable pub str_ltb : Str → Str → Bool
str_ltb _ [] = false
str_ltb [] (d ∷ t) = true
str_ltb (c ∷ s) (d ∷ t) = if ltb c d then true else if ltb d c then false else str_ltb s t

-- `s.upper()`, on A to Z
unfoldable pub upper : Str → Str
upper s = map (λ c. if leb 97 c && leb c 122 then c - 32 else c) s
