-- ===== src/Auth/Redirect.antt =====
-- auth.py, `safe_next`: the target of the redirect after a login. What urlparse finds is a
-- parameter.
use protek.Prelude.{
  Str, Option, Bool, true, not, ◌||◌, ◌&&◌, [], ◌∷◌, ◌==◌, nat_eq, str_eq, if◌then◌else◌, any, ◌≡◌,
  arith,
}
use protek.Prelude.Text.{lit, is_empty, or_default, strip, starts_with, has_char}

-- `urlparse(t).scheme` and `urlparse(t).netloc`
pub record UrlParse : Type 0 where
  pub scheme : Str → Str
  pub netloc : Str → Str

abbrev pub control_chars : Str
control_chars = b'\r' ∷ b'\n' ∷ b'\t' ∷ 0 ∷ []

unfoldable pub has_control : Str → Bool
has_control t = any (λ c. has_char c t) control_chars

-- `sub in s`
unfoldable pub has_text : Str → Str → Bool
has_text sub [] = is_empty sub
has_text sub (c ∷ s) = starts_with sub (c ∷ s) || has_text sub s

-- The forms that are refused by their text.
unfoldable pub is_foreign : Str → Bool
is_foreign t =
    has_text (lit "://") t
    || starts_with (lit "//") t
    || starts_with (lit "\\") t
    || starts_with (lit "/\\") t
    || starts_with (lit "/%5C") t
    || starts_with (lit "/%5c") t

unfoldable pub safe_next : UrlParse → Option Str → Str → Str
safe_next p target fallback =
    let t = strip (or_default target []) in
    if is_empty t || has_control t
    then fallback
    else if is_foreign t
    then fallback
    else if not (is_empty (p.scheme t)) || not (is_empty (p.netloc t))
    then fallback
    else if starts_with (lit "/") t
    then t
    else fallback

-- A path of the own site: one slash and no second one, in any spelling that a browser takes for
-- one, no scheme, and no character that could end a header.
abbrev pub is_local : Str → Bool
is_local t =
    starts_with (lit "/") t
    && not (starts_with (lit "//") t)
    && not (starts_with (lit "/\\") t)
    && not (has_text (lit "://") t)
    && not (has_control t)

-- Whatever the target of a redirect is, it leads to the fallback or to a path of the own site.
pub safe_next-is_local :
    (p : UrlParse) (target : Option Str) (fallback : Str)
    → (safe_next p target fallback == fallback || is_local (safe_next p target fallback)) ≡ true
unfolding safe_next is_foreign
safe_next-is_local p target fallback = ground (arith, str_eq.beq_iff fallback fallback)
