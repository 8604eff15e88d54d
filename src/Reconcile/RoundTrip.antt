-- ===== src/Reconcile/RoundTrip.antt =====
-- reconcile.py: what `decode_comment` reads back from a comment of `encode_comment`.
use mathlib.Core.List.{reverse, reverse-append, reverse-reverse}
use protek.Prelude.{
  ℕ, zero, suc, ◌≡◌, refl, ◌≢◌, Str, Option, none, some, true, [], ◌∷◌, ◌++◌, nat_eq, arith, All,
  Bool-cases, inl, inr, All-append,
}
use protek.Prelude.Text.{lit, is_space, lstrip, strip, replace_char, or_default}
use protek.Prelude.Decimal.{IsDigit, show_nat, show_nat-IsDigit, read_nat, read_nat-show_nat}
use protek.Reconcile.Comment.{
  Decision, colon, sanitize, id_text, comment_source, comment_scenario, comment_lapi_id,
  encode_comment, decode_comment, is_owned, partition, split_max,
}

-- No delimiter in the text.
abbrev pub NoColon : Str → Type 0
NoColon = All (λ c. c ≢ colon)

NoColon-reverse : (s : Str) → NoColon s → NoColon (reverse s)
NoColon-reverse [] h = h
NoColon-reverse (c ∷ s) h =
    rw (reverse-append (c ∷ []) s)
      (All-append _ (reverse s) (c ∷ []) (NoColon-reverse s h.1) (h.0, tt))

NoColon-lstrip : (s : Str) → NoColon s → NoColon (lstrip s)
unfolding lstrip
NoColon-lstrip [] h = h
NoColon-lstrip (c ∷ s) h = elim (Bool-cases (is_space c)) [
  | inl e ↦ rw e (NoColon-lstrip s h.1)
  | inr e ↦ rw e h
]

NoColon-replace_char : (s : Str) → NoColon (replace_char colon b'_' s)
unfolding replace_char
NoColon-replace_char [] = tt
NoColon-replace_char (c ∷ s) = (ground arith, NoColon-replace_char s)

pub NoColon-sanitize : (s : Str) → NoColon (sanitize s)
unfolding sanitize strip
NoColon-sanitize s =
    NoColon-reverse _
      (NoColon-lstrip _ (NoColon-reverse _ (NoColon-lstrip _ (NoColon-replace_char s))))

partition-append : (s t : Str) → NoColon s → partition colon (s ++ (colon ∷ t)) ≡ (s, some t)
unfolding partition
partition-append [] t h = refl
partition-append (c ∷ s) t h = ground (arith, partition-append s t h.1)

partition-NoColon : (s : Str) → NoColon s → partition colon s ≡ (s, none)
unfolding partition
partition-NoColon [] h = refl
partition-NoColon (c ∷ s) h = ground (arith, partition-NoColon s h.1)

split_max-fields :
    (a b c : Str)
    → NoColon a
    → NoColon b
    → split_max 2 colon (a ++ (colon ∷ (b ++ (colon ∷ c)))) ≡ a ∷ b ∷ c ∷ []
unfolding split_max
split_max-fields a b c ha hb =
    ground (arith, partition-append a (b ++ (colon ∷ c)) ha, partition-append b c hb)

comment_source-NoColon : (d : Decision) → NoColon (comment_source d)
unfolding comment_source
comment_source-NoColon d = NoColon-sanitize (or_default d.origin_source (lit "local"))

comment_scenario-NoColon : (d : Decision) → NoColon (comment_scenario d)
unfolding comment_scenario
comment_scenario-NoColon d = NoColon-sanitize (or_default d.scenario [])

decode_comment-encode_comment_fields :
    (d : Decision)
    → decode_comment (encode_comment d)
      ≡ some (record {
        origin_source = comment_source d;
        scenario = comment_scenario d;
        lapi_id = comment_lapi_id d;
      })
unfolding decode_comment encode_comment
decode_comment-encode_comment_fields d =
    rw
      (split_max-fields (comment_source d) (comment_scenario d) (comment_lapi_id d)
        (comment_source-NoColon d) (comment_scenario-NoColon d))
      refl

-- A text of digits is its own sanitized form.
replace_char-digits : (s : Str) → All IsDigit s → replace_char colon b'_' s ≡ s
unfolding replace_char
replace_char-digits [] h = refl
replace_char-digits (c ∷ s) h = ground (arith, replace_char-digits s h.1)

lstrip-digits : (s : Str) → All IsDigit s → lstrip s ≡ s
unfolding lstrip is_space
lstrip-digits [] h = refl
lstrip-digits (c ∷ s) h = ground arith

All-reverse : (s : Str) → All IsDigit s → All IsDigit (reverse s)
All-reverse [] h = tt
All-reverse (c ∷ s) h =
    rw (reverse-append (c ∷ []) s) (All-append _ (reverse s) (c ∷ []) (All-reverse s h.1) (h.0, tt))

sanitize-digits : (s : Str) → All IsDigit s → sanitize s ≡ s
unfolding sanitize strip
sanitize-digits s h =
    rw (replace_char-digits s h) (
      rw (lstrip-digits s h) (rw (lstrip-digits (reverse s) (All-reverse s h)) (reverse-reverse s)))

-- The number that stands in a comment.
abbrev pub chosen_id : Option ℕ → Option ℕ → ℕ
chosen_id (some (suc n)) other = suc n
chosen_id _ (some (suc n)) = suc n
chosen_id _ _ = 0

sanitize-show_nat : (n : ℕ) → read_nat (sanitize (show_nat n)) ≡ some n
sanitize-show_nat n = rw (sanitize-digits (show_nat n) (show_nat-IsDigit n)) (read_nat-show_nat n)

id_text-reads : (a b : Option ℕ) → read_nat (sanitize (id_text a b)) ≡ some (chosen_id a b)
unfolding sanitize strip lstrip is_space replace_char read_nat
id_text-reads (some (suc n)) b = sanitize-show_nat (suc n)
id_text-reads none (some (suc n)) = sanitize-show_nat (suc n)
id_text-reads (some zero) (some (suc n)) = sanitize-show_nat (suc n)
id_text-reads none none = refl
id_text-reads none (some zero) = refl
id_text-reads (some zero) none = refl
id_text-reads (some zero) (some zero) = refl

comment_lapi_id-reads :
    (d : Decision) → read_nat (comment_lapi_id d) ≡ some (chosen_id d.lapi_id d.id)
unfolding comment_lapi_id
comment_lapi_id-reads d = id_text-reads d.lapi_id d.id

-- Reading a written comment gives back the three sanitized fields, whatever the decision holds,
-- so no scenario name can shift one field into another; and the identifier reads back as the
-- decision's LAPI id, or as its own id where the former is missing or 0.
pub decode_comment-encode_comment :
    (d : Decision)
    → (decode_comment (encode_comment d)
        ≡ some (record {
          origin_source = comment_source d;
          scenario = comment_scenario d;
          lapi_id = comment_lapi_id d;
        }))
      × (read_nat (comment_lapi_id d) ≡ some (chosen_id d.lapi_id d.id))
decode_comment-encode_comment d = (decode_comment-encode_comment_fields d, comment_lapi_id-reads d)

pub is_owned-encode_comment : (d : Decision) → is_owned (some (encode_comment d)) ≡ true
unfolding is_owned encode_comment
is_owned-encode_comment d = refl
