-- ===== src/Reconcile/Comment.antt =====
-- reconcile.py: decisions, the ownership comment written to the router, and its reading.
use protek.Prelude.{
  ℕ, zero, suc, Str, Option, none, some, Bool, false, List, [], ◌∷◌, ◌++◌, ◌==◌, nat_eq,
  if◌then◌else◌,
}
use protek.Prelude.Text.{lit, strip, replace_char, starts_with, or_default}
use protek.Prelude.Decimal.{show_nat}
use protek.Prelude.Lists.{drop, length}

-- The keys of a decision dict that the code reads; a missing key and None are `none`.
pub record Decision : Type 0 where
  pub value : Option Str
  pub scope : Option Str
  pub origin : Option Str
  pub origin_source : Option Str
  pub scenario : Option Str
  pub lapi_id : Option ℕ
  pub id : Option ℕ

abbrev pub owner_prefix : Str
owner_prefix = lit "protek:"

abbrev pub colon : ℕ
colon = b':'

-- `_sanitize`
unfoldable pub sanitize : Str → Str
unfolding strip replace_char
sanitize s = strip (replace_char colon b'_' s)

-- `decision.get("lapi_id") or decision.get("id") or "0"`: 0 is false in Python
abbrev pub id_text : Option ℕ → Option ℕ → Str
id_text (some (suc n)) other = show_nat (suc n)
id_text _ (some (suc n)) = show_nat (suc n)
id_text _ _ = lit "0"

unfoldable pub comment_source : Decision → Str
comment_source d = sanitize (or_default d.origin_source (lit "local"))

unfoldable pub comment_scenario : Decision → Str
comment_scenario d = sanitize (or_default d.scenario [])

unfoldable pub comment_lapi_id : Decision → Str
comment_lapi_id d = sanitize (id_text d.lapi_id d.id)

-- protek:<origin_source>:<scenario>:<lapi_id>
unfoldable pub encode_comment : Decision → Str
encode_comment d =
    owner_prefix
    ++ (comment_source d ++ (colon ∷ (comment_scenario d ++ (colon ∷ comment_lapi_id d))))

pub record Comment : Type 0 where
  pub origin_source : Str
  pub scenario : Str
  pub lapi_id : Str

-- The text up to the first separator, and what follows the separator.
unfoldable pub partition : ℕ → Str → Str × Option Str
partition sep [] = ([], none)
partition sep (c ∷ s) =
    let (before, after) = partition sep s in if c == sep then ([], some s) else (c ∷ before, after)

-- `s.split(sep, n)`
unfoldable pub split_max : ℕ → ℕ → Str → List Str
split_max zero sep s = s ∷ []
split_max (suc n) sep s = elim (partition sep s).1 [
  | none ↦ s ∷ []
  | some rest ↦ (partition sep s).0 ∷ split_max n sep rest
]

-- `while len(parts) < 3: parts.append("")`, then the three parts
unfoldable pub fields_of : List Str → Comment
fields_of [] = record { origin_source = []; scenario = []; lapi_id = [] }
fields_of (a ∷ []) = record { origin_source = a; scenario = []; lapi_id = [] }
fields_of (a ∷ b ∷ []) = record { origin_source = a; scenario = b; lapi_id = [] }
fields_of (a ∷ b ∷ c ∷ _) = record { origin_source = a; scenario = b; lapi_id = c }

unfoldable pub decode_comment : Str → Option Comment
unfolding starts_with fields_of
decode_comment comment =
    if starts_with owner_prefix comment
    then some (fields_of (split_max 2 colon (drop (length owner_prefix) comment)))
    else none

-- `is_owned`; None and the empty text are not owned.
unfoldable pub is_owned : Option Str → Bool
unfolding starts_with
is_owned none = false
is_owned (some comment) = starts_with owner_prefix comment
