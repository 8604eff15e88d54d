-- ===== src/Tokens.antt =====
-- api_tokens.py: bearer tokens with scopes. sha256, the random token, isalnum and
-- datetime.fromisoformat are parameters. An expiry is stored as the text that was given.
pub mod Grant
mod Tests
use protek.Prelude.{
  ℕ, ◌+◌, Str, Option, none, some, Bool, true, false, not, ◌&&◌, ◌||◌, List, [], ◌∷◌, ◌++◌, ◌==◌,
  nat_eq, str_eq, if◌then◌else◌, ltb, leb, any, all, select, take, drop, map,
}
use protek.Prelude.Text.{lit, is_empty, strip, starts_with}
use protek.Prelude.CommaList.{sorted_set, join_comma, comma_parts}

-- SCOPE_ORDER: the rank of a scope
unfoldable pub scope_order : Str → Option ℕ
scope_order s =
    if s == lit "stats"
    then some 0
    else if s == lit "read"
    then some 1
    else if s == lit "write"
    then some 2
    else if s == lit "admin"
    then some 3
    else none

abbrev pub is_scope : Str → Bool
is_scope s = elim (scope_order s) [ none ↦ false | some rank ↦ true ]

-- A row of api_tokens.
pub record Token : Type 0 where
  pub id : ℕ
  pub name : Str
  pub token_hash : Str
  pub token_prefix : Str
  pub scopes : Str
  pub expires_at : Option Str
  pub disabled : Bool
  pub last_used : Option (ℕ × Str)

pub record TokenTable : Type 0 where
  pub rows : List Token
  pub next_id : ℕ

pub data CreateError : Type 0 where
  bad_name unknown_scope no_scope : CreateError

pub data Created : Type 0 where
  refused : CreateError → Created
  created : (id : ℕ) → TokenTable → Created

unfoldable pub insert_token : (Str → Str) → Str → Str → Str → Option Str → TokenTable → TokenTable
insert_token hash name scopes raw expires_at t = record {
  rows =
      t.rows
      ++ record {
        id = t.next_id;
        name = name;
        token_hash = hash raw;
        token_prefix = take 11 raw;
        scopes = join_comma (sorted_set (comma_parts scopes));
        expires_at = expires_at;
        disabled = false;
        last_used = none;
      }
        ∷ [];
  next_id = t.next_id + 1;
}

-- `create_token`, with the token that it returns once
unfoldable pub create_token :
    (is_alnum : Str → Bool)
    → (hash : Str → Str) → (name scopes raw : Str) → (expires_at : Option Str) → TokenTable
    → Created
create_token is_alnum hash name scopes raw expires_at t =
    if is_empty name || not (is_alnum name)
    then refused bad_name
    else if not (all is_scope (comma_parts scopes))
    then refused unknown_scope
    else elim (comma_parts scopes) [
      | [] ↦ refused no_scope
      | s ∷ ss ↦ created t.next_id (insert_token hash name scopes raw expires_at t)
    ]

-- An UPDATE of the row of that id.
unfoldable pub update_token : ℕ → (Token → Token) → TokenTable → TokenTable
update_token tid change t = record t {
  rows = map (λ (r : Token). if r.id == tid then change r else r) t.rows;
}

unfoldable pub revoke_token : ℕ → TokenTable → TokenTable
revoke_token tid t = update_token tid (λ r. record r { disabled = true }) t

unfoldable pub delete_token : ℕ → TokenTable → TokenTable
delete_token tid t = record t { rows = select (λ (r : Token). not (r.id == tid)) t.rows }

-- The first enabled row with the hash.
unfoldable pub find_token : Str → List Token → Option Token
find_token h [] = none
find_token h (r ∷ rows) =
    let later = find_token h rows in if r.token_hash == h && not r.disabled then some r else later

-- What `datetime.fromisoformat` makes of a text: it raises ValueError, or the time has no zone, or
-- it is an instant.
pub data ReadTime : Type 0 where
  unreadable naive : ReadTime
  instant : ℕ → ReadTime

-- `s.replace("Z", "+00:00")`
unfoldable pub replace_z : Str → Str
replace_z [] = []
replace_z (c ∷ s) = (if c == b'Z' then lit "+00:00" else c ∷ []) ++ replace_z s

-- What the test of the expiry comes to: a time without a zone cannot be compared with one that has
-- one, and the TypeError is not caught.
pub data Expiry : Type 0 where
  valid expired raises_type_error : Expiry

unfoldable pub compare_time : ℕ → ReadTime → Expiry
compare_time now unreadable = valid
compare_time now naive = raises_type_error
compare_time now (instant at) = if ltb at now then expired else valid

unfoldable pub check_expiry : (read_time : Str → ReadTime) → ℕ → Option Str → Expiry
unfolding replace_z compare_time
check_expiry read_time now none = valid
check_expiry read_time now (some text) =
    if is_empty text then valid else compare_time now (read_time (replace_z text))

-- What `lookup` answers: None, the row before its stamp, or the exception.
pub data Answer : Type 0 where
  nobody type_error : Answer
  found : Token → Answer

unfoldable pub stamp_used : (ip : Str) → ℕ → Token → TokenTable → TokenTable
stamp_used ip now r t = update_token r.id (λ u. record u { last_used = some (now, ip) }) t

unfoldable pub answer_for : (ip : Str) → ℕ → Token → TokenTable → Expiry → Answer × TokenTable
unfolding stamp_used
answer_for ip now r t valid = (found r, stamp_used ip now r t)
answer_for ip now r t expired = (nobody, t)
answer_for ip now r t raises_type_error = (type_error, t)

-- `lookup`, with the table that it leaves
unfoldable pub lookup :
    (Str → Str)
    → (read_time : Str → ReadTime) → (ip : Str) → ℕ
    → Str
    → TokenTable
    → Answer × TokenTable
unfolding answer_for check_expiry
lookup hash read_time ip now raw t =
    if is_empty raw then (nobody, t) else elim (find_token (hash raw) t.rows) [
      | none ↦ (nobody, t)
      | some r ↦ answer_for ip now r t (check_expiry read_time now r.expires_at)
    ]

abbrev pub scope_set : Token → List Str
scope_set r = comma_parts r.scopes

-- `SCOPE_ORDER.get(s, -1) >= need`
abbrev pub ranks_at_least : ℕ → Str → Bool
ranks_at_least need s = elim (scope_order s) [ none ↦ false | some rank ↦ leb need rank ]

unfoldable pub has_scope : List Str → Str → Bool
has_scope granted required =
    any (λ s. s == required) granted
    || elim (scope_order required) [ none ↦ false | some need ↦ any (ranks_at_least need) granted ]

pub data Reply : Type 0 where
  unauthorized_401 insufficient_scope_403 server_error_500 : Reply
  view : Token → Reply

-- The text of the token in the two headers; a missing header is empty.
unfoldable pub raw_token : Str → Str → Str
raw_token authorization x_protek_token =
    if starts_with (lit "Bearer ") authorization
    then strip (drop 7 authorization)
    else strip x_protek_token

unfoldable pub reply_to : (scope : Str) → Answer → Reply
unfolding has_scope
reply_to scope nobody = unauthorized_401
reply_to scope type_error = server_error_500
reply_to scope (found tok) =
    if has_scope (scope_set tok) scope then view tok else insufficient_scope_403

-- `require_token`; an exception that nothing catches is answered by a 500.
unfoldable pub require_token :
    (Str → Str)
    → (read_time : Str → ReadTime) → (ip : Str) → ℕ
    → (scope authorization x_protek_token : Str) → TokenTable
    → Reply × TokenTable
unfolding reply_to
require_token hash read_time ip now scope authorization x_protek_token t =
    let result = lookup hash read_time ip now (raw_token authorization x_protek_token) t in
    (reply_to scope result.0, result.1)
