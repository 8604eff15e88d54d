-- ===== src/Tokens/Tests.antt =====
-- api_tokens.py on one token.
use protek.Prelude.{◌≡◌, refl, Str, none, some, true, false, [], str_eq, ◌==◌, if◌then◌else◌}
use protek.Prelude.Equality.{str_beq}
use protek.Prelude.Text.{lit, strip, lstrip, is_space, split_all}
use protek.Prelude.CommaList.{comma_parts, strip_parts}
use protek.Tokens.{
  Token, TokenTable, ReadTime, naive, instant, check_expiry, type_error, found, created,
  create_token, insert_token, lookup, find_token, answer_for, compare_time, replace_z, scope_order,
  scope_set, has_scope, revoke_token, delete_token,
}
use protek.Tokens.Grant.{is_not, lookup-create_token, lookup-revoke_token}

abbrev empty_table : TokenTable
empty_table = record { rows = []; next_id = 1 }

abbrev hash : Str → Str
hash raw = lit "h"

-- A date alone has no zone.
abbrev read_time : Str → ReadTime
read_time text = if text == lit "2027-01-01" then naive else instant 9

abbrev table : TokenTable
table = insert_token hash (lit "ci") (lit "write, stats") (lit "pk_1") none empty_table

made :
    create_token (λ n. true) hash (lit "ci") (lit "write, stats") (lit "pk_1") none empty_table
    ≡ created 1 table
unfolding create_token scope_order comma_parts strip_parts split_all strip lstrip is_space str_beq
made = refl

lookup-create_token_example :
    (tok : Token) × ((lookup hash read_time (lit "10.0.0.1") 5 (lit "pk_1") table).0 ≡ found tok)
    × (tok.id ≡ 1)
    × (has_scope (scope_set tok) (lit "read")
        ≡ has_scope (comma_parts (lit "write, stats")) (lit "read"))
lookup-create_token_example =
    lookup-create_token (λ n. true) hash read_time (lit "ci") (lit "write, stats") (lit "pk_1")
      (lit "10.0.0.1") (lit "read") none 5 1 empty_table table made refl refl

-- `write` implies `read`, and not `admin`.
implies-read : has_scope (comma_parts (lit "write, stats")) (lit "read") ≡ true
unfolding has_scope scope_order comma_parts strip_parts split_all strip lstrip is_space str_beq
implies-read = refl

not-admin : has_scope (comma_parts (lit "write, stats")) (lit "admin") ≡ false
unfolding has_scope scope_order comma_parts strip_parts split_all strip lstrip is_space str_beq
not-admin = refl

lookup-revoke_token_example :
    (is_not 1 (lookup hash read_time (lit "10.0.0.1") 5 (lit "pk_1") (revoke_token 1 table)).0
      ≡ true)
    × (is_not 1 (lookup hash read_time (lit "10.0.0.1") 5 (lit "pk_1") (delete_token 1 table)).0
        ≡ true)
lookup-revoke_token_example =
    lookup-revoke_token hash read_time (lit "10.0.0.1") (lit "pk_1") 5 1 table

-- A token with a date for its expiry cannot be looked up.
naive_expiry :
    (lookup hash read_time (lit "10.0.0.1") 5 (lit "pk_1") (
      insert_token hash
        (lit "ci")
        (lit "read")
        (lit "pk_1")
        (some (lit "2027-01-01"))
        empty_table)).0
    ≡ type_error
unfolding lookup insert_token find_token answer_for check_expiry compare_time replace_z str_beq
naive_expiry = refl
