-- ===== src/Tokens/Grant.antt =====
-- api_tokens.py: what a token that was created lets through, and what ends it.
use protek.Prelude.{
  ℕ, ◌≡◌, refl, sym, ap, ◌∙◌, Str, Option, none, some, Bool, true, false, not, ◌&&◌, List, [], ◌∷◌,
  ◌++◌, ◌==◌, nat_eq, str_eq, str_beq_iff, if◌then◌else◌, leb, ltb, any, all, map, select, take,
  arith, Bool-cases, Option-cases, subst, inl, inr,
}
use protek.Prelude.Equality.{str_beq}
use protek.Prelude.Text.{lit, is_empty, strip, lstrip, is_space}
use protek.Prelude.CommaList.{
  sorted_set, join_comma, comma_parts, is_part, any-sorted_set, comma_parts-join_comma,
}
use protek.Tokens.{
  scope_order, is_scope, Token, TokenTable, created, insert_token, create_token, update_token,
  revoke_token, delete_token, find_token, ReadTime, unreadable, naive, instant, replace_z,
  compare_time, Expiry, valid, expired, raises_type_error, check_expiry, Answer, nobody, type_error,
  found, answer_for, lookup, scope_set, ranks_at_least, has_scope,
}

is_scope-is_part : (s : Str) → is_scope s ≡ true → is_part s ≡ true
unfolding scope_order strip lstrip is_space str_beq
is_scope-is_part s h = elim (Bool-cases (s == lit "stats")) [
  | inl stats ↦ rw ((str_beq_iff s (lit "stats")).0 stats) refl
  | inr no_stats ↦ elim (Bool-cases (s == lit "read")) [
    | inl read ↦ rw ((str_beq_iff s (lit "read")).0 read) refl
    | inr no_read ↦ elim (Bool-cases (s == lit "write")) [
      | inl write ↦ rw ((str_beq_iff s (lit "write")).0 write) refl
      | inr no_write ↦ elim (Bool-cases (s == lit "admin")) [
        | inl admin ↦ rw ((str_beq_iff s (lit "admin")).0 admin) refl
        | inr no_admin ↦ absurd (ground arith)
      ]
    ]
  ]
]

all-any : (q : Str → Bool) (xs : List Str) → all q xs ≡ not (any (λ x. not (q x)) xs)
all-any q [] = refl
all-any q (x ∷ xs) = ground (arith, all-any q xs)

all-is_part : (xs : List Str) → all is_scope xs ≡ true → all is_part xs ≡ true
all-is_part [] h = refl
all-is_part (x ∷ xs) h = ground (arith, is_scope-is_part x, all-is_part xs)

-- The scopes of a written list of scopes, read again, as a set.
any-written :
    (q : Str → Bool) (xs : List Str)
    → any (λ x. true) xs ≡ true
    → all is_scope xs ≡ true
    → any q (comma_parts (join_comma xs)) ≡ any q xs
any-written q [] h g = ground arith
any-written q (x ∷ xs) h g = ap (any q) (comma_parts-join_comma x xs (all-is_part (x ∷ xs) g))

any-stored :
    (q : Str → Bool) (xs : List Str)
    → any (λ x. true) xs ≡ true
    → all is_scope xs ≡ true
    → any q (comma_parts (join_comma (sorted_set xs))) ≡ any q xs
any-stored q xs h g =
    any-written q (sorted_set xs) (any-sorted_set (λ x. true) xs ∙ h) (
      all-any is_scope (sorted_set xs)
      ∙ ap not (any-sorted_set (λ x. not (is_scope x)) xs)
      ∙ sym (all-any is_scope xs)
      ∙ g)
    ∙ any-sorted_set q xs

any-need :
    (need : Option ℕ) (xs : List Str)
    → any (λ x. true) xs ≡ true
    → all is_scope xs ≡ true
    → elim need [
      | none ↦ false
      | some n ↦ any (ranks_at_least n) (comma_parts (join_comma (sorted_set xs)))
    ]
      ≡ elim need [ none ↦ false | some n ↦ any (ranks_at_least n) xs ]
any-need none xs h g = refl
any-need (some n) xs h g = any-stored (ranks_at_least n) xs h g

find_token-append :
    (h : Str) (rows : List Token) (r : Token)
    → any (λ (x : Token). x.token_hash == h) rows ≡ false
    → (r.token_hash == h && not r.disabled) ≡ true
    → find_token h (rows ++ r ∷ []) ≡ some r
unfolding find_token
find_token-append h [] r fresh new = ground arith
find_token-append h (x ∷ rows) r fresh new = ground (arith, find_token-append h rows r)

-- The row that `create_token` writes.
abbrev new_token : (Str → Str) → Str → Str → Str → Option Str → TokenTable → Token
new_token hash name scopes raw expires_at t = record {
  id = t.next_id;
  name = name;
  token_hash = hash raw;
  token_prefix = take 11 raw;
  scopes = join_comma (sorted_set (comma_parts scopes));
  expires_at = expires_at;
  disabled = false;
  last_used = none;
}

create_token-created :
    (is_alnum : Str → Bool) (hash : Str → Str) (name scopes raw : Str) (expires_at : Option Str)
    (t t' : TokenTable) (n : ℕ)
    → create_token is_alnum hash name scopes raw expires_at t ≡ created n t'
    → (n ≡ t.next_id)
      × (t' ≡ insert_token hash name scopes raw expires_at t)
      × (any (λ x. true) (comma_parts scopes) ≡ true)
      × (all is_scope (comma_parts scopes) ≡ true)
unfolding create_token
create_token-created is_alnum hash name scopes raw expires_at t t' n h = ground arith

-- What a lookup of a token answers, by the test of its expiry.
abbrev pub answer_by : Token → Expiry → Answer
answer_by tok valid = found tok
answer_by tok expired = nobody
answer_by tok raises_type_error = type_error

answer_for-eq :
    (ip : Str) (now : ℕ) (r : Token) (t : TokenTable) (x : Expiry)
    → (answer_for ip now r t x).0 ≡ answer_by r x
unfolding answer_for
answer_for-eq ip now r t valid = refl
answer_for-eq ip now r t expired = refl
answer_for-eq ip now r t raises_type_error = refl

lookup-insert_token :
    (hash : Str → Str) (read_time : Str → ReadTime) (name scopes raw ip : Str)
    (expires_at : Option Str) (now : ℕ) (t : TokenTable)
    → any (λ (x : Token). x.token_hash == hash raw) t.rows ≡ false
    → is_empty raw ≡ false
    → (lookup hash read_time ip now raw (insert_token hash name scopes raw expires_at t)).0
      ≡ answer_by
          (new_token hash name scopes raw expires_at t)
          (check_expiry read_time now expires_at)
unfolding lookup insert_token
lookup-insert_token hash read_time name scopes raw ip expires_at now t fresh full =
    let row = new_token hash name scopes raw expires_at t in
    let first =
      find_token-append (hash raw) t.rows row fresh
        (ground (arith, str_beq_iff (hash raw) (hash raw))) in
    rw (full, lookup)
      (rw first (answer_for-eq ip now row _ (check_expiry read_time now expires_at)))

-- The reading of an expiry: a missing or empty one limits nothing, like one that is unreadable.
abbrev pub reading : (Str → ReadTime) → Option Str → ReadTime
reading read_time none = unreadable
reading read_time (some []) = unreadable
reading read_time (some (c ∷ s)) = read_time (replace_z (c ∷ s))

-- What a lookup of the token should answer at a time.
abbrev pub answer_at : Token → ℕ → ReadTime → Answer
answer_at tok now unreadable = found tok
answer_at tok now naive = type_error
answer_at tok now (instant at) = if leb now at then found tok else nobody

answer_by-compare_time :
    (tok : Token) (now : ℕ) (at : ReadTime)
    → answer_by tok (compare_time now at) ≡ answer_at tok now at
unfolding compare_time
answer_by-compare_time tok now unreadable = refl
answer_by-compare_time tok now naive = refl
answer_by-compare_time tok now (instant at) = elim (Bool-cases (ltb at now)) [
  | inl past ↦ rw past (ground arith)
  | inr ahead ↦ rw ahead (ground arith)
]

answer_by-check_expiry :
    (tok : Token) (read_time : Str → ReadTime) (now : ℕ) (expires_at : Option Str)
    → answer_by tok (check_expiry read_time now expires_at)
      ≡ answer_at tok now (reading read_time expires_at)
unfolding check_expiry
answer_by-check_expiry tok read_time now none = refl
answer_by-check_expiry tok read_time now (some []) = refl
answer_by-check_expiry tok read_time now (some (c ∷ s)) =
    answer_by-compare_time tok now (read_time (replace_z (c ∷ s)))

-- A token that was created is found again by its text, under its id, and it opens exactly what the
-- scopes that were asked for open, no other token having the same hash: so at any time at which its
-- expiry is missing, empty, unreadable, or not yet past. Once it is past nothing is found; and an
-- expiry without a time zone makes every lookup of the token raise TypeError.
pub lookup-create_token :
    (is_alnum : Str → Bool) (hash : Str → Str) (read_time : Str → ReadTime)
    (name scopes raw ip required : Str) (expires_at : Option Str) (now n : ℕ) (t t' : TokenTable)
    → create_token is_alnum hash name scopes raw expires_at t ≡ created n t'
    → any (λ (x : Token). x.token_hash == hash raw) t.rows ≡ false
    → is_empty raw ≡ false
    → (tok : Token) × ((lookup hash read_time ip now raw t').0
        ≡ answer_at tok now (reading read_time expires_at))
      × (tok.id ≡ n)
      × (has_scope (scope_set tok) required ≡ has_scope (comma_parts scopes) required)
unfolding has_scope
lookup-create_token is_alnum hash read_time name scopes raw ip required expires_at now n t t' made
      fresh full =
    let (same_id, same_table, some_scope, known) =
      create_token-created is_alnum hash name scopes raw expires_at t t' n made in
    let parts = comma_parts scopes in
    (
      new_token hash name scopes raw expires_at t,
      rw same_table (
          lookup-insert_token hash read_time name scopes raw ip expires_at now t fresh full
          ∙ answer_by-check_expiry (new_token hash name scopes raw expires_at t) read_time now
              expires_at),
      sym same_id,
      ground (
        arith,
        any-stored (λ s. s == required) parts some_scope known,
        any-need (scope_order required) parts some_scope known,
      ),
    )

-- The id under which a request is let through, if any, is not the given one.
abbrev pub is_not : ℕ → Answer → Bool
is_not tid nobody = true
is_not tid type_error = true
is_not tid (found tok) = not (tok.id == tid)

abbrev pub is_not_row : ℕ → Option Token → Bool
is_not_row tid none = true
is_not_row tid (some r) = not (r.id == tid)

find_token-revoked :
    (h : Str) (tid : ℕ) (rows : List Token)
    → is_not_row tid (
        find_token h
          (map (λ (r : Token). if r.id == tid then record r { disabled = true } else r) rows))
      ≡ true
unfolding find_token
find_token-revoked h tid [] = refl
find_token-revoked h tid (r ∷ rows) = elim (Bool-cases (r.id == tid)) [
  | inl same ↦ rw same (ground (arith, find_token-revoked h tid rows))
  | inr other ↦ rw other (ground (arith, find_token-revoked h tid rows))
]

find_token-deleted :
    (h : Str) (tid : ℕ) (rows : List Token)
    → is_not_row tid (find_token h (select (λ (r : Token). not (r.id == tid)) rows)) ≡ true
unfolding find_token
find_token-deleted h tid [] = refl
find_token-deleted h tid (r ∷ rows) = elim (Bool-cases (r.id == tid)) [
  | inl same ↦ rw same (find_token-deleted h tid rows)
  | inr other ↦ rw other (ground (arith, find_token-deleted h tid rows))
]

is_not-answer_for :
    (tid : ℕ) (ip : Str) (now : ℕ) (r : Token) (t : TokenTable) (x : Expiry)
    → not (r.id == tid) ≡ true
    → is_not tid (answer_for ip now r t x).0 ≡ true
unfolding answer_for
is_not-answer_for tid ip now r t valid h = h
is_not-answer_for tid ip now r t expired h = refl
is_not-answer_for tid ip now r t raises_type_error h = refl

is_not-lookup :
    (tid : ℕ) (hash : Str → Str) (read_time : Str → ReadTime) (ip raw : Str) (now : ℕ)
    (t : TokenTable)
    → is_not_row tid (find_token (hash raw) t.rows) ≡ true
    → is_not tid (lookup hash read_time ip now raw t).0 ≡ true
unfolding lookup
is_not-lookup tid hash read_time ip raw now t h = elim (Bool-cases (is_empty raw)) [
  | inl empty ↦ rw (empty, lookup) refl
  | inr full ↦ elim (Option-cases (find_token (hash raw) t.rows)) [
    | inl none_found ↦ rw (full, lookup) (rw none_found refl)
    | inr (r, there) ↦
        rw (full, lookup)
          (rw there
            (is_not-answer_for tid ip now r t _ (subst (λ o. is_not_row tid o ≡ true) there h)))
  ]
]

-- After a token was revoked or deleted, no text at any time is let through under its id.
pub lookup-revoke_token :
    (hash : Str → Str) (read_time : Str → ReadTime) (ip raw : Str) (now tid : ℕ) (t : TokenTable)
    → (is_not tid (lookup hash read_time ip now raw (revoke_token tid t)).0 ≡ true)
      × (is_not tid (lookup hash read_time ip now raw (delete_token tid t)).0 ≡ true)
unfolding revoke_token delete_token update_token
lookup-revoke_token hash read_time ip raw now tid t = (
  is_not-lookup tid hash read_time ip raw now _ (find_token-revoked (hash raw) tid t.rows),
  is_not-lookup tid hash read_time ip raw now _ (find_token-deleted (hash raw) tid t.rows),
)
