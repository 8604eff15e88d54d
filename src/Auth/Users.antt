-- ===== src/Auth/Users.antt =====
-- auth.py, the table `users`: `add_user`, `set_user_disabled`, `set_user_role`, `delete_user`, and
-- `seed_env_user` on every boot; and oidc.py, `upsert_sso_user`, which the logins over OIDC, SAML and
-- Google call. The hash and the secret of a new user are given.
pub mod Held
pub mod Anchor
use protek.Prelude.{
  ℕ, ◌+◌, Str, Option, none, some, Bool, false, not, ◌||◌, ◌&&◌, List, [], ◌∷◌, ◌++◌, ◌==◌, nat_eq,
  str_eq, if◌then◌else◌, ltb, any, select, map, length,
}
use protek.Prelude.Text.{lit, is_empty}
use protek.Auth.Login.{User}

-- The table, and the id of its next row.
pub record Accounts : Type 0 where
  pub users : List User
  pub next_id : ℕ

pub data UserError : Type 0 where
  bad_username bad_password bad_role username_taken env_anchored user_disabled : UserError

pub data UserResult : Type 0 where
  raised : UserError → UserResult
  done : Accounts → UserResult

abbrev pub is_role : Str → Bool
is_role role = role == lit "viewer" || role == lit "operator" || role == lit "admin"

abbrev pub has_name : Str → User → Bool
has_name username u = u.username == username

unfoldable pub insert_user : Str → Str → Str → Str → Accounts → Accounts
insert_user username hash secret role a = record {
  users =
      a.users
      ++ record {
        id = a.next_id;
        username = username;
        password_hash = hash;
        totp_secret = secret;
        role = role;
        disabled = false;
      }
        ∷ [];
  next_id = a.next_id + 1;
}

-- `add_user`; `is_alnum` is isalnum on the name without its dashes.
unfoldable pub add_user :
    (is_alnum : Str → Bool) → (username password hash secret role : Str) → Accounts → UserResult
add_user is_alnum username password hash secret role a =
    if is_empty username || not (is_alnum username)
    then raised bad_username
    else if ltb (length password) 8
    then raised bad_password
    else if not (is_role role)
    then raised bad_role
    else if any (has_name username) a.users
    then raised username_taken
    else done (insert_user username hash secret role a)

-- `UPDATE users SET … WHERE id = ?`
unfoldable pub update_user : ℕ → (User → User) → Accounts → Accounts
update_user uid change a = record a {
  users = map (λ (u : User). if u.id == uid then change u else u) a.users;
}

unfoldable pub set_user_disabled : ℕ → Bool → Accounts → UserResult
set_user_disabled uid disabled a =
    if uid == 1 && disabled
    then raised env_anchored
    else done (update_user uid (λ u. record u { disabled = disabled }) a)

unfoldable pub set_user_role : ℕ → Str → Accounts → UserResult
set_user_role uid role a =
    if not (is_role role)
    then raised bad_role
    else if uid == 1 && not (role == lit "admin")
    then raised env_anchored
    else done (update_user uid (λ u. record u { role = role }) a)

unfoldable pub delete_user : ℕ → Accounts → UserResult
delete_user uid a =
    if uid == 1
    then raised env_anchored
    else done (record a { users = select (λ (u : User). not (u.id == uid)) a.users })

-- `SELECT … FROM users WHERE username = ?`
unfoldable pub find_user : Str → List User → Option User
find_user username [] = none
find_user username (u ∷ users) = if has_name username u then some u else find_user username users

-- `upsert_sso_user`: the role is that of the identity provider, whoever the user is.
unfoldable pub upsert_sso_user : (email role pw_hash : Str) → Accounts → UserResult
unfolding find_user
upsert_sso_user email role pw_hash a = elim (find_user email a.users) [
  | none ↦ done (insert_user email pw_hash (lit "XXXXXXXXXXXXXXXXXXXXXXXXXXXXXXXX") role a)
  | some u ↦
      if u.disabled
      then raised user_disabled
      else done (update_user u.id (λ v. record v { role = role }) a)
]

-- APP_USERNAME, APP_PASSWORD_HASH and TOTP_SECRET
pub record EnvAdmin : Type 0 where
  pub username : Str
  pub password_hash : Str
  pub totp_secret : Str

abbrev pub is_configured : EnvAdmin → Bool
is_configured e =
    not (is_empty e.username) && not (is_empty e.password_hash) && not (is_empty e.totp_secret)

-- The row of the name, where the environment has other secrets.
unfoldable pub reseeded : EnvAdmin → User → User
reseeded e u =
    if has_name e.username u
      && (not (u.password_hash == e.password_hash) || not (u.totp_secret == e.totp_secret))
    then record u {
      password_hash = e.password_hash;
      totp_secret = e.totp_secret;
      role = lit "admin";
      disabled = false;
    }
    else u

unfoldable pub seed_env_user : EnvAdmin → Accounts → Accounts
seed_env_user e a =
    if not (is_configured e)
    then a
    else if any (has_name e.username) a.users
    then record a { users = map (reseeded e) a.users }
    else insert_user e.username e.password_hash e.totp_secret (lit "admin") a
