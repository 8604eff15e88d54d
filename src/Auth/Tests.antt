-- ===== src/Auth/Tests.antt =====
-- auth.py and the password form of app.py on one user.
use protek.Prelude.{
  ℕ, ◌*◌, ◌-◌, ◌≤◌, max, ◌≡◌, refl, any, not, ◌&&◌, none, some, true, false, ◌||◌, List, [], ◌∷◌,
  ◌==◌, nat_eq, str_eq, arith,
}
use protek.Prelude.Equality.{str_beq}
use protek.Prelude.Dict.{lookup, insert}
use protek.Prelude.Text.{lit, strip, lstrip, is_space, starts_with}
use protek.Auth.Lockout.{LockoutConfig, is_locked, record_failure, failed_row}
use protek.Auth.Lockout.Bound.{guesses, successes, guesses-le-allowance}
use protek.Auth.Login.{Libraries, Form, LoginState, ip_allowed, verify_password, get_user, login}
use protek.Auth.Redirect.{
  UrlParse, has_control, has_text, is_foreign, is_local, safe_next, safe_next-is_local,
}
use protek.Auth.Users.{
  EnvAdmin, seed_env_user, Accounts, done, update_user, find_user, insert_user, reseeded,
  upsert_sso_user,
}
use protek.Auth.Users.Anchor.{
  here, next, boot, sso_login, is_enabled_one, anchored, fresh, reachable-anchored,
}

-- A parser that finds a scheme or a host nowhere.
abbrev plain : UrlParse
plain = record { scheme = λ t. []; netloc = λ t. [] }

abbrev libraries : Libraries
libraries = record {
  ip_address = λ t. some 1;
  in_network = λ a t. false;
  checkpw = λ p h. p == h;
  totp_verify = λ s c. s == c;
  urlparse = plain;
}

abbrev config : LockoutConfig
config = record { max_attempts = 5; lockout_minutes = 15 }

abbrev form : Form
form = record {
  ip = lit "10.0.0.9";
  username = lit "root";
  password = lit "guess";
  totp = [];
  next = none;
}

abbrev empty_state : LoginState
empty_state = record { attempts = []; login_audit = [] }

abbrev posts : List (ℕ × Form)
posts = (100, form) ∷ (101, form) ∷ []

no_success : successes libraries config [] (lit "/") [] (lit "10.0.0.9") posts empty_state ≡ 0
unfolding login ip_allowed is_locked record_failure failed_row verify_password get_user lookup
    insert strip lstrip is_space str_beq
no_success = refl

guesses-le-allowance_example :
    (guesses libraries config [] (lit "/") [] (lit "10.0.0.9") posts empty_state - max 1 5)
      * (15 * 60)
    ≤ 101 - 100
unfolding lookup
guesses-le-allowance_example =
    guesses-le-allowance libraries config [] (lit "/") [] (lit "10.0.0.9") posts 100 101 empty_state
      refl (omega arith, (omega arith, omega arith)) no_success

safe_next-is_local_example :
    (safe_next plain (some (lit "//evil.example")) (lit "/") == lit "/"
      || is_local (safe_next plain (some (lit "//evil.example")) (lit "/")))
    ≡ true
safe_next-is_local_example = safe_next-is_local plain (some (lit "//evil.example")) (lit "/")

-- A path is kept.
keeps_path : safe_next plain (some (lit " /bans")) (lit "/") ≡ lit "/bans"
unfolding safe_next is_foreign has_control has_text starts_with strip lstrip is_space
keeps_path = refl

abbrev env : EnvAdmin
env = record { username = lit "root"; password_hash = lit "hash"; totp_secret = lit "SECRET" }

-- The administrator logs in over an identity provider that makes the name a viewer.
abbrev demoted_table : Accounts
demoted_table =
    update_user 1 (λ u. record u { role = lit "viewer" })
      (seed_env_user env (seed_env_user env fresh))

sso-demotes :
    upsert_sso_user env.username (lit "viewer") [] (seed_env_user env (seed_env_user env fresh))
    ≡ done demoted_table
unfolding upsert_sso_user find_user seed_env_user insert_user reseeded str_beq
sso-demotes = refl

reachable-anchored_example :
    (any (is_enabled_one env.username) demoted_table.users ≡ true)
    × ((anchored demoted_table
          || (env.username == env.username && not (lit "viewer" == lit "admin")))
        ≡ true)
reachable-anchored_example = reachable-anchored env demoted_table refl (
    next (next here (boot (seed_env_user env fresh) env))
      (sso_login env.username (lit "viewer") [] sso-demotes))
