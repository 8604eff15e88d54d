-- ===== src/Auth/Login.antt =====
-- app.py, the POST of `login`, with `ip_allowed`, `verify_password` and `verify_totp_for` of
-- auth.py, and the gates of the routes behind it. bcrypt, pyotp and ipaddress are parameters.
use protek.Prelude.{
  ℕ, ◌-◌, ◌*◌, Str, Option, none, some, Bool, true, false, not, ◌&&◌, ◌||◌, List, [], ◌∷◌, ◌++◌,
  ◌==◌, nat_eq, str_eq, if◌then◌else◌, ltb, leb, any, select,
}
use protek.Prelude.Text.{lit, is_empty, strip, has_char, split_all}
use protek.Auth.Lockout.{Attempts, LockoutConfig, is_locked, record_failure, clear_failures}
use protek.Auth.Redirect.{UrlParse, safe_next}

pub record User : Type 0 where
  pub id : ℕ
  pub username : Str
  pub password_hash : Str
  pub totp_secret : Str
  pub role : Str
  pub disabled : Bool

-- What the libraries answer: an address as a number, or nothing where the text is none; whether it
-- is in a network; and the two checks, which count as false where they raise.
pub record Libraries : Type 0 where
  pub ip_address : Str → Option ℕ
  pub in_network : ℕ → Str → Bool
  pub checkpw : (password hash : Str) → Bool
  pub totp_verify : (secret code : Str) → Bool
  pub urlparse : UrlParse

-- One entry of IP_WHITELIST.
unfoldable pub entry_allows : Libraries → ℕ → Str → Bool
entry_allows l addr entry =
    if has_char b'/' entry
    then l.in_network addr entry
    else elim (l.ip_address entry) [ none ↦ false | some other ↦ addr == other ]

-- `ip_allowed` on the text of IP_WHITELIST without its comment
unfoldable pub ip_allowed : Libraries → Str → Str → Bool
ip_allowed l raw ip = if is_empty raw then true else elim (l.ip_address ip) [
  | none ↦ false
  | some addr ↦
      any (λ e. not (is_empty (strip e)) && entry_allows l addr (strip e)) (split_all b',' raw)
]

-- `get_user`: the first enabled row of that name; names are unique
unfoldable pub get_user : Str → List User → Option User
get_user username [] = none
get_user username (u ∷ users) =
    let later = get_user username users in
    if not (is_empty username) && u.username == username && not u.disabled then some u else later

unfoldable pub verify_password : Libraries → List User → Str → Str → Option User
verify_password l users username password =
    if is_empty username || is_empty password then none else elim (get_user username users) [
      | none ↦ none
      | some u ↦ if l.checkpw password u.password_hash then some u else none
    ]

-- `code.replace(" ", "").strip()`
abbrev without_spaces : Str → Str
without_spaces s = strip (select (λ c. not (c == b' ')) s)

unfoldable pub verify_totp_for : Libraries → User → Str → Bool
verify_totp_for l user code =
    not (is_empty user.totp_secret)
    && not (is_empty code)
    && l.totp_verify user.totp_secret (without_spaces code)

pub record Form : Type 0 where
  pub ip : Str
  pub username : Str
  pub password : Str
  pub totp : Str
  pub next : Option Str

pub data Response : Type 0 where
  blocked_403 : Response
  locked_out : (minutes : ℕ) → Response
  bad_credentials bad_totp : Response
  logged_in : (user : User) → (redirect : Str) → Response

pub record AuditRow : Type 0 where
  pub ip : Str
  pub username : Str
  pub success : Bool

-- What a login reads and writes.
pub record LoginState : Type 0 where
  pub attempts : Attempts
  pub login_audit : List AuditRow

abbrev audited : Str → Str → Bool → List AuditRow → List AuditRow
audited ip username success rows =
    rows ++ record { ip = ip; username = username; success = success } ∷ []

abbrev failed : LockoutConfig → Str → Str → ℕ → LoginState → LoginState
failed c ip username now s = record {
  attempts = (record_failure c ip now s.attempts).0;
  login_audit = audited ip username false s.login_audit;
}

-- `login` on a POST at the time `now`; `whitelist` is IP_WHITELIST and `home` the dashboard.
unfoldable pub login :
    Libraries
    → LockoutConfig
    → (whitelist home : Str) → List User
    → Form
    → ℕ
    → LoginState
    → Response × LoginState
login l c whitelist home users f now s =
    if not (ip_allowed l whitelist f.ip)
    then (blocked_403, s)
    else if (is_locked f.ip now s.attempts).0
    then (locked_out (is_locked f.ip now s.attempts).1, s)
    else elim (verify_password l users (strip f.username) f.password) [
      | none ↦ (bad_credentials, failed c f.ip (strip f.username) now s)
      | some user ↦
          if not (verify_totp_for l user (strip f.totp))
          then (bad_totp, failed c f.ip (strip f.username) now s)
          else (
            logged_in user (safe_next l.urlparse f.next home),
            record {
              attempts = clear_failures f.ip s.attempts;
              login_audit = audited f.ip (strip f.username) true s.login_audit;
            },
          )
    ]

-- ROLE_ORDER with its defaults for an unknown role, held and required
abbrev role_rank : ℕ → Str → ℕ
role_rank default role =
    if role == lit "viewer"
    then 1
    else if role == lit "operator"
    then 2
    else if role == lit "admin"
    then 3
    else default

unfoldable pub has_role : Str → Str → Bool
has_role current required = leb (role_rank 99 required) (role_rank 0 current)

-- The session of a request: `last_active` is `none` where it is missing or cannot be read.
pub record Session : Type 0 where
  pub logged_in : Bool
  pub role : Str
  pub last_active : Option ℕ

unfoldable pub session_expired : ℕ → ℕ → Session → Bool
session_expired timeout_minutes now s = elim s.last_active [
  | none ↦ true
  | some ts ↦ ltb (timeout_minutes * 60) (now - ts)
]

pub data Gate : Type 0 where
  forbidden to_login expired insufficient : Gate
  passed : Session → Gate

-- `login_required`
unfoldable pub login_required : Bool → ℕ → ℕ → Session → Gate
login_required allowed timeout_minutes now s =
    if not allowed
    then forbidden
    else if not s.logged_in
    then to_login
    else if session_expired timeout_minutes now s
    then expired
    else passed (record s { last_active = some now })

-- `role_required`
unfoldable pub role_required : Str → Session → Gate
role_required required s =
    if not s.logged_in
    then to_login
    else if not (has_role s.role required)
    then insufficient
    else passed s
