-- ===== src/Auth/Users/Anchor.antt =====
-- The table `users` over any run of its operations, the logins over an identity provider included.
use protek.Prelude.{
  ℕ, ◌≡◌, subst, Str, Bool, true, false, not, ◌&&◌, ◌||◌, [], ◌==◌, nat_eq, str_eq, str_beq_iff,
  any, any-weaken, arith,
}
use protek.Auth.Users.Held.{
  is_held, Held, HeldResult, Held-add_user, Held-set_user_disabled, Held-set_user_role,
  Held-delete_user, Held-seed_env_user, Held-upsert_sso_user,
}
use protek.Prelude.Text.{lit}
use protek.Auth.Login.{User}
use protek.Auth.Users.{
  Accounts, done, insert_user, add_user, set_user_disabled, set_user_role, delete_user,
  upsert_sso_user, EnvAdmin, is_configured, seed_env_user,
}

-- One operation on the table that does not raise, or a boot.
pub data Step : Accounts → Accounts → Type 0 where
  add :
      {a b : Accounts} (is_alnum : Str → Bool) (username password hash secret role : Str)
      → add_user is_alnum username password hash secret role a ≡ done b
      → Step a b
  disable :
      {a b : Accounts} (uid : ℕ) (off : Bool) → set_user_disabled uid off a ≡ done b → Step a b
  promote : {a b : Accounts} (uid : ℕ) (role : Str) → set_user_role uid role a ≡ done b → Step a b
  delete : {a b : Accounts} (uid : ℕ) → delete_user uid a ≡ done b → Step a b
  sso_login :
      {a b : Accounts} (email role pw_hash : Str)
      → upsert_sso_user email role pw_hash a ≡ done b
      → Step a b
  boot : (a : Accounts) (e : EnvAdmin) → Step a (seed_env_user e a)

pub data Reach (a : Accounts) : Accounts → Type 0 where
  here : Reach a a
  next : {b c : Accounts} → Reach a b → Step b c → Reach a c

-- Is this a login over an identity provider under that name, with a role that is not `admin`?
abbrev pub demotes : Str → {a b : Accounts} → Step a b → Bool
demotes name (sso_login email role pw_hash ok) = email == name && not (role == lit "admin")
demotes name (add _ _ _ _ _ _ _) = false
demotes name (disable _ _ _) = false
demotes name (promote _ _ _) = false
demotes name (delete _ _) = false
demotes name (boot _ _) = false

-- Is there one in the run?
abbrev pub demoted : Str → {a b : Accounts} → Reach a b → Bool
demoted name here = false
demoted name (next r s) = demoted name r || demotes name s

-- The row of the anchored administrator.
abbrev pub is_anchor : User → Bool
is_anchor u = u.id == 1 && u.role == lit "admin" && not u.disabled

abbrev pub anchored : Accounts → Bool
anchored a = any is_anchor a.users

abbrev pub is_enabled_one : Str → User → Bool
is_enabled_one name u = u.id == 1 && u.username == name && not u.disabled

Held-or : (name : Str) (d : Bool) (a : Accounts) → Held name d a → Held name (d || false) a
Held-or name true a h = h
Held-or name false a h = h

Held-Step :
    (name : Str) (d : Bool) {a b : Accounts} (s : Step a b)
    → Held name d a
    → Held name (d || demotes name s) b
Held-Step name d {a} (add is_alnum username password hash secret role ok) h = Held-or name d _ (
    subst (HeldResult name d) ok
      (Held-add_user name d is_alnum username password hash secret role a h))
Held-Step name d {a} (disable uid off ok) h =
    Held-or name d _ (subst (HeldResult name d) ok (Held-set_user_disabled name d uid off a h))
Held-Step name d {a} (promote uid role ok) h =
    Held-or name d _ (subst (HeldResult name d) ok (Held-set_user_role name d uid role a h))
Held-Step name d {a} (delete uid ok) h =
    Held-or name d _ (subst (HeldResult name d) ok (Held-delete_user name d uid a h))
Held-Step name d {a} (sso_login email role pw_hash ok) h =
    subst (HeldResult name (d || (email == name && not (role == lit "admin")))) ok
      (Held-upsert_sso_user name d email role pw_hash a h)
Held-Step name d (boot a e) h = Held-or name d _ (Held-seed_env_user name d e a h)

Held-Reach :
    (name : Str) {a b : Accounts} (r : Reach a b) → Held name false a → Held name (demoted name r) b
Held-Reach name here h = h
Held-Reach name (next r s) h = Held-Step name (demoted name r) s (Held-Reach name r h)

-- The table of a new installation.
abbrev pub fresh : Accounts
fresh = record { users = []; next_id = 1 }

Held-fresh : (e : EnvAdmin) → is_configured e ≡ true → Held e.username false (seed_env_user e fresh)
unfolding seed_env_user insert_user
Held-fresh e ready =
    rw (ready, seed_env_user)
      (record {
        row =
            ground
              (arith, str_beq_iff (lit "admin") (lit "admin"), str_beq_iff e.username e.username);
        named = ground (arith, str_beq_iff e.username e.username);
        later = omega arith;
      })

admin-Held : (name : Str) (d : Bool) (a : Accounts) → Held name d a → (anchored a || d) ≡ true
admin-Held name true a h = ground arith
admin-Held name false a h =
    ground (arith, any-weaken (is_held name false) is_anchor a.users (λ u t. ground arith) h.row)

-- After a first boot with a configured environment, the user #1 with the name of that environment is
-- there and enabled for ever: no run of operations that succeed, logins over an identity provider
-- included, and no later boot with any environment, disables or deletes it. And it is an
-- administrator, unless an identity provider logged in its name with another role.
pub reachable-anchored :
    (e : EnvAdmin) (a : Accounts)
    → is_configured e ≡ true
    → (r : Reach (seed_env_user e fresh) a)
    → (any (is_enabled_one e.username) a.users ≡ true)
      × ((anchored a || demoted e.username r) ≡ true)
reachable-anchored e a ready r =
    let held = Held-Reach e.username r (Held-fresh e ready) in
    (
      any-weaken (is_held e.username (demoted e.username r)) (is_enabled_one e.username) a.users
          (λ u t. ground arith) held.row,
      admin-Held e.username (demoted e.username r) a held,
    )
