-- ===== src/Auth/Users/Held.antt =====
-- The row of the user #1 under each operation on the table.
use protek.Prelude.{
  ℕ, ◌<◌, ◌≡◌, refl, subst, ◌∙◌, Str, Option, none, some, Bool, true, not, ◌&&◌, ◌||◌, List, [],
  ◌∷◌, ◌++◌, ◌==◌, nat_eq, nat_beq_iff, str_eq, str_beq_iff, if◌then◌else◌, ltb, length, any, all,
  any-append, any-map, any-weaken, select, map, arith, Bool-cases, Option-cases, inl, inr,
}
use protek.Prelude.Text.{lit, is_empty}
use protek.Auth.Login.{User}
use protek.Auth.Users.{
  Accounts, UserResult, raised, done, has_name, is_role, insert_user, add_user, update_user,
  set_user_disabled, set_user_role, delete_user, find_user, upsert_sso_user, EnvAdmin,
  is_configured, reseeded, seed_env_user,
}

-- The row of the user #1, with the role `admin` unless `d`.
abbrev pub is_held : Str → Bool → User → Bool
is_held name d u = u.id == 1 && u.username == name && not u.disabled && (u.role == lit "admin" || d)

abbrev pub is_named : Str → User → Bool
is_named name u = not (u.id == 1) || u.username == name

pub record Held (name : Str) (d : Bool) (a : Accounts) : Type 0 where
  pub row : any (is_held name d) a.users ≡ true
  pub named : all (is_named name) a.users ≡ true
  pub later : 1 < a.next_id

any-map_to :
    (p q : User → Bool) (f : User → User) (us : List User)
    → ((u : User) → p u ≡ true → q (f u) ≡ true)
    → any p us ≡ true
    → any q (map f us) ≡ true
any-map_to p q f us h m = rw (any-map q f us) (any-weaken p (λ u. q (f u)) us h m)

all-map_to :
    (p : User → Bool) (f : User → User) (us : List User)
    → ((u : User) → p u ≡ true → p (f u) ≡ true)
    → all p us ≡ true
    → all p (map f us) ≡ true
all-map_to p f [] h m = refl
all-map_to p f (u ∷ us) h m = ground (arith, h u, all-map_to p f us h)

all-append_one :
    (p : User → Bool) (us : List User) (u : User)
    → all p us ≡ true
    → p u ≡ true
    → all p (us ++ u ∷ []) ≡ true
all-append_one p [] u h k = ground arith
all-append_one p (v ∷ us) u h k = ground (arith, all-append_one p us u)

all-select : (p q : User → Bool) (us : List User) → all p us ≡ true → all p (select q us) ≡ true
all-select p q [] h = refl
all-select p q (u ∷ us) h = ground (arith, all-select p q us)

any-select :
    (p q : User → Bool) (us : List User)
    → ((u : User) → p u ≡ true → q u ≡ true)
    → any p (select q us) ≡ any p us
any-select p q [] h = refl
any-select p q (u ∷ us) h = ground (arith, h u, any-select p q us h)

module _ (name : Str) (d : Bool) where
  pub Held-insert_user :
      (username hash secret role : Str) (a : Accounts)
      → Held name d a
      → Held name d (insert_user username hash secret role a)
  unfolding insert_user
  Held-insert_user username hash secret role a h = record {
    row = rw (any-append (is_held name d) a.users _) (ground (arith, h.row));
    named =
        all-append_one (is_named name) a.users _ h.named
          (ground (arith, h.later, nat_beq_iff a.next_id 1));
    later = omega (arith, h.later);
  }

  Held-update_user :
      (d' : Bool) (uid : ℕ) (f : User → User) (a : Accounts)
      → ((u : User) → (u.id == uid && is_held name d u) ≡ true → is_held name d' (f u) ≡ true)
      → ((u : User) → is_held name d u ≡ true → is_held name d' u ≡ true)
      → ((u : User) → ((f u).id ≡ u.id) × ((f u).username ≡ u.username))
      → Held name d a
      → Held name d' (update_user uid f a)
  unfolding update_user
  Held-update_user d' uid f a changed other same h = record {
    row =
        any-map_to (is_held name d) (is_held name d') (λ u. if u.id == uid then f u else u) a.users
          (λ u t. ground (arith, changed u, other u)) h.row;
    named =
        all-map_to (is_named name) (λ u. if u.id == uid then f u else u) a.users
          (λ u t. ground (arith, same u)) h.named;
    later = h.later;
  }

module _ (name : Str) (d : Bool) (e : EnvAdmin) (u : User) where
  is_held-reseeded : is_held name d u ≡ true → is_held name d (reseeded e u) ≡ true
  unfolding reseeded
  is_held-reseeded h = ground (arith, str_beq_iff (lit "admin") (lit "admin"))

  is_named-reseeded : is_named name u ≡ true → is_named name (reseeded e u) ≡ true
  unfolding reseeded
  is_named-reseeded h = ground arith

-- What a result leaves; an error leaves the table as it is.
abbrev pub HeldResult : Str → Bool → UserResult → Type 0
HeldResult name d (raised e) = Unit
HeldResult name d (done b) = Held name d b

module _ (name : Str) (d : Bool) where
  pub Held-add_user :
      (is_alnum : Str → Bool) (username password hash secret role : Str) (a : Accounts)
      → Held name d a
      → HeldResult name d (add_user is_alnum username password hash secret role a)
  unfolding add_user
  Held-add_user is_alnum username password hash secret role a h =
      let wrote = Held-insert_user name d username hash secret role a h in
      elim (Bool-cases (is_empty username || not (is_alnum username))) [
        | inl bad ↦ rw bad tt
        | inr plain ↦ elim (Bool-cases (ltb (length password) 8)) [
          | inl short ↦ rw plain (rw short tt)
          | inr long ↦ elim (Bool-cases (is_role role)) [
            | inr unknown ↦ rw plain (rw long (rw unknown tt))
            | inl known ↦ elim (Bool-cases (any (has_name username) a.users)) [
              | inl taken ↦ rw plain (rw long (rw known (rw taken tt)))
              | inr free ↦ rw plain (rw long (rw known (rw free wrote)))
            ]
          ]
        ]
      ]

  pub Held-set_user_disabled :
      (uid : ℕ) (off : Bool) (a : Accounts)
      → Held name d a
      → HeldResult name d (set_user_disabled uid off a)
  unfolding set_user_disabled
  Held-set_user_disabled uid off a h = elim (Bool-cases (uid == 1 && off)) [
    | inl refused ↦ rw refused tt
    | inr fine ↦ rw fine (
        Held-update_user name d d uid (λ u. record u { disabled = off }) a
          (λ u t. ground (arith, nat_beq_iff u.id uid)) (λ u t. t) (λ u. (refl, refl)) h)
  ]

  pub Held-set_user_role :
      (uid : ℕ) (role : Str) (a : Accounts)
      → Held name d a
      → HeldResult name d (set_user_role uid role a)
  unfolding set_user_role
  Held-set_user_role uid role a h = elim (Bool-cases (is_role role)) [
    | inr unknown ↦ rw unknown tt
    | inl known ↦ elim (Bool-cases (uid == 1 && not (role == lit "admin"))) [
      | inl refused ↦ rw known (rw refused tt)
      | inr fine ↦ rw known (
          rw fine (
            Held-update_user name d d uid (λ u. record u { role = role }) a
              (λ u t. ground (arith, nat_beq_iff u.id uid)) (λ u t. t) (λ u. (refl, refl)) h))
    ]
  ]

  pub Held-delete_user :
      (uid : ℕ) (a : Accounts) → Held name d a → HeldResult name d (delete_user uid a)
  unfolding delete_user
  Held-delete_user uid a h = elim (Bool-cases (uid == 1)) [
    | inl refused ↦ rw refused tt
    | inr other ↦ rw other (record {
      row =
          any-select (is_held name d) (λ u. not (u.id == uid)) a.users
            (λ u t. ground (arith, nat_beq_iff u.id uid, nat_beq_iff u.id 1, nat_beq_iff uid 1))
          ∙ h.row;
      named = all-select (is_named name) _ a.users h.named;
      later = h.later;
    })
  ]

  pub Held-seed_env_user :
      (e : EnvAdmin) (a : Accounts) → Held name d a → Held name d (seed_env_user e a)
  unfolding seed_env_user
  Held-seed_env_user e a h = elim (Bool-cases (is_configured e)) [
    | inr missing ↦ rw missing h
    | inl ready ↦ elim (Bool-cases (any (has_name e.username) a.users)) [
      | inr first ↦ rw ready (
          rw first
            (Held-insert_user name d e.username e.password_hash e.totp_secret (lit "admin") a h))
      | inl there ↦ rw ready (
          rw there (record {
            row =
                any-map_to (is_held name d) (is_held name d) (reseeded e) a.users
                  (is_held-reseeded name d e) h.row;
            named =
                all-map_to (is_named name) (reseeded e) a.users (is_named-reseeded name d e)
                  h.named;
            later = h.later;
          }))
    ]
  ]

-- The row that a name finds has the name, and what all rows have.
abbrev is_fit : (User → Bool) → Str → Option User → Bool
is_fit p email none = true
is_fit p email (some u) = has_name email u && p u

is_fit-find_user :
    (p : User → Bool) (email : Str) (us : List User)
    → all p us ≡ true
    → is_fit p email (find_user email us) ≡ true
unfolding find_user
is_fit-find_user p email [] h = refl
is_fit-find_user p email (v ∷ us) h = elim (Bool-cases (has_name email v)) [
  | inl hit ↦ rw (hit, find_user) (ground arith)
  | inr miss ↦ rw (miss, find_user) (is_fit-find_user p email us (ground arith))
]

Held-weaken : (name : Str) (d d' : Bool) (a : Accounts) → Held name d a → Held name (d || d') a
Held-weaken name d d' a h = record {
  row = any-weaken (is_held name d) (is_held name (d || d')) a.users (λ u t. ground arith) h.row;
  named = h.named;
  later = h.later;
}

pub Held-upsert_sso_user :
    (name : Str) (d : Bool) (email role pw_hash : Str) (a : Accounts)
    → Held name d a
    → HeldResult name
        (d || (email == name && not (role == lit "admin")))
        (upsert_sso_user email role pw_hash a)
unfolding upsert_sso_user
Held-upsert_sso_user name d email role pw_hash a h =
    let other = email == name && not (role == lit "admin") in
    elim (Option-cases (find_user email a.users)) [
      | inl new ↦
          rw (new, upsert_sso_user)
            (Held-insert_user name (d || other) email pw_hash _ role a
              (Held-weaken name d other a h))
      | inr (u, known) ↦ elim (Bool-cases u.disabled) [
        | inl off ↦ rw (known, upsert_sso_user) (rw off tt)
        | inr on ↦
            let fit : (has_name email u && is_named name u) ≡ true =
              subst (λ o. is_fit (is_named name) email o ≡ true) known
                (is_fit-find_user (is_named name) email a.users h.named) in
            let same : (not (u.id == 1) || email == name) ≡ true = ground (
              arith,
              str_beq_iff u.username email,
              str_beq_iff u.username name,
              str_beq_iff email name,
            ) in
            rw (known, upsert_sso_user)
              (rw on (
                Held-update_user name d (d || other) u.id (λ v. record v { role = role }) a
                  (λ v t. ground (arith, nat_beq_iff v.id u.id, same)) (λ v t. ground arith)
                  (λ v. (refl, refl)) h))
      ]
    ]
