-- ===== src/Federation/Rows.antt =====
-- What the rows named `local` hold, and the confidences, under the statements on the table.
use protek.Prelude.{
  ℕ, ◌≤◌, ◌≡◌, refl, ap, arith, Str, Bool, true, false, not, ◌&&◌, List, [], ◌∷◌, ◌++◌, ◌==◌,
  nat_eq, str_eq, map, any, select, All, Bool-cases, inl, inr,
}
use protek.Federation.{Source, local, is_local, refreshed, update_source}

abbrev pub credentials_of : Source → Str × Str
credentials_of s = (s.url, s.api_key)

-- What the rows named `local` hold.
abbrev pub local_credentials : List Source → List (Str × Str)
local_credentials rows = map credentials_of (select is_local rows)

abbrev pub IsWeighed : Source → Type 0
IsWeighed s = 1 ≤ s.confidence

local_credentials-cons :
    (r s : Source) (rows rows' : List Source)
    → r.name ≡ s.name
    → credentials_of r ≡ credentials_of s
    → local_credentials rows ≡ local_credentials rows'
    → local_credentials (r ∷ rows) ≡ local_credentials (s ∷ rows')
local_credentials-cons r s rows rows' same held h = elim (Bool-cases (s.name == local)) [
  | inl here ↦ rw same (rw here (rw (held, h) refl))
  | inr other ↦ rw same (rw other h)
]

module _ (i : ℕ) (f : Source → Source) where
  pub local_credentials-update_source :
      (rows : List Source)
      → ((s : Source) → ((f s).name ≡ s.name) × (credentials_of (f s) ≡ credentials_of s))
      → local_credentials (update_source i f rows) ≡ local_credentials rows
  unfolding update_source
  local_credentials-update_source [] h = refl
  local_credentials-update_source (s ∷ rows) h = elim (Bool-cases (s.id == i)) [
    | inl here ↦ rw here (
        local_credentials-cons (f s) s _ rows (h s).0 (h s).1
          (local_credentials-update_source rows h))
    | inr other ↦
        rw other
          (local_credentials-cons s s _ rows refl refl (local_credentials-update_source rows h))
  ]

  pub All-update_source :
      (rows : List Source)
      → ((s : Source) → IsWeighed s → IsWeighed (f s))
      → All IsWeighed rows
      → All IsWeighed (update_source i f rows)
  unfolding update_source
  All-update_source [] h all = tt
  All-update_source (s ∷ rows) h all = elim (Bool-cases (s.id == i)) [
    | inl here ↦ rw here (h s all.0, All-update_source rows h all.1)
    | inr other ↦ rw other (all.0, All-update_source rows h all.1)
  ]

pub local_credentials-refreshed :
    (url key : Str) (rows : List Source)
    → local_credentials (map (refreshed url key) rows)
      ≡ map (λ c. (url, key)) (local_credentials rows)
local_credentials-refreshed url key [] = refl
local_credentials-refreshed url key (s ∷ rows) = elim (Bool-cases (s.name == local)) [
  | inl here ↦
      rw here (rw here (ap (λ l. (url, key) ∷ l) (local_credentials-refreshed url key rows)))
  | inr other ↦ rw other (rw other (local_credentials-refreshed url key rows))
]

pub local_credentials-append :
    (rows : List Source) (s : Source)
    → is_local s ≡ false
    → local_credentials (rows ++ s ∷ []) ≡ local_credentials rows
local_credentials-append [] s h = rw h refl
local_credentials-append (r ∷ rows) s h = ground (arith, local_credentials-append rows s h)

pub local_credentials-delete :
    (i : ℕ) (rows : List Source)
    → any (λ (s : Source). s.id == i && is_local s) rows ≡ false
    → local_credentials (select (λ (s : Source). not (s.id == i)) rows) ≡ local_credentials rows
local_credentials-delete i [] h = refl
local_credentials-delete i (s ∷ rows) h = ground (arith, local_credentials-delete i rows)

pub any-local :
    (c : Str × Str) (rows : List Source)
    → local_credentials rows ≡ c ∷ []
    → any is_local rows ≡ true
any-local c [] h = absurd cc
any-local c (s ∷ rows) h = ground (arith, any-local c rows)

pub All-select :
    (p : Source → Bool) (rows : List Source) → All IsWeighed rows → All IsWeighed (select p rows)
All-select p [] all = tt
All-select p (s ∷ rows) all = ground (arith, All-select p rows)

pub All-refreshed :
    (url key : Str) (rows : List Source)
    → All IsWeighed rows
    → All IsWeighed (map (refreshed url key) rows)
All-refreshed url key [] all = tt
All-refreshed url key (s ∷ rows) all = elim (Bool-cases (s.name == local)) [
  | inl here ↦ rw here (all.0, All-refreshed url key rows all.1)
  | inr other ↦ rw other (all.0, All-refreshed url key rows all.1)
]
