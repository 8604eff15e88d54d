-- ===== src/Webhooks/Letters.antt =====
-- The size of the queue of dead letters, over any history of operations.
use protek.Prelude.{
  Option, none, some, refl, ℕ, suc, ◌+◌, ◌-◌, ◌≤◌, ◌<◌, ◌≡◌, arith, Str, Bool, true, List, [], ◌∷◌,
  ◌++◌, nat_eq, select, All, All-append, length, Bool-cases, inl, inr, leb→le,
}
use protek.Webhooks.{
  settle, mark_ok, mark_fail, Letter, Tables, max_id, is_kept, push_dlq, new_letter,
}

-- The ids grow along the table.
abbrev pub Ascending : List Letter → Type 0
Ascending [] = Unit
Ascending (l ∷ ls) = All (λ m. l.id < m.id) ls × Ascending ls

-- The id was given out, and is among the last 1001 of those.
abbrev pub IsRecent : ℕ → Letter → Type 0
IsRecent next l = (l.id < next) × (next ≤ l.id + 1001)

pub record Sound (t : Tables) : Type 0 where
  pub ascending : Ascending t.letters
  pub recent : All (IsRecent t.next_letter) t.letters

module _ {A : Type 0} where
  pub All-zip :
      (P Q R : A → Type 0) (xs : List A)
      → ((x : A) → P x → Q x → R x)
      → All P xs
      → All Q xs
      → All R xs
  All-zip P Q R [] f h k = tt
  All-zip P Q R (x ∷ xs) f h k = (f x h.0 k.0, All-zip P Q R xs f h.1 k.1)

  pub All-select :
      (P : A → Type 0) (p : A → Bool) (xs : List A)
      → All P xs
      → All (λ x. P x × (p x ≡ true)) (select p xs)
  All-select P p [] h = tt
  All-select P p (x ∷ xs) h = elim (Bool-cases (p x)) [
    | inl kept ↦ rw kept ((h.0, kept), All-select P p xs h.1)
    | inr gone ↦ rw gone (All-select P p xs h.1)
  ]

  pub All-weaken : (P Q : A → Type 0) (xs : List A) → ((x : A) → P x → Q x) → All P xs → All Q xs
  All-weaken P Q [] f h = tt
  All-weaken P Q (x ∷ xs) f h = (f x h.0, All-weaken P Q xs f h.1)

Ascending-select : (p : Letter → Bool) (ls : List Letter) → Ascending ls → Ascending (select p ls)
Ascending-select p [] h = tt
Ascending-select p (l ∷ ls) h = elim (Bool-cases (p l)) [
  | inl kept ↦ rw kept (
    All-weaken _ _ (select p ls) (λ m hm. hm.0) (All-select _ p ls h.0),
    Ascending-select p ls h.1,
  )
  | inr gone ↦ rw gone (Ascending-select p ls h.1)
]

Ascending-append :
    (ls : List Letter) (l : Letter)
    → Ascending ls
    → All (λ m. m.id < l.id) ls
    → Ascending (ls ++ l ∷ [])
Ascending-append [] l h below = (tt, tt)
Ascending-append (m ∷ ls) l h below =
    (All-append (λ k. m.id < k.id) ls (l ∷ []) h.0 (below.0, tt), Ascending-append ls l h.1 below.1)

pub max_id-append :
    (ls : List Letter) (l : Letter) → All (λ m. m.id < l.id) ls → max_id (ls ++ l ∷ []) ≡ l.id
unfolding max_id
max_id-append [] l below = omega arith
max_id-append (m ∷ ls) l below = omega (arith, max_id-append ls l below.1)

-- Ids that grow and lie between two bounds are no more than fit between them.
length-le-bounds :
    (lo hi : ℕ) (ls : List Letter)
    → lo ≤ hi
    → Ascending ls
    → All (λ l. (lo ≤ l.id) × (l.id < hi)) ls
    → length ls + lo ≤ hi
length-le-bounds lo hi [] h asc within = omega arith
length-le-bounds lo hi (l ∷ ls) h asc within = omega (
  arith,
  length-le-bounds (suc l.id) hi ls within.0.1 asc.1
      (All-zip _ _ _ ls (λ m above inside. (above, inside.1)) asc.0 within.1),
)

pub length-Sound : (t : Tables) → Sound t → length t.letters ≤ 1001
length-Sound t h = omega (
  arith,
  length-le-bounds (t.next_letter - 1001) t.next_letter t.letters (omega arith) h.ascending
      (All-weaken _ _ t.letters (λ l r. omega arith) h.recent),
)

pub Sound-select :
    (t : Tables) (p : Letter → Bool) → Sound t → Sound (record t { letters = select p t.letters })
Sound-select t p h = record {
  ascending = Ascending-select p t.letters h.ascending;
  recent = All-weaken _ _ _ (λ m hm. hm.0) (All-select _ p t.letters h.recent);
}

-- The letters after an insertion and before the DELETE.
module _ (sub_id : ℕ) (event_type payload err : Str) (t : Tables) (h : Sound t) where
  abbrev pub new : Letter
  new = new_letter t.next_letter sub_id event_type payload err

  below : All (λ m. m.id < t.next_letter) t.letters
  below = All-weaken _ _ t.letters (λ m r. r.0) h.recent

  pub push_dlq-eq : push_dlq sub_id event_type payload err t ≡ record t {
    letters = select (is_kept t.next_letter) (t.letters ++ new ∷ []);
    next_letter = suc t.next_letter;
  }
  unfolding push_dlq
  push_dlq-eq = rw (max_id-append t.letters new below)

  pub push_dlq-Sound : Sound (push_dlq sub_id event_type payload err t)
  push_dlq-Sound = rw push_dlq-eq (record {
    ascending =
        Ascending-select _ (t.letters ++ new ∷ [])
          (Ascending-append t.letters new h.ascending below);
    recent =
        All-weaken _ _ (select (is_kept t.next_letter) (t.letters ++ new ∷ []))
          (λ m hm. (hm.0, omega (arith, leb→le t.next_letter (m.id + 1000) hm.1)))
          (All-select (λ m. m.id < suc t.next_letter) _ (t.letters ++ new ∷ [])
            (All-append _ t.letters (new ∷ []) (All-weaken _ _ t.letters (λ m r. omega arith) below)
              (omega arith, tt)));
  })

pub same-Sound :
    (t u : Tables) → t.letters ≡ u.letters → t.next_letter ≡ u.next_letter → Sound t → Sound u
same-Sound t u e n h = record {
  ascending = rw (← e) h.ascending;
  recent = rw (← e) (rw (← n) h.recent);
}

pub settle-Sound :
    {S : Type 0} (event_type payload : Str) (sub_id : ℕ) (t : Tables) (r : Option Str × S)
    → Sound t
    → Sound (settle sub_id event_type payload t r).0
unfolding settle mark_ok mark_fail
settle-Sound event_type payload sub_id t (none, s) h = same-Sound t _ refl refl h
settle-Sound event_type payload sub_id t (some err, s) h =
    same-Sound (push_dlq sub_id event_type payload err t) _ refl refl
      (push_dlq-Sound sub_id event_type payload err t h)
