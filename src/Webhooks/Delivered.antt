-- ===== src/Webhooks/Delivered.antt =====
-- What the delivery of one event to several subscribers leaves in the queue of dead letters.
use protek.Prelude.{
  All, ℕ, ◌+◌, ◌-◌, ◌≡◌, refl, ap, ◌∙◌, arith, Str, Option, none, some, List, [], ◌∷◌, ◌++◌, nat_eq,
  select, Option-cases, inl, inr,
}
use protek.Webhooks.{
  Sub, Tables, Outside, is_kept, new_letter, push_dlq, mark_ok, mark_fail, settle, deliver_one,
  deliver_each, secret_of, attempts, backoff,
}
use protek.Webhooks.Letters.{settle-Sound, Sound, push_dlq-eq}
use protek.Webhooks.Trial.{attempts-Tried, Failed, all_tried, Failed-next}
use protek.Webhooks.Failures.{
  failure, failures, letters_of, secret_of-update_sub, After, After-append, After-none,
}

module _ {S : Type 0} (event_type payload : Str) where
  settle-After :
      (sub_id : ℕ) (t : Tables) (r : Option Str × S)
      → Sound t
      → After t (failure sub_id r.0) event_type payload (settle sub_id event_type payload t r).0
  unfolding settle mark_ok mark_fail letters_of
  settle-After sub_id t (none, s) h = After-none t _ event_type payload h refl refl
  settle-After sub_id t (some err, s) h =
      let written = new_letter t.next_letter sub_id event_type payload err in
      let largest : t.next_letter ≡ t.next_letter + 1 - 1 = omega arith in
      record {
        letters =
            ap (λ (u : Tables). u.letters) (push_dlq-eq sub_id event_type payload err t h)
            ∙ ap (λ n. select (is_kept n) (t.letters ++ written ∷ [])) largest;
        next_letter =
            ap (λ (u : Tables). u.next_letter) (push_dlq-eq sub_id event_type payload err t h)
            ∙ omega arith;
      }

  settle-pair :
      (sub_id : ℕ) (t : Tables) (r : Option Str × S)
      → settle sub_id event_type payload t r ≡ ((settle sub_id event_type payload t r).0, r.1)
  unfolding settle
  settle-pair sub_id t (none, s) = refl
  settle-pair sub_id t (some err, s) = refl

  -- The secrets do not change while an event is delivered.
  secret_of-settle :
      (sub_id i : ℕ) (t : Tables) (r : Option Str × S)
      → secret_of i (settle sub_id event_type payload t r).0.subs ≡ secret_of i t.subs
  unfolding settle mark_ok mark_fail push_dlq
  secret_of-settle sub_id i t (none, s) =
      secret_of-update_sub i sub_id _ t.subs (λ sub. (refl, refl))
  secret_of-settle sub_id i t (some err, s) =
      secret_of-update_sub i sub_id _ t.subs (λ sub. (refl, refl))

module _ {S : Type 0} (out : Outside S) (event_type payload : Str) where
  deliver_one-gone :
      (sub : Sub) (t : Tables) (s : S)
      → secret_of sub.id t.subs ≡ none
      → deliver_one out event_type payload sub (t, s) ≡ (t, s)
  unfolding deliver_one
  deliver_one-gone sub t s gone = rw (gone, deliver_one) refl

  deliver_one-found :
      (sub : Sub) (secret : Str) (t : Tables) (s : S)
      → secret_of sub.id t.subs ≡ some secret
      → deliver_one out event_type payload sub (t, s) ≡ (
          let r = attempts out sub.url secret event_type payload backoff [] s in
          ((settle sub.id event_type payload t r).0, r.1))
  unfolding deliver_one
  deliver_one-found sub secret t s found =
      rw (found, deliver_one) (settle-pair event_type payload sub.id t _)

  pub deliver_each-After :
      (table subs : List Sub) (t : Tables) (s : S)
      → Sound t
      → ((i : ℕ) → secret_of i t.subs ≡ secret_of i table)
      → After t
          (failures out event_type payload table subs s)
          event_type
          payload
          (deliver_each out event_type payload subs (t, s)).0
  unfolding deliver_each failures
  deliver_each-After table [] t s h same = After-none t t event_type payload h refl refl
  deliver_each-After table (sub ∷ subs) t s h same = elim (Option-cases (secret_of sub.id table)) [
    | inl gone ↦
        rw (gone, failures)
          (rw (deliver_one-gone sub t s (same sub.id ∙ gone), deliver_each)
            (deliver_each-After table subs t s h same))
    | inr (secret, found) ↦
        let r = attempts out sub.url secret event_type payload backoff [] s in
        let u = settle sub.id event_type payload t r in
        rw (found, failures)
          (rw (deliver_one-found sub secret t s (same sub.id ∙ found), deliver_each)
            (After-append t u.0 _ (failure sub.id r.0)
              (failures out event_type payload table subs r.1) event_type payload
              (settle-After event_type payload sub.id t r h)
              (deliver_each-After table subs u.0 r.1 (settle-Sound event_type payload sub.id t r h)
                (λ i. secret_of-settle event_type payload sub.id i t r ∙ same i))))
  ]

  -- The failures are the ones that the outside gives, up to the state that the delivery leaves.
  pub deliver_each-Failed :
      (table subs : List Sub) (t : Tables) (s : S)
      → ((i : ℕ) → secret_of i t.subs ≡ secret_of i table)
      → All (λ (sub : Sub). secret_of sub.id table ≡ some sub.hmac_secret) subs
      → Failed out event_type payload subs s
          (failures out event_type payload table subs s)
          (deliver_each out event_type payload subs (t, s)).1
  unfolding deliver_each failures
  deliver_each-Failed table [] t s same own = all_tried s
  deliver_each-Failed table (sub ∷ subs) t s same own =
      let found = own.0 in
      let r = attempts out sub.url sub.hmac_secret event_type payload backoff [] s in
      let u = settle sub.id event_type payload t r in
      rw (found, failures)
        (rw (deliver_one-found sub sub.hmac_secret t s (same sub.id ∙ found), deliver_each)
          (Failed-next out event_type payload sub subs s r.0 r.1 _ _
            (attempts-Tried out sub.url sub.hmac_secret event_type payload s)
            (deliver_each-Failed table subs u.0 r.1
              (λ i. secret_of-settle event_type payload sub.id i t r ∙ same i) own.1)))
