-- ===== src/Webhooks/Outcome.antt =====
-- What one event leaves in the queue of dead letters, from what the outside answers.
use mathlib.Core.List.{reverse, reverse-cons}
use protek.Prelude.{
  ℕ, suc, subst, ◌+◌, ◌-◌, ◌≡◌, refl, ap, sym, ◌∙◌, arith, Str, some, Bool, false, ◌&&◌, ◌||◌, List,
  [], ◌∷◌, ◌++◌, ◌==◌, nat_eq, nat_beq_iff, str_eq, select, any, All, All-append, leb, length, take,
}
use protek.Prelude.Text.{lit, is_empty}
use protek.Prelude.CommaList.{comma_parts}
use protek.Webhooks.{
  Letter, Sub, Tables, Outside, secret_of, matches_mask, list_subs, deliver_all, backoff,
  new_letter,
}
use protek.Webhooks.Letters.{Sound, All-zip, All-select, All-weaken}
use protek.Webhooks.Failures.{failures, letters_of, kept_at}
use protek.Webhooks.Trial.{Failed}
use protek.Webhooks.Delivered.{deliver_each-After, deliver_each-Failed}

-- No two rows have one id.
abbrev pub Distinct : List Sub → Type 0
Distinct [] = Unit
Distinct (s ∷ subs) = All (λ (u : Sub). (s.id == u.id) ≡ false) subs × Distinct subs

-- The subscribers of an event, the newest first: those that are enabled and whose mask is empty, is
-- `*`, or has a pattern among its parts that the event matches.
abbrev pub wants : (Str → Str → Bool) → Str → Sub → Bool
wants glob event_type sub =
    sub.enabled
    && (is_empty sub.event_mask
        || sub.event_mask == lit "*"
        || any (λ piece. glob event_type piece) (comma_parts sub.event_mask))

abbrev pub receivers : (Str → Str → Bool) → Str → List Sub → List Sub
receivers glob event_type subs = select (wants glob event_type) (reverse subs)

-- A letter for each failure, with ids from `next`: the first 300 characters of the error, and three
-- attempts.
unfoldable pub dead_letters : (event_type payload : Str) → ℕ → List (ℕ × Str) → List Letter
dead_letters event_type payload next [] = []
dead_letters event_type payload next ((sub_id, err) ∷ fs) =
    record {
      id = next;
      sub_id = sub_id;
      event_type = event_type;
      payload = payload;
      last_error = take 300 err;
      attempts = 3;
    }
    ∷ dead_letters event_type payload (suc next) fs

-- The letters that are not more than 1000 below the id `last`.
abbrev pub newest : ℕ → List Letter → List Letter
newest last = select (λ (l : Letter). leb last (l.id + 1000))

-- The queue that a run of failures should leave.
abbrev pub queue_after : (event_type payload : Str) → Tables → List (ℕ × Str) → List Letter
queue_after event_type payload t fs =
    newest (t.next_letter + length fs - 1)
      (t.letters ++ dead_letters event_type payload t.next_letter fs)

dead_letters-eq :
    (event_type payload : Str) (next : ℕ) (fs : List (ℕ × Str))
    → letters_of event_type payload next fs ≡ dead_letters event_type payload next fs
unfolding letters_of dead_letters backoff
dead_letters-eq event_type payload next [] = refl
dead_letters-eq event_type payload next ((sub_id, err) ∷ fs) =
    ap (λ l. new_letter next sub_id event_type payload err ∷ l)
      (dead_letters-eq event_type payload (suc next) fs)

All-reverse : (P : Sub → Type 0) (subs : List Sub) → All P subs → All P (reverse subs)
All-reverse P [] h = tt
All-reverse P (s ∷ subs) h =
    subst (All P) (sym (reverse-cons s subs))
      (All-append P (reverse subs) (s ∷ []) (All-reverse P subs h.1) (h.0, tt))

-- A row is found by its own id.
abbrev HasOwn : List Sub → Sub → Type 0
HasOwn table sub = secret_of sub.id table ≡ some sub.hmac_secret

HasOwn-Distinct : (subs : List Sub) → Distinct subs → All (HasOwn subs) subs
unfolding secret_of
HasOwn-Distinct [] h = tt
HasOwn-Distinct (s ∷ subs) h = (
  ground (arith, nat_beq_iff s.id s.id),
  All-zip _ _ _ subs (λ u other own. rw other own) h.0 (HasOwn-Distinct subs h.1),
)

-- On tables with distinct ids of subscribers and a sound queue, an event is sent to the subscribers
-- that are enabled and whose mask it matches, the newest first; the outside answers each of them up
-- to three POSTs, two and four seconds apart, which end with the first that is acknowledged. Those
-- that acknowledge none fail, in this order and with the error of the last POST, and for each the
-- queue gains a letter with the next id; of all letters, those more than 1000 below the last id are
-- gone.
pub letters-deliver_all :
    {S : Type 0} (glob : Str → Str → Bool) (out : Outside S) (event_type payload : Str) (t : Tables)
    (s : S)
    → Distinct t.subs
    → Sound t
    → (let after = deliver_all glob out event_type payload (t, s) in
        (fs : List (ℕ × Str)) × Failed out event_type payload
          (receivers glob event_type t.subs)
          s
          fs
          after.1
        × (after.0.letters ≡ queue_after event_type payload t fs))
unfolding deliver_all list_subs matches_mask
letters-deliver_all glob out event_type payload t s distinct h =
    let subs = receivers glob event_type t.subs in
    let fs = failures out event_type payload t.subs subs s in
    let own = All-reverse (HasOwn t.subs) t.subs (HasOwn-Distinct t.subs distinct) in
    let chosen =
      All-weaken _ (HasOwn t.subs) subs (λ u k. k.0)
        (All-select (HasOwn t.subs) (wants glob event_type) (reverse t.subs) own) in
    let after = deliver_each-After out event_type payload t.subs subs t s h (λ i. refl) in
    (
      fs,
      deliver_each-Failed out event_type payload t.subs subs t s (λ i. refl) chosen,
      after.letters
          ∙ ap (λ l. kept_at (t.next_letter + length fs) (t.letters ++ l))
              (dead_letters-eq event_type payload t.next_letter fs),
    )
