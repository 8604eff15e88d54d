-- ===== src/Webhooks/Admin.antt =====
-- webhooks_out.py: the operations of the page /webhooks on the two tables. The test `isalnum` and the
-- random secret are arguments, and so is the reading of a payload's JSON.
use protek.Prelude.{
  ℕ, suc, ◌+◌, Str, Option, none, some, Bool, true, not, ◌||◌, List, [], ◌∷◌, ◌++◌, ◌==◌, nat_eq,
  str_eq, if◌then◌else◌, any, select, take,
}
use protek.Prelude.Text.{lit, is_empty, starts_with, or_text}
use protek.Webhooks.{Sub, Letter, Tables, Outside, send_once, update_sub}

-- Why a subscriber is not added; the name is UNIQUE in the table.
pub data AddError : Type 0 where
  bad_name bad_url name_taken : AddError

pub data Added : Type 0 where
  added : ℕ → Added
  refused : AddError → Added

abbrev is_plain : ℕ → Bool
is_plain c = not (c == b'-' || c == b'_')

unfoldable pub insert_sub : (name url event_mask secret : Str) → Tables → Added × Tables
insert_sub name url event_mask secret t =
    if any (λ (sub : Sub). sub.name == name) t.subs then (refused name_taken, t) else (
      added t.next_sub,
      record t {
        subs =
            t.subs
            ++ record {
              id = t.next_sub;
              name = name;
              url = url;
              hmac_secret = secret;
              event_mask = event_mask;
              enabled = true;
              last_error = [];
              consec_failures = 0;
            }
              ∷ [];
        next_sub = suc t.next_sub;
      },
    )

-- `add_sub`
unfoldable pub add_sub :
    (isalnum : Str → Bool) (random : Str) (name url event_mask hmac_secret : Str)
    → Tables
    → Added × Tables
unfolding insert_sub
add_sub isalnum random name url event_mask hmac_secret t =
    if not (isalnum (select is_plain name))
    then (refused bad_name, t)
    else if not (starts_with (lit "http://") url || starts_with (lit "https://") url)
    then (refused bad_url, t)
    else insert_sub name url event_mask (or_text hmac_secret random) t

-- `delete_sub`: the subscriber and its letters
unfoldable pub delete_sub : ℕ → Tables → Tables
delete_sub sub_id t = record t {
  subs = select (λ (sub : Sub). not (sub.id == sub_id)) t.subs;
  letters = select (λ (l : Letter). not (l.sub_id == sub_id)) t.letters;
}

unfoldable pub toggle_sub : ℕ → Bool → Tables → Tables
toggle_sub sub_id enabled t = record t {
  subs = update_sub sub_id (λ sub. record sub { enabled = enabled }) t.subs;
}

-- What a replay answers.
pub data Replayed : Type 0 where
  delivered not_found subscriber_gone corrupted : Replayed
  failed : Str → Replayed

unfoldable pub find_letter : ℕ → List Letter → Option Letter
find_letter entry_id [] = none
find_letter entry_id (l ∷ ls) = if l.id == entry_id then some l else find_letter entry_id ls

unfoldable pub find_sub : ℕ → List Sub → Option Sub
find_sub sub_id [] = none
find_sub sub_id (sub ∷ subs) = if sub.id == sub_id then some sub else find_sub sub_id subs

-- `UPDATE webhook_dlq SET attempts = attempts + 1, … WHERE id = ?`
abbrev pub tried_again : Str → Letter → Letter
tried_again err l = record l { attempts = l.attempts + 1; last_error = take 300 err }

unfoldable pub update_letter : ℕ → (Letter → Letter) → List Letter → List Letter
update_letter entry_id f [] = []
update_letter entry_id f (l ∷ ls) =
    (if l.id == entry_id then f l else l) ∷ update_letter entry_id f ls

unfoldable pub after_replay : {S : Type 0} → ℕ → Tables → Option Str × S → Replayed × Tables × S
unfolding update_letter
after_replay entry_id t (none, s) =
    (delivered, record t { letters = select (λ (l : Letter). not (l.id == entry_id)) t.letters }, s)
after_replay entry_id t (some err, s) =
    (failed err, record t { letters = update_letter entry_id (tried_again err) t.letters }, s)

-- The subscriber of a letter, where its row has a URL.
unfoldable pub receiver : ℕ → List Sub → Option Sub
unfolding find_sub
receiver sub_id subs = elim (find_sub sub_id subs) [
  | none ↦ none
  | some sub ↦ if is_empty sub.url then none else some sub
]

-- `replay_dlq`
unfoldable pub replay_dlq :
    {S : Type 0} → (is_json : Str → Bool) → Outside S → ℕ → Tables × S → Replayed × Tables × S
unfolding find_letter receiver after_replay
replay_dlq is_json out entry_id (t, s) = elim (find_letter entry_id t.letters) [
  | none ↦ (not_found, t, s)
  | some l ↦ elim (receiver l.sub_id t.subs) [
    | none ↦ (subscriber_gone, t, s)
    | some sub ↦
        let sent = send_once out sub.url sub.hmac_secret l.event_type l.payload s in
        if is_json l.payload then after_replay entry_id t sent else (corrupted, t, s)
  ]
]
