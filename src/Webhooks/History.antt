-- ===== src/Webhooks/History.antt =====
-- Any history of operations on the webhooks.
use protek.Prelude.{
  ℕ, ◌≤◌, ◌<◌, ◌≡◌, refl, arith, Str, Option, none, some, Bool, List, [], ◌∷◌, ◌==◌, nat_eq, All,
  length, select, ◌&&◌, Bool-cases, Option-cases, inl, inr,
}
use protek.Webhooks.{
  Letter, Sub, Tables, Outside, deliver_one, deliver_each, deliver_all, matches_mask, list_subs,
  secret_of,
}
use protek.Webhooks.Admin.{
  add_sub, insert_sub, delete_sub, toggle_sub, replay_dlq, after_replay, update_letter, tried_again,
  find_letter, receiver,
}
use protek.Webhooks.Letters.{
  Ascending, IsRecent, Sound, Sound-select, settle-Sound, same-Sound, length-Sound,
}

-- What the code does not implement: `isalnum`, `fnmatchcase` and the reading of JSON.
pub record Helpers : Type 0 where
  pub isalnum : Str → Bool
  pub glob : Str → Str → Bool
  pub is_json : Str → Bool

pub data Op : Type 0 where
  add : (random name url event_mask hmac_secret : Str) → Op
  delete : ℕ → Op
  toggle : ℕ → Bool → Op
  event : (event_type payload : Str) → Op
  replay : ℕ → Op

abbrev pub step : {S : Type 0} → Helpers → Outside S → Op → Tables × S → Tables × S
step w out (add random name url event_mask secret) ts =
    ((add_sub w.isalnum random name url event_mask secret ts.0).1, ts.1)
step w out (delete sub_id) ts = (delete_sub sub_id ts.0, ts.1)
step w out (toggle sub_id enabled) ts = (toggle_sub sub_id enabled ts.0, ts.1)
step w out (event event_type payload) ts = deliver_all w.glob out event_type payload ts
step w out (replay entry_id) ts = let r = replay_dlq w.is_json out entry_id ts in (r.1, r.2)

unfoldable pub run : {S : Type 0} → Helpers → Outside S → List Op → Tables × S → Tables × S
run w out [] ts = ts
run w out (op ∷ ops) ts = run w out ops (step w out op ts)

abbrev pub no_tables : Tables
no_tables = record { subs = []; letters = []; next_sub = 1; next_letter = 1 }

module _ {S : Type 0} (out : Outside S) where
  deliver_one-Sound :
      (event_type payload : Str) (sub : Sub) (ts : Tables × S)
      → Sound ts.0
      → Sound (deliver_one out event_type payload sub ts).0
  unfolding deliver_one
  deliver_one-Sound event_type payload sub ts h = elim (Option-cases (secret_of sub.id ts.0.subs)) [
    | inl gone ↦ rw (gone, deliver_one) h
    | inr (secret, found) ↦
        rw (found, deliver_one) (settle-Sound event_type payload sub.id ts.0 _ h)
  ]

  deliver_each-Sound :
      (event_type payload : Str) (subs : List Sub) (ts : Tables × S)
      → Sound ts.0
      → Sound (deliver_each out event_type payload subs ts).0
  unfolding deliver_each
  deliver_each-Sound event_type payload [] ts h = h
  deliver_each-Sound event_type payload (sub ∷ subs) ts h =
      deliver_each-Sound event_type payload subs (deliver_one out event_type payload sub ts)
        (deliver_one-Sound event_type payload sub ts h)

  All-update_letter :
      (P : Letter → Type 0) (i : ℕ) (err : Str) (ls : List Letter)
      → ((l : Letter) → P l → P (tried_again err l))
      → All P ls
      → All P (update_letter i (tried_again err) ls)
  unfolding update_letter
  All-update_letter P i err [] keep h = tt
  All-update_letter P i err (l ∷ ls) keep h = elim (Bool-cases (l.id == i)) [
    | inl here ↦ rw here (keep l h.0, All-update_letter P i err ls keep h.1)
    | inr other ↦ rw other (h.0, All-update_letter P i err ls keep h.1)
  ]

  Ascending-update_letter :
      (i : ℕ) (err : Str) (ls : List Letter)
      → Ascending ls
      → Ascending (update_letter i (tried_again err) ls)
  unfolding update_letter
  Ascending-update_letter i err [] h = tt
  Ascending-update_letter i err (l ∷ ls) h =
      let above = All-update_letter (λ m. l.id < m.id) i err ls (λ m k. k) h.0 in
      elim (Bool-cases (l.id == i)) [
        | inl here ↦ rw here (above, Ascending-update_letter i err ls h.1)
        | inr other ↦ rw other (above, Ascending-update_letter i err ls h.1)
      ]

  after_replay-Sound :
      (i : ℕ) (t : Tables) (r : Option Str × S) → Sound t → Sound (after_replay i t r).1
  unfolding after_replay
  after_replay-Sound i t (none, s) h = Sound-select t _ h
  after_replay-Sound i t (some err, s) h = record {
    ascending = Ascending-update_letter i err t.letters h.ascending;
    recent = All-update_letter (IsRecent t.next_letter) i err t.letters (λ m k. k) h.recent;
  }

  replay_dlq-Sound :
      (is_json : Str → Bool) (i : ℕ) (t : Tables) (s : S)
      → Sound t
      → Sound (replay_dlq is_json out i (t, s)).1
  unfolding replay_dlq
  replay_dlq-Sound is_json i t s h = elim (Option-cases (find_letter i t.letters)) [
    | inl gone ↦ rw (gone, replay_dlq) h
    | inr (l, found) ↦ elim (Option-cases (receiver l.sub_id t.subs)) [
      | inl orphan ↦ rw (found, replay_dlq) (rw orphan h)
      | inr (sub, there) ↦ elim (Bool-cases (is_json l.payload)) [
        | inl good ↦ rw (found, replay_dlq) (rw there (rw good (after_replay-Sound i t _ h)))
        | inr bad ↦ rw (found, replay_dlq) (rw there (rw bad h))
      ]
    ]
  ]

  add_sub-letters :
      (isalnum : Str → Bool) (random name url mask secret : Str) (t : Tables)
      → let u = (add_sub isalnum random name url mask secret t).1 in
        (t.letters ≡ u.letters) × (t.next_letter ≡ u.next_letter)
  unfolding add_sub insert_sub
  add_sub-letters isalnum random name url mask secret t = ground arith

  step-Sound : (w : Helpers) (op : Op) (ts : Tables × S) → Sound ts.0 → Sound (step w out op ts).0
  unfolding delete_sub toggle_sub deliver_all
  step-Sound w (add random name url mask secret) ts h =
      let same = add_sub-letters w.isalnum random name url mask secret ts.0 in
      same-Sound ts.0 _ same.0 same.1 h
  step-Sound w (delete sub_id) ts h = same-Sound _ _ refl refl (Sound-select ts.0 _ h)
  step-Sound w (toggle sub_id enabled) ts h = same-Sound ts.0 _ refl refl h
  step-Sound w (event event_type payload) ts h =
      deliver_each-Sound event_type payload
        (select (λ sub. sub.enabled && matches_mask w.glob sub.event_mask event_type)
          (list_subs ts.0))
        ts h
  step-Sound w (replay i) (t, s) h = replay_dlq-Sound w.is_json i t s h

  run-Sound :
      (w : Helpers) (ops : List Op) (ts : Tables × S) → Sound ts.0 → Sound (run w out ops ts).0
  unfolding run
  run-Sound w [] ts h = h
  run-Sound w (op ∷ ops) ts h = run-Sound w ops (step w out op ts) (step-Sound w op ts h)

-- Whatever the outside answers, after any history of additions, deletions and switches of
-- subscribers, of events and of replays there are at most 1001 dead letters; they are in the order of
-- their ids, no id stands twice, and all of them are among the last 1001 that were written.
pub letters-run :
    {S : Type 0} (w : Helpers) (out : Outside S) (ops : List Op) (s : S)
    → (let t = (run w out ops (no_tables, s)).0 in
        (length t.letters ≤ 1001) × Ascending t.letters × All (IsRecent t.next_letter) t.letters)
letters-run w out ops s =
    let sound = run-Sound out w ops (no_tables, s) (record { ascending = tt; recent = tt }) in
    (length-Sound _ sound, sound.ascending, sound.recent)
