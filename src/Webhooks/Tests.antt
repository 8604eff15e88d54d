-- ===== src/Webhooks/Tests.antt =====
-- Two subscribers, of which the second never answers: an event to both, its replay, and a history.
use protek.Prelude.{
  ℕ, Str, ◌+◌, ◌≤◌, ◌≡◌, refl, true, false, List, [], ◌∷◌, ◌==◌, nat_eq, str_eq, if◌then◌else◌,
  length, All,
}
use protek.Prelude.Text.{lit, is_empty, starts_with, split_all, strip}
use protek.Prelude.Equality.{str_beq}
use protek.Prelude.CommaList.{comma_parts, strip_parts}
use protek.Prelude.Decimal.{show_nat}
use protek.Webhooks.{
  Letter, Tables, Outside, status, deliver_all, new_letter, list_subs, deliver_each, deliver_one,
  secret_of, settle, mark_ok, mark_fail, update_sub, push_dlq, max_id, attempts, backoff, send_once,
  post_if, answer, pause, matches_mask,
}
use protek.Webhooks.Admin.{
  add_sub, insert_sub, delete_sub, toggle_sub, replay_dlq, find_letter, receiver, find_sub,
  after_replay, update_letter,
}
use protek.Webhooks.Letters.{Ascending, IsRecent}
use protek.Webhooks.History.{Helpers, Op, run, no_tables, letters-run}
use protek.Webhooks.Trial.{Failed}
use protek.Webhooks.Outcome.{receivers, queue_after, letters-deliver_all}
use Op.{add, event, replay}

-- The state counts the seconds that the worker slept.
abbrev outside : Outside ℕ
outside = record {
  acquire = λ url s. (true, s);
  record_429 = λ url s. s;
  post = λ url secret event_type payload s.
      (if url == lit "https://a.example" then status 204 [] else status 503 (lit "busy"), s);
  sleep = λ n s. n + s;
}

abbrev helpers : Helpers
helpers = record {
  isalnum = λ name. if is_empty name then false else true;
  glob = λ event_type mask. mask == event_type;
  is_json = λ text. true;
}

abbrev history : List Op
history =
    add (lit "r") (lit "a") (lit "https://a.example") (lit "*") []
    ∷ add (lit "r") (lit "b") (lit "https://b.example") (lit "block, drift") []
    ∷ event (lit "block") (lit "{}")
    ∷ event (lit "slo") (lit "{}")
    ∷ replay 1
    ∷ event (lit "drift") (lit "[]")
    ∷ []

abbrev letters : List Letter
letters =
    record {
      id = 1;
      sub_id = 2;
      event_type = lit "block";
      payload = lit "{}";
      last_error = lit "HTTP 503: busy";
      attempts = 4;
    }
    ∷ new_letter 2 2 (lit "drift") (lit "[]") (lit "HTTP 503: busy")
    ∷ []

history_letters : (run helpers outside history (no_tables, 0)).0.letters ≡ letters
unfolding run add_sub insert_sub delete_sub toggle_sub replay_dlq find_letter receiver find_sub
    after_replay update_letter deliver_all list_subs deliver_each deliver_one secret_of settle
    mark_ok mark_fail update_sub push_dlq max_id attempts backoff send_once post_if answer pause
    matches_mask starts_with str_beq comma_parts strip_parts split_all strip show_nat
history_letters = refl

-- Six seconds for each event that failed: the third wait is never slept.
history_slept : (run helpers outside history (no_tables, 0)).1 ≡ 12
unfolding run add_sub insert_sub delete_sub toggle_sub replay_dlq find_letter receiver find_sub
    after_replay update_letter deliver_all list_subs deliver_each deliver_one secret_of settle
    mark_ok mark_fail update_sub push_dlq max_id attempts backoff send_once post_if answer pause
    matches_mask starts_with str_beq comma_parts strip_parts split_all strip show_nat
history_slept = refl

letters-run_example :
    let t = (run helpers outside history (no_tables, 0)).0 in
    (length t.letters ≤ 1001) × Ascending t.letters × All (IsRecent t.next_letter) t.letters
letters-run_example = letters-run helpers outside history 0

abbrev two_subs : Tables
two_subs =
    (run helpers outside
      (add (lit "r") (lit "a") (lit "https://a.example") (lit "*") []
        ∷ add (lit "r") (lit "b") (lit "https://b.example") [] []
        ∷ [])
      (no_tables, 0)).0

block_letters :
    (deliver_all helpers.glob outside (lit "block") (lit "{}") (two_subs, 0)).0.letters
    ≡ new_letter 1 2 (lit "block") (lit "{}") (lit "HTTP 503: busy") ∷ []
unfolding run add_sub insert_sub deliver_all list_subs deliver_each deliver_one secret_of settle
    mark_ok mark_fail update_sub push_dlq max_id attempts backoff send_once post_if answer pause
    matches_mask starts_with str_beq comma_parts strip_parts split_all strip show_nat
block_letters = refl

letters-deliver_all_example :
    let after = deliver_all helpers.glob outside (lit "block") (lit "{}") (two_subs, 0) in
    (fs : List (ℕ × Str)) × Failed outside
      (lit "block")
      (lit "{}")
      (receivers helpers.glob (lit "block") two_subs.subs)
      0
      fs
      after.1
    × (after.0.letters ≡ queue_after (lit "block") (lit "{}") two_subs fs)
unfolding run add_sub insert_sub starts_with str_beq
letters-deliver_all_example =
    letters-deliver_all helpers.glob outside (lit "block") (lit "{}") two_subs 0
      ((refl, tt), (tt, tt)) (record { ascending = tt; recent = tt })
