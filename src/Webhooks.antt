-- ===== src/Webhooks.antt =====
-- webhooks_out.py: the subscribers of outgoing webhooks, the delivery of an event to each of them
-- with its retries, and the queue of dead letters. A payload is its JSON text; the timestamps of the
-- rows, the headers and the signature are not modelled. The worker takes one event after another.

pub mod Admin
pub mod Letters
pub mod History
pub mod Trial
pub mod Failures
pub mod Delivered
pub mod Outcome
pub mod Tests
use mathlib.Core.List.{reverse}
use protek.Prelude.{
  ℕ, suc, ◌+◌, Str, Option, none, some, Bool, true, false, ◌&&◌, ◌||◌, List, [], ◌∷◌, ◌++◌, ◌==◌,
  nat_eq, str_eq, if◌then◌else◌, ltb, leb, any, select, max, take, length,
}
use protek.Prelude.Text.{lit, is_empty}
use protek.Prelude.Decimal.{show_nat}
use protek.Prelude.CommaList.{comma_parts}

-- A row of webhook_subs.
pub record Sub : Type 0 where
  pub id : ℕ
  pub name : Str
  pub url : Str
  pub hmac_secret : Str
  pub event_mask : Str
  pub enabled : Bool
  pub last_error : Str
  pub consec_failures : ℕ

-- A row of webhook_dlq.
pub record Letter : Type 0 where
  pub id : ℕ
  pub sub_id : ℕ
  pub event_type : Str
  pub payload : Str
  pub last_error : Str
  pub attempts : ℕ

-- The two tables, with the ids that AUTOINCREMENT gives out next.
pub record Tables : Type 0 where
  pub subs : List Sub
  pub letters : List Letter
  pub next_sub : ℕ
  pub next_letter : ℕ

-- What a POST comes to: a status with the text of the answer, or no answer.
pub data Response : Type 0 where
  status : ℕ → Str → Response
  unreachable : Str → Response

-- The outside in a state of its own: the bucket of a URL, the POST (signed by the secret), and the
-- seconds that the worker sleeps.
pub record Outside (S : Type 0) : Type 0 where
  pub acquire : Str → S → Bool × S
  pub record_429 : Str → S → S
  pub post : (url secret event_type payload : Str) → S → Response × S
  pub sleep : ℕ → S → S

-- `BACKOFF`
unfoldable pub backoff : List ℕ
backoff = 2 ∷ 4 ∷ 8 ∷ []

-- What an attempt came to: nothing, or its error.
unfoldable pub answer : {S : Type 0} → Outside S → Str → Response × S → Option Str × S
answer out url (unreachable e, s) = (some (lit "network: " ++ e), s)
answer out url (status n text, s) =
    if n == 429
    then (some (lit "HTTP 429: rate limited"), out.record_429 url s)
    else if leb 200 n && ltb n 300
    then (none, s)
    else (some (lit "HTTP " ++ show_nat n ++ lit ": " ++ take 200 text), s)

unfoldable pub post_if :
    {S : Type 0} → Outside S → (url secret event_type payload : Str) → Bool × S → Option Str × S
post_if out url secret event_type payload (false, s) =
    (some (lit "backpressure — webhook bucket exhausted"), s)
post_if out url secret event_type payload (true, s) =
    answer out url (out.post url secret event_type payload s)

-- `_send_once`
unfoldable pub send_once :
    {S : Type 0} → Outside S → (url secret event_type payload : Str) → S → Option Str × S
unfolding post_if answer
send_once out url secret event_type payload s =
    post_if out url secret event_type payload (out.acquire url s)

unfoldable pub pause : {S : Type 0} → Outside S → ℕ → List ℕ → S → S
pause out wait [] s = s
pause out wait (w ∷ waits) s = out.sleep wait s

-- The loop over the attempts of `_deliver_one`; the result is the last error, or none.
unfoldable pub attempts :
    {S : Type 0}
    → Outside S
    → (url secret event_type payload : Str) → List ℕ
    → (last_err : Str) → S
    → Option Str × S
unfolding pause
attempts out url secret event_type payload [] last_err s = (some last_err, s)
attempts out url secret event_type payload (wait ∷ waits) last_err s =
    let sent = send_once out url secret event_type payload s in
    elim sent.0 [
      | none ↦ (none, sent.1)
      | some err ↦
          attempts out url secret event_type payload waits err (pause out wait waits sent.1)
    ]

unfoldable pub secret_of : ℕ → List Sub → Option Str
secret_of sub_id [] = none
secret_of sub_id (sub ∷ subs) =
    if sub.id == sub_id then some sub.hmac_secret else secret_of sub_id subs

-- `UPDATE webhook_subs SET … WHERE id = ?`
unfoldable pub update_sub : ℕ → (Sub → Sub) → List Sub → List Sub
update_sub sub_id f [] = []
update_sub sub_id f (sub ∷ subs) =
    (if sub.id == sub_id then f sub else sub) ∷ update_sub sub_id f subs

abbrev pub marked_ok : Sub → Sub
marked_ok sub = record sub { last_error = []; consec_failures = 0 }

abbrev pub marked_failed : Str → Sub → Sub
marked_failed err sub = record sub {
  last_error = take 300 err;
  consec_failures = sub.consec_failures + 1;
}

unfoldable pub mark_ok : ℕ → Tables → Tables
mark_ok sub_id t = record t { subs = update_sub sub_id marked_ok t.subs }

unfoldable pub mark_fail : ℕ → Str → Tables → Tables
mark_fail sub_id err t = record t { subs = update_sub sub_id (marked_failed err) t.subs }

-- `SELECT MAX(id) FROM webhook_dlq`
unfoldable pub max_id : List Letter → ℕ
max_id [] = 0
max_id (l ∷ ls) = max l.id (max_id ls)

-- The rows that the DELETE of `_push_dlq` leaves, by the largest id.
abbrev pub is_kept : ℕ → Letter → Bool
is_kept largest l = leb largest (l.id + 1000)

abbrev pub new_letter : (id sub_id : ℕ) (event_type payload err : Str) → Letter
new_letter id sub_id event_type payload err = record {
  id = id;
  sub_id = sub_id;
  event_type = event_type;
  payload = payload;
  last_error = take 300 err;
  attempts = length backoff;
}

unfoldable pub push_dlq : (sub_id : ℕ) → (event_type payload err : Str) → Tables → Tables
unfolding max_id
push_dlq sub_id event_type payload err t =
    let letters = t.letters ++ new_letter t.next_letter sub_id event_type payload err ∷ [] in
    record t {
      letters = select (is_kept (max_id letters)) letters;
      next_letter = suc t.next_letter;
    }

-- What follows the attempts.
unfoldable pub settle :
    {S : Type 0} → (sub_id : ℕ) → (event_type payload : Str) → Tables → Option Str × S → Tables × S
unfolding mark_ok mark_fail push_dlq
settle sub_id event_type payload t (none, s) = (mark_ok sub_id t, s)
settle sub_id event_type payload t (some err, s) =
    (mark_fail sub_id err (push_dlq sub_id event_type payload err t), s)

-- `_deliver_one`
unfoldable pub deliver_one :
    {S : Type 0} → Outside S → (event_type payload : Str) → Sub → Tables × S → Tables × S
unfolding secret_of attempts settle
deliver_one out event_type payload sub ts = elim (secret_of sub.id ts.0.subs) [
  | none ↦ ts
  | some secret ↦
      settle sub.id event_type payload ts.0
        (attempts out sub.url secret event_type payload backoff [] ts.1)
]

-- `_match`; `glob` is `fnmatch.fnmatchcase`.
unfoldable pub matches_mask : (Str → Str → Bool) → Str → Str → Bool
matches_mask glob event_mask event_type =
    is_empty event_mask
    || event_mask == lit "*"
    || any (λ piece. glob event_type piece) (comma_parts event_mask)

unfoldable pub deliver_each :
    {S : Type 0} → Outside S → (event_type payload : Str) → List Sub → Tables × S → Tables × S
unfolding deliver_one
deliver_each out event_type payload [] ts = ts
deliver_each out event_type payload (sub ∷ subs) ts =
    deliver_each out event_type payload subs (deliver_one out event_type payload sub ts)

-- `list_subs`: the newest first
unfoldable pub list_subs : Tables → List Sub
list_subs t = reverse t.subs

-- `_deliver_all`
unfoldable pub deliver_all :
    {S : Type 0}
    → (Str → Str → Bool)
    → Outside S
    → (event_type payload : Str) → Tables × S
    → Tables × S
unfolding matches_mask list_subs deliver_each
deliver_all glob out event_type payload ts =
    deliver_each out event_type payload
      (select (λ sub. sub.enabled && matches_mask glob sub.event_mask event_type) (list_subs ts.0))
      ts

-- An event with its payload, in the queue of the worker.
abbrev pub Event : Type 0
Event = Str × Str

abbrev pub queue_size : ℕ
queue_size = 10_000

-- `emit`: a full queue drops the event.
unfoldable pub emit : Str → Str → List Event → List Event
emit event_type payload queue =
    if ltb (length queue) queue_size then queue ++ (event_type, payload) ∷ [] else queue

-- One turn of `_worker_loop`.
unfoldable pub work :
    {S : Type 0}
    → (Str → Str → Bool)
    → Outside S
    → List Event × Tables × S
    → List Event × Tables × S
unfolding deliver_all
work glob out ([], t, s) = ([], t, s)
work glob out ((event_type, payload) ∷ queue, t, s) =
    let ts = deliver_all glob out event_type payload (t, s) in (queue, ts.0, ts.1)
