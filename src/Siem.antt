-- ===== src/Siem.antt =====
-- siem.py: the journal of the events and the bounded queue from which the worker sends them. A
-- payload is of a type of its own, with its JSON text; what the forwarders do is an argument, and the
-- operations stand in the order in which they hold the lock. Timestamps are not modelled.

pub mod Syslog
pub mod Queue
pub mod Flow
pub mod Framing
pub mod Tests
use mathlib.Core.List.{reverse}
use protek.Prelude.{
  ℕ, suc, ◌+◌, Str, Option, none, some, Bool, true, false, List, [], ◌∷◌, ◌++◌, ◌==◌, nat_eq,
  str_eq, map, if◌then◌else◌, leb, select, max, take, drop, length,
}
use protek.Prelude.Text.{lit, or_text}

-- A row of siem_journal.
pub record Entry : Type 0 where
  pub id : ℕ
  pub event_type : Str
  pub severity : ℕ
  pub payload_json : Str
  pub shipped : Bool
  pub ship_error : Str

-- What stands in the queue.
pub record Item (P : Type 0) : Type 0 where
  pub row_id : ℕ
  pub event_type : Str
  pub severity : ℕ
  pub payload : P

-- `SIEMQueue` with its table and the id that the table gives out next.
pub record Siem (P : Type 0) : Type 0 where
  pub queue : List (Item P)
  pub dropped : ℕ
  pub journal : List Entry
  pub next_id : ℕ

-- `json.dumps`, `json.loads` and the payload that stands for a text that is no JSON.
pub record Json (P : Type 0) : Type 0 where
  pub dumps : P → Str
  pub loads : Str → Option P
  pub raw : Str → P

abbrev pub sev_info : ℕ
sev_info = 6

-- `EVENT_SEVERITY`
unfoldable pub event_severity : List (Str × ℕ)
event_severity =
    (lit "decision.created", 5)
    ∷ (lit "decision.deleted", 6)
    ∷ (lit "sync.error", 3)
    ∷ (lit "sync.threshold", 4)
    ∷ (lit "auth.failure", 4)
    ∷ (lit "auth.success", 6)
    ∷ (lit "auth.locked", 1)
    ∷ (lit "source.down", 3)
    ∷ (lit "source.up", 6)
    ∷ (lit "mt.unreachable", 3)
    ∷ (lit "mt.recovered", 6)
    ∷ (lit "bouncer.error", 3)
    ∷ (lit "settings.changed", 5)
    ∷ []

unfoldable pub severity_in : Str → List (Str × ℕ) → ℕ
severity_in event_type [] = sev_info
severity_in event_type ((t, n) ∷ rest) = if t == event_type then n else severity_in event_type rest

unfoldable pub severity_of : Str → Option ℕ → ℕ
unfolding event_severity severity_in
severity_of event_type none = severity_in event_type event_severity
severity_of event_type (some n) = n

abbrev pub queue_max : ℕ
queue_max = 10_000

-- A full queue drops its oldest item.
unfoldable pub enqueue : {P : Type 0} → Item P → Siem P → Siem P
enqueue i q =
    if leb queue_max (length q.queue)
    then record q { queue = drop 1 q.queue ++ i ∷ []; dropped = q.dropped + 1 }
    else record q { queue = q.queue ++ i ∷ [] }

-- Which statement on the journal raises.
pub data Write : Type 0 where
  works insert_fails trim_fails : Write

unfoldable pub last_id : List Entry → ℕ
last_id [] = 0
last_id (e ∷ es) = max e.id (last_id es)

unfoldable pub trim : Write → List Entry → List Entry
unfolding last_id
trim works es = select (λ (e : Entry). leb (last_id es) (e.id + 10_000)) es
trim insert_fails es = es
trim trim_fails es = es

-- The write to the journal, with the id that it gives.
unfoldable pub write_journal :
    {P : Type 0} → Write → (event_type : Str) → ℕ → (payload_json : Str) → Siem P → ℕ × Siem P
unfolding trim
write_journal insert_fails event_type sev payload_json q = (0, q)
write_journal w event_type sev payload_json q = (
  q.next_id,
  record q {
    journal = trim w (
        q.journal
        ++ record {
          id = q.next_id;
          event_type = event_type;
          severity = sev;
          payload_json = payload_json;
          shipped = false;
          ship_error = [];
        }
          ∷ []);
    next_id = suc q.next_id;
  },
)

-- The item that `ship` enqueues.
abbrev pub shipped_item : {P : Type 0} → ℕ → Str → Option ℕ → P → Item P
shipped_item row_id event_type severity payload = record {
  row_id = row_id;
  event_type = event_type;
  severity = severity_of event_type severity;
  payload = payload;
}

-- `SIEMQueue.ship`; the id 0 stands for None, and the table gives out no 0.
unfoldable pub ship : {P : Type 0} → Json P → Write → Str → P → Option ℕ → Siem P → ℕ × Siem P
unfolding severity_of write_journal enqueue
ship json w event_type payload severity q =
    let sev = severity_of event_type severity in
    let r = write_journal w event_type sev (json.dumps payload) q in
    (r.0, enqueue (shipped_item r.0 event_type severity payload) r.1)

unfoldable pub payload_of : {P : Type 0} → Json P → Str → P
payload_of json text = elim (json.loads (or_text text (lit "{}"))) [
  | none ↦ json.raw text
  | some p ↦ p
]

-- The item of a row that is replayed: `severity or SEV_INFO`.
unfoldable pub item_of : {P : Type 0} → Json P → Entry → Item P
unfolding payload_of
item_of json e = record {
  row_id = e.id;
  event_type = e.event_type;
  severity = if e.severity == 0 then sev_info else e.severity;
  payload = payload_of json e.payload_json;
}

unfoldable pub enqueue_all : {P : Type 0} → List (Item P) → Siem P → Siem P
unfolding enqueue
enqueue_all [] q = q
enqueue_all (i ∷ is) q = enqueue_all is (enqueue i q)

-- The last `n` rows, the oldest first.
unfoldable pub last_rows : ℕ → List Entry → List Entry
last_rows n es = reverse (take n (reverse es))

-- `SIEMQueue.replay`
unfoldable pub replay : {P : Type 0} → Json P → ℕ → Siem P → ℕ × Siem P
unfolding last_rows item_of enqueue_all
replay json n q =
    let rows = last_rows n q.journal in (length rows, enqueue_all (map (item_of json) rows) q)

-- A forwarder of `_active_forwarders`: its name and its `send`, which may raise.
pub record Forwarder (P S : Type 0) : Type 0 where
  pub name : Str
  pub send : (event_type : Str) → ℕ → P → S → Option Str × S

abbrev pub failure_text : Str → Option Str → List Str
failure_text name none = []
failure_text name (some e) = (name ++ lit ": " ++ e) ∷ []

-- The errors of the forwarders, each of which is tried.
unfoldable pub send_all : {P S : Type 0} → List (Forwarder P S) → Item P → S → List Str × S
send_all [] i s = ([], s)
send_all (fw ∷ fws) i s =
    let sent = fw.send i.event_type i.severity i.payload s in
    let rest = send_all fws i sent.1 in (failure_text fw.name sent.0 ++ rest.0, rest.1)

-- `"; ".join(errors)`
unfoldable pub join_errors : List Str → Str
join_errors [] = []
join_errors (e ∷ []) = e
join_errors (e ∷ f ∷ es) = e ++ lit "; " ++ join_errors (f ∷ es)

-- `UPDATE siem_journal SET shipped_at = ?, ship_error = ? WHERE id = ?`
unfoldable pub stamp : ℕ → Str → List Entry → List Entry
stamp row_id err [] = []
stamp row_id err (e ∷ es) =
    (if e.id == row_id then record e { shipped = true; ship_error = err } else e)
    ∷ stamp row_id err es

unfoldable pub stamp_if : {P : Type 0} → (db_works : Bool) → ℕ → List Str → Siem P → Siem P
unfolding stamp join_errors
stamp_if db_works row_id errors q =
    if row_id == 0
    then q
    else if db_works
    then record q { journal = stamp row_id (take 300 (join_errors errors)) q.journal }
    else q

-- `_dispatch`
unfoldable pub dispatch :
    {P S : Type 0} → List (Forwarder P S) → (db_works : Bool) → Item P → Siem P × S → Siem P × S
unfolding send_all stamp_if
dispatch [] db_works i (q, s) = (q, s)
dispatch (fw ∷ fws) db_works i (q, s) =
    let sent = send_all (fw ∷ fws) i s in (stamp_if db_works i.row_id sent.0 q, sent.1)

-- One turn of `_loop`; the worker waits where the queue is empty.
unfoldable pub turn_on :
    {P S : Type 0}
    → List (Forwarder P S)
    → (db_works : Bool) → List (Item P)
    → Siem P × S
    → Siem P × S
unfolding dispatch
turn_on fws db_works [] qs = qs
turn_on fws db_works (i ∷ is) (q, s) = dispatch fws db_works i (record q { queue = is }, s)

unfoldable pub turn :
    {P S : Type 0} → List (Forwarder P S) → (db_works : Bool) → Siem P × S → Siem P × S
unfolding turn_on
turn fws db_works (q, s) = turn_on fws db_works q.queue (q, s)
