-- ===== src/Federation.antt =====
-- federation.py: the table `sources` and its operations. A confidence below 0 is given as 0, and the
-- time of a pull is the text that the clock gives. The columns of the migrations are there.

pub mod Rows
pub mod Local
pub mod Tests
use protek.Prelude.{
  ℕ, suc, Str, Option, none, some, Bool, true, false, not, ◌&&◌, List, [], ◌∷◌, ◌++◌, ◌==◌, nat_eq,
  str_eq, map, if◌then◌else◌, any, select, max,
}
use protek.Prelude.Text.{lit, is_empty}
use protek.Siem.Syslog.{env_str}

-- A row of the table, and the class of the same name.
pub record Source : Type 0 where
  pub id : ℕ
  pub name : Str
  pub url : Str
  pub api_key : Str
  pub enabled : Bool
  pub paused : Bool
  pub confidence : ℕ
  pub backoff_until : Option Str
  pub last_pull_at : Option Str
  pub last_pull_n : ℕ
  pub last_error : Str
  pub last_pull_ms : ℕ

-- The table, with the id that it gives out next.
pub record Sources : Type 0 where
  pub rows : List Source
  pub next_id : ℕ

abbrev pub local : Str
local = lit "local"

abbrev pub is_local : Source → Bool
is_local s = s.name == local

-- `INSERT INTO sources`; the other columns have their defaults.
unfoldable pub insert_source : (name url api_key : Str) → (confidence : ℕ) → Sources → Sources
insert_source name url api_key confidence t = record {
  rows =
      t.rows
      ++ record {
        id = t.next_id;
        name = name;
        url = url;
        api_key = api_key;
        enabled = true;
        paused = false;
        confidence = confidence;
        backoff_until = none;
        last_pull_at = none;
        last_pull_n = 0;
        last_error = [];
        last_pull_ms = 0;
      }
        ∷ [];
  next_id = suc t.next_id;
}

-- `UPDATE sources SET url = ?, api_key = ? WHERE name = ?`
abbrev pub refreshed : Str → Str → Source → Source
refreshed url key s = if s.name == local then record s { url = url; api_key = key } else s

unfoldable pub seed_with : (url key : Str) → Sources → Sources
unfolding insert_source
seed_with url key t =
    if any is_local t.rows
    then record t { rows = map (refreshed url key) t.rows }
    else insert_source local url key 1 t

abbrev pub local_url : (Str → Option Str) → Str
local_url environ = env_str environ (lit "CROWDSEC_LAPI_URL") (lit "http://127.0.0.1:8080")

abbrev pub local_key : (Str → Option Str) → Str
local_key environ = env_str environ (lit "CROWDSEC_BOUNCER_KEY") []

-- `seed_local_source`
unfoldable pub seed_local_source : (Str → Option Str) → Sources → Sources
unfolding seed_with
seed_local_source environ t =
    if is_empty (local_key environ) then t else seed_with (local_url environ) (local_key environ) t

unfoldable pub list_sources : (include_disabled : Bool) → Sources → List Source
list_sources true t = t.rows
list_sources false t = select (λ (s : Source). s.enabled) t.rows

-- The sources of `clients`.
unfoldable pub clients : Sources → List Source
unfolding list_sources
clients t = select (λ (s : Source). not s.paused) (list_sources false t)

-- `UPDATE sources SET … WHERE id = ?`
unfoldable pub update_source : ℕ → (Source → Source) → List Source → List Source
update_source i f [] = []
update_source i f (s ∷ rows) = (if s.id == i then f s else s) ∷ update_source i f rows

unfoldable pub record_pull :
    (now : Str) → ℕ → (count : ℕ) → (error : Str) → (duration_ms : ℕ) → Sources → Sources
unfolding update_source
record_pull now i count error duration_ms t = record t {
  rows =
      update_source i
        (λ s. record s {
          last_pull_at = some now;
          last_pull_n = count;
          last_error = error;
          last_pull_ms = duration_ms;
        })
        t.rows;
}

unfoldable pub set_backoff : ℕ → Option Str → Sources → Sources
unfolding update_source
set_backoff i until_iso t = record t {
  rows = update_source i (λ s. record s { backoff_until = until_iso }) t.rows;
}

unfoldable pub set_paused : ℕ → Bool → Sources → Sources
unfolding update_source
set_paused i paused t = record t {
  rows = update_source i (λ s. record s { paused = paused }) t.rows;
}

unfoldable pub set_enabled : ℕ → Bool → Sources → Sources
unfolding update_source
set_enabled i enabled t = record t {
  rows = update_source i (λ s. record s { enabled = enabled }) t.rows;
}

unfoldable pub set_confidence : ℕ → ℕ → Sources → Sources
unfolding update_source
set_confidence i confidence t = record t {
  rows = update_source i (λ s. record s { confidence = max 1 confidence }) t.rows;
}

-- Why an operation raises: the UNIQUE constraint of the names, or the ValueError of `delete_source`.
pub data Refusal : Type 0 where
  name_taken local_anchor : Refusal

-- `add_source`
unfoldable pub add_source :
    (name url api_key : Str) → (confidence : ℕ) → Sources → Option Refusal × Sources
unfolding insert_source
add_source name url api_key confidence t =
    if any (λ (s : Source). s.name == name) t.rows
    then (some name_taken, t)
    else (none, insert_source name url api_key (max 1 confidence) t)

-- `delete_source`; an id is that of one row at most.
unfoldable pub delete_source : ℕ → Sources → Option Refusal × Sources
delete_source i t =
    if any (λ (s : Source). s.id == i && is_local s) t.rows
    then (some local_anchor, t)
    else (none, record t { rows = select (λ (s : Source). not (s.id == i)) t.rows })
