-- ===== src/Ingest.antt =====
-- poller.py: the mirror of the decisions of each LAPI source in the table `decisions`.
pub mod Bootstrap
pub mod Pull
mod Tests
use protek.Prelude.{
  ℕ, Str, Option, none, some, Bool, true, false, not, ◌&&◌, List, [], ◌∷◌, ◌≡◌, ◌↔◌, ◌==◌, Eq,
  nat_eq, str_eq, str_beq_iff, if◌then◌else◌, any, arith,
}
use protek.Prelude.Dict.{Dict, lookup, insert}
use protek.Prelude.Text.{lit, is_empty, or_default, strip}

-- The identity of a row: UNIQUE (origin_source, value, scope, scenario).
pub record Key : Type 0 where
  pub origin_source : Str
  pub value : Str
  pub scope : Str
  pub scenario : Str

abbrev pub key_beq : Key → Key → Bool
key_beq a b =
    a.origin_source == b.origin_source
    && a.value == b.value
    && a.scope == b.scope
    && a.scenario == b.scenario

pub key_beq_iff : (a b : Key) → (key_beq a b ≡ true) ↔ (a ≡ b)
key_beq_iff a b = (
  (λ h. ground (
    arith,
    str_beq_iff a.origin_source b.origin_source,
    str_beq_iff a.value b.value,
    str_beq_iff a.scope b.scope,
    str_beq_iff a.scenario b.scenario,
  )),
  (λ h. ground (
    arith,
    str_beq_iff a.origin_source b.origin_source,
    str_beq_iff a.value b.value,
    str_beq_iff a.scope b.scope,
    str_beq_iff a.scenario b.scenario,
  )),
)

instance abbrev pub key_eq : Eq Key
key_eq = record { beq = key_beq; beq_iff = key_beq_iff }

-- The other columns of a row.
pub record Body : Type 0 where
  pub lapi_id : ℕ
  pub type : Str
  pub origin : Str
  pub duration : Str
  pub until : Option Str
  pub first_seen_at : ℕ
  pub last_seen_at : ℕ
  pub deleted_at : Option ℕ

abbrev pub Table : Type 0
Table = Dict Key Body

-- A decision as the LAPI sends it; a missing key and None are `none`.
pub record Incoming : Type 0 where
  pub id : Option ℕ
  pub value : Option Str
  pub scope : Option Str
  pub type : Option Str
  pub scenario : Option Str
  pub origin : Option Str
  pub duration : Option Str
  pub until : Option Str

unfoldable pub key_of : Str → Incoming → Key
key_of source d = record {
  origin_source = source;
  value = or_default d.value [];
  scope = or_default d.scope (lit "Ip");
  scenario = or_default d.scenario [];
}

unfoldable pub body_of : ℕ → Incoming → ℕ → Body
body_of lapi_id d now = record {
  lapi_id = lapi_id;
  type = or_default d.type (lit "ban");
  origin = or_default d.origin [];
  duration = or_default d.duration [];
  until = d.until;
  first_seen_at = now;
  last_seen_at = now;
  deleted_at = none;
}

-- ON CONFLICT … DO UPDATE: everything but the first sighting is taken over.
unfoldable pub merge : Option Body → Body → Body
merge none new = new
merge (some old) new = record new { first_seen_at = old.first_seen_at }

-- `_upsert_decision`; `none` is the KeyError of a decision with no id.
unfoldable pub upsert_decision : Str → Incoming → ℕ → Table → Option Table
upsert_decision source d now table = elim d.id [
  | none ↦ none
  | some n ↦
      let k = key_of source d in some (insert k (merge (lookup k table) (body_of n d now)) table)
]

-- A loop of upserts: the table as it is left, and whether the loop came to its end.
unfoldable pub upsert_all : Str → List Incoming → ℕ → Table → Table × Bool
upsert_all source [] now table = (table, true)
upsert_all source (d ∷ ds) now table = elim (upsert_decision source d now table) [
  | none ↦ (table, false)
  | some table' ↦ upsert_all source ds now table'
]

abbrev pub is_live : Body → Bool
is_live b = elim b.deleted_at [ none ↦ true | some t ↦ false ]

-- `UPDATE decisions SET deleted_at = ? WHERE` the identity matches
unfoldable pub tombstone : Key → ℕ → Table → Table
tombstone k now [] = []
tombstone k now ((j, b) ∷ rest) =
    (j, if j == k then record b { deleted_at = some now } else b) ∷ tombstone k now rest

unfoldable pub tombstone_all : List Key → ℕ → Table → Table
tombstone_all [] now table = table
tombstone_all (k ∷ ks) now table = tombstone_all ks now (tombstone k now table)

-- The live rows of the source that the pull did not mention.
unfoldable pub stale_keys : Str → (Key → Bool) → Table → List Key
stale_keys source seen [] = []
stale_keys source seen ((k, b) ∷ rest) =
    let more = stale_keys source seen rest in
    if k.origin_source == source && is_live b && not (seen k) then k ∷ more else more

-- A row of ip_sources.
pub record Sighting : Type 0 where
  pub ip : Str
  pub source_name : Str
  pub last_seen_at : ℕ

-- `INSERT INTO ip_sources … ON CONFLICT(ip, source_name) DO UPDATE`
unfoldable pub see : Sighting → List Sighting → List Sighting
see x [] = x ∷ []
see x (y ∷ rest) =
    if y.ip == x.ip && y.source_name == x.source_name then x ∷ rest else y ∷ see x rest

unfoldable pub note_source : Str → Incoming → ℕ → List Sighting → List Sighting
note_source source d now rows =
    let val = strip (or_default d.value []) in
    if is_empty val
    then rows
    else see (record { ip = val; source_name = source; last_seen_at = now }) rows

unfoldable pub note_sources : Str → List Incoming → ℕ → List Sighting → List Sighting
note_sources source [] now rows = rows
note_sources source (d ∷ ds) now rows = note_sources source ds now (note_source source d now rows)

-- The two tables that a pull writes.
pub record Mirror : Type 0 where
  pub decisions : Table
  pub ip_sources : List Sighting

-- `_bootstrap` on the decisions that the LAPI returned: the tables, and whether it came to its
-- end. The writes before a KeyError stay, since each statement is its own transaction.
unfoldable pub bootstrap : Str → List Incoming → ℕ → Mirror → Mirror × Bool
bootstrap source ds now m =
    let (table, ended) = upsert_all source ds now m.decisions in
    let seen : Key → Bool = λ k. any (λ d. key_of source d == k) ds in
    if ended
    then (
      record {
        decisions = tombstone_all (stale_keys source seen table) now table;
        ip_sources = note_sources source ds now m.ip_sources;
      },
      true,
    )
    else (record m { decisions = table }, false)

-- The first loop of `_stream_apply`: each new decision is upserted, and its source noted.
unfoldable pub apply_new : Str → List Incoming → ℕ → Mirror → Mirror × Bool
apply_new source [] now m = (m, true)
apply_new source (d ∷ ds) now m = elim (upsert_decision source d now m.decisions) [
  | none ↦ (m, false)
  | some table ↦
      apply_new source ds now
        (record { decisions = table; ip_sources = note_source source d now m.ip_sources })
]

-- `UPDATE … WHERE origin_source = ? AND lapi_id = ? AND deleted_at IS NULL`
unfoldable pub delete_id : Str → ℕ → ℕ → Table → Table
delete_id source lid now [] = []
delete_id source lid now ((k, b) ∷ rest) =
    (
      k,
      if k.origin_source == source && b.lapi_id == lid && is_live b
          then record b { deleted_at = some now }
          else b,
    )
    ∷ delete_id source lid now rest

unfoldable pub delete_ids : Str → List Incoming → ℕ → Table → Table
delete_ids source [] now table = table
delete_ids source (d ∷ ds) now table =
    delete_ids source ds now
      (elim d.id [ none ↦ table | some lid ↦ delete_id source lid now table ])

-- `_stream_apply` on the two lists of the delta.
unfoldable pub stream_apply : Str → List Incoming → List Incoming → ℕ → Mirror → Mirror × Bool
stream_apply source new deleted now m =
    let (m', ended) = apply_new source new now m in
    if ended
    then (record m' { decisions = delete_ids source deleted now m'.decisions }, true)
    else (m', false)
