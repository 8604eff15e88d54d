-- ===== src/Desired.antt =====
-- reconciler.py, `_desired_from_db`, with the whitelist and the approval queue of
-- scenarios_admin.py: what the mirror asks of all bouncers. A comparison with the clock is a flag
-- of the row; the groups of the SQL stand in the order of their first rows.
pub mod Laws
mod Tests
use protek.Prelude.{
  ℕ, ◌+◌, min, Str, Option, none, some, Bool, true, false, not, ◌||◌, ◌&&◌, List, [], ◌∷◌, ◌++◌,
  ◌==◌, nat_eq, str_eq, if◌then◌else◌, leb, any, select, count_if, map,
}
use protek.Prelude.Dict.{Dict, lookup}
use protek.Prelude.Text.{lit, is_empty, or_default, str_ltb, upper}
use protek.Reconcile.Comment.{Decision}

-- A row of `decisions`.
pub record MirrorRow : Type 0 where
  pub value : Str
  pub scope : Str
  pub scenario : Str
  pub origin : Str
  pub origin_source : Str
  pub lapi_id : ℕ
  pub deleted : Bool

-- A row of `ip_sources`; `recent` is its comparison with seven days ago.
pub record SeenBy : Type 0 where
  pub ip : Str
  pub source_name : Str
  pub recent : Bool

-- `active` is the comparison of `expires_at` with the clock.
pub record WhitelistRule : Type 0 where
  pub id : ℕ
  pub kind : Str
  pub value : Str
  pub active : Bool

pub record Geo : Type 0 where
  pub asn : Str
  pub country_code : Str

pub record Queued : Type 0 where
  pub ip : Str
  pub status : Str
  pub decision_id : Option ℕ

pub record Hit : Type 0 where
  pub ip : Str
  pub whitelist_id : ℕ
  pub scenario : Str

pub record Database : Type 0 where
  pub decisions : List MirrorRow
  pub ip_sources : List SeenBy
  pub whitelist : List WhitelistRule
  pub geo_cache : Dict Str Geo
  pub approval_queue : List Queued
  pub whitelist_hits : List Hit
  pub confidence_threshold : ℕ
  pub approval_required : Bool

-- SQL's MIN of two texts
abbrev pub min_text : Str → Str → Str
min_text a b = if str_ltb b a then b else a

abbrev pub same_group : MirrorRow → MirrorRow → Bool
same_group a b = a.value == b.value && a.scope == b.scope

unfoldable pub min_row : MirrorRow → MirrorRow → MirrorRow
min_row g r = record g {
  scenario = min_text g.scenario r.scenario;
  origin = min_text g.origin r.origin;
  origin_source = min_text g.origin_source r.origin_source;
  lapi_id = min g.lapi_id r.lapi_id;
}

-- `GROUP BY value, scope`: one more row
unfoldable pub add_row : MirrorRow → List MirrorRow → List MirrorRow
add_row r [] = r ∷ []
add_row r (g ∷ gs) =
    let later = add_row r gs in if same_group g r then min_row g r ∷ gs else g ∷ later

unfoldable pub group_rows : List MirrorRow → List MirrorRow → List MirrorRow
group_rows [] groups = groups
group_rows (r ∷ rows) groups = group_rows rows (add_row r groups)

-- `COUNT(DISTINCT source_name)` of an ip, each of whose rows has a source of its own
abbrev pub recent_sources : Str → List SeenBy → ℕ
recent_sources ip rows = count_if (λ (s : SeenBy). s.ip == ip && s.recent) rows

-- The rows that the query groups.
abbrev pub qualifies : Database → MirrorRow → Bool
qualifies db r =
    not r.deleted
    && (leb db.confidence_threshold 1
        || leb db.confidence_threshold (recent_sources r.value db.ip_sources))

abbrev pub decision_of : MirrorRow → Decision
decision_of r = record {
  value = some r.value;
  scope = some r.scope;
  origin = some r.origin;
  origin_source = some r.origin_source;
  scenario = some r.scenario;
  lapi_id = some r.lapi_id;
  id = none;
}

unfoldable pub query : Database → List MirrorRow
query db = group_rows (select (qualifies db) db.decisions) []

-- One rule of `matches_whitelist`. `in_network ip net` is what ipaddress says of the two texts:
-- both can be read and the address is in the network.
unfoldable pub rule_matches : (Str → Str → Bool) → Str → Str → Str → WhitelistRule → Bool
rule_matches in_network ip asn country w =
    w.kind == lit "ip" && w.value == ip
    || w.kind == lit "cidr" && in_network ip w.value
    || w.kind == lit "asn" && not (is_empty asn) && upper w.value == upper asn
    || w.kind == lit "country" && not (is_empty country) && upper w.value == upper country

unfoldable pub first_match : (WhitelistRule → Bool) → List WhitelistRule → Option WhitelistRule
first_match p [] = none
first_match p (w ∷ ws) = let later = first_match p ws in if p w then some w else later

unfoldable pub asn_of : Database → Str → Str
asn_of db ip = elim (lookup ip db.geo_cache) [ none ↦ [] | some g ↦ g.asn ]

unfoldable pub country_of : Database → Str → Str
country_of db ip = elim (lookup ip db.geo_cache) [ none ↦ [] | some g ↦ g.country_code ]

-- `matches_whitelist` on the active rules, for a group
unfoldable pub matches_whitelist : (Str → Str → Bool) → Database → MirrorRow → Option WhitelistRule
matches_whitelist in_network db r =
    first_match (rule_matches in_network r.value (asn_of db r.value) (country_of db r.value))
      (select (λ (w : WhitelistRule). w.active) db.whitelist)

-- The loop over the groups: the ones that no rule matches, and the hits of the others.
unfoldable pub drop_whitelisted :
    (MirrorRow → Option WhitelistRule) → List MirrorRow → List MirrorRow × List Hit
drop_whitelisted matched [] = ([], [])
drop_whitelisted matched (r ∷ rows) =
    let later = drop_whitelisted matched rows in
    elim (matched r) [
      | none ↦ (r ∷ later.0, later.1)
      | some w ↦
          (later.0, record { ip = r.value; whitelist_id = w.id; scenario = r.scenario } ∷ later.1)
    ]

abbrev pub is_approved : List Queued → MirrorRow → Bool
is_approved queue r = any (λ (q : Queued). q.status == lit "approved" && q.ip == r.value) queue

abbrev pub is_queued : List Queued → MirrorRow → Bool
is_queued queue r = any (λ (q : Queued). q.ip == r.value) queue

-- `queue_decision`
abbrev pub pending_of : MirrorRow → Queued
pending_of r = record { ip = r.value; status = lit "pending"; decision_id = some r.lapi_id }

unfoldable pub desired_from_db : (Str → Str → Bool) → Database → List Decision × Database
desired_from_db in_network db =
    let (out, hits) = drop_whitelisted (matches_whitelist in_network db) (query db) in
    let db' : Database = record db { whitelist_hits = db.whitelist_hits ++ hits } in
    let queue = db.approval_queue in
    if db.approval_required
    then (
      map decision_of (select (is_approved queue) out),
      record db' {
        approval_queue =
            queue
            ++ map pending_of
                (select (λ r. not (is_approved queue r) && not (is_queued queue r)) out);
      },
    )
    else (map decision_of out, db')
