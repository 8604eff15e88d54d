-- ===== src/Desired/Tests.antt =====
-- reconciler.py, `_desired_from_db`, on a mirror of two addresses.
use protek.Prelude.{ℕ, ◌≡◌, refl, Str, Bool, true, false, [], ◌∷◌, str_eq, select, map}
use protek.Prelude.Equality.{str_beq}
use protek.Prelude.Dict.{lookup}
use protek.Prelude.Text.{lit, str_ltb, upper}
use protek.Desired.{
  MirrorRow, Database, decision_of, query, group_rows, add_row, min_row, matches_whitelist,
  rule_matches, first_match, asn_of, country_of, drop_whitelisted, desired_from_db,
}
use protek.Desired.Laws.{is_desired, desired_from_db-eq}

abbrev row : Str → ℕ → MirrorRow
row ip n = record {
  value = ip;
  scope = lit "Ip";
  scenario = lit "ssh";
  origin = lit "crowdsec";
  origin_source = lit "local";
  lapi_id = n;
  deleted = false;
}

abbrev mirror : Database
mirror = record {
  decisions = row (lit "1.1.1.1") 8 ∷ row (lit "2.2.2.2") 5 ∷ row (lit "1.1.1.1") 3 ∷ [];
  ip_sources = [];
  whitelist = record { id = 4; kind = lit "ip"; value = lit "2.2.2.2"; active = true } ∷ [];
  geo_cache = [];
  approval_queue = [];
  whitelist_hits = [];
  confidence_threshold = 1;
  approval_required = false;
}

abbrev no_network : Str → Str → Bool
no_network ip net = false

-- One decision for the first address, with its smallest id; none for the whitelisted one.
desired-mirror : (desired_from_db no_network mirror).0 ≡ decision_of (row (lit "1.1.1.1") 3) ∷ []
unfolding desired_from_db query group_rows add_row min_row matches_whitelist rule_matches
    first_match asn_of country_of drop_whitelisted lookup str_beq str_ltb upper
desired-mirror = refl

desired_from_db-eq_example :
    (desired_from_db no_network mirror).0
    ≡ map decision_of (select (is_desired no_network mirror) (query mirror))
desired_from_db-eq_example = desired_from_db-eq no_network mirror
