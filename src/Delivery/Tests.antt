-- ===== src/Delivery/Tests.antt =====
-- reconciler.py, from the mirror to the router: one banned address and one router.
use protek.Prelude.{
  ◌≡◌, Str, none, some, Bool, true, false, not, ◌&&◌, [], ◌∷◌, ◌==◌, str_eq, any, All,
}
use protek.Prelude.Dict.{contains}
use protek.Prelude.Text.{lit}
use protek.Reconciler.Bouncer.{Bouncer, SourceFilter}
use protek.Reconciler.Filter.{Matching}
use protek.Reconciler.RunOne.{run_one_bouncer}
use protek.Reconciler.RunOne.Calls.{writes}
use protek.Desired.{Database, desired_from_db}
use protek.Delivery.{may_reach, delivered-may_reach}

abbrev matching : Matching
matching = record {
  glob = λ name pattern. name == pattern;
  search = λ pattern. none;
  qualifying = λ n. none;
}

abbrev no_network : Str → Str → Bool
no_network ip net = false

abbrev mirror : Database
mirror = record {
  decisions =
      record {
        value = lit "1.1.1.1";
        scope = lit "Ip";
        scenario = lit "ssh";
        origin = lit "crowdsec";
        origin_source = lit "local";
        lapi_id = 3;
        deleted = false;
      }
      ∷ [];
  ip_sources = [];
  whitelist = [];
  geo_cache = [];
  approval_queue = [];
  whitelist_hits = [];
  confidence_threshold = 1;
  approval_required = false;
}

abbrev router : Bouncer
router = record {
  name = lit "edge";
  kind = lit "mikrotik";
  configured = true;
  origins = [];
  exclude_origins = [];
  max_entries = 0;
  min_reputation = 0;
  source_filter = SourceFilter.csv [];
  scenario_filter = [];
  has_firewall_rules = true;
  snapshot = some [];
  apply = λ adds removes. some (record { errors = 0; push_log = [] });
  snapshot_ms = 5;
  diff_ms = 1;
  apply_ms = 9;
  raises = false;
}

delivered-may_reach_example :
    All
      (λ call.
        (contains (lit "1.1.1.1") call.0
          && not (any (may_reach no_network mirror (lit "1.1.1.1")) mirror.decisions))
        ≡ false)
      (writes
        (run_one_bouncer matching none router (desired_from_db no_network mirror).0 false 200).1)
delivered-may_reach_example =
    delivered-may_reach no_network mirror matching none router false 200 (lit "1.1.1.1")
