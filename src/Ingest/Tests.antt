-- ===== src/Ingest/Tests.antt =====
-- poller.py on a table of two sources.
use protek.Prelude.{
  Bool, ℕ, ◌≡◌, refl, Str, Option, none, some, true, false, List, [], ◌∷◌, ◌==◌, str_eq,
  if◌then◌else◌, arith,
}
use protek.Prelude.Dict.{lookup, contains, insert}
use protek.Prelude.Text.{lit}
use protek.Prelude.Equality.{str_beq}
use protek.Ingest.{
  Key, Body, Incoming, key_of, body_of, merge, upsert_decision, upsert_all, tombstone,
  tombstone_all, stale_keys, Mirror, bootstrap,
}
use protek.Ingest.Pull.{
  Attempt, pulled, lapi_error, crashed, new_source, in_backoff, cycles, alternates, ends_ok,
  edges-cycles, in_backoff-cycles,
}
use protek.Ingest.Bootstrap.{active, mentions, active-bootstrap}

abbrev ban : Str → Option ℕ → Incoming
ban v n = record {
  id = n;
  value = some v;
  scope = none;
  type = none;
  scenario = some (lit "ssh");
  origin = some (lit "crowdsec");
  duration = some (lit "4h");
  until = none;
}

abbrev old_ban : Str → Str → Key × Body
old_ban source v = (
  key_of source (ban v (some 1)),
  record {
    lapi_id = 1;
    type = lit "ban";
    origin = lit "crowdsec";
    duration = lit "4h";
    until = none;
    first_seen_at = 100;
    last_seen_at = 100;
    deleted_at = none;
  },
)

abbrev mirror : Mirror
mirror = record {
  decisions = old_ban (lit "local") (lit "9.9.9.9") ∷ old_ban (lit "far") (lit "9.9.9.9") ∷ [];
  ip_sources = [];
}

abbrev delivery : List Incoming
delivery = ban (lit "1.1.1.1") (some 5) ∷ ban (lit "2.2.2.2") (some 6) ∷ []

abbrev gone : Key
gone = key_of (lit "local") (ban (lit "9.9.9.9") none)

active-bootstrap_example : active gone (bootstrap (lit "local") delivery 200 mirror).0.decisions ≡ (
    if gone.origin_source == lit "local"
    then mentions (lit "local") gone delivery
    else active gone mirror.decisions)
unfolding bootstrap upsert_all upsert_decision insert key_of body_of merge lookup contains
    stale_keys tombstone_all tombstone str_beq
active-bootstrap_example =
    active-bootstrap (lit "local") delivery 200 mirror gone (refl, (refl, tt)) refl

-- The ban of the other source stays.
other-stays :
    active
      (key_of (lit "far") (ban (lit "9.9.9.9") none))
      (bootstrap (lit "local") delivery 200 mirror).0.decisions
    ≡ true
unfolding bootstrap upsert_all upsert_decision insert key_of body_of merge lookup stale_keys
    tombstone_all tombstone str_beq
other-stays = refl

abbrev history : List (ℕ × Bool × Attempt)
history =
    (0, false, lapi_error) ∷ (1, true, lapi_error) ∷ (3, false, pulled 5) ∷ (4, false, crashed) ∷ []

edges-cycles_example :
    (alternates true (cycles history new_source).1 ≡ true)
    × (ends_ok true (cycles history new_source).1 ≡ (cycles history new_source).0.prev_lapi_ok)
edges-cycles_example = edges-cycles history new_source

in_backoff-cycles_example : in_backoff 34 (cycles history new_source).0 ≡ false
in_backoff-cycles_example =
    in_backoff-cycles history 4 34 (omega arith, (omega arith, (omega arith, (omega arith, tt))))
      (omega arith)
