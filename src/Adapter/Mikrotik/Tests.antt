-- ===== src/Adapter/Mikrotik/Tests.antt =====
-- The RouterOS adapter on a router that records the additions it gets.
use protek.Prelude.{
  ℕ, ◌≡◌, refl, Str, Option, none, some, true, false, List, [], ◌∷◌, ◌++◌, ◌==◌, str_eq,
  if◌then◌else◌,
}
use protek.Prelude.Equality.{str_beq}
use protek.Prelude.Dict.{Dict}
use protek.Prelude.Text.{
  lit, contains_text, has_char, starts_with, lower, lower_char, strip, lstrip, is_space,
}
use protek.Reconciler.Filter.{Matching}
use protek.Reconciler.Bouncer.{Bouncer, SourceFilter}
use protek.Reconciler.RunOne.{run_one_bouncer}
use protek.Adapter.{add_row, remove_row, Tally}
use protek.Adapter.Mikrotik.{
  Router, Target, RawEntry, Answer, v4_path, v6_path, is_ipv6, path_for, raw_id, split_id,
  tag_entry, get_address_list, snapshot, apply, add_reply, family_entries, add_all, remove_all,
  add_one, remove_one, remove_reply,
}
use protek.Adapter.Mikrotik.Removal.{removal_of, split_id-entry_id}
use protek.Adapter.Mikrotik.Log.{Accounted, added, removed, apply-Accounted}
use protek.Adapter.Mikrotik.Cycle.{as_bouncer, unread-run_one_bouncer}

-- The additions so far: the path and the address.
abbrev Writes : Type 0
Writes = List (Str × Str)

abbrev raw : Option Str → Option Str → RawEntry
raw bare dotted = record {
  address = some (lit "2001:db8::1");
  comment = some (lit "protek:local:ssh:1");
  id = bare;
  dot_id = dotted;
  numbers = none;
  in_list = some (lit "crowdsec");
}

-- A router with both lists that knows 1.1.1.1 already.
abbrev router : Router Writes
router = record {
  connect = λ s. some s;
  has_resource = λ path s. true;
  get = λ path l s.
      if path == v6_path
      then Answer.entries (raw none (some (lit "*7")) ∷ [])
      else Answer.type_error;
  get_all = λ path s. some (raw none (some (lit "*8")) ∷ []);
  add = λ path l addr comment s. (
    (if addr == lit "1.1.1.1" then some (lit "failure: already have such entry") else none),
    (path, addr) ∷ s,
  );
  remove = λ path i s. ((if i == lit "*9" then some (lit "timeout") else none), s);
}

abbrev down : Router Writes
down = record router { connect = λ s. none }

abbrev target : Target
target = record {
  configured = true;
  list_name = lit "crowdsec";
  version_of = λ a. if has_char b':' a then some 6 else some 4;
}

abbrev to_add : Dict Str Str
to_add = (lit "1.1.1.1", lit "c") ∷ (lit "2001:db8::1", lit "d") ∷ []

abbrev ids : List Str
ids = lit "v6:*7" ∷ lit "*9" ∷ []

snapshot-both :
    snapshot router target []
    ≡ tag_entry (lit "v4") (raw none (some (lit "*8")))
      ∷ tag_entry (lit "v6") (raw none (some (lit "*7")))
      ∷ []
unfolding snapshot get_address_list family_entries str_beq
snapshot-both = refl

split_id-entry_id_example :
    removal_of true (raw (some (lit "*7")) (some (lit "*7"))) ≡ some (v4_path, lit "*7")
unfolding raw_id starts_with
split_id-entry_id_example =
    split_id-entry_id true (raw (some (lit "*7")) (some (lit "*7"))) refl refl

apply-Accounted_example :
    Accounted (added to_add ++ removed ids) (apply router target to_add ids [])
apply-Accounted_example = apply-Accounted router target to_add ids [] [] refl refl refl

-- Both additions pass (one was there before), one removal fails.
abbrev counts : Option (Tally × Writes) → List ℕ
counts none = []
counts (some st) = st.0.applied_add ∷ st.0.applied_remove ∷ st.0.errors ∷ []

apply_counts : counts (apply router target to_add ids []) ≡ 2 ∷ 1 ∷ 1 ∷ []
unfolding apply add_all remove_all add_one remove_one add_row remove_row add_reply remove_reply
    is_ipv6 path_for split_id starts_with contains_text lower lower_char strip lstrip is_space
    str_beq
apply_counts = refl

abbrev matching : Matching
matching = record {
  glob = λ name pattern. name == pattern;
  search = λ pattern. some (λ text. text == pattern);
  qualifying = λ n. none;
}

abbrev base : Bouncer
base = record {
  name = lit "mikrotik";
  kind = lit "mikrotik_env";
  configured = true;
  origins = [];
  exclude_origins = [];
  max_entries = 0;
  min_reputation = 0;
  source_filter = SourceFilter.unset;
  scenario_filter = [];
  has_firewall_rules = true;
  snapshot = none;
  apply = λ adds removes. none;
  snapshot_ms = 5;
  diff_ms = 1;
  apply_ms = 9;
  raises = false;
}

unread-run_one_bouncer_example :
    (let r = (run_one_bouncer matching none (as_bouncer down target [] base) [] true 200).0 in
      (r.snapshot_ok ≡ true)
      × (r.snapshot_n ≡ 0)
      × (r.to_remove_n ≡ 0)
      × (true ≡ true → (r.ok ≡ true) × (r.errors ≡ 0)))
unfolding get_address_list
unread-run_one_bouncer_example =
    unread-run_one_bouncer down target [] base matching none [] true 200 refl refl
