-- ===== src/Federation/Tests.antt =====
-- A boot, a second source, attempts on the first, and a boot with another key.
use protek.Prelude.{
  ◌≡◌, refl, Str, Option, none, some, true, List, [], ◌∷◌, ◌==◌, str_eq, map, if◌then◌else◌, All,
}
use protek.Prelude.Equality.{str_beq}
use protek.Prelude.Text.{lit, split_all, strip}
use protek.Siem.Syslog.{env_str}
use protek.Federation.{
  Source, seed_local_source, seed_with, insert_source, add_source, delete_source, update_source,
  set_paused, set_confidence, clients, list_sources,
}
use protek.Federation.Rows.{local_credentials, IsWeighed}
use protek.Federation.Local.{Op, run, step, credentials, empty_table, local-run}
use Op.{boot, add, delete, pause, weigh}

abbrev environ : Str → Str → Option Str
environ key name = if name == lit "CROWDSEC_BOUNCER_KEY" then some key else none

abbrev ops : List Op
ops =
    add (lit "vps") (lit "http://vps:8080") (lit "k2") 0
    ∷ add (lit "local") (lit "http://evil") (lit "k3") 1
    ∷ delete 1
    ∷ pause 1 true
    ∷ weigh 1 0
    ∷ boot (environ (lit "new # rotated"))
    ∷ []

-- The clients that a cycle pulls from: the paused source is left out.
clients-ops :
    map
      (λ (s : Source). s.name)
      (clients (run ops (seed_local_source (environ (lit "old")) empty_table)))
    ≡ lit "vps" ∷ []
unfolding run step add_source delete_source insert_source seed_local_source seed_with update_source
    set_paused set_confidence clients list_sources str_beq env_str split_all strip
clients-ops = refl

local-run_example :
    let rows = (run ops (seed_local_source (environ (lit "old")) empty_table)).rows in
    (local_credentials rows ≡ (lit "http://127.0.0.1:8080", lit "new") ∷ []) × All IsWeighed rows
unfolding credentials env_str split_all strip str_beq
local-run_example = local-run (environ (lit "old")) ops refl
