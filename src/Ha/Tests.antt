-- ===== src/Ha/Tests.antt =====
-- A standby by its environment that is promoted and demoted again.
use protek.Prelude.{◌≡◌, Str, Option, some, List, [], ◌∷◌}
use protek.Prelude.Equality.{str_beq}
use protek.Prelude.Text.{lit, lower, strip, lstrip, is_space, split_all}
use protek.Prelude.Dict.{lookup}
use protek.Siem.Syslog.{env_str}
use protek.Ha.{Host, role, resolve, is_valid_role}
use protek.Ha.Roles.{Change, run, rows_of, role_after, audit-run}
use Change.{promotion, demotion}

abbrev environ : Str → Option Str
environ name = some (lit "Standby # site b")

abbrev fresh_host : Host
fresh_host = record { settings = []; audit = [] }

abbrev failover : List Change
failover =
    promotion (lit "t1") (lit "eve") (lit "vps down") ∷ demotion (lit "t2") (lit "eve") [] ∷ []

audit-run_example :
    (role environ (run environ failover fresh_host) ≡ lit "standby")
    × ((run environ failover fresh_host).audit
        ≡ record {
          action = lit "ha.promote";
          actor = lit "eve";
          reason = lit "vps down";
          old = lit "standby";
          new = lit "primary";
        }
          ∷ record {
            action = lit "ha.demote";
            actor = lit "eve";
            reason = [];
            old = lit "primary";
            new = lit "standby";
          }
          ∷ [])
unfolding role_after rows_of role resolve is_valid_role env_str split_all lower strip lstrip
    is_space str_beq lookup
audit-run_example = audit-run environ failover fresh_host
