-- ===== src/Ha.antt =====
-- ha.py: the role of the host, the operator's promotion and demotion, and the heartbeat. The settings
-- are a dict; `int` and `datetime.fromisoformat` are arguments, times are in seconds, and a negative
-- number is given as 0. A setting that cannot be written is not modelled.

pub mod Roles
pub mod Tests
use protek.Prelude.{
  ℕ, ◌-◌, Str, Option, none, some, Bool, false, ◌||◌, List, [], ◌∷◌, ◌++◌, ◌==◌, str_eq,
  if◌then◌else◌, ltb, max, take,
}
use protek.Prelude.Dict.{Dict, lookup, insert}
use protek.Prelude.Text.{lit, lower, strip, is_empty, or_default}
use protek.Siem.Syslog.{env_str}

-- A row that `_audit` writes to audit_log.
pub record AuditRow : Type 0 where
  pub action : Str
  pub actor : Str
  pub reason : Str
  pub old : Str
  pub new : Str

pub record Host : Type 0 where
  pub settings : Dict Str Str
  pub audit : List AuditRow

abbrev pub primary : Str
primary = lit "primary"

abbrev pub standby : Str
standby = lit "standby"

-- `in VALID_ROLES`
unfoldable pub is_valid_role : Str → Bool
is_valid_role r = r == primary || r == standby

unfoldable pub resolve : (db_override env_role : Str) → Str
unfolding is_valid_role
resolve db_override env_role =
    if is_valid_role db_override
    then db_override
    else if is_valid_role env_role
    then env_role
    else primary

-- `role`
unfoldable pub role : (Str → Option Str) → Host → Str
unfolding resolve
role environ h =
    resolve (lower (strip (or_default (lookup (lit "ha.role") h.settings) [])))
      (lower (env_str environ (lit "HA_ROLE") []))

unfoldable pub is_standby : (Str → Option Str) → Host → Bool
unfolding role
is_standby environ h = role environ h == standby

unfoldable pub is_primary : (Str → Option Str) → Host → Bool
unfolding role
is_primary environ h = role environ h == primary

-- The four settings of a change; the second holds the time.
unfoldable pub set_role : (new now actor reason : Str) → Dict Str Str → Dict Str Str
set_role new now actor reason d = insert (lit "ha.last_role_change_reason") (take 300 reason) (
    insert (lit "ha.last_role_change_actor") actor
      (insert (lit "ha.last_role_change_at") now (insert (lit "ha.role") new d)))

-- `_audit`, which swallows its errors
unfoldable pub write_audit : (works : Bool) → AuditRow → List AuditRow → List AuditRow
write_audit works row rows = if works then rows ++ row ∷ [] else rows

unfoldable pub change_role :
    (action new : Str) (works : Bool) (environ : Str → Option Str) (now actor reason : Str)
    → Host
    → Host
unfolding role set_role write_audit
change_role action new works environ now actor reason h = record {
  settings = set_role new now actor reason h.settings;
  audit =
      write_audit works
        (record {
          action = action;
          actor = actor;
          reason = reason;
          old = role environ h;
          new = new;
        })
        h.audit;
}

-- `_promote_impl`
unfoldable pub promote :
    (works : Bool) (environ : Str → Option Str) (now actor reason : Str) → Host → Host
unfolding change_role
promote = change_role (lit "ha.promote") primary

-- `_demote_impl`
unfoldable pub demote :
    (works : Bool) (environ : Str → Option Str) (now actor reason : Str) → Host → Host
unfolding change_role
demote = change_role (lit "ha.demote") standby

-- `heartbeat_lag_seconds`; a heartbeat of the future has a negative lag, which is 0 here.
unfoldable pub heartbeat_lag_seconds : (Str → Option ℕ) → (now : ℕ) → Host → Option ℕ
heartbeat_lag_seconds read_time now h =
    let iso = or_default (lookup (lit "poller.last_at") h.settings) [] in
    if is_empty iso then none else elim (read_time iso) [ none ↦ none | some t ↦ some (now - t) ]

unfoldable pub heartbeat_stale_threshold_sec : (Str → Option ℕ) → Host → ℕ
heartbeat_stale_threshold_sec int_of h =
    let text = or_default (lookup (lit "ha.heartbeat_stale_sec") h.settings) [] in
    if is_empty text then 60 else elim (int_of text) [ none ↦ 60 | some n ↦ max 15 n ]

unfoldable pub is_heartbeat_stale : (Str → Option ℕ) → (Str → Option ℕ) → (now : ℕ) → Host → Bool
unfolding heartbeat_lag_seconds heartbeat_stale_threshold_sec
is_heartbeat_stale int_of read_time now h = elim (heartbeat_lag_seconds read_time now h) [
  | none ↦ false
  | some lag ↦ ltb (heartbeat_stale_threshold_sec int_of h) lag
]
