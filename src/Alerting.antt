-- ===== src/Alerting.antt =====
-- alerting.py: composite alert rules with debounce, dedup, silences and routing. The texts of the
-- messages are not modelled. Times are numbers; the lag of the poller is in milliseconds.
pub mod Transitions
mod Tests
use protek.Prelude.{
  ℕ, ◌+◌, Str, Option, none, some, Bool, true, false, not, ◌&&◌, List, [], ◌∷◌, ◌++◌, ◌==◌, nat_eq,
  str_eq, if◌then◌else◌, ltb, leb, any, all, length,
}
use protek.Prelude.Dict.{Dict, lookup, insert}
use protek.Prelude.Text.{lit, is_empty, strip, split_all}

abbrev pub lvl_crit : ℕ
lvl_crit = 2

abbrev pub lvl_warn : ℕ
lvl_warn = 4

abbrev pub lvl_info : ℕ
lvl_info = 6

-- `_state_snapshot`: what the rules read
pub record RuleInput : Type 0 where
  pub now : ℕ
  pub poll_lag_ms : ℕ
  pub poller_last_ok : Bool
  pub recent_errs : List ℕ
  pub approval_pending : ℕ
  pub mt_status : Str

unfoldable pub rule_lapi_down : RuleInput → Bool
rule_lapi_down s = not s.poller_last_ok

unfoldable pub rule_sync_stale : RuleInput → Bool
rule_sync_stale s = ltb 300_000 s.poll_lag_ms

unfoldable pub rule_mt_unreachable : RuleInput → Bool
rule_mt_unreachable s = s.mt_status == lit "down"

unfoldable pub rule_sync_errors_burst : RuleInput → Bool
rule_sync_errors_burst s = length s.recent_errs == 5 && all (λ e. ltb 0 e) s.recent_errs

unfoldable pub rule_approval_backlog : RuleInput → Bool
rule_approval_backlog s = ltb 50 s.approval_pending

-- An entry of RULES; a predicate that raises is `none`.
pub record Rule : Type 0 where
  pub key : Str
  pub level : ℕ
  pub predicate : RuleInput → Option Bool
  pub debounce : ℕ

unfoldable pub rules : List Rule
unfolding rule_lapi_down rule_sync_stale rule_mt_unreachable rule_sync_errors_burst
    rule_approval_backlog
rules =
    record {
      key = lit "lapi_down_5m";
      level = lvl_crit;
      predicate = λ s. some (rule_lapi_down s);
      debounce = 30;
    }
    ∷ record {
      key = lit "sync_stale_5m";
      level = lvl_crit;
      predicate = λ s. some (rule_sync_stale s);
      debounce = 1;
    }
    ∷ record {
      key = lit "mt_unreachable_2m";
      level = lvl_crit;
      predicate = λ s. some (rule_mt_unreachable s);
      debounce = 12;
    }
    ∷ record {
      key = lit "sync_errors_burst";
      level = lvl_warn;
      predicate = λ s. some (rule_sync_errors_burst s);
      debounce = 1;
    }
    ∷ record {
      key = lit "approval_backlog";
      level = lvl_info;
      predicate = λ s. some (rule_approval_backlog s);
      debounce = 6;
    }
    ∷ []

-- A row of alert_states.
pub record AlertState : Type 0 where
  pub firing : Bool
  pub level : ℕ
  pub firing_since : Option ℕ
  pub last_check : ℕ
  pub last_notified : Option ℕ
  pub consecutive : ℕ

-- The row that `_load_state` makes up for a rule that has none.
abbrev pub fresh_state : AlertState
fresh_state = record {
  firing = false;
  level = lvl_info;
  firing_since = none;
  last_check = 0;
  last_notified = none;
  consecutive = 0;
}

abbrev pub States : Type 0
States = Dict Str AlertState

unfoldable pub load_state : Str → States → AlertState
load_state key states = elim (lookup key states) [ none ↦ fresh_state | some st ↦ st ]

-- `_save_state` keeps the time of the last notification unless there was one.
unfoldable pub save_state : Str → AlertState → Bool → ℕ → States → States
save_state key st notified now states =
    let before : Option ℕ = elim (lookup key states) [
      | none ↦ none
      | some old ↦ old.last_notified
    ] in
    insert key
      (record st { last_check = now; last_notified = if notified then some now else before }) states

pub record Silence : Type 0 where
  pub pattern : Str
  pub until_at : ℕ

-- `is_silenced`, over `fnmatch.fnmatchcase name pattern`
unfoldable pub is_silenced : (Str → Str → Bool) → Str → ℕ → List Silence → Bool
is_silenced glob key now silences =
    any (λ (s : Silence). ltb now s.until_at && glob key s.pattern) silences

pub record Notice : Type 0 where
  pub key : Str
  pub level : ℕ
  pub resolved : Bool
  pub channels : List Str

unfoldable pub route_for : ℕ → List Str
route_for level =
    if leb level lvl_crit
    then lit "discord" ∷ lit "telegram" ∷ lit "email" ∷ []
    else lit "discord" ∷ []

-- `[c.strip() for c in override.split(",") if c.strip()]`
strip_channels : List Str → List Str
strip_channels [] = []
strip_channels (c ∷ cs) =
    let rest = strip_channels cs in if is_empty (strip c) then rest else strip c ∷ rest

-- `_notify`; `override` is the rule's setting, empty where there is none.
unfoldable pub notify : Str → Str → ℕ → Bool → Notice
unfolding strip_channels
notify override key level resolved = record {
  key = key;
  level = level;
  resolved = resolved;
  channels =
      if is_empty override then route_for level else strip_channels (split_all b',' override);
}

-- What the body of `tick` decides for one rule: the row to save, and whether a firing or a
-- resolved notification goes out.
pub data Emission : Type 0 where
  silent firing_notice resolved_notice : Emission

unfoldable pub advance : ℕ → ℕ → ℕ → Bool → Bool → AlertState → AlertState × Emission
advance level debounce now firing_now suppressed prev =
    let consecutive = if firing_now then prev.consecutive + 1 else 0 in
    let active = leb debounce consecutive in
    let fires = active && not prev.firing && not suppressed in
    let resolves = prev.firing && not firing_now && not suppressed in
    (
      record prev {
        firing = active && not suppressed;
        level = level;
        firing_since = if fires then some now else if resolves then none else prev.firing_since;
        consecutive = consecutive;
      },
      if fires then firing_notice else if resolves then resolved_notice else silent,
    )

abbrev notices_of : Emission → (Bool → Notice) → List Notice
notices_of silent f = []
notices_of firing_notice f = f false ∷ []
notices_of resolved_notice f = f true ∷ []

is_notified : Emission → Bool
is_notified silent = false
is_notified _ = true

-- What the world gives to a tick.
pub record World : Type 0 where
  pub glob : Str → Str → Bool
  pub silences : List Silence
  pub channels_override : Str → Str

unfoldable pub tick_rule : World → RuleInput → Rule → States → States × List Notice
unfolding is_notified
tick_rule w s rule states = elim (rule.predicate s) [
  | none ↦ (states, [])
  | some firing_now ↦
      let suppressed = is_silenced w.glob rule.key s.now w.silences in
      let (st, emission) =
        advance rule.level rule.debounce s.now firing_now suppressed (load_state rule.key states) in
      (
        save_state rule.key st (is_notified emission) s.now states,
        notices_of emission (notify (w.channels_override rule.key) rule.key rule.level),
      )
]

unfoldable pub tick_rules : World → RuleInput → List Rule → States → States × List Notice
tick_rules w s [] states = (states, [])
tick_rules w s (rule ∷ rest) states =
    let (states', sent) = tick_rule w s rule states in
    let (states'', more) = tick_rules w s rest states' in (states'', sent ++ more)

-- `tick`
unfoldable pub tick : World → RuleInput → States → States × List Notice
tick w s states = tick_rules w s rules states
