-- ===== src/Blocking.antt =====
-- blocking.py: does a router drop the traffic of the address list? Here one address family; the
-- verdict on a router and on all of them is in Analyze. A rule is the dict of texts that RouterOS
-- returns, in the order of the table.
pub mod Analyze
pub mod Walk
pub mod Summary
pub mod Entries
mod Tests
use protek.Prelude.{
  ℕ, ◌+◌, Str, Option, none, some, Bool, true, false, not, ◌||◌, ◌&&◌, List, [], ◌∷◌, ◌++◌, ◌==◌,
  str_eq, if◌then◌else◌, ltb, any, select, map,
}
use protek.Prelude.Dict.{Dict, lookup}
use protek.Prelude.Text.{str_ltb, lit, or_default, strip, lower}
use protek.Prelude.CommaList.{sorted_set}
use protek.Prelude.Decimal.{read_nat}

abbrev pub Rule : Type 0
Rule = Dict Str Str

pub data TableName : Type 0 where
  raw filter : TableName

-- A set of texts given by its members, and `x in set`.
unfoldable pub is_in : List Str → Str → Bool
is_in set x = any (λ y. y == x) set

unfoldable pub block_actions : List Str
block_actions = lit "drop" ∷ lit "reject" ∷ lit "tarpit" ∷ []

-- `_BUILTIN[table].get(chain)`: the traffic that a chain of the table covers
unfoldable pub builtin : TableName → Str → Option (List Str)
builtin raw chain =
    if chain == lit "prerouting" then some (lit "input" ∷ lit "forward" ∷ []) else none
builtin filter chain =
    if chain == lit "input"
    then some (lit "input" ∷ [])
    else if chain == lit "forward"
    then some (lit "forward" ∷ [])
    else none

abbrev pub covered : TableName → Str → List Str
covered table chain = elim (builtin table chain) [ none ↦ [] | some traffic ↦ traffic ]

abbrev pub is_builtin : TableName → Str → Bool
is_builtin table chain = elim (builtin table chain) [ none ↦ false | some traffic ↦ true ]

unfoldable pub irrelevant : List Str
irrelevant = lit "output" ∷ lit "postrouting" ∷ []

unfoldable pub non_matchers : List Str
non_matchers = map lit (
    ".id" ∷ "id" ∷ ".nextid" ∷ ".about" ∷ "chain" ∷ "action" ∷ "disabled" ∷ "dynamic" ∷ "invalid"
    ∷ "comment" ∷ "log" ∷ "log-prefix" ∷ "bytes" ∷ "packets" ∷ "jump-target" ∷ "reject-with"
    ∷ "address-list" ∷ "address-list-timeout" ∷ "passthrough" ∷ "new-connection-mark"
    ∷ "new-packet-mark" ∷ "new-routing-mark" ∷ "new-dscp" ∷ "new-ttl" ∷ "new-mss" ∷ "new-priority"
    ∷ "to-addresses" ∷ "to-ports" ∷ "route-dst" ∷ "hw-offload" ∷ "place-before" ∷ [])

-- `_truthy`; the text of a missing key is "None".
unfoldable pub truthy : Option Str → Bool
truthy none = false
truthy (some v) = is_in (lit "true" ∷ lit "yes" ∷ lit "1" ∷ []) (lower (strip v))

-- `_int`, on the texts of digits
unfoldable pub int_of : Option Str → ℕ
int_of none = 0
int_of (some v) = elim (read_nat (strip v)) [ none ↦ 0 | some n ↦ n ]

-- `rule.get(key) or default`
abbrev pub get_or : Rule → Str → Str → Str
get_or rule key default = or_default (lookup key rule) default

unfoldable pub is_enabled : Rule → Bool
is_enabled rule =
    not (truthy (lookup (lit "disabled") rule)) && not (truthy (lookup (lit "invalid") rule))

unfoldable pub is_unconditional_accept : Rule → Bool
is_unconditional_accept rule =
    get_or rule (lit "action") (lit "accept") == lit "accept"
    && is_enabled rule
    && not (any (λ entry. not (is_in non_matchers entry.0)) rule)

-- Does the rule stop the traffic of the list?
unfoldable pub drops_list : Str → Rule → Bool
drops_list list_name rule =
    get_or rule (lit "src-address-list") [] == list_name
    && is_in block_actions (get_or rule (lit "action") [])

pub record Match : Type 0 where
  pub table : TableName
  pub chain : Str
  pub position : ℕ
  pub action : Option Str
  pub enabled : Bool
  pub shadowed : Bool
  pub builtin : Bool
  pub packets : ℕ
  pub comment : Str

unfoldable pub chain_of : Rule → Str
chain_of rule = get_or rule (lit "chain") []

unfoldable pub match_of : TableName → ℕ → List Str → Rule → Match
match_of table pos seen_accept_all rule = record {
  table = table;
  chain = chain_of rule;
  position = pos;
  action = lookup (lit "action") rule;
  enabled = is_enabled rule;
  shadowed = is_enabled rule && is_in seen_accept_all (chain_of rule);
  builtin = is_builtin table (chain_of rule);
  packets = int_of (lookup (lit "packets") rule);
  comment = get_or rule (lit "comment") [];
}

-- The chains with an earlier accept-all, after the rule.
unfoldable pub seen_after : Str → Rule → List Str → List Str
seen_after list_name rule seen =
    if drops_list list_name rule && is_in irrelevant (chain_of rule)
    then seen
    else if is_unconditional_accept rule
    then chain_of rule ∷ seen
    else seen

-- The loop over the rules of one table.
unfoldable pub scan : Str → TableName → ℕ → List Str → List Rule → List Match
scan list_name table pos seen [] = []
scan list_name table pos seen (rule ∷ rules) =
    let more = scan list_name table (pos + 1) (seen_after list_name rule seen) rules in
    if drops_list list_name rule && not (is_in irrelevant (chain_of rule))
    then match_of table pos seen rule ∷ more
    else more

-- `no_rule` is "none".
pub data Status : Type 0 where
  no_rule disabled shadowed unknown unverified blocking : Status

abbrev pub is_live : Match → Bool
is_live m = m.enabled && not m.shadowed

abbrev pub is_live_builtin : Match → Bool
is_live_builtin m = is_live m && m.builtin

unfoldable pub coverage_of : List Match → List Str
coverage_of [] = []
coverage_of (m ∷ ms) = covered m.table m.chain ++ coverage_of ms

unfoldable pub sum_packets : List Match → ℕ
sum_packets [] = 0
sum_packets (m ∷ ms) = m.packets + sum_packets ms

unfoldable pub status_of : List Match → Status
status_of [] = no_rule
status_of (m ∷ ms) =
    if any is_live_builtin (m ∷ ms)
    then blocking
    else if any is_live (m ∷ ms)
    then unverified
    else if any (λ (k : Match). k.enabled) (m ∷ ms)
    then shadowed
    else disabled

pub record Family : Type 0 where
  pub status : Status
  pub rules : List Match
  pub coverage : List Str
  pub packets : ℕ
  pub custom_chains : List Str

-- A table that could not be read, and one that is missing.
abbrev pub rules_or_none : Option (List Rule) → List Rule
rules_or_none none = []
rules_or_none (some rules) = rules

-- `_analyze_family`, on the tables raw and filter
unfoldable pub analyze_family : Str → Option (List Rule) → Option (List Rule) → Family
analyze_family list_name filter_rules raw_rules =
    let matches : List Match =
      scan list_name raw 0 [] (rules_or_none raw_rules)
      ++ scan list_name filter 0 [] (rules_or_none filter_rules) in
    let live = select is_live matches in
    record {
      status = status_of matches;
      rules = matches;
      coverage = sorted_set (coverage_of (select (λ m. m.builtin) live));
      packets = sum_packets live;
      custom_chains = sorted_set (map (λ (m : Match). m.chain) (select (λ m. not m.builtin) live));
    }
