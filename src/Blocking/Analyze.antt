-- ===== src/Blocking/Analyze.antt =====
-- blocking.py: the verdict on one router and on all of them, the cache of the IPv6 counts, and
-- what the topbar shows. The wording of the warnings is not modelled.
use protek.Prelude.{
  ℕ, Str, Option, none, some, Bool, true, false, not, ◌||◌, ◌&&◌, List, [], ◌∷◌, ◌++◌, ◌==◌, nat_eq,
  str_eq, if◌then◌else◌, ltb, any,
}
use protek.Prelude.Dict.{Dict, lookup, insert}
use protek.Prelude.Text.{lit, is_empty}
use protek.Prelude.Decimal.{show_nat, read_nat}
use protek.Blocking.{
  Rule, Match, Status, no_rule, disabled, shadowed, unknown, unverified, blocking, Family, is_in,
  analyze_family,
}

abbrev pub is_blocking : Status → Bool
is_blocking blocking = true
is_blocking _ = false

pub data Warning : Type 0 where
  only_the_router only_forwarded : Warning
  v6_bans_unblocked : ℕ → Warning
  no_v6_rule : Warning

-- What a fetcher returns: a table that could not be read is `none`.
pub record Tables : Type 0 where
  pub filter : Option (List Rule)
  pub raw : Option (List Rule)
  pub filter6 : Option (List Rule)
  pub raw6 : Option (List Rule)

pub record Verdict : Type 0 where
  pub status : Status
  pub rules : List Match
  pub coverage : List Str
  pub packets : ℕ
  pub custom_chains : List Str
  pub v6_status : Option Status
  pub v6_rules : List Match
  pub v6_entries : Option ℕ
  pub v6_gap : Bool
  pub warnings : List Warning

abbrev is_present : Option (List Rule) → Bool
is_present none = false
is_present (some rules) = true

-- The IPv6 verdict; `none` where the router has no IPv6 firewall.
unfoldable pub v6_family : Str → Tables → Option Family
v6_family list_name t =
    if is_present t.filter6 || is_present t.raw6
    then some (analyze_family list_name t.filter6 t.raw6)
    else none

unfoldable pub coverage_warnings : Family → List Warning
coverage_warnings v4 =
    if is_blocking v4.status
    then if not (is_in v4.coverage (lit "forward"))
      then only_the_router ∷ []
      else if not (is_in v4.coverage (lit "input"))
      then only_forwarded ∷ []
      else []
    else []

-- `v6_entries != 0`
abbrev not_zero : Option ℕ → Bool
not_zero none = true
not_zero (some n) = ltb 0 n

unfoldable pub has_v6_gap : Family → Option Family → Option ℕ → Bool
has_v6_gap v4 none entries = false
has_v6_gap v4 (some v6) entries =
    not (is_blocking v6.status) && is_blocking v4.status && not_zero entries

unfoldable pub gap_warning : Option ℕ → Warning
gap_warning none = no_v6_rule
gap_warning (some n) = if ltb 0 n then v6_bans_unblocked n else no_v6_rule

unfoldable pub analyze : Str → Tables → Option ℕ → Verdict
analyze list_name t entries =
    let v4 = analyze_family list_name t.filter t.raw in
    let v6 = v6_family list_name t in
    let gap = has_v6_gap v4 v6 entries in
    record {
      status = v4.status;
      rules = v4.rules;
      coverage = v4.coverage;
      packets = v4.packets;
      custom_chains = v4.custom_chains;
      v6_status = elim v6 [ none ↦ none | some f ↦ some f.status ];
      v6_rules = elim v6 [ none ↦ [] | some f ↦ f.rules ];
      v6_entries = entries;
      v6_gap = gap;
      warnings = coverage_warnings v4 ++ (if gap then gap_warning entries ∷ [] else []);
    }

-- The setting of each target, and `_V6_SEEN`.
pub record Counts : Type 0 where
  pub settings : Dict Str Str
  pub v6_seen : Dict Str ℕ

abbrev pub is_some_of : ℕ → Option ℕ → Bool
is_some_of n none = false
is_some_of n (some seen) = seen == n

unfoldable pub note_v6_entries : Str → ℕ → Counts → Counts
note_v6_entries target n c = if is_some_of n (lookup target c.v6_seen) then c else record {
  settings = insert target (show_nat n) c.settings;
  v6_seen = insert target n c.v6_seen;
}

-- `int(raw) if raw not in (None, "") else None`, and None where that raises
unfoldable pub count_of : Option Str → Option ℕ
count_of none = none
count_of (some text) = if is_empty text then none else read_nat text

-- `_v6_entries`
unfoldable pub v6_entries : Str → Counts → Option ℕ
v6_entries target c = count_of (lookup target c.settings)

-- A target as `check_target` sees it: `fetch` is absent where the adapter has no firewall_rules,
-- and its tables are `none` where the call raises.
pub record Target : Type 0 where
  pub name : Str
  pub kind : Str
  pub list_name : Str
  pub fetch : Option (Option Tables)

pub record Result : Type 0 where
  pub target : Str
  pub kind : Str
  pub list_name : Str
  pub verdict : Verdict

unfoldable pub not_read : Verdict
not_read = record {
  status = unknown;
  rules = [];
  coverage = [];
  packets = 0;
  custom_chains = [];
  v6_status = none;
  v6_rules = [];
  v6_entries = none;
  v6_gap = false;
  warnings = [];
}

unfoldable pub check_target : Target → Counts → Option Result
check_target b c = elim b.fetch [
  | none ↦ none
  | some fetched ↦ some (record {
    target = b.name;
    kind = b.kind;
    list_name = b.list_name;
    verdict = elim fetched [
      | none ↦ not_read
      | some t ↦ analyze b.list_name t (v6_entries b.name c)
    ];
  })
]

-- `_SEVERITY.index`
abbrev pub severity : Status → ℕ
severity no_rule = 0
severity disabled = 1
severity shadowed = 2
severity unknown = 3
severity unverified = 4
severity blocking = 5

-- `min(results, key=…)`: the first of the smallest
unfoldable pub worse : Result → Result → Result
worse r s = if ltb (severity s.verdict.status) (severity r.verdict.status) then s else r

unfoldable pub worst_of : Result → List Result → Result
worst_of r [] = r
worst_of r (s ∷ rest) = worst_of (worse r s) rest

abbrev pub has_warnings : Result → Bool
has_warnings r = elim r.verdict.warnings [ [] ↦ false | w ∷ ws ↦ true ]

abbrev pub is_gapped : Result → Bool
is_gapped r = is_blocking r.verdict.status && has_warnings r

-- `next(r for r in results if …)`, on a list that has one
unfoldable pub first_gapped : Result → List Result → Result
first_gapped r [] = r
first_gapped r (s ∷ rest) = if is_gapped s then s else first_gapped r rest

pub record Summary : Type 0 where
  pub status : Option Status
  pub partial : Bool
  pub worst : Option Str
  pub targets : List Result

unfoldable pub summarize : List Result → Summary
summarize [] = record { status = none; partial = false; worst = none; targets = [] }
summarize (r ∷ rest) =
    let partial = any is_gapped (r ∷ rest) in
    let worst = worst_of r rest in
    let shown : Result =
      if is_blocking worst.verdict.status && partial
      then first_gapped worst (r ∷ rest)
      else worst in
    record {
      status = some shown.verdict.status;
      partial = partial;
      worst = some shown.target;
      targets = r ∷ rest;
    }

unfoldable pub check_all : List Target → Counts → List Result
check_all [] c = []
check_all (b ∷ bs) c =
    let rest = check_all bs c in elim (check_target b c) [ none ↦ rest | some r ↦ r ∷ rest ]

-- The summary that `refresh` caches.
unfoldable pub refresh : List Target → Counts → Summary
refresh targets c = summarize (check_all targets c)

pub data Pill : Type 0 where
  ok warn down : Pill

unfoldable pub pill_state : Option Status → Bool → Option Pill
pill_state none partial = none
pill_state (some blocking) partial = some (if partial then warn else ok)
pill_state (some unverified) partial = some warn
pill_state (some unknown) partial = some warn
pill_state (some _) partial = some down

-- `label_for`: the key of the label, "partial" for the gaps
unfoldable pub label_for : Option Status → Bool → Option Str
label_for none partial = none
label_for (some blocking) partial = some (if partial then lit "partial" else lit "blocking")
label_for (some unverified) partial = some (lit "unverified")
label_for (some unknown) partial = some (lit "unknown")
label_for (some shadowed) partial = some (lit "shadowed")
label_for (some disabled) partial = some (lit "disabled")
label_for (some no_rule) partial = some (lit "none")
