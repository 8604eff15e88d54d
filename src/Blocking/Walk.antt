-- ===== src/Blocking/Walk.antt =====
-- blocking.py, `_analyze_family`: the verdict against a walk down the chains.
use protek.Prelude.{
  ℕ, ◌+◌, ◌≡◌, refl, ◌∙◌, Str, Option, Bool, true, false, not, ◌||◌, ◌&&◌, List, [], ◌∷◌, ◌==◌,
  str_eq, str_beq_iff, if◌then◌else◌, any, any-append, arith, Bool-cases, inl, inr,
}
use protek.Prelude.Text.{lit}
use protek.Prelude.Equality.{str_beq}
use protek.Blocking.{
  Rule, TableName, raw, filter, is_in, builtin, irrelevant, is_enabled, is_unconditional_accept,
  drops_list, Match, chain_of, match_of, seen_after, scan, is_live, is_live_builtin, status_of,
  analyze_family, rules_or_none,
}
use protek.Blocking.Analyze.{is_blocking}

-- A packet of a listed source goes down the rules of a chain, and the first that is an enabled
-- drop of the list or an accept of everything decides: is it a drop?
abbrev pub meets_drop : Str → Str → List Rule → Bool
meets_drop list_name chain [] = false
meets_drop list_name chain (rule ∷ rules) =
    let later = meets_drop list_name chain rules in
    if chain_of rule == chain && drops_list list_name rule && is_enabled rule
    then true
    else if chain_of rule == chain && is_unconditional_accept rule
    then false
    else later

abbrev live_in : Str → Match → Bool
live_in chain m = is_live m && m.chain == chain

-- Equal texts stand in the same sets.
is_in-same : (set : List Str) (x y : Str) → (x == y && is_in set x) ≡ (x == y && is_in set y)
is_in-same set x y = elim (Bool-cases (x == y)) [
  | inl same ↦ rw ((str_beq_iff x y).0 same) refl
  | inr other ↦ rw other refl
]

is_in-seen_after :
    (list_name : Str) (rule : Rule) (seen : List Str) (chain : Str)
    → is_in irrelevant chain ≡ false
    → is_in (seen_after list_name rule seen) chain
      ≡ (is_in seen chain || (chain_of rule == chain && is_unconditional_accept rule))
unfolding seen_after is_in
is_in-seen_after list_name rule seen chain h =
    ground (arith, is_in-same irrelevant (chain_of rule) chain)

any-scan :
    (list_name : Str) (table : TableName) (pos : ℕ) (seen : List Str) (rules : List Rule)
    (chain : Str)
    → is_in irrelevant chain ≡ false
    → any (live_in chain) (scan list_name table pos seen rules)
      ≡ (not (is_in seen chain) && meets_drop list_name chain rules)
unfolding scan match_of
any-scan list_name table pos seen [] chain h = ground arith
any-scan list_name table pos seen (rule ∷ rules) chain h = ground (
  arith,
  any-scan list_name table (pos + 1) (seen_after list_name rule seen) rules chain h,
  is_in-seen_after list_name rule seen chain h,
  is_in-same irrelevant (chain_of rule) chain,
  is_in-same seen (chain_of rule) chain,
)

-- The scan of a whole table.
scan_of :
    (list_name : Str) (table : TableName) (rules : List Rule) (chain : Str)
    → is_in irrelevant chain ≡ false
    → any (live_in chain) (scan list_name table 0 [] rules) ≡ meets_drop list_name chain rules
unfolding is_in
scan_of list_name table rules chain h = any-scan list_name table 0 [] rules chain h

prerouting_counts : is_in irrelevant (lit "prerouting") ≡ false
unfolding is_in irrelevant str_beq
prerouting_counts = refl

input_counts : is_in irrelevant (lit "input") ≡ false
unfolding is_in irrelevant str_beq
input_counts = refl

forward_counts : is_in irrelevant (lit "forward") ≡ false
unfolding is_in irrelevant str_beq
forward_counts = refl

-- A live rule of a chain that packets always traverse, in the terms of the chains.
live_builtin-raw :
    (list_name : Str) (pos : ℕ) (seen : List Str) (rules : List Rule)
    → any is_live_builtin (scan list_name raw pos seen rules)
      ≡ any (live_in (lit "prerouting")) (scan list_name raw pos seen rules)
unfolding scan match_of builtin
live_builtin-raw list_name pos seen [] = refl
live_builtin-raw list_name pos seen (rule ∷ rules) =
    ground (arith, live_builtin-raw list_name (pos + 1) (seen_after list_name rule seen) rules)

live_builtin-filter :
    (list_name : Str) (pos : ℕ) (seen : List Str) (rules : List Rule)
    → any is_live_builtin (scan list_name filter pos seen rules) ≡ (
        any (live_in (lit "input")) (scan list_name filter pos seen rules)
        || any (live_in (lit "forward")) (scan list_name filter pos seen rules))
unfolding scan match_of builtin
live_builtin-filter list_name pos seen [] = refl
live_builtin-filter list_name pos seen (rule ∷ rules) =
    ground (arith, live_builtin-filter list_name (pos + 1) (seen_after list_name rule seen) rules)

is_blocking-status_of : (ms : List Match) → is_blocking (status_of ms) ≡ any is_live_builtin ms
unfolding status_of
is_blocking-status_of [] = refl
is_blocking-status_of (m ∷ ms) = ground arith

-- A family is reported as blocking exactly when a packet of a listed source meets an enabled drop
-- of the list before any accept of everything in raw prerouting, in filter input or in filter
-- forward; a table that could not be read has no rules. What else a drop asks of a packet does
-- not count, and neither do jumps to other chains.
pub is_blocking-analyze_family :
    (list_name : Str) (filter_rules raw_rules : Option (List Rule))
    → is_blocking (analyze_family list_name filter_rules raw_rules).status ≡ (
        meets_drop list_name (lit "prerouting") (rules_or_none raw_rules)
        || meets_drop list_name (lit "input") (rules_or_none filter_rules)
        || meets_drop list_name (lit "forward") (rules_or_none filter_rules))
unfolding analyze_family
is_blocking-analyze_family list_name filter_rules raw_rules =
    let rs = rules_or_none raw_rules in
    let fs = rules_or_none filter_rules in
    is_blocking-status_of _
    ∙ any-append is_live_builtin (scan list_name raw 0 [] rs) (scan list_name filter 0 [] fs)
    ∙ ground (
      arith,
      live_builtin-raw list_name 0 [] rs,
      live_builtin-filter list_name 0 [] fs,
      scan_of list_name raw rs (lit "prerouting") prerouting_counts,
      scan_of list_name filter fs (lit "input") input_counts,
      scan_of list_name filter fs (lit "forward") forward_counts,
    )
