-- ===== src/Reconciler/Filter.antt =====
-- reconciler.py, `_filter_desired_for_bouncer`: the subset of the decisions that a bouncer gets.
pub mod Laws
use protek.Prelude.{
  ℕ, zero, suc, Str, Option, none, some, Bool, true, false, not, ◌||◌, ◌&&◌, List, [], ◌∷◌, ◌==◌,
  str_eq, if◌then◌else◌, ltb, leb, any, select, take, length,
}
use protek.Prelude.Text.{is_empty, or_default, strip, split_all}
use protek.Reconcile.Comment.{Decision}
use protek.Reconciler.Bouncer.{Bouncer, SourceFilter}

-- What the filter asks of other modules: `fnmatch.fnmatchcase name pattern`; the search of a
-- compiled regular expression, `none` if it does not compile; and the addresses that
-- reputation.py finds to qualify, `none` if it raises.
pub record Matching : Type 0 where
  pub glob : Str → Str → Bool
  pub search : Str → Option (Str → Bool)
  pub qualifying : ℕ → Option (Str → Bool)

unfoldable pub is_some_list {ℓ} : {A : Type ℓ} → List A → Bool
is_some_list [] = false
is_some_list (x ∷ xs) = true

-- Python's truth of `source_filter`
unfoldable pub source_set : SourceFilter → Bool
unfolding is_some_list
source_set SourceFilter.unset = false
source_set (SourceFilter.csv s) = not (is_empty s)
source_set (SourceFilter.names l) = is_some_list l

unfoldable pub any_filter : Bouncer → Bool
unfolding is_some_list source_set
any_filter b =
    is_some_list b.origins
    || is_some_list b.exclude_origins
    || ltb 0 b.max_entries
    || ltb 0 b.min_reputation
    || source_set b.source_filter
    || not (is_empty b.scenario_filter)

-- `_origin_ok`
unfoldable pub origin_ok : Matching → Bouncer → Str → Bool
unfolding is_some_list
origin_ok w b o =
    if is_some_list b.exclude_origins && any (w.glob o) b.exclude_origins
    then false
    else if is_some_list b.origins && not (any (w.glob o) b.origins)
    then false
    else true

-- `{s.strip() for s in … if s.strip()}`
strip_names : List Str → List Str
unfolding strip
strip_names [] = []
strip_names (s ∷ ss) =
    let rest = strip_names ss in if is_empty (strip s) then rest else strip s ∷ rest

unfoldable pub allowed_sources : SourceFilter → List Str
unfolding strip_names split_all
allowed_sources SourceFilter.unset = []
allowed_sources (SourceFilter.csv s) = strip_names (split_all b',' s)
allowed_sources (SourceFilter.names l) = strip_names l

unfoldable pub filter_sources : Bouncer → List Decision → List Decision
unfolding is_some_list source_set
filter_sources b out =
    let allowed = allowed_sources b.source_filter in
    if source_set b.source_filter && is_some_list allowed
    then select (λ d. any (λ s. s == or_default d.origin_source []) allowed) out
    else out

-- An expression that does not compile filters nothing.
unfoldable pub filter_scenarios : Matching → Bouncer → List Decision → List Decision
filter_scenarios w b out =
    if is_empty b.scenario_filter then out else elim (w.search b.scenario_filter) [
      | none ↦ out
      | some found ↦ select (λ d. found (or_default d.scenario [])) out
    ]

-- `d.get("value") in qualifying`
unfoldable pub value_in : (Str → Bool) → Decision → Bool
value_in qualifies d = elim d.value [ none ↦ false | some v ↦ qualifies v ]

-- A failure of the reputation lookup filters nothing.
unfoldable pub filter_reputation : Matching → Bouncer → List Decision → List Decision
unfolding value_in
filter_reputation w b out =
    if ltb 0 b.min_reputation
    then elim (w.qualifying b.min_reputation) [
      | none ↦ out
      | some qualifies ↦ select (value_in qualifies) out
    ]
    else out

-- `int(d.get("lapi_id") or 0)`
abbrev pub age_key : Decision → ℕ
age_key d = elim d.lapi_id [ none ↦ 0 | some n ↦ n ]

unfoldable pub insert_newest : Decision → List Decision → List Decision
insert_newest d [] = d ∷ []
insert_newest d (x ∷ xs) =
    if leb (age_key x) (age_key d) then d ∷ x ∷ xs else x ∷ insert_newest d xs

-- `out.sort(key=…, reverse=True)`: newest first, equal keys in their old order
unfoldable pub sort_newest : List Decision → List Decision
unfolding insert_newest
sort_newest [] = []
sort_newest (d ∷ ds) = insert_newest d (sort_newest ds)

unfoldable pub cap_entries : ℕ → List Decision → List Decision
cap_entries max_entries out =
    if ltb 0 max_entries && ltb max_entries (length out)
    then take max_entries (sort_newest out)
    else out

unfoldable pub filter_desired : Matching → Bouncer → List Decision → List Decision
filter_desired w b desired =
    if not (any_filter b)
    then desired
    else cap_entries b.max_entries (
        filter_reputation w b (
          filter_scenarios w b
            (filter_sources b (select (λ d. origin_ok w b (or_default d.origin [])) desired))))
