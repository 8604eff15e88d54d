-- ===== src/Desired/Laws.antt =====
-- reconciler.py, `_desired_from_db`: which groups of the mirror are desired.
use protek.Prelude.{
  ◌+◌, ◌≤◌, ◌≡◌, refl, ap, Str, Option, none, some, Bool, true, false, not, ◌||◌, ◌&&◌, List, [],
  ◌∷◌, ◌==◌, str_eq, str_beq_iff, if◌then◌else◌, any, select, count_if, map, arith, Bool-cases, inl,
  inr,
}
use protek.Desired.{
  MirrorRow, WhitelistRule, Database, min_row, add_row, group_rows, qualifies, decision_of, query,
  rule_matches, first_match, asn_of, country_of, matches_whitelist, drop_whitelisted, is_approved,
  desired_from_db,
}

-- Does an active rule match the group?
abbrev pub whitelisted : (Str → Str → Bool) → Database → MirrorRow → Bool
whitelisted in_network db r =
    any
      (λ (w : WhitelistRule).
        w.active && rule_matches in_network r.value (asn_of db r.value) (country_of db r.value) w)
      db.whitelist

abbrev pub found : Option WhitelistRule → Bool
found none = false
found (some w) = true

found-first_match :
    (p : WhitelistRule → Bool) (ws : List WhitelistRule)
    → found (first_match p (select (λ (w : WhitelistRule). w.active) ws))
      ≡ any (λ (w : WhitelistRule). w.active && p w) ws
unfolding first_match
found-first_match p [] = refl
found-first_match p (w ∷ ws) = ground (arith, found-first_match p ws)

kept-drop_whitelisted :
    (matched : MirrorRow → Option WhitelistRule) (rows : List MirrorRow)
    → (drop_whitelisted matched rows).0 ≡ select (λ r. not (found (matched r))) rows
unfolding drop_whitelisted
kept-drop_whitelisted matched [] = refl
kept-drop_whitelisted matched (r ∷ rows) = ground (arith, kept-drop_whitelisted matched rows)

select-both :
    (p q r : MirrorRow → Bool) (rows : List MirrorRow)
    → ((x : MirrorRow) → (p x && q x) ≡ r x)
    → select q (select p rows) ≡ select r rows
select-both p q r [] h = refl
select-both p q r (x ∷ rows) h = ground (arith, h x, select-both p q r rows h)

select-true : (rows : List MirrorRow) → select (λ r. true) rows ≡ rows
select-true [] = refl
select-true (r ∷ rows) = ap (λ rest. r ∷ rest) (select-true rows)

-- The tests that a group has to pass.
abbrev pub is_desired : (Str → Str → Bool) → Database → MirrorRow → Bool
is_desired in_network db r =
    not (whitelisted in_network db r)
    && (not db.approval_required || is_approved db.approval_queue r)

-- The decisions for the bouncers are the groups of the mirror that no active rule of the whitelist
-- matches and that, where approval is required, are approved.
pub desired_from_db-eq :
    (in_network : Str → Str → Bool) (db : Database)
    → (desired_from_db in_network db).0
      ≡ map decision_of (select (is_desired in_network db) (query db))
unfolding desired_from_db matches_whitelist
desired_from_db-eq in_network db =
    let free : MirrorRow → Bool = λ r. not (found (matches_whitelist in_network db r)) in
    let rows = query db in
    elim (Bool-cases db.approval_required) [
      | inl semi ↦ ground (
        arith,
        kept-drop_whitelisted (matches_whitelist in_network db) rows,
        select-both free (is_approved db.approval_queue) (is_desired in_network db) rows (λ r.
            ground (
              arith,
              found-first_match
                  (rule_matches in_network r.value (asn_of db r.value) (country_of db r.value))
                  db.whitelist,
            )),
      )
      | inr auto ↦ ground (
        arith,
        kept-drop_whitelisted (matches_whitelist in_network db) rows,
        select-both free (λ r. true) (is_desired in_network db) rows
            (λ r. ground (
              arith,
              found-first_match
                  (rule_matches in_network r.value (asn_of db r.value) (country_of db r.value))
                  db.whitelist,
            )),
        select-true (select free rows),
      )
    ]

-- Is this the identity of the row?
abbrev pub is_for : Str → Str → MirrorRow → Bool
is_for value scope r = r.value == value && r.scope == scope

-- Rows of different groups have not the same identity.
same_key :
    (value scope : Str) (g r : MirrorRow)
    → (g.value == r.value && g.scope == r.scope) ≡ false
    → (is_for value scope g && is_for value scope r) ≡ false
same_key value scope g r h = ground (
  arith,
  str_beq_iff g.value r.value,
  str_beq_iff g.scope r.scope,
  str_beq_iff g.value value,
  str_beq_iff g.scope scope,
  str_beq_iff r.value value,
  str_beq_iff r.scope scope,
)

module _ (value scope : Str) where
  count-add_row :
      (r : MirrorRow) (groups : List MirrorRow)
      → (count_if (is_for value scope) (add_row r groups)
          ≡ count_if (is_for value scope) groups
            + (if is_for value scope r && not (any (is_for value scope) groups) then 1 else 0))
        × (any (is_for value scope) (add_row r groups)
            ≡ (is_for value scope r || any (is_for value scope) groups))
  unfolding add_row min_row
  count-add_row r [] = ground arith
  count-add_row r (g ∷ groups) = elim (Bool-cases (g.value == r.value && g.scope == r.scope)) [
    | inl same ↦
        let on_value : g.value ≡ r.value = ground (arith, str_beq_iff g.value r.value) in
        let on_scope : g.scope ≡ r.scope = ground (arith, str_beq_iff g.scope r.scope) in
        rw same (ground (arith, ap (λ v. v == value) on_value, ap (λ v. v == scope) on_scope))
    | inr other ↦ rw other (ground (arith, count-add_row r groups, same_key value scope g r other))
  ]

  any-zero :
      (groups : List MirrorRow)
      → any (is_for value scope) groups ≡ false
      → count_if (is_for value scope) groups ≡ 0
  any-zero [] h = refl
  any-zero (g ∷ groups) h = ground (arith, any-zero groups)

  count-group_rows :
      (rows groups : List MirrorRow)
      → count_if (is_for value scope) groups ≤ 1
      → (count_if (is_for value scope) (group_rows rows groups) ≤ 1)
        × (any (is_for value scope) (group_rows rows groups)
            ≡ (any (is_for value scope) groups || any (is_for value scope) rows))
  unfolding group_rows
  count-group_rows [] groups h = ground arith
  count-group_rows (r ∷ rows) groups h =
      ground
        (arith, count-add_row r groups, any-zero groups, count-group_rows rows (add_row r groups))

  any-select :
      (p : MirrorRow → Bool) (rows : List MirrorRow)
      → any (is_for value scope) (select p rows) ≡ any (λ r. p r && is_for value scope r) rows
  any-select p [] = refl
  any-select p (r ∷ rows) = ground (arith, any-select p rows)

  -- The mirror asks for an address and scope at most once, and does so exactly when one of its
  -- rows has them, is not tombstoned, and was seen lately by as many sources as the confidence
  -- threshold asks for, if that is more than one.
  pub count-query :
      (db : Database)
      → (count_if (is_for value scope) (query db) ≤ 1)
        × (any (is_for value scope) (query db)
            ≡ any (λ r. qualifies db r && is_for value scope r) db.decisions)
  unfolding query
  count-query db = ground (
    arith,
    count-group_rows (select (qualifies db) db.decisions) [] (ground arith),
    any-select (qualifies db) db.decisions,
  )
