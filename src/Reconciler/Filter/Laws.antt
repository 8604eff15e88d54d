-- ===== src/Reconciler/Filter/Laws.antt =====
-- reconciler.py, `_filter_desired_for_bouncer`: the chain of filters is one test and a cap that
-- keeps the newest.
use protek.Prelude.{
  ℕ, zero, suc, ◌+◌, ◌≤◌, ◌≡◌, refl, sym, ◌∙◌, ap, Option-cases, none, some, Bool, true, false, not,
  ◌||◌, ◌&&◌, List, [], ◌∷◌, ◌==◌, str_eq, if◌then◌else◌, ltb, leb, any, select, take, drop, length,
  count_if, All, Bool-cases, inl, inr, arith, ◌⊎◌, leb→le, length-take,
}
use protek.Prelude.Text.{is_empty, or_default}
use protek.Reconcile.Comment.{Decision}
use protek.Reconciler.Bouncer.{Bouncer}
use protek.Reconciler.Filter.{
  Matching, is_some_list, source_set, any_filter, origin_ok, allowed_sources, filter_sources,
  filter_scenarios, value_in, filter_reputation, age_key, insert_newest, sort_newest, cap_entries,
  filter_desired,
}

-- The tests of the four filters, each true where its setting is absent or cannot be used.
abbrev pub source_ok : Bouncer → Decision → Bool
source_ok b d =
    not (source_set b.source_filter)
    || not (is_some_list (allowed_sources b.source_filter))
    || any (λ s. s == or_default d.origin_source []) (allowed_sources b.source_filter)

abbrev pub scenario_ok : Matching → Bouncer → Decision → Bool
scenario_ok w b d = is_empty b.scenario_filter || elim (w.search b.scenario_filter) [
  | none ↦ true
  | some found ↦ found (or_default d.scenario [])
]

abbrev pub reputation_ok : Matching → Bouncer → Decision → Bool
reputation_ok w b d =
    not (ltb 0 b.min_reputation)
    || elim (w.qualifying b.min_reputation) [ none ↦ true | some qualifies ↦ value_in qualifies d ]

abbrev pub passes : Matching → Bouncer → Decision → Bool
passes w b d =
    origin_ok w b (or_default d.origin [])
    && source_ok b d
    && scenario_ok w b d
    && reputation_ok w b d

select-all :
    (p : Decision → Bool) (ds : List Decision) → ((d : Decision) → p d ≡ true) → select p ds ≡ ds
select-all p [] h = refl
select-all p (d ∷ ds) h = ground (arith, h d, select-all p ds h)

select-select :
    (p q : Decision → Bool) (ds : List Decision)
    → select q (select p ds) ≡ select (λ d. p d && q d) ds
select-select p q [] = refl
select-select p q (d ∷ ds) = ground (arith, select-select p q ds)

select-ext :
    (p q : Decision → Bool) (ds : List Decision)
    → ((d : Decision) → p d ≡ q d)
    → select p ds ≡ select q ds
select-ext p q [] h = refl
select-ext p q (d ∷ ds) h = ground (arith, h d, select-ext p q ds h)

filter_sources-eq :
    (b : Bouncer) (ds : List Decision) → filter_sources b ds ≡ select (source_ok b) ds
unfolding filter_sources
filter_sources-eq b ds =
    elim (Bool-cases
      (source_set b.source_filter && is_some_list (allowed_sources b.source_filter))) [
        | inl on ↦ rw on (select-ext _ (source_ok b) ds (λ d. ground arith))
        | inr off ↦ rw off (sym (select-all (source_ok b) ds (λ d. ground arith)))
      ]

filter_scenarios-eq :
    (w : Matching) (b : Bouncer) (ds : List Decision)
    → filter_scenarios w b ds ≡ select (scenario_ok w b) ds
unfolding filter_scenarios
filter_scenarios-eq w b ds = elim (Bool-cases (is_empty b.scenario_filter)) [
  | inl off ↦ rw off (sym (select-all (scenario_ok w b) ds (λ d. ground arith)))
  | inr on ↦ elim (Option-cases (w.search b.scenario_filter)) [
    | inl bad ↦ ground (arith, select-all (scenario_ok w b) ds (λ d. ground arith))
    | inr (found, compiled) ↦ ground (
      arith,
      select-ext (λ d. found (or_default d.scenario [])) (scenario_ok w b) ds (λ d. ground arith),
    )
  ]
]

filter_reputation-eq :
    (w : Matching) (b : Bouncer) (ds : List Decision)
    → filter_reputation w b ds ≡ select (reputation_ok w b) ds
unfolding filter_reputation
filter_reputation-eq w b ds = elim (Bool-cases (ltb 0 b.min_reputation)) [
  | inr off ↦ rw off (sym (select-all (reputation_ok w b) ds (λ d. ground arith)))
  | inl on ↦ elim (Option-cases (w.qualifying b.min_reputation)) [
    | inl bad ↦ ground (arith, select-all (reputation_ok w b) ds (λ d. ground arith))
    | inr (qualifies, found) ↦
        ground (arith, select-ext (value_in qualifies) (reputation_ok w b) ds (λ d. ground arith))
  ]
]

chain-eq :
    (w : Matching) (b : Bouncer) (ds : List Decision)
    → filter_reputation w b (
        filter_scenarios w b
          (filter_sources b (select (λ d. origin_ok w b (or_default d.origin [])) ds)))
      ≡ select (passes w b) ds
chain-eq w b ds =
    let p : Decision → Bool = λ d. origin_ok w b (or_default d.origin []) in
    rw (filter_sources-eq b (select p ds)) (
      rw (filter_scenarios-eq w b (select (source_ok b) (select p ds))) (
        rw
          (filter_reputation-eq w b (select (scenario_ok w b) (select (source_ok b) (select p ds))))
          (rw (select-select p (source_ok b) ds) (
            rw (select-select (λ d. p d && source_ok b d) (scenario_ok w b) ds) (
              rw
                (select-select (λ d. (p d && source_ok b d) && scenario_ok w b d)
                  (reputation_ok w b) ds)
                (select-ext _ (passes w b) ds (λ d. ground arith)))))))

passes-no_filter :
    (w : Matching) (b : Bouncer) (d : Decision) → any_filter b ≡ false → passes w b d ≡ true
unfolding any_filter origin_ok
passes-no_filter w b d h = ground arith

cap_entries-no_filter :
    (b : Bouncer) (ds : List Decision) → any_filter b ≡ false → cap_entries b.max_entries ds ≡ ds
unfolding any_filter cap_entries
cap_entries-no_filter b ds h = ground arith

-- The filter of a bouncer is one test, the conjunction of the origin, source, scenario and
-- reputation tests, each of which passes everything where it is not set or cannot be evaluated,
-- followed by the cap.
pub filter_desired-eq :
    (w : Matching) (b : Bouncer) (ds : List Decision)
    → filter_desired w b ds ≡ cap_entries b.max_entries (select (passes w b) ds)
unfolding filter_desired
filter_desired-eq w b ds = elim (Bool-cases (any_filter b)) [
  | inl on ↦ rw on (ap (cap_entries b.max_entries) (chain-eq w b ds))
  | inr off ↦
      rw (select-all (passes w b) ds (λ d. passes-no_filter w b d off))
        (rw off (sym (cap_entries-no_filter b ds off)))
]

count-insert_newest :
    (p : Decision → Bool) (d : Decision) (xs : List Decision)
    → count_if p (insert_newest d xs) ≡ count_if p (d ∷ xs)
unfolding insert_newest
count-insert_newest p d [] = refl
count-insert_newest p d (x ∷ xs) = ground (arith, count-insert_newest p d xs)

count-sort_newest :
    (p : Decision → Bool) (ds : List Decision) → count_if p (sort_newest ds) ≡ count_if p ds
unfolding sort_newest
count-sort_newest p [] = refl
count-sort_newest p (d ∷ ds) =
    ground (arith, count-insert_newest p d (sort_newest ds), count-sort_newest p ds)

length-insert_newest :
    (d : Decision) (xs : List Decision) → length (insert_newest d xs) ≡ suc (length xs)
unfolding insert_newest
length-insert_newest d [] = refl
length-insert_newest d (x ∷ xs) = ground (arith, length-insert_newest d xs)

length-sort_newest : (ds : List Decision) → length (sort_newest ds) ≡ length ds
unfolding sort_newest
length-sort_newest [] = refl
length-sort_newest (d ∷ ds) =
    omega (arith, length-insert_newest d (sort_newest ds), length-sort_newest ds)

-- Every decision of the list is at most as new as the first argument says.
abbrev OlderThan : ℕ → List Decision → Type 0
OlderThan n = All (λ y. age_key y ≤ n)

abbrev IsNewestFirst : List Decision → Type 0
IsNewestFirst [] = Unit
IsNewestFirst (x ∷ xs) = OlderThan (age_key x) xs × IsNewestFirst xs

OlderThan-weaken : (m n : ℕ) (xs : List Decision) → m ≤ n → OlderThan m xs → OlderThan n xs
OlderThan-weaken m n [] le h = tt
OlderThan-weaken m n (x ∷ xs) le h = (omega arith, OlderThan-weaken m n xs le h.1)

OlderThan-insert_newest :
    (n : ℕ) (d : Decision) (xs : List Decision)
    → age_key d ≤ n
    → OlderThan n xs
    → OlderThan n (insert_newest d xs)
unfolding insert_newest
OlderThan-insert_newest n d [] hd h = (hd, tt)
OlderThan-insert_newest n d (x ∷ xs) hd h = elim (Bool-cases (leb (age_key x) (age_key d))) [
  | inl le ↦ rw le (hd, h)
  | inr gt ↦ rw gt (h.0, OlderThan-insert_newest n d xs hd h.1)
]

insert_newest-IsNewestFirst :
    (d : Decision) (xs : List Decision) → IsNewestFirst xs → IsNewestFirst (insert_newest d xs)
unfolding insert_newest
insert_newest-IsNewestFirst d [] h = (tt, tt)
insert_newest-IsNewestFirst d (x ∷ xs) h = elim (Bool-cases (leb (age_key x) (age_key d))) [
  | inl le ↦
      rw le ((leb→le _ _ le, OlderThan-weaken (age_key x) (age_key d) xs (leb→le _ _ le) h.0), h)
  | inr gt ↦ rw gt (
    OlderThan-insert_newest (age_key x) d xs (ground arith) h.0,
    insert_newest-IsNewestFirst d xs h.1,
  )
]

sort_newest-IsNewestFirst : (ds : List Decision) → IsNewestFirst (sort_newest ds)
unfolding sort_newest
sort_newest-IsNewestFirst [] = tt
sort_newest-IsNewestFirst (d ∷ ds) =
    insert_newest-IsNewestFirst d (sort_newest ds) (sort_newest-IsNewestFirst ds)

OlderThan-drop : (k n : ℕ) (xs : List Decision) → OlderThan n xs → OlderThan n (drop k xs)
OlderThan-drop zero n xs h = h
OlderThan-drop (suc k) n [] h = tt
OlderThan-drop (suc k) n (x ∷ xs) h = OlderThan-drop k n xs h.1

take-newer-drop :
    (k : ℕ) (xs : List Decision)
    → IsNewestFirst xs
    → All (λ x. OlderThan (age_key x) (drop k xs)) (take k xs)
take-newer-drop zero xs h = tt
take-newer-drop (suc k) [] h = tt
take-newer-drop (suc k) (x ∷ xs) h = (OlderThan-drop k (age_key x) xs h.0, take-newer-drop k xs h.1)

count-take-drop :
    (p : Decision → Bool) (k : ℕ) (xs : List Decision)
    → count_if p (take k xs) + count_if p (drop k xs) ≡ count_if p xs
count-take-drop p zero xs = omega arith
count-take-drop p (suc k) [] = omega arith
count-take-drop p (suc k) (x ∷ xs) = omega (arith, count-take-drop p k xs)

All-nil : (out : List Decision) → All (λ (kept : Decision). Unit {0}) out
All-nil [] = tt
All-nil (d ∷ ds) = (tt, All-nil ds)

-- What the cap drops.
abbrev pub capped_off : ℕ → List Decision → List Decision
capped_off n out = if ltb 0 n && ltb n (length out) then drop n (sort_newest out) else []

-- The cap neither loses, invents nor repeats a decision: of the decisions that pass any test `p`,
-- what it keeps and what it drops are together as many as were given. It keeps everything where
-- `n` is 0, and otherwise at most `n` decisions; and nothing that it drops has a larger LAPI id
-- than anything that it keeps.
pub cap_entries-keeps_newest :
    (n : ℕ) (out : List Decision) (p : Decision → Bool)
    → (count_if p (cap_entries n out) + count_if p (capped_off n out) ≡ count_if p out)
      × (((n ≡ 0) × (cap_entries n out ≡ out)) ⊎ (length (cap_entries n out) ≤ n))
      × All
          (λ kept. All (λ gone. age_key gone ≤ age_key kept) (capped_off n out))
          (cap_entries n out)
unfolding cap_entries
cap_entries-keeps_newest n out p = elim (Bool-cases (ltb 0 n && ltb n (length out))) [
  | inl over ↦ rw over (
    count-take-drop p n (sort_newest out) ∙ count-sort_newest p out,
    inr (rw (length-take n (sort_newest out)) (omega arith)),
    take-newer-drop n (sort_newest out) (sort_newest-IsNewestFirst out),
  )
  | inr under ↦ rw under (omega arith, ground arith, All-nil out)
]
