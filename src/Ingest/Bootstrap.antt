-- ===== src/Ingest/Bootstrap.antt =====
-- poller.py, `_bootstrap`: the mirror of one source after a full pull.
use protek.Prelude.{
  ℕ, Str, Option, none, some, Bool, true, false, not, ◌&&◌, ◌||◌, List, [], ◌∷◌, ◌≡◌, refl, ◌==◌,
  nat_eq, str_eq, str_beq_iff, if◌then◌else◌, any, arith, Bool-cases, Option-cases, inl, inr, sym,
  ap,
}
use protek.Prelude.Dict.{
  lookup, contains, insert, lookup-insert, lookup-contains, Unique, insert-Unique,
}
use protek.Ingest.{
  Key, key_eq, key_beq_iff, Body, Table, Incoming, key_of, body_of, merge, upsert_decision,
  upsert_all, is_live, tombstone, tombstone_all, stale_keys, Mirror, bootstrap,
}

-- Is the identity in the table, and not tombstoned?
abbrev pub active : Key → Table → Bool
active k table = elim (lookup k table) [ none ↦ false | some b ↦ is_live b ]

-- Does one of the decisions have this identity?
abbrev pub mentions : Str → Key → List Incoming → Bool
mentions source k ds = any (λ d. key_of source d == k) ds

merge-is_live : (old : Option Body) (new : Body) → is_live (merge old new) ≡ is_live new
unfolding merge
merge-is_live none new = refl
merge-is_live (some b) new = refl

-- An upsert that ends makes the identity of the decision live, and changes no other.
active-upsert_decision :
    (source : Str) (d : Incoming) (now : ℕ) (table after : Table) (k : Key)
    → upsert_decision source d now table ≡ some after
    → active k after ≡ (key_of source d == k || active k table)
unfolding upsert_decision body_of
active-upsert_decision source d now table after k h = elim (Option-cases d.id) [
  | inl missing ↦ ground arith
  | inr (n, found) ↦ ground (
    arith,
    lookup-insert (key_of source d) k (merge (lookup (key_of source d) table) (body_of n d now))
        table,
    merge-is_live (lookup (key_of source d) table) (body_of n d now),
    key_beq_iff (key_of source d) k,
  )
]

active-upsert_all :
    (source : Str) (ds : List Incoming) (now : ℕ) (table : Table) (k : Key)
    → (upsert_all source ds now table).1 ≡ true
    → active k (upsert_all source ds now table).0 ≡ (mentions source k ds || active k table)
unfolding upsert_all
active-upsert_all source [] now table k h = refl
active-upsert_all source (d ∷ ds) now table k h =
    elim (Option-cases (upsert_decision source d now table)) [
      | inl missing ↦ ground arith
      | inr (after, found) ↦ ground (
        arith,
        active-upsert_all source ds now after k,
        active-upsert_decision source d now table after k found,
      )
    ]

upsert_decision-Unique :
    (source : Str) (d : Incoming) (now : ℕ) (table after : Table)
    → Unique table
    → upsert_decision source d now table ≡ some after
    → Unique after
unfolding upsert_decision
upsert_decision-Unique source d now table after h did = elim (Option-cases d.id) [
  | inl missing ↦ absurd (ground arith)
  | inr (n, found) ↦
      let k = key_of source d in
      let new = merge (lookup k table) (body_of n d now) in
      let same : insert k new table ≡ after = ground arith in
      rw (sym same) (insert-Unique k new table h)
]

upsert_all-Unique :
    (source : Str) (ds : List Incoming) (now : ℕ) (table : Table)
    → Unique table
    → Unique (upsert_all source ds now table).0
unfolding upsert_all
upsert_all-Unique source [] now table h = h
upsert_all-Unique source (d ∷ ds) now table h =
    elim (Option-cases (upsert_decision source d now table)) [
      | inl missing ↦
          let same : table ≡ (upsert_all source (d ∷ ds) now table).0 = ground arith in
          rw (sym same) h
      | inr (after, did) ↦
          let same : (upsert_all source ds now after).0 ≡ (upsert_all source (d ∷ ds) now table).0 =
            ground arith in
          rw (sym same) (
            upsert_all-Unique source ds now after
              (upsert_decision-Unique source d now table after h did))
    ]

active-tombstone :
    (j k : Key) (now : ℕ) (table : Table)
    → active k (tombstone j now table) ≡ (active k table && not (j == k))
unfolding tombstone lookup
active-tombstone j k now [] = refl
active-tombstone j k now ((i, b) ∷ table) =
    ground
      (arith, key_beq_iff i j, key_beq_iff i k, key_beq_iff j k, active-tombstone j k now table)

active-tombstone_all :
    (ks : List Key) (k : Key) (now : ℕ) (table : Table)
    → active k (tombstone_all ks now table) ≡ (active k table && not (any (λ j. j == k) ks))
unfolding tombstone_all
active-tombstone_all [] k now table = ground arith
active-tombstone_all (j ∷ ks) k now table =
    ground
      (arith, active-tombstone_all ks k now (tombstone j now table), active-tombstone j k now table)

-- Is the identity of the source, live, and not seen?
abbrev is_stale : Str → (Key → Bool) → Key → Table → Bool
is_stale source seen k table = k.origin_source == source && active k table && not (seen k)

any-stale_keys :
    (source : Str) (seen : Key → Bool) (k : Key) (table : Table)
    → Unique table
    → any (λ j. j == k) (stale_keys source seen table) ≡ is_stale source seen k table
unfolding stale_keys lookup contains
any-stale_keys source seen k [] h = ground arith
any-stale_keys source seen k ((j, b) ∷ table) h = elim (Bool-cases (j == k)) [
  | inl same ↦
      let same' : j ≡ k = (key_beq_iff j k).0 same in
      ground (
        arith,
        any-stale_keys source seen k table h.1,
        lookup-contains k table,
        ap (λ i. contains i table) same',
        ap (λ i. i.origin_source == source) same',
        ap seen same',
      )
  | inr other ↦ ground (arith, any-stale_keys source seen k table h.1)
]

mentions-source :
    (source : Str) (k : Key) (ds : List Incoming)
    → mentions source k ds ≡ true
    → (k.origin_source == source) ≡ true
unfolding key_of
mentions-source source k [] h = ground arith
mentions-source source k (d ∷ ds) h = ground (
  arith,
  mentions-source source k ds,
  str_beq_iff source k.origin_source,
  str_beq_iff k.origin_source source,
)

-- In a table without repeated identities, a full pull that comes to its end leaves as the live
-- identities of the pulled source exactly the ones that it mentioned, and as those of the other
-- sources the ones they were.
pub active-bootstrap :
    (source : Str) (ds : List Incoming) (now : ℕ) (m : Mirror) (k : Key)
    → Unique m.decisions
    → (bootstrap source ds now m).1 ≡ true
    → active k (bootstrap source ds now m).0.decisions
      ≡ (if k.origin_source == source then mentions source k ds else active k m.decisions)
unfolding bootstrap
active-bootstrap source ds now m k uniq ended =
    let after = (upsert_all source ds now m.decisions).0 in
    let seen : Key → Bool = λ j. mentions source j ds in
    ground (
      arith,
      active-upsert_all source ds now m.decisions k,
      active-tombstone_all (stale_keys source seen after) k now after,
      any-stale_keys source seen k after (upsert_all-Unique source ds now m.decisions uniq),
      mentions-source source k ds,
    )
