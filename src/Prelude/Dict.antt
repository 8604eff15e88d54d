-- ===== src/Prelude/Dict.antt =====
-- A Python dict in insertion order, over keys with an equality test.
use mathlib.Core.Path.{◌≡◌, refl, ap}
use mathlib.Core.Bool.{Bool, true, false, not, ◌&&◌, ◌||◌}
use mathlib.Core.Logic.{inl, inr}
use mathlib.Core.List.{List, [], ◌∷◌, ◌++◌}
use mathlib.Core.Option.{Option, none, some}
use native.Mathlib.Omega.{arith}
use protek.Prelude.Tests.{if◌then◌else◌, Bool-cases}
use protek.Prelude.Lists.{all, any}
use protek.Prelude.Equality.{Eq, ◌==◌}

abbrev pub Dict {ℓ κ} : Type ℓ → Type κ → Type (ℓ ⊔ κ)
Dict K V = List (K × V)

module _ {ℓ κ} {K : Type ℓ} {V : Type κ} ⦃e : Eq K⦄ where
  -- `d.get(k)`
  unfoldable pub lookup : K → Dict K V → Option V
  lookup k [] = none
  lookup k ((j, v) ∷ d) = if j == k then some v else lookup k d

  -- `k in d`
  unfoldable pub contains : K → Dict K V → Bool
  contains k [] = false
  contains k ((j, v) ∷ d) = j == k || contains k d

  -- `d[k] = v`: an old key keeps its place
  unfoldable pub insert : K → V → Dict K V → Dict K V
  insert k v [] = (k, v) ∷ []
  insert k v ((j, w) ∷ d) = if j == k then (j, v) ∷ d else (j, w) ∷ insert k v d

  -- `d.setdefault(k, v)`
  unfoldable pub set_default : K → V → Dict K V → Dict K V
  set_default k v d = if contains k d then d else d ++ (k, v) ∷ []

  -- `del d[k]`, or a DELETE of the row with that key
  unfoldable pub remove : K → Dict K V → Dict K V
  remove k [] = []
  remove k ((j, v) ∷ d) = let rest = remove k d in if j == k then rest else (j, v) ∷ rest

  pub lookup-remove :
      (k j : K) (d : Dict K V) → lookup j (remove k d) ≡ (if k == j then none else lookup j d)
  unfolding lookup remove
  lookup-remove k j [] = ground arith
  lookup-remove k j ((i, w) ∷ d) =
      ground (arith, e.beq_iff k j, e.beq_iff i k, e.beq_iff i j, lookup-remove k j d)

  pub lookup-insert :
      (k j : K) (v : V) (d : Dict K V)
      → lookup j (insert k v d) ≡ (if k == j then some v else lookup j d)
  unfolding lookup insert
  lookup-insert k j v [] = refl
  lookup-insert k j v ((i, w) ∷ d) =
      ground (arith, e.beq_iff k j, e.beq_iff i k, e.beq_iff i j, lookup-insert k j v d)

  pub contains-insert :
      (k j : K) (v : V) (d : Dict K V) → contains j (insert k v d) ≡ (k == j || contains j d)
  unfolding contains insert
  contains-insert k j v [] = refl
  contains-insert k j v ((i, w) ∷ d) =
      ground (arith, e.beq_iff k j, e.beq_iff i k, e.beq_iff i j, contains-insert k j v d)

  pub contains-append :
      (j : K) (c d : Dict K V) → contains j (c ++ d) ≡ (contains j c || contains j d)
  unfolding contains
  contains-append j [] d = refl
  contains-append j ((i, w) ∷ c) d = ground (arith, contains-append j c d)

  pub contains-set_default :
      (k j : K) (v : V) (d : Dict K V) → contains j (set_default k v d) ≡ (contains j d || k == j)
  unfolding set_default contains
  contains-set_default k j v d = ground (arith, contains-append j d ((k, v) ∷ []), e.beq_iff k j)

  pub lookup-append :
      (j : K) (c d : Dict K V)
      → lookup j (c ++ d) ≡ elim (lookup j c) [ none ↦ lookup j d | some v ↦ some v ]
  unfolding lookup
  lookup-append j [] d = refl
  lookup-append j ((i, w) ∷ c) d = ground (arith, lookup-append j c d)

  pub lookup-contains :
      (j : K) (d : Dict K V) → contains j d ≡ elim (lookup j d) [ none ↦ false | some v ↦ true ]
  unfolding lookup contains
  lookup-contains j [] = refl
  lookup-contains j ((i, w) ∷ d) = ground (arith, lookup-contains j d)

  pub lookup-set_default :
      (k j : K) (v : V) (d : Dict K V)
      → lookup j (set_default k v d)
        ≡ elim (lookup j d) [ none ↦ if k == j then some v else none | some w ↦ some w ]
  unfolding set_default lookup
  lookup-set_default k j v d = ground (
    arith,
    lookup-append j d ((k, v) ∷ []),
    e.beq_iff k j,
    lookup-contains k d,
    lookup-contains j d,
  )

  pub nil-of-lookup : (d : Dict K V) → ((k : K) → lookup k d ≡ none) → d ≡ []
  unfolding lookup
  nil-of-lookup [] h = refl
  nil-of-lookup ((k, v) ∷ d) h = ground (arith, h k, e.beq_iff k k)

  -- No key stands twice.
  abbrev pub Unique : Dict K V → Type 0
  Unique [] = Unit
  Unique ((k, v) ∷ d) = (contains k d ≡ false) × Unique d

  pub insert-Unique : (k : K) (v : V) (d : Dict K V) → Unique d → Unique (insert k v d)
  unfolding insert contains
  insert-Unique k v [] h = (refl, tt)
  insert-Unique k v ((j, w) ∷ d) h =
      ground (arith, insert-Unique k v d h.1, contains-insert k j v d, e.beq_iff j k, e.beq_iff k j)

  -- A test of the entries whose key is not `k`.
  abbrev pub except : K → (K × V → Bool) → K × V → Bool
  except k q entry = q entry && not (entry.0 == k)

  any-except :
      (k : K) (q : K × V → Bool) (d : Dict K V)
      → contains k d ≡ false
      → any (except k q) d ≡ any q d
  unfolding contains
  any-except k q [] h = refl
  any-except k q ((j, w) ∷ d) h = ground (arith, any-except k q d)

  pub any-insert :
      (k : K) (v : V) (q : K × V → Bool) (d : Dict K V)
      → Unique d
      → any q (insert k v d) ≡ (q (k, v) || any (except k q) d)
  unfolding insert
  any-insert k v q [] h = refl
  any-insert k v q ((j, w) ∷ d) h = elim (Bool-cases (j == k)) [
    | inl same ↦
        let same' : j ≡ k = (e.beq_iff j k).0 same in
        ground (arith, any-except k q d (rw (← same') h.0), same', ap (λ i. q (i, v)) same')
    | inr other ↦ ground (arith, any-insert k v q d h.1)
  ]

  -- A test that every key of the dict passes, by membership and by recursion.
  pub all-of-contains :
      (q : K → Bool) (d : Dict K V)
      → ((k : K) → contains k d ≡ true → q k ≡ true)
      → all (λ entry. q entry.0) d ≡ true
  unfolding contains
  all-of-contains q [] h = refl
  all-of-contains q ((k, v) ∷ d) h =
      ground (arith, h k, e.beq_iff k k, all-of-contains q d (λ j m. h j (ground arith)))
