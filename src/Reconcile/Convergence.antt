-- ===== src/Reconcile/Convergence.antt =====
-- reconcile.py: once a diff has been carried out, the next diff is empty.
use protek.Prelude.{
  ◌≡◌, refl, sym, ◌∙◌, ap, Str, Option-cases, none, some, Bool, true, false, not, ◌&&◌, List, [],
  ◌∷◌, ◌++◌, ◌==◌, str_eq, ==→≡, ==_refl, str_beq_iff, arith, any, any-append, all, select, map,
  Bool-cases, inl, inr,
}
use protek.Prelude.Dict.{Dict, lookup, contains, nil-of-lookup, all-of-contains, lookup-contains}
use protek.Prelude.Text.{is_empty}
use protek.Reconcile.Comment.{Decision, encode_comment, is_owned}
use protek.Reconcile.RoundTrip.{is_owned-encode_comment}
use protek.Reconcile.Additions.{owns, first_with, lookup-reconcile_to_add}
use protek.Reconcile.Removals.{desires, has_id, removable, any-reconcile_to_remove}
use protek.Reconcile.{
  MtEntry, ReconcileDiff, normalize_addr, value_of, entry_addr, entry_id, reconcile, changes,
}

-- What the code relies on in the router: the entry that it lists after an add has the comment
-- that was written, and the address that was written up to normalization.
pub record Router : Type 0 where
  pub listed : Str → Str → MtEntry
  pub listed_comment : (a c : Str) → (listed a c).comment ≡ some c
  pub listed_addr : (a c : Str) → entry_addr (listed a c) ≡ normalize_addr a

pub nil-of-absent : (ids : List Str) → ((x : Str) → any (λ i. i == x) ids ≡ false) → ids ≡ []
nil-of-absent [] h = refl
nil-of-absent (i ∷ ids) h = ground (arith, h i, ==_refl i)

-- The diff names the entry for removal.
abbrev pub is_named : List Str → MtEntry → Bool
is_named ids e = elim (entry_id e) [ none ↦ false | some i ↦ any (λ j. j == i) ids ]

-- The address list after the diff's removals and additions.
abbrev pub carried_out : Router → List MtEntry → ReconcileDiff → List MtEntry
carried_out router es diff =
    select (λ e. not (is_named diff.to_remove e)) es
    ++ map (λ entry. router.listed entry.0 entry.1) diff.to_add

-- Every entry has an id of its own, and no two owned entries have one address.
abbrev pub IsRegular : List MtEntry → Type 0
IsRegular [] = Unit
IsRegular (e ∷ es) =
    ((i : Str) × (entry_id e ≡ some i) × (any (has_id i) es ≡ false))
    × ((is_owned e.comment && owns es (entry_addr e)) ≡ false)
    × IsRegular es

-- An owned entry that no decision is for.
abbrev unwanted : List Decision → MtEntry → Bool
unwanted ds e = is_owned e.comment && not (desires ds (entry_addr e))

removable-le-unwanted :
    (ds : List Decision) (x : Str) (es : List MtEntry)
    → any (unwanted ds) es ≡ false
    → removable ds x es ≡ false
removable-le-unwanted ds x [] h = refl
removable-le-unwanted ds x (e ∷ es) h = ground (arith, removable-le-unwanted ds x es)

removable-le-has_id :
    (ds : List Decision) (x : Str) (es : List MtEntry)
    → any (has_id x) es ≡ false
    → removable ds x es ≡ false
removable-le-has_id ds x [] h = refl
removable-le-has_id ds x (e ∷ es) h = ground (arith, removable-le-has_id ds x es)

-- In a regular list the removable entries are the unwanted ones.
abbrev IsExact : List Decision → (MtEntry → Bool) → List MtEntry → Type 0
IsExact ds named [] = Unit
IsExact ds named (e ∷ es) = (named e ≡ unwanted ds e) × IsExact ds named es

-- What `removable` says of an entry of the list.
abbrev named_in : List Decision → List MtEntry → MtEntry → Bool
named_in ds es e = elim (entry_id e) [ none ↦ false | some i ↦ removable ds i es ]

IsExact-weaken :
    (ds : List Decision) (f g : MtEntry → Bool) (i : Str) (es : List MtEntry)
    → ((e : MtEntry) → has_id i e ≡ false → f e ≡ g e)
    → any (has_id i) es ≡ false
    → IsExact ds f es
    → IsExact ds g es
IsExact-weaken ds f g i [] same absent h = tt
IsExact-weaken ds f g i (e ∷ es) same absent h =
    (sym (same e (ground arith)) ∙ h.0, IsExact-weaken ds f g i es same (ground arith) h.1)

named_in-cons :
    (ds : List Decision) (e : MtEntry) (i : Str) (es : List MtEntry)
    → entry_id e ≡ some i
    → (x : MtEntry) → has_id i x ≡ false
    → named_in ds es x ≡ named_in ds (e ∷ es) x
named_in-cons ds e i es at x other = elim (Option-cases (entry_id x)) [
  | inl no_id ↦ ground arith
  | inr (j, of_x) ↦ ground (arith, str_beq_iff i j, str_beq_iff j i)
]

named_in-head :
    (ds : List Decision) (e : MtEntry) (i : Str) (es : List MtEntry)
    → entry_id e ≡ some i
    → any (has_id i) es ≡ false
    → (is_owned e.comment && owns es (entry_addr e)) ≡ false
    → named_in ds (e ∷ es) e ≡ unwanted ds e
named_in-head ds e i es at absent alone =
    ground (arith, ==_refl i, removable-le-has_id ds i es absent)

regular-IsExact :
    (ds : List Decision) (es : List MtEntry) → IsRegular es → IsExact ds (named_in ds es) es
regular-IsExact ds [] h = tt
regular-IsExact ds (e ∷ es) h =
    let (i, at, absent) = h.0 in
    (
      named_in-head ds e i es at absent h.1,
      IsExact-weaken ds (named_in ds es) (named_in ds (e ∷ es)) i es (named_in-cons ds e i es at)
          absent (regular-IsExact ds es h.2),
    )

-- Of a list whose unwanted entries are named, those that are not named are wanted.
unwanted-kept :
    (ds : List Decision) (named : MtEntry → Bool) (es : List MtEntry)
    → IsExact ds named es
    → any (unwanted ds) (select (λ e. not (named e)) es) ≡ false
unwanted-kept ds named [] h = refl
unwanted-kept ds named (e ∷ es) h = ground (arith, unwanted-kept ds named es h.1)

owns-kept :
    (ds : List Decision) (named : MtEntry → Bool) (es : List MtEntry) (a : Str)
    → desires ds a ≡ true
    → IsExact ds named es
    → owns (select (λ e. not (named e)) es) a ≡ owns es a
owns-kept ds named [] a wanted h = refl
owns-kept ds named (e ∷ es) a wanted h =
    ground (arith, owns-kept ds named es a wanted h.1, str_beq_iff (entry_addr e) a)

is_named-eq-named_in :
    (ds : List Decision) (es : List MtEntry) (e : MtEntry)
    → is_named (reconcile ds es).to_remove e ≡ named_in ds es e
is_named-eq-named_in ds es e = elim (Option-cases (entry_id e)) [
  | inl no_id ↦ ground arith
  | inr (i, of_e) ↦ ground (arith, any-reconcile_to_remove i ds es)
]

IsExact-is_named :
    (ds : List Decision) (full es : List MtEntry)
    → IsExact ds (named_in ds full) es
    → IsExact ds (is_named (reconcile ds full).to_remove) es
IsExact-is_named ds full [] h = tt
IsExact-is_named ds full (e ∷ es) h =
    (is_named-eq-named_in ds full e ∙ h.0, IsExact-is_named ds full es h.1)

desires-first_with :
    (v : Str) (d : Decision) (ds : List Decision)
    → is_empty v ≡ false
    → first_with v ds ≡ some d
    → desires ds (normalize_addr v) ≡ true
desires-first_with v d [] full h = ground arith
desires-first_with v d (c ∷ ds) full h = elim (Bool-cases (value_of c == v)) [
  | inl same ↦
      let same' : value_of c ≡ v = ==→≡ (value_of c) v same in
      rw same' (ground (arith, ==_refl (normalize_addr v)))
  | inr other ↦ ground (arith, desires-first_with v d ds full)
]

-- The listed entries of a diff's additions.
abbrev listed_all : Router → Dict Str Str → List MtEntry
listed_all router = map (λ entry. router.listed entry.0 entry.1)

unwanted-listed :
    (router : Router) (ds : List Decision) (adds : Dict Str Str)
    → all (λ entry. desires ds (normalize_addr entry.0)) adds ≡ true
    → any (unwanted ds) (listed_all router adds) ≡ false
unwanted-listed router ds [] h = refl
unwanted-listed router ds ((v, c) ∷ adds) h = ground (
  arith,
  router.listed_comment v c,
  ap (desires ds) (router.listed_addr v c),
  unwanted-listed router ds adds,
)

owns-listed :
    (router : Router) (v c : Str) (adds : Dict Str Str)
    → lookup v adds ≡ some c
    → is_owned (some c) ≡ true
    → owns (listed_all router adds) (normalize_addr v) ≡ true
unfolding lookup
owns-listed router v c [] h mine = ground arith
owns-listed router v c ((w, b) ∷ adds) h mine = elim (Bool-cases (w == v)) [
  | inl same ↦ ground (
    arith,
    ==→≡ w v same,
    ap normalize_addr (==→≡ w v same),
    router.listed_comment w b,
    router.listed_addr w b,
    str_beq_iff (entry_addr (router.listed w b)) (normalize_addr v),
  )
  | inr other ↦ ground (arith, owns-listed router v c adds)
]

-- Every address that is added is desired.
desires-added :
    (ds : List Decision) (es : List MtEntry) (v : Str)
    → contains v (reconcile ds es).to_add ≡ true
    → desires ds (normalize_addr v) ≡ true
desires-added ds es v h = elim (Option-cases (first_with v ds)) [
  | inl absent ↦
      ground (arith, lookup-contains v (reconcile ds es).to_add, lookup-reconcile_to_add v ds es)
  | inr (d, first) ↦ ground (
    arith,
    lookup-contains v (reconcile ds es).to_add,
    lookup-reconcile_to_add v ds es,
    desires-first_with v d ds,
  )
]

module _ (router : Router) (ds : List Decision) (es : List MtEntry) (regular : IsRegular es) where
  abbrev next : List MtEntry
  next = carried_out router es (reconcile ds es)

  abbrev kept : List MtEntry
  kept = select (λ e. not (is_named (reconcile ds es).to_remove e)) es

  exact : IsExact ds (is_named (reconcile ds es).to_remove) es
  exact = IsExact-is_named ds es es (regular-IsExact ds es regular)

  unwanted-next : any (unwanted ds) next ≡ false
  unwanted-next = ground (
    arith,
    any-append (unwanted ds) kept (listed_all router (reconcile ds es).to_add),
    unwanted-kept ds (is_named (reconcile ds es).to_remove) es exact,
    unwanted-listed router ds (reconcile ds es).to_add (
        all-of-contains (λ v. desires ds (normalize_addr v)) (reconcile ds es).to_add
          (desires-added ds es)),
  )

  owns-next :
      (v : Str) (d : Decision)
      → is_empty v ≡ false
      → first_with v ds ≡ some d
      → owns next (normalize_addr v) ≡ true
  owns-next v d full first =
      let wanted = desires-first_with v d ds full first in
      let a = normalize_addr v in
      let by_entry =
        any-append (λ e. is_owned e.comment && entry_addr e == a) kept
          (listed_all router (reconcile ds es).to_add) in
      let of_kept = owns-kept ds (is_named (reconcile ds es).to_remove) es a wanted exact in
      elim (Bool-cases (owns es a)) [
        | inl old ↦ ground (arith, by_entry, of_kept)
        | inr new ↦ ground (
          arith,
          by_entry,
          owns-listed router v (encode_comment d) (reconcile ds es).to_add
              (ground (arith, lookup-reconcile_to_add v ds es)) (is_owned-encode_comment d),
        )
      ]

  to_add-next : (reconcile ds next).to_add ≡ []
  to_add-next = nil-of-lookup (reconcile ds next).to_add λ v.
      elim (Option-cases (first_with v ds)) [
        | inl absent ↦ ground (arith, lookup-reconcile_to_add v ds next)
        | inr (d, first) ↦ ground (arith, lookup-reconcile_to_add v ds next, owns-next v d)
      ]

  to_remove-next : (reconcile ds next).to_remove ≡ []
  to_remove-next =
      nil-of-absent (reconcile ds next).to_remove
        λ x. any-reconcile_to_remove x ds next ∙ removable-le-unwanted ds x next unwanted-next

  -- Where every entry has an id of its own and no two owned entries have one address, carrying
  -- out a diff leaves nothing to do: the next diff against the router's list has no change.
  pub changes-carried_out : changes (reconcile ds (carried_out router es (reconcile ds es))) ≡ 0
  unfolding changes
  changes-carried_out = rw (to_add-next, to_remove-next) (omega arith)
