-- ===== src/Adapter/Mikrotik/Removal.antt =====
-- The way of an entry's id from the snapshot through the diff back to the router.
use protek.Prelude.{
  ◌≡◌, refl, inl, inr, arith, Str, Option, none, some, Bool, true, false, [], ◌∷◌, ◌++◌, Bool-cases,
  if◌then◌else◌,
}
use protek.Prelude.Text.{lit, starts_with, is_empty, or_default}
use protek.Reconcile.{entry_id}
use protek.Adapter.Mikrotik.{RawEntry, tag_entry, raw_id, split_id, v4_path, v6_path}

-- The mark and the path of a family: true is IPv6.
abbrev pub mark : Bool → Str
mark v6 = if v6 then lit "v6" else lit "v4"

abbrev pub list_of : Bool → Str
list_of v6 = if v6 then v6_path else v4_path

abbrev pub bare_id : RawEntry → Str
bare_id e = or_default e.id []

-- Where the removal of an entry is sent, and with which id.
unfoldable pub removal_of : Bool → RawEntry → Option (Str × Str)
removal_of v6 e = elim (entry_id (tag_entry (mark v6) e)) [
  | none ↦ none
  | some i ↦ some (split_id i)
]

abbrev pub unmarked : Str → Bool
unmarked s =
    if starts_with (lit "v6:") s then false else if starts_with (lit "v4:") s then false else true

split_id-mark : (v6 : Bool) (raw : Str) → split_id (mark v6 ++ lit ":" ++ raw) ≡ (list_of v6, raw)
unfolding split_id starts_with
split_id-mark true raw = refl
split_id-mark false raw = refl

split_id-unmarked : (s : Str) → unmarked s ≡ true → split_id s ≡ (v4_path, s)
unfolding split_id
split_id-unmarked s h = ground arith

-- The id that the diff reads, when the snapshot marked the entry.
entry_id-tag_entry :
    (family : Str) (e : RawEntry)
    → is_empty (raw_id e) ≡ false
    → ¬ (family ≡ [])
    → entry_id (tag_entry family e)
      ≡ some (if is_empty (bare_id e) then family ++ lit ":" ++ raw_id e else bare_id e)
unfolding entry_id tag_entry
entry_id-tag_entry [] e filled h = elim (h refl) [ ]
entry_id-tag_entry (c ∷ cs) e filled _ = elim (Bool-cases (is_empty (bare_id e))) [
  | inl h ↦ ground (arith, filled, h)
  | inr h ↦ ground (arith, filled, h)
]

mark_filled : (v6 : Bool) → ¬ (mark v6 ≡ [])
mark_filled true = ground arith
mark_filled false = ground arith

-- The removal of an entry with a RouterOS id is sent to the list that the entry was read from,
-- with its id there, if the library gave no `id` key (or an empty one). With such a key, which the
-- diff prefers to the marked `.id`, the key is sent to the IPv4 list, also for an IPv6 entry.
-- The condition is that the key itself does not start like a mark.
pub split_id-entry_id :
    (v6 : Bool) (e : RawEntry)
    → is_empty (raw_id e) ≡ false
    → unmarked (bare_id e) ≡ true
    → removal_of v6 e
      ≡ some (if is_empty (bare_id e) then (list_of v6, raw_id e) else (v4_path, bare_id e))
unfolding removal_of
split_id-entry_id v6 e filled plain =
    rw (entry_id-tag_entry (mark v6) e filled (mark_filled v6), removal_of)
      (ground (arith, split_id-mark v6 (raw_id e), split_id-unmarked (bare_id e) plain))
