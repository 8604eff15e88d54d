-- ===== src/Adapter/Mikrotik/Family.antt =====
-- Which list of the router an operation of `apply` reaches.
use protek.Prelude.{
  ◌≡◌, Str, Option, none, some, Bool, true, Bool-cases, inl, inr, List, [], ◌∷◌, Option-cases,
}
use protek.Prelude.Dict.{Dict}
use protek.Adapter.{Tally, no_tally}
use protek.Adapter.Mikrotik.{
  Router, Target, v4_path, v6_path, path_for, split_id, usable, add_one, remove_one, add_all,
  remove_all, apply,
}

-- What holds of the router after `apply`, if it returns.
unfoldable pub After : {S : Type 0} → (S → Type 0) → Option (Tally × S) → Type 0
After Inv none = Unit
After Inv (some st) = Inv st.1

module _ {S : Type 0} (api : Router S) (t : Target) (Inv : S → Type 0) where
  -- A write of an address to the list of its family, where the router has it.
  abbrev pub Adds : Bool → Type 0
  Adds has_v6 =
      (addr comment : Str) (s : S)
      → usable has_v6 (path_for t addr) ≡ true
      → Inv s
      → Inv (api.add (path_for t addr) t.list_name addr comment s).1

  -- A removal of an id from the list of its mark, where the router has it.
  abbrev pub Removes : Bool → Type 0
  Removes has_v6 =
      (mt_id : Str) (s : S)
      → usable has_v6 (split_id mt_id).0 ≡ true
      → Inv s
      → Inv (api.remove (split_id mt_id).0 (split_id mt_id).1 s).1

  module _ (has_v6 : Bool) where
    add_one-keeps :
        (adds : Adds has_v6) (addr comment : Str) (st : Tally × S)
        → Inv st.1
        → Inv (add_one api t has_v6 addr comment st).1
    unfolding add_one
    add_one-keeps adds addr comment st h = elim (Bool-cases (usable has_v6 (path_for t addr))) [
      | inl here ↦ rw here (adds addr comment st.1 here h)
      | inr absent ↦ rw absent h
    ]

    add_all-keeps :
        (adds : Adds has_v6) (to_add : Dict Str Str) (st : Tally × S)
        → Inv st.1
        → Inv (add_all api t has_v6 to_add st).1
    unfolding add_all
    add_all-keeps adds [] st h = h
    add_all-keeps adds ((addr, comment) ∷ to_add) st h =
        add_all-keeps adds to_add (add_one api t has_v6 addr comment st)
          (add_one-keeps adds addr comment st h)

    remove_one-keeps :
        (removes : Removes has_v6) (mt_id : Str) (st : Tally × S)
        → Inv st.1
        → Inv (remove_one api has_v6 mt_id st).1
    unfolding remove_one
    remove_one-keeps removes mt_id st h = elim (Bool-cases (usable has_v6 (split_id mt_id).0)) [
      | inl here ↦ rw here (removes mt_id st.1 here h)
      | inr absent ↦ rw absent h
    ]

    remove_all-keeps :
        (removes : Removes has_v6) (ids : List Str) (st : Tally × S)
        → Inv st.1
        → Inv (remove_all api has_v6 ids st).1
    unfolding remove_all
    remove_all-keeps removes [] st h = h
    remove_all-keeps removes (mt_id ∷ ids) st h =
        remove_all-keeps removes ids (remove_one api has_v6 mt_id st)
          (remove_one-keeps removes mt_id st h)

-- `apply` changes the router in two ways only: it adds an address to the list of its own family,
-- under the adapter's list name, and it removes an id from the list of its mark; neither reaches
-- the IPv6 list of a router that has none. So a property of the router that a connection and
-- these writes keep holds after `apply` when it held before, whatever the router answers.
pub apply-keeps :
    {S : Type 0} (api : Router S) (t : Target) (Inv : S → Type 0) (to_add : Dict Str Str)
    (ids : List Str) (s : S)
    → ((u : S) → Inv s → api.connect s ≡ some u → Inv u)
    → ((u : S) → Adds api t Inv (api.has_resource v6_path u))
    → ((u : S) → Removes api t Inv (api.has_resource v6_path u))
    → Inv s
    → After Inv (apply api t to_add ids s)
unfolding apply After
apply-keeps api t Inv to_add ids s connects adds removes h = elim (Bool-cases t.configured) [
  | inr off ↦ rw off h
  | inl on ↦ elim (Option-cases (api.connect s)) [
    | inl refused ↦ rw on (rw refused tt)
    | inr (u, up) ↦ elim (Bool-cases (api.has_resource v4_path u)) [
      | inr no4 ↦ rw on (rw up (rw no4 tt))
      | inl yes4 ↦ rw on (
          rw up (
            rw yes4 (
              remove_all-keeps api t Inv (api.has_resource v6_path u) (removes u) ids _ (
                add_all-keeps api t Inv (api.has_resource v6_path u) (adds u) to_add (no_tally, u)
                  (connects u h up)))))
    ]
  ]
]
