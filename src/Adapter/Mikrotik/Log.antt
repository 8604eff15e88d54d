-- ===== src/Adapter/Mikrotik/Log.antt =====
-- The push log of `apply` and its counters.
use protek.Prelude.{
  ◌≡◌, refl, sym, subst, ap, ◌∙◌, Str, Option, none, some, Bool, true, List, [], ◌∷◌, ◌++◌,
  Bool-cases, inl, inr, map,
}
use mathlib.Core.List.{append-nil, append_assoc}
use protek.Prelude.Dict.{Dict}
use protek.Prelude.Text.{lit}
use protek.Adapter.{
  Tally, Reply, no_tally, add_row, remove_row, subjects, Balanced, add_row-Balanced,
  remove_row-Balanced, subjects-append,
}
use protek.Adapter.Mikrotik.{
  Router, Target, v4_path, v6_path, path_for, split_id, usable, add_one, remove_one, add_all,
  remove_all, apply,
}

abbrev add_op : Str → Str × Str
add_op addr = (lit "add", addr)

abbrev remove_op : Str → Str × Str
remove_op mt_id = (lit "remove", mt_id)

abbrev pub added : Dict Str Str → List (Str × Str)
added = map (λ entry. add_op entry.0)

abbrev pub removed : List Str → List (Str × Str)
removed = map remove_op

-- The tally is balanced and its log is about the given operations, in their order.
unfoldable pub Tells : List (Str × Str) → Tally → Type 0
Tells subs t = Balanced t × (subjects t.push_log ≡ subs)

start : Tells [] no_tally
unfolding Tells Balanced
start = ((refl, refl), refl)

unfoldable pub Accounted : {S : Type 0} → List (Str × Str) → Option (Tally × S) → Type 0
Accounted subs none = ⊥
Accounted subs (some st) = Tells subs st.0

-- One more row, about the next operation.
module _ (subs : List (Str × Str)) (t : Tally) (h : Tells subs t) where
  Tells-add_row : (addr : Str) (r : Reply) → Tells (subs ++ add_op addr ∷ []) (add_row addr r t)
  unfolding Tells add_row
  Tells-add_row addr r = (
    add_row-Balanced addr r t h.0,
    subjects-append t.push_log _ ∙ ap (λ l. l ++ add_op addr ∷ []) h.1,
  )

  Tells-remove_row :
      (mt_id : Str) (r : Reply) → Tells (subs ++ remove_op mt_id ∷ []) (remove_row mt_id r t)
  unfolding Tells remove_row
  Tells-remove_row mt_id r = (
    remove_row-Balanced mt_id r t h.0,
    subjects-append t.push_log _ ∙ ap (λ l. l ++ remove_op mt_id ∷ []) h.1,
  )

-- The list of operations grows by one on its left side.
Tells-shift :
    (subs : List (Str × Str)) (op : Str × Str) (ops : List (Str × Str)) (t : Tally)
    → Tells ((subs ++ op ∷ []) ++ ops) t
    → Tells (subs ++ op ∷ ops) t
Tells-shift subs op ops t h = subst (λ l. Tells l t) (append_assoc subs (op ∷ []) ops) h

Tells-stop : (subs : List (Str × Str)) (t : Tally) → Tells subs t → Tells (subs ++ []) t
Tells-stop subs t h = subst (λ l. Tells l t) (sym (append-nil subs)) h

module _ {S : Type 0} (api : Router S) (t : Target) (has_v6 : Bool) where
  Tells-add_one :
      (subs : List (Str × Str)) (addr comment : Str) (st : Tally × S)
      → Tells subs st.0
      → Tells (subs ++ add_op addr ∷ []) (add_one api t has_v6 addr comment st).0
  unfolding add_one
  Tells-add_one subs addr comment st h = elim (Bool-cases (usable has_v6 (path_for t addr))) [
    | inl yes6 ↦ rw yes6 (Tells-add_row subs st.0 h addr _)
    | inr no6 ↦ rw no6 (Tells-add_row subs st.0 h addr _)
  ]

  Tells-add_all :
      (to_add : Dict Str Str) (subs : List (Str × Str)) (st : Tally × S)
      → Tells subs st.0
      → Tells (subs ++ added to_add) (add_all api t has_v6 to_add st).0
  unfolding add_all
  Tells-add_all [] subs st h = Tells-stop subs st.0 h
  Tells-add_all ((addr, comment) ∷ to_add) subs st h =
      Tells-shift subs (add_op addr) (added to_add) _ (
        Tells-add_all to_add (subs ++ add_op addr ∷ []) (add_one api t has_v6 addr comment st)
          (Tells-add_one subs addr comment st h))

  Tells-remove_one :
      (subs : List (Str × Str)) (mt_id : Str) (st : Tally × S)
      → Tells subs st.0
      → Tells (subs ++ remove_op mt_id ∷ []) (remove_one api has_v6 mt_id st).0
  unfolding remove_one
  Tells-remove_one subs mt_id st h = elim (Bool-cases (usable has_v6 (split_id mt_id).0)) [
    | inl yes6 ↦ rw yes6 (Tells-remove_row subs st.0 h mt_id _)
    | inr no6 ↦ rw no6 (Tells-remove_row subs st.0 h mt_id _)
  ]

  Tells-remove_all :
      (ids : List Str) (subs : List (Str × Str)) (st : Tally × S)
      → Tells subs st.0
      → Tells (subs ++ removed ids) (remove_all api has_v6 ids st).0
  unfolding remove_all
  Tells-remove_all [] subs st h = Tells-stop subs st.0 h
  Tells-remove_all (mt_id ∷ ids) subs st h = Tells-shift subs (remove_op mt_id) (removed ids) _ (
      Tells-remove_all ids (subs ++ remove_op mt_id ∷ []) (remove_one api has_v6 mt_id st)
        (Tells-remove_one subs mt_id st h))

-- A configured adapter that gets its connection and the IPv4 list returns. Its log has one row for
-- each addition and then for each removal, in their order, whatever the router answers; the
-- successes that it counts are the rows that report one, and its errors are the other rows.
pub apply-Accounted :
    {S : Type 0} (api : Router S) (t : Target) (to_add : Dict Str Str) (ids : List Str) (s u : S)
    → t.configured ≡ true
    → api.connect s ≡ some u
    → api.has_resource v4_path u ≡ true
    → Accounted (added to_add ++ removed ids) (apply api t to_add ids s)
unfolding apply Accounted
apply-Accounted api t to_add ids s u on up v4 = rw on (
    rw up (
      rw v4 (
        Tells-remove_all api t (api.has_resource v6_path u) ids (added to_add) _
          (Tells-add_all api t (api.has_resource v6_path u) to_add [] (no_tally, u) start))))
