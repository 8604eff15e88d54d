-- ===== src/Reconcile.antt =====
-- reconcile.py, the diff between the desired decisions and the entries of an address list.
pub mod Comment
pub mod RoundTrip
pub mod Additions
pub mod Removals
pub mod Convergence
pub mod Counts
mod Tests
use protek.Prelude.{
  ℕ, ◌+◌, Str, Option, none, some, Bool, true, false, ◌||◌, List, [], ◌∷◌, ◌++◌, ◌==◌, str_eq,
  if◌then◌else◌, any, length, map,
}
use protek.Prelude.Dict.{Dict, contains, insert, set_default}
use protek.Prelude.Text.{lit, strip, lower, ends_with, drop_last, or_default, is_empty}
use Comment.{Decision, encode_comment, is_owned}

-- A raw entry of /ip/firewall/address-list; a missing key and None are `none`.
pub record MtEntry : Type 0 where
  pub address : Option Str
  pub comment : Option Str
  pub id : Option Str
  pub dot_id : Option Str

pub record ReconcileDiff : Type 0 where
  pub to_add : Dict Str Str
  pub to_remove : List Str
  pub unchanged : ℕ
  pub foreign_kept : ℕ

unfoldable pub changes : ReconcileDiff → ℕ
changes diff = length diff.to_add + length diff.to_remove

drop_suffix : Str → ℕ → Str → Str
unfolding ends_with drop_last
drop_suffix suffix n a = if ends_with suffix a then drop_last n a else a

-- `_normalize_addr`
unfoldable pub normalize_addr : Str → Str
unfolding drop_suffix strip lower
normalize_addr addr = drop_suffix (lit "/128") 4 (drop_suffix (lit "/32") 3 (lower (strip addr)))

-- `(d.get("value") or "").strip()`
unfoldable pub value_of : Decision → Str
unfolding strip
value_of d = strip (or_default d.value [])

-- The first loop: the first decision for a value wins.
unfoldable pub collect_desired : List Decision → Dict Str Decision → Dict Str Decision
collect_desired [] desired = desired
collect_desired (d ∷ ds) desired =
    let val = value_of d in
    collect_desired ds (if is_empty val then desired else set_default val d desired)

unfoldable pub entry_addr : MtEntry → Str
unfolding normalize_addr
entry_addr e = normalize_addr (or_default e.address [])

abbrev pub Owned : Type 0
Owned = Dict Str MtEntry

-- The second loop: the last owned entry for an address wins, the others are counted.
unfoldable pub collect_owned : List MtEntry → Owned → ℕ → Owned × ℕ
collect_owned [] owned foreign_kept = (owned, foreign_kept)
collect_owned (e ∷ es) owned foreign_kept =
    let mine = is_owned e.comment in
    collect_owned es (if mine then insert (entry_addr e) e owned else owned)
      (if mine then foreign_kept else foreign_kept + 1)

-- The third loop: desired addresses that no owned entry has.
unfoldable pub add_step : Owned → Str → Decision → ReconcileDiff → ReconcileDiff
add_step owned addr d diff =
    if contains (normalize_addr addr) owned
    then record diff { unchanged = diff.unchanged + 1 }
    else record diff { to_add = diff.to_add ++ (addr, encode_comment d) ∷ [] }

unfoldable pub add_loop : Owned → Dict Str Decision → ReconcileDiff → ReconcileDiff
add_loop owned [] diff = diff
add_loop owned ((addr, d) ∷ desired) diff = add_loop owned desired (add_step owned addr d diff)

-- `e.get("id") or e.get(".id")`
unfoldable pub entry_id : MtEntry → Option Str
entry_id e =
    let eid = or_default e.id (or_default e.dot_id []) in if is_empty eid then none else some eid

unfoldable pub append_id : Option Str → List Str → List Str
append_id none ids = ids
append_id (some eid) ids = ids ++ eid ∷ []

-- The fourth loop: owned entries whose address is no longer desired.
unfoldable pub remove_step : List Str → Str → MtEntry → ReconcileDiff → ReconcileDiff
remove_step desired_norm addr e diff =
    if any (λ a. a == addr) desired_norm
    then diff
    else record diff { to_remove = append_id (entry_id e) diff.to_remove }

unfoldable pub remove_loop : List Str → Owned → ReconcileDiff → ReconcileDiff
remove_loop desired_norm [] diff = diff
remove_loop desired_norm ((addr, e) ∷ owned) diff =
    remove_loop desired_norm owned (remove_step desired_norm addr e diff)

unfoldable pub desired_norm_of : Dict Str Decision → List Str
desired_norm_of desired = map (λ entry. normalize_addr entry.0) desired

unfoldable pub reconcile : List Decision → List MtEntry → ReconcileDiff
reconcile desired_decisions current_mt_entries =
    let desired = collect_desired desired_decisions [] in
    let (owned, foreign_kept) = collect_owned current_mt_entries [] 0 in
    let diff : ReconcileDiff = record {
      to_add = [];
      to_remove = [];
      unchanged = 0;
      foreign_kept = foreign_kept;
    } in
    remove_loop (desired_norm_of desired) owned (add_loop owned desired diff)
