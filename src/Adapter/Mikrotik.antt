-- ===== src/Adapter/Mikrotik.antt =====
-- bouncers/mikrotik_adapter.py (and mikrotik_db_adapter.py, which repeats it): the address lists of
-- a router over its API, with get_address_list of mikrotik.py. The router and the library that
-- talks to it are a parameter with a state of their own.
pub mod Removal
pub mod Log
pub mod Family
pub mod Cycle
mod Tests
use protek.Prelude.{
  ℕ, Str, Option, none, some, Bool, true, false, ◌||◌, List, [], ◌∷◌, ◌++◌, ◌==◌, str_eq, nat_eq,
  if◌then◌else◌, take, drop, select, map,
}
use protek.Prelude.Dict.{Dict}
use protek.Prelude.Text.{lit, lower, strip, starts_with, contains_text, is_empty, or_default}
use protek.Reconcile.{MtEntry}
use protek.Adapter.{Tally, Reply, no_tally, add_row, remove_row}
use Reply.{done, idempotent, refused}

abbrev pub v4_path : Str
v4_path = lit "/ip/firewall/address-list"

abbrev pub v6_path : Str
v6_path = lit "/ipv6/firewall/address-list"

-- An entry as the library returns it; a missing key is `none`.
pub record RawEntry : Type 0 where
  pub address : Option Str
  pub comment : Option Str
  pub id : Option Str
  pub dot_id : Option Str
  pub numbers : Option Str
  pub in_list : Option Str

-- `res.get(list=…)`
pub data Answer : Type 0 where
  entries : List RawEntry → Answer
  type_error : Answer
  raises : Answer

-- The router behind the library. An operation answers the text of its exception, if it raises.
pub record Router (S : Type 0) : Type 1 where
  pub connect : S → Option S
  pub has_resource : Str → S → Bool
  pub get : Str → Str → S → Answer
  pub get_all : Str → S → Option (List RawEntry)
  pub add : Str → Str → Str → Str → S → Option Str × S
  pub remove : Str → Str → S → Option Str × S

-- The adapter: whether host, user and password are set, the list, and the version of an address as
-- ipaddress parses it.
pub record Target : Type 0 where
  pub configured : Bool
  pub list_name : Str
  pub version_of : Str → Option ℕ

-- `_is_ipv6`
unfoldable pub is_ipv6 : (Str → Option ℕ) → Str → Bool
is_ipv6 version_of addr = elim (version_of (strip addr)) [ none ↦ false | some v ↦ v == 6 ]

-- `_split_id`
unfoldable pub split_id : Str → Str × Str
split_id prefixed_id =
    if starts_with (lit "v6:") prefixed_id
    then (v6_path, drop 3 prefixed_id)
    else if starts_with (lit "v4:") prefixed_id
    then (v4_path, drop 3 prefixed_id)
    else (v4_path, prefixed_id)

-- `e.get(".id") or e.get("id") or e.get("numbers") or ""`
unfoldable pub raw_id : RawEntry → Str
raw_id e = or_default e.dot_id (or_default e.id (or_default e.numbers []))

-- An entry with its `.id` marked by the family, as the diff reads it.
unfoldable pub tag_entry : Str → RawEntry → MtEntry
unfolding raw_id
tag_entry family e = record {
  address = e.address;
  comment = e.comment;
  id = e.id;
  dot_id = if is_empty (raw_id e) then e.dot_id else some (family ++ lit ":" ++ raw_id e);
}

abbrev is_in : Str → RawEntry → Bool
is_in list_name e = elim e.in_list [ none ↦ false | some l ↦ l == list_name ]

-- The entries of one family: a resource that cannot be read has none.
unfoldable pub family_entries :
    {S : Type 0} → Router S → Str → S → (family : Str) → (path : Str) → List MtEntry
family_entries api list_name s family path =
    if api.has_resource path s
    then elim (api.get path list_name s) [
      | entries es ↦ map (tag_entry family) es
      | type_error ↦ elim (api.get_all path s) [
        | none ↦ []
        | some es ↦ map (tag_entry family) (select (is_in list_name) es)
      ]
      | raises ↦ []
    ]
    else []

-- `get_address_list`; `none` where it raises.
unfoldable pub get_address_list : {S : Type 0} → Router S → Target → S → Option (List MtEntry)
get_address_list api t s =
    if t.configured
    then elim (api.connect s) [
      | none ↦ none
      | some u ↦ some (
          family_entries api t.list_name u (lit "v4") v4_path
          ++ family_entries api t.list_name u (lit "v6") v6_path)
    ]
    else none

unfoldable pub snapshot : {S : Type 0} → Router S → Target → S → List MtEntry
snapshot api t s =
    if t.configured
    then elim (get_address_list api t s) [ none ↦ [] | some current ↦ current ]
    else []

-- An addition that the router answers by an exception.
unfoldable pub add_reply : Option Str → Reply
unfolding contains_text lower
add_reply none = done
add_reply (some e) =
    let msg = lower e in
    if contains_text (lit "already have such entry") msg
      || contains_text (lit "duplicate") msg
      || contains_text (lit "already exists") msg
    then idempotent
    else refused (take 300 e)

unfoldable pub remove_reply : Option Str → Reply
unfolding contains_text lower
remove_reply none = done
remove_reply (some e) =
    let msg = lower e in
    if contains_text (lit "no such item") msg || contains_text (lit "not found") msg
    then idempotent
    else refused (take 300 e)

abbrev pub no_v6 : Reply
no_v6 = refused (lit "ipv6 address-list resource unavailable")

-- `res_v6 if … else res_v4`, where `res_v6` is None without the resource
abbrev pub usable : Bool → Str → Bool
usable has_v6 path = if path == v6_path then has_v6 else true

unfoldable pub path_for : Target → Str → Str
path_for t addr = if is_ipv6 t.version_of addr then v6_path else v4_path

unfoldable pub add_one : {S : Type 0} → Router S → Target → Bool → Str → Str → Tally × S → Tally × S
add_one api t has_v6 addr comment st =
    let path = path_for t addr in
    let sent = api.add path t.list_name addr comment st.1 in
    if usable has_v6 path
    then (add_row addr (add_reply sent.0) st.0, sent.1)
    else (add_row addr no_v6 st.0, st.1)

unfoldable pub remove_one : {S : Type 0} → Router S → Bool → Str → Tally × S → Tally × S
remove_one api has_v6 mt_id st =
    let (path, real_id) = split_id mt_id in
    let sent = api.remove path real_id st.1 in
    if usable has_v6 path
    then (remove_row mt_id (remove_reply sent.0) st.0, sent.1)
    else (remove_row mt_id no_v6 st.0, st.1)

unfoldable pub add_all :
    {S : Type 0} → Router S → Target → Bool → Dict Str Str → Tally × S → Tally × S
add_all api t has_v6 [] st = st
add_all api t has_v6 ((addr, comment) ∷ to_add) st =
    add_all api t has_v6 to_add (add_one api t has_v6 addr comment st)

unfoldable pub remove_all : {S : Type 0} → Router S → Bool → List Str → Tally × S → Tally × S
remove_all api has_v6 [] st = st
remove_all api has_v6 (mt_id ∷ ids) st = remove_all api has_v6 ids (remove_one api has_v6 mt_id st)

-- `apply`; `none` where it raises: no connection, or no IPv4 list.
unfoldable pub apply :
    {S : Type 0} → Router S → Target → Dict Str Str → List Str → S → Option (Tally × S)
apply api t to_add to_remove_ids s =
    if t.configured
    then elim (api.connect s) [
      | none ↦ none
      | some u ↦
          let has_v6 = api.has_resource v6_path u in
          if api.has_resource v4_path u
          then some
              (remove_all api has_v6 to_remove_ids (add_all api t has_v6 to_add (no_tally, u)))
          else none
    ]
    else some (no_tally, s)
