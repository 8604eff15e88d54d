-- ===== src/Reconcile/Tests.antt =====
-- reconcile.py on concrete decisions and entries.
use protek.Prelude.{any, ◌==◌, str_eq, ◌≡◌, refl, ap, none, some, List, [], ◌∷◌, Str}
use protek.Prelude.Dict.{lookup, contains, insert, set_default}
use protek.Prelude.Text.{lit, strip, lower, starts_with, replace_char, or_text-nil}
use protek.Prelude.Decimal.{show_nat, read_nat}
use protek.Prelude.Equality.{str_beq}
use protek.Reconcile.Comment.{
  decode_comment, Decision, sanitize, comment_source, comment_scenario, comment_lapi_id,
  encode_comment, is_owned,
}
use protek.Reconcile.{
  MtEntry, changes, normalize_addr, value_of, collect_desired, entry_addr, collect_owned, add_step,
  add_loop, entry_id, append_id, remove_step, remove_loop, desired_norm_of, reconcile,
}
use protek.Reconcile.RoundTrip.{decode_comment-encode_comment}
use protek.Reconcile.Additions.{lookup-reconcile_to_add}
use protek.Reconcile.Removals.{removable, any-reconcile_to_remove}
use protek.Reconcile.Convergence.{Router, carried_out, IsRegular, changes-carried_out}

abbrev ban : Str → Decision
ban v = record {
  value = some v;
  scope = some (lit "Ip");
  origin = some (lit "crowdsec");
  origin_source = some (lit "vps");
  scenario = some (lit "crowdsecurity/ssh:bf");
  lapi_id = some 42;
  id = none;
}

abbrev entry : Str → Str → Str → MtEntry
entry a c i = record { address = some a; comment = some c; id = none; dot_id = some i }

abbrev listed_on_router : List MtEntry
listed_on_router =
    entry (lit "1.1.1.1/32") (lit "protek:vps:x:1") (lit "*1")
    ∷ entry (lit "2.2.2.2") (lit "protek:vps:x:2") (lit "*2")
    ∷ entry (lit "3.3.3.3") (lit "by hand") (lit "*3")
    ∷ []

abbrev bans : List Decision
bans = ban (lit " 1.1.1.1 ") ∷ ban (lit "9.9.9.9") ∷ ban (lit "9.9.9.9") ∷ []

encode-ban : encode_comment (ban (lit "9.9.9.9")) ≡ lit "protek:vps:crowdsecurity/ssh_bf:42"
unfolding encode_comment comment_source comment_scenario comment_lapi_id sanitize strip replace_char
    show_nat
encode-ban = refl

reconcile-bans : reconcile bans listed_on_router ≡ record {
  to_add = (lit "9.9.9.9", lit "protek:vps:crowdsecurity/ssh_bf:42") ∷ [];
  to_remove = lit "*2" ∷ [];
  unchanged = 1;
  foreign_kept = 1;
}
unfolding reconcile collect_desired collect_owned add_step add_loop remove_step remove_loop
    desired_norm_of entry_addr entry_id append_id normalize_addr value_of encode_comment
    comment_source comment_scenario comment_lapi_id sanitize strip replace_char show_nat is_owned
    str_beq lookup contains insert set_default starts_with
reconcile-bans = refl

-- A router that lists what it is given.
abbrev echo : Router
unfolding entry_addr
echo = record {
  listed = λ a c. record { address = some a; comment = some c; id = some a; dot_id = none };
  listed_comment = λ a c. refl;
  listed_addr = λ a c. ap normalize_addr (or_text-nil a);
}

listed-IsRegular : IsRegular listed_on_router
unfolding entry_id is_owned entry_addr normalize_addr strip lower starts_with str_beq
listed-IsRegular = (
  (lit "*1", refl, refl),
  refl,
  (((lit "*2", refl, refl), refl, (((lit "*3", refl, refl), refl, tt)))),
)

changes-carried_out_example :
    changes (reconcile bans (carried_out echo listed_on_router (reconcile bans listed_on_router)))
    ≡ 0
changes-carried_out_example = changes-carried_out echo bans listed_on_router listed-IsRegular

any-reconcile_to_remove_example :
    any (λ i. i == lit "*2") (reconcile bans listed_on_router).to_remove
    ≡ removable bans (lit "*2") listed_on_router
any-reconcile_to_remove_example = any-reconcile_to_remove (lit "*2") bans listed_on_router

lookup-reconcile_to_add_example :
    lookup (lit "9.9.9.9") (reconcile bans listed_on_router).to_add
    ≡ some (encode_comment (ban (lit "9.9.9.9")))
unfolding value_of strip str_beq normalize_addr entry_addr is_owned starts_with lower
lookup-reconcile_to_add_example = lookup-reconcile_to_add (lit "9.9.9.9") bans listed_on_router

decode_comment-encode_comment_example :
    (decode_comment (encode_comment (ban (lit "9.9.9.9")))
      ≡ some (record {
        origin_source = comment_source (ban (lit "9.9.9.9"));
        scenario = comment_scenario (ban (lit "9.9.9.9"));
        lapi_id = comment_lapi_id (ban (lit "9.9.9.9"));
      }))
    × (read_nat (comment_lapi_id (ban (lit "9.9.9.9"))) ≡ some 42)
decode_comment-encode_comment_example = decode_comment-encode_comment (ban (lit "9.9.9.9"))
