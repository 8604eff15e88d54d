-- ===== src/Blocking/Tests.antt =====
-- blocking.py on the rules of one router.
use protek.Prelude.{◌≡◌, refl, none, some, true, false, ◌||◌, [], ◌∷◌, str_eq}
use protek.Prelude.Equality.{str_beq}
use protek.Prelude.Dict.{lookup}
use protek.Prelude.Text.{lit}
use protek.Blocking.{
  Rule, analyze_family, rules_or_none, is_in, block_actions, non_matchers, truthy, is_enabled,
  is_unconditional_accept, drops_list, chain_of, blocking,
}
use protek.Blocking.Analyze.{is_blocking, Result, not_read}
use protek.Blocking.Walk.{meets_drop, is_blocking-analyze_family}

abbrev drop_rule : Rule
drop_rule =
    (lit "chain", lit "input")
    ∷ (lit "action", lit "drop")
    ∷ (lit "src-address-list", lit "crowdsec")
    ∷ []

abbrev accept_rule : Rule
accept_rule = (lit "chain", lit "input") ∷ (lit "action", lit "accept") ∷ []

is_blocking-analyze_family_example :
    is_blocking (analyze_family (lit "crowdsec") (some (accept_rule ∷ drop_rule ∷ [])) none).status
    ≡ (meets_drop (lit "crowdsec") (lit "prerouting") (rules_or_none none)
        || meets_drop (lit "crowdsec") (lit "input") (accept_rule ∷ drop_rule ∷ [])
        || meets_drop (lit "crowdsec") (lit "forward") (accept_rule ∷ drop_rule ∷ []))
is_blocking-analyze_family_example =
    is_blocking-analyze_family (lit "crowdsec") (some (accept_rule ∷ drop_rule ∷ [])) none

-- The accept above the drop hides it, the other order does not.
hidden-drop : meets_drop (lit "crowdsec") (lit "input") (accept_rule ∷ drop_rule ∷ []) ≡ false
unfolding chain_of drops_list is_enabled is_unconditional_accept is_in block_actions non_matchers
    truthy lookup str_beq
hidden-drop = refl

reached-drop : meets_drop (lit "crowdsec") (lit "input") (drop_rule ∷ accept_rule ∷ []) ≡ true
unfolding chain_of drops_list is_enabled is_unconditional_accept is_in block_actions non_matchers
    truthy lookup str_beq
reached-drop = refl

abbrev unread : Result
unread = record {
  target = lit "edge";
  kind = lit "mikrotik";
  list_name = lit "crowdsec";
  verdict = not_read;
}

abbrev safe : Result
safe = record unread { verdict = record not_read { status = blocking } }
