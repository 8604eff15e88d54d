-- ===== src/Ha/Roles.antt =====
-- The role over any history of promotions and demotions, and what the audit log says of it.
use protek.Prelude.{◌≡◌, refl, ap, sym, ◌∙◌, Str, Option, some, true, List, [], ◌∷◌, ◌++◌, str_eq}
use mathlib.Core.List.{append_assoc, append-nil}
use protek.Prelude.Dict.{Dict, lookup, lookup-insert}
use protek.Prelude.Text.{lit, lower, strip, lstrip, is_space, or_default}
use protek.Prelude.Equality.{str_beq}
use protek.Siem.Syslog.{env_str}
use protek.Ha.{
  AuditRow, Host, primary, standby, is_valid_role, resolve, role, set_role, write_audit,
  change_role, promote, demote,
}

-- A promotion or a demotion, by its actor, with the reason and the time.
pub data Change : Type 0 where
  promotion : (now actor reason : Str) → Change
  demotion : (now actor reason : Str) → Change

module _ (environ : Str → Option Str) where
  unfoldable pub step : Change → Host → Host
  step (promotion now actor reason) h = promote true environ now actor reason h
  step (demotion now actor reason) h = demote true environ now actor reason h

  unfoldable pub run : List Change → Host → Host
  run [] h = h
  run (c ∷ cs) h = run cs (step c h)

abbrev pub row_of : Str → Change → AuditRow
row_of old (promotion now actor reason) = record {
  action = lit "ha.promote";
  actor = actor;
  reason = reason;
  old = old;
  new = primary;
}
row_of old (demotion now actor reason) = record {
  action = lit "ha.demote";
  actor = actor;
  reason = reason;
  old = old;
  new = standby;
}

-- The rows of a history that begins in a role: each begins where the one before it ended.
unfoldable pub rows_of : Str → List Change → List AuditRow
rows_of old [] = []
rows_of old (c ∷ cs) = row_of old c ∷ rows_of (row_of old c).new cs

-- The role at its end.
unfoldable pub role_after : Str → List Change → Str
role_after old [] = old
role_after old (c ∷ cs) = role_after (row_of old c).new cs

module _ (environ : Str → Option Str) where
  lookup-set_role :
      (new now actor reason : Str) (d : Dict Str Str)
      → lookup (lit "ha.role") (set_role new now actor reason d) ≡ some new
  unfolding set_role str_beq
  lookup-set_role new now actor reason d =
      lookup-insert (lit "ha.last_role_change_reason") (lit "ha.role") _ _
      ∙ lookup-insert (lit "ha.last_role_change_actor") (lit "ha.role") _ _
      ∙ lookup-insert (lit "ha.last_role_change_at") (lit "ha.role") _ _
      ∙ lookup-insert (lit "ha.role") (lit "ha.role") new d

  role-step :
      (c : Change) (h : Host) → role environ (step environ c h) ≡ (row_of (role environ h) c).new
  unfolding step promote demote change_role role resolve is_valid_role lower strip lstrip is_space
      str_beq
  role-step (promotion now actor reason) h =
      ap
        (λ r.
          resolve (lower (strip (or_default r []))) (lower (env_str environ (lit "HA_ROLE") [])))
        (lookup-set_role primary now actor reason h.settings)
  role-step (demotion now actor reason) h =
      ap
        (λ r.
          resolve (lower (strip (or_default r []))) (lower (env_str environ (lit "HA_ROLE") [])))
        (lookup-set_role standby now actor reason h.settings)

  audit-step :
      (c : Change) (h : Host) → (step environ c h).audit ≡ h.audit ++ row_of (role environ h) c ∷ []
  unfolding step promote demote change_role write_audit
  audit-step (promotion now actor reason) h = refl
  audit-step (demotion now actor reason) h = refl

  -- Over any history of promotions and demotions whose audit rows are written, the role is that of
  -- the last change, whatever the environment says, and the one before where there was none; and the
  -- log gains one row for each change, in their order, each with the role that the change before it
  -- left as the old one.
  pub audit-run :
      (cs : List Change) (h : Host)
      → (role environ (run environ cs h) ≡ role_after (role environ h) cs)
        × ((run environ cs h).audit ≡ h.audit ++ rows_of (role environ h) cs)
  unfolding run role_after rows_of
  audit-run [] h = (refl, sym (append-nil h.audit))
  audit-run (c ∷ cs) h =
      let rest = audit-run cs (step environ c h) in
      let next = role-step c h in
      (
        rest.0 ∙ ap (λ r. role_after r cs) next,
        rest.1
            ∙ ap (λ l. l ++ rows_of (role environ (step environ c h)) cs) (audit-step c h)
            ∙ append_assoc h.audit (row_of (role environ h) c ∷ []) _
            ∙ ap (λ r. h.audit ++ row_of (role environ h) c ∷ rows_of r cs) next,
      )
