-- ===== src/Federation/Local.antt =====
-- The source that mirrors the environment, over any history of operations.
use protek.Prelude.{
  ℕ, subst, str_beq_iff, ◌≡◌, refl, ap, ◌∙◌, arith, Str, Option, Bool, false, ◌&&◌, List, [], ◌∷◌,
  ◌==◌, nat_eq, str_eq, map, if◌then◌else◌, any, All, All-append, Bool-cases, inl, inr,
}
use protek.Prelude.Equality.{str_beq}
use protek.Prelude.Text.{is_empty}
use protek.Federation.{
  Source, Sources, local, is_local, insert_source, seed_with, local_url, local_key,
  seed_local_source, update_source, record_pull, set_backoff, set_paused, set_enabled,
  set_confidence, add_source, delete_source,
}
use protek.Federation.Rows.{
  credentials_of, local_credentials, IsWeighed, local_credentials-update_source, All-update_source,
  local_credentials-refreshed, local_credentials-append, local_credentials-delete, any-local,
  All-select, All-refreshed,
}

pub data Op : Type 0 where
  boot : (environ : Str → Option Str) → Op
  add : (name url api_key : Str) (confidence : ℕ) → Op
  delete : ℕ → Op
  pause : ℕ → Bool → Op
  enable : ℕ → Bool → Op
  weigh : ℕ → ℕ → Op
  back_off : ℕ → Option Str → Op
  pulled : (now : Str) → ℕ → (count : ℕ) (error : Str) (duration_ms : ℕ) → Op

unfoldable pub step : Op → Sources → Sources
step (boot environ) t = seed_local_source environ t
step (add name url api_key confidence) t = (add_source name url api_key confidence t).1
step (delete i) t = (delete_source i t).1
step (pause i paused) t = set_paused i paused t
step (enable i enabled) t = set_enabled i enabled t
step (weigh i confidence) t = set_confidence i confidence t
step (back_off i until_iso) t = set_backoff i until_iso t
step (pulled now i count error duration_ms) t = record_pull now i count error duration_ms t

unfoldable pub run : List Op → Sources → Sources
run [] t = t
run (op ∷ ops) t = run ops (step op t)

-- The URL and the key of the last boot that had a key.
unfoldable pub credentials : List Op → Str × Str → Str × Str
credentials [] c = c
credentials (boot environ ∷ ops) c =
    credentials ops
      (if is_empty (local_key environ) then c else (local_url environ, local_key environ))
credentials (_ ∷ ops) c = credentials ops c

record Anchored (c : Str × Str) (t : Sources) : Type 0 where
  one : local_credentials t.rows ≡ c ∷ []
  weighed : All IsWeighed t.rows

update-Anchored :
    (c : Str × Str) (i : ℕ) (f : Source → Source) (t : Sources)
    → ((s : Source) → ((f s).name ≡ s.name) × (credentials_of (f s) ≡ credentials_of s))
    → ((s : Source) → IsWeighed s → IsWeighed (f s))
    → Anchored c t
    → Anchored c (record t { rows = update_source i f t.rows })
update-Anchored c i f t same keeps h = record {
  one = local_credentials-update_source i f t.rows same ∙ h.one;
  weighed = All-update_source i f t.rows keeps h.weighed;
}

seed_with-Anchored :
    (c : Str × Str) (url key : Str) (t : Sources)
    → Anchored c t
    → Anchored (url, key) (seed_with url key t)
unfolding seed_with
seed_with-Anchored c url key t h =
    rw (any-local c t.rows h.one, seed_with)
      (record {
        one = local_credentials-refreshed url key t.rows ∙ ap (map (λ _. (url, key))) h.one;
        weighed = All-refreshed url key t.rows h.weighed;
      })

boot-Anchored :
    (c : Str × Str) (environ : Str → Option Str) (t : Sources)
    → Anchored c t
    → Anchored
        (if is_empty (local_key environ) then c else (local_url environ, local_key environ))
        (seed_local_source environ t)
unfolding seed_local_source
boot-Anchored c environ t h = elim (Bool-cases (is_empty (local_key environ))) [
  | inl missing ↦ rw (missing, seed_local_source) h
  | inr there ↦
      rw (there, seed_local_source)
        (seed_with-Anchored c (local_url environ) (local_key environ) t h)
]

-- A name that is free is not that of the source that is there.
free_name :
    (c : Str × Str) (name : Str) (rows : List Source)
    → local_credentials rows ≡ c ∷ []
    → any (λ (s : Source). s.name == name) rows ≡ false
    → (name == local) ≡ false
free_name c name rows one free = elim (Bool-cases (name == local)) [
  | inl here ↦
      let same = (str_beq_iff name local).0 here in
      let taken = any-local c rows one in
      let gone = subst (λ n. any (λ (s : Source). s.name == n) rows ≡ false) same free in absurd cc
  | inr other ↦ other
]

add-Anchored :
    (c : Str × Str) (name url key : Str) (confidence : ℕ) (t : Sources)
    → Anchored c t
    → Anchored c (add_source name url key confidence t).1
unfolding add_source insert_source
add-Anchored c name url key confidence t h =
    elim (Bool-cases (any (λ (s : Source). s.name == name) t.rows)) [
      | inl taken ↦ rw (taken, add_source) h
      | inr free ↦
          rw (free, add_source)
            (record {
              one = local_credentials-append t.rows _ (free_name c name t.rows h.one free) ∙ h.one;
              weighed = All-append IsWeighed t.rows _ h.weighed (omega arith, tt);
            })
    ]

delete-Anchored :
    (c : Str × Str) (i : ℕ) (t : Sources) → Anchored c t → Anchored c (delete_source i t).1
unfolding delete_source
delete-Anchored c i t h = elim (Bool-cases (any (λ (s : Source). s.id == i && is_local s) t.rows)) [
  | inl anchor ↦ rw (anchor, delete_source) h
  | inr other ↦
      rw (other, delete_source)
        (record {
          one = local_credentials-delete i t.rows other ∙ h.one;
          weighed = All-select _ t.rows h.weighed;
        })
]

step-Anchored :
    (c : Str × Str) (op : Op) (t : Sources)
    → Anchored c t
    → Anchored (credentials (op ∷ []) c) (step op t)
unfolding step credentials record_pull set_backoff set_paused set_enabled set_confidence
step-Anchored c (boot environ) t h = boot-Anchored c environ t h
step-Anchored c (add name url key confidence) t h = add-Anchored c name url key confidence t h
step-Anchored c (delete i) t h = delete-Anchored c i t h
step-Anchored c (pause i paused) t h = update-Anchored c i _ t (λ s. (refl, refl)) (λ s w. w) h
step-Anchored c (enable i enabled) t h = update-Anchored c i _ t (λ s. (refl, refl)) (λ s w. w) h
step-Anchored c (weigh i confidence) t h =
    update-Anchored c i _ t (λ s. (refl, refl)) (λ s w. omega arith) h
step-Anchored c (back_off i until_iso) t h =
    update-Anchored c i _ t (λ s. (refl, refl)) (λ s w. w) h
step-Anchored c (pulled now i count error ms) t h =
    update-Anchored c i _ t (λ s. (refl, refl)) (λ s w. w) h

credentials-cons :
    (op : Op) (ops : List Op) (c : Str × Str)
    → credentials (op ∷ ops) c ≡ credentials ops (credentials (op ∷ []) c)
unfolding credentials
credentials-cons (boot environ) ops c = refl
credentials-cons (add _ _ _ _) ops c = refl
credentials-cons (delete _) ops c = refl
credentials-cons (pause _ _) ops c = refl
credentials-cons (enable _ _) ops c = refl
credentials-cons (weigh _ _) ops c = refl
credentials-cons (back_off _ _) ops c = refl
credentials-cons (pulled _ _ _ _ _) ops c = refl

run-Anchored :
    (c : Str × Str) (ops : List Op) (t : Sources)
    → Anchored c t
    → Anchored (credentials ops c) (run ops t)
unfolding run credentials
run-Anchored c [] t h = h
run-Anchored c (op ∷ ops) t h =
    rw (credentials-cons op ops c)
      (run-Anchored (credentials (op ∷ []) c) ops (step op t) (step-Anchored c op t h))

abbrev pub empty_table : Sources
empty_table = record { rows = []; next_id = 1 }

first_boot-Anchored :
    (environ : Str → Option Str)
    → is_empty (local_key environ) ≡ false
    → Anchored (local_url environ, local_key environ) (seed_local_source environ empty_table)
unfolding seed_local_source seed_with insert_source str_beq
first_boot-Anchored environ there =
    rw (there, seed_local_source) (record { one = refl; weighed = (omega arith, tt) })

-- After a first boot with a key, and over any history of operations that succeed or raise, exactly one
-- source is named `local`, and it has the URL and the key of the last boot that had a key: nothing
-- else adds, deletes, renames or changes it. And every source has a confidence of at least 1.
pub local-run :
    (environ : Str → Option Str) (ops : List Op)
    → is_empty (local_key environ) ≡ false
    → (let rows = (run ops (seed_local_source environ empty_table)).rows in
        (local_credentials rows ≡ credentials ops (local_url environ, local_key environ) ∷ [])
        × All IsWeighed rows)
local-run environ ops there =
    let all =
      run-Anchored (local_url environ, local_key environ) ops _
        (first_boot-Anchored environ there) in
    (all.one, all.weighed)
