-- ===== src/Webhooks/Trial.antt =====
-- What a POST and a delivery should come to, as relations between the outside before and after it,
-- and that the code does so.
use protek.Prelude.{
  ℕ, subst, ◌≤◌, ◌<◌, ◌≡◌, ◌≢◌, ◌⊎◌, inl, inr, refl, arith, Str, Option, none, some, Bool, true,
  false, List, [], ◌∷◌, ◌++◌, ◌==◌, nat_eq, nat_beq_iff, take, ltb, leb, ◌&&◌, Bool-cases,
  Option-cases,
}
use protek.Prelude.Text.{lit}
use protek.Prelude.Decimal.{show_nat}
use protek.Webhooks.Failures.{failure}
use protek.Webhooks.{
  Sub, Outside, Response, status, unreachable, answer, post_if, send_once, pause, attempts, backoff,
}

module _ {S : Type 0} (out : Outside S) (url secret event_type payload : Str) where
  -- One POST: nothing where the host acknowledges it, and otherwise its error.
  pub data Posted : S → Option Str → S → Type 0 where
    no_token :
        (s s' : S)
        → out.acquire url s ≡ (false, s')
        → Posted s (some (lit "backpressure — webhook bucket exhausted")) s'
    no_answer :
        (s s' u : S) (e : Str)
        → out.acquire url s ≡ (true, s')
        → out.post url secret event_type payload s' ≡ (unreachable e, u)
        → Posted s (some (lit "network: " ++ e)) u
    slowed_down :
        (s s' u : S) (text : Str)
        → out.acquire url s ≡ (true, s')
        → out.post url secret event_type payload s' ≡ (status 429 text, u)
        → Posted s (some (lit "HTTP 429: rate limited")) (out.record_429 url u)
    acknowledged :
        (s s' u : S) (n : ℕ) (text : Str)
        → out.acquire url s ≡ (true, s')
        → out.post url secret event_type payload s' ≡ (status n text, u)
        → 200 ≤ n
        → n < 300
        → Posted s none u
    turned_down :
        (s s' u : S) (n : ℕ) (text : Str)
        → out.acquire url s ≡ (true, s')
        → out.post url secret event_type payload s' ≡ (status n text, u)
        → n ≢ 429
        → (n < 200) ⊎ (300 ≤ n)
        → Posted s (some (lit "HTTP " ++ show_nat n ++ lit ": " ++ take 200 text)) u

  -- A delivery: up to three POSTs, with pauses of two and four seconds between them.
  pub data Tried : S → Option Str → S → Type 0 where
    at_first : (s u : S) → Posted s none u → Tried s none u
    at_second :
        (s t u : S) (e : Str) → Posted s (some e) t → Posted (out.sleep 2 t) none u → Tried s none u
    at_third :
        (s t u v : S) (e f : Str)
        → Posted s (some e) t
        → Posted (out.sleep 2 t) (some f) u
        → Posted (out.sleep 4 u) none v
        → Tried s none v
    never :
        (s t u v : S) (e f g : Str)
        → Posted s (some e) t
        → Posted (out.sleep 2 t) (some f) u
        → Posted (out.sleep 4 u) (some g) v
        → Tried s (some g) v

  out_of_range : (n : ℕ) → (leb 200 n && ltb n 300) ≡ false → (n < 200) ⊎ (300 ≤ n)
  out_of_range n bad = elim (Bool-cases (leb 200 n)) [
    | inl ge ↦ inr (ground arith)
    | inr lt ↦ inl (ground arith)
  ]

  answer-Posted :
      (s s' : S) (r : Response × S)
      → out.acquire url s ≡ (true, s')
      → out.post url secret event_type payload s' ≡ r
      → Posted s (answer out url r).0 (answer out url r).1
  unfolding answer
  answer-Posted s s' (unreachable e, u) got sent = no_answer s s' u e got sent
  answer-Posted s s' (status n text, u) got sent = elim (Bool-cases (n == 429)) [
    | inl limited ↦
        let same = (nat_beq_iff n 429).0 limited in
        rw limited (
          slowed_down s s' u text got
            (subst (λ m. out.post url secret event_type payload s' ≡ (status m text, u)) same sent))
    | inr other ↦ elim (Bool-cases (leb 200 n && ltb n 300)) [
      | inl ok ↦
          rw other (rw ok (acknowledged s s' u n text got sent (ground arith) (ground arith)))
      | inr bad ↦ rw other (
          rw bad (
            turned_down s s' u n text got sent (ground (arith, nat_beq_iff n 429))
              (out_of_range n bad)))
    ]
  ]

  post_if-Posted :
      (s : S) (r : Bool × S)
      → out.acquire url s ≡ r
      → Posted s
          (post_if out url secret event_type payload r).0
          (post_if out url secret event_type payload r).1
  unfolding post_if
  post_if-Posted s (false, s') got = no_token s s' got
  post_if-Posted s (true, s') got = answer-Posted s s' _ got refl

  send_once-Posted :
      (s : S)
      → Posted s
          (send_once out url secret event_type payload s).0
          (send_once out url secret event_type payload s).1
  unfolding send_once
  send_once-Posted s = post_if-Posted s (out.acquire url s) refl

  abbrev once : S → Option Str × S
  once s = send_once out url secret event_type payload s

  Posted-by : (s : S) (o : Option Str) → (once s).0 ≡ o → Posted s o (once s).1
  Posted-by s o e = subst (λ r. Posted s r (once s).1) e (send_once-Posted s)

  pub attempts-Tried :
      (s : S)
      → Tried s
          (attempts out url secret event_type payload backoff [] s).0
          (attempts out url secret event_type payload backoff [] s).1
  unfolding attempts backoff pause
  attempts-Tried s =
      let t = (once s).1 in
      let u = (once (out.sleep 2 t)).1 in
      elim (Option-cases (once s).0) [
        | inl ok ↦ rw (ok, attempts) (at_first s t (Posted-by s none ok))
        | inr (e, failed) ↦ elim (Option-cases (once (out.sleep 2 t)).0) [
          | inl ok ↦
              rw (failed, attempts)
                (rw (ok, attempts)
                  (at_second s t u e (Posted-by s (some e) failed)
                    (Posted-by (out.sleep 2 t) none ok)))
          | inr (f, failed_again) ↦
              let first = Posted-by s (some e) failed in
              let second = Posted-by (out.sleep 2 t) (some f) failed_again in
              let third = out.sleep 4 u in
              elim (Option-cases (once third).0) [
                | inl ok ↦
                    rw (failed, attempts)
                      (rw (failed_again, attempts)
                        (rw (ok, attempts)
                          (at_third s t u (once third).1 e f first second
                            (Posted-by third none ok))))
                | inr (g, failed_last) ↦
                    rw (failed, attempts)
                      (rw (failed_again, attempts)
                        (rw (failed_last, attempts)
                          (never s t u (once third).1 e f g first second
                            (Posted-by third (some g) failed_last))))
              ]
        ]
      ]

module _ {S : Type 0} (out : Outside S) (event_type payload : Str) where
  -- The subscribers that acknowledged no POST, with the error of the last, each after the one before.
  pub data Failed : List Sub → S → List (ℕ × Str) → S → Type 0 where
    all_tried : (s : S) → Failed [] s [] s
    one_acknowledged :
        (sub : Sub) (subs : List Sub) (s t u : S) (fs : List (ℕ × Str))
        → Tried out sub.url sub.hmac_secret event_type payload s none t
        → Failed subs t fs u
        → Failed (sub ∷ subs) s fs u
    one_failed :
        (sub : Sub) (subs : List Sub) (s t u : S) (err : Str) (fs : List (ℕ × Str))
        → Tried out sub.url sub.hmac_secret event_type payload s (some err) t
        → Failed subs t fs u
        → Failed (sub ∷ subs) s ((sub.id, err) ∷ fs) u

  pub Failed-next :
      (sub : Sub) (subs : List Sub) (s : S) (o : Option Str) (t u : S) (fs : List (ℕ × Str))
      → Tried out sub.url sub.hmac_secret event_type payload s o t
      → Failed subs t fs u
      → Failed (sub ∷ subs) s (failure sub.id o ++ fs) u
  Failed-next sub subs s none t u fs h k = one_acknowledged sub subs s t u fs h k
  Failed-next sub subs s (some err) t u fs h k = one_failed sub subs s t u err fs h k
