-- ===== src/Siem/Queue.antt =====
-- What came into the bounded queue, what went out of it, and what was lost for want of room.
use protek.Prelude.{
  ◌+◌, ◌≤◌, ◌≡◌, refl, ap, sym, ◌∙◌, arith, List, [], ◌∷◌, ◌++◌, leb, le→leb, leb→le, drop, length,
  Bool-cases, inl, inr, length-append,
}
use native.Mathlib.Nat.{add-zero}
use mathlib.Core.List.{append-nil, append_assoc}
use protek.Siem.{Item, Siem, queue_max, enqueue, enqueue_all}

-- `gone` holds the items of `taken` and those of `lost`, each in their order.
pub data Shuffle {A : Type 0} : List A → List A → List A → Type 0 where
  no_items : Shuffle [] [] []
  one_taken : (x : A) → (xs ys zs : List A) → Shuffle xs ys zs → Shuffle (x ∷ xs) ys (x ∷ zs)
  one_lost : (y : A) → (xs ys zs : List A) → Shuffle xs ys zs → Shuffle xs (y ∷ ys) (y ∷ zs)

-- Between `q` and `r` the items `offered` came in and the worker took those of `taken`: what went out
-- at the front is what it took and what was lost, and the counter counts the latter.
pub record Flow {P : Type 0} (offered taken : List (Item P)) (q r : Siem P) : Type 0 where
  pub gone : List (Item P)
  pub lost : List (Item P)
  pub in_order : q.queue ++ offered ≡ gone ++ r.queue
  pub shuffled : Shuffle taken lost gone
  pub counted : r.dropped ≡ q.dropped + length lost
  pub bounded : length r.queue ≤ queue_max

Shuffle-append :
    {A : Type 0} (xs ys zs xs' ys' zs' : List A)
    → Shuffle xs ys zs
    → Shuffle xs' ys' zs'
    → Shuffle (xs ++ xs') (ys ++ ys') (zs ++ zs')
Shuffle-append _ _ _ xs' ys' zs' no_items k = k
Shuffle-append _ ys _ xs' ys' zs' (one_taken x xs _ zs h) k =
    one_taken x _ _ _ (Shuffle-append xs ys zs xs' ys' zs' h k)
Shuffle-append xs _ _ xs' ys' zs' (one_lost y _ ys zs h) k =
    one_lost y _ _ _ (Shuffle-append xs ys zs xs' ys' zs' h k)

module _ {P : Type 0} where
  pub Flow-refl : (q : Siem P) → length q.queue ≤ queue_max → Flow [] [] q q
  Flow-refl q h = record {
    gone = [];
    lost = [];
    in_order = append-nil q.queue;
    shuffled = no_items;
    counted = sym (add-zero q.dropped);
    bounded = h;
  }

  pub Flow-append :
      (xs ys xs' ys' : List (Item P)) (q r u : Siem P)
      → Flow xs ys q r
      → Flow xs' ys' r u
      → Flow (xs ++ xs') (ys ++ ys') q u
  Flow-append xs ys xs' ys' q r u h k = record {
    gone = h.gone ++ k.gone;
    lost = h.lost ++ k.lost;
    in_order =
        sym (append_assoc q.queue xs xs')
        ∙ ap (λ l. l ++ xs') h.in_order
        ∙ append_assoc h.gone r.queue xs'
        ∙ ap (λ l. h.gone ++ l) k.in_order
        ∙ sym (append_assoc h.gone k.gone u.queue);
    shuffled = Shuffle-append _ _ _ _ _ _ h.shuffled k.shuffled;
    counted = omega (arith, h.counted, k.counted, length-append h.lost k.lost);
    bounded = k.bounded;
  }

  enqueue_full :
      (i : Item P) (q : Siem P) (xs : List (Item P))
      → q.queue ≡ xs
      → queue_max ≤ length xs
      → length xs ≤ queue_max
      → Flow (i ∷ []) [] q (record q { queue = drop 1 q.queue ++ i ∷ []; dropped = q.dropped + 1 })
  enqueue_full i q [] e full h = absurd (omega arith)
  enqueue_full i q (x ∷ xs) e full h = record {
    gone = x ∷ [];
    lost = x ∷ [];
    in_order = rw e refl;
    shuffled = one_lost x [] [] [] no_items;
    counted = refl;
    bounded = rw e (omega (arith, length-append xs (i ∷ [])));
  }

  pub enqueue-Flow :
      (i : Item P) (q : Siem P) → length q.queue ≤ queue_max → Flow (i ∷ []) [] q (enqueue i q)
  unfolding enqueue
  enqueue-Flow i q h = elim (Bool-cases (leb queue_max (length q.queue))) [
    | inl full ↦
        rw (full, enqueue)
          (enqueue_full i q q.queue refl (leb→le queue_max (length q.queue) full) h)
    | inr room ↦
        rw (room, enqueue)
          (record {
            gone = [];
            lost = [];
            in_order = refl;
            shuffled = no_items;
            counted = sym (add-zero q.dropped);
            bounded =
                ground (arith, length-append q.queue (i ∷ []), le→leb queue_max (length q.queue));
          })
  ]

  pub enqueue_all-Flow :
      (is : List (Item P)) (q : Siem P)
      → length q.queue ≤ queue_max
      → Flow is [] q (enqueue_all is q)
  unfolding enqueue_all
  enqueue_all-Flow [] q h = Flow-refl q h
  enqueue_all-Flow (i ∷ is) q h =
      let one = enqueue-Flow i q h in
      Flow-append (i ∷ []) [] is [] q (enqueue i q) _ one
        (enqueue_all-Flow is (enqueue i q) one.bounded)

  -- The journal does not matter to the queue.
  pub same-Flow :
      (xs ys : List (Item P)) (q q' r r' : Siem P)
      → q.queue ≡ q'.queue
      → q.dropped ≡ q'.dropped
      → r.queue ≡ r'.queue
      → r.dropped ≡ r'.dropped
      → Flow xs ys q r
      → Flow xs ys q' r'
  same-Flow xs ys q q' r r' e d e' d' h = record {
    gone = h.gone;
    lost = h.lost;
    in_order = rw (← e) (rw (← e') h.in_order);
    shuffled = h.shuffled;
    counted = rw (← d) (rw (← d') h.counted);
    bounded = rw (← e') h.bounded;
  }
