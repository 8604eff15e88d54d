-- ===== src/Siem/Flow.antt =====
-- What becomes of the events over any history of ships, replays and turns of the worker.
use protek.Prelude.{
  ℕ, subst, ◌≤◌, ◌≡◌, refl, sym, ◌∙◌, arith, Str, Option, Bool, List, [], ◌∷◌, ◌++◌, map, take,
  length,
}
use native.Mathlib.Nat.{add-zero}
use mathlib.Core.List.{append-nil}
use protek.Siem.{
  Item, Siem, Json, Write, Forwarder, queue_max, ship, shipped_item, severity_of, write_journal,
  replay, last_rows, item_of, dispatch, send_all, stamp_if, turn, turn_on,
}
use Write.{works, insert_fails, trim_fails}
use protek.Siem.Queue.{
  one_taken, no_items, Flow, Flow-refl, Flow-append, enqueue-Flow, enqueue_all-Flow, same-Flow,
}

pub data Op (P S : Type 0) : Type 0 where
  a_ship : Write → Str → P → Option ℕ → Op P S
  a_replay : ℕ → Op P S
  a_turn : List (Forwarder P S) → (db_works : Bool) → Op P S

module _ {P S : Type 0} (json : Json P) where
  unfoldable pub step : Op P S → Siem P × S → Siem P × S
  step (a_ship w event_type payload severity) (q, s) =
      ((ship json w event_type payload severity q).1, s)
  step (a_replay n) (q, s) = ((replay json n q).1, s)
  step (a_turn fws db_works) qs = turn fws db_works qs

  -- What an operation offers to the queue.
  unfoldable pub offered_by : Op P S → Siem P → List (Item P)
  offered_by (a_ship w event_type payload severity) q =
      shipped_item (ship json w event_type payload severity q).0 event_type severity payload ∷ []
  offered_by (a_replay n) q = map (item_of json) (last_rows n q.journal)
  offered_by (a_turn fws db_works) q = []

  -- What the worker takes in an operation.
  unfoldable pub taken_by : Op P S → Siem P → List (Item P)
  taken_by (a_turn fws db_works) q = take 1 q.queue
  taken_by (a_ship _ _ _ _) q = []
  taken_by (a_replay _) q = []

  unfoldable pub run : List (Op P S) → Siem P × S → Siem P × S
  run [] qs = qs
  run (op ∷ ops) qs = run ops (step op qs)

  unfoldable pub offered : List (Op P S) → Siem P × S → List (Item P)
  offered [] qs = []
  offered (op ∷ ops) qs = offered_by op qs.0 ++ offered ops (step op qs)

  unfoldable pub taken : List (Op P S) → Siem P × S → List (Item P)
  taken [] qs = []
  taken (op ∷ ops) qs = taken_by op qs.0 ++ taken ops (step op qs)

pub record SameQueue {P : Type 0} (q r : Siem P) : Type 0 where
  pub queue : q.queue ≡ r.queue
  pub dropped : q.dropped ≡ r.dropped

write_journal-SameQueue :
    {P : Type 0} (w : Write) (event_type : Str) (sev : ℕ) (text : Str) (q : Siem P)
    → SameQueue (write_journal w event_type sev text q).1 q
unfolding write_journal
write_journal-SameQueue works event_type sev text q = record { queue = refl; dropped = refl }
write_journal-SameQueue insert_fails event_type sev text q = record { queue = refl; dropped = refl }
write_journal-SameQueue trim_fails event_type sev text q = record { queue = refl; dropped = refl }

stamp_if-SameQueue :
    {P : Type 0} (db_works : Bool) (row_id : ℕ) (errors : List Str) (q : Siem P)
    → SameQueue q (stamp_if db_works row_id errors q)
unfolding stamp_if
stamp_if-SameQueue db_works row_id errors q = record {
  queue = ground arith;
  dropped = ground arith;
}

dispatch-SameQueue :
    {P S : Type 0} (fws : List (Forwarder P S)) (db_works : Bool) (i : Item P) (q : Siem P) (s : S)
    → SameQueue q (dispatch fws db_works i (q, s)).0
unfolding dispatch
dispatch-SameQueue [] db_works i q s = record { queue = refl; dropped = refl }
dispatch-SameQueue (fw ∷ fws) db_works i q s =
    stamp_if-SameQueue db_works i.row_id (send_all (fw ∷ fws) i s).0 q

turn_on-Flow :
    {P S : Type 0} (fws : List (Forwarder P S)) (db_works : Bool) (q : Siem P) (s : S)
    (xs : List (Item P))
    → q.queue ≡ xs
    → length xs ≤ queue_max
    → Flow [] (take 1 xs) q (turn_on fws db_works xs (q, s)).0
unfolding turn_on
turn_on-Flow fws db_works q s [] e h = Flow-refl q (subst (λ xs. length xs ≤ queue_max) (sym e) h)
turn_on-Flow fws db_works q s (i ∷ is) e h =
    let rest : Siem _ = record q { queue = is } in
    let same = dispatch-SameQueue fws db_works i rest s in
    let popped : Flow [] (i ∷ []) q rest = record {
      gone = i ∷ [];
      lost = [];
      in_order = append-nil q.queue ∙ e;
      shuffled = one_taken i [] [] [] no_items;
      counted = sym (add-zero q.dropped);
      bounded = omega (arith, h);
    } in
    same-Flow [] (i ∷ []) q q rest _ refl refl same.queue same.dropped popped

module _ {P S : Type 0} (json : Json P) where
  step-Flow :
      (op : Op P S) (qs : Siem P × S)
      → length qs.0.queue ≤ queue_max
      → Flow (offered_by json op qs.0) (taken_by json op qs.0) qs.0 (step json op qs).0
  unfolding step offered_by taken_by ship replay turn
  step-Flow (a_ship w event_type payload severity) (q, s) h =
      let sev = severity_of event_type severity in
      let r = write_journal w event_type sev (json.dumps payload) q in
      let same = write_journal-SameQueue w event_type sev (json.dumps payload) q in
      same-Flow _ [] r.1 q _ _ same.queue same.dropped refl refl
        (enqueue-Flow (shipped_item r.0 event_type severity payload) r.1 (rw same.queue h))
  step-Flow (a_replay n) (q, s) h =
      enqueue_all-Flow (map (item_of json) (last_rows n q.journal)) q h
  step-Flow (a_turn fws db_works) (q, s) h = turn_on-Flow fws db_works q s q.queue refl h

  -- Over any history of ships, replays and turns of the worker, whatever fails in them, beginning with
  -- a queue that is not too long: the items that were waiting and then those that were offered are, in
  -- this order, those that left the queue and those that wait in it. Each that left was either taken by
  -- the worker or dropped for want of room, in the order of arrival; the counter grew by the number of
  -- the latter; and at most 10,000 items wait.
  pub run-Flow :
      (ops : List (Op P S)) (qs : Siem P × S)
      → length qs.0.queue ≤ queue_max
      → Flow (offered json ops qs) (taken json ops qs) qs.0 (run json ops qs).0
  unfolding run offered taken
  run-Flow [] qs h = Flow-refl qs.0 h
  run-Flow (op ∷ ops) qs h =
      let one = step-Flow op qs h in
      Flow-append _ _ _ _ qs.0 (step json op qs).0 _ one
        (run-Flow ops (step json op qs) one.bounded)
