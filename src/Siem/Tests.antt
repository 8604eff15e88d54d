-- ===== src/Siem/Tests.antt =====
-- Two events of which the first cannot be sent, and their replay; two frames.
use protek.Prelude.{
  ℕ, ◌+◌, ◌≡◌, refl, arith, Str, none, some, true, false, List, [], ◌∷◌, ◌==◌, nat_eq,
  if◌then◌else◌, map,
}
use protek.Prelude.Text.{lit, lower}
use protek.Prelude.Equality.{str_beq}
use protek.Siem.{Siem, Item, Json, Write, Forwarder, ship, replay, turn}
use protek.Siem.Syslog.{new_syslog}
use protek.Siem.Queue.{Flow}
use protek.Siem.Flow.{Op, run, step, offered, taken, run-Flow}
use protek.Siem.Framing.{send_each, read_frames, read_frames-send_each}
use Op.{a_ship, a_replay, a_turn}
use Write.{works, insert_fails}

-- A payload is its own JSON text.
abbrev texts : Json Str
texts = record { dumps = λ p. p; loads = λ t. some t; raw = λ t. t }

-- A forwarder that fails on its first item; the state counts the items.
abbrev flaky : Forwarder Str ℕ
flaky = record {
  name = lit "webhook";
  send = λ event_type severity p n. (if n == 0 then some (lit "refused") else none, n + 1);
}

abbrev no_events : Siem Str
no_events = record { queue = []; dropped = 0; journal = []; next_id = 1 }

abbrev ops : List (Op Str ℕ)
ops =
    a_ship works (lit "source.down") (lit "{}") none
    ∷ a_ship insert_fails (lit "page") (lit "[]") (some 0)
    ∷ a_turn (flaky ∷ []) true
    ∷ a_turn (flaky ∷ []) true
    ∷ a_ship works (lit "page") (lit "[]") (some 0)
    ∷ a_replay 1
    ∷ []

-- The stamp of a row that could not be sent: it counts as shipped, with the error beside it. The
-- severity 0 of the other row is replayed as 6.
ops_journal :
    (run texts ops (no_events, 0)).0.journal
    ≡ record {
      id = 1;
      event_type = lit "source.down";
      severity = 3;
      payload_json = lit "{}";
      shipped = true;
      ship_error = lit "webhook: refused";
    }
      ∷ record {
        id = 2;
        event_type = lit "page";
        severity = 0;
        payload_json = lit "[]";
        shipped = false;
        ship_error = [];
      }
      ∷ []
unfolding run step replay ship turn str_beq
ops_journal = refl

ops_queue : map (λ (i : Item Str). i.severity) (run texts ops (no_events, 0)).0.queue ≡ 0 ∷ 6 ∷ []
unfolding run step replay ship turn str_beq
ops_queue = refl

run-Flow_example :
    Flow
      (offered texts ops (no_events, 0))
      (taken texts ops (no_events, 0))
      no_events
      (run texts ops (no_events, 0)).0
run-Flow_example = run-Flow texts ops (no_events, 0) (omega arith)

read_frames-send_each_example :
    read_frames 3
      (send_each
        (new_syslog (lit "h") 514 (lit "TCP") 16 [] (lit "7"))
        (lit "a 2" ∷ [] ∷ [])
        (false, [])).1
    ≡ some (lit "a 2" ∷ [] ∷ [])
unfolding new_syslog str_beq lower
read_frames-send_each_example =
    read_frames-send_each (new_syslog (lit "h") 514 (lit "TCP") 16 [] (lit "7"))
      (lit "a 2" ∷ [] ∷ []) 3 refl (omega arith)
