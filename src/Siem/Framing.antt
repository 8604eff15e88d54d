-- ===== src/Siem/Framing.antt =====
-- The octet counts of syslog on TCP, read back by a receiver (RFC 6587, 3.4.1).
use mathlib.Core.List.{append_assoc, append-nil}
use protek.Prelude.{
  ℕ, zero, suc, ◌<◌, ◌≡◌, ◌≢◌, refl, ap, sym, ◌∙◌, arith, Str, Option, none, some, Bool, true,
  false, List, [], ◌∷◌, ◌++◌, ◌==◌, nat_eq, if◌then◌else◌, leb, le→leb, All, take, drop, length,
  length-append,
}
use protek.Prelude.Decimal.{
  show_nat, read_nat, IsDigit, show_nat-IsDigit, show_nat-ne-nil, read_nat-show_nat,
}
use protek.Prelude.Text.{lit}
use protek.Siem.Syslog.{Syslog, Network, Sock, frame, send_octets, retry, put, ensure_sock}

-- The count in front of the first space, and what follows the space.
unfoldable pub split_space : List ℕ → List ℕ × List ℕ
split_space [] = ([], [])
split_space (c ∷ s) =
    let rest = split_space s in if c == b' ' then ([], s) else (c ∷ rest.0, rest.1)

abbrev cons_some : List ℕ → Option (List (List ℕ)) → Option (List (List ℕ))
cons_some m none = none
cons_some m (some ms) = some (m ∷ ms)

abbrev whole : List ℕ → ℕ → Option (List (List ℕ)) → Option (List (List ℕ))
whole s n rest = if leb n (length s) then cons_some (take n s) rest else none

-- The first message, with those that `others` reads after it.
unfoldable pub first_frame :
    (others : List ℕ → Option (List (List ℕ))) → List ℕ × List ℕ → Option (List (List ℕ))
first_frame others (count, s) = elim (read_nat count) [
  | none ↦ none
  | some n ↦ whole s n (others (drop n s))
]

-- The messages of a stream; none for a count that is no number or exceeds the stream.
unfoldable pub read_frames : ℕ → List ℕ → Option (List (List ℕ))
unfolding split_space first_frame
read_frames zero s = none
read_frames (suc fuel) [] = some []
read_frames (suc fuel) (c ∷ s) = first_frame (read_frames fuel) (split_space (c ∷ s))

-- A connection that takes every octet; its state is the stream.
abbrev pub wire : Network (List ℕ)
wire = record {
  connect = λ host port s. (none, s);
  sendall = λ octets s. (none, s ++ octets);
  sendto = λ octets host port s. (none, s ++ octets);
  close = λ s. s;
}

unfoldable pub send_each : Syslog → List (List ℕ) → Sock (List ℕ) → Sock (List ℕ)
send_each fw [] sock = sock
send_each fw (m ∷ ms) sock = send_each fw ms (send_octets wire fw m sock).1

unfoldable pub frames : List (List ℕ) → List ℕ
frames [] = []
frames (m ∷ ms) = frame m ++ frames ms

split_space-digits : (ds s : List ℕ) → All IsDigit ds → split_space (ds ++ b' ' ∷ s) ≡ (ds, s)
unfolding split_space
split_space-digits [] s h = refl
split_space-digits (d ∷ ds) s h = ground (arith, split_space-digits ds s h.1)

take-append : (m s : List ℕ) → take (length m) (m ++ s) ≡ m
take-append [] s = refl
take-append (c ∷ m) s = ap (λ l. c ∷ l) (take-append m s)

drop-append : (m s : List ℕ) → drop (length m) (m ++ s) ≡ s
drop-append [] s = refl
drop-append (c ∷ m) s = drop-append m s

leb-append : (m s : List ℕ) → leb (length m) (length (m ++ s)) ≡ true
leb-append m s = le→leb _ _ (omega (arith, length-append m s))

first_frame-eq :
    (others : List ℕ → Option (List (List ℕ))) (ds m s : List ℕ)
    → read_nat ds ≡ some (length m)
    → first_frame others (ds, m ++ s) ≡ cons_some m (others s)
unfolding first_frame
first_frame-eq others ds m s count =
    rw (count, first_frame) (rw (leb-append m s) (rw (take-append m s) (rw (drop-append m s) refl)))

read_frames-digits :
    (fuel : ℕ) (ds m s : List ℕ)
    → All IsDigit ds
    → ds ≢ []
    → read_nat ds ≡ some (length m)
    → read_frames (suc fuel) (ds ++ b' ' ∷ (m ++ s)) ≡ cons_some m (read_frames fuel s)
unfolding read_frames
read_frames-digits fuel [] m s digits full count = absurd (full refl)
read_frames-digits fuel (d ∷ ds) m s digits full count =
    ap (first_frame (read_frames fuel)) (split_space-digits (d ∷ ds) (m ++ s) digits)
    ∙ first_frame-eq (read_frames fuel) (d ∷ ds) m s count

read_frames-frame :
    (fuel : ℕ) (m s : List ℕ)
    → read_frames (suc fuel) (frame m ++ s) ≡ cons_some m (read_frames fuel s)
unfolding frame
read_frames-frame fuel m s =
    ap (read_frames (suc fuel)) (
      ap (λ l. l ++ s) (append_assoc (show_nat (length m)) (lit " ") m)
      ∙ append_assoc (show_nat (length m)) (b' ' ∷ m) s)
    ∙ read_frames-digits fuel (show_nat (length m)) m s (show_nat-IsDigit (length m))
        (show_nat-ne-nil (length m)) (read_nat-show_nat (length m))

read_frames-frames :
    (fuel : ℕ) (ms : List (List ℕ)) → length ms < fuel → read_frames fuel (frames ms) ≡ some ms
unfolding frames read_frames
read_frames-frames zero ms h = absurd (omega (arith, h))
read_frames-frames (suc fuel) [] h = refl
read_frames-frames (suc fuel) (m ∷ ms) h =
    read_frames-frame fuel m (frames ms)
    ∙ ap (cons_some m) (read_frames-frames fuel ms (omega (arith, h)))

abbrev on_tcp : Syslog → Syslog
on_tcp fw = record fw { tcp = true }

send_octets-wire :
    (fw : Syslog) (m : List ℕ) (has : Bool) (s : List ℕ)
    → send_octets wire (on_tcp fw) m (has, s) ≡ (none, (true, s ++ frame m))
unfolding send_octets retry put ensure_sock
send_octets-wire fw m true s = refl
send_octets-wire fw m false s = refl

send_each-frames :
    (fw : Syslog) (ms : List (List ℕ)) (has : Bool) (s : List ℕ)
    → (send_each (on_tcp fw) ms (has, s)).1 ≡ s ++ frames ms
unfolding send_each frames
send_each-frames fw [] has s = sym (append-nil s)
send_each-frames fw (m ∷ ms) has s =
    ap (λ (r : Option Str × Sock (List ℕ)). (send_each (on_tcp fw) ms r.1).1)
      (send_octets-wire fw m has s)
    ∙ send_each-frames fw ms true (s ++ frame m)
    ∙ append_assoc s (frame m) (frames ms)

-- Over a connection that takes every octet, a receiver that reads the counts gets the messages that
-- a forwarder sent on TCP, in their order and with nothing else, whatever octets they have; one turn
-- for each message and one for the end are enough.
pub read_frames-send_each :
    (fw : Syslog) (ms : List (List ℕ)) (fuel : ℕ)
    → fw.tcp ≡ true
    → length ms < fuel
    → read_frames fuel (send_each fw ms (false, [])).1 ≡ some ms
read_frames-send_each fw ms fuel tcp enough =
    let same : fw ≡ on_tcp fw = ap (λ b. record fw { tcp = b }) tcp in
    ap (λ f. read_frames fuel (send_each f ms (false, [])).1) same
    ∙ ap (read_frames fuel) (send_each-frames fw ms false [])
    ∙ read_frames-frames fuel ms enough
