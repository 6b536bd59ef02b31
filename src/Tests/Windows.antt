-- ===== src/Tests/Windows.antt =====
-- The congestion control, the round trip and the send window, over numbers without fractions.
use utp.Base.{
  ℕ, zero, suc, ◌+◌, ◌-◌, ◌*◌, ◌/◌, ◌≤◌, ◌≡◌, refl, true, false, [], ◌∷◌, none, some, arith, leb,
  leb→le,
}
use native.Mathlib.Nat.{zero-div}
use utp.Base.Map
use utp.Base.Map.{nat_key}
use utp.Base.Number.{JsNumber}
use utp.Addr.{Addr}
use utp.Seq.{ℤ}
use utp.Packet.{Packet, Extension, num}
use utp.Congestion
use utp.Congestion.{Congestion, update_rtt, on_packet_loss, update_window_size}
use utp.Congestion.Bounds.{window_open}
use utp.Rtt
use utp.Rtt.{Rtt, update}
use utp.Rtt.Bounds.{IsPatient, update-IsPatient, create-IsPatient}
use utp.SendWindow
use utp.SendWindow.{
  SendWindow, Entry, window_capacity, handle_ack, timeout_check, wait_for_ack, note_ack,
  is_packet_acked,
}
use utp.SendWindow.Capacity.{IsBounded, create-IsBounded, operations-IsBounded}

pub le→leb : (a b : ℕ) → a ≤ b → leb a b ≡ true
le→leb a b h = ground arith

pub times_le : (w f : ℕ) → 1 ≤ f → w ≤ w * f
times_le w zero h = omega (arith, h)
times_le w (suc f) h = ground arith

pub div_zero : (d t : ℕ) → leb d 0 ≡ true → leb t 0 ≡ false → leb (d / t) 0 ≡ true
div_zero zero zero p q = ground arith
div_zero zero (suc t) p q = rw zero-div refl
div_zero (suc d) t p q = ground arith

pub times_zero : (g d : ℕ) → leb d 0 ≡ true → leb (g * d) 0 ≡ true
times_zero g zero p = ground arith
times_zero g (suc d) p = ground arith

abbrev pub naturals : JsNumber
naturals = record {
  Num = ℕ;
  of_ℕ = λ n. n;
  plus = λ a b. a + b;
  minus = λ a b. a - b;
  times = λ a b. a * b;
  over = λ a b. a / b;
  ceil = λ a. a;
  leb = leb;
  le_refl = λ a. ground arith;
  le_trans = λ a b c p q. ground arith;
  le_total = λ a b p. ground arith;
  of_ℕ-mono = λ m n h. ground arith;
  le-ceil = λ a. ground arith;
  minus_nonpos = λ a b h. ground arith;
  minus_grows = λ a d h. ground arith;
  over_nonpos = λ d t p q. div_zero d t p q;
  times_nonpos = λ g d p q. times_zero g d q;
  times_grows = λ w f p q. le→leb w (w * f) (times_le w f (leb→le 1 f q));
}

-- A delay that is over the target, and above the last one.
abbrev slow : Congestion naturals
slow = record {
  window_size = 10;
  base_delay = 100;
  queue_delay = 250;
  target_delay = 100;
  last_max_delay = 200;
  gain = 1;
}

window_open_example :
    (leb 1 (update_rtt naturals slow 300).window_size ≡ true)
    × (leb 1 (on_packet_loss naturals slow).window_size ≡ true)
    × (leb 1 (Congestion.reset naturals slow).window_size ≡ true)
window_open_example = window_open naturals slow 300

update-IsPatient_example : IsPatient naturals (update naturals (Rtt.create naturals) 5000 4200)
update-IsPatient_example =
    update-IsPatient naturals (Rtt.create naturals) 5000 4200 (create-IsPatient naturals)

abbrev pub data_packet : ℕ → Packet
data_packet seq_nr = record {
  type = 0;
  version = 1;
  extension = 0;
  conn_id = 7;
  timestamp = 1000;
  timestamp_difference = num (ℤ.pos 0);
  window_size = 0;
  seq_nr = seq_nr;
  ack_nr = 0;
  extensions = [];
  payload = some (1 ∷ 2 ∷ []);
}

-- an acknowledgement of 65535, and of 2 by its mask
abbrev ack_packet : Packet
ack_packet = record (data_packet 1) {
  type = 2;
  extension = 1;
  ack_nr = 65535;
  window_size = 100000;
  extensions = Extension.sack (record { base = 65535; bitmask = 2 ∷ 0 ∷ 0 ∷ 0 ∷ [] }) ∷ [];
  payload = none;
}

abbrev pub peer : Addr
peer = record { port = 6881; hostname = "10.0.0.1" }

abbrev entry : ℕ → Entry
entry seq_nr = record {
  packet = data_packet seq_nr;
  resend_times = 0;
  ack_count = 0;
  sent_time = 4000;
  remote_addr = peer;
}

abbrev pub three_in_flight : SendWindow naturals
three_in_flight = record (SendWindow.create naturals) {
  packet_map = record {
    map = (65535, entry 65535) ∷ (0, entry 0) ∷ (2, entry 2) ∷ [];
    capacity = 4;
    waiting_setters = [];
  };
}

abbrev noted_before : SendWindow naturals
noted_before = record three_in_flight { latest_seq = some 65534 }

operations-IsBounded_example :
    IsBounded naturals (handle_ack naturals (SendWindow.create naturals) 5000 ack_packet).0
    × IsBounded naturals (timeout_check naturals (SendWindow.create naturals) 5000).0
    × IsBounded naturals
        (wait_for_ack naturals (SendWindow.create naturals) 5000 ack_packet peer).0.0
    × IsBounded naturals (SendWindow.reset naturals (SendWindow.create naturals)).0
operations-IsBounded_example =
    operations-IsBounded naturals (SendWindow.create naturals) 5000 ack_packet peer
      (create-IsBounded naturals)
