-- ===== src/Tests/Packets.antt =====
-- A data packet with both extensions, an acknowledgement with a gap, and broken datagrams.
use utp.Base.{
  ℕ, ◌^◌, ◌≤◌, ◌<◌, ◌≡◌, ◌≢◌, refl, true, List, [], ◌∷◌, some, none, arith, replicate, length,
}
use utp.Base.Sort.{contains, sort_by}
use utp.Seq.{ℤ, add, diff, ge}
use utp.Sack.{Sack, create, received, mask_length, last_or, mark_all, mark, set_bit}
use utp.Sack.RoundTrip.{received-create}
use utp.Sack.Length.{stale-overflows}
use utp.Packet.{
  ◌>>=◌, Packet, Extension, num, ok, err, from_bytes, to_bytes, is_packet, next_type, packet_length,
  sum_payloads, payload_bytes, payload_of, type_of, no_fuel, to_uint32, get_uint8, get_uint16,
  get_uint32, parse_extensions,
}
use utp.Packet.RoundTrip.{IsWellFormed}
use utp.Packet.Wire.{on_wire, from_bytes_wire}
use utp.Packet.Parse.{from_bytes-ne-no_fuel}
use utp.Packet.Decoded.{AreBytes}
use utp.Packet.Canonical.{renamed, from_bytes-IsWellFormed, to_bytes-from_bytes}

abbrev gap_mask : Sack
gap_mask = record { base = 1000; bitmask = 5 ∷ 0 ∷ 0 ∷ 128 ∷ [] }

abbrev full_packet : Packet
full_packet = record {
  type = 0;
  version = 1;
  extension = 1;
  conn_id = 4660;
  timestamp = 305419896;
  timestamp_difference = num (ℤ.pos 77);
  window_size = 262144;
  seq_nr = 65535;
  ack_nr = 1000;
  extensions = Extension.sack gap_mask ∷ Extension.bits (replicate 8 0) ∷ [];
  payload = some (104 ∷ 105 ∷ []);
}

full_packet-IsWellFormed : IsWellFormed full_packet
unfolding next_type type_of
full_packet-IsWellFormed = record {
  type_in = omega arith;
  version_in = omega arith;
  extension_is = refl;
  conn_id_in = omega arith;
  timestamp_in = omega arith;
  difference = 77;
  difference_is = refl;
  difference_in = omega arith;
  window_size_in = omega arith;
  seq_nr_in = omega arith;
  ack_nr_in = omega arith;
  extensions_fit = ((refl, refl, omega arith), (refl, tt));
  payload_is = λ e. cc;
}

size_in : packet_length full_packet ≤ 2 ^ 16
unfolding packet_length sum_payloads payload_bytes payload_of
size_in = omega arith

-- A header whose second byte announces an extension, and nothing behind it.
abbrev cut_datagram : List ℕ
cut_datagram = 33 ∷ 1 ∷ replicate 18 0

from_bytes-ne-no_fuel_example : from_bytes cut_datagram ≢ err no_fuel
from_bytes-ne-no_fuel_example = from_bytes-ne-no_fuel cut_datagram

abbrev bare_datagram : List ℕ
bare_datagram = 33 ∷ 0 ∷ replicate 18 0

bare_accepted : is_packet bare_datagram ≡ ok true
unfolding is_packet from_bytes get_uint8 get_uint16 get_uint32 parse_extensions
bare_accepted = refl

abbrev two_ahead : Sack
two_ahead = record { base = 65533; bitmask = 10 ∷ 0 ∷ 0 ∷ 0 ∷ [] }

two_ahead_made : create 65533 (2 ∷ 0 ∷ []) ≡ some two_ahead
unfolding create sort_by mask_length last_or mark_all mark set_bit diff add ge
two_ahead_made = refl

received-create_example : contains 0 (received two_ahead) ≡ true
unfolding contains ge add
received-create_example =
    received-create 65533 2 0 (0 ∷ []) two_ahead (omega arith) (omega arith) two_ahead_made

inside_mask : diff 1 (add 65533 (ℤ.pos 2)) < 32
unfolding diff add
inside_mask = omega arith

ack_ahead : ge 1000 999 ≡ true
unfolding ge
ack_ahead = refl

abbrev stale_mask : Sack
stale_mask = record { base = 1000; bitmask = mark_all 1002 8192 (999 ∷ []) (replicate 8192 0) }

stale_mask_made : create 1000 (999 ∷ []) ≡ some stale_mask
unfolding create sort_by mask_length last_or diff add
stale_mask_made = refl

stale_held : contains 999 (999 ∷ []) ≡ true
unfolding contains
stale_held = refl

-- One packet from before the acknowledged one in the queue.
stale-overflows_example : 255 < length stale_mask.bitmask
stale-overflows_example =
    stale-overflows 1000 999 999 [] stale_mask (omega arith) (omega arith) stale_mask_made
      stale_held ack_ahead

-- A time in microseconds of our days, which takes more than 32 bits, and a difference below 0.
abbrev late_packet : Packet
late_packet = record full_packet {
  timestamp = 1700000000000000;
  timestamp_difference = num (ℤ.negsuc 76);
}

late_packet-IsWellFormed : IsWellFormed (on_wire late_packet)
unfolding next_type type_of to_uint32
late_packet-IsWellFormed = record {
  type_in = omega arith;
  version_in = omega arith;
  extension_is = refl;
  conn_id_in = omega arith;
  timestamp_in = omega arith;
  difference = 4294967219;
  difference_is = refl;
  difference_in = omega arith;
  window_size_in = omega arith;
  seq_nr_in = omega arith;
  ack_nr_in = omega arith;
  extensions_fit = ((refl, refl, omega arith), (refl, tt));
  payload_is = λ e. cc;
}

from_bytes_wire_example : from_bytes (to_bytes late_packet) ≡ ok (on_wire late_packet)
from_bytes_wire_example = from_bytes_wire late_packet late_packet-IsWellFormed

bare_bytes : AreBytes bare_datagram
bare_bytes = ground arith

abbrev bare_packet : Packet
bare_packet = record full_packet {
  type = 2;
  extension = 0;
  conn_id = 0;
  timestamp = 0;
  timestamp_difference = num (ℤ.pos 0);
  window_size = 0;
  seq_nr = 0;
  ack_nr = 0;
  extensions = [];
  payload = none;
}

bare_decoded : from_bytes bare_datagram ≡ ok bare_packet
unfolding from_bytes get_uint8 get_uint16 get_uint32 parse_extensions
bare_decoded = refl

from_bytes-IsWellFormed_example : IsWellFormed (renamed bare_packet)
from_bytes-IsWellFormed_example =
    from_bytes-IsWellFormed bare_datagram bare_bytes bare_packet (omega arith) bare_decoded

to_bytes-from_bytes_example : (from_bytes bare_datagram >>= λ p. ok (to_bytes p)) ≡ ok bare_datagram
to_bytes-from_bytes_example = to_bytes-from_bytes bare_datagram bare_bytes (omega arith) refl
