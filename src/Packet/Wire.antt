-- ===== src/Packet/Wire.antt =====
-- `fromBytes` after `toBytes` for a packet as a connection makes it: its timestamps are wider than their fields.
use utp.Base.{ℕ, ◌%◌, ◌^◌, ◌≡◌, ◌*◌, bit_or, refl, sym, ◌∙◌, ap, List, ◌∷◌, ◌++◌, arith}
use utp.Seq.{ℤ}
use utp.Packet.{
  Packet, Number, num, nan, ok, from_bytes, to_bytes, header, to_uint32, set_uint16, set_uint32,
  extension_bytes, payload_bytes,
}
use utp.Packet.RoundTrip.{IsWellFormed, from_bytes-to_bytes}

-- what the 32-bit fields hold of a packet
abbrev pub on_wire : Packet → Packet
on_wire p = record p {
  timestamp = p.timestamp % 2 ^ 32;
  timestamp_difference = num (ℤ.pos (to_uint32 p.timestamp_difference));
  window_size = p.window_size % 2 ^ 32;
}

set_uint32-mod : (x : ℕ) → set_uint32 (x % 2 ^ 32) ≡ set_uint32 x
set_uint32-mod x = ground arith

to_uint32-small : (n : Number) → to_uint32 (num (ℤ.pos (to_uint32 n))) ≡ to_uint32 n
unfolding to_uint32
to_uint32-small (num (ℤ.pos n)) = omega arith
to_uint32-small (num (ℤ.negsuc n)) = omega arith
to_uint32-small nan = refl

-- the header, from its three wide fields
around : Packet → List ℕ → List ℕ → List ℕ → List ℕ
around p timestamp difference window_size =
    (bit_or (p.type * 16) p.version % 256) ∷ (p.extension % 256) ∷ set_uint16 p.conn_id
    ++ timestamp
    ++ difference
    ++ window_size
    ++ set_uint16 p.seq_nr
    ++ set_uint16 p.ack_nr

header-on_wire : (p : Packet) → header (on_wire p) ≡ header p
unfolding header around
header-on_wire p =
    ap
      (λ t.
        around p t (set_uint32 (to_uint32 (on_wire p).timestamp_difference))
          (set_uint32 (on_wire p).window_size))
      (set_uint32-mod p.timestamp)
    ∙ ap
        (λ d. around p (set_uint32 p.timestamp) (set_uint32 d) (set_uint32 (on_wire p).window_size))
        (to_uint32-small p.timestamp_difference)
    ∙ ap (around p (set_uint32 p.timestamp) (set_uint32 (to_uint32 p.timestamp_difference)))
        (set_uint32-mod p.window_size)

to_bytes-on_wire : (p : Packet) → to_bytes (on_wire p) ≡ to_bytes p
unfolding to_bytes
to_bytes-on_wire p =
    ap (λ h. h ++ (extension_bytes p.extensions ++ payload_bytes p.payload)) (header-on_wire p)

-- Decoding what a packet was encoded to gives the packet with its timestamps, their difference and its window size
-- modulo 2 ^ 32, and all else as it was: if the packet so reduced is well-formed.
pub from_bytes_wire :
    (p : Packet) → IsWellFormed (on_wire p) → from_bytes (to_bytes p) ≡ ok (on_wire p)
from_bytes_wire p v = ap from_bytes (sym (to_bytes-on_wire p)) ∙ from_bytes-to_bytes (on_wire p) v
