-- ===== src/Packet/Accept.antt =====
-- What `isPacket` says of a datagram.
use utp.Base.{ℕ, ◌^◌, ◌≤◌, ◌<◌, ◌≡◌, ◌≢◌, true, List, arith, length, get_or, inl, inr}
use utp.Packet.{Packet, range_error, ok, err, from_bytes, to_bytes, is_packet, packet_length}
use utp.Packet.RoundTrip.{IsWellFormed, from_bytes-to_bytes, length-to_bytes, next_type-small}
use utp.Packet.Parse.{from_bytes-cut, Result-cases}

-- A datagram that `isPacket` accepts has between 20 bytes and the largest size, and `fromBytes` decodes
-- it, to a packet of version 1 and of one of the five types.
pub is_packet_sound :
    (bytes : List ℕ)
    → is_packet bytes ≡ ok true
    → (p : Packet) × (from_bytes bytes ≡ ok p)
      × (p.version ≡ 1)
      × (p.type ≤ 4)
      × (20 ≤ length bytes)
      × (length bytes ≤ 2 ^ 16)
unfolding is_packet
is_packet_sound bytes h = elim (Result-cases (from_bytes bytes)) [
  | inl (p, e) ↦ (p, e, ground arith, ground arith, ground arith, ground arith)
  | inr (x, e) ↦ absurd (ground arith)
]

at_least_header : (p : Packet) → 20 ≤ packet_length p
unfolding packet_length
at_least_header p = omega arith

-- The datagram of every well-formed packet of version 1, of one of the five types and not above the
-- largest size is accepted.
pub is_packet-to_bytes :
    (p : Packet)
    → IsWellFormed p
    → p.version ≡ 1
    → p.type ≤ 4
    → packet_length p ≤ 2 ^ 16
    → is_packet (to_bytes p) ≡ ok true
unfolding is_packet
is_packet-to_bytes p v hv ht hl = ground (
  arith,
  from_bytes-to_bytes p v,
  length-to_bytes p,
  at_least_header p,
  next_type-small p.extensions,
)

-- `isPacket` throws a range error, where it should answer, on a datagram of 20 or 21 bytes whose header
-- announces an extension.
pub is_packet-cut :
    (bytes : List ℕ)
    → 20 ≤ length bytes
    → length bytes < 22
    → get_or bytes 1 0 ≢ 0
    → is_packet bytes ≡ err range_error
unfolding is_packet
is_packet-cut bytes lo hi ne = ground (arith, from_bytes-cut bytes lo hi ne)
