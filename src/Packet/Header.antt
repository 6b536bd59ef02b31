-- ===== src/Packet/Header.antt =====
-- The 20 bytes in front: what is written is read back.
use utp.Base.{
  ℕ, ◌+◌, ◌*◌, ◌%◌, ◌^◌, ◌<◌, ◌≡◌, refl, bit_or, Bool, true, List, ◌++◌, arith, length, ◌==◌,
  ==_iff, ap,
}
use utp.Sack.Bits.{for_all, for_all-lt}
use utp.Packet.{Packet, ok, header, get_uint8, get_uint16, get_uint32, to_uint32}

nibbles_add : ℕ → Bool
nibbles_add hi = for_all (λ lo. bit_or (hi * 16) lo == hi * 16 + lo) 16

nibble_table : for_all (λ hi. nibbles_add hi) 16 ≡ true
unfolding for_all nibbles_add
nibble_table = refl

pub bit_or_nibbles : (t v : ℕ) → t < 16 → v < 16 → bit_or (t * 16) v ≡ t * 16 + v
unfolding nibbles_add
bit_or_nibbles t v ht hv = (==_iff _ _).0 (
    for_all-lt (λ lo. bit_or (t * 16) lo == t * 16 + lo) 16 v
      (for_all-lt (λ hi. nibbles_add hi) 16 t nibble_table ht) hv)

module _ (p : Packet) (rest : List ℕ) where
  pub length-header : length (header p) ≡ 20
  unfolding header
  length-header = refl

  pub read-type :
      p.type < 16 → p.version < 16 → get_uint8 (header p ++ rest) 0 ≡ ok (p.type * 16 + p.version)
  unfolding header get_uint8
  read-type ht hv = ap ok (omega (arith, bit_or_nibbles p.type p.version ht hv))

  pub read-extension : p.extension < 256 → get_uint8 (header p ++ rest) 1 ≡ ok p.extension
  unfolding header get_uint8
  read-extension h = ap ok (omega arith)

  pub read-conn_id : p.conn_id < 2 ^ 16 → get_uint16 (header p ++ rest) 2 ≡ ok p.conn_id
  unfolding header get_uint16
  read-conn_id h = ap ok (omega arith)

  pub read-timestamp : p.timestamp < 2 ^ 32 → get_uint32 (header p ++ rest) 4 ≡ ok p.timestamp
  unfolding header get_uint32
  read-timestamp h = ap ok (omega arith)

  pub read-timestamp_difference :
      get_uint32 (header p ++ rest) 8 ≡ ok (to_uint32 p.timestamp_difference % 2 ^ 32)
  unfolding header get_uint32
  read-timestamp_difference = ap ok (omega arith)

  pub read-window_size :
      p.window_size < 2 ^ 32 → get_uint32 (header p ++ rest) 12 ≡ ok p.window_size
  unfolding header get_uint32
  read-window_size h = ap ok (omega arith)

  pub read-seq_nr : p.seq_nr < 2 ^ 16 → get_uint16 (header p ++ rest) 16 ≡ ok p.seq_nr
  unfolding header get_uint16
  read-seq_nr h = ap ok (omega arith)

  pub read-ack_nr : p.ack_nr < 2 ^ 16 → get_uint16 (header p ++ rest) 18 ≡ ok p.ack_nr
  unfolding header get_uint16
  read-ack_nr h = ap ok (omega arith)
