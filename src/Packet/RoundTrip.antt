-- ===== src/Packet/RoundTrip.antt =====
-- `fromBytes` after `toBytes`, and the length of what `toBytes` writes.
use utp.Base.{
  ℕ, ◌+◌, ◌*◌, ◌/◌, ◌%◌, ◌^◌, ◌≤◌, ◌<◌, ◌≡◌, ◌≢◌, refl, List, [], ◌∷◌, ◌++◌, arith, length, ap, ap₂,
  ◌∙◌, sym, length-append, append_assoc, append-nil, drop, some, none, Option, ltb, if◌then◌else◌,
}
use utp.Seq.{ℤ}
use utp.Packet.{
  Packet, num, Extension, ok, from_bytes, to_bytes, header, to_uint32, packet_length,
  parse_extensions, extension_bytes, next_type, type_of, payload_of, sum_payloads, payload_bytes,
}
use utp.Packet.Header.{
  length-header, read-type, read-extension, read-conn_id, read-timestamp, read-timestamp_difference,
  read-window_size, read-seq_nr, read-ack_nr,
}
use utp.Packet.Extensions.{AllFit, parse-extension_bytes, drop-append}

-- A packet that the wire format can carry: every field in its width, `extension` the type of the
-- first extension or 0, every extension fitting, and no payload of length 0.
pub record IsWellFormed (p : Packet) : Type 0 where
  pub type_in : p.type < 16
  pub version_in : p.version < 16
  pub extension_is : p.extension ≡ next_type p.extensions
  pub conn_id_in : p.conn_id < 2 ^ 16
  pub timestamp_in : p.timestamp < 2 ^ 32
  pub difference : ℕ
  pub difference_is : p.timestamp_difference ≡ num (ℤ.pos difference)
  pub difference_in : difference < 2 ^ 32
  pub window_size_in : p.window_size < 2 ^ 32
  pub seq_nr_in : p.seq_nr < 2 ^ 16
  pub ack_nr_in : p.ack_nr < 2 ^ 16
  pub extensions_fit : AllFit p.ack_nr p.extensions
  pub payload_is : p.payload ≢ some []

pub next_type-small : (es : List Extension) → next_type es < 256
unfolding next_type type_of
next_type-small [] = omega arith
next_type-small (Extension.sack s ∷ es) = omega arith
next_type-small (Extension.bits b ∷ es) = omega arith

length-le-extension_bytes : (es : List Extension) → length es ≤ length (extension_bytes es)
unfolding extension_bytes
length-le-extension_bytes [] = omega arith
length-le-extension_bytes (e ∷ es) =
    omega (arith, length-le-extension_bytes es, length-append (payload_of e) (extension_bytes es))

payload-back :
    (d : Option (List ℕ)) (pre : List ℕ) (n : ℕ)
    → d ≢ some []
    → n ≡ length pre
    → (if ltb n (length (pre ++ payload_bytes d))
        then some (drop n (pre ++ payload_bytes d))
        else none)
      ≡ d
unfolding payload_bytes
payload-back none pre n ne e = rw append-nil (ground arith)
payload-back (some []) pre n ne e = absurd (ne refl)
payload-back (some (x ∷ xs)) pre n ne e =
    rw (e, drop-append) (ground (arith, length-append pre (x ∷ xs)))

length-extension_bytes :
    (es : List Extension) → length (extension_bytes es) ≡ 2 * length es + sum_payloads es
unfolding extension_bytes sum_payloads
length-extension_bytes [] = refl
length-extension_bytes (e ∷ es) =
    omega (arith, length-extension_bytes es, length-append (payload_of e) (extension_bytes es))

-- `toBytes` writes as many bytes as `length()` says, for every packet.
pub length-to_bytes : (p : Packet) → length (to_bytes p) ≡ packet_length p
unfolding to_bytes packet_length
length-to_bytes p = omega (
  arith,
  length-header p [],
  length-append (header p) (extension_bytes p.extensions ++ payload_bytes p.payload),
  length-append (extension_bytes p.extensions) (payload_bytes p.payload),
  length-extension_bytes p.extensions,
)

module _ (p : Packet) (v : IsWellFormed p) where
  rest : List ℕ
  rest = extension_bytes p.extensions ++ payload_bytes p.payload

  parsed :
      parse_extensions (length (header p ++ rest)) (header p ++ rest) p.ack_nr p.extension 20
      ≡ ok (p.extensions, 20 + length (extension_bytes p.extensions))
  unfolding rest
  parsed =
      ap₂ (parse_extensions (length (header p ++ rest)) (header p ++ rest) p.ack_nr) v.extension_is
        (sym (length-header p []))
      ∙ parse-extension_bytes p.extensions _ p.ack_nr (header p) (payload_bytes p.payload)
          v.extensions_fit enough
      ∙ ap (λ n. ok (p.extensions, n + length (extension_bytes p.extensions))) (length-header p [])
    where
      enough : length p.extensions < length (header p ++ rest)
      enough = omega (
        arith,
        length-header p [],
        length-le-extension_bytes p.extensions,
        length-append (header p) rest,
        length-append (extension_bytes p.extensions) (payload_bytes p.payload),
      )

  payload_read :
      (if ltb (20 + length (extension_bytes p.extensions)) (length (header p ++ rest))
        then some (drop (20 + length (extension_bytes p.extensions)) (header p ++ rest))
        else none)
      ≡ p.payload
  unfolding rest
  payload_read =
      rw (← append_assoc (header p) (extension_bytes p.extensions) (payload_bytes p.payload)) (
        payload-back p.payload (header p ++ extension_bytes p.extensions) _ v.payload_is (
          omega
            (arith, length-header p [], length-append (header p) (extension_bytes p.extensions))))

  difference_read : num (ℤ.pos (to_uint32 p.timestamp_difference % 2 ^ 32)) ≡ p.timestamp_difference
  unfolding to_uint32
  difference_read = rw v.difference_is (ap (λ n. num (ℤ.pos n)) (omega (arith, v.difference_in)))

  type_read : (p.type * 16 + p.version) / 16 ≡ p.type
  type_read = omega (arith, v.version_in)

  version_read : (p.type * 16 + p.version) % 16 ≡ p.version
  version_read = omega (arith, v.version_in)

  decoded : from_bytes (header p ++ rest) ≡ ok p
  unfolding from_bytes
  decoded = rw (
    read-type p rest v.type_in v.version_in,
    read-extension p rest (rw v.extension_is (next_type-small p.extensions)),
    read-conn_id p rest v.conn_id_in,
    read-timestamp p rest v.timestamp_in,
    read-timestamp_difference p rest,
    read-window_size p rest v.window_size_in,
    read-seq_nr p rest v.seq_nr_in,
    read-ack_nr p rest v.ack_nr_in,
    parsed,
    payload_read,
    difference_read,
    type_read,
    version_read,
  )

-- Decoding what a well-formed packet was encoded to gives the packet back: every field fits into its
-- bytes, the extensions fit their length byte, and the first of them is the one that the header names.
pub from_bytes-to_bytes : (p : Packet) → IsWellFormed p → from_bytes (to_bytes p) ≡ ok p
unfolding to_bytes rest
from_bytes-to_bytes p v = decoded p v
