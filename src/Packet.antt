-- ===== src/Packet.antt =====
-- src/utp_packet.ts and src/utp_ext_bits.ts: the packet, its extensions, `fromBytes`, `toBytes`,
-- `length` and `isPacket`. A byte array is a list of numbers below 256; a `DataView` writes a number
-- modulo its width, and a read behind the end of the buffer throws. The fields `needResend` and
-- `logger` carry nothing that the codec reads, and are left out.
pub mod Header
pub mod Extensions
pub mod RoundTrip
pub mod Parse
pub mod Accept
pub mod Wire
pub mod Decoded
pub mod Canonical
use utp.Base.{
  ℕ, zero, suc, ◌+◌, ◌-◌, ◌*◌, ◌/◌, ◌%◌, ◌^◌, bit_or, Bool, true, false, List, [], ◌∷◌, ◌++◌,
  Option, none, some, ltb, leb, ◌==◌, if◌then◌else◌, length, get_elem?, take, drop, replicate, not,
}
use utp.Seq.{ℤ}
use utp.Sack
use utp.Sack.{Sack, create_from_bytes}

-- The errors that end a call: a `RangeError` of `DataView`, a selective acknowledgement whose length
-- is not a multiple of 4, extension bits that are not 8 bytes. `no_fuel` marks a loop that was cut off.
pub data Error : Type 0 where
  range_error bad_bitmask bad_bits no_fuel : Error

pub data Result {ℓ} (A : Type ℓ) : Type ℓ where
  ok : A → Result A
  err : Error → Result A

infixl 5 ◌>>=◌
abbrev pub ◌>>=◌ {ℓ κ} : {A : Type ℓ} {B : Type κ} → Result A → (A → Result B) → Result B
ok a >>= f = f a
err e >>= f = err e

-- `UtpPacketType`, by its numbers.
abbrev pub st_data : ℕ
st_data = 0

abbrev pub st_fin : ℕ
st_fin = 1

abbrev pub st_state : ℕ
st_state = 2

abbrev pub st_reset : ℕ
st_reset = 3

abbrev pub st_syn : ℕ
st_syn = 4

-- `ExtensionType`
abbrev pub selective_acknowledgement : ℕ
selective_acknowledgement = 1

abbrev pub extension_bits : ℕ
extension_bits = 2

abbrev pub header_size : ℕ
header_size = 20

abbrev pub extension_header_size : ℕ
extension_header_size = 2

abbrev pub min_packet_size : ℕ
min_packet_size = 20

abbrev pub max_packet_size : ℕ
max_packet_size = 2 ^ 16

-- the implementations of the interface `Extension`
pub data Extension : Type 0 where
  sack : Sack → Extension
  bits : List ℕ → Extension

abbrev pub bits_length : ℕ
bits_length = 8

-- `UtpExtensionBits.create`
unfoldable pub create_bits : Extension
create_bits = bits (replicate bits_length 0)

-- `UtpExtensionBits.createFromBytes`
unfoldable pub bits_from_bytes : List ℕ → Result Extension
bits_from_bytes payload = if length payload == bits_length then ok (bits payload) else err bad_bits

unfoldable pub sack_from_bytes : ℕ → List ℕ → Result Extension
sack_from_bytes ack_nr payload = elim (create_from_bytes ack_nr payload) [
  | none ↦ err bad_bitmask
  | some s ↦ ok (sack s)
]

-- the field `type` and the method `toBytes` of an extension
unfoldable pub type_of : Extension → ℕ
type_of (sack _) = selective_acknowledgement
type_of (bits _) = extension_bits

unfoldable pub payload_of : Extension → List ℕ
payload_of (sack s) = s.bitmask
payload_of (bits b) = b

-- A JavaScript number that is an integer or NaN.
pub data Number : Type 0 where
  num : ℤ → Number
  nan : Number

pub record Packet : Type 0 where
  pub type : ℕ
  pub version : ℕ
  pub extension : ℕ
  pub conn_id : ℕ
  pub timestamp : ℕ
  pub timestamp_difference : Number
  pub window_size : ℕ
  pub seq_nr : ℕ
  pub ack_nr : ℕ
  pub extensions : List Extension
  pub payload : Option (List ℕ)

-- `DataView.setUint16` and `setUint32`, most significant byte first
abbrev pub set_uint16 : ℕ → List ℕ
set_uint16 x = (x / 256 % 256) ∷ (x % 256) ∷ []

abbrev pub set_uint32 : ℕ → List ℕ
set_uint32 x = (x / 2 ^ 24 % 256) ∷ (x / 2 ^ 16 % 256) ∷ (x / 256 % 256) ∷ (x % 256) ∷ []

-- `ToUint32`: NaN is written as 0, a negative number modulo 2 ^ 32.
unfoldable pub to_uint32 : Number → ℕ
to_uint32 (num (ℤ.pos n)) = n % 2 ^ 32
to_uint32 (num (ℤ.negsuc n)) = (2 ^ 32 * suc n - suc n) % 2 ^ 32
to_uint32 nan = 0

unfoldable pub header : Packet → List ℕ
header p =
    (bit_or (p.type * 16) p.version % 256) ∷ (p.extension % 256) ∷ set_uint16 p.conn_id
    ++ set_uint32 p.timestamp
    ++ set_uint32 (to_uint32 p.timestamp_difference)
    ++ set_uint32 p.window_size
    ++ set_uint16 p.seq_nr
    ++ set_uint16 p.ack_nr

-- `i + 1 < this.extensions.length ? this.extensions[i + 1].type : 0`
unfoldable pub next_type : List Extension → ℕ
next_type [] = 0
next_type (e ∷ _) = type_of e

-- the loop of `toBytes` over the extensions
unfoldable pub extension_bytes : List Extension → List ℕ
extension_bytes [] = []
extension_bytes (e ∷ es) =
    (next_type es % 256) ∷ (length (payload_of e) % 256) ∷ payload_of e ++ extension_bytes es

unfoldable pub payload_bytes : Option (List ℕ) → List ℕ
payload_bytes none = []
payload_bytes (some d) = d

-- `toBytes`: the parts fill the buffer of `length()` bytes one after the other.
unfoldable pub to_bytes : Packet → List ℕ
to_bytes p = header p ++ (extension_bytes p.extensions ++ payload_bytes p.payload)

unfoldable pub sum_payloads : List Extension → ℕ
sum_payloads [] = 0
sum_payloads (e ∷ es) = length (payload_of e) + sum_payloads es

-- `length()`
unfoldable pub packet_length : Packet → ℕ
packet_length p =
    header_size
    + (extension_header_size * length p.extensions
        + sum_payloads p.extensions
        + length (payload_bytes p.payload))

-- `DataView.getUint8`, `getUint16` and `getUint32`
unfoldable pub get_uint8 : List ℕ → ℕ → Result ℕ
get_uint8 bytes i = elim (get_elem? bytes i) [ none ↦ err range_error | some b ↦ ok b ]

unfoldable pub get_uint16 : List ℕ → ℕ → Result ℕ
unfolding get_uint8
get_uint16 bytes i = do hi ← get_uint8 bytes i; lo ← get_uint8 bytes (i + 1); ok (hi * 256 + lo)

unfoldable pub get_uint32 : List ℕ → ℕ → Result ℕ
unfolding get_uint16
get_uint32 bytes i = do
  hi ← get_uint16 bytes i
  lo ← get_uint16 bytes (i + 2)
  ok (hi * 2 ^ 16 + lo)

-- `bytes.slice(start, end)`, which stops at the end of the buffer
unfoldable pub slice : List ℕ → ℕ → ℕ → List ℕ
slice bytes start stop = take (stop - start) (drop start bytes)

-- the body of the loop of `fromBytes` that makes an extension of a payload; one of an unknown
-- type is skipped
unfoldable pub read_extension : ℕ → ℕ → List ℕ → Result (List Extension)
unfolding sack_from_bytes bits_from_bytes
read_extension ack_nr extension_type payload =
    if extension_type == selective_acknowledgement
    then (sack_from_bytes ack_nr payload >>= λ e. ok (e ∷ []))
    else (if extension_type == extension_bits
        then (bits_from_bytes payload >>= λ e. ok (e ∷ []))
        else ok [])

-- The `while` of `fromBytes`, on fuel: the extensions and the offset behind them.
unfoldable pub parse_extensions : ℕ → List ℕ → ℕ → ℕ → ℕ → Result (List Extension × ℕ)
parse_extensions zero bytes ack_nr extension_type offset = err no_fuel
parse_extensions (suc fuel) bytes ack_nr zero offset = ok ([], offset)
parse_extensions (suc fuel) bytes ack_nr (suc t) offset = do
  next_extension_type ← get_uint8 bytes offset
  extension_length ← get_uint8 bytes (offset + 1)
  let start = offset + extension_header_size
  found ← read_extension ack_nr (suc t) (slice bytes start (start + extension_length))
  (more, end) ← parse_extensions fuel bytes ack_nr next_extension_type (start + extension_length)
  ok (found ++ more, end)

-- `fromBytes`. Each round of the loop reads two more bytes, so that the length is enough fuel.
unfoldable pub from_bytes : List ℕ → Result Packet
from_bytes bytes = do
  first ← get_uint8 bytes 0
  extension ← get_uint8 bytes 1
  conn_id ← get_uint16 bytes 2
  timestamp ← get_uint32 bytes 4
  timestamp_difference ← get_uint32 bytes 8
  window_size ← get_uint32 bytes 12
  seq_nr ← get_uint16 bytes 16
  ack_nr ← get_uint16 bytes 18
  (extensions, offset) ← parse_extensions (length bytes) bytes ack_nr extension header_size
  ok (record {
    type = first / 16;
    version = first % 16;
    extension = extension;
    conn_id = conn_id;
    timestamp = timestamp;
    timestamp_difference = num (ℤ.pos timestamp_difference);
    window_size = window_size;
    seq_nr = seq_nr;
    ack_nr = ack_nr;
    extensions = extensions;
    payload = if ltb offset (length bytes) then some (drop offset bytes) else none;
  })

-- `isPacket`: the sizes, then the fields of the decoded packet. The tests for numbers below 0 and
-- above the width of a field are those that can fail for no decoded packet.
unfoldable pub is_packet : List ℕ → Result Bool
is_packet buffer =
    if ltb (length buffer) min_packet_size
    then ok false
    else (if ltb max_packet_size (length buffer)
        then ok false
        else (from_bytes buffer >>= λ p. ok (
            if not (p.version == 1)
            then false
            else (if ltb 4 p.type
                then false
                else (if ltb 255 p.extension
                    then false
                    else (if ltb 65535 p.conn_id
                        then false
                        else (if ltb 65535 p.seq_nr
                            then false
                            else (if ltb 65535 p.ack_nr then false else true))))))))
