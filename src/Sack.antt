-- ===== src/Sack.antt =====
-- src/utp_ext_sack.ts: the selective acknowledgement, a mask of bits that says which packets
-- behind `ack_nr + 2` have arrived. A byte array is a list of numbers below 256; its bit `i` is the
-- bit `i % 8` of the byte `i / 8`.
pub mod Bits
pub mod Mask
pub mod Scan
pub mod RoundTrip
pub mod Length
use utp.Base.{
  ℕ, zero, suc, ◌+◌, ◌-◌, ◌*◌, ◌/◌, ◌%◌, ◌^◌, max, bit_and, bit_or, Bool, true, false, not, List,
  [], ◌∷◌, ◌++◌, Option, none, some, ltb, ◌==◌, if◌then◌else◌, length, get_or, set, replicate,
}
use utp.Base.Sort.{sort_by}
use utp.Seq.{ℤ, add, diff, ge}

pub record Sack : Type 0 where
  pub base : ℕ
  pub bitmask : List ℕ

abbrev pub min_bitmask_length : ℕ
min_bitmask_length = 4

-- `createFromBytes`: `none` is the error for a length that is not a multiple of 4.
unfoldable pub create_from_bytes : ℕ → List ℕ → Option Sack
create_from_bytes local_ack_nr bitmask =
    if length bitmask % 4 == 0
    then some (record { base = local_ack_nr; bitmask = bitmask })
    else none

-- `Math.ceil(n / d)`
abbrev pub ceil_div : ℕ → ℕ → ℕ
ceil_div n d = (n + d - 1) / d

-- the element `seqNrs[seqNrs.length - 1]` of a list that is not empty
unfoldable pub last_or : List ℕ → ℕ → ℕ
last_or [] d = d
last_or (x ∷ xs) d = last_or xs x

-- the length in bytes of a mask whose last bit stands for `last_seq`
unfoldable pub mask_length : ℕ → ℕ → ℕ
mask_length first_seq last_seq =
    max min_bitmask_length
      (ceil_div (ceil_div (diff last_seq first_seq + 1) 8) min_bitmask_length * min_bitmask_length)

-- `bitmask[byteIndex] |= (1 << bitPosition)`
unfoldable pub set_bit : List ℕ → ℕ → List ℕ
set_bit mask i = set mask (i / 8) (bit_or (get_or mask (i / 8) 0) (2 ^ (i % 8)))

-- one round of the loop over the received numbers
unfoldable pub mark : ℕ → ℕ → List ℕ → ℕ → List ℕ
mark first_seq len mask seq_nr =
    if ge seq_nr first_seq
    then (if ltb (diff seq_nr first_seq) (len * 8)
        then set_bit mask (diff seq_nr first_seq)
        else mask)
    else mask

unfoldable pub mark_all : ℕ → ℕ → List ℕ → List ℕ → List ℕ
mark_all first_seq len [] mask = mask
mark_all first_seq len (s ∷ seqs) mask = mark_all first_seq len seqs (mark first_seq len mask s)

-- `UtpSelectiveAckExtension.create`; `none` is its `undefined`.
unfoldable pub create : ℕ → List ℕ → Option Sack
create local_ack_nr [] = none
create local_ack_nr (r ∷ rs) =
    let first_seq = add local_ack_nr (ℤ.pos 2) in
    let seq_nrs = sort_by (λ s. diff s first_seq) (r ∷ rs) in
    let len = mask_length first_seq (last_or seq_nrs 0) in
    some
      (record { base = local_ack_nr; bitmask = mark_all first_seq len seq_nrs (replicate len 0) })

-- `(byte & (1 << bitOffset)) !== 0`
unfoldable pub test_bit : ℕ → ℕ → Bool
test_bit byte i = not (bit_and byte (2 ^ i) == 0)

-- The inner loop of `getRemoteReceivedSeqNrs` and, with `wanted` false, of
-- `getRemoteNotReceivedSeqNrs`: the numbers of the next bits of a byte, and where the count stands.
unfoldable pub scan_byte : Bool → ℕ → ℕ → ℕ → ℕ → List ℕ × ℕ
scan_byte wanted zero bit_offset byte seq_nr = ([], seq_nr)
scan_byte wanted (suc rounds) bit_offset byte seq_nr =
    let (rest, next) = scan_byte wanted rounds (bit_offset + 1) byte (add seq_nr (ℤ.pos 1)) in
    (
      if test_bit byte bit_offset
          then (if wanted then seq_nr ∷ rest else rest)
          else (if wanted then rest else seq_nr ∷ rest),
      next,
    )

unfoldable pub scan : Bool → List ℕ → ℕ → List ℕ
scan wanted [] seq_nr = []
scan wanted (byte ∷ bytes) seq_nr =
    let (found, next) = scan_byte wanted 8 0 byte seq_nr in found ++ scan wanted bytes next

-- `getRemoteReceivedSeqNrs`
unfoldable pub received : Sack → List ℕ
received s = scan true s.bitmask (add s.base (ℤ.pos 2))

-- `getRemoteNotReceivedSeqNrs`
unfoldable pub not_received : Sack → List ℕ
not_received s = add s.base (ℤ.pos 1) ∷ scan false s.bitmask (add s.base (ℤ.pos 2))
