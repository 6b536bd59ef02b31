-- ===== src/Sack/Mask.antt =====
-- The bits of a mask, and which of them the loop of `create` sets.
use utp.Base.{
  ℕ, zero, suc, ◌+◌, ◌-◌, ◌*◌, ◌/◌, ◌%◌, ◌^◌, ◌<◌, ◌≡◌, refl, bit_or, Bool, true, false, ◌&&◌, ◌||◌,
  List, [], ◌∷◌, arith, ltb, ◌==◌, if◌then◌else◌, length, set, get_or, replicate, length-set, ◌∙◌,
}
use utp.Base.Sort.{contains}
use utp.Seq.{diff, ge, seq_mod}
use utp.Sack.{set_bit, mark, mark_all, test_bit}
use utp.Sack.Bits.{bit_or-byte, test_bit-bit_or, test_bit-zero}

abbrev pub AllBytes : List ℕ → Type 0
AllBytes [] = Unit {0}
AllBytes (b ∷ bs) = (b < 256) × AllBytes bs

-- Bit `i` of a mask, false behind its end.
unfoldable pub bit_at : List ℕ → ℕ → Bool
bit_at [] i = false
bit_at (b ∷ bs) i = let later = bit_at bs (i - 8) in if ltb i 8 then test_bit b i else later

or_bit : List ℕ → ℕ → ℕ → List ℕ
or_bit mask k p = set mask k (bit_or (get_or mask k 0) (2 ^ p))

or_bit-AllBytes : (mask : List ℕ) (k p : ℕ) → p < 8 → AllBytes mask → AllBytes (or_bit mask k p)
unfolding or_bit
or_bit-AllBytes [] k p hp a = tt
or_bit-AllBytes (b ∷ bs) zero p hp a = (bit_or-byte b p a.0 hp, a.1)
or_bit-AllBytes (b ∷ bs) (suc k) p hp a = (a.0, or_bit-AllBytes bs k p hp a.1)

bit_at-or_bit :
    (mask : List ℕ) (k p j : ℕ)
    → p < 8
    → AllBytes mask
    → k < length mask
    → bit_at (or_bit mask k p) j ≡ (if k * 8 + p == j then true else bit_at mask j)
unfolding or_bit bit_at
bit_at-or_bit [] k p j hp a h = absurd (omega arith)
bit_at-or_bit (b ∷ bs) zero p j hp a h = ground (arith, test_bit-bit_or b p j)
bit_at-or_bit (b ∷ bs) (suc k) p j hp a h = ground (arith, bit_at-or_bit bs k p (j - 8) hp a.1)

pub set_bit-AllBytes : (mask : List ℕ) (i : ℕ) → AllBytes mask → AllBytes (set_bit mask i)
unfolding set_bit or_bit
set_bit-AllBytes mask i a = or_bit-AllBytes mask (i / 8) (i % 8) (omega arith) a

-- Setting bit `i` of a mask that has one sets this bit and no other.
pub bit_at-set_bit :
    (mask : List ℕ) (i j : ℕ)
    → AllBytes mask
    → i < length mask * 8
    → bit_at (set_bit mask i) j ≡ (if i == j then true else bit_at mask j)
unfolding set_bit or_bit
bit_at-set_bit mask i j a h = ground (arith, bit_at-or_bit mask (i / 8) (i % 8) j (omega arith) a)

length-set_bit : (mask : List ℕ) (i : ℕ) → length (set_bit mask i) ≡ length mask
unfolding set_bit
length-set_bit mask i = length-set mask (i / 8) _

pub replicate-AllBytes : (n : ℕ) → AllBytes (replicate n 0)
replicate-AllBytes zero = tt
replicate-AllBytes (suc n) = (omega arith, replicate-AllBytes n)

pub bit_at-replicate : (n i : ℕ) → bit_at (replicate n 0) i ≡ false
unfolding bit_at
bit_at-replicate zero i = refl
bit_at-replicate (suc n) i = ground (arith, bit_at-replicate n (i - 8), test_bit-zero i)

abbrev pub AllSeq : List ℕ → Type 0
AllSeq [] = Unit {0}
AllSeq (s ∷ ss) = (s < seq_mod) × AllSeq ss

diff-injective : (a b first : ℕ) → a < seq_mod → b < seq_mod → diff a first ≡ diff b first → a ≡ b
unfolding diff
diff-injective a b first ha hb h = omega arith

-- The state of the loop: a mask of `len` bytes.
record IsMask (len : ℕ) (mask : List ℕ) : Type 0 where
  bytes : AllBytes mask
  size : length mask ≡ len

mark-IsMask :
    (first len : ℕ) (mask : List ℕ) (s : ℕ) → IsMask len mask → IsMask len (mark first len mask s)
unfolding mark
mark-IsMask first len mask s v =
    ground (arith, set_bit-AllBytes mask (diff s first), length-set_bit mask (diff s first))

bit_at-mark :
    (first len : ℕ) (mask : List ℕ) (s z : ℕ)
    → IsMask len mask
    → s < seq_mod
    → z < seq_mod
    → diff z first < len * 8
    → bit_at (mark first len mask s) (diff z first)
      ≡ (bit_at mask (diff z first) || (s == z && ge z first))
unfolding mark
bit_at-mark first len mask s z v hs hz h =
    ground
      (arith, bit_at-set_bit mask (diff s first) (diff z first), diff-injective s z first hs hz)

-- After the loop a bit is set if it was before, or if its number is in the list and not behind
-- the first one.
pub bit_at-mark_all :
    (first len : ℕ) (seqs mask : List ℕ) (z : ℕ)
    → AllBytes mask
    → length mask ≡ len
    → AllSeq seqs
    → z < seq_mod
    → diff z first < len * 8
    → bit_at (mark_all first len seqs mask) (diff z first)
      ≡ (bit_at mask (diff z first) || (contains z seqs && ge z first))
unfolding mark_all contains
bit_at-mark_all first len [] mask z ab lm sq hz h = ground arith
bit_at-mark_all first len (s ∷ ss) mask z ab lm sq hz h = ground (
  arith,
  bit_at-mark first len mask s z (record { bytes = ab; size = lm }) sq.0 hz h,
  bit_at-mark_all first len ss (mark first len mask s) z,
  mark-IsMask first len mask s (record { bytes = ab; size = lm }),
)

length-mark : (first len : ℕ) (mask : List ℕ) (s : ℕ) → length (mark first len mask s) ≡ length mask
unfolding mark
length-mark first len mask s = ground (arith, length-set_bit mask (diff s first))

pub length-mark_all :
    (first len : ℕ) (seqs mask : List ℕ) → length (mark_all first len seqs mask) ≡ length mask
unfolding mark_all
length-mark_all first len [] mask = refl
length-mark_all first len (s ∷ ss) mask =
    length-mark_all first len ss (mark first len mask s) ∙ length-mark first len mask s
