-- ===== src/Sack/Bits.antt =====
-- What setting one bit of a byte does to its bits: checked for every byte and every pair of places.
use utp.Base.{
  ℕ, zero, suc, ◌^◌, ◌<◌, ◌≡◌, refl, bit_or, Bool, true, false, ◌&&◌, arith, ltb, ◌==◌,
  if◌then◌else◌, ltb→lt,
}
use utp.Sack.{test_bit}

unfoldable pub for_all : (ℕ → Bool) → ℕ → Bool
for_all test zero = true
for_all test (suc k) = for_all test k && test k

pub for_all-lt : (test : ℕ → Bool) (k i : ℕ) → for_all test k ≡ true → i < k → test i ≡ true
unfolding for_all
for_all-lt test zero i h below = elim below [ ]
for_all-lt test (suc k) i h below = ground (arith, for_all-lt test k i)

bool_eq : Bool → Bool → Bool
bool_eq true b = b
bool_eq false true = false
bool_eq false false = true

bool_eq_sound : (a b : Bool) → bool_eq a b ≡ true → a ≡ b
unfolding bool_eq
bool_eq_sound a b h = ground arith

abbrev checks : ℕ → ℕ → ℕ → Bool
checks b p q =
    ltb (bit_or b (2 ^ p)) 256
    && bool_eq (test_bit (bit_or b (2 ^ p)) q) (if p == q then true else test_bit b q)

bit_checks : ℕ → ℕ → Bool
bit_checks b p = for_all (λ q. checks b p q) 8

byte_checks : ℕ → Bool
byte_checks b = for_all (λ p. bit_checks b p) 8

table : for_all (λ b. byte_checks b) 256 ≡ true
unfolding for_all bool_eq test_bit bit_checks byte_checks
table = refl

and_true : (a b : Bool) → (a && b) ≡ true → (a ≡ true) × (b ≡ true)
and_true a b h = ground arith

checks_hold : (b p q : ℕ) → b < 256 → p < 8 → q < 8 → checks b p q ≡ true
unfolding byte_checks bit_checks
checks_hold b p q hb hp hq =
    for_all-lt (λ i. checks b p i) 8 q
      (for_all-lt (λ i. bit_checks b i) 8 p (for_all-lt (λ i. byte_checks i) 256 b table hb) hp) hq

pub bit_or-byte : (b p : ℕ) → b < 256 → p < 8 → bit_or b (2 ^ p) < 256
bit_or-byte b p hb hp = ltb→lt _ _ (and_true _ _ (checks_hold b p 0 hb hp (omega arith))).0

pub test_bit-bit_or :
    (b p q : ℕ)
    → b < 256
    → p < 8
    → q < 8
    → test_bit (bit_or b (2 ^ p)) q ≡ (if p == q then true else test_bit b q)
test_bit-bit_or b p q hb hp hq = bool_eq_sound _ _ (and_true _ _ (checks_hold b p q hb hp hq)).1

zero_table : for_all (λ q. bool_eq (test_bit 0 q) false) 8 ≡ true
unfolding for_all bool_eq test_bit
zero_table = refl

pub test_bit-zero : (q : ℕ) → q < 8 → test_bit 0 q ≡ false
test_bit-zero q h =
    bool_eq_sound _ _ (for_all-lt (λ q. bool_eq (test_bit 0 q) false) 8 q zero_table h)
