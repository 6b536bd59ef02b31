-- ===== src/Sack/Scan.antt =====
-- Which numbers the two scans of a mask return.
use utp.Base.{
  ℕ, zero, suc, ◌+◌, ◌-◌, ◌*◌, ◌≤◌, ◌<◌, ◌≡◌, refl, Bool, false, not, ◌&&◌, ◌||◌, List, [], ◌∷◌,
  ◌++◌, arith, ltb, leb, ◌==◌, if◌then◌else◌, length, ◌∙◌, ap,
}
use utp.Base.Sort.{contains}
use utp.Seq.{ℤ, add, diff, seq_mod}
use utp.Seq.Order.{add-diff, diff-add}
use utp.Sack.{test_bit, scan_byte, scan}
use utp.Sack.Mask.{bit_at}

-- whether a scan takes a bit
abbrev pub taken : Bool → Bool → Bool
taken wanted bit = if bit then wanted else not wanted

pub contains-append :
    (z : ℕ) (xs ys : List ℕ) → contains z (xs ++ ys) ≡ (contains z xs || contains z ys)
unfolding contains
contains-append z [] ys = refl
contains-append z (x ∷ xs) ys = ground (arith, contains-append z xs ys)

-- the number `i` places behind `first`
abbrev at_offset : ℕ → ℕ → ℕ
at_offset first i = add first (ℤ.pos i)

at_offset-suc : (first i : ℕ) → add (at_offset first i) (ℤ.pos 1) ≡ at_offset first (i + 1)
unfolding add
at_offset-suc first i = omega arith

at_offset-eq :
    (first i z : ℕ) → i < seq_mod → z < seq_mod → (at_offset first i == z) ≡ (i == diff z first)
at_offset-eq first i z hi hz = ground (arith, diff-add first i hi, add-diff z first hz)

scan_byte-next :
    (w : Bool) (rounds o b first i : ℕ)
    → (scan_byte w rounds o b (at_offset first i)).1 ≡ at_offset first (i + rounds)
unfolding scan_byte
scan_byte-next w zero o b first i = ap (at_offset first) (omega arith)
scan_byte-next w (suc rounds) o b first i =
    rw at_offset-suc
      (scan_byte-next w rounds (o + 1) b first (i + 1) ∙ ap (at_offset first) (omega arith))

scan_byte_done :
    (w : Bool) (o b first i z : ℕ)
    → contains z (scan_byte w zero o b (at_offset first i)).0 ≡ (
        leb i (diff z first)
        && ltb (diff z first) (i + zero)
        && taken w (test_bit b (o + (diff z first - i))))
unfolding scan_byte contains
scan_byte_done w o b first i z = ground arith

-- One more number in front of those found, if its bit is taken.
scan_step :
    (w bit later target : Bool) (x i z d rounds : ℕ) (rest : List ℕ)
    → (x == z) ≡ (i == d)
    → (i ≡ d → target ≡ bit)
    → (i < d → target ≡ later)
    → contains z rest ≡ (leb (i + 1) d && ltb d (i + 1 + rounds) && taken w later)
    → contains z (if bit then (if w then x ∷ rest else rest) else (if w then rest else x ∷ rest))
      ≡ (leb i d && ltb d (i + suc rounds) && taken w target)
unfolding contains
scan_step w bit later target x i z d rounds rest e here_ beyond found = ground arith

module _ (w : Bool) (rounds o b first i z : ℕ) (hz : z < seq_mod) (h : i + suc rounds ≤ seq_mod)
    (found : contains z (scan_byte w rounds (o + 1) b (at_offset first (i + 1))).0 ≡ (
      leb (i + 1) (diff z first)
      && ltb (diff z first) (i + 1 + rounds)
      && taken w (test_bit b (o + 1 + (diff z first - (i + 1)))))) where
  scan_byte_step : contains z (scan_byte w (suc rounds) o b (at_offset first i)).0 ≡ (
      leb i (diff z first)
      && ltb (diff z first) (i + suc rounds)
      && taken w (test_bit b (o + (diff z first - i))))
  unfolding scan_byte
  scan_byte_step = rw at_offset-suc (
      scan_step w (test_bit b o) (test_bit b (o + 1 + (diff z first - (i + 1))))
        (test_bit b (o + (diff z first - i))) (at_offset first i) i z (diff z first) rounds _
        (at_offset-eq first i z (omega arith) hz) (λ e. ap (test_bit b) (omega arith))
        (λ l. ap (test_bit b) (omega arith)) found)

-- A round of the inner loop looks at the number `i` and at bit `o`, and both go up together.
contains-scan_byte :
    (w : Bool) (rounds o b first i z : ℕ)
    → z < seq_mod
    → i + rounds ≤ seq_mod
    → contains z (scan_byte w rounds o b (at_offset first i)).0 ≡ (
        leb i (diff z first)
        && ltb (diff z first) (i + rounds)
        && taken w (test_bit b (o + (diff z first - i))))
contains-scan_byte w zero o b first i z hz h = scan_byte_done w o b first i z
contains-scan_byte w (suc rounds) o b first i z hz h =
    scan_byte_step w rounds o b first i z hz h
      (contains-scan_byte w rounds (o + 1) b first (i + 1) z hz (omega arith))

bytes_step :
    (w tb ba : Bool) (z i d n : ℕ) (xs ys : List ℕ)
    → contains z xs ≡ (leb i d && ltb d (i + 8) && taken w tb)
    → contains z ys ≡ (leb (i + 8) d && ltb d (i + 8 + n * 8) && taken w ba)
    → contains z (xs ++ ys)
      ≡ (leb i d && ltb d (i + suc n * 8) && taken w (if ltb (d - i) 8 then tb else ba))
bytes_step w tb ba z i d n xs ys p q = rw (contains-append z xs ys, p, q) (ground arith)

scan_done : (w : Bool) (z i d : ℕ) → contains z [] ≡ (leb i d && ltb d (i + 0 * 8) && taken w false)
unfolding contains
scan_done w z i d = ground arith

-- The scan returns the numbers in the range of the mask whose bit it takes, and no others.
pub contains-scan :
    (w : Bool) (bytes : List ℕ) (first i z : ℕ)
    → z < seq_mod
    → i + length bytes * 8 ≤ seq_mod
    → contains z (scan w bytes (at_offset first i)) ≡ (
        leb i (diff z first)
        && ltb (diff z first) (i + length bytes * 8)
        && taken w (bit_at bytes (diff z first - i)))
unfolding scan bit_at
contains-scan w [] first i z hz h = scan_done w z i (diff z first)
contains-scan w (b ∷ bs) first i z hz h =
    bytes_step w (test_bit b (diff z first - i)) (bit_at bs (diff z first - i - 8)) z i
      (diff z first) (length bs) (scan_byte w 8 0 b (at_offset first i)).0 _
      (contains-scan_byte w 8 0 b first i z hz (omega arith) ∙ same_bit)
      (rw scan_byte-next (contains-scan w bs first (i + 8) z hz (omega arith) ∙ same_rest))
  where
    same_bit :
        (leb i (diff z first)
          && ltb (diff z first) (i + 8)
          && taken w (test_bit b (0 + (diff z first - i))))
        ≡ (leb i (diff z first)
            && ltb (diff z first) (i + 8)
            && taken w (test_bit b (diff z first - i)))
    same_bit =
        ap (λ k. leb i (diff z first) && ltb (diff z first) (i + 8) && taken w (test_bit b k))
          (omega arith)

    same_rest :
        (leb (i + 8) (diff z first)
          && ltb (diff z first) (i + 8 + length bs * 8)
          && taken w (bit_at bs (diff z first - (i + 8))))
        ≡ (leb (i + 8) (diff z first)
            && ltb (diff z first) (i + 8 + length bs * 8)
            && taken w (bit_at bs (diff z first - i - 8)))
    same_rest =
        ap
          (λ k.
            leb (i + 8) (diff z first)
            && ltb (diff z first) (i + 8 + length bs * 8)
            && taken w (bit_at bs k))
          (omega arith)

first_offset : (first : ℕ) → first < seq_mod → first ≡ at_offset first 0
unfolding add
first_offset first h = omega arith

from_zero : (d n : ℕ) (p : ℕ → Bool) → (leb 0 d && ltb d (0 + n) && p (d - 0)) ≡ (ltb d n && p d)
from_zero d n p =
    ap (λ k. leb 0 d && ltb d k && p (d - 0)) sum
    ∙ ap (λ e. leb 0 d && ltb d n && p e) rest
    ∙ ground arith
  where
    sum : 0 + n ≡ n
    sum = omega arith

    rest : d - 0 ≡ d
    rest = omega arith

-- The same for a scan that starts at the first number, as the code's scans do.
pub contains-scan_first :
    (w : Bool) (bytes : List ℕ) (first z : ℕ)
    → first < seq_mod
    → z < seq_mod
    → length bytes * 8 ≤ seq_mod
    → contains z (scan w bytes first)
      ≡ (ltb (diff z first) (length bytes * 8) && taken w (bit_at bytes (diff z first)))
contains-scan_first w bytes first z hf hz h = ap (λ k. contains z (scan w bytes k)) start ∙ go
  where
    start : first ≡ at_offset first 0
    start = first_offset first hf

    go :
        contains z (scan w bytes (at_offset first 0))
        ≡ (ltb (diff z first) (length bytes * 8) && taken w (bit_at bytes (diff z first)))
    go =
        contains-scan w bytes first 0 z hz (omega arith)
        ∙ from_zero (diff z first) (length bytes * 8) (λ k. taken w (bit_at bytes k))
