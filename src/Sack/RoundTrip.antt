-- ===== src/Sack/RoundTrip.antt =====
-- What a peer reads out of a selective acknowledgement is what was put into it.
use utp.Base.{
  ℕ, ◌*◌, ◌≤◌, ◌<◌, ◌≡◌, ◌≢◌, refl, true, false, not, ◌&&◌, List, [], ◌∷◌, arith, length, ◌∙◌, ap,
  some, replicate, length-replicate, sym, subst,
}
use utp.Base.Sort.{contains, sort_by, insert_by, IsSortedBy, contains-sort_by, sort_by-IsSortedBy}
use utp.Seq.{ℤ, add, diff, ge, seq_mod}
use utp.Seq.Order.{diff-lt, add-lt}
use utp.Sack.{Sack, create, received, not_received, mask_length, last_or, mark_all, scan}
use utp.Sack.Mask.{bit_at-mark_all, bit_at-replicate, length-mark_all, replicate-AllBytes, AllSeq}
use utp.Sack.Scan.{contains-scan_first}
use mathlib.Core.Option.{some-injective}

-- every number of a sorted list has its key below the last one's
sorted-le-last :
    (key : ℕ → ℕ) (x z : ℕ) (xs : List ℕ)
    → IsSortedBy key (x ∷ xs)
    → contains z (x ∷ xs) ≡ true
    → key z ≤ key (last_or xs x)
unfolding contains last_or
sorted-le-last key x z [] s c = ground arith
sorted-le-last key x z (y ∷ ys) s c =
    ground (arith, sorted-le-last key y z ys s.1, sorted-le-last key y y ys s.1)

AllSeq-insert_by :
    (key : ℕ → ℕ) (x : ℕ) (xs : List ℕ) → x < seq_mod → AllSeq xs → AllSeq (insert_by key x xs)
unfolding insert_by
AllSeq-insert_by key x [] h a = (h, tt)
AllSeq-insert_by key x (y ∷ ys) h a = ground (arith, AllSeq-insert_by key x ys h a.1)

AllSeq-sort_by : (key : ℕ → ℕ) (xs : List ℕ) → AllSeq xs → AllSeq (sort_by key xs)
unfolding sort_by
AllSeq-sort_by key [] a = tt
AllSeq-sort_by key (x ∷ xs) a =
    AllSeq-insert_by key x (sort_by key xs) a.0 (AllSeq-sort_by key xs a.1)

pub mask_length-covers : (first last : ℕ) → diff last first < mask_length first last * 8
unfolding mask_length
mask_length-covers first last = omega arith

pub mask_length-le : (first last : ℕ) → mask_length first last * 8 ≤ seq_mod
unfolding mask_length
mask_length-le first last = omega (arith, diff-lt last first)

contains_nil : (z : ℕ) → contains z [] ≡ false
unfolding contains
contains_nil z = refl

-- every number of the list lies within the mask
pub within_mask :
    (first z : ℕ) (seqs : List ℕ)
    → contains z seqs ≡ true
    → let sorted = sort_by (λ s. diff s first) seqs in
      diff z first < mask_length first (last_or sorted 0) * 8
unfolding last_or
within_mask first z seqs c =
    bound (sort_by (λ s. diff s first) seqs) (sort_by-IsSortedBy (λ s. diff s first) seqs)
      (contains-sort_by (λ s. diff s first) z seqs ∙ c)
  where
    bound :
        (sorted : List ℕ)
        → IsSortedBy (λ s. diff s first) sorted
        → contains z sorted ≡ true
        → diff z first < mask_length first (last_or sorted 0) * 8
    bound [] s c = cc (contains_nil z, c)
    bound (x ∷ xs) s c = omega (
      arith,
      sorted-le-last (λ s. diff s first) x z xs s c,
      mask_length-covers first (last_or xs x),
    )

module _ (first z len : ℕ) (sorted : List ℕ) (hf : first < seq_mod) (hz : z < seq_mod)
    (small : len * 8 ≤ seq_mod) (a : AllSeq sorted)
    (inside : contains z sorted ≡ true → diff z first < len * 8) where
  mask : List ℕ
  mask = mark_all first len sorted (replicate len 0)

  length-mask : length mask ≡ len
  unfolding mask
  length-mask = length-mark_all first len sorted (replicate len 0) ∙ length-replicate len 0

  scan-mask : contains z (scan true mask first) ≡ (contains z sorted && ge z first)
  unfolding mask
  scan-mask = ground (
    arith,
    length-mask,
    contains-scan_first true mask first z hf hz,
    bit_at-mark_all first len sorted (replicate len 0) z (replicate-AllBytes len)
        (length-replicate len 0) a hz,
    bit_at-replicate len (diff z first),
  )

-- When a selective acknowledgement is created from 16-bit sequence numbers, the peer reads back from it
-- exactly those of them that are not behind `ack_nr + 2`, and no other 16-bit number.
pub received-create :
    (ack r z : ℕ) (rs : List ℕ) (s : Sack)
    → AllSeq (r ∷ rs)
    → z < seq_mod
    → create ack (r ∷ rs) ≡ some s
    → contains z (received s) ≡ (contains z (r ∷ rs) && ge z (add ack (ℤ.pos 2)))
unfolding create received mask
received-create ack r z rs s a hz e =
    subst (λ (t : Sack). contains z (received t) ≡ (contains z (r ∷ rs) && ge z first))
      (some-injective _ _ e)
      (scan-mask first z len sorted (add-lt ack (ℤ.pos 2)) hz
          (mask_length-le first (last_or sorted 0)) (AllSeq-sort_by key (r ∷ rs) a)
          (λ c. within_mask first z (r ∷ rs) (sym (contains-sort_by key z (r ∷ rs)) ∙ c))
        ∙ ap (λ b. b && ge z first) (contains-sort_by key z (r ∷ rs)))
  where
    first : ℕ
    first = add ack (ℤ.pos 2)

    key : ℕ → ℕ
    key s = diff s first

    sorted : List ℕ
    sorted = sort_by key (r ∷ rs)

    len : ℕ
    len = mask_length first (last_or sorted 0)

next_is_last : (base z : ℕ) → add base (ℤ.pos 1) ≡ z → diff z (add base (ℤ.pos 2)) ≡ 65535
unfolding add diff
next_is_last base z e = omega arith

-- A 16-bit number that lies inside a mask of fewer than 65536 bits is reported either as received or as
-- lost, and never as both.
pub not_received-received :
    (s : Sack) (z : ℕ)
    → length s.bitmask * 8 < seq_mod
    → z < seq_mod
    → diff z (add s.base (ℤ.pos 2)) < length s.bitmask * 8
    → contains z (not_received s) ≡ not (contains z (received s))
unfolding not_received received contains
not_received-received s z small hz inside = ground (
  arith,
  ahead,
  contains-scan_first true s.bitmask (add s.base (ℤ.pos 2)) z (add-lt s.base (ℤ.pos 2)) hz,
  contains-scan_first false s.bitmask (add s.base (ℤ.pos 2)) z (add-lt s.base (ℤ.pos 2)) hz,
)
  where
    ahead : add s.base (ℤ.pos 1) ≢ z
    ahead e = absurd (omega (arith, next_is_last s.base z e))
