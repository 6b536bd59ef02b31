-- ===== src/Seq.antt =====
-- src/utilt.ts, the object `Seq`: arithmetic and comparison of 16-bit sequence numbers that wrap.
-- A sequence number is a ℕ; `& 0xFFFF` is `% 65536`, and a difference that may be negative has a
-- multiple of 65536 added first, which the mask takes away again.
pub mod Order
use utp.Base.{ℕ, suc, ◌+◌, ◌-◌, ◌*◌, ◌%◌, ◌^◌, Bool, ◌&&◌, ◌||◌, not, ltb, ◌==◌}

abbrev pub seq_mod : ℕ
seq_mod = 2 ^ 16

-- A number that may be negative: `negsuc n` is -(n + 1).
pub data ℤ : Type 0 where
  pos : ℕ → ℤ
  negsuc : ℕ → ℤ

-- `Seq.add`: the second argument may be negative.
unfoldable pub add : ℕ → ℤ → ℕ
add a (ℤ.pos n) = (a + n) % seq_mod
add a (ℤ.negsuc n) = (a + seq_mod * suc n - suc n) % seq_mod

-- `Seq.diff`: how far `a` is ahead of `b`.
unfoldable pub diff : ℕ → ℕ → ℕ
diff a b = (a + seq_mod * b - b) % seq_mod

unfoldable pub lt : ℕ → ℕ → Bool
lt a b = not (a == b) && ltb ((b + seq_mod * a - a) % seq_mod) 0x8000

unfoldable pub le : ℕ → ℕ → Bool
unfolding lt
le a b = a == b || lt a b

unfoldable pub gt : ℕ → ℕ → Bool
unfolding lt
gt a b = lt b a

unfoldable pub ge : ℕ → ℕ → Bool
unfolding gt
ge a b = a == b || gt a b
