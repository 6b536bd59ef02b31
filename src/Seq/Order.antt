-- ===== src/Seq/Order.antt =====
-- What the operations of `Seq` mean: distances round the circle of 65536 numbers, and the order of
-- the offsets inside half of it.
use utp.Base.{ℕ, ◌+◌, ◌-◌, ◌*◌, ◌%◌, ◌≤◌, ◌<◌, ◌≡◌, ◌≢◌, ◌↔◌, ◌⊎◌, true, false, arith, ltb, leb}
use utp.Seq.{ℤ, seq_mod, add, diff, lt, gt, ge}

pub add-lt : (a : ℕ) (n : ℤ) → add a n < seq_mod
unfolding add
add-lt a (ℤ.pos n) = omega arith
add-lt a (ℤ.negsuc n) = omega arith

pub diff-lt : (a b : ℕ) → diff a b < seq_mod
unfolding diff
diff-lt a b = omega arith

-- Going forward from `a` by `n` numbers puts one at the distance `n` from `a`.
pub diff-add : (a n : ℕ) → n < seq_mod → diff (add a (ℤ.pos n)) a ≡ n
unfolding diff add
diff-add a n h = omega arith

-- Going forward from `b` by the distance of `a` from `b` leads to `a`.
pub add-diff : (a b : ℕ) → a < seq_mod → add b (ℤ.pos (diff a b)) ≡ a
unfolding diff add
add-diff a b h = omega arith

-- A negative step undoes the positive one of the same size.
pub add-add_neg : (a n : ℕ) → a < seq_mod → add (add a (ℤ.pos (n + 1))) (ℤ.negsuc n) ≡ a
unfolding add
add-add_neg a n h = omega arith

-- The distance of two numbers counted from one base is that of their offsets.
pub diff_offsets :
    (base i j : ℕ)
    → diff (add base (ℤ.pos i)) (add base (ℤ.pos j)) ≡ (i + seq_mod * j - j) % seq_mod
unfolding diff add
diff_offsets base i j = omega arith

-- For 16-bit numbers `lt a b` holds exactly if `b` is ahead of `a` by less than half the circle.
pub lt_iff_diff :
    (a b : ℕ) → a < seq_mod → b < seq_mod → (lt a b ≡ true) ↔ ((0 < diff b a) × (diff b a < 0x8000))
unfolding lt diff
lt_iff_diff a b ha hb = (λ h. ground arith, λ h. ground arith)

pub lt-false_iff :
    (a b : ℕ) → a < seq_mod → b < seq_mod → (diff b a ≡ 0) ⊎ (0x8000 ≤ diff b a) → lt a b ≡ false
unfolding lt diff
lt-false_iff a b ha hb h = ground arith

-- For two offsets below half of the circle, from any base, `lt` is the order of the offsets.
pub lt_offsets :
    (base i j : ℕ)
    → i < 0x8000
    → j < 0x8000
    → lt (add base (ℤ.pos i)) (add base (ℤ.pos j)) ≡ ltb i j
lt_offsets base i j hi hj = ground (
  arith,
  diff_offsets base j i,
  lt_iff_diff (add base (ℤ.pos i)) (add base (ℤ.pos j)) (add-lt base (ℤ.pos i))
      (add-lt base (ℤ.pos j)),
  lt-false_iff (add base (ℤ.pos i)) (add base (ℤ.pos j)) (add-lt base (ℤ.pos i))
      (add-lt base (ℤ.pos j)),
)

-- Of two 16-bit numbers that are not just half the circle apart exactly one of `lt`, equality and `gt` holds.
pub trichotomy :
    (a b : ℕ)
    → a < seq_mod
    → b < seq_mod
    → diff a b ≢ 0x8000
    → ((lt a b ≡ true) × (a ≢ b) × (gt a b ≡ false))
      ⊎ ((lt a b ≡ false) × (a ≡ b) × (gt a b ≡ false))
      ⊎ ((lt a b ≡ false) × (a ≢ b) × (gt a b ≡ true))
unfolding lt gt diff
trichotomy a b ha hb h = ground arith

-- `gt` of two numbers is `lt` the other way round, and neither holds both ways.
pub lt_asymm : (a b : ℕ) → a < seq_mod → b < seq_mod → lt a b ≡ true → gt a b ≡ false
unfolding lt gt
lt_asymm a b ha hb h = ground arith

-- Two offsets below 65536 from one base lead to two numbers.
pub add-injective :
    (base i j : ℕ) → i < seq_mod → j < seq_mod → add base (ℤ.pos i) ≡ add base (ℤ.pos j) → i ≡ j
unfolding add
add-injective base i j hi hj e = omega arith

-- For two offsets below half of the circle, from any base, `ge`, which decides what a cumulative
-- acknowledgement covers, is the order of the offsets.
pub ge_offsets :
    (base i j : ℕ)
    → i < 0x8000
    → j < 0x8000
    → ge (add base (ℤ.pos i)) (add base (ℤ.pos j)) ≡ leb j i
unfolding ge gt
ge_offsets base i j hi hj = ground (arith, lt_offsets base j i, add-injective base i j)

-- For two offsets below half of the circle, from any base, `lt` and `ge` are the order of the offsets: `ge` decides
-- what a cumulative acknowledgement covers.
pub offsets_ordered :
    (base i j : ℕ)
    → i < 0x8000
    → j < 0x8000
    → (lt (add base (ℤ.pos i)) (add base (ℤ.pos j)) ≡ ltb i j)
      × (ge (add base (ℤ.pos i)) (add base (ℤ.pos j)) ≡ leb j i)
offsets_ordered base i j hi hj = (lt_offsets base i j hi hj, ge_offsets base i j hi hj)
