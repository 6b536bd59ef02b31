-- ===== src/Sack/Length.antt =====
-- How long a mask gets. The packet writes its length into one byte.
use utp.Base.{
  ℕ, ◌*◌, ◌≤◌, ◌<◌, ◌≡◌, true, List, ◌∷◌, arith, length, ◌∙◌, some, replicate, length-replicate,
  subst,
}
use mathlib.Core.Option.{some-injective}
use utp.Base.Sort.{contains, sort_by}
use utp.Seq.{ℤ, add, diff, ge, gt, lt, seq_mod}
use utp.Sack.{Sack, create, mask_length, last_or}
use utp.Sack.Mask.{length-mark_all}
use utp.Sack.RoundTrip.{within_mask}

module _ (ack r : ℕ) (rs : List ℕ) (s : Sack) (e : create ack (r ∷ rs) ≡ some s) where
  len : ℕ
  len =
      mask_length (add ack (ℤ.pos 2))
        (last_or (sort_by (λ k. diff k (add ack (ℤ.pos 2))) (r ∷ rs)) 0)

  length-create : length s.bitmask ≡ len
  unfolding create len
  length-create =
      subst (λ (t : Sack). length t.bitmask ≡ len) (some-injective _ _ e)
        (length-mark_all (add ack (ℤ.pos 2)) len _ (replicate len 0) ∙ length-replicate len 0)

  -- The mask reaches every number that the acknowledgement was created from.
  pub diff-lt-length :
      (z : ℕ) → contains z (r ∷ rs) ≡ true → diff z (add ack (ℤ.pos 2)) < length s.bitmask * 8
  unfolding len
  diff-lt-length z c = omega (arith, length-create, within_mask (add ack (ℤ.pos 2)) z (r ∷ rs) c)

behind :
    (ack z : ℕ)
    → ack < seq_mod
    → z < seq_mod
    → ge ack z ≡ true
    → 0x7000 ≤ diff z (add ack (ℤ.pos 2))
unfolding ge gt lt diff add
behind ack z ha hz h = ground arith

-- When an acknowledgement is created from queued numbers of which one, of 16 bits, is not ahead of the
-- number acknowledged, its mask is longer than the 255 bytes that the length byte of an extension can
-- state.
pub stale-overflows :
    (ack r z : ℕ) (rs : List ℕ) (s : Sack)
    → ack < seq_mod
    → z < seq_mod
    → create ack (r ∷ rs) ≡ some s
    → contains z (r ∷ rs) ≡ true
    → ge ack z ≡ true
    → 255 < length s.bitmask
stale-overflows ack r z rs s ha hz e c g =
    omega (arith, diff-lt-length ack r rs s e z c, behind ack z ha hz g)
