-- ===== src/Rtt.antt =====
-- src/utp_rtt_tracker.ts: the estimate of the round trip and the time after which a packet is sent
-- again, over numbers with fractions. Times are in milliseconds; `none` stands for the exception of
-- `sanityCheckRtt`, which `update` catches.
pub mod Bounds
use utp.Base.{ℕ, ◌-◌, max, Bool, not, ◌&&◌, if◌then◌else◌}
use utp.Base.Number.{JsNumber, num_ltb, num_max, num_min}

abbrev pub min_rto : ℕ
min_rto = 1000

abbrev pub max_rto : ℕ
max_rto = 6000

module _ (𝓝 : JsNumber) where
  open 𝓝 use {Num, of_ℕ, plus, minus, times, over, ceil, leb}

  pub record Rtt : Type 0 where
    pub rtt : Num
    pub base_delay : Num
    pub rtt_var : Num
    pub rto : Num

  unfoldable pub create : Rtt
  create = record { rtt = of_ℕ 0; base_delay = of_ℕ 0; rtt_var = of_ℕ 0; rto = of_ℕ min_rto }

  -- `===` of two numbers
  abbrev pub num_eq : Num → Num → Bool
  num_eq a b = leb a b && leb b a

  -- `Math.abs(delta)` of `delta = a - b`
  unfoldable pub distance : Num → Num → Num
  distance a b = if leb (minus a b) (of_ℕ 0) then minus (of_ℕ 0) (minus a b) else minus a b

  -- The estimates with the new sample: the two branches of `update` before the check.
  unfoldable pub sampled : Rtt → Num → Rtt
  sampled r ertt =
      if num_eq r.rtt (of_ℕ 0)
      then record r { rtt = ertt; rtt_var = over ertt (of_ℕ 2) }
      else record r {
        rtt = plus (over (times r.rtt (of_ℕ 7)) (of_ℕ 8)) (over ertt (of_ℕ 8));
        rtt_var = plus r.rtt_var (over (minus (distance r.rtt ertt) r.rtt_var) (of_ℕ 4));
      }

  -- what `update` does behind the check
  unfoldable pub settle : Rtt → Rtt
  settle r = record r {
    base_delay =
        if num_eq r.base_delay (of_ℕ 0)
        then r.rtt
        else (if num_ltb 𝓝 r.rtt r.base_delay then r.rtt else r.base_delay);
    rto = num_max 𝓝 (plus r.rtt (times r.rtt_var (of_ℕ 4))) (of_ℕ min_rto);
  }

  -- `update`, for a packet sent at `sent_time`: a failed check leaves the new estimates and the old timeout.
  unfoldable pub update : Rtt → ℕ → ℕ → Rtt
  update r now sent_time =
      let s = sampled r (of_ℕ (max (now - sent_time) 1)) in
      if leb (of_ℕ max_rto) s.rtt then s else settle s
