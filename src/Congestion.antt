-- ===== src/Congestion.antt =====
-- src/utp_congestion_control.ts: the LEDBAT window, over numbers with fractions.
pub mod Bounds
use utp.Base.{ℕ, ◌-◌, ◌^◌, Bool, if◌then◌else◌}
use utp.Base.Number.{JsNumber, num_ltb, num_max, num_min}

abbrev pub max_safe_integer : ℕ
max_safe_integer = 2 ^ 53 - 1

module _ (𝓝 : JsNumber) where
  open 𝓝 use {Num, of_ℕ, plus, minus, times, over, ceil, leb}

  pub record Congestion : Type 0 where
    pub window_size : Num
    pub base_delay : Num
    pub queue_delay : Num
    pub target_delay : Num
    pub last_max_delay : Num
    pub gain : Num

  -- `new UtpCongestionControl(windowSize)`, with the default target of 100 ms
  unfoldable pub create : Num → Congestion
  create window_size = record {
    window_size = window_size;
    base_delay = of_ℕ max_safe_integer;
    queue_delay = of_ℕ 0;
    target_delay = of_ℕ 100;
    last_max_delay = of_ℕ 0;
    gain = of_ℕ 1;
  }

  -- `windowIncrease`
  unfoldable pub window_increase : Congestion → Num
  window_increase c = times c.gain (over (minus c.target_delay c.queue_delay) c.target_delay)

  -- the window after the first test of `updateWindowSize`, before it is rounded
  unfoldable pub adjusted : Congestion → Num
  unfolding window_increase
  adjusted c =
      if leb c.queue_delay c.target_delay
      then plus c.window_size (window_increase c)
      else (if num_ltb 𝓝 c.last_max_delay c.queue_delay
          then times c.window_size (minus (of_ℕ 1) (window_increase c))
          else c.window_size)

  unfoldable pub update_window_size : Congestion → Congestion
  update_window_size c = record c {
    window_size = ceil (num_max 𝓝 (adjusted c) (of_ℕ 1));
    last_max_delay = c.queue_delay;
  }

  unfoldable pub update_rtt : Congestion → Num → Congestion
  update_rtt c measured_rtt =
      let base = num_min 𝓝 c.base_delay measured_rtt in
      update_window_size (record c { base_delay = base; queue_delay = minus measured_rtt base })

  unfoldable pub on_packet_loss : Congestion → Congestion
  on_packet_loss c = record c {
    window_size = num_max 𝓝 (times c.window_size (over (of_ℕ 1) (of_ℕ 2))) (of_ℕ 1);
  }

  unfoldable pub reset : Congestion → Congestion
  reset c = record c {
    window_size = of_ℕ 1;
    base_delay = of_ℕ max_safe_integer;
    queue_delay = of_ℕ 0;
    last_max_delay = of_ℕ 0;
  }
