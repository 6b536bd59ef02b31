-- ===== src/Congestion/Bounds.antt =====
-- The window never closes, and what it does when the delay is over its target.
use utp.Base.{◌≡◌, true, false, Bool-cases, inl, inr}
use utp.Base.Number.{JsNumber, num_max}
use utp.Congestion.{
  Congestion, window_increase, adjusted, update_window_size, update_rtt, on_packet_loss, reset,
}

module _ (𝓝 : JsNumber) where
  open 𝓝 use {
    Num, of_ℕ, plus, minus, times, over, ceil, leb, le_refl, le_trans, le_total, le-ceil,
    minus_nonpos, minus_grows, over_nonpos, times_nonpos, times_grows,
  }

  pub le-max_right : (a b : Num) → leb b (num_max 𝓝 a b) ≡ true
  le-max_right a b = elim (Bool-cases (leb a b)) [
    | inl e ↦ rw e (le_refl b)
    | inr e ↦ rw e (le_total a b e)
  ]

  pub le-max_left : (a b : Num) → leb a (num_max 𝓝 a b) ≡ true
  le-max_left a b = elim (Bool-cases (leb a b)) [ inl e ↦ rw e e | inr e ↦ rw e (le_refl a) ]

  -- Whatever the state was before, after a measurement, a loss or a reset the window is at least one
  -- packet.
  pub window_open :
      (c : Congestion 𝓝) (rtt : Num)
      → (leb (of_ℕ 1) (update_rtt 𝓝 c rtt).window_size ≡ true)
        × (leb (of_ℕ 1) (on_packet_loss 𝓝 c).window_size ≡ true)
        × (leb (of_ℕ 1) (reset 𝓝 c).window_size ≡ true)
  unfolding update_rtt update_window_size on_packet_loss reset
  window_open c rtt =
      (le_trans _ _ _ (le-max_right _ (of_ℕ 1)) (le-ceil _), le-max_right _ (of_ℕ 1), le_refl _)

  -- With a gain and a window that are not negative and a positive target, a queueing delay that is over
  -- the target and above the last one does not shrink the window: the increase is then not positive, so
  -- that `1 - windowIncrease` is a factor of at least 1.
  pub window-le-rising :
      (c : Congestion 𝓝)
      → leb (of_ℕ 0) c.gain ≡ true
      → leb (of_ℕ 0) c.window_size ≡ true
      → leb c.target_delay (of_ℕ 0) ≡ false
      → leb c.queue_delay c.target_delay ≡ false
      → leb c.queue_delay c.last_max_delay ≡ false
      → leb c.window_size (update_window_size 𝓝 c).window_size ≡ true
  unfolding update_window_size adjusted
  window-le-rising c gain window target over_target rising =
      rw (over_target, rising)
        (le_trans _ _ _ (times_grows c.window_size _ window (minus_grows (of_ℕ 1) _ increase))
          (le_trans _ _ _ (le-max_left _ (of_ℕ 1)) (le-ceil _)))
    where
      increase : leb (window_increase 𝓝 c) (of_ℕ 0) ≡ true
      increase = times_nonpos c.gain _ gain (
          over_nonpos _ c.target_delay
            (minus_nonpos c.target_delay c.queue_delay
              (le_total c.queue_delay c.target_delay over_target))
            target)
