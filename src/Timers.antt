-- ===== src/Timers.antt =====
-- src/timer_manager.ts: the table of timers by name. `setInterval` gives positive numbers, so that the test `if (timer)`
-- of `clearTimer` fails on no timer of the table.
pub mod Running
pub mod Named
use utp.Base.{ℕ, Bool, List, [], ◌∷◌, ◌++◌, Option, none, some, map, ◌==◌, if◌then◌else◌}
use utp.Base.Map
use utp.Base.Map.{Map, Key}
use utp.Base.Timing.{Timing, set_interval, clear_interval}

module _ {ℓ} {K : Type ℓ} ⦃key : Key K⦄ where
  unfoldable pub exist : Map K ℕ → K → Bool
  exist timers name = Map.has name timers

  abbrev clear_found : Map K ℕ → K → Option ℕ → Map K ℕ × List Timing
  clear_found timers name none = (timers, [])
  clear_found timers name (some timer) =
      if timer == 0 then (timers, []) else (Map.delete name timers, clear_interval timer ∷ [])

  unfoldable pub clear_timer : Map K ℕ → K → Map K ℕ × List Timing
  clear_timer timers name = clear_found timers name (Map.get name timers)

  -- `timer` is what `setInterval` gives
  unfoldable pub set_timer : Map K ℕ → K → (timer : ℕ) → Map K ℕ × List Timing
  set_timer timers name timer =
      let (cleared, ts) = if Map.has name timers then clear_timer timers name else (timers, []) in
      (Map.set name timer cleared, ts ++ set_interval timer ∷ [])

  unfoldable pub clear_all_timers : Map K ℕ → Map K ℕ × List Timing
  clear_all_timers timers = ([], map clear_interval (Map.values timers))
