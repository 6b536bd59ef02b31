-- ===== src/Conn/Promises.antt =====
-- src/utp_conn.ts: the promises of a connection. `waitForConnecting` gives one that the listener of the
-- state settles, or its timer; `close` gives one that its interval settles, every 100 ms.
use utp.Base.{◌-◌, Bool, true, false, List, [], ◌∷◌, none, some, ltb, if◌then◌else◌}
use utp.Base.Number.{JsNumber}
use utp.BlockingBuffer.{ByteBuffer}
use utp.Conn.{
  Conn, Clock, Effect, Run, State, SendOutcome, sent, waits, throws, transmit, go_on, resolve_read,
  remove_conn, release_statistic, received_data, sent_data, state_changed, is_connected, is_closed,
  syn_sent, syn_recv, connected, reset, close_wait, closed,
}
use utp.Conn.Closing.{close_timeout_duration, force_close, try_safe_release}
use utp.Conn.Outgoing.{start_connecting}

-- why the promise of a connection is rejected: the errors of `waitForConnecting`, and that of its `sendUtpPacket`
pub data Reason : Type 0 where
  timed_out reset_by_remote is_closed_now not_sent : Reason

pub data Promise : Type 0 where
  waiting resolved : Promise
  rejected : Reason → Promise

-- the listener `onStateChange`, which removes itself when it settles the promise
unfoldable pub on_state_change : Promise → State → Promise
on_state_change waiting connected = resolved
on_state_change waiting reset = rejected reset_by_remote
on_state_change waiting closed = rejected is_closed_now
on_state_change waiting syn_sent = waiting
on_state_change waiting syn_recv = waiting
on_state_change waiting close_wait = waiting
on_state_change resolved s = resolved
on_state_change (rejected e) s = rejected e

-- the timer, which is cleared when the promise is settled
unfoldable pub on_timeout : Promise → Promise
on_timeout waiting = rejected timed_out
on_timeout resolved = resolved
on_timeout (rejected e) = rejected e

-- what the listener is told by the effects of a call, in their order
unfoldable pub hear : Promise → List Effect → Promise
hear w [] = w
hear w (state_changed s t ∷ es) = hear (on_state_change w t) es
hear w (transmit p a ∷ es) = hear w es
hear w (go_on k e ∷ es) = hear w es
hear w (resolve_read r ∷ es) = hear w es
hear w (remove_conn ∷ es) = hear w es
hear w (release_statistic ∷ es) = hear w es
hear w (received_data n ∷ es) = hear w es
hear w (sent_data n ∷ es) = hear w es

unfoldable pub after_start : SendOutcome → Promise
after_start sent = waiting
after_start waits = waiting
after_start throws = rejected not_sent

module _ (𝓝 : JsNumber) (𝓑 : ByteBuffer) where
  -- `waitForConnecting`, with the promise that it gives
  unfoldable pub wait_for_connecting : Conn 𝓝 𝓑 → Clock → Run 𝓝 𝓑 × Promise
  wait_for_connecting c clock =
      if is_connected 𝓝 𝓑 c
      then ((c, []), resolved)
      else (let (r, outcome) = start_connecting 𝓝 𝓑 c clock in (r, after_start outcome))

  -- the test of the interval: there is no number, so no time-out, when `close` was never called
  unfoldable pub close_timed_out : Conn 𝓝 𝓑 → Clock → Bool
  close_timed_out c clock = elim c.close_start_time [
    | none ↦ false
    | some start ↦ ltb close_timeout_duration (clock.performance - start)
  ]

  -- a round of the interval of `close`, with whether it settles the promise
  unfoldable pub close_tick : Conn 𝓝 𝓑 → Clock → Run 𝓝 𝓑 × Bool
  close_tick c clock =
      if is_closed 𝓝 𝓑 c
      then ((c, []), true)
      else (if close_timed_out c clock
          then (force_close 𝓝 𝓑 c, true)
          else elim (try_safe_release 𝓝 𝓑 c clock) [
            | none ↦ (force_close 𝓝 𝓑 c, true)
            | some r ↦ (r, is_closed 𝓝 𝓑 r.0)
          ])
