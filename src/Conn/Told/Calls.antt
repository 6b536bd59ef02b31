-- ===== src/Conn/Told/Calls.antt =====
-- src/utp_conn.ts: whatever is called on a connection, the calls of `notifyStateChange` lead to its state.
use utp.Base.{◌≡◌, refl, ◌∙◌, List, [], ◌∷◌, some, arith, ◌==◌, if◌then◌else◌, Bool-cases, inl, inr}
use utp.Base.Number.{JsNumber}
use utp.BlockingBuffer.{ByteBuffer}
use utp.SendWindow
use utp.Conn.{
  Conn, Clock, State, state_number, syn_sent, syn_recv, closed, close_wait, reset, connected,
  window_effects, set_state,
}
use utp.Conn.Create.{create_ack_packet, create_from_conn}
use utp.Conn.Closing.{send_fin, try_safe_release, reset_conn, is_set}
use utp.Conn.Outgoing.{
  check_window, keep_alive, timeout_check, timeout_check_in, release_if_waiting, begin_close, close,
  close_in,
}
use utp.Conn.Calls.{Call, comes_in, times_out, closes, resets, step, run}
use utp.Conn.Told.{
  told, told-append, told-window, IsTold, then-IsTold, send_utp_packet-IsTold, set_state-IsTold,
  force_close-IsTold, send_fin-IsTold, release-IsTold,
}
use utp.Conn.Told.Incoming.{handle_incoming_packet-IsTold}

module _ (𝓝 : JsNumber) (𝓑 : ByteBuffer) where
  reset_conn-IsTold : (c : Conn 𝓝 𝓑) (clock : Clock) → IsTold 𝓝 𝓑 c (reset_conn 𝓝 𝓑 c clock)
  unfolding reset_conn
  reset_conn-IsTold c clock =
      let (c', changed) = set_state 𝓝 𝓑 c reset in
      let acts = (SendWindow.reset 𝓝 c'.send_window).1 in
      told-append c.local_state c'.local_state changed _ (set_state-IsTold 𝓝 𝓑 c reset)
      ∙ told-append c'.local_state c'.local_state (window_effects acts) _
          (told-window c'.local_state acts)
      ∙ send_utp_packet-IsTold 𝓝 𝓑 _ clock _

  check_window-IsTold : (c : Conn 𝓝 𝓑) (clock : Clock) → IsTold 𝓝 𝓑 c (check_window 𝓝 𝓑 c clock)
  unfolding check_window
  check_window-IsTold c clock =
      told-window c.local_state (SendWindow.timeout_check 𝓝 c.send_window clock.date).1

  keep_alive-IsTold : (c : Conn 𝓝 𝓑) (clock : Clock) → IsTold 𝓝 𝓑 c (keep_alive 𝓝 𝓑 c clock)
  unfolding keep_alive
  keep_alive-IsTold c clock = ground (
    arith,
    send_utp_packet-IsTold 𝓝 𝓑 c clock (create_ack_packet 𝓝 𝓑 c clock (create_from_conn 𝓝 𝓑 c)),
  )

  release_if_waiting-IsTold :
      (c : Conn 𝓝 𝓑) (clock : Clock) → IsTold 𝓝 𝓑 c (release_if_waiting 𝓝 𝓑 c clock)
  unfolding release_if_waiting try_safe_release
  release_if_waiting-IsTold c clock =
      elim (Bool-cases (state_number c.local_state == state_number close_wait)) [
        | inl waits ↦ rw (release_if_waiting, try_safe_release, waits) (release-IsTold 𝓝 𝓑 c clock)
        | inr other ↦ rw (release_if_waiting, try_safe_release, other) refl
      ]

  timeout_check_in-IsTold :
      (c : Conn 𝓝 𝓑) (clock : Clock) (s : State) → IsTold 𝓝 𝓑 c (timeout_check_in 𝓝 𝓑 c clock s)
  unfolding timeout_check_in
  timeout_check_in-IsTold c clock syn_sent = ground (arith, force_close-IsTold 𝓝 𝓑 c)
  timeout_check_in-IsTold c clock syn_recv =
      then-IsTold 𝓝 𝓑 c (keep_alive 𝓝 𝓑 c clock) (λ c'. check_window 𝓝 𝓑 c' clock)
        (keep_alive-IsTold c clock) (check_window-IsTold (keep_alive 𝓝 𝓑 c clock).0 clock)
  timeout_check_in-IsTold c clock connected =
      then-IsTold 𝓝 𝓑 c (keep_alive 𝓝 𝓑 c clock) (λ c'. check_window 𝓝 𝓑 c' clock)
        (keep_alive-IsTold c clock) (check_window-IsTold (keep_alive 𝓝 𝓑 c clock).0 clock)
  timeout_check_in-IsTold c clock close_wait =
      then-IsTold 𝓝 𝓑 c (check_window 𝓝 𝓑 c clock) (λ c'. release_if_waiting 𝓝 𝓑 c' clock)
        (check_window-IsTold c clock) (release_if_waiting-IsTold (check_window 𝓝 𝓑 c clock).0 clock)
  timeout_check_in-IsTold c clock reset = refl
  timeout_check_in-IsTold c clock closed = refl

  begin_close-IsTold : (c : Conn 𝓝 𝓑) (clock : Clock) → IsTold 𝓝 𝓑 c (begin_close 𝓝 𝓑 c clock)
  unfolding begin_close
  begin_close-IsTold c clock =
      let c₁ : Conn 𝓝 𝓑 = record c { close_start_time = some clock.performance } in
      let r = set_state 𝓝 𝓑 c₁ close_wait in
      then-IsTold 𝓝 𝓑 c r
        (λ c'. if is_set c'.local_fin_packet then (c', []) else (send_fin 𝓝 𝓑 c' clock).0)
        (set_state-IsTold 𝓝 𝓑 c₁ close_wait)
        (elim (Bool-cases (is_set r.0.local_fin_packet)) [
          | inl sent_fin ↦ rw sent_fin refl
          | inr fresh ↦ rw fresh (send_fin-IsTold 𝓝 𝓑 r.0 clock)
        ])

  close_in-IsTold :
      (c : Conn 𝓝 𝓑) (clock : Clock) (s : State) → IsTold 𝓝 𝓑 c (close_in 𝓝 𝓑 c clock s)
  unfolding close_in
  close_in-IsTold c clock syn_sent = begin_close-IsTold c clock
  close_in-IsTold c clock syn_recv = begin_close-IsTold c clock
  close_in-IsTold c clock connected = begin_close-IsTold c clock
  close_in-IsTold c clock close_wait = refl
  close_in-IsTold c clock reset = refl
  close_in-IsTold c clock closed = refl

  step-IsTold : (c : Conn 𝓝 𝓑) (call : Call) → IsTold 𝓝 𝓑 c (step 𝓝 𝓑 c call)
  unfolding step timeout_check close
  step-IsTold c (comes_in p clock) = handle_incoming_packet-IsTold 𝓝 𝓑 c clock p
  step-IsTold c (times_out clock) = timeout_check_in-IsTold c clock c.local_state
  step-IsTold c (closes clock) = close_in-IsTold c clock c.local_state
  step-IsTold c (resets clock) = reset_conn-IsTold c clock

  -- Over any calls (packets that come in, timeout checks, `close` up to its interval, `reset`) the calls of
  -- `notifyStateChange` form a chain: the first one has the state at the start as its old state, each other one has the
  -- new state of the one before it, and the new state of the last one, or the state at the start if there is
  -- none, is the state at the end.
  pub run-IsTold :
      (calls : List Call) (c : Conn 𝓝 𝓑)
      → told c.local_state (run 𝓝 𝓑 c calls).1 ≡ some (run 𝓝 𝓑 c calls).0.local_state
  unfolding run
  run-IsTold [] c = refl
  run-IsTold (call ∷ calls) c =
      then-IsTold 𝓝 𝓑 c (step 𝓝 𝓑 c call) (λ c'. run 𝓝 𝓑 c' calls) (step-IsTold c call)
        (run-IsTold calls (step 𝓝 𝓑 c call).0)
