-- ===== src/Conn/Fixed/Calls.antt =====
-- src/utp_conn.ts: the same of `timeoutCheck`, `close` and `waitForConnecting`.
use utp.Base.{◌≡◌, refl, ◌∙◌, some, arith, Bool-cases, inl, inr, if◌then◌else◌}
use utp.Base.Number.{JsNumber}
use utp.BlockingBuffer.{ByteBuffer}
use utp.Conn.{
  Conn, Clock, State, syn_sent, syn_recv, connected, reset, close_wait, closed, send_utp_packet,
  set_state, set_seq_nr,
}
use utp.Conn.Create.{create_ack_packet, create_from_conn}
use utp.Conn.Closing.{try_safe_release, is_set}
use utp.Conn.Outgoing.{
  check_window, keep_alive, timeout_check, timeout_check_in, release_if_waiting, begin_close, close,
  close_in, start_connecting,
}
use utp.Conn.Fixed.{
  is_live, ids, fixed, Keeps, send_utp_packet-Keeps, set_state-Keeps, force_close-Keeps,
  release-Keeps, send_fin-Keeps,
}

module _ (𝓝 : JsNumber) (𝓑 : ByteBuffer) where
  check_window-Keeps : (c : Conn 𝓝 𝓑) (clock : Clock) → Keeps 𝓝 𝓑 c (check_window 𝓝 𝓑 c clock)
  unfolding check_window fixed
  check_window-Keeps c clock = refl

  keep_alive-Keeps : (c : Conn 𝓝 𝓑) (clock : Clock) → Keeps 𝓝 𝓑 c (keep_alive 𝓝 𝓑 c clock)
  unfolding keep_alive
  keep_alive-Keeps c clock = ground (
    arith,
    send_utp_packet-Keeps 𝓝 𝓑 c clock (create_ack_packet 𝓝 𝓑 c clock (create_from_conn 𝓝 𝓑 c)),
  )

  release_if_waiting-Keeps :
      (c : Conn 𝓝 𝓑) (clock : Clock) → Keeps 𝓝 𝓑 c (release_if_waiting 𝓝 𝓑 c clock)
  unfolding release_if_waiting try_safe_release
  release_if_waiting-Keeps c clock = ground (arith, release-Keeps 𝓝 𝓑 c clock)

  timeout_check_in-Keeps :
      (c : Conn 𝓝 𝓑) (clock : Clock) (s : State) → Keeps 𝓝 𝓑 c (timeout_check_in 𝓝 𝓑 c clock s)
  unfolding timeout_check_in
  timeout_check_in-Keeps c clock syn_sent = ground (arith, force_close-Keeps 𝓝 𝓑 c)
  timeout_check_in-Keeps c clock syn_recv = check_window-Keeps _ clock ∙ keep_alive-Keeps c clock
  timeout_check_in-Keeps c clock connected = check_window-Keeps _ clock ∙ keep_alive-Keeps c clock
  timeout_check_in-Keeps c clock close_wait =
      release_if_waiting-Keeps _ clock ∙ check_window-Keeps c clock
  timeout_check_in-Keeps c clock reset = refl
  timeout_check_in-Keeps c clock closed = refl

  pub timeout_check-Keeps : (c : Conn 𝓝 𝓑) (clock : Clock) → Keeps 𝓝 𝓑 c (timeout_check 𝓝 𝓑 c clock)
  unfolding timeout_check
  timeout_check-Keeps c clock = timeout_check_in-Keeps c clock c.local_state

  begin_close-fixed :
      (c : Conn 𝓝 𝓑) (clock : Clock)
      → fixed 𝓝 𝓑 (begin_close 𝓝 𝓑 c clock).0 ≡ (ids 𝓝 𝓑 c, some clock.performance)
  unfolding begin_close fixed
  begin_close-fixed c clock =
      let c₁ : Conn 𝓝 𝓑 = record c { close_start_time = some clock.performance } in
      let c₂ = (set_state 𝓝 𝓑 c₁ close_wait).0 in
      elim (Bool-cases (is_set c₂.local_fin_packet)) [
        | inl sent_fin ↦ rw sent_fin (set_state-Keeps 𝓝 𝓑 c₁ close_wait)
        | inr fresh ↦ rw fresh (send_fin-Keeps 𝓝 𝓑 c₂ clock ∙ set_state-Keeps 𝓝 𝓑 c₁ close_wait)
      ]

  close_in-fixed :
      (c : Conn 𝓝 𝓑) (clock : Clock) (s : State)
      → fixed 𝓝 𝓑 (close_in 𝓝 𝓑 c clock s).0
        ≡ (ids 𝓝 𝓑 c, (if is_live s then some clock.performance else c.close_start_time))
  unfolding close_in fixed
  close_in-fixed c clock syn_sent = begin_close-fixed c clock
  close_in-fixed c clock syn_recv = begin_close-fixed c clock
  close_in-fixed c clock connected = begin_close-fixed c clock
  close_in-fixed c clock close_wait = refl
  close_in-fixed c clock reset = refl
  close_in-fixed c clock closed = refl

  pub close-fixed :
      (c : Conn 𝓝 𝓑) (clock : Clock)
      → fixed 𝓝 𝓑 (close 𝓝 𝓑 c clock).0 ≡ (
        ids 𝓝 𝓑 c,
        (if is_live c.local_state then some clock.performance else c.close_start_time),
      )
  unfolding close
  close-fixed c clock = close_in-fixed c clock c.local_state

  pub start_connecting-Keeps :
      (c : Conn 𝓝 𝓑) (clock : Clock) → Keeps 𝓝 𝓑 c (start_connecting 𝓝 𝓑 c clock).0
  unfolding start_connecting set_seq_nr fixed send_utp_packet
  start_connecting-Keeps c clock = ground arith
