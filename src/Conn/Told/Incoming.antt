-- ===== src/Conn/Told/Incoming.antt =====
-- src/utp_conn.ts, the handlers of what comes in: the calls of `notifyStateChange` lead to the state behind each of them.
use utp.Base.{
  ◌≡◌, refl, sym, ap, ◌∙◌, not, ◌&&◌, [], none, some, arith, ◌==◌, if◌then◌else◌, Bool-cases,
  Option-cases, inl, inr,
}
use utp.Base.Number.{JsNumber}
use utp.Seq.{ℤ, add}
use utp.Packet.{Packet, st_data, st_state}
use utp.BlockingBuffer.{ByteBuffer}
use utp.SendWindow
use utp.Conn.{
  Conn, Clock, Run, State, state_number, syn_sent, syn_recv, closed, close_wait, reset, connected,
  ◌>>>◌, set_state, set_ack_nr, is_closed,
}
use utp.Conn.Closing.{drain_buffer, send_fin, release, try_safe_release, is_set}
use utp.Conn.Incoming.{
  write_received, take_in, send_ack, answer_fin, try_release, acknowledge, handle_at_connected,
  handle_at_syn_sent, handle_at_syn_received, handle_at_close_wait, handle_ack, dispatch, finish,
  handle_incoming_packet, Handled, yes, no, throws,
}
use utp.Conn.Told.{
  told-append, told-window, IsTold, then-IsTold, send_utp_packet-IsTold, set_state-IsTold,
  drain_buffer-IsTold, send_fin-IsTold, release-IsTold, write_received-IsTold, take_in-IsTold,
}

module _ (𝓝 : JsNumber) (𝓑 : ByteBuffer) where
  answer_fin-IsTold :
      (c : Conn 𝓝 𝓑) (clock : Clock) (p : Packet) → IsTold 𝓝 𝓑 c (answer_fin 𝓝 𝓑 c clock p)
  unfolding answer_fin
  answer_fin-IsTold c clock p =
      let fin : Conn 𝓝 𝓑 = record c { remote_fin_packet = some p } in
      let r = set_state 𝓝 𝓑 fin close_wait in
      let send : Conn 𝓝 𝓑 → Run 𝓝 𝓑 = λ c'.
        if not (is_set c'.local_fin_packet) && not (is_closed 𝓝 𝓑 c')
        then (send_fin 𝓝 𝓑 c' clock).0
        else (c', []) in
      then-IsTold 𝓝 𝓑 c (◌>>>◌ 𝓝 𝓑 r send) (drain_buffer 𝓝 𝓑)
        (then-IsTold 𝓝 𝓑 c r send (set_state-IsTold 𝓝 𝓑 fin close_wait)
          (elim (Bool-cases (not (is_set r.0.local_fin_packet) && not (is_closed 𝓝 𝓑 r.0))) [
            | inl fresh ↦ rw fresh (send_fin-IsTold 𝓝 𝓑 r.0 clock)
            | inr old ↦ rw old refl
          ]))
        (drain_buffer-IsTold 𝓝 𝓑 (◌>>>◌ 𝓝 𝓑 r send).0)

  try_release-IsTold :
      (c : Conn 𝓝 𝓑) (r : Run 𝓝 𝓑) (clock : Clock)
      → IsTold 𝓝 𝓑 c r
      → IsTold 𝓝 𝓑 c (try_release 𝓝 𝓑 r clock).0
  unfolding try_release try_safe_release
  try_release-IsTold c (c', out) clock e =
      elim (Bool-cases (state_number c'.local_state == state_number close_wait)) [
        | inl waits ↦
            rw (try_release, try_safe_release, waits)
              (told-append c.local_state c'.local_state out (release 𝓝 𝓑 c' clock).1 e
                ∙ release-IsTold 𝓝 𝓑 c' clock)
        | inr other ↦ rw (try_release, try_safe_release, other) e
      ]

  acknowledge-IsTold :
      (c : Conn 𝓝 𝓑) (r : Run 𝓝 𝓑) (clock : Clock)
      → IsTold 𝓝 𝓑 c r
      → IsTold 𝓝 𝓑 c (acknowledge 𝓝 𝓑 r clock)
  unfolding acknowledge send_ack
  acknowledge-IsTold c r clock e =
      then-IsTold 𝓝 𝓑 c r (λ c'. if is_closed 𝓝 𝓑 c' then (c', []) else send_ack 𝓝 𝓑 c' clock) e
        (elim (Bool-cases (is_closed 𝓝 𝓑 r.0)) [
          | inl shut ↦ rw shut refl
          | inr open_ ↦ rw open_ (send_utp_packet-IsTold 𝓝 𝓑 r.0 clock _)
        ])

  pub handle_at_connected-IsTold :
      (c : Conn 𝓝 𝓑) (clock : Clock) (p : Packet)
      → IsTold 𝓝 𝓑 c (handle_at_connected 𝓝 𝓑 c clock p).0
  unfolding handle_at_connected
  handle_at_connected-IsTold c clock p =
      let taken = ◌>>>◌ 𝓝 𝓑 (take_in 𝓝 𝓑 c p) (λ c'. answer_fin 𝓝 𝓑 c' clock p) in
      let told_fin =
        then-IsTold 𝓝 𝓑 c (take_in 𝓝 𝓑 c p) (λ c'. answer_fin 𝓝 𝓑 c' clock p)
          (take_in-IsTold 𝓝 𝓑 c p) (answer_fin-IsTold (take_in 𝓝 𝓑 c p).0 clock p) in
      let released = try_release-IsTold c taken clock told_fin in
      ground (
        arith,
        released,
        acknowledge-IsTold c (try_release 𝓝 𝓑 taken clock).0 clock released,
        acknowledge-IsTold c (take_in 𝓝 𝓑 c p) clock (take_in-IsTold 𝓝 𝓑 c p),
      )

  handle_at_syn_sent-IsTold :
      (c : Conn 𝓝 𝓑) (p : Packet) → IsTold 𝓝 𝓑 c (handle_at_syn_sent 𝓝 𝓑 c p).0
  unfolding handle_at_syn_sent set_ack_nr
  handle_at_syn_sent-IsTold c p = elim (Bool-cases (p.type == st_state)) [
    | inl answers ↦ rw answers (set_state-IsTold 𝓝 𝓑 _ connected)
    | inr other ↦ rw other refl
  ]

  handle_at_syn_received-IsTold :
      (c : Conn 𝓝 𝓑) (clock : Clock) (p : Packet)
      → IsTold 𝓝 𝓑 c (handle_at_syn_received 𝓝 𝓑 c clock p).0
  unfolding handle_at_syn_received set_ack_nr send_ack
  handle_at_syn_received-IsTold c clock p =
      let r = set_state 𝓝 𝓑 (set_ack_nr 𝓝 𝓑 c p.seq_nr) connected in
      let write : Conn 𝓝 𝓑 → Run 𝓝 𝓑 =
        λ c'. elim p.payload [ none ↦ (c', []) | some bytes ↦ write_received 𝓝 𝓑 c' bytes ] in
      let written =
        then-IsTold 𝓝 𝓑 c r write (set_state-IsTold 𝓝 𝓑 (set_ack_nr 𝓝 𝓑 c p.seq_nr) connected)
          (elim (Option-cases p.payload) [
            | inl empty ↦ rw empty refl
            | inr (bytes, carries) ↦ rw carries (write_received-IsTold 𝓝 𝓑 r.0 bytes)
          ]) in
      elim (Bool-cases (p.type == st_data && p.ack_nr == add c.local_seq_nr (ℤ.negsuc 0))) [
        | inl answers ↦ rw answers (
            then-IsTold 𝓝 𝓑 c (◌>>>◌ 𝓝 𝓑 r write) (λ c'. send_ack 𝓝 𝓑 c' clock) written
              (send_utp_packet-IsTold 𝓝 𝓑 (◌>>>◌ 𝓝 𝓑 r write).0 clock _))
        | inr other ↦ rw other refl
      ]

  handle_ack-IsTold :
      (c : Conn 𝓝 𝓑) (clock : Clock) (p : Packet) → IsTold 𝓝 𝓑 c (handle_ack 𝓝 𝓑 c clock p)
  unfolding handle_ack
  handle_ack-IsTold c clock p =
      told-window c.local_state (SendWindow.handle_ack 𝓝 c.send_window clock.date p).1

  dispatch-IsTold :
      (c : Conn 𝓝 𝓑) (clock : Clock) (p : Packet) (s : State)
      → IsTold 𝓝 𝓑 c (dispatch 𝓝 𝓑 c clock p s).0
  unfolding dispatch handle_at_close_wait
  dispatch-IsTold c clock p syn_sent = handle_at_syn_sent-IsTold c p
  dispatch-IsTold c clock p syn_recv = handle_at_syn_received-IsTold c clock p
  dispatch-IsTold c clock p connected = handle_at_connected-IsTold c clock p
  dispatch-IsTold c clock p close_wait = ground (arith, handle_ack-IsTold c clock p)
  dispatch-IsTold c clock p closed = refl
  dispatch-IsTold c clock p reset = refl

  finish-same :
      (c : Conn 𝓝 𝓑) (clock : Clock) (h : Handled)
      → (finish 𝓝 𝓑 c clock h).local_state ≡ c.local_state
  unfolding finish
  finish-same c clock yes = refl
  finish-same c clock no = refl
  finish-same c clock throws = refl

  pub handle_incoming_packet-IsTold :
      (c : Conn 𝓝 𝓑) (clock : Clock) (p : Packet)
      → IsTold 𝓝 𝓑 c (handle_incoming_packet 𝓝 𝓑 c clock p).0
  unfolding handle_incoming_packet
  handle_incoming_packet-IsTold c clock p =
      let first = (if p.type == st_state then handle_ack 𝓝 𝓑 c clock p else (c, [])) in
      let r = dispatch 𝓝 𝓑 first.0 clock p first.0.local_state in
      let told_first : IsTold 𝓝 𝓑 c first = elim (Bool-cases (p.type == st_state)) [
        | inl answers ↦ rw answers (handle_ack-IsTold c clock p)
        | inr other ↦ rw other refl
      ] in
      told-append c.local_state first.0.local_state first.1 r.0.1 told_first
      ∙ dispatch-IsTold first.0 clock p first.0.local_state
      ∙ ap some (sym (finish-same r.0.0 clock r.1))
