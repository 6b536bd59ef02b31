-- ===== src/Conn/Fixed.antt =====
-- src/utp_conn.ts: what no call of a connection changes: its address, its two ids and, but for `close`,
-- the time at which it began to close.
pub mod Calls
use utp.Base.{
  Option, Bool, true, false, ℕ, ◌≡◌, refl, ◌∙◌, List, [], ◌∷◌, some, arith, ◌==◌, Bool-cases, inl,
  inr, not, ◌&&◌, if◌then◌else◌,
}
use utp.Addr.{Addr}
use utp.Base.Number.{JsNumber}
use utp.CircularQueue
use utp.Packet.{Packet, st_state}
use utp.BlockingBuffer.{ByteBuffer}
use utp.Conn.{
  Conn, Clock, Run, State, syn_sent, syn_recv, connected, reset, close_wait, closed,
  send_utp_packet, ◌>>>◌, set_state, set_ack_nr, set_seq_nr, is_closed,
}
use utp.Conn.Create.{create_fin_packet, create_ack_packet, create_from_conn}
use utp.Conn.Closing.{
  drain_buffer, leave, force_close, send_fin, release, try_safe_release, reset_conn, is_set,
}
use utp.Conn.Incoming.{
  write_received, deliver, process_one, process_from, process_received_packets, take_in, send_ack,
  handle_at_syn_sent, handle_at_syn_received, answer_fin, try_release, acknowledge,
  handle_at_connected, handle_at_close_wait, handle_ack, dispatch, finish, handle_incoming_packet,
  Handled, yes, no, throws,
}
use utp.Conn.Outgoing.{
  check_window, keep_alive, timeout_check, timeout_check_in, release_if_waiting, begin_close, close,
  close_in, start_connecting,
}

-- the states in which `close` begins
abbrev pub is_live : State → Bool
is_live syn_sent = true
is_live syn_recv = true
is_live connected = true
is_live reset = false
is_live close_wait = false
is_live closed = false

module _ (𝓝 : JsNumber) (𝓑 : ByteBuffer) where
  abbrev pub ids : Conn 𝓝 𝓑 → Addr × ℕ × ℕ
  ids c = (c.remote_addr, c.local_send_id, c.local_recv_id)

  unfoldable pub fixed : Conn 𝓝 𝓑 → (Addr × ℕ × ℕ) × Option ℕ
  fixed c = (ids c, c.close_start_time)

  abbrev pub Keeps : Conn 𝓝 𝓑 → Run 𝓝 𝓑 → Type 0
  Keeps c r = fixed r.0 ≡ fixed c

  send_utp_packet-Keeps :
      (c : Conn 𝓝 𝓑) (clock : Clock) (p : Packet) → Keeps c (send_utp_packet 𝓝 𝓑 c clock p).0
  unfolding send_utp_packet fixed
  send_utp_packet-Keeps c clock p = ground arith

  set_state-Keeps : (c : Conn 𝓝 𝓑) (s : State) → Keeps c (set_state 𝓝 𝓑 c s)
  unfolding set_state fixed
  set_state-Keeps c s = ground arith

  process_one-Keeps : (c : Conn 𝓝 𝓑) (k : ℕ) → Keeps c (process_one 𝓝 𝓑 c k)
  unfolding process_one deliver set_ack_nr write_received fixed
  process_one-Keeps c k = ground arith

  process_from-Keeps : (ks : List ℕ) (c : Conn 𝓝 𝓑) → Keeps c (process_from 𝓝 𝓑 c ks)
  unfolding process_from
  process_from-Keeps [] c = refl
  process_from-Keeps (k ∷ ks) c =
      process_from-Keeps ks (process_one 𝓝 𝓑 c k).0 ∙ process_one-Keeps c k

  take_in-Keeps : (c : Conn 𝓝 𝓑) (p : Packet) → Keeps c (take_in 𝓝 𝓑 c p)
  unfolding take_in process_received_packets fixed
  take_in-Keeps c p = elim (Bool-cases (CircularQueue.is_at_capacity c.recv_packet_queue)) [
    | inl full ↦ rw full (process_from-Keeps _ _ ∙ process_from-Keeps _ c)
    | inr room ↦ rw room (process_from-Keeps _ _)
  ]

  leave-Keeps : (c : Conn 𝓝 𝓑) → Keeps c (leave 𝓝 𝓑 c)
  unfolding leave
  leave-Keeps c = set_state-Keeps c closed

  pub force_close-Keeps : (c : Conn 𝓝 𝓑) → Keeps c (force_close 𝓝 𝓑 c)
  unfolding force_close drain_buffer fixed
  force_close-Keeps c = leave-Keeps (drain_buffer 𝓝 𝓑 c).0

  send_fin-Keeps : (c : Conn 𝓝 𝓑) (clock : Clock) → Keeps c (send_fin 𝓝 𝓑 c clock).0
  unfolding send_fin create_fin_packet set_seq_nr fixed
  send_fin-Keeps c clock = send_utp_packet-Keeps _ clock _

  pub release-Keeps : (c : Conn 𝓝 𝓑) (clock : Clock) → Keeps c (release 𝓝 𝓑 c clock)
  unfolding release
  release-Keeps c clock = ground (arith, force_close-Keeps c, leave-Keeps c, send_fin-Keeps c clock)

  try_release-Keeps : (r : Run 𝓝 𝓑) (clock : Clock) → Keeps r.0 (try_release 𝓝 𝓑 r clock).0
  unfolding try_release try_safe_release
  try_release-Keeps (c, out) clock = ground (arith, release-Keeps c clock)

  answer_fin-Keeps :
      (c : Conn 𝓝 𝓑) (clock : Clock) (p : Packet) → Keeps c (answer_fin 𝓝 𝓑 c clock p)
  unfolding answer_fin drain_buffer fixed
  answer_fin-Keeps c clock p =
      let fin : Conn 𝓝 𝓑 = record c { remote_fin_packet = some p } in
      let c₁ = (set_state 𝓝 𝓑 fin close_wait).0 in
      elim (Bool-cases (not (is_set c₁.local_fin_packet) && not (is_closed 𝓝 𝓑 c₁))) [
        | inl fresh ↦ rw fresh (send_fin-Keeps c₁ clock ∙ set_state-Keeps fin close_wait)
        | inr old ↦ rw old (set_state-Keeps fin close_wait)
      ]

  acknowledge-Keeps : (r : Run 𝓝 𝓑) (clock : Clock) → Keeps r.0 (acknowledge 𝓝 𝓑 r clock)
  unfolding acknowledge send_ack
  acknowledge-Keeps r clock = elim (Bool-cases (is_closed 𝓝 𝓑 r.0)) [
    | inl shut ↦ rw shut
    | inr open_ ↦ rw open_ (send_utp_packet-Keeps r.0 clock _)
  ]

  handle_at_connected-Keeps :
      (c : Conn 𝓝 𝓑) (clock : Clock) (p : Packet) → Keeps c (handle_at_connected 𝓝 𝓑 c clock p).0
  unfolding handle_at_connected
  handle_at_connected-Keeps c clock p =
      let taken = ◌>>>◌ 𝓝 𝓑 (take_in 𝓝 𝓑 c p) (λ c'. answer_fin 𝓝 𝓑 c' clock p) in
      ground (
        arith,
        acknowledge-Keeps (try_release 𝓝 𝓑 taken clock).0 clock,
        acknowledge-Keeps (take_in 𝓝 𝓑 c p) clock,
        try_release-Keeps taken clock,
        answer_fin-Keeps (take_in 𝓝 𝓑 c p).0 clock p,
        take_in-Keeps c p,
      )

  handle_at_syn_sent-Keeps : (c : Conn 𝓝 𝓑) (p : Packet) → Keeps c (handle_at_syn_sent 𝓝 𝓑 c p).0
  unfolding handle_at_syn_sent set_ack_nr fixed set_state
  handle_at_syn_sent-Keeps c p = ground arith

  handle_at_syn_received-Keeps :
      (c : Conn 𝓝 𝓑) (clock : Clock) (p : Packet) → Keeps c (handle_at_syn_received 𝓝 𝓑 c clock p).0
  unfolding handle_at_syn_received set_ack_nr fixed set_state write_received send_ack
      send_utp_packet
  handle_at_syn_received-Keeps c clock p = ground arith

  handle_ack-Keeps :
      (c : Conn 𝓝 𝓑) (clock : Clock) (p : Packet) → Keeps c (handle_ack 𝓝 𝓑 c clock p)
  unfolding handle_ack fixed
  handle_ack-Keeps c clock p = refl

  dispatch-Keeps :
      (c : Conn 𝓝 𝓑) (clock : Clock) (p : Packet) (s : State) → Keeps c (dispatch 𝓝 𝓑 c clock p s).0
  unfolding dispatch handle_at_close_wait
  dispatch-Keeps c clock p syn_sent = handle_at_syn_sent-Keeps c p
  dispatch-Keeps c clock p syn_recv = handle_at_syn_received-Keeps c clock p
  dispatch-Keeps c clock p connected = handle_at_connected-Keeps c clock p
  dispatch-Keeps c clock p close_wait = ground (arith, handle_ack-Keeps c clock p)
  dispatch-Keeps c clock p closed = refl
  dispatch-Keeps c clock p reset = refl

  finish-Keeps :
      (c : Conn 𝓝 𝓑) (clock : Clock) (h : Handled) → fixed (finish 𝓝 𝓑 c clock h) ≡ fixed c
  unfolding finish fixed
  finish-Keeps c clock yes = refl
  finish-Keeps c clock no = refl
  finish-Keeps c clock throws = refl

  pub handle_incoming_packet-Keeps :
      (c : Conn 𝓝 𝓑) (clock : Clock) (p : Packet) → Keeps c (handle_incoming_packet 𝓝 𝓑 c clock p).0
  unfolding handle_incoming_packet
  handle_incoming_packet-Keeps c clock p =
      let c₁ = (if p.type == st_state then handle_ack 𝓝 𝓑 c clock p else (c, [])).0 in
      let r = dispatch 𝓝 𝓑 c₁ clock p c₁.local_state in
      let kept : fixed c₁ ≡ fixed c = ground (arith, handle_ack-Keeps c clock p) in
      finish-Keeps r.0.0 clock r.1 ∙ dispatch-Keeps c₁ clock p c₁.local_state ∙ kept

  pub reset_conn-Keeps : (c : Conn 𝓝 𝓑) (clock : Clock) → Keeps c (reset_conn 𝓝 𝓑 c clock)
  unfolding reset_conn fixed
  reset_conn-Keeps c clock = send_utp_packet-Keeps _ clock _ ∙ set_state-Keeps c reset
