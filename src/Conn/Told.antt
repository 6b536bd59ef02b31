-- ===== src/Conn/Told.antt =====
-- src/utp_conn.ts, `notifyStateChange`: it is called for each change, with the state before and the one after.
pub mod Incoming
pub mod Calls
pub mod Settled
use utp.Base.{
  ◌≡◌, refl, ◌∙◌, ap, Bool, true, false, not, ◌&&◌, List, [], ◌∷◌, ◌++◌, map, Option, none, some,
  arith, ◌==◌, if◌then◌else◌, Bool-cases, Option-cases, inl, inr, ℕ,
}
use utp.Base.Number.{JsNumber}
use utp.Seq.{ℤ, add}
use utp.CircularQueue
use utp.Packet.{Packet, st_data, st_fin}
use utp.BlockingBuffer
use utp.BlockingBuffer.{ByteBuffer, Resolved}
use utp.SendWindow
use utp.SendWindow.{Action, wait_for_ack}
use utp.Conn.{
  Conn, Clock, Run, State, Effect, transmit, go_on, resolve_read, remove_conn, release_statistic,
  received_data, sent_data, state_changed, state_number, closed, close_wait, reset, connected,
  window_effects, send_utp_packet, ◌>>>◌, set_state, set_ack_nr, set_seq_nr, is_closed,
  is_connected,
}
use utp.Conn.Create.{create_fin_packet, create_reset_packet}
use utp.Conn.Closing.{
  drain_buffer, leave, force_close, send_fin, release, try_safe_release, reset_conn, is_set,
}
use utp.Conn.Incoming.{
  write_received, deliver, process_one, process_from, process_received_packets, take_in, send_ack,
  answer_fin, try_release, acknowledge, handle_at_connected,
}

-- The state to which the calls of `notifyStateChange` among some effects lead, if the first of them starts from the given
-- state and each other one from the state to which the one before it led.
abbrev pub told : State → List Effect → Option State
told s [] = some s
told s (state_changed before after ∷ es) =
    let rest = told after es in if state_number before == state_number s then rest else none
told s (transmit p a ∷ es) = told s es
told s (go_on k e ∷ es) = told s es
told s (resolve_read r ∷ es) = told s es
told s (remove_conn ∷ es) = told s es
told s (release_statistic ∷ es) = told s es
told s (received_data n ∷ es) = told s es
told s (sent_data n ∷ es) = told s es

pub told-append :
    (s t : State) (es more : List Effect) → told s es ≡ some t → told s (es ++ more) ≡ told t more
told-append s t [] more e = ap (λ o. elim o [ none ↦ none | some u ↦ told u more ]) e
told-append s t (state_changed before after ∷ es) more e =
    ground (arith, told-append after t es more)
told-append s t (transmit p a ∷ es) more e = told-append s t es more e
told-append s t (go_on k x ∷ es) more e = told-append s t es more e
told-append s t (resolve_read r ∷ es) more e = told-append s t es more e
told-append s t (remove_conn ∷ es) more e = told-append s t es more e
told-append s t (release_statistic ∷ es) more e = told-append s t es more e
told-append s t (received_data n ∷ es) more e = told-append s t es more e
told-append s t (sent_data n ∷ es) more e = told-append s t es more e

pub told-window : (s : State) (acts : List Action) → told s (window_effects acts) ≡ some s
told-window s [] = refl
told-window s (Action.send p a ∷ acts) = told-window s acts
told-window s (Action.resume k e ∷ acts) = told-window s acts

told-reads : (s : State) (rs : List Resolved) → told s (map resolve_read rs) ≡ some s
told-reads s [] = refl
told-reads s (r ∷ rs) = told-reads s rs

module _ (𝓝 : JsNumber) (𝓑 : ByteBuffer) where
  -- After the effects of a call a listener knows the state.
  abbrev pub IsTold : Conn 𝓝 𝓑 → Run 𝓝 𝓑 → Type 0
  IsTold c (c', out) = told c.local_state out ≡ some c'.local_state

  pub then-IsTold :
      (c : Conn 𝓝 𝓑) (r : Run 𝓝 𝓑) (f : Conn 𝓝 𝓑 → Run 𝓝 𝓑)
      → IsTold c r
      → IsTold r.0 (f r.0)
      → IsTold c (◌>>>◌ 𝓝 𝓑 r f)
  then-IsTold c (c', out) f p q = told-append c.local_state c'.local_state out (f c').1 p ∙ q

  pub send_utp_packet-IsTold :
      (c : Conn 𝓝 𝓑) (clock : Clock) (p : Packet) → IsTold c (send_utp_packet 𝓝 𝓑 c clock p).0
  unfolding send_utp_packet
  send_utp_packet-IsTold c clock p =
      let ((w, acts), room) = wait_for_ack 𝓝 c.send_window clock.date p c.remote_addr in
      ground (
        arith,
        told-window c.local_state acts,
        told-append c.local_state c.local_state (window_effects acts)
            (transmit p c.remote_addr ∷ []),
      )

  pub set_state-IsTold : (c : Conn 𝓝 𝓑) (s : State) → IsTold c (set_state 𝓝 𝓑 c s)
  unfolding set_state
  set_state-IsTold c s = ground arith

  pub drain_buffer-IsTold : (c : Conn 𝓝 𝓑) → IsTold c (drain_buffer 𝓝 𝓑 c)
  unfolding drain_buffer
  drain_buffer-IsTold c = told-reads c.local_state (BlockingBuffer.drain 𝓑 c.recv_buffer).1

  leave-IsTold : (c : Conn 𝓝 𝓑) → IsTold c (leave 𝓝 𝓑 c)
  unfolding leave
  leave-IsTold c = set_state-IsTold c closed

  pub force_close-IsTold : (c : Conn 𝓝 𝓑) → IsTold c (force_close 𝓝 𝓑 c)
  unfolding force_close
  force_close-IsTold c =
      then-IsTold c (drain_buffer 𝓝 𝓑 c) (leave 𝓝 𝓑) (drain_buffer-IsTold c)
        (leave-IsTold (drain_buffer 𝓝 𝓑 c).0)

  pub send_fin-IsTold : (c : Conn 𝓝 𝓑) (clock : Clock) → IsTold c (send_fin 𝓝 𝓑 c clock).0
  unfolding send_fin create_fin_packet set_seq_nr
  send_fin-IsTold c clock = send_utp_packet-IsTold _ clock _

  pub release-IsTold : (c : Conn 𝓝 𝓑) (clock : Clock) → IsTold c (release 𝓝 𝓑 c clock)
  unfolding release
  release-IsTold c clock =
      ground (arith, force_close-IsTold c, leave-IsTold c, send_fin-IsTold c clock)

  pub write_received-IsTold :
      (c : Conn 𝓝 𝓑) (bytes : List ℕ) → IsTold c (write_received 𝓝 𝓑 c bytes)
  unfolding write_received
  write_received-IsTold c bytes =
      let done = (BlockingBuffer.write 𝓑 c.recv_buffer bytes).1 in
      told-append c.local_state c.local_state (map resolve_read done) _
        (told-reads c.local_state done)

  deliver-IsTold : (c : Conn 𝓝 𝓑) (p : Packet) → IsTold c (deliver 𝓝 𝓑 c p)
  unfolding deliver
  deliver-IsTold c p = elim (Option-cases p.payload) [
    | inl empty ↦ rw (deliver, empty) refl
    | inr (bytes, carries) ↦ elim (Bool-cases (p.type == st_data)) [
      | inl data_packet ↦ rw (deliver, carries, data_packet) (write_received-IsTold c bytes)
      | inr other ↦ rw (deliver, carries, other) refl
    ]
  ]

  process_one-IsTold : (c : Conn 𝓝 𝓑) (k : ℕ) → IsTold c (process_one 𝓝 𝓑 c k)
  unfolding process_one set_ack_nr
  process_one-IsTold c k =
      let (found, q) = CircularQueue.dequeue_by_key c.recv_packet_queue k in
      let c' : Conn 𝓝 𝓑 = record (set_ack_nr 𝓝 𝓑 c k) { recv_packet_queue = q } in
      elim (Bool-cases (add c.local_ack_nr (ℤ.pos 1) == k)) [
        | inl next ↦ elim (Option-cases found) [
          | inl missing ↦ rw (process_one, next, missing) refl
          | inr (p, there) ↦ rw (process_one, next, there) (deliver-IsTold c' p)
        ]
        | inr other ↦ rw (process_one, other) refl
      ]

  process_from-IsTold : (ks : List ℕ) (c : Conn 𝓝 𝓑) → IsTold c (process_from 𝓝 𝓑 c ks)
  unfolding process_from
  process_from-IsTold [] c = refl
  process_from-IsTold (k ∷ ks) c =
      then-IsTold c (process_one 𝓝 𝓑 c k) (λ c'. process_from 𝓝 𝓑 c' ks) (process_one-IsTold c k)
        (process_from-IsTold ks (process_one 𝓝 𝓑 c k).0)

  process_received_packets-IsTold : (c : Conn 𝓝 𝓑) → IsTold c (process_received_packets 𝓝 𝓑 c)
  unfolding process_received_packets
  process_received_packets-IsTold c = process_from-IsTold (CircularQueue.keys c.recv_packet_queue) c

  pub take_in-IsTold : (c : Conn 𝓝 𝓑) (p : Packet) → IsTold c (take_in 𝓝 𝓑 c p)
  unfolding take_in
  take_in-IsTold c p =
      let first =
        (if CircularQueue.is_at_capacity c.recv_packet_queue
          then process_received_packets 𝓝 𝓑 c
          else (c, [])) in
      let queue : Conn 𝓝 𝓑 → Conn 𝓝 𝓑 = λ c'. record c' {
        recv_packet_queue = CircularQueue.enqueue c'.recv_packet_queue p.seq_nr p;
      } in
      then-IsTold c first (λ c'. process_received_packets 𝓝 𝓑 (queue c'))
        (elim (Bool-cases (CircularQueue.is_at_capacity c.recv_packet_queue)) [
          | inl full ↦ rw full (process_received_packets-IsTold c)
          | inr room ↦ rw room refl
        ])
        (process_received_packets-IsTold (queue first.0))
