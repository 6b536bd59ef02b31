-- ===== src/Conn/Incoming.antt =====
-- src/utp_conn.ts: what a connection does with a packet that comes in, in each of its states. No call
-- on this path waits for room: the packets that it sends are acknowledgements, or leave in another
-- state than connected.
use utp.Base.{
  ℕ, Bool, true, false, not, ◌&&◌, ◌||◌, List, [], ◌∷◌, ◌++◌, map, none, some, ◌==◌, if◌then◌else◌,
  length,
}
use utp.Base.Number.{JsNumber}
use utp.Seq
use utp.Seq.{ℤ, add}
use utp.CircularQueue
use utp.Packet.{Packet, st_data, st_fin, st_state}
use utp.BlockingBuffer
use utp.BlockingBuffer.{ByteBuffer}
use utp.SendWindow
use utp.Conn.{
  Conn, Clock, Run, State, received_data, resolve_read, window_effects, current_microseconds,
  set_state, set_ack_nr, is_closed, send_utp_packet, ◌>>>◌, syn_sent, syn_recv, connected, reset,
  close_wait, closed,
}
use utp.Conn.Create.{create_ack_packet, create_from_conn}
use utp.Conn.Closing.{drain_buffer, send_fin, try_safe_release, is_set}

-- How a handler ends: with its Boolean, or by an exception.
pub data Handled : Type 0 where
  yes no throws : Handled

module _ (𝓝 : JsNumber) (𝓑 : ByteBuffer) where
  -- `this.recvBuffer.write` and `this.statistic.updateRecvData`
  unfoldable pub write_received : Conn 𝓝 𝓑 → List ℕ → Run 𝓝 𝓑
  write_received c bytes =
      let ((_, b), done) = BlockingBuffer.write 𝓑 c.recv_buffer bytes in
      (record c { recv_buffer = b }, map resolve_read done ++ received_data (length bytes) ∷ [])

  unfoldable pub send_ack : Conn 𝓝 𝓑 → Clock → Run 𝓝 𝓑
  send_ack c clock =
      (send_utp_packet 𝓝 𝓑 c clock (create_ack_packet 𝓝 𝓑 c clock (create_from_conn 𝓝 𝓑 c))).0

  -- what the loop of `processReceivedPackets` does with a packet that it took out of the queue
  unfoldable pub deliver : Conn 𝓝 𝓑 → Packet → Run 𝓝 𝓑
  deliver c p = elim p.payload [
    | none ↦ (c, [])
    | some bytes ↦ if p.type == st_data then write_received c bytes else (c, [])
  ]

  -- its body
  unfoldable pub process_one : Conn 𝓝 𝓑 → ℕ → Run 𝓝 𝓑
  process_one c seq_nr =
      if add c.local_ack_nr (ℤ.pos 1) == seq_nr
      then (let (found, q) = CircularQueue.dequeue_by_key c.recv_packet_queue seq_nr in
          let c' : Conn 𝓝 𝓑 = record (set_ack_nr 𝓝 𝓑 c seq_nr) { recv_packet_queue = q } in
          elim found [ none ↦ (c', []) | some p ↦ deliver c' p ])
      else (c, [])

  unfoldable pub process_from : Conn 𝓝 𝓑 → List ℕ → Run 𝓝 𝓑
  process_from c [] = (c, [])
  process_from c (k ∷ ks) = ◌>>>◌ 𝓝 𝓑 (process_one c k) (λ c'. process_from c' ks)

  -- `processReceivedPackets`, over the keys at its start
  unfoldable pub process_received_packets : Conn 𝓝 𝓑 → Run 𝓝 𝓑
  process_received_packets c = process_from c (CircularQueue.keys c.recv_packet_queue)

  unfoldable pub handle_at_syn_sent : Conn 𝓝 𝓑 → Packet → Run 𝓝 𝓑 × Handled
  handle_at_syn_sent c p =
      if p.type == st_state
      then (set_state 𝓝 𝓑 (set_ack_nr 𝓝 𝓑 c (add p.seq_nr (ℤ.negsuc 0))) connected, yes)
      else ((c, []), no)

  unfoldable pub handle_at_syn_received : Conn 𝓝 𝓑 → Clock → Packet → Run 𝓝 𝓑 × Handled
  handle_at_syn_received c clock p =
      if p.type == st_data && p.ack_nr == add c.local_seq_nr (ℤ.negsuc 0)
      then (
        ◌>>>◌ 𝓝 𝓑
            (◌>>>◌ 𝓝 𝓑 (set_state 𝓝 𝓑 (set_ack_nr 𝓝 𝓑 c p.seq_nr) connected)
              (λ c'. elim p.payload [ none ↦ (c', []) | some bytes ↦ write_received c' bytes ]))
            (λ c'. send_ack c' clock),
        yes,
      )
      else ((c, []), no)

  -- A packet behind the FIN of the other side.
  unfoldable pub beyond_fin : Conn 𝓝 𝓑 → Packet → Bool
  beyond_fin c p = elim c.remote_fin_packet [ none ↦ false | some fin ↦ Seq.gt p.seq_nr fin.seq_nr ]

  -- The FIN of `handleAtConnected`, up to `trySafeRelease`.
  unfoldable pub answer_fin : Conn 𝓝 𝓑 → Clock → Packet → Run 𝓝 𝓑
  answer_fin c clock p =
      ◌>>>◌ 𝓝 𝓑
        (◌>>>◌ 𝓝 𝓑 (set_state 𝓝 𝓑 (record c { remote_fin_packet = some p }) close_wait) (λ c'.
          if not (is_set c'.local_fin_packet) && not (is_closed 𝓝 𝓑 c')
          then (send_fin 𝓝 𝓑 c' clock).0
          else (c', [])))
        (drain_buffer 𝓝 𝓑)

  unfoldable pub try_release : Run 𝓝 𝓑 → Clock → Run 𝓝 𝓑 × Bool
  try_release (c, out) clock = elim (try_safe_release 𝓝 𝓑 c clock) [
    | none ↦ ((c, out), true)
    | some (c', more) ↦ ((c', out ++ more), false)
  ]

  -- The packet goes into the queue, and what is in order goes on to the buffer.
  unfoldable pub take_in : Conn 𝓝 𝓑 → Packet → Run 𝓝 𝓑
  take_in c p =
      ◌>>>◌ 𝓝 𝓑
        (if CircularQueue.is_at_capacity c.recv_packet_queue
          then process_received_packets c
          else (c, []))
        (λ c'.
          process_received_packets (record c' {
            recv_packet_queue = CircularQueue.enqueue c'.recv_packet_queue p.seq_nr p;
          }))

  -- the acknowledgement at the end of `handleAtConnected`
  unfoldable pub acknowledge : Run 𝓝 𝓑 → Clock → Run 𝓝 𝓑
  acknowledge r clock = ◌>>>◌ 𝓝 𝓑 r (λ c. if is_closed 𝓝 𝓑 c then (c, []) else send_ack c clock)

  unfoldable pub handle_at_connected : Conn 𝓝 𝓑 → Clock → Packet → Run 𝓝 𝓑 × Handled
  handle_at_connected c clock p =
      if is_closed 𝓝 𝓑 c
      then ((c, []), no)
      else (if not (p.type == st_fin || p.type == st_data)
          then ((c, []), no)
          else (if p.seq_nr == c.local_ack_nr
              then ((c, []), no)
              else (if beyond_fin c p
                  then ((c, []), no)
                  else (if p.type == st_fin
                      then (let (r, threw) =
                            try_release (◌>>>◌ 𝓝 𝓑 (take_in c p) (λ c'. answer_fin c' clock p))
                              clock in
                          if threw then (r, throws) else (acknowledge r clock, yes))
                      else (acknowledge (take_in c p) clock, yes)))))

  -- `this.sendWindow.handleAck`
  unfoldable pub handle_ack : Conn 𝓝 𝓑 → Clock → Packet → Run 𝓝 𝓑
  handle_ack c clock p =
      let (w, acts) = SendWindow.handle_ack 𝓝 c.send_window clock.date p in
      (record c { send_window = w }, window_effects acts)

  unfoldable pub handle_at_close_wait : Conn 𝓝 𝓑 → Clock → Packet → Run 𝓝 𝓑 × Handled
  handle_at_close_wait c clock p =
      if p.type == st_state then (handle_ack c clock p, yes) else ((c, []), no)

  -- the `switch` of `handleIncomingPacket`
  unfoldable pub dispatch : Conn 𝓝 𝓑 → Clock → Packet → State → Run 𝓝 𝓑 × Handled
  dispatch c clock p syn_sent = handle_at_syn_sent c p
  dispatch c clock p syn_recv = handle_at_syn_received c clock p
  dispatch c clock p connected = handle_at_connected c clock p
  dispatch c clock p close_wait = handle_at_close_wait c clock p
  dispatch c clock p closed = ((c, []), no)
  dispatch c clock p reset = ((c, []), no)

  unfoldable pub finish : Conn 𝓝 𝓑 → Clock → Handled → Conn 𝓝 𝓑
  finish c clock yes = record c { last_packet_timestamp = some (current_microseconds clock) }
  finish c clock no = c
  finish c clock throws = c

  unfoldable pub handle_incoming_packet : Conn 𝓝 𝓑 → Clock → Packet → Run 𝓝 𝓑 × Handled
  handle_incoming_packet c clock p =
      let (c₁, first) = if p.type == st_state then handle_ack c clock p else (c, []) in
      let ((c₂, second), handled) = dispatch c₁ clock p c₁.local_state in
      ((finish c₂ clock handled, first ++ second), handled)
