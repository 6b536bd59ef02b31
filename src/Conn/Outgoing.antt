-- ===== src/Conn/Outgoing.antt =====
-- src/utp_conn.ts: `write`, the first packet of a connection, `timeoutCheck` and the start of `close`.
-- A `write` that waits for room is suspended with its packet and the bytes behind it, and goes on with
-- `resume_write`. What the socket answers to a packet is an argument: whether it is closed, and how many bytes its UDP
-- socket sends of a packet.
use utp.Base.{
  ℕ, zero, suc, ◌+◌, ◌-◌, ◌*◌, min, Bool, false, List, [], ◌∷◌, ◌++◌, none, some, ltb, ◌==◌, Option,
  if◌then◌else◌, length, take, drop,
}
use utp.Base.Number.{JsNumber}
use utp.Packet.{Packet, header_size, payload_bytes, packet_length, to_bytes}
use utp.BlockingBuffer.{ByteBuffer}
use utp.SendWindow
use utp.SendWindow.{default_mtu}
use utp.Conn.{
  Conn, Clock, Run, State, SendOutcome, sent, waits, throws, sent_data, transmit, window_effects,
  current_microseconds, set_state, set_seq_nr, send_utp_packet, ◌>>>◌, syn_sent, syn_recv,
  connected, reset, close_wait, closed,
}
use utp.Conn.Create.{create_ack_packet, create_syn_packet, create_data_packet, create_from_conn}
use utp.Conn.Closing.{force_close, send_fin, try_safe_release, is_set}

abbrev pub default_chunk_size : ℕ
default_chunk_size = 64 * 1024

abbrev pub chunk_size : ℕ
chunk_size = min default_chunk_size (default_mtu - header_size)

abbrev pub keep_alive_interval : ℕ
keep_alive_interval = 29000

abbrev pub connect_timeout_duration : ℕ
connect_timeout_duration = 5000

-- Where a `write` stands: at its end, waiting for room with a packet and the bytes behind it, or ended by an exception
-- with those that it did not send: `threw` before the socket was called, `failed` by the assertion on its answer. `cut`
-- marks a loop that ran out of fuel.
pub data Progress : Type 0 where
  done : Progress
  suspended : Packet → List ℕ → Progress
  threw : Packet → List ℕ → Progress
  failed : Packet → List ℕ → Progress
  cut : List ℕ → Progress

-- `Utp.sendUtpPacket`: 0 on a closed socket, else what the UDP socket sends; none when its assertion fails
unfoldable pub answer : Bool → (Packet → ℕ) → Packet → Option ℕ
answer is_shut udp p =
    if is_shut then some 0 else (if udp p == length (to_bytes p) then some (udp p) else none)

-- the assertion of `write` on the answer of the socket
unfoldable pub is_whole : Bool → (Packet → ℕ) → Packet → Bool
is_whole is_shut udp p = elim (answer is_shut udp p) [
  | none ↦ false
  | some n ↦ n == packet_length p
]

module _ (𝓝 : JsNumber) (𝓑 : ByteBuffer) (is_shut : Bool) (udp : Packet → ℕ) where
  -- How a round of the loop of `write` goes on: the packet, what `sendUtpPacket` gave, and the rest.
  unfoldable pub after_send :
      Packet → List ℕ → Run 𝓝 𝓑 → SendOutcome → Run 𝓝 𝓑 × Progress → Run 𝓝 𝓑 × Progress
  after_send p rest (c, out) sent ((c', more), progress) =
      if is_whole is_shut udp p
      then ((c', out ++ sent_data (length (payload_bytes p.payload)) ∷ more), progress)
      else ((c, out), failed p rest)
  after_send p rest r waits later = (r, suspended p rest)
  after_send p rest r throws later = (r, threw p rest)

  -- the loop of `write`, on fuel
  unfoldable pub write_from : ℕ → Conn 𝓝 𝓑 → Clock → List ℕ → Run 𝓝 𝓑 × Progress
  write_from zero c clock bytes = ((c, []), cut bytes)
  write_from (suc fuel) c clock [] = ((c, []), done)
  write_from (suc fuel) c clock (b ∷ bs) =
      let rest = drop chunk_size (b ∷ bs) in
      let (p, c₁) = create_data_packet 𝓝 𝓑 c clock (take chunk_size (b ∷ bs)) in
      let (r, outcome) = send_utp_packet 𝓝 𝓑 c₁ clock p in
      after_send p rest r outcome (write_from fuel r.0 clock rest)

  -- `write`. Each round takes a byte at least, so that one more than the length is enough fuel.
  unfoldable pub write : Conn 𝓝 𝓑 → Clock → List ℕ → Run 𝓝 𝓑 × Progress
  write c clock bytes = write_from (suc (length bytes)) c clock bytes

  -- `write` behind the `await` of its `sendUtpPacket`, when the packet has found room
  unfoldable pub resume_write : Conn 𝓝 𝓑 → Clock → Packet → List ℕ → Run 𝓝 𝓑 × Progress
  resume_write c clock p rest =
      after_send p rest (c, transmit p c.remote_addr ∷ []) sent (write c clock rest)

module _ (𝓝 : JsNumber) (𝓑 : ByteBuffer) where
  -- The first part of `waitForConnecting`: the SYN of an initiator, or the answer to one.
  unfoldable pub start_connecting : Conn 𝓝 𝓑 → Clock → Run 𝓝 𝓑 × SendOutcome
  start_connecting c clock =
      if c.is_initiator
      then (let syn = create_syn_packet 𝓝 𝓑 c clock in
          send_utp_packet 𝓝 𝓑
            (set_seq_nr 𝓝 𝓑 (record c { local_syn_packet = some syn }) (c.local_seq_nr + 1)) clock
            syn)
      else send_utp_packet 𝓝 𝓑 c clock (create_ack_packet 𝓝 𝓑 c clock none)

  -- `this.sendWindow.timeoutCheck`
  unfoldable pub check_window : Conn 𝓝 𝓑 → Clock → Run 𝓝 𝓑
  check_window c clock =
      let (w, acts) = SendWindow.timeout_check 𝓝 c.send_window clock.date in
      (record c { send_window = w }, window_effects acts)

  unfoldable pub keep_alive : Conn 𝓝 𝓑 → Clock → Run 𝓝 𝓑
  keep_alive c clock =
      if ltb keep_alive_interval (clock.performance - c.last_live_time)
      then (send_utp_packet 𝓝 𝓑 c clock (create_ack_packet 𝓝 𝓑 c clock (create_from_conn 𝓝 𝓑 c))).0
      else (c, [])

  unfoldable pub syn_timed_out : Conn 𝓝 𝓑 → Clock → Bool
  syn_timed_out c clock = elim c.local_syn_packet [
    | none ↦ false
    | some syn ↦ ltb (connect_timeout_duration * 1000) (current_microseconds clock - syn.timestamp)
  ]

  -- the last call of `timeoutCheck` when the state is that for which it makes it
  unfoldable pub release_if_waiting : Conn 𝓝 𝓑 → Clock → Run 𝓝 𝓑
  release_if_waiting c clock = elim (try_safe_release 𝓝 𝓑 c clock) [ none ↦ (c, []) | some r ↦ r ]

  unfoldable pub timeout_check_in : Conn 𝓝 𝓑 → Clock → State → Run 𝓝 𝓑
  timeout_check_in c clock syn_sent = if syn_timed_out c clock then force_close 𝓝 𝓑 c else (c, [])
  timeout_check_in c clock syn_recv = ◌>>>◌ 𝓝 𝓑 (keep_alive c clock) (λ c'. check_window c' clock)
  timeout_check_in c clock connected = ◌>>>◌ 𝓝 𝓑 (keep_alive c clock) (λ c'. check_window c' clock)
  timeout_check_in c clock close_wait =
      ◌>>>◌ 𝓝 𝓑 (check_window c clock) (λ c'. release_if_waiting c' clock)
  timeout_check_in c clock reset = (c, [])
  timeout_check_in c clock closed = (c, [])

  -- `timeoutCheck`
  unfoldable pub timeout_check : Conn 𝓝 𝓑 → Clock → Run 𝓝 𝓑
  timeout_check c clock = timeout_check_in c clock c.local_state

  -- `close` in a state other than closed, waiting or reset, up to the interval that it sets
  unfoldable pub begin_close : Conn 𝓝 𝓑 → Clock → Run 𝓝 𝓑
  begin_close c clock =
      ◌>>>◌ 𝓝 𝓑 (set_state 𝓝 𝓑 (record c { close_start_time = some clock.performance }) close_wait)
        (λ c'. if is_set c'.local_fin_packet then (c', []) else (send_fin 𝓝 𝓑 c' clock).0)

  -- the guards of `close`
  unfoldable pub close_in : Conn 𝓝 𝓑 → Clock → State → Run 𝓝 𝓑
  close_in c clock syn_sent = begin_close c clock
  close_in c clock syn_recv = begin_close c clock
  close_in c clock connected = begin_close c clock
  close_in c clock close_wait = (c, [])
  close_in c clock reset = (c, [])
  close_in c clock closed = (c, [])

  -- `close` up to its interval, whose rounds are `close_tick`
  unfoldable pub close : Conn 𝓝 𝓑 → Clock → Run 𝓝 𝓑
  close c clock = close_in c clock c.local_state
