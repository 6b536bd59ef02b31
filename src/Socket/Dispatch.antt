-- ===== src/Socket/Dispatch.antt =====
-- src/utp_socket.ts: `dispatch`, the loop of `startListen`, `timeoutCheck` and `close`.
use utp.Base.{
  ℕ, zero, suc, ◌+◌, Bool, true, false, List, [], ◌∷◌, ◌++◌, none, some, ◌==◌, if◌then◌else◌,
  length,
}
use utp.Base.Map
use utp.Base.Number.{JsNumber}
use utp.Addr.{Addr}
use utp.Packet.{Packet, ok, err, is_packet, from_bytes, st_syn, st_reset}
use utp.BlockingBuffer.{ByteBuffer}
use utp.Conn.{Clock, State, reset, closed}
use utp.Conn.Closing.{reset_conn}
use utp.Conn.Incoming.{Handled, yes, no, throws, handle_incoming_packet}
use utp.Conn.Outgoing
use utp.Socket.{Utp, UniqueId, SocketRun, has_conn, find_conn, settle, id_key, ◌⟫◌, is_closed}
use utp.Socket.Connect.{connect_to}

-- a datagram with its sender, the clock at its time, and the random number that a new connection draws
pub record Datagram : Type 0 where
  pub bytes : List ℕ
  pub sender : Addr
  pub clock : Clock
  pub random : ℕ

-- `localSendIds`. The number one below 0 names no connection.
unfoldable pub local_send_ids : ℕ → List ℕ
local_send_ids zero = 1 ∷ []
local_send_ids (suc k) = (suc k + 1) ∷ k ∷ []

-- Where the loop of `startListen` stands: it waits for the next datagram, it has ended with the socket, or
-- an exception has ended it.
pub data Listening : Type 0 where
  listening stopped crashed : Listening

-- the test in the loop of `timeoutCheck`
unfoldable pub is_over : State → Bool
is_over closed = true
is_over reset = true
is_over _ = false

module _ (𝓝 : JsNumber) (𝓑 : ByteBuffer) where
  -- `targetConns`, by their ids
  unfoldable pub targets : Utp 𝓝 𝓑 → Addr → ℕ → List ℕ → List UniqueId
  targets u addr recv_id [] = []
  targets u addr recv_id (s ∷ ss) =
      let id : UniqueId = record { addr = addr; send_id = s; recv_id = recv_id } in
      if has_conn 𝓝 𝓑 u id then id ∷ targets u addr recv_id ss else targets u addr recv_id ss

  -- the body of the loop over them
  unfoldable pub handle_one : Utp 𝓝 𝓑 → Clock → Packet → UniqueId → SocketRun 𝓝 𝓑 × Handled
  handle_one u clock p id = elim (find_conn 𝓝 𝓑 u id) [
    | none ↦ ((u, []), no)
    | some c ↦
        if p.type == st_reset
        then (settle 𝓝 𝓑 u id (reset_conn 𝓝 𝓑 c clock), no)
        else (let (r, handled) = handle_incoming_packet 𝓝 𝓑 c clock p in
            (settle 𝓝 𝓑 u id r, handled))
  ]

  -- how the loop goes on: it ends with the connection that handled the packet, or with an exception
  unfoldable pub go_next : SocketRun 𝓝 𝓑 → Handled → SocketRun 𝓝 𝓑 × Bool → SocketRun 𝓝 𝓑 × Bool
  go_next r yes later = (r, false)
  go_next r throws later = (r, true)
  go_next (u, out) no ((u', more), threw) = ((u', out ++ more), threw)

  unfoldable pub handle_each : Utp 𝓝 𝓑 → Clock → Packet → List UniqueId → SocketRun 𝓝 𝓑 × Bool
  handle_each u clock p [] = ((u, []), false)
  handle_each u clock p (id ∷ ids) =
      let (r, handled) = handle_one u clock p id in go_next r handled (handle_each r.0 clock p ids)

  -- the branch of a SYN
  unfoldable pub receive_syn : Utp 𝓝 𝓑 → Clock → Packet → Addr → ℕ → SocketRun 𝓝 𝓑
  receive_syn u clock p addr random =
      let id : UniqueId = record { addr = addr; send_id = p.conn_id; recv_id = p.conn_id + 1 } in
      if has_conn 𝓝 𝓑 u id
      then (u, [])
      else connect_to 𝓝 𝓑 u clock false (record {
        remote_addr = addr;
        send_id = p.conn_id;
        recv_id = p.conn_id + 1;
        seq_nr = random;
        ack_nr = p.seq_nr;
      })

  -- the packet, behind its decoding
  unfoldable pub route : Utp 𝓝 𝓑 → Clock → Packet → Addr → ℕ → SocketRun 𝓝 𝓑 × Bool
  route u clock p addr random =
      if p.type == st_syn
      then (receive_syn u clock p addr random, false)
      else handle_each u clock p (targets u addr p.conn_id (local_send_ids p.conn_id))

  -- `dispatch`, with whether it throws
  unfoldable pub dispatch : Utp 𝓝 𝓑 → Datagram → SocketRun 𝓝 𝓑 × Bool
  dispatch u d = elim (is_packet d.bytes) [
    | err e ↦ ((u, []), true)
    | ok accepted ↦
        if accepted
        then elim (from_bytes d.bytes) [
          | err e ↦ ((u, []), true)
          | ok p ↦
              route (record u { utp_packet_received = u.utp_packet_received + 1 }) d.clock p
                d.sender d.random
        ]
        else ((u, []), false)
  ]

  -- a round of the loop of `startListen`
  unfoldable pub receive : Utp 𝓝 𝓑 → Datagram → SocketRun 𝓝 𝓑 × Bool
  receive u d =
      dispatch
        (record u {
          total_udp_packet_received = u.total_udp_packet_received + 1;
          total_bytes_read = u.total_bytes_read + length d.bytes;
        })
        d

  -- the loop, over the datagrams that arrive
  unfoldable pub listen : Utp 𝓝 𝓑 → List Datagram → SocketRun 𝓝 𝓑 × Listening
  listen u [] = ((u, []), if is_closed 𝓝 𝓑 u then stopped else listening)
  listen u (d ∷ ds) =
      let ((u', out), threw) = receive u d in
      let ((u'', more), state) = listen u' ds in
      if is_closed 𝓝 𝓑 u
      then ((u, []), stopped)
      else (if threw
          then ((u', out), if is_closed 𝓝 𝓑 u' then stopped else crashed)
          else ((u'', out ++ more), state))

  -- the loop of `timeoutCheck`, over the keys of the table
  unfoldable pub check_each : Utp 𝓝 𝓑 → Clock → List UniqueId → SocketRun 𝓝 𝓑
  check_each u clock [] = (u, [])
  check_each u clock (id ∷ ids) =
      ◌⟫◌ 𝓝 𝓑
        (elim (find_conn 𝓝 𝓑 u id) [
          | none ↦ (u, [])
          | some c ↦
              if is_over c.local_state
              then (u, [])
              else settle 𝓝 𝓑 u id (Outgoing.timeout_check 𝓝 𝓑 c clock)
        ])
        (λ u'. check_each u' clock ids)

  unfoldable pub timeout_check : Utp 𝓝 𝓑 → Clock → SocketRun 𝓝 𝓑
  timeout_check u clock = check_each u clock (Map.keys u.conn_table)
