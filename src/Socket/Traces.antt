-- ===== src/Socket/Traces.antt =====
-- src/utp_socket.ts: what holds of a call of the table because it holds of its parts: putting a connection in the
-- table, sending a packet, telling of an effect, counting what came in.
use utp.Base.{
  ℕ, ◌+◌, length, Bool, false, List, [], ◌∷◌, ◌++◌, ◌==◌, Bool-cases, Option-cases, inl, inr,
}
use utp.Base.Map
use utp.Base.Map.{Map}
use utp.Base.Number.{JsNumber}
use utp.Addr.{Addr}
use utp.Packet.{Packet, is_packet, from_bytes, st_syn, st_reset}
use utp.BlockingBuffer.{ByteBuffer}
use utp.Conn.{
  Conn, Clock, Effect, Run, transmit, go_on, resolve_read, remove_conn, release_statistic,
  received_data, sent_data, state_changed,
}
use utp.Conn.Closing.{reset_conn}
use utp.Conn.Incoming.{Handled, yes, no, throws, handle_incoming_packet}
use utp.Conn.Outgoing
use utp.Socket.{
  Utp, UniqueId, Event, SocketRun, told, removed, id_key, unique_id, find_conn, has_conn,
  send_packet, remove_con, perform, perform_all, settle,
}
use utp.Socket.Connect.{Ends, create_conn, connect_to}
use utp.Socket.Dispatch.{
  Datagram, targets, local_send_ids, handle_one, go_next, handle_each, receive_syn, route, dispatch,
  receive, is_over, check_each,
}
use utp.Socket.Close.{can_close, close_each}
use utp.Socket.Isolation.{Result-cases}

module _ (𝓝 : JsNumber) (𝓑 : ByteBuffer) where
  -- a relation between a socket, the events of a call, and the socket after it
  abbrev pub Relation : Type 1
  Relation = Utp 𝓝 𝓑 → List (Event 𝓝 𝓑) → Utp 𝓝 𝓑 → Type 0

  pub record HoldsOfParts (P : Relation) : Type 0 where
    pub stays : (u : Utp 𝓝 𝓑) → P u [] u
    pub chain :
        (u u' u'' : Utp 𝓝 𝓑) (out more : List (Event 𝓝 𝓑))
        → P u out u'
        → P u' more u''
        → P u (out ++ more) u''
    pub sets_table :
        (u : Utp 𝓝 𝓑) (m : Map UniqueId (Conn 𝓝 𝓑)) → P u [] (record u { conn_table = m })
    pub sends :
        (u : Utp 𝓝 𝓑) (p : Packet) (a : Addr)
        → P u (send_packet 𝓝 𝓑 u p a).1 (send_packet 𝓝 𝓑 u p a).0
    pub tells : (u : Utp 𝓝 𝓑) (id : UniqueId) (e : Effect) → P u (told id e ∷ []) u
    pub removes : (u : Utp 𝓝 𝓑) (id : UniqueId) (c : Conn 𝓝 𝓑) → P u (removed id c ∷ []) u
    pub counts_packet : (u : Utp 𝓝 𝓑) (n : ℕ) → P u [] (record u { utp_packet_received = n })
    pub counts_datagram :
        (u : Utp 𝓝 𝓑) (n k : ℕ)
        → P u [] (record u { total_udp_packet_received = n; total_bytes_read = k })

  module _ (P : Relation) (h : HoldsOfParts P) where
    abbrev pub Holds : Utp 𝓝 𝓑 → SocketRun 𝓝 𝓑 → Type 0
    Holds u (u', out) = P u out u'

    perform-Holds : (u : Utp 𝓝 𝓑) (c : Conn 𝓝 𝓑) (e : Effect) → Holds u (perform 𝓝 𝓑 u c e)
    unfolding perform remove_con
    perform-Holds u c (transmit p a) = h.sends u p a
    perform-Holds u c remove_conn =
        h.chain u _ _ [] (removed (unique_id 𝓝 𝓑 c) c ∷ []) (h.sets_table u _) (h.removes _ _ c)
    perform-Holds u c (go_on k e) = h.tells u _ _
    perform-Holds u c (resolve_read r) = h.tells u _ _
    perform-Holds u c release_statistic = h.tells u _ _
    perform-Holds u c (received_data n) = h.tells u _ _
    perform-Holds u c (sent_data n) = h.tells u _ _
    perform-Holds u c (state_changed s t) = h.tells u _ _

    perform_all-Holds :
        (es : List Effect) (u : Utp 𝓝 𝓑) (c : Conn 𝓝 𝓑) → Holds u (perform_all 𝓝 𝓑 u c es)
    unfolding perform_all
    perform_all-Holds [] u c = h.stays u
    perform_all-Holds (e ∷ es) u c =
        h.chain u _ _ _ _ (perform-Holds u c e) (perform_all-Holds es (perform 𝓝 𝓑 u c e).0 c)

    settle-Holds : (u : Utp 𝓝 𝓑) (id : UniqueId) (r : Run 𝓝 𝓑) → Holds u (settle 𝓝 𝓑 u id r)
    unfolding settle
    settle-Holds u id (c, out) =
        h.chain u _ _ [] _ (h.sets_table u (Map.set id c u.conn_table))
          (perform_all-Holds out (record u { conn_table = Map.set id c u.conn_table }) c)

    handle_one-Holds :
        (u : Utp 𝓝 𝓑) (clock : Clock) (p : Packet) (id : UniqueId)
        → Holds u (handle_one 𝓝 𝓑 u clock p id).0
    unfolding handle_one
    handle_one-Holds u clock p id = elim (Option-cases (find_conn 𝓝 𝓑 u id)) [
      | inl missing ↦ rw (handle_one, missing) (h.stays u)
      | inr (c, found) ↦ elim (Bool-cases (p.type == st_reset)) [
        | inl resets ↦ rw (handle_one, found, resets) (settle-Holds u id (reset_conn 𝓝 𝓑 c clock))
        | inr other ↦
            rw (handle_one, found, other)
              (settle-Holds u id (handle_incoming_packet 𝓝 𝓑 c clock p).0)
      ]
    ]

    go_next-Holds :
        (u : Utp 𝓝 𝓑) (r : SocketRun 𝓝 𝓑) (handled : Handled) (later : SocketRun 𝓝 𝓑 × Bool)
        → Holds u r
        → Holds r.0 later.0
        → Holds u (go_next 𝓝 𝓑 r handled later).0
    unfolding go_next
    go_next-Holds u r yes later s t = s
    go_next-Holds u r throws later s t = s
    go_next-Holds u r no later s t = h.chain u r.0 later.0.0 r.1 later.0.1 s t

    handle_each-Holds :
        (ids : List UniqueId) (u : Utp 𝓝 𝓑) (clock : Clock) (p : Packet)
        → Holds u (handle_each 𝓝 𝓑 u clock p ids).0
    unfolding handle_each
    handle_each-Holds [] u clock p = h.stays u
    handle_each-Holds (id ∷ ids) u clock p =
        let (r, handled) = handle_one 𝓝 𝓑 u clock p id in
        go_next-Holds u r handled _ (handle_one-Holds u clock p id)
          (handle_each-Holds ids r.0 clock p)

    pub connect_to-Holds :
        (u : Utp 𝓝 𝓑) (clock : Clock) (is_initiator : Bool) (ends : Ends)
        → Holds u (connect_to 𝓝 𝓑 u clock is_initiator ends)
    unfolding connect_to
    connect_to-Holds u clock is_initiator ends =
        settle-Holds u _
          (Outgoing.start_connecting 𝓝 𝓑 (create_conn 𝓝 𝓑 clock is_initiator ends) clock).0

    receive_syn-Holds :
        (u : Utp 𝓝 𝓑) (clock : Clock) (p : Packet) (addr : Addr) (random : ℕ)
        → Holds u (receive_syn 𝓝 𝓑 u clock p addr random)
    unfolding receive_syn
    receive_syn-Holds u clock p addr random =
        let id : UniqueId = record { addr = addr; send_id = p.conn_id; recv_id = p.conn_id + 1 } in
        elim (Bool-cases (has_conn 𝓝 𝓑 u id)) [
          | inl known ↦ rw known (h.stays u)
          | inr new ↦ rw new (connect_to-Holds u clock false _)
        ]

    route-Holds :
        (u : Utp 𝓝 𝓑) (clock : Clock) (p : Packet) (addr : Addr) (random : ℕ)
        → Holds u (route 𝓝 𝓑 u clock p addr random).0
    unfolding route
    route-Holds u clock p addr random = elim (Bool-cases (p.type == st_syn)) [
      | inl syn ↦ rw syn (receive_syn-Holds u clock p addr random)
      | inr other ↦
          rw other
            (handle_each-Holds (targets 𝓝 𝓑 u addr p.conn_id (local_send_ids p.conn_id)) u clock p)
    ]

    dispatch-Holds : (u : Utp 𝓝 𝓑) (d : Datagram) → Holds u (dispatch 𝓝 𝓑 u d).0
    unfolding dispatch
    dispatch-Holds u d = elim (Result-cases (is_packet d.bytes)) [
      | inl (e, thrown) ↦ rw (dispatch, thrown) (h.stays u)
      | inr (accepted, answered) ↦ elim (Bool-cases accepted) [
        | inl y ↦ elim (Result-cases (from_bytes d.bytes)) [
          | inl (e, thrown) ↦ rw (dispatch, answered, y, thrown) (h.stays u)
          | inr (p, decoded) ↦
              rw (dispatch, answered, y, decoded)
                (h.chain u _ _ [] _ (h.counts_packet u (u.utp_packet_received + 1))
                  (route-Holds _ d.clock p d.sender d.random))
        ]
        | inr n ↦ rw (dispatch, answered, n) (h.stays u)
      ]
    ]

    pub receive-Holds : (u : Utp 𝓝 𝓑) (d : Datagram) → Holds u (receive 𝓝 𝓑 u d).0
    unfolding receive
    receive-Holds u d =
        h.chain u _ _ [] _
          (h.counts_datagram u (u.total_udp_packet_received + 1)
            (u.total_bytes_read + length d.bytes))
          (dispatch-Holds _ d)

    pub check_each-Holds :
        (ids : List UniqueId) (u : Utp 𝓝 𝓑) (clock : Clock) → Holds u (check_each 𝓝 𝓑 u clock ids)
    unfolding check_each
    check_each-Holds [] u clock = h.stays u
    check_each-Holds (id ∷ ids) u clock = elim (Option-cases (find_conn 𝓝 𝓑 u id)) [
      | inl missing ↦ rw (check_each, missing) (check_each-Holds ids u clock)
      | inr (c, found) ↦ elim (Bool-cases (is_over c.local_state)) [
        | inl over ↦ rw (check_each, found, over) (check_each-Holds ids u clock)
        | inr live ↦
            rw (check_each, found, live)
              (h.chain u _ _ _ _ (settle-Holds u id (Outgoing.timeout_check 𝓝 𝓑 c clock))
                (check_each-Holds ids _ clock))
      ]
    ]

    pub close_each-Holds :
        (ids : List UniqueId) (u : Utp 𝓝 𝓑) (clock : Clock) → Holds u (close_each 𝓝 𝓑 u clock ids)
    unfolding close_each
    close_each-Holds [] u clock = h.stays u
    close_each-Holds (id ∷ ids) u clock = elim (Option-cases (find_conn 𝓝 𝓑 u id)) [
      | inl missing ↦ rw (close_each, missing) (close_each-Holds ids u clock)
      | inr (c, found) ↦ elim (Bool-cases (can_close c.local_state)) [
        | inl open_ ↦
            rw (close_each, found, open_)
              (h.chain u _ _ _ _ (settle-Holds u id (Outgoing.close 𝓝 𝓑 c clock))
                (close_each-Holds ids _ clock))
        | inr over ↦ rw (close_each, found, over) (close_each-Holds ids u clock)
      ]
    ]
