-- ===== src/Tests/Sockets.antt =====
-- A socket with two connections, and datagrams for one of them.
use utp.Base.{List, ◌≡◌, refl, true, false, [], ◌∷◌, replicate, arith}
use utp.Base.Map
use utp.Conn.{Conn, syn_recv, connected, close_wait, state_changed}
use utp.Socket.Handover.{Tiding, heard, expires}
use utp.Addr.{equals}
use utp.Packet.{from_bytes, get_uint8, get_uint16, get_uint32, parse_extensions}
use utp.Socket.{
  told, Utp, UniqueId, active, id_key, unique_id, find_conn, has_conn, is_closed, same_id,
}
use utp.Socket.Connect.{connect}
use utp.Socket.Dispatch.{Datagram, crashed, targets, local_send_ids, receive, listen, timeout_check}
use utp.Socket.Close.{close, try_close_socket}
use utp.Socket.Table.{IsValid, put-Settles}
use utp.Socket.Isolation.{addressed, receive_isolates}
use utp.Socket.Validity.{operations-IsValid}
use utp.Socket.Arrivals.{is_among, targets_exact, listen_crash}
use utp.Tests.Buffers.{list_buffer}
use utp.Tests.Windows.{naturals, peer}
use utp.Tests.Conns.{endpoint, noon}

abbrev pub other_end : Conn naturals list_buffer
other_end = record endpoint { local_send_id = 40; local_recv_id = 41 }

abbrev no_conns : Utp naturals list_buffer
no_conns = record {
  state = active;
  conn_table = [];
  total_bytes_written = 0;
  total_bytes_read = 0;
  total_udp_packet_sent = 0;
  total_udp_packet_received = 0;
  utp_packet_received = 0;
}

no_conns-IsValid : IsValid naturals list_buffer no_conns
unfolding find_conn Map.get
no_conns-IsValid = record { distinct = tt; home = λ id c found. ground arith }

abbrev pub id_of : Conn naturals list_buffer → UniqueId
id_of = unique_id naturals list_buffer

abbrev one_conn : Utp naturals list_buffer
one_conn = record no_conns { conn_table = Map.set (id_of endpoint) endpoint [] }

abbrev two_conns : Utp naturals list_buffer
two_conns = record one_conn { conn_table = Map.set (id_of other_end) other_end one_conn.conn_table }

two_conns-IsValid : IsValid naturals list_buffer two_conns
two_conns-IsValid =
    let one =
      put-Settles naturals list_buffer (id_of endpoint) no_conns endpoint refl no_conns-IsValid in
    let two =
      put-Settles naturals list_buffer (id_of other_end) one_conn other_end refl one.valid in
    two.valid

-- an acknowledgement for the connection that receives as 6
abbrev pub ack_datagram : Datagram
ack_datagram = record {
  bytes = 33 ∷ 0 ∷ 0 ∷ 6 ∷ replicate 16 0;
  sender = peer;
  clock = noon;
  random = 9;
}

not_for_other : addressed ack_datagram (id_of other_end) ≡ false
unfolding equals from_bytes get_uint8 get_uint16 get_uint32 parse_extensions unique_id
not_for_other = refl

receive_isolates_example :
    find_conn naturals list_buffer
      (receive naturals list_buffer two_conns ack_datagram).0.0
      (id_of other_end)
    ≡ find_conn naturals list_buffer two_conns (id_of other_end)
receive_isolates_example =
    receive_isolates naturals list_buffer two_conns ack_datagram (id_of other_end) two_conns-IsValid
      not_for_other

operations-IsValid_example :
    IsValid naturals list_buffer (connect naturals list_buffer two_conns noon peer 300).0
    × IsValid naturals list_buffer (receive naturals list_buffer two_conns ack_datagram).0.0
    × IsValid naturals list_buffer (timeout_check naturals list_buffer two_conns noon).0
    × IsValid naturals list_buffer (close naturals list_buffer two_conns noon).0
    × IsValid naturals list_buffer (try_close_socket naturals list_buffer two_conns noon).0.0
operations-IsValid_example =
    operations-IsValid naturals list_buffer two_conns ack_datagram noon peer 300 two_conns-IsValid

-- The acknowledgement reaches the connection with the ids 7 and 6.
targets_exact_example :
    is_among (id_of endpoint) (targets naturals list_buffer two_conns peer 6 (local_send_ids 6))
    ≡ true
unfolding has_conn Map.has Map.set equals unique_id same_id
targets_exact_example = targets_exact naturals list_buffer two_conns (id_of endpoint) peer 6

abbrev short_datagram : Datagram
short_datagram = record ack_datagram { bytes = 33 ∷ 1 ∷ replicate 18 0 }

listen_crash_example :
    ((listen naturals list_buffer two_conns (short_datagram ∷ ack_datagram ∷ [])).1 ≡ crashed)
    × ((listen naturals list_buffer two_conns (short_datagram ∷ ack_datagram ∷ [])).0.1 ≡ [])
    × ((listen naturals list_buffer two_conns (short_datagram ∷ ack_datagram ∷ [])).0.0
        ≡ (receive naturals list_buffer two_conns short_datagram).0.0)
unfolding is_closed
listen_crash_example =
    listen_crash naturals list_buffer two_conns short_datagram (ack_datagram ∷ []) refl
      (omega arith) (omega arith) (omega arith)

-- The connection is connected, closes, and is connected no more; the other one is reset first.
abbrev tidings : List (Tiding naturals list_buffer)
tidings =
    expires (id_of other_end)
    ∷ heard (told (id_of endpoint) (state_changed syn_recv connected))
    ∷ heard (told (id_of endpoint) (state_changed connected close_wait))
    ∷ heard (told (id_of other_end) (state_changed syn_recv connected))
    ∷ heard (told (id_of endpoint) (state_changed close_wait connected))
    ∷ []
