-- ===== src/Socket.antt =====
-- src/utp_socket.ts: the socket, which keeps the table of its connections and hands each datagram to the
-- connection that it is for. The text of a unique id names an address and two numbers; it is a record of
-- these here, which Names shows to be the same. The UDP socket takes what is sent whole, and reports addresses that are valid. The random
-- number of a new connection and the clock are arguments.
pub mod Connect
pub mod Dispatch
pub mod Close
pub mod Identity
pub mod Table
pub mod Isolation
pub mod Validity
pub mod Arrivals
pub mod Handover
pub mod Names
pub mod Traces
pub mod Service
use Prim.Native.String.{String}
use text.Mathlib.TextEquality.{eq_iff}
use utp.Base.{
  Option, ℕ, ◌+◌, ◌≡◌, ◌↔◌, refl, ap, Bool, true, false, not, ◌&&◌, List, [], ◌∷◌, ◌++◌, ◌==◌,
  if◌then◌else◌, arith, length, ==_iff,
}
use utp.Base.Map
use utp.Base.Map.{Map, Key}
use utp.Base.Number.{JsNumber}
use utp.Addr.{Addr, equals}
use utp.Packet.{Packet, to_bytes}
use utp.BlockingBuffer.{ByteBuffer}
use utp.Conn.{
  Conn, Clock, Effect, Run, State, transmit, go_on, resolve_read, remove_conn, release_statistic,
  received_data, sent_data, state_changed,
}

-- what `uniqueId` tells apart
pub record UniqueId : Type 0 where
  pub addr : Addr
  pub send_id : ℕ
  pub recv_id : ℕ

unfoldable pub same_id : UniqueId → UniqueId → Bool
unfolding equals
same_id i j = equals i.addr j.addr && (i.send_id == j.send_id && i.recv_id == j.recv_id)

pub same_id_iff : (i j : UniqueId) → (same_id i j ≡ true) ↔ (i ≡ j)
unfolding same_id equals
same_id_iff i j = ground (
  arith,
  eq_iff i.addr.hostname j.addr.hostname,
  ==_iff i.addr.port j.addr.port,
  ==_iff i.send_id j.send_id,
  ==_iff i.recv_id j.recv_id,
)

instance abbrev pub id_key : Key UniqueId
id_key = record { same = same_id; same_iff = same_id_iff }

-- `UtpState`
pub data UtpState : Type 0 where
  active close_wait closed : UtpState

module _ (𝓝 : JsNumber) (𝓑 : ByteBuffer) where
  -- `uniqueId`
  unfoldable pub unique_id : Conn 𝓝 𝓑 → UniqueId
  unique_id c = record {
    addr = c.remote_addr;
    send_id = c.local_send_id;
    recv_id = c.local_recv_id;
  }

  pub record Utp : Type 0 where
    pub state : UtpState
    pub conn_table : Map UniqueId (Conn 𝓝 𝓑)
    pub total_bytes_written : ℕ
    pub total_bytes_read : ℕ
    pub total_udp_packet_sent : ℕ
    pub total_udp_packet_received : ℕ
    pub utp_packet_received : ℕ

  -- What a call sets off: a datagram; the effect of a connection that does not concern the socket; a
  -- connection that leaves the table, with its state; the calls on the listener, the UDP socket and the timer.
  pub data Event : Type 0 where
    datagram : List ℕ → Addr → Event
    told : UniqueId → Effect → Event
    removed : UniqueId → Conn 𝓝 𝓑 → Event
    close_listener : Event
    close_socket : Event

  abbrev pub SocketRun : Type 0
  SocketRun = Utp × List Event

  -- one call after another
  infixl 5 ◌⟫◌
  abbrev pub ◌⟫◌ : SocketRun → (Utp → SocketRun) → SocketRun
  r ⟫ f = let (u, out) = r in let (u', more) = f u in (u', out ++ more)

  unfoldable pub is_closed : Utp → Bool
  is_closed u = elim u.state [ active ↦ false | close_wait ↦ false | closed ↦ true ]

  unfoldable pub has_conn : Utp → UniqueId → Bool
  has_conn u id = Map.has id u.conn_table

  unfoldable pub find_conn : Utp → UniqueId → Option (Conn 𝓝 𝓑)
  find_conn u id = Map.get id u.conn_table

  unfoldable pub conn_size : Utp → ℕ
  conn_size u = Map.size u.conn_table

  unfoldable pub add_conn : Utp → Conn 𝓝 𝓑 → Utp
  add_conn u c = record u { conn_table = Map.set (unique_id c) c u.conn_table }

  unfoldable pub remove_con : Utp → Conn 𝓝 𝓑 → Utp
  remove_con u c = record u { conn_table = Map.delete (unique_id c) u.conn_table }

  -- `sendUtpPacket`
  unfoldable pub send_packet : Utp → Packet → Addr → SocketRun
  send_packet u p addr =
      let bytes = to_bytes p in
      if is_closed u then (u, []) else (
        record u {
          total_bytes_written = u.total_bytes_written + length bytes;
          total_udp_packet_sent = u.total_udp_packet_sent + 1;
        },
        datagram bytes addr ∷ [],
      )

  -- an effect of the connection `c`: its calls of the socket, and what is not the socket's
  unfoldable pub perform : Utp → Conn 𝓝 𝓑 → Effect → SocketRun
  perform u c (transmit p addr) = send_packet u p addr
  perform u c remove_conn = (remove_con u c, removed (unique_id c) c ∷ [])
  perform u c (go_on k e) = (u, told (unique_id c) (go_on k e) ∷ [])
  perform u c (resolve_read r) = (u, told (unique_id c) (resolve_read r) ∷ [])
  perform u c release_statistic = (u, told (unique_id c) release_statistic ∷ [])
  perform u c (received_data n) = (u, told (unique_id c) (received_data n) ∷ [])
  perform u c (sent_data n) = (u, told (unique_id c) (sent_data n) ∷ [])
  perform u c (state_changed s t) = (u, told (unique_id c) (state_changed s t) ∷ [])

  unfoldable pub perform_all : Utp → Conn 𝓝 𝓑 → List Effect → SocketRun
  perform_all u c [] = (u, [])
  perform_all u c (e ∷ es) = perform u c e ⟫ (λ u'. perform_all u' c es)

  -- A call of the connection at `id` has ended: its object in the table has the new state, and its
  -- effects are carried out.
  unfoldable pub settle : Utp → UniqueId → Run 𝓝 𝓑 → SocketRun
  settle u id (c, out) = perform_all (record u { conn_table = Map.set id c u.conn_table }) c out
