-- ===== src/Socket/Connect.antt =====
-- src/utp_conn.ts, `connectTo` and the constructor, and src/utp_socket.ts, `connect`: a new connection in
-- the table of the socket, with its first packet. The promise that waits for the connection to be
-- connected is settled by the changes of state that the events tell of: Promises of Conn, and Handover.
use utp.Base.{ℕ, ◌+◌, ◌*◌, Bool, true, none, if◌then◌else◌}
use utp.Base.Number.{JsNumber}
use utp.Addr.{Addr}
use utp.CircularQueue
use utp.BlockingBuffer
use utp.BlockingBuffer.{ByteBuffer}
use utp.SendWindow
use utp.Conn.{Conn, Clock, syn_sent, syn_recv}
use utp.Conn.Outgoing.{start_connecting}
use utp.Socket.{Utp, SocketRun, settle, unique_id}

abbrev pub max_recv_queue_size : ℕ
max_recv_queue_size = 8192

abbrev pub min_recv_queue_size : ℕ
min_recv_queue_size = 4096

abbrev pub default_max_bytes : ℕ
default_max_bytes = 256 * 1024

-- what the caller of `connectTo` gives
pub record Ends : Type 0 where
  pub remote_addr : Addr
  pub send_id : ℕ
  pub recv_id : ℕ
  pub seq_nr : ℕ
  pub ack_nr : ℕ

module _ (𝓝 : JsNumber) (𝓑 : ByteBuffer) where
  -- the constructor, up to its `addConn`; it is called for an initiator or for the answer to a SYN
  unfoldable pub create_conn : Clock → Bool → Ends → Conn 𝓝 𝓑
  create_conn clock is_initiator ends = record {
    local_recv_id = ends.recv_id;
    local_send_id = ends.send_id;
    local_seq_nr = ends.seq_nr;
    local_ack_nr = ends.ack_nr;
    local_state = if is_initiator then syn_sent else syn_recv;
    remote_fin_packet = none;
    local_fin_packet = none;
    local_syn_packet = none;
    is_initiator = is_initiator;
    remote_addr = ends.remote_addr;
    last_packet_timestamp = none;
    last_live_time = clock.performance;
    recv_packet_queue =
        CircularQueue.create (if is_initiator then max_recv_queue_size else min_recv_queue_size);
    recv_buffer = BlockingBuffer.create 𝓑 default_max_bytes;
    send_window = SendWindow.create 𝓝;
    close_start_time = none;
  }

  -- `connectTo`; a connection that is new is not closed, so that its `sendUtpPacket` does not throw.
  unfoldable pub connect_to : Utp 𝓝 𝓑 → Clock → Bool → Ends → SocketRun 𝓝 𝓑
  connect_to u clock is_initiator ends =
      let c = create_conn clock is_initiator ends in
      settle 𝓝 𝓑 u (unique_id 𝓝 𝓑 c) (start_connecting 𝓝 𝓑 c clock).0

  -- `connect`, with the random number that it draws
  unfoldable pub connect : Utp 𝓝 𝓑 → Clock → Addr → ℕ → SocketRun 𝓝 𝓑
  connect u clock addr random = connect_to u clock true (record {
    remote_addr = addr;
    send_id = random + 1;
    recv_id = random;
    seq_nr = 1;
    ack_nr = 0;
  })
