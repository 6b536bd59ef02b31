-- ===== src/Conn/Create.antt =====
-- src/utp_packet.ts: the packets that a connection makes of its state.
use utp.Base.{ℕ, ◌+◌, ◌-◌, List, [], ◌∷◌, Option, none, some, leb, if◌then◌else◌}
use utp.Base.Number.{JsNumber}
use utp.Seq.{ℤ}
use utp.Sack.{Sack, create}
use utp.CircularQueue
use utp.Packet.{
  Packet, Number, sack, num, nan, create_bits, st_data, st_fin, st_state, st_reset, st_syn,
  selective_acknowledgement, extension_bits,
}
use utp.BlockingBuffer.{ByteBuffer}
use utp.Conn.{Conn, Clock, current_microseconds, incoming_buffer_left_bytes, set_seq_nr}

-- The difference of two times; there is no number when the earlier one was never set.
unfoldable pub time_since : ℕ → Option ℕ → Number
time_since now none = nan
time_since now (some past) =
    if leb past now then num (ℤ.pos (now - past)) else num (ℤ.negsuc (past - now - 1))

module _ (𝓝 : JsNumber) (𝓑 : ByteBuffer) where
  unfoldable pub create_syn_packet : Conn 𝓝 𝓑 → Clock → Packet
  create_syn_packet c clock = record {
    type = st_syn;
    version = 1;
    extension = extension_bits;
    conn_id = c.local_recv_id;
    timestamp = current_microseconds clock;
    timestamp_difference = num (ℤ.pos 0);
    window_size = 0;
    seq_nr = c.local_seq_nr;
    ack_nr = 0;
    extensions = create_bits ∷ [];
    payload = none;
  }

  -- the fields that `createAckPacket`, `createDataPacket` and `createFinPacket` fill alike
  unfoldable pub stamped : Conn 𝓝 𝓑 → Clock → ℕ → Packet
  stamped c clock type = record {
    type = type;
    version = 1;
    extension = 0;
    conn_id = c.local_send_id;
    timestamp = current_microseconds clock;
    timestamp_difference = time_since (current_microseconds clock) c.last_packet_timestamp;
    window_size = incoming_buffer_left_bytes 𝓝 𝓑 c;
    seq_nr = c.local_seq_nr;
    ack_nr = c.local_ack_nr;
    extensions = [];
    payload = none;
  }

  unfoldable pub create_ack_packet : Conn 𝓝 𝓑 → Clock → Option Sack → Packet
  create_ack_packet c clock none = stamped c clock st_state
  create_ack_packet c clock (some s) = record (stamped c clock st_state) {
    extension = selective_acknowledgement;
    extensions = sack s ∷ [];
  }

  -- `UtpSelectiveAckExtension.createFromConn`
  unfoldable pub create_from_conn : Conn 𝓝 𝓑 → Option Sack
  create_from_conn c = create c.local_ack_nr (CircularQueue.keys c.recv_packet_queue)

  unfoldable pub create_data_packet : Conn 𝓝 𝓑 → Clock → List ℕ → Packet × Conn 𝓝 𝓑
  create_data_packet c clock bytes = (
    record (stamped c clock st_data) { payload = some bytes },
    set_seq_nr 𝓝 𝓑 c (c.local_seq_nr + 1),
  )

  unfoldable pub create_fin_packet : Conn 𝓝 𝓑 → Clock → Packet × Conn 𝓝 𝓑
  create_fin_packet c clock = (stamped c clock st_fin, set_seq_nr 𝓝 𝓑 c (c.local_seq_nr + 1))

  unfoldable pub create_reset_packet : Conn 𝓝 𝓑 → Clock → Packet
  create_reset_packet c clock = record (stamped c clock st_reset) { window_size = 0 }
