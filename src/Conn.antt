-- ===== src/Conn.antt =====
-- src/utp_conn.ts: a connection, over its receive buffer and its send window. An operation takes the
-- clock and returns, beside the new state, what it sets off, in order. A promise that waits for room in
-- the send window is part of that window; a call of `notifyStateChange`
-- is one of the actions, since the listeners change nothing of the connection.
pub mod Create
pub mod Closing
pub mod Incoming
pub mod Outgoing
pub mod States
pub mod Diagram
pub mod Calls
pub mod Fixed
pub mod Promises
pub mod Ending
pub mod Course
pub mod Arrival
pub mod Moves
pub mod Delivery
pub mod Stream
pub mod Reorder
pub mod Chunks
pub mod Told
pub mod Listeners
use utp.Base.{
  ℕ, ◌+◌, ◌-◌, ◌*◌, ◌%◌, Bool, true, false, not, ◌&&◌, ◌||◌, List, [], ◌∷◌, ◌++◌, map, Option, none,
  some, leb, ◌==◌, if◌then◌else◌,
}
use utp.Base.Number.{JsNumber}
use utp.Addr.{Addr}
use utp.Seq.{seq_mod}
use utp.CircularQueue.{CircularQueue}
use utp.Packet.{Packet, st_data, st_fin}
use utp.BlockingBuffer
use utp.BlockingBuffer.{ByteBuffer, BlockingBuffer, Resolved}
use utp.SendWindow
use utp.SendWindow.{SendWindow, Entry, Action, wait_for_ack}

-- `UtpConnState`
pub data State : Type 0 where
  syn_sent syn_recv connected reset close_wait closed : State

unfoldable pub state_number : State → ℕ
state_number syn_sent = 0
state_number syn_recv = 1
state_number connected = 2
state_number reset = 3
state_number close_wait = 4
state_number closed = 5

-- `Date.now()` and `performance.now()`, in milliseconds
pub record Clock : Type 0 where
  pub date : ℕ
  pub performance : ℕ

-- `Util.currentMicroseconds()`
abbrev pub current_microseconds : Clock → ℕ
current_microseconds clock = clock.date * 1000

-- What a call sets off: a packet for the socket, a `waitForAck` that goes on, a pending `read` that is
-- resolved, the calls of the socket and of the statistic, and of the listeners with the new state.
pub data Effect : Type 0 where
  transmit : Packet → Addr → Effect
  go_on : ℕ → Entry → Effect
  resolve_read : Resolved → Effect
  remove_conn : Effect
  release_statistic : Effect
  received_data : ℕ → Effect
  sent_data : ℕ → Effect
  state_changed : State → State → Effect

-- How `sendUtpPacket` ends: it waits for room in the send window, or throws on a closed connection.
pub data SendOutcome : Type 0 where
  sent waits throws : SendOutcome

abbrev pub window_effects : List Action → List Effect
window_effects [] = []
window_effects (Action.send p a ∷ acts) = transmit p a ∷ window_effects acts
window_effects (Action.resume k e ∷ acts) = go_on k e ∷ window_effects acts

module _ (𝓝 : JsNumber) (𝓑 : ByteBuffer) where
  -- The fields that a call of the connection reads; `lastPacketTimestampMicroseconds` is not set at first.
  pub record Conn : Type 0 where
    pub local_recv_id : ℕ
    pub local_send_id : ℕ
    pub local_seq_nr : ℕ
    pub local_ack_nr : ℕ
    pub local_state : State
    pub remote_fin_packet : Option Packet
    pub local_fin_packet : Option Packet
    pub local_syn_packet : Option Packet
    pub is_initiator : Bool
    pub remote_addr : Addr
    pub last_packet_timestamp : Option ℕ
    pub last_live_time : ℕ
    pub recv_packet_queue : CircularQueue Packet
    pub recv_buffer : BlockingBuffer 𝓑
    pub send_window : SendWindow 𝓝
    pub close_start_time : Option ℕ

  abbrev pub Run : Type 0
  Run = Conn × List Effect

  -- one call after another
  infixl 5 ◌>>>◌
  abbrev pub ◌>>>◌ : Run → (Conn → Run) → Run
  r >>> f = let (c, out) = r in let (c', more) = f c in (c', out ++ more)

  -- the setters of `localSeqNr`, `localAckNr` and `localState`
  unfoldable pub set_seq_nr : Conn → ℕ → Conn
  set_seq_nr c seq_nr = record c { local_seq_nr = seq_nr % seq_mod }

  unfoldable pub set_ack_nr : Conn → ℕ → Conn
  set_ack_nr c ack_nr = record c { local_ack_nr = ack_nr % seq_mod }

  unfoldable pub set_state : Conn → State → Run
  unfolding state_number
  set_state c s =
      if state_number c.local_state == state_number s
      then (c, [])
      else (record c { local_state = s }, state_changed c.local_state s ∷ [])

  unfoldable pub is_connected : Conn → Bool
  unfolding state_number
  is_connected c = state_number c.local_state == state_number connected

  unfoldable pub is_closed : Conn → Bool
  unfolding state_number
  is_closed c = state_number c.local_state == state_number closed

  -- the room that a packet announces
  unfoldable pub incoming_buffer_left_bytes : Conn → ℕ
  incoming_buffer_left_bytes c = BlockingBuffer.free_space 𝓑 c.recv_buffer

  -- `sendUtpPacket`
  unfoldable pub send_utp_packet : Conn → Clock → Packet → Run × SendOutcome
  send_utp_packet c clock p =
      let live = record c { last_live_time = clock.performance } in
      if is_closed c
      then ((live, []), throws)
      else (if is_connected c && (p.type == st_data || p.type == st_fin)
          then (let ((w, acts), room) = wait_for_ack 𝓝 c.send_window clock.date p c.remote_addr in
              if room
              then (
                (
                  record live { send_window = w },
                  window_effects acts ++ transmit p c.remote_addr ∷ [],
                ),
                sent,
              )
              else ((record live { send_window = w }, window_effects acts), waits))
          else ((live, transmit p c.remote_addr ∷ []), sent))
