-- ===== src/Socket/Identity.antt =====
-- src/utp_conn.ts: no call of a connection changes its unique id.
use utp.Base.{ℕ, ◌≡◌, ap}
use utp.Base.Number.{JsNumber}
use utp.Addr.{Addr}
use utp.Packet.{Packet}
use utp.BlockingBuffer.{ByteBuffer}
use utp.Conn.{Conn, Clock, Run}
use utp.Conn.Closing.{reset_conn}
use utp.Conn.Incoming.{handle_incoming_packet}
use utp.Conn.Outgoing.{timeout_check, close, start_connecting}
use utp.Conn.Fixed
use utp.Conn.Fixed.Calls
use utp.Conn.Fixed.{fixed, ids}
use utp.Conn.Fixed.Calls.{close-fixed}
use utp.Socket.{UniqueId, unique_id}

module _ (𝓝 : JsNumber) (𝓑 : ByteBuffer) where
  abbrev pub Keeps : Conn 𝓝 𝓑 → Run 𝓝 𝓑 → Type 0
  Keeps c r = unique_id 𝓝 𝓑 r.0 ≡ unique_id 𝓝 𝓑 c

  id_from : Addr × ℕ × ℕ → UniqueId
  id_from (addr, send_id, recv_id) = record { addr = addr; send_id = send_id; recv_id = recv_id }

  of_ids : (c c' : Conn 𝓝 𝓑) → ids 𝓝 𝓑 c' ≡ ids 𝓝 𝓑 c → unique_id 𝓝 𝓑 c' ≡ unique_id 𝓝 𝓑 c
  unfolding id_from unique_id
  of_ids c c' e = ap id_from e

  of_fixed : (c c' : Conn 𝓝 𝓑) → fixed 𝓝 𝓑 c' ≡ fixed 𝓝 𝓑 c → unique_id 𝓝 𝓑 c' ≡ unique_id 𝓝 𝓑 c
  unfolding fixed
  of_fixed c c' e = of_ids c c' (ap (λ f. f.0) e)

  pub handle_incoming_packet-Keeps :
      (c : Conn 𝓝 𝓑) (clock : Clock) (p : Packet) → Keeps c (handle_incoming_packet 𝓝 𝓑 c clock p).0
  handle_incoming_packet-Keeps c clock p =
      of_fixed c _ (Fixed.handle_incoming_packet-Keeps 𝓝 𝓑 c clock p)

  pub reset_conn-Keeps : (c : Conn 𝓝 𝓑) (clock : Clock) → Keeps c (reset_conn 𝓝 𝓑 c clock)
  reset_conn-Keeps c clock = of_fixed c _ (Fixed.reset_conn-Keeps 𝓝 𝓑 c clock)

  pub timeout_check-Keeps : (c : Conn 𝓝 𝓑) (clock : Clock) → Keeps c (timeout_check 𝓝 𝓑 c clock)
  timeout_check-Keeps c clock = of_fixed c _ (Calls.timeout_check-Keeps 𝓝 𝓑 c clock)

  pub close-Keeps : (c : Conn 𝓝 𝓑) (clock : Clock) → Keeps c (close 𝓝 𝓑 c clock)
  unfolding fixed
  close-Keeps c clock = of_ids c _ (ap (λ f. f.0) (close-fixed 𝓝 𝓑 c clock))

  pub start_connecting-Keeps :
      (c : Conn 𝓝 𝓑) (clock : Clock) → Keeps c (start_connecting 𝓝 𝓑 c clock).0
  start_connecting-Keeps c clock = of_fixed c _ (Calls.start_connecting-Keeps 𝓝 𝓑 c clock)
