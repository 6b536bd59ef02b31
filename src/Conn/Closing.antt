-- ===== src/Conn/Closing.antt =====
-- src/utp_conn.ts: the end of a connection.
use utp.Base.{
  ℕ, ◌-◌, Bool, true, false, not, ◌&&◌, [], ◌∷◌, ◌++◌, map, Option, none, some, ltb, ◌==◌,
  if◌then◌else◌,
}
use utp.Base.Number.{JsNumber}
use utp.CircularQueue
use utp.BlockingBuffer
use utp.BlockingBuffer.{ByteBuffer}
use utp.SendWindow
use utp.Conn.{
  Conn, Clock, Run, SendOutcome, remove_conn, release_statistic, resolve_read, window_effects,
  set_state, state_number, send_utp_packet, ◌>>>◌, closed, close_wait, reset,
}
use utp.Conn.Create.{create_fin_packet, create_reset_packet}

abbrev pub close_timeout_duration : ℕ
close_timeout_duration = 10000

-- `Boolean(x)` of a field that is not set or holds an object
abbrev pub is_set : {A : Type 0} → Option A → Bool
is_set none = false
is_set (some a) = true

module _ (𝓝 : JsNumber) (𝓑 : ByteBuffer) where
  -- `this.recvBuffer.drain()`
  unfoldable pub drain_buffer : Conn 𝓝 𝓑 → Run 𝓝 𝓑
  drain_buffer c =
      let (b, done) = BlockingBuffer.drain 𝓑 c.recv_buffer in
      (record c { recv_buffer = b }, map resolve_read done)

  -- the three last calls of `forceClose` and of `trySafeRelease`
  unfoldable pub leave : Conn 𝓝 𝓑 → Run 𝓝 𝓑
  leave c = let (c', out) = set_state 𝓝 𝓑 c closed in (c', remove_conn ∷ release_statistic ∷ out)

  unfoldable pub force_close : Conn 𝓝 𝓑 → Run 𝓝 𝓑
  force_close c = ◌>>>◌ 𝓝 𝓑 (drain_buffer c) leave

  -- A FIN packet is made, noted and sent; the outcome is that of `sendUtpPacket`.
  unfoldable pub send_fin : Conn 𝓝 𝓑 → Clock → Run 𝓝 𝓑 × SendOutcome
  send_fin c clock =
      let (fin, c') = create_fin_packet 𝓝 𝓑 c clock in
      send_utp_packet 𝓝 𝓑 (record c' { local_fin_packet = some fin }) clock fin

  -- `this.closeStartTime || performance.now()`
  unfoldable pub start_time : Option ℕ → ℕ → ℕ
  start_time none now = now
  start_time (some t) now = if t == 0 then now else t

  -- `trySafeRelease` behind its first test
  unfoldable pub release : Conn 𝓝 𝓑 → Clock → Run 𝓝 𝓑
  release c clock =
      if ltb close_timeout_duration
        (clock.performance - start_time c.close_start_time clock.performance)
      then force_close c
      else (if is_set c.remote_fin_packet && SendWindow.is_empty 𝓝 c.send_window
          then force_close c
          else (if not (SendWindow.is_empty 𝓝 c.send_window)
              then (c, [])
              else (if not (is_set c.remote_fin_packet) && not (is_set c.local_fin_packet)
                  then (send_fin c clock).0
                  else leave c)))

  -- `trySafeRelease`: `none` is the error in another state.
  unfoldable pub try_safe_release : Conn 𝓝 𝓑 → Clock → Option (Run 𝓝 𝓑)
  unfolding state_number
  try_safe_release c clock =
      if state_number c.local_state == state_number close_wait then some (release c clock) else none

  -- `reset`; the promise of its last `sendUtpPacket` is not awaited.
  unfoldable pub reset_conn : Conn 𝓝 𝓑 → Clock → Run 𝓝 𝓑
  reset_conn c clock =
      let (c', changed) = set_state 𝓝 𝓑 c reset in
      let (w, acts) = SendWindow.reset 𝓝 c'.send_window in
      let cleared : Conn 𝓝 𝓑 = record c' {
        recv_packet_queue = CircularQueue.clear c'.recv_packet_queue;
        remote_fin_packet = none;
        send_window = w;
      } in
      let ((c'', out), _) =
        send_utp_packet 𝓝 𝓑 cleared clock (create_reset_packet 𝓝 𝓑 cleared clock) in
      (c'', remove_conn ∷ release_statistic ∷ changed ++ (window_effects acts ++ out))
