-- ===== src/Socket/Close.antt =====
-- src/utp_socket.ts: `close`. What the listener closes is the listener's, and what the timer of the
-- promise does every second is `try_close_socket`.
use utp.Base.{Bool, true, false, List, [], ◌∷◌, none, some, ◌==◌, if◌then◌else◌}
use utp.Base.Map
use utp.Base.Number.{JsNumber}
use utp.BlockingBuffer.{ByteBuffer}
use utp.Conn.{Clock, State}
use utp.Conn.Outgoing
use utp.Socket.{
  Utp, UniqueId, UtpState, active, SocketRun, close_listener, close_socket, find_conn, conn_size,
  settle, id_key, ◌⟫◌,
}

-- the test of `canCloseConns`
unfoldable pub can_close : State → Bool
can_close State.close_wait = false
can_close State.closed = false
can_close _ = true

module _ (𝓝 : JsNumber) (𝓑 : ByteBuffer) where
  -- its loop
  unfoldable pub close_each : Utp 𝓝 𝓑 → Clock → List UniqueId → SocketRun 𝓝 𝓑
  close_each u clock [] = (u, [])
  close_each u clock (id ∷ ids) =
      ◌⟫◌ 𝓝 𝓑
        (elim (find_conn 𝓝 𝓑 u id) [
          | none ↦ (u, [])
          | some c ↦
              if can_close c.local_state
              then settle 𝓝 𝓑 u id (Outgoing.close 𝓝 𝓑 c clock)
              else (u, [])
        ])
        (λ u'. close_each u' clock ids)

  -- `tryCloseSocket`, with what it returns
  unfoldable pub try_close_socket : Utp 𝓝 𝓑 → Clock → SocketRun 𝓝 𝓑 × Bool
  try_close_socket u clock =
      if conn_size 𝓝 𝓑 u == 0
      then ((record u { state = UtpState.closed }, close_socket ∷ []), true)
      else (close_each u clock (Map.keys u.conn_table), false)

  -- `close`, up to its promise
  unfoldable pub close : Utp 𝓝 𝓑 → Clock → SocketRun 𝓝 𝓑
  close u clock = elim u.state [
    | active ↦
        let ((u', out), _) = try_close_socket (record u { state = UtpState.close_wait }) clock in
        (u', close_listener ∷ out)
    | UtpState.close_wait ↦ (u, [])
    | UtpState.closed ↦ (u, [])
  ]
