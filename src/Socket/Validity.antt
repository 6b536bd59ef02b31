-- ===== src/Socket/Validity.antt =====
-- src/utp_socket.ts: the table stays valid.
use utp.Base.{ℕ, ◌≡◌, refl, ◌∙◌, true, List, [], ◌∷◌, ◌==◌, Bool-cases, Option-cases, inl, inr}
use utp.Base.Map
use utp.Base.Number.{JsNumber}
use utp.Addr.{Addr}
use utp.BlockingBuffer.{ByteBuffer}
use utp.Conn.{Clock}
use utp.Conn.Outgoing
use utp.Socket.{Utp, UniqueId, UtpState, active, conn_size, id_key, find_conn}
use utp.Socket.Connect.{connect}
use utp.Socket.Dispatch.{Datagram, receive, is_over, check_each, timeout_check}
use utp.Socket.Close.{can_close, close_each, try_close_socket, close}
use utp.Socket.Identity.{timeout_check-Keeps, close-Keeps}
use utp.Socket.Table.{IsValid, same_table-Settles, settle-Settles, connect_to-Settles}
use utp.Socket.Isolation.{nobody, receive-Within}

module _ (𝓝 : JsNumber) (𝓑 : ByteBuffer) where
  check_each-IsValid :
      (ids : List UniqueId) (u : Utp 𝓝 𝓑) (clock : Clock)
      → IsValid 𝓝 𝓑 u
      → IsValid 𝓝 𝓑 (check_each 𝓝 𝓑 u clock ids).0
  unfolding check_each
  check_each-IsValid [] u clock v = v
  check_each-IsValid (id ∷ ids) u clock v = elim (Option-cases (find_conn 𝓝 𝓑 u id)) [
    | inl missing ↦ rw (check_each, missing) (check_each-IsValid ids u clock v)
    | inr (c, found) ↦ elim (Bool-cases (is_over c.local_state)) [
      | inl over ↦ rw (check_each, found, over) (check_each-IsValid ids u clock v)
      | inr live ↦
          rw (check_each, found, live)
            (check_each-IsValid ids _ clock
              (settle-Settles 𝓝 𝓑 id u (Outgoing.timeout_check 𝓝 𝓑 c clock)
                (timeout_check-Keeps 𝓝 𝓑 c clock ∙ v.home id c found) v).valid)
    ]
  ]

  close_each-IsValid :
      (ids : List UniqueId) (u : Utp 𝓝 𝓑) (clock : Clock)
      → IsValid 𝓝 𝓑 u
      → IsValid 𝓝 𝓑 (close_each 𝓝 𝓑 u clock ids).0
  unfolding close_each
  close_each-IsValid [] u clock v = v
  close_each-IsValid (id ∷ ids) u clock v = elim (Option-cases (find_conn 𝓝 𝓑 u id)) [
    | inl missing ↦ rw (close_each, missing) (close_each-IsValid ids u clock v)
    | inr (c, found) ↦ elim (Bool-cases (can_close c.local_state)) [
      | inl open_ ↦
          rw (close_each, found, open_)
            (close_each-IsValid ids _ clock
              (settle-Settles 𝓝 𝓑 id u (Outgoing.close 𝓝 𝓑 c clock)
                (close-Keeps 𝓝 𝓑 c clock ∙ v.home id c found) v).valid)
      | inr over ↦ rw (close_each, found, over) (close_each-IsValid ids u clock v)
    ]
  ]

  with_table : (u u' : Utp 𝓝 𝓑) → u'.conn_table ≡ u.conn_table → IsValid 𝓝 𝓑 u → IsValid 𝓝 𝓑 u'
  with_table u u' e v = (same_table-Settles 𝓝 𝓑 nobody u u' e v).valid

  try_close_socket-IsValid :
      (u : Utp 𝓝 𝓑) (clock : Clock) → IsValid 𝓝 𝓑 u → IsValid 𝓝 𝓑 (try_close_socket 𝓝 𝓑 u clock).0.0
  unfolding try_close_socket
  try_close_socket-IsValid u clock v = elim (Bool-cases (conn_size 𝓝 𝓑 u == 0)) [
    | inl empty ↦ rw empty (with_table u _ refl v)
    | inr some_left ↦ rw some_left (close_each-IsValid (Map.keys u.conn_table) u clock v)
  ]

  close-IsValid :
      (s : UtpState) (u : Utp 𝓝 𝓑) (clock : Clock)
      → u.state ≡ s
      → IsValid 𝓝 𝓑 u
      → IsValid 𝓝 𝓑 (close 𝓝 𝓑 u clock).0
  unfolding close
  close-IsValid active u clock e v =
      rw (close, e) (try_close_socket-IsValid _ clock (with_table u _ refl v))
  close-IsValid UtpState.close_wait u clock e v = rw (close, e) v
  close-IsValid UtpState.closed u clock e v = rw (close, e) v

  -- `connect`, a datagram, `timeoutCheck`, `close` and a round of its timer each keep the table valid: no id
  -- twice, and each connection at its own id.
  pub operations-IsValid :
      (u : Utp 𝓝 𝓑) (d : Datagram) (clock : Clock) (addr : Addr) (random : ℕ)
      → IsValid 𝓝 𝓑 u
      → IsValid 𝓝 𝓑 (connect 𝓝 𝓑 u clock addr random).0
        × IsValid 𝓝 𝓑 (receive 𝓝 𝓑 u d).0.0
        × IsValid 𝓝 𝓑 (timeout_check 𝓝 𝓑 u clock).0
        × IsValid 𝓝 𝓑 (close 𝓝 𝓑 u clock).0
        × IsValid 𝓝 𝓑 (try_close_socket 𝓝 𝓑 u clock).0.0
  unfolding connect timeout_check
  operations-IsValid u d clock addr random v = (
    (connect_to-Settles 𝓝 𝓑 u clock true _ v).valid,
    (receive-Within 𝓝 𝓑 u d v).valid,
    check_each-IsValid (Map.keys u.conn_table) u clock v,
    close-IsValid u.state u clock refl v,
    try_close_socket-IsValid u clock v,
  )
