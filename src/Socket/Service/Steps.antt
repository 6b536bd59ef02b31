-- ===== src/Socket/Service/Steps.antt =====
-- src/utp_socket.ts: what holds of every call of a socket because it holds of its parts.
use Prim.Native.String.{String}
use utp.Base.{
  ℕ, ◌≡◌, refl, Bool, true, ◌&&◌, List, [], ◌∷◌, ◌++◌, map, Option, none, some, ◌==◌, Bool-cases,
  Option-cases, inl, inr,
}
use utp.Base.Map
use utp.Base.Number.{JsNumber}
use utp.Base.Texts.{text_key}
use utp.Addr.{Addr}
use utp.Addr.Create.{ℤ, create}
use utp.BlockingBuffer.{ByteBuffer}
use utp.Timers.{exist, clear_timer}
use utp.Conn.{Clock}
use utp.Socket.{Utp, UtpState, active, SocketRun, close_listener, is_closed, conn_size}
use utp.Socket.Connect
use utp.Socket.Dispatch.{Datagram, Listening, listening, stopped, crashed, receive, timeout_check}
use utp.Socket.Close
use utp.Socket.Traces.{
  Relation, HoldsOfParts, connect_to-Holds, receive-Holds, check_each-Holds, close_each-Holds,
}
use utp.Socket.Service.{
  Service, Outside, Opening, Called, returns, throws, event, timing, close_udp, if_returned,
  connect, listen, connect_behind, stop_timeout_check, create_udp_socket_if_none, end_socket,
  try_close_socket, close, poll, receive_one, arrive, check,
}
use utp.Socket.Service.Calls.{Call, connects, listens, arrives, checks, closes, polls, step, run}
use utp.Socket.Service.Beside.{
  events, events-append, events-event, events-timing, IsBeside, create_udp_socket_if_none-IsBeside,
}

module _ (𝓝 : JsNumber) (𝓑 : ByteBuffer) where
  -- a relation that holds of the parts of a call of the socket: those of the table, and the two steps of `close`
  pub record HoldsOfSocket (P : Relation 𝓝 𝓑) : Type 0 where
    pub parts : HoldsOfParts 𝓝 𝓑 P
    pub starts_closing :
        (u : Utp 𝓝 𝓑)
        → u.state ≡ active
        → P u (close_listener ∷ []) (record u { state = UtpState.close_wait })
    pub ends : (u : Utp 𝓝 𝓑) → P u [] (record u { state = UtpState.closed })

  module _ (P : Relation 𝓝 𝓑) (h : HoldsOfSocket P) where
    abbrev pub Holds : Service 𝓝 𝓑 → Service 𝓝 𝓑 × List (Outside 𝓝 𝓑) → Type 0
    Holds s (s', out) = P s.utp (events 𝓝 𝓑 out) s'.utp

    of_beside :
        (s : Service 𝓝 𝓑) (r : Service 𝓝 𝓑 × List (Outside 𝓝 𝓑)) → IsBeside 𝓝 𝓑 s r → Holds s r
    of_beside s (s', out) (same, quiet) = rw (same, quiet) (h.parts.stays s.utp)

    of_run :
        (s : Service 𝓝 𝓑) (r : SocketRun 𝓝 𝓑)
        → P s.utp r.1 r.0
        → P s.utp (events 𝓝 𝓑 (map event r.1)) r.0
    of_run s (u, out) p = rw (events-event 𝓝 𝓑 out) p

    then-Holds :
        (u u' u'' : Utp 𝓝 𝓑) (out more : List (Outside 𝓝 𝓑))
        → P u (events 𝓝 𝓑 out) u'
        → P u' (events 𝓝 𝓑 more) u''
        → P u (events 𝓝 𝓑 (out ++ more)) u''
    then-Holds u u' u'' out more p q =
        rw (events-append 𝓝 𝓑 out more) (h.parts.chain u u' u'' _ _ p q)

    connect_behind-Holds :
        (s : Service 𝓝 𝓑) (a : Option Addr) (clock : Clock) (random : ℕ)
        → Holds s (connect_behind 𝓝 𝓑 s a clock random).0
    unfolding connect_behind Connect.connect
    connect_behind-Holds s none clock random = h.parts.stays s.utp
    connect_behind-Holds s (some a) clock random =
        of_run s (Connect.connect 𝓝 𝓑 s.utp clock a random)
          (connect_to-Holds 𝓝 𝓑 P h.parts s.utp clock true _)

    if_returned-Holds :
        (s : Service 𝓝 𝓑) (r : Called 𝓝 𝓑) (f : Service 𝓝 𝓑 → Called 𝓝 𝓑)
        → Holds s r.0
        → ((s' : Service 𝓝 𝓑) → Holds s' (f s').0)
        → Holds s (if_returned 𝓝 𝓑 r f).0
    if_returned-Holds s (r, throws) f p q = p
    if_returned-Holds s ((s', out), returns) f p q =
        then-Holds s.utp s'.utp (f s').0.0.utp out (f s').0.1 p (q s')

    connect-Holds :
        (s : Service 𝓝 𝓑) (port : ℤ) (hostname : String) (o : Opening) (clock : Clock) (random : ℕ)
        → Holds s (connect 𝓝 𝓑 s port hostname o clock random).0
    unfolding connect
    connect-Holds s port hostname o clock random =
        if_returned-Holds s (create_udp_socket_if_none 𝓝 𝓑 s none o) _
          (of_beside s (create_udp_socket_if_none 𝓝 𝓑 s none o).0
            (create_udp_socket_if_none-IsBeside 𝓝 𝓑 s none o))
          (λ s'. connect_behind-Holds s' (create port hostname) clock random)

    listen-Holds :
        (s : Service 𝓝 𝓑) (port : ℤ) (hostname : String) (o : Opening)
        → Holds s (listen 𝓝 𝓑 s port hostname o).0
    unfolding listen
    listen-Holds s port hostname o = elim (Option-cases (create port hostname)) [
      | inl refused ↦ rw (listen, refused) (h.parts.stays s.utp)
      | inr (a, valid) ↦
          rw (listen, valid)
            (of_beside s (create_udp_socket_if_none 𝓝 𝓑 s (some a) o).0
              (create_udp_socket_if_none-IsBeside 𝓝 𝓑 s (some a) o))
    ]

    end_socket-Holds :
        (a : Option Addr) (s : Service 𝓝 𝓑)
        → Holds s
            (end_socket 𝓝 𝓑 a
              (stop_timeout_check 𝓝 𝓑 s)
              (record s.utp { state = UtpState.closed })).0
    unfolding end_socket stop_timeout_check
    end_socket-Holds none s =
        rw (events-timing 𝓝 𝓑 (clear_timer s.timers s.timer_name).1) (h.parts.stays s.utp)
    end_socket-Holds (some _) s =
        let ts = (clear_timer s.timers s.timer_name).1 in
        rw (events-append 𝓝 𝓑 (map timing ts) (close_udp ∷ []), events-timing 𝓝 𝓑 ts) (h.ends s.utp)

    try_close_socket-Holds :
        (s : Service 𝓝 𝓑) (clock : Clock) → Holds s (try_close_socket 𝓝 𝓑 s clock).0
    unfolding try_close_socket Close.try_close_socket
    try_close_socket-Holds s clock = elim (Bool-cases (conn_size 𝓝 𝓑 s.utp == 0)) [
      | inl empty ↦ rw empty (end_socket-Holds s.udp_socket s)
      | inr left ↦
          rw
            (
              left,
              events-event 𝓝 𝓑 (Close.close_each 𝓝 𝓑 s.utp clock (Map.keys s.utp.conn_table)).1,
            )
            (close_each-Holds 𝓝 𝓑 P h.parts (Map.keys s.utp.conn_table) s.utp clock)
    ]

    close-Holds :
        (t : UtpState) (s : Service 𝓝 𝓑) (clock : Clock)
        → s.utp.state ≡ t
        → Holds s (close 𝓝 𝓑 s clock).0
    unfolding close
    close-Holds active s clock e =
        let waits = record s { utp = record s.utp { state = UtpState.close_wait } } in
        simp (close, e)
          (then-Holds s.utp waits.utp (try_close_socket 𝓝 𝓑 waits clock).0.0.utp
            (event close_listener ∷ []) (try_close_socket 𝓝 𝓑 waits clock).0.1
            (h.starts_closing s.utp e) (try_close_socket-Holds waits clock))
    close-Holds UtpState.close_wait s clock e = simp (close, e) (h.parts.stays s.utp)
    close-Holds UtpState.closed s clock e = simp (close, e) (h.parts.stays s.utp)

    poll-Holds : (s : Service 𝓝 𝓑) (clock : Clock) → Holds s (poll 𝓝 𝓑 s clock).0
    unfolding poll
    poll-Holds s clock = elim (Bool-cases s.polling) [
      | inl y ↦ simp y (try_close_socket-Holds s clock)
      | inr n ↦ simp n (h.parts.stays s.utp)
    ]

    receive_one-Holds :
        (s : Service 𝓝 𝓑) (d : Datagram) (lost : Bool) → Holds s (receive_one 𝓝 𝓑 s d lost)
    unfolding receive_one
    receive_one-Holds s d lost = elim (Bool-cases (s.mock_packet_loss_enabled && lost)) [
      | inl y ↦ rw y (h.parts.stays s.utp)
      | inr n ↦ rw n (of_run s (receive 𝓝 𝓑 s.utp d).0 (receive-Holds 𝓝 𝓑 P h.parts s.utp d))
    ]

    arrive-Holds :
        (l : Option Listening) (s : Service 𝓝 𝓑) (d : Datagram) (lost : Bool)
        → s.loop ≡ l
        → Holds s (arrive 𝓝 𝓑 s d lost)
    unfolding arrive
    arrive-Holds none s d lost e = rw (arrive, e) (h.parts.stays s.utp)
    arrive-Holds (some stopped) s d lost e = rw (arrive, e) (h.parts.stays s.utp)
    arrive-Holds (some crashed) s d lost e = rw (arrive, e) (h.parts.stays s.utp)
    arrive-Holds (some listening) s d lost e = elim (Bool-cases (is_closed 𝓝 𝓑 s.utp)) [
      | inl y ↦ rw (arrive, e, y) (h.parts.stays s.utp)
      | inr n ↦ rw (arrive, e, n) (receive_one-Holds s d lost)
    ]

    check-Holds : (s : Service 𝓝 𝓑) (clock : Clock) → Holds s (check 𝓝 𝓑 s clock)
    unfolding check timeout_check
    check-Holds s clock = elim (Bool-cases (exist s.timers s.timer_name)) [
      | inl y ↦ rw y (
          of_run s (timeout_check 𝓝 𝓑 s.utp clock)
            (check_each-Holds 𝓝 𝓑 P h.parts (Map.keys s.utp.conn_table) s.utp clock))
      | inr n ↦ rw n (h.parts.stays s.utp)
    ]

    step-Holds : (s : Service 𝓝 𝓑) (call : Call) → Holds s (step 𝓝 𝓑 s call).0
    unfolding step
    step-Holds s (connects port hostname o clock random) =
        connect-Holds s port hostname o clock random
    step-Holds s (listens port hostname o) = listen-Holds s port hostname o
    step-Holds s (arrives d lost) = arrive-Holds s.loop s d lost refl
    step-Holds s (checks clock) = check-Holds s clock
    step-Holds s (closes clock) = close-Holds s.utp.state s clock refl
    step-Holds s (polls clock) = poll-Holds s clock

    pub run-Holds : (calls : List Call) (s : Service 𝓝 𝓑) → Holds s (run 𝓝 𝓑 s calls)
    unfolding run
    run-Holds [] s = h.parts.stays s.utp
    run-Holds (call ∷ calls) s =
        let ((s', out), _) = step 𝓝 𝓑 s call in
        then-Holds s.utp s'.utp (run 𝓝 𝓑 s' calls).0.utp out (run 𝓝 𝓑 s' calls).1
          (step-Holds s call) (run-Holds calls s')
