-- ===== src/Socket/Service/Lasting.antt =====
-- src/utp_socket.ts: what is not undone: the UDP socket is opened once, and one that `close` could not end is never
-- ended.
use Prim.Native.String.{String}
use utp.Base.{
  ℕ, ◌≡◌, refl, sym, ap, Bool, true, false, ◌&&◌, List, [], ◌∷◌, map, Option, none, some, ◌==◌,
  arith, Bool-cases, Option-cases, inl, inr,
}
use mathlib.Core.Bool.{false≢true}
use utp.Base.Map
use utp.Base.Map.{Map}
use utp.Base.Number.{JsNumber}
use utp.Base.Texts.{Text, text_key}
use utp.Addr.{Addr}
use utp.Addr.Create.{ℤ, create}
use utp.BlockingBuffer.{ByteBuffer}
use utp.Timers.{exist, clear_timer}
use utp.Context.{Context}
use utp.Conn.{Clock}
use utp.Socket.{Utp, UtpState, active, conn_size, is_closed}
use utp.Socket.Connect
use utp.Socket.Dispatch.{Datagram, Listening, listening, stopped, crashed, receive, timeout_check}
use utp.Socket.Close
use utp.Socket.Traces.{connect_to-Holds, receive-Holds, check_each-Holds, close_each-Holds}
use utp.Socket.Service.{
  Service, Called, returns, throws, timing, close_udp, if_returned, connect, listen, connect_behind,
  stop_timeout_check, create_udp_socket_if_none, end_socket, try_close_socket, close, poll,
  receive_one, arrive, check, Opening, local_addr, timer_name_of, construct,
}
use utp.Socket.Service.Calls.{Call, connects, listens, arrives, checks, closes, polls, step, run}
use utp.Socket.Service.Life.{HasSameState, same_state}
use utp.Socket.Service.Kept.{
  openings, endings, openings-append, of_timings, KeepsOpen, Keeps, stays-Keeps, then-Keeps,
  with_utp-Keeps, open_unless-Keeps,
}

module _ (𝓝 : JsNumber) (𝓑 : ByteBuffer) where
  connect_behind-Keeps :
      (s : Service 𝓝 𝓑) (a : Option Addr) (clock : Clock) (random : ℕ)
      → Keeps 𝓝 𝓑 s (connect_behind 𝓝 𝓑 s a clock random).0
  unfolding connect_behind Connect.connect
  connect_behind-Keeps s none clock random = stays-Keeps 𝓝 𝓑 s
  connect_behind-Keeps s (some a) clock random =
      with_utp-Keeps 𝓝 𝓑 s (Connect.connect 𝓝 𝓑 s.utp clock a random)
        (connect_to-Holds 𝓝 𝓑 (HasSameState 𝓝 𝓑) (same_state 𝓝 𝓑) s.utp clock true _)

  if_returned-Keeps :
      (s : Service 𝓝 𝓑) (r : Called 𝓝 𝓑) (f : Service 𝓝 𝓑 → Called 𝓝 𝓑)
      → Keeps 𝓝 𝓑 s r.0
      → ((s' : Service 𝓝 𝓑) → Keeps 𝓝 𝓑 s' (f s').0)
      → Keeps 𝓝 𝓑 s (if_returned 𝓝 𝓑 r f).0
  if_returned-Keeps s (r, throws) f p q = p
  if_returned-Keeps s ((s', out), returns) f p q =
      then-Keeps 𝓝 𝓑 s s' (f s').0.0 out (f s').0.1 p (q s')

  create_udp_socket_if_none-Keeps :
      (s : Service 𝓝 𝓑) (addr : Option Addr) (o : Opening)
      → Keeps 𝓝 𝓑 s (create_udp_socket_if_none 𝓝 𝓑 s addr o).0
  unfolding create_udp_socket_if_none
  create_udp_socket_if_none-Keeps s addr o = open_unless-Keeps 𝓝 𝓑 s.udp_socket s addr o refl

  connect-Keeps :
      (s : Service 𝓝 𝓑) (port : ℤ) (hostname : String) (o : Opening) (clock : Clock) (random : ℕ)
      → Keeps 𝓝 𝓑 s (connect 𝓝 𝓑 s port hostname o clock random).0
  unfolding connect
  connect-Keeps s port hostname o clock random =
      if_returned-Keeps s (create_udp_socket_if_none 𝓝 𝓑 s none o)
        (λ s'. connect_behind 𝓝 𝓑 s' (create port hostname) clock random)
        (create_udp_socket_if_none-Keeps s none o)
        (λ s'. connect_behind-Keeps s' (create port hostname) clock random)

  listen-Keeps :
      (s : Service 𝓝 𝓑) (port : ℤ) (hostname : String) (o : Opening)
      → Keeps 𝓝 𝓑 s (listen 𝓝 𝓑 s port hostname o).0
  unfolding listen
  listen-Keeps s port hostname o = elim (Option-cases (create port hostname)) [
    | inl refused ↦ rw (listen, refused) (stays-Keeps 𝓝 𝓑 s)
    | inr (a, valid) ↦ rw (listen, valid) (create_udp_socket_if_none-Keeps s (some a) o)
  ]

  end_socket-KeepsOpen :
      (a : Option Addr) (s : Service 𝓝 𝓑) (u : Utp 𝓝 𝓑)
      → let ((s', out), _) = end_socket 𝓝 𝓑 a (stop_timeout_check 𝓝 𝓑 s) u in KeepsOpen 𝓝 𝓑 s out s'
  unfolding end_socket stop_timeout_check
  end_socket-KeepsOpen none s u a e = (e, (of_timings 𝓝 𝓑 (clear_timer s.timers s.timer_name).1).0)
  end_socket-KeepsOpen (some _) s u a e =
      let ts = (clear_timer s.timers s.timer_name).1 in
      (
        e,
        omega (arith, openings-append 𝓝 𝓑 (map timing ts) (close_udp ∷ []), (of_timings 𝓝 𝓑 ts).0),
      )

  try_close_socket-KeepsOpen :
      (s : Service 𝓝 𝓑) (clock : Clock)
      → let ((s', out), _) = try_close_socket 𝓝 𝓑 s clock in KeepsOpen 𝓝 𝓑 s out s'
  unfolding try_close_socket Close.try_close_socket
  try_close_socket-KeepsOpen s clock = elim (Bool-cases (conn_size 𝓝 𝓑 s.utp == 0)) [
    | inl empty ↦
        rw empty (end_socket-KeepsOpen s.udp_socket s (record s.utp { state = UtpState.closed }))
    | inr left ↦
        rw left
          (with_utp-Keeps 𝓝 𝓑 s (Close.close_each 𝓝 𝓑 s.utp clock (Map.keys s.utp.conn_table)) (
            close_each-Holds 𝓝 𝓑 (HasSameState 𝓝 𝓑) (same_state 𝓝 𝓑) (Map.keys s.utp.conn_table)
              s.utp clock)).0
  ]

  is_waiting : UtpState → Bool
  is_waiting active = false
  is_waiting UtpState.close_wait = true
  is_waiting UtpState.closed = false

  close-Keeps :
      (t : UtpState) (s : Service 𝓝 𝓑) (clock : Clock)
      → s.utp.state ≡ t
      → Keeps 𝓝 𝓑 s (close 𝓝 𝓑 s clock).0
  unfolding close is_waiting
  close-Keeps active s clock e =
      let waits = record s { utp = record s.utp { state = UtpState.close_wait } } in
      simp (close, e)
        (try_close_socket-KeepsOpen waits clock, λ w n. absurd (false≢true (ap is_waiting w)))
  close-Keeps UtpState.close_wait s clock e =
      simp (close, e) (λ a f. (f, refl), λ w n. (w, n, refl))
  close-Keeps UtpState.closed s clock e = simp (close, e) (λ a f. (f, refl), λ w n. (w, n, refl))

  poll-Keeps : (s : Service 𝓝 𝓑) (clock : Clock) → Keeps 𝓝 𝓑 s (poll 𝓝 𝓑 s clock).0
  unfolding poll
  poll-Keeps s clock = elim (Bool-cases s.polling) [
    | inl y ↦ simp y (try_close_socket-KeepsOpen s clock, λ w n. absurd (false≢true (sym n)))
    | inr n ↦ simp n (λ a f. (f, refl), λ w m. (w, m, refl))
  ]

  receive_one-Keeps :
      (s : Service 𝓝 𝓑) (d : Datagram) (lost : Bool) → Keeps 𝓝 𝓑 s (receive_one 𝓝 𝓑 s d lost)
  unfolding receive_one
  receive_one-Keeps s d lost = elim (Bool-cases (s.mock_packet_loss_enabled && lost)) [
    | inl loses ↦ rw loses (stays-Keeps 𝓝 𝓑 s)
    | inr keeps ↦ rw keeps (
        with_utp-Keeps 𝓝 𝓑 s (receive 𝓝 𝓑 s.utp d).0
          (receive-Holds 𝓝 𝓑 (HasSameState 𝓝 𝓑) (same_state 𝓝 𝓑) s.utp d))
  ]

  arrive-Keeps :
      (l : Option Listening) (s : Service 𝓝 𝓑) (d : Datagram) (lost : Bool)
      → s.loop ≡ l
      → Keeps 𝓝 𝓑 s (arrive 𝓝 𝓑 s d lost)
  unfolding arrive
  arrive-Keeps none s d lost e = simp (arrive, e) (stays-Keeps 𝓝 𝓑 s)
  arrive-Keeps (some stopped) s d lost e = simp (arrive, e) (stays-Keeps 𝓝 𝓑 s)
  arrive-Keeps (some crashed) s d lost e = simp (arrive, e) (stays-Keeps 𝓝 𝓑 s)
  arrive-Keeps (some listening) s d lost e = elim (Bool-cases (is_closed 𝓝 𝓑 s.utp)) [
    | inl y ↦ simp (arrive, e, y) (with_utp-Keeps 𝓝 𝓑 s (s.utp, []) refl)
    | inr n ↦ simp (arrive, e, n) (receive_one-Keeps s d lost)
  ]

  check-Keeps : (s : Service 𝓝 𝓑) (clock : Clock) → Keeps 𝓝 𝓑 s (check 𝓝 𝓑 s clock)
  unfolding check timeout_check
  check-Keeps s clock = elim (Bool-cases (exist s.timers s.timer_name)) [
    | inl y ↦ rw y (
        with_utp-Keeps 𝓝 𝓑 s (timeout_check 𝓝 𝓑 s.utp clock) (
          check_each-Holds 𝓝 𝓑 (HasSameState 𝓝 𝓑) (same_state 𝓝 𝓑) (Map.keys s.utp.conn_table) s.utp
            clock))
    | inr n ↦ rw n (stays-Keeps 𝓝 𝓑 s)
  ]

  step-Keeps : (s : Service 𝓝 𝓑) (call : Call) → Keeps 𝓝 𝓑 s (step 𝓝 𝓑 s call).0
  unfolding step
  step-Keeps s (connects port hostname o clock random) =
      connect-Keeps s port hostname o clock random
  step-Keeps s (listens port hostname o) = listen-Keeps s port hostname o
  step-Keeps s (arrives d lost) = arrive-Keeps s.loop s d lost refl
  step-Keeps s (checks clock) = check-Keeps s clock
  step-Keeps s (closes clock) = close-Keeps s.utp.state s clock refl
  step-Keeps s (polls clock) = poll-Keeps s clock

  run-Keeps : (calls : List Call) (s : Service 𝓝 𝓑) → Keeps 𝓝 𝓑 s (run 𝓝 𝓑 s calls)
  unfolding run
  run-Keeps [] s = stays-Keeps 𝓝 𝓑 s
  run-Keeps (call ∷ calls) s =
      let ((s', out), _) = step 𝓝 𝓑 s call in
      then-Keeps 𝓝 𝓑 s s' (run 𝓝 𝓑 s' calls).0 out (run 𝓝 𝓑 s' calls).1 (step-Keeps s call)
        (run-Keeps calls s')

  -- A UDP socket that is open keeps its address, whatever calls are made, and none is opened again: not even for a
  -- `listen` at another address.
  pub opened_once :
      (calls : List Call) (s : Service 𝓝 𝓑) (a : Addr)
      → local_addr 𝓝 𝓑 s ≡ some a
      → let (s', out) = run 𝓝 𝓑 s calls in (local_addr 𝓝 𝓑 s' ≡ some a) × (openings 𝓝 𝓑 out ≡ 0)
  unfolding local_addr
  opened_once calls s a e = (run-Keeps calls s).0 a e

  -- `close` of a new socket, before any `connect` or `listen`, throws, and whatever calls are made of it then, it is never
  -- closed: it waits for its connections, and no UDP socket is ended, although one may be opened.
  pub closed_early :
      (context : Context) (tag uuid : Text) (timers : Map Text ℕ) (clock : Clock)
      (calls : List Call)
      → let ((s, out), outcome) = close 𝓝 𝓑 (construct 𝓝 𝓑 context tag uuid timers).1 clock in
        let (s', more) = run 𝓝 𝓑 s calls in
        (outcome ≡ throws)
        × (s'.utp.state ≡ UtpState.close_wait)
        × (endings 𝓝 𝓑 out ≡ 0)
        × (endings 𝓝 𝓑 more ≡ 0)
  unfolding construct close try_close_socket Close.try_close_socket conn_size Map.size end_socket
      stop_timeout_check
  closed_early context tag uuid timers clock calls =
      let s = (close 𝓝 𝓑 (construct 𝓝 𝓑 context tag uuid timers).1 clock).0.0 in
      let (waits, _, no_ending) = (run-Keeps calls s).1 refl refl in
      (refl, waits, (of_timings 𝓝 𝓑 (clear_timer timers (timer_name_of uuid)).1).1, no_ending)
