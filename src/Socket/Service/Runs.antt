-- ===== src/Socket/Service/Runs.antt =====
-- src/utp_socket.ts: whatever calls are made of a socket, its parts go together.
use mathlib.Core.Bool.{false≢true}
use mathlib.Core.Option.{some-ne-none}
use utp.Base.{
  ℕ, ◌≡◌, refl, ◌∙◌, sym, ap, Bool, true, not, ◌&&◌, ◌||◌, ◌==◌, List, [], ◌∷◌, Option, none, some,
  arith, Bool-cases, inl, inr,
}
use utp.Base.Map
use utp.Base.Map.{Map, HasDistinctKeys}
use utp.Base.Number.{JsNumber}
use utp.Base.Texts.{Text, text_key}
use utp.BlockingBuffer.{ByteBuffer}
use utp.Timers.{exist}
use utp.Conn.{Clock}
use utp.Context.{Context}
use utp.Socket.{is_closed, conn_size}
use utp.Socket.Dispatch.{Datagram, Listening, listening, stopped, crashed, receive, timeout_check}
use utp.Socket.Traces.{receive-Holds, check_each-Holds}
use utp.Socket.Service.{
  Service, is_close_wait, timer_name_of, construct, poll, receive_one, arrive, check,
}
use utp.Socket.Service.Calls.{Call, connects, listens, arrives, checks, closes, polls, step, run}
use utp.Socket.Service.Life.{
  is_there, IsTimedCall, AreTimed, IsSound, HasSameState, same_state, with_utp-IsSound,
  opened-loops,
}
use utp.Socket.Service.Sound.{
  connect-IsSound, listen-IsSound, try_close_socket-IsSound, close-IsSound,
}

module _ (𝓝 : JsNumber) (𝓑 : ByteBuffer) where
  poll-IsSound :
      (s : Service 𝓝 𝓑) (clock : Clock) → IsSound 𝓝 𝓑 s → IsSound 𝓝 𝓑 (poll 𝓝 𝓑 s clock).0.0
  unfolding poll
  poll-IsSound s clock v = elim (Bool-cases s.polling) [
    | inl y ↦ simp y (try_close_socket-IsSound 𝓝 𝓑 s clock (v.polls_waiting y) v)
    | inr n ↦ simp n v
  ]

  receive_one-IsSound :
      (s : Service 𝓝 𝓑) (d : Datagram) (lost : Bool)
      → is_there s.udp_socket ≡ true
      → IsSound 𝓝 𝓑 s
      → IsSound 𝓝 𝓑 (receive_one 𝓝 𝓑 s d lost).0
  unfolding receive_one
  receive_one-IsSound s d lost open_ v = elim (Bool-cases (s.mock_packet_loss_enabled && lost)) [
    | inl y ↦ rw y v
    | inr n ↦ rw n (
        with_utp-IsSound 𝓝 𝓑 s (receive 𝓝 𝓑 s.utp d).0.0 (some _) open_ refl
          (receive-Holds 𝓝 𝓑 (HasSameState 𝓝 𝓑) (same_state 𝓝 𝓑) s.utp d) v)
  ]

  loop-opened :
      (s : Service 𝓝 𝓑) (l : Listening)
      → s.loop ≡ some l
      → IsSound 𝓝 𝓑 s
      → is_there s.udp_socket ≡ true
  loop-opened s l e v = sym v.looping ∙ ap is_there e

  arrive-IsSound :
      (l : Option Listening) (s : Service 𝓝 𝓑) (d : Datagram) (lost : Bool)
      → s.loop ≡ l
      → IsSound 𝓝 𝓑 s
      → IsSound 𝓝 𝓑 (arrive 𝓝 𝓑 s d lost).0
  unfolding arrive
  arrive-IsSound none s d lost e v = simp (arrive, e) v
  arrive-IsSound (some stopped) s d lost e v = simp (arrive, e) v
  arrive-IsSound (some crashed) s d lost e v = simp (arrive, e) v
  arrive-IsSound (some listening) s d lost e v =
      let open_ = loop-opened s listening e v in
      elim (Bool-cases (is_closed 𝓝 𝓑 s.utp)) [
        | inl y ↦
            simp (arrive, e, y) (with_utp-IsSound 𝓝 𝓑 s s.utp (some stopped) open_ refl refl v)
        | inr n ↦ simp (arrive, e, n) (receive_one-IsSound s d lost open_ v)
      ]

  -- The timer is there, so the UDP socket is open.
  timed-opened :
      (s : Service 𝓝 𝓑)
      → exist s.timers s.timer_name ≡ true
      → IsSound 𝓝 𝓑 s
      → is_there s.udp_socket ≡ true
  timed-opened s y v = ground (arith, v.timed.1, y)

  check-IsSound :
      (s : Service 𝓝 𝓑) (clock : Clock) → IsSound 𝓝 𝓑 s → IsSound 𝓝 𝓑 (check 𝓝 𝓑 s clock).0
  unfolding check timeout_check
  check-IsSound s clock v = elim (Bool-cases (exist s.timers s.timer_name)) [
    | inl y ↦
        let open_ = timed-opened s y v in
        rw y (
          with_utp-IsSound 𝓝 𝓑 s (timeout_check 𝓝 𝓑 s.utp clock).0 s.loop open_
            (opened-loops 𝓝 𝓑 s v open_)
            (check_each-Holds 𝓝 𝓑 (HasSameState 𝓝 𝓑) (same_state 𝓝 𝓑) (Map.keys s.utp.conn_table)
              s.utp clock)
            v)
    | inr n ↦ rw n v
  ]

  step-IsSound :
      (s : Service 𝓝 𝓑) (call : Call)
      → IsTimedCall call
      → IsSound 𝓝 𝓑 s
      → IsSound 𝓝 𝓑 (step 𝓝 𝓑 s call).0.0
  unfolding step
  step-IsSound s (connects port hostname o clock random) p v =
      connect-IsSound 𝓝 𝓑 s port hostname o clock random p v
  step-IsSound s (listens port hostname o) p v = listen-IsSound 𝓝 𝓑 s port hostname o p v
  step-IsSound s (arrives d lost) p v = arrive-IsSound s.loop s d lost refl v
  step-IsSound s (checks clock) p v = check-IsSound s clock v
  step-IsSound s (closes clock) p v = close-IsSound 𝓝 𝓑 s.utp.state s clock refl v
  step-IsSound s (polls clock) p v = poll-IsSound s clock v

  each-IsSound :
      (calls : List Call) (s : Service 𝓝 𝓑)
      → AreTimed calls
      → IsSound 𝓝 𝓑 s
      → IsSound 𝓝 𝓑 (run 𝓝 𝓑 s calls).0
  unfolding run
  each-IsSound [] s p v = v
  each-IsSound (call ∷ calls) s (p, ps) v =
      each-IsSound calls (step 𝓝 𝓑 s call).0.0 ps (step-IsSound s call p v)

  construct-IsSound :
      (context : Context) (tag uuid : Text) (timers : Map Text ℕ)
      → HasDistinctKeys timers
      → Map.get (timer_name_of uuid) timers ≡ none
      → IsSound 𝓝 𝓑 (construct 𝓝 𝓑 context tag uuid timers).1
  unfolding construct exist is_closed
  construct-IsSound context tag uuid timers d new = record {
    timed = (
      d,
      Map.has-of_get-none (timer_name_of uuid) timers new,
      λ t found. absurd (some-ne-none t (sym found ∙ new)),
    );
    looping = refl;
    polls_waiting = λ y. absurd (false≢true y);
    unopened = λ n. (refl, refl);
  }

  waits : (s : Service 𝓝 𝓑) → IsSound 𝓝 𝓑 s → (not s.polling || is_close_wait s.utp.state) ≡ true
  unfolding is_close_wait
  waits s v = elim (Bool-cases s.polling) [
    | inl y ↦ rw (y, v.polls_waiting y) refl
    | inr n ↦ rw n refl
  ]

  is_empty :
      (s : Service 𝓝 𝓑) → IsSound 𝓝 𝓑 s → (is_there s.udp_socket || conn_size 𝓝 𝓑 s.utp == 0) ≡ true
  unfolding conn_size Map.size
  is_empty s v = elim (Bool-cases (is_there s.udp_socket)) [
    | inl y ↦ rw y refl
    | inr n ↦ rw (n, (v.unopened n).0) refl
  ]

  -- A new socket, of whose timer the table of the timer manager has nothing, and any calls of it, each new timer with a
  -- positive number: the timer of `timeoutCheck` is in that table exactly while the UDP socket is open and the socket is
  -- not closed; the loop that receives was started exactly if the UDP socket was opened; the interval of `close` runs
  -- only while the socket waits for its connections to close; and a socket whose UDP socket was not opened has no
  -- connection.
  pub run-IsSound :
      (context : Context) (tag uuid : Text) (timers : Map Text ℕ) (calls : List Call)
      → HasDistinctKeys timers
      → Map.get (timer_name_of uuid) timers ≡ none
      → AreTimed calls
      → let (s, _) = run 𝓝 𝓑 (construct 𝓝 𝓑 context tag uuid timers).1 calls in
        (exist s.timers s.timer_name ≡ (is_there s.udp_socket && not (is_closed 𝓝 𝓑 s.utp)))
        × (is_there s.loop ≡ is_there s.udp_socket)
        × ((not s.polling || is_close_wait s.utp.state) ≡ true)
        × ((is_there s.udp_socket || conn_size 𝓝 𝓑 s.utp == 0) ≡ true)
  run-IsSound context tag uuid timers calls d new p =
      let v =
        each-IsSound calls (construct 𝓝 𝓑 context tag uuid timers).1 p
          (construct-IsSound context tag uuid timers d new) in
      let (s, _) = run 𝓝 𝓑 (construct 𝓝 𝓑 context tag uuid timers).1 calls in
      (v.timed.1, v.looping, waits s v, is_empty s v)
