-- ===== src/Socket/Service/Sound.antt =====
-- src/utp_socket.ts: every call of a socket keeps its parts together.
use Prim.Native.String.{String}
use mathlib.Core.Bool.{false≢true}
use utp.Base.{
  ℕ, ◌<◌, ◌≡◌, refl, ◌∙◌, sym, ap, subst, true, false, not, ◌&&◌, Option, none, some, ◌==◌,
  Bool-cases, Option-cases, inl, inr,
}
use utp.Base.Map
use utp.Base.Number.{JsNumber}
use utp.Base.Texts.{text_key}
use utp.Addr.{Addr}
use utp.Addr.Create.{ℤ, create}
use utp.BlockingBuffer.{ByteBuffer}
use utp.Timers.{clear_timer}
use utp.Timers.Named.{IsTimed, clear-IsTimed}
use utp.Conn.{Clock}
use utp.Socket.{UtpState, active, is_closed, conn_size}
use utp.Socket.Connect
use utp.Socket.Close
use utp.Socket.Traces.{connect_to-Holds, close_each-Holds}
use utp.Socket.Service.{
  Service, Opening, Called, returns, throws, Outcome, if_returned, connect, listen, connect_behind,
  start_timeout_check, start_listen, stop_timeout_check, after_listen_datagram, open_unless,
  create_udp_socket_if_none, end_socket, try_close_socket, close,
}
use utp.Socket.Service.Life.{
  is_there, IsSound, HasSameState, same_state, with_utp-IsSound, opened-loops,
  after_listen_datagram-IsSound,
}

module _ (𝓝 : JsNumber) (𝓑 : ByteBuffer) where
  -- A call that opens the UDP socket leaves it open when it returns.
  abbrev IsOpen : Outcome → Service 𝓝 𝓑 → Type 0
  IsOpen returns s = is_there s.udp_socket ≡ true
  IsOpen throws s = Unit

  abbrev IsOpening : Called 𝓝 𝓑 → Type 0
  IsOpening r = IsSound 𝓝 𝓑 r.0.0 × IsOpen r.1 r.0.0

  after_listen_datagram-IsOpening :
      (s : Service 𝓝 𝓑) (o : Opening)
      → is_there s.udp_socket ≡ false
      → 0 < o.timer
      → IsSound 𝓝 𝓑 s
      → IsOpening (after_listen_datagram 𝓝 𝓑 s o)
  unfolding after_listen_datagram start_timeout_check start_listen
  after_listen_datagram-IsOpening s o n p v = (
    after_listen_datagram-IsSound 𝓝 𝓑 s o n p v,
    elim (Option-cases o.bound) [ inl fails ↦ rw fails tt | inr (a, bound) ↦ rw bound refl ],
  )

  open_unless-IsOpening :
      (a : Option Addr) (s : Service 𝓝 𝓑) (addr : Option Addr) (o : Opening)
      → s.udp_socket ≡ a
      → 0 < o.timer
      → IsSound 𝓝 𝓑 s
      → IsOpening (open_unless 𝓝 𝓑 a s addr o)
  unfolding open_unless
  open_unless-IsOpening (some _) s addr o e p v = (v, ap is_there e)
  open_unless-IsOpening none s addr o e p v =
      after_listen_datagram-IsOpening s o (ap is_there e) p v

  create_udp_socket_if_none-IsOpening :
      (s : Service 𝓝 𝓑) (addr : Option Addr) (o : Opening)
      → 0 < o.timer
      → IsSound 𝓝 𝓑 s
      → IsOpening (create_udp_socket_if_none 𝓝 𝓑 s addr o)
  unfolding create_udp_socket_if_none
  create_udp_socket_if_none-IsOpening s addr o p v =
      open_unless-IsOpening s.udp_socket s addr o refl p v

  connect_behind-IsSound :
      (s : Service 𝓝 𝓑) (a : Option Addr) (clock : Clock) (random : ℕ)
      → is_there s.udp_socket ≡ true
      → IsSound 𝓝 𝓑 s
      → IsSound 𝓝 𝓑 (connect_behind 𝓝 𝓑 s a clock random).0.0
  unfolding connect_behind Connect.connect
  connect_behind-IsSound s none clock random open_ v = v
  connect_behind-IsSound s (some a) clock random open_ v =
      with_utp-IsSound 𝓝 𝓑 s (Connect.connect 𝓝 𝓑 s.utp clock a random).0 s.loop open_
        (opened-loops 𝓝 𝓑 s v open_)
        (connect_to-Holds 𝓝 𝓑 (HasSameState 𝓝 𝓑) (same_state 𝓝 𝓑) s.utp clock true _) v

  if_returned-IsSound :
      (r : Called 𝓝 𝓑) (f : Service 𝓝 𝓑 → Called 𝓝 𝓑)
      → IsOpening r
      → ((s : Service 𝓝 𝓑) → is_there s.udp_socket ≡ true → IsSound 𝓝 𝓑 s → IsSound 𝓝 𝓑 (f s).0.0)
      → IsSound 𝓝 𝓑 (if_returned 𝓝 𝓑 r f).0.0
  if_returned-IsSound (r, throws) f (v, o) g = v
  if_returned-IsSound ((s, out), returns) f (v, o) g = g s o v

  pub connect-IsSound :
      (s : Service 𝓝 𝓑) (port : ℤ) (hostname : String) (o : Opening) (clock : Clock) (random : ℕ)
      → 0 < o.timer
      → IsSound 𝓝 𝓑 s
      → IsSound 𝓝 𝓑 (connect 𝓝 𝓑 s port hostname o clock random).0.0
  unfolding connect
  connect-IsSound s port hostname o clock random p v =
      if_returned-IsSound (create_udp_socket_if_none 𝓝 𝓑 s none o)
        (λ s'. connect_behind 𝓝 𝓑 s' (create port hostname) clock random)
        (create_udp_socket_if_none-IsOpening s none o p v)
        (λ s' open_ w. connect_behind-IsSound s' (create port hostname) clock random open_ w)

  pub listen-IsSound :
      (s : Service 𝓝 𝓑) (port : ℤ) (hostname : String) (o : Opening)
      → 0 < o.timer
      → IsSound 𝓝 𝓑 s
      → IsSound 𝓝 𝓑 (listen 𝓝 𝓑 s port hostname o).0.0
  unfolding listen
  listen-IsSound s port hostname o p v = elim (Option-cases (create port hostname)) [
    | inl refused ↦ rw (listen, refused) v
    | inr (a, valid) ↦ rw (listen, valid) (create_udp_socket_if_none-IsOpening s (some a) o p v).0
  ]

  end_socket-IsSound :
      (a : Option Addr) (s : Service 𝓝 𝓑)
      → s.udp_socket ≡ a
      → IsSound 𝓝 𝓑 s
      → IsSound 𝓝 𝓑
          (end_socket 𝓝 𝓑 a
            (stop_timeout_check 𝓝 𝓑 s)
            (record s.utp { state = UtpState.closed })).0.0
  unfolding end_socket stop_timeout_check is_closed
  end_socket-IsSound none s e v = record {
    timed =
        subst
          (λ a.
            IsTimed (clear_timer s.timers s.timer_name).0 s.timer_name
              (is_there a && not (is_closed 𝓝 𝓑 s.utp)))
          (sym e) (clear-IsTimed s.timers s.timer_name _ v.timed);
    looping = v.looping;
    polls_waiting = v.polls_waiting;
    unopened = v.unopened;
  }
  end_socket-IsSound (some a) s e v = record {
    timed =
        subst
          (λ a. IsTimed (clear_timer s.timers s.timer_name).0 s.timer_name (is_there a && false))
          (sym e) (clear-IsTimed s.timers s.timer_name _ v.timed);
    looping = v.looping;
    polls_waiting = λ y. absurd (false≢true y);
    unopened = λ n. absurd (false≢true (sym n ∙ ap is_there e));
  }

  -- A table that is not empty belongs to an open UDP socket.
  left-opened :
      (s : Service 𝓝 𝓑)
      → (conn_size 𝓝 𝓑 s.utp == 0) ≡ false
      → IsSound 𝓝 𝓑 s
      → is_there s.udp_socket ≡ true
  unfolding conn_size Map.size
  left-opened s left v = elim (Bool-cases (is_there s.udp_socket)) [
    | inl y ↦ y
    | inr n ↦ absurd (false≢true (sym left ∙ ap (λ m. Map.size m == 0) (v.unopened n).0))
  ]

  pub try_close_socket-IsSound :
      (s : Service 𝓝 𝓑) (clock : Clock)
      → s.utp.state ≡ UtpState.close_wait
      → IsSound 𝓝 𝓑 s
      → IsSound 𝓝 𝓑 (try_close_socket 𝓝 𝓑 s clock).0.0
  unfolding try_close_socket Close.try_close_socket
  try_close_socket-IsSound s clock waits v = elim (Bool-cases (conn_size 𝓝 𝓑 s.utp == 0)) [
    | inl empty ↦ rw empty (end_socket-IsSound s.udp_socket s refl v)
    | inr left ↦
        let open_ = left-opened s left v in
        let same =
          close_each-Holds 𝓝 𝓑 (HasSameState 𝓝 𝓑) (same_state 𝓝 𝓑) (Map.keys s.utp.conn_table) s.utp
            clock in
        let w =
          with_utp-IsSound 𝓝 𝓑 s (Close.close_each 𝓝 𝓑 s.utp clock (Map.keys s.utp.conn_table)).0
            s.loop open_ (opened-loops 𝓝 𝓑 s v open_) same v in
        rw left (record {
          timed = w.timed;
          looping = w.looping;
          polls_waiting = λ y. same ∙ waits;
          unopened = w.unopened;
        })
  ]

  pub close-IsSound :
      (t : UtpState) (s : Service 𝓝 𝓑) (clock : Clock)
      → s.utp.state ≡ t
      → IsSound 𝓝 𝓑 s
      → IsSound 𝓝 𝓑 (close 𝓝 𝓑 s clock).0.0
  unfolding close is_closed
  close-IsSound active s clock e v =
      let waits = record s { utp = record s.utp { state = UtpState.close_wait } } in
      let not_closed : is_closed 𝓝 𝓑 s.utp ≡ false =
        ap (λ t. is_closed 𝓝 𝓑 (record s.utp { state = t })) e in
      simp (close, e)
        (try_close_socket-IsSound waits clock refl (record {
          timed =
              subst (λ b. IsTimed s.timers s.timer_name (is_there s.udp_socket && not b)) not_closed
                v.timed;
          looping = v.looping;
          polls_waiting = λ y. refl;
          unopened = λ n. ((v.unopened n).0, refl);
        }))
  close-IsSound UtpState.close_wait s clock e v = simp (close, e) v
  close-IsSound UtpState.closed s clock e v = simp (close, e) v
