-- ===== src/Socket/Service/Life.antt =====
-- src/utp_socket.ts: the UDP socket, the loop that receives, the timer of `timeoutCheck` and the interval of `close` go
-- together.
use mathlib.Core.Bool.{false≢true}
use utp.Base.{
  ◌<◌, ◌≡◌, refl, ◌∙◌, sym, ap, subst, Bool, true, false, not, ◌&&◌, List, [], ◌∷◌, Option, none,
  some, arith, Option-cases, inl, inr,
}
use utp.Base.Number.{JsNumber}
use utp.Base.Texts.{text_key}
use utp.Addr.{Addr}
use utp.BlockingBuffer.{ByteBuffer}
use utp.Timers.{set_timer}
use utp.Timers.Named.{IsTimed, set-IsTimed}
use utp.Socket.{Utp, UtpState, is_closed, send_packet}
use utp.Socket.Dispatch.{Listening}
use utp.Socket.Traces.{Relation, HoldsOfParts}
use utp.Socket.Service.{Service, Opening, start_timeout_check, start_listen, after_listen_datagram}
use utp.Socket.Service.Calls.{Call, connects, listens, arrives, checks, closes, polls}

-- whether there is a UDP socket, or a loop
abbrev pub is_there {ℓ} : {A : Type ℓ} → Option A → Bool
is_there none = false
is_there (some _) = true

-- the number of a new timer is positive
abbrev pub IsTimedCall : Call → Type 0
IsTimedCall (connects port hostname o clock random) = 0 < o.timer
IsTimedCall (listens port hostname o) = 0 < o.timer
IsTimedCall (arrives d lost) = Unit
IsTimedCall (checks clock) = Unit
IsTimedCall (closes clock) = Unit
IsTimedCall (polls clock) = Unit

abbrev pub AreTimed : List Call → Type 0
AreTimed [] = Unit
AreTimed (call ∷ calls) = IsTimedCall call × AreTimed calls

module _ (𝓝 : JsNumber) (𝓑 : ByteBuffer) where
  -- The timer is there from the opening of the UDP socket to the end of the socket, the loop has been started with it,
  -- and the interval of `close` runs only while the socket waits for its connections. A socket whose UDP socket has
  -- not been opened has no connections and is not closed.
  pub record IsSound (s : Service 𝓝 𝓑) : Type 0 where
    pub timed : IsTimed s.timers s.timer_name (is_there s.udp_socket && not (is_closed 𝓝 𝓑 s.utp))
    pub looping : is_there s.loop ≡ is_there s.udp_socket
    pub polls_waiting : s.polling ≡ true → s.utp.state ≡ UtpState.close_wait
    pub unopened :
        is_there s.udp_socket ≡ false → (s.utp.conn_table ≡ []) × (is_closed 𝓝 𝓑 s.utp ≡ false)

  -- The state of a socket is changed by `close` alone.
  abbrev pub HasSameState : Relation 𝓝 𝓑
  HasSameState u out u' = u'.state ≡ u.state

  sends-HasSameState : (u : Utp 𝓝 𝓑) (p : _) (a : Addr) → (send_packet 𝓝 𝓑 u p a).0.state ≡ u.state
  unfolding send_packet
  sends-HasSameState u p a = ground arith

  pub same_state : HoldsOfParts 𝓝 𝓑 HasSameState
  same_state = record {
    stays = λ u. refl;
    chain = λ u u' u'' out more p q. q ∙ p;
    sets_table = λ u m. refl;
    sends = sends-HasSameState;
    tells = λ u id e. refl;
    removes = λ u id c. refl;
    counts_packet = λ u n. refl;
    counts_datagram = λ u n k. refl;
  }

  same-is_closed : (u u' : Utp 𝓝 𝓑) → u'.state ≡ u.state → is_closed 𝓝 𝓑 u' ≡ is_closed 𝓝 𝓑 u
  unfolding is_closed
  same-is_closed u u' e = ap (λ t. is_closed 𝓝 𝓑 (record u { state = t })) e

  -- a call of the table, on a socket whose UDP socket is open
  pub with_utp-IsSound :
      (s : Service 𝓝 𝓑) (u : Utp 𝓝 𝓑) (l : Option Listening)
      → is_there s.udp_socket ≡ true
      → is_there l ≡ true
      → u.state ≡ s.utp.state
      → IsSound s
      → IsSound (record s { utp = u; loop = l })
  with_utp-IsSound s u l open_ loops e v = record {
    timed =
        subst (λ b. IsTimed s.timers s.timer_name (is_there s.udp_socket && not b))
          (sym (same-is_closed s.utp u e)) v.timed;
    looping = loops ∙ sym open_;
    polls_waiting = λ y. e ∙ v.polls_waiting y;
    unopened = λ n. absurd (false≢true (sym n ∙ open_));
  }

  pub opened-loops :
      (s : Service 𝓝 𝓑) → IsSound s → is_there s.udp_socket ≡ true → is_there s.loop ≡ true
  opened-loops s v open_ = v.looping ∙ open_

  pub after_listen_datagram-IsSound :
      (s : Service 𝓝 𝓑) (o : Opening)
      → is_there s.udp_socket ≡ false
      → 0 < o.timer
      → IsSound s
      → IsSound (after_listen_datagram 𝓝 𝓑 s o).0.0
  unfolding after_listen_datagram start_timeout_check start_listen
  after_listen_datagram-IsSound s o n p v = elim (Option-cases o.bound) [
    | inl fails ↦ rw fails v
    | inr (a, bound) ↦ rw bound (record {
      timed =
          subst (λ b. IsTimed (set_timer s.timers s.timer_name o.timer).0 s.timer_name (not b))
            (sym (v.unopened n).1) (set-IsTimed s.timers s.timer_name o.timer v.timed.0 p);
      looping = refl;
      polls_waiting = v.polls_waiting;
      unopened = λ e. absurd (false≢true (sym e));
    })
  ]
