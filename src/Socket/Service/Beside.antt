-- ===== src/Socket/Service/Beside.antt =====
-- src/utp_socket.ts: what the calls of a socket set off, and that the opening of the UDP socket does not concern the
-- table.
use utp.Base.{◌≡◌, refl, ap, List, [], ◌∷◌, ◌++◌, map, Option, none, some, Option-cases, inl, inr}
use utp.Base.Number.{JsNumber}
use utp.Base.Texts.{text_key}
use utp.Base.Timing.{Timing}
use utp.Addr.{Addr}
use utp.BlockingBuffer.{ByteBuffer}
use utp.Timers.{set_timer}
use utp.Socket.{Event}
use utp.Socket.Service.{
  Service, Outside, Opening, event, listen_datagram, timing, close_udp, start_timeout_check,
  start_listen, after_listen_datagram, open_unless, create_udp_socket_if_none,
}

module _ (𝓝 : JsNumber) (𝓑 : ByteBuffer) where
  -- the events of the table among what a call sets off
  abbrev pub events : List (Outside 𝓝 𝓑) → List (Event 𝓝 𝓑)
  events [] = []
  events (event e ∷ out) = e ∷ events out
  events (listen_datagram _ _ ∷ out) = events out
  events (timing _ ∷ out) = events out
  events (close_udp ∷ out) = events out

  pub events-append :
      (out more : List (Outside 𝓝 𝓑)) → events (out ++ more) ≡ events out ++ events more
  events-append [] more = refl
  events-append (event e ∷ out) more = ap (◌∷◌ e) (events-append out more)
  events-append (listen_datagram _ _ ∷ out) more = events-append out more
  events-append (timing _ ∷ out) more = events-append out more
  events-append (close_udp ∷ out) more = events-append out more

  pub events-event : (es : List (Event 𝓝 𝓑)) → events (map event es) ≡ es
  events-event [] = refl
  events-event (e ∷ es) = ap (◌∷◌ e) (events-event es)

  pub events-timing : (ts : List Timing) → events (map timing ts) ≡ []
  events-timing [] = refl
  events-timing (t ∷ ts) = events-timing ts

  -- The opening of the UDP socket does not concern the table.
  abbrev pub IsBeside : Service 𝓝 𝓑 → Service 𝓝 𝓑 × List (Outside 𝓝 𝓑) → Type 0
  IsBeside s (s', out) = (s'.utp ≡ s.utp) × (events out ≡ [])

  after_listen_datagram-IsBeside :
      (s : Service 𝓝 𝓑) (o : Opening) → IsBeside s (after_listen_datagram 𝓝 𝓑 s o).0
  unfolding after_listen_datagram start_timeout_check start_listen
  after_listen_datagram-IsBeside s o = elim (Option-cases o.bound) [
    | inl fails ↦ rw fails (refl, refl)
    | inr (a, bound) ↦ rw bound (refl, events-timing (set_timer s.timers s.timer_name o.timer).1)
  ]

  open_unless-IsBeside :
      (a : Option Addr) (s : Service 𝓝 𝓑) (addr : Option Addr) (o : Opening)
      → IsBeside s (open_unless 𝓝 𝓑 a s addr o).0
  unfolding open_unless
  open_unless-IsBeside (some _) s addr o = (refl, refl)
  open_unless-IsBeside none s addr o = after_listen_datagram-IsBeside s o

  pub create_udp_socket_if_none-IsBeside :
      (s : Service 𝓝 𝓑) (addr : Option Addr) (o : Opening)
      → IsBeside s (create_udp_socket_if_none 𝓝 𝓑 s addr o).0
  unfolding create_udp_socket_if_none
  create_udp_socket_if_none-IsBeside s addr o = open_unless-IsBeside s.udp_socket s addr o
