-- ===== src/Socket/Service/Sent.antt =====
-- src/utp_socket.ts: the datagrams that a socket sends: its counters count them, and a closed one sends none.
use utp.Base.{
  ℕ, ◌+◌, ◌≡◌, refl, ◌∙◌, sym, ap, true, Bool-cases, inl, inr, List, [], ◌∷◌, ◌++◌, arith, length,
  length-append,
}
use mathlib.Core.Bool.{false≢true}
use utp.Base.Number.{JsNumber}
use utp.Addr.{Addr}
use utp.Packet.{Packet}
use utp.BlockingBuffer.{ByteBuffer}
use utp.Socket.{
  Utp, Event, datagram, told, removed, close_listener, close_socket, send_packet, is_closed,
}
use utp.Socket.Traces.{Relation}
use utp.Socket.Service.{Service}
use utp.Socket.Service.Calls.{Call, run}
use utp.Socket.Service.Beside.{events}
use utp.Socket.Service.Steps.{HoldsOfSocket, run-Holds}

-- the bytes of some datagrams
abbrev pub total_length : List (List ℕ) → ℕ
total_length [] = 0
total_length (b ∷ bs) = let rest = total_length bs in length b + rest

total_length-append :
    (bs cs : List (List ℕ)) → total_length (bs ++ cs) ≡ total_length bs + total_length cs
total_length-append [] cs = omega arith
total_length-append (b ∷ bs) cs = omega (arith, total_length-append bs cs)

module _ (𝓝 : JsNumber) (𝓑 : ByteBuffer) where
  abbrev pub datagrams : List (Event 𝓝 𝓑) → List (List ℕ)
  datagrams [] = []
  datagrams (datagram b a ∷ es) = b ∷ datagrams es
  datagrams (told id e ∷ es) = datagrams es
  datagrams (removed id c ∷ es) = datagrams es
  datagrams (close_listener ∷ es) = datagrams es
  datagrams (close_socket ∷ es) = datagrams es

  datagrams-append :
      (es more : List (Event 𝓝 𝓑)) → datagrams (es ++ more) ≡ datagrams es ++ datagrams more
  datagrams-append [] more = refl
  datagrams-append (datagram b a ∷ es) more = ap (◌∷◌ b) (datagrams-append es more)
  datagrams-append (told id e ∷ es) more = datagrams-append es more
  datagrams-append (removed id c ∷ es) more = datagrams-append es more
  datagrams-append (close_listener ∷ es) more = datagrams-append es more
  datagrams-append (close_socket ∷ es) more = datagrams-append es more

  -- The two counters of what is sent have counted the datagrams.
  abbrev pub HasCounted : Relation 𝓝 𝓑
  HasCounted u out u' =
      (u'.total_udp_packet_sent ≡ u.total_udp_packet_sent + length (datagrams out))
      × (u'.total_bytes_written ≡ u.total_bytes_written + total_length (datagrams out))

  counted-chain :
      (u u' u'' : Utp 𝓝 𝓑) (out more : List (Event 𝓝 𝓑))
      → HasCounted u out u'
      → HasCounted u' more u''
      → HasCounted u (out ++ more) u''
  counted-chain u u' u'' out more (p, q) (p', q') = rw (datagrams-append out more) (
    omega (arith, length-append (datagrams out) (datagrams more), p, p'),
    omega (arith, total_length-append (datagrams out) (datagrams more), q, q'),
  )

  counted-sends :
      (u : Utp 𝓝 𝓑) (p : Packet) (a : Addr)
      → HasCounted u (send_packet 𝓝 𝓑 u p a).1 (send_packet 𝓝 𝓑 u p a).0
  unfolding send_packet
  counted-sends u p a = elim (Bool-cases (is_closed 𝓝 𝓑 u)) [
    | inl y ↦ rw y (omega arith, omega arith)
    | inr n ↦ rw n (omega arith, omega arith)
  ]

  counted : HoldsOfSocket 𝓝 𝓑 HasCounted
  counted = record {
    parts = record {
      stays = λ u. (omega arith, omega arith);
      chain = counted-chain;
      sets_table = λ u m. (omega arith, omega arith);
      sends = counted-sends;
      tells = λ u id e. (omega arith, omega arith);
      removes = λ u id c. (omega arith, omega arith);
      counts_packet = λ u n. (omega arith, omega arith);
      counts_datagram = λ u n k. (omega arith, omega arith);
    };
    starts_closing = λ u e. (omega arith, omega arith);
    ends = λ u. (omega arith, omega arith);
  }

  -- A socket that is closed stays closed, and nothing is sent.
  abbrev pub IsMute : Relation 𝓝 𝓑
  IsMute u out u' = is_closed 𝓝 𝓑 u ≡ true → (is_closed 𝓝 𝓑 u' ≡ true) × (datagrams out ≡ [])

  mute-chain :
      (u u' u'' : Utp 𝓝 𝓑) (out more : List (Event 𝓝 𝓑))
      → IsMute u out u'
      → IsMute u' more u''
      → IsMute u (out ++ more) u''
  mute-chain u u' u'' out more p q closed =
      let (still, quiet) = p closed in
      let (at_last, after) = q still in (at_last, rw (datagrams-append out more, quiet) after)

  mute-sends :
      (u : Utp 𝓝 𝓑) (p : Packet) (a : Addr)
      → IsMute u (send_packet 𝓝 𝓑 u p a).1 (send_packet 𝓝 𝓑 u p a).0
  unfolding send_packet
  mute-sends u p a closed = rw closed (closed, refl)

  mute : HoldsOfSocket 𝓝 𝓑 IsMute
  unfolding is_closed
  mute = record {
    parts = record {
      stays = λ u y. (y, refl);
      chain = mute-chain;
      sets_table = λ u m y. (y, refl);
      sends = mute-sends;
      tells = λ u id e y. (y, refl);
      removes = λ u id c y. (y, refl);
      counts_packet = λ u n y. (y, refl);
      counts_datagram = λ u n k y. (y, refl);
    };
    starts_closing =
        λ u e y. absurd (false≢true (ap (λ t. is_closed 𝓝 𝓑 (record u { state = t })) (sym e) ∙ y));
    ends = λ u y. (refl, refl);
  }

  -- Over any calls of a socket (`connect`, `listen`, `close` with its interval, the datagrams that arrive, the timer of
  -- `timeoutCheck`), `totalUdpPacketSent` grows by the number of the datagrams that are sent, and `totalBytesWritten`
  -- by the sum of their lengths.
  pub run-HasCounted :
      (calls : List Call) (s : Service 𝓝 𝓑)
      → let (s', out) = run 𝓝 𝓑 s calls in
        (s'.utp.total_udp_packet_sent
          ≡ s.utp.total_udp_packet_sent + length (datagrams (events 𝓝 𝓑 out)))
        × (s'.utp.total_bytes_written
            ≡ s.utp.total_bytes_written + total_length (datagrams (events 𝓝 𝓑 out)))
  run-HasCounted calls s = run-Holds 𝓝 𝓑 HasCounted counted calls s

  -- A socket that is closed stays closed, whatever calls are made, and sends no datagram: neither for a `connect` that
  -- comes later, nor for a connection that is left.
  pub run_silent :
      (calls : List Call) (s : Service 𝓝 𝓑)
      → is_closed 𝓝 𝓑 s.utp ≡ true
      → let (s', out) = run 𝓝 𝓑 s calls in
        (is_closed 𝓝 𝓑 s'.utp ≡ true) × (datagrams (events 𝓝 𝓑 out) ≡ [])
  run_silent calls s closed = run-Holds 𝓝 𝓑 IsMute mute calls s closed
