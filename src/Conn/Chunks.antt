-- ===== src/Conn/Chunks.antt =====
-- src/utp_conn.ts: what `write` puts on the wire.
use utp.Base.{
  ℕ, zero, suc, ◌<◌, ◌≤◌, ◌≡◌, refl, Bool, true, false, not, if◌then◌else◌, ◌&&◌, ◌||◌, List, [],
  ◌∷◌, ◌++◌, ◌==◌, length, take, drop, arith, Bool-cases, inl, inr, ap, subst, ◌∙◌, append_assoc,
  take-append-drop, length-take, length-drop,
}
use utp.Base.Number.{JsNumber}
use utp.Addr.{Addr}
use utp.Packet.RoundTrip.{length-to_bytes}
use utp.Packet.{Packet, payload_bytes, packet_length, sum_payloads, st_data, st_fin}
use utp.BlockingBuffer.{ByteBuffer}
use utp.SendWindow.{SendWindow, Entry, default_mtu, resumed, wait_for_ack}
use utp.Conn.{
  Conn, Clock, Effect, Run, SendOutcome, sent, waits, throws, sent_data, transmit, go_on,
  resolve_read, remove_conn, release_statistic, received_data, state_changed, window_effects,
  is_closed, is_connected, send_utp_packet,
}
use utp.Conn.Create.{create_data_packet, stamped}
use utp.Conn.Outgoing.{
  Progress, done, suspended, threw, failed, cut, answer, is_whole, chunk_size, after_send,
  write_from, write,
}

-- the packets that a call transmits, in order
abbrev pub transmitted : List Effect → List Packet
transmitted [] = []
transmitted (transmit p a ∷ es) = p ∷ transmitted es
transmitted (go_on k e ∷ es) = transmitted es
transmitted (resolve_read r ∷ es) = transmitted es
transmitted (remove_conn ∷ es) = transmitted es
transmitted (release_statistic ∷ es) = transmitted es
transmitted (received_data n ∷ es) = transmitted es
transmitted (sent_data n ∷ es) = transmitted es
transmitted (state_changed s t ∷ es) = transmitted es

-- whether the socket is open and its UDP socket sends the whole packet
abbrev pub is_taken : Bool → (Packet → ℕ) → Packet → Bool
is_taken is_shut udp p = not is_shut && udp p == packet_length p

-- those of the packets that leave the socket whole
abbrev pub taken : Bool → (Packet → ℕ) → List Packet → List Packet
taken is_shut udp [] = []
taken is_shut udp (p ∷ ps) =
    let rest = taken is_shut udp ps in if is_taken is_shut udp p then p ∷ rest else rest

abbrev pub payloads : List Packet → List ℕ
payloads [] = []
payloads (p ∷ ps) = payload_bytes p.payload ++ payloads ps

-- the bytes that a `write` has not sent
abbrev pub left : Progress → List ℕ
left done = []
left (suspended p rest) = payload_bytes p.payload ++ rest
left (threw p rest) = payload_bytes p.payload ++ rest
left (failed p rest) = payload_bytes p.payload ++ rest
left (cut bytes) = bytes

abbrev pub is_cut : Progress → Bool
is_cut done = false
is_cut (suspended p rest) = false
is_cut (threw p rest) = false
is_cut (failed p rest) = false
is_cut (cut bytes) = true

-- Every packet of a list fits into a datagram of the default size.
pub data AllFit : List Packet → Type 0 where
  none_left : AllFit []
  one_more :
      {p : Packet} {ps : List Packet} → packet_length p ≤ default_mtu → AllFit ps → AllFit (p ∷ ps)

-- The two assertions on what is sent hold for just those packets.
is_whole_lem :
    (is_shut : Bool) (udp : Packet → ℕ) (p : Packet)
    → is_whole is_shut udp p ≡ is_taken is_shut udp p
unfolding is_whole answer packet_length
is_whole_lem true udp p = ground arith
is_whole_lem false udp p = ground (arith, length-to_bytes p)

transmitted-append :
    (es fs : List Effect) → transmitted (es ++ fs) ≡ transmitted es ++ transmitted fs
transmitted-append [] fs = refl
transmitted-append (transmit p a ∷ es) fs = ap (λ t. p ∷ t) (transmitted-append es fs)
transmitted-append (go_on k e ∷ es) fs = transmitted-append es fs
transmitted-append (resolve_read r ∷ es) fs = transmitted-append es fs
transmitted-append (remove_conn ∷ es) fs = transmitted-append es fs
transmitted-append (release_statistic ∷ es) fs = transmitted-append es fs
transmitted-append (received_data n ∷ es) fs = transmitted-append es fs
transmitted-append (sent_data n ∷ es) fs = transmitted-append es fs
transmitted-append (state_changed s t ∷ es) fs = transmitted-append es fs

transmitted-resumed : (ws : List (ℕ × Entry)) → transmitted (window_effects (resumed ws)) ≡ []
transmitted-resumed [] = refl
transmitted-resumed ((k, e) ∷ ws) = transmitted-resumed ws

-- What one call of `sendUtpPacket` transmits.
abbrev sent_packets : SendOutcome → Packet → List Packet
sent_packets sent p = p ∷ []
sent_packets waits p = []
sent_packets throws p = []

module _ (𝓝 : JsNumber) (𝓑 : ByteBuffer) where
  wait_for_ack-transmitted :
      (w : SendWindow 𝓝) (now : ℕ) (p : Packet) (a : Addr)
      → transmitted (window_effects (wait_for_ack 𝓝 w now p a).0.1) ≡ []
  unfolding wait_for_ack
  wait_for_ack-transmitted w now p a = search transmitted-resumed

  send_utp_packet-transmitted :
      (c : Conn 𝓝 𝓑) (clock : Clock) (p : Packet)
      → transmitted (send_utp_packet 𝓝 𝓑 c clock p).0.1
        ≡ sent_packets (send_utp_packet 𝓝 𝓑 c clock p).1 p
  unfolding send_utp_packet
  send_utp_packet-transmitted c clock p = elim (Bool-cases (is_closed 𝓝 𝓑 c)) [
    | inl shut ↦ rw shut
    | inr open_ ↦
        rw open_
          (elim (Bool-cases (is_connected 𝓝 𝓑 c && (p.type == st_data || p.type == st_fin))) [
            | inr free ↦ rw free
            | inl bound ↦
                rw bound
                  (elim (Bool-cases (wait_for_ack 𝓝 c.send_window clock.date p c.remote_addr).1) [
                    | inl room ↦ rw (room, transmitted-append, wait_for_ack-transmitted)
                    | inr full ↦ rw (full, wait_for_ack-transmitted)
                  ])
          ])
  ]

module _ (𝓝 : JsNumber) (𝓑 : ByteBuffer) (is_shut : Bool) (udp : Packet → ℕ) where
  -- What a round of the loop and the rounds behind it keep together.
  record Sends (r : Run 𝓝 𝓑 × Progress) (bytes : List ℕ) : Type 0 where
    all : payloads (taken is_shut udp (transmitted r.0.1)) ++ left r.1 ≡ bytes
    fuelled : is_cut r.1 ≡ false
    fits : AllFit (transmitted r.0.1)

  after_send-Sends :
      (p : Packet) (rest : List ℕ) (r : Run 𝓝 𝓑) (o : SendOutcome) (later : Run 𝓝 𝓑 × Progress)
      → transmitted r.1 ≡ sent_packets o p
      → packet_length p ≤ default_mtu
      → Sends later rest
      → Sends (after_send 𝓝 𝓑 is_shut udp p rest r o later) (payload_bytes p.payload ++ rest)
  unfolding after_send
  after_send-Sends p rest (c, out) sent ((c', more), progress) e small s =
      elim (Bool-cases (is_taken is_shut udp p)) [
        | inl whole ↦
            rw (is_whole_lem is_shut udp p, whole)
              (record {
                all =
                    rw (transmitted-append, e, whole)
                      (append_assoc (payload_bytes p.payload)
                          (payloads (taken is_shut udp (transmitted more))) (left progress)
                        ∙ ap (λ t. payload_bytes p.payload ++ t) s.all);
                fuelled = s.fuelled;
                fits = rw (transmitted-append, e) (one_more small s.fits);
              })
        | inr short ↦
            rw (is_whole_lem is_shut udp p, short)
              (record {
                all = rw (e, short) refl;
                fuelled = refl;
                fits = rw e (one_more small none_left);
              })
      ]
  after_send-Sends p rest (c, out) waits later e small s = record {
    all = rw e;
    fuelled = refl;
    fits = rw e none_left;
  }
  after_send-Sends p rest (c, out) throws later e small s = record {
    all = rw e;
    fuelled = refl;
    fits = rw e none_left;
  }

  data_packet-fits :
      (c : Conn 𝓝 𝓑) (clock : Clock) (bytes : List ℕ)
      → length bytes ≤ chunk_size
      → packet_length (create_data_packet 𝓝 𝓑 c clock bytes).0 ≤ default_mtu
  unfolding create_data_packet stamped packet_length sum_payloads payload_bytes
  data_packet-fits c clock bytes h = omega (arith, h)

  payload-create_data_packet :
      (c : Conn 𝓝 𝓑) (clock : Clock) (bytes : List ℕ)
      → payload_bytes (create_data_packet 𝓝 𝓑 c clock bytes).0.payload ≡ bytes
  unfolding create_data_packet payload_bytes
  payload-create_data_packet c clock bytes = refl

  write_from-Sends :
      (fuel : ℕ) (c : Conn 𝓝 𝓑) (clock : Clock) (bytes : List ℕ)
      → length bytes < fuel
      → Sends (write_from 𝓝 𝓑 is_shut udp fuel c clock bytes) bytes
  unfolding write_from
  write_from-Sends zero c clock bytes h = elim h [ ]
  write_from-Sends (suc fuel) c clock [] h = record { all = refl; fuelled = refl; fits = none_left }
  write_from-Sends (suc fuel) c clock (b ∷ bs) h =
      let chunk = take chunk_size (b ∷ bs) in
      let rest = drop chunk_size (b ∷ bs) in
      subst (Sends _)
        (ap (λ t. t ++ rest) (payload-create_data_packet c clock chunk)
          ∙ take-append-drop chunk_size (b ∷ bs))
        (after_send-Sends _ rest _ _ _ (send_utp_packet-transmitted 𝓝 𝓑 _ clock _)
          (data_packet-fits c clock chunk (omega (arith, length-take chunk_size (b ∷ bs))))
          (write_from-Sends fuel _ clock rest (omega (arith, length-drop chunk_size (b ∷ bs), h))))

  -- Whatever the socket answers, a `write` comes to its end, waits or throws with fuel to spare, and loses, adds and
  -- reorders no byte: the payloads of the packets that it passes to the socket and that an open socket sends whole, in
  -- order, followed by the bytes that it still has, are the bytes that it was called with. No packet that it passes on is larger than the default MTU.
  pub write-Sends :
      (c : Conn 𝓝 𝓑) (clock : Clock) (bytes : List ℕ)
      → (payloads (taken is_shut udp (transmitted (write 𝓝 𝓑 is_shut udp c clock bytes).0.1))
            ++ left (write 𝓝 𝓑 is_shut udp c clock bytes).1
          ≡ bytes)
        × (is_cut (write 𝓝 𝓑 is_shut udp c clock bytes).1 ≡ false)
        × AllFit (transmitted (write 𝓝 𝓑 is_shut udp c clock bytes).0.1)
  unfolding write
  write-Sends c clock bytes =
      let s = write_from-Sends (suc (length bytes)) c clock bytes (omega arith) in
      (s.all, s.fuelled, s.fits)
