-- ===== src/Conn/Reorder.antt =====
-- src/utp_conn.ts, `handleAtConnected` for data packets: whatever order they come in, the stream that
-- reaches the receive buffer is in order and has no gap.
use utp.Base.{
  ℕ, ◌<◌, ◌≡◌, ◌∙◌, sym, ap, subst, true, false, List, [], ◌∷◌, ◌++◌, Option, none, some, ◌==◌,
  if◌then◌else◌, arith, Bool-cases, inl, inr, append-nil,
}
use utp.Base.Map.{nat_key}
use utp.Base.Number.{JsNumber}
use utp.CircularQueue
use utp.CircularQueue.{CircularQueue}
use utp.CircularQueue.Contents.{is_key, dropped, lookup, lookup-enqueue}
use utp.CircularQueue.Invariant
use utp.CircularQueue.Invariant.{enqueue-IsValid}
use utp.Packet.{Packet, st_data, st_fin}
use utp.BlockingBuffer.{ByteBuffer}
use utp.BlockingBuffer.Fifo.{held}
use utp.Conn.{Conn, Clock, Run, ◌>>>◌}
use utp.Conn.Incoming.{process_received_packets, take_in}
use utp.Conn.Delivery.{Consecutive, last_of}
use utp.Conn.Moves.{arrivals, data_of}
use utp.Sack.{Sack}
use utp.Conn.{send_utp_packet, is_closed}
use utp.Conn.Create.{create_ack_packet, create_from_conn, stamped}
use utp.Conn.Incoming.{send_ack, acknowledge, handle_at_connected, beyond_fin}
use utp.Conn.Stream.{
  Agrees, IsGenuine, IsFed, Streams, stream_of, nothing-Streams, then-Streams, process-Streams,
}

-- Each packet carries data, that which the sender gave its number.
abbrev pub AllSent : (ℕ → List ℕ) → List (Clock × Packet) → Type 0
AllSent s [] = Unit {0}
AllSent s ((clock, p) ∷ ps) =
    ((p.type == st_data) ≡ true) × (data_of (some p) ≡ s p.seq_nr) × AllSent s ps

module _ (𝓝 : JsNumber) (𝓑 : ByteBuffer) where
  abbrev pub Streamed : (ℕ → List ℕ) → Conn 𝓝 𝓑 → Run 𝓝 𝓑 → Type 0
  Streamed s c r = (l : List ℕ) × Streams 𝓝 𝓑 s c r l

  abbrev put_in : Conn 𝓝 𝓑 → Packet → Conn 𝓝 𝓑
  put_in c p = record c { recv_packet_queue = CircularQueue.enqueue c.recv_packet_queue p.seq_nr p }

  capacity-enqueue :
      (q : CircularQueue Packet) (k : ℕ) (p : Packet)
      → (CircularQueue.enqueue q k p).capacity ≡ q.capacity
  unfolding CircularQueue.enqueue CircularQueue.make_room CircularQueue.update_oldest_key
  capacity-enqueue q k p = ground arith

  put_in-IsFed :
      (s : ℕ → List ℕ) (c : Conn 𝓝 𝓑) (p : Packet)
      → data_of (some p) ≡ s p.seq_nr
      → IsFed 𝓝 𝓑 s c
      → IsFed 𝓝 𝓑 s (put_in c p)
  put_in-IsFed s c p e f = record {
    valid = enqueue-IsValid c.recv_packet_queue p.seq_nr p f.roomy f.valid;
    roomy = subst (λ n. 0 < n) (sym (capacity-enqueue c.recv_packet_queue p.seq_nr p)) f.roomy;
    genuine = λ k.
        subst (λ o. Agrees o (s k)) (sym (lookup-enqueue c.recv_packet_queue p.seq_nr k p f.valid))
          (new_or_old k);
  }
    where
      new_or_old :
          (k : ℕ)
          → Agrees
              (if p.seq_nr == k
                then some p
                else if is_key (dropped c.recv_packet_queue p.seq_nr) k
                then none
                else lookup c.recv_packet_queue k)
              (s k)
      new_or_old k = ground (arith, f.genuine k, ap s, e)

  take_in-Streamed :
      (s : ℕ → List ℕ) (c : Conn 𝓝 𝓑) (p : Packet)
      → data_of (some p) ≡ s p.seq_nr
      → IsFed 𝓝 𝓑 s c
      → Streamed s c (take_in 𝓝 𝓑 c p)
  unfolding take_in
  take_in-Streamed s c p e f =
      elim (Bool-cases (CircularQueue.is_at_capacity c.recv_packet_queue)) [
        | inl full ↦ rw full (second (process_received_packets 𝓝 𝓑 c) _ (process-Streams 𝓝 𝓑 s c f))
        | inr room ↦ rw room (second (c, []) _ (nothing-Streams 𝓝 𝓑 s c f))
      ]
    where
      second :
          (r : Run 𝓝 𝓑) (l : List ℕ)
          → Streams 𝓝 𝓑 s c r l
          → Streamed s c (◌>>>◌ 𝓝 𝓑 r (λ c'. process_received_packets 𝓝 𝓑 (put_in c' p)))
      second r l t =
          let u = process-Streams 𝓝 𝓑 s (put_in r.0 p) (put_in-IsFed s r.0 p e t.fed) in
          (
            _,
            then-Streams 𝓝 𝓑 s c r (process_received_packets 𝓝 𝓑 (put_in r.0 p)) l _ t (record {
              in_order = u.in_order;
              acknowledged = u.acknowledged;
              moved = u.moved;
              fed = u.fed;
            }),
          )

  arrivals-send_ack :
      (c : Conn 𝓝 𝓑) (clock : Clock) (o : Option Sack)
      → let r = (send_utp_packet 𝓝 𝓑 c clock (create_ack_packet 𝓝 𝓑 c clock o)).0 in
        (arrivals r.1 ≡ [])
        × (r.0.recv_buffer ≡ c.recv_buffer)
        × (r.0.recv_packet_queue ≡ c.recv_packet_queue)
        × (r.0.local_ack_nr ≡ c.local_ack_nr)
  unfolding send_utp_packet create_ack_packet stamped
  arrivals-send_ack c clock none = ground arith
  arrivals-send_ack c clock (some sack) = ground arith

  send_ack-Streams :
      (s : ℕ → List ℕ) (c : Conn 𝓝 𝓑) (clock : Clock)
      → IsFed 𝓝 𝓑 s c
      → Streams 𝓝 𝓑 s c (send_ack 𝓝 𝓑 c clock) []
  unfolding send_ack
  send_ack-Streams s c clock f =
      let (none_out, buffer, queue, ack) = arrivals-send_ack c clock (create_from_conn 𝓝 𝓑 c) in
      record {
        in_order = tt;
        acknowledged = ack;
        moved =
            ap (λ t. t ++ held 𝓑 (send_ack 𝓝 𝓑 c clock).0.recv_buffer) none_out
            ∙ ap (held 𝓑) buffer
            ∙ sym (append-nil (held 𝓑 c.recv_buffer));
        fed = record {
          valid = subst CircularQueue.Invariant.IsValid (sym queue) f.valid;
          roomy = subst (λ q. 0 < q.capacity) (sym queue) f.roomy;
          genuine = subst (IsGenuine s) (sym queue) f.genuine;
        };
      }

  acknowledge-Streamed :
      (s : ℕ → List ℕ) (c : Conn 𝓝 𝓑) (r : Run 𝓝 𝓑) (clock : Clock)
      → Streamed s c r
      → Streamed s c (acknowledge 𝓝 𝓑 r clock)
  unfolding acknowledge
  acknowledge-Streamed s c r clock (l, t) = elim (Bool-cases (is_closed 𝓝 𝓑 r.0)) [
    | inl shut ↦
        rw shut (l ++ [], then-Streams 𝓝 𝓑 s c r (r.0, []) l [] t (nothing-Streams 𝓝 𝓑 s r.0 t.fed))
    | inr open_ ↦ rw open_ (
      l ++ [],
      then-Streams 𝓝 𝓑 s c r (send_ack 𝓝 𝓑 r.0 clock) l [] t (send_ack-Streams s r.0 clock t.fed),
    )
  ]

  handle_at_connected-Streamed :
      (s : ℕ → List ℕ) (c : Conn 𝓝 𝓑) (clock : Clock) (p : Packet)
      → (p.type == st_data) ≡ true
      → data_of (some p) ≡ s p.seq_nr
      → IsFed 𝓝 𝓑 s c
      → Streamed s c (handle_at_connected 𝓝 𝓑 c clock p).0
  unfolding handle_at_connected
  handle_at_connected-Streamed s c clock p carries e f =
      let dropped_now : Streamed s c (c, []) = ([], nothing-Streams 𝓝 𝓑 s c f) in
      let not_fin : (p.type == st_fin) ≡ false = ground arith in
      elim (Bool-cases (is_closed 𝓝 𝓑 c)) [
        | inl shut ↦ rw shut dropped_now
        | inr open_ ↦ elim (Bool-cases (p.seq_nr == c.local_ack_nr)) [
          | inl known ↦ rw (open_, not_fin, carries, known) dropped_now
          | inr new ↦ elim (Bool-cases (beyond_fin 𝓝 𝓑 c p)) [
            | inl beyond ↦ rw (open_, not_fin, carries, new, beyond) dropped_now
            | inr before ↦
                rw (open_, not_fin, carries, new, before)
                  (acknowledge-Streamed s c (take_in 𝓝 𝓑 c p) clock (take_in-Streamed s c p e f))
          ]
        ]
      ]

  -- packets that come in one after the other, each with its clock
  abbrev pub receive_all : Conn 𝓝 𝓑 → List (Clock × Packet) → Run 𝓝 𝓑
  receive_all c [] = (c, [])
  receive_all c ((clock, p) ∷ ps) =
      ◌>>>◌ 𝓝 𝓑 (handle_at_connected 𝓝 𝓑 c clock p).0 (λ c'. receive_all c' ps)

  receive_all-Streamed :
      (s : ℕ → List ℕ) (ps : List (Clock × Packet)) (c : Conn 𝓝 𝓑)
      → AllSent s ps
      → IsFed 𝓝 𝓑 s c
      → Streamed s c (receive_all c ps)
  receive_all-Streamed s [] c a f = ([], nothing-Streams 𝓝 𝓑 s c f)
  receive_all-Streamed s ((clock, p) ∷ ps) c (carries, e, a) f =
      let (l, t) = handle_at_connected-Streamed s c clock p carries e f in
      let r = (handle_at_connected 𝓝 𝓑 c clock p).0 in
      let (m, u) = receive_all-Streamed s ps r.0 a t.fed in
      (l ++ m, then-Streams 𝓝 𝓑 s c r (receive_all r.0 ps) l m t u)

  -- Data packets come in on a connected endpoint, in any order, some of them repeatedly or never, each with
  -- the data that the sender gave its number; the queue is valid, is not of capacity 0, and holds such
  -- packets only. Then there are numbers that follow the one acknowledged without a gap, and end with the
  -- one acknowledged afterwards, such that what the pending reads are resolved with, before what the receive
  -- buffer then holds, is what it held, followed by the data of these numbers in order.
  pub receive_all_in_order :
      (s : ℕ → List ℕ) (ps : List (Clock × Packet)) (c : Conn 𝓝 𝓑)
      → AllSent s ps
      → IsFed 𝓝 𝓑 s c
      → (l : List ℕ) × Consecutive c.local_ack_nr l
        × ((receive_all c ps).0.local_ack_nr ≡ last_of c.local_ack_nr l)
        × (arrivals (receive_all c ps).1 ++ held 𝓑 (receive_all c ps).0.recv_buffer
            ≡ held 𝓑 c.recv_buffer ++ stream_of s l)
  receive_all_in_order s ps c a f =
      let (l, t) = receive_all-Streamed s ps c a f in (l, t.in_order, t.acknowledged, t.moved)
