-- ===== src/Conn/Moves.antt =====
-- src/utp_conn.ts, the body of the loop of `processReceivedPackets`: what becomes of one packet.
use utp.Base.{
  ℕ, ◌%◌, ◌≡◌, refl, ◌∙◌, sym, ap, true, false, List, [], ◌∷◌, ◌++◌, map, Option, none, some, ◌==◌,
  if◌then◌else◌, Bool-cases, Option-cases, inl, inr, append_assoc, append-nil, length,
}
use utp.Base.Number.{JsNumber}
use utp.Base.Map.{nat_key}
use utp.Seq.{ℤ, add, seq_mod}
use utp.CircularQueue
use utp.CircularQueue.{CircularQueue}
use utp.CircularQueue.Contents.{lookup, lookup-dequeue_by_key}
use utp.CircularQueue.Invariant
use utp.CircularQueue.Invariant.{dequeue_by_key-IsValid}
use utp.Packet.{Packet, payload_bytes, st_data}
use utp.BlockingBuffer
use utp.BlockingBuffer.{ByteBuffer, Resolved}
use utp.BlockingBuffer.Fifo.{delivered, bytes_of, held, write_lem}
use utp.Conn.{
  Conn, Effect, Run, transmit, go_on, resolve_read, remove_conn, release_statistic, received_data,
  sent_data, state_changed, set_ack_nr,
}
use utp.Conn.Incoming.{write_received, deliver, process_one}

-- the bytes that reads are resolved with, in order
abbrev pub arrivals : List Effect → List ℕ
arrivals [] = []
arrivals (resolve_read r ∷ es) = bytes_of r.bytes ++ arrivals es
arrivals (transmit p a ∷ es) = arrivals es
arrivals (go_on k e ∷ es) = arrivals es
arrivals (remove_conn ∷ es) = arrivals es
arrivals (release_statistic ∷ es) = arrivals es
arrivals (received_data n ∷ es) = arrivals es
arrivals (sent_data n ∷ es) = arrivals es
arrivals (state_changed s t ∷ es) = arrivals es

pub arrivals-append : (es fs : List Effect) → arrivals (es ++ fs) ≡ arrivals es ++ arrivals fs
arrivals-append [] fs = refl
arrivals-append (resolve_read r ∷ es) fs =
    rw (arrivals-append es fs) (sym (append_assoc (bytes_of r.bytes) (arrivals es) (arrivals fs)))
arrivals-append (transmit p a ∷ es) fs = arrivals-append es fs
arrivals-append (go_on k e ∷ es) fs = arrivals-append es fs
arrivals-append (remove_conn ∷ es) fs = arrivals-append es fs
arrivals-append (release_statistic ∷ es) fs = arrivals-append es fs
arrivals-append (received_data n ∷ es) fs = arrivals-append es fs
arrivals-append (sent_data n ∷ es) fs = arrivals-append es fs
arrivals-append (state_changed s t ∷ es) fs = arrivals-append es fs

pub arrivals-resolved : (rs : List Resolved) → arrivals (map resolve_read rs) ≡ delivered rs
arrivals-resolved [] = refl
arrivals-resolved (r ∷ rs) = ap (λ t. bytes_of r.bytes ++ t) (arrivals-resolved rs)

-- the data that a place of the queue holds
abbrev pub data_of : Option Packet → List ℕ
data_of none = []
data_of (some p) = if p.type == st_data then payload_bytes p.payload else []

module _ (𝓝 : JsNumber) (𝓑 : ByteBuffer) where
  -- The queue and the number of a run, and the bytes that it moves on.
  abbrev pub Moves : Conn 𝓝 𝓑 → Run 𝓝 𝓑 → List ℕ → Type 0
  Moves c r bytes = arrivals r.1 ++ held 𝓑 r.0.recv_buffer ≡ held 𝓑 c.recv_buffer ++ bytes

  write_received_lem : (c : Conn 𝓝 𝓑) (bytes : List ℕ) → Moves c (write_received 𝓝 𝓑 c bytes) bytes
  unfolding write_received
  write_received_lem c bytes =
      let done : List Resolved = (BlockingBuffer.write 𝓑 c.recv_buffer bytes).1 in
      ap (λ t. t ++ held 𝓑 (BlockingBuffer.write 𝓑 c.recv_buffer bytes).0.1)
        (arrivals-append (map resolve_read done) (received_data (length bytes) ∷ [])
          ∙ append-nil (arrivals (map resolve_read done))
          ∙ arrivals-resolved done)
      ∙ write_lem 𝓑 c.recv_buffer bytes

  pub nothing-Moves : (c : Conn 𝓝 𝓑) → Moves c (c, []) []
  nothing-Moves c = sym (append-nil (held 𝓑 c.recv_buffer))

  deliver_lem :
      (c : Conn 𝓝 𝓑) (p : Packet)
      → Moves c (deliver 𝓝 𝓑 c p) (data_of (some p))
        × ((deliver 𝓝 𝓑 c p).0.recv_packet_queue ≡ c.recv_packet_queue)
        × ((deliver 𝓝 𝓑 c p).0.local_ack_nr ≡ c.local_ack_nr)
  unfolding deliver write_received payload_bytes
  deliver_lem c p = elim (Option-cases p.payload) [
    | inl e ↦ elim (Bool-cases (p.type == st_data)) [
      | inl y ↦ rw (e, y) (nothing-Moves c, refl, refl)
      | inr n ↦ rw (e, n) (nothing-Moves c, refl, refl)
    ]
    | inr (bytes, e) ↦ elim (Bool-cases (p.type == st_data)) [
      | inl y ↦ rw (e, y) (write_received_lem c bytes, refl, refl)
      | inr n ↦ rw (e, n) (nothing-Moves c, refl, refl)
    ]
  ]

  abbrev taken_out : Conn 𝓝 𝓑 → ℕ → Conn 𝓝 𝓑
  taken_out c k = record (set_ack_nr 𝓝 𝓑 c k) {
    recv_packet_queue = (CircularQueue.dequeue_by_key c.recv_packet_queue k).1;
  }

  -- A key that is the next number: the packet leaves the queue and its data moves on.
  pub hit_lem :
      (c : Conn 𝓝 𝓑) (k : ℕ)
      → (add c.local_ack_nr (ℤ.pos 1) == k) ≡ true
      → CircularQueue.Invariant.IsValid c.recv_packet_queue
      → Moves c (process_one 𝓝 𝓑 c k) (data_of (lookup c.recv_packet_queue k))
        × ((process_one 𝓝 𝓑 c k).0.recv_packet_queue
            ≡ (CircularQueue.dequeue_by_key c.recv_packet_queue k).1)
        × ((process_one 𝓝 𝓑 c k).0.local_ack_nr ≡ k % seq_mod)
  unfolding process_one set_ack_nr
  hit_lem c k e v =
      let found : (CircularQueue.dequeue_by_key c.recv_packet_queue k).0
          ≡ lookup c.recv_packet_queue k =
        (lookup-dequeue_by_key c.recv_packet_queue k k v).0 in
      elim (Option-cases (lookup c.recv_packet_queue k)) [
        | inl gone ↦ rw (e, found, gone) (nothing-Moves c, refl, refl)
        | inr (p, there) ↦ rw (e, found, there) (deliver_lem (taken_out c k) p)
      ]

  pub miss_lem :
      (c : Conn 𝓝 𝓑) (k : ℕ)
      → (add c.local_ack_nr (ℤ.pos 1) == k) ≡ false
      → process_one 𝓝 𝓑 c k ≡ (c, [])
  unfolding process_one
  miss_lem c k e = rw e
