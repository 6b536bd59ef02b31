-- ===== src/Conn/Stream.antt =====
-- src/utp_conn.ts, `processReceivedPackets`: the data that it moves on, as a part of the stream that the
-- sender numbered.
use utp.Base.{
  ℕ, ◌%◌, ◌<◌, ◌≡◌, refl, ◌∙◌, sym, ap, subst, Bool, true, false, List, [], ◌∷◌, ◌++◌, Option, none,
  some, if◌then◌else◌, arith, Option-cases, inl, inr, append_assoc, append-nil,
}
use utp.Base.Map
use utp.Base.Map.{nat_key}
use utp.Base.Number.{JsNumber}
use utp.Base.Sort.{contains}
use utp.Seq.{seq_mod}
use utp.CircularQueue
use utp.CircularQueue.{CircularQueue}
use utp.CircularQueue.Contents.{lookup, keys_lem}
use utp.CircularQueue.Invariant
use utp.CircularQueue.Invariant.{enqueue-IsValid}
use utp.Packet.{Packet}
use utp.BlockingBuffer.{ByteBuffer}
use utp.BlockingBuffer.Fifo.{held, after}
use utp.Conn.{Conn, Run, set_ack_nr}
use utp.Conn.Incoming.{deliver, write_received, process_one, process_from, process_received_packets}
use utp.Conn.Delivery.{data_at, Consecutive, last_of, taken, process_received_packets-Delivery}
use utp.Conn.Moves.{arrivals, arrivals-append, data_of, Moves}

-- the data of a list of numbers, by what the sender gave each of them
abbrev pub stream_of : (ℕ → List ℕ) → List ℕ → List ℕ
stream_of s [] = []
stream_of s (k ∷ ks) = s k ++ stream_of s ks

stream_of-append :
    (s : ℕ → List ℕ) (ks ms : List ℕ) → stream_of s (ks ++ ms) ≡ stream_of s ks ++ stream_of s ms
stream_of-append s [] ms = refl
stream_of-append s (k ∷ ks) ms =
    ap (λ t. s k ++ t) (stream_of-append s ks ms)
    ∙ sym (append_assoc (s k) (stream_of s ks) (stream_of s ms))

Consecutive-append :
    (ack : ℕ) (ks ms : List ℕ)
    → Consecutive ack ks
    → Consecutive (last_of ack ks) ms
    → Consecutive ack (ks ++ ms)
Consecutive-append ack [] ms c d = d
Consecutive-append ack (k ∷ ks) ms c d = (c.0, Consecutive-append k ks ms c.1 d)

last_of-append : (ack : ℕ) (ks ms : List ℕ) → last_of ack (ks ++ ms) ≡ last_of (last_of ack ks) ms
last_of-append ack [] ms = refl
last_of-append ack (k ∷ ks) ms = last_of-append k ks ms

-- Each packet of the queue holds what the sender gave its number.
abbrev pub Agrees : Option Packet → List ℕ → Type 0
Agrees none d = Unit {0}
Agrees (some p) d = data_of (some p) ≡ d

abbrev pub IsGenuine : (ℕ → List ℕ) → CircularQueue Packet → Type 0
IsGenuine s q = (k : ℕ) → Agrees (lookup q k) (s k)

abbrev AllHeld : CircularQueue Packet → List ℕ → Type 0
AllHeld q [] = Unit {0}
AllHeld q (k ∷ ks) = (CircularQueue.has q k ≡ true) × AllHeld q ks

AllHeld-of_contained :
    (q : CircularQueue Packet) (ks : List ℕ)
    → ((k : ℕ) → contains k ks ≡ true → CircularQueue.has q k ≡ true)
    → AllHeld q ks
unfolding contains
AllHeld-of_contained q [] h = tt
AllHeld-of_contained q (k ∷ ks) h =
    (h k (ground arith), AllHeld-of_contained q ks (λ j c. h j (ground (arith, c))))

AllHeld-taken :
    (q : CircularQueue Packet) (ack : ℕ) (ks : List ℕ) → AllHeld q ks → AllHeld q (taken ack ks)
AllHeld-taken q ack [] a = tt
AllHeld-taken q ack (k ∷ ks) a =
    ground (arith, AllHeld-taken q (k % seq_mod) ks a.1, AllHeld-taken q ack ks a.1)

lookup-of_has :
    (q : CircularQueue Packet) (k : ℕ)
    → CircularQueue.has q k ≡ true
    → (p : Packet) × (lookup q k ≡ some p)
unfolding CircularQueue.has
lookup-of_has q k h = elim (Option-cases (lookup q k)) [
  | inl gone ↦ absurd (ground (arith, Map.has-of_get-none k q.items gone, h))
  | inr found ↦ found
]

data_at-genuine :
    (s : ℕ → List ℕ) (q : CircularQueue Packet) (l : List ℕ)
    → IsGenuine s q
    → AllHeld q l
    → data_at q l ≡ stream_of s l
data_at-genuine s q [] g a = refl
data_at-genuine s q (k ∷ l) g a =
    let (p, found) = lookup-of_has q k a.0 in
    ap (λ t. t ++ data_at q l) (ap data_of found ∙ subst (λ o. Agrees o (s k)) found (g k))
    ∙ ap (λ t. s k ++ t) (data_at-genuine s q l g a.1)

module _ (𝓝 : JsNumber) (𝓑 : ByteBuffer) where
  -- What holds between the packets: the queue is valid, has room for a packet, and is genuine.
  pub record IsFed (s : ℕ → List ℕ) (c : Conn 𝓝 𝓑) : Type 0 where
    pub valid : CircularQueue.Invariant.IsValid c.recv_packet_queue
    pub roomy : 0 < c.recv_packet_queue.capacity
    pub genuine : IsGenuine s c.recv_packet_queue

  -- A run that moves on the data of the numbers `l`, which follow the one acknowledged.
  pub record Streams (s : ℕ → List ℕ) (c : Conn 𝓝 𝓑) (r : Run 𝓝 𝓑) (l : List ℕ) : Type 0 where
    pub in_order : Consecutive c.local_ack_nr l
    pub acknowledged : r.0.local_ack_nr ≡ last_of c.local_ack_nr l
    pub moved : Moves 𝓝 𝓑 c r (stream_of s l)
    pub fed : IsFed s r.0

  pub nothing-Streams : (s : ℕ → List ℕ) (c : Conn 𝓝 𝓑) → IsFed s c → Streams s c (c, []) []
  nothing-Streams s c f = record {
    in_order = tt;
    acknowledged = refl;
    moved = sym (append-nil (held 𝓑 c.recv_buffer));
    fed = f;
  }

  pub then-Streams :
      (s : ℕ → List ℕ) (c : Conn 𝓝 𝓑) (r r' : Run 𝓝 𝓑) (l m : List ℕ)
      → Streams s c r l
      → Streams s r.0 r' m
      → Streams s c (r'.0, r.1 ++ r'.1) (l ++ m)
  then-Streams s c r r' l m first next = record {
    in_order =
        Consecutive-append c.local_ack_nr l m first.in_order
          (subst (λ a. Consecutive a m) first.acknowledged next.in_order);
    acknowledged =
        next.acknowledged
        ∙ ap (λ a. last_of a m) first.acknowledged
        ∙ sym (last_of-append c.local_ack_nr l m);
    moved =
        ap (λ t. t ++ held 𝓑 r'.0.recv_buffer) (arrivals-append r.1 r'.1)
        ∙ after (arrivals r.1) (arrivals r'.1) _ _ _ (stream_of s m) first.moved next.moved
        ∙ append_assoc (held 𝓑 c.recv_buffer) (stream_of s l) (stream_of s m)
        ∙ ap (λ t. held 𝓑 c.recv_buffer ++ t) (sym (stream_of-append s l m));
    fed = next.fed;
  }

  capacity-process_one :
      (c : Conn 𝓝 𝓑) (k : ℕ)
      → (process_one 𝓝 𝓑 c k).0.recv_packet_queue.capacity ≡ c.recv_packet_queue.capacity
  unfolding process_one deliver write_received set_ack_nr CircularQueue.dequeue_by_key
      CircularQueue.update_oldest_key
  capacity-process_one c k = ground arith

  capacity-process_from :
      (ks : List ℕ) (c : Conn 𝓝 𝓑)
      → (process_from 𝓝 𝓑 c ks).0.recv_packet_queue.capacity ≡ c.recv_packet_queue.capacity
  unfolding process_from
  capacity-process_from [] c = refl
  capacity-process_from (k ∷ ks) c =
      capacity-process_from ks (process_one 𝓝 𝓑 c k).0 ∙ capacity-process_one c k

  pub process-Streams :
      (s : ℕ → List ℕ) (c : Conn 𝓝 𝓑)
      → IsFed s c
      → Streams s c
          (process_received_packets 𝓝 𝓑 c)
          (taken c.local_ack_nr (CircularQueue.keys c.recv_packet_queue))
  unfolding process_received_packets
  process-Streams s c f =
      let d = process_received_packets-Delivery 𝓝 𝓑 c f.valid in
      let ks : List ℕ = CircularQueue.keys c.recv_packet_queue in
      let all : AllHeld c.recv_packet_queue ks =
        AllHeld-of_contained c.recv_packet_queue ks
          (λ k h. sym (keys_lem c.recv_packet_queue k).1 ∙ h) in
      record {
        in_order = d.in_order;
        acknowledged = d.acknowledged;
        moved =
            d.moved
            ∙ ap (λ t. held 𝓑 c.recv_buffer ++ t)
                (data_at-genuine s c.recv_packet_queue (taken c.local_ack_nr ks) f.genuine
                  (AllHeld-taken c.recv_packet_queue c.local_ack_nr ks all));
        fed = record {
          valid = d.valid;
          roomy = subst (λ n. 0 < n) (sym (capacity-process_from ks c)) f.roomy;
          genuine = λ k.
              subst (λ o. Agrees o (s k)) (sym (d.left k))
                (if_absent (contains k (taken c.local_ack_nr ks)) _ (s k) (f.genuine k));
        };
      }
    where
      if_absent :
          (b : Bool) (o : Option Packet) (bytes : List ℕ)
          → Agrees o bytes
          → Agrees (if b then none else o) bytes
      if_absent true o bytes a = tt
      if_absent false o bytes a = a
