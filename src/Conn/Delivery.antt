-- ===== src/Conn/Delivery.antt =====
-- src/utp_conn.ts, `processReceivedPackets`: what it takes out of the queue, and what reaches the
-- receive buffer and the reads that wait there.
use utp.Base.{
  ℕ, ◌+◌, ◌%◌, ◌<◌, ◌≡◌, ◌⊎◌, refl, Bool, ◌∙◌, sym, ap, true, false, List, [], ◌∷◌, ◌++◌, Option,
  none, ◌==◌, if◌then◌else◌, arith, Bool-cases, inl, inr, append_assoc, subst,
}
use utp.Base.Number.{JsNumber}
use utp.Base.Map
use utp.Base.Map.{nat_key}
use utp.Base.Sort.{contains, IsAscending}
use utp.Seq.{ℤ, add, seq_mod}
use utp.CircularQueue
use utp.CircularQueue.{CircularQueue}
use utp.CircularQueue.Contents.{lookup, lookup-dequeue_by_key, keys-IsAscending, keys_lem}
use utp.CircularQueue.Invariant
use utp.CircularQueue.Invariant.{dequeue_by_key-IsValid}
use utp.Packet.{Packet}
use utp.BlockingBuffer.{ByteBuffer}
use utp.BlockingBuffer.Fifo.{held, after}
use utp.Conn.{Conn, Run}
use utp.Conn.Incoming.{process_one, process_from, process_received_packets}
use utp.Conn.Arrival.{walk, walk_complete, AllFrom}
use utp.Conn.Moves.{arrivals, arrivals-append, data_of, Moves, nothing-Moves, hit_lem, miss_lem}

-- the data of a list of numbers, in its order
abbrev pub data_at : CircularQueue Packet → List ℕ → List ℕ
data_at q [] = []
data_at q (k ∷ ks) = data_of (lookup q k) ++ data_at q ks

-- Each number is the next one after the one before it.
abbrev pub Consecutive : ℕ → List ℕ → Type 0
Consecutive ack [] = Unit {0}
Consecutive ack (k ∷ ks) = (k ≡ add ack (ℤ.pos 1)) × Consecutive k ks

-- the last number of a chain that starts behind `ack`
abbrev pub last_of : ℕ → List ℕ → ℕ
last_of ack [] = ack
last_of ack (k ∷ ks) = last_of k ks

-- the keys that the loop stops at, in order
abbrev pub taken : ℕ → List ℕ → List ℕ
taken ack [] = []
taken ack (k ∷ ks) = if add ack (ℤ.pos 1) == k then k ∷ taken (k % seq_mod) ks else taken ack ks

taken-AllFrom : (n ack : ℕ) (ks : List ℕ) → AllFrom n ks → AllFrom n (taken ack ks)
taken-AllFrom n ack [] a = tt
taken-AllFrom n ack (k ∷ ks) a =
    ground (arith, taken-AllFrom n (k % seq_mod) ks a.1, taken-AllFrom n ack ks a.1)

-- A key below all those of a list is none of them, so they find the same without it.
data_at-without :
    (q q' : CircularQueue Packet) (k : ℕ) (l : List ℕ)
    → ((j : ℕ) → lookup q' j ≡ (if k == j then none else lookup q j))
    → AllFrom (k + 1) l
    → data_at q' l ≡ data_at q l
data_at-without q q' k [] same a = refl
data_at-without q q' k (j ∷ l) same a = ground (arith, same j, data_at-without q q' k l same a.1)

reached :
    (k ack : ℕ) → (add ack (ℤ.pos 1) == k) ≡ true → (add ack (ℤ.pos 1) ≡ k) × (k % seq_mod ≡ k)
unfolding add
reached k ack hit = ground arith

walk-last_of : (ks : List ℕ) (ack : ℕ) → walk ack ks ≡ last_of ack (taken ack ks)
unfolding walk
walk-last_of [] ack = refl
walk-last_of (k ∷ ks) ack = elim (Bool-cases (add ack (ℤ.pos 1) == k)) [
  | inl hit ↦ rw hit (
      walk-last_of ks (k % seq_mod)
      ∙ ap (λ n. last_of n (taken (k % seq_mod) ks)) (reached k ack hit).1)
  | inr miss ↦ rw miss (walk-last_of ks ack)
]

AllFrom-of_absent : (ks : List ℕ) → contains 0 ks ≡ false → AllFrom 1 ks
unfolding contains
AllFrom-of_absent [] h = tt
AllFrom-of_absent (k ∷ ks) h = ground (arith, AllFrom-of_absent ks)

module _ (𝓝 : JsNumber) (𝓑 : ByteBuffer) where
  -- What a pass over a list of keys does with the numbers `l`: they follow the number acknowledged, which
  -- ends at the last of them; their data is all that moves on; they alone leave the queue.
  pub record Delivery (c : Conn 𝓝 𝓑) (r : Run 𝓝 𝓑) (l : List ℕ) : Type 0 where
    pub in_order : Consecutive c.local_ack_nr l
    pub acknowledged : r.0.local_ack_nr ≡ last_of c.local_ack_nr l
    pub moved : Moves 𝓝 𝓑 c r (data_at c.recv_packet_queue l)
    pub left :
        (j : ℕ)
        → lookup r.0.recv_packet_queue j
          ≡ (if contains j l then none else lookup c.recv_packet_queue j)
    pub valid : CircularQueue.Invariant.IsValid r.0.recv_packet_queue

  extend :
      (c : Conn 𝓝 𝓑) (r s : Run 𝓝 𝓑) (k : ℕ) (l : List ℕ)
      → (k ≡ add c.local_ack_nr (ℤ.pos 1))
      → Moves 𝓝 𝓑 c r (data_of (lookup c.recv_packet_queue k))
      → r.0.recv_packet_queue ≡ (CircularQueue.dequeue_by_key c.recv_packet_queue k).1
      → r.0.local_ack_nr ≡ k
      → CircularQueue.Invariant.IsValid c.recv_packet_queue
      → AllFrom (k + 1) l
      → Delivery r.0 s l
      → Delivery c (s.0, r.1 ++ s.1) (k ∷ l)
  unfolding contains
  extend c r s k l next first queue ack v above d =
      let same : (j : ℕ)
          → lookup r.0.recv_packet_queue j
            ≡ (if k == j then none else lookup c.recv_packet_queue j) =
        λ j. ap (λ q. lookup q j) queue ∙ (lookup-dequeue_by_key c.recv_packet_queue k j v).1 in
      record {
        in_order = (next, subst (λ a. Consecutive a l) ack d.in_order);
        acknowledged = d.acknowledged ∙ ap (λ a. last_of a l) ack;
        moved =
            ap (λ t. t ++ held 𝓑 s.0.recv_buffer) (arrivals-append r.1 s.1)
            ∙ after (arrivals r.1) (arrivals s.1) _ _ _ (data_at r.0.recv_packet_queue l) first
                d.moved
            ∙ append_assoc (held 𝓑 c.recv_buffer) (data_of (lookup c.recv_packet_queue k))
                (data_at r.0.recv_packet_queue l)
            ∙ ap (λ t. held 𝓑 c.recv_buffer ++ (data_of (lookup c.recv_packet_queue k) ++ t))
                (data_at-without c.recv_packet_queue r.0.recv_packet_queue k l same above);
        left = λ j. ground (arith, d.left j, same j);
        valid = d.valid;
      }

  process_from-Delivery :
      (ks : List ℕ) (c : Conn 𝓝 𝓑)
      → IsAscending ks
      → CircularQueue.Invariant.IsValid c.recv_packet_queue
      → Delivery c (process_from 𝓝 𝓑 c ks) (taken c.local_ack_nr ks)
  unfolding process_from contains
  process_from-Delivery [] c a v = record {
    in_order = tt;
    acknowledged = refl;
    moved = nothing-Moves 𝓝 𝓑 c;
    left = λ j. refl;
    valid = v;
  }
  process_from-Delivery (k ∷ ks) c a v = elim (Bool-cases (add c.local_ack_nr (ℤ.pos 1) == k)) [
    | inl hit ↦
        let (moves, queue, ack) = hit_lem 𝓝 𝓑 c k hit v in
        let c' : Conn 𝓝 𝓑 = (process_one 𝓝 𝓑 c k).0 in
        let d : Delivery c' (process_from 𝓝 𝓑 c' ks) (taken c'.local_ack_nr ks) =
          process_from-Delivery ks c' a.1 (
            subst CircularQueue.Invariant.IsValid (sym queue)
              (dequeue_by_key-IsValid c.recv_packet_queue k v)) in
        rw hit (
          extend c (process_one 𝓝 𝓑 c k) (process_from 𝓝 𝓑 c' ks) k (taken (k % seq_mod) ks)
            (sym (reached k c.local_ack_nr hit).0) moves queue
            (ack ∙ (reached k c.local_ack_nr hit).1) v (taken-AllFrom (k + 1) (k % seq_mod) ks a.0)
            (subst (λ n. Delivery c' (process_from 𝓝 𝓑 c' ks) (taken n ks)) ack d))
    | inr miss ↦ rw (miss, miss_lem 𝓝 𝓑 c k miss) (process_from-Delivery ks c a.1 v)
  ]

  -- `processReceivedPackets` on a valid queue: the keys that it stops at follow, without a gap, the number
  -- acknowledged, which ends at the last of them; what pending reads are resolved with, before what
  -- the receive buffer holds in the end, is what it held, followed by the data of these packets in order;
  -- these packets and no other leave the queue, which stays valid.
  pub process_received_packets-Delivery :
      (c : Conn 𝓝 𝓑)
      → CircularQueue.Invariant.IsValid c.recv_packet_queue
      → Delivery c
          (process_received_packets 𝓝 𝓑 c)
          (taken c.local_ack_nr (CircularQueue.keys c.recv_packet_queue))
  unfolding process_received_packets
  process_received_packets-Delivery c v =
      process_from-Delivery (CircularQueue.keys c.recv_packet_queue) c
        (keys-IsAscending c.recv_packet_queue v) v

  -- The pass of `processReceivedPackets` over a valid queue goes as far as it can: if it does not begin at
  -- 65535 with 0 in the queue, and does not end at 65535, then the number after the one acknowledged at the
  -- end is not in the queue.
  pub process_received_packets_complete :
      (c : Conn 𝓝 𝓑)
      → CircularQueue.Invariant.IsValid c.recv_packet_queue
      → c.local_ack_nr < seq_mod
      → (c.local_ack_nr < 65535) ⊎ (CircularQueue.has c.recv_packet_queue 0 ≡ false)
      → (process_received_packets 𝓝 𝓑 c).0.local_ack_nr + 1 < seq_mod
      → CircularQueue.has
          (process_received_packets 𝓝 𝓑 c).0.recv_packet_queue
          ((process_received_packets 𝓝 𝓑 c).0.local_ack_nr + 1)
        ≡ false
  unfolding CircularQueue.has
  process_received_packets_complete c v small front top =
      let ks : List ℕ = CircularQueue.keys c.recv_packet_queue in
      let d = process_received_packets-Delivery c v in
      let q' : CircularQueue Packet = (process_received_packets 𝓝 𝓑 c).0.recv_packet_queue in
      let n : ℕ = (process_received_packets 𝓝 𝓑 c).0.local_ack_nr in
      let at_end : n ≡ walk c.local_ack_nr ks =
        d.acknowledged ∙ sym (walk-last_of ks c.local_ack_nr) in
      let no_key : CircularQueue.has c.recv_packet_queue (n + 1) ≡ false =
        sym (keys_lem c.recv_packet_queue (n + 1)).1
        ∙ ap (λ m. contains (m + 1) ks) at_end
        ∙ walk_complete ks c.local_ack_nr small (in_front c front)
            (keys_lem c.recv_packet_queue 0).0 (subst (λ m. m + 1 < seq_mod) at_end top) in
      has_of_lookup q' (n + 1) (
        d.left (n + 1)
        ∙ absent (contains (n + 1) (taken c.local_ack_nr ks)) _
            (Map.get-none_iff_has (n + 1) c.recv_packet_queue.items no_key))
    where
      in_front :
          (c : Conn 𝓝 𝓑)
          → (c.local_ack_nr < 65535) ⊎ (CircularQueue.has c.recv_packet_queue 0 ≡ false)
          → (c.local_ack_nr < 65535) ⊎ AllFrom 1 (CircularQueue.keys c.recv_packet_queue)
      in_front c (inl h) = inl h
      in_front c (inr h) = inr (
          AllFrom-of_absent (CircularQueue.keys c.recv_packet_queue)
            ((keys_lem c.recv_packet_queue 0).1 ∙ h))

      has_of_lookup :
          (q : CircularQueue Packet) (j : ℕ) → lookup q j ≡ none → CircularQueue.has q j ≡ false
      has_of_lookup q j h = Map.has-of_get-none j q.items h

      absent : (b : Bool) (o : Option Packet) → o ≡ none → (if b then none else o) ≡ none
      absent true o h = refl
      absent false o h = h
