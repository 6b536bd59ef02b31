-- ===== src/SendWindow/Capacity.antt =====
-- How many packets may be in flight.
use utp.Base.{
  ℕ, ◌-◌, ◌/◌, ◌≤◌, max, ◌≡◌, refl, Bool, true, List, [], ◌∷◌, leb, Bool-cases, Option-cases, inl,
  inr, arith, ◌==◌,
}
use utp.Base.Map
use utp.Base.Map.{Map, nat_key}
use utp.Base.Number.{JsNumber, num_ltb, num_max, num_min}
use utp.Addr.{Addr}
use utp.Packet.{Packet}
use utp.BlockingMap
use utp.BlockingMap.{BlockingMap, resolve_from, resolve_next_setter, update_capacity, delete, set}
use utp.Congestion.Bounds.{le-max_left}
use utp.SendWindow.{
  SendWindow, Entry, Action, below, create, window_capacity, apply_window_size, drop_packet,
  give_up, send_again, resend_one, timeout_check, wait_for_ack, sample, sack_one, ack_one, each,
  note_ack, handle_ack, reset, is_packet_acked, default_mtu, get_all_seq_nrs, sacked_seq_nrs,
  resend_times_limit,
}

module _ {C V : Type 0} (test : ℕ → C → Bool) where
  capacity-resolve_from :
      (ws : List (ℕ × V)) (m : BlockingMap C V) → (resolve_from test m ws).0.capacity ≡ m.capacity
  unfolding resolve_from
  capacity-resolve_from [] m = refl
  capacity-resolve_from ((k, v) ∷ ws) m = elim (Bool-cases (test (Map.size m.map) m.capacity)) [
    | inl room ↦ rw room (capacity-resolve_from ws _)
    | inr full ↦ rw full
  ]

  capacity-update_capacity :
      (m : BlockingMap C V) (c : C) → (update_capacity test m c).0.capacity ≡ c
  unfolding update_capacity resolve_next_setter
  capacity-update_capacity m c = capacity-resolve_from m.waiting_setters _

  capacity-delete : (m : BlockingMap C V) (k : ℕ) → (delete test m k).0.capacity ≡ m.capacity
  unfolding delete resolve_next_setter
  capacity-delete m k = elim (Bool-cases (Map.has k m.map)) [
    | inl present ↦ rw present (capacity-resolve_from m.waiting_setters _)
    | inr absent ↦ rw absent
  ]

  capacity-set : (m : BlockingMap C V) (k : ℕ) (v : V) → (set test m k v).0.0.capacity ≡ m.capacity
  unfolding set resolve_next_setter
  capacity-set m k v = elim (Bool-cases (test (Map.size m.map) m.capacity)) [
    | inl room ↦ rw room (capacity-resolve_from m.waiting_setters _)
    | inr full ↦ rw full
  ]

module _ (𝓝 : JsNumber) where
  open 𝓝 use {Num, of_ℕ, leb as num_leb, le_refl, le_trans, le_total, of_ℕ-mono}

  -- The limits of a window, and a capacity between one packet and the largest window.
  pub record IsBounded (w : SendWindow 𝓝) : Type 0 where
    pub positive : 1 ≤ w.min_window
    pub ordered : w.min_window ≤ w.max_window
    pub lower : num_leb (of_ℕ 1) w.packet_map.capacity ≡ true
    pub upper : num_leb w.packet_map.capacity (of_ℕ w.max_window) ≡ true

  min-le_left : (a b : Num) → num_leb (num_min 𝓝 a b) a ≡ true
  min-le_left a b = elim (Bool-cases (num_leb a b)) [
    | inl e ↦ rw e (le_refl a)
    | inr e ↦ rw e (le_total a b e)
  ]

  max-le :
      (a b c : Num) → num_leb a c ≡ true → num_leb b c ≡ true → num_leb (num_max 𝓝 a b) c ≡ true
  max-le a b c p q = elim (Bool-cases (num_leb a b)) [ inl e ↦ rw e q | inr e ↦ rw e p ]

  le-min :
      (a b c : Num) → num_leb c a ≡ true → num_leb c b ≡ true → num_leb c (num_min 𝓝 a b) ≡ true
  le-min a b c p q = elim (Bool-cases (num_leb a b)) [ inl e ↦ rw e p | inr e ↦ rw e q ]

  -- Where the smallest window is at least one packet and not above the largest, the capacity that
  -- `applyWindowSize` computes lies between one packet and the largest window, whatever the congestion
  -- control says and whatever window the other side announces.
  pub window_capacity_bounds :
      (w : SendWindow 𝓝)
      → 1 ≤ w.min_window
      → w.min_window ≤ w.max_window
      → (num_leb (of_ℕ 1) (window_capacity 𝓝 w) ≡ true)
        × (num_leb (window_capacity 𝓝 w) (of_ℕ w.max_window) ≡ true)
  unfolding window_capacity
  window_capacity_bounds w pos ord = elim (Option-cases w.remote_window_bytes) [
    | inl e ↦ rw e (low, high)
    | inr (bytes, e) ↦ rw e (
      le-min _ _ _ low (of_ℕ-mono 1 (max 1 (bytes / default_mtu)) (omega arith)),
      le_trans _ _ _ (min-le_left _ _) high,
    )
  ]
    where
      cc : Num
      cc =
          num_max 𝓝 (of_ℕ w.min_window)
            (num_min 𝓝 (of_ℕ w.max_window) w.congestion_control.window_size)

      low : num_leb (of_ℕ 1) cc ≡ true
      low = le_trans _ _ _ (of_ℕ-mono 1 w.min_window pos) (le-max_left 𝓝 _ _)

      high : num_leb cc (of_ℕ w.max_window) ≡ true
      high = max-le _ _ _ (of_ℕ-mono w.min_window w.max_window ord) (min-le_left _ _)

  -- A state whose limits are those of a bounded one, and whose capacity is the old one or computed anew.
  same_limits :
      (w w' : SendWindow 𝓝)
      → IsBounded w
      → w'.min_window ≡ w.min_window
      → w'.max_window ≡ w.max_window
      → w'.packet_map.capacity ≡ w.packet_map.capacity
      → IsBounded w'
  same_limits w w' b emin emax ecap = record {
    positive = omega (arith, b.positive);
    ordered = omega (arith, b.ordered);
    lower = rw ecap b.lower;
    upper = rw (ecap, emax) b.upper;
  }

  apply_window_size-IsBounded :
      (w : SendWindow 𝓝)
      → 1 ≤ w.min_window
      → w.min_window ≤ w.max_window
      → IsBounded (apply_window_size 𝓝 w).0
  unfolding apply_window_size
  apply_window_size-IsBounded w pos ord = record {
    positive = pos;
    ordered = ord;
    lower = rw capacity-update_capacity (window_capacity_bounds w pos ord).0;
    upper = rw capacity-update_capacity (window_capacity_bounds w pos ord).1;
  }

  drop_packet-IsBounded : (w : SendWindow 𝓝) (k : ℕ) → IsBounded w → IsBounded (drop_packet 𝓝 w k).0
  unfolding drop_packet
  drop_packet-IsBounded w k b =
      same_limits w _ b refl refl (capacity-delete (below 𝓝) w.packet_map k)

  sample-IsBounded :
      (w : SendWindow 𝓝) (now : ℕ) (e : Entry) → IsBounded w → IsBounded (sample 𝓝 w now e)
  unfolding sample
  sample-IsBounded w now e b = elim (Bool-cases (e.resend_times == 0)) [
    | inl once ↦ rw once (same_limits w _ b refl refl refl)
    | inr more ↦ rw more b
  ]

  each-IsBounded :
      (body : SendWindow 𝓝 → ℕ → ℕ → SendWindow 𝓝 × List Action)
      → ((w : SendWindow 𝓝) (now k : ℕ) → IsBounded w → IsBounded (body w now k).0)
      → (ks : List ℕ) (w : SendWindow 𝓝) (now : ℕ) → IsBounded w
      → IsBounded (each 𝓝 body w now ks).0
  unfolding each
  each-IsBounded body keep [] w now b = b
  each-IsBounded body keep (k ∷ ks) w now b =
      each-IsBounded body keep ks (body w now k).0 now (keep w now k b)

  give_up-IsBounded : (w : SendWindow 𝓝) (k : ℕ) → IsBounded w → IsBounded (give_up 𝓝 w k).0
  unfolding give_up
  give_up-IsBounded w k b =
      drop_packet-IsBounded _ k (apply_window_size-IsBounded _ b.positive b.ordered)

  send_again-IsBounded :
      (w : SendWindow 𝓝) (now k : ℕ) (e : Entry)
      → IsBounded w
      → IsBounded (send_again 𝓝 w now k e).0
  unfolding send_again
  send_again-IsBounded w now k e b = same_limits w _ b refl refl refl

  resend_one-IsBounded :
      (w : SendWindow 𝓝) (now k : ℕ) → IsBounded w → IsBounded (resend_one 𝓝 w now k).0
  unfolding resend_one
  resend_one-IsBounded w now k b = elim (Option-cases (BlockingMap.get w.packet_map k)) [
    | inl absent ↦ rw (absent, resend_one) b
    | inr (e, present) ↦
        rw (present, resend_one)
          (elim (Bool-cases (num_ltb 𝓝 w.rtt_tracker.rto (of_ℕ (now - e.sent_time)))) [
            | inr early ↦ rw early b
            | inl late ↦ rw late (elim (Bool-cases (leb resend_times_limit e.resend_times)) [
              | inl lost ↦ rw lost (give_up-IsBounded w k b)
              | inr again ↦ rw again (send_again-IsBounded w now k e b)
            ])
          ])
  ]

  sack_one-IsBounded :
      (w : SendWindow 𝓝) (now k : ℕ) → IsBounded w → IsBounded (sack_one 𝓝 w now k).0
  unfolding sack_one
  sack_one-IsBounded w now k b = elim (Option-cases (BlockingMap.get w.packet_map k)) [
    | inl absent ↦ rw (absent, sack_one) b
    | inr (e, present) ↦
        rw (present, sack_one)
          (same_limits _ _ (drop_packet-IsBounded _ k (sample-IsBounded w now e b)) refl refl refl)
  ]

  ack_one-IsBounded : (w : SendWindow 𝓝) (now k : ℕ) → IsBounded w → IsBounded (ack_one 𝓝 w now k).0
  unfolding ack_one
  ack_one-IsBounded w now k b = elim (Bool-cases (is_packet_acked 𝓝 w k)) [
    | inr open_ ↦ rw open_ b
    | inl acked ↦ rw acked (elim (Option-cases (BlockingMap.get w.packet_map k)) [
      | inl absent ↦ rw absent (same_limits _ _ (drop_packet-IsBounded w k b) refl refl refl)
      | inr (e, present) ↦
          rw present (
            same_limits _ _ (drop_packet-IsBounded _ k (sample-IsBounded w now e b)) refl refl refl)
    ])
  ]

  -- A new send window is within its limits.
  pub create-IsBounded : IsBounded (create 𝓝)
  unfolding create BlockingMap.create
  create-IsBounded = record {
    positive = omega arith;
    ordered = omega arith;
    lower = of_ℕ-mono 1 4 (omega arith);
    upper = of_ℕ-mono 4 64 (omega arith);
  }

  handle_ack-IsBounded :
      (w : SendWindow 𝓝) (now : ℕ) (p : Packet) → IsBounded w → IsBounded (handle_ack 𝓝 w now p).0
  unfolding handle_ack note_ack
  handle_ack-IsBounded w now p b =
      let b₁ =
        each-IsBounded (sack_one 𝓝) sack_one-IsBounded (sacked_seq_nrs 𝓝 p) (note_ack 𝓝 w p) now
          (same_limits w _ b refl refl refl) in
      let b₂ = each-IsBounded (ack_one 𝓝) ack_one-IsBounded (get_all_seq_nrs 𝓝 _) _ now b₁ in
      apply_window_size-IsBounded _ b₂.positive b₂.ordered

  -- Each of `handleAck`, `timeoutCheck`, `waitForAck` and `reset` keeps, if it held before, that the
  -- room for packets in flight lies between one packet and the largest window.
  pub operations-IsBounded :
      (w : SendWindow 𝓝) (now : ℕ) (p : Packet) (addr : Addr)
      → IsBounded w
      → IsBounded (handle_ack 𝓝 w now p).0
        × IsBounded (timeout_check 𝓝 w now).0
        × IsBounded (wait_for_ack 𝓝 w now p addr).0.0
        × IsBounded (reset 𝓝 w).0
  unfolding timeout_check wait_for_ack reset BlockingMap.clear
  operations-IsBounded w now p addr b = (
    handle_ack-IsBounded w now p b,
    each-IsBounded (resend_one 𝓝) resend_one-IsBounded (get_all_seq_nrs 𝓝 w) w now b,
    same_limits w _ b refl refl (capacity-set (below 𝓝) w.packet_map p.seq_nr _),
    record {
      positive = b.positive;
      ordered = b.ordered;
      lower = rw capacity-update_capacity (of_ℕ-mono 1 w.min_window b.positive);
      upper = rw capacity-update_capacity (of_ℕ-mono w.min_window w.max_window b.ordered);
    },
  )
