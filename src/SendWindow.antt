-- ===== src/SendWindow.antt =====
-- src/utp_send_window.ts: the packets that wait for an acknowledgement. The clock is an argument.
-- An operation returns, beside the new state, what it sets off, in order: the packets that it sends
-- again, and the `waitForAck` calls that found room and go on.
pub mod Rounds
pub mod Ack
pub mod Capacity
use utp.Base.{
  ℕ, suc, ◌+◌, ◌-◌, ◌/◌, ◌≤◌, max, Bool, true, false, not, List, [], ◌∷◌, ◌++◌, map, Option, none,
  some, leb, ltb, ◌==◌, if◌then◌else◌,
}
use utp.Base.Map
use utp.Base.Map.{Map, nat_key}
use utp.Base.Number.{JsNumber, num_ltb, num_max, num_min}
use utp.Addr.{Addr}
use utp.Seq
use utp.Sack.{Sack, received}
use utp.Packet.{Packet, Extension, sack, bits}
use utp.BlockingMap
use utp.BlockingMap.{BlockingMap}
use utp.Congestion
use utp.Congestion.{Congestion}
use utp.Rtt
use utp.Rtt.{Rtt}

abbrev pub resend_times_limit : ℕ
resend_times_limit = 3

abbrev pub max_window_size : ℕ
max_window_size = 64

abbrev pub min_window_size : ℕ
min_window_size = 4

-- `Utp.DEFAULT_MTU`, which `getMaxPacketSize` returns
abbrev pub default_mtu : ℕ
default_mtu = 1400

-- `UtpPacketWithExtraInfo`
pub record Entry : Type 0 where
  pub packet : Packet
  pub resend_times : ℕ
  pub ack_count : ℕ
  pub sent_time : ℕ
  pub remote_addr : Addr

pub data Action : Type 0 where
  send : Packet → Addr → Action
  resume : ℕ → Entry → Action

-- `ackPacket.sackExtension`: the first extension of that type
unfoldable pub sack_extension : List Extension → Option Sack
sack_extension [] = none
sack_extension (sack s ∷ es) = some s
sack_extension (bits b ∷ es) = sack_extension es

abbrev pub resumed : List (ℕ × Entry) → List Action
resumed [] = []
resumed ((k, e) ∷ ws) = resume k e ∷ resumed ws

module _ (𝓝 : JsNumber) where
  open 𝓝 use {Num, of_ℕ}

  pub record SendWindow : Type 0 where
    pub packet_map : BlockingMap Num Entry
    pub ack_counter : Map ℕ ℕ
    pub max_window : ℕ
    pub min_window : ℕ
    pub latest_seq : Option ℕ
    pub congestion_control : Congestion 𝓝
    pub rtt_tracker : Rtt 𝓝
    pub total_acked_packets : ℕ
    pub remote_window_bytes : Option ℕ

  -- `this.#map.size < this.#capacity`
  abbrev pub below : ℕ → Num → Bool
  below n capacity = num_ltb 𝓝 (of_ℕ n) capacity

  unfoldable pub create : SendWindow
  create = record {
    packet_map = BlockingMap.create (of_ℕ min_window_size);
    ack_counter = [];
    max_window = max_window_size;
    min_window = min_window_size;
    latest_seq = none;
    congestion_control = Congestion.create 𝓝 (of_ℕ min_window_size);
    rtt_tracker = Rtt.create 𝓝;
    total_acked_packets = 0;
    remote_window_bytes = none;
  }

  -- a loop over sequence numbers, with the clock
  unfoldable pub each :
      (SendWindow → ℕ → ℕ → SendWindow × List Action)
      → SendWindow
      → ℕ
      → List ℕ
      → SendWindow × List Action
  each body w now [] = (w, [])
  each body w now (k ∷ ks) =
      let (w', first) = body w now k in
      let (w'', later) = each body w' now ks in (w'', first ++ later)

  unfoldable pub is_packet_acked : SendWindow → ℕ → Bool
  is_packet_acked w seq_nr = elim w.latest_seq [ none ↦ false | some l ↦ Seq.ge l seq_nr ]

  -- the capacity that `applyWindowSize` computes
  unfoldable pub window_capacity : SendWindow → Num
  window_capacity w =
      let cc_window =
        num_max 𝓝 (of_ℕ w.min_window)
          (num_min 𝓝 (of_ℕ w.max_window) w.congestion_control.window_size) in
      elim w.remote_window_bytes [
        | none ↦ cc_window
        | some bytes ↦ num_min 𝓝 cc_window (of_ℕ (max 1 (bytes / default_mtu)))
      ]

  unfoldable pub apply_window_size : SendWindow → SendWindow × List Action
  apply_window_size w =
      let (m, woken) = BlockingMap.update_capacity below w.packet_map (window_capacity w) in
      (record w { packet_map = m }, resumed woken)

  -- `this.#packetMap.delete(seqNr)`
  unfoldable pub drop_packet : SendWindow → ℕ → SendWindow × List Action
  drop_packet w seq_nr =
      let (m, woken) = BlockingMap.delete below w.packet_map seq_nr in
      (record w { packet_map = m }, resumed woken)

  -- A packet that was sent too often is given up.
  unfoldable pub give_up : SendWindow → ℕ → SendWindow × List Action
  give_up w seq_nr =
      let lost = record w {
        congestion_control = Congestion.on_packet_loss 𝓝 w.congestion_control;
      } in
      let (w', first) = apply_window_size lost in
      let (w'', second) = drop_packet w' seq_nr in (w'', first ++ second)

  unfoldable pub send_again : SendWindow → ℕ → ℕ → Entry → SendWindow × List Action
  send_again w now seq_nr e =
      let e' = record e { resend_times = e.resend_times + 1; sent_time = now } in
      let m = w.packet_map in
      (
        record w { packet_map = record m { map = Map.set seq_nr e' m.map } },
        send e.packet e.remote_addr ∷ [],
      )

  -- the body of the loop of `resend`
  unfoldable pub resend_one : SendWindow → ℕ → ℕ → SendWindow × List Action
  resend_one w now seq_nr = elim (BlockingMap.get w.packet_map seq_nr) [
    | none ↦ (w, [])
    | some e ↦
        if num_ltb 𝓝 w.rtt_tracker.rto (of_ℕ (now - e.sent_time))
        then (if leb resend_times_limit e.resend_times
            then give_up w seq_nr
            else send_again w now seq_nr e)
        else (w, [])
  ]

  unfoldable pub get_all_seq_nrs : SendWindow → List ℕ
  get_all_seq_nrs w = BlockingMap.keys w.packet_map

  -- `resend`, which `timeoutCheck` calls
  unfoldable pub timeout_check : SendWindow → ℕ → SendWindow × List Action
  timeout_check w now = each resend_one w now (get_all_seq_nrs w)

  -- `waitForAck`: the Boolean says whether there was room at once.
  unfoldable pub wait_for_ack : SendWindow → ℕ → Packet → Addr → (SendWindow × List Action) × Bool
  wait_for_ack w now packet addr =
      let e : Entry = record {
        packet = packet;
        resend_times = 0;
        ack_count = 0;
        sent_time = now;
        remote_addr = addr;
      } in
      let ((m, woken), room) = BlockingMap.set below w.packet_map packet.seq_nr e in
      ((record w { packet_map = m }, resumed woken), room)

  -- a sample of the round trip, of a packet that was sent once
  unfoldable pub sample : SendWindow → ℕ → Entry → SendWindow
  sample w now e =
      if e.resend_times == 0
      then record w { rtt_tracker = Rtt.update 𝓝 w.rtt_tracker now e.sent_time }
      else w

  -- the body of the loop over the numbers of a selective acknowledgement
  unfoldable pub sack_one : SendWindow → ℕ → ℕ → SendWindow × List Action
  sack_one w now seq_nr = elim (BlockingMap.get w.packet_map seq_nr) [
    | none ↦ (w, [])
    | some e ↦
        let (w', out) = drop_packet (sample w now e) seq_nr in
        (record w' { total_acked_packets = w'.total_acked_packets + 1 }, out)
  ]

  -- the body of the loop over the packets in the window
  unfoldable pub ack_one : SendWindow → ℕ → ℕ → SendWindow × List Action
  ack_one w now seq_nr =
      if is_packet_acked w seq_nr
      then (let sampled_w : SendWindow = elim (BlockingMap.get w.packet_map seq_nr) [
        | none ↦ w
        | some e ↦ sample w now e
      ] in
          let (w', out) = drop_packet sampled_w seq_nr in
          (record w' { total_acked_packets = w'.total_acked_packets + 1 }, out))
      else (w, [])

  -- the highest number that the other side acknowledged
  unfoldable pub newest : Option ℕ → ℕ → Option ℕ
  newest none ack_nr = some ack_nr
  newest (some l) ack_nr = if Seq.gt ack_nr l then some ack_nr else some l

  -- the first part of `handleAck`: what it notes of the packet
  unfoldable pub note_ack : SendWindow → Packet → SendWindow
  note_ack w p = record w {
    remote_window_bytes = some p.window_size;
    latest_seq = newest w.latest_seq p.ack_nr;
    ack_counter =
        Map.set p.ack_nr (elim (Map.get p.ack_nr w.ack_counter) [ none ↦ 1 | some n ↦ n + 1 ])
          w.ack_counter;
  }

  unfoldable pub sacked_seq_nrs : Packet → List ℕ
  sacked_seq_nrs p = elim (sack_extension p.extensions) [ none ↦ [] | some s ↦ received s ]

  unfoldable pub handle_ack : SendWindow → ℕ → Packet → SendWindow × List Action
  handle_ack w now p =
      let (w₁, first) = each sack_one (note_ack w p) now (sacked_seq_nrs p) in
      let (w₂, second) = each ack_one w₁ now (get_all_seq_nrs w₁) in
      let measured = record w₂ {
        congestion_control = Congestion.update_rtt 𝓝 w₂.congestion_control w₂.rtt_tracker.rtt;
      } in
      let (w₃, third) = apply_window_size measured in (w₃, first ++ (second ++ third))

  unfoldable pub is_empty : SendWindow → Bool
  is_empty w = BlockingMap.size w.packet_map == 0

  unfoldable pub reset : SendWindow → SendWindow × List Action
  reset w =
      let (m, woken) =
        BlockingMap.update_capacity below (BlockingMap.clear w.packet_map) (of_ℕ w.min_window) in
      (
        record w {
          packet_map = m;
          ack_counter = [];
          latest_seq = none;
          remote_window_bytes = none;
          total_acked_packets = 0;
          congestion_control = Congestion.reset 𝓝 w.congestion_control;
        },
        resumed woken,
      )
