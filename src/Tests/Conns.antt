-- ===== src/Tests/Conns.antt =====
-- A connected endpoint with a gap in its queue, a `write` of two bytes, and a listener with a promise.
use utp.Base.{
  ℕ, Bool, suc, ◌+◌, ◌<◌, ◌≤◌, ◌≡◌, inl, refl, true, false, List, [], ◌∷◌, ◌++◌, none, some, arith,
  ap, ◌==◌,
}
use utp.Base.Map
use utp.Base.Map.{nat_key}
use utp.Seq
use utp.CircularQueue
use utp.CircularQueue.{CircularQueue}
use utp.CircularQueue.Invariant
use utp.Packet.{Packet, payload_bytes, packet_length}
use utp.Conn.{Conn, Clock, connected, closed}
use utp.Conn.Promises.{close_tick}
use utp.Conn.Ending.{Event, called, ticks, happen, close_ends}
use utp.Conn.Incoming.{process_received_packets}
use utp.Conn.Outgoing.{write, close}
use utp.Conn.States.{after}
use utp.Conn.{syn_sent}
use utp.Conn.Promises.{hear, waiting}
use utp.Conn.Diagram.{state-reset_conn}
use utp.Base.Sort.{contains}
use utp.Conn.Listeners.{notify_state_change, notify-reached}
use utp.Conn.Told.{told}
use utp.Conn.Told.Calls.{run-IsTold}
use utp.Conn.Told.Settled.{is_settling, is_pending, promise_settled}
use utp.Conn.Calls.{Call, comes_in, times_out, closes, resets, run, step}
use utp.Conn.Course.{Course}
use utp.Conn.Delivery.{
  Delivery, Consecutive, last_of, process_received_packets-Delivery,
  process_received_packets_complete,
}
use utp.Conn.Moves.{arrivals}
use utp.BlockingBuffer.Fifo.{held}
use utp.Conn.Stream.{IsGenuine, IsFed, stream_of}
use utp.Conn.Reorder.{AllSent, receive_all, receive_all_in_order}
use utp.Conn.Chunks.{write-Sends, payloads, taken, transmitted, left, is_cut, AllFit}
use utp.Listener
use utp.Listener.{Listener}
use utp.Listener.Fifo
use utp.Listener.Fifo.{run_order}
use utp.Tests.Buffers.{list_buffer, waiting_buffer}
use utp.Tests.Windows.{naturals, data_packet, peer, three_in_flight}

abbrev pub gap_queue : CircularQueue Packet
gap_queue = record {
  capacity = 8;
  items = (1001, data_packet 1001) ∷ (1003, data_packet 1003) ∷ (1000, data_packet 1000) ∷ [];
  oldest_key = some 1000;
}

gap_queue-IsValid : CircularQueue.Invariant.IsValid gap_queue
unfolding CircularQueue.size CircularQueue.minimum Map.size Map.keys Map.has
gap_queue-IsValid = record {
  distinct = (refl, (refl, (refl, tt)));
  bounded = omega arith;
  oldest = refl;
}

abbrev pub endpoint : Conn naturals list_buffer
endpoint = record {
  local_recv_id = 6;
  local_send_id = 7;
  local_seq_nr = 3;
  local_ack_nr = 999;
  local_state = connected;
  remote_fin_packet = none;
  local_fin_packet = none;
  local_syn_packet = none;
  is_initiator = true;
  remote_addr = peer;
  last_packet_timestamp = none;
  last_live_time = 0;
  recv_packet_queue = gap_queue;
  recv_buffer = waiting_buffer;
  send_window = three_in_flight;
  close_start_time = none;
}

abbrev pub noon : Clock
noon = record { date = 5000; performance = 4000 }

abbrev evening : Clock
evening = record { date = 20000; performance = 15000 }

process_received_packets-Delivery_example :
    Delivery naturals list_buffer endpoint
      (process_received_packets naturals list_buffer endpoint)
      (1000 ∷ 1001 ∷ [])
unfolding CircularQueue.keys Map.keys utp.Base.Sort.sort_by Seq.add
process_received_packets-Delivery_example =
    process_received_packets-Delivery naturals list_buffer endpoint gap_queue-IsValid

-- Each packet of the sender carries the same two bytes.
abbrev sender_data : ℕ → List ℕ
sender_data k = 1 ∷ 2 ∷ []

gap_queue-IsGenuine : IsGenuine sender_data gap_queue
unfolding Map.get payload_bytes
gap_queue-IsGenuine k = ground arith

endpoint-IsFed : IsFed naturals list_buffer sender_data endpoint
endpoint-IsFed = record {
  valid = gap_queue-IsValid;
  roomy = omega arith;
  genuine = gap_queue-IsGenuine;
}

-- out of order, with a repetition
abbrev late_packets : List (Clock × Packet)
late_packets =
    (noon, data_packet 1002)
    ∷ (noon, data_packet 1005)
    ∷ (noon, data_packet 1002)
    ∷ (noon, data_packet 1004)
    ∷ []

late_packets-AllSent : AllSent sender_data late_packets
unfolding payload_bytes
late_packets-AllSent = ((refl, refl, (refl, refl, (refl, refl, (refl, refl, tt)))))

receive_all_in_order_example :
    (l : List ℕ) × Consecutive 999 l
    × ((receive_all naturals list_buffer endpoint late_packets).0.local_ack_nr ≡ last_of 999 l)
    × (arrivals (receive_all naturals list_buffer endpoint late_packets).1
          ++ held list_buffer (receive_all naturals list_buffer endpoint late_packets).0.recv_buffer
        ≡ held list_buffer waiting_buffer ++ stream_of sender_data l)
receive_all_in_order_example =
    receive_all_in_order naturals list_buffer sender_data late_packets endpoint late_packets-AllSent
      endpoint-IsFed

after_pass : (process_received_packets naturals list_buffer endpoint).0.local_ack_nr + 1 ≡ 1002
unfolding CircularQueue.keys Map.keys utp.Base.Sort.sort_by Seq.add
after_pass = ap (λ n. n + 1) process_received_packets-Delivery_example.acknowledged

process_received_packets_complete_example :
    CircularQueue.has
      (process_received_packets naturals list_buffer endpoint).0.recv_packet_queue
      ((process_received_packets naturals list_buffer endpoint).0.local_ack_nr + 1)
    ≡ false
process_received_packets_complete_example =
    process_received_packets_complete naturals list_buffer endpoint gap_queue-IsValid (omega arith)
      (inl (omega arith)) (omega (arith, after_pass))

abbrev two_bytes : List ℕ
two_bytes = 104 ∷ 105 ∷ []

-- on a socket that is closed
write-Sends_example :
    let r = write naturals list_buffer true packet_length endpoint noon two_bytes in
    (payloads (taken true packet_length (transmitted r.0.1)) ++ left r.1 ≡ two_bytes)
    × (is_cut r.1 ≡ false)
    × AllFit (transmitted r.0.1)
write-Sends_example = write-Sends naturals list_buffer true packet_length endpoint noon two_bytes

abbrev session : List Call
session = comes_in (data_packet 1002) noon ∷ times_out noon ∷ closes noon ∷ []

abbrev busy_listener : Listener
busy_listener = record {
  connections = 4 ∷ [];
  pending_connections = 4 ∷ [];
  is_closed = false;
  resolve_next = none;
}

busy_listener-IsValid : Listener.Fifo.IsValid busy_listener
busy_listener-IsValid = record { nobody_waits = inl refl; closed_empty = λ e. ground arith }

abbrev arrivals_and_accepts : List Listener.Fifo.Op
arrivals_and_accepts =
    Listener.Fifo.add 5
    ∷ Listener.Fifo.get 1
    ∷ Listener.Fifo.get 2
    ∷ Listener.Fifo.get 3
    ∷ Listener.Fifo.add 6
    ∷ []

run_order_example :
    (Listener.Fifo.run busy_listener arrivals_and_accepts).1
      ++ (Listener.Fifo.run busy_listener arrivals_and_accepts).0.pending_connections
    ≡ 4 ∷ 5 ∷ 6 ∷ []
run_order_example = run_order arrivals_and_accepts busy_listener refl busy_listener-IsValid

close_ends_example :
    let begun = (close naturals list_buffer endpoint noon).0 in
    let events = ticks noon ∷ called (resets noon) ∷ [] in
    let last = close_tick naturals list_buffer (happen naturals list_buffer begun events) evening in
    (last.1 ≡ true) × (after naturals list_buffer last.0 ≡ closed)
close_ends_example =
    close_ends naturals list_buffer endpoint noon evening (ticks noon ∷ called (resets noon) ∷ [])
      refl (omega arith)

-- The interval runs, and the connection is reset meanwhile.
abbrev closing_events : List Event
closing_events = called (closes noon) ∷ ticks noon ∷ called (resets noon) ∷ []

run-IsTold_example :
    told endpoint.local_state (run naturals list_buffer endpoint session).1
    ≡ some (run naturals list_buffer endpoint session).0.local_state
run-IsTold_example = run-IsTold naturals list_buffer session endpoint

-- a connection that has sent its SYN
abbrev caller : Conn naturals list_buffer
caller = record endpoint { local_state = syn_sent }

caller_reset : is_settling (run naturals list_buffer caller (resets noon ∷ [])).0.local_state ≡ true
unfolding run step
caller_reset = ap is_settling (state-reset_conn naturals list_buffer caller noon)

promise_settled_example :
    is_pending (hear waiting (run naturals list_buffer caller (resets noon ∷ [])).1) ≡ false
promise_settled_example =
    promise_settled naturals list_buffer (resets noon ∷ []) caller refl caller_reset

-- The second of four listeners removes itself, and the third is not told.
abbrev second_leaves : ℕ → Bool
second_leaves l = l == 2

notify-reached_example : (notify_state_change second_leaves (1 ∷ 2 ∷ 3 ∷ 4 ∷ [])).0 ≡ 1 ∷ 2 ∷ 4 ∷ []
unfolding contains
notify-reached_example =
    notify-reached second_leaves (1 ∷ 2 ∷ 3 ∷ 4 ∷ [])
      ((refl, refl, (refl, refl, (refl, refl, (refl, refl, tt)))))
