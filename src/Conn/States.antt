-- ===== src/Conn/States.antt =====
-- src/utp_conn.ts: the diagram of the states of a connection, and that every call follows it.
use utp.Base.{
  ℕ, ◌≡◌, refl, ◌∙◌, sym, subst₂, false, not, ◌&&◌, List, [], ◌∷◌, Option, none, some, ◌==◌, ◌⊎◌,
  arith, Bool-cases, inl, inr,
}
use utp.Base.Number.{JsNumber}
use utp.Seq.{ℤ, add}
use utp.CircularQueue
use utp.Packet.{Packet, st_data, st_state}
use utp.BlockingBuffer.{ByteBuffer}
use utp.Conn.{
  Conn, Clock, Run, State, syn_sent, syn_recv, connected, reset, close_wait, closed,
  send_utp_packet, ◌>>>◌, set_state, set_ack_nr, set_seq_nr, is_closed,
}
use utp.Conn.Create.{create_fin_packet}
use utp.Conn.Closing.{drain_buffer, leave, force_close, send_fin, release, try_safe_release, is_set}
use utp.Conn.Incoming.{
  write_received, deliver, process_one, process_from, process_received_packets, take_in, send_ack,
  handle_at_syn_sent, handle_at_syn_received, answer_fin, try_release, acknowledge,
}

-- The diagram: the states in which one call can leave a connection.
infix 40 ◌⟶◌
pub data ◌⟶◌ : State → State → Type 0 where
  stay : {s : State} → s ⟶ s
  answered : syn_sent ⟶ connected
  accepted : syn_recv ⟶ connected
  gave_up : syn_sent ⟶ closed
  left_early : syn_sent ⟶ close_wait
  left_unheard : syn_recv ⟶ close_wait
  parting : connected ⟶ close_wait
  ended : connected ⟶ closed
  released : close_wait ⟶ closed
  broken : {s : State} → s ⟶ reset

module _ (𝓝 : JsNumber) (𝓑 : ByteBuffer) where
  -- the state after a call
  abbrev pub after : Run 𝓝 𝓑 → State
  after r = r.0.local_state

  pub state-send_utp_packet :
      (c : Conn 𝓝 𝓑) (clock : Clock) (p : Packet)
      → after (send_utp_packet 𝓝 𝓑 c clock p).0 ≡ c.local_state
  unfolding send_utp_packet
  state-send_utp_packet c clock p = ground arith

  pub state-set_state : (c : Conn 𝓝 𝓑) (s : State) → after (set_state 𝓝 𝓑 c s) ≡ s
  unfolding set_state
  state-set_state c s = ground arith

  pub state-write_received :
      (c : Conn 𝓝 𝓑) (bytes : List ℕ) → after (write_received 𝓝 𝓑 c bytes) ≡ c.local_state
  unfolding write_received
  state-write_received c bytes = refl

  pub state-process_one : (c : Conn 𝓝 𝓑) (k : ℕ) → after (process_one 𝓝 𝓑 c k) ≡ c.local_state
  unfolding process_one deliver set_ack_nr write_received
  state-process_one c k = ground arith

  pub state-process_from :
      (ks : List ℕ) (c : Conn 𝓝 𝓑) → after (process_from 𝓝 𝓑 c ks) ≡ c.local_state
  unfolding process_from
  state-process_from [] c = refl
  state-process_from (k ∷ ks) c =
      state-process_from ks (process_one 𝓝 𝓑 c k).0 ∙ state-process_one c k

  pub state-take_in : (c : Conn 𝓝 𝓑) (p : Packet) → after (take_in 𝓝 𝓑 c p) ≡ c.local_state
  unfolding take_in process_received_packets
  state-take_in c p = elim (Bool-cases (CircularQueue.is_at_capacity c.recv_packet_queue)) [
    | inl full ↦ rw full (state-process_from _ _ ∙ state-process_from _ c)
    | inr room ↦ rw room (state-process_from _ _)
  ]

  pub state-drain_buffer : (c : Conn 𝓝 𝓑) → after (drain_buffer 𝓝 𝓑 c) ≡ c.local_state
  unfolding drain_buffer
  state-drain_buffer c = refl

  pub state-leave : (c : Conn 𝓝 𝓑) → after (leave 𝓝 𝓑 c) ≡ closed
  unfolding leave
  state-leave c = state-set_state c closed

  pub state-force_close : (c : Conn 𝓝 𝓑) → after (force_close 𝓝 𝓑 c) ≡ closed
  unfolding force_close
  state-force_close c = state-leave (drain_buffer 𝓝 𝓑 c).0

  pub state-send_fin :
      (c : Conn 𝓝 𝓑) (clock : Clock) → after (send_fin 𝓝 𝓑 c clock).0 ≡ c.local_state
  unfolding send_fin create_fin_packet set_seq_nr
  state-send_fin c clock = state-send_utp_packet _ clock _

  pub state-release :
      (c : Conn 𝓝 𝓑) (clock : Clock)
      → (after (release 𝓝 𝓑 c clock) ≡ c.local_state) ⊎ (after (release 𝓝 𝓑 c clock) ≡ closed)
  unfolding release
  state-release c clock = ground (arith, state-force_close c, state-leave c, state-send_fin c clock)

  pub state-answer_fin :
      (c : Conn 𝓝 𝓑) (clock : Clock) (p : Packet) → after (answer_fin 𝓝 𝓑 c clock p) ≡ close_wait
  unfolding answer_fin
  state-answer_fin c clock p =
      let fin : Conn 𝓝 𝓑 = record c { remote_fin_packet = some p } in
      let c₁ = (set_state 𝓝 𝓑 fin close_wait).0 in
      elim (Bool-cases (not (is_set c₁.local_fin_packet) && not (is_closed 𝓝 𝓑 c₁))) [
        | inl fresh ↦
            rw fresh
              (state-drain_buffer _ ∙ state-send_fin c₁ clock ∙ state-set_state fin close_wait)
        | inr old ↦ rw old (state-drain_buffer _ ∙ state-set_state fin close_wait)
      ]

  -- Where `trySafeRelease` is called, it does not throw.
  pub try_release_lem :
      (r : Run 𝓝 𝓑) (clock : Clock) → after r ≡ close_wait → (try_release 𝓝 𝓑 r clock).1 ≡ false
  unfolding try_release try_safe_release
  try_release_lem (c, out) clock e = rw e refl

  pub state-try_release :
      (r : Run 𝓝 𝓑) (clock : Clock)
      → after r ≡ close_wait
      → (after (try_release 𝓝 𝓑 r clock).0 ≡ close_wait)
        ⊎ (after (try_release 𝓝 𝓑 r clock).0 ≡ closed)
  unfolding try_release try_safe_release
  state-try_release (c, out) clock e = ground (arith, state-release c clock)

  pub state-acknowledge : (r : Run 𝓝 𝓑) (clock : Clock) → after (acknowledge 𝓝 𝓑 r clock) ≡ after r
  unfolding acknowledge send_ack
  state-acknowledge r clock = elim (Bool-cases (is_closed 𝓝 𝓑 r.0)) [
    | inl shut ↦ rw shut
    | inr open_ ↦ rw open_ (state-send_utp_packet r.0 clock _)
  ]

  pub handle_at_syn_sent-⟶ :
      (c : Conn 𝓝 𝓑) (p : Packet)
      → c.local_state ≡ syn_sent
      → c.local_state ⟶ after (handle_at_syn_sent 𝓝 𝓑 c p).0
  unfolding handle_at_syn_sent
  handle_at_syn_sent-⟶ c p e = elim (Bool-cases (p.type == st_state)) [
    | inl answer ↦ rw answer (subst₂ ◌⟶◌ (sym e) (sym (state-set_state _ connected)) answered)
    | inr other ↦ rw other stay
  ]

  state-syn_received :
      (c : Conn 𝓝 𝓑) (clock : Clock) (payload : Option (List ℕ))
      → after (
          ◌>>>◌ 𝓝 𝓑
            (elim payload [ none ↦ (c, []) | some bytes ↦ write_received 𝓝 𝓑 c bytes ])
            (λ c'. send_ack 𝓝 𝓑 c' clock))
        ≡ c.local_state
  unfolding send_ack
  state-syn_received c clock none = state-send_utp_packet c clock _
  state-syn_received c clock (some bytes) =
      state-send_utp_packet _ clock _ ∙ state-write_received c bytes

  pub handle_at_syn_received-⟶ :
      (c : Conn 𝓝 𝓑) (clock : Clock) (p : Packet)
      → c.local_state ≡ syn_recv
      → c.local_state ⟶ after (handle_at_syn_received 𝓝 𝓑 c clock p).0
  unfolding handle_at_syn_received
  handle_at_syn_received-⟶ c clock p e =
      elim (Bool-cases (p.type == st_data && p.ack_nr == add c.local_seq_nr (ℤ.negsuc 0))) [
        | inl first ↦ rw first (
            subst₂ ◌⟶◌ (sym e)
              (sym (state-syn_received _ clock p.payload ∙ state-set_state _ connected)) accepted)
        | inr other ↦ rw other stay
      ]

  -- The FIN of the other side ends in one of two states.
  pub state-fin :
      (c : Conn 𝓝 𝓑) (clock : Clock) (p : Packet)
      → let r =
          try_release 𝓝 𝓑 (◌>>>◌ 𝓝 𝓑 (take_in 𝓝 𝓑 c p) (λ c'. answer_fin 𝓝 𝓑 c' clock p)) clock in
        (after r.0 ≡ close_wait) ⊎ (after r.0 ≡ closed)
  state-fin c clock p = state-try_release _ clock (state-answer_fin _ clock p)
