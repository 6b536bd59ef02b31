-- ===== src/Conn/Diagram.antt =====
-- src/utp_conn.ts: every call of a connection follows the diagram of its states.
use utp.Base.{
  ◌≡◌, refl, ◌∙◌, sym, subst, subst₂, [], some, ◌==◌, if◌then◌else◌, ◌⊎◌, arith, inl, inr,
}
use utp.Base.Number.{JsNumber}
use utp.Packet.{Packet, st_state}
use utp.BlockingBuffer.{ByteBuffer}
use utp.Conn.{
  Conn, Clock, State, syn_sent, syn_recv, connected, reset, close_wait, closed, ◌>>>◌, set_state,
}
use utp.Conn.Create.{create_ack_packet, create_from_conn}
use utp.Conn.Closing.{try_safe_release, reset_conn}
use utp.Conn.Incoming.{
  take_in, answer_fin, try_release, handle_at_connected, handle_ack, dispatch, finish,
  handle_incoming_packet, handle_at_close_wait, Handled, yes, no, throws,
}
use utp.Conn.Outgoing.{
  check_window, keep_alive, timeout_check_in, release_if_waiting, begin_close, close_in,
}
use utp.Conn.States.{
  after, ◌⟶◌, stay, parting, ended, released, gave_up, left_early, left_unheard,
  handle_at_syn_sent-⟶, handle_at_syn_received-⟶, state-fin, state-acknowledge, state-take_in,
  state-send_utp_packet, state-release, state-set_state, state-send_fin, state-force_close,
}

parted : {s t : State} → s ≡ connected → (t ≡ close_wait) ⊎ (t ≡ closed) → s ⟶ t
parted e (inl w) = subst₂ ◌⟶◌ (sym e) (sym w) parting
parted e (inr w) = subst₂ ◌⟶◌ (sym e) (sym w) ended

same : {s t : State} → t ≡ s → s ⟶ t
same {s} {t} e = subst (λ u. s ⟶ u) (sym e) stay

module _ (𝓝 : JsNumber) (𝓑 : ByteBuffer) where
  state-handle_at_connected :
      (c : Conn 𝓝 𝓑) (clock : Clock) (p : Packet)
      → let s = after 𝓝 𝓑 (handle_at_connected 𝓝 𝓑 c clock p).0 in
        (s ≡ c.local_state) ⊎ (s ≡ close_wait) ⊎ (s ≡ closed)
  unfolding handle_at_connected
  state-handle_at_connected c clock p =
      let taken = ◌>>>◌ 𝓝 𝓑 (take_in 𝓝 𝓑 c p) (λ c'. answer_fin 𝓝 𝓑 c' clock p) in
      ground (
        arith,
        state-fin 𝓝 𝓑 c clock p,
        state-acknowledge 𝓝 𝓑 (try_release 𝓝 𝓑 taken clock).0 clock,
        state-acknowledge 𝓝 𝓑 (take_in 𝓝 𝓑 c p) clock,
        state-take_in 𝓝 𝓑 c p,
      )

  handle_at_connected-⟶ :
      (c : Conn 𝓝 𝓑) (clock : Clock) (p : Packet)
      → c.local_state ≡ connected
      → c.local_state ⟶ after 𝓝 𝓑 (handle_at_connected 𝓝 𝓑 c clock p).0
  handle_at_connected-⟶ c clock p e = elim (state-handle_at_connected c clock p) [
    | inl k ↦ same k
    | inr gone ↦ parted e gone
  ]

  state-handle_ack :
      (c : Conn 𝓝 𝓑) (clock : Clock) (p : Packet)
      → after 𝓝 𝓑 (handle_ack 𝓝 𝓑 c clock p) ≡ c.local_state
  unfolding handle_ack
  state-handle_ack c clock p = refl

  dispatch-⟶ :
      (c : Conn 𝓝 𝓑) (clock : Clock) (p : Packet) (s : State)
      → c.local_state ≡ s
      → c.local_state ⟶ after 𝓝 𝓑 (dispatch 𝓝 𝓑 c clock p s).0
  unfolding dispatch handle_at_close_wait
  dispatch-⟶ c clock p syn_sent e = handle_at_syn_sent-⟶ 𝓝 𝓑 c p e
  dispatch-⟶ c clock p syn_recv e = handle_at_syn_received-⟶ 𝓝 𝓑 c clock p e
  dispatch-⟶ c clock p connected e = handle_at_connected-⟶ c clock p e
  dispatch-⟶ c clock p close_wait e = same (ground (arith, state-handle_ack c clock p))
  dispatch-⟶ c clock p closed e = stay
  dispatch-⟶ c clock p reset e = stay

  state-finish :
      (c : Conn 𝓝 𝓑) (clock : Clock) (h : Handled)
      → (finish 𝓝 𝓑 c clock h).local_state ≡ c.local_state
  unfolding finish
  state-finish c clock yes = refl
  state-finish c clock no = refl
  state-finish c clock throws = refl

  -- A packet that comes in changes the state along the diagram.
  pub handle_incoming_packet-⟶ :
      (c : Conn 𝓝 𝓑) (clock : Clock) (p : Packet)
      → c.local_state ⟶ after 𝓝 𝓑 (handle_incoming_packet 𝓝 𝓑 c clock p).0
  unfolding handle_incoming_packet
  handle_incoming_packet-⟶ c clock p =
      let c₁ = (if p.type == st_state then handle_ack 𝓝 𝓑 c clock p else (c, [])).0 in
      let r = dispatch 𝓝 𝓑 c₁ clock p c₁.local_state in
      let kept : c₁.local_state ≡ c.local_state = ground (arith, state-handle_ack c clock p) in
      subst₂ ◌⟶◌ kept (sym (state-finish r.0.0 clock r.1))
        (dispatch-⟶ c₁ clock p c₁.local_state refl)

  state-check_window :
      (c : Conn 𝓝 𝓑) (clock : Clock) → after 𝓝 𝓑 (check_window 𝓝 𝓑 c clock) ≡ c.local_state
  unfolding check_window
  state-check_window c clock = refl

  state-keep_alive :
      (c : Conn 𝓝 𝓑) (clock : Clock) → after 𝓝 𝓑 (keep_alive 𝓝 𝓑 c clock) ≡ c.local_state
  unfolding keep_alive
  state-keep_alive c clock = ground (
    arith,
    state-send_utp_packet 𝓝 𝓑 c clock (create_ack_packet 𝓝 𝓑 c clock (create_from_conn 𝓝 𝓑 c)),
  )

  given_up : {s t : State} → s ≡ syn_sent → (t ≡ s) ⊎ (t ≡ closed) → s ⟶ t
  given_up e (inl k) = same k
  given_up e (inr k) = subst₂ ◌⟶◌ (sym e) (sym k) gave_up

  released_from : {s t : State} → s ≡ close_wait → (t ≡ s) ⊎ (t ≡ closed) → s ⟶ t
  released_from e (inl k) = same k
  released_from e (inr k) = subst₂ ◌⟶◌ (sym e) (sym k) released

  release_if_waiting-⟶ :
      (c : Conn 𝓝 𝓑) (clock : Clock)
      → c.local_state ≡ close_wait
      → c.local_state ⟶ after 𝓝 𝓑 (release_if_waiting 𝓝 𝓑 c clock)
  unfolding release_if_waiting try_safe_release
  release_if_waiting-⟶ c clock e = released_from e (ground (arith, state-release 𝓝 𝓑 c clock))

  pub timeout_check_in-⟶ :
      (c : Conn 𝓝 𝓑) (clock : Clock) (s : State)
      → c.local_state ≡ s
      → c.local_state ⟶ after 𝓝 𝓑 (timeout_check_in 𝓝 𝓑 c clock s)
  unfolding timeout_check_in
  timeout_check_in-⟶ c clock syn_sent e = given_up e (ground (arith, state-force_close 𝓝 𝓑 c))
  timeout_check_in-⟶ c clock syn_recv e =
      same (state-check_window _ clock ∙ state-keep_alive c clock)
  timeout_check_in-⟶ c clock connected e =
      same (state-check_window _ clock ∙ state-keep_alive c clock)
  timeout_check_in-⟶ c clock close_wait e =
      subst (λ s. s ⟶ after 𝓝 𝓑 (release_if_waiting 𝓝 𝓑 (check_window 𝓝 𝓑 c clock).0 clock))
        (state-check_window c clock)
        (release_if_waiting-⟶ (check_window 𝓝 𝓑 c clock).0 clock (state-check_window c clock ∙ e))
  timeout_check_in-⟶ c clock reset e = stay
  timeout_check_in-⟶ c clock closed e = stay

  pub state-begin_close :
      (c : Conn 𝓝 𝓑) (clock : Clock) → after 𝓝 𝓑 (begin_close 𝓝 𝓑 c clock) ≡ close_wait
  unfolding begin_close
  state-begin_close c clock =
      let c₁ = record c { close_start_time = some clock.performance } in
      let c₂ = (set_state 𝓝 𝓑 c₁ close_wait).0 in
      ground (arith, state-set_state 𝓝 𝓑 c₁ close_wait, state-send_fin 𝓝 𝓑 c₂ clock)

  pub close_in-⟶ :
      (c : Conn 𝓝 𝓑) (clock : Clock) (s : State)
      → c.local_state ≡ s
      → c.local_state ⟶ after 𝓝 𝓑 (close_in 𝓝 𝓑 c clock s)
  unfolding close_in
  close_in-⟶ c clock syn_sent e = subst₂ ◌⟶◌ (sym e) (sym (state-begin_close c clock)) left_early
  close_in-⟶ c clock syn_recv e = subst₂ ◌⟶◌ (sym e) (sym (state-begin_close c clock)) left_unheard
  close_in-⟶ c clock connected e = subst₂ ◌⟶◌ (sym e) (sym (state-begin_close c clock)) parting
  close_in-⟶ c clock close_wait e = stay
  close_in-⟶ c clock reset e = stay
  close_in-⟶ c clock closed e = stay

  pub state-reset_conn : (c : Conn 𝓝 𝓑) (clock : Clock) → after 𝓝 𝓑 (reset_conn 𝓝 𝓑 c clock) ≡ reset
  unfolding reset_conn
  state-reset_conn c clock = state-send_utp_packet 𝓝 𝓑 _ clock _ ∙ state-set_state 𝓝 𝓑 c reset
