-- ===== src/Conn/Ending.antt =====
-- src/utp_conn.ts: a connection that is closed comes to its end, whatever happens to it meanwhile.
use utp.Base.{
  ℕ, ◌+◌, ◌≤◌, ◌<◌, ◌≡◌, refl, ◌∙◌, ap, true, false, List, [], ◌∷◌, none, some, arith, ltb, lt→ltb,
  Bool-cases, inl, inr, if◌then◌else◌, ◌-◌, ◌⊎◌,
}
use mathlib.Core.Bool.{false≢true}
use utp.Base.Number.{JsNumber}
use utp.BlockingBuffer.{ByteBuffer}
use utp.Conn.{
  Conn, Clock, State, syn_sent, syn_recv, connected, reset, close_wait, closed, is_closed,
  state_number,
}
use utp.Conn.Closing.{close_timeout_duration, try_safe_release}
use utp.Conn.Outgoing.{close, close_in}
use utp.Conn.States.{after, state-force_close, state-release}
use utp.Conn.Diagram.{state-begin_close}
use utp.Conn.Calls.{Call, comes_in, times_out, closes, resets, step, step-⟶, phase, phase-le}
use utp.Conn.Fixed
use utp.Conn.Fixed.Calls
use utp.Conn.Fixed.{is_live, fixed}
use utp.Conn.Fixed.Calls.{close-fixed}
use utp.Conn.Promises.{close_timed_out, close_tick}

-- what happens to a connection that is closing: a call of it, or a round of the interval of its `close`
pub data Event : Type 0 where
  called : Call → Event
  ticks : Clock → Event

not_live : (s : State) → 2 ≤ phase s → is_live s ≡ false
not_live syn_sent h = absurd (omega arith)
not_live syn_recv h = absurd (omega arith)
not_live connected h = absurd (omega arith)
not_live reset h = refl
not_live close_wait h = refl
not_live closed h = refl

module _ (𝓝 : JsNumber) (𝓑 : ByteBuffer) where
  pub happen : Conn 𝓝 𝓑 → List Event → Conn 𝓝 𝓑
  happen c [] = c
  happen c (called call ∷ events) = happen (step 𝓝 𝓑 c call).0 events
  happen c (ticks clock ∷ events) = happen (close_tick 𝓝 𝓑 c clock).0.0 events

  start_of :
      (c c' : Conn 𝓝 𝓑) → fixed 𝓝 𝓑 c' ≡ fixed 𝓝 𝓑 c → c'.close_start_time ≡ c.close_start_time
  unfolding fixed
  start_of c c' e = ap (λ f. f.1) e

  close_start_time-close :
      (c : Conn 𝓝 𝓑) (clock : Clock)
      → (close 𝓝 𝓑 c clock).0.close_start_time
        ≡ (if is_live c.local_state then some clock.performance else c.close_start_time)
  unfolding fixed
  close_start_time-close c clock = ap (λ f. f.1) (close-fixed 𝓝 𝓑 c clock)

  close_start_time-step :
      (c : Conn 𝓝 𝓑) (call : Call)
      → 2 ≤ phase c.local_state
      → (step 𝓝 𝓑 c call).0.close_start_time ≡ c.close_start_time
  unfolding step
  close_start_time-step c (comes_in p clock) h =
      start_of c _ (Fixed.handle_incoming_packet-Keeps 𝓝 𝓑 c clock p)
  close_start_time-step c (times_out clock) h = start_of c _ (Calls.timeout_check-Keeps 𝓝 𝓑 c clock)
  close_start_time-step c (closes clock) h =
      rw (close_start_time-close c clock, not_live c.local_state h) refl
  close_start_time-step c (resets clock) h = start_of c _ (Fixed.reset_conn-Keeps 𝓝 𝓑 c clock)

  tick-Keeps : (c : Conn 𝓝 𝓑) (clock : Clock) → Fixed.Keeps 𝓝 𝓑 c (close_tick 𝓝 𝓑 c clock).0
  unfolding close_tick try_safe_release
  tick-Keeps c clock =
      ground (arith, Fixed.force_close-Keeps 𝓝 𝓑 c, Fixed.release-Keeps 𝓝 𝓑 c clock)

  -- The two ends of a round: the state is kept, or closed.
  pub state-tick :
      (c : Conn 𝓝 𝓑) (clock : Clock)
      → (after 𝓝 𝓑 (close_tick 𝓝 𝓑 c clock).0 ≡ c.local_state)
        ⊎ (after 𝓝 𝓑 (close_tick 𝓝 𝓑 c clock).0 ≡ closed)
  unfolding close_tick try_safe_release
  state-tick c clock = ground (arith, state-force_close 𝓝 𝓑 c, state-release 𝓝 𝓑 c clock)

  pub phase-tick :
      (c : Conn 𝓝 𝓑) (clock : Clock)
      → 2 ≤ phase c.local_state
      → 2 ≤ phase (after 𝓝 𝓑 (close_tick 𝓝 𝓑 c clock).0)
  phase-tick c clock h = elim (state-tick c clock) [ inl e ↦ rw e h | inr e ↦ rw e (omega arith) ]

  start-happen :
      (events : List Event) (c : Conn 𝓝 𝓑)
      → 2 ≤ phase c.local_state
      → (happen c events).close_start_time ≡ c.close_start_time
  unfolding happen
  start-happen [] c h = refl
  start-happen (called call ∷ events) c h =
      start-happen events (step 𝓝 𝓑 c call).0 (omega (arith, phase-le (step-⟶ 𝓝 𝓑 c call)))
      ∙ close_start_time-step c call h
  start-happen (ticks clock ∷ events) c h =
      start-happen events (close_tick 𝓝 𝓑 c clock).0.0 (phase-tick c clock h)
      ∙ start_of c _ (tick-Keeps c clock)

  closed_number : (s : State) → state_number s ≡ state_number closed → s ≡ closed
  unfolding state_number
  closed_number syn_sent e = absurd (omega arith)
  closed_number syn_recv e = absurd (omega arith)
  closed_number connected e = absurd (omega arith)
  closed_number reset e = absurd (omega arith)
  closed_number close_wait e = absurd (omega arith)
  closed_number closed e = refl

  timed_out-late :
      (c : Conn 𝓝 𝓑) (clock : Clock) (start : ℕ)
      → c.close_start_time ≡ some start
      → start + 10000 < clock.performance
      → close_timed_out 𝓝 𝓑 c clock ≡ true
  unfolding close_timed_out
  timed_out-late c clock start e late =
      ap
        (λ t. elim t [ none ↦ false | some t ↦ ltb close_timeout_duration (clock.performance - t) ])
        e
      ∙ lt→ltb _ _ (omega arith)

  -- The tick after the time-out closes, in whatever state.
  late_tick :
      (c : Conn 𝓝 𝓑) (clock : Clock)
      → close_timed_out 𝓝 𝓑 c clock ≡ true
      → ((close_tick 𝓝 𝓑 c clock).1 ≡ true) × (after 𝓝 𝓑 (close_tick 𝓝 𝓑 c clock).0 ≡ closed)
  unfolding close_tick is_closed
  late_tick c clock e = elim (Bool-cases (is_closed 𝓝 𝓑 c)) [
    | inl shut ↦ rw shut (refl, closed_number c.local_state (ground arith))
    | inr open_ ↦ rw (open_, e) (refl, state-force_close 𝓝 𝓑 c)
  ]

  phase-close_in :
      (c : Conn 𝓝 𝓑) (clock : Clock) (s : State)
      → is_live s ≡ true
      → 2 ≤ phase (close_in 𝓝 𝓑 c clock s).0.local_state
  unfolding close_in
  phase-close_in c clock syn_sent live = rw (state-begin_close 𝓝 𝓑 c clock) (omega arith)
  phase-close_in c clock syn_recv live = rw (state-begin_close 𝓝 𝓑 c clock) (omega arith)
  phase-close_in c clock connected live = rw (state-begin_close 𝓝 𝓑 c clock) (omega arith)
  phase-close_in c clock reset live = absurd (false≢true live)
  phase-close_in c clock close_wait live = absurd (false≢true live)
  phase-close_in c clock closed live = absurd (false≢true live)

  pub phase-close :
      (c : Conn 𝓝 𝓑) (clock : Clock)
      → is_live c.local_state ≡ true
      → 2 ≤ phase (close 𝓝 𝓑 c clock).0.local_state
  unfolding close
  phase-close c clock live = phase-close_in c clock c.local_state live

  -- `close` comes to its end. Called on a connection that is connecting or connected, and followed by whatever calls of
  -- the connection and rounds of the interval, it is settled by a round more than 10 seconds later, if by no
  -- earlier one, and the connection is then closed.
  pub close_ends :
      (c : Conn 𝓝 𝓑) (clock later : Clock) (events : List Event)
      → is_live c.local_state ≡ true
      → clock.performance + 10000 < later.performance
      → let last = close_tick 𝓝 𝓑 (happen (close 𝓝 𝓑 c clock).0 events) later in
        (last.1 ≡ true) × (after 𝓝 𝓑 last.0 ≡ closed)
  close_ends c clock later events live late =
      let begun = (close 𝓝 𝓑 c clock).0 in
      late_tick (happen begun events) later (
        timed_out-late _ later clock.performance
          (start-happen events begun (phase-close c clock live)
            ∙ close_start_time-close c clock
            ∙ ap (λ b. if b then some clock.performance else c.close_start_time) live)
          late)
