-- ===== src/Conn/Calls.antt =====
-- src/utp_conn.ts: sequences of calls, and where they lead.
use utp.Base.{ℕ, ◌≤◌, refl, sym, subst, List, [], ◌∷◌, arith}
use utp.Base.Number.{JsNumber}
use utp.Packet.{Packet}
use utp.BlockingBuffer.{ByteBuffer}
use utp.Conn.{
  Conn, Clock, Run, State, syn_sent, syn_recv, connected, reset, close_wait, closed, ◌>>>◌,
}
use utp.Conn.Closing.{reset_conn}
use utp.Conn.Incoming.{handle_incoming_packet}
use utp.Conn.Outgoing.{timeout_check, close}
use utp.Conn.States.{
  after, ◌⟶◌, stay, answered, accepted, parting, ended, released, broken, gave_up, left_early,
  left_unheard,
}
use utp.Conn.Diagram.{handle_incoming_packet-⟶, timeout_check_in-⟶, close_in-⟶, state-reset_conn}

-- How far a connection has come.
abbrev pub phase : State → ℕ
phase syn_sent = 0
phase syn_recv = 0
phase connected = 1
phase close_wait = 2
phase closed = 3
phase reset = 4

pub phase-le : {s t : State} → s ⟶ t → phase s ≤ phase t
phase-le stay = omega arith
phase-le answered = omega arith
phase-le accepted = omega arith
phase-le gave_up = omega arith
phase-le left_early = omega arith
phase-le left_unheard = omega arith
phase-le parting = omega arith
phase-le ended = omega arith
phase-le released = omega arith
phase-le (broken {s = syn_sent}) = omega arith
phase-le (broken {s = syn_recv}) = omega arith
phase-le (broken {s = connected}) = omega arith
phase-le (broken {s = reset}) = omega arith
phase-le (broken {s = close_wait}) = omega arith
phase-le (broken {s = closed}) = omega arith

-- What is called on a connection, with the clock at that time.
pub data Call : Type 0 where
  comes_in : Packet → Clock → Call
  times_out : Clock → Call
  closes : Clock → Call
  resets : Clock → Call

module _ (𝓝 : JsNumber) (𝓑 : ByteBuffer) where
  unfoldable pub step : Conn 𝓝 𝓑 → Call → Run 𝓝 𝓑
  step c (comes_in p clock) = (handle_incoming_packet 𝓝 𝓑 c clock p).0
  step c (times_out clock) = timeout_check 𝓝 𝓑 c clock
  step c (closes clock) = close 𝓝 𝓑 c clock
  step c (resets clock) = reset_conn 𝓝 𝓑 c clock

  -- A packet that comes in, a timeout check, `close` up to its interval and `reset`, in every state, each leave
  -- the connection in a state that the diagram allows.
  pub step-⟶ : (c : Conn 𝓝 𝓑) (call : Call) → c.local_state ⟶ after 𝓝 𝓑 (step c call)
  unfolding step timeout_check close
  step-⟶ c (comes_in p clock) = handle_incoming_packet-⟶ 𝓝 𝓑 c clock p
  step-⟶ c (times_out clock) = timeout_check_in-⟶ 𝓝 𝓑 c clock c.local_state refl
  step-⟶ c (closes clock) = close_in-⟶ 𝓝 𝓑 c clock c.local_state refl
  step-⟶ c (resets clock) =
      subst (λ s. c.local_state ⟶ s) (sym (state-reset_conn 𝓝 𝓑 c clock)) broken

  -- the calls of a list, one after the other
  unfoldable pub run : Conn 𝓝 𝓑 → List Call → Run 𝓝 𝓑
  run c [] = (c, [])
  run c (call ∷ calls) = ◌>>>◌ 𝓝 𝓑 (step c call) (λ c'. run c' calls)
