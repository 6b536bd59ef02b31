-- ===== src/Socket/Service/Calls.antt =====
-- src/utp_socket.ts: the life of a socket, as the calls that its user makes and the events that reach it.
use Prim.Native.String.{String}
use utp.Base.{ℕ, Bool, List, [], ◌∷◌, ◌++◌}
use utp.Base.Number.{JsNumber}
use utp.Addr.Create.{ℤ}
use utp.BlockingBuffer.{ByteBuffer}
use utp.Conn.{Clock}
use utp.Socket.Dispatch.{Datagram}
use utp.Socket.Service.{
  Service, Outside, Opening, Outcome, returns, connect, listen, close, poll, arrive, check,
}

pub data Call : Type 0 where
  connects : ℤ → String → Opening → Clock → (random : ℕ) → Call
  listens : ℤ → String → Opening → Call
  arrives : Datagram → (lost : Bool) → Call
  checks : Clock → Call
  closes : Clock → Call
  polls : Clock → Call

module _ (𝓝 : JsNumber) (𝓑 : ByteBuffer) where
  -- a call, with what it sets off and how it ends
  unfoldable pub step : Service 𝓝 𝓑 → Call → (Service 𝓝 𝓑 × List (Outside 𝓝 𝓑)) × Outcome
  step s (connects port hostname o clock random) = connect 𝓝 𝓑 s port hostname o clock random
  step s (listens port hostname o) = listen 𝓝 𝓑 s port hostname o
  step s (arrives d lost) = (arrive 𝓝 𝓑 s d lost, returns)
  step s (checks clock) = (check 𝓝 𝓑 s clock, returns)
  step s (closes clock) = close 𝓝 𝓑 s clock
  step s (polls clock) = poll 𝓝 𝓑 s clock

  -- calls in their order; one that throws does not keep the next ones from being made
  unfoldable pub run : Service 𝓝 𝓑 → List Call → Service 𝓝 𝓑 × List (Outside 𝓝 𝓑)
  run s [] = (s, [])
  run s (call ∷ calls) =
      let ((s', out), _) = step s call in let (s'', more) = run s' calls in (s'', out ++ more)
