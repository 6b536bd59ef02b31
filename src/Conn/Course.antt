-- ===== src/Conn/Course.antt =====
-- src/utp_conn.ts: the states of a connection whose `close` may run its interval between the calls.
use utp.Base.{◌≤◌, ◌≡◌, Bool, true, false, not, ◌||◌, List, [], ◌∷◌, if◌then◌else◌}
use utp.Base.Number.{JsNumber}
use utp.BlockingBuffer.{ByteBuffer}
use utp.Conn.{Conn, State, reset, closed}
use utp.Conn.States.{◌⟶◌}
use utp.Conn.Calls.{Call, comes_in, times_out, closes, resets, step, phase}
use utp.Conn.Fixed.{is_live}
use utp.Conn.Promises.{close_tick}
use utp.Conn.Ending.{Event, called, ticks}

-- The diagram with the interval: the catch of a round closes a connection that was reset meanwhile.
infix 40 ◌⟿◌
pub data ◌⟿◌ : State → State → Type 0 where
  by_call : {s t : State} → s ⟶ t → s ⟿ t
  dropped : reset ⟿ closed

module _ (𝓝 : JsNumber) (𝓑 : ByteBuffer) where
  -- a connection, and whether the interval of its `close` runs
  pub record Course : Type 0 where
    pub conn : Conn 𝓝 𝓑
    pub interval : Bool

  -- whether a call sets the interval: a `close` that its guards let through and whose FIN the socket takes
  unfoldable pub sets_interval : Conn 𝓝 𝓑 → Call → Bool
  sets_interval c (closes clock) = is_live c.local_state
  sets_interval c (comes_in p clock) = false
  sets_interval c (times_out clock) = false
  sets_interval c (resets clock) = false

  -- a call, or a round of the interval if it runs; a round that settles the promise clears it
  unfoldable pub react : Course → Event → Course
  react k (called call) = record {
    conn = (step 𝓝 𝓑 k.conn call).0;
    interval = k.interval || sets_interval k.conn call;
  }
  react k (ticks clock) =
      let (r, settled) = close_tick 𝓝 𝓑 k.conn clock in
      if k.interval then record { conn = r.0; interval = not settled } else k

  unfoldable pub react_all : Course → List Event → Course
  react_all k [] = k
  react_all k (e ∷ es) = react_all (react k e) es

  -- The interval runs on a connection that is closing only.
  abbrev IsValid : Course → Type 0
  IsValid k = k.interval ≡ true → 2 ≤ phase k.conn.local_state
