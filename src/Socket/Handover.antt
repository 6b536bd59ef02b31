-- ===== src/Socket/Handover.antt =====
-- src/utp_socket.ts: a connection that answers a SYN is handed to the listener once it is connected,
-- `conn.then((conn) => this.listener.addConnection(conn))` of `dispatch`. What the socket's events tell of a connection
-- settles its promise, or the timer of `waitForConnecting` does. That call adds the one listener that the library gives a
-- connection, so that no change passes the listener by. An id stands for one connection here: a later one
-- with the same id has a promise of its own.
pub mod Once
use utp.Base.{
  ℕ, ◌+◌, ◌≡◌, refl, ◌∙◌, sym, ap, ap₂, subst, Bool, true, false, Bool-cases, inl, inr, List, [],
  ◌∷◌, ◌++◌, ◌==◌, if◌then◌else◌, arith,
}
use utp.Base.Number.{JsNumber}
use utp.BlockingBuffer.{ByteBuffer}
use utp.Conn.{
  Effect, State, transmit, go_on, resolve_read, remove_conn, release_statistic, received_data,
  sent_data, state_changed,
}
use utp.Conn.Promises.{
  Promise, Reason, reset_by_remote, is_closed_now, waiting, resolved, rejected, on_state_change,
  on_timeout,
}
use utp.Socket.{
  UniqueId, same_id, same_id_iff, Event, datagram, told, removed, close_listener, close_socket,
}

-- the promises of the connections that wait to be connected, by their ids
abbrev pub Promises : Type 0
Promises = UniqueId → Promise

abbrev pub set_promise : Promises → UniqueId → Promise → Promises
set_promise promises id promise j = if same_id id j then promise else promises j

-- what is done with a promise that has just been told of a state: one that is now resolved is handed over
abbrev pub if_resolved : UniqueId → Promise → Promise → List UniqueId
if_resolved id waiting resolved = id ∷ []
if_resolved id waiting waiting = []
if_resolved id waiting (rejected _) = []
if_resolved id resolved after = []
if_resolved id (rejected _) after = []

module _ (𝓝 : JsNumber) (𝓑 : ByteBuffer) where
  -- What may settle a promise: an event of the socket, or the end of the timer of a connection.
  pub data Tiding : Type 0 where
    heard : Event 𝓝 𝓑 → Tiding
    expires : UniqueId → Tiding

  -- the change of state that an event tells of
  unfoldable pub hear_state : Promises → UniqueId → State → Promises × List UniqueId
  hear_state promises id t =
      let after = on_state_change (promises id) t in
      (set_promise promises id after, if_resolved id (promises id) after)

  unfoldable pub hear_effect : Promises → UniqueId → Effect → Promises × List UniqueId
  hear_effect promises id (state_changed s t) = hear_state promises id t
  hear_effect promises id (transmit p a) = (promises, [])
  hear_effect promises id (go_on k e) = (promises, [])
  hear_effect promises id (resolve_read r) = (promises, [])
  hear_effect promises id remove_conn = (promises, [])
  hear_effect promises id release_statistic = (promises, [])
  hear_effect promises id (received_data n) = (promises, [])
  hear_effect promises id (sent_data n) = (promises, [])

  unfoldable pub hear_event : Promises → Event 𝓝 𝓑 → Promises × List UniqueId
  hear_event promises (told id e) = hear_effect promises id e
  hear_event promises (datagram b a) = (promises, [])
  hear_event promises (removed id c) = (promises, [])
  hear_event promises close_listener = (promises, [])
  hear_event promises close_socket = (promises, [])

  unfoldable pub hear : Promises → Tiding → Promises × List UniqueId
  hear promises (heard e) = hear_event promises e
  hear promises (expires id) = (set_promise promises id (on_timeout (promises id)), [])

  -- the calls of `addConnection` that the events of the socket and the timers lead to, in order
  unfoldable pub hand_over : Promises → List Tiding → Promises × List UniqueId
  hand_over promises [] = (promises, [])
  hand_over promises (t ∷ ts) =
      let (promises', now) = hear promises t in
      let (last, later) = hand_over promises' ts in (last, now ++ later)
