-- ===== src/Socket/Service.antt =====
-- src/utp_socket.ts: the socket as its user has it: the UDP socket that is opened when it is first needed, the loop that
-- receives, the timer of `timeoutCheck`, `listen`, `connect` and `close`. The address that the UDP socket is bound to,
-- or that it cannot be opened, the number of a new timer and the random numbers are arguments; a bound address is valid.
-- The table of the timer manager is part of the state.
pub mod Calls
pub mod Beside
pub mod Steps
pub mod Sent
pub mod Life
pub mod Sound
pub mod Runs
pub mod Kept
pub mod Lasting
use Prim.Native.String.{String}
use utp.Base.{
  ℕ, Bool, true, false, ◌&&◌, List, [], ◌∷◌, ◌++◌, map, Option, none, some, ◌==◌, if◌then◌else◌,
}
use utp.Base.Map.{Map}
use utp.Base.Texts.{Text, codes, text_key}
use utp.Base.Timing.{Timing}
use utp.Base.Number.{JsNumber}
use utp.Addr.{Addr}
use utp.Addr.Create.{ℤ, create}
use utp.BlockingBuffer.{ByteBuffer}
use utp.Timers.{exist, set_timer, clear_timer}
use utp.Context.{Context, set_listener_type, get_logger, set_enabled}
use utp.Conn.{Clock}
use utp.Socket.{Utp, UtpState, active, Event, SocketRun, close_listener, is_closed}
use utp.Socket.Connect
use utp.Socket.Dispatch
use utp.Socket.Dispatch.{Datagram, Listening, listening, stopped, crashed, receive}
use utp.Socket.Close

-- what the run-time gives when the UDP socket is opened: the address it is bound to, or an exception, and the number
-- of the timer that is set after it
pub record Opening : Type 0 where
  pub bound : Option Addr
  pub timer : ℕ

-- how a call ends
pub data Outcome : Type 0 where
  returns throws : Outcome

unfoldable pub is_active : UtpState → Bool
is_active active = true
is_active UtpState.close_wait = false
is_active UtpState.closed = false

unfoldable pub is_close_wait : UtpState → Bool
is_close_wait active = false
is_close_wait UtpState.close_wait = true
is_close_wait UtpState.closed = false

-- the name of a timer, with the random text that is drawn for it
unfoldable pub timer_name_of : Text → Text
timer_name_of uuid = codes "UTP_TIMEOUT_CHECK_TIMER_" ++ uuid

module _ (𝓝 : JsNumber) (𝓑 : ByteBuffer) where
  -- `udp_socket` is the address that it is bound to; `loop` is that of `startListen`, and `polling` is the interval
  -- of `close`.
  pub record Service : Type 0 where
    pub utp : Utp 𝓝 𝓑
    pub tag : Text
    pub logger : Text
    pub udp_socket : Option Addr
    pub timer_name : Text
    pub is_listening : Bool
    pub mock_packet_loss_enabled : Bool
    pub loop : Option Listening
    pub polling : Bool
    pub timers : Map Text ℕ

  -- what a call sets off outside: the events of the table, `Deno.listenDatagram`, the timers, the interval of `close`,
  -- and the end of the UDP socket
  pub data Outside : Type 0 where
    event : Event 𝓝 𝓑 → Outside
    listen_datagram : ℕ → String → Outside
    timing : Timing → Outside
    close_udp : Outside

  abbrev pub Called : Type 0
  Called = (Service × List Outside) × Outcome

  -- the constructor, with the table of the timer manager
  unfoldable pub construct : Context → Text → Text → Map Text ℕ → Context × Service
  construct context tag uuid timers =
      let (typed, logger) = get_logger (set_listener_type context tag) (codes "UTP_SOCKET") in
      let (context', _) = get_logger typed (codes "UTP_LISTENER") in
      (
        context',
        record {
          utp = record {
            state = active;
            conn_table = [];
            total_bytes_written = 0;
            total_bytes_read = 0;
            total_udp_packet_sent = 0;
            total_udp_packet_received = 0;
            utp_packet_received = 0;
          };
          tag = tag;
          logger = logger;
          udp_socket = none;
          timer_name = timer_name_of uuid;
          is_listening = false;
          mock_packet_loss_enabled = false;
          loop = none;
          polling = false;
          timers = timers;
        },
      )

  -- `enableLogging` and `disableLogging`
  unfoldable pub set_logging : Context → Service → Bool → Context
  set_logging context s enabled = record context {
    behind = set_enabled context.behind s.logger enabled;
  }

  unfoldable pub local_addr : Service → Option Addr
  local_addr s = s.udp_socket

  unfoldable pub start_timeout_check : Service → ℕ → Service × List Outside
  start_timeout_check s timer =
      let (timers', ts) = set_timer s.timers s.timer_name timer in
      (record s { timers = timers' }, map timing ts)

  unfoldable pub stop_timeout_check : Service → Service × List Outside
  stop_timeout_check s =
      let (timers', ts) = clear_timer s.timers s.timer_name in
      (record s { timers = timers' }, map timing ts)

  -- `startListen`, up to its first wait
  unfoldable pub start_listen : Service → Service
  start_listen s = record s { loop = some (if is_closed 𝓝 𝓑 s.utp then stopped else listening) }

  -- behind the call of `Deno.listenDatagram`
  unfoldable pub after_listen_datagram : Service → Opening → Called
  after_listen_datagram s o = elim o.bound [
    | none ↦ ((s, []), throws)
    | some a ↦
        (start_timeout_check (start_listen (record s { udp_socket = some a })) o.timer, returns)
  ]

  -- the port and the host name that it is called with
  unfoldable pub asked_for : Option Addr → ℕ × String
  asked_for none = (0, "0.0.0.0")
  asked_for (some a) = (a.port, a.hostname)

  -- `createUdpSocketIfNone`, by what `#udpSocket` is
  unfoldable pub open_unless : Option Addr → Service → Option Addr → Opening → Called
  open_unless (some _) s addr o = ((s, []), returns)
  open_unless none s addr o =
      let (port, hostname) = asked_for addr in
      let ((s', out), outcome) = after_listen_datagram s o in
      ((s', listen_datagram port hostname ∷ out), outcome)

  unfoldable pub create_udp_socket_if_none : Service → Option Addr → Opening → Called
  create_udp_socket_if_none s addr o = open_unless s.udp_socket s addr o

  -- a call of the table
  abbrev pub with_utp : Service → SocketRun 𝓝 𝓑 → Service × List Outside
  with_utp s (u, out) = (record s { utp = u }, map event out)

  -- `connect`, behind the opening of the UDP socket; `none` is an address that the constructor refuses
  unfoldable pub connect_behind : Service → Option Addr → Clock → ℕ → Called
  connect_behind s none clock random = ((s, []), throws)
  connect_behind s (some a) clock random =
      (with_utp s (Connect.connect 𝓝 𝓑 s.utp clock a random), returns)

  abbrev pub if_returned : Called → (Service → Called) → Called
  if_returned (r, throws) f = (r, throws)
  if_returned ((s, out), returns) f =
      let ((s', more), outcome) = f s in ((s', out ++ more), outcome)

  unfoldable pub connect : Service → ℤ → String → Opening → Clock → ℕ → Called
  connect s port hostname o clock random =
      if_returned (create_udp_socket_if_none s none o)
        (λ s'. connect_behind s' (create port hostname) clock random)

  unfoldable pub listen : Service → ℤ → String → Opening → Called
  listen s port hostname o = elim (create port hostname) [
    | none ↦ ((s, []), throws)
    | some a ↦ create_udp_socket_if_none s (some a) o
  ]

  -- the end of the UDP socket: on one that was never opened, `close` throws
  unfoldable pub end_socket : Option Addr → Service × List Outside → Utp 𝓝 𝓑 → Called
  end_socket none r u = (r, throws)
  end_socket (some _) (s, out) u =
      ((record s { utp = u; polling = false }, out ++ close_udp ∷ []), returns)

  -- `tryCloseSocket`; the interval goes on until the socket is closed
  unfoldable pub try_close_socket : Service → Clock → Called
  try_close_socket s clock =
      let (tried, is_done) = Close.try_close_socket 𝓝 𝓑 s.utp clock in
      if is_done
      then end_socket s.udp_socket (stop_timeout_check s) tried.0
      else (with_utp (record s { polling = true }) tried, returns)

  unfoldable pub close : Service → Clock → Called
  close s clock =
      let waits = record s { utp = record s.utp { state = UtpState.close_wait } } in
      let ((s', out), outcome) = try_close_socket waits clock in
      elim s.utp.state [
        | active ↦ ((s', event close_listener ∷ out), outcome)
        | UtpState.close_wait ↦ ((s, []), returns)
        | UtpState.closed ↦ ((s, []), returns)
      ]

  -- a round of the interval of `close`
  unfoldable pub poll : Service → Clock → Called
  poll s clock = if s.polling then try_close_socket s clock else ((s, []), returns)

  -- a round of the loop of `startListen` that has received; `lost` is the test of the mock packet loss
  unfoldable pub receive_one : Service → Datagram → Bool → Service × List Outside
  receive_one s d lost =
      let ((u, out), threw) = receive 𝓝 𝓑 s.utp d in
      let after = if threw then (if is_closed 𝓝 𝓑 u then stopped else crashed) else listening in
      if s.mock_packet_loss_enabled && lost
      then (s, [])
      else (record s { utp = u; loop = some after }, map event out)

  -- what comes of a datagram, by where the loop stands
  unfoldable pub arrive : Service → Datagram → Bool → Service × List Outside
  arrive s d lost = elim s.loop [
    | none ↦ (s, [])
    | some stopped ↦ (s, [])
    | some crashed ↦ (s, [])
    | some listening ↦
        if is_closed 𝓝 𝓑 s.utp then (record s { loop = some stopped }, []) else receive_one s d lost
  ]

  -- a round of the timer of `timeoutCheck`, if it runs
  unfoldable pub check : Service → Clock → Service × List Outside
  check s clock =
      if exist s.timers s.timer_name
      then with_utp s (Dispatch.timeout_check 𝓝 𝓑 s.utp clock)
      else (s, [])
