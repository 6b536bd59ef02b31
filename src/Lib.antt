-- ===== src/Lib.antt =====
-- A model of the μTP library in antt, and what is proved of it.
--
-- The program. A socket (src/utp_socket.ts) owns one UDP port and hands every datagram to a connection
-- (src/utp_conn.ts). A connection takes what comes in apart (src/utp_packet.ts, src/utp_ext_sack.ts,
-- src/utp_ext_bits.ts), keeps what arrived out of order in a bounded queue (src/circular_queue.ts), and
-- writes what is in order to its receive buffer (src/blocking_buffer.ts), from which the application
-- reads. What it sends stays in its send window (src/utp_send_window.ts) until it is acknowledged: the
-- window is a map whose `set` waits for room (src/blocking_map.ts), of a capacity that the congestion
-- control (src/utp_congestion_control.ts) computes from the round trips (src/utp_rtt_tracker.ts).
-- Sequence numbers are compared on a circle of 65536 (`Seq` of src/utilt.ts). A listener
-- (src/utp_listener.ts) hands new connections to the application.
--
-- The files. Base is what the others share: Number is the interface of JavaScript's numbers with
-- fractions, Map is `Map`, an association list in insertion order, Sort is `Array.prototype.sort`, Texts is
-- strings, as lists of UTF-16 code units, Timing is the intervals of the run-time, Tests has the Boolean
-- tests and case splits. Then there is one module for each part, with child modules for
-- its proofs:
--   Seq             `Seq` of src/utilt.ts, on residues below 65536
--   Addr            src/utp_addr.ts: the record and `equals`; Create is the constructor, `fromDenoAddr`,
--                   `hashCode` and `toString`
--   Host            the checks of host names and `hashCode` of src/utilt.ts
--   CircularQueue   src/circular_queue.ts
--   BlockingBuffer  src/blocking_buffer.ts, over `Buffer` of std/io, which is a parameter
--   BlockingMap     src/blocking_map.ts
--   BlockingQueue   src/blocking_queue.ts
--   Listener        src/utp_listener.ts
--   Sack            src/utp_ext_sack.ts
--   Packet          src/utp_packet.ts (`fromBytes`, `toBytes`, `isPacket`) and src/utp_ext_bits.ts
--   Congestion      src/utp_congestion_control.ts
--   Rtt             src/utp_rtt_tracker.ts
--   SendWindow      src/utp_send_window.ts
--   Conn            src/utp_conn.ts: Create makes packets, Incoming is `handleIncomingPacket`, Outgoing is
--                   `write`, `timeoutCheck` and `close`, Closing is `trySafeRelease`, `forceClose` and `reset`,
--                   Promises is what settles the promises of `waitForConnecting` and `close`, with a round of
--                   the interval of `close`, Course is a connection with that interval,
--                   Listeners is the `forEach` of `notifyStateChange`
--   Socket          src/utp_socket.ts: Connect is `connect` and the constructor of a connection, Dispatch is
--                   `dispatch`, the loop of `startListen` and `timeoutCheck`, Close is `close`, Handover
--                   gives the connections that are connected to the listener, Names is the text of a
--                   unique id, Service is the socket as its user has it: its constructor, the opening of
--                   the UDP socket, `listen`, the timer of `timeoutCheck` and the interval of `close`
--   Statistic       src/statistic.ts
--   Timers          src/timer_manager.ts
--   Context         src/utp_context.ts and the state of src/logger.ts
--   Tests           the theorems at concrete inputs
--
-- The state of a class is a record with its fields, and a method is a function from the state before to
-- the state after. What a method sets off beside that, a packet that is sent, a promise that is resolved,
-- a connection that leaves the table, is a list of actions in the order in which the code does them. An
-- `await` that can wait is an outcome of its own, with what is left to do as a value; the call that ends
-- the wait is an operation of the part that is waited on. The clock is an argument. An exception is an
-- outcome or an error value.
--
-- Parameters. `ByteBuffer` is the `Buffer` of std/io with what its documentation says of `write` and
-- `read`; `JsNumber` is arithmetic with fractions, with the order laws that the code relies on. Both have an
-- instance in Tests. `write` takes whether the socket is closed and how many bytes its UDP socket sends of a packet.
--
-- Fuel. `parse_extensions` has the number of bytes of the datagram as its fuel: each round takes at least
-- two bytes. `write_from` has one more than the number of bytes, of which each round takes at least one.
-- That this is enough is among the results. `decimal`, which writes a number in digits, has one more than the
-- number: each round divides it by ten. All other loops run over a list.
--
-- Not modelled: text for the log (`toString` of packets, `print`, the lines that src/logger.ts writes), the UDP socket
-- itself, and the callbacks that timers run, which are operations of the part that sets them. A connection
-- reports its data to its statistic by actions, of which Statistic is the other side. The handlers of the
-- socket run one after the other here: no call starts while another one waits.
pub mod Base
pub mod Addr
pub mod Host
pub mod Seq
pub mod CircularQueue
pub mod Sack
pub mod Packet
pub mod BlockingBuffer
pub mod BlockingQueue
pub mod BlockingMap
pub mod Listener
pub mod Congestion
pub mod Rtt
pub mod SendWindow
pub mod Conn
pub mod Socket
pub mod Statistic
pub mod Timers
pub mod Context
pub mod Tests
