-- ===== src/Tests/Lives.antt =====
-- Sockets from their construction on.
use utp.Base.{◌≡◌, refl, true, not, ◌&&◌, ◌||◌, List, [], ◌∷◌, some, ◌==◌, ◌↔◌, arith}
use utp.Base.Map
use utp.Base.Texts.{Text, text_key, codes}
use utp.Addr.Create.{pos}
use utp.Timers.{exist}
use utp.Context
use utp.Socket.{closed, close_wait, is_closed, conn_size}
use utp.Socket.Names.{name_of, name_of_iff}
use utp.Socket.Service.{Service, Opening, throws, construct, close, local_addr, is_close_wait}
use utp.Socket.Service.Calls.{Call, connects, listens, arrives, checks, closes, polls, run}
use utp.Socket.Service.Life.{is_there}
use utp.Socket.Service.Runs.{run-IsSound}
use utp.Socket.Service.Beside.{events}
use utp.Socket.Service.Sent.{datagrams, run_silent}
use utp.Socket.Service.Kept.{openings, endings}
use utp.Socket.Service.Lasting.{opened_once, closed_early}
use utp.Tests.Buffers.{list_buffer}
use utp.Tests.Windows.{naturals, peer}
use utp.Tests.Conns.{endpoint, noon}
use utp.Tests.Sockets.{ack_datagram, other_end, id_of}

abbrev opening : Opening
opening = record { bound = some peer; timer = 7 }

abbrev tag : Text
tag = codes "S"

abbrev uuid : Text
uuid = codes "u"

abbrev fresh : Service naturals list_buffer
fresh = (construct naturals list_buffer Context.new tag uuid []).1

abbrev day : List Call
day =
    connects (pos 80) "peer" opening noon 300
    ∷ arrives ack_datagram true
    ∷ checks noon
    ∷ closes noon
    ∷ polls noon
    ∷ []

-- the socket with its UDP socket open, and the one that is closed
abbrev opened : Service naturals list_buffer
opened = record fresh { udp_socket = some peer }

abbrev over : Service naturals list_buffer
over = record opened { utp = record opened.utp { state = closed } }

run-IsSound_example :
    let (s, _) = run naturals list_buffer fresh day in
    (exist s.timers s.timer_name
      ≡ (is_there s.udp_socket && not (is_closed naturals list_buffer s.utp)))
    × (is_there s.loop ≡ is_there s.udp_socket)
    × ((not s.polling || is_close_wait s.utp.state) ≡ true)
    × ((is_there s.udp_socket || conn_size naturals list_buffer s.utp == 0) ≡ true)
unfolding Map.get
run-IsSound_example =
    run-IsSound naturals list_buffer Context.new tag uuid [] day tt refl
      (omega arith, (tt, (tt, (tt, (tt, tt)))))

run_silent_example :
    let (s', out) = run naturals list_buffer over day in
    (is_closed naturals list_buffer s'.utp ≡ true)
    × (datagrams naturals list_buffer (events naturals list_buffer out) ≡ [])
unfolding is_closed
run_silent_example = run_silent naturals list_buffer day over refl

opened_once_example :
    let (s', out) = run naturals list_buffer opened (listens (pos 81) "other" opening ∷ day) in
    (local_addr naturals list_buffer s' ≡ some peer) × (openings naturals list_buffer out ≡ 0)
unfolding local_addr
opened_once_example =
    opened_once naturals list_buffer (listens (pos 81) "other" opening ∷ day) opened peer refl

closed_early_example :
    let ((s, out), outcome) = close naturals list_buffer fresh noon in
    let (s', more) = run naturals list_buffer s day in
    (outcome ≡ throws)
    × (s'.utp.state ≡ close_wait)
    × (endings naturals list_buffer out ≡ 0)
    × (endings naturals list_buffer more ≡ 0)
closed_early_example = closed_early naturals list_buffer Context.new tag uuid [] noon day

name_of_iff_example :
    (name_of (id_of endpoint) ≡ name_of (id_of other_end)) ↔ (id_of endpoint ≡ id_of other_end)
name_of_iff_example = name_of_iff (id_of endpoint) (id_of other_end)
