-- ===== src/Socket/Service/Kept.antt =====
-- src/utp_socket.ts: calls that open and end no UDP socket.
use utp.Base.{
  ℕ, ◌+◌, ◌≡◌, refl, ◌∙◌, sym, false, List, [], ◌∷◌, ◌++◌, map, Option, none, some, arith,
  Option-cases, inl, inr,
}
use mathlib.Core.Option.{some-ne-none}
use utp.Base.Number.{JsNumber}
use utp.Base.Texts.{text_key}
use utp.Base.Timing.{Timing}
use utp.Addr.{Addr}
use utp.BlockingBuffer.{ByteBuffer}
use utp.Timers.{set_timer}
use utp.Socket.{UtpState, Event, SocketRun}
use utp.Socket.Service.{
  Service, Outside, Opening, event, listen_datagram, timing, close_udp, start_timeout_check,
  start_listen, after_listen_datagram, open_unless,
}

module _ (𝓝 : JsNumber) (𝓑 : ByteBuffer) where
  abbrev pub Out : Type 0
  Out = List (Outside 𝓝 𝓑)

  -- the calls of `Deno.listenDatagram`, and of `close` of the UDP socket
  abbrev pub openings : Out → ℕ
  openings [] = 0
  openings (listen_datagram _ _ ∷ out) = let rest = openings out in rest + 1
  openings (event _ ∷ out) = openings out
  openings (timing _ ∷ out) = openings out
  openings (close_udp ∷ out) = openings out

  abbrev pub endings : Out → ℕ
  endings [] = 0
  endings (close_udp ∷ out) = let rest = endings out in rest + 1
  endings (event _ ∷ out) = endings out
  endings (timing _ ∷ out) = endings out
  endings (listen_datagram _ _ ∷ out) = endings out

  pub openings-append : (out more : Out) → openings (out ++ more) ≡ openings out + openings more
  openings-append [] more = omega arith
  openings-append (listen_datagram _ _ ∷ out) more = omega (arith, openings-append out more)
  openings-append (event _ ∷ out) more = openings-append out more
  openings-append (timing _ ∷ out) more = openings-append out more
  openings-append (close_udp ∷ out) more = openings-append out more

  endings-append : (out more : Out) → endings (out ++ more) ≡ endings out + endings more
  endings-append [] more = omega arith
  endings-append (close_udp ∷ out) more = omega (arith, endings-append out more)
  endings-append (event _ ∷ out) more = endings-append out more
  endings-append (timing _ ∷ out) more = endings-append out more
  endings-append (listen_datagram _ _ ∷ out) more = endings-append out more

  of_events : (es : List (Event 𝓝 𝓑)) → (openings (map event es) ≡ 0) × (endings (map event es) ≡ 0)
  of_events [] = (refl, refl)
  of_events (e ∷ es) = of_events es

  pub of_timings :
      (ts : List Timing) → (openings (map timing ts) ≡ 0) × (endings (map timing ts) ≡ 0)
  of_timings [] = (refl, refl)
  of_timings (t ∷ ts) = of_timings ts

  -- An open UDP socket keeps its address and is not opened again.
  abbrev pub KeepsOpen : Service 𝓝 𝓑 → Out → Service 𝓝 𝓑 → Type 0
  KeepsOpen s out s' =
      (a : Addr) → s.udp_socket ≡ some a → (s'.udp_socket ≡ some a) × (openings out ≡ 0)

  -- A socket that waits for its connections without the interval of `close` goes on so.
  abbrev pub KeepsWaiting : Service 𝓝 𝓑 → Out → Service 𝓝 𝓑 → Type 0
  KeepsWaiting s out s' =
      s.utp.state ≡ UtpState.close_wait
      → s.polling ≡ false
      → (s'.utp.state ≡ UtpState.close_wait) × (s'.polling ≡ false) × (endings out ≡ 0)

  abbrev pub Keeps : Service 𝓝 𝓑 → Service 𝓝 𝓑 × Out → Type 0
  Keeps s (s', out) = KeepsOpen s out s' × KeepsWaiting s out s'

  pub stays-Keeps : (s : Service 𝓝 𝓑) → Keeps s (s, [])
  stays-Keeps s = (λ a e. (e, refl), λ w n. (w, n, refl))

  pub then-Keeps :
      (s s' s'' : Service 𝓝 𝓑) (out more : Out)
      → Keeps s (s', out)
      → Keeps s' (s'', more)
      → Keeps s (s'', out ++ more)
  then-Keeps s s' s'' out more (p, q) (p', q') = (
    λ a e.
        let (e', none_yet) = p a e in
        let (e'', none_after) = p' a e' in
        (e'', omega (arith, openings-append out more, none_yet, none_after)),
    λ w n.
        let (w', n', none_yet) = q w n in
        let (w'', n'', none_after) = q' w' n' in
        (w'', n'', omega (arith, endings-append out more, none_yet, none_after)),
  )

  -- a call of the table
  pub with_utp-Keeps :
      (s : Service 𝓝 𝓑) (r : SocketRun 𝓝 𝓑)
      → r.0.state ≡ s.utp.state
      → Keeps s (record s { utp = r.0 }, map event r.1)
  with_utp-Keeps s r same =
      let (no_opening, no_ending) = of_events r.1 in
      (λ a e. (e, no_opening), λ w n. (same ∙ w, n, no_ending))

  after_listen_datagram-Keeps :
      (s : Service 𝓝 𝓑) (o : Opening)
      → KeepsWaiting s (after_listen_datagram 𝓝 𝓑 s o).0.1 (after_listen_datagram 𝓝 𝓑 s o).0.0
  unfolding after_listen_datagram start_timeout_check start_listen
  after_listen_datagram-Keeps s o w n = elim (Option-cases o.bound) [
    | inl fails ↦ rw fails (w, n, refl)
    | inr (a, bound) ↦ rw bound (w, n, (of_timings (set_timer s.timers s.timer_name o.timer).1).1)
  ]

  pub open_unless-Keeps :
      (a : Option Addr) (s : Service 𝓝 𝓑) (addr : Option Addr) (o : Opening)
      → s.udp_socket ≡ a
      → Keeps s (open_unless 𝓝 𝓑 a s addr o).0
  unfolding open_unless
  open_unless-Keeps (some _) s addr o e = stays-Keeps s
  open_unless-Keeps none s addr o e =
      (λ a f. absurd (some-ne-none a (sym f ∙ e)), after_listen_datagram-Keeps s o)
