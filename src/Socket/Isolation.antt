-- ===== src/Socket/Isolation.antt =====
-- src/utp_socket.ts: which connections a datagram can change.
use utp.Base.{
  ℕ, ◌+◌, ◌≡◌, refl, ◌∙◌, Bool, true, false, ◌&&◌, List, [], ◌∷◌, ◌==◌, if◌then◌else◌, arith,
  Bool-cases, inl, inr, ◌⊎◌, sym, ap,
}
use text.Mathlib.TextEquality.{eq_iff}
use mathlib.Core.Bool.{false≢true}
use utp.Base.Map
use utp.Base.Number.{JsNumber}
use utp.Addr.{Addr, equals}
use utp.Packet.{Packet, Result, Error, ok, err, is_packet, from_bytes, st_syn}
use utp.BlockingBuffer.{ByteBuffer}
use utp.Conn.{Clock}
use utp.Conn.Incoming.{Handled, yes, no, throws}
use utp.Socket.{
  Utp, UniqueId, SocketRun, same_id, same_id_iff, id_key, unique_id, find_conn, has_conn,
}
use utp.Socket.Connect.{create_conn}
use utp.Socket.Dispatch.{
  Datagram, local_send_ids, targets, handle_one, go_next, handle_each, receive_syn, route, dispatch,
  receive,
}
use utp.Socket.Table.{IsValid, Settles, same_table-Settles, handle_one-Settles, connect_to-Settles}

-- the connections that a packet from an address is for
abbrev pub concerns : Addr → Packet → UniqueId → Bool
concerns addr p j =
    equals addr j.addr
    && (if p.type == st_syn
        then j.send_id == p.conn_id && j.recv_id == p.conn_id + 1
        else j.recv_id == p.conn_id)

-- the connections that a datagram is for: none, if it cannot be decoded
abbrev pub concerns_decoded : Addr → Result Packet → UniqueId → Bool
concerns_decoded addr (err e) j = false
concerns_decoded addr (ok p) j = concerns addr p j

abbrev pub addressed : Datagram → UniqueId → Bool
addressed d = concerns_decoded d.sender (from_bytes d.bytes)

abbrev AllIn : (UniqueId → Bool) → List UniqueId → Type 0
AllIn test [] = Unit {0}
AllIn test (id ∷ ids) = (test id ≡ true) × AllIn test ids

pub Result-cases :
    {A : Type 0} (r : Result A) → ((e : Error) × (r ≡ err e)) ⊎ ((a : A) × (r ≡ ok a))
Result-cases (err e) = inl (e, refl)
Result-cases (ok a) = inr (a, refl)

pub nobody : UniqueId
nobody = record { addr = record { port = 0; hostname = "" }; send_id = 0; recv_id = 0 }

module _ (𝓝 : JsNumber) (𝓑 : ByteBuffer) where
  -- From `u` to `u'` the table stays valid, and only the ids that pass the test can have changed.
  pub record Within (test : UniqueId → Bool) (u u' : Utp 𝓝 𝓑) : Type 0 where
    pub valid : IsValid 𝓝 𝓑 u'
    pub others : (j : UniqueId) → test j ≡ false → find_conn 𝓝 𝓑 u' j ≡ find_conn 𝓝 𝓑 u j

  stays-Within : (test : UniqueId → Bool) (u : Utp 𝓝 𝓑) → IsValid 𝓝 𝓑 u → Within test u u
  stays-Within test u v = record { valid = v; others = λ j n. refl }

  then-Within :
      (test : UniqueId → Bool) (u u' u'' : Utp 𝓝 𝓑)
      → Within test u u'
      → Within test u' u''
      → Within test u u''
  then-Within test u u' u'' s t = record {
    valid = t.valid;
    others = λ j n. t.others j n ∙ s.others j n;
  }

  apart :
      (test : UniqueId → Bool) (id j : UniqueId)
      → test id ≡ true
      → test j ≡ false
      → same_id id j ≡ false
  apart test id j y n = elim (Bool-cases (same_id id j)) [
    | inl same ↦ absurd (false≢true (sym n ∙ ap test (sym ((same_id_iff id j).0 same)) ∙ y))
    | inr other ↦ other
  ]

  Within-of_settled :
      (test : UniqueId → Bool) (id : UniqueId) (u u' : Utp 𝓝 𝓑)
      → test id ≡ true
      → Settles 𝓝 𝓑 id u u'
      → Within test u u'
  Within-of_settled test id u u' y s = record {
    valid = s.valid;
    others = λ j n. s.others j (apart test id j y n);
  }

  go_next-Within :
      (test : UniqueId → Bool) (u : Utp 𝓝 𝓑) (r : SocketRun 𝓝 𝓑) (h : Handled)
      (later : SocketRun 𝓝 𝓑 × Bool)
      → Within test u r.0
      → Within test r.0 later.0.0
      → Within test u (go_next 𝓝 𝓑 r h later).0.0
  unfolding go_next
  go_next-Within test u r yes later s t = s
  go_next-Within test u r throws later s t = s
  go_next-Within test u r no later s t = then-Within test u r.0 later.0.0 s t

  handle_each-Within :
      (test : UniqueId → Bool) (ids : List UniqueId) (u : Utp 𝓝 𝓑) (clock : Clock) (p : Packet)
      → AllIn test ids
      → IsValid 𝓝 𝓑 u
      → Within test u (handle_each 𝓝 𝓑 u clock p ids).0.0
  unfolding handle_each
  handle_each-Within test [] u clock p a v = stays-Within test u v
  handle_each-Within test (id ∷ ids) u clock p a v =
      let one = Within-of_settled test id u _ a.0 (handle_one-Settles 𝓝 𝓑 u clock p id v) in
      go_next-Within test u (handle_one 𝓝 𝓑 u clock p id).0 (handle_one 𝓝 𝓑 u clock p id).1 _ one
        (handle_each-Within test ids (handle_one 𝓝 𝓑 u clock p id).0.0 clock p a.1 one.valid)

  equals_self : (a : Addr) → equals a a ≡ true
  unfolding equals
  equals_self a = ground (arith, eq_iff a.hostname a.hostname)

  targets-AllIn :
      (u : Utp 𝓝 𝓑) (addr : Addr) (p : Packet) (ss : List ℕ)
      → (p.type == st_syn) ≡ false
      → AllIn (concerns addr p) (targets 𝓝 𝓑 u addr p.conn_id ss)
  unfolding targets
  targets-AllIn u addr p [] e = tt
  targets-AllIn u addr p (s ∷ ss) e = ground (arith, targets-AllIn u addr p ss e, equals_self addr)

  receive_syn-Within :
      (u : Utp 𝓝 𝓑) (clock : Clock) (p : Packet) (addr : Addr) (random : ℕ)
      → (p.type == st_syn) ≡ true
      → IsValid 𝓝 𝓑 u
      → Within (concerns addr p) u (receive_syn 𝓝 𝓑 u clock p addr random).0
  unfolding receive_syn unique_id create_conn
  receive_syn-Within u clock p addr random e v =
      let id : UniqueId = record { addr = addr; send_id = p.conn_id; recv_id = p.conn_id + 1 } in
      elim (Bool-cases (has_conn 𝓝 𝓑 u id)) [
        | inl known ↦ rw known (stays-Within (concerns addr p) u v)
        | inr new ↦ rw new (
            Within-of_settled (concerns addr p) id u _ (ground (arith, e, equals_self addr))
              (connect_to-Settles 𝓝 𝓑 u clock false _ v))
      ]

  route-Within :
      (u : Utp 𝓝 𝓑) (clock : Clock) (p : Packet) (addr : Addr) (random : ℕ)
      → IsValid 𝓝 𝓑 u
      → Within (concerns addr p) u (route 𝓝 𝓑 u clock p addr random).0.0
  unfolding route
  route-Within u clock p addr random v = elim (Bool-cases (p.type == st_syn)) [
    | inl syn ↦ rw syn (receive_syn-Within u clock p addr random syn v)
    | inr other ↦ rw other (
        handle_each-Within (concerns addr p) _ u clock p
          (targets-AllIn u addr p (local_send_ids p.conn_id) other) v)
  ]

  same_table-Within :
      (test : UniqueId → Bool) (u u' u'' : Utp 𝓝 𝓑)
      → u'.conn_table ≡ u.conn_table
      → IsValid 𝓝 𝓑 u
      → (IsValid 𝓝 𝓑 u' → Within test u' u'')
      → Within test u u''
  unfolding find_conn
  same_table-Within test u u' u'' e v rest =
      let valid = (same_table-Settles 𝓝 𝓑 nobody u u' e v).valid in
      record {
        valid = (rest valid).valid;
        others = λ j n. (rest valid).others j n ∙ ap (Map.get j) e;
      }

  dispatch-Within :
      (u : Utp 𝓝 𝓑) (d : Datagram) → IsValid 𝓝 𝓑 u → Within (addressed d) u (dispatch 𝓝 𝓑 u d).0.0
  unfolding dispatch
  dispatch-Within u d v = elim (Result-cases (is_packet d.bytes)) [
    | inl (e, thrown) ↦ rw (dispatch, thrown) (stays-Within (addressed d) u v)
    | inr (accepted, answered) ↦ elim (Bool-cases accepted) [
      | inl y ↦ elim (Result-cases (from_bytes d.bytes)) [
        | inl (e, thrown) ↦ rw (dispatch, answered, y, thrown) (stays-Within _ u v)
        | inr (p, decoded) ↦
            rw (dispatch, answered, y, decoded)
              (same_table-Within (concerns d.sender p) u _ _ refl v
                (λ w. route-Within _ d.clock p d.sender d.random w))
      ]
      | inr n ↦ rw (dispatch, answered, n) (stays-Within (addressed d) u v)
    ]
  ]

  pub receive-Within :
      (u : Utp 𝓝 𝓑) (d : Datagram) → IsValid 𝓝 𝓑 u → Within (addressed d) u (receive 𝓝 𝓑 u d).0.0
  unfolding receive
  receive-Within u d v = same_table-Within (addressed d) u _ _ refl v (λ w. dispatch-Within _ d w)

  -- On a valid table (no id twice, each connection at its own id), a datagram does not change a connection
  -- that it is not for: one of another address, or with another receive id than the packet names, and for a
  -- SYN one with other ids than those of the answer. A datagram that cannot be decoded changes none.
  pub receive_isolates :
      (u : Utp 𝓝 𝓑) (d : Datagram) (j : UniqueId)
      → IsValid 𝓝 𝓑 u
      → addressed d j ≡ false
      → find_conn 𝓝 𝓑 (receive 𝓝 𝓑 u d).0.0 j ≡ find_conn 𝓝 𝓑 u j
  receive_isolates u d j v n = (receive-Within u d v).others j n
