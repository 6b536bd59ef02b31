-- ===== src/Socket/Table.antt =====
-- src/utp_socket.ts: the table of connections. Each stands at its own id, and a call of one connection
-- leaves the others where they are.
use utp.Base.{
  subst, ◌≡◌, refl, ◌∙◌, sym, ap, Bool, false, List, [], ◌∷◌, some, ◌==◌, arith, Bool-cases,
  Option-cases, inl, inr,
}
use utp.Base.Map
use utp.Base.Map.{Map, HasDistinctKeys}
use utp.Addr.{Addr}
use utp.Base.Number.{JsNumber}
use utp.Packet.{Packet, st_reset}
use utp.BlockingBuffer.{ByteBuffer}
use utp.Conn.{
  Conn, Clock, Effect, Run, transmit, go_on, resolve_read, remove_conn, release_statistic,
  received_data, sent_data, state_changed,
}
use utp.Conn.Closing.{reset_conn}
use utp.Conn.Incoming.{handle_incoming_packet}
use utp.Conn.Outgoing
use utp.Socket.{
  Utp, UniqueId, same_id, same_id_iff, id_key, unique_id, find_conn, perform, perform_all, settle,
  send_packet, remove_con,
}
use utp.Socket.Connect.{Ends, create_conn, connect_to}
use utp.Socket.Dispatch.{handle_one}
use utp.Socket.Identity.{handle_incoming_packet-Keeps, reset_conn-Keeps, start_connecting-Keeps}

module _ (𝓝 : JsNumber) (𝓑 : ByteBuffer) where
  -- No id twice, and each connection at its own id.
  pub record IsValid (u : Utp 𝓝 𝓑) : Type 0 where
    pub distinct : HasDistinctKeys u.conn_table
    pub home : (id : UniqueId) (c : Conn 𝓝 𝓑) → find_conn 𝓝 𝓑 u id ≡ some c → unique_id 𝓝 𝓑 c ≡ id

  -- From `u` to `u'` the table stays valid and changes at one id at most.
  pub record Settles (id : UniqueId) (u u' : Utp 𝓝 𝓑) : Type 0 where
    pub valid : IsValid u'
    pub others : (j : UniqueId) → same_id id j ≡ false → find_conn 𝓝 𝓑 u' j ≡ find_conn 𝓝 𝓑 u j

  pub stays : (id : UniqueId) (u : Utp 𝓝 𝓑) → IsValid u → Settles id u u
  stays id u v = record { valid = v; others = λ j n. refl }

  pub then-Settles :
      (id : UniqueId) (u u' u'' : Utp 𝓝 𝓑) → Settles id u u' → Settles id u' u'' → Settles id u u''
  then-Settles id u u' u'' s t = record {
    valid = t.valid;
    others = λ j n. t.others j n ∙ s.others j n;
  }

  -- the table alone
  pub same_table-Settles :
      (id : UniqueId) (u u' : Utp 𝓝 𝓑) → u'.conn_table ≡ u.conn_table → IsValid u → Settles id u u'
  unfolding find_conn
  same_table-Settles id u u' e v = record {
    valid = record {
      distinct = subst HasDistinctKeys (sym e) v.distinct;
      home = λ j c found. v.home j c (ap (Map.get j) (sym e) ∙ found);
    };
    others = λ j n. ap (Map.get j) e;
  }

  remove_con-Settles :
      (id : UniqueId) (u : Utp 𝓝 𝓑) (c : Conn 𝓝 𝓑)
      → unique_id 𝓝 𝓑 c ≡ id
      → IsValid u
      → Settles id u (remove_con 𝓝 𝓑 u c)
  unfolding find_conn remove_con
  remove_con-Settles id u c e v = record {
    valid = record {
      distinct = Map.delete-HasDistinctKeys (unique_id 𝓝 𝓑 c) u.conn_table v.distinct;
      home = λ j d found.
          ground
            (arith, Map.get-delete (unique_id 𝓝 𝓑 c) j u.conn_table v.distinct, v.home j d, found);
    };
    others =
        λ j n. ground (arith, Map.get-delete (unique_id 𝓝 𝓑 c) j u.conn_table v.distinct, e, n);
  }

  pub put-Settles :
      (id : UniqueId) (u : Utp 𝓝 𝓑) (c : Conn 𝓝 𝓑)
      → unique_id 𝓝 𝓑 c ≡ id
      → IsValid u
      → Settles id u (record u { conn_table = Map.set id c u.conn_table })
  unfolding find_conn
  put-Settles id u c e v = record {
    valid = record {
      distinct = Map.set-HasDistinctKeys id c u.conn_table v.distinct;
      home = λ j d found.
          ground (arith, Map.get-set id j c u.conn_table, v.home j d, found, e, same_id_iff id j);
    };
    others = λ j n. ground (arith, Map.get-set id j c u.conn_table, n);
  }

  perform-Settles :
      (id : UniqueId) (u : Utp 𝓝 𝓑) (c : Conn 𝓝 𝓑) (e : Effect)
      → unique_id 𝓝 𝓑 c ≡ id
      → IsValid u
      → Settles id u (perform 𝓝 𝓑 u c e).0
  unfolding perform send_packet
  perform-Settles id u c (transmit p a) h v =
      same_table-Settles id u (send_packet 𝓝 𝓑 u p a).0 (sends u p a) v
    where
      sends :
          (u : Utp 𝓝 𝓑) (p : Packet) (a : Addr)
          → (send_packet 𝓝 𝓑 u p a).0.conn_table ≡ u.conn_table
      sends u p a = ground arith
  perform-Settles id u c remove_conn h v = remove_con-Settles id u c h v
  perform-Settles id u c (go_on k e) h v = stays id u v
  perform-Settles id u c (resolve_read r) h v = stays id u v
  perform-Settles id u c release_statistic h v = stays id u v
  perform-Settles id u c (received_data n) h v = stays id u v
  perform-Settles id u c (sent_data n) h v = stays id u v
  perform-Settles id u c (state_changed s t) h v = stays id u v

  perform_all-Settles :
      (id : UniqueId) (es : List Effect) (u : Utp 𝓝 𝓑) (c : Conn 𝓝 𝓑)
      → unique_id 𝓝 𝓑 c ≡ id
      → IsValid u
      → Settles id u (perform_all 𝓝 𝓑 u c es).0
  unfolding perform_all
  perform_all-Settles id [] u c h v = stays id u v
  perform_all-Settles id (e ∷ es) u c h v =
      let first = perform-Settles id u c e h v in
      then-Settles id u (perform 𝓝 𝓑 u c e).0 _ first
        (perform_all-Settles id es (perform 𝓝 𝓑 u c e).0 c h first.valid)

  pub settle-Settles :
      (id : UniqueId) (u : Utp 𝓝 𝓑) (r : Run 𝓝 𝓑)
      → unique_id 𝓝 𝓑 r.0 ≡ id
      → IsValid u
      → Settles id u (settle 𝓝 𝓑 u id r).0
  unfolding settle
  settle-Settles id u (c, out) h v =
      let put = put-Settles id u c h v in
      then-Settles id u (record u { conn_table = Map.set id c u.conn_table }) _ put
        (perform_all-Settles id out (record u { conn_table = Map.set id c u.conn_table }) c h
          put.valid)

  pub handle_one-Settles :
      (u : Utp 𝓝 𝓑) (clock : Clock) (p : Packet) (id : UniqueId)
      → IsValid u
      → Settles id u (handle_one 𝓝 𝓑 u clock p id).0.0
  unfolding handle_one
  handle_one-Settles u clock p id v = elim (Option-cases (find_conn 𝓝 𝓑 u id)) [
    | inl missing ↦ rw (handle_one, missing) (stays id u v)
    | inr (c, found) ↦ elim (Bool-cases (p.type == st_reset)) [
      | inl resets ↦
          rw (handle_one, found, resets)
            (settle-Settles id u (reset_conn 𝓝 𝓑 c clock)
              (reset_conn-Keeps 𝓝 𝓑 c clock ∙ v.home id c found) v)
      | inr other ↦
          rw (handle_one, found, other)
            (settle-Settles id u (handle_incoming_packet 𝓝 𝓑 c clock p).0
              (handle_incoming_packet-Keeps 𝓝 𝓑 c clock p ∙ v.home id c found) v)
    ]
  ]

  pub connect_to-Settles :
      (u : Utp 𝓝 𝓑) (clock : Clock) (is_initiator : Bool) (ends : Ends)
      → IsValid u
      → Settles
          (unique_id 𝓝 𝓑 (create_conn 𝓝 𝓑 clock is_initiator ends))
          u
          (connect_to 𝓝 𝓑 u clock is_initiator ends).0
  unfolding connect_to
  connect_to-Settles u clock is_initiator ends v =
      let c = create_conn 𝓝 𝓑 clock is_initiator ends in
      settle-Settles (unique_id 𝓝 𝓑 c) u (Outgoing.start_connecting 𝓝 𝓑 c clock).0
        (start_connecting-Keeps 𝓝 𝓑 c clock) v
