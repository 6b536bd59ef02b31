-- ===== src/Socket/Arrivals.antt =====
-- src/utp_socket.ts: where a packet goes, and what a broken datagram does to the loop of `startListen`.
use utp.Base.{
  ℕ, zero, suc, ◌+◌, ◌≤◌, ◌<◌, ◌≡◌, ◌≢◌, ap, refl, Bool, false, ◌&&◌, ◌||◌, List, [], ◌∷◌, ◌==◌,
  if◌then◌else◌, arith, length, get_or,
}
use utp.Base.Number.{JsNumber}
use utp.Base.Sort.{contains}
use utp.Addr.{Addr, equals}
use utp.Packet.{is_packet, err, range_error}
use utp.Packet.Accept.{is_packet-cut}
use utp.BlockingBuffer.{ByteBuffer}
use utp.Socket.{Utp, UniqueId, same_id, same_id_iff, id_key, has_conn, is_closed}
use utp.Socket.Dispatch.{
  Datagram, crashed, stopped, local_send_ids, targets, dispatch, receive, listen,
}

-- whether an id is among those of a list
unfoldable pub is_among : UniqueId → List UniqueId → Bool
is_among j [] = false
is_among j (id ∷ ids) = same_id id j || is_among j ids

module _ (𝓝 : JsNumber) (𝓑 : ByteBuffer) where
  targets_lem :
      (u : Utp 𝓝 𝓑) (j : UniqueId) (ss : List ℕ) (addr : Addr) (k : ℕ)
      → is_among j (targets 𝓝 𝓑 u addr k ss)
        ≡ (has_conn 𝓝 𝓑 u j && (equals addr j.addr && (j.recv_id == k && contains j.send_id ss)))
  unfolding targets is_among contains same_id
  targets_lem u j [] addr k = ground arith
  targets_lem u j (s ∷ ss) addr k =
      let id : UniqueId = record { addr = addr; send_id = s; recv_id = k } in
      ground (arith, targets_lem u j ss addr k, same_id_iff id j)

  -- The candidates for a packet, other than a SYN (`targetConns` of `dispatch`, which are then given the packet in turn
  -- until one has handled it), are exactly those connections of the table that have its sender's address and, as
  -- receive id, the id that it names, and whose send id is the one above or below that.
  pub targets_exact :
      (u : Utp 𝓝 𝓑) (j : UniqueId) (addr : Addr) (k : ℕ)
      → is_among j (targets 𝓝 𝓑 u addr k (local_send_ids k)) ≡ (
          has_conn 𝓝 𝓑 u j
          && (equals addr j.addr && (j.recv_id == k && (j.send_id == k + 1 || j.send_id + 1 == k))))
  unfolding local_send_ids contains
  targets_exact u j addr zero = ground (arith, targets_lem u j (1 ∷ []) addr 0)
  targets_exact u j addr (suc k) =
      ground (arith, targets_lem u j ((suc k + 1) ∷ k ∷ []) addr (suc k))

  -- On a socket that is not closed, a datagram of 20 or 21 bytes whose second byte is not 0 ends the loop of
  -- `startListen` by an exception: nothing is sent, and no datagram behind it is received.
  pub listen_crash :
      (u : Utp 𝓝 𝓑) (d : Datagram) (ds : List Datagram)
      → is_closed 𝓝 𝓑 u ≡ false
      → 20 ≤ length d.bytes
      → length d.bytes < 22
      → get_or d.bytes 1 0 ≢ 0
      → ((listen 𝓝 𝓑 u (d ∷ ds)).1 ≡ crashed)
        × ((listen 𝓝 𝓑 u (d ∷ ds)).0.1 ≡ [])
        × ((listen 𝓝 𝓑 u (d ∷ ds)).0.0 ≡ (receive 𝓝 𝓑 u d).0.0)
  unfolding listen receive dispatch is_closed
  listen_crash u d ds open_ long short announces =
      let cut : is_packet d.bytes ≡ err range_error = is_packet-cut d.bytes long short announces in
      rw (listen, open_, receive, dispatch, cut)
        (ap (λ b. if b then stopped else crashed) open_, refl, refl)
