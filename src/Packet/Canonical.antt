-- ===== src/Packet/Canonical.antt =====
-- What `fromBytes` gives is a packet that the wire format can carry, and a datagram without extensions is written again
-- as it was.
use utp.Base.{
  ℕ, zero, suc, ◌+◌, ◌*◌, ◌/◌, ◌%◌, ◌^◌, bit_or, ◌≤◌, ◌<◌, ◌≡◌, ◌≢◌, refl, sym, ◌∙◌, ap, ap₂, subst,
  List, [], ◌∷◌, ◌++◌, none, some, arith, length, get_or, drop, ltb, if◌then◌else◌, Bool-cases, inl,
  inr,
}
use utp.Packet.{
  Packet, Extension, ok, ◌>>=◌, from_bytes, to_bytes, header, to_uint32, set_uint16, set_uint32,
  parse_extensions, next_type, extension_bytes, payload_bytes,
}
use utp.Packet.Header.{bit_or_nibbles}
use utp.Packet.Extensions.{AllFit}
use utp.Packet.Parse.{get16, get32, header_packet, from_bytes-inside}
use utp.Packet.RoundTrip.{IsWellFormed}
use utp.Packet.Decoded.{
  AreBytes, get_or-lt, drop-get_or, parse_extensions-AllFit, ok-injective, bind-ok,
}

-- the packet with the name of its first extension in its header
abbrev pub renamed : Packet → Packet
renamed p = record p { extension = next_type p.extensions }

set16-bytes : (a b : ℕ) → a < 256 → b < 256 → set_uint16 (a * 256 + b) ≡ a ∷ b ∷ []
set16-bytes a b p q = ground arith

set32-halves : (a b : ℕ) → b < 2 ^ 16 → set_uint32 (a * 2 ^ 16 + b) ≡ set_uint16 a ++ set_uint16 b
set32-halves a b q = ground arith

drop-all : (bs : List ℕ) (n : ℕ) → length bs ≤ n → drop n bs ≡ []
drop-all [] zero h = refl
drop-all [] (suc n) h = refl
drop-all (b ∷ bs) zero h = absurd (omega arith)
drop-all (b ∷ bs) (suc n) h = drop-all bs n (omega arith)

parse-none :
    (fuel : ℕ) (bytes : List ℕ) (ack : ℕ)
    → 0 < fuel
    → parse_extensions fuel bytes ack 0 20 ≡ ok ([], 20)
unfolding parse_extensions
parse-none zero bytes ack h = absurd (omega arith)
parse-none (suc fuel) bytes ack h = refl

drop-two :
    (bs : List ℕ) (i : ℕ)
    → i + 1 < length bs
    → drop i bs ≡ get_or bs i 0 ∷ get_or bs (i + 1) 0 ∷ drop (i + 2) bs
drop-two bs i h =
    drop-get_or bs i (omega arith)
    ∙ ap (◌∷◌ (get_or bs i 0)) (drop-get_or bs (i + 1) h)
    ∙ ap (λ n. get_or bs i 0 ∷ get_or bs (i + 1) 0 ∷ drop n bs) next
  where
    next : i + 1 + 1 ≡ i + 2
    next = omega arith

module _ (bytes : List ℕ) (v : AreBytes bytes) where
  get16-lt : (i : ℕ) → get16 bytes i < 2 ^ 16
  unfolding get16
  get16-lt i = omega (arith, get_or-lt bytes i v, get_or-lt bytes (i + 1) v)

  get32-lt : (i : ℕ) → get32 bytes i < 2 ^ 32
  unfolding get32
  get32-lt i = omega (arith, get16-lt i, get16-lt (i + 2))

  payload-ne :
      (offset : ℕ)
      → (if ltb offset (length bytes) then some (drop offset bytes) else none) ≢ some []
  payload-ne offset e = ground (arith, drop-get_or bytes offset)

  header_packet-IsWellFormed :
      (es : List Extension) (offset : ℕ)
      → AllFit (get16 bytes 18) es
      → IsWellFormed (renamed (header_packet bytes es offset))
  unfolding header_packet
  header_packet-IsWellFormed es offset fit = record {
    type_in = omega (arith, get_or-lt bytes 0 v);
    version_in = omega arith;
    extension_is = refl;
    conn_id_in = get16-lt 2;
    timestamp_in = get32-lt 4;
    difference = get32 bytes 8;
    difference_is = refl;
    difference_in = get32-lt 8;
    window_size_in = get32-lt 12;
    seq_nr_in = get16-lt 16;
    ack_nr_in = get16-lt 18;
    extensions_fit = fit;
    payload_is = payload-ne offset;
  }

  -- A packet that `fromBytes` makes of 20 bytes or more can be carried by the wire format, once its header names the
  -- first of the extensions that it has: the number, type, version and window fit their fields, so do the extensions
  -- and their lengths, and the payload is not empty.
  pub from_bytes-IsWellFormed :
      (p : Packet) → 20 ≤ length bytes → from_bytes bytes ≡ ok p → IsWellFormed (renamed p)
  from_bytes-IsWellFormed p long e =
      let ((es, offset), parsed, made) =
        bind-ok (parse_extensions (length bytes) bytes (get16 bytes 18) (get_or bytes 1 0) 20)
          (λ r. ok (header_packet bytes r.0 r.1)) p (sym (from_bytes-inside bytes long) ∙ e) in
      subst (λ p. IsWellFormed (renamed p)) (ok-injective (header_packet bytes es offset) p made)
        (header_packet-IsWellFormed es offset (
          parse_extensions-AllFit (length bytes) bytes (get16 bytes 18) (get_or bytes 1 0) 20
            (es, offset) v parsed))

  -- writing a field that was read
  set16-get16 :
      (i : ℕ) (rest : List ℕ)
      → i + 1 < length bytes
      → rest ≡ drop (i + 2) bytes
      → set_uint16 (get16 bytes i) ++ rest ≡ drop i bytes
  unfolding get16
  set16-get16 i rest h e =
      let a = get_or bytes i 0 in
      let b = get_or bytes (i + 1) 0 in
      ap (λ l. l ++ rest) (set16-bytes a b (get_or-lt bytes i v) (get_or-lt bytes (i + 1) v))
      ∙ ap (λ r. a ∷ b ∷ r) e
      ∙ sym (drop-two bytes i h)

  set32-get32 :
      (i : ℕ) (rest : List ℕ)
      → i + 3 < length bytes
      → rest ≡ drop (i + 4) bytes
      → set_uint32 (get32 bytes i) ++ rest ≡ drop i bytes
  unfolding get32
  set32-get32 i rest h e =
      ap (λ l. l ++ rest) (set32-halves (get16 bytes i) (get16 bytes (i + 2)) (get16-lt (i + 2)))
      ∙ set16-get16 i (set_uint16 (get16 bytes (i + 2)) ++ rest) (omega arith)
          (set16-get16 (i + 2) rest (omega arith) (e ∙ ap (λ n. drop n bytes) next))
    where
      next : i + 4 ≡ i + 2 + 2
      next = omega arith

  payload-drop :
      20 ≤ length bytes
      → payload_bytes (if ltb 20 (length bytes) then some (drop 20 bytes) else none) ≡ drop 20 bytes
  unfolding payload_bytes
  payload-drop long = elim (Bool-cases (ltb 20 (length bytes))) [
    | inl y ↦ rw y refl
    | inr n ↦ rw n (sym (drop-all bytes 20 (ground (arith, n))))
  ]

  first_byte : bit_or (get_or bytes 0 0 / 16 * 16) (get_or bytes 0 0 % 16) % 256 ≡ get_or bytes 0 0
  first_byte = omega (
    arith,
    bit_or_nibbles (get_or bytes 0 0 / 16) (get_or bytes 0 0 % 16)
        (omega (arith, get_or-lt bytes 0 v)) (omega arith),
    get_or-lt bytes 0 v,
  )

  to_bytes-header_packet : 20 ≤ length bytes → to_bytes (header_packet bytes [] 20) ≡ bytes
  unfolding to_bytes header header_packet extension_bytes to_uint32
  to_bytes-header_packet long =
      let small : get32 bytes 8 % 2 ^ 32 ≡ get32 bytes 8 = omega (arith, get32-lt 8) in
      let second : get_or bytes 1 0 % 256 ≡ get_or bytes 1 0 = omega (arith, get_or-lt bytes 1 v) in
      let payload = payload_bytes (if ltb 20 (length bytes) then some (drop 20 bytes) else none) in
      let from_16 = set_uint16 (get16 bytes 16) ++ set_uint16 (get16 bytes 18) ++ payload in
      let from_12 = set_uint32 (get32 bytes 12) ++ from_16 in
      let from_2 =
        set_uint16 (get16 bytes 2)
        ++ set_uint32 (get32 bytes 4)
        ++ set_uint32 (get32 bytes 8 % 2 ^ 32)
        ++ from_12 in
      let e18 = set16-get16 18 payload (omega arith) (payload-drop long) in
      let e16 = set16-get16 16 (set_uint16 (get16 bytes 18) ++ payload) (omega arith) e18 in
      let e12 = set32-get32 12 from_16 (omega arith) e16 in
      let e8 = ap (λ n. set_uint32 n ++ from_12) small ∙ set32-get32 8 from_12 (omega arith) e12 in
      let e4 = set32-get32 4 (set_uint32 (get32 bytes 8 % 2 ^ 32) ++ from_12) (omega arith) e8 in
      let e2 =
        set16-get16 2 (set_uint32 (get32 bytes 4) ++ set_uint32 (get32 bytes 8 % 2 ^ 32) ++ from_12)
          (omega arith) e4 in
      ap₂ (λ a b. a ∷ b ∷ from_2) first_byte second
      ∙ ap (λ l. get_or bytes 0 0 ∷ get_or bytes 1 0 ∷ l) e2
      ∙ sym (drop-two bytes 0 (omega arith))

  -- A datagram of 20 bytes or more that names no extension is decoded, and what `toBytes` writes for the packet is the
  -- datagram, byte for byte.
  pub to_bytes-from_bytes :
      20 ≤ length bytes
      → get_or bytes 1 0 ≡ 0
      → (from_bytes bytes >>= λ p. ok (to_bytes p)) ≡ ok bytes
  to_bytes-from_bytes long none_named =
      rw
        (
          from_bytes-inside bytes long,
          none_named,
          parse-none (length bytes) bytes (get16 bytes 18) (omega arith),
        )
        (ap ok (to_bytes-header_packet long))
