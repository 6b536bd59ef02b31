-- ===== src/Packet/Parse.antt =====
-- How `fromBytes` ends on any datagram, and the datagrams on which it throws.
use utp.Base.{
  ℕ, zero, suc, ◌+◌, ◌*◌, ◌/◌, ◌%◌, ◌^◌, ◌≤◌, ◌<◌, ◌≡◌, ◌≢◌, refl, List, [], ◌∷◌, arith, length,
  ◌∙◌, get_elem?, some, none, ltb, if◌then◌else◌, inl, inr, ◌⊎◌, get_or, drop,
}
use native.Mathlib.Decide.{dec_lt}
use utp.Seq.{ℤ}
use utp.Packet.{
  Packet, num, Extension, Result, Error, range_error, bad_bitmask, bad_bits, no_fuel, ok, err,
  ◌>>=◌, from_bytes, get_uint8, get_uint16, get_uint32, parse_extensions, read_extension,
}

get_elem?-some-lt : (xs : List ℕ) (i x : ℕ) → get_elem? xs i ≡ some x → i < length xs
get_elem?-some-lt [] i x h = ground arith
get_elem?-some-lt (y ∷ ys) zero x h = omega arith
get_elem?-some-lt (y ∷ ys) (suc i) x h = omega (arith, get_elem?-some-lt ys i x h)

read_extension-ne-no_fuel : (ack t : ℕ) (xs : List ℕ) → read_extension ack t xs ≢ err no_fuel
unfolding read_extension
read_extension-ne-no_fuel ack t xs h = ground arith

bind-ne-no_fuel {ℓ κ} :
    {A : Type ℓ} {B : Type κ} (m : Result A) (f : A → Result B)
    → m ≢ err no_fuel
    → ((a : A) → m ≡ ok a → f a ≢ err no_fuel)
    → (m >>= f) ≢ err no_fuel
bind-ne-no_fuel (ok a) f n h e = h a refl e
bind-ne-no_fuel (err range_error) f n h e = cc
bind-ne-no_fuel (err bad_bitmask) f n h e = cc
bind-ne-no_fuel (err bad_bits) f n h e = cc
bind-ne-no_fuel (err no_fuel) f n h e = n refl

get_uint8-ne-no_fuel : (bytes : List ℕ) (i : ℕ) → get_uint8 bytes i ≢ err no_fuel
unfolding get_uint8
get_uint8-ne-no_fuel bytes i h = ground arith

get_uint8-ok-lt : (bytes : List ℕ) (i x : ℕ) → get_uint8 bytes i ≡ ok x → i < length bytes
unfolding get_uint8
get_uint8-ok-lt bytes i x h = ground (arith, get_elem?-some-lt bytes i x)

get_uint16-ne-no_fuel : (bytes : List ℕ) (i : ℕ) → get_uint16 bytes i ≢ err no_fuel
unfolding get_uint16
get_uint16-ne-no_fuel bytes i h = ground arith

get_uint32-ne-no_fuel : (bytes : List ℕ) (i : ℕ) → get_uint32 bytes i ≢ err no_fuel
unfolding get_uint32
get_uint32-ne-no_fuel bytes i h = ground arith

-- The loop does not run out of fuel, if that is more than the bytes that are left.
parse_extensions-ne-no_fuel :
    (fuel : ℕ) (bytes : List ℕ) (ack t offset : ℕ)
    → length bytes < offset + fuel
    → 0 < fuel
    → parse_extensions fuel bytes ack t offset ≢ err no_fuel
unfolding parse_extensions
parse_extensions-ne-no_fuel zero bytes ack t offset h p = absurd (omega arith)
parse_extensions-ne-no_fuel (suc fuel) bytes ack zero offset h p = λ e. cc
parse_extensions-ne-no_fuel (suc fuel) bytes ack (suc t) offset h p =
    bind-ne-no_fuel (get_uint8 bytes offset) _ (get_uint8-ne-no_fuel bytes offset) λ n hn.
      bind-ne-no_fuel (get_uint8 bytes (offset + 1)) _ (get_uint8-ne-no_fuel bytes (offset + 1))
        λ l hl.
          bind-ne-no_fuel (read_extension ack (suc t) _) _ (read_extension-ne-no_fuel ack (suc t) _)
            λ found hf.
              bind-ne-no_fuel (parse_extensions fuel bytes ack n (offset + 2 + l)) _
                (parse_extensions-ne-no_fuel fuel bytes ack n (offset + 2 + l)
                  (omega (arith, get_uint8-ok-lt bytes (offset + 1) l hl))
                  (omega (arith, get_uint8-ok-lt bytes (offset + 1) l hl)))
                (λ r hr e. cc)

-- `fromBytes` always ends, on every list of bytes: with a packet, or with one of the code's errors.
pub from_bytes-ne-no_fuel : (bytes : List ℕ) → from_bytes bytes ≢ err no_fuel
unfolding from_bytes
from_bytes-ne-no_fuel bytes =
    bind-ne-no_fuel (get_uint8 bytes 0) _ (get_uint8-ne-no_fuel bytes 0) λ a0 h0.
      bind-ne-no_fuel (get_uint8 bytes 1) _ (get_uint8-ne-no_fuel bytes 1) λ a1 h1.
        bind-ne-no_fuel (get_uint16 bytes 2) _ (get_uint16-ne-no_fuel bytes 2) λ a2 _.
          bind-ne-no_fuel (get_uint32 bytes 4) _ (get_uint32-ne-no_fuel bytes 4) λ a3 _.
            bind-ne-no_fuel (get_uint32 bytes 8) _ (get_uint32-ne-no_fuel bytes 8) λ a4 _.
              bind-ne-no_fuel (get_uint32 bytes 12) _ (get_uint32-ne-no_fuel bytes 12) λ a5 _.
                bind-ne-no_fuel (get_uint16 bytes 16) _ (get_uint16-ne-no_fuel bytes 16) λ a6 _.
                  bind-ne-no_fuel (get_uint16 bytes 18) _ (get_uint16-ne-no_fuel bytes 18) λ a7 _.
                    bind-ne-no_fuel (parse_extensions (length bytes) bytes a7 a1 20) _
                      (parse_extensions-ne-no_fuel (length bytes) bytes a7 a1 20 (omega arith)
                        (omega (arith, get_uint8-ok-lt bytes 1 a1 h1)))
                      (λ r hr e. cc)

get_elem?-of_lt : (xs : List ℕ) (i : ℕ) → i < length xs → get_elem? xs i ≡ some (get_or xs i 0)
get_elem?-of_lt [] i h = absurd (omega arith)
get_elem?-of_lt (y ∷ ys) zero h = refl
get_elem?-of_lt (y ∷ ys) (suc i) h = get_elem?-of_lt ys i (omega arith)

get_elem?-beyond : (xs : List ℕ) (i : ℕ) → length xs ≤ i → get_elem? xs i ≡ none
get_elem?-beyond [] i h = refl
get_elem?-beyond (y ∷ ys) zero h = absurd (omega arith)
get_elem?-beyond (y ∷ ys) (suc i) h = get_elem?-beyond ys i (omega arith)

module _ (bytes : List ℕ) where
  pub get_uint8-inside : (i : ℕ) → i < length bytes → get_uint8 bytes i ≡ ok (get_or bytes i 0)
  unfolding get_uint8
  get_uint8-inside i h = ground (arith, get_elem?-of_lt bytes i h)

  unfoldable pub get16 : ℕ → ℕ
  get16 i = get_or bytes i 0 * 256 + get_or bytes (i + 1) 0

  get_uint16-inside : (i : ℕ) → i + 1 < length bytes → get_uint16 bytes i ≡ ok (get16 i)
  unfolding get_uint16 get16
  get_uint16-inside i h =
      ground (arith, get_elem?-of_lt bytes i (omega arith), get_elem?-of_lt bytes (i + 1) h)

  unfoldable pub get32 : ℕ → ℕ
  get32 i = get16 i * 2 ^ 16 + get16 (i + 2)

  get_uint32-inside : (i : ℕ) → i + 3 < length bytes → get_uint32 bytes i ≡ ok (get32 i)
  unfolding get_uint32 get32 get16
  get_uint32-inside i h = ground (
    arith,
    get_elem?-of_lt bytes i (omega arith),
    get_elem?-of_lt bytes (i + 1) (omega arith),
    get_elem?-of_lt bytes (i + 2) (omega arith),
    get_elem?-of_lt bytes (i + 2 + 1) (omega arith),
  )

  -- What `fromBytes` makes of the header of 20 bytes or more.
  unfoldable pub header_packet : List Extension → ℕ → Packet
  header_packet extensions offset = record {
    type = get_or bytes 0 0 / 16;
    version = get_or bytes 0 0 % 16;
    extension = get_or bytes 1 0;
    conn_id = get16 2;
    timestamp = get32 4;
    timestamp_difference = num (ℤ.pos (get32 8));
    window_size = get32 12;
    seq_nr = get16 16;
    ack_nr = get16 18;
    extensions = extensions;
    payload = if ltb offset (length bytes) then some (drop offset bytes) else none;
  }

  -- A datagram of 20 bytes or more is decoded or refused by its chain of extensions alone.
  pub from_bytes-inside :
      20 ≤ length bytes
      → from_bytes bytes ≡ (
          parse_extensions (length bytes) bytes (get16 18) (get_or bytes 1 0) 20 >>= λ r.
          ok (header_packet r.0 r.1))
  unfolding from_bytes header_packet
  from_bytes-inside h = rw (
    get_uint8-inside 0 (omega arith),
    get_uint8-inside 1 (omega arith),
    get_uint16-inside 2 (omega arith),
    get_uint32-inside 4 (omega arith),
    get_uint32-inside 8 (omega arith),
    get_uint32-inside 12 (omega arith),
    get_uint16-inside 16 (omega arith),
    get_uint16-inside 18 (omega arith),
  )

get_uint8-beyond : (bytes : List ℕ) (i : ℕ) → length bytes ≤ i → get_uint8 bytes i ≡ err range_error
unfolding get_uint8
get_uint8-beyond bytes i h = ground (arith, get_elem?-beyond bytes i h)

parse_extensions-cut :
    (fuel : ℕ) (bytes : List ℕ) (ack t offset : ℕ)
    → t ≢ 0
    → length bytes < offset + 2
    → parse_extensions (suc fuel) bytes ack t offset ≡ err range_error
unfolding parse_extensions
parse_extensions-cut fuel bytes ack zero offset n h = absurd (n refl)
parse_extensions-cut fuel bytes ack (suc t) offset n h = elim (dec_lt offset (length bytes)) [
  | yes inside ↦
      rw (get_uint8-inside bytes offset inside, get_uint8-beyond bytes (offset + 1) (omega arith))
  | no outside ↦ rw (get_uint8-beyond bytes offset (omega arith))
]

-- A datagram that announces an extension and ends with its header, or one byte behind it, makes
-- `fromBytes` throw.
pub from_bytes-cut :
    (bytes : List ℕ)
    → 20 ≤ length bytes
    → length bytes < 22
    → get_or bytes 1 0 ≢ 0
    → from_bytes bytes ≡ err range_error
from_bytes-cut bytes lo hi ne = from_bytes-inside bytes lo ∙ cut (length bytes) lo
  where
    cut :
        (n : ℕ)
        → 20 ≤ n
        → (parse_extensions n bytes (get16 bytes 18) (get_or bytes 1 0) 20 >>= λ r.
            ok (header_packet bytes r.0 r.1))
          ≡ err range_error
    cut zero h = absurd (omega arith)
    cut (suc n) h = rw (parse_extensions-cut n bytes (get16 bytes 18) (get_or bytes 1 0) 20 ne hi)

pub Result-cases {ℓ} :
    {A : Type ℓ} (r : Result A) → ((a : A) × (r ≡ ok a)) ⊎ ((e : Error) × (r ≡ err e))
Result-cases (ok a) = inl (a, refl)
Result-cases (err e) = inr (e, refl)
