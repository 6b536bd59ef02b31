-- ===== src/Packet/Extensions.antt =====
-- The chain of extensions: what `toBytes` writes, the loop of `fromBytes` reads back.
use utp.Base.{
  ℕ, zero, suc, ◌+◌, ◌-◌, ◌%◌, ◌≤◌, ◌<◌, ◌≡◌, refl, List, [], ◌∷◌, ◌++◌, arith, length, ap, ap₂,
  ◌∙◌, sym, subst₂, length-append, append_assoc, get_elem?, take, drop, some,
}
use utp.Sack.{create_from_bytes}
use utp.Packet.{
  Extension, sack, bits, ok, get_uint8, slice, parse_extensions, extension_bytes, next_type,
  type_of, payload_of, read_extension,
}

-- What the wire format can carry: a mask of a whole number of words that one byte can count, based on
-- the acknowledged number of its packet, and extension bits of 8 bytes.
abbrev pub Fits : ℕ → Extension → Type 0
Fits ack_nr (sack s) = (s.base ≡ ack_nr) × (length s.bitmask % 4 ≡ 0) × (length s.bitmask ≤ 255)
Fits ack_nr (bits b) = length b ≡ 8

abbrev pub AllFit : ℕ → List Extension → Type 0
AllFit ack_nr [] = Unit {0}
AllFit ack_nr (e ∷ es) = Fits ack_nr e × AllFit ack_nr es

pub get_elem?-append :
    (pre ys : List ℕ) (k : ℕ) → get_elem? (pre ++ ys) (length pre + k) ≡ get_elem? ys k
get_elem?-append [] ys k = ap (get_elem? ys) (omega arith)
get_elem?-append (x ∷ pre) ys k = ap (get_elem? (x ∷ (pre ++ ys))) step ∙ get_elem?-append pre ys k
  where
    step : suc (length pre) + k ≡ suc (length pre + k)
    step = omega arith

pub drop-append : (pre ys : List ℕ) → drop (length pre) (pre ++ ys) ≡ ys
drop-append [] ys = refl
drop-append (x ∷ pre) ys = drop-append pre ys

take-append : (xs ys : List ℕ) → take (length xs) (xs ++ ys) ≡ xs
take-append [] ys = refl
take-append (x ∷ xs) ys = ap (λ l. x ∷ l) (take-append xs ys)

pub drop-append_two : (pre ys : List ℕ) (a b : ℕ) → drop (length pre + 2) (pre ++ a ∷ b ∷ ys) ≡ ys
drop-append_two pre ys a b =
    ap₂ drop count (sym (append_assoc pre (a ∷ b ∷ []) ys)) ∙ drop-append (pre ++ a ∷ b ∷ []) ys
  where
    count : length pre + 2 ≡ length (pre ++ a ∷ b ∷ [])
    count = omega (arith, length-append pre (a ∷ b ∷ []))

slice-append :
    (pre xs ys : List ℕ) (a b : ℕ)
    → slice (pre ++ a ∷ b ∷ (xs ++ ys)) (length pre + 2) (length pre + 2 + length xs) ≡ xs
unfolding slice
slice-append pre xs ys a b = ap₂ take count (drop-append_two pre (xs ++ ys) a b) ∙ take-append xs ys
  where
    count : length pre + 2 + length xs - (length pre + 2) ≡ length xs
    count = omega arith

next_type-lt : (es : List Extension) → next_type es < 256
unfolding next_type type_of
next_type-lt [] = omega arith
next_type-lt (sack s ∷ es) = omega arith
next_type-lt (bits b ∷ es) = omega arith

payload-lt : (ack : ℕ) (e : Extension) → Fits ack e → length (payload_of e) < 256
unfolding payload_of
payload-lt ack (sack s) f = omega arith
payload-lt ack (bits b) f = omega arith

-- an extension that fits is made again from its payload
read_extension_lem :
    (ack : ℕ) (e : Extension)
    → Fits ack e
    → read_extension ack (type_of e) (payload_of e) ≡ ok (e ∷ [])
unfolding read_extension type_of payload_of create_from_bytes
read_extension_lem ack (sack s) f = ground arith
read_extension_lem ack (bits b) f = ground arith

type_of-suc : (e : Extension) → (t : ℕ) × (type_of e ≡ suc t)
unfolding type_of
type_of-suc (sack s) = (0, refl)
type_of-suc (bits b) = (1, refl)

pub read-append : (pre ys : List ℕ) (x : ℕ) → get_uint8 (pre ++ x ∷ ys) (length pre) ≡ ok x
unfolding get_uint8
read-append pre ys x = rw (read_at, get_uint8)
  where
    read_at : get_elem? (pre ++ x ∷ ys) (length pre) ≡ some x
    read_at = ap (get_elem? (pre ++ x ∷ ys)) (omega arith) ∙ get_elem?-append pre (x ∷ ys) 0

pub read-append_next :
    (pre ys : List ℕ) (a x : ℕ) → get_uint8 (pre ++ a ∷ x ∷ ys) (length pre + 1) ≡ ok x
unfolding get_uint8
read-append_next pre ys a x = rw (get_elem?-append, get_uint8)

-- One round of the loop, on the bytes of the extension `e`.
parse_step :
    (fuel ack n end : ℕ) (e : Extension) (es : List Extension) (pre rest : List ℕ)
    → Fits ack e
    → let bytes = pre ++ n ∷ length (payload_of e) ∷ (payload_of e ++ rest) in
      parse_extensions fuel bytes ack n (length pre + 2 + length (payload_of e)) ≡ ok (es, end)
      → parse_extensions (suc fuel) bytes ack (type_of e) (length pre) ≡ ok (e ∷ es, end)
unfolding parse_extensions
parse_step fuel ack n end e es pre rest f rec =
    let (t, et) = type_of-suc e in
    rw (et, read-append, read-append_next, slice-append, ← et, read_extension_lem ack e f, rec)

-- the bytes of one extension in front of the others, with nothing cut off by a byte's width
extension_bytes-cons :
    (ack : ℕ) (e : Extension) (es : List Extension) (tail : List ℕ)
    → Fits ack e
    → extension_bytes (e ∷ es) ++ tail
      ≡ next_type es ∷ length (payload_of e) ∷ (payload_of e ++ (extension_bytes es ++ tail))
unfolding extension_bytes
extension_bytes-cons ack e es tail f =
    ap₂ (λ n l. n ∷ l ∷ ((payload_of e ++ extension_bytes es) ++ tail)) type_byte length_byte
    ∙ ap (λ r. next_type es ∷ length (payload_of e) ∷ r)
        (append_assoc (payload_of e) (extension_bytes es) tail)
  where
    type_byte : next_type es % 256 ≡ next_type es
    type_byte = omega (arith, next_type-lt es)

    length_byte : length (payload_of e) % 256 ≡ length (payload_of e)
    length_byte = omega (arith, payload-lt ack e f)

length-extension_bytes-cons :
    (e : Extension) (es : List Extension)
    → length (extension_bytes (e ∷ es)) ≡ 2 + length (payload_of e) + length (extension_bytes es)
unfolding extension_bytes
length-extension_bytes-cons e es = omega (arith, length-append (payload_of e) (extension_bytes es))

parse_end :
    (fuel ack offset : ℕ) (bytes : List ℕ)
    → parse_extensions (suc fuel) bytes ack (next_type []) offset
      ≡ ok ([], offset + length (extension_bytes []))
unfolding parse_extensions next_type extension_bytes
parse_end fuel ack offset bytes = ap (λ n. ok ([], n)) (omega arith)

-- what is in front of the rest of the chain, once the extension `e` is read
abbrev front_of : Extension → List Extension → List ℕ
front_of e es = next_type es ∷ length (payload_of e) ∷ payload_of e

parse_rest :
    (e : Extension) (es : List Extension) (fuel ack : ℕ) (pre tail : List ℕ)
    → let pre' = pre ++ front_of e es in
      parse_extensions fuel (pre' ++ tail) ack (next_type es) (length pre')
        ≡ ok (es, length pre' + length (extension_bytes es))
      → parse_extensions fuel
          (pre ++ next_type es ∷ length (payload_of e) ∷ (payload_of e ++ tail))
          ack
          (next_type es)
          (length pre + 2 + length (payload_of e))
        ≡ ok (es, length pre + length (extension_bytes (e ∷ es)))
parse_rest e es fuel ack pre tail h =
    subst₂
      (λ bs n.
        parse_extensions fuel bs ack (next_type es) n
        ≡ ok (es, length pre + length (extension_bytes (e ∷ es))))
      (append_assoc pre (front_of e es) tail) count (h ∙ ap (λ n. ok (es, n)) last)
  where
    count : length (pre ++ front_of e es) ≡ length pre + 2 + length (payload_of e)
    count = omega (arith, length-append pre (front_of e es))

    last :
        length (pre ++ front_of e es) + length (extension_bytes es)
        ≡ length pre + length (extension_bytes (e ∷ es))
    last = omega (arith, length-append pre (front_of e es), length-extension_bytes-cons e es)

-- With more fuel than extensions the loop of `fromBytes` reads the chain that `toBytes` wrote, and
-- stops behind it.
pub parse-extension_bytes :
    (es : List Extension) (fuel ack : ℕ) (pre tail : List ℕ)
    → AllFit ack es
    → length es < fuel
    → parse_extensions fuel (pre ++ (extension_bytes es ++ tail)) ack (next_type es) (length pre)
      ≡ ok (es, length pre + length (extension_bytes es))
unfolding next_type
parse-extension_bytes es zero ack pre tail f h = absurd (omega arith)
parse-extension_bytes [] (suc fuel) ack pre tail f h =
    parse_end fuel ack (length pre) (pre ++ (extension_bytes [] ++ tail))
parse-extension_bytes (e ∷ es) (suc fuel) ack pre tail f h =
    ap (λ bs. parse_extensions (suc fuel) (pre ++ bs) ack (type_of e) (length pre))
      (extension_bytes-cons ack e es tail f.0)
    ∙ parse_step fuel ack (next_type es) _ e es pre (extension_bytes es ++ tail) f.0 (
        parse_rest e es fuel ack pre (extension_bytes es ++ tail)
          (parse-extension_bytes es fuel ack (pre ++ front_of e es) tail f.1 (omega arith)))
