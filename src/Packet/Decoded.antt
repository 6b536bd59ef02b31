-- ===== src/Packet/Decoded.antt =====
-- The extensions that `fromBytes` makes of bytes fit their bytes again.
use utp.Base.{
  ℕ, zero, suc, ◌+◌, ◌-◌, ◌%◌, ◌≤◌, ◌<◌, ◌≡◌, ◌≢◌, refl, sym, ◌∙◌, ap, subst, List, [], ◌∷◌, ◌++◌,
  some, arith, length, get_or, get_elem?, take, drop, ◌==◌, Bool-cases, inl, inr,
}
use utp.Sack.{Sack, create_from_bytes}
use utp.Packet.{
  Extension, sack, bits, Error, bad_bitmask, bad_bits, no_fuel, Result, ok, err, ◌>>=◌, get_uint8,
  slice, sack_from_bytes, bits_from_bytes, read_extension, parse_extensions,
}
use utp.Packet.Extensions.{AllFit}

-- a list of bytes
abbrev pub AreBytes : List ℕ → Type 0
AreBytes [] = Unit {0}
AreBytes (b ∷ bs) = (b < 256) × AreBytes bs

pub get_or-lt : (bs : List ℕ) (i : ℕ) → AreBytes bs → get_or bs i 0 < 256
get_or-lt [] i v = omega arith
get_or-lt (b ∷ bs) zero (p, v) = p
get_or-lt (b ∷ bs) (suc i) (p, v) = get_or-lt bs i v

pub drop-get_or :
    (bs : List ℕ) (i : ℕ) → i < length bs → drop i bs ≡ get_or bs i 0 ∷ drop (i + 1) bs
drop-get_or [] i h = absurd (omega arith)
drop-get_or (b ∷ bs) zero h = refl
drop-get_or (b ∷ bs) (suc i) h =
    drop-get_or bs i (omega arith) ∙ ap (λ n. get_or bs i 0 ∷ drop n (b ∷ bs)) next
  where
    next : suc (i + 1) ≡ suc i + 1
    next = omega arith

AllFit-append :
    (ack : ℕ) (es fs : List Extension) → AllFit ack es → AllFit ack fs → AllFit ack (es ++ fs)
AllFit-append ack [] fs v w = w
AllFit-append ack (e ∷ es) fs (p, v) w = (p, AllFit-append ack es fs v w)

length-take-le : (xs : List ℕ) (n : ℕ) → length (take n xs) ≤ n
length-take-le [] zero = omega arith
length-take-le [] (suc n) = omega arith
length-take-le (x ∷ xs) zero = omega arith
length-take-le (x ∷ xs) (suc n) = omega (arith, length-take-le xs n)

or_else {ℓ} : {A : Type ℓ} → A → Result A → A
or_else a (ok b) = b
or_else a (err _) = a

pub ok-injective {ℓ} : {A : Type ℓ} (a b : A) → ok a ≡ ok b → a ≡ b
unfolding or_else
ok-injective a b e = ap (or_else a) e

pub err-ne-ok {ℓ} : {A : Type ℓ} (e : Error) (a : A) → err e ≢ ok a
err-ne-ok e a h = cc

-- What the body of the loop makes of a payload fits.
read_extension-AllFit :
    (ack type : ℕ) (payload : List ℕ) (es : List Extension)
    → length payload ≤ 255
    → read_extension ack type payload ≡ ok es
    → AllFit ack es
unfolding read_extension sack_from_bytes bits_from_bytes create_from_bytes
read_extension-AllFit ack type payload es short e = elim (Bool-cases (type == 1)) [
  | inl is_sack ↦ elim (Bool-cases (length payload % 4 == 0)) [
    | inl whole ↦
        let s : Sack = record { base = ack; bitmask = payload } in
        let read : read_extension ack type payload ≡ ok (sack s ∷ []) =
          rw (is_sack, sack_from_bytes, create_from_bytes, whole) refl in
        subst (AllFit ack) (ok-injective (sack s ∷ []) es (sym read ∙ e))
          ((refl, ground (arith, whole), short), tt)
    | inr broken ↦
        let read : read_extension ack type payload ≡ err bad_bitmask =
          rw (is_sack, sack_from_bytes, create_from_bytes, broken) refl in
        absurd (err-ne-ok bad_bitmask es (sym read ∙ e))
  ]
  | inr other ↦ elim (Bool-cases (type == 2)) [
    | inl is_bits ↦ elim (Bool-cases (length payload == 8)) [
      | inl eight ↦
          let read : read_extension ack type payload ≡ ok (bits payload ∷ []) =
            rw (other, is_bits, bits_from_bytes, eight) refl in
          subst (AllFit ack) (ok-injective (bits payload ∷ []) es (sym read ∙ e))
            (ground (arith, eight), tt)
      | inr broken ↦
          let read : read_extension ack type payload ≡ err bad_bits =
            rw (other, is_bits, bits_from_bytes, broken) refl in
          absurd (err-ne-ok bad_bits es (sym read ∙ e))
    ]
    | inr unknown ↦
        let read : read_extension ack type payload ≡ ok [] = rw (other, unknown) refl in
        subst (AllFit ack) (ok-injective [] es (sym read ∙ e)) tt
  ]
]

get_elem?-small : (bs : List ℕ) (i x : ℕ) → AreBytes bs → get_elem? bs i ≡ some x → x < 256
get_elem?-small [] i x v e = absurd (ground arith)
get_elem?-small (b ∷ bs) zero x (p, v) e = ground arith
get_elem?-small (b ∷ bs) (suc i) x (p, v) e = get_elem?-small bs i x v e

get_uint8-small : (bs : List ℕ) (i x : ℕ) → AreBytes bs → get_uint8 bs i ≡ ok x → x < 256
unfolding get_uint8
get_uint8-small bs i x v e = ground (arith, get_elem?-small bs i x v)

-- The length of a payload is a byte.
slice-short :
    (bytes : List ℕ) (offset l : ℕ)
    → AreBytes bytes
    → get_uint8 bytes (offset + 1) ≡ ok l
    → length (slice bytes (offset + 2) (offset + 2 + l)) ≤ 255
unfolding slice
slice-short bytes offset l v e = omega (
  arith,
  get_uint8-small bytes (offset + 1) l v e,
  length-take-le (drop (offset + 2) bytes) (offset + 2 + l - (offset + 2)),
)

-- a step of a chain of results, when the whole of it succeeds
pub bind-ok {ℓ κ} :
    {A : Type ℓ} {B : Type κ} (m : Result A) (f : A → Result B) (b : B)
    → (m >>= f) ≡ ok b
    → (a : A) × (m ≡ ok a) × (f a ≡ ok b)
bind-ok (ok a) f b e = (a, refl, e)
bind-ok (err x) f b e = absurd (err-ne-ok x b e)

pub parse_extensions-AllFit :
    (fuel : ℕ) (bytes : List ℕ) (ack type offset : ℕ) (r : List Extension × ℕ)
    → AreBytes bytes
    → parse_extensions fuel bytes ack type offset ≡ ok r
    → AllFit ack r.0
unfolding parse_extensions
parse_extensions-AllFit zero bytes ack type offset r v e = absurd (err-ne-ok no_fuel r e)
parse_extensions-AllFit (suc fuel) bytes ack zero offset r v e =
    subst (λ r. AllFit ack r.0) (ok-injective ([], offset) r e) tt
parse_extensions-AllFit (suc fuel) bytes ack (suc t) offset r v e =
    let (next, _, e1) = bind-ok (get_uint8 bytes offset) _ r e in
    let (l, at_l, e2) = bind-ok (get_uint8 bytes (offset + 1)) _ r e1 in
    let (found, read, e3) =
      bind-ok (read_extension ack (suc t) (slice bytes (offset + 2) (offset + 2 + l))) _ r e2 in
    let ((more, end), parsed, e4) =
      bind-ok (parse_extensions fuel bytes ack next (offset + 2 + l)) _ r e3 in
    subst (λ r. AllFit ack r.0) (ok-injective (found ++ more, end) r e4)
      (AllFit-append ack found more
        (read_extension-AllFit ack (suc t) _ found (slice-short bytes offset l v at_l) read)
        (parse_extensions-AllFit fuel bytes ack next (offset + 2 + l) (more, end) v parsed))
