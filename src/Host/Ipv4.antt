-- ===== src/Host/Ipv4.antt =====
-- src/utilt.ts: `isIPv4` accepts what four bytes are written as, and nothing else.
use mathlib.Core.Bool.{false≢true}
use native.Mathlib.Decide.{dec_lt}
use utp.Base.{
  ℕ, zero, suc, ◌+◌, ◌/◌, ◌%◌, ◌≤◌, ◌<◌, ◌≡◌, ◌↔◌, refl, sym, ◌∙◌, true, false, ◌&&◌, List, [], ◌∷◌,
  arith, ◌==◌, length, none, some,
}
use utp.Host.{
  is_digit, is_space, digits_value, parse_digits, parse_signed, parse_int, digits_from, decimal,
  to_text, is_ipv4_part, is_ipv4, is_byte, Parsed,
}
use utp.Base.Texts.{Text, every, split, join, same_text_refl, same_text_sound}
use utp.Host.Parts.{Lacks, join-split, split-join}

small_decimal : (n : ℕ) → n < 10 → decimal n ≡ (b'0' + n) ∷ []
unfolding decimal digits_from
small_decimal n h = ground arith

medium_decimal : (n : ℕ) → 10 ≤ n → n < 100 → decimal n ≡ (b'0' + n / 10) ∷ (b'0' + n % 10) ∷ []
unfolding decimal digits_from
medium_decimal zero h k = absurd (omega arith)
medium_decimal (suc n) h k = ground arith

large_decimal :
    (n : ℕ)
    → 100 ≤ n
    → n < 1000
    → decimal n ≡ (b'0' + n / 100) ∷ (b'0' + (n / 10) % 10) ∷ (b'0' + n % 10) ∷ []
unfolding decimal digits_from
large_decimal zero h k = absurd (omega arith)
large_decimal (suc zero) h k = absurd (omega arith)
large_decimal (suc (suc n)) h k = ground arith

parse_digit :
    (c : ℕ) (s : Text)
    → b'0' ≤ c
    → c ≤ b'9'
    → parse_int (c ∷ s) ≡ some (false, digits_value (c ∷ s) 0)
unfolding parse_int parse_signed parse_digits is_digit is_space
parse_digit c s h k = ground arith

-- The number of what a byte is written as is the byte.
parse_decimal : (n : ℕ) → n ≤ 255 → parse_int (decimal n) ≡ some (false, n)
unfolding digits_value is_digit
parse_decimal n h = elim (dec_lt n 10) [
  | yes k ↦
      rw (small_decimal n k, parse_digit (b'0' + n) [] (omega arith) (omega arith)) (ground arith)
  | no k ↦ elim (dec_lt n 100) [
    | yes l ↦
        rw
          (
            medium_decimal n (omega arith) l,
            parse_digit (b'0' + n / 10) _ (omega arith) (omega arith),
          )
          (ground arith)
    | no l ↦
        rw
          (
            large_decimal n (omega arith) (omega arith),
            parse_digit (b'0' + n / 100) _ (omega arith) (omega arith),
          )
          (ground arith)
  ]
]

decimal-Lacks : (n : ℕ) → n ≤ 255 → Lacks b'.' (decimal n)
decimal-Lacks n h = elim (dec_lt n 10) [
  | yes k ↦ rw (small_decimal n k) (omega arith, tt)
  | no k ↦ elim (dec_lt n 100) [
    | yes l ↦ rw (medium_decimal n (omega arith) l) (omega arith, (omega arith, tt))
    | no l ↦
        rw (large_decimal n (omega arith) (omega arith))
          (omega arith, (omega arith, (omega arith, tt)))
  ]
]

-- what a byte is written as
abbrev pub IsByteText : Text → Type 0
IsByteText p = (n : ℕ) × (n ≤ 255) × (p ≡ decimal n)

byte_sound : (p : Text) (o : Parsed) → is_byte p o ≡ true → IsByteText p
unfolding is_byte to_text
byte_sound p none e = absurd (false≢true e)
byte_sound p (some (true, n)) e = (0, omega arith, same_text_sound p (decimal 0) (ground arith))
byte_sound p (some (false, n)) e = (n, ground arith, same_text_sound p (decimal n) (ground arith))

part_sound : (p : Text) → is_ipv4_part p ≡ true → IsByteText p
unfolding is_ipv4_part
part_sound p e = byte_sound p (parse_int p) e

part_complete : (n : ℕ) → n ≤ 255 → is_ipv4_part (decimal n) ≡ true
unfolding is_ipv4_part is_byte to_text
part_complete n h = rw (parse_decimal n h) (ground (arith, same_text_refl (decimal n)))

-- four numbers with dots between them
abbrev pub dotted : ℕ × ℕ × ℕ × ℕ → Text
dotted (a, b, c, d) = join b'.' (decimal a ∷ decimal b ∷ decimal c ∷ decimal d ∷ [])

abbrev pub AreBytes : ℕ × ℕ × ℕ × ℕ → Type 0
AreBytes (a, b, c, d) = (a ≤ 255) × (b ≤ 255) × (c ≤ 255) × (d ≤ 255)

parts_sound :
    (ps : List Text)
    → (length ps == 4 && every is_ipv4_part ps) ≡ true
    → (bytes : ℕ × ℕ × ℕ × ℕ) × AreBytes bytes × (join b'.' ps ≡ dotted bytes)
parts_sound [] e = absurd (false≢true e)
parts_sound (_ ∷ []) e = absurd (false≢true e)
parts_sound (_ ∷ _ ∷ []) e = absurd (false≢true e)
parts_sound (_ ∷ _ ∷ _ ∷ []) e = absurd (false≢true e)
parts_sound (p ∷ q ∷ r ∷ s ∷ []) e =
    let (a, ha, ea) = part_sound p (ground arith) in
    let (b, hb, eb) = part_sound q (ground arith) in
    let (c, hc, ec) = part_sound r (ground arith) in
    let (d, hd, ed) = part_sound s (ground arith) in ((a, b, c, d), (ha, hb, hc, hd), cc)
parts_sound (_ ∷ _ ∷ _ ∷ _ ∷ _ ∷ ps) e = absurd (ground arith)

split-dotted :
    (a b c d : ℕ)
    → AreBytes (a, b, c, d)
    → split b'.' (dotted (a, b, c, d)) ≡ decimal a ∷ decimal b ∷ decimal c ∷ decimal d ∷ []
split-dotted a b c d (ha, hb, hc, hd) =
    split-join b'.' (decimal a) _
      (decimal-Lacks a ha, (decimal-Lacks b hb, (decimal-Lacks c hc, (decimal-Lacks d hd, tt))))

-- `isIPv4` accepts a text exactly if it is four numbers up to 255, each in decimal without sign, blanks or leading
-- zeros, with dots between them.
pub is_ipv4_iff :
    (s : Text)
    → (is_ipv4 s ≡ true) ↔ ((bytes : ℕ × ℕ × ℕ × ℕ) × AreBytes bytes × (s ≡ dotted bytes))
unfolding is_ipv4
is_ipv4_iff s = (
  (λ e.
      let (bytes, h, j) = parts_sound (split b'.' s) e in (bytes, h, sym (join-split b'.' s) ∙ j)),
  (λ ((a, b, c, d), (ha, hb, hc, hd), e).
      rw
        (
          e,
          split-dotted a b c d (ha, hb, hc, hd),
          part_complete a ha,
          part_complete b hb,
          part_complete c hc,
          part_complete d hd,
        )
        refl),
)
