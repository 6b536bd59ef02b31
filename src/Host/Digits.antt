-- ===== src/Host/Digits.antt =====
-- src/utilt.ts and the template texts: the digits of a number, which say what the number is.
use utp.Base.{
  ℕ, zero, suc, ◌+◌, ◌-◌, ◌*◌, ◌/◌, ◌≤◌, ◌<◌, ◌≡◌, ◌⊎◌, sym, ap, ◌∙◌, [], ◌∷◌, arith, ltb,
  Bool-cases, inl, inr,
}
use utp.Host.{digits_from, decimal}
use utp.Base.Texts.{Text}
use utp.Host.Parts.{All, Lacks}

abbrev pub AreDigits : Text → Type 0
AreDigits = All (λ c. (b'0' ≤ c) × (c ≤ b'9'))

digits_from-AreDigits : (k n : ℕ) (out : Text) → AreDigits out → AreDigits (digits_from k n out)
unfolding digits_from
digits_from-AreDigits zero n out h = h
digits_from-AreDigits (suc k) n out h = elim (Bool-cases (ltb n 10)) [
  | inl small ↦ rw small ((omega arith, ground arith), h)
  | inr large ↦ rw large (digits_from-AreDigits k (n / 10) _ ((omega arith, omega arith), h))
]

pub decimal-AreDigits : (n : ℕ) → AreDigits (decimal n)
unfolding decimal
decimal-AreDigits n = digits_from-AreDigits (suc n) n [] tt

pub digits-Lacks : (c : ℕ) (s : Text) → AreDigits s → (c < b'0') ⊎ (b'9' < c) → Lacks c s
digits-Lacks c [] h out = tt
digits-Lacks c (d ∷ s) ((lo, hi), h) out = (omega arith, digits-Lacks c s h out)

-- Horner's rule
value : Text → ℕ → ℕ
value [] n = n
value (c ∷ s) n = value s (n * 10 + (c - b'0'))

digits_from-value : (k n : ℕ) (out : Text) → n < k → value (digits_from k n out) 0 ≡ value out n
unfolding digits_from value
digits_from-value zero n out h = absurd (omega arith)
digits_from-value (suc k) n out h = elim (Bool-cases (ltb n 10)) [
  | inl small ↦ rw small (ap (value out) (omega arith))
  | inr large ↦
      rw large (digits_from-value k (n / 10) _ (ground arith) ∙ ap (value out) (omega arith))
]

-- Two numbers with the same digits are the same.
pub decimal-injective : (m n : ℕ) → decimal m ≡ decimal n → m ≡ n
unfolding decimal value
decimal-injective m n e =
    sym (digits_from-value (suc m) m [] (omega arith))
    ∙ ap (λ s. value s 0) e
    ∙ digits_from-value (suc n) n [] (omega arith)
