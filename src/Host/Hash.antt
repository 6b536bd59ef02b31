-- ===== src/Host/Hash.antt =====
-- src/utilt.ts: `hashCode` is the polynomial of the code units at 31, in 32 bits.
use utp.Base.{ℕ, ◌+◌, ◌-◌, ◌*◌, ◌%◌, ◌^◌, ◌<◌, ◌≡◌, ◌∙◌, [], ◌∷◌, arith}
use utp.Host.{hash_from, hash_code}
use utp.Base.Texts.{Text}

-- Horner's rule without a bound
abbrev pub polynomial : Text → ℕ → ℕ
polynomial [] n = n
polynomial (c ∷ s) n = polynomial s (n * 31 + c)

horner :
    (hash c : ℕ)
    → hash < 2 ^ 32
    → ((hash * 2 ^ 5) % 2 ^ 32 + 2 ^ 32 - hash + c) % 2 ^ 32 ≡ (hash * 31 + c) % 2 ^ 32
horner hash c h = omega arith

polynomial-mod :
    (s : Text) (a b : ℕ)
    → a % 2 ^ 32 ≡ b % 2 ^ 32
    → polynomial s a % 2 ^ 32 ≡ polynomial s b % 2 ^ 32
polynomial-mod [] a b e = e
polynomial-mod (c ∷ s) a b e = polynomial-mod s (a * 31 + c) (b * 31 + c) (omega arith)

wrapped : (n : ℕ) → (n % 2 ^ 32) % 2 ^ 32 ≡ n % 2 ^ 32
wrapped n = omega arith

hash_from-wraps :
    (s : Text) (hash : ℕ) → hash < 2 ^ 32 → hash_from s hash ≡ polynomial s hash % 2 ^ 32
unfolding hash_from
hash_from-wraps [] hash h = omega arith
hash_from-wraps (c ∷ s) hash h =
    let next = ((hash * 2 ^ 5) % 2 ^ 32 + 2 ^ 32 - hash + c) % 2 ^ 32 in
    hash_from-wraps s next (omega arith)
    ∙ polynomial-mod s next (hash * 31 + c) (wrapped _ ∙ horner hash c h)

-- The hash of a text is the residue, in 32 bits, of the sum of its code units, each times 31 to the power of
-- the number of those behind it.
pub hash_code_lem : (s : Text) → hash_code s ≡ polynomial s 0 % 2 ^ 32
unfolding hash_code
hash_code_lem s = hash_from-wraps s 0 (omega arith)
