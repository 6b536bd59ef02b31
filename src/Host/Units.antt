-- ===== src/Host/Units.antt =====
-- Strings and their UTF-16 code units: two strings with the same code units are the same.
use Prim.Native.Nat.{compare, Ordering}
use Prim.Native.Char.{Char, char, code, IsLt}
use Prim.Native.String.{String}
use text.Mathlib.TextEquality.{Char-path}
use utp.Base.{
  ℕ, ◌+◌, ◌-◌, ◌/◌, ◌%◌, ◌^◌, ◌<◌, ◌≡◌, ◌≢◌, ◌⊎◌, inl, inr, refl, sym, ap₂, List, [], ◌∷◌, arith,
  ltb, if◌then◌else◌,
}
use utp.Host.{code_units}

-- the clauses of `IsScalar`, over the three comparisons
abbrev AreBelow : Ordering → Ordering → Type 0
AreBelow Ordering.lt o = IsLt o
AreBelow Ordering.eq _ = ⊥
AreBelow Ordering.gt _ = ⊥

abbrev IsScalarBy : Ordering → Ordering → Ordering → Type 0
IsScalarBy Ordering.lt _ _ = Unit
IsScalarBy Ordering.eq o p = AreBelow o p
IsScalarBy Ordering.gt o p = AreBelow o p

IsLt-lt : (o : Ordering) → IsLt o → o ≡ Ordering.lt
IsLt-lt Ordering.lt h = refl
IsLt-lt Ordering.eq h = elim h [ ]
IsLt-lt Ordering.gt h = elim h [ ]

AreBelow-lt : (p q : Ordering) → AreBelow p q → (p ≡ Ordering.lt) × (q ≡ Ordering.lt)
AreBelow-lt Ordering.lt q h = (refl, IsLt-lt q h)
AreBelow-lt Ordering.eq q h = elim h [ ]
AreBelow-lt Ordering.gt q h = elim h [ ]

IsScalarBy-lt :
    (o p q : Ordering)
    → IsScalarBy o p q
    → (o ≡ Ordering.lt) ⊎ ((p ≡ Ordering.lt) × (q ≡ Ordering.lt))
IsScalarBy-lt Ordering.lt p q h = inl refl
IsScalarBy-lt Ordering.eq p q h = inr (AreBelow-lt p q h)
IsScalarBy-lt Ordering.gt p q h = inr (AreBelow-lt p q h)

-- A character is no half of a pair.
code_range : (c : Char) → (code c < 55296) ⊎ ((57343 < code c) × (code c < 1114112))
code_range (char n p) =
    elim (IsScalarBy-lt (compare n 55296) (compare 57343 n) (compare n 1114112) p) [
      | inl h ↦ inl (ground arith)
      | inr (h, k) ↦ inr (ground arith, ground arith)
    ]

-- the code units of a character, in front of others
abbrev in_front : ℕ → List ℕ → List ℕ
in_front n rest =
    if ltb n (2 ^ 16)
    then n ∷ rest
    else (55296 + (n - 2 ^ 16) / 2 ^ 10) ∷ (56320 + (n - 2 ^ 16) % 2 ^ 10) ∷ rest

abbrev IsCode : ℕ → Type 0
IsCode n = (n < 55296) ⊎ ((57343 < n) × (n < 1114112))

in_front-ne-nil : (n : ℕ) (rest : List ℕ) → in_front n rest ≢ []
in_front-ne-nil n rest e = ground arith

in_front-injective :
    (m n : ℕ) (xs ys : List ℕ)
    → IsCode m
    → IsCode n
    → in_front m xs ≡ in_front n ys
    → (m ≡ n) × (xs ≡ ys)
in_front-injective m n xs ys hm hn e = ground arith

-- Two strings with the same code units are the same.
pub code_units-injective : (s t : String) → code_units s ≡ code_units t → s ≡ t
unfolding code_units
code_units-injective String.[] String.[] e = refl
code_units-injective String.[] (String.◌∷◌ d t) e =
    absurd (in_front-ne-nil (code d) (code_units t) (sym e))
code_units-injective (String.◌∷◌ c s) String.[] e =
    absurd (in_front-ne-nil (code c) (code_units s) e)
code_units-injective (String.◌∷◌ c s) (String.◌∷◌ d t) e =
    let (head, rest) =
      in_front-injective (code c) (code d) (code_units s) (code_units t) (code_range c)
        (code_range d) e in
    ap₂ String.◌∷◌ (Char-path c d head) (code_units-injective s t rest)
