-- ===== src/Base/Number.antt =====
-- JavaScript's numbers where the program computes with fractions. Rounding is not modelled: the type
-- and its operations are a parameter, with the facts about order that the theorems use. They hold for
-- finite doubles, whose rounding is monotone; the program's numbers are finite, since what it divides by
-- is never 0.
use Prim.Native.Nat.{ℕ, ◌≤◌}
use mathlib.Core.Path.{◌≡◌}
use mathlib.Core.Bool.{Bool, true, false, not}
use utp.Base.Tests.{if◌then◌else◌}

pub record JsNumber : Type 1 where
  pub Num : Type 0
  pub of_ℕ : ℕ → Num
  pub plus : Num → Num → Num
  pub minus : Num → Num → Num
  pub times : Num → Num → Num
  pub over : Num → Num → Num
  pub ceil : Num → Num
  pub leb : Num → Num → Bool
  pub le_refl : (a : Num) → leb a a ≡ true
  pub le_trans : (a b c : Num) → leb a b ≡ true → leb b c ≡ true → leb a c ≡ true
  pub le_total : (a b : Num) → leb a b ≡ false → leb b a ≡ true
  pub of_ℕ-mono : (m n : ℕ) → m ≤ n → leb (of_ℕ m) (of_ℕ n) ≡ true
  pub le-ceil : (a : Num) → leb a (ceil a) ≡ true
  pub minus_nonpos : (a b : Num) → leb a b ≡ true → leb (minus a b) (of_ℕ 0) ≡ true
  pub minus_grows : (a d : Num) → leb d (of_ℕ 0) ≡ true → leb a (minus a d) ≡ true
  pub over_nonpos :
      (d t : Num) → leb d (of_ℕ 0) ≡ true → leb t (of_ℕ 0) ≡ false → leb (over d t) (of_ℕ 0) ≡ true
  pub times_nonpos :
      (g d : Num) → leb (of_ℕ 0) g ≡ true → leb d (of_ℕ 0) ≡ true → leb (times g d) (of_ℕ 0) ≡ true
  pub times_grows :
      (w f : Num) → leb (of_ℕ 0) w ≡ true → leb (of_ℕ 1) f ≡ true → leb w (times w f) ≡ true

module _ (𝓝 : JsNumber) where
  open 𝓝 use {Num, leb}

  -- `a < b`
  abbrev pub num_ltb : Num → Num → Bool
  num_ltb a b = not (leb b a)

  -- `Math.max` and `Math.min` of two numbers, neither of them NaN
  abbrev pub num_max : Num → Num → Num
  num_max a b = if leb a b then b else a

  abbrev pub num_min : Num → Num → Num
  num_min a b = if leb a b then a else b
