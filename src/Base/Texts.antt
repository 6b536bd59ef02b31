-- ===== src/Base/Texts.antt =====
-- Texts are lists of UTF-16 code units, with the operations of the language on them: `split`, `includes`,
-- `startsWith`, `endsWith` and equality.
use Prim.Native.Nat.{ℕ, suc}
use Prim.Native.Char.{code}
use Prim.Native.String.{String}
use mathlib.Core.Path.{◌≡◌, refl, subst}
use mathlib.Core.Bool.{Bool, true, false, ◌&&◌, false≢true}
use mathlib.Core.List.{List, [], ◌∷◌, ◌++◌}
use native.Mathlib.Omega.{arith}
use utp.Base.Tests.{if◌then◌else◌, ◌==◌}
use utp.Base.Map.{Key}

abbrev pub Text : Type 0
Text = List ℕ

-- the text of a literal
abbrev pub codes : String → Text
codes String.[] = []
codes (String.◌∷◌ c s) = code c ∷ codes s

module _ {ℓ} {A : Type ℓ} where
  abbrev pub every : (A → Bool) → List A → Bool
  every test [] = true
  every test (x ∷ xs) = test x && every test xs

abbrev pub same_text : Text → Text → Bool
same_text [] [] = true
same_text [] (_ ∷ _) = false
same_text (_ ∷ _) [] = false
same_text (c ∷ s) (d ∷ t) = c == d && same_text s t

pub same_text_refl : (s : Text) → same_text s s ≡ true
same_text_refl [] = refl
same_text_refl (c ∷ s) = ground (arith, same_text_refl s)

pub same_text_sound : (s t : Text) → same_text s t ≡ true → s ≡ t
same_text_sound [] [] e = refl
same_text_sound [] (d ∷ t) e = absurd (false≢true e)
same_text_sound (c ∷ s) [] e = absurd (false≢true e)
same_text_sound (c ∷ s) (d ∷ t) e = ground (arith, same_text_sound s t)

instance abbrev pub text_key : Key Text
text_key = record {
  same = same_text;
  same_iff =
      λ s t. (same_text_sound s t, λ e. subst (λ u. same_text s u ≡ true) e (same_text_refl s));
}

-- the first part gets another character
unfoldable pub prepend : ℕ → List Text → List Text
prepend c [] = (c ∷ []) ∷ []
prepend c (p ∷ ps) = (c ∷ p) ∷ ps

unfoldable pub split : ℕ → Text → List Text
split sep [] = [] ∷ []
split sep (c ∷ s) = let parts = split sep s in if c == sep then [] ∷ parts else prepend c parts

-- `split` at a double separator
unfoldable pub split_pairs : ℕ → Text → List Text
split_pairs sep [] = [] ∷ []
split_pairs sep (c ∷ []) = (c ∷ []) ∷ []
split_pairs sep (c ∷ d ∷ s) = elim (c == sep && d == sep) [
  | true ↦ [] ∷ split_pairs sep s
  | false ↦ prepend c (split_pairs sep (d ∷ s))
]

-- how many double separators there are that do not overlap
unfoldable pub pairs : ℕ → Text → ℕ
pairs sep [] = 0
pairs sep (c ∷ []) = 0
pairs sep (c ∷ d ∷ s) = elim (c == sep && d == sep) [
  | true ↦ suc (pairs sep s)
  | false ↦ pairs sep (d ∷ s)
]

unfoldable pub starts_with : ℕ → Text → Bool
starts_with sep [] = false
starts_with sep (c ∷ _) = c == sep

unfoldable pub ends_with : ℕ → Text → Bool
ends_with sep [] = false
ends_with sep (c ∷ []) = c == sep
ends_with sep (c ∷ d ∷ s) = ends_with sep (d ∷ s)

unfoldable pub has_pair : ℕ → Text → Bool
has_pair sep [] = false
has_pair sep (c ∷ s) =
    let rest = has_pair sep s in if c == sep && starts_with sep s then true else rest

unfoldable pub join : ℕ → List Text → Text
join sep [] = []
join sep (p ∷ []) = p
join sep (p ∷ q ∷ ps) = p ++ sep ∷ join sep (q ∷ ps)
