-- ===== src/Host/Parts.antt =====
-- src/utilt.ts: what `split` gives on a text, and that joining the parts gives the text back.
use utp.Base.{
  ℕ, ◌≡◌, ◌≢◌, refl, subst, ap, ◌∙◌, List, [], ◌∷◌, ◌++◌, arith, ◌==◌, Bool-cases, inl, inr,
}
use utp.Base.Texts.{Text, split, prepend, join}

module _ {ℓ} {A : Type ℓ} where
  abbrev pub All : (A → Type 0) → List A → Type 0
  All P [] = Unit
  All P (x ∷ xs) = P x × All P xs

  abbrev pub tail : List A → List A
  tail [] = []
  tail (x ∷ xs) = xs

abbrev pub Lacks : ℕ → Text → Type 0
Lacks sep = All (λ c. c ≢ sep)

pub split-cons : (sep : ℕ) (s : Text) → (p : Text) × (ps : List Text) × (split sep s ≡ p ∷ ps)
unfolding split prepend
split-cons sep [] = ([], [], refl)
split-cons sep (c ∷ s) =
    let (p, ps, e) = split-cons sep s in
    elim (Bool-cases (c == sep)) [
      | inl y ↦ ([], split sep s, rw y refl)
      | inr n ↦ (c ∷ p, ps, rw (n, e) refl)
    ]

join-prepend :
    (sep c : ℕ) (p : Text) (ps : List Text) → join sep (prepend c (p ∷ ps)) ≡ c ∷ join sep (p ∷ ps)
unfolding join prepend
join-prepend sep c p [] = refl
join-prepend sep c p (q ∷ ps) = refl

join-empty :
    (sep : ℕ) (p : Text) (ps : List Text) → join sep ([] ∷ p ∷ ps) ≡ sep ∷ join sep (p ∷ ps)
unfolding join
join-empty sep p ps = refl

-- Joining the parts gives the text back.
pub join-split : (sep : ℕ) (s : Text) → join sep (split sep s) ≡ s
unfolding split
join-split sep [] = unfold join in refl
join-split sep (c ∷ s) =
    let (p, ps, e) = split-cons sep s in
    grind (arith, join-split sep s, join-prepend sep c p ps, join-empty sep p ps)

split_lacking : (sep : ℕ) (p : Text) → Lacks sep p → split sep p ≡ p ∷ []
unfolding split prepend
split_lacking sep [] h = refl
split_lacking sep (c ∷ p) (n, h) = ground (arith, split_lacking sep p h)

split-append : (sep : ℕ) (p s : Text) → Lacks sep p → split sep (p ++ sep ∷ s) ≡ p ∷ split sep s
unfolding split prepend
split-append sep [] s h = ground arith
split-append sep (c ∷ p) s (n, h) = ground (arith, split-append sep p s h)

-- Splitting the joined parts gives them back, if none holds the separator.
pub split-join :
    (sep : ℕ) (p : Text) (ps : List Text)
    → All (Lacks sep) (p ∷ ps)
    → split sep (join sep (p ∷ ps)) ≡ p ∷ ps
unfolding join
split-join sep p [] (h, _) = split_lacking sep p h
split-join sep p (q ∷ ps) (h, hs) =
    split-append sep p (join sep (q ∷ ps)) h ∙ ap (λ t. p ∷ t) (split-join sep q ps hs)

after_all : (c : ℕ) (a d : Text) → ¬ (Lacks c (a ++ c ∷ d))
after_all c [] d (n, _) = n refl
after_all c (x ∷ a) d (_, h) = after_all c a d h

-- The last separator of a text is where its two sides are known.
pub cut_last :
    (c : ℕ) (a b d e : Text) → Lacks c d → Lacks c e → a ++ c ∷ d ≡ b ++ c ∷ e → (a ≡ b) × (d ≡ e)
cut_last c [] [] d e hd he p = (refl, ground arith)
cut_last c [] (y ∷ b) d e hd he p = absurd (after_all c b e (subst (Lacks c) (ground arith) hd))
cut_last c (x ∷ a) [] d e hd he p = absurd (after_all c a d (subst (Lacks c) (ground arith) he))
cut_last c (x ∷ a) (y ∷ b) d e hd he p =
    let (q, r) = cut_last c a b d e hd he (ground arith) in (ground arith, r)
