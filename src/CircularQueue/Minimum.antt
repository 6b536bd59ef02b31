-- ===== src/CircularQueue/Minimum.antt =====
-- The smallest key of a map, and when it stays the smallest.
use utp.Base.{
  ℕ, ◌≤◌, ◌≡◌, ◌≢◌, refl, true, List, [], ◌∷◌, none, some, arith, Option-cases, inl, inr,
}
use utp.Base.Map
use utp.Base.Map.{Map, nat_key}
use utp.Base.Sort.{contains, AllAbove, contains-AllAbove}
use utp.CircularQueue.{minimum}

abbrev pub AllFrom : ℕ → List ℕ → Type 0
AllFrom = AllAbove (λ k. k)

AllFrom-mono : (m n : ℕ) (xs : List ℕ) → m ≤ n → AllFrom n xs → AllFrom m xs
AllFrom-mono m n [] h a = tt
AllFrom-mono m n (x ∷ xs) h a = (omega arith, AllFrom-mono m n xs h a.1)

minimum-none : (xs : List ℕ) → minimum xs ≡ none → xs ≡ []
unfolding minimum
minimum-none [] h = refl
minimum-none (x ∷ xs) h = ground arith

pub minimum-AllFrom : (xs : List ℕ) (o : ℕ) → minimum xs ≡ some o → AllFrom o xs
unfolding minimum
minimum-AllFrom [] o h = tt
minimum-AllFrom (x ∷ xs) o h = elim (Option-cases (minimum xs)) [
  | inl e ↦ ground (arith, minimum-none xs e)
  | inr (m, e) ↦ ground (arith, minimum-AllFrom xs m e, AllFrom-mono o m xs)
]

pub minimum-contains : (xs : List ℕ) (o : ℕ) → minimum xs ≡ some o → contains o xs ≡ true
unfolding minimum contains
minimum-contains [] o h = ground arith
minimum-contains (x ∷ xs) o h = elim (Option-cases (minimum xs)) [
  | inl e ↦ ground arith
  | inr (m, e) ↦ ground (arith, minimum-contains xs m e)
]

-- An element below which there is none is the minimum.
pub minimum_of : (xs : List ℕ) (o : ℕ) → contains o xs ≡ true → AllFrom o xs → minimum xs ≡ some o
unfolding minimum contains
minimum_of [] o c a = ground arith
minimum_of (x ∷ xs) o c a = elim (Option-cases (minimum xs)) [
  | inl e ↦ ground (arith, minimum-none xs e, minimum_of xs o)
  | inr (m, e) ↦
      ground
        (arith, minimum_of xs o, minimum-contains xs m e, contains-AllAbove (λ k. k) o m xs a.1)
]

module _ {ℓ} {T : Type ℓ} where
  pub contains-keys : (k : ℕ) (m : Map ℕ T) → contains k (Map.keys m) ≡ Map.has k m
  unfolding contains Map.keys Map.has
  contains-keys k [] = refl
  contains-keys k ((j, w) ∷ m) = ground (arith, contains-keys k m)

  pub AllFrom-delete :
      (k o : ℕ) (m : Map ℕ T) → AllFrom o (Map.keys m) → AllFrom o (Map.keys (Map.delete k m))
  unfolding Map.keys Map.delete
  AllFrom-delete k o [] a = tt
  AllFrom-delete k o ((j, w) ∷ m) a = ground (arith, AllFrom-delete k o m a.1)

  pub minimum-delete_ne :
      (k o : ℕ) (m : Map ℕ T)
      → minimum (Map.keys m) ≡ some o
      → k ≢ o
      → minimum (Map.keys (Map.delete k m)) ≡ some o
  minimum-delete_ne k o m h n =
      minimum_of (Map.keys (Map.delete k m)) o
        (rw (contains-keys o (Map.delete k m), Map.has-delete_ne k o m n, ← contains-keys o m)
          (minimum-contains (Map.keys m) o h))
        (AllFrom-delete k o m (minimum-AllFrom (Map.keys m) o h))

  pub keys-set_present :
      (k : ℕ) (v : T) (m : Map ℕ T) → Map.has k m ≡ true → Map.keys (Map.set k v m) ≡ Map.keys m
  unfolding Map.keys Map.set Map.has
  keys-set_present k v [] h = ground arith
  keys-set_present k v ((j, w) ∷ m) h = ground (arith, keys-set_present k v m)
