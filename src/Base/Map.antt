-- ===== src/Base/Map.antt =====
-- JavaScript's `Map`: an association list in insertion order. `set` on a key that is present keeps
-- its place, on a new key it appends; `delete` removes the entry.
use Prim.Native.Nat.{ℕ, suc, ◌+◌, ◌-◌, ◌<◌}
use mathlib.Core.Path.{◌≡◌, refl, ap}
use mathlib.Core.Logic.{◌≢◌, ◌↔◌}
use mathlib.Core.Bool.{Bool, true, false}
use mathlib.Core.List.{List, [], ◌∷◌}
use mathlib.Core.Option.{Option, none, some}
use native.Mathlib.Omega.{arith}
use utp.Base.Tests.{if◌then◌else◌, ==_iff, ◌==◌ as nat_beq}
use utp.Base.Lists.{length}

-- Keys that the map tells apart.
pub record Key {ℓ} (K : Type ℓ) : Type ℓ where
  pub same : K → K → Bool
  pub same_iff : (j k : K) → (same j k ≡ true) ↔ (j ≡ k)

infix 50 ◌==◌
abbrev pub ◌==◌ {ℓ} : {K : Type ℓ} ⦃key : Key K⦄ → K → K → Bool
◌==◌ ⦃key⦄ = key.same

instance abbrev pub nat_key : Key ℕ
nat_key = record { same = nat_beq; same_iff = ==_iff }

abbrev pub Map {ℓ κ} : Type ℓ → Type κ → Type (ℓ ⊔ κ)
Map K V = List (K × V)

module _ {ℓ κ} {K : Type ℓ} {V : Type κ} where
  unfoldable pub keys : Map K V → List K
  keys [] = []
  keys ((k, _) ∷ m) = k ∷ keys m

  unfoldable pub values : Map K V → List V
  values [] = []
  values ((_, v) ∷ m) = v ∷ values m

  unfoldable pub size : Map K V → ℕ
  size [] = 0
  size (_ ∷ m) = suc (size m)

  pub length-keys : (m : Map K V) → length (keys m) ≡ size m
  unfolding keys size
  length-keys [] = refl
  length-keys (_ ∷ m) = ap suc (length-keys m)

module _ {ℓ κ} {K : Type ℓ} {V : Type κ} ⦃e : Key K⦄ where
  unfoldable pub get : K → Map K V → Option V
  get k [] = none
  get k ((j, v) ∷ m) = if j == k then some v else get k m

  unfoldable pub has : K → Map K V → Bool
  has k [] = false
  has k ((j, _) ∷ m) = if j == k then true else has k m

  unfoldable pub set : K → V → Map K V → Map K V
  set k v [] = (k, v) ∷ []
  set k v ((j, w) ∷ m) = if j == k then (j, v) ∷ m else (j, w) ∷ set k v m

  unfoldable pub delete : K → Map K V → Map K V
  delete k [] = []
  delete k ((j, w) ∷ m) = if j == k then m else (j, w) ∷ delete k m

  -- No key stands in two entries.
  abbrev pub HasDistinctKeys : Map K V → Type 0
  HasDistinctKeys [] = Unit {0}
  HasDistinctKeys ((j, _) ∷ m) = (has j m ≡ false) × HasDistinctKeys m

  pub get-none_iff_has : (k : K) (m : Map K V) → has k m ≡ false → get k m ≡ none
  unfolding get has
  get-none_iff_has k [] h = refl
  get-none_iff_has k ((j, w) ∷ m) h = ground (arith, get-none_iff_has k m)

  pub get-set :
      (k j : K) (v : V) (m : Map K V) → get j (set k v m) ≡ (if k == j then some v else get j m)
  unfolding get set
  get-set k j v [] = refl
  get-set k j v ((i, w) ∷ m) =
      ground (arith, e.same_iff k j, e.same_iff i k, e.same_iff i j, get-set k j v m)

  pub has-set :
      (k j : K) (v : V) (m : Map K V) → has j (set k v m) ≡ (if k == j then true else has j m)
  unfolding has set
  has-set k j v [] = refl
  has-set k j v ((i, w) ∷ m) =
      ground (arith, e.same_iff k j, e.same_iff i k, e.same_iff i j, has-set k j v m)

  pub size-set :
      (k : K) (v : V) (m : Map K V) → size (set k v m) ≡ (if has k m then size m else size m + 1)
  unfolding has set size
  size-set k v [] = refl
  size-set k v ((i, w) ∷ m) = ground (arith, size-set k v m)

  pub size-delete :
      (k : K) (m : Map K V) → size (delete k m) ≡ (if has k m then size m - 1 else size m)
  unfolding has delete size
  size-delete k [] = refl
  size-delete k ((i, w) ∷ m) = ground (arith, size-delete k m, has-pos k m)
    where
      has-pos : (k : K) (m : Map K V) → has k m ≡ true → 0 < size m
      has-pos k [] h = ground arith
      has-pos k (_ ∷ m) h = omega arith

  pub has-delete_ne : (k j : K) (m : Map K V) → k ≢ j → has j (delete k m) ≡ has j m
  unfolding has delete
  has-delete_ne k j [] n = refl
  has-delete_ne k j ((i, w) ∷ m) n =
      ground (arith, e.same_iff i k, e.same_iff i j, has-delete_ne k j m)

  pub has-delete :
      (k j : K) (m : Map K V)
      → HasDistinctKeys m
      → has j (delete k m) ≡ (if k == j then false else has j m)
  unfolding has delete
  has-delete k j [] d = ground arith
  has-delete k j ((i, w) ∷ m) d =
      ground (arith, e.same_iff k j, e.same_iff i k, e.same_iff i j, has-delete k j m d.1)

  pub has-of_get-none : (k : K) (m : Map K V) → get k m ≡ none → has k m ≡ false
  unfolding get has
  has-of_get-none k [] h = refl
  has-of_get-none k ((j, w) ∷ m) h = ground (arith, has-of_get-none k m)

  pub delete-absent : (k : K) (m : Map K V) → has k m ≡ false → delete k m ≡ m
  unfolding has delete
  delete-absent k [] h = refl
  delete-absent k ((j, w) ∷ m) h = ground (arith, delete-absent k m)

  pub get-delete :
      (k j : K) (m : Map K V)
      → HasDistinctKeys m
      → get j (delete k m) ≡ (if k == j then none else get j m)
  unfolding get delete
  get-delete k j [] d = ground arith
  get-delete k j ((i, w) ∷ m) d = ground (
    arith,
    e.same_iff k j,
    e.same_iff i k,
    e.same_iff i j,
    get-delete k j m d.1,
    get-none_iff_has i m,
  )

  pub set-HasDistinctKeys :
      (k : K) (v : V) (m : Map K V) → HasDistinctKeys m → HasDistinctKeys (set k v m)
  unfolding has set
  set-HasDistinctKeys k v [] d = (refl, tt)
  set-HasDistinctKeys k v ((i, w) ∷ m) d =
      ground (arith, e.same_iff i k, e.same_iff k i, has-set k i v m, set-HasDistinctKeys k v m d.1)

  pub delete-HasDistinctKeys :
      (k : K) (m : Map K V) → HasDistinctKeys m → HasDistinctKeys (delete k m)
  unfolding has delete
  delete-HasDistinctKeys k [] d = tt
  delete-HasDistinctKeys k ((i, w) ∷ m) d =
      ground (arith, e.same_iff i k, has-delete k i m d.1, delete-HasDistinctKeys k m d.1)
