-- ===== src/Base/Sort.antt =====
-- `Array.prototype.sort` with a comparator that subtracts a key: a stable ascending sort, here by
-- insertion. With it the facts that its users need.
use Prim.Native.Nat.{ℕ, ◌+◌, ◌≤◌}
use mathlib.Core.Path.{◌≡◌, refl, ◌∙◌}
use mathlib.Core.Bool.{Bool, true, false, ◌||◌}
use mathlib.Core.List.{List, [], ◌∷◌, Perm}
use mathlib.Core.List.Perm
use native.Mathlib.Omega.{arith}
use utp.Base.Tests.{if◌then◌else◌, leb, ◌==◌}
use utp.Base.Lists.{length}

unfoldable pub insert_by : (ℕ → ℕ) → ℕ → List ℕ → List ℕ
insert_by key x [] = x ∷ []
insert_by key x (y ∷ ys) = if leb (key x) (key y) then x ∷ y ∷ ys else y ∷ insert_by key x ys

unfoldable pub sort_by : (ℕ → ℕ) → List ℕ → List ℕ
unfolding insert_by
sort_by key [] = []
sort_by key (x ∷ xs) = insert_by key x (sort_by key xs)

unfoldable pub contains : ℕ → List ℕ → Bool
contains x [] = false
contains x (y ∷ ys) = y == x || contains x ys

-- Every element has a key of at least `n`.
abbrev pub AllAbove : (ℕ → ℕ) → ℕ → List ℕ → Type 0
AllAbove key n [] = Unit {0}
AllAbove key n (x ∷ xs) = (n ≤ key x) × AllAbove key n xs

abbrev pub IsSortedBy : (ℕ → ℕ) → List ℕ → Type 0
IsSortedBy key [] = Unit {0}
IsSortedBy key (x ∷ xs) = AllAbove key (key x) xs × IsSortedBy key xs

AllAbove-mono :
    (key : ℕ → ℕ) (m n : ℕ) (xs : List ℕ) → m ≤ n → AllAbove key n xs → AllAbove key m xs
AllAbove-mono key m n [] h a = tt
AllAbove-mono key m n (x ∷ xs) h a = (omega arith, AllAbove-mono key m n xs h a.1)

AllAbove-insert_by :
    (key : ℕ → ℕ) (n x : ℕ) (xs : List ℕ)
    → n ≤ key x
    → AllAbove key n xs
    → AllAbove key n (insert_by key x xs)
unfolding insert_by
AllAbove-insert_by key n x [] h a = (h, tt)
AllAbove-insert_by key n x (y ∷ ys) h a = ground (arith, AllAbove-insert_by key n x ys h a.1)

insert_by-IsSortedBy :
    (key : ℕ → ℕ) (x : ℕ) (xs : List ℕ) → IsSortedBy key xs → IsSortedBy key (insert_by key x xs)
unfolding insert_by
insert_by-IsSortedBy key x [] s = (tt, tt)
insert_by-IsSortedBy key x (y ∷ ys) s = ground (
  arith,
  insert_by-IsSortedBy key x ys s.1,
  AllAbove-mono key (key x) (key y) ys,
  AllAbove-insert_by key (key y) x ys,
)

pub sort_by-IsSortedBy : (key : ℕ → ℕ) (xs : List ℕ) → IsSortedBy key (sort_by key xs)
unfolding sort_by
sort_by-IsSortedBy key [] = tt
sort_by-IsSortedBy key (x ∷ xs) =
    insert_by-IsSortedBy key x (sort_by key xs) (sort_by-IsSortedBy key xs)

insert_by-perm : (key : ℕ → ℕ) (x : ℕ) (xs : List ℕ) → Perm (insert_by key x xs) (x ∷ xs)
unfolding insert_by
insert_by-perm key x [] = Perm.rfl
insert_by-perm key x (y ∷ ys) =
    elim (leb (key x) (key y))
      as (λ b. Perm (if b then x ∷ y ∷ ys else y ∷ insert_by key x ys) (x ∷ y ∷ ys)) [
        | true ↦ Perm.rfl
        | false ↦ Perm.trans (Perm.cons y (insert_by-perm key x ys)) (Perm.swap x y ys)
      ]

pub sort_by-perm : (key : ℕ → ℕ) (xs : List ℕ) → Perm (sort_by key xs) xs
unfolding sort_by
sort_by-perm key [] = Perm.rfl
sort_by-perm key (x ∷ xs) =
    Perm.trans (insert_by-perm key x (sort_by key xs)) (Perm.cons x (sort_by-perm key xs))

contains-insert_by :
    (key : ℕ → ℕ) (z x : ℕ) (xs : List ℕ)
    → contains z (insert_by key x xs) ≡ (x == z || contains z xs)
unfolding insert_by contains
contains-insert_by key z x [] = refl
contains-insert_by key z x (y ∷ ys) = ground (arith, contains-insert_by key z x ys)

pub contains-sort_by :
    (key : ℕ → ℕ) (z : ℕ) (xs : List ℕ) → contains z (sort_by key xs) ≡ contains z xs
unfolding sort_by contains
contains-sort_by key z [] = refl
contains-sort_by key z (x ∷ xs) =
    ground (arith, contains-insert_by key z x (sort_by key xs), contains-sort_by key z xs)

length-insert_by : (key : ℕ → ℕ) (x : ℕ) (xs : List ℕ) → length (insert_by key x xs) ≡ length xs + 1
unfolding insert_by
length-insert_by key x [] = omega arith
length-insert_by key x (y ∷ ys) = ground (arith, length-insert_by key x ys)

pub length-sort_by : (key : ℕ → ℕ) (xs : List ℕ) → length (sort_by key xs) ≡ length xs
unfolding sort_by
length-sort_by key [] = refl
length-sort_by key (x ∷ xs) =
    omega (arith, length-insert_by key x (sort_by key xs), length-sort_by key xs)

-- What lies in a list lies above its bound.
pub contains-AllAbove :
    (key : ℕ → ℕ) (n z : ℕ) (xs : List ℕ) → AllAbove key n xs → contains z xs ≡ true → n ≤ key z
unfolding contains
contains-AllAbove key n z [] a c = ground arith
contains-AllAbove key n z (x ∷ xs) a c = ground (arith, contains-AllAbove key n z xs a.1)

-- Each element lies above those before it.
abbrev pub IsAscending : List ℕ → Type 0
IsAscending [] = Unit {0}
IsAscending (x ∷ xs) = AllAbove (λ k. k) (x + 1) xs × IsAscending xs

-- No element twice.
abbrev pub IsDistinct : List ℕ → Type 0
IsDistinct [] = Unit {0}
IsDistinct (x ∷ xs) = (contains x xs ≡ false) × IsDistinct xs

insert_by-IsDistinct :
    (key : ℕ → ℕ) (x : ℕ) (ys : List ℕ)
    → contains x ys ≡ false
    → IsDistinct ys
    → IsDistinct (insert_by key x ys)
unfolding insert_by contains
insert_by-IsDistinct key x [] c d = (refl, tt)
insert_by-IsDistinct key x (y ∷ ys) c d =
    ground (arith, insert_by-IsDistinct key x ys, contains-insert_by key y x ys)

sort_by-IsDistinct : (key : ℕ → ℕ) (xs : List ℕ) → IsDistinct xs → IsDistinct (sort_by key xs)
unfolding sort_by
sort_by-IsDistinct key [] d = tt
sort_by-IsDistinct key (x ∷ xs) d =
    insert_by-IsDistinct key x (sort_by key xs) (contains-sort_by key x xs ∙ d.0)
      (sort_by-IsDistinct key xs d.1)

AllAbove-strict :
    (x : ℕ) (ys : List ℕ)
    → AllAbove (λ k. k) x ys
    → contains x ys ≡ false
    → AllAbove (λ k. k) (x + 1) ys
unfolding contains
AllAbove-strict x [] a c = tt
AllAbove-strict x (y ∷ ys) a c = ground (arith, AllAbove-strict x ys)

IsAscending-of_sorted : (xs : List ℕ) → IsSortedBy (λ k. k) xs → IsDistinct xs → IsAscending xs
IsAscending-of_sorted [] s d = tt
IsAscending-of_sorted (x ∷ xs) s d =
    (AllAbove-strict x xs s.0 d.0, IsAscending-of_sorted xs s.1 d.1)

-- Sorting distinct numbers gives them in strictly ascending order.
pub sort_by-IsAscending : (xs : List ℕ) → IsDistinct xs → IsAscending (sort_by (λ k. k) xs)
sort_by-IsAscending xs d =
    IsAscending-of_sorted (sort_by (λ k. k) xs) (sort_by-IsSortedBy (λ k. k) xs)
      (sort_by-IsDistinct (λ k. k) xs d)
