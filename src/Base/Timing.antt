-- ===== src/Base/Timing.antt =====
-- The intervals of the run-time: what is asked of them, and which run.
use Prim.Native.Nat.{ℕ}
use mathlib.Core.Path.{◌≡◌, refl, ap, ◌∙◌}
use mathlib.Core.Bool.{Bool, true, false}
use mathlib.Core.List.{List, [], ◌∷◌, ◌++◌, map}
use native.Mathlib.Omega.{arith}
use utp.Base.Tests.{if◌then◌else◌, ◌==◌}

-- `setInterval`, with the identifier that it gave, and `clearInterval`
pub data Timing : Type 0 where
  set_interval : ℕ → Timing
  clear_interval : ℕ → Timing

abbrev pub stop : ℕ → List ℕ → List ℕ
stop id [] = []
stop id (i ∷ is) = let rest = stop id is in if i == id then rest else i ∷ rest

-- the intervals that run after what was asked, the oldest first
abbrev pub running : List Timing → List ℕ → List ℕ
running [] is = is
running (set_interval id ∷ ts) is = running ts (is ++ id ∷ [])
running (clear_interval id ∷ ts) is = running ts (stop id is)

abbrev pub lists : ℕ → List ℕ → Bool
lists id [] = false
lists id (i ∷ is) = let rest = lists id is in if i == id then true else rest

abbrev pub AreDistinct : List ℕ → Type 0
AreDistinct [] = Unit {0}
AreDistinct (i ∷ is) = (lists i is ≡ false) × AreDistinct is

pub running-append :
    (ts us : List Timing) (is : List ℕ) → running (ts ++ us) is ≡ running us (running ts is)
running-append [] us is = refl
running-append (set_interval id ∷ ts) us is = running-append ts us (is ++ id ∷ [])
running-append (clear_interval id ∷ ts) us is = running-append ts us (stop id is)

pub stop_absent : (id : ℕ) (is : List ℕ) → lists id is ≡ false → stop id is ≡ is
stop_absent id [] h = refl
stop_absent id (i ∷ is) h = ground (arith, stop_absent id is)

pub lists-stop : (j id : ℕ) (is : List ℕ) → lists j is ≡ false → lists j (stop id is) ≡ false
lists-stop j id [] h = refl
lists-stop j id (i ∷ is) h = ground (arith, lists-stop j id is)

pub lists-append :
    (j : ℕ) (is ks : List ℕ) → lists j (is ++ ks) ≡ (if lists j is then true else lists j ks)
lists-append j [] ks = refl
lists-append j (i ∷ is) ks = ground (arith, lists-append j is ks)

pub stop-AreDistinct : (id : ℕ) (is : List ℕ) → AreDistinct is → AreDistinct (stop id is)
stop-AreDistinct id [] d = tt
stop-AreDistinct id (i ∷ is) (n, d) = ground (arith, stop-AreDistinct id is d, lists-stop i id is n)

pub fresh-AreDistinct :
    (id : ℕ) (is : List ℕ) → lists id is ≡ false → AreDistinct is → AreDistinct (is ++ id ∷ [])
fresh-AreDistinct id [] h d = (refl, tt)
fresh-AreDistinct id (i ∷ is) h (n, d) =
    (ground (arith, lists-append i is (id ∷ [])), fresh-AreDistinct id is (ground arith) d)

pub stop_first : (id : ℕ) (is : List ℕ) → lists id is ≡ false → stop id (id ∷ is) ≡ is
stop_first id is h = ground (arith, stop_absent id is)

-- Stopping each of the intervals that run leaves none.
pub stop_all : (is : List ℕ) → AreDistinct is → running (map clear_interval is) is ≡ []
stop_all [] d = refl
stop_all (i ∷ is) (n, d) = ap (running (map clear_interval is)) (stop_first i is n) ∙ stop_all is d
