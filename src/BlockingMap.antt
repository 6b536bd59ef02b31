-- ===== src/BlockingMap.antt =====
-- src/blocking_map.ts: a map of limited size, whose `set` waits for room. Capacities may be fractions,
-- so that the test `size < capacity` is a parameter. A pending `set` is its key and value; an operation
-- returns, beside the new state, the pending calls that it resolved, in order.
pub mod Waiting
use utp.Base.{ℕ, suc, ◌+◌, ◌≡◌, Bool, true, false, List, [], ◌∷◌, ◌++◌, Option, if◌then◌else◌}
use utp.Base.Map
use utp.Base.Map.{Map, nat_key}

pub record BlockingMap (C V : Type 0) : Type 0 where
  pub map : Map ℕ V
  pub capacity : C
  pub waiting_setters : List (ℕ × V)

module _ {C V : Type 0} where
  -- `new BlockingMap(capacity)`
  unfoldable pub create : C → BlockingMap C V
  create capacity = record { map = []; capacity = capacity; waiting_setters = [] }

  unfoldable pub size : BlockingMap C V → ℕ
  size m = Map.size m.map

  unfoldable pub get : BlockingMap C V → ℕ → Option V
  get m key = Map.get key m.map

  unfoldable pub has : BlockingMap C V → ℕ → Bool
  has m key = Map.has key m.map

  unfoldable pub keys : BlockingMap C V → List ℕ
  keys m = Map.keys m.map

  unfoldable pub values : BlockingMap C V → List V
  values m = Map.values m.map

  unfoldable pub clear : BlockingMap C V → BlockingMap C V
  clear m = record m { map = [] }

module _ {C V : Type 0} (below : ℕ → C → Bool) where
  -- the loop of `resolveNextSetter` over the waiting calls
  unfoldable pub resolve_from : BlockingMap C V → List (ℕ × V) → BlockingMap C V × List (ℕ × V)
  resolve_from m [] = (record m { waiting_setters = [] }, [])
  resolve_from m ((key, value) ∷ ws) =
      let (m', woken) = resolve_from (record m { map = Map.set key value m.map }) ws in
      if below (Map.size m.map) m.capacity
      then (m', (key, value) ∷ woken)
      else (record m { waiting_setters = (key, value) ∷ ws }, [])

  unfoldable pub resolve_next_setter : BlockingMap C V → BlockingMap C V × List (ℕ × V)
  resolve_next_setter m = resolve_from m m.waiting_setters

  -- `set`: the Boolean says whether the call returned at once.
  unfoldable pub set : BlockingMap C V → ℕ → V → (BlockingMap C V × List (ℕ × V)) × Bool
  set m key value =
      if below (Map.size m.map) m.capacity
      then (resolve_next_setter (record m { map = Map.set key value m.map }), true)
      else ((record m { waiting_setters = m.waiting_setters ++ (key, value) ∷ [] }, []), false)

  unfoldable pub delete : BlockingMap C V → ℕ → BlockingMap C V × List (ℕ × V)
  delete m key =
      if Map.has key m.map
      then resolve_next_setter (record m { map = Map.delete key m.map })
      else (m, [])

  unfoldable pub update_capacity : BlockingMap C V → C → BlockingMap C V × List (ℕ × V)
  update_capacity m capacity = resolve_next_setter (record m { capacity = capacity })
