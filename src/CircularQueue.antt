-- ===== src/CircularQueue.antt =====
-- src/circular_queue.ts: the bounded map from sequence numbers to packets that holds what arrived
-- out of order. A full queue drops its smallest key. Its items are objects, so that
-- `if (item)` asks whether the key was there.
pub mod Minimum
pub mod Invariant
pub mod Contents
use utp.Base.{
  ℕ, ◌≡◌, Bool, true, false, List, [], ◌∷◌, Option, none, some, leb, ◌==◌, if◌then◌else◌, min, max,
}
use utp.Base.Map
use utp.Base.Map.{Map, nat_key}
use utp.Base.Sort.{sort_by}

pub record CircularQueue {ℓ} (T : Type ℓ) : Type ℓ where
  pub capacity : ℕ
  pub items : Map ℕ T
  pub oldest_key : Option ℕ

-- `Math.min(...keys)` and `Math.max(...keys)` of a list that is not empty.
unfoldable pub minimum : List ℕ → Option ℕ
minimum [] = none
minimum (x ∷ xs) = elim (minimum xs) [ none ↦ some x | some m ↦ some (min x m) ]

unfoldable pub maximum : List ℕ → Option ℕ
maximum [] = none
maximum (x ∷ xs) = elim (maximum xs) [ none ↦ some x | some m ↦ some (max x m) ]

module _ {ℓ} {T : Type ℓ} where
  -- `new CircularQueue(capacity)`
  unfoldable pub create : ℕ → CircularQueue T
  create capacity = record { capacity = capacity; items = []; oldest_key = none }

  unfoldable pub size : CircularQueue T → ℕ
  size q = Map.size q.items

  unfoldable pub keys : CircularQueue T → List ℕ
  keys q = sort_by (λ k. k) (Map.keys q.items)

  unfoldable pub is_empty : CircularQueue T → Bool
  unfolding size
  is_empty q = size q == 0

  unfoldable pub max_key : CircularQueue T → Option ℕ
  unfolding is_empty
  max_key q = if is_empty q then none else maximum (Map.keys q.items)

  unfoldable pub min_key : CircularQueue T → Option ℕ
  unfolding is_empty
  min_key q = if is_empty q then none else minimum (Map.keys q.items)

  unfoldable pub has : CircularQueue T → ℕ → Bool
  has q key = Map.has key q.items

  unfoldable pub is_at_capacity : CircularQueue T → Bool
  unfolding size
  is_at_capacity q = leb q.capacity (size q)

  unfoldable pub update_oldest_key : CircularQueue T → CircularQueue T
  unfolding is_empty
  update_oldest_key q =
      if is_empty q
      then record q { oldest_key = none }
      else record q { oldest_key = minimum (Map.keys q.items) }

  -- The eviction of `enqueue`: at capacity the oldest key goes, if there is one.
  unfoldable pub make_room : CircularQueue T → CircularQueue T
  unfolding is_at_capacity
  make_room q =
      if is_at_capacity q
      then elim q.oldest_key [ none ↦ q | some k ↦ record q { items = Map.delete k q.items } ]
      else q

  unfoldable pub enqueue : CircularQueue T → ℕ → T → CircularQueue T
  enqueue q key item =
      if Map.has key q.items
      then record q { items = Map.set key item q.items }
      else let r = make_room q in update_oldest_key (record r { items = Map.set key item r.items })

  unfoldable pub dequeue_by_key : CircularQueue T → ℕ → Option T × CircularQueue T
  dequeue_by_key q key =
      let item = Map.get key q.items in
      let left = record q { items = Map.delete key q.items } in
      elim item [
        | none ↦ (none, q)
        | some found ↦ (
          some found,
          elim q.oldest_key [
            | none ↦ left
            | some k ↦ if key == k then update_oldest_key left else left
          ],
        )
      ]

  unfoldable pub clear : CircularQueue T → CircularQueue T
  clear q = record q { items = []; oldest_key = none }
