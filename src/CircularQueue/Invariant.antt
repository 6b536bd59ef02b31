-- ===== src/CircularQueue/Invariant.antt =====
-- The invariant of the queue, kept by all its operations.
use utp.Base.{ℕ, ◌≤◌, ◌<◌, ◌≡◌, ◌≢◌, refl, true, [], ◌∷◌, none, some, arith, Option-cases, inl, inr}
use utp.Base.Map
use utp.Base.Map.{Map, HasDistinctKeys, nat_key}
use utp.CircularQueue.{
  CircularQueue, minimum, create, size, enqueue, make_room, update_oldest_key, dequeue_by_key,
  clear,
}
use utp.CircularQueue.Minimum.{minimum-delete_ne, keys-set_present, contains-keys, minimum-contains}

-- No key twice, not more items than the capacity, and the oldest key is the smallest.
pub record IsValid {ℓ} {T : Type ℓ} (q : CircularQueue T) : Type 0 where
  pub distinct : HasDistinctKeys q.items
  pub bounded : size q ≤ q.capacity
  pub oldest : q.oldest_key ≡ minimum (Map.keys q.items)

module _ {ℓ} {T : Type ℓ} where
  pub create-IsValid : (capacity : ℕ) → IsValid (create {T = T} capacity)
  unfolding create size minimum Map.keys Map.size
  create-IsValid capacity = record { distinct = tt; bounded = omega arith; oldest = refl }

  pub clear-IsValid : (q : CircularQueue T) → IsValid (clear q)
  unfolding clear size minimum Map.keys Map.size
  clear-IsValid q = record { distinct = tt; bounded = omega arith; oldest = refl }

  pub has_of_minimum : (m : Map ℕ T) (k : ℕ) → minimum (Map.keys m) ≡ some k → Map.has k m ≡ true
  has_of_minimum m k h = rw (← contains-keys k m) (minimum-contains (Map.keys m) k h)

  minimum_of_empty : (m : Map ℕ T) → Map.size m ≡ 0 → minimum (Map.keys m) ≡ none
  unfolding Map.size Map.keys minimum
  minimum_of_empty [] h = refl
  minimum_of_empty (_ ∷ m) h = absurd (omega arith)

  minimum_of_pos : (m : Map ℕ T) → 0 < Map.size m → minimum (Map.keys m) ≢ none
  unfolding Map.size Map.keys minimum
  minimum_of_pos [] h = ground arith
  minimum_of_pos (_ ∷ m) h = ground arith

  -- What `make_room` leaves has room for one more key, and no new keys.
  pub make_room_lem :
      (q : CircularQueue T)
      → IsValid q
      → 0 < q.capacity
      → HasDistinctKeys (make_room q).items
        × (size (make_room q) < q.capacity)
        × ((make_room q).capacity ≡ q.capacity)
  unfolding make_room size
  make_room_lem q v pos = elim (Option-cases q.oldest_key) [
    | inl e ↦ ground (arith, minimum_of_pos q.items)
    | inr (k, e) ↦ ground (
      arith,
      Map.size-delete k q.items,
      Map.delete-HasDistinctKeys k q.items v.distinct,
      has_of_minimum q.items k,
    )
  ]

  get_of_minimum-none : (key : ℕ) (m : Map ℕ T) → minimum (Map.keys m) ≡ none → Map.get key m ≡ none
  unfolding minimum Map.keys Map.get
  get_of_minimum-none key [] h = refl
  get_of_minimum-none key (_ ∷ m) h = ground arith

  pub update_oldest_key_lem :
      (q : CircularQueue T)
      → (update_oldest_key q).items ≡ q.items
        × ((update_oldest_key q).capacity ≡ q.capacity)
        × ((update_oldest_key q).oldest_key ≡ minimum (Map.keys q.items))
  unfolding update_oldest_key size
  update_oldest_key_lem q = ground (arith, minimum_of_empty q.items)

  -- `enqueue` keeps the invariant of a queue whose capacity is not 0: no key twice, not more items than
  -- the capacity, and the oldest key is the smallest.
  pub enqueue-IsValid :
      (q : CircularQueue T) (key : ℕ) (item : T)
      → 0 < q.capacity
      → IsValid q
      → IsValid (enqueue q key item)
  unfolding enqueue size
  enqueue-IsValid q key item pos v = ground (
    arith,
    keys-set_present key item q.items,
    Map.size-set key item q.items,
    Map.size-set key item (make_room q).items,
    Map.set-HasDistinctKeys key item q.items,
    Map.set-HasDistinctKeys key item (make_room q).items,
    make_room_lem q v pos,
    update_oldest_key_lem (record (make_room q) { items = Map.set key item (make_room q).items }),
  )

  -- `dequeueByKey` keeps the invariant: no key twice, not more items than the capacity, and the oldest
  -- key is the smallest.
  pub dequeue_by_key-IsValid :
      (q : CircularQueue T) (key : ℕ) → IsValid q → IsValid (dequeue_by_key q key).1
  unfolding dequeue_by_key size
  dequeue_by_key-IsValid q key v = elim (Option-cases q.oldest_key) [
    | inl e ↦ ground (arith, e, get_of_minimum-none key q.items)
    | inr (k, e) ↦ ground (
      arith,
      e,
      Map.size-delete key q.items,
      Map.delete-HasDistinctKeys key q.items v.distinct,
      minimum-delete_ne key k q.items,
      update_oldest_key_lem (record q { items = Map.delete key q.items }),
    )
  ]

module _ {ℓ} {T : Type ℓ} where
  -- `enqueue`, `dequeueByKey` and `clear` keep the invariant of a queue whose capacity is not 0: no key twice, not
  -- more items than the capacity, and the oldest key is the smallest.
  pub edits-IsValid :
      (q : CircularQueue T) (key : ℕ) (item : T)
      → 0 < q.capacity
      → IsValid q
      → IsValid (enqueue q key item) × IsValid (dequeue_by_key q key).1 × IsValid (clear q)
  edits-IsValid q key item pos v =
      (enqueue-IsValid q key item pos v, dequeue_by_key-IsValid q key v, clear-IsValid q)
