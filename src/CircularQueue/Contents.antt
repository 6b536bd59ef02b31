-- ===== src/CircularQueue/Contents.antt =====
-- What the queue holds after each operation, as a lookup by key.
use utp.Base.{
  ℕ, ◌≡◌, false, Option, none, some, arith, if◌then◌else◌, ◌==◌, ◌&&◌, not, Option-cases, inl, inr,
  Bool, ◌∙◌, [], ◌∷◌,
}
use utp.Base.Map
use utp.Base.Map.{Map, HasDistinctKeys, nat_key}
use utp.Base.Sort.{
  contains, IsSortedBy, IsDistinct, IsAscending, sort_by-IsAscending, sort_by-IsSortedBy,
  contains-sort_by,
}
use utp.CircularQueue.{
  CircularQueue, minimum, enqueue, make_room, dequeue_by_key, keys, has, is_at_capacity,
}
use utp.CircularQueue.Minimum.{contains-keys}
use utp.CircularQueue.Invariant.{IsValid, update_oldest_key_lem}

abbrev pub is_key : Option ℕ → ℕ → Bool
is_key none j = false
is_key (some k) j = k == j

module _ {ℓ} {T : Type ℓ} where
  abbrev pub lookup : CircularQueue T → ℕ → Option T
  lookup q j = Map.get j q.items

  -- The key that an `enqueue` of `key` drops: the smallest one, of a full queue that lacks `key`.
  abbrev pub dropped : CircularQueue T → ℕ → Option ℕ
  dropped q key = if not (has q key) && is_at_capacity q then minimum (Map.keys q.items) else none

  -- After an `enqueue` into a valid queue the new item stands at its key; a full queue that lacked the key
  -- has dropped its smallest key; and every other key has what it had.
  pub lookup-enqueue :
      (q : CircularQueue T) (key j : ℕ) (item : T)
      → IsValid q
      → lookup (enqueue q key item) j
        ≡ (if key == j then some item else if is_key (dropped q key) j then none else lookup q j)
  unfolding enqueue make_room is_at_capacity has
  lookup-enqueue q key j item v = elim (Option-cases q.oldest_key) [
    | inl e ↦ ground (
      arith,
      v.oldest,
      Map.get-set key j item q.items,
      update_oldest_key_lem (record q { items = Map.set key item q.items }),
    )
    | inr (k, e) ↦ ground (
      arith,
      v.oldest,
      Map.get-set key j item q.items,
      Map.get-set key j item (Map.delete k q.items),
      Map.get-delete k j q.items v.distinct,
      update_oldest_key_lem (record q { items = Map.set key item q.items }),
      update_oldest_key_lem (record q { items = Map.set key item (Map.delete k q.items) }),
    )
  ]

  -- `dequeueByKey` of a valid queue returns what stood at the key, and takes that one key away.
  pub lookup-dequeue_by_key :
      (q : CircularQueue T) (key j : ℕ)
      → IsValid q
      → ((dequeue_by_key q key).0 ≡ lookup q key)
        × (lookup (dequeue_by_key q key).1 j ≡ (if key == j then none else lookup q j))
  unfolding dequeue_by_key
  lookup-dequeue_by_key q key j v = elim (Option-cases q.oldest_key) [
    | inl e ↦ ground (arith, Map.get-delete key j q.items v.distinct)
    | inr (k, e) ↦ ground (
      arith,
      Map.get-delete key j q.items v.distinct,
      update_oldest_key_lem (record q { items = Map.delete key q.items }),
    )
  ]

  -- `keys` lists, in ascending order, exactly the keys that `has` accepts.
  pub keys_lem :
      (q : CircularQueue T) (k : ℕ) → IsSortedBy (λ x. x) (keys q) × (contains k (keys q) ≡ has q k)
  unfolding keys has
  keys_lem q k = (
    sort_by-IsSortedBy (λ x. x) (Map.keys q.items),
    contains-sort_by (λ x. x) k (Map.keys q.items) ∙ contains-keys k q.items,
  )

  IsDistinct-keys : (m : Map ℕ T) → HasDistinctKeys m → IsDistinct (Map.keys m)
  unfolding Map.keys
  IsDistinct-keys [] d = tt
  IsDistinct-keys ((k, _) ∷ m) d = (contains-keys k m ∙ d.0, IsDistinct-keys m d.1)

  -- `keys` lists no key twice.
  pub keys-IsAscending : (q : CircularQueue T) → IsValid q → IsAscending (keys q)
  unfolding keys
  keys-IsAscending q v = sort_by-IsAscending (Map.keys q.items) (IsDistinct-keys q.items v.distinct)

module _ {ℓ} {T : Type ℓ} where
  -- In a valid queue, after an `enqueue` the new item stands at its key, a full queue that lacked the key has dropped
  -- its smallest key, and every other key has what it had; `dequeueByKey` returns what stood at its key, and takes
  -- that one key away.
  pub lookup_after_edits :
      (q : CircularQueue T) (key j : ℕ) (item : T)
      → IsValid q
      → (lookup (enqueue q key item) j
          ≡ (if key == j then some item else if is_key (dropped q key) j then none else lookup q j))
        × ((dequeue_by_key q key).0 ≡ lookup q key)
        × (lookup (dequeue_by_key q key).1 j ≡ (if key == j then none else lookup q j))
  lookup_after_edits q key j item v =
      let (taken, left) = lookup-dequeue_by_key q key j v in
      (lookup-enqueue q key j item v, taken, left)
