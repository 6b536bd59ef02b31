-- ===== src/BlockingMap/Waiting.antt =====
-- No call waits while there is room, none is lost, and they are served in order.
use utp.Base.{
  ℕ, ◌≡◌, ◌⊎◌, inl, inr, refl, Bool, false, List, [], ◌∷◌, ◌++◌, if◌then◌else◌, Bool-cases, ap,
}
use utp.Base.Map
use utp.Base.Map.{Map, HasDistinctKeys, nat_key}
use utp.BlockingMap.{BlockingMap, resolve_from, resolve_next_setter, set, delete, update_capacity}

-- Either nobody waits, or the map is full.
abbrev pub IsSettled : {C V : Type 0} → (ℕ → C → Bool) → BlockingMap C V → Type 0
IsSettled below m = (m.waiting_setters ≡ []) ⊎ (below (Map.size m.map) m.capacity ≡ false)

module _ {C V : Type 0} (below : ℕ → C → Bool) where
  resolve_from-IsSettled :
      (ws : List (ℕ × V)) (m : BlockingMap C V) → IsSettled below (resolve_from below m ws).0
  unfolding resolve_from
  resolve_from-IsSettled [] m = inl refl
  resolve_from-IsSettled ((k, v) ∷ ws) m = elim (Bool-cases (below (Map.size m.map) m.capacity)) [
    | inl room ↦ rw room (resolve_from-IsSettled ws _)
    | inr full ↦ rw full (inr full)
  ]

  resolve_from-order :
      (ws : List (ℕ × V)) (m : BlockingMap C V)
      → (resolve_from below m ws).1 ++ (resolve_from below m ws).0.waiting_setters ≡ ws
  unfolding resolve_from
  resolve_from-order [] m = refl
  resolve_from-order ((k, v) ∷ ws) m = elim (Bool-cases (below (Map.size m.map) m.capacity)) [
    | inl room ↦ rw room (ap (λ t. (k, v) ∷ t) (resolve_from-order ws _))
    | inr full ↦ rw full
  ]

  set-IsSettled :
      (m : BlockingMap C V) (key : ℕ) (value : V)
      → IsSettled below m
      → IsSettled below (set below m key value).0.0
  unfolding set resolve_next_setter
  set-IsSettled m key value s = elim (Bool-cases (below (Map.size m.map) m.capacity)) [
    | inl room ↦ rw room (resolve_from-IsSettled m.waiting_setters _)
    | inr full ↦ rw full (inr full)
  ]

  delete-IsSettled :
      (m : BlockingMap C V) (key : ℕ) → IsSettled below m → IsSettled below (delete below m key).0
  unfolding delete resolve_next_setter
  delete-IsSettled m key s = elim (Bool-cases (Map.has key m.map)) [
    | inl present ↦ rw present (resolve_from-IsSettled m.waiting_setters _)
    | inr absent ↦ rw absent s
  ]

  update_capacity-IsSettled :
      (m : BlockingMap C V) (capacity : C) → IsSettled below (update_capacity below m capacity).0
  unfolding update_capacity resolve_next_setter
  update_capacity-IsSettled m capacity = resolve_from-IsSettled m.waiting_setters _

  -- After `set`, `delete` and `updateCapacity` no call waits while there is room, if none did before.
  pub operations-IsSettled :
      (m : BlockingMap C V) (key : ℕ) (value : V) (capacity : C)
      → IsSettled below m
      → IsSettled below (set below m key value).0.0
        × IsSettled below (delete below m key).0
        × IsSettled below (update_capacity below m capacity).0
  operations-IsSettled m key value capacity s =
      (set-IsSettled m key value s, delete-IsSettled m key s, update_capacity-IsSettled m capacity)

  -- Waiting calls are resolved first come, first served, and none is lost: those that an operation
  -- resolves and those that it leaves are those that waited, in order, a `set` that has to wait behind them.
  pub waiting_order :
      (m : BlockingMap C V) (key : ℕ) (value : V) (capacity : C)
      → ((delete below m key).1 ++ (delete below m key).0.waiting_setters ≡ m.waiting_setters)
        × ((update_capacity below m capacity).1
              ++ (update_capacity below m capacity).0.waiting_setters
            ≡ m.waiting_setters)
        × ((set below m key value).0.1 ++ (set below m key value).0.0.waiting_setters ≡ (
            if (set below m key value).1
            then m.waiting_setters
            else m.waiting_setters ++ (key, value) ∷ []))
  unfolding delete update_capacity set resolve_next_setter
  waiting_order m key value capacity =
      (delete_order, resolve_from-order m.waiting_setters _, set_order)
    where
      delete_order :
          (delete below m key).1 ++ (delete below m key).0.waiting_setters ≡ m.waiting_setters
      delete_order = elim (Bool-cases (Map.has key m.map)) [
        | inl present ↦ rw present (resolve_from-order m.waiting_setters _)
        | inr absent ↦ rw absent
      ]

      set_order : (set below m key value).0.1 ++ (set below m key value).0.0.waiting_setters ≡ (
          if (set below m key value).1
          then m.waiting_setters
          else m.waiting_setters ++ (key, value) ∷ [])
      set_order = elim (Bool-cases (below (Map.size m.map) m.capacity)) [
        | inl room ↦ rw room (resolve_from-order m.waiting_setters _)
        | inr full ↦ rw full
      ]
