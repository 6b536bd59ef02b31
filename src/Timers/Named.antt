-- ===== src/Timers/Named.antt =====
-- src/timer_manager.ts: whether the timer of one name is there.
use utp.Base.{ℕ, ◌<◌, ◌≡◌, Bool, true, false, Bool-cases, Option-cases, inl, inr, some, ◌==◌, arith}
use utp.Base.Map
use utp.Base.Map.{Map, Key, HasDistinctKeys}
use utp.Timers.{exist, set_timer, clear_timer}

module _ {K : Type 0} ⦃key : Key K⦄ where
  -- The table has each name once, the name as `b` says, and for it a positive number.
  abbrev pub IsTimed : Map K ℕ → K → Bool → Type 0
  IsTimed m name b =
      HasDistinctKeys m × (exist m name ≡ b) × ((t : ℕ) → Map.get name m ≡ some t → 0 < t)

  clear-HasDistinctKeys :
      (m : Map K ℕ) (name : K) → HasDistinctKeys m → HasDistinctKeys (clear_timer m name).0
  unfolding clear_timer
  clear-HasDistinctKeys m name d = elim (Option-cases (Map.get name m)) [
    | inl absent ↦ rw absent d
    | inr (t, found) ↦ elim (Bool-cases (t == 0)) [
      | inl y ↦ rw (found, y) d
      | inr n ↦ rw (found, n) (Map.delete-HasDistinctKeys name m d)
    ]
  ]

  pub clear-IsTimed :
      (m : Map K ℕ) (name : K) (b : Bool)
      → IsTimed m name b
      → IsTimed (clear_timer m name).0 name false
  unfolding clear_timer exist
  clear-IsTimed m name b (d, e, positive) = elim (Option-cases (Map.get name m)) [
    | inl absent ↦ rw absent (d, Map.has-of_get-none name m absent, λ t found. positive t found)
    | inr (t, found) ↦
        let nonzero : (t == 0) ≡ false = ground (arith, positive t found) in
        rw (found, nonzero)
          (
            Map.delete-HasDistinctKeys name m d,
            ground (arith, Map.has-delete name name m d, key.same_iff name name),
            λ t' later. ground (arith, Map.get-delete name name m d, key.same_iff name name, later),
          )
  ]

  put-IsTimed :
      (m : Map K ℕ) (name : K) (t : ℕ)
      → HasDistinctKeys m
      → 0 < t
      → IsTimed (Map.set name t m) name true
  unfolding exist
  put-IsTimed m name t d p = (
    Map.set-HasDistinctKeys name t m d,
    ground (arith, Map.has-set name name t m, key.same_iff name name),
    λ t' found. ground (arith, Map.get-set name name t m, key.same_iff name name, found, p),
  )

  pub set-IsTimed :
      (m : Map K ℕ) (name : K) (t : ℕ)
      → HasDistinctKeys m
      → 0 < t
      → IsTimed (set_timer m name t).0 name true
  unfolding set_timer
  set-IsTimed m name t d p = elim (Bool-cases (Map.has name m)) [
    | inl old ↦
        rw old (put-IsTimed (clear_timer m name).0 name t (clear-HasDistinctKeys m name d) p)
    | inr new ↦ rw new (put-IsTimed m name t d p)
  ]
