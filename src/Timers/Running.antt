-- ===== src/Timers/Running.antt =====
-- src/timer_manager.ts: the intervals that run are those of the table.
use utp.Base.{
  ℕ, ◌<◌, ◌≡◌, refl, ◌∙◌, sym, ap, subst, true, false, Bool-cases, Option-cases, inl, inr, List, [],
  ◌∷◌, ◌++◌, some, map, ◌==◌, arith,
}
use utp.Base.Map
use utp.Base.Map.{Map, Key, HasDistinctKeys}
use utp.Base.Timing.{
  Timing, set_interval, clear_interval, running, running-append, stop, lists, AreDistinct,
  stop_absent, lists-stop, lists-append, stop-AreDistinct, fresh-AreDistinct, stop_all,
}
use utp.Timers.{clear_timer, set_timer, clear_all_timers}

module _ {K : Type 0} ⦃key : Key K⦄ where
  lists-get :
      (k : K) (id : ℕ) (m : Map K ℕ) → Map.get k m ≡ some id → lists id (Map.values m) ≡ true
  unfolding Map.get Map.values
  lists-get k id [] e = absurd (ground arith)
  lists-get k id ((j, v) ∷ m) e = ground (arith, lists-get k id m)

  -- Deleting a name stops its interval.
  values-delete :
      (k : K) (id : ℕ) (m : Map K ℕ)
      → Map.get k m ≡ some id
      → AreDistinct (Map.values m)
      → Map.values (Map.delete k m) ≡ stop id (Map.values m)
  unfolding Map.get Map.values Map.delete
  values-delete k id [] e d = refl
  values-delete k id ((j, v) ∷ m) e (n, d) =
      ground (arith, values-delete k id m, stop_absent id (Map.values m), lists-get k id m)

  values-set :
      (k : K) (id : ℕ) (m : Map K ℕ)
      → Map.has k m ≡ false
      → Map.values (Map.set k id m) ≡ Map.values m ++ id ∷ []
  unfolding Map.has Map.values Map.set
  values-set k id [] h = refl
  values-set k id ((j, v) ∷ m) h = ground (arith, values-set k id m)

  -- The intervals that run are those of the table, none twice, none with the number 0, and no name has two.
  abbrev pub AreRunning : Map K ℕ → List ℕ → Type 0
  AreRunning m is = (is ≡ Map.values m) × AreDistinct is × (lists 0 is ≡ false) × HasDistinctKeys m

  found-nonzero :
      (k : K) (id : ℕ) (m : Map K ℕ) (is : List ℕ)
      → AreRunning m is
      → Map.get k m ≡ some id
      → (id == 0) ≡ false
  found-nonzero k id m is (e, d, z, u) f = elim (Bool-cases (id == 0)) [
    | inl y ↦ absurd (ground (arith, lists-get k id m f))
    | inr n ↦ n
  ]

  clear-AreRunning :
      (k : K) (m : Map K ℕ) (is : List ℕ)
      → AreRunning m is
      → (let (m', ts) = clear_timer m k in AreRunning m' (running ts is) × (Map.has k m' ≡ false))
  unfolding clear_timer
  clear-AreRunning k m is v = elim (Option-cases (Map.get k m)) [
    | inl n ↦ rw n (v, Map.has-of_get-none k m n)
    | inr (id, f) ↦
        let (e, d, z, u) = v in
        rw (f, found-nonzero k id m is v f)
          (
            (
              ap (stop id) e ∙ sym (values-delete k id m f (subst AreDistinct e d)),
              stop-AreDistinct id is d,
              lists-stop 0 id is z,
              Map.delete-HasDistinctKeys k m u,
            ),
            Map.has-delete k k m u ∙ ground (arith, key.same_iff k k),
          )
  ]

  clear-Fresh :
      (k : K) (m : Map K ℕ) (id : ℕ) (is : List ℕ)
      → lists id is ≡ false
      → lists id (running (clear_timer m k).1 is) ≡ false
  unfolding clear_timer
  clear-Fresh k m id is h = elim (Option-cases (Map.get k m)) [
    | inl n ↦ rw n h
    | inr (i, f) ↦ rw f (ground (arith, lists-stop id i is))
  ]

  add-AreRunning :
      (k : K) (id : ℕ) (m : Map K ℕ) (is : List ℕ)
      → AreRunning m is
      → Map.has k m ≡ false
      → 0 < id
      → lists id is ≡ false
      → AreRunning (Map.set k id m) (is ++ id ∷ [])
  add-AreRunning k id m is (e, d, z, u) h p f = (
    ap (λ l. l ++ id ∷ []) e ∙ sym (values-set k id m h),
    fresh-AreDistinct id is f d,
    ground (arith, lists-append 0 is (id ∷ [])),
    Map.set-HasDistinctKeys k id m u,
  )

  -- what `setTimer` has cleared before it makes the new timer
  set-AreRunning :
      (k : K) (id : ℕ) (m : Map K ℕ) (is : List ℕ)
      → AreRunning m is
      → 0 < id
      → lists id is ≡ false
      → (let (m', ts) = set_timer m k id in AreRunning m' (running ts is))
  unfolding set_timer
  set-AreRunning k id m is v p f = elim (Bool-cases (Map.has k m)) [
    | inl old ↦
        let (w, h) = clear-AreRunning k m is v in
        let added =
          add-AreRunning k id (clear_timer m k).0 (running (clear_timer m k).1 is) w h p
            (clear-Fresh k m id is f) in
        rw old (
          subst (AreRunning (Map.set k id (clear_timer m k).0))
            (sym (running-append (clear_timer m k).1 (set_interval id ∷ []) is)) added)
    | inr new ↦ rw new (add-AreRunning k id m is v new p f)
  ]

  clear_all-AreRunning :
      (m : Map K ℕ) (is : List ℕ)
      → AreRunning m is
      → (let (m', ts) = clear_all_timers m in AreRunning m' (running ts is))
  unfolding clear_all_timers Map.values
  clear_all-AreRunning m is (e, d, z, u) =
      let none_left =
        ap (running (map clear_interval (Map.values m))) e
        ∙ stop_all (Map.values m) (subst AreDistinct e d) in
      (none_left, subst AreDistinct (sym none_left) tt, ap (lists 0) none_left, tt)

-- the calls of the timer manager; `sets` with what `setInterval` gives
pub data Call (K : Type 0) : Type 0 where
  sets : K → (timer : ℕ) → Call K
  clears : K → Call K
  clears_all : Call K

module _ {K : Type 0} ⦃key : Key K⦄ where
  unfoldable pub step : Map K ℕ → Call K → Map K ℕ × List Timing
  step m (sets k id) = set_timer m k id
  step m (clears k) = clear_timer m k
  step m clears_all = clear_all_timers m

  abbrev pub run : Map K ℕ → List ℕ → List (Call K) → Map K ℕ × List ℕ
  run m is [] = (m, is)
  run m is (call ∷ calls) = let (m', ts) = step m call in run m' (running ts is) calls

  -- a new timer has a positive number that no interval which runs has
  abbrev pub IsFresh : List ℕ → Call K → Type 0
  IsFresh is (sets k id) = (0 < id) × (lists id is ≡ false)
  IsFresh is (clears k) = Unit
  IsFresh is clears_all = Unit

  abbrev pub AreFresh : Map K ℕ → List ℕ → List (Call K) → Type 0
  AreFresh m is [] = Unit
  AreFresh m is (call ∷ calls) =
      IsFresh is call × (let (m', ts) = step m call in AreFresh m' (running ts is) calls)

  step-AreRunning :
      (m : Map K ℕ) (is : List ℕ) (call : Call K)
      → AreRunning m is
      → IsFresh is call
      → (let (m', ts) = step m call in AreRunning m' (running ts is))
  unfolding step
  step-AreRunning m is (sets k id) v (p, f) = set-AreRunning k id m is v p f
  step-AreRunning m is (clears k) v f = (clear-AreRunning k m is v).0
  step-AreRunning m is clears_all v f = clear_all-AreRunning m is v

  run-AreRunning :
      (calls : List (Call K)) (m : Map K ℕ) (is : List ℕ)
      → AreRunning m is
      → AreFresh m is calls
      → (let (m', is') = run m is calls in AreRunning m' is')
  run-AreRunning [] m is v f = v
  run-AreRunning (call ∷ calls) m is v (f, fs) =
      run-AreRunning calls (step m call).0 (running (step m call).1 is)
        (step-AreRunning m is call v f) fs

  -- After any calls of the timer manager, if each new timer has a positive number that no running interval has, the
  -- intervals that run are those of its table, each once, and no name has two: a timer that is set again replaces the
  -- one before, and none is left behind.
  pub table_runs :
      (calls : List (Call K))
      → AreFresh [] [] calls
      → (let (m, is) = run [] [] calls in AreRunning m is)
  unfolding Map.values
  table_runs calls f = run-AreRunning calls [] [] (refl, tt, refl, tt) f
