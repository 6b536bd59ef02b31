-- ===== src/Statistic/Interval.antt =====
-- src/statistic.ts: the interval of a statistic.
use utp.Base.{
  ℕ, Option-cases, inl, inr, sym, subst, ◌≡◌, refl, Bool, true, false, List, [], ◌∷◌, Option, none,
  some, if◌then◌else◌, arith,
}
use utp.Statistic.{
  Statistic, new, update_sent_data, update_recv_data, second_over, release, clear,
  start_speed_measurement,
}
use utp.Base.Timing.{stop, running}
use utp.Statistic.Speeds.{Call, sends, receives, starts, ticks, releases, clears, step}

abbrev pub run_intervals : Statistic → List Call → List ℕ → Statistic × List ℕ
run_intervals s [] is = (s, is)
run_intervals s (call ∷ calls) is =
    let (s', ts) = step s call in run_intervals s' calls (running ts is)

abbrev pub of_option : Option ℕ → List ℕ
of_option none = []
of_option (some id) = id ∷ []

abbrev pub is_set : Option ℕ → Bool
is_set none = false
is_set (some _) = true

-- The interval that it knows is the only one that runs, and it knows one exactly while it is started.
abbrev pub IsMeasuring : Statistic → List ℕ → Type 0
IsMeasuring s is = (is ≡ of_option s.interval_id) × (s.started ≡ is_set s.interval_id)

stop_own : (id : ℕ) (is : List ℕ) → is ≡ id ∷ [] → stop id is ≡ []
stop_own id is e = rw e (ground arith)

release-IsMeasuring :
    (s : Statistic) (is : List ℕ)
    → IsMeasuring s is
    → (let (s', ts) = release s in IsMeasuring s' (running ts is))
unfolding release
release-IsMeasuring s is (e, f) = elim (Option-cases s.interval_id) [
  | inl n ↦ (ground arith, ground arith)
  | inr (id, n) ↦ (ground (arith, stop_own id is), ground arith)
]

start-IsMeasuring :
    (s : Statistic) (id : ℕ) (is : List ℕ)
    → IsMeasuring s is
    → (let (s', ts) = start_speed_measurement s id in IsMeasuring s' (running ts is))
unfolding start_speed_measurement
start-IsMeasuring s id is (e, f) = elim (Option-cases s.interval_id) [
  | inl n ↦ (ground arith, ground arith)
  | inr (i, n) ↦ (ground arith, ground arith)
]

-- The test before `startSpeedMeasurement` is the one inside it.
started_twice :
    (s : Statistic) (id : ℕ)
    → (if s.started then (s, []) else start_speed_measurement s id) ≡ start_speed_measurement s id
unfolding start_speed_measurement
started_twice s id = ground arith

ensured-IsMeasuring :
    (s : Statistic) (id : ℕ) (is : List ℕ)
    → IsMeasuring s is
    → (let (s', ts) = (if s.started then (s, []) else start_speed_measurement s id) in
        IsMeasuring s' (running ts is))
ensured-IsMeasuring s id is v =
    subst (λ r. IsMeasuring r.0 (running r.1 is)) (sym (started_twice s id))
      (start-IsMeasuring s id is v)

step-IsMeasuring :
    (s : Statistic) (call : Call) (is : List ℕ)
    → IsMeasuring s is
    → (let (s', ts) = step s call in IsMeasuring s' (running ts is))
unfolding step update_sent_data update_recv_data second_over clear
step-IsMeasuring s (sends id amount) is v = ensured-IsMeasuring s id is v
step-IsMeasuring s (receives id amount) is v = ensured-IsMeasuring s id is v
step-IsMeasuring s (starts id) is v = start-IsMeasuring s id is v
step-IsMeasuring s ticks is v = v
step-IsMeasuring s releases is v = release-IsMeasuring s is v
step-IsMeasuring s clears is v = release-IsMeasuring s is v

run_intervals-IsMeasuring :
    (calls : List Call) (s : Statistic) (is : List ℕ)
    → IsMeasuring s is
    → (let (s', is') = run_intervals s calls is in IsMeasuring s' is')
run_intervals-IsMeasuring [] s is v = v
run_intervals-IsMeasuring (call ∷ calls) s is v =
    run_intervals-IsMeasuring calls (step s call).0 (running (step s call).1 is)
      (step-IsMeasuring s call is v)

-- After any calls, at most one interval of a statistic runs: the one that it knows, and it knows one exactly while it
-- is started.
pub one_interval :
    (calls : List Call) → (let (s, is) = run_intervals new calls [] in IsMeasuring s is)
one_interval calls = run_intervals-IsMeasuring calls new [] (refl, refl)
